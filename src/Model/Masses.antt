-- ===== src/Model/Masses.antt =====
-- The default masses of src/model_parser.cpp, in units of 10^-10. Both that number and 10^10 are
-- exact in `double`, so that their quotient is the literal of the source.
use Prim.Native.String.{String}
use dmg_md.Base.{ℕ, ◌^◌, List, [], ◌∷◌, Option, none, some, if◌then◌else◌}
use dmg_md.Base.Floats.{Floats}
use dmg_md.Base.Int.{pos}
use dmg_md.RunFile.{Bytes}
use dmg_md.RunFile.Text.{is_word}

abbrev pub masses : List (String × ℕ)
masses =
    ("H", 10080000000)
    ∷ ("He", 40026020000)
    ∷ ("Li", 69400000000)
    ∷ ("Be", 90121831000)
    ∷ ("B", 108100000000)
    ∷ ("C", 120110000000)
    ∷ ("N", 140070000000)
    ∷ ("O", 159990000000)
    ∷ ("F", 189984031630)
    ∷ ("Ne", 201797000000)
    ∷ ("Na", 229897692800)
    ∷ ("Mg", 243050000000)
    ∷ ("Al", 269815385000)
    ∷ ("Si", 280850000000)
    ∷ ("P", 309737619980)
    ∷ ("S", 320600000000)
    ∷ ("Cl", 354500000000)
    ∷ ("Ar", 399480000000)
    ∷ ("K", 390983000000)
    ∷ ("Ca", 400780000000)
    ∷ ("Sc", 449559080000)
    ∷ ("Ti", 478670000000)
    ∷ ("V", 509415000000)
    ∷ ("Cr", 519961000000)
    ∷ ("Mn", 549380440000)
    ∷ ("Fe", 558450000000)
    ∷ ("Co", 589331940000)
    ∷ ("Ni", 586934000000)
    ∷ ("Cu", 635460000000)
    ∷ ("Zn", 653800000000)
    ∷ ("Ga", 697230000000)
    ∷ ("Ge", 726300000000)
    ∷ ("As", 749215950000)
    ∷ ("Se", 789710000000)
    ∷ ("Br", 799040000000)
    ∷ ("Kr", 837980000000)
    ∷ ("Rb", 854678000000)
    ∷ ("Sr", 876200000000)
    ∷ ("Y", 889058400000)
    ∷ ("Zr", 912240000000)
    ∷ ("Nb", 929063700000)
    ∷ ("Mo", 959500000000)
    ∷ ("Tc", 980000000000)
    ∷ ("Ru", 1010700000000)
    ∷ ("Rh", 1029055000000)
    ∷ ("Pd", 1064200000000)
    ∷ ("Ag", 1078682000000)
    ∷ ("Cd", 1124140000000)
    ∷ ("In", 1148180000000)
    ∷ ("Sn", 1187100000000)
    ∷ ("Sb", 1217600000000)
    ∷ ("Te", 1276000000000)
    ∷ ("I", 1269044700000)
    ∷ ("Xe", 1312930000000)
    ∷ ("Cs", 1329054519600)
    ∷ ("Ba", 1373270000000)
    ∷ ("La", 1389054700000)
    ∷ ("Ce", 1401160000000)
    ∷ ("Pr", 1409076600000)
    ∷ ("Nd", 1442420000000)
    ∷ ("Pm", 1450000000000)
    ∷ ("Sm", 1503600000000)
    ∷ ("Eu", 1519640000000)
    ∷ ("Gd", 1572500000000)
    ∷ ("Tb", 1589253500000)
    ∷ ("Dy", 1625000000000)
    ∷ ("Ho", 1649303300000)
    ∷ ("Er", 1672590000000)
    ∷ ("Tm", 1689342200000)
    ∷ ("Yb", 1730450000000)
    ∷ ("Lu", 1749668000000)
    ∷ ("Hf", 1784900000000)
    ∷ ("Ta", 1809478800000)
    ∷ ("W", 1838400000000)
    ∷ ("Re", 1862070000000)
    ∷ ("Os", 1902300000000)
    ∷ ("Ir", 1922170000000)
    ∷ ("Pt", 1950840000000)
    ∷ ("Au", 1969665690000)
    ∷ ("Hg", 2005920000000)
    ∷ ("Tl", 2043800000000)
    ∷ ("Pb", 2072000000000)
    ∷ ("Bi", 2089804000000)
    ∷ ("Po", 2100000000000)
    ∷ ("At", 2100000000000)
    ∷ ("Rn", 2220000000000)
    ∷ ("Fr", 2230000000000)
    ∷ ("Ra", 2260000000000)
    ∷ ("Ac", 2270000000000)
    ∷ ("Th", 2320377000000)
    ∷ ("Pa", 2310358800000)
    ∷ ("U", 2380289100000)
    ∷ ("Np", 2370000000000)
    ∷ ("Pu", 2440000000000)
    ∷ ("Am", 2430000000000)
    ∷ ("Cm", 2470000000000)
    ∷ ("Bk", 2470000000000)
    ∷ ("Cf", 2510000000000)
    ∷ ("Es", 2520000000000)
    ∷ ("Fm", 2570000000000)
    ∷ ("Md", 2580000000000)
    ∷ ("No", 2590000000000)
    ∷ ("Lr", 2620000000000)
    ∷ []

unfoldable pub mass_in : List (String × ℕ) → Bytes → Option ℕ
mass_in [] symbol = none
mass_in (m ∷ ms) symbol = if is_word symbol m.0 then some m.1 else mass_in ms symbol

-- A missing symbol is an error where it is read.
unfoldable pub default_mass : (F : Floats) → Bytes → Option F.Double
default_mass F symbol = elim (mass_in masses symbol) [
  | none ↦ none
  | some n ↦ some (F.div (F.of_int (pos n)) (F.of_int (pos (10 ^ 10))))
]
