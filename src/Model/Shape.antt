-- ===== src/Model/Shape.antt =====
-- The arrays of a model that was read have the sizes that `HostAtoms::validate` asks for.
use dmg_md.Layout.Geometry.{Vec3}
use dmg_md.Base.{
  ℕ, zero, suc, ◌*◌, ◌^◌, ◌<◌, ◌≡◌, refl, sym, ap, ◌∙◌, List, [], ◌∷◌, ◌++◌, map, ok, >>=-eq-ok,
  ok-injective, arith, length, length-map, length-append, get_or,
}
use dmg_md.Base.Floats.{Floats}
use dmg_md.Base.Int.{pos}
use dmg_md.RunFile.{Bytes}
use dmg_md.RunFile.Numbers.{Strtod}
use dmg_md.Model.{validate, check_labels, local_count}
use dmg_md.Model.Atoms.{Columns, group_width, read_atom}
use dmg_md.Model.Reader.{upto, Line, read_atoms, arrays_of, labels_of}

length-upto : (k n : ℕ) → length (upto k n) ≡ n
length-upto k zero = refl
length-upto k (suc n) = ap suc (length-upto (suc k) n)

module _ (F : Floats) (strtod : Bytes → Strtod F.Double) (to_float : F.Double → F.Double) where
  -- An accepted loop gives one atom for each count.
  pub length-read_atoms :
      (file : Bytes) (columns : Columns) (symbols : List Bytes) (atoms k left : ℕ)
      (lines : List Bytes) {as' : List (Line F strtod to_float)}
      → read_atoms F strtod to_float file columns symbols atoms k left lines ≡ ok as'
      → length as' ≡ left
  unfolding read_atoms
  length-read_atoms file columns symbols atoms k zero lines e = ground arith
  length-read_atoms file columns symbols atoms k (suc left) [] e = cc
  length-read_atoms file columns symbols atoms k (suc left) (line ∷ lines) e =
      let (a, one, e1) = >>=-eq-ok (read_atom F strtod to_float columns symbols atoms line _) _ e in
      let (rest, more, e2) =
        >>=-eq-ok (read_atoms F strtod to_float file columns symbols atoms (suc k) left lines) _
          e1 in
      sym (ap length (ok-injective e2))
      ∙ ap suc (length-read_atoms file columns symbols atoms (suc k) left lines more)

  check_labels-ok :
      (n : ℕ) (atoms : List (Line F strtod to_float)) (methods : List ℕ)
      → length atoms ≡ n
      → check_labels F n (map (λ m. labels_of F strtod to_float m atoms) methods) ≡ ok tt
  unfolding check_labels
  check_labels-ok n atoms [] len = refl
  check_labels-ok n atoms (m ∷ ms) len = ground (
    arith,
    check_labels-ok n atoms ms len,
    length-map atoms (λ (a : Line F strtod to_float). get_or a.labels m (pos 0)),
  )

  three :
      {A : Type 0} (xs ys zs : List A) (n : ℕ)
      → length xs ≡ n
      → length ys ≡ n
      → length zs ≡ n
      → length (xs ++ ys ++ zs) ≡ 3 * n
  three xs ys zs n a b c = omega (arith, length-append (xs ++ ys) zs, length-append xs ys)

  -- The three components of a vector, one array after the other.
  length-components :
      (atoms : List (Line F strtod to_float)) (v : Line F strtod to_float → Vec3 F.Double)
      → length (map (λ a. (v a).x) atoms ++ map (λ a. (v a).y) atoms ++ map (λ a. (v a).z) atoms)
        ≡ 3 * length atoms
  length-components atoms v =
      three (map (λ a. (v a).x) atoms) (map (λ a. (v a).y) atoms) (map (λ a. (v a).z) atoms)
        (length atoms) (length-map atoms (λ a. (v a).x)) (length-map atoms (λ a. (v a).y))
        (length-map atoms (λ a. (v a).z))

  -- `validate` accepts the arrays of any list of atoms, as many as the count says.
  pub validate-arrays_of :
      (columns : Columns) (n : ℕ) (atoms : List (Line F strtod to_float))
      → length atoms ≡ n
      → n < 2 ^ 31
      → validate F (arrays_of F strtod to_float columns n atoms) ≡ ok tt
  unfolding validate arrays_of local_count
  validate-arrays_of columns n atoms len small = ground (
    arith,
    length-upto 0 n,
    length-map atoms (λ (a : Line F strtod to_float). a.species),
    length-map atoms (λ (a : Line F strtod to_float). a.type),
    length-map atoms (λ (a : Line F strtod to_float). a.mass),
    length-map atoms (λ (a : Line F strtod to_float). a.charge),
    length-components atoms (λ (a : Line F strtod to_float). a.position),
    length-components atoms (λ (a : Line F strtod to_float). a.velocity),
    check_labels-ok n atoms (upto 0 (group_width columns.group)) len,
  )
