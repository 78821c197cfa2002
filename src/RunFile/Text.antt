-- ===== src/RunFile/Text.antt =====
-- Words of the run file as bytes.
use Prim.Native.Char.{code}
use Prim.Native.String.{String}
use dmg_md.Base.{ℕ, Bool, true, false, ◌&&◌, [], ◌∷◌, ◌==◌, ◌||◌, leb, ◌≡◌, refl, arith}
use dmg_md.RunFile.{Bytes}

abbrev pub codes : String → Bytes
codes String.[] = []
codes (String.◌∷◌ c s) = code c ∷ codes s

unfoldable pub same_bytes : Bytes → Bytes → Bool
same_bytes [] [] = true
same_bytes (a ∷ as') (b ∷ bs) = a == b && same_bytes as' bs
same_bytes _ _ = false

-- Equal bytes are the same text.
pub same_bytes-eq : (a b : Bytes) → same_bytes a b ≡ true → a ≡ b
unfolding same_bytes
same_bytes-eq [] [] h = refl
same_bytes-eq [] (b ∷ bs) h = cc
same_bytes-eq (a ∷ as') [] h = cc
same_bytes-eq (a ∷ as') (b ∷ bs) h =
    let rest : as' ≡ bs = same_bytes-eq as' bs (ground arith) in
    let first : a ≡ b = ground arith in cc

-- `token == "word"`; the word is an ASCII text.
unfoldable pub is_word : Bytes → String → Bool
unfolding same_bytes
is_word token word = same_bytes token (codes word)

-- `std::isspace` in the C locale.
unfoldable pub is_space : ℕ → Bool
is_space c = c == b' ' || leb 9 c && leb c 13
