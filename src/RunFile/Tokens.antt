-- ===== src/RunFile/Tokens.antt =====
-- `tokenize_run_line`, on `get_tokens` of src/gpumd_compat/error.cu: the words of a line, up to the
-- first that begins with `#`.
use dmg_md.Base.{
  ◌≡◌, Bool, false, List, [], ◌∷◌, ◌++◌, if◌then◌else◌, ◌==◌, All, All-append, Bool-cases, inl, inr,
}
use dmg_md.RunFile.Text.{is_space}
use dmg_md.RunFile.{Bytes}

-- The word read so far goes to the list if it is not empty.
unfoldable pub flush : Bytes → List Bytes → List Bytes
flush [] words = words
flush (c ∷ cs) words = (c ∷ cs) ∷ words

unfoldable pub words_from : Bytes → Bytes → List Bytes
words_from word [] = flush word []
words_from word (c ∷ cs) =
    if is_space c then flush word (words_from [] cs) else words_from (word ++ c ∷ []) cs

unfoldable pub get_tokens : Bytes → List Bytes
get_tokens line = words_from [] line

unfoldable pub is_comment : Bytes → Bool
is_comment [] = false
is_comment (c ∷ cs) = c == b'#'

unfoldable pub before_comment : List Bytes → List Bytes
before_comment [] = []
before_comment (t ∷ ts) = let rest = before_comment ts in if is_comment t then [] else t ∷ rest

unfoldable pub tokenize_run_line : Bytes → List Bytes
tokenize_run_line line = before_comment (get_tokens line)

-- What a word of a line is: bytes that are no spaces, at least one.
abbrev pub IsWord : Bytes → Type 0
IsWord [] = ⊥
IsWord (c ∷ cs) = All (λ b. is_space b ≡ false) (c ∷ cs)

All-flush :
    (word : Bytes) (words : List Bytes)
    → All (λ b. is_space b ≡ false) word
    → All IsWord words
    → All IsWord (flush word words)
unfolding flush
All-flush [] words solid rest = rest
All-flush (c ∷ cs) words solid rest = (solid, rest)

All-words_from :
    (word line : Bytes) → All (λ b. is_space b ≡ false) word → All IsWord (words_from word line)
unfolding words_from
All-words_from word [] solid = All-flush word [] solid tt
All-words_from word (c ∷ cs) solid = elim (Bool-cases (is_space c)) [
  | inl space ↦ rw space (All-flush word (words_from [] cs) solid (All-words_from [] cs tt))
  | inr other ↦ rw other (
      All-words_from (word ++ c ∷ []) cs
        (All-append (λ b. is_space b ≡ false) word (c ∷ []) solid (other, tt)))
]

-- A token: a word that does not begin a comment.
abbrev pub IsToken : Bytes → Type 0
IsToken t = IsWord t × (is_comment t ≡ false)

All-before_comment : (ts : List Bytes) → All IsWord ts → All IsToken (before_comment ts)
unfolding before_comment
All-before_comment [] words = tt
All-before_comment (t ∷ ts) words = elim (Bool-cases (is_comment t)) [
  | inl comment ↦ rw comment tt
  | inr other ↦ rw other ((words.0, other), All-before_comment ts words.1)
]

-- Every token of a line has at least one byte, holds no space and does not begin with `#`.
pub tokenize-IsToken : (line : Bytes) → All IsToken (tokenize_run_line line)
unfolding tokenize_run_line get_tokens
tokenize-IsToken line = All-before_comment (get_tokens line) (All-words_from [] line tt)
