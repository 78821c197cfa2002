-- ===== src/RunFile/Numbers.antt =====
-- `parse_int` on the C library's `strtol` with base 0, and `parse_real` on a reader of numbers.
use dmg_md.Base.{
  ℕ, zero, suc, ◌+◌, ◌-◌, ◌*◌, ◌^◌, ◌≡◌, Bool, true, false, not, ◌&&◌, ◌||◌, [], ◌∷◌, Result, ok,
  err, arith, ltb, leb, ◌==◌, if◌then◌else◌,
}
use dmg_md.Base.Floats.{Floats}
use dmg_md.Base.Int.{ℤ, pos, negsuc}
use dmg_md.RunFile.Text.{is_space}
use dmg_md.RunFile.{Bytes, SourceLocation, InputError, not_an_integer, not_a_real}

-- The bytes that a C string shows: up to the first zero byte.
unfoldable pub c_str : Bytes → Bytes
c_str [] = []
c_str (c ∷ cs) = if c == 0 then [] else c ∷ c_str cs

unfoldable pub skip_spaces : Bytes → Bytes
skip_spaces [] = []
skip_spaces (c ∷ cs) = if is_space c then skip_spaces cs else c ∷ cs

-- The value of a digit, 36 if the byte is none.
unfoldable pub digit_of : ℕ → ℕ
digit_of c =
    if leb b'0' c && leb c b'9'
    then c - b'0'
    else if leb b'a' c && leb c b'z'
    then c - b'a' + 10
    else if leb b'A' c && leb c b'Z'
    then c - b'A' + 10
    else 36

-- A number read so far, whether any digit was read, and what follows.
pub record Digits : Type 0 where
  pub value : ℕ
  pub any : Bool
  pub rest : Bytes

unfoldable pub read_digits : ℕ → ℕ → Bool → Bytes → Digits
read_digits base value any [] = record { value = value; any = any; rest = [] }
read_digits base value any (c ∷ cs) =
    if ltb (digit_of c) base
    then read_digits base (value * base + digit_of c) true cs
    else record { value = value; any = any; rest = c ∷ cs }

pub is_x : ℕ → Bool
is_x c = c == b'x' || c == b'X'

-- Base 0: `0x` before a hexadecimal digit is base 16, another leading 0 is base 8, else base 10.
unfoldable pub read_magnitude : Bytes → Digits
read_magnitude (z ∷ x ∷ d ∷ cs) =
    if z == b'0' && is_x x && ltb (digit_of d) 16
    then read_digits 16 0 false (d ∷ cs)
    else read_digits (if z == b'0' then 8 else 10) 0 false (z ∷ x ∷ d ∷ cs)
read_magnitude (z ∷ cs) = read_digits (if z == b'0' then 8 else 10) 0 false (z ∷ cs)
read_magnitude [] = record { value = 0; any = false; rest = [] }

-- What `strtol` gives: a value, unless no digit was found; the bytes at `end`; `errno`.
pub record Strtol : Type 0 where
  pub value : ℤ
  pub converted : Bool
  pub rest : Bytes
  pub range_error : Bool

-- A `long` has 64 bits; out of range the value is the nearest one and `errno` is set.
abbrev pub signed_value : Bool → ℕ → ℤ
signed_value false n = pos (if ltb n (2 ^ 63) then n else 2 ^ 63 - 1)
signed_value true zero = pos 0
signed_value true (suc n) = negsuc (if ltb n (2 ^ 63) then n else 2 ^ 63 - 1)

abbrev pub out_of_long : Bool → ℕ → Bool
out_of_long false n = leb (2 ^ 63) n
out_of_long true n = ltb (2 ^ 63) n

abbrev pub strtol_of : Bool → Digits → Strtol
strtol_of minus d = record {
  value = signed_value minus d.value;
  converted = d.any;
  rest = d.rest;
  range_error = out_of_long minus d.value;
}

abbrev pub strtol_signed : Bytes → Strtol
strtol_signed [] = strtol_of false (read_magnitude [])
strtol_signed (c ∷ cs) =
    if c == b'-'
    then strtol_of true (read_magnitude cs)
    else if c == b'+'
    then strtol_of false (read_magnitude cs)
    else strtol_of false (read_magnitude (c ∷ cs))

unfoldable pub strtol : Bytes → Strtol
strtol cs = strtol_signed (skip_spaces cs)

unfoldable pub is_nil : Bytes → Bool
is_nil [] = true
is_nil (c ∷ cs) = false

-- In the range of `int`.
abbrev pub fits_int : ℤ → Bool
fits_int (pos n) = ltb n (2 ^ 31)
fits_int (negsuc n) = ltb n (2 ^ 31)

unfoldable pub parse_int : Bytes → SourceLocation → Result InputError ℤ
unfolding strtol c_str
parse_int token at =
    let r = strtol (c_str token) in
    if r.range_error || not r.converted || not (is_nil r.rest) || not (fits_int r.value)
    then err (record { location = at; message = not_an_integer })
    else ok r.value

-- The C library's `strtod`.
pub record Strtod (A : Type 0) : Type 0 where
  pub value : A
  pub converted : Bool
  pub rest : Bytes
  pub range_error : Bool

module _ (F : Floats) (strtod : Bytes → Strtod F.Double) where
  unfoldable pub parse_real : Bytes → SourceLocation → Result InputError F.Double
  parse_real token at =
      let r = strtod (c_str token) in
      if r.range_error || not r.converted || not (is_nil r.rest) || not (F.is_finite r.value)
      then err (record { location = at; message = not_a_real })
      else ok r.value

-- An accepted integer is in the range of `int`.
pub parse_int-fits :
    (token : Bytes) (at : SourceLocation) {n : ℤ} → parse_int token at ≡ ok n → fits_int n ≡ true
unfolding parse_int
parse_int-fits token at e = ground arith
