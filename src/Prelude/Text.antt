-- ===== src/Prelude/Text.antt =====
-- The text functions of Rust's standard library that the code uses: white space, `trim`, the length
-- in bytes of UTF-8 and the byte slice `&s[..n]`.
use Prim.Native.Nat.{ℕ, zero, suc, ◌+◌, ◌-◌, ◌≤◌}
use Prim.Native.Char.{Char, char, code}
use Prim.Native.String.{String, [], ◌∷◌}
use mathlib.Core.Path.{◌≡◌, refl, sym, ap, ◌∙◌}
use mathlib.Core.Bool.{Bool, true, false, ◌&&◌, ◌||◌}
use mathlib.Core.Option.{Option, none, some, none-ne-some, some-injective}
use mathlib.Core.Option
use native.Mathlib.Omega.{arith}
use klass_mobile_backend.Prelude.Tests.{ltb, leb, ◌==◌, if◌then◌else◌, tests}

abbrev pub space : Char
space = char 32 tt

-- `char::is_whitespace`: the Unicode property White_Space.
unfoldable pub is_whitespace : Char → Bool
is_whitespace c =
    let n = code c in
    leb 9 n && leb n 13
    || n == 32
    || n == 133
    || n == 160
    || n == 5760
    || leb 8192 n && leb n 8202
    || n == 8232
    || n == 8233
    || n == 8239
    || n == 8287
    || n == 12288

unfoldable pub trim_start : String → String
trim_start [] = []
trim_start (c ∷ s) = let rest = trim_start s in if is_whitespace c then rest else c ∷ s

unfoldable pub is_empty : String → Bool
is_empty [] = true
is_empty (_ ∷ _) = false

unfoldable pub trim_end : String → String
trim_end [] = []
trim_end (c ∷ s) =
    let rest = trim_end s in if is_whitespace c && is_empty rest then [] else c ∷ rest

unfoldable pub trim : String → String
trim s = trim_end (trim_start s)

-- The bytes of a character in UTF-8.
unfoldable pub len_utf8 : Char → ℕ
len_utf8 c =
    let n = code c in
    if ltb n 128 then 1 else if ltb n 2048 then 2 else if ltb n 65536 then 3 else 4

-- `str::len`.
unfoldable pub len : String → ℕ
len [] = 0
len (c ∷ s) = len_utf8 c + len s

-- `&s[..n]`: it panics where byte n is past the end or inside a character.
unfoldable pub slice_to : ℕ → String → Option String
slice_to zero s = some []
slice_to (suc n) [] = none
slice_to (suc n) (c ∷ s) =
    let rest = slice_to (suc n - len_utf8 c) s in
    if leb (len_utf8 c) (suc n) then Option.map (λ t. c ∷ t) rest else none

-- Every character is of one byte.
unfoldable pub is_ascii : String → Bool
is_ascii [] = true
is_ascii (c ∷ s) = ltb (code c) 128 && is_ascii s

and_true : (a b : Bool) → a && b ≡ true → (a ≡ true) × (b ≡ true)
and_true a b h = ground arith

-- Slicing a text with one more character.
longer :
    (n : ℕ) (c : Char) (o : Option String) (b : Bool) (t : String)
    → leb (len_utf8 c) (suc n) ≡ b
    → ((r : String) → o ≡ some r → len r ≡ suc n - len_utf8 c)
    → (if b then Option.map (λ r. c ∷ r) o else none) ≡ some t
    → len t ≡ suc n
unfolding len
longer n c o false t e ih h = absurd (none-ne-some _ h)
longer n c none true t e ih h = absurd (none-ne-some _ h)
longer n c (some r) true t e ih h =
    let m = ih r refl in
    let g : len (c ∷ r) ≡ suc n = omega (tests, m, e) in ap len (sym (some-injective _ _ h)) ∙ g

-- A slice has the bytes that were asked for.
pub len-slice_to : (n : ℕ) (s t : String) → slice_to n s ≡ some t → len t ≡ n
unfolding slice_to len
len-slice_to zero s t h = ap len (sym (some-injective _ _ h))
len-slice_to (suc n) [] t h = absurd (none-ne-some _ h)
len-slice_to (suc n) (c ∷ s) t h =
    longer n c (slice_to (suc n - len_utf8 c) s) (leb (len_utf8 c) (suc n)) t refl
      (len-slice_to (suc n - len_utf8 c) s) h

ascii_one : (c : Char) → ltb (code c) 128 ≡ true → len_utf8 c ≡ 1
unfolding len_utf8
ascii_one c h = rw h refl

slice_one :
    (n : ℕ) (c : Char) (s t : String)
    → len_utf8 c ≡ 1
    → slice_to n s ≡ some t
    → slice_to (suc n) (c ∷ s) ≡ some (c ∷ t)
unfolding slice_to
slice_one n c s t w e =
    let fits : leb 1 (suc n) ≡ true = ground arith in
    let less : suc n - 1 ≡ n = omega arith in rw (w, fits, less, e) refl

-- A slice inside a text of one-byte characters never panics.
pub slice_to-ascii :
    (n : ℕ) (s : String) → is_ascii s ≡ true → n ≤ len s → (t : String) × (slice_to n s ≡ some t)
unfolding slice_to len is_ascii
slice_to-ascii zero s h k = ([], refl)
slice_to-ascii (suc n) [] h k = absurd (omega (arith, k))
slice_to-ascii (suc n) (c ∷ s) h k =
    let (one, rest) = and_true (ltb (code c) 128) (is_ascii s) h in
    let w = ascii_one c one in
    let (t, e) = slice_to-ascii n s rest (omega (arith, k, w)) in (c ∷ t, slice_one n c s t w e)
