-- ===== src/Prelude/Decimal/Laws.antt =====
-- Reading a number back from its display.
use Prim.Native.Nat.{ℕ, zero, suc, ◌+◌, ◌-◌, ◌*◌, ◌/◌, ◌%◌, ◌^◌, ◌≤◌, ◌<◌}
use Prim.Native.Char.{code}
use Prim.Native.String.{String, ◌++◌ as ◌<>◌}
use text.Mathlib.TextLemmas.{nil-append, cons-append}
use native.Mathlib.Nat.{pow-suc}
use mathlib.Core.Bool.{false}
use mathlib.Core.Path.{◌≡◌, refl, ap, ◌∙◌}
use mathlib.Core.Logic.{inl, inr}
use mathlib.Core.Option.{some}
use mathlib.Core.List.{List, [], ◌∷◌, ◌++◌, append_assoc, append-nil}
use native.Mathlib.Omega.{arith}
use klass_mobile_backend.Prelude.Tests.{ltb, ltb→lt, Bool-cases}
use klass_mobile_backend.Prelude.Int.{ℤ, pos, negsuc}
use klass_mobile_backend.Prelude.Word.{two63}
use klass_mobile_backend.Prelude.Decimal.{
  digit, digits, show_nat, show_int, codes, read_digits, read_number, read_signed, positive,
  negative, parse_i64,
}

codes-append : (s t : String) → codes (s <> t) ≡ codes s ++ codes t
codes-append String.[] t = rw nil-append
codes-append (String.◌∷◌ c s) t = rw cons-append (ap (λ l. code c ∷ l) (codes-append s t))

codes-digit : (n : ℕ) → n < 10 → codes (digit n) ≡ (48 + n) ∷ []
unfolding digit
codes-digit zero h = refl
codes-digit (suc zero) h = refl
codes-digit (suc (suc zero)) h = refl
codes-digit (suc (suc (suc zero))) h = refl
codes-digit (suc (suc (suc (suc zero)))) h = refl
codes-digit (suc (suc (suc (suc (suc zero))))) h = refl
codes-digit (suc (suc (suc (suc (suc (suc zero)))))) h = refl
codes-digit (suc (suc (suc (suc (suc (suc (suc zero))))))) h = refl
codes-digit (suc (suc (suc (suc (suc (suc (suc (suc zero)))))))) h = refl
codes-digit (suc (suc (suc (suc (suc (suc (suc (suc (suc n))))))))) h =
    let e : n ≡ 0 = omega arith in rw e refl

read_digits-digit :
    (acc n m : ℕ) (rest : List ℕ)
    → n < 10
    → acc * 10 + n ≡ m
    → read_digits acc ((48 + n) ∷ rest) ≡ read_digits m rest
unfolding read_digits
read_digits-digit acc n m rest h e =
    let e' : 48 + n - 48 ≡ n = omega arith in rw (e', e) (ground arith)

smaller : (f n : ℕ) → n < 10 ^ suc f → n / 10 < 10 ^ f
smaller f n h = omega (arith, pow-suc 10 f)

some_round : (f n : ℕ) → n < 10 ^ suc f → ltb n 10 ≡ false → 0 < f
some_round zero n h e = ground arith
some_round (suc f) n h e = omega arith

read_digits-digits :
    (f n : ℕ) (rest : List ℕ)
    → n < 10 ^ f
    → 0 < f
    → read_digits 0 (codes (digits f n) ++ rest) ≡ read_digits n rest
unfolding digits
read_digits-digits zero n rest h p = absurd (omega arith)
read_digits-digits (suc f) n rest h p = elim (Bool-cases (ltb n 10)) [
  | inl t ↦
      rw (t, codes-digit n (ltb→lt n 10 t))
        (read_digits-digit 0 n n rest (ltb→lt n 10 t) (omega arith))
  | inr e ↦
      rw
        (
          e,
          codes-append (digits f (n / 10)) (digit (n % 10)),
          codes-digit (n % 10) (omega arith),
          append_assoc,
          read_digits-digits f (n / 10) ((48 + n % 10) ∷ rest) (smaller f n h) (some_round f n h e),
        )
        (read_digits-digit (n / 10) (n % 10) n rest (omega arith) (omega arith))
]

abbrev HasDigitHead : List ℕ → Type 0
HasDigitHead l = (c : ℕ) × (cs : List ℕ) × (l ≡ c ∷ cs) × (48 ≤ c)

HasDigitHead-append : (l r : List ℕ) → HasDigitHead l → HasDigitHead (l ++ r)
HasDigitHead-append l r (c, cs, e, h) = (c, cs ++ r, ap (λ k. k ++ r) e, h)

HasDigitHead-digits : (f n : ℕ) → n < 10 ^ f → 0 < f → HasDigitHead (codes (digits f n))
unfolding digits
HasDigitHead-digits zero n h p = absurd (omega arith)
HasDigitHead-digits (suc f) n h p = elim (Bool-cases (ltb n 10)) [
  | inl t ↦ rw t (48 + n, [], codes-digit n (ltb→lt n 10 t), omega arith)
  | inr e ↦
      rw (e, codes-append (digits f (n / 10)) (digit (n % 10)))
        (HasDigitHead-append _ _
          (HasDigitHead-digits f (n / 10) (smaller f n h) (some_round f n h e)))
]

read_digits-show_nat : (n : ℕ) → n < 10 ^ 20 → read_digits 0 (codes (show_nat n)) ≡ some n
unfolding show_nat
read_digits-show_nat n h =
    rw (← append-nil (codes (digits 20 n))) (read_digits-digits 20 n [] h (omega arith) ∙ end)
  where
    end : read_digits n [] ≡ some n
    end = unfold read_digits in refl

read_number_lem : (l : List ℕ) → HasDigitHead l → read_number l ≡ read_digits 0 l
unfolding read_number
read_number_lem l (c, cs, e, h) = rw e refl

HasDigitHead-show_nat : (n : ℕ) → n < 10 ^ 20 → HasDigitHead (codes (show_nat n))
unfolding show_nat
HasDigitHead-show_nat n h = HasDigitHead-digits 20 n h (omega arith)

pub read_number-show_nat : (n : ℕ) → n < 10 ^ 20 → read_number (codes (show_nat n)) ≡ some n
read_number-show_nat n h = read_number_lem _ (HasDigitHead-show_nat n h) ∙ read_digits-show_nat n h

read_signed-digits : (l : List ℕ) → HasDigitHead l → read_signed l ≡ positive (read_number l)
unfolding read_signed
read_signed-digits l (c, cs, e, h) = rw e (ground arith)

parse_i64-show_nat : (n : ℕ) → n < two63 → parse_i64 (show_nat n) ≡ some (pos n)
unfolding parse_i64 positive
parse_i64-show_nat n h =
    rw
      (
        read_signed-digits (codes (show_nat n)) (HasDigitHead-show_nat n (omega arith)),
        read_number-show_nat n (omega arith),
      )
      (ground arith)

parse_i64-minus : (n : ℕ) → n < two63 → parse_i64 ("-" <> show_nat (suc n)) ≡ some (negsuc n)
unfolding parse_i64 negative read_signed
parse_i64-minus n h =
    rw (codes-append "-" (show_nat (suc n)), read_number-show_nat (suc n) (omega arith))
      (ground arith)

-- The numbers of an `i64`.
abbrev pub Fits64 : ℤ → Type 0
Fits64 (pos n) = n < two63
Fits64 (negsuc n) = n < two63

-- `parse::<i64>` of the display of an `i64` is that number.
pub parse_i64-show_int : (z : ℤ) → Fits64 z → parse_i64 (show_int z) ≡ some z
unfolding show_int
parse_i64-show_int (pos n) h = parse_i64-show_nat n h
parse_i64-show_int (negsuc n) h = parse_i64-minus n h
