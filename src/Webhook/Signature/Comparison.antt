-- ===== src/Webhook/Signature/Comparison.antt =====
-- The comparison in constant time is equality, and only a body with its signature has an effect.
use Prim.Native.Nat.{bit_or, bit_xor, bit_or-bitwise, bit_xor-bitwise, digits, differ}
use klass_mobile_backend.Prelude.{
  ℕ, zero, suc, ◌+◌, ◌*◌, ◌/◌, ◌%◌, ◌≤◌, max, ◌≡◌, ◌↔◌, refl, sym, ap, ap₂, ◌∙◌, arith, String,
  true, List, [], ◌∷◌, length, ◌==◌, ==_iff, Bool-cases, inl, inr,
}
use text.Mathlib.TextEquality.{Char-path}
use mathlib.Core.Bool.{true≢false}
use klass_mobile_backend.Prelude.Decimal.{codes}
use klass_mobile_backend.Webhook.Signature.{fold_bytes, constant_time_eq}

differ-zero : (a b : ℕ) → differ a b ≡ 0 → a ≡ b
differ-zero zero b h = sym h
differ-zero (suc a) zero h = h
differ-zero (suc a) (suc b) h = ap suc (differ-zero a b h)

differ_self : (a : ℕ) → differ a a ≡ 0
differ_self zero = refl
differ_self (suc a) = differ_self a

digits-differ : (n a b : ℕ) → a ≤ n → digits (λ b. b) differ n a b ≡ 0 → a ≡ b
digits-differ zero a b le h = omega arith
digits-differ (suc n) zero b le h = sym h
digits-differ (suc n) (suc a) b le h =
    let high = digits (λ b'. b') differ n (suc a / 2) (b / 2) in
    let low = differ (suc a % 2) (b % 2) in
    let sum : high * 2 + low ≡ 0 = h in
    let same_high : suc a / 2 ≡ b / 2 =
      digits-differ n (suc a / 2) (b / 2) (omega arith) (omega arith) in
    let same_low : suc a % 2 ≡ b % 2 = differ-zero (suc a % 2) (b % 2) (omega arith) in omega arith

digits_self : (n a : ℕ) → a ≤ n → digits (λ b. b) differ n a a ≡ 0
digits_self zero a le = omega arith
digits_self (suc n) zero le = refl
digits_self (suc n) (suc a) le =
    let high : digits (λ b. b) differ n (suc a / 2) (suc a / 2) ≡ 0 =
      digits_self n (suc a / 2) (omega arith) in
    let low : differ (suc a % 2) (suc a % 2) ≡ 0 = differ_self (suc a % 2) in rw (high, low) refl

pub bit_xor-zero_iff : (a b : ℕ) → (bit_xor a b ≡ 0) ↔ (a ≡ b)
bit_xor-zero_iff a b = (
  λ h. digits-differ a a b (omega arith) (sym (bit_xor-bitwise a b) ∙ h),
  λ e. ap (bit_xor a) (sym e) ∙ bit_xor-bitwise a a ∙ digits_self a a (omega arith),
)

digits-max : (n a b : ℕ) → a ≤ n → digits (λ b. b) max n a b ≡ 0 → (a ≡ 0) × (b ≡ 0)
digits-max zero a b le h = (omega arith, h)
digits-max (suc n) zero b le h = (refl, h)
digits-max (suc n) (suc a) b le h =
    let high = digits (λ b'. b') max n (suc a / 2) (b / 2) in
    let sum : high * 2 + max (suc a % 2) (b % 2) ≡ 0 = h in
    let zeros : (suc a / 2 ≡ 0) × (b / 2 ≡ 0) =
      digits-max n (suc a / 2) (b / 2) (omega arith) (omega arith) in
    let (z, z') = zeros in absurd (omega arith)

pub bit_or-zero_iff : (a b : ℕ) → (bit_or a b ≡ 0) ↔ ((a ≡ 0) × (b ≡ 0))
bit_or-zero_iff a b = (
  λ h. digits-max a a b (omega arith) (sym (bit_or-bitwise a b) ∙ h),
  λ e. ap₂ bit_or e.0 e.1 ∙ bit_or-bitwise 0 0,
)

cons-eq : {a b : ℕ} {as' bs : List ℕ} → (a ∷ as') ≡ (b ∷ bs) → (a ≡ b) × (as' ≡ bs)
cons-eq {a} {b} {as'} {bs} h =
    (ap (λ l. elim l [ [] ↦ a | x ∷ xs ↦ x ]) h, ap (λ l. elim l [ [] ↦ as' | x ∷ xs ↦ xs ]) h)

fold_bytes-zero_iff :
    (as' bs : List ℕ) (r : ℕ)
    → length as' ≡ length bs
    → (fold_bytes r as' bs ≡ 0) ↔ ((r ≡ 0) × (as' ≡ bs))
unfolding fold_bytes
fold_bytes-zero_iff [] [] r len = (λ h. (h, refl), λ h. h.0)
fold_bytes-zero_iff [] (b ∷ bs) r len = absurd (omega arith)
fold_bytes-zero_iff (a ∷ as') [] r len = absurd (omega arith)
fold_bytes-zero_iff (a ∷ as') (b ∷ bs) r len =
    let rest = fold_bytes-zero_iff as' bs (bit_or r (bit_xor a b)) (omega arith) in
    (
      λ h.
          let (now, tail) = rest.0 h in
          let (before, same) = (bit_or-zero_iff r (bit_xor a b)).0 now in
          (before, ap₂ ◌∷◌ ((bit_xor-zero_iff a b).0 same) tail),
      λ h.
          let (head, tail) = cons-eq h.1 in
          rest.1 ((bit_or-zero_iff r (bit_xor a b)).1 (h.0, (bit_xor-zero_iff a b).1 head), tail),
    )

nil-cons : {a : ℕ} {l : List ℕ} → [] ≡ (a ∷ l) → ⊥
nil-cons h = cc

-- Different texts have different codes.
pub codes-injective : (a b : String) → codes a ≡ codes b → a ≡ b
codes-injective String.[] String.[] h = refl
codes-injective String.[] (String.◌∷◌ d t) h = absurd (nil-cons h)
codes-injective (String.◌∷◌ c s) String.[] h = absurd (nil-cons (sym h))
codes-injective (String.◌∷◌ c s) (String.◌∷◌ d t) h =
    let (head, tail) = cons-eq h in ap₂ String.◌∷◌ (Char-path c d head) (codes-injective s t tail)

-- The comparison without early exit answers true exactly on equal texts.
pub constant_time_eq_iff : (a b : String) → (constant_time_eq a b ≡ true) ↔ (a ≡ b)
unfolding constant_time_eq
constant_time_eq_iff a b = elim (Bool-cases (length (codes a) == length (codes b))) [
  | inl t ↦
      let len = (==_iff (length (codes a)) (length (codes b))).0 t in
      let fold = fold_bytes-zero_iff (codes a) (codes b) 0 len in
      rw t (
        λ h. codes-injective a b (fold.0 ((==_iff (fold_bytes 0 (codes a) (codes b)) 0).0 h)).1,
        λ e. (==_iff (fold_bytes 0 (codes a) (codes b)) 0).1 (fold.1 (refl, ap codes e)),
      )
  | inr f ↦ rw f (
    λ h. absurd (true≢false (sym h)),
    λ e. absurd (
        true≢false (
          sym ((==_iff (length (codes a)) (length (codes b))).1 (ap (λ s. length (codes s)) e))
          ∙ f)),
  )
]
