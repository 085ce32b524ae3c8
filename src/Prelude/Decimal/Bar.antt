-- ===== src/Prelude/Decimal/Bar.antt =====
-- Texts without a bar, as numbers are: where such a text stands before a bar, the bar ends it.
use Prim.Native.Char.{Char, char, code}
use Prim.Native.String.{String, [], ◌∷◌, ◌++◌ as ◌<>◌}
use Prim.Native.Nat.{ℕ, zero, suc, ◌/◌, ◌%◌}
use text.Mathlib.TextLemmas.{nil-append, cons-append, append_cancel_left}
use mathlib.Core.Path.{◌≡◌, refl, sym, ap, ◌∙◌, subst}
use mathlib.Core.Logic.{◌≢◌, inl, inr}
use mathlib.Core.Bool.{Bool, true, not, ◌&&◌}
use native.Mathlib.Omega.{arith}
use klass_mobile_backend.Prelude.Tests.{ltb, ◌==◌, Bool-cases}
use klass_mobile_backend.Prelude.Int.{ℤ, pos, negsuc}
use klass_mobile_backend.Prelude.Decimal.{digit, digits, show_nat, show_int}

unfoldable pub no_bar : String → Bool
no_bar [] = true
no_bar (c ∷ s) = not (code c == 124) && no_bar s

abbrev bar : Char
bar = char 124 tt

no_bar-head : (c : Char) (s : String) → c ≡ bar → no_bar (c ∷ s) ≢ true
unfolding no_bar
no_bar-head c s e h = cc (subst (λ d. no_bar (d ∷ s) ≡ true) e h)

bar_first : (d : Char) (b s u : String) → (d ∷ b) <> u ≡ "" <> ("|" <> s) → d ≡ bar
bar_first d b s u h = cc (cons-append d b u, nil-append ("|" <> s), cons-append bar [] s, h)

and_right : (a b : Bool) → a && b ≡ true → b ≡ true
and_right a b h = ground arith

-- A text without a bar ends where the first bar stands.
pub split_at_bar :
    (a b s t : String)
    → no_bar a ≡ true
    → no_bar b ≡ true
    → a <> ("|" <> s) ≡ b <> ("|" <> t)
    → (a ≡ b) × (s ≡ t)
unfolding no_bar
split_at_bar [] [] s t p q h =
    (refl, append_cancel_left "|" s t (sym (nil-append _) ∙ h ∙ nil-append _))
split_at_bar [] (d ∷ b) s t p q h = absurd (no_bar-head d b (bar_first d b s _ (sym h)) q)
split_at_bar (c ∷ a) [] s t p q h = absurd (no_bar-head c a (bar_first c a t _ h) p)
split_at_bar (c ∷ a) (d ∷ b) s t p q h =
    let heads : c ≡ d = cc (cons-append c a ("|" <> s), cons-append d b ("|" <> t), h) in
    let tails : a <> ("|" <> s) ≡ b <> ("|" <> t) =
      cc (cons-append c a ("|" <> s), cons-append d b ("|" <> t), h) in
    let rest : (a ≡ b) × (s ≡ t) = split_at_bar a b s t (and_right _ _ p) (and_right _ _ q) tails in
    (ap (λ l. c ∷ l) rest.0 ∙ ap (λ x. x ∷ b) heads, rest.1)

no_bar-append : (s t : String) → no_bar s ≡ true → no_bar t ≡ true → no_bar (s <> t) ≡ true
unfolding no_bar
no_bar-append [] t p q = rw nil-append q
no_bar-append (c ∷ s) t p q = rw cons-append (ground (arith, no_bar-append s t))

no_bar-digit : (n : ℕ) → no_bar (digit n) ≡ true
unfolding no_bar digit
no_bar-digit zero = refl
no_bar-digit (suc zero) = refl
no_bar-digit (suc (suc zero)) = refl
no_bar-digit (suc (suc (suc zero))) = refl
no_bar-digit (suc (suc (suc (suc zero)))) = refl
no_bar-digit (suc (suc (suc (suc (suc zero))))) = refl
no_bar-digit (suc (suc (suc (suc (suc (suc zero)))))) = refl
no_bar-digit (suc (suc (suc (suc (suc (suc (suc zero))))))) = refl
no_bar-digit (suc (suc (suc (suc (suc (suc (suc (suc zero)))))))) = refl
no_bar-digit (suc (suc (suc (suc (suc (suc (suc (suc (suc n))))))))) = refl

no_bar-digits : (f n : ℕ) → no_bar (digits f n) ≡ true
unfolding digits no_bar
no_bar-digits zero n = refl
no_bar-digits (suc f) n = elim (Bool-cases (ltb n 10)) [
  | inl t ↦ rw t (no_bar-digit n)
  | inr e ↦ rw e (
      no_bar-append (digits f (n / 10)) (digit (n % 10)) (no_bar-digits f (n / 10))
        (no_bar-digit (n % 10)))
]

pub no_bar-show_int : (z : ℤ) → no_bar (show_int z) ≡ true
unfolding show_int show_nat no_bar
no_bar-show_int (pos n) = no_bar-digits 20 n
no_bar-show_int (negsuc n) =
    no_bar-append "-" (digits 20 (suc n)) (no_bar_minus) (no_bar-digits 20 (suc n))
  where
    no_bar_minus : no_bar "-" ≡ true
    no_bar_minus = refl
