-- ===== src/Prelude/Order.antt =====
-- The `Ordering` of the source and its comparisons: `reverse`, `then_with`, `cmp` of numbers and of
-- texts. A comparison is total where it is one of a total order, up to ties.
use Prim.Native.Nat.{ℕ, ◌+◌, Ordering, compare}
use Prim.Native.String.{String, [], ◌∷◌}
use Prim.Native.Char.{code}
use mathlib.Core.Path.{◌≡◌, refl, sym, ap, ◌∙◌}
use mathlib.Core.Bool.{Bool, true, false}
use native.Mathlib.Omega.{arith}
use klass_mobile_backend.Prelude.Int.{ℤ, pos_part, neg_part}

abbrev pub Comparison : Type 0 → Type 0
Comparison A = A → A → Ordering

abbrev pub reverse : Ordering → Ordering
reverse Ordering.lt = Ordering.gt
reverse Ordering.eq = Ordering.eq
reverse Ordering.gt = Ordering.lt

abbrev pub then_with : Ordering → Ordering → Ordering
then_with Ordering.lt _ = Ordering.lt
then_with Ordering.eq o = o
then_with Ordering.gt _ = Ordering.gt

abbrev pub is_gt : Ordering → Bool
is_gt Ordering.lt = false
is_gt Ordering.eq = false
is_gt Ordering.gt = true

-- By the parts, so that `omega` and `ground` read it.
unfoldable pub cmp_ℤ : Comparison ℤ
cmp_ℤ a b = compare (pos_part a + neg_part b) (pos_part b + neg_part a)

-- The order of UTF-8 bytes is the order of code points.
unfoldable pub cmp_str : Comparison String
cmp_str [] [] = Ordering.eq
cmp_str [] (d ∷ t) = Ordering.lt
cmp_str (c ∷ s) [] = Ordering.gt
cmp_str (c ∷ s) (d ∷ t) = then_with (compare (code c) (code d)) (cmp_str s t)

-- What the third comparison is, where the first two say so: of a and b, b and c, a and c.
abbrev pub Composes : Ordering → Ordering → Ordering → Type 0
Composes Ordering.lt Ordering.lt z = z ≡ Ordering.lt
Composes Ordering.lt Ordering.eq z = z ≡ Ordering.lt
Composes Ordering.eq Ordering.lt z = z ≡ Ordering.lt
Composes Ordering.eq Ordering.eq z = z ≡ Ordering.eq
Composes _ _ z = Unit {0}

-- Antisymmetric and transitive on the elements that have the property.
pub record Total {A : Type 0} (P : A → Type 0) (cmp : Comparison A) : Type 0 where
  pub swaps : (a b : A) → P a → P b → cmp b a ≡ reverse (cmp a b)
  pub composes : (a b c : A) → P a → P b → P c → Composes (cmp a b) (cmp b c) (cmp a c)

abbrev pub Any : {A : Type 0} → A → Type 0
Any a = Unit {0}

pub swaps-then_with :
    (x y x' y' : Ordering)
    → x' ≡ reverse x
    → y' ≡ reverse y
    → then_with x' y' ≡ reverse (then_with x y)
swaps-then_with x y x' y' h k = ground arith

pub Composes-then_with :
    (x y z x' y' z' : Ordering)
    → Composes x y z
    → Composes x' y' z'
    → Composes (then_with x x') (then_with y y') (then_with z z')
Composes-then_with x y z x' y' z' h k = ground arith

Composes-flip : (x y z : Ordering) → Composes x y z → Composes y x z
Composes-flip x y z h = ground arith

module _ {A : Type 0} {P : A → Type 0} where
  pub Total-then_with :
      {f g : Comparison A} → Total P f → Total P g → Total P (λ a b. then_with (f a b) (g a b))
  Total-then_with s t = record {
    swaps = λ a b p q. swaps-then_with _ _ _ _ (s.swaps a b p q) (t.swaps a b p q);
    composes = λ a b c p q r.
        Composes-then_with _ _ _ _ _ _ (s.composes a b c p q r) (t.composes a b c p q r);
  }

  -- By a key of the elements.
  pub Total-on :
      {K : Type 0} {Q : K → Type 0} {cmp : Comparison K} (key : A → K)
      → ((a : A) → P a → Q (key a))
      → Total Q cmp
      → Total P (λ a b. cmp (key a) (key b))
  Total-on key h t = record {
    swaps = λ a b p q. t.swaps (key a) (key b) (h a p) (h b q);
    composes = λ a b c p q r. t.composes (key a) (key b) (key c) (h a p) (h b q) (h c r);
  }

  -- `b.cmp(a)`.
  pub Total-flip : {cmp : Comparison A} → Total P cmp → Total P (λ a b. cmp b a)
  Total-flip t = record {
    swaps = λ a b p q. t.swaps b a q p;
    composes = λ a b c p q r. Composes-flip _ _ _ (t.composes c b a r q p);
  }

compare-Composes : (a b c : ℕ) → Composes (compare a b) (compare b c) (compare a c)
compare-Composes a b c = ground arith

pub Total-ℕ : Total Any compare
Total-ℕ = record {
  swaps = λ a b _ _. ground arith;
  composes = λ a b c _ _ _. compare-Composes a b c;
}

pub Total-ℤ : Total Any cmp_ℤ
unfolding cmp_ℤ
Total-ℤ = record { swaps = λ a b _ _. ground arith; composes = λ a b c _ _ _. ground arith }

swaps_str : (s t : String) → cmp_str t s ≡ reverse (cmp_str s t)
unfolding cmp_str
swaps_str [] [] = refl
swaps_str [] (d ∷ t) = refl
swaps_str (c ∷ s) [] = refl
swaps_str (c ∷ s) (d ∷ t) =
    swaps-then_with _ _ _ _ (Total-ℕ.swaps (code c) (code d) tt tt) (swaps_str s t)

Composes-str : (s t u : String) → Composes (cmp_str s t) (cmp_str t u) (cmp_str s u)
unfolding cmp_str
Composes-str [] [] [] = refl
Composes-str [] [] (e ∷ u) = refl
Composes-str [] (d ∷ t) [] = tt
Composes-str [] (d ∷ t) (e ∷ u) = ground arith
Composes-str (c ∷ s) [] [] = tt
Composes-str (c ∷ s) [] (e ∷ u) = tt
Composes-str (c ∷ s) (d ∷ t) [] = ground arith
Composes-str (c ∷ s) (d ∷ t) (e ∷ u) =
    Composes-then_with _ _ _ _ _ _ (Total-ℕ.composes (code c) (code d) (code e) tt tt tt)
      (Composes-str s t u)

pub Total-str : Total Any cmp_str
Total-str = record {
  swaps = λ s t _ _. swaps_str s t;
  composes = λ s t u _ _ _. Composes-str s t u;
}

Composes-at :
    {x y z x' y' z' : Ordering} → x' ≡ x → y' ≡ y → z' ≡ z → Composes x y z → Composes x' y' z'
Composes-at e f g h = rw (e, f, g) h

-- A comparison that agrees with a total one on the elements.
pub Total-congr :
    {A : Type 0} {P : A → Type 0} {f g : Comparison A}
    → ((a b : A) → P a → P b → f a b ≡ g a b)
    → Total P g
    → Total P f
Total-congr h t = record {
  swaps = λ a b p q. h b a q p ∙ t.swaps a b p q ∙ ap reverse (sym (h a b p q));
  composes =
      λ a b c p q r. Composes-at (h a b p q) (h b c q r) (h a c p r) (t.composes a b c p q r);
}
