-- ===== src/Recommendation/Aggregation/Distribution/Groups.antt =====
-- src/recommendation/aggregation.rs: the groups that `group_and_sort_distribution` makes.
use mathlib.Core.List.{Permᴰ}
use mathlib.Core.Path.{subst}
use klass_mobile_backend.Prelude.{
  ◌≡◌, refl, ap, ◌∙◌, Bool, true, false, ◌⊎◌, inl, inr, List, [], ◌∷◌, ◌++◌,
}
use klass_mobile_backend.Prelude.Int.{ℤ, eq_ℤ}
use klass_mobile_backend.Prelude.Filter.{All, filter}
use klass_mobile_backend.Recommendation.Aggregation.Distribution.{DistributionSummaryItem}

-- Pairwise, for a relation that is symmetric in its uses.
abbrev pub Pairwise : {A : Type 0} → (A → A → Type 0) → List A → Type 0
Pairwise R [] = Unit {0}
Pairwise R (x ∷ xs) = All (R x) xs × Pairwise R xs

pub All-Permᴰ : {A : Type 0} (P : A → Type 0) (xs ys : List A) → Permᴰ xs ys → All P xs → All P ys
All-Permᴰ P _ _ Permᴰ.nil h = tt
All-Permᴰ P _ _ (Permᴰ.cons e d) h = (subst P e h.0, All-Permᴰ P _ _ d h.1)
All-Permᴰ P _ _ (Permᴰ.swap e f) h = (subst P f h.1.0, (subst P e h.0, h.1.1))
All-Permᴰ P _ _ (Permᴰ.trans c d) h = All-Permᴰ P _ _ d (All-Permᴰ P _ _ c h)

abbrev pub in_sub : ℤ → DistributionSummaryItem → Bool
in_sub s i = eq_ℤ i.sub_subject_id s

-- Of two groups one has no item of the sub-subject.
abbrev pub Apart : ℤ → List DistributionSummaryItem → List DistributionSummaryItem → Type 0
Apart s xs ys = (filter (in_sub s) xs ≡ []) ⊎ (filter (in_sub s) ys ≡ [])

-- A group has items of one sub-subject only.
abbrev pub IsPure : ℤ → List DistributionSummaryItem → Type 0
IsPure s xs = All (λ i. in_sub s i ≡ true) xs ⊎ All (λ i. in_sub s i ≡ false) xs

-- The items of the sub-subject, group by group.
abbrev pub pick : ℤ → List (List DistributionSummaryItem) → List DistributionSummaryItem
pick s [] = []
pick s (g ∷ gs) = filter (in_sub s) g ++ pick s gs

Pairwise-Permᴰ :
    {A : Type 0} (R : A → A → Type 0)
    → ((x y : A) → R x y → R y x)
    → (xs ys : List A) → Permᴰ xs ys
    → Pairwise R xs
    → Pairwise R ys
Pairwise-Permᴰ R symm _ _ Permᴰ.nil h = tt
Pairwise-Permᴰ R symm _ _ (Permᴰ.cons {a = a} {l₂ = ys} e d) h =
    (subst (λ z. All (R z) ys) e (All-Permᴰ (R a) _ _ d h.0), Pairwise-Permᴰ R symm _ _ d h.1)
Pairwise-Permᴰ R symm _ _ (Permᴰ.swap {a = a} {b = b} {b' = b'} {l = l} e f) h =
    let near = subst (λ z. R z b') f (subst (R b) e (symm a b h.0.0)) in
    ((near, subst (λ z. All (R z) l) f h.1.0), (subst (λ z. All (R z) l) e h.0.1, h.1.1))
Pairwise-Permᴰ R symm _ _ (Permᴰ.trans c d) h =
    Pairwise-Permᴰ R symm _ _ d (Pairwise-Permᴰ R symm _ _ c h)

Apart-symm : (s : ℤ) (xs ys : List DistributionSummaryItem) → Apart s xs ys → Apart s ys xs
Apart-symm s xs ys (inl e) = inr e
Apart-symm s xs ys (inr e) = inl e

swap_parts :
    {A : Type 0} (xs ys zs : List A) → (xs ≡ []) ⊎ (ys ≡ []) → xs ++ (ys ++ zs) ≡ ys ++ (xs ++ zs)
swap_parts xs ys zs (inl e) = rw e refl
swap_parts xs ys zs (inr e) = rw e refl

-- Where one group at most has items of the sub-subject, the order of the groups is of no account.
pub pick-Permᴰ :
    (s : ℤ) (xs ys : List (List DistributionSummaryItem))
    → Permᴰ xs ys
    → Pairwise (Apart s) xs
    → pick s xs ≡ pick s ys
pick-Permᴰ s _ _ Permᴰ.nil h = refl
pick-Permᴰ s _ _ (Permᴰ.cons {a = a} {l₂ = ys} e d) h =
    ap (λ l. filter (in_sub s) a ++ l) (pick-Permᴰ s _ _ d h.1)
    ∙ ap (λ g. filter (in_sub s) g ++ pick s ys) e
pick-Permᴰ s _ _ (Permᴰ.swap {a = a} {b = b} {b' = b'} {l = l} e f) h =
    swap_parts _ _ (pick s l) h.0.0
    ∙ ap (λ g. filter (in_sub s) b ++ (filter (in_sub s) g ++ pick s l)) e
    ∙ ap (λ g. filter (in_sub s) g ++ (filter (in_sub s) b' ++ pick s l)) f
pick-Permᴰ s _ _ (Permᴰ.trans c d) h =
    pick-Permᴰ s _ _ c h ∙ pick-Permᴰ s _ _ d (Pairwise-Permᴰ (Apart s) (Apart-symm s) _ _ c h)

pub Apart-Permᴰ :
    (s : ℤ) (xs ys : List (List DistributionSummaryItem))
    → Permᴰ xs ys
    → Pairwise (Apart s) xs
    → Pairwise (Apart s) ys
Apart-Permᴰ s xs ys = Pairwise-Permᴰ (Apart s) (Apart-symm s) xs ys
