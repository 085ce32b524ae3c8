-- ===== src/Recommendation/Aggregation/Distribution/Best.antt =====
-- src/recommendation/aggregation.rs: the summary of distributions takes the best of each sub-subject.
use mathlib.Core.List.{append-nil}
use mathlib.Core.List.Permᴰ
use klass_mobile_backend.Prelude.{
  ℕ, zero, suc, ◌≡◌, refl, sym, ap, ap₂, ◌∙◌, Bool, true, false, ◌⊎◌, inl, inr, some, List, [], ◌∷◌,
  ◌++◌,
}
use klass_mobile_backend.Prelude.Int.{ℤ}
use klass_mobile_backend.Prelude.Order.{
  Any, Total, Total-then_with, Total-on, Total-flip, Total-ℤ, Total-str,
}
use klass_mobile_backend.Prelude.Sort.{Sorter, All-insertion_sort, insertion_sort}
use klass_mobile_backend.Prelude.Filter.{
  All, All-Any, All-take, take, filter, filter-append, filter_of_true, filter_of_false,
}
use klass_mobile_backend.Recommendation.Aggregation.{FeedEnv, timestamp_value}
use klass_mobile_backend.Recommendation.Aggregation.Distribution.{
  DistributionSummaryItem, Values, group_items, compare_distribution_candidates, compare_globally,
  subject_key, best_of_groups,
}
use klass_mobile_backend.Recommendation.Aggregation.Distribution.Groups.{
  Pairwise, in_sub, Apart, IsPure, pick, pick-Permᴰ, Apart-Permᴰ, All-Permᴰ,
}
use klass_mobile_backend.Recommendation.Aggregation.Distribution.Keys.{
  group_items-IsKeyed, IsKeyed-Apart, IsKeyed-IsPure, pick-group_items,
}

abbrev pub Items : Type 0
Items = List DistributionSummaryItem

pub take-nil : {A : Type 0} (n : ℕ) → ◌≡◌ {A = List A} (take n []) []
take-nil zero = refl
take-nil (suc n) = refl

module _ (E : FeedEnv) where
  pub Total-candidates : Total Any (compare_distribution_candidates E)
  unfolding compare_distribution_candidates
  Total-candidates =
      Total-then_with (Total-flip (Total-on (λ i. i.distinct_user_count) (λ _ _. tt) Total-ℤ)) (
        Total-then_with
          (Total-flip
            (Total-on (λ i. timestamp_value E i.latest_distribution_at) (λ _ _. tt) Total-ℤ))
          (Total-then_with
            (Total-flip (Total-on (λ i. timestamp_value E i.source_created_at) (λ _ _. tt) Total-ℤ))
            (Total-on (λ i. i.source_reference) (λ _ _. tt) Total-str)))

  pub Total-globally : Total Any (compare_globally E)
  unfolding compare_globally
  Total-globally =
      Total-then_with (Total-on (λ i. subject_key E i) (λ _ _. tt) Total-ℤ)
        (Total-then_with (Total-on (λ i. i.sub_subject_id) (λ _ _. tt) Total-ℤ) Total-candidates)

  -- The best of a list, in the order of the candidates.
  abbrev pub best : ℕ → Items → Items
  best limit xs = take limit (insertion_sort (compare_distribution_candidates E) xs)

  pub flattened : ℕ → List Items → Items
  flattened limit [] = []
  flattened limit (g ∷ gs) = best limit g ++ flattened limit gs

  module _ (S : Sorter) (V : Values) where
    pub best_of_groups_lem :
        (limit : ℕ) (gs : List Items) → best_of_groups E S V limit gs ≡ some (flattened limit gs)
    unfolding best_of_groups flattened
    best_of_groups_lem limit [] = refl
    best_of_groups_lem limit (g ∷ gs) =
        let s = S.sort_by-Total _ Any _ Total-candidates g (All-Any g) in
        rw s (rw (best_of_groups_lem limit gs) refl)

  module _ (limit : ℕ) (s : ℤ) where
    best-All :
        (b : Bool) (g : Items)
        → All (λ i. in_sub s i ≡ b) g
        → All (λ i. in_sub s i ≡ b) (best limit g)
    best-All b g h = All-take _ limit _ (All-insertion_sort _ _ g h)

    best-nil : best limit [] ≡ []
    unfolding insertion_sort
    best-nil = take-nil limit

    best-append :
        (xs ys : Items)
        → (xs ≡ []) ⊎ (ys ≡ [])
        → best limit xs ++ best limit ys ≡ best limit (xs ++ ys)
    best-append xs ys (inl e) = rw (e, best-nil) refl
    best-append xs ys (inr e) = rw (e, best-nil) (simp append-nil)

    only_one :
        (g : Items) (gs : List Items)
        → All (Apart s g) gs
        → (filter (in_sub s) g ≡ []) ⊎ (pick s gs ≡ [])
    only_one g [] a = inr refl
    only_one g (x ∷ xs) a = either a.0 (only_one g xs a.1)
      where
        either :
            Apart s g x
            → (filter (in_sub s) g ≡ []) ⊎ (pick s xs ≡ [])
            → (filter (in_sub s) g ≡ []) ⊎ (pick s (x ∷ xs) ≡ [])
        either (inl e) _ = inl e
        either (inr e) (inl f) = inl f
        either (inr e) (inr f) = inr (rw (e, f) refl)

    filter-best :
        (g : Items)
        → IsPure s g
        → filter (in_sub s) (best limit g) ≡ best limit (filter (in_sub s) g)
    filter-best g (inl h) =
        filter_of_true (in_sub s) (best limit g) (best-All true g h)
        ∙ ap (best limit) (sym (filter_of_true (in_sub s) g h))
    filter-best g (inr h) =
        filter_of_false (in_sub s) (best limit g) (best-All false g h)
        ∙ sym (ap (best limit) (filter_of_false (in_sub s) g h) ∙ best-nil)

    -- Of a group and the others, one has nothing of the sub-subject.
    filter-flattened :
        (gs : List Items)
        → Pairwise (Apart s) gs
        → All (IsPure s) gs
        → filter (in_sub s) (flattened limit gs) ≡ best limit (pick s gs)
    unfolding flattened
    filter-flattened [] a p = sym best-nil
    filter-flattened (g ∷ gs) a p =
        filter-append (in_sub s) (best limit g) (flattened limit gs)
        ∙ ap₂ ◌++◌ (filter-best g p.0) (filter-flattened gs a.1 p.1)
        ∙ best-append _ _ (only_one g gs a.0)

  -- The groups of the items, in whatever order, hold the best of each sub-subject.
  pub filter-groups :
      (V : Values) (limit : ℕ) (s : ℤ) (items : Items)
      → filter (in_sub s) (flattened limit (V.into_values (group_items [] items)))
        ≡ best limit (filter (in_sub s) items)
  filter-groups V limit s items =
      let gs = group_items [] items in
      let keyed = group_items-IsKeyed items [] tt in
      let perm = V.into_values-perm gs in
      let back = Permᴰ.symm perm in
      let apart = Apart-Permᴰ s _ _ back (IsKeyed-Apart s gs keyed) in
      let pure = All-Permᴰ (IsPure s) _ _ back (IsKeyed-IsPure s gs keyed) in
      filter-flattened limit s (V.into_values gs) apart pure
      ∙ ap (best limit) (pick-Permᴰ s _ _ perm apart ∙ pick-group_items s items [] tt)
