-- ===== src/Recommendation/Aggregation/Distribution/Summed.antt =====
-- src/recommendation/aggregation.rs: the summary of distributions as a whole.
use mathlib.Core.Option
use klass_mobile_backend.Prelude.{
  arith, String, ℕ, ◌≡◌, refl, sym, ap, ◌∙◌, true, false, inl, inr, Option, none, some, List, [],
  ◌∷◌, Bool-cases, Option-cases,
}
use Prim.Native.Nat.{Ordering}
use klass_mobile_backend.Prelude.Int.{ℤ, pos, eq_ℤ_iff}
use klass_mobile_backend.Prelude.Order.{Any, is_gt, cmp_ℤ}
use klass_mobile_backend.Prelude.Sort.{
  Sorter, All-insertion_sort, NotGt, Ordered, Ordered-take, filter-insertion_sort, insertion_sort,
  insertion_sort-Ordered, insertion_sort_of_Ordered,
}
use klass_mobile_backend.Prelude.Filter.{All, All-Any, All-take, push, filter_map, filter}
use klass_mobile_backend.Recommendation.Personalization.{is_empty}
use klass_mobile_backend.Recommendation.Aggregation.{
  FeedEnv, AggregationInput, SystemAssignmentInput, SubSubjectTaxonomy, or_else, text_among,
}
use klass_mobile_backend.Recommendation.Aggregation.Distribution.{
  DistributionSummaryItem, Values, distribution_item, is_candidate,
  build_system_distribution_summary, group_items, compare_distribution_candidates, compare_globally,
  subject_key, group_and_sort_distribution,
}
use klass_mobile_backend.Recommendation.Aggregation.Distribution.Groups.{in_sub}
use klass_mobile_backend.Recommendation.Aggregation.Distribution.Best.{
  Items, Total-candidates, Total-globally, best, take-nil, flattened, best_of_groups_lem,
  filter-groups,
}

cmp_self : (z : ℤ) → cmp_ℤ z z ≡ Ordering.eq
unfolding cmp_ℤ
cmp_self z = ground arith

not_among : (k : String) (l : List String) → is_empty l ≡ true → text_among k l ≡ false
not_among k [] e = refl
not_among k (x ∷ xs) e = cc

no_elements : {A : Type 0} (l : List A) → is_empty l ≡ true → l ≡ []
no_elements [] e = refl
no_elements (x ∷ xs) e = cc

module _ (E : FeedEnv) where
  abbrev SameKeys : ℤ → ℤ → DistributionSummaryItem → Type 0
  SameKeys s k i = (i.sub_subject_id ≡ s) × (subject_key E i ≡ k)

  compare_globally-eq :
      (s k : ℤ) (x y : DistributionSummaryItem)
      → SameKeys s k x
      → SameKeys s k y
      → compare_globally E x y ≡ compare_distribution_candidates E x y
  unfolding compare_globally
  compare_globally-eq s k x y h e = rw (h.1, e.1, cmp_self k) (rw (h.0, e.0, cmp_self s) refl)

  NotGt-globally :
      (s k : ℤ) (x : DistributionSummaryItem) (ys : Items)
      → SameKeys s k x
      → All (SameKeys s k) ys
      → All (NotGt (compare_distribution_candidates E) x) ys
      → All (NotGt (compare_globally E) x) ys
  NotGt-globally s k x [] h e n = tt
  NotGt-globally s k x (y ∷ ys) h e n =
      (ap is_gt (compare_globally-eq s k x y h e.0) ∙ n.0, NotGt-globally s k x ys h e.1 n.1)

  -- Among items of one sub-subject and one subject the global order is that of the candidates.
  Ordered-globally :
      (s k : ℤ) (xs : Items)
      → All (SameKeys s k) xs
      → Ordered (compare_distribution_candidates E) xs
      → Ordered (compare_globally E) xs
  Ordered-globally s k [] h o = tt
  Ordered-globally s k (x ∷ xs) h o =
      (NotGt-globally s k x xs h.0 h.1 o.0, Ordered-globally s k xs h.1 o.1)

  sort_globally-best :
      (limit : ℕ) (s k : ℤ) (xs : Items)
      → All (SameKeys s k) xs
      → insertion_sort (compare_globally E) (best E limit xs) ≡ best E limit xs
  sort_globally-best limit s k xs h =
      let cmp = compare_distribution_candidates E in
      let kept = All-take (SameKeys s k) limit _ (All-insertion_sort (SameKeys s k) cmp xs h) in
      let sorted =
        Ordered-take cmp limit _
          (insertion_sort-Ordered Any cmp (Total-candidates E) xs (All-Any xs)) in
      insertion_sort_of_Ordered (compare_globally E) _
        (Ordered-globally s k (best E limit xs) kept sorted)

  -- Where the sub-subject of an item determines the key of its subject.
  same_keys :
      (F : ℤ → ℤ) (s : ℤ) (items : Items)
      → All (λ i. subject_key E i ≡ F i.sub_subject_id) items
      → All (SameKeys s (F s)) (filter (in_sub s) items)
  same_keys F s [] h = tt
  same_keys F s (i ∷ items) h = elim (Bool-cases (in_sub s i)) [
    | inl t ↦
        let e = (eq_ℤ_iff i.sub_subject_id s).0 t in
        rw t ((e, h.0 ∙ ap F e), same_keys F s items h.1)
    | inr f ↦ rw f (same_keys F s items h.1)
  ]

  module _ (S : Sorter) (V : Values) where
    -- The summary of the items: in order, and with the best of each sub-subject.
    abbrev pub IsBest : ℕ → Items → Items → Type 0
    IsBest limit items result =
        Ordered (compare_globally E) result
        × ((s : ℤ) → filter (in_sub s) result ≡ best E limit (filter (in_sub s) items))

    pub group_and_sort_lem :
        (F : ℤ → ℤ) (items : Items) (limit : ℕ)
        → All (λ i. subject_key E i ≡ F i.sub_subject_id) items
        → (result : Items) × (group_and_sort_distribution E S V items limit ≡ some result)
          × IsBest limit items result
    unfolding group_and_sort_distribution
    group_and_sort_lem F items limit h =
        let flat = flattened E limit (V.into_values (group_items [] items)) in
        let cmp = compare_globally E in
        let sorts = S.sort_by-Total _ Any cmp (Total-globally E) flat (All-Any flat) in
        (
          insertion_sort cmp flat,
          rw (best_of_groups_lem E S V limit (V.into_values (group_items [] items))) sorts,
          (
            insertion_sort-Ordered Any cmp (Total-globally E) flat (All-Any flat),
            λ s.
                filter-insertion_sort (in_sub s) Any cmp (Total-globally E) flat (All-Any flat)
                ∙ ap (insertion_sort cmp) (filter-groups E V limit s items)
                ∙ sort_globally-best limit s (F s) (filter (in_sub s) items)
                    (same_keys F s items h),
          ),
        )

    -- The items of the assignments that count.
    abbrev pub items_of : AggregationInput → Items
    items_of input =
        filter_map (distribution_item input) (filter (is_candidate input) input.assignments)

    subject_by : Option SubSubjectTaxonomy → ℤ
    subject_by none = pos 0
    subject_by (some t) = or_else (Option.map (λ u. u.id) t.subject) (pos 0)

    subject_in : AggregationInput → ℤ → ℤ
    subject_in input s = subject_by (input.sub_subject_lookup s)

    item_key :
        (input : AggregationInput) (a : SystemAssignmentInput) (xs : Items)
        → All (λ i. subject_key E i ≡ subject_in input i.sub_subject_id) xs
        → All
            (λ i. subject_key E i ≡ subject_in input i.sub_subject_id)
            (push (distribution_item input a) xs)
    unfolding distribution_item subject_key subject_in subject_by
    item_key input a xs h = elim (Option-cases (input.sub_subject_lookup a.sub_subject_id)) [
      | inl e ↦ rw (e, push) h
      | inr (t, e) ↦ rw (e, push) (rw e refl, h)
    ]

    items_keys :
        (input : AggregationInput) (assignments : List SystemAssignmentInput)
        → All
            (λ i. subject_key E i ≡ subject_in input i.sub_subject_id)
            (filter_map (distribution_item input) assignments)
    items_keys input [] = tt
    items_keys input (a ∷ as') = item_key input a _ (items_keys input as')

    -- With no eligible type there is no candidate.
    no_types :
        (input : AggregationInput) (assignments : List SystemAssignmentInput)
        → is_empty input.eligible_source_types ≡ true
        → filter (is_candidate input) assignments ≡ []
    unfolding is_candidate
    no_types input [] e = refl
    no_types input (a ∷ as') e =
        rw (not_among a.source_type input.eligible_source_types e) (no_types input as' e)

    -- For any items: the summary is built, and it is the best of them.
    IsBuilt : AggregationInput → Option Items → Type 0
    IsBuilt input o =
        (result : Items) × (o ≡ some result)
        × IsBest input.maximum_items_per_sub_subject (items_of input) result

    nothing :
        (input : AggregationInput)
        → filter (is_candidate input) input.assignments ≡ []
        → IsBuilt input (some [])
    unfolding IsBuilt insertion_sort
    nothing input e =
        ([], refl, (tt, λ s. rw e (sym (take-nil input.maximum_items_per_sub_subject))))

    -- The summary is always built. It is in order, and for each sub-subject it has the best of the
    -- assignments that count, at most as many as the limit: those of an eligible type, with enough
    -- users, whose sub-subject is known. The order in which groups are visited is of no account.
    pub summary_has-IsBest :
        (input : AggregationInput)
        → (result : Items) × (build_system_distribution_summary E S V input ≡ some result)
          × IsBest input.maximum_items_per_sub_subject (items_of input) result
    unfolding build_system_distribution_summary IsBuilt
    summary_has-IsBest input = elim (Bool-cases (is_empty input.eligible_source_types)) [
      | inl t ↦ rw t (nothing input (no_types input input.assignments t))
      | inr f ↦
          let candidates = filter (is_candidate input) input.assignments in
          elim (Bool-cases (is_empty candidates)) [
            | inl t ↦ rw (f, t) (nothing input (no_elements candidates t))
            | inr g ↦
                rw (f, g)
                  (group_and_sort_lem (subject_in input) (items_of input)
                    input.maximum_items_per_sub_subject (items_keys input candidates))
          ]
    ]
