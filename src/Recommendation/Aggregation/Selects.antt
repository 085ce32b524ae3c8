-- ===== src/Recommendation/Aggregation/Selects.antt =====
-- src/recommendation/aggregation.rs: the selection of candidates as a whole, and its summary.
use mathlib.Core.Option
use mathlib.Core.Path.{subst}
use klass_mobile_backend.Prelude.{
  ◌≡◌, refl, sym, ap, ◌∙◌, Bool, true, not, Option, none, some, List, [], ◌∷◌, map, if◌then◌else◌,
}
use klass_mobile_backend.Prelude.Int.{ℤ}
use klass_mobile_backend.Prelude.Order.{Any}
use klass_mobile_backend.Prelude.Sort.{Sorter}
use klass_mobile_backend.Prelude.Filter.{All, All-Any, All-filter, filter, filter-map}
use klass_mobile_backend.Recommendation.Personalization.{PersonalizationContext, is_empty}
use klass_mobile_backend.Recommendation.Aggregation.{
  FeedEnv, FeedItem, AggregationInput, default_selection,
}
use klass_mobile_backend.Recommendation.Aggregation.Selection.{Lookups, annotate}
use klass_mobile_backend.Recommendation.Aggregation.Summary.{
  Selected, matched_ids, counted, build_personalization_summary, selected_items, summarize,
  select_personalized, select_for, select_system_generated_candidates,
  empty_personalization_summary,
}
use klass_mobile_backend.Recommendation.Aggregation.Order.{Total-compare_selection}
use klass_mobile_backend.Recommendation.Aggregation.Wanted.{is_wanted, lookups_for_lem}

mapped :
    {A B : Type 0} (f : A → B) {o : Option A} {a : A} → o ≡ some a → Option.map f o ≡ some (f a)
mapped f e = ap (Option.map f) e

module _ (E : FeedEnv) where
  -- An item without the ranks that the selection gives it.
  abbrev pub unranked : FeedItem E → FeedItem E
  unranked i = record i { candidate_selection = default_selection }

  abbrev pub or_all : List (FeedItem E) → List (FeedItem E) → List (FeedItem E)
  or_all items [] = items
  or_all items (w ∷ ws) = w ∷ ws

  -- The wanted items, or all where none is wanted.
  abbrev pub wanted_or_all : PersonalizationContext → List (FeedItem E) → List (FeedItem E)
  wanted_or_all ctx items = or_all items (filter (is_wanted E ctx.internal) items)

  unranked-annotate :
      (l : Lookups) (items : List (FeedItem E))
      → map unranked (map (annotate E l) items) ≡ map unranked items
  unfolding annotate
  unranked-annotate l [] = refl
  unranked-annotate l (i ∷ items) = ap (λ t. unranked i ∷ t) (unranked-annotate l items)

  module _ (S : Sorter) (ctx : PersonalizationContext) where
    abbrev wanted : FeedItem E → Bool
    wanted = is_wanted E ctx.internal

    selected_items-annotate :
        (l : Lookups) (items : List (FeedItem E))
        → All (λ i. (annotate E l i).candidate_selection.selected ≡ wanted i) items
        → selected_items E S (map (annotate E l) items) ≡ map (annotate E l) (filter wanted items)
    unfolding selected_items
    selected_items-annotate l items h =
        filter-map (λ i. i.candidate_selection.selected) wanted (annotate E l) items h

    matched_ids-total :
        (items : List (FeedItem E)) → (ids : List ℤ) × (matched_ids E S items ≡ some ids)
    unfolding matched_ids
    matched_ids-total items =
        (_, mapped _ (S.sort_by-Total _ Any _ (Total-compare_selection E) items (All-Any items)))

    -- What the selection gives for the items that are wanted.
    abbrev Result : List (FeedItem E) → List (FeedItem E) → Lookups → Option (Selected E S) → Type 0
    Result items ws l o =
        (r : Selected E S) × (o ≡ some r)
        × (r.0 ≡ or_all items (map (annotate E l) ws))
        × (r.1.applied ≡ not (is_empty ws))

    summarize_lem :
        (l : Lookups) (items all ws : List (FeedItem E))
        → Result items ws l (summarize E S items all (map (annotate E l) ws) ctx)
    unfolding summarize build_personalization_summary empty_personalization_summary counted
    summarize_lem l items all [] = (_, refl, refl, refl)
    summarize_lem l items all (w ∷ ws) =
        let (ids, e) = matched_ids-total (map (annotate E l) (w ∷ ws)) in
        (_, mapped _ (mapped _ e), refl, refl)

    select_personalized_lem :
        (items : List (FeedItem E))
        → (l : Lookups) × Result items (filter wanted items) l (select_personalized E S items ctx)
    unfolding select_personalized
    select_personalized_lem items =
        let (l, e, h) = lookups_for_lem E S ctx.internal items in
        (
          l,
          rw (e, selected_items-annotate l items h)
              (summarize_lem l items (map (annotate E l) items) (filter wanted items)),
        )

    with_signals :
        (o : Option PersonalizationContext) (items : List (FeedItem E))
        → o ≡ some ctx
        → ctx.internal.signals_available ≡ true
        → select_for E S items o ≡ select_personalized E S items ctx
    unfolding select_for
    with_signals o items c s =
        ap (select_for E S items) c
        ∙ ap
            (λ (b : Bool).
              if b
              then select_personalized E S items ctx
              else some (items, empty_personalization_summary))
            s

    -- With signals of the user.
    pub select_lem :
        (input : AggregationInput)
        → input.personalization_context ≡ some ctx
        → ctx.internal.signals_available ≡ true
        → (items : List (FeedItem E))
        → (l : Lookups) × Result items
            (filter wanted items)
            l
            (select_system_generated_candidates E S items input)
    unfolding select_system_generated_candidates select_for empty_personalization_summary
    select_lem input c s [] = (
      record { primary_subject_id = none; preferred = []; secondary = []; catalog = [] },
      (_, refl, refl, refl),
    )
    select_lem input c s (i ∷ items) =
        subst (λ o. (l : Lookups) × Result (i ∷ items) (filter wanted (i ∷ items)) l o)
          (sym (with_signals input.personalization_context (i ∷ items) c s))
          (select_personalized_lem (i ∷ items))

    unranked-or_all :
        (l : Lookups) (items ws : List (FeedItem E))
        → map unranked (or_all items (map (annotate E l) ws)) ≡ map unranked (or_all items ws)
    unranked-or_all l items [] = refl
    unranked-or_all l items (w ∷ ws) = unranked-annotate l (w ∷ ws)

    -- With signals of the user the selection never panics: it gives, in their order, the wanted items,
    -- or all where none is wanted, and the summary says which of the two.
    pub selects_wanted :
        (input : AggregationInput)
        → input.personalization_context ≡ some ctx
        → ctx.internal.signals_available ≡ true
        → (items : List (FeedItem E))
        → (r : Selected E S) × (select_system_generated_candidates E S items input ≡ some r)
          × (map unranked r.0 ≡ map unranked (wanted_or_all ctx items))
          × (r.1.applied ≡ not (is_empty (filter wanted items)))
    selects_wanted input c s items =
        let (l, result) = select_lem input c s items in
        let (r, e, kept, applied) = result in
        (r, e, ap (map unranked) kept ∙ unranked-or_all l items (filter wanted items), applied)

    -- What the selection's ranks do not change.
    abbrev pub Kept : (FeedItem E → Type 0) → Type 0
    Kept P = (l : Lookups) (i : FeedItem E) → P i → P (annotate E l i)

    annotate-All :
        (P : FeedItem E → Type 0)
        → Kept P
        → (l : Lookups) (items : List (FeedItem E)) → All P items
        → All P (map (annotate E l) items)
    annotate-All P k l [] h = tt
    annotate-All P k l (i ∷ items) h = (k l i h.0, annotate-All P k l items h.1)

    or_all-All :
        (P : FeedItem E → Type 0)
        → Kept P
        → (l : Lookups) (items ws : List (FeedItem E)) → All P items
        → All P ws
        → All P (or_all items (map (annotate E l) ws))
    or_all-All P k l items [] h g = h
    or_all-All P k l items (w ∷ ws) h g = annotate-All P k l (w ∷ ws) g

    pub with_signals-All :
        (P : FeedItem E → Type 0)
        → Kept P
        → (input : AggregationInput) → input.personalization_context ≡ some ctx
        → ctx.internal.signals_available ≡ true
        → (items : List (FeedItem E)) → All P items
        → (r : Selected E S) × (select_system_generated_candidates E S items input ≡ some r)
          × All P r.0
    with_signals-All P k input c s items h =
        let (l, result) = select_lem input c s items in
        let (r, e, kept, _) = result in
        (
          r,
          e,
          subst (All P) (sym kept)
              (or_all-All P k l items (filter wanted items) h (All-filter P wanted items h)),
        )
