-- ===== src/Recommendation/Aggregation/Wanted.antt =====
-- src/recommendation/aggregation.rs: the selection against a description of what a user is to see.
use klass_mobile_backend.Prelude.{
  ℕ, ◌≡◌, refl, sym, ◌∙◌, Bool, true, false, ◌&&◌, ◌||◌, Option, none, some, List, [], ◌++◌, arith,
  if◌then◌else◌, Bool-cases, inl, inr, Option-cases,
}
use klass_mobile_backend.Prelude.Int.{ℤ}
use klass_mobile_backend.Prelude.Order.{Any}
use klass_mobile_backend.Prelude.Sort.{Sorter}
use klass_mobile_backend.Prelude.Filter.{All, All-map, All-Any}
use klass_mobile_backend.Recommendation.Personalization.{PersonalizationInternal, is_some}
use klass_mobile_backend.Recommendation.Aggregation.{FeedEnv, FeedItem, CandidateSelection}
use klass_mobile_backend.Recommendation.Aggregation.Selection.{
  Lookups, build_rank_lookup, contains, is_id, chosen, unchosen, by_catalog, by_preference,
  by_secondary, select_sub_subject, is_eligible_system_generated_candidate, annotate, lookups_for,
  build_primary_subject_catalog_lookup, get_rank,
}
use klass_mobile_backend.Recommendation.Aggregation.Ranks.{
  catalog_of, build_catalog, catalog_of-knows, build_rank_lookup-knows, contains-append,
}

abbrev pub of_subject : Option ℤ → Option ℤ → Bool
of_subject none subject_id = false
of_subject (some ps_id) subject_id = is_id ps_id subject_id

abbrev pub in_signals : PersonalizationInternal → Option ℤ → Option ℤ → Bool
in_signals ctx none subject_id = false
in_signals ctx (some ss_id) subject_id =
    contains ss_id ctx.preferred_activity_sub_subject_ids
    || (contains ss_id ctx.secondary_activity_sub_subject_ids
        || of_subject ctx.primary_subject_id subject_id)

or_false : (a b : Bool) → a ≡ false → b ≡ false → a || b ≡ false
or_false a b h k = ground arith

-- Where the catalog has what it is to have, the ranks select by the three signals.
selected_by :
    (preferred secondary in_catalog : Option ℕ) (primary subject_id : Option ℤ)
    → (of_subject primary subject_id ≡ true
        → is_some preferred ≡ false
        → is_some secondary ≡ false
        → is_some in_catalog ≡ true)
    → (by_secondary secondary (by_preference preferred primary subject_id in_catalog)).selected
      ≡ is_some preferred || (is_some secondary || of_subject primary subject_id)
unfolding by_secondary by_preference by_catalog chosen unchosen
selected_by (some r) none c p s h = refl
selected_by (some r) (some q) c p s h = refl
selected_by none none c none s h = refl
selected_by none none none (some ps) s h = elim (Bool-cases (is_id ps s)) [
  | inl t ↦ cc (h t refl refl)
  | inr f ↦ rw f refl
]
selected_by none none (some r) (some ps) s h = ground arith
selected_by none (some q) c none s h = refl
selected_by none (some q) none (some ps) s h = refl
selected_by none (some q) (some r) (some ps) s h = ground arith

if_selected :
    (b : Bool) (s : CandidateSelection) (w : Bool)
    → (b ≡ true → s.selected ≡ w)
    → (if b then s else unchosen false).selected ≡ b && w
unfolding unchosen
if_selected true s w h = h refl
if_selected false s w h = refl

excluded_of : PersonalizationInternal → List ℤ
excluded_of ctx = ctx.preferred_activity_sub_subject_ids ++ ctx.secondary_activity_sub_subject_ids

module _ (E : FeedEnv) where
  -- A user is to see the candidates of the sub-subjects in which the user writes, and those of the
  -- user's primary subject.
  abbrev pub is_wanted : PersonalizationInternal → FeedItem E → Bool
  is_wanted ctx i =
      is_eligible_system_generated_candidate E i && in_signals ctx i.sub_subject_id i.subject_id

  abbrev is_selected : Lookups → FeedItem E → Bool
  is_selected l i = (annotate E l i).candidate_selection.selected

  module _ (ctx : PersonalizationInternal) (catalog : List (ℤ × ℕ)) where
    abbrev lookups : Lookups
    lookups = record {
      primary_subject_id = ctx.primary_subject_id;
      preferred = build_rank_lookup ctx.preferred_activity_sub_subject_ids;
      secondary = build_rank_lookup ctx.secondary_activity_sub_subject_ids;
      catalog = catalog;
    }

    -- The catalog has the sub-subject of an eligible item of the primary subject.
    abbrev Covers : FeedItem E → Type 0
    Covers i =
        (ss_id : ℤ)
        → i.sub_subject_id ≡ some ss_id
        → is_eligible_system_generated_candidate E i ≡ true
        → of_subject ctx.primary_subject_id i.subject_id ≡ true
        → contains ss_id (excluded_of ctx) ≡ false
        → is_some (get_rank ss_id catalog) ≡ true

    select_sub_subject-selected :
        (sub subject : Option ℤ)
        → ((ss_id : ℤ)
            → sub ≡ some ss_id
            → of_subject ctx.primary_subject_id subject ≡ true
            → contains ss_id (excluded_of ctx) ≡ false
            → is_some (get_rank ss_id catalog) ≡ true)
        → (select_sub_subject lookups sub subject).selected ≡ in_signals ctx sub subject
    unfolding select_sub_subject unchosen excluded_of
    select_sub_subject-selected none subject h = refl
    select_sub_subject-selected (some ss_id) subject h =
        let p = build_rank_lookup-knows ss_id ctx.preferred_activity_sub_subject_ids in
        let s = build_rank_lookup-knows ss_id ctx.secondary_activity_sub_subject_ids in
        selected_by _ _ (get_rank ss_id catalog) ctx.primary_subject_id subject (λ e q r.
          h ss_id refl e (contains-append ss_id _ _ ∙ or_false _ _ (sym p ∙ q) (sym s ∙ r)))
        ∙ rw (p, s) refl

    is_selected-eq : (i : FeedItem E) → Covers i → is_selected lookups i ≡ is_wanted ctx i
    unfolding annotate unchosen
    is_selected-eq i h =
        if_selected _ _ _
          (λ t. select_sub_subject-selected i.sub_subject_id i.subject_id (λ ss_id s. h ss_id s t))

  module _ (S : Sorter) (ctx : PersonalizationInternal) (items : List (FeedItem E)) where
    abbrev Selects : Lookups → Type 0
    Selects l = All (λ i. is_selected l i ≡ is_wanted ctx i) items

    -- By a catalog that covers the items.
    with_catalog :
        (catalog : List (ℤ × ℕ))
        → build_primary_subject_catalog_lookup E S ctx.primary_subject_id (excluded_of ctx) items
          ≡ some catalog
        → All (Covers ctx catalog) items
        → (l : Lookups) × (lookups_for E S ctx items ≡ some l) × Selects l
    unfolding lookups_for excluded_of
    with_catalog catalog e covers =
        (lookups ctx catalog, rw e refl, All-map _ _ (is_selected-eq ctx catalog) items covers)

    no_subject :
        ctx.primary_subject_id ≡ none
        → build_primary_subject_catalog_lookup E S ctx.primary_subject_id (excluded_of ctx) items
          ≡ some []
    unfolding build_primary_subject_catalog_lookup
    no_subject e = rw e refl

    a_subject :
        (ps_id : ℤ)
        → ctx.primary_subject_id ≡ some ps_id
        → build_primary_subject_catalog_lookup E S ctx.primary_subject_id (excluded_of ctx) items
          ≡ some (catalog_of E ps_id (excluded_of ctx) S items)
    unfolding excluded_of
    a_subject ps_id e = rw e (build_catalog E ps_id (excluded_of ctx) S items)

    -- The lookups are always built, and select what is wanted.
    pub lookups_for_lem : (l : Lookups) × (lookups_for E S ctx items ≡ some l) × Selects l
    lookups_for_lem = elim (Option-cases ctx.primary_subject_id) [
      | inl e ↦ with_catalog [] (no_subject e) (
          All-map Any _ (λ i _ ss_id s t p x. absurd (false_subject i.subject_id e p)) items
            (All-Any items))
      | inr (ps_id, e) ↦ with_catalog _ (a_subject ps_id e) (
          All-map _ _ (λ i h ss_id s t p x. h ss_id s t (rw e at p) x) items
            (catalog_of-knows E ps_id (excluded_of ctx) S items))
    ]
      where
        false_subject :
            (s : Option ℤ)
            → ctx.primary_subject_id ≡ none
            → of_subject ctx.primary_subject_id s ≡ true
            → ⊥
        false_subject s e p = cc (rw e at p)
