-- ===== src/Recommendation/Aggregation/Contents.antt =====
-- src/recommendation/aggregation.rs: what stands in a feed, and when it is in order.
use mathlib.Core.Path.{subst}
use mathlib.Core.List.{Perm, map-append}
use mathlib.Core.List.Perm
use mathlib.Core.Option.{some-injective, none-ne-some}
use klass_mobile_backend.Json.{Json, get}
use klass_mobile_backend.Recommendation.Aggregation.{or_else, and_then}
use klass_mobile_backend.Recommendation.Aggregation.Selection.{Lookups, annotate}
use klass_mobile_backend.Prelude.{
  ◌≡◌, refl, sym, ap, ◌∙◌, ◌⊎◌, inl, inr, true, not, Option, none, some, List, ◌∷◌, [], ◌++◌, map,
  Bool-cases, Option-cases,
}
use klass_mobile_backend.Prelude.Order.{Any, Total}
use klass_mobile_backend.Prelude.Sort.{
  Sorter, NotGt, All-insertion_sort, Ordered, insertion_sort, insertion_sort-Ordered,
}
use klass_mobile_backend.Prelude.Filter.{All, All-Any, All-map, All-append, All-of_map, filter-true}
use klass_mobile_backend.Recommendation.Personalization.{PersonalizationContext}
use klass_mobile_backend.Recommendation.Aggregation.{
  FeedEnv, FeedItem, AggregationInput, CuratedItemInput, TopicItemInput,
}
use klass_mobile_backend.Recommendation.Aggregation.Summary.{
  Selected, select_system_generated_candidates, empty_personalization_summary,
}
use klass_mobile_backend.Recommendation.Aggregation.Feed.{
  FeedSnapshot, is_admin, is_system, normalize_curated_item, normalize_topic_item, admin_items,
  system_items, compare_items, source_status_of, build_feed_snapshot,
}
use klass_mobile_backend.Recommendation.Aggregation.Order.{
  System, Curated, Total-compare_items-System, Total-compare_items-Curated, FloatLaws, Scored,
  ByPriority, BySelection, by_selection, by_priority,
}
use klass_mobile_backend.Recommendation.Aggregation.Snapshot.{
  snapshot-Perm, not_personalized_items, without_signals,
}
use klass_mobile_backend.Recommendation.Aggregation.Selects.{
  unranked, wanted_or_all, selects_wanted, with_signals-All,
}

module _ (E : FeedEnv) where
  not_admin :
      (c : CuratedItemInput) → not (is_admin c) ≡ true → System E (normalize_curated_item E c)
  unfolding is_system normalize_curated_item
  not_admin c h = h

  admin : (c : CuratedItemInput) → is_admin c ≡ true → Curated E (normalize_curated_item E c)
  unfolding is_system normalize_curated_item
  admin c h = ap not h

  topic : (t : TopicItemInput) → System E (normalize_topic_item E t)
  unfolding is_system normalize_topic_item
  topic t = refl

  -- Each item stands so to each later one.
  abbrev pub Pairs : (FeedItem E → FeedItem E → Type 0) → List (FeedItem E) → Type 0
  Pairs R [] = Unit
  Pairs R (x ∷ xs) = All (R x) xs × Pairs R xs

  All-implies :
      (P Q R : FeedItem E → Type 0) (xs : List (FeedItem E))
      → ((i : FeedItem E) → P i → Q i → R i)
      → All P xs
      → All Q xs
      → All R xs
  All-implies P Q R [] f h k = tt
  All-implies P Q R (x ∷ xs) f h k = (f x h.0 k.0, All-implies P Q R xs f h.1 k.1)

  Pairs-Ordered :
      (P : FeedItem E → Type 0) (R : FeedItem E → FeedItem E → Type 0) (xs : List (FeedItem E))
      → ((x y : FeedItem E) → P x → P y → NotGt (compare_items E) x y → R x y)
      → All P xs
      → Ordered (compare_items E) xs
      → Pairs R xs
  Pairs-Ordered P R [] f h o = tt
  Pairs-Ordered P R (x ∷ xs) f h o =
      (All-implies P _ (R x) xs (λ y p n. f x y h.0 p n) h.1 o.0, Pairs-Ordered P R xs f h.1 o.1)

  module _ (S : Sorter) (input : AggregationInput) where
    -- With signals of the user, a feed holds the admin's items, and of the system's those that the
    -- user is to see, or all where there is none such; each as often as the input has it.
    pub feed_holds_wanted :
        (ctx : PersonalizationContext) (snap : FeedSnapshot E)
        → input.personalization_context ≡ some ctx
        → ctx.internal.signals_available ≡ true
        → build_feed_snapshot E S input ≡ some snap
        → Perm
            (map (unranked E) snap.items)
            (map (unranked E) (admin_items E input ++ wanted_or_all E ctx (system_items E input)))
    feed_holds_wanted ctx snap c s h =
        let (r, e, p) = snapshot-Perm E S input snap h in
        let (r', e', kept, _) = selects_wanted E S ctx input c s (system_items E input) in
        let same : r ≡ r' = some-injective _ _ (sym e ∙ e') in
        let regrouped : map (unranked E) (admin_items E input ++ r.0)
            ≡ map (unranked E) (admin_items E input ++ wanted_or_all E ctx (system_items E input)) =
          map-append (unranked E) (admin_items E input) r.0
          ∙ ap (λ l. map (unranked E) (admin_items E input) ++ l)
              (ap (λ (t : Selected E S). map (unranked E) t.0) same ∙ kept)
          ∙ sym (map-append (unranked E) (admin_items E input) _) in
        subst (Perm (map (unranked E) snap.items)) regrouped (Perm.map (unranked E) p)

    -- The selection never panics, and gives items that have what all the system's have.
    selects_All :
        (P : FeedItem E → Type 0)
        → ((l : Lookups) (i : FeedItem E) → P i → P (annotate E l i))
        → All P (system_items E input)
        → (r : Selected E S) × (select_system_generated_candidates E S (system_items E input) input
            ≡ some r)
          × All P r.0
    selects_All P k h = elim (Option-cases input.personalization_context) [
      | inl e ↦ (_, not_personalized_items E S input e (system_items E input), h)
      | inr (ctx, c) ↦ elim (Bool-cases ctx.internal.signals_available) [
        | inl t ↦ with_signals-All E S ctx P k input c t (system_items E input) h
        | inr f ↦ (_, without_signals E S input ctx c f (system_items E input), h)
      ]
    ]

    nothing_selected :
        system_items E input ≡ []
        → select_system_generated_candidates E S (system_items E input) input
          ≡ some ([], empty_personalization_summary)
    unfolding select_system_generated_candidates
    nothing_selected e = rw e refl

    -- The snapshot, where all items are ones that the comparison orders.
    ordered :
        (P : FeedItem E → Type 0)
        → Total P (compare_items E)
        → (r : Selected E S)
        → select_system_generated_candidates E S (system_items E input) input ≡ some r
        → All P (admin_items E input ++ r.0)
        → (snap : FeedSnapshot E) × (build_feed_snapshot E S input ≡ some snap)
          × Ordered (compare_items E) snap.items
          × All P snap.items
    unfolding build_feed_snapshot
    ordered P t r e h =
        let s = S.sort_by-Total _ P (compare_items E) t (admin_items E input ++ r.0) h in
        let snap : FeedSnapshot E = record {
          items = insertion_sort (compare_items E) (admin_items E input ++ r.0);
          source_status = source_status_of input;
          personalization = r.1;
        } in
        (
          snap,
          rw e (rw s refl),
          insertion_sort-Ordered P (compare_items E) t _ h,
          All-insertion_sort P (compare_items E) _ h,
        )

    module _ (F : FloatLaws E) where
      or_zero :
          (o : Option E.Float)
          → ((x : E.Float) → o ≡ some x → F.IsNumber x)
          → F.IsNumber (or_else o E.zero_float)
      or_zero none h = F.zero_float
      or_zero (some x) h = h x refl

      number_in : (o : Option Json) (x : E.Float) → and_then o E.as_f64 ≡ some x → F.IsNumber x
      number_in none x e = absurd (none-ne-some x e)
      number_in (some v) x e = F.as_f64 v x e

      curated_score : (c : CuratedItemInput) → Scored E F (normalize_curated_item E c)
      unfolding normalize_curated_item
      curated_score c = or_zero _ (number_in (get "score" c.source_payload))

      topic_score : (t : TopicItemInput) → Scored E F (normalize_topic_item E t)
      unfolding normalize_topic_item
      topic_score t = F.zero_float

      abbrev OfSystem : FeedItem E → Type 0
      OfSystem i = System E i × Scored E F i

      abbrev OfAdmin : FeedItem E → Type 0
      OfAdmin i = Curated E i × Scored E F i

      All-OfSystem : All OfSystem (system_items E input)
      unfolding system_items
      All-OfSystem =
          All-append OfSystem _ _
            (All-of_map OfSystem (normalize_curated_item E) _ (
              All-map _ _ (λ c h. (not_admin c h, curated_score c)) _
                (filter-true (λ c. not (is_admin c)) input.curated_items)))
            (All-of_map OfSystem (normalize_topic_item E) _
              (All-map Any _ (λ t _. (topic t, topic_score t)) _ (All-Any _)))

      All-OfAdmin : All OfAdmin (admin_items E input)
      unfolding admin_items
      All-OfAdmin = All-of_map OfAdmin (normalize_curated_item E) _ (
          All-map _ _ (λ c h. (admin c h, curated_score c)) _
            (filter-true is_admin input.curated_items))

      kept_OfSystem : (l : Lookups) (i : FeedItem E) → OfSystem i → OfSystem (annotate E l i)
      unfolding annotate is_system
      kept_OfSystem l i h = h

      abbrev pub InOrderOf :
          (admin_items E input ≡ []) ⊎ (system_items E input ≡ []) → List (FeedItem E) → Type 0
      InOrderOf (inl none_curated) = Pairs (BySelection E)
      InOrderOf (inr none_generated) = Pairs (ByPriority E)

      -- A feed of the system's items only, or of the admin's only, is always built. The system's are
      -- in the order of their groups, in a group of their ranks, and then the latest update comes
      -- first. The admin's have the highest priority first, and where it is the same the highest score.
      pub feed_of_one_kind :
          (kind : (admin_items E input ≡ []) ⊎ (system_items E input ≡ []))
          → (snap : FeedSnapshot E) × (build_feed_snapshot E S input ≡ some snap)
            × InOrderOf kind snap.items
      feed_of_one_kind (inl none_curated) =
          let (r, e, h) = selects_All OfSystem kept_OfSystem All-OfSystem in
          let (snap, built, o, k) =
            ordered OfSystem (Total-compare_items-System E F) r e
              (subst (λ l. All OfSystem (l ++ r.0)) (sym none_curated) h) in
          (
            snap,
            built,
            Pairs-Ordered OfSystem _ snap.items (λ x y p q n. by_selection E x y p.0 q.0 n) k o,
          )
      feed_of_one_kind (inr none_generated) =
          let (snap, built, o, k) =
            ordered OfAdmin (Total-compare_items-Curated E F) ([], empty_personalization_summary)
              (nothing_selected none_generated)
              (All-append OfAdmin (admin_items E input) [] All-OfAdmin tt) in
          (
            snap,
            built,
            Pairs-Ordered OfAdmin _ snap.items (λ x y p q n. by_priority E F x y p.0 p.1 q.1 n) k o,
          )
