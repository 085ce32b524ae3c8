-- ===== src/Recommendation/Aggregation/Snapshot.antt =====
-- src/recommendation/aggregation.rs: what a snapshot of the feed is made of.
use mathlib.Core.List.{Perm}
use mathlib.Core.Option.{none-ne-some, some-injective}
use klass_mobile_backend.Prelude.{◌≡◌, refl, ap, false, Option, none, some, List, [], ◌∷◌, ◌++◌}
use mathlib.Core.Path.{subst}
use klass_mobile_backend.Prelude.Sort.{Sorter}
use klass_mobile_backend.Json.{◌>>=◌}
use klass_mobile_backend.Recommendation.Personalization.{PersonalizationContext}
use klass_mobile_backend.Recommendation.Aggregation.{FeedEnv, FeedItem, AggregationInput}
use klass_mobile_backend.Recommendation.Aggregation.Summary.{
  Selected, select_for, select_system_generated_candidates, empty_personalization_summary,
}
use klass_mobile_backend.Recommendation.Aggregation.Feed.{
  FeedSnapshot, admin_items, system_items, build_feed_snapshot,
}

-- Inversion of a bind that gives something.
pub >>=-eq-some :
    {A B : Type 0} (m : Option A) (f : A → Option B) {b : B}
    → (m >>= f) ≡ some b
    → (a : A) × (m ≡ some a) × (f a ≡ some b)
>>=-eq-some none f h = absurd (none-ne-some _ h)
>>=-eq-some (some a) f h = (a, refl, h)

module _ (E : FeedEnv) (S : Sorter) (input : AggregationInput) where
  abbrev pub Select : Type 0
  Select = Option (Selected E S)

  -- Nothing is selected without signals of the user.
  pub without_signals :
      (ctx : PersonalizationContext)
      → input.personalization_context ≡ some ctx
      → ctx.internal.signals_available ≡ false
      → (items : List (FeedItem E))
      → select_system_generated_candidates E S items input
        ≡ some (items, empty_personalization_summary)
  unfolding select_system_generated_candidates select_for
  without_signals ctx c s [] = refl
  without_signals ctx c s (i ∷ items) = rw (c, s) refl

  pub not_personalized_items :
      input.personalization_context ≡ none
      → (items : List (FeedItem E))
      → select_system_generated_candidates E S items input
        ≡ some (items, empty_personalization_summary)
  unfolding select_system_generated_candidates select_for
  not_personalized_items e [] = refl
  not_personalized_items e (i ∷ items) = rw e refl

  pub not_personalized :
      input.personalization_context ≡ none
      → select_system_generated_candidates E S (system_items E input) input
        ≡ some (system_items E input, empty_personalization_summary)
  not_personalized e = not_personalized_items e (system_items E input)

  -- A snapshot has the admin's items and the selected ones, each as often.
  pub snapshot-Perm :
      (snap : FeedSnapshot E)
      → build_feed_snapshot E S input ≡ some snap
      → (r : Selected E S) × (select_system_generated_candidates E S (system_items E input) input
          ≡ some r)
        × Perm snap.items (admin_items E input ++ r.0)
  unfolding build_feed_snapshot
  snapshot-Perm snap h =
      let (r, chosen, rest) = >>=-eq-some _ _ h in
      let (sorted, e, last) = >>=-eq-some _ _ rest in
      let items = ap (λ (t : FeedSnapshot E). t.items) (some-injective _ _ last) in
      (r, chosen, subst (λ l. Perm l (admin_items E input ++ r.0)) items (S.sort_by-perm _ _ _ _ e))
