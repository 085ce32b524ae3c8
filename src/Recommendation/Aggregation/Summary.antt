-- ===== src/Recommendation/Aggregation/Summary.antt =====
-- src/recommendation/aggregation.rs: the selection of candidates with its summary.
use mathlib.Core.Option
use klass_mobile_backend.Prelude.{
  ℕ, ◌-◌, String, false, not, Option, none, some, List, [], ◌∷◌, map, length, str_eq, if◌then◌else◌,
}
use klass_mobile_backend.Prelude.Int.{ℤ}
use Prim.Native.Nat.{compare}
use klass_mobile_backend.Prelude.Order.{Comparison, then_with, cmp_ℤ}
use klass_mobile_backend.Prelude.Sort.{Sorter}
use klass_mobile_backend.Prelude.Filter.{filter, filter_map}
use klass_mobile_backend.Json.{◌>>=◌}
use klass_mobile_backend.Recommendation.Personalization.{PersonalizationContext, is_empty}
use klass_mobile_backend.Recommendation.Aggregation.{
  FeedEnv, FeedItem, AggregationInput, PersonalizationSummary, source_system_topic,
  source_ai_generated, timestamp_value,
}
use klass_mobile_backend.Recommendation.Aggregation.Selection.{contains, annotate, lookups_for}

unfoldable pub empty_personalization_summary : PersonalizationSummary
empty_personalization_summary = record {
  applied = false;
  filter_applied = false;
  mode = none;
  description = none;
  selected_system_candidate_count = none;
  filtered_out_system_candidate_count = none;
  matched_system_topic_count = none;
  selected_source_breakdown = none;
  matched_sub_subject_ids = none;
}

-- Each id once, where it comes first.
unfoldable pub unique_ids : List ℤ → List ℤ → List ℤ
unique_ids seen [] = []
unique_ids seen (id ∷ ids) =
    let again = unique_ids seen ids in
    let fresh = unique_ids (id ∷ seen) ids in if contains id seen then again else id ∷ fresh

module _ (E : FeedEnv) where
  -- By group and rank, then the latest update first.
  unfoldable pub compare_selection : Comparison (FeedItem E)
  compare_selection a b =
      then_with (compare a.candidate_selection.group b.candidate_selection.group) (
        then_with (compare a.candidate_selection.rank b.candidate_selection.rank)
          (cmp_ℤ (timestamp_value E b.updated_at) (timestamp_value E a.updated_at)))

  unfoldable pub count_source : String → List (FeedItem E) → ℕ
  count_source source items = length (filter (λ i. str_eq i.source_type source) items)

  module _ (S : Sorter) where
    unfoldable pub matched_ids : List (FeedItem E) → Option (List ℤ)
    matched_ids selected =
        Option.map
          (λ ordered. unique_ids [] (filter_map (λ (i : FeedItem E). i.sub_subject_id) ordered))
          (S.sort_by (FeedItem E) compare_selection selected)

    -- What the summary holds where nothing is selected, and what is added where something is.
    unfoldable pub counted :
        List (FeedItem E) → List (FeedItem E) → PersonalizationContext → PersonalizationSummary
    counted all selected ctx = record {
      applied = not (is_empty selected);
      filter_applied = not (is_empty selected);
      mode = some ctx.internal.personalized_mode;
      description = some ctx.internal.personalized_description;
      selected_system_candidate_count = some (length selected);
      filtered_out_system_candidate_count = some (length all - length selected);
      matched_system_topic_count = some (count_source source_system_topic selected);
      selected_source_breakdown = none;
      matched_sub_subject_ids = none;
    }

    unfoldable pub build_personalization_summary :
        List (FeedItem E)
        → List (FeedItem E)
        → PersonalizationContext
        → Option PersonalizationSummary
    build_personalization_summary all [] ctx = some (counted all [] ctx)
    build_personalization_summary all (i ∷ selected) ctx =
        Option.map
          (λ ids. record (counted all (i ∷ selected) ctx) {
            selected_source_breakdown = some (
                (source_system_topic, count_source source_system_topic (i ∷ selected))
                ∷ (source_ai_generated, count_source source_ai_generated (i ∷ selected))
                ∷ []);
            matched_sub_subject_ids = some ids;
          })
          (matched_ids (i ∷ selected))

    abbrev pub Selected : Type 0
    Selected = List (FeedItem E) × PersonalizationSummary

    unfoldable pub selected_items : List (FeedItem E) → List (FeedItem E)
    selected_items = filter (λ i. i.candidate_selection.selected)

    -- Where no item is selected the feed is not personalized.
    unfoldable pub summarize :
        List (FeedItem E)
        → List (FeedItem E)
        → List (FeedItem E)
        → PersonalizationContext
        → Option Selected
    summarize items annotated [] ctx = some (items, empty_personalization_summary)
    summarize items annotated (i ∷ selected) ctx =
        Option.map (λ summary. (i ∷ selected, summary))
          (build_personalization_summary annotated (i ∷ selected) ctx)

    unfoldable pub select_personalized :
        List (FeedItem E) → PersonalizationContext → Option Selected
    select_personalized items ctx = do
      l ← lookups_for E S ctx.internal items
      let annotated = map (annotate E l) items
      summarize items annotated (selected_items annotated) ctx

    unfoldable pub select_for : List (FeedItem E) → Option PersonalizationContext → Option Selected
    select_for items none = some (items, empty_personalization_summary)
    select_for items (some ctx) =
        if ctx.internal.signals_available
        then select_personalized items ctx
        else some (items, empty_personalization_summary)

    unfoldable pub select_system_generated_candidates :
        List (FeedItem E) → AggregationInput → Option Selected
    select_system_generated_candidates [] input = some ([], empty_personalization_summary)
    select_system_generated_candidates (i ∷ items) input =
        select_for (i ∷ items) input.personalization_context
