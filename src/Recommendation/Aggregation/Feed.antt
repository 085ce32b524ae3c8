-- ===== src/Recommendation/Aggregation/Feed.antt =====
-- src/recommendation/aggregation.rs: the items of the feed, their order, and the snapshot of the feed.
use klass_mobile_backend.Prelude.{
  ℕ, String, ◌<>◌, Bool, true, not, ◌&&◌, Option, none, some, List, [], ◌∷◌, ◌++◌, map, length,
  str_eq, if◌then◌else◌,
}
use klass_mobile_backend.Prelude.Int.{pos}
use Prim.Native.Nat.{Ordering}
use klass_mobile_backend.Prelude.Order.{Comparison, then_with, cmp_ℤ, cmp_str}
use klass_mobile_backend.Prelude.Sort.{Sorter}
use klass_mobile_backend.Prelude.Filter.{filter}
use klass_mobile_backend.Json.{◌>>=◌, get, as_i64}
use klass_mobile_backend.Recommendation.Personalization.{is_some}
use klass_mobile_backend.Recommendation.Aggregation.{
  FeedEnv, FeedItem, AggregationInput, text_among, CuratedItemInput, TopicItemInput,
  PersonalizationSummary, SourceStatusInfo, source_admin_upload, source_system_topic,
  source_ai_generated, default_selection, or_else, and_then, make_source_key,
  resolve_state_from_count, timestamp_value,
}
use klass_mobile_backend.Recommendation.Aggregation.Summary.{
  compare_selection, select_system_generated_candidates,
}

abbrev pub feed_origin_admin : String
feed_origin_admin = "admin_curated"

abbrev pub feed_origin_system : String
feed_origin_system = "system_generated"

-- The topics whose key is not suppressed.
unfoldable pub is_suppressed : AggregationInput → TopicItemInput → Bool
is_suppressed input t =
    text_among (make_source_key source_system_topic t.id) input.suppressed_source_keys

abbrev pub is_admin : CuratedItemInput → Bool
is_admin c = str_eq c.source_type source_admin_upload

unfoldable pub count_curated : String → List CuratedItemInput → ℕ
count_curated source items = length (filter (λ c. str_eq c.source_type source) items)

status_of : ℕ → Option ℕ → SourceStatusInfo
status_of count suppressed = record {
  state = resolve_state_from_count count;
  suppressed_count = suppressed;
}

unfoldable pub source_status_of : AggregationInput → List (String × SourceStatusInfo)
unfolding status_of
source_status_of input =
    (source_admin_upload, status_of (count_curated source_admin_upload input.curated_items) none)
    ∷ (
      source_system_topic,
      status_of (length input.topic_items) (some (length input.suppressed_source_keys)),
    )
    ∷ (source_ai_generated, status_of (count_curated source_ai_generated input.curated_items) none)
    ∷ []

module _ (E : FeedEnv) where
  unfoldable pub normalize_curated_item : CuratedItemInput → FeedItem E
  normalize_curated_item c = record {
    id = c.id;
    title = c.title;
    description = c.description;
    thumbnail_url = c.thumbnail_url;
    ratio = or_else c.ratio "16:9";
    project_type = c.project_type;
    tags = c.tags;
    modules = c.modules;
    sub_subject_id = and_then (get "sub_subject_id" c.source_payload) as_i64;
    subject_id = and_then (get "subject_id" c.source_payload) as_i64;
    taxonomy = and_then (get "taxonomy" c.source_payload) E.taxonomy_from_value;
    personalization =
        and_then (get "personalization" c.source_payload) E.personalization_from_value;
    source_type = c.source_type;
    source_reference = c.source_reference;
    feed_origin = if is_admin c then feed_origin_admin else feed_origin_system;
    display_priority = c.display_priority;
    score = or_else (and_then (get "score" c.source_payload) E.as_f64) E.zero_float;
    visibility = record { is_active = c.is_active; starts_at = c.starts_at; ends_at = c.ends_at };
    created_at = c.created_at;
    updated_at = c.updated_at;
    candidate_selection = default_selection;
  }

  unfoldable pub normalize_topic_item : TopicItemInput → FeedItem E
  normalize_topic_item topic = record {
    id = "system_topic_" <> topic.id;
    title = topic.title;
    description = none;
    thumbnail_url = topic.thumbnail_url;
    ratio = "16:9";
    project_type = none;
    tags = [];
    modules = topic.modules;
    sub_subject_id = topic.sub_subject_id;
    subject_id = topic.subject_id;
    taxonomy = topic.taxonomy;
    personalization = some (record {
      eligible = or_else topic.personalization_eligible true;
      mode = topic.personalization_mode;
      excluded_reason = topic.personalization_excluded_reason;
      has_normalized_ownership = topic.has_normalized_ownership;
      has_adequate_taxonomy = is_some topic.sub_subject_id;
    });
    source_type = source_system_topic;
    source_reference = some topic.id;
    feed_origin = feed_origin_system;
    display_priority = pos 0;
    score = E.zero_float;
    visibility = record { is_active = true; starts_at = none; ends_at = none };
    created_at = topic.created_at;
    updated_at = topic.updated_at;
    candidate_selection = default_selection;
  }

  unfoldable pub is_system : FeedItem E → Bool
  is_system i = not (str_eq i.source_type source_admin_upload)

  -- A score that is not a number ties with every score.
  unfoldable pub compare_scores : E.Float → E.Float → Ordering
  compare_scores x y = or_else (E.partial_cmp x y) Ordering.eq

  -- The highest priority and score first, then the latest, then by id.
  unfoldable pub compare_rest : Comparison (FeedItem E)
  compare_rest a b = then_with (cmp_ℤ b.display_priority a.display_priority) (
      then_with (compare_scores b.score a.score) (
        then_with (cmp_ℤ (timestamp_value E b.created_at) (timestamp_value E a.created_at))
          (cmp_str a.id b.id)))

  unfoldable pub compare_items : Comparison (FeedItem E)
  compare_items a b =
      if is_system a && is_system b
      then then_with (compare_selection E a b) (compare_rest a b)
      else compare_rest a b

  unfoldable pub admin_items : AggregationInput → List (FeedItem E)
  admin_items input = map normalize_curated_item (filter is_admin input.curated_items)

  unfoldable pub system_items : AggregationInput → List (FeedItem E)
  system_items input =
      map normalize_curated_item (filter (λ c. not (is_admin c)) input.curated_items)
      ++ map normalize_topic_item (filter (λ t. not (is_suppressed input t)) input.topic_items)

  pub record FeedSnapshot : Type 0 where
    pub items : List (FeedItem E)
    pub source_status : List (String × SourceStatusInfo)
    pub personalization : PersonalizationSummary

  -- `none` where a sort panics.
  unfoldable pub build_feed_snapshot : Sorter → AggregationInput → Option FeedSnapshot
  build_feed_snapshot S input = do
    (selected, summary) ← select_system_generated_candidates E S (system_items input) input
    sorted ← S.sort_by (FeedItem E) compare_items (admin_items input ++ selected)
    some (record {
      items = sorted;
      source_status = source_status_of input;
      personalization = summary;
    })
