-- ===== src/Recommendation/Aggregation/Distribution.antt =====
-- src/recommendation/aggregation.rs: the summary of what the system has distributed to its users.
pub mod Groups
pub mod Keys
pub mod Best
pub mod Summed
use mathlib.Core.Option
use mathlib.Core.List.{Permᴰ}
use klass_mobile_backend.Prelude.{
  ℕ, zero, suc, String, ◌<>◌, Bool, true, false, not, ◌&&◌, Option, none, some, List, [], ◌∷◌, ◌++◌,
  map, str_eq, ◌≡◌, if◌then◌else◌,
}
use klass_mobile_backend.Prelude.Int.{ℤ, pos, eq_ℤ, ltb_ℤ}
use klass_mobile_backend.Prelude.Order.{Comparison, then_with, cmp_ℤ, cmp_str}
use klass_mobile_backend.Prelude.Sort.{Sorter}
use klass_mobile_backend.Prelude.Filter.{take, filter, filter_map}
use klass_mobile_backend.Json.{◌>>=◌}
use klass_mobile_backend.Recommendation.Personalization.{is_empty}
use klass_mobile_backend.Recommendation.Aggregation.{
  FeedEnv, AggregationInput, text_among, SystemAssignmentInput, SubjectTaxonomy, SubSubjectTaxonomy,
  AiSourceMetadata, TopicOverrideMetadata, source_ai_generated, source_system_topic, or_else,
  or_read, make_source_key, timestamp_value,
}

pub record DistributionSummaryItem : Type 0 where
  pub recommendation_key : String
  pub recommendation_item_id : String
  pub title : String
  pub source_type : String
  pub source_reference : String
  pub subject_id : Option ℤ
  pub sub_subject_id : ℤ
  pub subject : Option SubjectTaxonomy
  pub sub_subject : Option SubSubjectTaxonomy
  pub distinct_user_count : ℤ
  pub latest_distribution_at : Option String
  pub source_created_at : Option String

-- The id, the title and the time of creation.
abbrev Metadata : Type 0
Metadata = String × String × Option String

plain_metadata : SystemAssignmentInput → Metadata
plain_metadata a = (a.source_reference, a.source_type <> ":" <> a.source_reference, none)

ai_metadata : SystemAssignmentInput → Option AiSourceMetadata → Metadata
ai_metadata a none = plain_metadata a
ai_metadata a (some meta) = (meta.id, meta.title, meta.created_at)

topic_metadata : SystemAssignmentInput → Option TopicOverrideMetadata → Metadata
topic_metadata a none = ("system_topic_" <> a.source_reference, a.source_reference, none)
topic_metadata a (some meta) = (meta.id, meta.title, meta.created_at)

unfoldable pub resolve_distribution_metadata : SystemAssignmentInput → AggregationInput → Metadata
unfolding plain_metadata ai_metadata topic_metadata
resolve_distribution_metadata a input =
    if str_eq a.source_type source_ai_generated
    then ai_metadata a (input.ai_source_lookup a.source_reference)
    else if str_eq a.source_type source_system_topic
    then topic_metadata a (input.topic_override_lookup a.source_reference)
    else plain_metadata a

item_in : AggregationInput → SystemAssignmentInput → SubSubjectTaxonomy → DistributionSummaryItem
item_in input a sub_subject =
    let metadata = resolve_distribution_metadata a input in
    record {
      recommendation_key = make_source_key a.source_type a.source_reference;
      recommendation_item_id = metadata.0;
      title = metadata.1;
      source_type = a.source_type;
      source_reference = a.source_reference;
      subject_id = or_read (Option.map (λ s. s.id) sub_subject.subject) a.subject_id;
      sub_subject_id = a.sub_subject_id;
      subject = sub_subject.subject;
      sub_subject = some sub_subject;
      distinct_user_count = a.distinct_user_count;
      latest_distribution_at = a.latest_distribution_at;
      source_created_at = metadata.2;
    }

-- An assignment to a sub-subject that is not known has no item.
unfoldable pub distribution_item :
    AggregationInput → SystemAssignmentInput → Option DistributionSummaryItem
unfolding item_in
distribution_item input a = Option.map (item_in input a) (input.sub_subject_lookup a.sub_subject_id)

-- `max(1)`.
unfoldable pub minimum_users : AggregationInput → ℤ
minimum_users input =
    let m = input.minimum_distinct_user_count in if ltb_ℤ m (pos 1) then pos 1 else m

unfoldable pub is_candidate : AggregationInput → SystemAssignmentInput → Bool
is_candidate input a =
    text_among a.source_type input.eligible_source_types
    && not (ltb_ℤ a.distinct_user_count (minimum_users input))

-- The groups, by sub-subject: `entry(id).or_default().push(item)`.
abbrev pub Groups : Type 0
Groups = List (ℤ × List DistributionSummaryItem)

unfoldable pub add_to_group : DistributionSummaryItem → Groups → Groups
add_to_group item [] = (item.sub_subject_id, item ∷ []) ∷ []
add_to_group item ((id, group) ∷ groups) =
    let rest = add_to_group item groups in
    if eq_ℤ id item.sub_subject_id then (id, group ++ item ∷ []) ∷ groups else (id, group) ∷ rest

unfoldable pub group_items : Groups → List DistributionSummaryItem → Groups
group_items groups [] = groups
group_items groups (item ∷ items) = group_items (add_to_group item groups) items

-- `HashMap::into_values`: the groups, in an order that is left open.
pub record Values : Type 0 where
  pub into_values : Groups → List (List DistributionSummaryItem)
  pub into_values-perm : (groups : Groups) → Permᴰ (into_values groups) (map (λ g. g.1) groups)

module _ (E : FeedEnv) where
  unfoldable pub compare_distribution_candidates : Comparison DistributionSummaryItem
  compare_distribution_candidates a b =
      then_with (cmp_ℤ b.distinct_user_count a.distinct_user_count) (
        then_with
          (cmp_ℤ (timestamp_value E b.latest_distribution_at)
            (timestamp_value E a.latest_distribution_at))
          (then_with
            (cmp_ℤ (timestamp_value E b.source_created_at) (timestamp_value E a.source_created_at))
            (cmp_str a.source_reference b.source_reference)))

  unfoldable pub subject_key : DistributionSummaryItem → ℤ
  subject_key a = or_else (Option.map (λ s. s.id) a.subject) (pos 0)

  unfoldable pub compare_globally : Comparison DistributionSummaryItem
  compare_globally a b =
      then_with (cmp_ℤ (subject_key a) (subject_key b))
        (then_with (cmp_ℤ a.sub_subject_id b.sub_subject_id) (compare_distribution_candidates a b))

  module _ (S : Sorter) (V : Values) where
    -- The groups, each sorted and cut, one after the other.
    unfoldable pub best_of_groups :
        ℕ → List (List DistributionSummaryItem) → Option (List DistributionSummaryItem)
    best_of_groups limit [] = some []
    best_of_groups limit (group ∷ groups) = do
      sorted ← S.sort_by DistributionSummaryItem compare_distribution_candidates group
      rest ← best_of_groups limit groups
      some (take limit sorted ++ rest)

    unfoldable pub group_and_sort_distribution :
        List DistributionSummaryItem → ℕ → Option (List DistributionSummaryItem)
    group_and_sort_distribution items max_per_sub_subject = do
      flattened ← best_of_groups max_per_sub_subject (V.into_values (group_items [] items))
      S.sort_by DistributionSummaryItem compare_globally flattened

    unfoldable pub build_system_distribution_summary :
        AggregationInput → Option (List DistributionSummaryItem)
    build_system_distribution_summary input =
        let candidates = filter (is_candidate input) input.assignments in
        if is_empty input.eligible_source_types
        then some []
        else if is_empty candidates
        then some []
        else group_and_sort_distribution (filter_map (distribution_item input) candidates)
            input.maximum_items_per_sub_subject
