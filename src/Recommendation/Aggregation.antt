-- ===== src/Recommendation/Aggregation.antt =====
-- src/recommendation/aggregation.rs: the types of the feed, and what it takes of the crates.
pub mod Selection
pub mod Summary
pub mod Feed
pub mod Ranks
pub mod Wanted
pub mod Selects
pub mod Snapshot
pub mod Order
pub mod Cycle
pub mod Contents
pub mod Distribution
use klass_mobile_backend.Prelude.{
  ℕ, zero, suc, String, ◌<>◌, Bool, true, false, Option, none, some, List, [], ◌∷◌, str_eq,
  if◌then◌else◌,
}
use Prim.Native.Nat.{Ordering}
use klass_mobile_backend.Prelude.Int.{ℤ, pos}
use klass_mobile_backend.Json.{Json}
use klass_mobile_backend.Recommendation.Personalization.{PersonalizationContext}

abbrev pub source_admin_upload : String
source_admin_upload = "admin_upload"

abbrev pub source_system_topic : String
source_system_topic = "system_topic"

abbrev pub source_ai_generated : String
source_ai_generated = "ai_generated"

pub record SubjectTaxonomy : Type 0 where
  pub id : ℤ
  pub name : String
  pub slug : String

pub record SubSubjectTaxonomy : Type 0 where
  pub id : ℤ
  pub subject_id : ℤ
  pub name : String
  pub slug : String
  pub subject : Option SubjectTaxonomy

pub record TaxonomyInfo : Type 0 where
  pub subject : Option SubjectTaxonomy
  pub sub_subject : SubSubjectTaxonomy

pub record PersonalizationInfo : Type 0 where
  pub eligible : Bool
  pub mode : Option String
  pub excluded_reason : Option String
  pub has_normalized_ownership : Bool
  pub has_adequate_taxonomy : Bool

-- `f64`, with its `partial_cmp`; serde_json's reading of numbers and of the two derived types, and
-- chrono's of RFC 3339 and of the format `%Y-%m-%dT%H:%M:%S`, in seconds.
pub record FeedEnv : Type 1 where
  pub Float : Type 0
  pub zero_float : Float
  pub partial_cmp : Float → Float → Option Ordering
  pub as_f64 : Json → Option Float
  pub taxonomy_from_value : Json → Option TaxonomyInfo
  pub personalization_from_value : Json → Option PersonalizationInfo
  pub parse_rfc3339 : String → Option ℤ
  pub parse_naive : String → Option ℤ

pub record CuratedItemInput : Type 0 where
  pub id : String
  pub title : String
  pub description : Option String
  pub thumbnail_url : Option String
  pub ratio : Option String
  pub project_type : Option String
  pub tags : List String
  pub modules : List String
  pub source_type : String
  pub source_reference : Option String
  pub source_payload : Json
  pub display_priority : ℤ
  pub is_active : Bool
  pub starts_at : Option String
  pub ends_at : Option String
  pub created_at : Option String
  pub updated_at : Option String

pub record TopicItemInput : Type 0 where
  pub id : String
  pub title : String
  pub thumbnail_url : Option String
  pub sub_subject_id : Option ℤ
  pub subject_id : Option ℤ
  pub taxonomy : Option TaxonomyInfo
  pub personalization_eligible : Option Bool
  pub personalization_mode : Option String
  pub personalization_excluded_reason : Option String
  pub has_normalized_ownership : Bool
  pub modules : List String
  pub teacher_id : Option String
  pub owner_user_id : Option ℤ
  pub ownership_status : Option String
  pub order : Option ℤ
  pub created_at : Option String
  pub updated_at : Option String

-- Of an AI-generated source, and of the override of a system topic.
pub record AiSourceMetadata : Type 0 where
  pub id : String
  pub title : String
  pub created_at : Option String

pub record TopicOverrideMetadata : Type 0 where
  pub id : String
  pub title : String
  pub created_at : Option String

pub record SystemAssignmentInput : Type 0 where
  pub source_type : String
  pub source_reference : String
  pub subject_id : Option ℤ
  pub sub_subject_id : ℤ
  pub distinct_user_count : ℤ
  pub latest_distribution_at : Option String

-- A map is its `get`.
pub record AggregationInput : Type 0 where
  pub curated_items : List CuratedItemInput
  pub suppressed_source_keys : List String
  pub topic_items : List TopicItemInput
  pub assignments : List SystemAssignmentInput
  pub sub_subject_lookup : ℤ → Option SubSubjectTaxonomy
  pub ai_source_lookup : String → Option AiSourceMetadata
  pub topic_override_lookup : String → Option TopicOverrideMetadata
  pub personalization_context : Option PersonalizationContext
  pub minimum_distinct_user_count : ℤ
  pub maximum_items_per_sub_subject : ℕ
  pub eligible_source_types : List String

-- `AggregationInput::empty`.
unfoldable pub empty_input : AggregationInput
empty_input = record {
  curated_items = [];
  suppressed_source_keys = [];
  topic_items = [];
  assignments = [];
  sub_subject_lookup = λ id. none;
  ai_source_lookup = λ key. none;
  topic_override_lookup = λ key. none;
  personalization_context = none;
  minimum_distinct_user_count = pos 2;
  maximum_items_per_sub_subject = 1;
  eligible_source_types = [];
}

pub record VisibilityInfo : Type 0 where
  pub is_active : Bool
  pub starts_at : Option String
  pub ends_at : Option String

pub record CandidateSelection : Type 0 where
  pub eligible : Bool
  pub selected : Bool
  pub group : ℕ
  pub rank : ℕ
  pub reason : String

pub record SourceStatusInfo : Type 0 where
  pub state : String
  pub suppressed_count : Option ℕ

pub record PersonalizationSummary : Type 0 where
  pub applied : Bool
  pub filter_applied : Bool
  pub mode : Option String
  pub description : Option String
  pub selected_system_candidate_count : Option ℕ
  pub filtered_out_system_candidate_count : Option ℕ
  pub matched_system_topic_count : Option ℕ
  pub selected_source_breakdown : Option (List (String × ℕ))
  pub matched_sub_subject_ids : Option (List ℤ)

-- `usize::MAX`.
abbrev pub max_rank : ℕ
max_rank = 18446744073709551615

unfoldable pub default_selection : CandidateSelection
default_selection = record {
  eligible = false;
  selected = false;
  group = 4;
  rank = max_rank;
  reason = "normalization_required";
}

abbrev pub or_else : {A : Type 0} → Option A → A → A
or_else none d = d
or_else (some a) d = a

abbrev pub and_then : {A B : Type 0} → Option A → (A → Option B) → Option B
and_then none f = none
and_then (some a) f = f a

abbrev pub or_read : {A : Type 0} → Option A → Option A → Option A
or_read none o = o
or_read (some a) o = some a

abbrev pub text_among : String → List String → Bool
text_among key [] = false
text_among key (k ∷ ks) = let rest = text_among key ks in if str_eq k key then true else rest

unfoldable pub make_source_key : String → String → String
make_source_key source_type source_reference = source_type <> ":" <> source_reference

unfoldable pub resolve_state_from_count : ℕ → String
resolve_state_from_count zero = "empty"
resolve_state_from_count (suc n) = "ok"

module _ (E : FeedEnv) where
  pub record FeedItem : Type 0 where
    pub id : String
    pub title : String
    pub description : Option String
    pub thumbnail_url : Option String
    pub ratio : String
    pub project_type : Option String
    pub tags : List String
    pub modules : List String
    pub sub_subject_id : Option ℤ
    pub subject_id : Option ℤ
    pub taxonomy : Option TaxonomyInfo
    pub personalization : Option PersonalizationInfo
    pub source_type : String
    pub source_reference : Option String
    pub feed_origin : String
    pub display_priority : ℤ
    pub score : E.Float
    pub visibility : VisibilityInfo
    pub created_at : Option String
    pub updated_at : Option String
    pub candidate_selection : CandidateSelection

  -- The empty text is no time; what cannot be read counts as 0.
  unfoldable pub timestamp_of : String → Option ℤ
  timestamp_of s = if str_eq s "" then none else or_read (E.parse_rfc3339 s) (E.parse_naive s)

  unfoldable pub timestamp_value : Option String → ℤ
  timestamp_value value = or_else (and_then value timestamp_of) (pos 0)
