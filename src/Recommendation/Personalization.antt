-- ===== src/Recommendation/Personalization.antt =====
-- src/recommendation/personalization.rs: the signals of a user, from the profile and from the topics
-- that the user has written.
use mathlib.Core.Option
use klass_mobile_backend.Prelude.{
  String, Bool, true, false, not, ◌&&◌, ◌||◌, Option, none, some, List, [], ◌∷◌, ◌++◌, map,
  if◌then◌else◌,
}
use klass_mobile_backend.Prelude.Int.{ℤ, eq_ℤ}
use klass_mobile_backend.Prelude.Filter.{filter}

pub record SubjectInfo : Type 0 where
  pub id : ℤ
  pub name : String
  pub slug : String
  pub source : Option String

pub record SubSubjectInfo : Type 0 where
  pub id : ℤ
  pub subject_id : ℤ
  pub name : String
  pub slug : String

pub record ActivityRow : Type 0 where
  pub sub_subject_id : ℤ
  pub subject_id : ℤ
  pub topic_count : ℤ
  pub latest_topic_activity_at : Option String
  pub sub_subject : Option SubSubjectInfo
  pub subject : Option SubjectInfo

pub record PersonalizationInput : Type 0 where
  pub user_id : Option ℤ
  pub primary_subject : Option SubjectInfo
  pub authored_topic_activity : List ActivityRow

pub record CandidateSubject : Type 0 where
  pub sub_subject_id : ℤ
  pub subject_id : ℤ
  pub topic_count : ℤ
  pub latest_topic_activity_at : Option String
  pub subject : Option SubjectInfo
  pub sub_subject : Option SubSubjectInfo
  pub source : String

pub record PersonalizationPublic : Type 0 where
  pub signals_available : Bool
  pub has_primary_subject : Bool
  pub has_authored_topic_activity : Bool
  pub signal_source : String
  pub fallback_mode : Option String
  pub primary_subject : Option SubjectInfo
  pub subject_anchor : Option SubjectInfo
  pub candidate_sub_subject_ids : List ℤ
  pub candidate_sub_subjects : List CandidateSubject

pub record PersonalizationInternal : Type 0 where
  pub signals_available : Bool
  pub primary_subject_id : Option ℤ
  pub preferred_activity_sub_subject_ids : List ℤ
  pub secondary_activity_sub_subject_ids : List ℤ
  pub personalized_mode : String
  pub personalized_description : String

pub record PersonalizationContext : Type 0 where
  pub outward : PersonalizationPublic
  pub internal : PersonalizationInternal

-- `PersonalizationInput::guest`.
unfoldable pub guest : PersonalizationInput
guest = record { user_id = none; primary_subject = none; authored_topic_activity = [] }

abbrev pub personalized_mode : String
personalized_mode = "personalized_system_candidate_selection"

-- `is_some` and `is_empty`.
abbrev pub is_some : {A : Type 0} → Option A → Bool
is_some none = false
is_some (some a) = true

abbrev pub is_empty : {A : Type 0} → List A → Bool
is_empty [] = true
is_empty (x ∷ xs) = false

abbrev pub first : {A : Type 0} → List A → Option A
first [] = none
first (x ∷ xs) = some x

unfoldable pub guest_context : PersonalizationContext
guest_context = record {
  outward = record {
    signals_available = false;
    has_primary_subject = false;
    has_authored_topic_activity = false;
    signal_source = "guest";
    fallback_mode = some "global_feed";
    primary_subject = none;
    subject_anchor = none;
    candidate_sub_subject_ids = [];
    candidate_sub_subjects = [];
  };
  internal = record {
    signals_available = false;
    primary_subject_id = none;
    preferred_activity_sub_subject_ids = [];
    secondary_activity_sub_subject_ids = [];
    personalized_mode = personalized_mode;
    personalized_description =
        "Select and order system-generated recommendations using authenticated user personalization signals.";
  };
}

unfoldable pub resolve_signal_source : Bool → Bool → String
resolve_signal_source true true = "profile_subject_with_authored_activity"
resolve_signal_source true false = "profile_subject"
resolve_signal_source false true = "authored_topic_activity"
resolve_signal_source false false = "insufficient_signals"

unfoldable pub resolve_fallback_mode : Bool → Bool → List ActivityRow → Option String
resolve_fallback_mode has_primary_subject has_authored_activity preferred =
    if not has_primary_subject && not has_authored_activity
    then some "global_feed"
    else if has_primary_subject && is_empty preferred
    then some "primary_subject_catalog"
    else none

unfoldable pub resolve_personalized_description : Bool → Bool → String
resolve_personalized_description true true =
    "Select and order system-generated recommendations using the user primary subject and authored-topic activity."
resolve_personalized_description true false =
    "Select and order system-generated recommendations using the user primary subject when authored-topic activity is still sparse."
resolve_personalized_description false _ =
    "Select and order system-generated recommendations using authored-topic activity because no primary subject is set."

abbrev pub in_subject : ℤ → ActivityRow → Bool
in_subject id r = eq_ℤ r.subject_id id

unfoldable pub preferred_rows : Option SubjectInfo → List ActivityRow → List ActivityRow
preferred_rows none rows = rows
preferred_rows (some ps) rows = filter (in_subject ps.id) rows

unfoldable pub secondary_rows : Option SubjectInfo → List ActivityRow → List ActivityRow
secondary_rows none rows = []
secondary_rows (some ps) rows = filter (λ r. not (in_subject ps.id r)) rows

unfoldable pub candidate_of : ActivityRow → CandidateSubject
candidate_of r = record {
  sub_subject_id = r.sub_subject_id;
  subject_id = r.subject_id;
  topic_count = r.topic_count;
  latest_topic_activity_at = r.latest_topic_activity_at;
  subject = r.subject;
  sub_subject = r.sub_subject;
  source = "authored_topic_activity";
}

subject_of : Option ActivityRow → Option SubjectInfo
subject_of none = none
subject_of (some r) = r.subject

from_source : String → SubjectInfo → SubjectInfo
from_source source s = record s { source = some source }

-- The subject of the profile, or that of the first candidate.
unfoldable pub subject_anchor : Option SubjectInfo → List ActivityRow → Option SubjectInfo
unfolding subject_of from_source
subject_anchor (some ps) candidates = some (from_source "profile" ps)
subject_anchor none candidates =
    Option.map (from_source "authored_topic_activity") (subject_of (first candidates))

unfoldable pub authenticated_context : PersonalizationInput → PersonalizationContext
authenticated_context input =
    let has_primary_subject = is_some input.primary_subject in
    let has_authored_activity = not (is_empty input.authored_topic_activity) in
    let signals_available = has_primary_subject || has_authored_activity in
    let preferred = preferred_rows input.primary_subject input.authored_topic_activity in
    let secondary = secondary_rows input.primary_subject input.authored_topic_activity in
    let candidates = map candidate_of (preferred ++ secondary) in
    record {
      outward = record {
        signals_available = signals_available;
        has_primary_subject = has_primary_subject;
        has_authored_topic_activity = has_authored_activity;
        signal_source = resolve_signal_source has_primary_subject has_authored_activity;
        fallback_mode = resolve_fallback_mode has_primary_subject has_authored_activity preferred;
        primary_subject = input.primary_subject;
        subject_anchor = subject_anchor input.primary_subject (preferred ++ secondary);
        candidate_sub_subject_ids = map (λ c. c.sub_subject_id) candidates;
        candidate_sub_subjects = candidates;
      };
      internal = record {
        signals_available = signals_available;
        primary_subject_id = Option.map (λ s. s.id) input.primary_subject;
        preferred_activity_sub_subject_ids = map (λ r. r.sub_subject_id) preferred;
        secondary_activity_sub_subject_ids = map (λ r. r.sub_subject_id) secondary;
        personalized_mode = personalized_mode;
        personalized_description =
            resolve_personalized_description has_primary_subject has_authored_activity;
      };
    }

unfoldable pub context_for : Option ℤ → PersonalizationInput → PersonalizationContext
context_for none input = guest_context
context_for (some _) input = authenticated_context input

unfoldable pub resolve : PersonalizationInput → PersonalizationContext
resolve input = context_for input.user_id input
