-- ===== src/Recommendation/Aggregation/Selection.antt =====
-- src/recommendation/aggregation.rs: which of the items that the system has generated a user sees, and
-- with what rank.
use mathlib.Core.Option
use klass_mobile_backend.Prelude.{
  ℕ, suc, String, Bool, true, false, not, ◌&&◌, Option, none, some, List, [], ◌∷◌, ◌++◌, map,
  str_eq, if◌then◌else◌,
}
use klass_mobile_backend.Prelude.Int.{ℤ, eq_ℤ}
use klass_mobile_backend.Prelude.Order.{Comparison, cmp_ℤ}
use klass_mobile_backend.Prelude.Sort.{Sorter}
use klass_mobile_backend.Prelude.Filter.{filter, filter_map}
use klass_mobile_backend.Recommendation.Personalization.{PersonalizationInternal, is_some}
use klass_mobile_backend.Recommendation.Aggregation.{
  FeedEnv, FeedItem, PersonalizationInfo, CandidateSelection, source_admin_upload,
  source_system_topic, max_rank,
}

-- A map from sub-subjects to ranks: of two entries with one key the first counts, which is the later.
abbrev pub Ranks : Type 0
Ranks = List (ℤ × ℕ)

unfoldable pub get_rank : ℤ → Ranks → Option ℕ
get_rank id [] = none
get_rank id ((j, rank) ∷ ranks) =
    let rest = get_rank id ranks in if eq_ℤ j id then some rank else rest

unfoldable pub insert_ranks : ℕ → List ℤ → Ranks → Ranks
insert_ranks index [] ranks = ranks
insert_ranks index (id ∷ ids) ranks = insert_ranks (suc index) ids ((id, index) ∷ ranks)

unfoldable pub build_rank_lookup : List ℤ → Ranks
build_rank_lookup ids = insert_ranks 0 ids []

abbrev pub contains : ℤ → List ℤ → Bool
contains id [] = false
contains id (j ∷ js) = let rest = contains id js in if eq_ℤ j id then true else rest

abbrev pub is_id : ℤ → Option ℤ → Bool
is_id id none = false
is_id id (some j) = eq_ℤ j id

eligible_topic : Option PersonalizationInfo → Bool
eligible_topic none = true
eligible_topic (some p) = p.eligible

-- The rank that a selected item gets, with the group and the reason.
unfoldable pub chosen : ℕ → ℕ → String → CandidateSelection
chosen group rank reason = record {
  eligible = true;
  selected = true;
  group = group;
  rank = rank;
  reason = reason;
}

unfoldable pub unchosen : Bool → CandidateSelection
unchosen eligible = record {
  eligible = eligible;
  selected = false;
  group = if eligible then 3 else 4;
  rank = max_rank;
  reason = if eligible then "global_feed_fallback" else "normalization_required";
}

-- The catalog of the primary subject counts for items of that subject only.
unfoldable pub by_catalog : Option ℤ → Option ℤ → Option ℕ → CandidateSelection
by_catalog (some ps_id) subject_id (some rank) =
    if is_id ps_id subject_id then chosen 1 rank "primary_subject_catalog" else unchosen true
by_catalog _ subject_id _ = unchosen true

unfoldable pub by_preference : Option ℕ → Option ℤ → Option ℤ → Option ℕ → CandidateSelection
by_preference (some rank) primary subject_id in_catalog = chosen 0 rank "authored_topic_activity"
by_preference none primary subject_id in_catalog = by_catalog primary subject_id in_catalog

unfoldable pub by_secondary : Option ℕ → CandidateSelection → CandidateSelection
by_secondary none selection = selection
by_secondary (some rank) selection =
    if selection.selected then selection else chosen 2 rank "secondary_authored_topic_activity"

-- The lookups that one call builds.
pub record Lookups : Type 0 where
  pub primary_subject_id : Option ℤ
  pub preferred : Ranks
  pub secondary : Ranks
  pub catalog : Ranks

unfoldable pub select_sub_subject : Lookups → Option ℤ → Option ℤ → CandidateSelection
select_sub_subject l none subject_id = unchosen true
select_sub_subject l (some ss_id) subject_id = by_secondary (get_rank ss_id l.secondary) (
    by_preference (get_rank ss_id l.preferred) l.primary_subject_id subject_id
      (get_rank ss_id l.catalog))

module _ (E : FeedEnv) where
  unfoldable pub is_eligible_system_generated_candidate : FeedItem E → Bool
  unfolding eligible_topic
  is_eligible_system_generated_candidate item =
      if str_eq item.source_type source_admin_upload
      then false
      else if not (is_some item.sub_subject_id && is_some item.subject_id)
      then false
      else if str_eq item.source_type source_system_topic
      then eligible_topic item.personalization
      else true

  unfoldable pub annotate : Lookups → FeedItem E → FeedItem E
  annotate l item = record item {
    candidate_selection =
        if is_eligible_system_generated_candidate item
        then select_sub_subject l item.sub_subject_id item.subject_id
        else unchosen false;
  }

  -- An item without a sub-subject passes this test; the next step drops it.
  unfoldable pub is_excluded : List ℤ → Option ℤ → Bool
  is_excluded ids none = false
  is_excluded ids (some ss_id) = contains ss_id ids

  abbrev pub CatalogEntry : Type 0
  CatalogEntry = ℤ × ℤ × Option String

  catalog_entry : FeedItem E → Option CatalogEntry
  catalog_entry item =
      Option.map (λ ss_id. (ss_id, item.display_priority, item.updated_at)) item.sub_subject_id

  unfoldable pub catalog_candidates : ℤ → List ℤ → List (FeedItem E) → List CatalogEntry
  unfolding catalog_entry
  catalog_candidates ps_id excluded_ids items = filter_map catalog_entry (
      filter (λ i. not (is_excluded excluded_ids i.sub_subject_id))
        (filter (λ i. is_id ps_id i.subject_id)
          (filter is_eligible_system_generated_candidate items)))

  abbrev pub by_sub_subject : Comparison CatalogEntry
  by_sub_subject a b = cmp_ℤ a.0 b.0

  module _ (S : Sorter) where
    unfoldable pub build_primary_subject_catalog_lookup :
        Option ℤ → List ℤ → List (FeedItem E) → Option Ranks
    build_primary_subject_catalog_lookup none excluded_ids items = some []
    build_primary_subject_catalog_lookup (some ps_id) excluded_ids items =
        Option.map (λ sorted. build_rank_lookup (map (λ (c : CatalogEntry). c.0) sorted))
          (S.sort_by CatalogEntry by_sub_subject (catalog_candidates ps_id excluded_ids items))

    unfoldable pub lookups_for : PersonalizationInternal → List (FeedItem E) → Option Lookups
    lookups_for ctx items =
        Option.map
          (λ catalog. record {
            primary_subject_id = ctx.primary_subject_id;
            preferred = build_rank_lookup ctx.preferred_activity_sub_subject_ids;
            secondary = build_rank_lookup ctx.secondary_activity_sub_subject_ids;
            catalog = catalog;
          })
          (build_primary_subject_catalog_lookup ctx.primary_subject_id
            (ctx.preferred_activity_sub_subject_ids ++ ctx.secondary_activity_sub_subject_ids)
            items)
