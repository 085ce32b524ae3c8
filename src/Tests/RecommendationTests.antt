-- ===== src/Tests/RecommendationTests.antt =====
-- A feed of three items, and a summary of three assignments.
use Prim.Native.Nat.{compare}
use mathlib.Core.Path.{subst}
use mathlib.Core.Option
use mathlib.Core.Option.{some-injective}
use mathlib.Core.List.{Perm, mem-cons_self, mem-cons_of_mem}
use mathlib.Core.List.Permᴰ
use klass_mobile_backend.Prelude.{
  ℕ, ◌≡◌, refl, inl, String, true, Option, some, none, List, [], ◌∷◌, ◌++◌, map,
}
use klass_mobile_backend.Prelude.Int.{pos}
use klass_mobile_backend.Prelude.Decimal.{
  parse_i64, read_signed, read_number, read_digits, positive,
}
use klass_mobile_backend.Prelude.Order.{Any, Total, Total-ℕ, cmp_ℤ}
use klass_mobile_backend.Prelude.Sort.{
  Sorter, Ordered, insertion_sort, insert_by, insertion_sort-perm,
}
use klass_mobile_backend.Json.{null, number, get, as_i64, find}
use klass_mobile_backend.Orchestrator.Audit.Payload.{json_object}
use klass_mobile_backend.Prelude.Word.{wrap64}
use klass_mobile_backend.Recommendation.Personalization.{
  PersonalizationInput, PersonalizationContext, resolve, context_for, authenticated_context,
  preferred_rows, secondary_rows,
}
use klass_mobile_backend.Recommendation.Aggregation.{
  FeedEnv, FeedItem, AggregationInput, CuratedItemInput, SystemAssignmentInput, timestamp_value,
  timestamp_of, default_selection, or_else,
}
use klass_mobile_backend.Recommendation.Aggregation.Selection.{
  is_eligible_system_generated_candidate, annotate, lookups_for,
  build_primary_subject_catalog_lookup, select_sub_subject, by_secondary, by_preference, by_catalog,
  chosen, unchosen, get_rank, build_rank_lookup, insert_ranks,
}
use klass_mobile_backend.Recommendation.Aggregation.Summary.{
  compare_selection, select_personalized, summarize, build_personalization_summary, matched_ids,
  selected_items, counted, select_system_generated_candidates, select_for,
  empty_personalization_summary,
}
use klass_mobile_backend.Recommendation.Aggregation.Feed.{
  FeedSnapshot, admin_items, system_items, normalize_curated_item, is_system, compare_items,
  compare_scores, build_feed_snapshot, source_status_of,
}
use klass_mobile_backend.Recommendation.Aggregation.Selects.{unranked, wanted_or_all}
use klass_mobile_backend.Recommendation.Aggregation.Cycle.{Cyclic, feed_never_in_order}
use klass_mobile_backend.Recommendation.Aggregation.Contents.{
  feed_holds_wanted, feed_of_one_kind, InOrderOf,
}
use klass_mobile_backend.Recommendation.Aggregation.Order.{FloatLaws}
use klass_mobile_backend.Recommendation.Aggregation.Distribution.{
  Values, group_and_sort_distribution, best_of_groups, group_items, add_to_group, is_candidate,
  minimum_users, distribution_item, compare_distribution_candidates, compare_globally,
  build_system_distribution_summary,
}
use klass_mobile_backend.Recommendation.Aggregation.Distribution.Best.{Items}
use klass_mobile_backend.Recommendation.Aggregation.Distribution.Summed.{
  IsBest, items_of, summary_has-IsBest,
}

abbrev sorter : Sorter
sorter = record {
  sort_by = λ A cmp xs. some (insertion_sort cmp xs);
  sort_by-perm =
      λ A cmp xs ys e. subst (λ l. Perm l xs) (some-injective _ _ e) (insertion_sort-perm cmp xs);
  sort_by-Total = λ A P cmp t xs h. refl;
}

abbrev env : FeedEnv
env = record {
  Float = ℕ;
  zero_float = 0;
  partial_cmp = λ x y. some (compare x y);
  as_f64 = λ v. none;
  taxonomy_from_value = λ v. none;
  personalization_from_value = λ v. none;
  parse_rfc3339 = parse_i64;
  parse_naive = λ s. none;
}

abbrev curated : String → String → ℕ → String → CuratedItemInput
curated id source priority updated = record {
  id = id;
  title = id;
  description = none;
  thumbnail_url = none;
  ratio = none;
  project_type = none;
  tags = [];
  modules = [];
  source_type = source;
  source_reference = none;
  source_payload = null;
  display_priority = pos priority;
  is_active = true;
  starts_at = none;
  ends_at = none;
  created_at = none;
  updated_at = some updated;
}

abbrev recent : CuratedItemInput
recent = curated "s" "ai_generated" 1 "9"

abbrev high : CuratedItemInput
high = curated "t" "ai_generated" 3 "5"

abbrev admins : CuratedItemInput
admins = curated "a" "admin_upload" 2 "0"

abbrev input_of : List CuratedItemInput → Option PersonalizationContext → AggregationInput
input_of items context = record {
  curated_items = items;
  suppressed_source_keys = [];
  topic_items = [];
  assignments = [];
  sub_subject_lookup = λ id. none;
  ai_source_lookup = λ id. none;
  topic_override_lookup = λ id. none;
  personalization_context = context;
  minimum_distinct_user_count = pos 2;
  maximum_items_per_sub_subject = 1;
  eligible_source_types = [];
}

abbrev three : AggregationInput
three = input_of (recent ∷ high ∷ admins ∷ []) none

abbrev item : CuratedItemInput → FeedItem env
item = normalize_curated_item env

cyclic : Cyclic env (item recent) (item high) (item admins)
unfolding is_system compare_selection timestamp_value timestamp_of normalize_curated_item cmp_ℤ
    parse_i64 read_signed read_number read_digits positive default_selection
cyclic = record {
  first = refl;
  second = refl;
  third = refl;
  selected_first = refl;
  below = refl;
  above = refl;
}

abbrev snapshot_of : AggregationInput → List (FeedItem env) → FeedSnapshot env
snapshot_of input items = record {
  items = insertion_sort (compare_items env) items;
  source_status = source_status_of input;
  personalization = empty_personalization_summary;
}

three_is_built :
    build_feed_snapshot env sorter three
    ≡ some (snapshot_of three (item admins ∷ item recent ∷ item high ∷ []))
unfolding build_feed_snapshot admin_items system_items select_system_generated_candidates select_for
three_is_built = refl

feed_never_in_order_example :
    ¬ Ordered
      (compare_items env)
      (snapshot_of three (item admins ∷ item recent ∷ item high ∷ [])).items
unfolding admin_items system_items
feed_never_in_order_example =
    feed_never_in_order env (item recent) (item high) (item admins) cyclic sorter three
      (snapshot_of three (item admins ∷ item recent ∷ item high ∷ [])) refl mem-cons_self
      (mem-cons_of_mem (item recent) mem-cons_self) mem-cons_self three_is_built

-- Of a sub-subject in which the user writes.
abbrev placed : CuratedItemInput
placed = record (curated "p" "ai_generated" 1 "9") {
  source_payload =
      json_object (("sub_subject_id", number (pos 4)) ∷ ("subject_id", number (pos 2)) ∷ []);
}

abbrev teacher : PersonalizationInput
teacher = record {
  user_id = some (pos 1);
  primary_subject = none;
  authored_topic_activity =
      record {
        sub_subject_id = pos 4;
        subject_id = pos 2;
        topic_count = pos 1;
        latest_topic_activity_at = none;
        sub_subject = none;
        subject = none;
      }
      ∷ [];
}

abbrev personal : AggregationInput
personal = input_of (high ∷ placed ∷ admins ∷ []) (some (resolve teacher))

abbrev personal_feed : FeedSnapshot env
personal_feed = or_else (build_feed_snapshot env sorter personal) (snapshot_of personal [])

has_signals : (resolve teacher).internal.signals_available ≡ true
unfolding resolve context_for authenticated_context
has_signals = refl

personal_is_built : build_feed_snapshot env sorter personal ≡ some personal_feed
unfolding build_feed_snapshot admin_items system_items select_system_generated_candidates select_for
    select_personalized lookups_for build_primary_subject_catalog_lookup resolve context_for
    authenticated_context preferred_rows secondary_rows is_eligible_system_generated_candidate
    annotate select_sub_subject by_secondary by_preference by_catalog chosen unchosen get_rank
    build_rank_lookup insert_ranks normalize_curated_item get find as_i64 wrap64 summarize
    build_personalization_summary matched_ids selected_items counted
personal_is_built = refl

feed_holds_wanted_example : Perm (map (unranked env) personal_feed.items) (
    map
      (unranked env)
      (admin_items env personal ++ wanted_or_all env (resolve teacher) (system_items env personal)))
feed_holds_wanted_example =
    feed_holds_wanted env sorter personal (resolve teacher) personal_feed refl has_signals
      personal_is_built

placed_alone :
    map
      (λ (i : FeedItem env). i.id)
      (wanted_or_all env (resolve teacher) (system_items env personal))
    ≡ "p" ∷ []
unfolding admin_items system_items resolve context_for authenticated_context preferred_rows
    secondary_rows is_eligible_system_generated_candidate normalize_curated_item get find as_i64
    wrap64
placed_alone = refl

scores_Total : Total Any (compare_scores env)
unfolding compare_scores
scores_Total = Total-ℕ

abbrev float_laws : FloatLaws env
float_laws = record {
  IsNumber = λ x. Unit {0};
  zero_float = tt;
  as_f64 = λ v x e. tt;
  partial_cmp = scores_Total;
}

abbrev generated : AggregationInput
generated = input_of (recent ∷ high ∷ []) none

no_admin : admin_items env generated ≡ []
unfolding admin_items
no_admin = refl

feed_of_one_kind_example :
    (snap : FeedSnapshot env) × (build_feed_snapshot env sorter generated ≡ some snap)
    × InOrderOf env sorter generated float_laws (inl no_admin) snap.items
feed_of_one_kind_example = feed_of_one_kind env sorter generated float_laws (inl no_admin)

abbrev values : Values
values = record {
  into_values = λ groups. map (λ g. g.1) groups;
  into_values-perm = λ groups. Permᴰ.refl _;
}

abbrev assigned : String → ℕ → SystemAssignmentInput
assigned reference users = record {
  source_type = "ai_generated";
  source_reference = reference;
  subject_id = none;
  sub_subject_id = pos 4;
  distinct_user_count = pos users;
  latest_distribution_at = none;
}

abbrev distributed : AggregationInput
distributed = record (input_of [] none) {
  assignments = assigned "x" 2 ∷ assigned "y" 5 ∷ assigned "z" 1 ∷ [];
  eligible_source_types = "ai_generated" ∷ [];
  sub_subject_lookup =
      λ id. some (record { id = id; subject_id = pos 2; name = "n"; slug = "n"; subject = none });
}

summary_has-IsBest_example :
    (result : Items) × (build_system_distribution_summary env sorter values distributed
      ≡ some result)
    × IsBest env sorter values 1 (items_of env sorter values distributed) result
summary_has-IsBest_example = summary_has-IsBest env sorter values distributed

best_is_y :
    Option.map
      (λ (items : Items). map (λ i. i.source_reference) items)
      (build_system_distribution_summary env sorter values distributed)
    ≡ some ("y" ∷ [])
unfolding build_system_distribution_summary group_and_sort_distribution best_of_groups group_items
    add_to_group is_candidate minimum_users distribution_item compare_distribution_candidates
    compare_globally cmp_ℤ insertion_sort insert_by
best_is_y = refl
