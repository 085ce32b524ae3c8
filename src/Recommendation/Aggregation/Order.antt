-- ===== src/Recommendation/Aggregation/Order.antt =====
-- src/recommendation/aggregation.rs: `compare_items` as an order of the feed.
use klass_mobile_backend.Prelude.{◌≡◌, ◌≢◌, ◌≤◌, refl, ap, ◌∙◌, true, false, some, arith}
use Prim.Native.Nat.{ℕ, Ordering, compare}
use klass_mobile_backend.Prelude.Int.{ℤ, ltb_ℤ}
use klass_mobile_backend.Json.{Json}
use klass_mobile_backend.Prelude.Order.{then_with, cmp_ℤ, is_gt, reverse}
use klass_mobile_backend.Prelude.Sort.{NotGt}
use klass_mobile_backend.Prelude.Order.{
  Total, Any, Total-then_with, Total-on, Total-flip, Total-ℤ, Total-ℕ, Total-str, Total-congr,
}
use klass_mobile_backend.Recommendation.Aggregation.{FeedEnv, FeedItem, timestamp_value}
use klass_mobile_backend.Recommendation.Aggregation.Summary.{compare_selection}
use klass_mobile_backend.Recommendation.Aggregation.Feed.{
  is_system, compare_scores, compare_rest, compare_items,
}

first_not_gt : (a b : Ordering) → is_gt (then_with a b) ≡ false → is_gt a ≡ false
first_not_gt a b h = ground arith

rest_not_gt : (a b : Ordering) → is_gt (then_with a b) ≡ false → a ≡ Ordering.eq → is_gt b ≡ false
rest_not_gt a b h e = ground arith

not_gt-le : (m n : ℕ) → is_gt (compare m n) ≡ false → m ≤ n
not_gt-le m n h = ground arith

ties : (m n : ℕ) → m ≡ n → compare m n ≡ Ordering.eq
ties m n e = ground arith

not_gt-ltb : (a b : ℤ) → is_gt (cmp_ℤ b a) ≡ false → ltb_ℤ a b ≡ false
unfolding cmp_ℤ
not_gt-ltb a b h = ground arith

ties_ℤ : (a b : ℤ) → a ≡ b → cmp_ℤ b a ≡ Ordering.eq
unfolding cmp_ℤ
ties_ℤ a b e = ground arith

gt_not : (o : Ordering) → o ≡ Ordering.gt → is_gt o ≢ false
gt_not o e h = ground arith

module _ (E : FeedEnv) where
  abbrev pub System : FeedItem E → Type 0
  System i = is_system E i ≡ true

  abbrev pub Curated : FeedItem E → Type 0
  Curated i = is_system E i ≡ false

  pub Total-compare_selection : Total Any (compare_selection E)
  unfolding compare_selection
  Total-compare_selection =
      Total-then_with (Total-on (λ i. i.candidate_selection.group) (λ _ _. tt) Total-ℕ) (
        Total-then_with (Total-on (λ i. i.candidate_selection.rank) (λ _ _. tt) Total-ℕ)
          (Total-flip (Total-on (λ i. timestamp_value E i.updated_at) (λ _ _. tt) Total-ℤ)))

  -- What is relied on of `f64`: the numbers that are read from JSON, and zero, are not NaN, and among
  -- such numbers `partial_cmp` is a total order.
  pub record FloatLaws : Type 1 where
    pub IsNumber : E.Float → Type 0
    pub zero_float : IsNumber E.zero_float
    pub as_f64 : (v : Json) (x : E.Float) → E.as_f64 v ≡ some x → IsNumber x
    pub partial_cmp : Total IsNumber (compare_scores E)

  module _ (F : FloatLaws) where
    abbrev pub Scored : FeedItem E → Type 0
    Scored i = F.IsNumber i.score

    Total-compare_rest : Total Scored (compare_rest E)
    unfolding compare_rest
    Total-compare_rest =
        Total-then_with (Total-flip (Total-on (λ i. i.display_priority) (λ _ _. tt) Total-ℤ)) (
          Total-then_with (Total-flip (Total-on (λ i. i.score) (λ _ h. h) F.partial_cmp)) (
            Total-then_with
              (Total-flip (Total-on (λ i. timestamp_value E i.created_at) (λ _ _. tt) Total-ℤ))
              (Total-on (λ i. i.id) (λ _ _. tt) Total-str)))

    pub Total-compare_items-System : Total (λ i. System i × Scored i) (compare_items E)
    unfolding compare_items
    Total-compare_items-System =
        Total-congr (λ a b p q. rw (p.0, q.0) refl)
          (Total-then_with (Total-on (λ i. i) (λ _ _. tt) Total-compare_selection)
            (Total-on (λ i. i) (λ _ h. h.1) Total-compare_rest))

    pub Total-compare_items-Curated : Total (λ i. Curated i × Scored i) (compare_items E)
    unfolding compare_items
    Total-compare_items-Curated =
        Total-congr (λ a b p q. rw (p.0) refl) (Total-on (λ i. i) (λ _ h. h.1) Total-compare_rest)

  less_lt :
      (a b : E.Float) → E.partial_cmp a b ≡ some Ordering.lt → compare_scores E a b ≡ Ordering.lt
  unfolding compare_scores
  less_lt a b e = rw e refl

  -- The order of a feed, in words of the items: of an earlier item x and a later one y.
  pub record ByPriority (x y : FeedItem E) : Type 0 where
    pub priority : ltb_ℤ x.display_priority y.display_priority ≡ false
    pub score :
        x.display_priority ≡ y.display_priority → E.partial_cmp x.score y.score ≢ some Ordering.lt

  pub record BySelection (x y : FeedItem E) : Type 0 where
    pub group : x.candidate_selection.group ≤ y.candidate_selection.group
    pub rank :
        x.candidate_selection.group ≡ y.candidate_selection.group
        → x.candidate_selection.rank ≤ y.candidate_selection.rank
    pub updated :
        x.candidate_selection.group ≡ y.candidate_selection.group
        → x.candidate_selection.rank ≡ y.candidate_selection.rank
        → ltb_ℤ (timestamp_value E x.updated_at) (timestamp_value E y.updated_at) ≡ false

  pub by_selection :
      (x y : FeedItem E) → System x → System y → NotGt (compare_items E) x y → BySelection x y
  unfolding compare_items compare_selection
  by_selection x y p q h =
      let all = rw (p, q) at h in
      let selection = first_not_gt _ _ all in
      let after_group = rest_not_gt _ _ selection in
      record {
        group = not_gt-le _ _ (first_not_gt _ _ selection);
        rank = λ e. not_gt-le _ _ (first_not_gt _ _ (after_group (ties _ _ e)));
        updated = λ e f. not_gt-ltb _ _ (rest_not_gt _ _ (after_group (ties _ _ e)) (ties _ _ f));
      }

  pub by_priority :
      (F : FloatLaws) (x y : FeedItem E)
      → Curated x
      → Scored F x
      → Scored F y
      → NotGt (compare_items E) x y
      → ByPriority x y
  unfolding compare_items compare_rest
  by_priority F x y p sx sy h =
      let all = rw p at h in
      record {
        priority = not_gt-ltb _ _ (first_not_gt _ _ all);
        score = λ e less.
            gt_not _
              (F.partial_cmp.swaps x.score y.score sx sy
                ∙ ap reverse (less_lt x.score y.score less))
              (first_not_gt _ _ (rest_not_gt _ _ all (ties_ℤ _ _ e)));
      }
