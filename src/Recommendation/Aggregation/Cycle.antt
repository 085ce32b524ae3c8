-- ===== src/Recommendation/Aggregation/Cycle.antt =====
-- src/recommendation/aggregation.rs: feeds that `compare_items` cannot put in order, since it compares
-- two system items by one rule, and any other two items by another.
use mathlib.Core.Logic.Or
use mathlib.Core.List.{Mem, Perm, mem-cons, mem-append_left, mem-append_right, not-mem-nil}
use mathlib.Core.List.Perm
use mathlib.Core.Path.{subst}
use mathlib.Core.Option.{some-injective}
use klass_mobile_backend.Prelude.{
  ◌≡◌, refl, sym, ap, ◌∙◌, ◌++◌, true, false, none, some, List, [], ◌∷◌,
}
use Prim.Native.Nat.{Ordering}
use klass_mobile_backend.Prelude.Order.{Comparison, Total-ℤ, cmp_ℤ, is_gt}
use klass_mobile_backend.Prelude.Sort.{Sorter, Ordered, NotGt}
use klass_mobile_backend.Prelude.Filter.{All}
use klass_mobile_backend.Recommendation.Aggregation.{FeedEnv, FeedItem, AggregationInput}
use klass_mobile_backend.Recommendation.Aggregation.Summary.{Selected, compare_selection}
use klass_mobile_backend.Recommendation.Aggregation.Snapshot.{not_personalized, snapshot-Perm}
use klass_mobile_backend.Recommendation.Aggregation.Order.{System, Curated, Total-compare_selection}
use klass_mobile_backend.Recommendation.Aggregation.Feed.{
  FeedSnapshot, admin_items, system_items, compare_rest, compare_items, build_feed_snapshot,
}

⊥-prop : IsProp ⊥
⊥-prop = hlevel

-- The first is to come before the second.
abbrev Precedes : {A : Type 0} → Comparison A → A → A → Type 0
Precedes cmp x y = (is_gt (cmp x y) ≡ false) × (is_gt (cmp y x) ≡ true)

-- What is to come before the head is not in an ordered list.
not-mem-tail :
    {A : Type 0} (cmp : Comparison A) (x y : A) (xs : List A)
    → All (NotGt cmp y) xs
    → is_gt (cmp y x) ≡ true
    → ¬ Mem x xs
not-mem-tail cmp x y [] h g m = not-mem-nil m
not-mem-tail cmp x y (z ∷ zs) h g m =
    Or.elim ⊥-prop (mem-cons.0 m) (λ e. cc (h.0, g, e)) (not-mem-tail cmp x y zs h.1 g)

not-mem-Ordered :
    {A : Type 0} (cmp : Comparison A) (x y : A) (xs : List A)
    → Precedes cmp x y
    → Ordered cmp (y ∷ xs)
    → ¬ Mem x (y ∷ xs)
not-mem-Ordered cmp x y xs p o m =
    Or.elim ⊥-prop (mem-cons.0 m) (λ e. cc (p.0, p.1, e)) (not-mem-tail cmp x y xs o.0 p.1)

-- No ordered list holds three elements, each of which is to come before the next, around a circle.
not-mem_circle :
    {A : Type 0} (cmp : Comparison A) (x y z : A) (xs : List A)
    → Precedes cmp x y
    → Precedes cmp y z
    → Precedes cmp z x
    → Ordered cmp xs
    → Mem x xs
    → Mem y xs
    → Mem z xs
    → ⊥
not-mem_circle cmp x y z [] p q r o m n k = not-mem-nil m
not-mem_circle cmp x y z (w ∷ ws) p q r o m n k =
    Or.elim ⊥-prop (mem-cons.0 m) (λ e. not-mem-Ordered cmp z w ws (subst (Precedes cmp z) e r) o k)
      λ m'.
        Or.elim ⊥-prop (mem-cons.0 n)
          (λ e. not-mem-Ordered cmp x w ws (subst (Precedes cmp x) e p) o m)
          λ n'.
            Or.elim ⊥-prop (mem-cons.0 k)
              (λ e. not-mem-Ordered cmp y w ws (subst (Precedes cmp y) e q) o n)
              λ k'. not-mem_circle cmp x y z ws p q r o.1 m' n' k'

module _ (E : FeedEnv) where
  -- Two system items and an admin's between them.
  pub record Cyclic (s t a : FeedItem E) : Type 0 where
    pub first : System E s
    pub second : System E t
    pub third : Curated E a
    pub selected_first : compare_selection E s t ≡ Ordering.lt
    pub below : cmp_ℤ s.display_priority a.display_priority ≡ Ordering.lt
    pub above : cmp_ℤ a.display_priority t.display_priority ≡ Ordering.lt

  module _ (s t a : FeedItem E) (c : Cyclic s t a) where
    s_then_t : Precedes (compare_items E) s t
    unfolding compare_items
    s_then_t =
        let e = (Total-compare_selection E).swaps s t tt tt in
        (
          rw (c.first, c.second, c.selected_first) refl,
          rw (c.first, c.second, e, c.selected_first) refl,
        )

    t_then_a : Precedes (compare_items E) t a
    unfolding compare_items compare_rest
    t_then_a =
        let e = Total-ℤ.swaps a.display_priority t.display_priority tt tt in
        (rw (c.third, c.second, c.above) refl, rw (c.third, e, c.above) refl)

    a_then_s : Precedes (compare_items E) a s
    unfolding compare_items compare_rest
    a_then_s =
        let e = Total-ℤ.swaps s.display_priority a.display_priority tt tt in
        (rw (c.third, c.below) refl, rw (c.first, c.third, e, c.below) refl)

    -- Without signals of the user: a feed with two system items, of which the first was updated later
    -- but has the lower priority, and with an admin's item between them in priority, is in no order
    -- that `compare_items` would accept, whatever the sort does.
    pub feed_never_in_order :
        (S : Sorter) (input : AggregationInput) (snap : FeedSnapshot E)
        → input.personalization_context ≡ none
        → Mem s (system_items E input)
        → Mem t (system_items E input)
        → Mem a (admin_items E input)
        → build_feed_snapshot E S input ≡ some snap
        → ¬ Ordered (compare_items E) snap.items
    feed_never_in_order S input snap none_given m n k h o =
        let (r, e, p) = snapshot-Perm E S input snap h in
        let same : r.0 ≡ system_items E input =
          ap (λ (x : Selected E S). x.0)
            (some-injective _ _ (sym e ∙ not_personalized E S input none_given)) in
        let q = subst (λ l. Perm snap.items (admin_items E input ++ l)) same p in
        not-mem_circle (compare_items E) s t a snap.items s_then_t t_then_a a_then_s o
          ((Perm.mem_iff q).1 (mem-append_right (admin_items E input) m))
          ((Perm.mem_iff q).1 (mem-append_right (admin_items E input) n))
          ((Perm.mem_iff q).1 (mem-append_left (system_items E input) k))
