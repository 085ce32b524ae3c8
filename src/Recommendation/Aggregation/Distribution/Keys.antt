-- ===== src/Recommendation/Aggregation/Distribution/Keys.antt =====
-- src/recommendation/aggregation.rs: the groups by their keys.
use mathlib.Core.List.{append-nil, append_assoc}
use mathlib.Core.Path.{subst}
use klass_mobile_backend.Prelude.{
  ◌≡◌, ◌≢◌, refl, sym, ap, ◌∙◌, Bool, true, false, ◌⊎◌, inl, inr, List, [], ◌∷◌, ◌++◌, map,
  Bool-cases,
}
use klass_mobile_backend.Prelude.Int.{ℤ, eq_ℤ, eq_ℤ_iff}
use klass_mobile_backend.Prelude.Order.{Any}
use klass_mobile_backend.Prelude.Filter.{
  All, All-Any, All-map, All-append, filter, filter-append, filter_of_false,
}
use klass_mobile_backend.Recommendation.Aggregation.Distribution.{
  DistributionSummaryItem, Groups, add_to_group, group_items,
}
use klass_mobile_backend.Recommendation.Aggregation.Distribution.Groups.{
  Pairwise, in_sub, Apart, IsPure, pick,
}

-- Each group has the items of its key, and no key stands twice.
abbrev pub IsKeyed : Groups → Type 0
IsKeyed [] = Unit {0}
IsKeyed ((id, g) ∷ gs) =
    All (λ i. i.sub_subject_id ≡ id) g
    × All (λ (h : ℤ × List DistributionSummaryItem). h.0 ≢ id) gs
    × IsKeyed gs

abbrev pub groups_of : Groups → List (List DistributionSummaryItem)
groups_of gs = map (λ (g : ℤ × List DistributionSummaryItem). g.1) gs

eq_self : (z : ℤ) → eq_ℤ z z ≡ true
eq_self z = (eq_ℤ_iff z z).1 refl

keys-add_to_group :
    (id : ℤ) (i : DistributionSummaryItem) (gs : Groups)
    → i.sub_subject_id ≢ id
    → All (λ (h : ℤ × List DistributionSummaryItem). h.0 ≢ id) gs
    → All (λ (h : ℤ × List DistributionSummaryItem). h.0 ≢ id) (add_to_group i gs)
unfolding add_to_group
keys-add_to_group id i [] n h = (n, tt)
keys-add_to_group id i ((j, g) ∷ gs) n h = elim (Bool-cases (eq_ℤ j i.sub_subject_id)) [
  | inl t ↦ rw t h
  | inr f ↦ rw f (h.0, keys-add_to_group id i gs n h.1)
]

add_to_group-IsKeyed :
    (i : DistributionSummaryItem) (gs : Groups) → IsKeyed gs → IsKeyed (add_to_group i gs)
unfolding add_to_group
add_to_group-IsKeyed i [] h = ((refl, tt), tt, tt)
add_to_group-IsKeyed i ((j, g) ∷ gs) h = elim (Bool-cases (eq_ℤ j i.sub_subject_id)) [
  | inl t ↦
      let e = sym ((eq_ℤ_iff j i.sub_subject_id).0 t) in
      rw t (All-append (λ k. k.sub_subject_id ≡ j) g (i ∷ []) h.0 (e, tt), h.1, h.2)
  | inr f ↦
      let n : i.sub_subject_id ≢ j = λ e. cc (f, e, eq_self j) in
      rw f (h.0, keys-add_to_group j i gs n h.1, add_to_group-IsKeyed i gs h.2)
]

pub group_items-IsKeyed :
    (items : List DistributionSummaryItem) (gs : Groups)
    → IsKeyed gs
    → IsKeyed (group_items gs items)
unfolding group_items
group_items-IsKeyed [] gs h = h
group_items-IsKeyed (i ∷ items) gs h =
    group_items-IsKeyed items (add_to_group i gs) (add_to_group-IsKeyed i gs h)

in_sub_key :
    (s id : ℤ) (b : Bool) (g : List DistributionSummaryItem)
    → eq_ℤ id s ≡ b
    → All (λ i. i.sub_subject_id ≡ id) g
    → All (λ i. in_sub s i ≡ b) g
in_sub_key s id b g e h = All-map _ _ (λ i k. ap (λ z. eq_ℤ z s) k ∙ e) g h

other_key : (s id : ℤ) → id ≢ s → eq_ℤ id s ≡ false
other_key s id n = elim (Bool-cases (eq_ℤ id s)) [
  | inl t ↦ absurd (n ((eq_ℤ_iff id s).0 t))
  | inr f ↦ f
]

pick-other_keys :
    (s : ℤ) (gs : Groups)
    → All (λ (h : ℤ × List DistributionSummaryItem). h.0 ≢ s) gs
    → IsKeyed gs
    → pick s (groups_of gs) ≡ []
pick-other_keys s [] n h = refl
pick-other_keys s ((id, g) ∷ gs) n h =
    let none_here =
      filter_of_false (in_sub s) g (in_sub_key s id false g (other_key s id n.0) h.0) in
    rw none_here (pick-other_keys s gs n.1 h.2)

Apart-others :
    (s : ℤ) (g : List DistributionSummaryItem) (gs : Groups)
    → All (λ (h : ℤ × List DistributionSummaryItem). h.0 ≢ s) gs
    → IsKeyed gs
    → All (Apart s g) (groups_of gs)
Apart-others s g [] n h = tt
Apart-others s g ((id, k) ∷ gs) n h = (
  inr (filter_of_false (in_sub s) k (in_sub_key s id false k (other_key s id n.0) h.0)),
  Apart-others s g gs n.1 h.2,
)

key_eq : (id s : ℤ) → eq_ℤ id s ≡ true → id ≡ s
key_eq id s t = (eq_ℤ_iff id s).0 t

abbrev AvoidKey : Groups → ℤ → Type 0
AvoidKey gs id = All (λ (h : ℤ × List DistributionSummaryItem). h.0 ≢ id) gs

pub IsKeyed-Apart : (s : ℤ) (gs : Groups) → IsKeyed gs → Pairwise (Apart s) (groups_of gs)
IsKeyed-Apart s [] h = tt
IsKeyed-Apart s ((id, g) ∷ gs) h = elim (Bool-cases (eq_ℤ id s)) [
  | inl t ↦
      (Apart-others s g gs (subst (AvoidKey gs) (key_eq id s t) h.1) h.2, IsKeyed-Apart s gs h.2)
  | inr f ↦
      let empty = filter_of_false (in_sub s) g (in_sub_key s id false g f h.0) in
      (All-map Any _ (λ _ _. inl empty) _ (All-Any (groups_of gs)), IsKeyed-Apart s gs h.2)
]

pub IsKeyed-IsPure : (s : ℤ) (gs : Groups) → IsKeyed gs → All (IsPure s) (groups_of gs)
IsKeyed-IsPure s [] h = tt
IsKeyed-IsPure s ((id, g) ∷ gs) h = elim (Bool-cases (eq_ℤ id s)) [
  | inl t ↦ (inl (in_sub_key s id true g t h.0), IsKeyed-IsPure s gs h.2)
  | inr f ↦ (inr (in_sub_key s id false g f h.0), IsKeyed-IsPure s gs h.2)
]

swap_tail :
    {A : Type 0} (xs ys zs : List A) → (ys ≡ []) ⊎ (zs ≡ []) → (xs ++ ys) ++ zs ≡ (xs ++ zs) ++ ys
swap_tail xs ys zs (inl e) = simp (e, append-nil)
swap_tail xs ys zs (inr e) = simp (e, append-nil)

-- Of a new item and the groups after its own, one has nothing of the sub-subject.
rest_or_item :
    (s j : ℤ) (i : DistributionSummaryItem) (gs : Groups)
    → i.sub_subject_id ≡ j
    → AvoidKey gs j
    → IsKeyed gs
    → (filter (in_sub s) (i ∷ []) ≡ []) ⊎ (pick s (groups_of gs) ≡ [])
rest_or_item s j i gs e n h = elim (Bool-cases (eq_ℤ j s)) [
  | inl t ↦ inr (pick-other_keys s gs (subst (AvoidKey gs) (key_eq j s t) n) h)
  | inr f ↦ inl (filter_of_false (in_sub s) (i ∷ []) (in_sub_key s j false (i ∷ []) f (e, tt)))
]

pick-add_to_group :
    (s : ℤ) (i : DistributionSummaryItem) (gs : Groups)
    → IsKeyed gs
    → pick s (groups_of (add_to_group i gs)) ≡ pick s (groups_of gs) ++ filter (in_sub s) (i ∷ [])
unfolding add_to_group
pick-add_to_group s i [] h = append-nil _
pick-add_to_group s i ((j, g) ∷ gs) h = elim (Bool-cases (eq_ℤ j i.sub_subject_id)) [
  | inl t ↦ rw t (
      ap (λ l. l ++ pick s (groups_of gs)) (filter-append (in_sub s) g (i ∷ []))
      ∙ swap_tail (filter (in_sub s) g) (filter (in_sub s) (i ∷ [])) (pick s (groups_of gs))
          (rest_or_item s j i gs (sym (key_eq j i.sub_subject_id t)) h.1 h.2))
  | inr f ↦ rw f (
      ap (λ l. filter (in_sub s) g ++ l) (pick-add_to_group s i gs h.2)
      ∙ sym
          (append_assoc (filter (in_sub s) g) (pick s (groups_of gs)) (filter (in_sub s) (i ∷ []))))
]

-- The groups have what they had and what is added.
pub pick-group_items :
    (s : ℤ) (items : List DistributionSummaryItem) (gs : Groups)
    → IsKeyed gs
    → pick s (groups_of (group_items gs items)) ≡ pick s (groups_of gs) ++ filter (in_sub s) items
unfolding group_items
pick-group_items s [] gs h = sym (append-nil _)
pick-group_items s (i ∷ items) gs h =
    pick-group_items s items (add_to_group i gs) (add_to_group-IsKeyed i gs h)
    ∙ ap (λ l. l ++ filter (in_sub s) items) (pick-add_to_group s i gs h)
    ∙ append_assoc (pick s (groups_of gs)) (filter (in_sub s) (i ∷ [])) (filter (in_sub s) items)
    ∙ ap (λ l. pick s (groups_of gs) ++ l) (sym (filter-append (in_sub s) (i ∷ []) items))
