-- ===== src/Prelude/Sort.antt =====
-- The stable sort by a comparison, and `sort_by`.
use mathlib.Core.List.Perm
use mathlib.Core.List.{Perm}
use klass_mobile_backend.Prelude.{
  ℕ, zero, suc, ◌≡◌, refl, sym, ap, ◌∙◌, Bool, true, false, Option, some, List, [], ◌∷◌, arith,
  if◌then◌else◌, Bool-cases, inl, inr,
}
use Prim.Native.Nat.{Ordering}
use klass_mobile_backend.Prelude.Order.{Comparison, Total, Composes, reverse, is_gt}
use klass_mobile_backend.Prelude.Filter.{All, All-filter, All-take, filter, take}

module _ {A : Type 0} where
  -- Before the first element that does not come before it.
  unfoldable pub insert_by : Comparison A → A → List A → List A
  insert_by cmp x [] = x ∷ []
  insert_by cmp x (y ∷ ys) =
      let rest = insert_by cmp x ys in if is_gt (cmp x y) then y ∷ rest else x ∷ y ∷ ys

  -- Elements that tie keep their order.
  unfoldable pub insertion_sort : Comparison A → List A → List A
  insertion_sort cmp [] = []
  insertion_sort cmp (x ∷ xs) = insert_by cmp x (insertion_sort cmp xs)

  -- No element comes after one that is to follow it.
  abbrev pub NotGt : Comparison A → A → A → Type 0
  NotGt cmp x y = is_gt (cmp x y) ≡ false

  abbrev pub Ordered : Comparison A → List A → Type 0
  Ordered cmp [] = Unit {0}
  Ordered cmp (x ∷ xs) = All (NotGt cmp x) xs × Ordered cmp xs

  pub insert_by-perm :
      (cmp : Comparison A) (x : A) (xs : List A) → Perm (insert_by cmp x xs) (x ∷ xs)
  unfolding insert_by
  insert_by-perm cmp x [] = Perm.refl (x ∷ [])
  insert_by-perm cmp x (y ∷ ys) = elim (Bool-cases (is_gt (cmp x y))) [
    | inl t ↦ rw t (Perm.trans (Perm.cons y (insert_by-perm cmp x ys)) (Perm.swap x y ys))
    | inr f ↦ rw f (Perm.refl (x ∷ y ∷ ys))
  ]

  pub insertion_sort-perm : (cmp : Comparison A) (xs : List A) → Perm (insertion_sort cmp xs) xs
  unfolding insertion_sort
  insertion_sort-perm cmp [] = Perm.refl []
  insertion_sort-perm cmp (x ∷ xs) =
      Perm.trans (insert_by-perm cmp x (insertion_sort cmp xs))
        (Perm.cons x (insertion_sort-perm cmp xs))

  pub All-insert_by :
      (P : A → Type 0) (cmp : Comparison A) (x : A) (xs : List A)
      → P x
      → All P xs
      → All P (insert_by cmp x xs)
  unfolding insert_by
  All-insert_by P cmp x [] p h = (p, tt)
  All-insert_by P cmp x (y ∷ ys) p h = elim (Bool-cases (is_gt (cmp x y))) [
    | inl t ↦ rw t (h.0, All-insert_by P cmp x ys p h.1)
    | inr f ↦ rw f (p, h)
  ]

  pub All-insertion_sort :
      (P : A → Type 0) (cmp : Comparison A) (xs : List A) → All P xs → All P (insertion_sort cmp xs)
  unfolding insertion_sort
  All-insertion_sort P cmp [] h = tt
  All-insertion_sort P cmp (x ∷ xs) h =
      All-insert_by P cmp x (insertion_sort cmp xs) h.0 (All-insertion_sort P cmp xs h.1)

not_gt_trans :
    (x y z : Ordering) → Composes x y z → is_gt x ≡ false → is_gt y ≡ false → is_gt z ≡ false
not_gt_trans x y z h p q = ground arith

gt-reverse : (x y : Ordering) → y ≡ reverse x → is_gt x ≡ true → is_gt y ≡ false
gt-reverse x y h p = ground arith

module _ {A : Type 0} (P : A → Type 0) (cmp : Comparison A) (t : Total P cmp) where
  below :
      (x y : A) (ys : List A)
      → P x
      → P y
      → All P ys
      → NotGt cmp x y
      → All (NotGt cmp y) ys
      → All (NotGt cmp x) ys
  below x y [] px py h n k = tt
  below x y (z ∷ zs) px py h n k =
      (not_gt_trans _ _ _ (t.composes x y z px py h.0) n k.0, below x y zs px py h.1 n k.1)

  insert_by-Ordered :
      (x : A) (ys : List A) → P x → All P ys → Ordered cmp ys → Ordered cmp (insert_by cmp x ys)
  unfolding insert_by
  insert_by-Ordered x [] px h o = (tt, tt)
  insert_by-Ordered x (y ∷ ys) px h o = elim (Bool-cases (is_gt (cmp x y))) [
    | inl g ↦
        let n = gt-reverse _ _ (t.swaps x y px h.0) g in
        rw g (All-insert_by (NotGt cmp y) cmp x ys n o.0, insert_by-Ordered x ys px h.1 o.1)
    | inr f ↦ rw f ((f, below x y ys px h.0 h.1 f o.0), o)
  ]

  pub insertion_sort-Ordered : (xs : List A) → All P xs → Ordered cmp (insertion_sort cmp xs)
  unfolding insertion_sort
  insertion_sort-Ordered [] h = tt
  insertion_sort-Ordered (x ∷ xs) h =
      insert_by-Ordered x (insertion_sort cmp xs) h.0 (All-insertion_sort P cmp xs h.1)
        (insertion_sort-Ordered xs h.1)

insert_first :
    {A : Type 0} (cmp : Comparison A) (x : A) (xs : List A)
    → All (NotGt cmp x) xs
    → insert_by cmp x xs ≡ x ∷ xs
unfolding insert_by
insert_first cmp x [] h = refl
insert_first cmp x (y ∷ ys) h = rw h.0 refl

-- An ordered list is its own sorted list.
pub insertion_sort_of_Ordered :
    {A : Type 0} (cmp : Comparison A) (xs : List A) → Ordered cmp xs → insertion_sort cmp xs ≡ xs
unfolding insertion_sort
insertion_sort_of_Ordered cmp [] o = refl
insertion_sort_of_Ordered cmp (x ∷ xs) o =
    ap (insert_by cmp x) (insertion_sort_of_Ordered cmp xs o.1) ∙ insert_first cmp x xs o.0

pub Ordered-take :
    {A : Type 0} (cmp : Comparison A) (n : ℕ) (xs : List A)
    → Ordered cmp xs
    → Ordered cmp (take n xs)
Ordered-take cmp zero xs o = tt
Ordered-take cmp (suc n) [] o = tt
Ordered-take cmp (suc n) (x ∷ xs) o = (All-take (NotGt cmp x) n xs o.0, Ordered-take cmp n xs o.1)

module _ {A : Type 0} (p : A → Bool) where
  module _ (P : A → Type 0) (cmp : Comparison A) (t : Total P cmp) where
    kept_first :
        (x : A) (xs : List A)
        → All (NotGt cmp x) (filter p xs)
        → filter p (x ∷ xs) ≡ (if p x then insert_by cmp x (filter p xs) else filter p xs)
    kept_first x xs h = elim (Bool-cases (p x)) [
      | inl t ↦ rw t (sym (insert_first cmp x (filter p xs) h))
      | inr f ↦ rw f refl
    ]

    both :
        (x : A) (xs ys : List A)
        → filter p xs ≡ insertion_sort cmp (filter p ys)
        → (if p x then insert_by cmp x (filter p xs) else filter p xs)
          ≡ insertion_sort cmp (filter p (x ∷ ys))
    unfolding insertion_sort
    both x xs ys e = elim (Bool-cases (p x)) [
      | inl t ↦ rw t (ap (insert_by cmp x) e)
      | inr f ↦ rw f e
    ]

    filter-insert_by :
        (x : A) (xs : List A)
        → P x
        → All P xs
        → Ordered cmp xs
        → filter p (insert_by cmp x xs)
          ≡ (if p x then insert_by cmp x (filter p xs) else filter p xs)
    unfolding insert_by
    filter-insert_by x [] px h o = refl
    filter-insert_by x (y ∷ ys) px h o = elim (Bool-cases (is_gt (cmp x y))) [
      | inl g ↦ ground (arith, filter-insert_by x ys px h.1 o.1)
      | inr f ↦
          let after : All (NotGt cmp x) (y ∷ ys) = (f, below P cmp t x y ys px h.0 h.1 f o.0) in
          rw f (kept_first x (y ∷ ys) (All-filter (NotGt cmp x) p (y ∷ ys) after))
    ]

    -- Sorting and filtering commute.
    pub filter-insertion_sort :
        (xs : List A)
        → All P xs
        → filter p (insertion_sort cmp xs) ≡ insertion_sort cmp (filter p xs)
    unfolding insertion_sort
    filter-insertion_sort [] h = refl
    filter-insertion_sort (x ∷ xs) h =
        filter-insert_by x (insertion_sort cmp xs) h.0 (All-insertion_sort P cmp xs h.1)
          (insertion_sort-Ordered P cmp t xs h.1)
        ∙ both x _ xs (filter-insertion_sort xs h.1)

-- `slice::sort_by` of Rust's library. It may panic and leaves the order open where the comparison is
-- not total; where it is, on the elements of the list, the sort is the stable one.
pub record Sorter : Type 1 where
  pub sort_by : (A : Type 0) → Comparison A → List A → Option (List A)
  pub sort_by-perm :
      (A : Type 0) (cmp : Comparison A) (xs ys : List A) → sort_by A cmp xs ≡ some ys → Perm ys xs
  pub sort_by-Total :
      (A : Type 0) (P : A → Type 0) (cmp : Comparison A)
      → Total P cmp
      → (xs : List A) → All P xs
      → sort_by A cmp xs ≡ some (insertion_sort cmp xs)
