-- ===== src/Recommendation/Aggregation/Ranks.antt =====
-- src/recommendation/aggregation.rs: which sub-subjects a lookup of ranks knows.
use klass_mobile_backend.Prelude.{
  ℕ, suc, ◌≡◌, refl, ◌∙◌, Bool, true, false, ◌||◌, some, List, [], ◌∷◌, ◌++◌, map, arith,
  Bool-cases, inl, inr,
}
use klass_mobile_backend.Prelude.Int.{ℤ}
use klass_mobile_backend.Prelude.Order.{Comparison, Any, Total, Total-on, Total-ℤ, is_gt}
use klass_mobile_backend.Prelude.Sort.{Sorter, insert_by, insertion_sort}
use klass_mobile_backend.Prelude.Filter.{All, All-map, All-Any}
use klass_mobile_backend.Recommendation.Personalization.{is_some}
use klass_mobile_backend.Recommendation.Aggregation.{FeedEnv, FeedItem}
use klass_mobile_backend.Recommendation.Aggregation.Selection.{
  Ranks, get_rank, insert_ranks, build_rank_lookup, contains, is_id, is_excluded,
  is_eligible_system_generated_candidate, CatalogEntry, catalog_candidates, by_sub_subject,
  build_primary_subject_catalog_lookup,
}

insert_ranks-knows :
    (id : ℤ) (n : ℕ) (ids : List ℤ) (ranks : Ranks)
    → is_some (get_rank id (insert_ranks n ids ranks))
      ≡ contains id ids || is_some (get_rank id ranks)
unfolding insert_ranks get_rank
insert_ranks-knows id n [] ranks = refl
insert_ranks-knows id n (j ∷ js) ranks =
    ground (arith, insert_ranks-knows id (suc n) js ((j, n) ∷ ranks))

-- A lookup knows exactly the ids that it was made of.
pub build_rank_lookup-knows :
    (id : ℤ) (ids : List ℤ) → is_some (get_rank id (build_rank_lookup ids)) ≡ contains id ids
unfolding build_rank_lookup get_rank
build_rank_lookup-knows id ids = ground (arith, insert_ranks-knows id 0 ids [])

pub contains-append :
    (id : ℤ) (xs ys : List ℤ) → contains id (xs ++ ys) ≡ contains id xs || contains id ys
contains-append id [] ys = refl
contains-append id (x ∷ xs) ys = ground (arith, contains-append id xs ys)

module _ {A : Type 0} (cmp : Comparison A) (key : A → ℤ) where
  contains-insert_by :
      (id : ℤ) (x : A) (xs : List A)
      → contains id (map key (insert_by cmp x xs)) ≡ contains id (key x ∷ map key xs)
  unfolding insert_by
  contains-insert_by id x [] = refl
  contains-insert_by id x (y ∷ ys) = elim (Bool-cases (is_gt (cmp x y))) [
    | inl t ↦ rw t (ground (arith, contains-insert_by id x ys))
    | inr f ↦ rw f refl
  ]

  pub contains-insertion_sort :
      (id : ℤ) (xs : List A)
      → contains id (map key (insertion_sort cmp xs)) ≡ contains id (map key xs)
  unfolding insertion_sort
  contains-insertion_sort id [] = refl
  contains-insertion_sort id (x ∷ xs) =
      contains-insert_by id x (insertion_sort cmp xs)
      ∙ ground (arith, contains-insertion_sort id xs)

module _ (E : FeedEnv) (ps_id : ℤ) (excluded : List ℤ) where
  abbrev sub_subjects : List (FeedItem E) → List ℤ
  sub_subjects items = map (λ (c : CatalogEntry E). c.0) (catalog_candidates E ps_id excluded items)

  -- What puts an item into the catalog of the primary subject.
  abbrev pub InCatalog : (FeedItem E → ℤ → Bool) → FeedItem E → Type 0
  InCatalog known i =
      (ss_id : ℤ)
      → i.sub_subject_id ≡ some ss_id
      → is_eligible_system_generated_candidate E i ≡ true
      → is_id ps_id i.subject_id ≡ true
      → contains ss_id excluded ≡ false
      → known i ss_id ≡ true

  catalog-grows :
      (id : ℤ) (i : FeedItem E) (items : List (FeedItem E))
      → contains id (sub_subjects items) ≡ true
      → contains id (sub_subjects (i ∷ items)) ≡ true
  unfolding catalog_candidates
  catalog-grows id i items h = ground (arith, h)

  catalog-head :
      (i : FeedItem E) (items : List (FeedItem E))
      → InCatalog (λ _ id. contains id (sub_subjects (i ∷ items))) i
  unfolding catalog_candidates is_excluded
  catalog-head i items ss_id s e p x = rw (e, p, s, x) (ground arith)

  catalog-All :
      (items : List (FeedItem E)) → All (InCatalog (λ _ id. contains id (sub_subjects items))) items
  catalog-All [] = tt
  catalog-All (i ∷ items) = (
    catalog-head i items,
    All-map _ _ (λ j h ss_id s e p x. catalog-grows ss_id i items (h ss_id s e p x)) items
        (catalog-All items),
  )

  module _ (S : Sorter) where
    -- The catalog is always built.
    pub catalog_of : List (FeedItem E) → Ranks
    catalog_of items = build_rank_lookup (
        map (λ (c : CatalogEntry E). c.0)
          (insertion_sort (by_sub_subject E) (catalog_candidates E ps_id excluded items)))

    pub build_catalog :
        (items : List (FeedItem E))
        → build_primary_subject_catalog_lookup E S (some ps_id) excluded items
          ≡ some (catalog_of items)
    unfolding build_primary_subject_catalog_lookup catalog_of
    build_catalog items =
        let candidates = catalog_candidates E ps_id excluded items in
        let total : Total Any (by_sub_subject E) = Total-on (λ c. c.0) (λ _ _. tt) Total-ℤ in
        rw (S.sort_by-Total _ Any (by_sub_subject E) total candidates (All-Any candidates)) refl

    -- It knows the sub-subject of each item that belongs into it.
    pub catalog_of-knows :
        (items : List (FeedItem E))
        → All (InCatalog (λ _ id. is_some (get_rank id (catalog_of items)))) items
    unfolding catalog_of
    catalog_of-knows items =
        All-map _ _
          (λ i h ss_id s e p x.
            build_rank_lookup-knows ss_id _
            ∙ contains-insertion_sort (by_sub_subject E) (λ c. c.0) ss_id _
            ∙ h ss_id s e p x)
          items (catalog-All items)
