-- ===== src/Governance/RateLimit/Policies.antt =====
-- The query of the applicable policies, and the upsert of a default policy.
use mathlib.Core.List.Perm
use mathlib.Core.List.{Perm}
use klass_mobile_backend.Prelude.{
  ℕ, suc, ◌≤◌, ◌≡◌, refl, ap, String, Bool, true, false, ◌&&◌, ◌||◌, List, [], ◌∷◌, arith, ltb,
  ◌==◌, str_eq, eq_iff, if◌then◌else◌, Bool-cases, inl, inr,
}
use klass_mobile_backend.Prelude.Int.{ℤ, ltb_ℤ}
use klass_mobile_backend.Governance.{Decimals}
use klass_mobile_backend.Governance.RateLimit.Types.{RateLimitPolicy}
use klass_mobile_backend.Governance.RateLimit.Tables.{
  window_rank, scope_rank, matches_policy, before, insert, find_applicable, same_scope,
  update_policy, upsert_policy,
}

-- The order of the query on the three keys.
abbrev precedes : ℕ → ℕ → ℤ → ℕ → ℕ → ℤ → Bool
precedes w s i w' s' i' = ltb w w' || ((w == w') && (ltb s s' || ((s == s') && ltb_ℤ i i')))

precedes_asym :
    (w s : ℕ) (i : ℤ) (w' s' : ℕ) (i' : ℤ)
    → precedes w s i w' s' i' ≡ true
    → precedes w' s' i' w s i ≡ false
precedes_asym w s i w' s' i' h = ground arith

str_eq_refl : (s : String) → str_eq s s ≡ true
str_eq_refl s = (eq_iff s s).1 refl

module _ (D : Decimals) where
  before_asym : (p q : RateLimitPolicy D) → before D p q ≡ true → before D q p ≡ false
  unfolding before
  before_asym p q h =
      precedes_asym (window_rank p.window_unit) (scope_rank p.scope_type) p.id
        (window_rank q.window_unit) (scope_rank q.scope_type) q.id h

  abbrev HeadNotBefore : RateLimitPolicy D → List (RateLimitPolicy D) → Type 0
  HeadNotBefore p [] = Unit
  HeadNotBefore p (q ∷ qs) = before D q p ≡ false

  -- No policy comes before the one in front of it.
  abbrev pub Ordered : List (RateLimitPolicy D) → Type 0
  Ordered [] = Unit
  Ordered (p ∷ ps) = HeadNotBefore p ps × Ordered ps

  head-insert :
      (p q : RateLimitPolicy D) (qs : List (RateLimitPolicy D))
      → before D q p ≡ true
      → HeadNotBefore q qs
      → HeadNotBefore q (insert D p qs)
  unfolding insert
  head-insert p q [] h k = before_asym q p h
  head-insert p q (r ∷ rs) h k = elim (Bool-cases (before D r p)) [
    | inl t ↦ rw t k
    | inr f ↦ rw f (before_asym q p h)
  ]

  insert-Ordered :
      (p : RateLimitPolicy D) (ps : List (RateLimitPolicy D)) → Ordered ps → Ordered (insert D p ps)
  unfolding insert
  insert-Ordered p [] o = (tt, tt)
  insert-Ordered p (q ∷ qs) o = elim (Bool-cases (before D q p)) [
    | inl t ↦ rw t (head-insert p q qs t o.0, insert-Ordered p qs o.1)
    | inr f ↦ rw f (f, o)
  ]

  insert-Perm :
      (p : RateLimitPolicy D) (ps : List (RateLimitPolicy D)) → Perm (insert D p ps) (p ∷ ps)
  unfolding insert
  insert-Perm p [] = Perm.refl (p ∷ [])
  insert-Perm p (q ∷ qs) = elim (Bool-cases (before D q p)) [
    | inl t ↦ rw t (Perm.trans (Perm.cons q (insert-Perm p qs)) (Perm.swap p q qs))
    | inr f ↦ rw f (Perm.refl (p ∷ q ∷ qs))
  ]

  module _ (route provider model : String) where
    -- The rows that the WHERE clause keeps.
    abbrev pub selected : List (RateLimitPolicy D) → List (RateLimitPolicy D)
    selected [] = []
    selected (p ∷ ps) =
        let rest = selected ps in if matches_policy D route provider model p then p ∷ rest else rest

    -- The query gives the rows that its condition keeps, each as often as the table holds it, and
    -- no row comes after one that the order by window, scope and id puts later.
    pub find_applicable_lem :
        (ps : List (RateLimitPolicy D))
        → Ordered (find_applicable D route provider model ps)
          × Perm (find_applicable D route provider model ps) (selected ps)
    unfolding find_applicable
    find_applicable_lem [] = (tt, Perm.refl [])
    find_applicable_lem (p ∷ ps) =
        let (ordered, perm) = find_applicable_lem ps in
        elim (Bool-cases (matches_policy D route provider model p)) [
          | inl t ↦
              rw t (insert-Ordered p _ ordered, Perm.trans (insert-Perm p _) (Perm.cons p perm))
          | inr f ↦ rw f (ordered, perm)
        ]

  same_scope_self : (p : RateLimitPolicy D) → same_scope D p p ≡ true
  unfolding same_scope
  same_scope_self p = simp (str_eq_refl)

  -- The upsert of the same default again, under whatever id the sequence gives it, leaves the
  -- table as the first left it.
  pub upsert_policy_idempotent :
      (new : RateLimitPolicy D) (id : ℤ) (ps : List (RateLimitPolicy D))
      → upsert_policy D (record new { id = id }) (upsert_policy D new ps) ≡ upsert_policy D new ps
  unfolding upsert_policy update_policy same_scope
  upsert_policy_idempotent new id [] = rw (same_scope_self new)
  upsert_policy_idempotent new id (p ∷ ps) = elim (Bool-cases (same_scope D p new)) [
    | inl t ↦ rw (t, upsert_policy) (rw (t, upsert_policy))
    | inr f ↦
        rw (f, upsert_policy)
          (rw (f, upsert_policy) (ap (λ l. p ∷ l) (upsert_policy_idempotent new id ps)))
  ]

  -- How many rows have the scope of a policy.
  abbrev pub rows_of : RateLimitPolicy D → List (RateLimitPolicy D) → ℕ
  rows_of new [] = 0
  rows_of new (p ∷ ps) = let rest = rows_of new ps in if same_scope D p new then suc rest else rest

  -- It keeps the key unique: where at most one row has its scope, exactly one has it after.
  pub upsert_policy_unique :
      (new : RateLimitPolicy D) (ps : List (RateLimitPolicy D))
      → rows_of new ps ≤ 1
      → rows_of new (upsert_policy D new ps) ≡ 1
  unfolding upsert_policy update_policy same_scope
  upsert_policy_unique new [] h = rw (same_scope_self new)
  upsert_policy_unique new (p ∷ ps) h = elim (Bool-cases (same_scope D p new)) [
    | inl t ↦
        let now : rows_of new (p ∷ ps) ≡ suc (rows_of new ps) = rw t in rw t (rw t (omega arith))
    | inr f ↦
        let now : rows_of new (p ∷ ps) ≡ rows_of new ps = rw f in
        rw f (rw f (upsert_policy_unique new ps (omega arith)))
  ]
