-- ===== src/Webhook/Rows.antt =====
-- The rows that the callback updates: updates by id in turn, and what the lookup finds after.
use mathlib.Core.Option.{none-ne-some}
use mathlib.Core.Bool.{true≢false}
use klass_mobile_backend.Prelude.{
  ◌≡◌, refl, sym, ap, ap₂, ◌∙◌, String, Bool, true, false, Option, none, some, [], ◌∷◌, Bool-cases,
  inl, inr,
}
use klass_mobile_backend.Webhook.{
  WebhookEnv, MediaGeneration, Rows, find_by_job_id, has_id, has_job, update_rows, lookup,
  update_job_status,
}

module _ (E : WebhookEnv) where
  eq_uuid_refl : (a : E.Uuid) → E.eq_uuid a a ≡ true
  eq_uuid_refl a = (E.eq_uuid_iff a a).1 refl

  module _ (id : E.Uuid) (f : MediaGeneration E → MediaGeneration E) where
    module _ (keeps_id : (r : MediaGeneration E) → (f r).id ≡ r.id) where
      key_after :
          (r : MediaGeneration E) (b : Bool) → E.eq_uuid r.id id ≡ b → E.eq_uuid (f r).id id ≡ b
      key_after r b h = ap (λ i. E.eq_uuid i id) (keeps_id r) ∙ h

      -- An update by `f`, then by `g`, is the update by both, where `f` keeps the id.
      pub update_rows-update_rows :
          (g : MediaGeneration E → MediaGeneration E) (rs : Rows E)
          → update_rows E id g (update_rows E id f rs) ≡ update_rows E id (λ r. g (f r)) rs
      unfolding update_rows
      update_rows-update_rows g [] = refl
      update_rows-update_rows g (r ∷ rs) = elim (Bool-cases (E.eq_uuid r.id id)) [
        | inl t ↦
            rw t (rw (key_after r true t) (ap (λ l. g (f r) ∷ l) (update_rows-update_rows g rs)))
        | inr n ↦ rw n (rw n (ap (λ l. r ∷ l) (update_rows-update_rows g rs)))
      ]

      pub has_id-update_rows : (rs : Rows E) → has_id E id (update_rows E id f rs) ≡ has_id E id rs
      unfolding update_rows has_id
      has_id-update_rows [] = refl
      has_id-update_rows (r ∷ rs) = elim (Bool-cases (E.eq_uuid r.id id)) [
        | inl t ↦ rw t (rw (key_after r true t))
        | inr n ↦ rw n (rw n (has_id-update_rows rs))
      ]

      -- An update that keeps ids, jobs and statuses is not seen by the lookup.
      pub lookup-update_rows :
          (job : E.Uuid)
          → ((r : MediaGeneration E) → (f r).generation_job_id ≡ r.generation_job_id)
          → ((r : MediaGeneration E) → (f r).generation_status ≡ r.generation_status)
          → (rs : Rows E) → lookup E job (update_rows E id f rs) ≡ lookup E job rs
      unfolding update_rows lookup find_by_job_id
      lookup-update_rows job jobs statuses [] = refl
      lookup-update_rows job jobs statuses (r ∷ rs) =
          let rest = lookup-update_rows job jobs statuses rs in
          let after : (b : Bool)
              → has_job E job r.generation_job_id ≡ b
              → has_job E job (f r).generation_job_id ≡ b =
            λ b h. ap (has_job E job) (jobs r) ∙ h in
          elim (Bool-cases (E.eq_uuid r.id id)) [
            | inl t ↦ rw t (elim (Bool-cases (has_job E job r.generation_job_id)) [
              | inl y ↦
                  rw y (rw (after true y) (ap₂ (λ i s. some (i, s)) (keeps_id r) (statuses r)))
              | inr n ↦ rw n (rw (after false n) rest)
            ])
            | inr o ↦ rw o (elim (Bool-cases (has_job E job r.generation_job_id)) [
              | inl y ↦ rw y
              | inr n ↦ rw n rest
            ])
          ]

  abbrev Known : Type 0
  Known = Option (E.Uuid × Option String)

  abbrev id_or : E.Uuid → Known → E.Uuid
  id_or d none = d
  id_or d (some r) = r.0

  -- The row that the lookup finds has its id.
  pub lookup-has_id :
      (job id : E.Uuid) (st : Option String) (rs : Rows E)
      → lookup E job rs ≡ some (id, st)
      → has_id E id rs ≡ true
  unfolding lookup find_by_job_id has_id
  lookup-has_id job id st [] h = absurd (none-ne-some _ h)
  lookup-has_id job id st (r ∷ rs) h = elim (Bool-cases (has_job E job r.generation_job_id)) [
    | inl y ↦
        let found : Path Known (some (r.id, r.generation_status)) (lookup E job (r ∷ rs)) = rw y in
        let e : r.id ≡ id = ap (id_or r.id) (found ∙ h) in rw ((E.eq_uuid_iff r.id id).1 e)
    | inr n ↦
        let found : lookup E job rs ≡ lookup E job (r ∷ rs) = rw n in
        let e : lookup E job rs ≡ some (id, st) = found ∙ h in
        elim (Bool-cases (E.eq_uuid r.id id)) [
          | inl t ↦ rw t
          | inr f ↦ rw f (lookup-has_id job id st rs e)
        ]
  ]

  -- After the job's status is set on the row found, the lookup finds that row with that status.
  pub lookup-update_job_status :
      (job id : E.Uuid) (st : Option String) (s : String) (rs : Rows E)
      → lookup E job rs ≡ some (id, st)
      → lookup E job (update_rows E id (update_job_status E job s) rs) ≡ some (id, some s)
  unfolding lookup find_by_job_id update_rows update_job_status has_job
  lookup-update_job_status job id st s [] h = absurd (none-ne-some _ h)
  lookup-update_job_status job id st s (r ∷ rs) h = elim (Bool-cases (E.eq_uuid r.id id)) [
    | inl t ↦
        rw t (rw (eq_uuid_refl job) (ap (λ i. some (i, some s)) ((E.eq_uuid_iff r.id id).0 t)))
    | inr o ↦ rw o (elim (Bool-cases (has_job E job r.generation_job_id)) [
      | inl y ↦
          let found : Path Known (some (r.id, r.generation_status)) (lookup E job (r ∷ rs)) =
            rw y in
          let e : r.id ≡ id = ap (id_or r.id) (found ∙ h) in
          absurd (true≢false (sym ((E.eq_uuid_iff r.id id).1 e) ∙ o))
      | inr n ↦
          let found : lookup E job rs ≡ lookup E job (r ∷ rs) = rw n in
          let e : lookup E job rs ≡ some (id, st) = found ∙ h in
          rw n (lookup-update_job_status job id st s rs e)
    ])
  ]
