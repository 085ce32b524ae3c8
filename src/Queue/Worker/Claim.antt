-- ===== src/Queue/Worker/Claim.antt =====
-- The recovery of pending entries in src/queue/worker.rs: when it runs, and which entries it claims.
use klass_mobile_backend.Prelude.{
  ℕ, ◌+◌, ◌*◌, ◌%◌, ◌^◌, ◌<◌, ◌≡◌, refl, String, false, Option, some, List, [], ◌∷◌, arith,
  Bool-cases, inl, inr, ◌==◌, str_eq, if◌then◌else◌,
}
use klass_mobile_backend.Prelude.Result.{Result, ok, err}
use klass_mobile_backend.Queue.{Codec, Value, Values, array, nil, cons, value_to_str}
use klass_mobile_backend.Queue.Streams.{unwrap_or_default}
use klass_mobile_backend.Queue.Streams.Roundtrip.{bulk, value_to_str-bulk}
use klass_mobile_backend.Queue.Worker.{claim_interval}

module _ (C : Codec) where
  push_id : Value → List String → List String
  unfolding unwrap_or_default
  push_id (array (cons id more)) rest = unwrap_or_default (value_to_str C id) ∷ rest
  push_id _ rest = rest

  ids_of : Values → List String
  unfolding push_id
  ids_of nil = []
  ids_of (cons item items) = push_id item (ids_of items)

  -- The ids in the reply of XPENDING.
  unfoldable pub pending_ids : Option Value → List String
  unfolding ids_of
  pending_ids (some (array items)) = ids_of items
  pending_ids _ = []

-- The ids for which an XCLAIM is issued: all but the empty ones.
unfoldable pub claims : List String → List String
claims [] = []
claims (id ∷ ids) = if str_eq id "" then claims ids else id ∷ claims ids

module _ (C : Codec) where
  -- `claim_pending`: the counter after, and the claims, or the error of the connection or of
  -- XPENDING. Only each sixth call looks at the pending entries. The counter is a u32 that wraps.
  unfoldable pub claim_pending : ℕ → Result String (Option Value) → ℕ × Result String (List String)
  unfolding claims pending_ids
  claim_pending counter reply =
      let next = (counter + 1) % 2 ^ 32 in
      if counter % claim_interval == 0
      then (next, elim reply [ ok pending ↦ ok (claims (pending_ids C pending)) | err m ↦ err m ])
      else (next, ok [])

  -- An item of the reply of XPENDING: the id, then the consumer, the idle time and the deliveries.
  abbrev pub send_pending : List String → Values → Values
  send_pending [] more = nil
  send_pending (id ∷ ids) more = cons (array (cons (bulk C id) more)) (send_pending ids more)

  abbrev pub AllNonEmpty : List String → Type 0
  AllNonEmpty [] = Unit
  AllNonEmpty (id ∷ ids) = (str_eq id "" ≡ false) × AllNonEmpty ids

  claims_all :
      (ids : List String) (more : Values)
      → AllNonEmpty ids
      → claims (ids_of C (send_pending ids more)) ≡ ids
  unfolding claims ids_of
  claims_all [] more h = refl
  claims_all (id ∷ ids) more h = simp (value_to_str-bulk, h.0, claims_all ids more h.1)

  -- On each sixth call every pending entry that the reply names is claimed, in its order (ids are
  -- not empty), and on the others none; an error of the reply shows on the sixth calls only.
  pub claim_pending_all :
      (k r : ℕ) (ids : List String) (more : Values)
      → AllNonEmpty ids
      → r < 6
      → (claim_pending (k * 6 + r) (ok (some (array (send_pending ids more))))).1
        ≡ ok (if r == 0 then ids else [])
  unfolding claim_pending
  claim_pending_all k r ids more h small =
      let m : (k * 6 + r) % 6 ≡ r = omega arith in
      rw (m, claims_all ids more h) (elim (Bool-cases (r == 0)) [ inl t ↦ rw t | inr f ↦ rw f ])
