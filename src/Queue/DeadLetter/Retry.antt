-- ===== src/Queue/DeadLetter/Retry.antt =====
-- The manual retry takes exactly the dead letters of its generation.
use klass_mobile_backend.Prelude.{
  ◌≡◌, refl, String, Bool, true, false, some, List, [], ◌∷◌, ◌++◌, map, str_eq, if◌then◌else◌,
  Bool-cases, inl, inr,
}
use klass_mobile_backend.Prelude.Int.{ℤ, pos}
use klass_mobile_backend.Prelude.Result.{Result, ok, err}
use klass_mobile_backend.Queue.{Codec, Values, array, nil, cons}
use klass_mobile_backend.Queue.Streams.Roundtrip.{bulk, value_to_str-bulk, send_fields}
use klass_mobile_backend.Queue.DeadLetter.{
  DlqCommand, xdel, enqueue, dlq_fields, match_items, after_delete, retry_from_dlq,
}

pub record Letter : Type 0 where
  pub id : String
  pub generation_id : String
  pub attempt : ℤ
  pub payload : String

-- The ids of the letters of a generation, in order.
abbrev pub ids_for : String → List Letter → List String
ids_for g [] = []
ids_for g (l ∷ ls) =
    let rest = ids_for g ls in if str_eq l.generation_id g then l.id ∷ rest else rest

-- What the retry answers where it finds no letter, and where it finds some.
abbrev pub answer :
    String → List String → Result String String → Result String Bool × List DlqCommand
answer g [] enqueued = (ok false, [])
answer g (id ∷ ids) (ok entry) = (ok true, map xdel (id ∷ ids) ++ (enqueue g "" (pos 1) ∷ []))
answer g (id ∷ ids) (err m) = (err m, map xdel (id ∷ ids) ++ (enqueue g "" (pos 1) ∷ []))

module _ (C : Codec) where
  -- How Redis sends the dead-letter stream.
  abbrev pub send_letters : List Letter → Values
  send_letters [] = nil
  send_letters (l ∷ ls) =
      cons
        (array (
          cons (bulk C l.id)
            (cons (array (send_fields C (dlq_fields l.generation_id l.attempt l.payload))) nil)))
        (send_letters ls)

  match_items-send_letters :
      (g : String) (ls : List Letter) → match_items C (send_letters ls) g ≡ ids_for g ls
  unfolding match_items dlq_fields
  match_items-send_letters g [] = refl
  match_items-send_letters g (l ∷ ls) = elim (Bool-cases (str_eq l.generation_id g)) [
    | inl t ↦ simp (value_to_str-bulk, t, match_items-send_letters g ls)
    | inr f ↦ simp (value_to_str-bulk, f, match_items-send_letters g ls)
  ]

  after_delete-eq :
      (ids : List String) (g : String) (enqueued : Result String String)
      → after_delete C ids g enqueued ≡ answer g ids enqueued
  unfolding after_delete
  after_delete-eq [] g enqueued = refl
  after_delete-eq (id ∷ ids) g (ok entry) = refl
  after_delete-eq (id ∷ ids) g (err m) = refl

  -- The retry of a generation deletes exactly its dead letters, in their order, and then enqueues
  -- it once, with attempt 1 and no job id; without a letter it changes nothing and answers false.
  -- If the enqueue fails the letters are deleted all the same and the error is the answer.
  pub retry_from_dlq-send_letters :
      (g : String) (ls : List Letter) (enqueued : Result String String)
      → retry_from_dlq C g (ok (some (array (send_letters ls)))) enqueued
        ≡ answer g (ids_for g ls) enqueued
  unfolding retry_from_dlq
  retry_from_dlq-send_letters g ls enqueued =
      rw (match_items-send_letters g ls) (after_delete-eq _ g enqueued)
