-- ===== src/Queue/Worker/Retries.antt =====
-- The life of a job through the worker: each run ends in an acknowledgement, a retry or the
-- dead-letter queue, and a job that keeps failing is run three times.
use klass_mobile_backend.Prelude.{
  ℕ, zero, suc, ◌+◌, ◌≤◌, ◌<◌, ◌≡◌, ◌≢◌, ◌⊎◌, refl, String, true, false, Option, none, some, List,
  [], ◌∷◌, ◌++◌, Bool, not, ◌&&◌, arith, length, inl, inr, Bool-cases, str_eq, eq_iff, ap, ◌∙◌,
  if◌then◌else◌,
}
use klass_mobile_backend.Prelude.Int.{ℤ, pos, ◌+ℤ◌, ltb_ℤ, pos-+ℤ}
use klass_mobile_backend.Prelude.Word.{two63, wrap64, wrap64-pos}
use klass_mobile_backend.Prelude.Result.{Result, ok, err}
use klass_mobile_backend.Prelude.Decimal.{show_int}
use klass_mobile_backend.Prelude.Decimal.Laws.{parse_i64-show_int}
use klass_mobile_backend.Queue.{Codec, Fields}
use klass_mobile_backend.Queue.Streams.{StreamEntry, entry_of, read_fields, get}
use klass_mobile_backend.Queue.Streams.Roundtrip.{send_fields, value_to_str-bulk}
use klass_mobile_backend.Queue.Worker.{
  when_connected, Breaker, closed, Command, xack, xadd, with_job_id, send_to_dlq, requeue_fields,
  handle_error, finish_entry, is_retryable_error,
}

-- The entries that the commands acknowledge, the generations that they enqueue again, and those that
-- they send to the dead letters.
abbrev pub acked : List Command → List String
acked [] = []
acked (xack id ∷ cs) = id ∷ acked cs
acked (c ∷ cs) = acked cs

abbrev generation_in : Fields → List String
generation_in [] = []
generation_in ((name, value) ∷ fields) =
    let rest = generation_in fields in if str_eq name "generation_id" then value ∷ rest else rest

abbrev pub requeues : List Command → List String
requeues [] = []
requeues (xadd fields ∷ cs) = generation_in fields ++ requeues cs
requeues (c ∷ cs) = requeues cs

abbrev pub dead_letters : List Command → List String
dead_letters [] = []
dead_letters (send_to_dlq g a code m ∷ cs) = g ∷ dead_letters cs
dead_letters (c ∷ cs) = dead_letters cs

-- The error may be retried, and the job's next attempt is not past the third.
abbrev pub may_run_again : (String → String) → StreamEntry → String → Bool
may_run_again lower e m =
    is_retryable_error lower m && not (ltb_ℤ (pos 3) (wrap64 (e.attempt +ℤ pos 1)))

-- What the end of a run is to do with its entry: acknowledged, enqueued again, dead-lettered.
abbrev pub Accounts : List Command → (acked_ids again dead : List String) → Type 0
Accounts cs ids again dead = (acked cs ≡ ids) × (requeues cs ≡ again) × (dead_letters cs ≡ dead)

abbrev pub AccountsFor :
    (String → String) → StreamEntry → Result String (Unit {0}) → Bool → List Command → Type 0
AccountsFor lower e (ok done) connected cs = Accounts cs (if connected then e.id ∷ [] else []) [] []
AccountsFor lower e (err m) connected cs =
    if may_run_again lower e m
    then Accounts cs (if connected then e.id ∷ [] else [])
        (if connected then e.generation_id ∷ [] else []) []
    else Accounts cs (if connected then e.id ∷ [] else []) [] (e.generation_id ∷ [])

module _ (lower : String → String) (now : ℕ) (now_text : String) (b : Breaker)
    (e : StreamEntry) where
  job_field :
      (o : Option String) (rest : Fields) → generation_in (with_job_id o rest) ≡ generation_in rest
  unfolding with_job_id
  job_field none rest = refl
  job_field (some j) rest = refl

  pub only_acked :
      (c : Bool) → Accounts (when_connected c (xack e.id ∷ [])) (if c then e.id ∷ [] else []) [] []
  unfolding when_connected
  only_acked true = (refl, refl, refl)
  only_acked false = (refl, refl, refl)

  pub requeued_too :
      (c : Bool) (attempt : ℤ)
      → Accounts
          (when_connected c (xack e.id ∷ xadd (requeue_fields e attempt now_text) ∷ []))
          (if c then e.id ∷ [] else [])
          (if c then e.generation_id ∷ [] else [])
          []
  unfolding when_connected requeue_fields
  requeued_too true attempt = (refl, rw (job_field e.job_id) refl, refl)
  requeued_too false attempt = (refl, refl, refl)

  dead :
      (c : Bool)
      → (acked (when_connected c (xack e.id ∷ [])) ≡ (if c then e.id ∷ [] else []))
        × (requeues (when_connected c (xack e.id ∷ [])) ≡ [])
        × (e.generation_id ∷ dead_letters (when_connected c (xack e.id ∷ []))
            ≡ e.generation_id ∷ [])
  dead c = let (a, r, d) = only_acked c in (a, r, ap (λ l. e.generation_id ∷ l) d)

  -- The end of a task acknowledges its own entry and no other, if there is a connection, and nothing
  -- without one. A success does no more. A failure sends its own generation to the dead letters, with
  -- or without a connection, if its error is permanent or its attempts are used up, and enqueues
  -- nothing; any other failure enqueues its own generation again, if there is a connection, and
  -- sends nothing to the dead letters.
  pub finish_entry_accounts :
      (connected : Bool) (result : Result String (Unit {0}))
      → AccountsFor lower e result connected
          (finish_entry lower connected now now_text b e result).1
  unfolding finish_entry handle_error when_connected requeue_fields
  finish_entry_accounts true (ok done) = (refl, refl, refl)
  finish_entry_accounts false (ok done) = (refl, refl, refl)
  finish_entry_accounts c (err m) = elim (Bool-cases (is_retryable_error lower m)) [
    | inl t ↦ elim (Bool-cases (ltb_ℤ (pos 3) (wrap64 (e.attempt +ℤ pos 1)))) [
      | inl l ↦ rw (t, l) (dead c)
      | inr f ↦ rw (t, f) (requeued_too c _)
    ]
    | inr f ↦ rw f (dead c)
  ]

-- The entry that a reader makes of the fields of the first XADD, under the id that Redis gives it.
abbrev pub requeued : Codec → String → List Command → Option StreamEntry
requeued C id [] = none
requeued C id (xadd fields ∷ cs) = some (entry_of C (id, read_fields C (send_fields C fields) []))
requeued C id (c ∷ cs) = requeued C id cs

str_ne-empty : (j : String) → some j ≢ some "" → str_eq j "" ≡ false
str_ne-empty j h = elim (Bool-cases (str_eq j "")) [
  | inl t ↦ absurd (h (ap some ((eq_iff j "").0 t)))
  | inr f ↦ f
]

module _ (C : Codec) (id now_text g : String) (n : ℕ) (fits : n < two63) where
  -- What a reader makes of the fields of a retry, for each form of the job id.
  reread :
      (job : Option String)
      → job ≢ some ""
      → entry_of C (
        id,
        read_fields C
            (send_fields C (
              ("generation_id", g)
              ∷ with_job_id job (("attempt", show_int (pos n)) ∷ ("enqueued_at", now_text) ∷ [])))
            [],
      )
        ≡ record { id = id; generation_id = g; job_id = job; attempt = pos n }
  unfolding entry_of read_fields with_job_id get
  reread none h = simp (value_to_str-bulk, parse_i64-show_int (pos n) fits)
  reread (some j) h = simp (value_to_str-bulk, parse_i64-show_int (pos n) fits, str_ne-empty j h)

next_attempt : (z : ℤ) (a : ℕ) → z ≡ pos a → a < 1000 → wrap64 (z +ℤ pos 1) ≡ pos (a + 1)
next_attempt z a e h = rw (e, pos-+ℤ) (wrap64-pos (a + 1) (omega arith))

may_retry : (a : ℕ) → a < 3 → ltb_ℤ (pos 3) (pos (a + 1)) ≡ false
may_retry a h = ground arith

last_try : (a : ℕ) → 3 ≤ a → ltb_ℤ (pos 3) (pos (a + 1)) ≡ true
last_try a h = ground arith

module _ (C : Codec) (lower : String → String) (now : ℕ) (id now_text m : String)
    (b : Breaker) where
  -- A task that fails with a retryable error before the third attempt enqueues the same job again:
  -- a reader of the stream finds its generation and its job id, and the attempt is one more.
  pub retry_next :
      (e : StreamEntry) (a : ℕ)
      → e.attempt ≡ pos a
      → a < 3
      → e.job_id ≢ some ""
      → is_retryable_error lower m ≡ true
      → requeued C id (finish_entry lower true now now_text b e (err m)).1
        ≡ some (record e { id = id; attempt = pos (a + 1) })
  unfolding finish_entry handle_error requeue_fields
  retry_next e a ea small job retryable =
      rw (retryable, next_attempt e.attempt a ea (omega arith), may_retry a small)
        (ap some (reread C id now_text e.generation_id (a + 1) (omega arith) e.job_id job))

  -- With the third attempt, or an error that is not retryable, nothing is enqueued again.
  last_run :
      (e : StreamEntry) (a : ℕ)
      → e.attempt ≡ pos a
      → a < 1000
      → (is_retryable_error lower m ≡ false) ⊎ (3 ≤ a)
      → requeued C id (finish_entry lower true now now_text b e (err m)).1 ≡ none
  unfolding finish_entry handle_error
  last_run e a ea small (inl permanent) = rw permanent
  last_run e a ea small (inr last) = elim (Bool-cases (is_retryable_error lower m)) [
    | inl t ↦ rw (t, next_attempt e.attempt a ea small, last_try a last)
    | inr f ↦ rw f
  ]

module _ (C : Codec) (lower : String → String) (now : ℕ) (id now_text : String) where
  -- How often a job is run while its runs fail with these errors and the connection holds: each
  -- entry that a run enqueues is read and run in its turn.
  pub runs : StreamEntry → List String → ℕ
  runs e [] = 0
  runs e (m ∷ ms) = elim (requeued C id (finish_entry lower true now now_text closed e (err m)).1) [
    | none ↦ 1
    | some e' ↦ suc (runs e' ms)
  ]

  abbrev pub AllRetryable : List String → Type 0
  AllRetryable [] = Unit
  AllRetryable (m ∷ ms) = (is_retryable_error lower m ≡ true) × AllRetryable ms

  runs_last :
      (e : StreamEntry) (a : ℕ) (m : String) (ms : List String)
      → e.attempt ≡ pos a
      → a < 1000
      → (is_retryable_error lower m ≡ false) ⊎ (3 ≤ a)
      → runs e (m ∷ ms) ≡ 1
  unfolding runs
  runs_last e a m ms ea small h =
      rw (last_run C lower now id now_text m closed e a ea small h, runs)

  runs_retry :
      (e : StreamEntry) (a : ℕ) (m : String) (ms : List String)
      → e.attempt ≡ pos a
      → a < 3
      → e.job_id ≢ some ""
      → is_retryable_error lower m ≡ true
      → runs e (m ∷ ms) ≡ suc (runs (record e { id = id; attempt = pos (a + 1) }) ms)
  unfolding runs
  runs_retry e a m ms ea small job h =
      rw (retry_next C lower now id now_text m closed e a ea small job h, runs)

  runs_from :
      (left : ℕ) (e : StreamEntry) (a : ℕ) (ms : List String)
      → e.attempt ≡ pos a
      → a + left ≡ 3
      → e.job_id ≢ some ""
      → runs e ms ≤ suc left
  runs_from left e a [] ea h job = unfold runs in omega arith
  runs_from zero e a (m ∷ ms) ea h job =
      omega (arith, runs_last e a m ms ea (omega arith) (inr (omega arith)))
  runs_from (suc left) e a (m ∷ ms) ea h job = elim (Bool-cases (is_retryable_error lower m)) [
    | inl t ↦ omega (
      arith,
      runs_retry e a m ms ea (omega arith) job t,
      runs_from left (record e { id = id; attempt = pos (a + 1) }) (a + 1) ms refl (omega arith)
          job,
    )
    | inr f ↦ omega (arith, runs_last e a m ms ea (omega arith) (inl f))
  ]

  runs_exact :
      (left : ℕ) (e : StreamEntry) (a : ℕ) (ms : List String)
      → e.attempt ≡ pos a
      → a + left ≡ 3
      → e.job_id ≢ some ""
      → AllRetryable ms
      → left < length ms
      → runs e ms ≡ suc left
  runs_exact left e a [] ea h job all long = absurd (omega arith)
  runs_exact zero e a (m ∷ ms) ea h job all long =
      runs_last e a m ms ea (omega arith) (inr (omega arith))
  runs_exact (suc left) e a (m ∷ ms) ea h job all long =
      runs_retry e a m ms ea (omega arith) job all.0
      ∙ ap suc (
          runs_exact left (record e { id = id; attempt = pos (a + 1) }) (a + 1) ms refl
            (omega arith) job all.1 (omega arith))

  -- A job that is enqueued with attempt 1 is run at most three times, whatever its runs' errors;
  -- if three or more errors would come, all retryable, it is run exactly three times.
  pub job_runs :
      (e : StreamEntry) (ms : List String)
      → e.attempt ≡ pos 1
      → e.job_id ≢ some ""
      → (runs e ms ≤ 3) × (AllRetryable ms → 3 ≤ length ms → runs e ms ≡ 3)
  job_runs e ms ea job =
      (runs_from 2 e 1 ms ea refl job, λ all long. runs_exact 2 e 1 ms ea refl job all long)

-- How many failures a result is.
abbrev pub failures {ℓ κ} : {X : Type ℓ} {A : Type κ} → Result X A → ℕ
failures (ok a) = 0
failures (err e) = 1
