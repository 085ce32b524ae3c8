-- ===== src/Orchestrator/Submission.antt =====
-- src/orchestrator/submission.rs: the submission of a request, which reuses a generation that is under
-- way for the same request, on the rows of media_generations.
pub mod Create
pub mod Regeneration
pub mod Canonical
pub mod Reuse
pub mod Blocked
use mathlib.Core.Option
use Prim.Native.Char.{Char}
use Prim.Native.String.{[], ◌∷◌}
use klass_mobile_backend.Prelude.{
  ℕ, String, ◌<>◌, Bool, true, false, not, ◌&&◌, ◌||◌, Option, none, some, List, str_eq, ltb, ◌==◌,
  if◌then◌else◌,
}
use mathlib.Core.List
use klass_mobile_backend.Prelude.Int.{ℤ, eq_ℤ, ltb_ℤ}
use klass_mobile_backend.Prelude.Text.{is_whitespace, space, trim, is_empty}
use klass_mobile_backend.Prelude.Decimal.{show_int}
use klass_mobile_backend.Prelude.Result.{Result, ok, err}

-- Rust's lower case of a character and of a text, SHA-256 in hexadecimal digits, and the parser of
-- the crate uuid; a uuid is its number, by which PostgreSQL orders it.
pub record SubmissionEnv : Type 0 where
  pub to_lowercase : Char → String
  pub str_to_lowercase : String → String
  pub sha256_hex : String → String
  pub parse_uuid : String → Result String ℕ

-- The errors of sqlx; `unique_violation` is the code 23505.
pub data SqlError : Type 0 where
  unique_violation : SqlError
  protocol other : String → SqlError

pub data SubmissionError : Type 0 where
  teacher_not_found : String → SubmissionError
  database : SqlError → SubmissionError
  invalid_uuid : String → SubmissionError

pub record ProviderMetadata : Type 0 where
  pub llm_provider : Option String
  pub llm_model : Option String
  pub generator_provider : Option String
  pub generator_model : Option String

pub record CreateInput : Type 0 where
  pub teacher_id : ℤ
  pub raw_prompt : String
  pub preferred_output_type : Option String
  pub subject_id : Option ℤ
  pub sub_subject_id : Option ℤ
  pub provider_metadata : ProviderMetadata

pub record CreateResult : Type 0 where
  pub id : ℕ
  pub was_created : Bool
  pub request_fingerprint : String

-- The columns that a submission reads or writes; `created_at` is set by the database.
pub record Row : Type 0 where
  pub id : ℕ
  pub teacher_id : ℤ
  pub generated_from_id : Option ℕ
  pub is_regeneration : Bool
  pub subject_id : Option ℤ
  pub sub_subject_id : Option ℤ
  pub raw_prompt : String
  pub request_fingerprint : String
  pub active_duplicate_key : Option String
  pub preferred_output_type : String
  pub status : String
  pub provider_metadata : ProviderMetadata
  pub created_at : ℕ

abbrev pub Rows : Type 0
Rows = List.List Row

abbrev pub allowed : String → Bool
allowed s = str_eq s "auto" || (str_eq s "docx" || (str_eq s "pdf" || str_eq s "pptx"))

unfoldable pub is_terminal_status : String → Bool
is_terminal_status s = str_eq s "completed" || (str_eq s "failed" || str_eq s "cancelled")

-- White space becomes one space, and the rest lower case; `after_space` is the state of the fold.
unfoldable pub collapse : (Char → String) → Bool → String → String
collapse lower after_space [] = []
collapse lower after_space (c ∷ s) =
    let in_space = collapse lower true s in
    let in_word = collapse lower false s in
    if is_whitespace c
    then (if after_space then in_space else space ∷ in_space)
    else lower c <> in_word

abbrev pub id_text : Option ℤ → String
id_text none = "none"
id_text (some id) = show_int id

-- Rows that the query finds, and the row of two that it puts first: the latest, then by id.
abbrev pub is_active_for : ℤ → String → Row → Bool
is_active_for teacher fingerprint r =
    eq_ℤ r.teacher_id teacher
    && (str_eq r.request_fingerprint fingerprint && not (is_terminal_status r.status))

newer : Row → Row → Bool
newer a b = ltb b.created_at a.created_at || ((a.created_at == b.created_at) && ltb b.id a.id)

first_of : Row → Option Row → Option Row
unfolding newer
first_of r none = some r
first_of r (some t) = if newer t r then some t else some r

-- ORDER BY created_at DESC, id DESC LIMIT 1.
unfoldable pub find_active : ℤ → String → Rows → Option Row
unfolding first_of
find_active teacher fingerprint List.[] = none
find_active teacher fingerprint (List.◌∷◌ r rs) =
    let rest = find_active teacher fingerprint rs in
    if is_active_for teacher fingerprint r then first_of r rest else rest

unfoldable pub has_key : String → Option String → Bool
has_key key none = false
has_key key (some k) = str_eq k key

-- The primary key, and the unique index on the keys that are not NULL.
conflicts_with : Row → Row → Bool
unfolding has_key
conflicts_with new r = (r.id == new.id) || elim new.active_duplicate_key [
  | none ↦ false
  | some key ↦ has_key key r.active_duplicate_key
]

unfoldable pub conflicts : Row → Rows → Bool
unfolding conflicts_with
conflicts new List.[] = false
conflicts new (List.◌∷◌ r rs) = conflicts_with new r || conflicts new rs

abbrev pub Outcome : Type 0 → Type 0
Outcome A = Result SubmissionError A × Rows

-- A statement that may fail, with the rest of the code.
abbrev pub attempt : {A : Type 0} → Option SqlError → Rows → Outcome A → Outcome A
attempt none rows k = k
attempt (some e) rows k = (err (database e), rows)

-- One call: the new id and time, the errors of its statements, what other transactions commit between
-- its first query and its insert, and after a failed insert; and whether RETURNING gives the row.
pub record Call : Type 0 where
  pub new_id : ℕ
  pub now : ℕ
  pub begin : Option SqlError
  pub select : Option SqlError
  pub insert : Option SqlError
  pub returns_row : Bool
  pub commit : Option SqlError
  pub rollback : Option SqlError
  pub begin_again : Option SqlError
  pub select_again : Option SqlError
  pub commit_again : Option SqlError
  pub rollback_again : Option SqlError
  pub between : Rows → Rows
  pub meanwhile : Rows → Rows

module _ (E : SubmissionEnv) where
  unfoldable pub squish_and_lower : String → String
  squish_and_lower s = trim (collapse E.to_lowercase false s)

  lower_allowed : String → String
  lower_allowed s = if allowed s then s else "auto"

  unfoldable pub normalize_preferred_output_type : Option String → String
  unfolding lower_allowed
  normalize_preferred_output_type none = "auto"
  normalize_preferred_output_type (some raw) =
      if is_empty (trim raw) then "auto" else lower_allowed (E.str_to_lowercase (trim raw))

  unfoldable pub canonical : ℤ → String → String → Option ℤ → Option ℤ → String
  canonical teacher_id raw_prompt preferred_output_type subject_id sub_subject_id =
      show_int teacher_id
      <> ("|"
          <> (preferred_output_type
              <> ("|"
                  <> (id_text subject_id
                      <> ("|"
                          <> (id_text sub_subject_id <> ("|" <> squish_and_lower raw_prompt)))))))

  unfoldable pub make_request_fingerprint : ℤ → String → String → Option ℤ → Option ℤ → String
  make_request_fingerprint teacher_id raw_prompt preferred_output_type subject_id sub_subject_id =
      E.sha256_hex (canonical teacher_id raw_prompt preferred_output_type subject_id sub_subject_id)

  unfoldable pub fingerprint_of : CreateInput → String
  fingerprint_of input =
      make_request_fingerprint input.teacher_id input.raw_prompt
        (normalize_preferred_output_type input.preferred_output_type) input.subject_id
        input.sub_subject_id
