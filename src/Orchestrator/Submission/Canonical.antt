-- ===== src/Orchestrator/Submission/Canonical.antt =====
-- src/orchestrator/submission.rs: the text whose hash is the fingerprint of a request.
use mathlib.Core.Option.{none-ne-some, some-injective}
use klass_mobile_backend.Prelude.{
  ◌≡◌, refl, sym, ap, ◌∙◌, String, Bool, true, false, ◌||◌, Option, none, some, Bool-cases, inl,
  inr, ◌⊎◌, str_eq, eq_iff,
}
use klass_mobile_backend.Prelude.Int.{ℤ}
use klass_mobile_backend.Prelude.Decimal.{
  show_int, parse_i64, read_signed, read_number, read_digits, positive,
}
use klass_mobile_backend.Prelude.Decimal.Laws.{Fits64, parse_i64-show_int}
use klass_mobile_backend.Prelude.Decimal.Bar.{no_bar, split_at_bar, no_bar-show_int}
use klass_mobile_backend.Prelude.Text.{trim, is_empty}
use klass_mobile_backend.Orchestrator.Submission.{
  SubmissionEnv, CreateInput, id_text, allowed, lower_allowed, canonical,
  normalize_preferred_output_type, squish_and_lower,
}

show_int-injective : (y z : ℤ) → Fits64 y → Fits64 z → show_int y ≡ show_int z → y ≡ z
show_int-injective y z f g h =
    some-injective _ _ (sym (parse_i64-show_int y f) ∙ ap parse_i64 h ∙ parse_i64-show_int z g)

-- An id that is given fits an `i64`.
abbrev pub IdFits : Option ℤ → Type 0
IdFits none = Unit {0}
IdFits (some id) = Fits64 id

none_is_no_number : parse_i64 "none" ≡ none
unfolding parse_i64 read_signed read_number read_digits positive
none_is_no_number = refl

id_text-injective : (a b : Option ℤ) → IdFits a → IdFits b → id_text a ≡ id_text b → a ≡ b
id_text-injective none none f g h = refl
id_text-injective none (some z) f g h =
    absurd (none-ne-some z (sym none_is_no_number ∙ ap parse_i64 h ∙ parse_i64-show_int z g))
id_text-injective (some y) none f g h =
    absurd (none-ne-some y (sym none_is_no_number ∙ ap parse_i64 (sym h) ∙ parse_i64-show_int y f))
id_text-injective (some y) (some z) f g h = ap some (show_int-injective y z f g h)

no_bar-id_text : (a : Option ℤ) → no_bar (id_text a) ≡ true
unfolding no_bar
no_bar-id_text none = refl
no_bar-id_text (some z) = no_bar-show_int z

or_true : (a b : Bool) → a || b ≡ true → (a ≡ true) ⊎ (b ≡ true)
or_true true b h = inl refl
or_true false b h = inr h

same_text : (s t : String) → str_eq s t ≡ true → no_bar t ≡ true → no_bar s ≡ true
same_text s t e h = ap no_bar ((eq_iff s t).0 e) ∙ h

no_bar_allowed : (s : String) → allowed s ≡ true → no_bar s ≡ true
unfolding no_bar
no_bar_allowed s h = elim (or_true (str_eq s "auto") _ h) [
  | inl e ↦ same_text s "auto" e refl
  | inr k ↦ elim (or_true (str_eq s "docx") _ k) [
    | inl e ↦ same_text s "docx" e refl
    | inr l ↦ elim (or_true (str_eq s "pdf") _ l) [
      | inl e ↦ same_text s "pdf" e refl
      | inr e ↦ same_text s "pptx" e refl
    ]
  ]
]

module _ (E : SubmissionEnv) where
  no_bar_type : (o : Option String) → no_bar (normalize_preferred_output_type E o) ≡ true
  unfolding normalize_preferred_output_type no_bar lower_allowed
  no_bar_type none = refl
  no_bar_type (some raw) = elim (Bool-cases (is_empty (trim raw))) [
    | inl t ↦ rw t refl
    | inr f ↦ elim (Bool-cases (allowed (E.str_to_lowercase (trim raw)))) [
      | inl t ↦ rw (f, t) (no_bar_allowed (E.str_to_lowercase (trim raw)) t)
      | inr g ↦ rw (f, g) refl
    ]
  ]

  abbrev pub canonical_of : CreateInput → String
  canonical_of i =
      canonical E i.teacher_id i.raw_prompt
        (normalize_preferred_output_type E i.preferred_output_type) i.subject_id i.sub_subject_id

  -- The ids of a request fit an `i64`.
  pub record InputFits (i : CreateInput) : Type 0 where
    pub teacher : Fits64 i.teacher_id
    pub subject : IdFits i.subject_id
    pub sub_subject : IdFits i.sub_subject_id

  -- Requests with one canonical text, which is what is hashed, are the same request: of one teacher,
  -- for one output type and one subject and sub-subject, and with prompts that differ in white space
  -- and case at most.
  pub canonical-injective :
      (i j : CreateInput)
      → InputFits i
      → InputFits j
      → canonical_of i ≡ canonical_of j
      → (i.teacher_id ≡ j.teacher_id)
        × (normalize_preferred_output_type E i.preferred_output_type
            ≡ normalize_preferred_output_type E j.preferred_output_type)
        × (i.subject_id ≡ j.subject_id)
        × (i.sub_subject_id ≡ j.sub_subject_id)
        × (squish_and_lower E i.raw_prompt ≡ squish_and_lower E j.raw_prompt)
  unfolding canonical
  canonical-injective i j f g h =
      let (teacher, h1) =
        split_at_bar _ _ _ _ (no_bar-show_int i.teacher_id) (no_bar-show_int j.teacher_id) h in
      let (output, h2) =
        split_at_bar _ _ _ _ (no_bar_type i.preferred_output_type)
          (no_bar_type j.preferred_output_type) h1 in
      let (subject, h3) =
        split_at_bar _ _ _ _ (no_bar-id_text i.subject_id) (no_bar-id_text j.subject_id) h2 in
      let (sub_subject, prompt) =
        split_at_bar _ _ _ _ (no_bar-id_text i.sub_subject_id) (no_bar-id_text j.sub_subject_id)
          h3 in
      (
        show_int-injective _ _ f.teacher g.teacher teacher,
        output,
        id_text-injective _ _ f.subject g.subject subject,
        id_text-injective _ _ f.sub_subject g.sub_subject sub_subject,
        prompt,
      )
