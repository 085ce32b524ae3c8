-- ===== src/Orchestrator/Audit/Messages.antt =====
-- What the sanitizer of messages promises.
use klass_mobile_backend.Prelude.{
  ◌≤◌, ◌≡◌, refl, ap, String, Bool, true, false, ◌&&◌, some, ltb, arith, tests, inl, inr,
  Bool-cases, if◌then◌else◌,
}
use mathlib.Core.Option.{some-injective}
use Prim.Native.Char.{Char}
use Prim.Native.String.{[], ◌∷◌}
use klass_mobile_backend.Prelude.Text.{
  space, is_whitespace, trim, trim_start, trim_end, is_empty, len, is_ascii, len-slice_to,
  slice_to-ascii,
}
use klass_mobile_backend.Orchestrator.Audit.{collapse, limit_message, sanitize_message}

is_ascii-after :
    (b p : Bool) (c : Char) (s r q : String)
    → is_ascii (c ∷ s) ≡ true
    → (is_ascii s ≡ true → is_ascii r ≡ true)
    → (is_ascii s ≡ true → is_ascii q ≡ true)
    → is_ascii (if b then if p then r else space ∷ r else c ∷ q) ≡ true
unfolding is_ascii
is_ascii-after true true c s r q h k l = ground arith
is_ascii-after true false c s r q h k l = ground arith
is_ascii-after false p c s r q h k l = ground arith

is_ascii-collapse :
    (prev : Bool) (s : String) → is_ascii s ≡ true → is_ascii (collapse prev s) ≡ true
unfolding collapse
is_ascii-collapse prev [] h = h
is_ascii-collapse prev (c ∷ s) h =
    is_ascii-after (is_whitespace c) prev c s (collapse true s) (collapse false s) h
      (is_ascii-collapse true s) (is_ascii-collapse false s)

is_ascii-trim_start : (s : String) → is_ascii s ≡ true → is_ascii (trim_start s) ≡ true
unfolding trim_start is_ascii
is_ascii-trim_start [] h = refl
is_ascii-trim_start (c ∷ s) h = ground (arith, is_ascii-trim_start s)

is_ascii-cons :
    (b : Bool) (c : Char) (r s : String)
    → is_ascii (c ∷ s) ≡ true
    → (is_ascii s ≡ true → is_ascii r ≡ true)
    → is_ascii (if b then [] else c ∷ r) ≡ true
unfolding is_ascii
is_ascii-cons true c r s h k = refl
is_ascii-cons false c r s h k = ground arith

is_ascii-trim_end : (s : String) → is_ascii s ≡ true → is_ascii (trim_end s) ≡ true
unfolding trim_end
is_ascii-trim_end [] h = h
is_ascii-trim_end (c ∷ s) h =
    is_ascii-cons (is_whitespace c && is_empty (trim_end s)) c (trim_end s) s h
      (is_ascii-trim_end s)

limit_bounded : (s t : String) → limit_message s ≡ some t → len t ≤ 240
unfolding limit_message
limit_bounded s t = elim (Bool-cases (ltb 240 (len s))) [
  | inl y ↦ rw y (λ h. omega (arith, len-slice_to 240 s t h))
  | inr n ↦ rw n (λ h. short n (some-injective _ _ h))
]
  where
    short : ltb 240 (len s) ≡ false → s ≡ t → len t ≤ 240
    short n e = ground (arith, ap len e)

limit-ascii : (s : String) → is_ascii s ≡ true → (t : String) × (limit_message s ≡ some t)
unfolding limit_message
limit-ascii s h = elim (Bool-cases (ltb 240 (len s))) [
  | inl y ↦ rw y (slice_to-ascii 240 s h (omega (tests, y)))
  | inr n ↦ rw n (s, refl)
]

-- A sanitized message, where there is one, has at most 240 bytes.
pub sanitize_message_bounded :
    (message t : String) → sanitize_message message ≡ some t → len t ≤ 240
unfolding sanitize_message trim
sanitize_message_bounded message t = limit_bounded (trim (collapse false message)) t

-- A message with no character beyond ASCII has a sanitized form, of at most 240 bytes.
pub sanitize_message-ascii :
    (message : String)
    → is_ascii message ≡ true
    → (t : String) × (sanitize_message message ≡ some t) × (len t ≤ 240)
unfolding sanitize_message trim
sanitize_message-ascii message h =
    let (t, e) =
      limit-ascii (trim (collapse false message))
        (is_ascii-trim_end _ (is_ascii-trim_start _ (is_ascii-collapse false message h))) in
    (t, e, limit_bounded (trim (collapse false message)) t e)
