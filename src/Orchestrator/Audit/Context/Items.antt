-- ===== src/Orchestrator/Audit/Context/Items.antt =====
-- What the filter keeps of a text and of an array.
use mathlib.Core.Option.{none-ne-some, some-injective}
use klass_mobile_backend.Prelude.{
  ℕ, zero, suc, ◌≡◌, refl, sym, ap, ◌∙◌, String, Bool, true, false, ◌&&◌, Option, none, some, leb,
  le→leb, if◌then◌else◌,
}
use klass_mobile_backend.Prelude.Text.{trim, is_empty, len}
use klass_mobile_backend.Json.{
  Json, Elems, null, boolean, number, decimal, string, array, object, no_items, item, ◌>>=◌,
}
use klass_mobile_backend.Json.Members.{bind_some}
use klass_mobile_backend.Orchestrator.Audit.{sanitize_message}
use klass_mobile_backend.Orchestrator.Audit.Messages.{sanitize_message_bounded}
use klass_mobile_backend.Orchestrator.Audit.Context.{truncate, filter_text, keep_text, filter_items}

abbrev pub scalar_ok : Json → Bool
scalar_ok (boolean _) = true
scalar_ok (number _) = true
scalar_ok (decimal _) = true
scalar_ok (string s) = leb (len s) 240
scalar_ok _ = false

-- At most n scalars.
abbrev pub items_ok : ℕ → Elems → Bool
items_ok n no_items = true
items_ok zero (item _ _) = false
items_ok (suc n) (item v vs) = scalar_ok v && items_ok n vs

-- Where a filtered text is kept it is a text within the bound.
pub filter_text-scalar :
    (limit : ℕ) (s : String) (v : Json)
    → filter_text limit s ≡ some (some v)
    → (t : String) × (string t ≡ v) × (leb (len t) 240 ≡ true)
unfolding filter_text
filter_text-scalar limit s v h = kept (is_empty (trim s)) h
  where
    kept :
        (b : Bool)
        → (if b
            then some none
            else (truncate limit (trim s) >>= λ t.
                sanitize_message t >>= λ m. some (some (string m))))
          ≡ some (some v)
        → (t : String) × (string t ≡ v) × (leb (len t) 240 ≡ true)
    kept true e = absurd (none-ne-some _ (some-injective _ _ e))
    kept false e =
        let (t, _, e1) = bind_some (truncate limit (trim s)) _ (some v) e in
        let (m, e2, e3) = bind_some (sanitize_message t) _ (some v) e1 in
        let bound = sanitize_message_bounded t m e2 in
        (m, some-injective _ _ (some-injective _ _ e3), le→leb _ _ bound)

items_ok-cons :
    (n : ℕ) (v : Json) (o : Option Elems) (r : Elems)
    → scalar_ok v ≡ true
    → ((q : Elems) → o ≡ some q → items_ok n q ≡ true)
    → (o >>= λ rest. some (item v rest)) ≡ some r
    → items_ok (suc n) r ≡ true
items_ok-cons n v o r h ih e =
    let (q, e1, e2) = bind_some o (λ rest. some (item v rest)) r e in
    let both : items_ok (suc n) (item v q) ≡ true = rw (h, ih q e1) refl in
    ap (items_ok (suc n)) (sym (some-injective _ _ e2)) ∙ both

items_ok-keep_text :
    (n : ℕ) (o : Option (Option Json)) (without with : Option Elems) (r : Elems)
    → ((v : Json) → o ≡ some (some v) → (t : String) × (string t ≡ v) × (leb (len t) 240 ≡ true))
    → ((q : Elems) → without ≡ some q → items_ok (suc n) q ≡ true)
    → ((q : Elems) → with ≡ some q → items_ok n q ≡ true)
    → keep_text o without with ≡ some r
    → items_ok (suc n) r ≡ true
unfolding keep_text
items_ok-keep_text n none without with r text h k e = absurd (none-ne-some _ e)
items_ok-keep_text n (some none) without with r text h k e = h r e
items_ok-keep_text n (some (some v)) without with r text h k e =
    let (t, same, bound) = text v refl in
    items_ok-cons n v with r (ap scalar_ok (sym same) ∙ bound) k e

pub items_ok-filter_items :
    (n : ℕ) (vs r : Elems) → filter_items n vs ≡ some r → items_ok n r ≡ true
unfolding filter_items
items_ok-filter_items zero vs r h = ap (items_ok 0) (sym (some-injective _ _ h))
items_ok-filter_items (suc n) no_items r h = ap (items_ok (suc n)) (sym (some-injective _ _ h))
items_ok-filter_items (suc n) (item (boolean b) vs) r h =
    items_ok-cons n (boolean b) _ r refl (items_ok-filter_items n vs) h
items_ok-filter_items (suc n) (item (number z) vs) r h =
    items_ok-cons n (number z) _ r refl (items_ok-filter_items n vs) h
items_ok-filter_items (suc n) (item (decimal d) vs) r h =
    items_ok-cons n (decimal d) _ r refl (items_ok-filter_items n vs) h
items_ok-filter_items (suc n) (item (string s) vs) r h =
    items_ok-keep_text n (filter_text 80 s) (filter_items (suc n) vs) (filter_items n vs) r
      (filter_text-scalar 80 s) (items_ok-filter_items (suc n) vs) (items_ok-filter_items n vs) h
items_ok-filter_items (suc n) (item null vs) r h = items_ok-filter_items (suc n) vs r h
items_ok-filter_items (suc n) (item (array _) vs) r h = items_ok-filter_items (suc n) vs r h
items_ok-filter_items (suc n) (item (object _) vs) r h = items_ok-filter_items (suc n) vs r h
