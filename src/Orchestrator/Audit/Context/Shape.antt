-- ===== src/Orchestrator/Audit/Context/Shape.antt =====
-- The shape of a filtered context.
use mathlib.Core.Bool.{false≢true}
use mathlib.Core.Option.{none-ne-some, some-injective}
use klass_mobile_backend.Prelude.{
  ℕ, zero, suc, ◌+◌, ◌≡◌, refl, sym, ap, ◌∙◌, ◌⊎◌, inl, inr, String, Bool, true, false, ◌&&◌,
  Option, none, some, leb, ltb, str_eq, Bool-cases, if◌then◌else◌, arith,
}
use klass_mobile_backend.Prelude.Text.{len}
use klass_mobile_backend.Json.{
  Json, Elems, Props, null, boolean, number, decimal, string, array, object, no_items, item,
  no_members, member, insert, ◌>>=◌,
}
use klass_mobile_backend.Json.Members.{bind_some}
use klass_mobile_backend.Orchestrator.Audit.Context.Items.{
  scalar_ok, items_ok, filter_text-scalar, items_ok-filter_items,
}
use klass_mobile_backend.Orchestrator.Audit.Context.{
  filter_text, filter_items, insert_text, insert_items, insert_nested, object_or_null, close,
  filter_members, filter_context_inner, filter_context,
}

-- Scalars, arrays of at most eight scalars, and objects of such values, `levels` deep at most.
unfoldable mutual
  pub value_ok : ℕ → Json → Bool
  value_ok levels (array vs) = items_ok 8 vs
  value_ok (suc levels) (object ps) = members_ok levels ps
  value_ok zero (object ps) = false
  value_ok levels v = scalar_ok v

  pub members_ok : ℕ → Props → Bool
  members_ok levels no_members = true
  members_ok levels (member _ v ps) = value_ok levels v && members_ok levels ps

and_true : (a b : Bool) → a && b ≡ true → (a ≡ true) × (b ≡ true)
and_true a b h = ground arith

members_ok-insert :
    (levels : ℕ) (k : String) (v : Json) (ps : Props)
    → value_ok levels v ≡ true
    → members_ok levels ps ≡ true
    → members_ok levels (insert k v ps) ≡ true
unfolding members_ok insert
members_ok-insert levels k v no_members h r = rw (h, r) refl
members_ok-insert levels k v (member l w ps) h r =
    let (first, rest) = and_true (value_ok levels w) (members_ok levels ps) r in
    elim (Bool-cases (str_eq l k)) [
      | inl t ↦ rw t (rw (h, rest) refl)
      | inr f ↦ rw f (rw (first, members_ok-insert levels k v ps h rest) refl)
    ]

insert_text-ok :
    (levels : ℕ) (key : String) (o : Option Json) (acc : Props)
    → ((v : Json) → o ≡ some v → (t : String) × (string t ≡ v) × (leb (len t) 240 ≡ true))
    → members_ok levels acc ≡ true
    → members_ok levels (insert_text key o acc) ≡ true
unfolding insert_text value_ok
insert_text-ok levels key none acc text h = h
insert_text-ok levels key (some v) acc text h =
    let (t, same, bound) = text v refl in
    members_ok-insert levels key v acc (ap (value_ok levels) (sym same) ∙ text_ok levels t bound) h
  where
    text_ok : (n : ℕ) (t : String) → leb (len t) 240 ≡ true → value_ok n (string t) ≡ true
    text_ok zero t b = b
    text_ok (suc n) t b = b

insert_items-ok :
    (levels : ℕ) (key : String) (vs : Elems) (acc : Props)
    → items_ok 8 vs ≡ true
    → members_ok levels acc ≡ true
    → members_ok levels (insert_items key vs acc) ≡ true
unfolding insert_items value_ok
insert_items-ok levels key no_items acc h r = r
insert_items-ok levels key (item v vs) acc h r =
    members_ok-insert levels key (array (item v vs)) acc (array_ok levels h) r
  where
    array_ok : (n : ℕ) → items_ok 8 (item v vs) ≡ true → value_ok n (array (item v vs)) ≡ true
    array_ok zero b = b
    array_ok (suc n) b = b

-- What `close` gives: `null`, or at depth 1 at most an object of the loop's members.
abbrev IsClosed : ℕ → Option Props → Json → Type 0
IsClosed depth loop r =
    (null ≡ r) ⊎ ((ps : Props) × (object ps ≡ r) × (loop ≡ some ps) × (ltb 1 depth ≡ false))

IsClosed-close :
    (depth : ℕ) (loop : Option Props) (r : Json) → close depth loop ≡ some r → IsClosed depth loop r
unfolding close object_or_null
IsClosed-close depth loop r h = shut (ltb 1 depth) loop refl h
  where
    shut :
        (b : Bool) (o : Option Props)
        → ltb 1 depth ≡ b
        → (if b then some null else (o >>= λ ps. some (object_or_null ps))) ≡ some r
        → IsClosed depth o r
    shut true o e k = inl (some-injective _ _ k)
    shut false none e k = absurd (none-ne-some _ k)
    shut false (some no_members) e k = inl (some-injective _ _ k)
    shut false (some (member l v ps)) e k = inr (member l v ps, some-injective _ _ k, refl, e)

insert_nested-ok :
    (depth levels : ℕ) (key : String) (loop : Option Props) (nested : Json) (acc : Props)
    → depth + levels ≡ 1
    → IsClosed (suc depth) loop nested
    → ((k : ℕ) (ms : Props) → suc depth + k ≡ 1 → loop ≡ some ms → members_ok k ms ≡ true)
    → members_ok levels acc ≡ true
    → members_ok levels (insert_nested key nested acc) ≡ true
unfolding insert_nested value_ok
insert_nested-ok depth levels key loop nested acc d (inl e) inner h =
    ap (λ v. members_ok levels (insert_nested key v acc)) (sym e) ∙ h
insert_nested-ok depth zero key loop nested acc d (inr (ms, e, l, b)) inner h =
    absurd (ground (arith, d, b))
insert_nested-ok depth (suc k) key loop nested acc d (inr (ms, e, l, b)) inner h =
    let ok : members_ok k ms ≡ true = inner k ms (omega (arith, d)) l in
    ap (λ v. members_ok (suc k) (insert_nested key v acc)) (sym e)
    ∙ members_ok-insert (suc k) key (object ms) acc ok h

scalar_value : (levels : ℕ) (v : Json) → scalar_ok v ≡ true → value_ok levels v ≡ true
unfolding value_ok
scalar_value zero (boolean b) h = h
scalar_value (suc n) (boolean b) h = h
scalar_value zero (number z) h = h
scalar_value (suc n) (number z) h = h
scalar_value zero (decimal d) h = h
scalar_value (suc n) (decimal d) h = h
scalar_value zero (string s) h = h
scalar_value (suc n) (string s) h = h
scalar_value zero null h = h
scalar_value (suc n) null h = h
scalar_value levels (array vs) h = absurd (false≢true h)
scalar_value levels (object ps) h = absurd (false≢true h)

members_ok-filter_members :
    (depth levels : ℕ)
    → depth + levels ≡ 1
    → (ps acc r : Props) → members_ok levels acc ≡ true
    → filter_members depth ps acc ≡ some r
    → members_ok levels r ≡ true
unfolding filter_members members_ok
members_ok-filter_members depth levels d no_members acc r h e =
    ap (members_ok levels) (sym (some-injective _ _ e)) ∙ h
members_ok-filter_members depth levels d (member key null ps) acc r h e =
    members_ok-filter_members depth levels d ps acc r h e
members_ok-filter_members depth levels d (member key (boolean b) ps) acc r h e =
    members_ok-filter_members depth levels d ps _ r
      (members_ok-insert levels key (boolean b) acc (scalar_value levels (boolean b) refl) h) e
members_ok-filter_members depth levels d (member key (number z) ps) acc r h e =
    members_ok-filter_members depth levels d ps _ r
      (members_ok-insert levels key (number z) acc (scalar_value levels (number z) refl) h) e
members_ok-filter_members depth levels d (member key (decimal s) ps) acc r h e =
    members_ok-filter_members depth levels d ps _ r
      (members_ok-insert levels key (decimal s) acc (scalar_value levels (decimal s) refl) h) e
members_ok-filter_members depth levels d (member key (string s) ps) acc r h e =
    let (t, e1, e2) = bind_some (filter_text 160 s) _ r e in
    members_ok-filter_members depth levels d ps _ r
      (insert_text-ok levels key t acc (λ v k. filter_text-scalar 160 s v (e1 ∙ ap some k)) h) e2
members_ok-filter_members depth levels d (member key (array vs) ps) acc r h e =
    let (items, e1, e2) = bind_some (filter_items 8 vs) _ r e in
    members_ok-filter_members depth levels d ps _ r
      (insert_items-ok levels key items acc (items_ok-filter_items 8 vs items e1) h) e2
members_ok-filter_members depth levels d (member key (object ms) ps) acc r h e =
    let loop = filter_members (suc depth) ms no_members in
    let (nested, e1, e2) = bind_some (close (suc depth) loop) _ r e in
    members_ok-filter_members depth levels d ps _ r
      (insert_nested-ok depth levels key loop nested acc d
        (IsClosed-close (suc depth) loop nested e1)
        (λ k q dk lk. members_ok-filter_members (suc depth) k dk ms no_members q refl lk) h)
      e2

-- A filtered context is `null`, or an object that holds scalars, texts of at most 240 bytes, arrays
-- of at most eight of these, and objects of such members, whose own members are no objects.
pub filter_context_shape :
    (context : Option Json) (r : Json)
    → filter_context context ≡ some r
    → (null ≡ r) ⊎ ((ps : Props) × (object ps ≡ r) × (members_ok 1 ps ≡ true))
unfolding filter_context filter_context_inner members_ok
filter_context_shape none r h = inl (some-injective _ _ h)
filter_context_shape (some null) r h = inl (some-injective _ _ h)
filter_context_shape (some (boolean _)) r h = inl (some-injective _ _ h)
filter_context_shape (some (number _)) r h = inl (some-injective _ _ h)
filter_context_shape (some (decimal _)) r h = inl (some-injective _ _ h)
filter_context_shape (some (string _)) r h = inl (some-injective _ _ h)
filter_context_shape (some (array _)) r h = inl (some-injective _ _ h)
filter_context_shape (some (object ps)) r h =
    elim (IsClosed-close 0 (filter_members 0 ps no_members) r h) [
      | inl e ↦ inl e
      | inr (ms, e, l, _) ↦ inr (ms, e, members_ok-filter_members 0 1 refl ps no_members ms refl l)
    ]
