-- ===== src/Json/Members.antt =====
-- Reading a member after a write.
use mathlib.Core.Option.{some-injective, none-ne-some}
use klass_mobile_backend.Prelude.{
  ◌≡◌, refl, sym, ap, ◌∙◌, String, false, Option, none, some, str_eq, eq_iff, Bool-cases, inl, inr,
}
use klass_mobile_backend.Json.{
  Json, Props, null, boolean, number, decimal, string, array, object, no_members, member, find,
  insert, get, set, or_null, update, update_found, set_inner, ◌>>=◌,
}

pub find-insert_same : (k : String) (v : Json) (ps : Props) → find k (insert k v ps) ≡ some v
unfolding find insert
find-insert_same k v no_members = rw ((eq_iff k k).1 refl)
find-insert_same k v (member l w ps) = elim (Bool-cases (str_eq l k)) [
  | inl t ↦ rw t (rw t refl)
  | inr f ↦ rw f (rw f (find-insert_same k v ps))
]

pub find-insert_other :
    (k l : String) (v : Json) (ps : Props) → str_eq l k ≡ false → find k (insert l v ps) ≡ find k ps
unfolding find insert
find-insert_other k l v no_members h = rw h
find-insert_other k l v (member m w ps) h = elim (Bool-cases (str_eq m l)) [
  | inl t ↦ rw (t, (eq_iff m l).0 t, h)
  | inr f ↦ rw f (elim (Bool-cases (str_eq m k)) [
    | inl y ↦ rw y
    | inr n ↦ rw (n, find-insert_other k l v ps h)
  ])
]

-- What a write makes of a value that it does not panic on: an object with the member inserted.
abbrev IsWritten : String → Json → Json → Json → Type 0
IsWritten k v p q =
    (ps : Props) × (object (insert k v ps) ≡ q) × ((j : String) → get j p ≡ find j ps)

IsWritten-set : (k : String) (v p q : Json) → set k v p ≡ some q → IsWritten k v p q
unfolding set get find insert
IsWritten-set k v null q h = (no_members, some-injective _ _ h, λ j. refl)
IsWritten-set k v (object ps) q h = (ps, some-injective _ _ h, λ j. refl)
IsWritten-set k v (boolean b) q h = absurd (none-ne-some _ h)
IsWritten-set k v (number z) q h = absurd (none-ne-some _ h)
IsWritten-set k v (decimal s) q h = absurd (none-ne-some _ h)
IsWritten-set k v (string s) q h = absurd (none-ne-some _ h)
IsWritten-set k v (array vs) q h = absurd (none-ne-some _ h)

pub get-set_same : (k : String) (v p q : Json) → set k v p ≡ some q → get k q ≡ some v
unfolding get
get-set_same k v p q h =
    let (ps, e, _) = IsWritten-set k v p q h in ap (get k) (sym e) ∙ find-insert_same k v ps

pub get-set_other :
    (k l : String) (v p q : Json) → set l v p ≡ some q → str_eq l k ≡ false → get k q ≡ get k p
unfolding get
get-set_other k l v p q h ne =
    let (ps, e, r) = IsWritten-set l v p q h in
    ap (get k) (sym e) ∙ find-insert_other k l v ps ne ∙ sym (r k)

-- A value that came out of a chain came out of its first step.
pub bind_some {ℓ κ} :
    {A : Type ℓ} {B : Type κ} (o : Option A) (f : A → Option B) (b : B)
    → o >>= f ≡ some b
    → (a : A) × (o ≡ some a) × (f a ≡ some b)
bind_some none f b h = absurd (none-ne-some _ h)
bind_some (some a) f b h = (a, refl, h)

pub get-update_other :
    (k l : String) (f : Json → Option Json) (p q : Json)
    → update l f p ≡ some q
    → str_eq l k ≡ false
    → get k q ≡ get k p
unfolding update update_found
get-update_other k l f p q h ne = found (get l p) h
  where
    found : (o : Option Json) → update_found l f p o ≡ some q → get k q ≡ get k p
    found none e = ap (get k) (sym (some-injective _ _ e))
    found (some w) e =
        let (x, _, s) = bind_some (f w) (λ x. set l x p) q e in get-set_other k l x p q s ne

-- A nested write is a write of the outer member.
pub set-set_inner :
    (k l : String) (v p q : Json) → set_inner k l v p ≡ some q → (w : Json) × (set k w p ≡ some q)
unfolding set_inner
set-set_inner k l v null q h =
    let (w, _, s) = bind_some (set l v null) (λ w. set k w null) q h in (w, s)
set-set_inner k l v (object ps) q h =
    let (w, _, s) = bind_some (set l v (or_null (find k ps))) (λ w. set k w (object ps)) q h in
    (w, s)
set-set_inner k l v (boolean b) q h = absurd (none-ne-some _ h)
set-set_inner k l v (number z) q h = absurd (none-ne-some _ h)
set-set_inner k l v (decimal s) q h = absurd (none-ne-some _ h)
set-set_inner k l v (string s) q h = absurd (none-ne-some _ h)
set-set_inner k l v (array vs) q h = absurd (none-ne-some _ h)
