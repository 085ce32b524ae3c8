-- ===== src/Json/Objects.antt =====
-- Writes to objects, which never panic.
use mathlib.Core.Path.{subst}
use mathlib.Core.Option.{some-injective, none-ne-some}
use klass_mobile_backend.Prelude.{
  ◌≡◌, refl, sym, ap, ◌∙◌, String, Option, some, Option-cases, inl, inr,
}
use klass_mobile_backend.Json.{Json, Props, object, get, set, insert, update, update_found, ◌>>=◌}
use klass_mobile_backend.Json.Members.{get-set_same}

abbrev pub IsObject : Json → Type 0
IsObject v = (ps : Props) × (v ≡ object ps)

pub IsObject-set :
    (k : String) (v p : Json) → IsObject p → (q : Json) × (set k v p ≡ some q) × IsObject q
unfolding set
IsObject-set k v p (ps, e) = (object (insert k v ps), ap (set k v) e, (insert k v ps, refl))

-- An update of a member, where the update succeeds on the member's value with a result in R.
pub update-IsObject :
    (R : Json → Type 0) (k : String) (f : Json → Option Json) (p : Json)
    → IsObject p
    → ((w : Json) → get k p ≡ some w → (x : Json) × (f w ≡ some x) × R x)
    → (q : Json) × (update k f p ≡ some q) × IsObject q × ((x : Json) → get k q ≡ some x → R x)
unfolding update update_found
update-IsObject R k f p o h = elim (Option-cases (get k p)) [
  | inl n ↦ (p, ap (update_found k f p) n, o, λ x e. absurd (none-ne-some _ (sym n ∙ e)))
  | inr (w, e) ↦
      let (x, fx, r) = h w e in
      let (q, sq, oq) = IsObject-set k x p o in
      (
        q,
        ap (update_found k f p) e ∙ ap (λ m. m >>= λ y. set k y p) fx ∙ sq,
        oq,
        λ y g. subst R (some-injective _ _ (sym (get-set_same k x p q sq) ∙ g)) r,
      )
]
