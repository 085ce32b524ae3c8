-- ===== src/Json.antt =====
-- JSON documents as serde_json hands them to the code: an object keeps its members in insertion
-- order (the feature `preserve_order` of Cargo.toml), a number is an integer or a decimal text.
-- A function that may panic returns `none` there.
pub mod Members
pub mod Objects
use klass_mobile_backend.Prelude.{
  ℕ, zero, suc, ◌-◌, String, Bool, true, false, Option, none, some, List, [], ◌∷◌, ltb, str_eq,
  if◌then◌else◌,
}
use klass_mobile_backend.Prelude.Int.{ℤ, eq_ℤ}
use klass_mobile_backend.Prelude.Word.{wrap64}

-- Infix, for `do` blocks of steps that may give nothing.
infixl 5 ◌>>=◌
abbrev pub ◌>>=◌ {ℓ κ} : {A : Type ℓ} {B : Type κ} → Option A → (A → Option B) → Option B
none >>= f = none
some a >>= f = f a

mutual
  pub data Json : Type 0 where
    null : Json
    boolean : Bool → Json
    number : ℤ → Json
    decimal : String → Json
    string : String → Json
    array : Elems → Json
    object : Props → Json

  pub data Elems : Type 0 where
    no_items : Elems
    item : Json → Elems → Elems

  pub data Props : Type 0 where
    no_members : Props
    member : String → Json → Props → Props

abbrev pub of_list : List Json → Elems
of_list [] = no_items
of_list (v ∷ vs) = item v (of_list vs)

abbrev pub to_list : Elems → List Json
to_list no_items = []
to_list (item v vs) = v ∷ to_list vs

abbrev pub of_members : List (String × Json) → Props
of_members [] = no_members
of_members (m ∷ ms) = member m.0 m.1 (of_members ms)

-- `Map::get`.
unfoldable pub find : String → Props → Option Json
find k no_members = none
find k (member l v ps) = if str_eq l k then some v else find k ps

-- `Map::insert`: an old member keeps its place.
unfoldable pub insert : String → Json → Props → Props
insert k v no_members = member k v no_members
insert k v (member l w ps) = if str_eq l k then member l v ps else member l w (insert k v ps)

-- `Value::get`.
unfoldable pub get : String → Json → Option Json
get k (object ps) = find k ps
get k _ = none

-- `value[key] = v`: `null` becomes an object first, and any other value but an object panics.
unfoldable pub set : String → Json → Json → Option Json
set k v null = some (object (member k v no_members))
set k v (object ps) = some (object (insert k v ps))
set k v _ = none

unfoldable pub or_null : Option Json → Json
or_null none = null
or_null (some v) = v

-- `value[key][inner] = v`: a missing member counts as `null`.
unfoldable pub set_inner : String → String → Json → Json → Option Json
set_inner k l v null = do inner ← set l v null; set k inner null
set_inner k l v (object ps) = do inner ← set l v (or_null (find k ps)); set k inner (object ps)
set_inner k l v _ = none

-- `if let Some(x) = value.get_mut(key) { .. }`, where the block may panic.
unfoldable pub update_found : String → (Json → Option Json) → Json → Option Json → Option Json
update_found k f v none = some v
update_found k f v (some w) = do x ← f w; set k x v

unfoldable pub update : String → (Json → Option Json) → Json → Option Json
update k f v = update_found k f v (get k v)

unfoldable pub as_str : Json → Option String
as_str (string s) = some s
as_str _ = none

unfoldable pub as_i64 : Json → Option ℤ
as_i64 (number z) = if eq_ℤ (wrap64 z) z then some z else none
as_i64 _ = none

-- The member's text, where the value has the member and it is a text.
unfoldable pub str_at : String → Json → Option String
str_at k v = do w ← get k v; as_str w

-- `pointer("/outer/inner")`.
unfoldable pub pointer2 : String → String → Json → Option Json
pointer2 k l v = do w ← get k v; get l w
