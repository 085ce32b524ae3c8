-- ===== src/Orchestrator/Audit/Context.antt =====
-- The filters of src/orchestrator/audit_trail.rs on the contexts that callers hand over.
pub mod Items
pub mod Shape
use klass_mobile_backend.Prelude.{
  ℕ, zero, suc, ◌-◌, String, ◌<>◌, Bool, true, false, Option, none, some, List, [], ◌∷◌, ltb,
  if◌then◌else◌,
}
use klass_mobile_backend.Prelude.Text.{trim, is_empty, len, slice_to}
use klass_mobile_backend.Json.{
  Json, Elems, Props, null, boolean, number, decimal, string, array, object, no_items, item,
  no_members, member, find, insert, ◌>>=◌,
}
use klass_mobile_backend.Orchestrator.Audit.{sanitize_message}

abbrev pub allowed_keys : List String
allowed_keys =
    "http_status" ∷ "config" ∷ "kind" ∷ "adapter_provider" ∷ "adapter_model"
    ∷ "adapter_primary_provider" ∷ "adapter_fallback_used" ∷ "adapter_fallback_reason" ∷ []

unfoldable pub insert_scalar : String → Option Json → Props → Props
insert_scalar key (some (number z)) safe = insert key (number z) safe
insert_scalar key (some (decimal d)) safe = insert key (decimal d) safe
insert_scalar key (some (boolean b)) safe = insert key (boolean b) safe
insert_scalar key (some (string s)) safe = insert key (string s) safe
insert_scalar key _ safe = safe

unfoldable pub keep_keys : List String → Props → Props → Props
keep_keys [] obj safe = safe
keep_keys (key ∷ keys) obj safe = keep_keys keys obj (insert_scalar key (find key obj) safe)

unfoldable pub safe_throwable_context : Option Json → Json
safe_throwable_context (some (object obj)) = object (keep_keys allowed_keys obj no_members)
safe_throwable_context _ = object no_members

-- A trimmed text of more than `limit` bytes is cut to three less, and three dots follow.
unfoldable pub truncate : ℕ → String → Option String
truncate limit trimmed =
    let cut = (do start ← slice_to (limit - 3) trimmed; some (start <> "...")) in
    if ltb limit (len trimmed) then cut else some trimmed

-- An empty text is left out (the inner `none`).
unfoldable pub filter_text : ℕ → String → Option (Option Json)
filter_text limit s =
    let kept = (do
      truncated ← truncate limit (trim s)
      message ← sanitize_message truncated
      some (some (string message))) in
    if is_empty (trim s) then some none else kept

unfoldable pub keep_text : Option (Option Json) → (without with : Option Elems) → Option Elems
keep_text none without with = none
keep_text (some none) without with = without
keep_text (some (some v)) without with = do rest ← with; some (item v rest)

-- The lazy chain of `filter_map`, `take(n)` and `collect`: nothing is looked at after n items.
unfoldable pub filter_items : ℕ → Elems → Option Elems
filter_items zero vs = some no_items
filter_items (suc n) no_items = some no_items
filter_items (suc n) (item (boolean b) vs) = do
  rest ← filter_items n vs
  some (item (boolean b) rest)
filter_items (suc n) (item (number z) vs) = do rest ← filter_items n vs; some (item (number z) rest)
filter_items (suc n) (item (decimal d) vs) = do
  rest ← filter_items n vs
  some (item (decimal d) rest)
filter_items (suc n) (item (string s) vs) =
    keep_text (filter_text 80 s) (filter_items (suc n) vs) (filter_items n vs)
filter_items (suc n) (item null vs) = filter_items (suc n) vs
filter_items (suc n) (item (array _) vs) = filter_items (suc n) vs
filter_items (suc n) (item (object _) vs) = filter_items (suc n) vs

unfoldable pub insert_text : String → Option Json → Props → Props
insert_text key none filtered = filtered
insert_text key (some v) filtered = insert key v filtered

unfoldable pub insert_items : String → Elems → Props → Props
insert_items key no_items filtered = filtered
insert_items key (item v vs) filtered = insert key (array (item v vs)) filtered

unfoldable pub insert_nested : String → Json → Props → Props
insert_nested key null filtered = filtered
insert_nested key v filtered = insert key v filtered

unfoldable pub object_or_null : Props → Json
object_or_null no_members = null
object_or_null (member k v ps) = object (member k v ps)

-- The start and the end of `filter_context_inner` on an object, around its loop.
unfoldable pub close : ℕ → Option Props → Option Json
close depth loop =
    let filled = (do filtered ← loop; some (object_or_null filtered)) in
    if ltb 1 depth then some null else filled

-- The loop over the members.
unfoldable pub filter_members : ℕ → Props → Props → Option Props
filter_members depth no_members filtered = some filtered
filter_members depth (member key null ps) filtered = filter_members depth ps filtered
filter_members depth (member key (boolean b) ps) filtered =
    filter_members depth ps (insert key (boolean b) filtered)
filter_members depth (member key (number z) ps) filtered =
    filter_members depth ps (insert key (number z) filtered)
filter_members depth (member key (decimal d) ps) filtered =
    filter_members depth ps (insert key (decimal d) filtered)
filter_members depth (member key (string s) ps) filtered = do
  text ← filter_text 160 s
  filter_members depth ps (insert_text key text filtered)
filter_members depth (member key (array vs) ps) filtered = do
  items ← filter_items 8 vs
  filter_members depth ps (insert_items key items filtered)
filter_members depth (member key (object ms) ps) filtered = do
  nested ← close (suc depth) (filter_members (suc depth) ms no_members)
  filter_members depth ps (insert_nested key nested filtered)

unfoldable pub filter_context_inner : Json → ℕ → Option Json
filter_context_inner (object map) depth = close depth (filter_members depth map no_members)
filter_context_inner _ depth = some null

unfoldable pub filter_context : Option Json → Option Json
filter_context none = some null
filter_context (some ctx) = filter_context_inner ctx 0
