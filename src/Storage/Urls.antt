-- ===== src/Storage/Urls.antt =====
-- Public URLs and the keys that they are made of.
use mathlib.Core.Option
use klass_mobile_backend.Prelude.{◌≡◌, refl, ap, ◌∙◌, String, some, ==_iff}
use Prim.Native.Char.{code}
use Prim.Native.String.{[], ◌∷◌}
use klass_mobile_backend.Storage.{
  append, slash, trim_start_slashes, trim_end_slashes, strip_prefix, generate_public_url,
  extract_object_key,
}

strip_prefix-append : (p s : String) → strip_prefix p (append p s) ≡ some s
unfolding strip_prefix append
strip_prefix-append [] s = refl
strip_prefix-append (c ∷ p) s = rw ((==_iff (code c) (code c)).1 refl, strip_prefix-append p s) refl

-- The key is read back from the URL that was made of it, where it does not start with a slash,
-- whatever the base URL is, and with or without slashes at its end.
pub extract_object_key-generate_public_url :
    (base key : String)
    → trim_start_slashes key ≡ key
    → extract_object_key (generate_public_url base key) base ≡ some key
unfolding extract_object_key generate_public_url trim_start_slashes
extract_object_key-generate_public_url base key h =
    ap (Option.map trim_start_slashes) (strip_prefix-append (trim_end_slashes base) (slash ∷ key))
    ∙ ap some (trimmed ∙ h)
  where
    trimmed : trim_start_slashes (slash ∷ key) ≡ trim_start_slashes key
    trimmed = refl
