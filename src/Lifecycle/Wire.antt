-- ===== src/Lifecycle/Wire.antt =====
-- The protobuf numbers and the database strings of a status.
use klass_mobile_backend.Prelude.{
  String, ◌≡◌, ◌↔◌, refl, Option, none, some, List, [], ◌∷◌, arith, str_eq, eq_iff, if◌then◌else◌,
}
use klass_mobile_backend.Prelude.Int.{ℤ}
use klass_mobile_backend.Lifecycle.{
  MediaGenerationStatus, queued, all, from_proto_value, to_proto_value, from_str, as_str,
}

-- A number is read as a status exactly when it is the number that the status is written as.
pub from_proto_value_iff :
    (v : ℤ) (s : MediaGenerationStatus) → (from_proto_value v ≡ some s) ↔ (v ≡ to_proto_value s)
unfolding from_proto_value to_proto_value
from_proto_value_iff v s = ground arith

-- The chain of tests of `from_str`, as a search of a list.
first_named : String → List MediaGenerationStatus → Option MediaGenerationStatus
unfolding as_str
first_named t [] = none
first_named t (s ∷ ss) = if str_eq t (as_str s) then some s else first_named t ss

from_str-eq-first_named : (t : String) → from_str t ≡ first_named t all
unfolding from_str first_named
from_str-eq-first_named t = refl

first_named_sound :
    (t : String) (ss : List MediaGenerationStatus) (s : MediaGenerationStatus)
    → first_named t ss ≡ some s
    → t ≡ as_str s
unfolding first_named
first_named_sound t [] s h = ground arith
first_named_sound t (r ∷ ss) s h = ground (arith, eq_iff t (as_str r), first_named_sound t ss s)

pub from_str-as_str : (s : MediaGenerationStatus) → from_str (as_str s) ≡ some s
unfolding from_str as_str
from_str-as_str queued = refl
from_str-as_str _ = refl

-- A string is read as a status exactly when it is the string that the status is written as.
pub from_str_iff : (t : String) (s : MediaGenerationStatus) → (from_str t ≡ some s) ↔ (t ≡ as_str s)
from_str_iff t s = (
  λ h. first_named_sound t all s (rw (← from_str-eq-first_named t) h),
  λ e. rw e (from_str-as_str s),
)
