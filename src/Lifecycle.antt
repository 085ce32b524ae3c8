-- ===== src/Lifecycle.antt =====
-- src/orchestrator/lifecycle.rs: the statuses of a media generation, their transition matrix, their
-- order, and their two outside representations (protobuf numbers and database strings).
pub mod Matrix
pub mod Paths
pub mod Wire
use klass_mobile_backend.Prelude.{
  ℕ, zero, suc, String, Bool, true, false, Option, none, some, List, [], ◌∷◌, ltb, ◌==◌, str_eq,
  if◌then◌else◌,
}
use klass_mobile_backend.Prelude.Int.{ℤ, pos}

pub data MediaGenerationStatus : Type 0 where
  queued interpreting classified generating uploading publishing : MediaGenerationStatus
  completed failed cancelled : MediaGenerationStatus

abbrev pub all : List MediaGenerationStatus
all =
    queued ∷ interpreting ∷ classified ∷ generating ∷ uploading ∷ publishing ∷ completed ∷ failed
    ∷ cancelled ∷ []

abbrev pub minimum : List MediaGenerationStatus
minimum =
    queued ∷ interpreting ∷ classified ∷ generating ∷ uploading ∷ publishing ∷ completed ∷ failed
    ∷ []

abbrev pub terminal : List MediaGenerationStatus
terminal = completed ∷ failed ∷ cancelled ∷ []

unfoldable pub is_terminal : MediaGenerationStatus → Bool
is_terminal completed = true
is_terminal failed = true
is_terminal cancelled = true
is_terminal _ = false

unfoldable pub can_transition : MediaGenerationStatus → MediaGenerationStatus → Bool
can_transition queued interpreting = true
can_transition queued failed = true
can_transition queued cancelled = true
can_transition interpreting classified = true
can_transition interpreting failed = true
can_transition interpreting cancelled = true
can_transition classified generating = true
can_transition classified failed = true
can_transition classified cancelled = true
can_transition generating uploading = true
can_transition generating failed = true
can_transition generating cancelled = true
can_transition uploading publishing = true
can_transition uploading failed = true
can_transition uploading cancelled = true
can_transition publishing completed = true
can_transition publishing failed = true
can_transition _ _ = false

unfoldable pub next_statuses : MediaGenerationStatus → List MediaGenerationStatus
next_statuses queued = interpreting ∷ failed ∷ cancelled ∷ []
next_statuses interpreting = classified ∷ failed ∷ cancelled ∷ []
next_statuses classified = generating ∷ failed ∷ cancelled ∷ []
next_statuses generating = uploading ∷ failed ∷ cancelled ∷ []
next_statuses uploading = publishing ∷ failed ∷ cancelled ∷ []
next_statuses publishing = completed ∷ failed ∷ []
next_statuses _ = []

unfoldable pub retry_behavior : MediaGenerationStatus → String
retry_behavior queued = "requeue_pending_job"
retry_behavior interpreting = "resume_current_step"
retry_behavior classified = "continue_to_next_step"
retry_behavior generating = "resume_current_step"
retry_behavior uploading = "resume_current_step"
retry_behavior publishing = "resume_current_step"
retry_behavior completed = "forbidden"
retry_behavior failed = "restart_from_interpreting"
retry_behavior cancelled = "manual_requeue_only"

unfoldable pub order_index : MediaGenerationStatus → ℕ
order_index queued = 0
order_index interpreting = 1
order_index classified = 2
order_index generating = 3
order_index uploading = 4
order_index publishing = 5
order_index completed = 6
order_index failed = 7
order_index cancelled = 8

unfoldable pub from_proto_value : ℤ → Option MediaGenerationStatus
from_proto_value (pos (suc zero)) = some queued
from_proto_value (pos (suc (suc zero))) = some interpreting
from_proto_value (pos (suc (suc (suc zero)))) = some classified
from_proto_value (pos (suc (suc (suc (suc zero))))) = some generating
from_proto_value (pos (suc (suc (suc (suc (suc zero)))))) = some uploading
from_proto_value (pos (suc (suc (suc (suc (suc (suc zero))))))) = some publishing
from_proto_value (pos (suc (suc (suc (suc (suc (suc (suc zero)))))))) = some completed
from_proto_value (pos (suc (suc (suc (suc (suc (suc (suc (suc zero))))))))) = some failed
from_proto_value (pos (suc (suc (suc (suc (suc (suc (suc (suc (suc zero)))))))))) = some cancelled
from_proto_value _ = none

unfoldable pub to_proto_value : MediaGenerationStatus → ℤ
to_proto_value queued = pos 1
to_proto_value interpreting = pos 2
to_proto_value classified = pos 3
to_proto_value generating = pos 4
to_proto_value uploading = pos 5
to_proto_value publishing = pos 6
to_proto_value completed = pos 7
to_proto_value failed = pos 8
to_proto_value cancelled = pos 9

unfoldable pub from_str : String → Option MediaGenerationStatus
from_str s =
    if str_eq s "queued"
    then some queued
    else if str_eq s "interpreting"
    then some interpreting
    else if str_eq s "classified"
    then some classified
    else if str_eq s "generating"
    then some generating
    else if str_eq s "uploading"
    then some uploading
    else if str_eq s "publishing"
    then some publishing
    else if str_eq s "completed"
    then some completed
    else if str_eq s "failed"
    then some failed
    else if str_eq s "cancelled"
    then some cancelled
    else none

unfoldable pub as_str : MediaGenerationStatus → String
as_str queued = "queued"
as_str interpreting = "interpreting"
as_str classified = "classified"
as_str generating = "generating"
as_str uploading = "uploading"
as_str publishing = "publishing"
as_str completed = "completed"
as_str failed = "failed"
as_str cancelled = "cancelled"

unfoldable pub status_before : MediaGenerationStatus → MediaGenerationStatus → Bool
unfolding is_terminal order_index
status_before s checkpoint =
    if is_terminal s then false else ltb (order_index s) (order_index checkpoint)

-- The implementation of the trait for `Option`: a status not yet set is before every checkpoint.
unfoldable pub option_status_before : Option MediaGenerationStatus → MediaGenerationStatus → Bool
unfolding status_before
option_status_before (some status) checkpoint = status_before status checkpoint
option_status_before none checkpoint = true

-- The derived `PartialEq`. The discriminants are distinct, so it compares them.
unfoldable pub status_eq : MediaGenerationStatus → MediaGenerationStatus → Bool
unfolding order_index
status_eq s t = order_index s == order_index t
