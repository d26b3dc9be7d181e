-- ===== src/Table/ResourceStatus.antt =====
-- The lifecycle of a resource: internal/db/table/magnet_status.go (ResourceStatus,
-- IsValidResourceStatus, CanTransitionResourceStatus).
pub mod Lifecycle
pub mod Examples
use get_magnet.Common.{str_eq, Bool, true, false, not, ◌||◌, String, if◌then◌else◌}

-- The six texts of the lifecycle; `unknown` is any other text.
pub data ResourceStatus : Type 0 where
  discovered collected validated invalid duplicate archived : ResourceStatus
  unknown : String → ResourceStatus

unfoldable pub is_valid_resource_status : ResourceStatus → Bool
is_valid_resource_status (unknown text) = false
is_valid_resource_status _ = true

-- `==` of two texts; a text of `unknown` is none of the six.
abbrev pub same_status : ResourceStatus → ResourceStatus → Bool
same_status discovered discovered = true
same_status collected collected = true
same_status validated validated = true
same_status invalid invalid = true
same_status duplicate duplicate = true
same_status archived archived = true
same_status (unknown s) (unknown t) = str_eq s t
same_status _ _ = false

unfoldable pub can_transition_resource_status : ResourceStatus → ResourceStatus → Bool
unfolding is_valid_resource_status
can_transition_resource_status from to =
    if not (is_valid_resource_status from) || not (is_valid_resource_status to)
    then false
    else if same_status from to || same_status to archived
    then true
    else (elim from [
      | discovered ↦ same_status to collected || same_status to invalid || same_status to duplicate
      | collected ↦ same_status to validated || same_status to invalid || same_status to duplicate
      | validated ↦ same_status to invalid || same_status to duplicate
      | invalid ↦ same_status to collected || same_status to validated
      | duplicate ↦ same_status to collected || same_status to validated
      | archived ↦ false
      | unknown text ↦ false
    ])
