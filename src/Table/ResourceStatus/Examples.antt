-- ===== src/Table/ResourceStatus/Examples.antt =====
-- A resource that is collected, found invalid, collected again.
use get_magnet.Common.{◌≡◌, ◌↔◌, ◌⊎◌, ◌&&◌, true, false}
use get_magnet.Table.ResourceStatus.{
  discovered, collected, validated, same_status, can_transition_resource_status,
}
use get_magnet.Table.ResourceStatus.Lifecycle.{Life, can_become, Life-iff}

Life-iff_example :
    (Life discovered collected
      ↔ ((collected ≡ discovered) ⊎ (can_become discovered collected ≡ true)))
    × ((same_status discovered discovered && can_transition_resource_status discovered validated)
        ≡ false)
Life-iff_example = Life-iff discovered collected
