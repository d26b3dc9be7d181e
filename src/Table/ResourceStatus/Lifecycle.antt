-- ===== src/Table/ResourceStatus/Lifecycle.antt =====
-- Sequences of the transitions that internal/db/table/magnet_status.go permits.
use get_magnet.Common.{
  ◌≡◌, ◌↔◌, ◌⊎◌, inl, inr, refl, Bool, true, false, not, ◌&&◌, ◌||◌, Bool-cases, arith,
}
use get_magnet.Table.ResourceStatus.{
  ResourceStatus, discovered, collected, validated, invalid, duplicate, archived, unknown,
  same_status, is_valid_resource_status, can_transition_resource_status,
}

pub data Life (from : ResourceStatus) : ResourceStatus → Type 0 where
  stay : Life from from
  step :
      {via : ResourceStatus} (to : ResourceStatus)
      → Life from via
      → can_transition_resource_status via to ≡ true
      → Life from to

archived-step :
    (to : ResourceStatus) → can_transition_resource_status archived to ≡ true → to ≡ archived
unfolding can_transition_resource_status
archived-step to e = ground arith

discovered-step :
    (from : ResourceStatus)
    → can_transition_resource_status from discovered ≡ true
    → from ≡ discovered
unfolding can_transition_resource_status
discovered-step from e = ground arith

-- No permitted sequence of transitions leads out of archived.
pub archived-Life : {to : ResourceStatus} → Life archived to → to ≡ archived
archived-Life stay = refl
archived-Life (step to p e) = archived-step to (rw (archived-Life p) at e)

-- No permitted sequence of transitions leads back to discovered.
pub discovered-Life :
    {from to : ResourceStatus} → to ≡ discovered → Life from to → from ≡ discovered
discovered-Life h stay = h
discovered-Life h (step {via} to p e) = discovered-Life (discovered-step via (rw h at e)) p

valid-step :
    (from : ResourceStatus)
    → is_valid_resource_status from ≡ true
    → can_transition_resource_status from archived ≡ true
unfolding can_transition_resource_status
valid-step from v = ground arith

keeps-valid :
    (from to : ResourceStatus)
    → can_transition_resource_status from to ≡ true
    → is_valid_resource_status to ≡ true
unfolding can_transition_resource_status
keeps-valid from to e = ground arith

invalid-step :
    (from to : ResourceStatus)
    → is_valid_resource_status from ≡ false
    → can_transition_resource_status from to ≡ false
unfolding can_transition_resource_status
invalid-step from to v = ground arith

-- A status that is not one of the six goes nowhere.
invalid-Life :
    {from to : ResourceStatus} → is_valid_resource_status from ≡ false → Life from to → to ≡ from
invalid-Life v stay = refl
invalid-Life {from} v (step {via} to p e) =
    absurd (apart e (invalid-step via to (rw (invalid-Life v p) v)))
  where
    apart : {b : Bool} → b ≡ true → b ≡ false → ⊥
    apart e f = cc

Life-valid :
    {from to : ResourceStatus}
    → is_valid_resource_status from ≡ true
    → Life from to
    → is_valid_resource_status to ≡ true
Life-valid v stay = v
Life-valid v (step {via} to p e) = keeps-valid via to e

-- Where a resource can get: it stays, or it goes from a status that is not archived to one that is
-- not discovered.
abbrev pub can_become : ResourceStatus → ResourceStatus → Bool
can_become from to =
    is_valid_resource_status from
    && is_valid_resource_status to
    && (same_status from to || (not (same_status from archived) && not (same_status to discovered)))

collects :
    (from : ResourceStatus)
    → (is_valid_resource_status from && not (same_status from archived)) ≡ true
    → Life from collected
unfolding can_transition_resource_status
collects discovered h = step collected stay refl
collects collected h = stay
collects validated h = step collected (step invalid stay refl) refl
collects invalid h = step collected stay refl
collects duplicate h = step collected stay refl
collects archived h = absurd (ground arith)
collects (unknown text) h = absurd (ground arith)

from_collected :
    {from : ResourceStatus} (to : ResourceStatus)
    → (is_valid_resource_status to && not (same_status to discovered)) ≡ true
    → Life from collected
    → Life from to
unfolding can_transition_resource_status
from_collected discovered h l = absurd (ground arith)
from_collected collected h l = l
from_collected validated h l = step validated l refl
from_collected invalid h l = step invalid l refl
from_collected duplicate h l = step duplicate l refl
from_collected archived h l = step archived l refl
from_collected (unknown text) h l = absurd (ground arith)

same_known : (s t : ResourceStatus) → (is_valid_resource_status s && same_status s t) ≡ true → t ≡ s
unfolding is_valid_resource_status
same_known s t h = ground arith

becomes : (from to : ResourceStatus) → can_become from to ≡ true → Life from to
becomes from to h = elim (Bool-cases (is_valid_resource_status from && same_status from to)) [
  | inl same ↦ rw (same_known from to same) stay
  | inr other ↦
      from_collected to (ground (arith, h, other)) (collects from (ground (arith, h, other)))
]

same_refl : (s : ResourceStatus) → is_valid_resource_status s ≡ true → same_status s s ≡ true
unfolding is_valid_resource_status
same_refl s h = ground arith

kept_archived :
    (from to : ResourceStatus) → Life from to → same_status from archived ≡ true → to ≡ from
kept_archived archived to l h = archived-Life l
kept_archived discovered to l h = absurd (ground arith)
kept_archived collected to l h = absurd (ground arith)
kept_archived validated to l h = absurd (ground arith)
kept_archived invalid to l h = absurd (ground arith)
kept_archived duplicate to l h = absurd (ground arith)
kept_archived (unknown text) to l h = absurd (ground arith)

kept_discovered :
    (from to : ResourceStatus) → Life from to → same_status to discovered ≡ true → to ≡ from
kept_discovered from discovered l h = rw (discovered-Life refl l) refl
kept_discovered from collected l h = absurd (ground arith)
kept_discovered from validated l h = absurd (ground arith)
kept_discovered from invalid l h = absurd (ground arith)
kept_discovered from duplicate l h = absurd (ground arith)
kept_discovered from archived l h = absurd (ground arith)
kept_discovered from (unknown text) l h = absurd (ground arith)

unless_same : (from to : ResourceStatus) → Life from to → (to ≡ from) ⊎ (can_become from to ≡ true)
unless_same from to l = elim (Bool-cases (is_valid_resource_status from)) [
  | inr bad ↦ inl (invalid-Life bad l)
  | inl good ↦ elim (Bool-cases (same_status from archived)) [
    | inl end ↦ inl (kept_archived from to l end)
    | inr open_still ↦ elim (Bool-cases (same_status to discovered)) [
      | inl first ↦ inl (kept_discovered from to l first)
      | inr later ↦ inr (ground (arith, good, Life-valid good l, open_still, later))
    ]
  ]
]

-- Sequences of permitted transitions lead from a status exactly to itself and, if it is one of the
-- six texts and not archived, to each of the six but discovered: nothing leaves archived, nothing
-- comes back to discovered, and no other text is left or reached. No single transition leads from
-- discovered to validated.
pub Life-iff :
    (from to : ResourceStatus)
    → (Life from to ↔ ((to ≡ from) ⊎ (can_become from to ≡ true)))
      × ((same_status from discovered && can_transition_resource_status from validated) ≡ false)
unfolding can_transition_resource_status
Life-iff from to = ((unless_same from to, back), skips from)
  where
    back : (to ≡ from) ⊎ (can_become from to ≡ true) → Life from to
    back (inl same) = rw same stay
    back (inr h) = becomes from to h

    skips :
        (s : ResourceStatus)
        → (same_status s discovered && can_transition_resource_status s validated) ≡ false
    skips s = ground arith
