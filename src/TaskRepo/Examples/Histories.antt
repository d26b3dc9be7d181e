-- ===== src/TaskRepo/Examples/Histories.antt =====
-- Histories of the example, with the theorems about claims and fences applied to them.
use get_magnet.Common.{
  suc, ◌+◌, ◌≤◌, ◌<◌, ◌≡◌, refl, true, false, none, some, first, select, update, exists, arith, ◌⊎◌,
  All,
}
use get_magnet.TaskRepo.Claims.{Claim, claim_next, claim_task, claim_row, lease_or_default}
use get_magnet.TaskRepo.Claiming.{IsHeld, claim_next-IsHeld}
use get_magnet.TaskRepo.Exclusion.{claim_next-Exclusive}
use get_magnet.TaskRepo.Rivals.{Rivals, idle, of_task}
use get_magnet.TaskRepo.Recovery.{recover_expired_task}
use get_magnet.TaskRepo.Examples.{
  one_page, claimed_row, child_row, start, start-IsConsistent, first_claim, second_claim,
}
use get_magnet.TaskRepo.Fencing.{IsRefused, superseded-IsRefused}
use get_magnet.TaskRepo.Evolution.{Evolves}
use get_magnet.TaskRepo.History.{Begun, Step-Evolves, Reach-Begun}
use get_magnet.TaskRepo.Progress.{claim_next-Oldest}
use get_magnet.TaskRepo.Invariant.{IsConsistent}
use get_magnet.TaskRepo.Steps.{
  Step, Reach, here, extend, claims, Reach-IsConsistent, Step-IsConsistent,
}
use get_magnet.TaskRepo.Store.{Db, claimable, find_task, find_attempt, start_run}

pub first_claimed : claim_next start 10 "w1" 60 "" start ≡ some first_claim
unfolding claim_next claim_row claimable first select start_run update
first_claimed = refl

second_claimed : claim_next first_claim.0 100 "w2" 60 "" first_claim.0 ≡ some second_claim
unfolding claim_next claim_row claimable first select start_run update
second_claimed = refl

two_claims : Reach one_page start second_claim.0
two_claims =
    extend (extend here (claims start 10 "w1" 60 "" first_claimed))
      (claims first_claim.0 100 "w2" 60 "" second_claimed)

Reach-IsConsistent_example : IsConsistent second_claim.0
Reach-IsConsistent_example = Reach-IsConsistent two_claims start-IsConsistent

second-IsConsistent : IsConsistent second_claim.0
second-IsConsistent = Reach-IsConsistent two_claims start-IsConsistent

twice-Begun : Begun 1 (suc first_claim.1.attempt.attempt_no) second_claim.0
unfolding claim_row update claimable first start_run
twice-Begun = (omega arith, ((λ e. omega arith), ((λ e. absurd (omega (arith, e))), tt)))

pub root_found : find_task 1 first_claim.0 ≡ some claimed_row
unfolding claim_row update claimable first start_run
root_found = refl

pub first_found : find_attempt 1 first_claim.0 ≡ some first_claim.1.attempt
unfolding claim_row update claimable first start_run
first_found = refl

-- The first worker is refused after the second claim.
superseded-IsRefused_example :
    IsRefused one_page 110 1 1 60 first_claim.1.attempt first_claim.0 second_claim.0
superseded-IsRefused_example =
    superseded-IsRefused {urls = one_page} 110 1 1 60 claimed_row first_claim.1.attempt
      first_claim.0 (omega arith) (omega arith) root_found first_found second-IsConsistent
      twice-Begun here

within_lease : 60 < 10 + lease_or_default 60
unfolding lease_or_default
within_lease = omega arith

until_lease : 60 ≤ 10 + lease_or_default 60
unfolding lease_or_default
until_lease = omega arith

-- While the first lease lasts, the second worker claims the child.
abbrev child_claim : Db × Claim
child_claim = claim_row 20 "w2" 60 "" child_row first_claim.0

child_claimed : claim_next first_claim.0 20 "w2" 60 "" first_claim.0 ≡ some child_claim
unfolding claim_next claim_row claimable first select start_run update
child_claimed = refl

soon : 20 ≤ 10 + lease_or_default 60
unfolding lease_or_default
soon = omega arith

rival_claim : Rivals 1 (10 + lease_or_default 60) first_claim.0 child_claim.0
rival_claim = Rivals.claims first_claim.0 20 "w2" 60 "" idle soon child_claimed

claim_next-Exclusive_example :
    (select (of_task 1) child_claim.0.tasks ≡ select (of_task 1) first_claim.0.tasks)
    × ((claim_task 60 "w2" 60 "" first_claim.1.task child_claim.0 ≡ none)
        × (recover_expired_task 60 1 child_claim.0 ≡ none))
unfolding claim_row
claim_next-Exclusive_example =
    claim_next-Exclusive start 10 "w1" 60 "" start 60 "w2" 60 "" start-IsConsistent first_claimed
      rival_claim until_lease

claim_next-IsHeld_example : IsHeld 60 first_claim.1 first_claim.0
claim_next-IsHeld_example =
    claim_next-IsHeld start 10 "w1" 60 "" start 60 start-IsConsistent first_claimed within_lease

some_claimable : exists (claimable 10 start.runs "") start.tasks ≡ true
unfolding exists claimable first
some_claimable = refl

claim_next-Oldest_example :
    (r : Db × Claim) × ((claim_next start 10 "w1" 60 "" start ≡ some r)
      × All
          (λ t. (claimable 10 start.runs "" t ≡ false) ⊎ (r.1.task.created_at ≤ t.created_at))
          start.tasks)
claim_next-Oldest_example = claim_next-Oldest 10 "w1" 60 "" start start-IsConsistent some_claimable

pub claim-Step : Step one_page start first_claim.0
claim-Step = claims start 10 "w1" 60 "" first_claimed

Step-Evolves_example : Evolves start first_claim.0
Step-Evolves_example = Step-Evolves start-IsConsistent claim-Step

pub first-IsConsistent : IsConsistent first_claim.0
first-IsConsistent = Step-IsConsistent claim-Step start-IsConsistent

once-Begun : Begun 1 1 first_claim.0
unfolding claim_row update claimable first start_run
once-Begun = (omega arith, ((λ e. omega arith), ((λ e. absurd (omega (arith, e))), tt)))

Reach-Begun_example : Begun 1 1 second_claim.0
Reach-Begun_example =
    Reach-Begun {urls = one_page} 1 1 first-IsConsistent
      (extend here (claims first_claim.0 100 "w2" 60 "" second_claimed)) once-Begun
