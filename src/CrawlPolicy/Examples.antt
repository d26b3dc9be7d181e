-- ===== src/CrawlPolicy/Examples.antt =====
-- The policy's theorems at a budget for one page.
use get_magnet.Common.{◌≡◌, ◌↔◌, ◌⊎◌, refl, none, some, ok, chains}
use get_magnet.CrawlPolicy.{
  PolicyDefinition, validate, defaults, from_definition, allows, lists_host, is_exact_host,
  parse_host, check_domains, check_ranges, check_range, contains,
}
use get_magnet.CrawlPolicy.Laws.{IsValid, validate_iff}
use get_magnet.CrawlPolicy.Definitions.{from_definition-IsValid}
use get_magnet.TaskRepo.Examples.{one_page, small_budget}

validate_iff_example :
    (validate one_page small_budget "https://a.com" ≡ ok tt)
    ↔ IsValid one_page small_budget "https://a.com"
validate_iff_example = validate_iff one_page small_budget "https://a.com"

abbrev own_budget : PolicyDefinition
own_budget = record { trigger_url = "https://a.com"; budget = some small_budget }

own_read : from_definition one_page own_budget ≡ ok small_budget
unfolding from_definition validate chains check_ranges check_range check_domains allows lists_host
    is_exact_host parse_host contains
own_read = refl

from_definition-IsValid_example :
    IsValid one_page small_budget "https://a.com"
    × ((own_budget.budget ≡ some small_budget)
        ⊎ ((own_budget.budget ≡ none) × (small_budget ≡ defaults one_page "https://a.com")))
from_definition-IsValid_example = from_definition-IsValid one_page own_budget small_budget own_read
