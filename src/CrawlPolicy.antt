-- ===== src/CrawlPolicy.antt =====
-- internal/crawlpolicy/budget.go: a run's budget, its defaults, its validation and the test
-- whether a URL is allowed. The standard library's URL and text functions are the interface
-- `Urls`.
pub mod Laws
pub mod Definitions
pub mod Examples
use get_magnet.Common.{
  ℕ, ◌==◌, ltb, Bool, true, false, not, ◌&&◌, ◌||◌, Option, none, some, String, str_eq, str_append,
  List, [], ◌∷◌, length, if◌then◌else◌, Result, ok, err, guard, ◌>>◌,
}

-- What `url.Parse` gives of an absolute or relative URL, as far as the source reads it:
-- `u.Scheme`, `u.Hostname()`, `u.Port()`, `u.Path`, `u.RawQuery`, `u.Fragment`, and whether
-- `u.User` is set.
pub record Url : Type 0 where
  pub scheme : String
  pub hostname : String
  pub port : String
  pub path : String
  pub raw_query : String
  pub fragment : String
  pub has_user : Bool

-- `url.Parse`, `strings.ToLower`, `strings.EqualFold`, `net.ParseIP(s) != nil`,
-- `strings.Contains` and `strings.ContainsAny`.
pub record Urls : Type 0 where
  pub parse : String → Option Url
  pub to_lower : String → String
  pub equal_fold : String → String → Bool
  pub is_ip : String → Bool
  pub contains : String → String → Bool
  pub contains_any : String → String → Bool

pub record Budget : Type 0 where
  pub max_discovered_per_page : ℕ
  pub max_tasks : ℕ
  pub max_pages : ℕ
  pub max_depth : ℕ
  pub max_duration_seconds : ℕ
  pub max_domains : ℕ
  pub allowed_domains : List String

pub data BudgetError : Type 0 where
  -- The named field is outside its range.
  bad_field : String → BudgetError
  domain_count : BudgetError
  bad_domain : BudgetError
  entry_not_allowed : BudgetError

unfoldable pub check_range : String → ℕ → ℕ → Result BudgetError (Unit {0})
check_range name value most = guard (not (ltb value 1 || ltb most value)) (bad_field name)

-- The loop over the six numbers of `Validate`, in the order of its table.
unfoldable pub check_ranges : Budget → Result BudgetError (Unit {0})
unfolding check_range
check_ranges b = do
  check_range "max_discovered_per_page" b.max_discovered_per_page 1000
  check_range "max_tasks" b.max_tasks 10000
  check_range "max_pages" b.max_pages 10000
  check_range "max_depth" b.max_depth 1000
  check_range "max_duration_seconds" b.max_duration_seconds 86400
  check_range "max_domains" b.max_domains 32

unfoldable pub contains : String → List String → Bool
contains s [] = false
contains s (t ∷ ts) = str_eq t s || contains s ts

-- The members of a workflow definition that the budget is read from.
pub record PolicyDefinition : Type 0 where
  pub trigger_url : String
  pub budget : Option Budget

module _ (urls : Urls) where
  -- The hostname of the entry URL, if it has one, is the one domain.
  unfoldable pub defaults : String → Budget
  defaults entry_url = record {
    max_discovered_per_page = 100;
    max_tasks = 1000;
    max_pages = 500;
    max_depth = 100;
    max_duration_seconds = 1800;
    max_domains = 1;
    allowed_domains = elim (urls.parse entry_url) [
      | none ↦ []
      | some u ↦ if str_eq u.hostname "" then [] else urls.to_lower u.hostname ∷ []
    ];
  }

  -- An IPv6 literal is parsed in brackets.
  unfoldable pub parse_host : String → String
  parse_host host =
      if urls.is_ip host && urls.contains host ":"
      then str_append "[" (str_append host "]")
      else host

  unfoldable pub is_exact_host : String → Option Url → Bool
  is_exact_host host none = false
  is_exact_host host (some u) =
      str_eq u.hostname host
      && str_eq host (urls.to_lower host)
      && str_eq u.port ""
      && str_eq u.path ""
      && str_eq u.raw_query ""
      && str_eq u.fragment ""
      && not u.has_user
      && not (urls.contains_any host "/* \t\n")

  -- The loop over the domains, with the set of those seen.
  unfoldable pub check_domains : List String → List String → Result BudgetError (Unit {0})
  unfolding is_exact_host parse_host contains
  check_domains seen [] = ok tt
  check_domains seen (host ∷ hosts) =
      let rest = check_domains (host ∷ seen) hosts in
      if is_exact_host host (urls.parse (str_append "https://" (parse_host host)))
        && not (contains host seen)
      then rest
      else err bad_domain

  -- `u.Scheme` is http or https, with a hostname and no user.
  abbrev pub is_web : Url → Bool
  is_web u =
      (str_eq u.scheme "http" || str_eq u.scheme "https")
      && not (str_eq u.hostname "")
      && not u.has_user

  unfoldable pub lists_host : String → List String → Bool
  lists_host hostname [] = false
  lists_host hostname (host ∷ hosts) = urls.equal_fold hostname host || lists_host hostname hosts

  unfoldable pub allows : Budget → String → Bool
  unfolding lists_host
  allows b raw = elim (urls.parse raw) [
    | none ↦ false
    | some u ↦ is_web u && lists_host u.hostname b.allowed_domains
  ]

  unfoldable pub validate : Budget → String → Result BudgetError (Unit {0})
  unfolding check_ranges check_domains allows
  validate b entry_url = do
    check_ranges b
    guard (not (length b.allowed_domains == 0 || ltb 32 (length b.allowed_domains))) domain_count
    check_domains [] b.allowed_domains
    guard (allows b entry_url) entry_not_allowed

  unfoldable pub from_definition : PolicyDefinition → Result BudgetError Budget
  unfolding defaults
  from_definition d =
      let b : Budget = elim d.budget [ none ↦ defaults d.trigger_url | some own ↦ own ] in
      elim (validate b d.trigger_url) [ ok _ ↦ ok b | err e ↦ err e ]
