-- ===== src/CrawlPolicy/Laws.antt =====
-- `Budget.Validate` of internal/crawlpolicy/budget.go against a description of its own.
use get_magnet.Common.{
  ℕ, ◌≤◌, ◌≡◌, refl, sym, ◌∙◌, ◌≢◌, ◌↔◌, inl, inr, Bool, true, false, not, ◌&&◌, String, str_eq,
  str_append, eq_iff, List, [], ◌∷◌, length, All, All-map, All-map_both, Bool-cases, arith, Result,
  ok, err, guard, ◌>>◌, chains, if◌then◌else◌,
}
use get_magnet.CrawlPolicy.{
  Urls, Budget, BudgetError, bad_domain, check_range, check_ranges, contains, is_exact_host,
  parse_host, check_domains, allows, validate,
}

abbrev Between : ℕ → ℕ → ℕ → Type 0
Between low n high = (low ≤ n) × (n ≤ high)

-- The numbers of a budget that may be used.
pub record IsInRange (b : Budget) : Type 0 where
  pub discovered : Between 1 b.max_discovered_per_page 1000
  pub tasks : Between 1 b.max_tasks 10000
  pub pages : Between 1 b.max_pages 10000
  pub depth : Between 1 b.max_depth 1000
  pub duration : Between 1 b.max_duration_seconds 86400
  pub domains : Between 1 b.max_domains 32

-- No name twice.
abbrev Unrepeated : List String → Type 0
Unrepeated [] = Unit {0}
Unrepeated (s ∷ ss) = All (λ t. t ≢ s) ss × Unrepeated ss

check_range-within :
    (name : String) (value most : ℕ) → check_range name value most ≡ ok tt → Between 1 value most
unfolding check_range chains
check_range-within name value most h = ground arith

within-check_range :
    (name : String) (value most : ℕ) → Between 1 value most → check_range name value most ≡ ok tt
unfolding check_range chains
within-check_range name value most h = ground (arith, h)

-- A chain of checks succeeds if and only if all of them do.
>>-ok : (m k : Result BudgetError (Unit {0})) → ((m >> k) ≡ ok tt) ↔ ((m ≡ ok tt) × (k ≡ ok tt))
unfolding chains
>>-ok (ok u) k = (λ h. (refl, h), λ h. h.1)
>>-ok (err e) k = (λ h. (h, cc), λ h. h.0)

guard-ok : (b : Bool) (e : BudgetError) → (guard b e ≡ ok tt) ↔ (b ≡ true)
unfolding chains
guard-ok true e = (λ h. refl, λ h. refl)
guard-ok false e = (λ h. cc, λ h. cc)

check_ranges_iff : (b : Budget) → (check_ranges b ≡ ok tt) ↔ IsInRange b
unfolding check_ranges
check_ranges_iff b = (
  λ h.
      let h₁ = (>>-ok _ _).0 h in
      let h₂ = (>>-ok _ _).0 h₁.1 in
      let h₃ = (>>-ok _ _).0 h₂.1 in
      let h₄ = (>>-ok _ _).0 h₃.1 in
      let h₅ = (>>-ok _ _).0 h₄.1 in
      record {
        discovered = check_range-within _ _ _ h₁.0;
        tasks = check_range-within _ _ _ h₂.0;
        pages = check_range-within _ _ _ h₃.0;
        depth = check_range-within _ _ _ h₄.0;
        duration = check_range-within _ _ _ h₅.0;
        domains = check_range-within _ _ _ h₅.1;
      },
  λ r. (>>-ok _ _).1 (
    within-check_range _ _ _ r.discovered,
    (>>-ok _ _).1 (
      within-check_range _ _ _ r.tasks,
      (>>-ok _ _).1 (
        within-check_range _ _ _ r.pages,
        (>>-ok _ _).1 (
          within-check_range _ _ _ r.depth,
          (>>-ok _ _).1 (within-check_range _ _ _ r.duration, within-check_range _ _ _ r.domains),
        ),
      ),
    ),
  ),
)

contains_iff : (s : String) (ss : List String) → (contains s ss ≡ false) ↔ All (λ t. t ≢ s) ss
unfolding contains
contains_iff s [] = (λ h. tt, λ h. refl)
contains_iff s (t ∷ ss) = elim (Bool-cases (str_eq t s)) [
  | inl same ↦ (λ h. absurd (ground (arith, same, h)), λ h. absurd (h.0 ((eq_iff t s).0 same)))
  | inr other ↦ (
    λ h. (
      λ e. absurd (ground (arith, other, (eq_iff t s).1 e)),
      (contains_iff s ss).0 (ground (arith, other, h)),
    ),
    λ h. rw other ((contains_iff s ss).1 h.1),
  )
]

if_ok :
    (exact seen : Bool) (rest : Result BudgetError (Unit {0}))
    → ((if exact && not seen then rest else err bad_domain) ≡ ok tt)
      ↔ ((exact ≡ true) × ((seen ≡ false) × (rest ≡ ok tt)))
if_ok true true rest = (λ h. cc, λ h. cc)
if_ok true false rest = (λ h. (refl, (refl, h)), λ h. h.1.1)
if_ok false seen rest = (λ h. cc, λ h. cc)

module _ (urls : Urls) where
  abbrev pub is_exact : String → Bool
  is_exact host =
      is_exact_host urls host (urls.parse (str_append "https://" (parse_host urls host)))

  -- Exact names, none of them twice or among those seen.
  IsList : List String → List String → Type 0
  IsList seen hosts =
      All (λ h. (is_exact h ≡ true) × All (λ s. s ≢ h) seen) hosts × Unrepeated hosts

  check_domains-cons :
      (seen : List String) (host : String) (hosts : List String)
      → check_domains urls seen (host ∷ hosts) ≡ (
          if is_exact host && not (contains host seen)
          then check_domains urls (host ∷ seen) hosts
          else err bad_domain)
  unfolding check_domains
  check_domains-cons seen host hosts = refl

  IsList-cons :
      (seen : List String) (host : String) (hosts : List String)
      → is_exact host ≡ true
      → All (λ s. s ≢ host) seen
      → IsList (host ∷ seen) hosts
      → IsList seen (host ∷ hosts)
  unfolding IsList
  IsList-cons seen host hosts exact new l = (
    ((exact, new), All-map (λ k p. (p.0, p.1.1)) hosts l.0),
    (All-map (λ k p e. p.1.0 (sym e)) hosts l.0, l.1),
  )

  IsList-tail :
      (seen : List String) (host : String) (hosts : List String)
      → IsList seen (host ∷ hosts)
      → IsList (host ∷ seen) hosts
  unfolding IsList
  IsList-tail seen host hosts l =
      (All-map_both (λ k p q. (p.0, ((λ e. q (sym e)), p.1))) hosts l.0.1 l.1.0, l.1.1)

  IsList-head :
      (seen : List String) (host : String) (hosts : List String)
      → IsList seen (host ∷ hosts)
      → (is_exact host ≡ true) × All (λ s. s ≢ host) seen
  unfolding IsList
  IsList-head seen host hosts l = l.0.0

  check_domains-none : (seen : List String) → (check_domains urls seen [] ≡ ok tt) ↔ IsList seen []
  unfolding check_domains IsList
  check_domains-none seen = (λ h. (tt, tt), λ h. refl)

  check_domains_iff :
      (seen hosts : List String) → (check_domains urls seen hosts ≡ ok tt) ↔ IsList seen hosts
  check_domains_iff seen [] = check_domains-none seen
  check_domains_iff seen (host ∷ hosts) =
      let rest = check_domains_iff (host ∷ seen) hosts in
      (
        λ h.
            let parts =
              (if_ok (is_exact host) (contains host seen) _).0
                (sym (check_domains-cons seen host hosts) ∙ h) in
            IsList-cons seen host hosts parts.0 ((contains_iff host seen).0 parts.1.0)
              (rest.0 parts.1.1),
        λ l.
            let head = IsList-head seen host hosts l in
            check_domains-cons seen host hosts
            ∙ (if_ok (is_exact host) (contains host seen) _).1 (
              head.0,
              ((contains_iff host seen).1 head.1, rest.1 (IsList-tail seen host hosts l)),
            ),
      )

  -- What makes a budget good for an entry URL.
  pub record IsValid (b : Budget) (entry_url : String) : Type 0 where
    pub numbers : IsInRange b
    pub listed : Between 1 (length b.allowed_domains) 32
    pub exact : All (λ h. is_exact h ≡ true) b.allowed_domains
    pub unrepeated : Unrepeated b.allowed_domains
    pub entry : allows urls b entry_url ≡ true

  -- A budget passes `Validate` exactly if its numbers are in range, it lists one to 32 exact
  -- hostnames, none twice, and it allows the entry URL.
  pub validate_iff :
      (b : Budget) (entry_url : String) → (validate urls b entry_url ≡ ok tt) ↔ IsValid b entry_url
  unfolding validate IsList
  validate_iff b entry_url = (
    λ h.
        let h₁ = (>>-ok _ _).0 h in
        let h₂ = (>>-ok _ _).0 h₁.1 in
        let h₃ = (>>-ok _ _).0 h₂.1 in
        let domains = (check_domains_iff [] b.allowed_domains).0 h₃.0 in
        let listed = (guard-ok _ _).0 h₂.0 in
        record {
          numbers = (check_ranges_iff b).0 h₁.0;
          listed = ground (arith, listed);
          exact = All-map (λ k p. p.0) b.allowed_domains domains.0;
          unrepeated = domains.1;
          entry = (guard-ok _ _).0 h₃.1;
        },
    λ v. (>>-ok _ _).1 (
      (check_ranges_iff b).1 v.numbers,
      (>>-ok _ _).1 (
        (guard-ok _ _).1 (ground (arith, v.listed)),
        (>>-ok _ _).1 (
          (check_domains_iff [] b.allowed_domains).1
              (All-map (λ k p. (p, tt)) b.allowed_domains v.exact, v.unrepeated),
          (guard-ok _ _).1 v.entry,
        ),
      ),
    ),
  )
