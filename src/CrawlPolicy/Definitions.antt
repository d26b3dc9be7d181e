-- ===== src/CrawlPolicy/Definitions.antt =====
-- `FromDefinition`, `Defaults` and `Budget.Allows` of internal/crawlpolicy/budget.go: the budget
-- that a definition gives is valid.
use get_magnet.Common.{
  ◌≡◌, refl, sym, inl, inr, true, false, Option, none, some, String, str_eq, [], ◌∷◌, ap,
  ok-injective, ◌⊎◌, arith, Result, ok, err,
}
use get_magnet.CrawlPolicy.{
  Url, Urls, Budget, BudgetError, is_web, lists_host, allows, validate, defaults, from_definition,
  PolicyDefinition,
}
use get_magnet.CrawlPolicy.Laws.{IsValid, is_exact, validate_iff}

module _ (urls : Urls) where
  checked :
      (c : Budget) (entry_url : String) (b : Budget)
      → ◌≡◌ {A = Result BudgetError Budget}
          (elim (validate urls c entry_url) [ ok _ ↦ ok c | err e ↦ err e ])
          (ok b)
      → IsValid urls b entry_url × (b ≡ c)
  checked c entry_url b e = go (validate urls c entry_url) refl e
    where
      go :
          (r : Result BudgetError (Unit {0}))
          → validate urls c entry_url ≡ r
          → ◌≡◌ {A = Result BudgetError Budget} (elim r [ ok _ ↦ ok c | err e ↦ err e ]) (ok b)
          → IsValid urls b entry_url × (b ≡ c)
      go (ok tt) valid e =
          let same : c ≡ b = ok-injective e in
          (rw (← same) ((validate_iff urls c entry_url).0 valid), sym same)
      go (err x) valid e = cc

  of_budget :
      (entry_url : String) (own : Option Budget) (b : Budget)
      → ◌≡◌ {A = Result BudgetError Budget}
          (let c : Budget = elim own [ none ↦ defaults urls entry_url | some c ↦ c ] in
            elim (validate urls c entry_url) [ ok _ ↦ ok c | err e ↦ err e ])
          (ok b)
      → IsValid urls b entry_url × ((own ≡ some b) ⊎ ((own ≡ none) × (b ≡ defaults urls entry_url)))
  of_budget entry_url none b e =
      let used = checked (defaults urls entry_url) entry_url b e in (used.0, inr (refl, used.1))
  of_budget entry_url (some own) b e =
      let used = checked own entry_url b e in (used.0, inl (ap some (sym used.1)))

  -- A budget that is read from a definition is valid, and it is the definition's own or the
  -- defaults for its entry URL.
  pub from_definition-IsValid :
      (d : PolicyDefinition) (b : Budget)
      → from_definition urls d ≡ ok b
      → IsValid urls b d.trigger_url
        × ((d.budget ≡ some b) ⊎ ((d.budget ≡ none) × (b ≡ defaults urls d.trigger_url)))
  unfolding from_definition
  from_definition-IsValid d b e = of_budget d.trigger_url d.budget b e

  listed-allows :
      (b : Budget) (raw : String) (u : Url)
      → urls.parse raw ≡ some u
      → is_web urls u ≡ true
      → lists_host urls u.hostname b.allowed_domains ≡ true
      → allows urls b raw ≡ true
  unfolding allows
  listed-allows b raw u parsed web listed = rw (allows, parsed) (ground (arith, web, listed))

  -- The defaults for a web URL whose host in lower case is an exact name that equals the host up
  -- to case are what a definition without a budget gives.
  pub from_definition-defaults :
      (entry_url : String) (u : Url)
      → urls.parse entry_url ≡ some u
      → is_web urls u ≡ true
      → is_exact urls (urls.to_lower u.hostname) ≡ true
      → urls.equal_fold u.hostname (urls.to_lower u.hostname) ≡ true
      → from_definition urls (record { trigger_url = entry_url; budget = none })
        ≡ ok (defaults urls entry_url)
  unfolding from_definition allows lists_host defaults
  from_definition-defaults entry_url u parsed web exact folds =
      let named : str_eq u.hostname "" ≡ false = ground (arith, web) in
      let list : (defaults urls entry_url).allowed_domains ≡ urls.to_lower u.hostname ∷ [] =
        rw (parsed, named) refl in
      let valid : IsValid urls (defaults urls entry_url) entry_url = record {
        numbers = record {
          discovered = (omega arith, omega arith);
          tasks = (omega arith, omega arith);
          pages = (omega arith, omega arith);
          depth = (omega arith, omega arith);
          duration = (omega arith, omega arith);
          domains = (omega arith, omega arith);
        };
        listed = rw list (omega arith, omega arith);
        exact = rw list (exact, tt);
        unrepeated = rw list (tt, tt);
        entry =
            listed-allows (defaults urls entry_url) entry_url u parsed web
              (rw (list, lists_host, folds) refl);
      } in
      rw ((validate_iff urls (defaults urls entry_url) entry_url).1 valid, from_definition) refl
