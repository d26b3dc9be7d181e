-- ===== src/Workflow/Listing.antt =====
-- Listings: `listingStop` and `FetchForRole` of internal/workflow/listing.go, and the page index and
-- the streak of empty pages that `expandListing` (internal/workflow/worker.go) hands from a list page
-- to the next.
use get_magnet.Common.{
  ap, subst, ℕ, zero, suc, ◌==◌, ◌<◌, ltb, leb, ◌≡◌, refl, Bool, true, ◌||◌, Option, none, some,
  String, str_eq, select, if◌then◌else◌, is_empty, sym, ◌∙◌, Option-cases, some-injective, inl, inr,
  arith,
}
use get_magnet.Json.{ℤ, pos, negsuc}
use get_magnet.Workflow.Definition.{Definition, ListingOptions, FetchOptions}

pub data Stop : Type 0 where
  no_next_page repeated_next_page max_pages consecutive_empty_pages : Stop

-- `n >= limit` of ints.
abbrev pub at_least : ℕ → ℤ → Bool
at_least n (pos limit) = leb limit n
at_least n (negsuc limit) = true

-- `n > limit` of ints.
abbrev pub exceeds : ℕ → ℤ → Bool
exceeds n (pos limit) = ltb limit n
exceeds n (negsuc limit) = true

-- `none` where the source returns "": the listing goes on.
unfoldable pub listing_stop : ListingOptions → ℕ → ℕ → String → Bool → Option Stop
listing_stop options page_index empty_streak next repeated =
    if is_empty next
    then some Stop.no_next_page
    else if repeated
    then some Stop.repeated_next_page
    else if at_least page_index options.max_pages
    then some Stop.max_pages
    else if at_least empty_streak options.max_empty_pages
    then some Stop.consecutive_empty_pages
    else none

-- The actions that run on a page role; the trigger page of a listing has the role of a list.
unfoldable pub fetch_for_role : Definition → String → FetchOptions
fetch_for_role d role =
    let wanted : String = elim d.listing [
      | none ↦ role
      | some l ↦ if str_eq role "trigger" then "list" else role
    ] in
    record {
      mode = d.trigger.fetch.mode;
      timeout_ms = d.trigger.fetch.timeout_ms;
      actions = select (λ a. is_empty a.run_on || str_eq a.run_on wanted) d.trigger.fetch.actions;
    }

-- A page of the listing: the trigger page, or a list page with the numbers of its input.
pub data ListPage : Type 0 where
  trigger_page : ListPage
  list_page : ℕ → ℕ → ListPage

-- The page's index; `none` is the error "invalid listing page index".
unfoldable pub page_index : ListingOptions → ListPage → Option ℕ
page_index options trigger_page = some 1
page_index options (list_page index streak) =
    if ltb index 2 || exceeds index options.max_pages then none else some index

-- The streak of pages without a new detail, this page included.
unfoldable pub empty_streak : ListPage → ℕ → ℕ
empty_streak trigger_page new_details = if new_details == 0 then 1 else 0
empty_streak (list_page index streak) new_details = if new_details == 0 then suc streak else 0

-- What a page hands on: an error, a stop, or the next list page.
pub data Expansion : Type 0 where
  invalid_index : Expansion
  stops : Stop → Expansion
  goes_on : ListPage → Expansion

unfoldable pub expand_page : ListingOptions → ListPage → ℕ → String → Bool → Expansion
unfolding page_index empty_streak listing_stop
expand_page options page new_details next repeated = elim (page_index options page) [
  | none ↦ invalid_index
  | some index ↦
      let streak = empty_streak page new_details in
      elim (listing_stop options index streak next repeated) [
        | some stop ↦ stops stop
        | none ↦ goes_on (list_page (suc index) streak)
      ]
]

-- The pages that follow one another, whatever the documents hold: each with its own number of new
-- details, next link and answer of the search for that link.
pub data Chain (options : ListingOptions) : ℕ → ListPage → Type 0 where
  starts : Chain options zero trigger_page
  follows :
      {n : ℕ} {page page' : ListPage} (new_details : ℕ) (next : String) (repeated : Bool)
      → Chain options n page
      → expand_page options page new_details next repeated ≡ goes_on page'
      → Chain options (suc n) page'

-- How many pages right before the last one gave no new detail, by the pages themselves.
unfoldable pub barren_pages :
    {options : ListingOptions} {n : ℕ} {page : ListPage} → Chain options n page → ℕ
barren_pages starts = 0
barren_pages (follows new_details next repeated c e) =
    let before = barren_pages c in if new_details == 0 then suc before else 0

unfoldable pub streak_of : ListPage → ℕ
streak_of trigger_page = 0
streak_of (list_page index streak) = streak

goes_on-below :
    (pages empties : ℕ) (options : ListingOptions) (index streak : ℕ) (next : String)
    (repeated : Bool)
    → options.max_pages ≡ pos pages
    → options.max_empty_pages ≡ pos empties
    → listing_stop options index streak next repeated ≡ none
    → (index < pages) × (streak < empties)
unfolding listing_stop
goes_on-below pages empties options index streak next repeated p q e = ground arith

next_page : (a b : ListPage) → ◌≡◌ {A = Expansion} (goes_on a) (goes_on b) → b ≡ a
next_page a b e = cc

index_fits :
    (options : ListingOptions) (pages n streak : ℕ)
    → options.max_pages ≡ pos pages
    → suc n < pages
    → page_index options (list_page (suc (suc n)) streak) ≡ some (suc (suc n))
unfolding page_index
index_fits options pages n streak p low = ground arith

goes_on-next :
    (options : ListingOptions) (page page' : ListPage) (new_details : ℕ) (next : String)
    (repeated : Bool)
    → expand_page options page new_details next repeated ≡ goes_on page'
    → (index : ℕ) × (page_index options page ≡ some index)
      × (listing_stop options index (empty_streak page new_details) next repeated ≡ none)
      × (page' ≡ list_page (suc index) (empty_streak page new_details))
unfolding expand_page
goes_on-next options page page' new_details next repeated e =
    elim (Option-cases (page_index options page)) [
      | inl invalid ↦ cc (rw (expand_page, invalid) at e)
      | inr (index, valid) ↦
          elim (Option-cases
            (listing_stop options index (empty_streak page new_details) next repeated)) [
              | inl goes ↦ (index, valid, goes, next_page _ _ (rw (expand_page, valid, goes) at e))
              | inr (stop, stopped) ↦ cc (rw (expand_page, valid, stopped) at e)
            ]
    ]

empty_streak-of_streak :
    (page : ListPage) (new_details : ℕ)
    → empty_streak page new_details ≡ (if new_details == 0 then suc (streak_of page) else 0)
unfolding empty_streak streak_of
empty_streak-of_streak trigger_page new_details = refl
empty_streak-of_streak (list_page index streak) new_details = refl

-- The streak that a page is given counts the barren pages before it.
barren_pages-streak :
    {options : ListingOptions} {n : ℕ} {page : ListPage} (c : Chain options n page)
    → streak_of page ≡ barren_pages c
unfolding streak_of barren_pages
barren_pages-streak starts = refl
barren_pages-streak {options}
      (follows {page = before} {page' = page} new_details next repeated c e) =
    let (index, valid, goes, same) = goes_on-next options before page new_details next repeated e in
    ap streak_of same
    ∙ empty_streak-of_streak before new_details
    ∙ ap (λ k. if new_details == 0 then suc k else 0) (barren_pages-streak c)

Chain-page_index :
    (options : ListingOptions) (pages empties n : ℕ) (page : ListPage)
    → options.max_pages ≡ pos pages
    → options.max_empty_pages ≡ pos empties
    → 0 < pages
    → 0 < empties
    → Chain options n page
    → (page_index options page ≡ some (suc n)) × (n < pages) × (streak_of page < empties)
unfolding page_index streak_of
Chain-page_index options pages empties zero trigger_page p q some_page some_empty starts =
    (refl, some_page, some_empty)
Chain-page_index options pages empties zero (list_page _ _) p q some_page some_empty c = elim c [ ]
Chain-page_index options pages empties (suc n) page p q some_page some_empty
      (follows {page = before} new_details next repeated c e) =
    let (index, valid, goes, same) = goes_on-next options before page new_details next repeated e in
    let (numbered, _, _) =
      Chain-page_index options pages empties n before p q some_page some_empty c in
    let is_next : index ≡ suc n = some-injective (sym valid ∙ numbered) in
    let (below, streak_below) =
      goes_on-below pages empties options index (empty_streak before new_details) next repeated p q
        goes in
    let low : suc n < pages = rw is_next at below in
    rw same (
      rw is_next
        (index_fits options pages n (empty_streak before new_details) p low, low, streak_below))

-- The pages of a listing are numbered from 1 and end: whatever the documents hold, the page after `n`
-- others has the index `n + 1`, which the page's check of the index accepts, and `n` is below
-- `max_pages`; and the pages right before it that followed each other without a new detail, counted
-- over the pages themselves, are fewer than `max_empty_pages`. Both limits are positive, as those of
-- a published workflow are.
pub Chain-IsWithin :
    (options : ListingOptions) (pages empties n : ℕ) (page : ListPage)
    → options.max_pages ≡ pos pages
    → options.max_empty_pages ≡ pos empties
    → 0 < pages
    → 0 < empties
    → (c : Chain options n page)
    → (page_index options page ≡ some (suc n)) × (n < pages) × (barren_pages c < empties)
Chain-IsWithin options pages empties n page p q some_page some_empty c =
    let (numbered, below, few) =
      Chain-page_index options pages empties n page p q some_page some_empty c in
    (numbered, below, subst (λ k. k < empties) (barren_pages-streak c) few)
