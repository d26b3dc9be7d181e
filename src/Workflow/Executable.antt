-- ===== src/Workflow/Executable.antt =====
-- `ValidateExecutable`, `ParseDefinition` and `ParseExecutableDefinition`
-- (internal/workflow/definition.go), and `ValidateRecordSchema` (internal/workflow/records.go): what
-- may be published and run.
use get_magnet.Common.{
  ℕ, leb, Bool, true, false, not, ◌&&◌, ◌||◌, Option, none, some, String, str_eq, List, [], ◌∷◌,
  if◌then◌else◌, Result, ok, err, guard, or_fail, ◌>>=◌, ◌>>◌, trim_space, is_blank, is_empty,
}
use get_magnet.CrawlPolicy as CrawlPolicy
use get_magnet.CrawlPolicy.{Urls, Budget}
use get_magnet.Json.{ℤ, pos, negsuc}
use get_magnet.Json.Objects.{lookup}
use get_magnet.Record.{Schema, Field}
use get_magnet.Workflow.{Engine, Node, is_some_value}
use get_magnet.Workflow.Capabilities.{is_http_url, executable_fetch, executable_node}
use get_magnet.Workflow.Definition.{
  Definition, DefinitionError, ListingOptions, FetchAction, one_of, validate, is_no_node,
}
use get_magnet.Workflow.Names.{produces_persistable_fields, output_names}

abbrev pub is_zero : ℤ → Bool
is_zero (pos n) = leb n 0
is_zero (negsuc n) = false

abbrev pub between : ℕ → ℕ → ℤ → Bool
between least most (pos n) = leb least n && leb n most
between least most (negsuc n) = false

abbrev pub no_credentials : List (String × String) → Bool
no_credentials [] = true
no_credentials (c ∷ cs) = false

abbrev pub has_kind : String → List Node → Bool
has_kind kind [] = false
has_kind kind (node ∷ nodes) = str_eq node.kind kind || has_kind kind nodes

abbrev pub navigates : List FetchAction → Bool
navigates [] = false
navigates (a ∷ actions) = str_eq a.kind "navigate" || navigates actions

abbrev pub first_kind : List Node → String
first_kind [] = ""
first_kind (node ∷ nodes) = node.kind

abbrev pub other_nodes : List Node → List Node
other_nodes [] = []
other_nodes (node ∷ nodes) = nodes

-- What a document that writes records is made of: one extract node, then transform and validate.
unfoldable pub check_records : Definition → Result DefinitionError (Unit {0})
check_records d = do
  guard (not (has_kind "discover" d.nodes || has_kind "script" d.nodes))
      DefinitionError.records_nodes
  guard (str_eq (first_kind d.nodes) "extract") DefinitionError.extract_first
  guard (not (has_kind "extract" (other_nodes d.nodes))) DefinitionError.extract_once

pub data SchemaError : Type 0 where
  not_executable_definition : DefinitionError → SchemaError
  records_required rules_undecodable : SchemaError
  required_output_missing unknown_output unique_output_missing : String → SchemaError

unfoldable pub check_required_outputs : List String → List Field → Result SchemaError (Unit {0})
unfolding one_of
check_required_outputs names [] = ok tt
check_required_outputs names (f ∷ fs) = do
  guard (not f.required || one_of names f.key) (required_output_missing f.key)
  check_required_outputs names fs

abbrev pub has_field : List Field → String → Bool
has_field [] name = false
has_field (f ∷ fs) name = str_eq f.key name || has_field fs name

unfoldable pub check_known_outputs : List Field → List String → Result SchemaError (Unit {0})
check_known_outputs fields [] = ok tt
check_known_outputs fields (name ∷ names) = do
  guard (has_field fields name) (unknown_output name)
  check_known_outputs fields names

unfoldable pub check_unique_outputs : List String → List String → Result SchemaError (Unit {0})
unfolding one_of
check_unique_outputs names [] = ok tt
check_unique_outputs names (key ∷ keys) = do
  guard (one_of names key) (unique_output_missing key)
  check_unique_outputs names keys

unfoldable pub executable_of : Result DefinitionError (Unit {0}) → Result SchemaError (Unit {0})
executable_of (ok u) = ok tt
executable_of (err e) = err (not_executable_definition e)

module _ (engine : Engine) (urls : Urls) where
  unfoldable pub selector_allowed : String → Bool
  selector_allowed s = is_blank s || engine.is_css (trim_space s)

  unfoldable pub check_listing :
      Definition → Option ListingOptions → Result DefinitionError (Unit {0})
  unfolding selector_allowed
  check_listing d none = ok tt
  check_listing d (some l) = do
    guard (str_eq d.persistence "records") DefinitionError.listing_persistence
    guard
        (not (is_blank l.detail_selector)
          && between 1 100 l.max_pages
          && between 1 10 l.max_empty_pages)
        DefinitionError.listing_options
    guard (selector_allowed l.detail_selector && selector_allowed l.next_selector)
        DefinitionError.listing_selector
    guard (not (navigates d.trigger.fetch.actions)) DefinitionError.listing_navigate

  unfoldable pub check_budget : Definition → Result DefinitionError (Unit {0})
  check_budget d =
      let b : Budget = elim d.budget [
        | none ↦ CrawlPolicy.defaults urls d.trigger.url
        | some own ↦ own
      ] in
      elim (CrawlPolicy.validate urls b d.trigger.url) [
        | ok u ↦ ok tt
        | err e ↦ err (DefinitionError.budget_refused e)
      ]

  -- The loop over the nodes.
  unfoldable pub check_executable_nodes : Bool → List Node → Result DefinitionError (Unit {0})
  unfolding one_of
  check_executable_nodes records [] = ok tt
  check_executable_nodes records (node ∷ nodes) = do
    guard (records || not (is_some_value (lookup "items_path" node.config)))
        DefinitionError.items_path_persistence
    guard (one_of ("extract" ∷ "discover" ∷ "transform" ∷ "validate" ∷ "script" ∷ []) node.kind)
        (DefinitionError.not_executed node.kind)
    guard (executable_node engine node) (DefinitionError.not_executable node.name)
    check_executable_nodes records nodes

  -- The checks of the trigger and of the parts that the worker does not run.
  unfoldable pub check_trigger : Definition → Result DefinitionError (Unit {0})
  check_trigger d = do
    guard (is_empty d.persistence || str_eq d.persistence "records")
        DefinitionError.persistence_kind
    guard (str_eq d.trigger.kind "manual") DefinitionError.trigger_not_manual
    guard
        (is_empty d.trigger.cron
          && is_empty d.trigger.input
          && is_zero d.trigger.concurrency
          && is_empty d.trigger.profile_id)
        DefinitionError.trigger_options
    guard (no_credentials d.credentials) DefinitionError.credentials_given
    guard (is_empty d.input_schema && is_empty d.output_schema) DefinitionError.schemas_given
    guard (is_no_node d.acquire) DefinitionError.acquire_given
    guard (not (is_no_node d.nodes)) DefinitionError.no_nodes
    guard (not (is_blank d.trigger.url)) DefinitionError.url_required
    guard (is_http_url engine d.trigger.url) DefinitionError.url_not_http

  unfoldable pub validate_executable : Definition → Result DefinitionError (Unit {0})
  unfolding check_trigger check_budget check_listing check_executable_nodes check_records
  validate_executable d = do
    let records = str_eq d.persistence "records"
    let role = if has_kind "discover" d.nodes then "detail" else "trigger"
    validate engine d
    check_trigger d
    check_budget d
    guard (executable_fetch engine d.trigger.fetch) DefinitionError.fetch_options
    check_listing d d.listing
    check_executable_nodes records d.nodes
    guard (has_kind "extract" d.nodes) DefinitionError.extract_required
    guard (records || produces_persistable_fields engine d role) DefinitionError.nothing_persistable
    if records then check_records d else ok tt

  -- `decode` and `decode_strict` are `json.Unmarshal` into a `Definition`, without and with
  -- `DisallowUnknownFields`.
  module _ (decode decode_strict : String → Option Definition) where
    unfoldable pub parse_definition : String → Result DefinitionError Definition
    parse_definition raw = do
      guard (not (is_blank raw)) DefinitionError.definition_empty
      d ← or_fail (decode raw) DefinitionError.bad_json
      validate engine d
      ok d

    unfoldable pub parse_executable_definition : String → Result DefinitionError Definition
    unfolding parse_definition validate_executable
    parse_executable_definition raw = do
      d ← parse_definition raw
      same ← or_fail (decode_strict raw) DefinitionError.unknown_structure
      validate_executable d
      ok d

  unfoldable pub validate_record_schema :
      Definition → Schema → String → Result SchemaError (Unit {0})
  unfolding validate_executable executable_of check_required_outputs check_known_outputs
      check_unique_outputs
  validate_record_schema d schema role = do
    executable_of (validate_executable d)
    guard (str_eq d.persistence "records") records_required
    names ← or_fail (output_names engine d.nodes role []) rules_undecodable
    check_required_outputs names schema.fields
    check_known_outputs schema.fields names
    check_unique_outputs names schema.unique_key_fields
