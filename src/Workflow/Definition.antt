-- ===== src/Workflow/Definition.antt =====
-- internal/workflow/definition.go: the workflow document and `Validate`, which every stored
-- document meets.
use text.Mathlib.Text.{starts_with}
use get_magnet.Common.{
  Bool, true, false, not, ◌&&◌, ◌||◌, Option, some, String, str_eq, List, [], ◌∷◌, ◌++◌,
  if◌then◌else◌, exists, Result, ok, err, guard, ◌>>◌, trim_space, is_blank, has_suffix,
}
use get_magnet.CrawlPolicy.{Budget, BudgetError}
use get_magnet.Json.{ℤ, pos, negsuc, Value, null, string, array, object, item, Object}
use get_magnet.Workflow.{Engine, Node, value_of}

pub record FetchAction : Type 0 where
  pub kind : String
  pub selector : String
  pub value : String
  pub timeout_ms : ℤ
  pub run_on : String

pub record FetchOptions : Type 0 where
  pub mode : String
  pub timeout_ms : ℤ
  pub actions : List FetchAction

pub record Trigger : Type 0 where
  pub kind : String
  pub cron : String
  pub url : String
  pub input : String
  pub profile_id : String
  pub concurrency : ℤ
  pub fetch : FetchOptions

pub record ListingOptions : Type 0 where
  pub detail_selector : String
  pub next_selector : String
  pub max_pages : ℤ
  pub max_empty_pages : ℤ

-- The schemas are raw texts, "" where they are missing.
pub record Definition : Type 0 where
  pub persistence : String
  pub trigger : Trigger
  pub listing : Option ListingOptions
  pub budget : Option Budget
  pub acquire : List Node
  pub nodes : List Node
  pub input_schema : String
  pub output_schema : String
  pub credentials : List (String × String)

-- `Validate` and `ValidateExecutable`, by the part of the document that is refused.
pub data DefinitionError : Type 0 where
  definition_empty bad_json unknown_structure trigger_type_required unsupported_trigger :
      DefinitionError
  negative_concurrency nodes_required node_name_required input_schema output_schema :
      DefinitionError
  duplicate_node unsupported_node bad_node bad_credential : String → DefinitionError
  persistence_kind trigger_not_manual trigger_options credentials_given schemas_given :
      DefinitionError
  acquire_given no_nodes url_required url_not_http fetch_options listing_persistence :
      DefinitionError
  listing_options listing_selector listing_navigate items_path_persistence : DefinitionError
  extract_required nothing_persistable records_nodes extract_first extract_once : DefinitionError
  not_executed not_executable : String → DefinitionError
  budget_refused : BudgetError → DefinitionError

unfoldable pub one_of : List String → String → Bool
one_of words s = exists (str_eq s) words

abbrev pub trigger_types : List String
trigger_types = "manual" ∷ "cron" ∷ "api" ∷ "webhook" ∷ []

abbrev pub node_types : List String
node_types =
    "trigger" ∷ "acquire" ∷ "navigate" ∷ "discover" ∷ "extract" ∷ "transform" ∷ "validate"
    ∷ "deduplicate" ∷ "script" ∷ "persist" ∷ "event" ∷ "list" ∷ "detail" ∷ "pagination" ∷ []

unfoldable pub run_on_fits : Value → Bool
run_on_fits null = true
run_on_fits (string s) = not (is_blank s)
run_on_fits (array (item v vs)) = true
run_on_fits _ = false

abbrev pub is_array : Value → Bool
is_array (array vs) = true
is_array _ = false

abbrev pub is_null : Value → Bool
is_null null = true
is_null _ = false

unfoldable pub config_text : Value → String
config_text (string s) = s
config_text _ = ""

abbrev pub is_negative : ℤ → Bool
is_negative (pos n) = false
is_negative (negsuc n) = true

abbrev pub is_no_node : List Node → Bool
is_no_node [] = true
is_no_node (node ∷ nodes) = false

-- An object, or nothing.
abbrev pub is_object : Option Value → Bool
is_object (some (object m)) = true
is_object _ = false

unfoldable pub is_secret : String × String → Bool
is_secret (name, ref) =
    not (is_blank name)
    && starts_with (trim_space ref) "${secret:"
    && has_suffix (trim_space ref) "}"

unfoldable pub check_credentials : List (String × String) → Result DefinitionError (Unit {0})
unfolding is_secret
check_credentials [] = ok tt
check_credentials (c ∷ cs) =
    let rest = check_credentials cs in if is_secret c then rest else err (bad_credential (c.0))

module _ (engine : Engine) where
  -- What a node's configuration needs, by its type.
  unfoldable pub config_fits : String → Object → Bool
  unfolding config_text
  config_fits kind config =
      let fields = value_of "fields" config in
      let operations = value_of "operations" config in
      if str_eq kind "extract"
      then is_array fields
      else if str_eq kind "discover" || str_eq kind "validate"
      then is_null fields || is_array fields
      else if str_eq kind "transform"
      then is_null operations || is_array operations
      else if str_eq kind "script"
      then not (is_blank (config_text (value_of "script" config)))
      else true

  unfoldable pub validate_node : Node → Bool
  unfolding run_on_fits config_fits
  validate_node node =
      run_on_fits (value_of "run_on" node.config)
      && config_fits (engine.lower (trim_space node.kind)) node.config

  -- The loop over the nodes, with the names seen.
  unfoldable pub check_nodes : List String → List Node → Result DefinitionError (Unit {0})
  unfolding validate_node one_of
  check_nodes seen [] = ok tt
  check_nodes seen (node ∷ nodes) = do
    guard (not (is_blank node.name)) node_name_required
    guard (not (one_of seen node.name)) (duplicate_node node.name)
    guard (one_of node_types (engine.lower node.kind)) (unsupported_node node.kind)
    guard (validate_node node) (bad_node node.name)
    check_nodes (node.name ∷ seen) nodes

  unfoldable pub schema_fits : String → Bool
  schema_fits raw =
      is_blank raw || str_eq (trim_space raw) "null" || is_object (engine.parse_json raw)

  unfoldable pub validate : Definition → Result DefinitionError (Unit {0})
  unfolding one_of check_nodes schema_fits check_credentials
  validate d = do
    guard (not (is_blank d.trigger.kind)) trigger_type_required
    guard (one_of trigger_types (engine.lower d.trigger.kind)) unsupported_trigger
    guard (not (is_negative d.trigger.concurrency)) negative_concurrency
    guard (not (is_no_node d.nodes && is_no_node d.acquire)) nodes_required
    check_nodes [] (d.acquire ++ d.nodes)
    guard (schema_fits d.input_schema) input_schema
    guard (schema_fits d.output_schema) output_schema
    check_credentials d.credentials
