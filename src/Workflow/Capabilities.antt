-- ===== src/Workflow/Capabilities.antt =====
-- internal/workflow/capabilities.go: what the worker executes of fetch options and of a node.
use get_magnet.Common.{
  ℕ, leb, ltb, length, Bool, true, false, not, ◌&&◌, ◌||◌, Option, none, some, String, str_eq, List,
  [], ◌∷◌, if◌then◌else◌, is_blank, is_empty,
}
use get_magnet.Json.{
  ℤ, pos, negsuc, Value, string, number, array, object, Items, no_items, item, members, Object,
  whole_float, other_float,
}
use get_magnet.Json.Objects.{lookup}
use get_magnet.Record.Integers.{parse_int64}
use get_magnet.Workflow.{Engine, FieldRule, Node, value_of}
use get_magnet.Workflow.Definition.{FetchAction, FetchOptions, one_of, config_text}
use get_magnet.Workflow.Extract.{Language}
use get_magnet.Workflow.JsonPath.{supported_path}
use text.Mathlib.Text.{starts_with}

-- An int between 0 and a limit, and one between the limit's negative and the limit.
abbrev pub up_to : ℕ → ℤ → Bool
up_to most (pos n) = leb n most
up_to most (negsuc n) = false

abbrev pub within : ℕ → Option ℤ → Bool
within most none = false
within most (some (pos n)) = leb n most
within most (some (negsuc n)) = ltb n most

-- `raw == "…"` of an interface and a string.
abbrev pub is_text : String → Value → Bool
is_text s (string t) = str_eq t s
is_text s _ = false

unfoldable pub keys_among : List String → Object → Bool
unfolding one_of
keys_among words [] = true
keys_among words ((k, v) ∷ m) = one_of words k && keys_among words m

-- The steps of `run_on`: a text, or a list of texts.
unfoldable pub steps_fit : List String → Items → Bool
unfolding one_of
steps_fit words no_items = true
steps_fit words (item (string s) vs) = one_of words s && steps_fit words vs
steps_fit words (item _ vs) = false

-- A discover node runs on the trigger only.
abbrev pub steps_of : String → List String
steps_of kind = if str_eq kind "discover" then "trigger" ∷ [] else "trigger" ∷ "detail" ∷ []

unfoldable pub executable_run_on : String → Option Value → Bool
unfolding steps_fit
executable_run_on kind none = true
executable_run_on kind (some (array vs)) = steps_fit (steps_of kind) vs
executable_run_on kind (some v) = steps_fit (steps_of kind) (item v no_items)

unfoldable pub allowed_keys : String → List String
allowed_keys kind =
    if str_eq kind "extract"
    then "fields" ∷ "content_type" ∷ "run_on" ∷ "items_path" ∷ []
    else if str_eq kind "discover"
    then "fields" ∷ "content_type" ∷ "run_on" ∷ "url_field" ∷ []
    else if str_eq kind "transform"
    then "operations" ∷ "run_on" ∷ []
    else if str_eq kind "validate"
    then "fields" ∷ "run_on" ∷ []
    else "script" ∷ "timeout_ms" ∷ "run_on" ∷ []

abbrev pub executable_node_types : List String
executable_node_types = "extract" ∷ "discover" ∷ "transform" ∷ "validate" ∷ "script" ∷ []

abbrev pub rule_keys : List String
rule_keys =
    "name" ∷ "selector" ∷ "selector_type" ∷ "attribute" ∷ "regex" ∷ "clean" ∷ "type" ∷ "required"
    ∷ "multiple" ∷ "default" ∷ []

abbrev pub value_types : List String
value_types =
    "" ∷ "string" ∷ "int" ∷ "integer" ∷ "float" ∷ "number" ∷ "bool" ∷ "boolean" ∷ "array" ∷ []

abbrev pub operation_keys : List String
operation_keys = "op" ∷ "field" ∷ "to" ∷ "separator" ∷ "value" ∷ []

-- The operations that need nothing but a field.
abbrev pub plain_operations : List String
plain_operations = "trim" ∷ "lower" ∷ "upper" ∷ "split" ∷ "join" ∷ "default" ∷ "set" ∷ "delete" ∷ []

unfoldable pub executable_operation : Object → Bool
unfolding keys_among one_of config_text
executable_operation op =
    let name = config_text (value_of "op" op) in
    keys_among operation_keys op
    && not (is_empty (config_text (value_of "field" op)))
    && (if str_eq name "rename"
        then not (is_empty (config_text (value_of "to" op)))
        else one_of plain_operations name)

unfoldable pub executable_operations : Items → Bool
unfolding executable_operation
executable_operations no_items = true
executable_operations (item (object m) vs) =
    executable_operation (members m) && executable_operations vs
executable_operations (item _ vs) = false

module _ (engine : Engine) where
  -- `validateHTTPURL`
  unfoldable pub is_http_url : String → Bool
  is_http_url raw = elim (engine.scheme_and_host raw) [
    | none ↦ false
    | some (scheme, host) ↦ not (is_empty host) && (str_eq scheme "http" || str_eq scheme "https")
  ]

  unfoldable pub executable_action : FetchAction → Bool
  unfolding is_http_url one_of
  executable_action a =
      one_of ("" ∷ "trigger" ∷ "list" ∷ "detail" ∷ []) a.run_on
      && up_to 60000 a.timeout_ms
      && (if str_eq a.kind "navigate"
          then is_http_url a.value
          else if one_of ("wait" ∷ "click" ∷ "input" ∷ []) a.kind
          then not (is_blank a.selector)
          else str_eq a.kind "scroll" && within 100000 (parse_int64 a.value))

  unfoldable pub executable_actions : List FetchAction → Bool
  unfolding executable_action
  executable_actions [] = true
  executable_actions (a ∷ actions) = executable_action a && executable_actions actions

  abbrev pub is_no_action : List FetchAction → Bool
  is_no_action [] = true
  is_no_action (a ∷ actions) = false

  -- `validateFetchOptions`
  unfoldable pub executable_fetch : FetchOptions → Bool
  unfolding executable_actions one_of
  executable_fetch o =
      one_of ("" ∷ "http" ∷ "browser" ∷ []) o.mode
      && up_to 120000 o.timeout_ms
      && (is_no_action o.actions || str_eq o.mode "browser")
      && leb (length o.actions) 32
      && executable_actions o.actions

  -- The language of a rule; a word that names none is refused.
  unfoldable pub rule_language : FieldRule → Option Language
  rule_language rule =
      let kind = engine.lower rule.selector_type in
      if is_empty kind
      then (if starts_with rule.selector "$" then some Language.json_path else some Language.css)
      else if str_eq kind "css"
      then some Language.css
      else if str_eq kind "xpath"
      then some Language.xpath
      else if str_eq kind "jsonpath" || str_eq kind "json_path"
      then some Language.json_path
      else none

  unfoldable pub selector_fits : Language → String → Bool
  unfolding supported_path
  selector_fits Language.css s = engine.is_css s
  selector_fits Language.xpath s = engine.is_xpath s
  selector_fits Language.json_path s = supported_path s

  abbrev pub is_json_language : Language → Bool
  is_json_language Language.json_path = true
  is_json_language _ = false

  -- JSON content wants JSONPath, and HTML content refuses it.
  unfoldable pub content_fits : String → Language → Bool
  content_fits content_type l =
      (not (str_eq content_type "json") || is_json_language l)
      && (not (str_eq content_type "html") || not (is_json_language l))

  abbrev pub compiles : String → Bool
  compiles pattern = elim (engine.compile pattern) [ none ↦ false | some re ↦ true ]

  unfoldable pub language_fits : String → FieldRule → Option Language → Bool
  unfolding selector_fits content_fits
  language_fits content_type rule none = false
  language_fits content_type rule (some l) =
      selector_fits l rule.selector && content_fits content_type l

  unfoldable pub executable_rule : String → FieldRule → Bool
  unfolding rule_language language_fits one_of
  executable_rule content_type rule =
      not (is_empty rule.name || is_empty rule.selector)
      && language_fits content_type rule (rule_language rule)
      && (is_empty rule.regex || compiles rule.regex)
      && one_of value_types (engine.lower rule.kind)
      && (not rule.multiple || is_empty rule.kind || str_eq rule.kind "array")
      && (is_empty rule.clean || str_eq rule.clean "whitespace")

  -- The loop over the rules and their raw objects, with the names seen.
  unfoldable pub executable_rules : String → List String → Items → List FieldRule → Bool
  unfolding executable_rule keys_among one_of
  executable_rules content_type seen (item (object m) vs) (rule ∷ rules) =
      keys_among rule_keys (members m)
      && not (one_of seen rule.name)
      && executable_rule content_type rule
      && executable_rules content_type (rule.name ∷ seen) vs rules
  executable_rules content_type seen vs [] = true
  executable_rules content_type seen vs (rule ∷ rules) = false

  abbrev pub names_rule : List FieldRule → String → Bool
  names_rule [] name = false
  names_rule (rule ∷ rules) name = str_eq rule.name name || names_rule rules name

  -- The field of a discover node that holds the links; it may be left out if there is one field.
  unfoldable pub url_field_fits : List FieldRule → Option Value → Bool
  url_field_fits rules (some (string s)) = names_rule rules s
  url_field_fits rules (some v) = false
  url_field_fits (rule ∷ []) none = true
  url_field_fits rules none = false

  abbrev pub rules_of : Option (List FieldRule) → List FieldRule
  rules_of none = []
  rules_of (some rules) = rules

  unfoldable pub executable_fields : Node → Value → Bool
  unfolding executable_rules url_field_fits config_text
  executable_fields node (array (item v vs)) = elim (engine.decode_rules (array (item v vs))) [
    | none ↦ false
    | some rules ↦
        executable_rules (config_text (value_of "content_type" node.config)) [] (item v vs) rules
        && (not (str_eq node.kind "discover")
            || url_field_fits rules (lookup "url_field" node.config))
  ]
  executable_fields node _ = false

  -- One field of a validate node.
  unfoldable pub executable_check : Object → Bool
  unfolding keys_among config_text
  executable_check field =
      let pattern = config_text (value_of "regex" field) in
      keys_among ("name" ∷ "required" ∷ "type" ∷ "regex" ∷ "enum" ∷ []) field
      && not (is_empty (config_text (value_of "name" field)))
      && (is_empty pattern || compiles pattern)

  unfoldable pub executable_checks : Items → Bool
  unfolding executable_check
  executable_checks no_items = true
  executable_checks (item (object m) vs) = executable_check (members m) && executable_checks vs
  executable_checks (item _ vs) = false

  unfoldable pub timeout_fits : Option Value → Bool
  timeout_fits none = true
  timeout_fits (some (number (whole_float (pos n)))) = ltb 0 n && leb n 2000
  timeout_fits (some (number (other_float s))) = engine.is_short s
  timeout_fits (some v) = false

  abbrev pub is_filled : Value → Bool
  is_filled (array (item v vs)) = true
  is_filled _ = false

  abbrev pub array_items : Value → Items
  array_items (array vs) = vs
  array_items _ = no_items

  unfoldable pub executable_body : Node → Bool
  unfolding executable_fields executable_operations executable_checks timeout_fits one_of
  executable_body node =
      let fields = value_of "fields" node.config in
      let operations = value_of "operations" node.config in
      if one_of ("extract" ∷ "discover" ∷ []) node.kind
      then executable_fields node fields
      else if str_eq node.kind "transform"
      then is_filled operations && executable_operations (array_items operations)
      else if str_eq node.kind "validate"
      then is_filled fields && executable_checks (array_items fields)
      else timeout_fits (lookup "timeout_ms" node.config)

  unfoldable pub content_type_fits : Option Value → Bool
  content_type_fits none = true
  content_type_fits (some v) = is_text "html" v || is_text "json" v

  unfoldable pub items_path_fits : Option Value → Value → Bool
  unfolding supported_path
  items_path_fits none content_type = true
  items_path_fits (some (string path)) content_type =
      supported_path path && is_text "json" content_type
  items_path_fits (some v) content_type = false

  -- The type of a node and the members of its configuration that every type may have.
  unfoldable pub executable_config : Node → Bool
  unfolding one_of keys_among allowed_keys executable_run_on content_type_fits items_path_fits
  executable_config node =
      one_of executable_node_types node.kind
      && keys_among (allowed_keys node.kind) node.config
      && executable_run_on node.kind (lookup "run_on" node.config)
      && content_type_fits (lookup "content_type" node.config)
      && items_path_fits (lookup "items_path" node.config) (value_of "content_type" node.config)

  -- `validateExecutableNode`
  unfoldable pub executable_node : Node → Bool
  unfolding executable_config executable_body
  executable_node node = executable_config node && executable_body node
