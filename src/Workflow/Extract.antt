-- ===== src/Workflow/Extract.antt =====
-- `Extract` of internal/workflow/extract.go: the field rules applied to one document.
use get_magnet.Common.{
  Bool, true, false, not, ◌&&◌, ◌||◌, Option, none, some, String, str_eq, List, [], ◌∷◌, map,
  if◌then◌else◌, Result, ok, err, guard, or_fail, ◌>>=◌, ◌>>◌, trim_space, is_blank, is_empty,
}
use get_magnet.Json.{
  Value, null, string, boolean, number, text_list, array, Items, no_items, item, array_of, Object,
  int64,
}
use get_magnet.Json.Objects.{insert}
use get_magnet.Record.Integers.{parse_int64}
use get_magnet.Workflow.{Engine, Element, FieldRule, is_empty_value}
use get_magnet.Workflow.JsonPath.{json_path_value}
use get_magnet.Workflow.Transform.{join_texts}
use text.Mathlib.Text.{starts_with}

pub data ExtractError : Type 0 where
  empty_document name_and_selector_required bad_json : ExtractError
  bad_selector required_empty bad_value unsupported_type : String → ExtractError

-- The selectors' languages; any word that is no other is CSS.
pub data Language : Type 0 where
  json_path xpath css : Language

unfoldable pub language_of : String → Language
language_of kind =
    if str_eq kind "jsonpath" || str_eq kind "json_path"
    then Language.json_path
    else if str_eq kind "xpath"
    then Language.xpath
    else Language.css

unfoldable pub default_kind : String → String → String
default_kind content_type selector =
    if starts_with (trim_space selector) "$"
      || str_eq content_type "json"
      || str_eq content_type "application/json"
    then "jsonpath"
    else "css"

-- `strconv.ParseBool`
unfoldable pub parse_bool : String → Option Bool
parse_bool s =
    if str_eq s "1"
      || str_eq s "t"
      || str_eq s "T"
      || str_eq s "true"
      || str_eq s "TRUE"
      || str_eq s "True"
    then some true
    else if str_eq s "0"
        || str_eq s "f"
        || str_eq s "F"
        || str_eq s "false"
        || str_eq s "FALSE"
        || str_eq s "False"
    then some false
    else none

-- What an expression leaves of a text: its first group, or nothing if it does not match.
unfoldable pub matched : String → List String → String
matched s [] = ""
matched s (all ∷ []) = s
matched s (all ∷ group ∷ groups) = group

module _ (engine : Engine) where
  unfoldable pub clean_value : FieldRule → String → String
  unfolding matched join_texts
  clean_value rule value =
      let trimmed = trim_space value in
      let spaced =
        if str_eq rule.clean "whitespace" then join_texts " " (engine.words trimmed) else trimmed in
      trim_space (
        if is_empty rule.regex then spaced else elim (engine.compile rule.regex) [
          | none ↦ spaced
          | some re ↦ matched spaced (re.submatches spaced)
        ])

  unfoldable pub clean_item : FieldRule → Value → Value
  unfolding clean_value
  clean_item rule (string s) = string (clean_value rule s)
  clean_item rule v = v

  unfoldable pub clean_items : FieldRule → Items → Items
  unfolding clean_item
  clean_items rule no_items = no_items
  clean_items rule (item v vs) = item (clean_item rule v) (clean_items rule vs)

  -- A text, or the texts of an array.
  unfoldable pub clean_json : FieldRule → Value → Value
  unfolding clean_value clean_items
  clean_json rule (string s) = string (clean_value rule s)
  clean_json rule (array vs) = array (clean_items rule vs)
  clean_json rule v = v

  unfoldable pub json_value : FieldRule → Value → Result ExtractError Value
  unfolding clean_json
  json_value rule root = elim (json_path_value root rule.selector) [
    | none ↦ err (bad_selector rule.name)
    | some v ↦ ok (clean_json rule v)
  ]

  abbrev pub attribute_of : FieldRule → Element → Option String
  attribute_of rule e = e.attributes rule.attribute

  abbrev pub text_of : Option String → String
  text_of none = ""
  text_of (some s) = s

  -- The texts of the nodes, or those of the nodes that have the attribute.
  unfoldable pub css_items : FieldRule → List Element → List Value
  unfolding clean_value
  css_items rule [] = []
  css_items rule (e ∷ es) =
      let rest = css_items rule es in
      if is_empty rule.attribute
      then string (clean_value rule e.content) ∷ rest
      else elim (attribute_of rule e) [ none ↦ rest | some s ↦ string (clean_value rule s) ∷ rest ]

  unfoldable pub css_value : FieldRule → List Element → Value
  unfolding css_items
  css_value rule [] = null
  css_value rule (e ∷ es) =
      if rule.multiple
      then array (array_of (css_items rule (e ∷ es)))
      else if is_empty rule.attribute
      then string (clean_value rule e.content)
      else elim (attribute_of rule e) [ none ↦ null | some s ↦ string (clean_value rule s) ]

  -- `htmlquery.SelectAttr` of an attribute that is missing is "".
  unfoldable pub xpath_text : FieldRule → Element → Value
  unfolding clean_value
  xpath_text rule e =
      if is_empty rule.attribute
      then string (clean_value rule e.content)
      else string (clean_value rule (text_of (attribute_of rule e)))

  unfoldable pub xpath_value : FieldRule → List Element → Value
  unfolding xpath_text
  xpath_value rule [] = null
  xpath_value rule (e ∷ es) =
      if rule.multiple then array (array_of (map (xpath_text rule) (e ∷ es))) else xpath_text rule e

  unfoldable pub find_value : Language → String → FieldRule → Result ExtractError Value
  unfolding json_value css_value xpath_value
  find_value Language.json_path content rule =
      or_fail (engine.parse_json content) bad_json >>= json_value rule
  find_value Language.xpath content rule =
      or_fail (engine.xpath content rule.selector) (bad_selector rule.name)
      >>= (λ es. ok (xpath_value rule es))
  find_value Language.css content rule =
      or_fail (engine.css content rule.selector) (bad_selector rule.name)
      >>= (λ es. ok (css_value rule es))

  -- An array stays as it is; the words of another value are a `[]string`.
  unfoldable pub as_array : Value → Value
  as_array (array vs) = array vs
  as_array v = text_list (engine.words (engine.sprint v))

  unfoldable pub normalize_as : String → String → Value → Result ExtractError Value
  unfolding as_array parse_bool
  normalize_as name kind v =
      let text = trim_space (engine.sprint v) in
      if str_eq kind "string"
      then ok (string (engine.sprint v))
      else if str_eq kind "int" || str_eq kind "integer"
      then or_fail (parse_int64 text) (bad_value name) >>= (λ i. ok (number (int64 i)))
      else if str_eq kind "float" || str_eq kind "number"
      then or_fail (engine.parse_float text) (bad_value name) >>= (λ n. ok (number n))
      else if str_eq kind "bool" || str_eq kind "boolean"
      then or_fail (parse_bool text) (bad_value name) >>= (λ b. ok (boolean b))
      else if str_eq kind "array"
      then ok (as_array v)
      else err (unsupported_type name)

  unfoldable pub normalize_value : FieldRule → Value → Result ExtractError Value
  unfolding normalize_as
  normalize_value rule null = ok null
  normalize_value rule v =
      if is_empty rule.kind then ok v else normalize_as rule.name (engine.lower rule.kind) v

  -- A value that is found, or the default; it is not empty where it is required.
  unfoldable pub settle_value : FieldRule → Value → Result ExtractError Value
  unfolding normalize_value
  settle_value rule found = do
    guard (not (is_empty_value found && rule.required)) (required_empty rule.name)
    v ← normalize_value rule (if is_empty_value found then rule.default else found)
    guard (not (rule.required && is_empty_value v)) (required_empty rule.name)
    ok v

  unfoldable pub rule_language : String → FieldRule → Language
  unfolding default_kind language_of
  rule_language content_type rule =
      let kind = engine.lower (trim_space rule.selector_type) in
      language_of (if is_empty kind then default_kind content_type rule.selector else kind)

  -- The loop over the rules: of two rules with one name the later value stays.
  unfoldable pub extract_rules :
      String → String → List FieldRule → Object → Result ExtractError Object
  unfolding find_value settle_value rule_language
  extract_rules content_type content [] values = ok values
  extract_rules content_type content (rule ∷ rules) values = do
    guard (not (is_blank rule.name || is_blank rule.selector)) name_and_selector_required
    found ← find_value (rule_language content_type rule) content rule
    v ← settle_value rule found
    extract_rules content_type content rules (insert rule.name v values)

  unfoldable pub extract : String → String → List FieldRule → Result ExtractError Object
  unfolding extract_rules
  extract content_type content rules = do
    guard (not (is_blank content)) empty_document
    extract_rules (engine.lower (trim_space content_type)) content rules []
