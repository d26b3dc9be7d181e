-- ===== src/Workflow.antt =====
-- internal/workflow: the workflow document, its validation, the nodes that a document's values run
-- through, and listings. The standard library's text functions and the engines that the source
-- calls are the interface `Engine`.
pub mod Transform
pub mod Checks
pub mod JsonPath
pub mod Extract
pub mod Definition
pub mod Capabilities
pub mod Names
pub mod Executable
pub mod Records
pub mod Sound
pub mod Accepted
pub mod Published
pub mod Listing
pub mod Supported
pub mod Examples
use get_magnet.Common.{
  ℕ, Bool, true, false, not, ◌&&◌, ◌||◌, Option, none, some, String, str_eq, List, [], ◌∷◌,
  if◌then◌else◌, trim_space, is_blank, is_empty,
}
use get_magnet.Json.{
  Value, null, string, boolean, number, text_list, array, object, Items, no_items, item, items,
  Object, Number, json_number, whole_float, other_float,
}
use get_magnet.Json.Objects.{lookup}

-- A field's default is nil where it is not given.
pub record FieldRule : Type 0 where
  pub name : String
  pub selector : String
  pub selector_type : String
  pub attribute : String
  pub regex : String
  pub clean : String
  pub kind : String
  pub required : Bool
  pub multiple : Bool
  pub default : Value

-- `MatchString` and `FindStringSubmatch` of a compiled expression.
pub record Regex : Type 0 where
  pub matches : String → Bool
  pub submatches : String → List String

-- A node that a selector finds.
pub record Element : Type 0 where
  pub content : String
  pub attributes : String → Option String

-- `strings.ToLower`, `strings.ToUpper`, `strings.EqualFold`, `strings.Fields` and `strings.Split`;
-- `regexp.Compile`; `strconv.FormatFloat(f, 'f', -1, 64)`, `strconv.ParseFloat`, `fmt.Sprint` and
-- `reflect.DeepEqual`; `json.Unmarshal` of a text, and of a value into field rules; and what a CSS
-- or XPath selector finds in a document, `none` where the document or the selector is refused;
-- whether `cascadia.Parse` or `xpath.Compile` accepts a text; `url.Parse` with the scheme and the host;
-- and whether a float that is no integer, by its text, lies between 0 and 2000.
pub record Engine : Type 0 where
  pub lower : String → String
  pub upper : String → String
  pub equal_fold : String → String → Bool
  pub words : String → List String
  pub split : String → String → List String
  pub compile : String → Option Regex
  pub format_float : Number → String
  pub parse_float : String → Option Number
  pub sprint : Value → String
  pub deep_equal : Value → Value → Bool
  pub parse_json : String → Option Value
  pub decode_rules : Value → Option (List FieldRule)
  pub css : String → String → Option (List Element)
  pub xpath : String → String → Option (List Element)
  pub is_css : String → Bool
  pub is_xpath : String → Bool
  pub scheme_and_host : String → Option (String × String)
  pub is_short : String → Bool

pub record Node : Type 0 where
  pub name : String
  pub kind : String
  pub config : Object

-- A key that is missing reads as nil.
unfoldable pub value_of : String → Object → Value
value_of k m = elim (lookup k m) [ none ↦ null | some v ↦ v ]

unfoldable pub is_some_value : Option Value → Bool
is_some_value none = false
is_some_value (some v) = true

unfoldable pub is_empty_value : Value → Bool
is_empty_value null = true
is_empty_value (string s) = is_blank s
is_empty_value (array no_items) = true
is_empty_value _ = false

module _ (engine : Engine) where
  unfoldable pub string_value : Value → String
  string_value null = ""
  string_value (string s) = trim_space s
  string_value (number (json_number s)) = s
  string_value (number (whole_float i)) = engine.format_float (whole_float i)
  string_value (number (other_float s)) = engine.format_float (other_float s)
  string_value v = trim_space (engine.sprint v)

  unfoldable pub string_values : Items → List String
  unfolding string_value
  string_values no_items = []
  string_values (item v vs) = string_value v ∷ string_values vs

  -- The texts of the items that are not empty.
  unfoldable pub named_texts : Items → List String
  unfolding string_value
  named_texts no_items = []
  named_texts (item v vs) =
      let rest = named_texts vs in if is_empty (string_value v) then rest else string_value v ∷ rest

  unfoldable pub string_slice : Value → List String
  unfolding named_texts
  string_slice (array vs) = named_texts vs
  string_slice (text_list ts) = ts
  string_slice (string s) = if is_blank s then [] else engine.words s
  string_slice _ = []

  unfoldable pub any_equal_fold : Items → String → Bool
  unfolding string_value
  any_equal_fold no_items step = false
  any_equal_fold (item v vs) step =
      engine.equal_fold (string_value v) step || any_equal_fold vs step

  -- Whether a node runs on a page role: `run_on` is missing, or names it.
  unfoldable pub node_applies : Node → String → Bool
  unfolding any_equal_fold value_of
  node_applies node role =
      let step = engine.lower (trim_space role) in
      elim (value_of "run_on" node.config) [
        | null ↦ true
        | string s ↦ engine.equal_fold s step
        | array vs ↦ any_equal_fold vs step
        | _ ↦ false
      ]
