-- ===== src/Workflow/Names.antt =====
-- The names of the fields that a document's nodes produce, as far as they are known without running
-- them: `producesPersistableFields` (internal/workflow/definition.go) and the names of
-- `ValidateRecordSchema` (internal/workflow/records.go).
use get_magnet.Common.{
  Bool, not, ◌||◌, Option, none, some, String, str_eq, List, [], ◌∷◌, if◌then◌else◌,
}
use get_magnet.Json.{Value, string, object, Items, no_items, item, members, Object}
use get_magnet.Workflow.{Engine, FieldRule, Node, string_value, value_of, node_applies}
use get_magnet.Workflow.Definition.{Definition, one_of, config_text}
use get_magnet.Workflow.Capabilities.{is_text, array_items}

-- A set of names.
unfoldable pub drop_name : String → List String → List String
drop_name name [] = []
drop_name name (n ∷ ns) = let rest = drop_name name ns in if str_eq n name then rest else n ∷ rest

-- The effect of one operation, with the texts of its field and of `to`.
unfoldable pub operation_names : Object → String → String → List String → List String
unfolding one_of drop_name
operation_names op name to names =
    let word = value_of "op" op in
    if is_text "rename" word
    then (if one_of names name then to ∷ drop_name name names else names)
    else if is_text "set" word || is_text "default" word
    then name ∷ names
    else if is_text "delete" word
    then drop_name name names
    else names

-- An operation that is no object is skipped.
unfoldable pub operations_names : (Value → String) → Items → List String → List String
unfolding operation_names
operations_names text_of no_items names = names
operations_names text_of (item (object m) vs) names =
    let op = members m in
    operations_names text_of vs
      (operation_names op (text_of (value_of "field" op)) (text_of (value_of "to" op)) names)
operations_names text_of (item _ vs) names = operations_names text_of vs names

-- The names of the rules that are objects with a name, as `producesPersistableFields` reads them.
unfoldable pub raw_names : Items → List String → List String
raw_names no_items names = names
raw_names (item (object m) vs) names = elim (value_of "name" (members m)) [
  | string s ↦ raw_names vs (s ∷ names)
  | _ ↦ raw_names vs names
]
raw_names (item _ vs) names = raw_names vs names

unfoldable pub rule_names : List FieldRule → List String → List String
rule_names [] names = names
rule_names (rule ∷ rules) names = rule_names rules (rule.name ∷ names)

module _ (engine : Engine) where
  unfoldable pub persistable_names : List Node → String → List String → List String
  unfolding raw_names operations_names config_text
  persistable_names [] role names = names
  persistable_names (node ∷ nodes) role names = persistable_names nodes role (
      if not (node_applies engine node role)
      then names
      else if str_eq node.kind "extract"
      then raw_names (array_items engine (value_of "fields" node.config)) names
      else if str_eq node.kind "transform"
      then operations_names config_text (array_items engine (value_of "operations" node.config))
          names
      else names)

  unfoldable pub produces_persistable_fields : Definition → String → Bool
  unfolding persistable_names one_of
  produces_persistable_fields d role =
      let names = persistable_names d.nodes role [] in
      one_of names "number"
      || one_of names "canonical_key"
      || one_of names "links"
      || one_of names "optimal_link"
      || one_of names "optimalLink"

  -- The names that one node adds or takes away; `none` where its rules cannot be decoded.
  unfoldable pub node_names : Node → List String → Option (List String)
  unfolding rule_names operations_names
  node_names node names =
      if str_eq node.kind "extract"
      then elim (engine.decode_rules (value_of "fields" node.config)) [
        | none ↦ none
        | some rules ↦ some (rule_names rules names)
      ]
      else if str_eq node.kind "transform"
      then some (
          operations_names (string_value engine)
            (array_items engine (value_of "operations" node.config)) names)
      else some names

  unfoldable pub output_names : List Node → String → List String → Option (List String)
  unfolding node_names
  output_names [] role names = some names
  output_names (node ∷ nodes) role names =
      if node_applies engine node role
      then elim (node_names node names) [
        | none ↦ none
        | some names' ↦ output_names nodes role names'
      ]
      else output_names nodes role names
