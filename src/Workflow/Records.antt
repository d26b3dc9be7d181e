-- ===== src/Workflow/Records.antt =====
-- `RecordCandidates` and `TraceRecordCandidates` (internal/workflow/records.go), with
-- `extractNodeValues` (internal/workflow/worker.go): the records of a document. The steps of a dry
-- run are left out.
use get_magnet.Common.{
  ℕ, suc, leb, length, Bool, false, not, ◌&&◌, ◌||◌, Option, some, String, str_eq, List, [], ◌∷◌,
  if◌then◌else◌, Result, ok, err, guard, or_fail, ◌>>=◌, ◌>>◌, trim_space, is_empty,
}
use get_magnet.CrawlPolicy.{Urls}
use get_magnet.Json.{Value, string, array, object, Items, no_items, item, items, Object}
use get_magnet.Json.Objects.{lookup}
use get_magnet.Record.{Codec, Schema, Prepared, prepare}
use get_magnet.Record as Record
use get_magnet.Workflow.{Engine, FieldRule, Node, string_value, value_of, node_applies}
use get_magnet.Workflow.Checks.{CheckError, validate_values}
use get_magnet.Workflow.Definition.{Definition}
use get_magnet.Workflow.Executable.{SchemaError, validate_record_schema}
use get_magnet.Workflow.Extract.{ExtractError, extract}
use get_magnet.Workflow.JsonPath.{json_path_value}
use get_magnet.Workflow.Transform.{TransformError, apply_transform}
use text.Mathlib.Text.{starts_with}

-- The two texts of a fetched document.
pub record Document : Type 0 where
  pub html : String
  pub json : String

pub data NodeError : Type 0 where
  rules_undecodable no_document : NodeError
  not_extracted : ExtractError → NodeError
  not_transformed : TransformError → NodeError
  not_valid : CheckError → NodeError

pub data CandidateError : Type 0 where
  schema_refused : SchemaError → CandidateError
  bad_json unsupported_path expected_array item_count not_an_object : CandidateError
  node_failed : ℕ → String → NodeError → CandidateError
  not_prepared : ℕ → Record.Error → CandidateError

abbrev pub wrap {ℓ} : {E F : Type 0} {A : Type ℓ} → (E → F) → Result E A → Result F A
wrap f (ok a) = ok a
wrap f (err e) = err (f e)

abbrev pub first_node_config : List Node → Object
first_node_config [] = []
first_node_config (node ∷ nodes) = node.config

module _ (engine : Engine) where
  unfoldable pub uses_json_path : List FieldRule → Bool
  uses_json_path [] = false
  uses_json_path (rule ∷ rules) =
      engine.equal_fold rule.selector_type "jsonpath"
      || engine.equal_fold rule.selector_type "json_path"
      || starts_with (trim_space rule.selector) "$"
      || uses_json_path rules

  -- The text that the rules want, and the extraction from it.
  unfoldable pub extract_rest : Document → Node → List FieldRule → Result NodeError Object
  unfolding uses_json_path
  extract_rest document node rules = do
    let wants_json =
        engine.equal_fold (string_value engine (value_of "content_type" node.config)) "json"
        || (is_empty document.html && not (is_empty document.json))
        || uses_json_path rules
    let content = if wants_json then document.json else document.html
    guard (not (is_empty content)) no_document
    wrap not_extracted (extract engine (if wants_json then "json" else "html") content rules)

  unfoldable pub extract_node_values : Node → Document → Result NodeError Object
  unfolding extract_rest
  extract_node_values node document =
      or_fail (engine.decode_rules (value_of "fields" node.config)) rules_undecodable
      >>= extract_rest document node

  -- One node: an extract node begins the values again.
  unfoldable pub run_node : Node → Document → Object → Result NodeError Object
  unfolding extract_node_values
  run_node node document values =
      if str_eq node.kind "extract"
      then extract_node_values node document
      else if str_eq node.kind "transform"
      then wrap not_transformed (apply_transform engine values node.config)
      else if str_eq node.kind "validate"
      then wrap not_valid (validate_values engine values node.config) >> ok values
      else ok values

  -- The nodes of a page role, for candidate `i`.
  unfoldable pub run_nodes :
      ℕ → List Node → String → Document → Object → Result CandidateError Object
  unfolding run_node
  run_nodes i [] role document values = ok values
  run_nodes i (node ∷ nodes) role document values =
      (if node_applies engine node role
        then wrap (node_failed i node.name) (run_node node document values)
        else ok values)
      >>= (λ values'. run_nodes i nodes role document values')

  module _ (codec : Codec) where
    unfoldable pub candidates_of :
        ℕ → List Node → String → Schema → List Document → Result CandidateError (List Object)
    unfolding run_nodes
    candidates_of i nodes role schema [] = ok []
    candidates_of i nodes role schema (document ∷ documents) = do
      values ← run_nodes i nodes role document []
      prepared ← wrap (not_prepared i) (prepare codec schema (some values))
      others ← candidates_of (suc i) nodes role schema documents
      ok (prepared.values ∷ others)

    -- `json.Marshal` of the items, each of which is an object, as documents of their own.
    unfoldable pub item_documents : Items → Result CandidateError (List Document)
    item_documents no_items = ok []
    item_documents (item (object m) vs) = do
      encoded ← or_fail (codec.marshal (object m)) bad_json
      others ← item_documents vs
      ok (record { html = ""; json = encoded } ∷ others)
    item_documents (item _ vs) = err not_an_object

    unfoldable pub array_of_items : Value → Result CandidateError Items
    array_of_items (array vs) = ok vs
    array_of_items _ = err expected_array

    -- The document itself, or the 1 to 1000 items that `items_path` leads to.
    unfoldable pub documents_of : Option Value → Document → Result CandidateError (List Document)
    unfolding item_documents array_of_items
    documents_of (some (string path)) document = do
      root ← or_fail (engine.parse_json document.json) bad_json
      found ← or_fail (json_path_value root path) unsupported_path
      vs ← array_of_items found
      guard (leb 1 (length (items vs)) && leb (length (items vs)) 1000) item_count
      item_documents vs
    documents_of _ document = ok (document ∷ [])

    unfoldable pub record_candidates :
        Urls → Definition → Document → String → Schema → Result CandidateError (List Object)
    unfolding documents_of candidates_of
    record_candidates urls d document role schema = do
      wrap schema_refused (validate_record_schema engine urls d schema role)
      documents ← documents_of (lookup "items_path" (first_node_config d.nodes)) document
      candidates_of 0 d.nodes role schema documents
