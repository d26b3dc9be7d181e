-- ===== src/Workflow/Examples.antt =====
-- A workflow of a transform node, for concrete runs of the theorems.
use get_magnet.Common.{
  ℕ, ◌<◌, ◌≡◌, ◌≢◌, refl, Bool, true, false, ◌&&◌, ◌||◌, Option, none, some, String, str_eq, List,
  [], ◌∷◌, errs, exists, ok, err, is_empty, trim_space, arith, chains,
}
use get_magnet.Json.{Value, null, string, array, array_of, object, members_of, pos, Object}
use get_magnet.Json.Objects.{lookup}
use get_magnet.Record as Record
use get_magnet.Record.Examples.{plain, magnets}
use get_magnet.TaskRepo.Examples.{one_page}
use get_magnet.Workflow.{Engine, FieldRule, Element, Node, value_of}
use get_magnet.Workflow.Capabilities.{
  executable_body, executable_operations, executable_operation, keys_among,
}
use get_magnet.Workflow.Definition.{
  Definition, Trigger, FetchOptions, ListingOptions, one_of, config_text,
}
use get_magnet.Workflow.Listing.{
  Chain, starts, follows, trigger_page, list_page, expand_page, goes_on, page_index, empty_streak,
  listing_stop, barren_pages, Chain-IsWithin,
}
use get_magnet.Workflow.Published.{record_candidates-known}
use get_magnet.Workflow.Records.{Document, record_candidates, not_prepared}
use get_magnet.Workflow.Sound.Operations.{KeepsWords}
use get_magnet.Workflow.Supported.{is_structural, apply_transform_supported}
use get_magnet.Workflow.Transform.{apply_transform}

abbrev rule : FieldRule
rule = record {
  name = "magnet";
  selector = "a";
  selector_type = "css";
  attribute = "";
  regex = "";
  clean = "";
  kind = "string";
  required = false;
  multiple = false;
  default = null;
}

-- Every document has one element, and every selector finds it.
abbrev engine : Engine
engine = record {
  lower = λ s. s;
  upper = λ s. s;
  equal_fold = str_eq;
  words = λ s. s ∷ [];
  split = λ s t. s ∷ [];
  compile = λ s. none;
  format_float = λ n. "";
  parse_float = λ s. none;
  sprint = λ v. elim v [ string s ↦ s | _ ↦ "" ];
  deep_equal = λ v w. false;
  parse_json = λ s. none;
  decode_rules = λ v. some (rule ∷ []);
  css = λ s t. some (record { content = "abc"; attributes = λ name. none } ∷ []);
  xpath = λ s t. none;
  is_css = λ s. true;
  is_xpath = λ s. true;
  scheme_and_host = λ s. some ("https", "a.com");
  is_short = λ s. true;
}

engine-KeepsWords : KeepsWords engine
engine-KeepsWords o = refl

abbrev raw_rule : Value
raw_rule = object (members_of (("name", string "magnet") ∷ ("selector", string "a") ∷ []))

abbrev extract_node : Node
extract_node = record {
  name = "read";
  kind = "extract";
  config = ("fields", array (array_of (raw_rule ∷ []))) ∷ [];
}

abbrev renaming : Value
renaming =
    object (
      members_of
        (("op", string "rename") ∷ ("field", string "magnet") ∷ ("to", string "hash") ∷ []))

abbrev transform_node : Node
transform_node = record {
  name = "name";
  kind = "transform";
  config = ("operations", array (array_of (renaming ∷ []))) ∷ [];
}

abbrev definition : Definition
definition = record {
  persistence = "records";
  trigger = record {
    kind = "manual";
    cron = "";
    url = "https://a.com";
    input = "";
    profile_id = "";
    concurrency = pos 0;
    fetch = record { mode = ""; timeout_ms = pos 0; actions = [] };
  };
  listing = none;
  budget = none;
  acquire = [];
  nodes = extract_node ∷ transform_node ∷ [];
  input_schema = "";
  output_schema = "";
  credentials = [];
}

abbrev document : Document
document = record { html = "<a>abc</a>"; json = "" }

-- The theorem's workflow is accepted, and its document gives one record.
recorded :
    record_candidates engine plain one_page definition document "" magnets
    ≡ ok ((("hash", string "abc") ∷ []) ∷ [])
unfolding Record.field_named Record.prepare apply_transform exists get_magnet.Common.guard
    get_magnet.Common.is_blank get_magnet.Common.or_fail get_magnet.Common.◌>>◌
    get_magnet.CrawlPolicy.defaults get_magnet.CrawlPolicy.validate get_magnet.Json.Objects.insert
    get_magnet.Json.Objects.remove get_magnet.Workflow.Capabilities.executable_fetch
    get_magnet.Workflow.Capabilities.executable_node get_magnet.Workflow.Capabilities.is_http_url
    get_magnet.Workflow.Definition.validate get_magnet.Workflow.Executable.validate_record_schema
    get_magnet.Workflow.Extract.extract get_magnet.Workflow.Names.output_names
    get_magnet.Workflow.is_empty_value get_magnet.Workflow.node_applies lookup record_candidates
    value_of
recorded = refl

record_candidates-known_example :
    record_candidates engine plain one_page definition document "" magnets
    ≢ err (not_prepared 0 (Record.Error.unknown_field "magnet"))
record_candidates-known_example =
    record_candidates-known engine plain engine-KeepsWords one_page definition document "" magnets 0
      "magnet"

renames : executable_body engine transform_node ≡ true
unfolding executable_body executable_operations executable_operation keys_among one_of config_text
    value_of exists lookup
renames = refl

apply_transform_supported_example :
    errs is_structural
      (apply_transform engine (("magnet", string "abc") ∷ []) transform_node.config)
    ≡ false
apply_transform_supported_example =
    apply_transform_supported engine engine-KeepsWords transform_node
      (("magnet", string "abc") ∷ []) refl renames

abbrev listing : ListingOptions
listing = record {
  detail_selector = "a";
  next_selector = "a.next";
  max_pages = pos 3;
  max_empty_pages = pos 2;
}

second_page : expand_page listing trigger_page 0 "https://a.com/2" false ≡ goes_on (list_page 2 1)
unfolding expand_page page_index empty_streak listing_stop
second_page = refl

abbrev one_barren : Chain listing 1 (list_page 2 1)
one_barren = follows 0 "https://a.com/2" false starts second_page

Chain-IsWithin_example :
    (page_index listing (list_page 2 1) ≡ some 2) × (1 < 3) × (barren_pages one_barren < 2)
Chain-IsWithin_example =
    Chain-IsWithin listing 3 2 1 (list_page 2 1) refl refl (omega arith) (omega arith) one_barren
