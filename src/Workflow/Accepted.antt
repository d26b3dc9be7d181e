-- ===== src/Workflow/Accepted.antt =====
-- What it means that `ValidateRecordSchema` (internal/workflow/records.go) accepts a document.
use get_magnet.Common.{
  ◌≡◌, refl, sym, subst, inl, inr, Bool, true, Bool-cases, Option-cases, some, String, str_eq,
  eq_iff, List, [], ◌∷◌, Result, ok, err, >>=-ok, >>-ok, guard-ok, or_fail-ok, All, exists, arith,
}
use get_magnet.CrawlPolicy.{Urls}
use get_magnet.Json.{Value, Object}
use get_magnet.Json.Objects.{lookup}
use get_magnet.Record.{Field, Schema, field_named}
use get_magnet.Record.Known.{HasFields}
use get_magnet.Workflow.{Engine, Node, is_some_value}
use get_magnet.Workflow.Capabilities.{executable_node}
use get_magnet.Workflow.Definition.{Definition, DefinitionError, one_of}
use get_magnet.Workflow.Executable.{
  has_field, check_known_outputs, check_executable_nodes, validate_executable,
  validate_record_schema, executable_of,
}
use get_magnet.Workflow.Names.{output_names}

there_behind :
    (k j : String) (v : Value) (m : Object)
    → is_some_value (lookup j m) ≡ true
    → is_some_value (lookup j ((k, v) ∷ m)) ≡ true
unfolding lookup is_some_value
there_behind k j v m h = elim (Bool-cases (str_eq k j)) [
  | inl e ↦ rw (lookup, e) refl
  | inr e ↦ rw (lookup, e) h
]

field_named-known :
    (fields : List Field) (k : String)
    → has_field fields k ≡ true
    → (f : Field) × (field_named k fields ≡ some f)
unfolding field_named
field_named-known [] k h = absurd (ground arith)
field_named-known (f ∷ fields) k h = elim (Option-cases (field_named k fields)) [
  | inr (g, e) ↦ (g, rw (field_named, e) refl)
  | inl e ↦ elim (Bool-cases (str_eq f.key k)) [
    | inl here ↦ (f, rw (field_named, e, here) refl)
    | inr behind ↦
        let (g, found) = field_named-known fields k (rw behind at h) in
        absurd (ground (arith, e, found))
  ]
]

pub HasFields-of_keys :
    (fields : List Field) (m : Object)
    → ((k : String) → is_some_value (lookup k m) ≡ true → has_field fields k ≡ true)
    → HasFields fields m
unfolding lookup is_some_value
HasFields-of_keys fields [] h = tt
HasFields-of_keys fields ((k, v) ∷ m) h = (
  field_named-known fields k (h k (rw (lookup, (eq_iff k k).1 refl) refl)),
  HasFields-of_keys fields m (λ j there. h j (there_behind k j v m there)),
)

-- The checks of publication leave the nodes executable and the names known.
nodes_executable :
    (engine : Engine) (urls : Urls) (records : Bool) (nodes : List Node)
    → check_executable_nodes engine urls records nodes ≡ ok tt
    → All (λ node. executable_node engine node ≡ true) nodes
unfolding check_executable_nodes
nodes_executable engine urls records [] h = tt
nodes_executable engine urls records (node ∷ nodes) h =
    let (paths, kinds) = >>-ok _ _ h in
    let (kind, bodies) = >>-ok _ _ kinds in
    let (body, others) = >>-ok _ _ bodies in
    (guard-ok _ _ body, nodes_executable engine urls records nodes others)

names_known :
    (fields : List Field) (names : List String)
    → check_known_outputs fields names ≡ ok tt
    → (k : String) → one_of names k ≡ true
    → has_field fields k ≡ true
unfolding check_known_outputs one_of exists
names_known fields [] h k there = absurd (ground arith)
names_known fields (name ∷ names) h k there =
    let (known, others) = >>-ok _ _ h in
    elim (Bool-cases (str_eq k name)) [
      | inl e ↦
          subst (λ n. has_field fields n ≡ true) (sym ((eq_iff k name).0 e)) (guard-ok _ _ known)
      | inr e ↦ names_known fields names others k (rw (one_of, exists, e) at there)
    ]

executable_of-ok : (r : Result DefinitionError (Unit {0})) → executable_of r ≡ ok tt → r ≡ ok tt
unfolding executable_of
executable_of-ok (ok u) h = refl
executable_of-ok (err e) h = cc

-- What an accepted document and dataset have.
pub record IsPublished (engine : Engine) (d : Definition) (schema : Schema) (role : String)
    : Type 0 where
  pub names : List String
  pub output : output_names engine d.nodes role [] ≡ some names
  pub known : (k : String) → one_of names k ≡ true → has_field schema.fields k ≡ true
  pub nodes : All (λ node. executable_node engine node ≡ true) d.nodes

executable_nodes_of :
    (engine : Engine) (urls : Urls) (d : Definition)
    → validate_executable engine urls d ≡ ok tt
    → All (λ node. executable_node engine node ≡ true) d.nodes
unfolding validate_executable
executable_nodes_of engine urls d h =
    let (a, h1) = >>-ok _ _ h in
    let (b, h2) = >>-ok _ _ h1 in
    let (c, h3) = >>-ok _ _ h2 in
    let (e, h4) = >>-ok _ _ h3 in
    let (f, h5) = >>-ok _ _ h4 in
    let (g, h6) = >>-ok _ _ h5 in nodes_executable engine urls _ d.nodes g

pub published :
    (engine : Engine) (urls : Urls) (d : Definition) (schema : Schema) (role : String)
    → validate_record_schema engine urls d schema role ≡ ok tt
    → IsPublished engine d schema role
unfolding validate_record_schema
published engine urls d schema role h =
    let (a, h1) = >>-ok _ _ h in
    let (b, h2) = >>-ok _ _ h1 in
    let (names, output, h3) = >>=-ok _ _ h2 in
    let (c, h4) = >>-ok _ _ h3 in
    let (e, h5) = >>-ok _ _ h4 in
    record {
      names = names;
      output = or_fail-ok _ _ output;
      known = names_known schema.fields names e;
      nodes = executable_nodes_of engine urls d (executable_of-ok _ a);
    }
