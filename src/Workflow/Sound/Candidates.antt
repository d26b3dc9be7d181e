-- ===== src/Workflow/Sound/Candidates.antt =====
-- The values of a candidate (internal/workflow/records.go) are covered by the names of
-- `ValidateRecordSchema`, whatever the document is.
use get_magnet.Common.{
  ℕ, ◌≡◌, refl, sym, subst, ◌∙◌, inl, inr, Bool, true, false, Bool-cases, Option-cases, some,
  some-injective, String, str_eq, eq_iff, List, [], ◌∷◌, if◌then◌else◌, Result, ok, ok-injective,
  ◌>>◌, Ensures, succeeds, fails, Ensures-guard, Ensures-or_fail, Ensures->>=, Ensures->>,
  of_Ensures, All, and_right, exists, arith,
}
use get_magnet.Json.{Value, null, string, boolean, number, text_list, array, object, Object}
use get_magnet.Json.Objects.{lookup, insert}
use get_magnet.Workflow.{
  Engine, FieldRule, Node, string_value, value_of, is_some_value, node_applies,
}
use get_magnet.Workflow.Capabilities.{
  executable_node, executable_config, executable_body, executable_operations, is_filled,
  array_items,
}
use get_magnet.Workflow.Definition.{one_of}
use get_magnet.Workflow.Extract.{extract, extract_rules}
use get_magnet.Workflow.Names.{operations_names, rule_names, node_names, output_names}
use get_magnet.Workflow.Records.{
  Document, NodeError, wrap, extract_node_values, run_node, run_nodes, node_failed, not_extracted,
  not_transformed, extract_rest,
}
use get_magnet.Workflow.Sound.{Covers, Covers-insert, Covers-more, one_of-here}
use get_magnet.Workflow.Sound.Nodes.{run_operations-Covers}
use get_magnet.Workflow.Sound.Operations.{KeepsWords}
use get_magnet.Workflow.Transform.{apply_transform, apply_operations}

Ensures-wrap {ℓ} :
    {E F : Type 0} {A : Type ℓ} {P : A → Type 0} {r : Result E A} (f : E → F)
    → Ensures P r
    → Ensures P (wrap f r)
Ensures-wrap f (succeeds h) = succeeds h
Ensures-wrap f fails = fails

pub Covers-nothing : (names : List String) → Covers names []
unfolding lookup is_some_value
Covers-nothing names k there = absurd (ground arith)

rest_of_kinds :
    (b : Bool) (checked : Result NodeError (Unit {0})) (names : List String) (values : Object)
    → Covers names values
    → Ensures (Covers names) (if b then checked >> ok values else ok values)
rest_of_kinds true checked names values c = Ensures->> (λ _. succeeds c)
rest_of_kinds false checked names values c = succeeds c

module _ (engine : Engine) where
  extract_rules-Covers :
      (content_type content : String) (rules : List FieldRule) (names : List String)
      (values : Object)
      → Covers names values
      → Ensures
          (Covers (rule_names rules names))
          (extract_rules engine content_type content rules values)
  unfolding extract_rules rule_names
  extract_rules-Covers content_type content [] names values c = succeeds c
  extract_rules-Covers content_type content (rule ∷ rules) names values c =
      Ensures-guard _ (λ named. Ensures->>= (λ found _. Ensures->>= (λ v _.
        extract_rules-Covers content_type content rules (rule.name ∷ names)
          (insert rule.name v values)
          (Covers-insert (rule.name ∷ names) rule.name v values (one_of-here names rule.name)
            (Covers-more names rule.name values c)))))

  extract-Covers :
      (content_type content : String) (rules : List FieldRule) (names : List String)
      → Ensures (Covers (rule_names rules names)) (extract engine content_type content rules)
  unfolding extract
  extract-Covers content_type content rules names =
      Ensures-guard _
        (λ filled. extract_rules-Covers _ content rules names [] (Covers-nothing names))

  apply_operations-Covers :
      KeepsWords engine
      → (v : Value) (names : List String) (values : Object)
      → executable_operations (array_items engine v) ≡ true
      → Covers names values
      → Ensures
          (Covers (operations_names (string_value engine) (array_items engine v) names))
          (apply_operations engine v values)
  unfolding apply_operations operations_names
  apply_operations-Covers keeps (array vs) names values h c =
      run_operations-Covers engine keeps vs 0 names values h c
  apply_operations-Covers keeps null names values h c = succeeds c
  apply_operations-Covers keeps (string s) names values h c = fails
  apply_operations-Covers keeps (boolean b) names values h c = fails
  apply_operations-Covers keeps (number n) names values h c = fails
  apply_operations-Covers keeps (text_list ts) names values h c = fails
  apply_operations-Covers keeps (object m) names values h c = fails

  -- The operations of a transform node that may be executed.
  transform_operations :
      (node : Node)
      → executable_node engine node ≡ true
      → str_eq node.kind "transform" ≡ true
      → executable_operations (array_items engine (value_of "operations" node.config)) ≡ true
  unfolding executable_node executable_body one_of exists
  transform_operations node h e =
      let same : node.kind ≡ "transform" = (eq_iff node.kind "transform").0 e in
      let body : executable_body engine node ≡ true =
        and_right (executable_config engine node) (executable_body engine node) h in
      let other : one_of ("extract" ∷ "discover" ∷ []) node.kind ≡ false =
        subst (λ s. one_of ("extract" ∷ "discover" ∷ []) s ≡ false) (sym same) refl in
      and_right (is_filled engine (value_of "operations" node.config))
        (executable_operations (array_items engine (value_of "operations" node.config)))
        (rw (executable_body, other, e) at body)

  extract_node-Covers :
      (node : Node) (document : Document) (names : List String) {rules : List FieldRule}
      → engine.decode_rules (value_of "fields" node.config) ≡ some rules
      → Ensures (Covers (rule_names rules names)) (extract_node_values engine node document)
  unfolding extract_node_values
  extract_node-Covers node document names {rules} e = Ensures-or_fail _ (λ found same.
      let rules_same : found ≡ rules = some-injective (sym same ∙ e) in
      subst (λ rs. Ensures (Covers (rule_names rs names)) (extract_rest engine document node found))
        rules_same
        (Ensures-guard _ (λ there. Ensures-wrap not_extracted (extract-Covers _ _ found names))))

  -- One node, under the names that it leaves.
  run_node-Covers :
      KeepsWords engine
      → (node : Node) (document : Document) (names : List String) (values : Object)
        (after : List String)
      → executable_node engine node ≡ true
      → node_names engine node names ≡ some after
      → Covers names values
      → Ensures (Covers after) (run_node engine node document values)
  unfolding run_node node_names apply_transform
  run_node-Covers keeps node document names values after h e c =
      elim (Bool-cases (str_eq node.kind "extract")) [
        | inl is_extract ↦
            elim (Option-cases (engine.decode_rules (value_of "fields" node.config))) [
              | inl bad ↦ absurd (ground (arith, rw (node_names, is_extract, bad) at e))
              | inr (rules, good) ↦
                  let same : rule_names rules names ≡ after =
                    some-injective (rw (node_names, is_extract, good) at e) in
                  rw (run_node, is_extract, ← same) (extract_node-Covers node document names good)
            ]
        | inr not_extract ↦ elim (Bool-cases (str_eq node.kind "transform")) [
          | inl is_transform ↦
              let operations = array_items engine (value_of "operations" node.config) in
              let same : operations_names (string_value engine) operations names ≡ after =
                some-injective (rw (node_names, not_extract, is_transform) at e) in
              rw (run_node, not_extract, is_transform, ← same)
                (Ensures-wrap not_transformed (
                  apply_operations-Covers keeps (value_of "operations" node.config) names values
                    (transform_operations node h is_transform) c))
          | inr not_transform ↦
              let same : names ≡ after =
                some-injective (rw (node_names, not_extract, not_transform) at e) in
              rw (run_node, not_extract, not_transform, ← same)
                (rest_of_kinds (str_eq node.kind "validate") _ names values c)
        ]
      ]

  -- All nodes of a page role.
  pub run_nodes-Covers :
      KeepsWords engine
      → (nodes : List Node) (i : ℕ) (role : String) (document : Document) (names : List String)
        (values : Object) (after : List String)
      → All (λ node. executable_node engine node ≡ true) nodes
      → output_names engine nodes role names ≡ some after
      → Covers names values
      → Ensures (Covers after) (run_nodes engine i nodes role document values)
  unfolding run_nodes output_names
  run_nodes-Covers keeps [] i role document names values after h e c =
      succeeds (subst (λ ns. Covers ns values) (some-injective e) c)
  run_nodes-Covers keeps (node ∷ nodes) i role document names values after h e c =
      elim (Bool-cases (node_applies engine node role)) [
        | inr skipped ↦
            rw (run_nodes, skipped)
              (Ensures->>= (λ values' same.
                run_nodes-Covers keeps nodes i role document names values' after h.1
                  (rw (output_names, skipped) at e) (subst (Covers names) (ok-injective same) c)))
        | inl applies ↦ elim (Option-cases (node_names engine node names)) [
          | inl bad ↦ absurd (ground (arith, rw (output_names, applies, bad) at e))
          | inr (mid, good) ↦
              rw (run_nodes, applies)
                (Ensures->>= (λ values' ran.
                  run_nodes-Covers keeps nodes i role document mid values' after h.1
                    (rw (output_names, applies, good) at e)
                    (of_Ensures
                      (Ensures-wrap (node_failed i node.name)
                        (run_node-Covers keeps node document names values mid h.0 good c))
                      ran)))
        ]
      ]
