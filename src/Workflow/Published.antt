-- ===== src/Workflow/Published.antt =====
-- A document that may be published for a dataset never produces a field that the dataset does not
-- have (internal/workflow/records.go, internal/record/model.go).
use get_magnet.Common.{
  ℕ, suc, ◌≡◌, ◌≢◌, refl, inl, inr, Bool, false, Bool-cases, Option, none, some, String, List, [],
  ◌∷◌, Result, ok, err, of_Ensures, errs, errs->>=, errs->>, errs-guard, errs-or_fail, arith,
}
use get_magnet.CrawlPolicy.{Urls}
use get_magnet.Json.{Value, null, string, boolean, number, text_list, array, object, Items, Object}
use get_magnet.Record.{
  Codec, Field, Schema, Prepared, field_named, normalize_all, normalize_entry, prepare,
}
use get_magnet.Record as Record
use get_magnet.Record.Known.{is_unknown, HasFields, prepare-known}
use get_magnet.Workflow.{Engine, Node, node_applies}
use get_magnet.Workflow.Definition.{Definition}
use get_magnet.Workflow.Executable.{validate_record_schema}
use get_magnet.Workflow.Records.{
  Document, CandidateError, wrap, run_node, run_nodes, node_failed, not_prepared, candidates_of,
  item_documents, array_of_items, documents_of, record_candidates, schema_refused,
}
use get_magnet.Workflow.Sound.{Covers}
use get_magnet.Workflow.Sound.Candidates.{run_nodes-Covers, Covers-nothing}
use get_magnet.Workflow.Sound.Operations.{KeepsWords}
use get_magnet.Workflow.Accepted.{IsPublished, HasFields-of_keys, published}

-- The error of a candidate with an unknown field.
abbrev is_unknown_field : CandidateError → Bool
is_unknown_field (not_prepared i e) = is_unknown e
is_unknown_field _ = false

errs-wrap :
    {E : Type 0} {A : Type 0} (f : E → CandidateError) (r : Result E A)
    → ((e : E) → is_unknown_field (f e) ≡ false)
    → errs is_unknown_field (wrap f r) ≡ false
errs-wrap f (ok a) h = refl
errs-wrap f (err e) h = h e

wrap-ok :
    {E : Type 0} (f : E → CandidateError) (r : Result E (Unit {0})) → wrap f r ≡ ok tt → r ≡ ok tt
wrap-ok f (ok u) h = refl
wrap-ok f (err e) h = cc

prepared-known :
    (i : ℕ) (r : Result Record.Error Prepared)
    → errs is_unknown r ≡ false
    → errs is_unknown_field (wrap (not_prepared i) r) ≡ false
prepared-known i (ok p) h = refl
prepared-known i (err e) h = h

module _ (engine : Engine) (codec : Codec) where
  nodes-known :
      (i : ℕ) (nodes : List Node) (role : String) (document : Document) (values : Object)
      → errs is_unknown_field (run_nodes engine i nodes role document values) ≡ false
  unfolding run_nodes
  nodes-known i [] role document values = refl
  nodes-known i (node ∷ nodes) role document values =
      elim (Bool-cases (node_applies engine node role)) [
        | inl e ↦
            rw (run_nodes, e)
              (errs->>= is_unknown_field _ _
                (errs-wrap (node_failed i node.name) (run_node engine node document values)
                  (λ bad. refl))
                (λ v _. nodes-known i nodes role document v))
        | inr e ↦
            rw (run_nodes, e)
              (errs->>= is_unknown_field _ _ refl (λ v _. nodes-known i nodes role document v))
      ]

  candidates-known :
      KeepsWords engine
      → (d : Definition) (schema : Schema) (role : String) (documents : List Document) (i : ℕ)
      → IsPublished engine d schema role
      → errs is_unknown_field (candidates_of engine codec i d.nodes role schema documents) ≡ false
  unfolding candidates_of
  candidates-known keeps d schema role [] i p = refl
  candidates-known keeps d schema role (document ∷ documents) i p =
      errs->>= is_unknown_field _ _ (nodes-known i d.nodes role document []) (λ values ran.
        let covered : Covers p.names values =
          of_Ensures
            (run_nodes-Covers engine keeps d.nodes i role document [] [] p.names p.nodes p.output
              (Covers-nothing []))
            ran in
        let fields : HasFields schema.fields values =
          HasFields-of_keys schema.fields values (λ k there. p.known k (covered k there)) in
        errs->>= is_unknown_field _ _
          (prepared-known i (prepare codec schema (some values))
            (prepare-known codec schema values fields))
          (λ prepared _.
            errs->>= is_unknown_field _ _ (candidates-known keeps d schema role documents (suc i) p)
              (λ others _. refl)))

  items-known : (vs : Items) → errs is_unknown_field (item_documents engine codec vs) ≡ false
  unfolding item_documents
  items-known Items.no_items = refl
  items-known (Items.item (object m) vs) =
      errs->>= is_unknown_field _ _ (errs-or_fail is_unknown_field _ _ refl)
        (λ encoded _. errs->>= is_unknown_field _ _ (items-known vs) (λ others _. refl))
  items-known (Items.item null vs) = refl
  items-known (Items.item (string s) vs) = refl
  items-known (Items.item (boolean b) vs) = refl
  items-known (Items.item (number n) vs) = refl
  items-known (Items.item (text_list ts) vs) = refl
  items-known (Items.item (array ws) vs) = refl

  array-known : (v : Value) → errs is_unknown_field (array_of_items engine codec v) ≡ false
  unfolding array_of_items
  array-known (array vs) = refl
  array-known null = refl
  array-known (string s) = refl
  array-known (boolean b) = refl
  array-known (number n) = refl
  array-known (text_list ts) = refl
  array-known (object m) = refl

  documents-known :
      (path : Option Value) (document : Document)
      → errs is_unknown_field (documents_of engine codec path document) ≡ false
  unfolding documents_of
  documents-known (some (string path)) document =
      errs->>= is_unknown_field _ _ (errs-or_fail is_unknown_field _ _ refl) (λ root _.
        errs->>= is_unknown_field _ _ (errs-or_fail is_unknown_field _ _ refl) (λ found _.
          errs->>= is_unknown_field _ _ (array-known found) (λ vs _.
            errs->> is_unknown_field _ _ (errs-guard is_unknown_field _ _ refl)
              (λ _. items-known vs))))
  documents-known none document = refl
  documents-known (some null) document = refl
  documents-known (some (boolean b)) document = refl
  documents-known (some (number n)) document = refl
  documents-known (some (text_list ts)) document = refl
  documents-known (some (array ws)) document = refl
  documents-known (some (object m)) document = refl

  candidates_result :
      KeepsWords engine
      → (urls : Urls) (d : Definition) (document : Document) (role : String) (schema : Schema)
      → errs is_unknown_field (record_candidates engine codec urls d document role schema) ≡ false
  unfolding record_candidates
  candidates_result keeps urls d document role schema =
      errs->> is_unknown_field _ _
        (errs-wrap schema_refused (validate_record_schema engine urls d schema role) (λ bad. refl))
        (λ accepted. errs->>= is_unknown_field _ _ (documents-known _ document) (λ documents _.
          candidates-known keeps d schema role documents 0
            (published engine urls d schema role (wrap-ok schema_refused _ accepted))))

  -- Whatever a document holds, and for every page role: a workflow that `ValidateRecordSchema` accepts
  -- for a dataset never fails on a candidate because of a field that the dataset does not have. So
  -- the static pass over the field names accounts for all that the nodes produce. `strings.ToLower`
  -- is taken to keep the nine words of the operations.
  pub record_candidates-known :
      KeepsWords engine
      → (urls : Urls) (d : Definition) (document : Document) (role : String) (schema : Schema)
        (i : ℕ) (name : String)
      → record_candidates engine codec urls d document role schema
        ≢ err (not_prepared i (Record.Error.unknown_field name))
  record_candidates-known keeps urls d document role schema i name e =
      absurd (ground (arith, rw e at (candidates_result keeps urls d document role schema)))
