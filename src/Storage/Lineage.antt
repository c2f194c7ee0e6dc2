-- ===== src/Storage/Lineage.antt =====
-- src/run-retention-resolution.ts: the retention class of a new run, by the first of an explicit
-- class, the run it descends from, the calling context and the default.
use Prim.Native.String.{String}
use text.Mathlib.Text.{◌==◌ as str_eq}
use workflow_world.Prelude.{
  Option, none, some, ◌||◌, List, [], ◌∷◌, if◌then◌else◌, or_else, is_some, select_first,
}
use workflow_world.Retention.{RunRetentionClass, interactive, resolve_run_retention_class}
use workflow_world.Storage.Schema.{Ident, Attributes, RunRow, Store}
use workflow_world.Storage.World.{World}
use workflow_world.Storage.Session.{
  Action, lineage_unresolved, retention_class_invalid, pure, raise, gets, on_option, branch,
  or_raise, ◌>>=◌,
}
use workflow_world.Storage.EventLog.{is_run}

pub record RunRetentionIdentity : Type 0 where
  pub retention_class : RunRetentionClass
  pub retention_root_run_id : Ident

unfoldable pub attribute : String → Attributes → Option String
attribute key [] = none
attribute key ((k, v) ∷ rest) = if str_eq k key then some v else attribute key rest

-- `new Set([rootRunId, parentRunId])` without the undefined members.
lineage : Option Ident → Option Ident → List Ident
lineage none none = []
lineage none (some p) = p ∷ []
lineage (some r) none = r ∷ []
lineage (some r) (some p) = if str_eq r p then r ∷ [] else r ∷ p ∷ []

first_ancestor : List RunRetentionIdentity → Option RunRetentionIdentity
first_ancestor [] = none
first_ancestor (a ∷ rest) = some a

abbrev identity_of : Option RunRow → Option RunRetentionIdentity
identity_of none = none
identity_of (some row) = some (record {
  retention_class = row.retention_class;
  retention_root_run_id = row.retention_root_run_id;
})

-- The loop over the lineage: the ancestors that exist, in order.
with_ancestor : Option RunRetentionIdentity → List RunRetentionIdentity → List RunRetentionIdentity
with_ancestor none found = found
with_ancestor (some a) found = a ∷ found

module _ (w : World) where
  ancestors : List Ident → Store → List RunRetentionIdentity
  unfolding with_ancestor
  ancestors [] s = []
  ancestors (run ∷ rest) s =
      with_ancestor (identity_of (select_first (is_run w run) s.runs)) (ancestors rest s)

  -- `resolveRunRetentionClassForCreation`, with the ancestors that were read.
  unfoldable pub class_for_creation :
      Option String → Attributes → List RunRetentionIdentity → Action RunRetentionClass
  unfolding first_ancestor resolve_run_retention_class
  class_for_creation value attributes found =
      let attribute_class = attribute "workflow-world.retention-class" attributes in
      let root = attribute "$rootRunId" attributes in
      let parent = attribute "$parentRunId" attributes in
      branch (is_some value || is_some attribute_class)
        (or_raise (resolve_run_retention_class value attribute_class) retention_class_invalid)
        (branch (is_some root || is_some parent)
          (on_option (first_ancestor found) (raise lineage_unresolved)
            (λ a. pure a.retention_class))
          (pure (or_else w.ambient_retention interactive)))

  root_of : List RunRetentionIdentity → Option Ident → Option Ident → Ident → Ident
  root_of (a ∷ rest) root parent run = a.retention_root_run_id
  root_of [] root parent run = or_else root (or_else parent run)

  unfoldable pub resolve_run_retention_for_creation :
      Ident → Option String → Attributes → Action RunRetentionIdentity
  unfolding lineage ancestors class_for_creation root_of
  resolve_run_retention_for_creation run value attributes = do
    let root = attribute "$rootRunId" attributes
    let parent = attribute "$parentRunId" attributes
    found ← gets (ancestors (lineage root parent))
    retention_class ← class_for_creation value attributes found
    pure (record {
      retention_class = retention_class;
      retention_root_run_id = root_of found root parent run;
    })
