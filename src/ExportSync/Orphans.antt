-- ===== src/ExportSync/Orphans.antt =====
-- serviceexport_reconcile.go: which contexts ensureControllers leaves.
use kbind.Base.{String, ◌⊎◌, ◌≡◌, true, ◌||◌, List, map, contains, Result, ok, err, not_found}
use kbind.Base.Text.{has_prefix}
use kbind.ContextStore.Bulk.{IsStore}
use kbind.ContextStore.Invariant.{set-IsStore, delete-IsStore}
use kbind.ExportRequest.{resource_group_name}
use kbind.ExportSync.{Export, Binding}
use kbind.ExportSync.Controllers.{State, start_context}
use kbind.ExportSync.Keeps.{IsStable}
use Prim.Native.String.{◌++◌ as ◌+ˢ◌}

-- The store's keys are distinct.
abbrev pub HasStore : State → Type 0
HasStore s = IsStore s.sync_store

pub HasStore-IsStable : IsStable HasStore
unfolding start_context
HasStore-IsStable = record {
  calls = λ s h d. d;
  starts = λ key generation s n d. set-IsStore s.sync_store key _ d;
  deletes = λ key s d. delete-IsStore s.sync_store key d;
}

-- The names of the resources of an export.
abbrev pub resource_names : Export → List String
resource_names export = map resource_group_name export.resources

-- A key of the export for one of its resources or for a claim. A key that does not go on with a dot
-- is compared as a whole.
abbrev pub IsOwn : String → Export → String → Type 0
IsOwn export_key export key =
    (rest : String) × ((key ≡ (export_key +ˢ ".") +ˢ rest) ⊎ (key ≡ rest))
    × ((has_prefix rest "claim." || contains (resource_names export) rest) ≡ true)

-- What may be left under the key of the export, by what is answered when its binding is asked for:
-- its own keys with a binding, nothing without. After another error nothing is said.
abbrev pub IsAllowed : String → Export → Result Binding → String → Type 0
IsAllowed export_key export (ok _) key = IsOwn export_key export key
IsAllowed export_key export (err not_found) key = ⊥
IsAllowed export_key export (err _) key = Unit
