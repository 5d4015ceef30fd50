-- ===== src/Tests/Running.antt =====
-- Runs of the service export controller: an export `e` of the resource `foos.g`, with a binding that
-- claims secrets.
use kbind.Base.{ℕ, String, ◌≡◌, refl, true, false, none, some, List, [], ◌∷◌, ok, err, not_found}
use kbind.Base.Dict.{lookup}
use kbind.Base.Exec.{◌>>=◌}
use kbind.Conditions.{Conditions, Condition}
use kbind.ContextStore.{SyncContext, new_key, join, get}
use kbind.ExportSync.{BoundSchema, Export, Binding, Gvr, Server, provider_informer, prepare_claim}
use kbind.ExportSync.Controllers.{
  State, ensure_controller_for_schema, claim_key, process_claim, claim_goroutine_ended,
}
use kbind.Tests.{marks}
use kbind.ExportSync.Leaks.{NoLeak, Event, reconciled, goroutine_ended, run, initial, run-NoLeak}
use kbind.ExportSync.Copies
use kbind.ExportSync.Unbound.{copy_conditions-unbound}
use kbind.ExportSync.Restart.{IsSettled, ensure_controller_for_schema-IsSettled, process_claim-lost}

abbrev foos : BoundSchema
foos = record {
  name = "foos.g";
  group = "g";
  plural = "foos";
  scope = "Namespaced";
  informer_scope = "Namespaced";
  versions = record { name = "v1"; served = true } ∷ [];
}

abbrev exported : Export
exported = record {
  namespace = "ns";
  name = "e";
  generation = 1;
  isolation = "None";
  resources = record { group = "g"; resource = "foos"; versions = "v1" ∷ [] } ∷ [];
}

abbrev bound : Binding
bound = record {
  name = "e";
  generation = 4;
  permission_claims = record { group = ""; resource = "secrets" } ∷ [];
}

abbrev server : Server
server = record {
  service_binding = λ h n. ok bound;
  bound_schema = λ h n. ok foos;
  provider_namespace_uid = λ h. ok "uid";
  made = λ h c. ok tt;
  gvr_string = λ g. g.resource;
}

abbrev foos_context : SyncContext
foos_context = record { key = "ns.e.foos.g"; generation = 1; cancel = 0 }

-- The export is reconciled, the goroutine of the claim ends, and the export is gone.
abbrev events : List Event
events =
    reconciled server "ns" "e" (some exported)
    ∷ goroutine_ended "ns.e.claim.secrets"
    ∷ reconciled server "ns" "e" none
    ∷ []

run-NoLeak_example : NoLeak (run "cn" initial events)
run-NoLeak_example = run-NoLeak "cn" events

ensure_controller_for_schema-IsSettled_example :
    IsSettled
      (new_key "ns" "e" ("foos.g" ∷ []))
      1
      (ensure_controller_for_schema "cn" server exported foos initial)
ensure_controller_for_schema-IsSettled_example =
    ensure_controller_for_schema-IsSettled "cn" server exported foos initial

abbrev secrets : Gvr
secrets = record { group = ""; version = "v1"; resource = "secrets" }

-- A context of the binding's generation 3.
abbrev old_context : SyncContext
old_context = record { key = "ns.e.claim.secrets"; generation = 3; cancel = 0 }

abbrev outdated : State
outdated = record {
  sync_store = record { store = ("ns.e.claim.secrets", old_context) ∷ []; cancelled = [] };
  contexts = 1;
  calls = [];
}

is_outdated : get outdated.sync_store (claim_key "cn" server exported secrets) ≡ some old_context
unfolding get lookup claim_key new_key join
is_outdated = refl

is_prepared : (prepare_claim "cn" server secrets false []).0 ≡ ok true
unfolding prepare_claim provider_informer ◌>>=◌
is_prepared = refl

process_claim-lost_example :
    let key : String = claim_key "cn" server exported secrets in
    let r : State =
      claim_goroutine_ended key
        (process_claim "cn" server exported bound false
          (ok secrets)
          (record { processed_claims = []; claim_errors = [] })
          outdated).1 in
    (get r.sync_store key ≡ none) × (r.sync_store.cancelled ≡ 0 ∷ 1 ∷ [])
process_claim-lost_example =
    process_claim-lost "cn" server exported bound false secrets
      (record { processed_claims = []; claim_errors = [] }) outdated old_context is_outdated refl
      is_prepared

abbrev listed : Conditions (List Condition)
listed = record {
  mark_true = λ c k. k;
  mark_false = λ c r s m k. k;
  get_message = λ k c. "";
  get_condition = λ k c. none;
  is_false = λ k c. false;
  set_condition = λ x k. x ∷ k;
  set_summary = λ k. k;
}

abbrev copies : Copies.Server ℕ (List String)
copies = record {
  service_binding = λ h n. err not_found;
  bound_schema =
      λ h n. ok (record { name = n; conditions = []; accepted_names = 0; stored_versions = [] });
  crd = λ h n. ok (record { conditions = []; accepted_names = 1; stored_versions = "v1" ∷ [] });
  updated_bound_schema = λ h x. ok tt;
}

copy_conditions-unbound_example :
    (Copies.copy_conditions listed marks copies "e" exported.resources [] []).0.1
    ≡ "Connected" ∷ "NA" ∷ "APIServiceBindingNotFound" ∷ []
unfolding Copies.mark_unbound
copy_conditions-unbound_example =
    copy_conditions-unbound listed marks copies (λ h x. refl) "e" exported.resources [] [] refl
