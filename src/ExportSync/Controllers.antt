-- ===== src/ExportSync/Controllers.antt =====
-- serviceexport_reconcile.go: ensureControllers, ensureControllerForSchema,
-- ensureControllersForPermissionClaims and ensureControllerForPermissionClaim.
use kbind.Base.{
  ℕ, suc, String, Bool, true, false, ◌||◌, Option, none, some, List, [], ◌∷◌, ◌++◌, if◌then◌else◌,
  eqb, contains, Error, Result, ok, err, Outcome, done, not_found, ◌=ˢ◌,
}
use kbind.Base.Exec.{Exec, call}
use kbind.Base.Text.{has_prefix, trim_prefix}
use kbind.Claims.{ExportResource}
use kbind.ContextStore.{
  SyncContext, ContextStore, new_key, get, set, delete, list_prefixed, bulk_delete_prefixed,
}
use kbind.ExportRequest.{resource_group_name}
use kbind.ExportSync.{
  BoundSchema, Export, PermissionClaim, Binding, Gvr, Call, Server, resolve_claimable_api,
  prepare_schema, prepare_claim, get_service_binding, get_remote_bound_schema,
}
use Prim.Native.String.{◌++◌ as ◌+ˢ◌}

-- The store, how many contexts were made so far, and the calls so far. The identity of the next
-- context is their number.
pub record State : Type 0 where
  pub sync_store : ContextStore
  pub contexts : ℕ
  pub calls : List Call

abbrev pub run_calls : {A : Type 0} → Exec Call A → State → Result A × State
run_calls m s = ((m s.calls).0, record s { calls = (m s.calls).1 })

abbrev pub with_store : State → ContextStore → State
with_store s c = record s { sync_store = c }

-- `context.WithCancel`, and the entry of the store.
unfoldable pub start_context : String → ℕ → State → State
start_context key generation s = record s {
  sync_store =
      set s.sync_store key (record { key = ""; generation = generation; cancel = s.contexts });
  contexts = suc s.contexts;
}

unfoldable pub is_current : Option SyncContext → ℕ → Bool
is_current none generation = false
is_current (some c) generation = eqb c.generation generation

-- A context of another generation is stopped.
unfoldable pub stop_found : String → Option SyncContext → State → State
stop_found key none s = s
stop_found key (some c) s = with_store s (delete s.sync_store key)

unfoldable pub start_prepared : String → ℕ → Result Bool × State → Outcome × State
start_prepared key generation (ok true, s) = (done, start_context key generation s)
start_prepared key generation (ok false, s) = (done, s)
start_prepared key generation (err e, s) = (err e, s)

-- What both kinds of controllers do: nothing where a context of the generation is there, else stop
-- the one that is there, prepare, and start.
unfoldable pub ensure_running : String → ℕ → Exec Call Bool → State → Outcome × State
unfolding is_current stop_found start_prepared
ensure_running key generation prepare s =
    let found = get s.sync_store key in
    if is_current found generation
    then (done, s)
    else start_prepared key generation (run_calls prepare (stop_found key found s))

-- The loop that deletes the listed contexts that are not to be kept.
unfoldable pub delete_unless : (String → Bool) → List SyncContext → ContextStore → ContextStore
delete_unless kept [] c = c
delete_unless kept (x ∷ xs) c = delete_unless kept xs (if kept x.key then c else delete c x.key)

abbrev pub errors_of : Outcome → List Error
errors_of (ok _) = []
errors_of (err e) = e ∷ []

-- What the loop over the resources gathers: `processedSchemas`, `isClusterScoped` and `errs`.
pub record Pass : Type 0 where
  pub processed_schemas : List String
  pub is_cluster_scoped : Bool
  pub errors : List Error

-- What the loop over the claims gathers: `processedClaims` and `errs`.
pub record ClaimPass : Type 0 where
  pub processed_claims : List String
  pub claim_errors : List Error

-- The clean-up of claims that are no longer there.
unfoldable pub stop_claims : Export → List String → ContextStore → ContextStore
unfolding delete_unless
stop_claims export processed c =
    delete_unless (contains processed)
      (list_prefixed c (new_key export.namespace export.name ("claim" ∷ []))) c

-- Whether the last loop keeps a context of the export.
unfoldable pub is_kept : String → List String → String → Bool
is_kept export_key processed key =
    let schema_name = trim_prefix key (export_key +ˢ ".") in
    has_prefix schema_name "claim." || contains processed schema_name

-- The clean-up of schemas that are no longer referenced.
unfoldable pub stop_schemas : String → List String → ContextStore → ContextStore
unfolding delete_unless is_kept
stop_schemas export_key processed c =
    delete_unless (is_kept export_key processed) (list_prefixed c export_key) c

unfoldable pub stop_all : String → State → State
stop_all export_key s = with_store s (bulk_delete_prefixed s.sync_store export_key).0

module _ (cluster_namespace : String) (server : Server) where
  unfoldable pub ensure_controller_for_schema : Export → BoundSchema → State → Outcome × State
  unfolding ensure_running
  ensure_controller_for_schema export schema s =
      ensure_running (new_key export.namespace export.name (schema.name ∷ [])) export.generation
        (prepare_schema cluster_namespace server export schema) s

  -- `namespace` is the argument of `ensureControllers`; in the loop `name` is the resource's.
  unfoldable pub process_schema :
      String → Export → String → Result BoundSchema → Pass → State → Pass × State
  unfolding ensure_controller_for_schema
  process_schema namespace export name (ok schema) p s =
      let ensured = ensure_controller_for_schema export schema s in
      (
        record {
          processed_schemas = name ∷ p.processed_schemas;
          is_cluster_scoped = schema.informer_scope =ˢ "Cluster";
          errors = p.errors ++ errors_of ensured.0;
        },
        ensured.1,
      )
  process_schema namespace export name (err not_found) p s =
      let key = new_key namespace name (name ∷ []) in
      (p, with_store s (bulk_delete_prefixed s.sync_store key).0)
  process_schema namespace export name (err e) p s = (record p { errors = p.errors ++ e ∷ [] }, s)

  unfoldable pub process_resources :
      String → Export → List ExportResource → Pass → State → Pass × State
  unfolding process_schema
  process_resources namespace export [] p s = (p, s)
  process_resources namespace export (res ∷ rest) p s =
      let name = resource_group_name res in
      let got =
        run_calls (call (get_remote_bound_schema name) (λ h. server.bound_schema h name)) s in
      let r = process_schema namespace export name got.0 p got.1 in
      process_resources namespace export rest r.0 r.1

  unfoldable pub claim_key : Export → Gvr → String
  claim_key export gvr = new_key export.namespace export.name ("claim" ∷ server.gvr_string gvr ∷ [])

  unfoldable pub process_claim :
      Export → Binding → Bool → Result Gvr → ClaimPass → State → ClaimPass × State
  unfolding ensure_running claim_key
  process_claim export binding is_cluster_scoped (err e) p s = (p, s)
  process_claim export binding is_cluster_scoped (ok gvr) p s =
      let key = claim_key export gvr in
      let ensured =
        ensure_running key binding.generation
          (prepare_claim cluster_namespace server gvr is_cluster_scoped) s in
      (
        record {
          processed_claims = key ∷ p.processed_claims;
          claim_errors = p.claim_errors ++ errors_of ensured.0;
        },
        ensured.1,
      )

  unfoldable pub process_claims :
      Export → Binding → Bool → List PermissionClaim → ClaimPass → State → ClaimPass × State
  unfolding process_claim
  process_claims export binding is_cluster_scoped [] p s = (p, s)
  process_claims export binding is_cluster_scoped (claim ∷ rest) p s =
      let r = process_claim export binding is_cluster_scoped (resolve_claimable_api claim) p s in
      process_claims export binding is_cluster_scoped rest r.0 r.1

  unfoldable pub ensure_controllers_for_permission_claims :
      Export → Binding → Bool → State → List Error × State
  unfolding process_claims stop_claims
  ensure_controllers_for_permission_claims export binding is_cluster_scoped s =
      let r =
        process_claims export binding is_cluster_scoped binding.permission_claims
          (record { processed_claims = []; claim_errors = [] }) s in
      (r.0.claim_errors, with_store r.1 (stop_claims export r.0.processed_claims r.1.sync_store))

  unfoldable pub ensure_bound : String → String → Export → Binding → State → List Error × State
  unfolding process_resources ensure_controllers_for_permission_claims stop_schemas
  ensure_bound namespace export_key export binding s =
      let r =
        process_resources namespace export export.resources
          (record { processed_schemas = []; is_cluster_scoped = false; errors = [] }) s in
      let t = ensure_controllers_for_permission_claims export binding r.0.is_cluster_scoped r.1 in
      (
        r.0.errors ++ t.0,
        with_store t.1 (stop_schemas export_key r.0.processed_schemas t.1.sync_store),
      )

  unfoldable pub ensure_with_binding :
      String → String → Export → Result Binding → State → List Error × State
  unfolding ensure_bound stop_all
  ensure_with_binding namespace export_key export (ok binding) s =
      ensure_bound namespace export_key export binding s
  ensure_with_binding namespace export_key export (err not_found) s = ([], stop_all export_key s)
  ensure_with_binding namespace export_key export (err e) s = (e ∷ [], s)

  -- `none` is an export that is gone. The errors are those of the aggregate.
  unfoldable pub ensure_controllers : String → String → Option Export → State → List Error × State
  unfolding ensure_with_binding stop_all
  ensure_controllers namespace name none s = ([], stop_all (namespace +ˢ "." +ˢ name) s)
  ensure_controllers namespace name (some export) s =
      let got =
        run_calls
          (call (get_service_binding export.name) (λ h. server.service_binding h export.name)) s in
      ensure_with_binding namespace (namespace +ˢ "." +ˢ name) export got.0 got.1

-- The deferred call in the goroutine of a claim's controller, when that goroutine ends.
unfoldable pub claim_goroutine_ended : String → State → State
claim_goroutine_ended key s = with_store s (delete s.sync_store key)
