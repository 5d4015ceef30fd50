-- ===== src/ExportSync/Keeps.antt =====
-- serviceexport_reconcile.go: the predicates that calls, starts and deletions keep, over a whole
-- reconciliation.
use kbind.Base.{
  ℕ, String, ◌≡◌, refl, Bool, true, false, Option, none, some, List, [], ◌∷◌, map, Bool-cases, inl,
  inr, Result, ok, err, not_found, already_exists, invalid, other, contains,
}
use kbind.Base.Dict.{lookup-remove_self}
use kbind.Base.Exec.{Exec, call}
use kbind.Claims.{ExportResource}
use kbind.ContextStore.{
  SyncContext, new_key, get, delete, delete_keys, bulk_delete_prefixed, entries_prefixed,
  list_prefixed,
}
use kbind.ExportRequest.{resource_group_name}
use kbind.ExportSync.{
  BoundSchema, Export, PermissionClaim, Binding, Gvr, Call, Server, resolve_claimable_api,
  prepare_schema, prepare_claim, get_remote_bound_schema,
}
use kbind.ExportSync.Controllers.{
  State, with_store, run_calls, start_context, stop_found, start_prepared, ensure_running,
  is_current, delete_unless, Pass, ClaimPass, ensure_controller_for_schema, process_schema,
  process_resources, process_claim, process_claims, stop_claims, is_kept, claim_key,
  ensure_controllers_for_permission_claims, stop_schemas, stop_all, ensure_bound,
  ensure_with_binding, ensure_controllers,
}
use Prim.Native.String.{◌++◌ as ◌+ˢ◌}

-- A predicate on states that each step keeps. A context is started only where none is.
pub record IsStable (P : State → Type 0) : Type 0 where
  pub calls : (s : State) (h : List Call) → P s → P (record s { calls = h })
  pub starts :
      (key : String) (generation : ℕ) (s : State)
      → get s.sync_store key ≡ none
      → P s
      → P (start_context key generation s)
  pub deletes : (key : String) (s : State) → P s → P (with_store s (delete s.sync_store key))

pub stop_found-none :
    (key : String) (found : Option SyncContext) (s : State)
    → get s.sync_store key ≡ found
    → get (stop_found key found s).sync_store key ≡ none
unfolding stop_found get delete
stop_found-none key none s e = e
stop_found-none key (some c) s e = lookup-remove_self key s.sync_store.store

module _ {P : State → Type 0} (stable : IsStable P) where
  pub delete_keys-Keeps :
      (ks : List String) (s : State) → P s → P (with_store s (delete_keys ks s.sync_store))
  unfolding delete_keys
  delete_keys-Keeps [] s p = p
  delete_keys-Keeps (k ∷ ks) s p =
      delete_keys-Keeps ks (with_store s (delete s.sync_store k)) (stable.deletes k s p)

  bulk-Keeps :
      (prefix : String) (s : State)
      → P s
      → P (with_store s (bulk_delete_prefixed s.sync_store prefix).0)
  unfolding bulk_delete_prefixed
  bulk-Keeps prefix s p =
      delete_keys-Keeps (map (λ e. e.0) (entries_prefixed prefix s.sync_store.store)) s p

  pub delete_unless-Keeps :
      (kept : String → Bool) (xs : List SyncContext) (s : State)
      → P s
      → P (with_store s (delete_unless kept xs s.sync_store))
  unfolding delete_unless
  delete_unless-Keeps kept [] s p = p
  delete_unless-Keeps kept (x ∷ xs) s p = elim (Bool-cases (kept x.key)) [
    | inl e ↦ rw e (delete_unless-Keeps kept xs s p)
    | inr e ↦ rw e (
        delete_unless-Keeps kept xs (with_store s (delete s.sync_store x.key))
          (stable.deletes x.key s p))
  ]

  start_prepared-Keeps :
      (key : String) (generation : ℕ) (r : Result Bool) (s : State)
      → get s.sync_store key ≡ none
      → P s
      → P (start_prepared key generation (r, s)).1
  unfolding start_prepared
  start_prepared-Keeps key generation (ok true) s n p = stable.starts key generation s n p
  start_prepared-Keeps key generation (ok false) s n p = p
  start_prepared-Keeps key generation (err e) s n p = p

  stop_found-Keeps :
      (key : String) (found : Option SyncContext) (s : State) → P s → P (stop_found key found s)
  unfolding stop_found
  stop_found-Keeps key none s p = p
  stop_found-Keeps key (some c) s p = stable.deletes key s p

  pub ensure_running-Keeps :
      (key : String) (generation : ℕ) (prepare : Exec Call Bool) (s : State)
      → P s
      → P (ensure_running key generation prepare s).1
  unfolding ensure_running
  ensure_running-Keeps key generation prepare s p =
      let found = get s.sync_store key in
      let stopped = stop_found key found s in
      elim (Bool-cases (is_current found generation)) [
        | inl e ↦ rw e p
        | inr e ↦ rw e (
            start_prepared-Keeps key generation (prepare stopped.calls).0
              (run_calls prepare stopped).1 (stop_found-none key found s refl)
              (stable.calls stopped _ (stop_found-Keeps key found s p)))
      ]

  stop_claims-Keeps :
      (export : Export) (processed : List String) (s : State)
      → P s
      → P (with_store s (stop_claims export processed s.sync_store))
  unfolding stop_claims
  stop_claims-Keeps export processed s i =
      delete_unless-Keeps (contains processed)
        (list_prefixed s.sync_store (new_key export.namespace export.name ("claim" ∷ []))) s i

  stop_schemas-Keeps :
      (export_key : String) (processed : List String) (s : State)
      → P s
      → P (with_store s (stop_schemas export_key processed s.sync_store))
  unfolding stop_schemas
  stop_schemas-Keeps export_key processed s i =
      delete_unless-Keeps (is_kept export_key processed) (list_prefixed s.sync_store export_key) s i

  module _ (cluster_namespace : String) (server : Server) where
    process_schema-Keeps :
        (namespace : String) (export : Export) (name : String) (got : Result BoundSchema) (p : Pass)
        (s : State)
        → P s
        → P (process_schema cluster_namespace server namespace export name got p s).1
    unfolding process_schema ensure_controller_for_schema
    process_schema-Keeps namespace export name (ok schema) p s i =
        ensure_running-Keeps (new_key export.namespace export.name (schema.name ∷ []))
          export.generation (prepare_schema cluster_namespace server export schema) s i
    process_schema-Keeps namespace export name (err not_found) p s i =
        bulk-Keeps (new_key namespace name (name ∷ [])) s i
    process_schema-Keeps namespace export name (err already_exists) p s i = i
    process_schema-Keeps namespace export name (err invalid) p s i = i
    process_schema-Keeps namespace export name (err (other _)) p s i = i

    pub process_resources-Keeps :
        (namespace : String) (export : Export) (rs : List ExportResource) (p : Pass) (s : State)
        → P s
        → P (process_resources cluster_namespace server namespace export rs p s).1
    unfolding process_resources
    process_resources-Keeps namespace export [] p s i = i
    process_resources-Keeps namespace export (res ∷ rest) p s i =
        let name = resource_group_name res in
        let got =
          run_calls (call (get_remote_bound_schema name) (λ h. server.bound_schema h name)) s in
        let r = process_schema cluster_namespace server namespace export name got.0 p got.1 in
        process_resources-Keeps namespace export rest r.0 r.1
          (process_schema-Keeps namespace export name got.0 p got.1 (stable.calls s _ i))

    process_claim-Keeps :
        (export : Export) (binding : Binding) (wide : Bool) (got : Result Gvr) (p : ClaimPass)
        (s : State)
        → P s
        → P (process_claim cluster_namespace server export binding wide got p s).1
    unfolding process_claim
    process_claim-Keeps export binding wide (err e) p s i = i
    process_claim-Keeps export binding wide (ok gvr) p s i =
        ensure_running-Keeps (claim_key cluster_namespace server export gvr) binding.generation
          (prepare_claim cluster_namespace server gvr wide) s i

    process_claims-Keeps :
        (export : Export) (binding : Binding) (wide : Bool) (claims : List PermissionClaim)
        (p : ClaimPass) (s : State)
        → P s
        → P (process_claims cluster_namespace server export binding wide claims p s).1
    unfolding process_claims
    process_claims-Keeps export binding wide [] p s i = i
    process_claims-Keeps export binding wide (claim ∷ rest) p s i =
        let got = resolve_claimable_api claim in
        let r = process_claim cluster_namespace server export binding wide got p s in
        process_claims-Keeps export binding wide rest r.0 r.1
          (process_claim-Keeps export binding wide got p s i)

    pub claims-Keeps :
        (export : Export) (binding : Binding) (wide : Bool) (s : State)
        → P s
        → P
            (ensure_controllers_for_permission_claims cluster_namespace server export binding wide
              s).1
    unfolding ensure_controllers_for_permission_claims
    claims-Keeps export binding wide s i = stop_claims-Keeps export _ _ (
        process_claims-Keeps export binding wide binding.permission_claims
          (record { processed_claims = []; claim_errors = [] }) s i)

    ensure_bound-Keeps :
        (namespace export_key : String) (export : Export) (binding : Binding) (s : State)
        → P s
        → P (ensure_bound cluster_namespace server namespace export_key export binding s).1
    unfolding ensure_bound
    ensure_bound-Keeps namespace export_key export binding s i = stop_schemas-Keeps export_key _ _ (
        claims-Keeps export binding _ _ (
          process_resources-Keeps namespace export export.resources
            (record { processed_schemas = []; is_cluster_scoped = false; errors = [] }) s i))

    with_binding-Keeps :
        (namespace export_key : String) (export : Export) (got : Result Binding) (s : State)
        → P s
        → P (ensure_with_binding cluster_namespace server namespace export_key export got s).1
    unfolding ensure_with_binding stop_all
    with_binding-Keeps namespace export_key export (ok binding) s i =
        ensure_bound-Keeps namespace export_key export binding s i
    with_binding-Keeps namespace export_key export (err not_found) s i = bulk-Keeps export_key s i
    with_binding-Keeps namespace export_key export (err already_exists) s i = i
    with_binding-Keeps namespace export_key export (err invalid) s i = i
    with_binding-Keeps namespace export_key export (err (other _)) s i = i

    pub ensure_controllers-Keeps :
        (namespace name : String) (export : Option Export) (s : State)
        → P s
        → P (ensure_controllers cluster_namespace server namespace name export s).1
    unfolding ensure_controllers stop_all
    ensure_controllers-Keeps namespace name none s i = bulk-Keeps (namespace +ˢ "." +ˢ name) s i
    ensure_controllers-Keeps namespace name (some export) s i =
        with_binding-Keeps namespace (namespace +ˢ "." +ˢ name) export _ _ (stable.calls s _ i)
