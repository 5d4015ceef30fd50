-- ===== src/ExportSync/Restart.antt =====
-- serviceexport_reconcile.go: the start of a controller, and its replacement after a change of the
-- generation.
use kbind.Base.{
  ℕ, String, ◌≡◌, refl, ◌∙◌, Bool, true, false, Option, none, some, List, [], ◌∷◌, ◌++◌, arith, inl,
  inr, ◌⊎◌, Bool-cases, eqb, contains, Result, ok, err, Outcome, done,
}
use kbind.Base.Text.{has_prefix-append}
use kbind.Base.Dict.{lookup, lookup-insert_self, lookup-remove_self}
use kbind.Base.Exec.{Exec}
use kbind.ContextStore.{SyncContext, ContextStore, new_key, get, set, delete, cancel_found}
use kbind.ContextStore.Bulk.{IsStore}
use kbind.ContextStore.Invariant.{new_key-append_suffix}
use kbind.ExportSync.{
  BoundSchema, Export, Binding, Gvr, Call, Server, prepare_schema, prepare_claim,
}
use kbind.ExportSync.Controllers.{
  State, run_calls, start_context, is_current, stop_found, start_prepared, ensure_running,
  ensure_controller_for_schema, claim_key, process_claim, ClaimPass, stop_claims,
  claim_goroutine_ended,
}
use kbind.ExportSync.Keeps.{stop_found-none}
use kbind.ExportSync.Unless.{get-delete_unless}
use Prim.Native.String.{◌++◌ as ◌+ˢ◌}

-- What is left under a key: a context of the generation, with a success, or nothing.
abbrev pub IsSettled : String → ℕ → Outcome × State → Type 0
IsSettled key generation r =
    ((v : SyncContext) × (get r.1.sync_store key ≡ some v)
      × (v.generation ≡ generation)
      × (r.0 ≡ done))
    ⊎ (get r.1.sync_store key ≡ none)

start_prepared-IsSettled :
    (key : String) (generation : ℕ) (r : Result Bool) (s : State)
    → get s.sync_store key ≡ none
    → IsSettled key generation (start_prepared key generation (r, s))
unfolding start_prepared start_context get set
start_prepared-IsSettled key generation (ok true) s n = inl (
  record { key = key; generation = generation; cancel = s.contexts },
  lookup-insert_self key _ s.sync_store.store,
  refl,
  refl,
)
start_prepared-IsSettled key generation (ok false) s n = inr n
start_prepared-IsSettled key generation (err e) s n = inr n

current-IsSettled :
    (key : String) (generation : ℕ) (found : Option SyncContext) (s : State)
    → get s.sync_store key ≡ found
    → is_current found generation ≡ true
    → IsSettled key generation (done, s)
unfolding is_current
current-IsSettled key generation none s e c = inr e
current-IsSettled key generation (some v) s e c = inl (v, e, ground arith, refl)

pub ensure_running-IsSettled :
    (key : String) (generation : ℕ) (prepare : Exec Call Bool) (s : State)
    → IsSettled key generation (ensure_running key generation prepare s)
unfolding ensure_running
ensure_running-IsSettled key generation prepare s =
    let found = get s.sync_store key in
    let stopped = stop_found key found s in
    elim (Bool-cases (is_current found generation)) [
      | inl e ↦ rw e (current-IsSettled key generation found s refl e)
      | inr e ↦ rw e (
          start_prepared-IsSettled key generation (prepare stopped.calls).0
            (run_calls prepare stopped).1 (stop_found-none key found s refl))
    ]

module _ (cluster_namespace : String) (server : Server) where
  -- After ensureControllerForSchema the syncer of the schema has the generation of the export, and
  -- the call succeeded, or there is no syncer of the schema. A syncer of another generation is never
  -- left, whatever fails.
  pub ensure_controller_for_schema-IsSettled :
      (export : Export) (schema : BoundSchema) (s : State)
      → IsSettled
          (new_key export.namespace export.name (schema.name ∷ []))
          export.generation
          (ensure_controller_for_schema cluster_namespace server export schema s)
  unfolding ensure_controller_for_schema
  ensure_controller_for_schema-IsSettled export schema s =
      ensure_running-IsSettled (new_key export.namespace export.name (schema.name ∷ []))
        export.generation (prepare_schema cluster_namespace server export schema) s

  -- A claim whose controller is replaced, since the generation of the binding changed, loses the new
  -- controller when the goroutine of the old one ends: nothing is left under its key, and both
  -- contexts are cancelled.
  pub process_claim-lost :
      (export : Export) (binding : Binding) (wide : Bool) (gvr : Gvr) (p : ClaimPass) (s : State)
      (v : SyncContext)
      → let key : String = claim_key cluster_namespace server export gvr in
        get s.sync_store key ≡ some v
        → eqb v.generation binding.generation ≡ false
        → (prepare_claim cluster_namespace server gvr wide s.calls).0 ≡ ok true
        → let r : State =
            claim_goroutine_ended key
              (process_claim cluster_namespace server export binding wide (ok gvr) p s).1 in
          (get r.sync_store key ≡ none)
          × (r.sync_store.cancelled ≡ (s.sync_store.cancelled ++ v.cancel ∷ []) ++ s.contexts ∷ [])
  unfolding process_claim ensure_running is_current stop_found start_prepared start_context
      claim_goroutine_ended delete get set cancel_found
  process_claim-lost export binding wide gvr p s v e g h =
      let key = claim_key cluster_namespace server export gvr in
      let stored : lookup key s.sync_store.store ≡ some v = e in
      (lookup-remove_self key _, rw (e, g, h, lookup-insert_self key, stored) refl)

-- The clean-up of claims stops the syncer of each resource whose name begins with "claim", since the
-- name follows the same prefix; its key is not that of a processed claim.
pub stop_claims-claim_named :
    (export : Export) (processed : List String) (c : ContextStore) (more : String)
    → let key : String = new_key export.namespace export.name (("claim" +ˢ more) ∷ []) in
      IsStore c → contains processed key ≡ false → get (stop_claims export processed c) key ≡ none
unfolding stop_claims
stop_claims-claim_named export processed c more d n =
    let prefix = new_key export.namespace export.name ("claim" ∷ []) in
    let key = new_key export.namespace export.name (("claim" +ˢ more) ∷ []) in
    get-delete_unless (contains processed) prefix key c d
    ∙ rw
        (
          n,
          new_key-append_suffix export.namespace export.name "claim" more,
          has_prefix-append prefix more,
        )
        refl
