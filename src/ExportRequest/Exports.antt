-- ===== src/ExportRequest/Exports.antt =====
-- The handler of a request: its export and its namespaces. A step returns the outcome and the request
-- as it leaves it.
use Prim.Native.String.{◌++◌ as ◌+ˢ◌}
use kbind.Base.{
  ℕ, String, Option, none, some, List, [], ◌∷◌, if◌then◌else◌, ltb, ◌*◌, Error, Result, ok, err,
  Outcome, done, not_found, already_exists,
}
use kbind.Base.Dict.{Dict}
use kbind.Base.Exec.{Exec, ret, fail, attempt, call, ◌>>=◌, ◌>>◌}
use kbind.Claims.{ExportResource}
use kbind.Conditions.{severity_error}
use kbind.ExportRequest.{
  BoundSchema, Export, Request, exports_ready, resource_group_name, validate, Phase, pending,
  succeeded, failed,
}
use kbind.ExportRequest.Handler.{
  Call, since_creation, delete_request, create_service_export, get_service_export, get_export,
  get_service_namespace, create_service_namespace, Server, Env, source_spec_hash, get_schema,
  get_exported_schemas, ensure_bound_schemas,
}

-- The schemas that were collected, or the one whose read failed.
pub data Collected (X : Type 0) : Type 0 where
  all_of : List (BoundSchema X) → Collected X
  stopped : (name : String) → Error → Collected X

abbrev and_also : {X : Type 0} → BoundSchema X → Collected X → Collected X
and_also b (all_of bs) = all_of (b ∷ bs)
and_also b (stopped name e) = stopped name e

abbrev minute : ℕ
minute = 60000000000

module _ {X K : Type 0} (env : Env X K) where
  abbrev M : Type 0 → Type 0
  M = Exec (Call X)

  abbrev s : Server X
  s = env.server

  unfoldable pub collected : String → Result (BoundSchema X) → M (Collected X) → M (Collected X)
  collected name (err e) rest = ret (stopped name e)
  collected name (ok b) rest = do more ← rest; ret (and_also b more)

  -- The loop that collects the schemas, up to the first that cannot be read.
  unfoldable pub collect : Request X K → List ExportResource → M (Collected X)
  unfolding collected
  collect req [] = ret (all_of [])
  collect req (res ∷ rest) = do
    got ← attempt (get_schema env req.namespace (resource_group_name res))
    collected (resource_group_name res) got (collect req rest)

  -- The outcome of a handler, and the request as it leaves it.
  abbrev pub Step : Type 0
  Step = M (Outcome × Request X K)

  abbrev marked : (K → K) → Request X K → Request X K
  marked f req = record req { conditions = f req.conditions }

  abbrev ready : Request X K → Request X K
  ready = marked (env.conditions.mark_true exports_ready)

  -- `// Collect all schemas`: the failure of a read.
  unfoldable pub unreadable : Request X K → String → Error → Outcome × Request X K
  unreadable req name not_found = (
    err not_found,
    marked
        (env.conditions.mark_false exports_ready "BoundSchemaNotFound" severity_error
          ("BoundSchema " +ˢ name +ˢ " in the service provider cluster not found"))
        req,
  )
  unreadable req name e = (err e, req)

  unfoldable pub delete_if_timed_out : Request X K → Step
  delete_if_timed_out req = do
    age ← call since_creation (λ h. ok (s.age h))
    deleted ← attempt (
        if ltb (10 * minute) age
        then call (delete_request req.namespace req.name)
            (λ h. s.deleted_request h req.namespace req.name)
        else ret tt)
    ret (deleted, req)

  -- `// Collect all schemas` is done, and the export has been created.
  unfoldable pub succeed : Request X K → Step
  succeed req = do
    age ← call since_creation (λ h. ok (s.age h))
    delete_if_timed_out (
        if ltb minute age
        then record (ready req) {
          phase = failed;
          terminal_message = env.conditions.get_message (ready req).conditions exports_ready;
        }
        else record (ready req) { phase = succeeded })

  unfoldable pub after_create : Request X K → Outcome → Step
  after_create req (ok _) = succeed req
  after_create req (err already_exists) = ret (done, req)
  after_create req (err e) = ret (err e, req)

  -- The export of a request whose schemas have the hash.
  unfoldable pub export_of : Request X K → String → Export X
  export_of req hash = record {
    namespace = req.namespace;
    name = req.name;
    uid = "";
    annotations = (source_spec_hash, hash) ∷ [];
    informer_scope = env.informer_scope;
    isolation = env.isolation;
    resources = req.resources;
    permission_claims = req.permission_claims;
  }

  unfoldable pub create_export : Request X K → Result String → Step
  create_export req (err e) = ret (err e, req)
  create_export req (ok hash) = do
    created ← attempt (
        call (create_service_export (export_of req hash))
          (λ h. s.created_export h (export_of req hash)))
    after_create req created

  unfoldable pub export_pending : Option (Export X) → Request X K → Collected X → Step
  export_pending existing req (stopped name e) = ret (unreadable req name e)
  export_pending (some export) req (all_of schemas) = ret (done, ready req)
  export_pending none req (all_of schemas) = create_export req (env.specs_hash schemas)

  unfoldable pub ensure_in : Phase → Option (Export X) → Request X K → Step
  ensure_in pending existing req = do
    schemas ← collect req req.resources
    export_pending existing req schemas
  ensure_in _ existing req = delete_if_timed_out req

  unfoldable pub ensure_exports : Option (Export X) → Request X K → Step
  ensure_exports existing req = ensure_in req.phase existing req

  unfoldable pub done_if_there : Outcome → M (Unit {0})
  done_if_there (ok _) = ret tt
  done_if_there (err already_exists) = ret tt
  done_if_there (err e) = fail e

  unfoldable pub create_if_missing : Export X → String → Outcome → M (Unit {0})
  create_if_missing export name (ok _) = ret tt
  create_if_missing export name (err not_found) = do
    created ← attempt (
        call (create_service_namespace export.namespace name export.uid)
          (λ h. s.created_service_namespace h export.namespace name export.uid))
    done_if_there created
  create_if_missing export name (err e) = fail e

  unfoldable pub ensure_names : Export X → List String → M (Unit {0})
  ensure_names export [] = ret tt
  ensure_names export (name ∷ rest) = do
    got ← attempt (
        call (get_service_namespace export.namespace name)
          (λ h. s.service_namespace h export.namespace name))
    create_if_missing export name got
    ensure_names export rest

  unfoldable pub ensure_api_service_namespaces : Request X K → M (Unit {0})
  ensure_api_service_namespaces req = do
    export ← call (get_export req.namespace req.name) (λ h. s.read_export h req.namespace req.name)
    ensure_names export req.namespaces

  -- A step after which the code goes on only if there was no error.
  unfoldable pub and_then : Outcome × Request X K → (Request X K → Step) → Step
  and_then (ok _, req) f = f req
  and_then (err e, req) f = ret (err e, req)

  abbrev pub unchanged : Request X K → M (Unit {0}) → Step
  unchanged req m = do outcome ← attempt m; ret (outcome, req)

  unfoldable pub validated : Request X K → Result (Dict (BoundSchema X)) → Outcome × Request X K
  validated req (err e) = (err e, req)
  validated req (ok schemas) = validate env.conditions schemas req

  -- The list of the schemas and `validate`.
  unfoldable pub check : Request X K → Step
  check req = do schemas ← attempt (get_exported_schemas env); ret (validated req schemas)

  unfoldable pub ensure : Option (Export X) → Request X K → Step
  ensure export req = do
    schemas ← unchanged req (ensure_bound_schemas env export req)
    checked ← and_then schemas check
    exported ← and_then checked (ensure_exports export)
    and_then exported (λ r. unchanged r (ensure_api_service_namespaces r))

  -- `conditions.SetSummary` follows in every case.
  unfoldable pub summarised : Option (Export X) → Request X K → Step
  summarised export req = do
    left ← ensure export req
    ret (left.0, marked env.conditions.set_summary left.1)

  unfoldable pub reconcile_found : Request X K → Result (Export X) → Step
  reconcile_found req (ok export) = summarised (some export) req
  reconcile_found req (err not_found) = summarised none req
  reconcile_found req (err e) = ret (err e, req)

  unfoldable pub reconcile : Request X K → Step
  reconcile req = do
    got ← attempt (
        call (get_service_export req.namespace req.name)
          (λ h. s.service_export h req.namespace req.name))
    reconcile_found req got
