-- ===== src/ExportRequest/Handler.antt =====
-- serviceexportrequest_reconcile.go: what the handler calls, and ensureBoundSchemas.
use kbind.Base.{
  ℕ, String, Bool, true, false, ◌&&◌, ◌||◌, Option, none, some, List, [], ◌∷◌, if◌then◌else◌, Error,
  Result, ok, err, Outcome, other, not_found, ◌=ˢ◌,
}
use kbind.Base.Text.{has_prefix}
use kbind.Base.Dict.{Dict, lookup, insert}
use kbind.Base.Exec.{Exec, ret, fail, attempt, call, ◌>>=◌, ◌>>◌}
use kbind.Claims.{IsolationMode, is_namespaced, ExportResource}
use kbind.Conditions.{Conditions}
use kbind.ExportRequest.{
  BoundSchema, BoundSchemaSpec, Export, Request, resource_group_name, schema_group_name,
  SchemaUpdatePolicy, never, always,
}

abbrev pub source_spec_hash : String
source_spec_hash = "kube-bind.io/source-spec-hash"

-- What `reconcile` calls. `get_export` reads by the client, `get_service_export` from the cache, and
-- `since_creation` is a read of the clock. The list of the exported schemas is answered as bound
-- schemas, converted by UnstructuredToBoundSchema, or with the error of the conversion.
pub data Call (X : Type 0) : Type 0 where
  list_exported_schemas since_creation : Call X
  get_bound_schema get_service_export get_export delete_request get_service_namespace :
      (ns name : String) → Call X
  create_bound_schema update_bound_schema : BoundSchema X → Call X
  create_service_export : Export X → Call X
  create_service_namespace : (ns name owner_uid : String) → Call X

-- What each call answers after the calls before it, and the age of the request in nanoseconds.
pub record Server (X : Type 0) : Type 0 where
  pub exported : List (Call X) → Result (List (BoundSchema X))
  pub bound_schema : List (Call X) → String → String → Result (BoundSchema X)
  pub created_schema : List (Call X) → BoundSchema X → Outcome
  pub updated_schema : List (Call X) → BoundSchema X → Outcome
  pub service_export : List (Call X) → String → String → Result (Export X)
  pub created_export : List (Call X) → Export X → Outcome
  pub read_export : List (Call X) → String → String → Result (Export X)
  pub deleted_request : List (Call X) → String → String → Outcome
  pub service_namespace : List (Call X) → String → String → Outcome
  pub created_service_namespace : List (Call X) → String → String → String → Outcome
  pub age : List (Call X) → ℕ

-- The reconciler's fields, the hashes of the specs, and the owner references of controllerutil.
pub record Env (X K : Type 0) : Type 0 where
  pub informer_scope : String
  pub isolation : IsolationMode
  pub conditions : Conditions K
  pub spec_hash : BoundSchemaSpec X → Result String
  pub specs_hash : List (BoundSchema X) → Result String
  pub set_controller_reference : Export X → BoundSchema X → Result (BoundSchema X)
  pub server : Server X

-- strings.Contains
has_substring : String → String → Bool
has_substring String.[] part = part =ˢ ""
has_substring (String.◌∷◌ c s) part =
    let rest = has_substring s part in has_prefix (String.◌∷◌ c s) part || rest

-- An error after which the schema counts as absent.
unfoldable pub is_absent : Error → Bool
unfolding has_substring
is_absent not_found = true
is_absent (other text) = has_substring text "no matches for kind"
is_absent _ = false

abbrev same_text : Option String → String → Bool
same_text none t = false
same_text (some s) t = s =ˢ t

-- The map access of Go: an absent annotation is the empty text.
abbrev pub text_of : Option String → String
text_of none = ""
text_of (some s) = s

module _ {X K : Type 0} (env : Env X K) where
  abbrev M : Type 0 → Type 0
  M = Exec (Call X)

  abbrev s : Server X
  s = env.server

  abbrev lift : {A : Type 0} → Result A → M A
  lift m h = (m, h)

  unfoldable pub index_schemas : List (BoundSchema X) → Dict (BoundSchema X) → Dict (BoundSchema X)
  index_schemas [] m = m
  index_schemas (b ∷ bs) m = index_schemas bs (insert (schema_group_name b) b m)

  unfoldable pub get_exported_schemas : M (Dict (BoundSchema X))
  unfolding index_schemas
  get_exported_schemas = do
    items ← call list_exported_schemas s.exported
    ret (index_schemas items [])

  unfoldable pub get_schema : String → String → M (BoundSchema X)
  get_schema ns name = call (get_bound_schema ns name) (λ h. s.bound_schema h ns name)

  unfoldable pub create_schema : BoundSchema X → M (Unit {0})
  create_schema b = call (create_bound_schema b) (λ h. s.created_schema h b)

  unfoldable pub update_schema : BoundSchema X → M (Unit {0})
  update_schema b = call (update_bound_schema b) (λ h. s.updated_schema h b)

  -- Cluster-scoped under namespaced isolation.
  unfoldable pub rescoped : BoundSchema X → BoundSchema X
  rescoped b =
      if (b.spec.scope =ˢ "Namespaced") && is_namespaced env.isolation
      then record b { spec = record b.spec { scope = "Cluster" } }
      else b

  -- The owner reference, and whether it is new. `metav1.IsControlledBy` compares the controller's uid.
  unfoldable pub controlled : Option (Export X) → BoundSchema X → Result (BoundSchema X × Bool)
  controlled none existing = ok (existing, false)
  controlled (some export) existing =
      if same_text existing.controller_uid export.uid
      then ok (existing, false)
      else elim (env.set_controller_reference export existing) [
        | ok owned ↦ ok (owned, true)
        | err e ↦ err e
      ]

  abbrev hashed : String → BoundSchema X → BoundSchema X
  hashed hash b = record b { annotations = insert source_spec_hash hash b.annotations }

  -- The spec by the policy, and whether the schema is to be updated.
  unfoldable pub synced :
      SchemaUpdatePolicy → String → BoundSchema X → BoundSchema X × Bool → BoundSchema X × Bool
  synced never hash desired (existing, needs_update) = (existing, needs_update)
  synced always hash desired (existing, needs_update) =
      if text_of (lookup source_spec_hash existing.annotations) =ˢ hash
      then (existing, needs_update)
      else (hashed hash (record existing { spec = desired.spec }), true)

  unfoldable pub update_if_needed : BoundSchema X × Bool → M (Unit {0})
  update_if_needed (b, needs_update) = if needs_update then update_schema b else ret tt

  unfoldable pub settle_schema :
      Option (Export X)
      → BoundSchema X
      → String
      → SchemaUpdatePolicy
      → Result (BoundSchema X)
      → M (Unit {0})
  settle_schema export desired hash policy (ok existing) = do
    owned ← lift (controlled export existing)
    update_if_needed (synced policy hash desired owned)
  settle_schema export desired hash policy (err e) =
      if is_absent e then create_schema (hashed hash desired) else fail e

  unfoldable pub create_or_update_bound_schema :
      Option (Export X) → BoundSchema X → SchemaUpdatePolicy → M (Unit {0})
  create_or_update_bound_schema export desired policy = do
    hash ← lift (env.spec_hash (rescoped desired).spec)
    existing ← attempt (get_schema desired.namespace desired.name)
    settle_schema export (rescoped desired) hash policy existing

  is_named : ExportResource → BoundSchema X → Bool
  is_named res b = (b.spec.group =ˢ res.group) && (b.spec.plural =ˢ res.resource)

  -- The exported schema as a bound schema of the request.
  desired_for : Request X K → ExportResource → BoundSchema X → BoundSchema X
  desired_for req res b = record b {
    name = resource_group_name res;
    namespace = req.namespace;
    spec = record b.spec { informer_scope = env.informer_scope };
    resource_version = "";
  }

  unfoldable pub ensure_if :
      Bool → Option (Export X) → BoundSchema X → SchemaUpdatePolicy → M (Unit {0})
  ensure_if wanted export desired policy =
      if wanted then create_or_update_bound_schema export desired policy else ret tt

  unfoldable pub ensure_for :
      Option (Export X) → Request X K → ExportResource → Dict (BoundSchema X) → M (Unit {0})
  unfolding is_named desired_for ensure_if
  ensure_for export req res [] = ret tt
  ensure_for export req res ((k, b) ∷ schemas) = do
    ensure_if (is_named res b) export (desired_for req res b) req.schema_update_policy
    ensure_for export req res schemas

  abbrev has_versions : ExportResource → Bool
  has_versions r = elim r.versions [ [] ↦ false | _ ∷ _ ↦ true ]

  unfoldable pub ensure_resource :
      Option (Export X) → Request X K → Dict (BoundSchema X) → ExportResource → M (Unit {0})
  ensure_resource export req schemas res =
      if has_versions res then ensure_for export req res schemas else ret tt

  unfoldable pub ensure_all :
      Option (Export X) → Request X K → Dict (BoundSchema X) → List ExportResource → M (Unit {0})
  unfolding ensure_resource
  ensure_all export req schemas [] = ret tt
  ensure_all export req schemas (res ∷ rest) = do
    ensure_resource export req schemas res
    ensure_all export req schemas rest

  unfoldable pub ensure_bound_schemas : Option (Export X) → Request X K → M (Unit {0})
  ensure_bound_schemas export req = do
    schemas ← get_exported_schemas
    ensure_all export req schemas req.resources
