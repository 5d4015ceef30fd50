-- ===== src/ExportSync.antt =====
-- pkg/konnector/controllers/cluster/serviceexport/serviceexport_reconcile.go: which syncers run for an
-- APIServiceExport. The data, and what has to succeed before a syncer is started; the store of the
-- running syncers is changed in ExportSync/Controllers.antt.
pub mod Controllers
pub mod Keeps
pub mod Unless
pub mod Orphans
pub mod Leaks
pub mod Copies
pub mod Unbound
pub mod Restart
use kbind.Base.{
  ℕ, String, Bool, true, false, ◌&&◌, ◌||◌, List, [], ◌∷◌, if◌then◌else◌, Error, Result, ok, err,
  Outcome, other, ◌=ˢ◌,
}
use kbind.Base.Exec.{Exec, ret, fail, attempt, call, ◌>>=◌, ◌>>◌}
use kbind.Claims.{ExportResource}
use kbind.Isolation.{Strategy, none_strategy, prefixed, namespaced, service_namespaced}
use Prim.Native.String.{◌++◌ as ◌+ˢ◌}

pub record SchemaVersion : Type 0 where
  pub name : String
  pub served : Bool

-- The fields of a BoundSchema that are read here.
pub record BoundSchema : Type 0 where
  pub name : String
  pub group : String
  pub plural : String
  pub scope : String
  pub informer_scope : String
  pub versions : List SchemaVersion

pub record Export : Type 0 where
  pub namespace : String
  pub name : String
  pub generation : ℕ
  pub isolation : String
  pub resources : List ExportResource

pub record PermissionClaim : Type 0 where
  pub group : String
  pub resource : String

pub record Binding : Type 0 where
  pub name : String
  pub generation : ℕ
  pub permission_claims : List PermissionClaim

pub record Gvr : Type 0 where
  pub group : String
  pub version : String
  pub resource : String

-- The calls that can fail: of the API servers, and of the constructors of informers, clients and
-- controllers.
pub data Call : Type 0 where
  get_service_binding get_remote_bound_schema : (name : String) → Call
  get_provider_namespace new_bind_client : Call
  new_multi_namespace_informer new_claimed_controller new_claimed_namespaces_controller : Gvr → Call
  new_spec_controller new_status_controller : Strategy → Gvr → Call

-- What each call answers after the calls before it, and the printed form of a
-- GroupVersionResource.
pub record Server : Type 0 where
  pub service_binding : List Call → String → Result Binding
  pub bound_schema : List Call → String → Result BoundSchema
  pub provider_namespace_uid : List Call → Result String
  pub made : List Call → Call → Outcome
  pub gvr_string : Gvr → String

-- The name of the first version that is served, and the empty text without one.
unfoldable pub served_version : List SchemaVersion → String
served_version [] = ""
served_version (v ∷ rest) = if v.served then v.name else served_version rest

unfoldable pub is_cluster_wide : BoundSchema → Bool
is_cluster_wide schema = (schema.scope =ˢ "Cluster") || (schema.informer_scope =ˢ "Cluster")

-- `ClaimableAPIs`
abbrev pub claimable_apis : List Gvr
claimable_apis =
    record { group = ""; version = "v1"; resource = "configmaps" }
    ∷ record { group = ""; version = "v1"; resource = "secrets" }
    ∷ record { group = ""; version = "v1"; resource = "serviceaccounts" }
    ∷ []

unfoldable pub first_claimable : PermissionClaim → List Gvr → Result Gvr
first_claimable claim [] = err (other "no matching API found")
first_claimable claim (api ∷ apis) =
    if (api.resource =ˢ claim.resource) && (api.group =ˢ claim.group)
    then ok api
    else first_claimable claim apis

unfoldable pub resolve_claimable_api : PermissionClaim → Result Gvr
unfolding first_claimable
resolve_claimable_api claim = first_claimable claim claimable_apis

-- `cluster_namespace` is the reconciler's `providerNamespace`.
module _ (cluster_namespace : String) (server : Server) where
  abbrev M : Type 0 → Type 0
  M = Exec Call

  abbrev make : Call → M (Unit {0})
  make c = call c (λ h. server.made h c)

  -- The version that is synced.
  unfoldable pub schema_gvr : BoundSchema → M Gvr
  unfolding served_version
  schema_gvr schema =
      let version = served_version schema.versions in
      if version =ˢ ""
      then fail (other ("no served version found for BoundSchema " +ˢ schema.name))
      else ret (record { group = schema.group; version = version; resource = schema.plural })

  unfoldable pub provider_informer : Bool → Gvr → M (Unit {0})
  provider_informer cluster_wide gvr =
      if cluster_wide then ret tt else make (new_multi_namespace_informer gvr)

  unfoldable pub export_strategy : String → String → Strategy
  export_strategy isolation uid =
      if isolation =ˢ "Prefixed"
      then prefixed cluster_namespace uid
      else if isolation =ˢ "Namespaced"
      then namespaced cluster_namespace
      else none_strategy cluster_namespace uid

  unfoldable pub isolation_strategy : Export → BoundSchema → String → M Strategy
  isolation_strategy export schema uid =
      if schema.scope =ˢ "Namespaced"
      then (make new_bind_client >> ret (service_namespaced cluster_namespace))
      else ret (export_strategy export.isolation uid)

  -- A controller that cannot be made is no error: `nothing we can do here`.
  unfoldable pub is_made : Call → M Bool
  is_made c = do got ← attempt (make c); ret (elim got [ ok _ ↦ true | err _ ↦ false ])

  -- What comes before the context of the syncer is made; whether it is made.
  unfoldable pub prepare_schema : Export → BoundSchema → M Bool
  prepare_schema export schema = do
    gvr ← schema_gvr schema
    uid ← call get_provider_namespace (λ h. server.provider_namespace_uid h)
    provider_informer (is_cluster_wide schema) gvr
    strategy ← isolation_strategy export schema uid
    spec ← is_made (new_spec_controller strategy gvr)
    if spec then is_made (new_status_controller strategy gvr) else ret false

  unfoldable pub prepare_claim : Gvr → Bool → M Bool
  prepare_claim gvr is_cluster_scoped = do
    provider_informer is_cluster_scoped gvr
    make (new_claimed_controller gvr)
    make (new_claimed_namespaces_controller gvr)
    ret true
