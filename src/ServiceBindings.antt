-- ===== src/ServiceBindings.antt =====
-- pkg/konnector/controllers/cluster/servicebinding/servicebinding_reconcile.go: the konnector installs
-- the CRDs of a binding in the cluster of the consumer. `X` is the type of other content.
pub mod Reconcile
pub mod Install
pub mod Owned
use Prim.Native.String
use Prim.Native.Char.{code}
use kbind.Base.{
  ℕ, String, Bool, true, false, not, ◌&&◌, ◌||◌, Option, none, some, List, [], ◌∷◌, ◌++◌, any,
  if◌then◌else◌, eqb, Error, Result, ok, err, not_found, already_exists, invalid, other, Outcome,
  done, ◌=ˢ◌,
}
use kbind.Base.Exec.{Exec, call}
use kbind.BoundSchemas.{Crd, CrdSpec, CrdVersion, BoundSchema, Json, bound_schema_to_crd}
use kbind.Claims.{ExportResource}
use kbind.Conditions.{Conditions, severity_error}
use kbind.Objects.{OwnerReference}
use Prim.Native.String.{◌++◌ as ◌+ˢ◌}

-- The metadata of an installed CRD.
pub record Meta : Type 0 where
  pub name : String
  pub owner_references : List OwnerReference
  pub resource_version : String

pub record InstalledCrd (J R X : Type 0) : Type 0 where
  pub meta : Meta
  pub spec : CrdSpec (CrdVersion J R X) X

pub record BoundSchemaReference : Type 0 where
  pub group : String
  pub resource : String

pub record Binding (X K : Type 0) : Type 0 where
  pub name : String
  pub uid : String
  pub bound_schemas : List BoundSchemaReference
  pub permission_claims : List X
  pub provider_pretty_name : String
  pub conditions : K

-- The resources and the claims of an APIServiceExport.
pub record Export (X : Type 0) : Type 0 where
  pub resources : List ExportResource
  pub permission_claims : List X

-- The status of an APIServiceExportRequest.
pub record RequestStatus : Type 0 where
  pub is_failed : Bool
  pub terminal_message : String

pub data Call (J R X : Type 0) : Type 0 where
  get_service_export get_service_export_request get_bound_schema get_crd :
      (name : String) → Call J R X
  get_cluster_binding : Call J R X
  update_crd create_crd : InstalledCrd J R X → Call J R X

-- What each call answers after the calls before it; of the ClusterBinding, its pretty name.
pub record Server (J R X : Type 0) : Type 0 where
  pub service_export : List (Call J R X) → String → Result (Export X)
  pub service_export_request : List (Call J R X) → String → Result RequestStatus
  pub bound_schema : List (Call J R X) → String → Result (BoundSchema R X)
  pub crd : List (Call J R X) → String → Result (InstalledCrd J R X)
  pub pretty_name : List (Call J R X) → Result String
  pub updated : List (Call J R X) → InstalledCrd J R X → Outcome
  pub created : List (Call J R X) → InstalledCrd J R X → Outcome

-- What stands before the first slash.
before_slash : String → String
before_slash String.[] = ""
before_slash (String.◌∷◌ c s) =
    let rest = before_slash s in if eqb (code c) 47 then "" else String.◌∷◌ c rest

unfoldable pub is_reference_to : String → String → OwnerReference → Bool
unfolding before_slash
is_reference_to name uid ref =
    (before_slash ref.api_version =ˢ "kube-bind.io")
    && (ref.kind =ˢ "APIServiceBinding")
    && (ref.name =ˢ name)
    && ((uid =ˢ "") || (ref.uid =ˢ uid))

-- sdk/apis/kubebind/v1alpha2/helpers/crd.go
unfoldable pub is_owned_by_binding : String → String → List OwnerReference → Bool
unfolding is_reference_to
is_owned_by_binding name uid refs = any (is_reference_to name uid) refs

abbrev pub connected : String
connected = "Connected"

module _ {J R X K : Type 0} (json : Json J R) (c : Conditions K) (server : Server J R X) where
  abbrev pub History : Type 0
  History = List (Call J R X)

  abbrev pub not_connected : String → String → Binding X K → Binding X K
  not_connected reason message b = record b {
    conditions = c.mark_false connected reason severity_error message b.conditions;
  }

  unfoldable pub wanted_crd : Binding X K → BoundSchema R X → InstalledCrd J R X
  unfolding bound_schema_to_crd
  wanted_crd b schema =
      let crd = bound_schema_to_crd json schema in
      record {
        meta = record {
          name = crd.name;
          owner_references =
              record {
                api_version = "kube-bind.io/v1alpha2";
                kind = "APIServiceBinding";
                name = b.name;
                uid = b.uid;
                controller = true;
              }
              ∷ [];
          resource_version = "";
        };
        spec = crd.spec;
      }

  unfoldable pub after_create : String → Outcome → Binding X K → Outcome × Binding X K
  after_create name (ok _) b = (done, b)
  after_create name (err invalid) b = (
    done,
    not_connected "CustomResourceDefinitionCreateFailed"
        ("CustomResourceDefinition " +ˢ name +ˢ " cannot be created: " +ˢ json.error_text invalid)
        b,
  )
  after_create name (err e) b = (err e, b)

  -- An error other than Invalid is dropped.
  unfoldable pub after_update : Outcome → Binding X K → Outcome × Binding X K
  after_update (err invalid) b = (
    done,
    not_connected "CustomResourceDefinitionUpdateFailed"
        ("CustomResourceDefinition " +ˢ b.name +ˢ " cannot be updated: " +ˢ json.error_text invalid)
        b,
  )
  after_update _ b = (done, b)

  unfoldable pub install :
      InstalledCrd J R X
      → Result (InstalledCrd J R X)
      → Binding X K
      → History
      → (Outcome × Binding X K) × History
  unfolding is_owned_by_binding after_create after_update
  install crd (err not_found) b h =
      let got = call (create_crd crd) (λ past. server.created past crd) h in
      (after_create crd.meta.name got.0 b, got.1)
  install crd (err e) b h = ((err e, b), h)
  install crd (ok existing) b h =
      let new : InstalledCrd J R X = record crd { meta = existing.meta } in
      let got = call (update_crd new) (λ past. server.updated past new) h in
      if is_owned_by_binding b.name b.uid existing.meta.owner_references
      then (after_update got.0 b, got.1)
      else (
        (
          done,
          not_connected "ForeignCustomResourceDefinition"
              ("CustomResourceDefinition " +ˢ crd.meta.name +ˢ " is not owned by kube-bind.io.") b,
        ),
        h,
      )

  unfoldable pub ensure_crds_from_bound_schema :
      Binding X K → BoundSchema R X → History → (Outcome × Binding X K) × History
  unfolding wanted_crd install
  ensure_crds_from_bound_schema b schema h =
      let crd = wanted_crd b schema in
      let got = call (get_crd crd.meta.name) (λ past. server.crd past crd.meta.name) h in
      install crd got.0 b got.1

  unfoldable pub add_reference : BoundSchema R X → Binding X K → Binding X K
  add_reference schema b =
      let group = schema.spec.group in
      let resource = schema.spec.names.plural in
      if any (λ ref. (ref.group =ˢ group) && (ref.resource =ˢ resource)) b.bound_schemas
      then b
      else record b {
        bound_schemas = b.bound_schemas ++ record { group = group; resource = resource } ∷ [];
      }

  unfoldable pub referenced : Result (BoundSchema R X) → Binding X K → Outcome × Binding X K
  unfolding add_reference
  referenced (ok schema) b = (done, add_reference schema b)
  referenced (err not_found) b = (done, b)
  referenced (err e) b = (err e, b)

  unfoldable pub reference_bound_schema :
      Binding X K → String → History → (Outcome × Binding X K) × History
  unfolding referenced
  reference_bound_schema b name h =
      let got = call (get_bound_schema name) (λ past. server.bound_schema past name) h in
      (referenced got.0 b, got.1)
