-- ===== src/Bundles.antt =====
-- pkg/konnector/controllers/servicebindingbundle/servicebindingbundle_reconcile.go: the bindings
-- of a bundle follow the exports of its provider.
pub mod Reconcile
pub mod Synced
use kbind.Base.{
  String, Bool, true, false, not, ◌&&◌, Option, none, some, List, [], ◌∷◌, ◌++◌, map, any, contains,
  is_some, if◌then◌else◌, Error, Result, ok, err, not_found, already_exists, Outcome, done, ◌=ˢ◌,
}
use kbind.Base.Dict.{Dict, lookup, insert}
use kbind.Base.Exec.{Exec, call}
use kbind.Conditions.{Conditions, severity_error, severity_warning}
use kbind.Objects.{OwnerReference}
use Prim.Native.String.{◌++◌ as ◌+ˢ◌}

pub record ClusterSecretKeyRef : Type 0 where
  pub namespace : String
  pub name : String
  pub key : String

pub record Bundle (K : Type 0) : Type 0 where
  pub name : String
  pub uid : String
  pub secret_ref : ClusterSecretKeyRef
  pub conditions : K

pub record Binding : Type 0 where
  pub name : String
  pub owner_references : List OwnerReference
  pub secret_ref : ClusterSecretKeyRef

-- What clientcmd.Load gives: the namespaces of the contexts.
pub record KubeConfig : Type 0 where
  pub contexts : Dict String
  pub current_context : String

-- `C` is the type of configurations of clients.
pub data Call (C : Type 0) : Type 0 where
  get_consumer_secret : (namespace name : String) → Call C
  new_provider_client : C → Call C
  list_exports : (namespace : String) → Call C
  list_bindings : Call C
  create_binding : Binding → Call C
  delete_binding : (name : String) → Call C

-- What each call answers after the calls before it: of a secret its data, of the exports their names.
pub record Server (C : Type 0) : Type 0 where
  pub consumer_secret : List (Call C) → String → String → Result (Dict String)
  pub made_client : List (Call C) → C → Outcome
  pub exports : List (Call C) → String → Result (List String)
  pub bindings : List (Call C) → Result (List Binding)
  pub created : List (Call C) → Binding → Outcome
  pub deleted : List (Call C) → String → Outcome

-- clientcmd, and the printing of quotes, errors and the number of errors.
pub record Env (C : Type 0) : Type 0 where
  pub load : String → Result KubeConfig
  pub rest_config : String → Result C
  pub quote : String → String
  pub error_text : Error → String
  pub count_text : List Error → String

unfoldable pub is_owner_reference : String → String → OwnerReference → Bool
is_owner_reference name uid ref =
    (ref.api_version =ˢ "kube-bind.io/v1alpha2")
    && (ref.kind =ˢ "APIServiceBindingBundle")
    && (ref.name =ˢ name)
    && (ref.uid =ˢ uid)

unfoldable pub is_owned : String → String → Binding → Bool
unfolding is_owner_reference
is_owned name uid b = any (is_owner_reference name uid) b.owner_references

-- `ownedBindings`
unfoldable pub owned_bindings : String → String → List Binding → Dict Binding → Dict Binding
unfolding is_owned
owned_bindings name uid [] owned = owned
owned_bindings name uid (b ∷ rest) owned =
    owned_bindings name uid rest (if is_owned name uid b then insert b.name b owned else owned)

abbrev pub new_binding : {K : Type 0} → Bundle K → String → Binding
new_binding bundle export = record {
  name = export;
  owner_references =
      record {
        api_version = "kube-bind.io/v1alpha2";
        kind = "APIServiceBindingBundle";
        name = bundle.name;
        uid = bundle.uid;
        controller = true;
      }
      ∷ [];
  secret_ref = bundle.secret_ref;
}

unfoldable pub create_error : Outcome → List Error
create_error (ok _) = []
create_error (err already_exists) = []
create_error (err e) = e ∷ []

unfoldable pub delete_error : Outcome → List Error
delete_error (ok _) = []
delete_error (err not_found) = []
delete_error (err e) = e ∷ []

module _ {C K : Type 0} (env : Env C) (c : Conditions K) (server : Server C) where
  abbrev pub History : Type 0
  History = List (Call C)

  unfoldable pub create_missing :
      Bundle K → Dict Binding → List String → List Error → History → List Error × History
  unfolding create_error
  create_missing bundle owned [] errs h = (errs, h)
  create_missing bundle owned (export ∷ rest) errs h =
      let new = new_binding bundle export in
      let got = call (create_binding new) (λ past. server.created past new) h in
      let later = create_missing bundle owned rest in
      if is_some (lookup export owned)
      then later errs h
      else later (errs ++ create_error got.0) got.1

  -- `expectedBindings` has the names of the exports.
  unfoldable pub delete_orphans :
      List String → Dict Binding → List Error → History → List Error × History
  unfolding delete_error
  delete_orphans exports [] errs h = (errs, h)
  delete_orphans exports ((name, b) ∷ rest) errs h =
      let got = call (delete_binding b.name) (λ past. server.deleted past b.name) h in
      let later = delete_orphans exports rest in
      if contains exports name then later errs h else later (errs ++ delete_error got.0) got.1

  unfoldable pub mark_synced : List Error → K → K
  mark_synced [] k = c.mark_true "Synced" k
  mark_synced (e ∷ errs) k =
      c.mark_false "Synced" "SyncErrors" severity_warning
        ("Failed to sync some APIServiceBindings: " +ˢ env.count_text (e ∷ errs) +ˢ " error(s)") k

  -- From the two lists on.
  unfoldable pub sync_listed :
      Bundle K → List String → List Binding → K → History → (List Error × K) × History
  unfolding owned_bindings create_missing delete_orphans mark_synced
  sync_listed bundle exports bindings k h =
      let owned = owned_bindings bundle.name bundle.uid bindings [] in
      let a = create_missing bundle owned exports [] h in
      let r = delete_orphans exports owned a.0 a.1 in ((r.0, mark_synced r.0 k), r.1)

  abbrev not_synced : String → String → K → K
  not_synced reason message k = c.mark_false "Synced" reason severity_error message k

  unfoldable pub sync_bindings :
      Bundle K → List String → Result (List Binding) → K → History → (List Error × K) × History
  unfolding sync_listed
  sync_bindings bundle exports (err e) k h = (
    (
      e ∷ [],
      not_synced "ListBindingsFailed" ("Failed to list APIServiceBindings: " +ˢ env.error_text e) k,
    ),
    h,
  )
  sync_bindings bundle exports (ok bindings) k h = sync_listed bundle exports bindings k h

  unfoldable pub sync_exports :
      Bundle K → Result (List String) → K → History → (List Error × K) × History
  unfolding sync_bindings
  sync_exports bundle (err e) k h = (
    (
      e ∷ [],
      not_synced "ListExportsFailed"
          ("Failed to list APIServiceExports from provider cluster: " +ˢ env.error_text e) k,
    ),
    h,
  )
  sync_exports bundle (ok exports) k h =
      let got = call list_bindings (λ past. server.bindings past) h in
      sync_bindings bundle exports got.0 k got.1

  unfoldable pub sync_client :
      Bundle K → String → Outcome → K → History → (List Error × K) × History
  unfolding sync_exports
  sync_client bundle namespace (err e) k h = (
    (
      e ∷ [],
      not_synced "ProviderClientError"
          ("Failed to create provider cluster client: " +ˢ env.error_text e) k,
    ),
    h,
  )
  sync_client bundle namespace (ok _) k h =
      let got = call (list_exports namespace) (λ past. server.exports past namespace) h in
      sync_exports bundle got.0 k got.1

  unfoldable pub sync_api_service_bindings :
      Bundle K → C → String → K → History → (List Error × K) × History
  unfolding sync_client
  sync_api_service_bindings bundle config namespace k h =
      let got = call (new_provider_client config) (λ past. server.made_client past config) h in
      sync_client bundle namespace got.0 k got.1
