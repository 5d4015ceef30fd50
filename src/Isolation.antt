-- ===== src/Isolation.antt =====
-- pkg/konnector/controllers/cluster/serviceexport/isolation: how the keys of objects are translated
-- between the consumer and the provider cluster. `Strategy` has a constructor for each type that
-- implements the interface.
pub mod RoundTrip
pub mod Cache
pub mod Translated
use kbind.Base.{
  String, Bool, true, false, ◌&&◌, ◌||◌, Option, none, some, List, [], ◌∷◌, ◌++◌, if◌then◌else◌,
  Result, ok, err, Error, other, not_found, ◌=ˢ◌, not,
}
use kbind.Base.Text.{has_prefix, trim_prefix}
use kbind.Base.Exec.{Exec, ret, fail, attempt, ◌>>=◌}
use kbind.Objects.{Object, NamespacedName, OwnerReference}
use Prim.Native.String.{◌++◌ as ◌+ˢ◌}

-- An APIServiceNamespace: `status_namespace` is empty until the backend has assigned one.
pub record ServiceNamespace : Type 0 where
  pub namespace : String
  pub name : String
  pub status_namespace : String

pub data Strategy : Type 0 where
  none_strategy prefixed : (cluster_namespace cluster_namespace_uid : String) → Strategy
  namespaced service_namespaced : (cluster_namespace : String) → Strategy

-- What ServiceNamespacedStrategy is given: the lister and the index of the APIServiceNamespaces, and
-- the function that creates one.
pub record ServiceNamespaces (C : Type 0) : Type 0 where
  pub lister_get : String → String → Exec C ServiceNamespace
  pub by_index : String → Exec C (List ServiceNamespace)
  pub creator : String → Exec C ServiceNamespace

-- `nil, nil` where the namespace is empty: not ready yet.
key_if_ready : String → String → Option NamespacedName
key_if_ready namespace name =
    if namespace =ˢ "" then none else some (record { namespace = namespace; name = name })

-- The name of the first APIServiceNamespace in the cluster namespace.
first_in : String → List ServiceNamespace → String
first_in cluster_namespace [] = ""
first_in cluster_namespace (sn ∷ rest) =
    if sn.namespace =ˢ cluster_namespace then sn.name else first_in cluster_namespace rest

module _ {C : Type 0} (sns : ServiceNamespaces C) where
  status_or_none : Result ServiceNamespace → Exec C String
  status_or_none (ok sn) = ret sn.status_namespace
  status_or_none (err not_found) = ret ""
  status_or_none (err e) = fail e

  unfoldable pub provider_namespace : String → String → Exec C String
  unfolding status_or_none
  provider_namespace cluster_namespace consumer_namespace = do
    got ← attempt (sns.lister_get cluster_namespace consumer_namespace)
    status_or_none got

  unfoldable pub consumer_namespace : String → String → Exec C String
  unfolding first_in
  consumer_namespace cluster_namespace namespace = do
    found ← sns.by_index namespace
    ret (first_in cluster_namespace found)

  unfoldable pub to_provider_key : Strategy → NamespacedName → Exec C (Option NamespacedName)
  unfolding provider_namespace key_if_ready
  to_provider_key (none_strategy cn uid) key = ret (some key)
  to_provider_key (prefixed cn uid) key =
      ret (some (record { namespace = ""; name = cn +ˢ "-" +ˢ key.name }))
  to_provider_key (namespaced cn) key = ret (some (record { namespace = cn; name = key.name }))
  to_provider_key (service_namespaced cn) key = do
    ns ← provider_namespace cn key.namespace
    ret (key_if_ready ns key.name)

  created_if_missing : String → Result ServiceNamespace → Exec C ServiceNamespace
  created_if_missing name (ok sn) = ret sn
  created_if_missing name (err not_found) = sns.creator name
  created_if_missing name (err e) = fail e

  unfoldable pub ensure_provider_key : Strategy → NamespacedName → Exec C (Option NamespacedName)
  unfolding to_provider_key created_if_missing key_if_ready
  ensure_provider_key (service_namespaced cn) key = do
    got ← attempt (sns.lister_get cn key.namespace)
    sn ← created_if_missing key.namespace got
    ret (key_if_ready sn.status_namespace key.name)
  ensure_provider_key strategy key = to_provider_key strategy key

  unfoldable pub to_consumer_key : Strategy → NamespacedName → Exec C (Option NamespacedName)
  unfolding consumer_namespace key_if_ready
  to_consumer_key (none_strategy cn uid) key = ret (some key)
  to_consumer_key (prefixed cn uid) key =
      if has_prefix key.name (cn +ˢ "-")
      then ret (some (record { namespace = ""; name = trim_prefix key.name (cn +ˢ "-") }))
      else ret none
  to_consumer_key (namespaced cn) key =
      if key.namespace =ˢ cn
      then ret (some (record { namespace = ""; name = key.name }))
      else ret none
  to_consumer_key (service_namespaced cn) key = do
    ns ← consumer_namespace cn key.namespace
    ret (key_if_ready ns key.name)

find_owner_reference : List OwnerReference → String → Option OwnerReference
find_owner_reference [] cluster_namespace = none
find_owner_reference (ref ∷ refs) cluster_namespace =
    if (ref.kind =ˢ "Namespace") && (ref.name =ˢ cluster_namespace)
    then some ref
    else find_owner_reference refs cluster_namespace

module _ {J : Type 0} where
  abbrev rename : Object J → NamespacedName → Object J
  rename obj key = record obj { name = key.name; namespace = key.namespace }

  add_if_missing : Option OwnerReference → Object J → String → String → Result (Object J)
  add_if_missing none obj cn uid = ok (record obj {
    owner_references =
        obj.owner_references
        ++ record {
          api_version = "v1";
          kind = "Namespace";
          name = cn;
          uid = uid;
          controller = false;
        }
          ∷ [];
  })
  add_if_missing (some ref) obj cn uid =
      if ref.name =ˢ cn
      then ok obj
      else err (other "mismatch between existing cluster namespace and given cluster namespace")

  unfoldable pub set_owner_reference : Object J → String → String → Result (Object J)
  unfolding find_owner_reference add_if_missing
  set_owner_reference obj cn uid =
      add_if_missing (find_owner_reference obj.owner_references cn) obj cn uid

  unfoldable pub mutate_metadata_and_spec : Strategy → Object J → NamespacedName → Result (Object J)
  unfolding set_owner_reference
  mutate_metadata_and_spec (none_strategy cn uid) obj key = set_owner_reference obj cn uid
  mutate_metadata_and_spec (prefixed cn uid) obj key = set_owner_reference (rename obj key) cn uid
  mutate_metadata_and_spec (namespaced cn) obj key = ok (rename obj key)
  mutate_metadata_and_spec (service_namespaced cn) obj key = ok (rename obj key)

  unfoldable pub mutate_status : Strategy → Object J → NamespacedName → Result (Object J)
  mutate_status (none_strategy cn uid) obj key = ok obj
  mutate_status (prefixed cn uid) obj key = ok (rename obj key)
  mutate_status (namespaced cn) obj key = ok (rename obj key)
  mutate_status (service_namespaced cn) obj key = ok (rename obj key)
