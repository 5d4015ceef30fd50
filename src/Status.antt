-- ===== src/Status.antt =====
-- pkg/konnector/controllers/cluster/serviceexport/status: the status of a provider object is synced
-- to the consumer object.
pub mod Orphans
pub mod Writeback
use mathlib.Core.Logic.{ite}
use kbind.Base.{
  String, Bool, true, false, Option, none, some, List, if◌then◌else◌, Error, Result, ok, err,
  Outcome, not_found,
}
use kbind.Base.Exec.{Exec, ret, fail, attempt, call, ◌>>=◌, ◌>>◌}
use kbind.Objects.{Object, NamespacedName, key_of}
use kbind.Objects.Metadata.{
  provider_namespace_annotation_key, provider_uid_annotation_key, set_source_metadata_annotations,
  Object-discrete, annotations_discrete,
}
use kbind.Isolation.{Strategy, ServiceNamespace, ServiceNamespaces, to_consumer_key, mutate_status}

-- The function fields of `reconciler`, and the calls of its isolation strategy.
pub data Call (J : Type 0) : Type 0 where
  get_service_namespace : (namespace name : String) → Call J
  index_service_namespaces create_service_namespace : (name : String) → Call J
  get_consumer_object delete_provider_object : (ns name : String) → Call J
  update_consumer_object update_consumer_object_status : Object J → Call J

-- What each call answers after the calls before it.
pub record Server (J : Type 0) : Type 0 where
  pub service_namespace : List (Call J) → String → String → Result ServiceNamespace
  pub indexed : List (Call J) → String → Result (List ServiceNamespace)
  pub created_service_namespace : List (Call J) → String → Result ServiceNamespace
  pub got : List (Call J) → String → String → Result (Object J)
  pub deleted : List (Call J) → String → String → Outcome
  pub updated : List (Call J) → Object J → Result (Object J)
  pub updated_status : List (Call J) → Object J → Result (Object J)

module _ {J : Type 0} (json : Discrete J) (isolation_strategy : Strategy) (server : Server J) where
  abbrev M : Type 0 → Type 0
  M = Exec (Call J)

  pub service_namespaces : ServiceNamespaces (Call J)
  service_namespaces = record {
    lister_get = λ namespace name.
        call (get_service_namespace namespace name)
          (λ h. server.service_namespace h namespace name);
    by_index = λ ns. call (index_service_namespaces ns) (λ h. server.indexed h ns);
    creator =
        λ name. call (create_service_namespace name) (λ h. server.created_service_namespace h name);
  }

  unfoldable pub update_consumer : Object J → M (Object J)
  update_consumer obj = call (update_consumer_object obj) (λ h. server.updated h obj)

  pub delete_provider : NamespacedName → M (Unit {0})
  delete_provider key =
      call (delete_provider_object key.namespace key.name)
        (λ h. server.deleted h key.namespace key.name)

  pub get_consumer : NamespacedName → M (Object J)
  get_consumer key =
      call (get_consumer_object key.namespace key.name) (λ h. server.got h key.namespace key.name)

  abbrev pub annotated_by : Object J → Object J → Object J
  annotated_by obj downstream =
      set_source_metadata_annotations downstream obj.namespace obj.uid
        provider_namespace_annotation_key provider_uid_annotation_key

  -- The provider annotations, by an update of the whole object if they change.
  unfoldable pub annotate : Object J → Object J → M (Object J)
  unfolding update_consumer
  annotate obj downstream =
      ite (annotations_discrete downstream.annotations (annotated_by obj downstream).annotations)
        (ret downstream) (update_consumer (annotated_by obj downstream))

  unfoldable pub update_status : Object J → M (Object J)
  update_status obj = call (update_consumer_object_status obj) (λ h. server.updated_status h obj)

  -- The copy of the status, and the update if the object changes.
  unfoldable pub copy_status : Object J → Object J → M (Unit {0})
  copy_status obj orig =
      let downstream : Object J = record orig { status = obj.status } in
      ite (Object-discrete json orig downstream) (ret tt) (do update_status downstream; ret tt)

  abbrev lift : {A : Type 0} → Result A → M A
  lift m h = (m, h)

  unfoldable pub sync_present : Object J → NamespacedName → Object J → M (Unit {0})
  sync_present obj consumer_key downstream = do
    annotated ← annotate obj downstream
    named ← lift (mutate_status isolation_strategy annotated consumer_key)
    copy_status obj named

  -- `// downstream is gone. Delete upstream too.`
  pub sync_got : Object J → NamespacedName → Result (Object J) → M (Unit {0})
  sync_got obj consumer_key (ok downstream) = sync_present obj consumer_key downstream
  sync_got obj consumer_key (err not_found) = delete_provider (key_of obj)
  sync_got obj consumer_key (err e) = fail e

  pub sync_at : Object J → Result (Option NamespacedName) → M (Unit {0})
  sync_at obj (ok none) = ret tt
  sync_at obj (ok (some key)) = do got ← attempt (get_consumer key); sync_got obj key got
  sync_at obj (err not_found) = ret tt
  sync_at obj (err e) = fail e

  unfoldable pub reconcile : Object J → M (Unit {0})
  reconcile obj = do
    key ← attempt (to_consumer_key service_namespaces isolation_strategy (key_of obj))
    sync_at obj key
