-- ===== src/Spec.antt =====
-- pkg/konnector/controllers/cluster/serviceexport/spec: the metadata and the spec of a consumer
-- object are synced to the provider object.
pub mod Finalizer
pub mod Deletion
pub mod Sync
pub mod Create
use kbind.Base.{
  ℕ, String, Bool, true, false, not, Option, none, some, List, [], ◌∷◌, ◌++◌, if◌then◌else◌,
  contains, keep, Error, Result, ok, err, Outcome, other, not_found, already_exists, ◌=ˢ◌, done,
  any, ◌||◌,
}
use kbind.Base.Dict.{lookup, insert}
use kbind.Base.Exec.{Exec, ret, fail, attempt, call, ◌>>=◌, ◌>>◌}
use kbind.Objects.{Object, NamespacedName, is_deleting, key_of}
use kbind.Objects.Metadata.{
  cluster_namespace_annotation_key, consumer_namespace_annotation_key, consumer_uid_annotation_key,
  set_source_metadata_annotations, content_discrete,
}
use kbind.Isolation.{
  Strategy, ServiceNamespace, ServiceNamespaces, ensure_provider_key, mutate_metadata_and_spec,
}
use mathlib.Core.Logic.{ite}

abbrev pub downstream_finalizer : String
downstream_finalizer = "kubebind.io/syncer"

-- The function fields of `reconciler`, and the calls of its isolation strategy.
pub data Call (J : Type 0) : Type 0 where
  get_service_namespace : (namespace name : String) → Call J
  index_service_namespaces create_service_namespace : (name : String) → Call J
  get_provider_object delete_provider_object : (ns name : String) → Call J
  create_provider_object update_provider_object update_consumer_object : Object J → Call J
  requeue : Object J → (seconds : ℕ) → Call J

-- What each call answers after the calls before it.
pub record Server (J : Type 0) : Type 0 where
  pub service_namespace : List (Call J) → String → String → Result ServiceNamespace
  pub indexed : List (Call J) → String → Result (List ServiceNamespace)
  pub created_service_namespace : List (Call J) → String → Result ServiceNamespace
  pub got : List (Call J) → String → String → Result (Object J)
  pub deleted : List (Call J) → String → String → Outcome
  pub created : List (Call J) → Object J → Result (Object J)
  pub updated : List (Call J) → Object J → Outcome
  pub updated_consumer : List (Call J) → Object J → Result (Object J)
  pub requeued : List (Call J) → Object J → ℕ → Outcome

pub record Reconciler (J : Type 0) : Type 0 where
  pub isolation_strategy : Strategy
  pub cluster_namespace : String
  pub server : Server J

without_finalizer : List String → List String
without_finalizer = keep (λ f. not (f =ˢ downstream_finalizer))

abbrev pub has_finalizer : {J : Type 0} → Object J → Bool
has_finalizer obj = contains obj.finalizers downstream_finalizer

module _ {J : Type 0} (json : Discrete J) (r : Reconciler J) where
  abbrev M : Type 0 → Type 0
  M = Exec (Call J)

  pub service_namespaces : ServiceNamespaces (Call J)
  service_namespaces = record {
    lister_get = λ namespace name.
        call (get_service_namespace namespace name)
          (λ h. r.server.service_namespace h namespace name);
    by_index = λ ns. call (index_service_namespaces ns) (λ h. r.server.indexed h ns);
    creator = λ name.
        call (create_service_namespace name) (λ h. r.server.created_service_namespace h name);
  }

  pub update_consumer : Object J → M (Object J)
  update_consumer obj = call (update_consumer_object obj) (λ h. r.server.updated_consumer h obj)

  unfoldable pub ensure_downstream_finalizer : Object J → M (Object J)
  unfolding update_consumer
  ensure_downstream_finalizer obj =
      if has_finalizer obj
      then ret obj
      else update_consumer (record obj { finalizers = obj.finalizers ++ downstream_finalizer ∷ [] })

  pub remove_downstream_finalizer : Object J → M (Object J)
  unfolding update_consumer without_finalizer
  remove_downstream_finalizer obj =
      if has_finalizer obj
      then update_consumer (record obj { finalizers = without_finalizer obj.finalizers })
      else ret obj

  annotate_if_missing : Option String → Object J → Result (Object J)
  annotate_if_missing none obj = ok (record obj {
    annotations = insert cluster_namespace_annotation_key r.cluster_namespace obj.annotations;
  })
  annotate_if_missing (some existing) obj =
      if existing =ˢ r.cluster_namespace
      then ok obj
      else err (other "mismatch between existing cluster namespace and given cluster namespace")

  unfoldable pub set_cluster_namespace_annotation : Object J → Result (Object J)
  unfolding annotate_if_missing
  set_cluster_namespace_annotation obj =
      annotate_if_missing (lookup cluster_namespace_annotation_key obj.annotations) obj

  abbrev with_source : Object J → Object J → Object J
  with_source upstream obj =
      set_source_metadata_annotations upstream obj.namespace obj.uid
        consumer_namespace_annotation_key consumer_uid_annotation_key

  -- `// clean up object`
  unfoldable pub cleaned : Object J → Object J
  cleaned obj = record obj {
    uid = "";
    resource_version = "";
    managed_fields = [];
    deletion_timestamp = none;
    deletion_grace_period_seconds = none;
    owner_references = [];
    finalizers = [];
    status = none;
  }

  abbrev lift : {A : Type 0} → Result A → M A
  lift m h = (m, h)

  -- The object that is created at the provider.
  unfoldable pub upstream_candidate : NamespacedName → Object J → Result (Object J)
  unfolding cleaned set_cluster_namespace_annotation
  upstream_candidate key obj = elim (set_cluster_namespace_annotation (cleaned obj)) [
    | ok annotated ↦ mutate_metadata_and_spec r.isolation_strategy (with_source annotated obj) key
    | err e ↦ err e
  ]

  -- SetManagedFields(nil) and the server-side apply of spec_controller.go
  unfoldable pub update_provider : Object J → M (Unit {0})
  update_provider obj =
      let applied : Object J = record obj { managed_fields = [] } in
      call (update_provider_object applied) (λ h. r.server.updated h applied)

  -- The comparison of the specs, and the update.
  unfoldable pub sync_spec : Object J → Object J → M (Unit {0})
  unfolding update_provider content_discrete
  sync_spec obj upstream =
      ite (content_discrete json obj.spec upstream.spec) (ret tt)
        (update_provider (record upstream { spec = obj.spec }))

  pub delete_provider : NamespacedName → M (Unit {0})
  delete_provider key =
      call (delete_provider_object key.namespace key.name)
        (λ h. r.server.deleted h key.namespace key.name)

  -- After `deleteProviderObject`: NotFound is as good as deleted.
  pub release_if_gone : Object J → Outcome → M (Unit {0})
  release_if_gone obj (ok _) = do remove_downstream_finalizer obj; ret tt
  release_if_gone obj (err not_found) = do remove_downstream_finalizer obj; ret tt
  release_if_gone obj (err e) = fail e

  pub delete_upstream : NamespacedName → Object J → Object J → M (Unit {0})
  delete_upstream key obj upstream =
      if is_deleting upstream
      then ret tt
      else do deleted ← attempt (delete_provider key); release_if_gone obj deleted

  -- `// here the upstream already exists. Update everything but the status.`
  unfoldable pub update_upstream : NamespacedName → Object J → Object J → M (Unit {0})
  update_upstream key obj upstream =
      if is_deleting obj then delete_upstream key obj upstream else do
        annotated ← lift (set_cluster_namespace_annotation upstream)
        held ← ensure_downstream_finalizer obj
        sync_spec held (with_source annotated obj)

  -- After `createProviderObject`: an object that is there already is as good as created.
  pub after_create : NamespacedName → Object J → Object J → Result (Object J) → M (Unit {0})
  after_create key obj upstream (ok _) = update_upstream key obj upstream
  after_create key obj upstream (err already_exists) = update_upstream key obj upstream
  after_create key obj upstream (err e) = fail e

  pub create_provider : Object J → M (Object J)
  create_provider upstream =
      call (create_provider_object upstream) (λ h. r.server.created h upstream)

  pub create_upstream : NamespacedName → Object J → M (Unit {0})
  create_upstream key obj = do
    held ← ensure_downstream_finalizer obj
    upstream ← lift (upstream_candidate key held)
    created ← attempt (create_provider upstream)
    after_create key held upstream created

  unfoldable pub sync_found : NamespacedName → Object J → Result (Object J) → M (Unit {0})
  sync_found key obj (ok upstream) = update_upstream key obj upstream
  sync_found key obj (err not_found) =
      if is_deleting obj
      then (do remove_downstream_finalizer obj; ret tt)
      else create_upstream key obj
  sync_found key obj (err e) = fail e

  unfoldable pub get_provider : NamespacedName → M (Object J)
  get_provider key =
      call (get_provider_object key.namespace key.name) (λ h. r.server.got h key.namespace key.name)

  unfoldable pub sync_at : Object J → Option NamespacedName → M (Unit {0})
  sync_at obj none = call (requeue obj 1) (λ h. r.server.requeued h obj 1)
  sync_at obj (some key) = do got ← attempt (get_provider key); sync_found key obj got

  unfoldable pub reconcile : Object J → M (Unit {0})
  unfolding service_namespaces
  reconcile obj = do
    key ← ensure_provider_key service_namespaces r.isolation_strategy (key_of obj)
    sync_at obj key
