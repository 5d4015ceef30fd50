-- ===== src/Spec/Create.antt =====
-- spec_reconcile.go: the creation of the provider object.
use text.Mathlib.TextEquality.{eq_iff}
use kbind.Base.{
  String, ◌≡◌, ◌∙◌, refl, true, false, none, some, List, [], ◌∷◌, arith, Result-cases, ok, err,
  not_found, already_exists, inl, inr, ◌⊎◌,
}
use kbind.Base.Dict.{lookup}
use kbind.Base.Exec.{◌>>=◌}
use kbind.Objects.{Object, NamespacedName, is_deleting}
use kbind.Objects.Metadata.{cluster_namespace_annotation_key, set_source_metadata_annotations}
use kbind.Isolation.{
  Strategy, none_strategy, prefixed, namespaced, service_namespaced, mutate_metadata_and_spec,
  set_owner_reference,
}
use kbind.Spec.{
  Call, get_provider_object, create_provider_object, Reconciler, has_finalizer,
  ensure_downstream_finalizer, sync_spec, update_upstream, create_upstream, create_provider,
  after_create, sync_found, sync_at, get_provider, set_cluster_namespace_annotation,
  upstream_candidate, cleaned,
}
use kbind.Spec.Sync.{
  IsTraced, set_cluster_namespace-lookup, set_source-IsTraced, set_cluster_namespace-keeps,
  with_source_of,
}

set_owner_reference-keeps :
    {J : Type 0} (o u : Object J) (cn uid : String)
    → set_owner_reference o cn uid ≡ ok u
    → (u.annotations ≡ o.annotations)
      × (u.spec ≡ o.spec)
      × (u.status ≡ o.status)
      × (u.finalizers ≡ o.finalizers)
      × (u.name ≡ o.name)
      × (u.namespace ≡ o.namespace)
      × (u.deletion_timestamp ≡ o.deletion_timestamp)
unfolding set_owner_reference
set_owner_reference-keeps o u cn uid e = ground arith

mutate-keeps :
    {J : Type 0} (s : Strategy) (o u : Object J) (key : NamespacedName)
    → mutate_metadata_and_spec s o key ≡ ok u
    → (u.annotations ≡ o.annotations)
      × (u.spec ≡ o.spec)
      × (u.status ≡ o.status)
      × (u.finalizers ≡ o.finalizers)
      × (u.deletion_timestamp ≡ o.deletion_timestamp)
unfolding mutate_metadata_and_spec
mutate-keeps (none_strategy cn uid) o u key e =
    ground (arith, set_owner_reference-keeps o u cn uid e)
mutate-keeps (prefixed cn uid) o u key e = ground (
  arith,
  set_owner_reference-keeps (record o { name = key.name; namespace = key.namespace }) u cn uid e,
)
mutate-keeps (namespaced cn) o u key e = ground arith
mutate-keeps (service_namespaced cn) o u key e = ground arith

module _ {J : Type 0} (json : Discrete J) (r : Reconciler J) where
  upstream_candidate-parts :
      (key : NamespacedName) (obj u : Object J)
      → upstream_candidate json r key obj ≡ ok u
      → (a : Object J) × (set_cluster_namespace_annotation json r (cleaned json r obj) ≡ ok a)
        × (mutate_metadata_and_spec r.isolation_strategy (with_source_of json r obj a) key ≡ ok u)
  unfolding upstream_candidate
  upstream_candidate-parts key obj u e =
      elim (Result-cases (set_cluster_namespace_annotation json r (cleaned json r obj))) [
        | inl (a, ea) ↦ (a, ea, ground (arith, ea))
        | inr (x, ex) ↦ absurd (ground (arith, ex))
      ]

  -- If the object to create can be made, it has the consumer's spec, no status, no finalizers, and is not being deleted; it
  -- is annotated with the cluster namespace and the consumer object that it comes from.
  pub upstream_candidate_lem :
      (key : NamespacedName) (obj u : Object J)
      → upstream_candidate json r key obj ≡ ok u
      → (u.spec ≡ obj.spec)
        × (u.status ≡ none)
        × (u.finalizers ≡ [])
        × (is_deleting u ≡ false)
        × IsTraced r obj u
  unfolding cleaned set_source_metadata_annotations
  upstream_candidate_lem key obj u e =
      let (a, ea, em) = upstream_candidate-parts key obj u e in
      let made = mutate-keeps r.isolation_strategy (with_source_of json r obj a) u key em in
      let kept = set_cluster_namespace-keeps json r (cleaned json r obj) a ea in
      let traced =
        set_source-IsTraced json r obj a
          (set_cluster_namespace-lookup json r (cleaned json r obj) a ea) in
      (
        made.1 ∙ kept.0,
        made.2 ∙ kept.4,
        made.3 ∙ kept.3,
        rw (made.4 ∙ kept.7) refl,
        record {
          cluster = rw (made.0) traced.cluster;
          namespace = rw (made.0) traced.namespace;
          uid = rw (made.0) traced.uid;
        },
      )

  set_cluster_namespace-own :
      (o : Object J)
      → lookup cluster_namespace_annotation_key o.annotations ≡ some r.cluster_namespace
      → set_cluster_namespace_annotation json r o ≡ ok o
  unfolding set_cluster_namespace_annotation
  set_cluster_namespace-own o e = ground (arith, e, eq_iff r.cluster_namespace r.cluster_namespace)

  sync_spec-equal :
      (obj upstream : Object J) (h : List (Call J))
      → upstream.spec ≡ obj.spec
      → sync_spec json r obj upstream h ≡ (ok tt, h)
  unfolding sync_spec
  sync_spec-equal obj upstream h e = ground arith

  update_upstream-created :
      (key : NamespacedName) (obj u : Object J) (h : List (Call J))
      → is_deleting obj ≡ false
      → has_finalizer obj ≡ true
      → upstream_candidate json r key obj ≡ ok u
      → update_upstream json r key obj u h ≡ (ok tt, h)
  unfolding update_upstream ensure_downstream_finalizer set_source_metadata_annotations ◌>>=◌
  update_upstream-created key obj u h d f e =
      let made = upstream_candidate_lem key obj u e in
      rw (d, set_cluster_namespace-own u made.4.cluster, f) (sync_spec-equal obj _ h made.0)

  -- The consumer object is not being deleted and carries the finalizer, there is no provider object,
  -- and `u` is what the isolation strategy makes of the consumer object. If its creation succeeds, or
  -- finds that the object exists, the reconciliation succeeds, and the creation is its one write.
  pub sync_at-absent :
      (key : NamespacedName) (obj u : Object J) (h : List (Call J))
      → r.server.got h key.namespace key.name ≡ err not_found
      → is_deleting obj ≡ false
      → has_finalizer obj ≡ true
      → upstream_candidate json r key obj ≡ ok u
      → let h' = get_provider_object key.namespace key.name ∷ h in
        ((x : Object J) × (r.server.created h' u ≡ ok x))
          ⊎ (r.server.created h' u ≡ err already_exists)
        → sync_at json r obj (some key) h ≡ (ok tt, create_provider_object u ∷ h')
  unfolding sync_at get_provider sync_found create_upstream create_provider after_create
      ensure_downstream_finalizer ◌>>=◌
  sync_at-absent key obj u h g d f e (inl (x, c)) =
      rw (g, sync_found, d, f, e, c, after_create) (update_upstream-created key obj u _ d f e)
  sync_at-absent key obj u h g d f e (inr c) =
      rw (g, sync_found, d, f, e, c, after_create) (update_upstream-created key obj u _ d f e)
