-- ===== src/Spec/Sync.antt =====
-- spec_reconcile.go: the update of the provider object.
use text.Mathlib.TextEquality.{eq_iff}
use kbind.Base.{
  String, ◌≡◌, ◌≢◌, ◌∙◌, refl, true, false, some, List, [], ◌∷◌, arith, Error, Result-cases, ok,
  err, other, Option-cases, inl, inr, ◌⊎◌,
}
use kbind.Base.Dict.{lookup, lookup-insert}
use kbind.Base.Exec.{◌>>=◌}
use kbind.Objects.{Object, NamespacedName, key_of, is_deleting}
use kbind.Objects.Metadata.{
  cluster_namespace_annotation_key, consumer_namespace_annotation_key, consumer_uid_annotation_key,
  content_discrete, set_source_metadata_annotations,
}
use kbind.Spec.{
  Call, get_provider_object, update_provider_object, Reconciler, has_finalizer,
  ensure_downstream_finalizer, sync_spec, update_upstream, sync_found, sync_at, get_provider,
  set_cluster_namespace_annotation,
}

-- The provider object belongs to this consumer and names its source.
pub record IsTraced {J : Type 0} (r : Reconciler J) (obj u : Object J) : Type 0 where
  pub cluster : lookup cluster_namespace_annotation_key u.annotations ≡ some r.cluster_namespace
  pub namespace : lookup consumer_namespace_annotation_key u.annotations ≡ some obj.namespace
  pub uid : lookup consumer_uid_annotation_key u.annotations ≡ some obj.uid

module _ {J : Type 0} (json : Discrete J) (r : Reconciler J) where
  pub set_cluster_namespace-lookup :
      (o u : Object J)
      → set_cluster_namespace_annotation json r o ≡ ok u
      → lookup cluster_namespace_annotation_key u.annotations ≡ some r.cluster_namespace
  unfolding set_cluster_namespace_annotation
  set_cluster_namespace-lookup o u e =
      elim (Option-cases (lookup cluster_namespace_annotation_key o.annotations)) [
        | inl absent ↦ ground (
          arith,
          absent,
          lookup-insert cluster_namespace_annotation_key cluster_namespace_annotation_key
              r.cluster_namespace o.annotations,
        )
        | inr (existing, present) ↦ ground (arith, present, eq_iff existing r.cluster_namespace)
      ]

  pub set_source-IsTraced :
      (obj u : Object J)
      → lookup cluster_namespace_annotation_key u.annotations ≡ some r.cluster_namespace
      → IsTraced r obj (
          set_source_metadata_annotations u obj.namespace obj.uid consumer_namespace_annotation_key
            consumer_uid_annotation_key)
  unfolding set_source_metadata_annotations
  set_source-IsTraced obj u e = record {
    cluster = simp lookup-insert e;
    namespace = simp lookup-insert;
    uid = simp lookup-insert;
  }

  pub set_cluster_namespace-keeps :
      (o u : Object J)
      → set_cluster_namespace_annotation json r o ≡ ok u
      → (u.spec ≡ o.spec)
        × (u.name ≡ o.name)
        × (u.namespace ≡ o.namespace)
        × (u.finalizers ≡ o.finalizers)
        × (u.status ≡ o.status)
        × (u.uid ≡ o.uid)
        × (u.owner_references ≡ o.owner_references)
        × (u.deletion_timestamp ≡ o.deletion_timestamp)
  unfolding set_cluster_namespace_annotation
  set_cluster_namespace-keeps o u e = ground arith

  sync_at-annotated :
      (key : NamespacedName) (obj upstream a : Object J) (h : List (Call J))
      → r.server.got h key.namespace key.name ≡ ok upstream
      → is_deleting obj ≡ false
      → has_finalizer obj ≡ true
      → set_cluster_namespace_annotation json r upstream ≡ ok a
      → sync_at json r obj (some key) h
        ≡ sync_spec json r obj
            (set_source_metadata_annotations a obj.namespace obj.uid
              consumer_namespace_annotation_key consumer_uid_annotation_key)
            (get_provider_object key.namespace key.name ∷ h)
  unfolding sync_at get_provider sync_found update_upstream ensure_downstream_finalizer ◌>>=◌
  sync_at-annotated key obj upstream a h g d f e = rw (g, sync_found, d, e, f) refl

  -- The consumer object is not being deleted, and the provider object is found and annotated with
  -- another cluster namespace: the reconciliation is an error, and nothing is written.
  pub sync_at-foreign :
      (key : NamespacedName) (obj upstream : Object J) (owner : String) (h : List (Call J))
      → r.server.got h key.namespace key.name ≡ ok upstream
      → is_deleting obj ≡ false
      → lookup cluster_namespace_annotation_key upstream.annotations ≡ some owner
      → owner ≢ r.cluster_namespace
      → sync_at json r obj (some key) h ≡ (
        err (other "mismatch between existing cluster namespace and given cluster namespace"),
        get_provider_object key.namespace key.name ∷ h,
      )
  unfolding sync_at get_provider sync_found update_upstream set_cluster_namespace_annotation ◌>>=◌
  sync_at-foreign key obj upstream owner h g d o n =
      rw (g, sync_found, d, o) (ground (arith, eq_iff owner r.cluster_namespace))

  abbrev pub with_source_of : Object J → Object J → Object J
  with_source_of obj a =
      set_source_metadata_annotations a obj.namespace obj.uid consumer_namespace_annotation_key
        consumer_uid_annotation_key

  abbrev applied : Object J → Object J → Object J
  applied obj upstream = record upstream { managed_fields = []; spec = obj.spec }

  sync_spec-cases :
      (obj upstream : Object J) (h : List (Call J))
      → ((obj.spec ≡ upstream.spec) × ((sync_spec json r obj upstream h).1 ≡ h))
        ⊎ ((sync_spec json r obj upstream h).1 ≡ update_provider_object (applied obj upstream) ∷ h)
  unfolding sync_spec
  sync_spec-cases obj upstream h = elim (content_discrete json obj.spec upstream.spec) [
    | yes p ↦ inl (p, ground arith)
    | no p ↦ inr (ground arith)
  ]

  sync_at-refused :
      (key : NamespacedName) (obj upstream : Object J) (x : Error) (h : List (Call J))
      → r.server.got h key.namespace key.name ≡ ok upstream
      → is_deleting obj ≡ false
      → set_cluster_namespace_annotation json r upstream ≡ err x
      → (sync_at json r obj (some key) h).0 ≡ err x
  unfolding sync_at get_provider sync_found update_upstream ◌>>=◌
  sync_at-refused key obj upstream x h g d e = rw (g, sync_found, d, e) refl

  -- The consumer object is not being deleted and carries the finalizer, and the provider object is
  -- found. A reconciliation that succeeds then either finds equal specs and writes nothing, or its
  -- one write applies an object with the key of the provider object, the consumer's spec, the
  -- cluster namespace and the source annotations.
  pub sync_at-present :
      (key : NamespacedName) (obj upstream : Object J) (h : List (Call J))
      → r.server.got h key.namespace key.name ≡ ok upstream
      → is_deleting obj ≡ false
      → has_finalizer obj ≡ true
      → (sync_at json r obj (some key) h).0 ≡ ok tt
      → let h' = get_provider_object key.namespace key.name ∷ h in
        ((obj.spec ≡ upstream.spec) × ((sync_at json r obj (some key) h).1 ≡ h'))
        ⊎ ((u : Object J) × ((sync_at json r obj (some key) h).1 ≡ update_provider_object u ∷ h')
            × (u.spec ≡ obj.spec)
            × IsTraced r obj u
            × (key_of u ≡ key_of upstream))
  unfolding set_source_metadata_annotations
  sync_at-present key obj upstream h g d f s =
      elim (Result-cases (set_cluster_namespace_annotation json r upstream)) [
        | inl (a, e) ↦
            let h' = get_provider_object key.namespace key.name ∷ h in
            let traced = set_source-IsTraced obj a (set_cluster_namespace-lookup upstream a e) in
            let kept = set_cluster_namespace-keeps upstream a e in
            rw (sync_at-annotated key obj upstream a h g d f e)
              (elim (sync_spec-cases obj (with_source_of obj a) h') [
                | inl (same, none_written) ↦ inl (same ∙ kept.0, none_written)
                | inr written ↦ inr (
                  applied obj (with_source_of obj a),
                  written,
                  refl,
                  record {
                    cluster = traced.cluster;
                    namespace = traced.namespace;
                    uid = traced.uid;
                  },
                  λ i. record { namespace = kept.2 i; name = kept.1 i },
                )
              ])
        | inr (x, e) ↦ cc (sync_at-refused key obj upstream x h g d e)
      ]
