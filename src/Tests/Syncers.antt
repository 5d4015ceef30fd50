-- ===== src/Tests/Syncers.antt =====
-- Runs of the syncers: with the prefixed strategy, a consumer object `db` that carries the finalizer.
use native.Mathlib.Decide.{ℕ_discrete}
use kbind.Base.{ℕ, ◌≡◌, refl, ◌⊎◌, inl, true, false, none, some, List, [], ◌∷◌, ok, err, not_found}
use kbind.Base.Dict.{lookup, insert}
use kbind.Objects.{Object, is_deleting, key_of}
use kbind.Base.Text.{has_prefix, trim_prefix}
use kbind.Isolation.{ensure_provider_key, to_consumer_key, mutate_metadata_and_spec, mutate_status}
use kbind.Objects.Metadata.{
  annotations_discrete, Object-discrete, String_discrete, set_source_metadata_annotations,
}
use kbind.Base.Exec.{◌>>=◌}
use kbind.Spec
use kbind.Spec.Finalizer.{Guarded, reconcile-Guarded}
use kbind.Spec.Deletion.{ReleasedWhenGone, reconcile-ReleasedWhenGone}
use kbind.Spec.Sync.{IsTraced, sync_at-present}
use kbind.Spec.Create.{upstream_candidate_lem, sync_at-absent}
use kbind.Status
use kbind.ClaimedResources
use kbind.ClaimedResources.Deletion.{DeletesFollowOwners, reconcile-DeletesFollowOwners}
use kbind.ClaimedResources.{determine_owner}
use kbind.ClaimedResources.Ownership.{IsOwnerRule, determine_owner-IsOwnerRule}
use kbind.Status.Orphans.{OnlyOrphans, reconcile-OnlyOrphans}
use kbind.Status.Writeback.{IsCopied, sync_present-IsCopied, sync_present-converged}
use kbind.Tests.{
  consumer_object, provider_object, provider_key, consumer_key, cn_prefixed, spec_reconciler,
  status_server,
}

abbrev present : Spec.Reconciler ℕ
present = spec_reconciler (ok provider_object)

abbrev absent : Spec.Reconciler ℕ
absent = spec_reconciler (err not_found)

reconcile-Guarded_example :
    Guarded absent.server true (Spec.reconcile ℕ_discrete absent consumer_object []).1
reconcile-Guarded_example = reconcile-Guarded ℕ_discrete absent consumer_object

reconcile-ReleasedWhenGone_example :
    ReleasedWhenGone absent.server
      (ok (some provider_key))
      (Spec.reconcile ℕ_discrete absent
        (record consumer_object { deletion_timestamp = some 9 })
        []).1
unfolding ensure_provider_key
reconcile-ReleasedWhenGone_example =
    reconcile-ReleasedWhenGone ℕ_discrete absent
      (record consumer_object { deletion_timestamp = some 9 })

sync_at-done : (Spec.sync_at ℕ_discrete present consumer_object (some provider_key) []).0 ≡ ok tt
unfolding Spec.sync_at Spec.get_provider Spec.sync_found Spec.update_upstream
    Spec.ensure_downstream_finalizer Spec.set_cluster_namespace_annotation Spec.sync_spec
    Spec.update_provider ◌>>=◌ lookup set_source_metadata_annotations ℕ_discrete
sync_at-done = refl

sync_at-present_example :
    let h' : List (Spec.Call ℕ) = Spec.get_provider_object "" "cn-db" ∷ [] in
    ((consumer_object.spec ≡ provider_object.spec)
      × ((Spec.sync_at ℕ_discrete present consumer_object (some provider_key) []).1 ≡ h'))
    ⊎ ((u : Object ℕ) × ((Spec.sync_at ℕ_discrete present consumer_object (some provider_key) []).1
          ≡ Spec.update_provider_object u ∷ h')
        × (u.spec ≡ consumer_object.spec)
        × IsTraced present consumer_object u
        × (key_of u ≡ provider_key))
sync_at-present_example =
    sync_at-present ℕ_discrete present provider_key consumer_object provider_object [] refl refl
      refl sync_at-done

-- What is created for `consumer_object`.
abbrev created : Object ℕ
created = record consumer_object {
  name = "cn-db";
  uid = "";
  resource_version = "";
  finalizers = [];
  owner_references =
      record {
        api_version = "v1";
        kind = "Namespace";
        name = "cn";
        uid = "cn-uid";
        controller = false;
      }
      ∷ [];
  annotations =
      ("kube-bind.io/cluster-namespace", "cn")
      ∷ ("kube-bind.io/consumer-namespace", "")
      ∷ ("kube-bind.io/consumer-uid", "c-uid")
      ∷ [];
}

is_candidate : Spec.upstream_candidate ℕ_discrete absent provider_key consumer_object ≡ ok created
unfolding Spec.upstream_candidate lookup mutate_metadata_and_spec set_source_metadata_annotations
    insert
is_candidate = refl

upstream_candidate_lem_example :
    (created.spec ≡ consumer_object.spec)
    × (created.status ≡ none)
    × (created.finalizers ≡ [])
    × (is_deleting created ≡ false)
    × IsTraced absent consumer_object created
upstream_candidate_lem_example =
    upstream_candidate_lem ℕ_discrete absent provider_key consumer_object created is_candidate

sync_at-absent_example :
    Spec.sync_at ℕ_discrete absent consumer_object (some provider_key) []
    ≡ (ok tt, Spec.create_provider_object created ∷ Spec.get_provider_object "" "cn-db" ∷ [])
sync_at-absent_example =
    sync_at-absent ℕ_discrete absent provider_key consumer_object created [] refl refl refl
      is_candidate (inl (created, refl))

reconcile-OnlyOrphans_example :
    OnlyOrphans
      (status_server (err not_found))
      provider_object
      (ok (some consumer_key))
      (Status.reconcile ℕ_discrete cn_prefixed (status_server (err not_found)) provider_object []).1
unfolding to_consumer_key has_prefix trim_prefix
reconcile-OnlyOrphans_example =
    reconcile-OnlyOrphans ℕ_discrete cn_prefixed (status_server (err not_found)) provider_object

copied :
    (Status.sync_present ℕ_discrete cn_prefixed
      (status_server (ok consumer_object))
      provider_object
      consumer_key
      consumer_object
      []).0
    ≡ ok tt
unfolding Status.sync_present Status.annotate Status.copy_status Status.update_status ◌>>=◌
    annotations_discrete set_source_metadata_annotations insert mutate_status Object-discrete
    String_discrete ℕ_discrete
copied = refl

sync_present-IsCopied_example :
    IsCopied ℕ_discrete cn_prefixed
      (status_server (ok consumer_object))
      provider_object
      consumer_object
      consumer_key
      []
      (Status.sync_present ℕ_discrete cn_prefixed
        (status_server (ok consumer_object))
        provider_object
        consumer_key
        consumer_object
        []).1
sync_present-IsCopied_example =
    sync_present-IsCopied ℕ_discrete cn_prefixed (status_server (ok consumer_object))
      provider_object consumer_object consumer_key [] copied

-- The consumer object with the status and the annotations of the provider.
abbrev synced : Object ℕ
synced = record consumer_object {
  status = some 1;
  annotations =
      ("kube-bind.io/provider-namespace", "") ∷ ("kube-bind.io/provider-uid", "p-uid") ∷ [];
}

is_annotated :
    synced.annotations
    ≡ (Status.annotated_by ℕ_discrete cn_prefixed
        (status_server (ok synced))
        provider_object
        synced).annotations
unfolding set_source_metadata_annotations insert
is_annotated = refl

sync_present-converged_example :
    Status.sync_present ℕ_discrete cn_prefixed
      (status_server (ok synced))
      provider_object
      consumer_key
      synced
      []
    ≡ (ok tt, [])
sync_present-converged_example =
    sync_present-converged ℕ_discrete cn_prefixed (status_server (ok synced)) provider_object synced
      [] is_annotated refl

determine_owner-IsOwnerRule_example : IsOwnerRule (determine_owner {J = ℕ})
determine_owner-IsOwnerRule_example = determine_owner-IsOwnerRule {J = ℕ}

-- The provider object is gone, and the consumer object is labelled as the provider's.
abbrev claimed_server : ClaimedResources.Server ℕ
claimed_server = record {
  service_namespace = λ h n. err not_found;
  got_provider = λ h ns n. err not_found;
  got_consumer =
      λ h ns n. ok (record consumer_object { labels = ("kube-bind.io/owner", "provider") ∷ [] });
  deleted_provider = λ h ns n. ok tt;
  deleted_consumer = λ h ns n. ok tt;
  created_provider = λ h o. ok tt;
  updated_provider = λ h o. ok tt;
  created_consumer = λ h o. ok o;
  updated_consumer = λ h o. ok o;
}

reconcile-DeletesFollowOwners_example :
    DeletesFollowOwners claimed_server "" "db"
      (ok "")
      (ClaimedResources.reconcile ℕ_discrete claimed_server "" "db" []).1
unfolding ClaimedResources.consumer_namespace
reconcile-DeletesFollowOwners_example =
    reconcile-DeletesFollowOwners ℕ_discrete claimed_server "" "db"
