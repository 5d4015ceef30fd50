-- ===== src/ClaimedResources.antt =====
-- pkg/konnector/controllers/cluster/claimedresources/claimedresources_reconciler.go: claimed objects
-- are copied from the side that owns them to the other.
pub mod Ownership
pub mod Deletion
use mathlib.Core.Logic.{ite}
use text.Mathlib.Text.{find?}
use kbind.Base.{
  String, Bool, true, false, not, ◌&&◌, Option, none, some, List, [], ◌∷◌, if◌then◌else◌, keep,
  is_some, Error, Result, ok, err, Outcome, other, not_found, ◌=ˢ◌,
}
use kbind.Base.Dict.{Dict, lookup, insert}
use kbind.Base.Exec.{Exec, ret, fail, attempt, call, ◌>>=◌, ◌>>◌}
use kbind.Objects.{Object, NamespacedName, is_deleting}
use kbind.Objects.Metadata.{
  Object-discrete, set_source_metadata_annotations, provider_namespace_annotation_key,
  provider_uid_annotation_key, consumer_namespace_annotation_key, consumer_uid_annotation_key,
}
use kbind.Isolation.{ServiceNamespace}

abbrev pub object_owner_label : String
object_owner_label = "kube-bind.io/owner"

pub data Owner : Type 0 where
  provider consumer : Owner

abbrev pub owner_name : Owner → String
owner_name provider = "provider"
owner_name consumer = "consumer"

pub data Call (J : Type 0) : Type 0 where
  get_service_namespace : (upstream_namespace : String) → Call J
  get_provider_object delete_provider_object get_consumer_object delete_consumer_object :
      (ns name : String) → Call J
  create_provider_object update_provider_object create_consumer_object update_consumer_object :
      Object J → Call J

-- What each call answers after the calls before it.
pub record Server (J : Type 0) : Type 0 where
  pub service_namespace : List (Call J) → String → Result ServiceNamespace
  pub got_provider : List (Call J) → String → String → Result (Object J)
  pub got_consumer : List (Call J) → String → String → Result (Object J)
  pub deleted_provider : List (Call J) → String → String → Outcome
  pub deleted_consumer : List (Call J) → String → String → Outcome
  pub created_provider : List (Call J) → Object J → Outcome
  pub updated_provider : List (Call J) → Object J → Outcome
  pub created_consumer : List (Call J) → Object J → Result (Object J)
  pub updated_consumer : List (Call J) → Object J → Result (Object J)

-- The map access of Go: an absent label is the empty text.
text_of : Option String → String
text_of none = ""
text_of (some s) = s

abbrev without : String → Dict String → Dict String
without part = keep (λ e. not (is_some (find? e.0 part)))

abbrev undetermined : Result Owner
undetermined = err (other "unable to determine owner")

-- The two halves of determineOwner: `rest` is what follows the `if`.
pub by_label : String → (is_alone : Bool) → (self : Owner) → Result Owner → Result Owner
by_label label is_alone self rest =
    if label =ˢ "provider"
    then ok provider
    else if label =ˢ "consumer"
    then ok consumer
    else if (label =ˢ "") && is_alone
    then ok self
    else rest

module _ {J : Type 0} where
  -- makeProviderOwner and makeConsumerOwner
  unfoldable pub make_owner : Owner → Object J → Object J
  make_owner o obj = record obj { labels = insert object_owner_label (owner_name o) obj.labels }

  unfoldable pub owner_label : Object J → String
  unfolding text_of
  owner_label obj = text_of (lookup object_owner_label obj.labels)

  unfoldable pub candidate_from_owner_obj : String → Object J → Object J
  candidate_from_owner_obj downstream_ns obj = record obj {
    uid = "";
    resource_version = "";
    namespace = downstream_ns;
    managed_fields = [];
    deletion_timestamp = none;
    deletion_grace_period_seconds = none;
    owner_references = [];
    finalizers = [];
    creation_timestamp = 0;
    labels = without "claimed.internal.apis.kcp.io" obj.labels;
    annotations = without "kcp.io/cluster" obj.annotations;
  }

  pub by_consumer : Option (Object J) → Option (Object J) → Result Owner
  unfolding by_label
  by_consumer p none = undetermined
  by_consumer p (some c) = by_label (owner_label c) (not (is_some p)) consumer undetermined

  unfoldable pub determine_owner : Option (Object J) → Option (Object J) → Result Owner
  unfolding by_label by_consumer
  determine_owner none c = by_consumer none c
  determine_owner (some p) c =
      by_label (owner_label p) (not (is_some c)) provider (by_consumer (some p) c)

module _ {J : Type 0} (json : Discrete J) (s : Server J) where
  abbrev M : Type 0 → Type 0
  M = Exec (Call J)

  found_or_none : Result (Object J) → M (Option (Object J))
  found_or_none (ok o) = ret (some o)
  found_or_none (err not_found) = ret none
  found_or_none (err e) = fail e

  -- A read that answers NotFound goes on with nil.
  pub read_provider : String → String → M (Option (Object J))
  unfolding found_or_none
  read_provider ns name = do
    got ← attempt (call (get_provider_object ns name) (λ h. s.got_provider h ns name))
    found_or_none got

  pub read_consumer : String → String → M (Option (Object J))
  unfolding found_or_none
  read_consumer ns name = do
    got ← attempt (call (get_consumer_object ns name) (λ h. s.got_consumer h ns name))
    found_or_none got

  name_if_ready : ServiceNamespace → M String
  name_if_ready sn =
      if sn.status_namespace =ˢ ""
      then fail (other "APIServiceNamespace has empty status.namespace")
      else ret sn.name

  unfoldable pub consumer_namespace : String → M String
  unfolding name_if_ready
  consumer_namespace provider_namespace = if provider_namespace =ˢ "" then ret "" else do
    sn ←
        call (get_service_namespace provider_namespace)
          (λ h. s.service_namespace h provider_namespace)
    name_if_ready sn

  done_if_missing : Outcome → M (Unit {0})
  done_if_missing (ok _) = ret tt
  done_if_missing (err not_found) = ret tt
  done_if_missing (err e) = fail e

  pub delete_consumer : String → String → M (Unit {0})
  delete_consumer ns name =
      call (delete_consumer_object ns name) (λ h. s.deleted_consumer h ns name)

  pub delete_provider : String → String → M (Unit {0})
  delete_provider ns name =
      call (delete_provider_object ns name) (λ h. s.deleted_provider h ns name)

  pub update_provider : Object J → M (Unit {0})
  update_provider o = call (update_provider_object o) (λ h. s.updated_provider h o)

  pub create_provider : Object J → M (Unit {0})
  create_provider o = call (create_provider_object o) (λ h. s.created_provider h o)

  pub update_consumer : Object J → M (Object J)
  update_consumer o = call (update_consumer_object o) (λ h. s.updated_consumer h o)

  pub create_consumer : Object J → M (Object J)
  create_consumer o = call (create_consumer_object o) (λ h. s.created_consumer h o)

  -- The update that sets the owner label, if the object changes by it.
  pub label_provider : Object J → M (Unit {0})
  unfolding update_provider
  label_provider p =
      ite (Object-discrete json p (make_owner provider p)) (ret tt)
        (update_provider (make_owner provider p))

  pub label_consumer : Object J → M (Unit {0})
  unfolding update_consumer
  label_consumer c =
      ite (Object-discrete json c (make_owner consumer c)) (ret tt)
        (do update_consumer (make_owner consumer c); ret tt)

  -- The copy of a provider object for the consumer.
  pub consumer_candidate : String → Object J → Object J
  consumer_candidate consumer_ns p =
      set_source_metadata_annotations (candidate_from_owner_obj consumer_ns p) p.namespace p.uid
        provider_namespace_annotation_key provider_uid_annotation_key

  pub copy_to_consumer : String → Object J → Object J → M (Unit {0})
  unfolding update_consumer
  copy_to_consumer consumer_ns p c =
      let candidate = consumer_candidate consumer_ns p in
      ite (Object-discrete json candidate (candidate_from_owner_obj consumer_ns c)) (ret tt)
        (do update_consumer candidate; ret tt)

  pub to_consumer : String → Object J → Option (Object J) → M (Unit {0})
  unfolding create_consumer delete_consumer copy_to_consumer
  to_consumer consumer_ns p none = do
    create_consumer (make_owner provider (consumer_candidate consumer_ns p))
    ret tt
  to_consumer consumer_ns p (some c) =
      if is_deleting p then delete_consumer consumer_ns p.name else copy_to_consumer consumer_ns p c

  pub provider_owned : String → String → Option (Object J) → Option (Object J) → M (Unit {0})
  unfolding delete_consumer done_if_missing
  provider_owned consumer_ns name none c = do
    deleted ← attempt (delete_consumer consumer_ns name)
    done_if_missing deleted
  provider_owned consumer_ns name (some p) c = do label_provider p; to_consumer consumer_ns p c

  -- The copy of a consumer object for the provider.
  pub provider_candidate : String → Object J → Object J
  provider_candidate provider_ns c = make_owner consumer (
      set_source_metadata_annotations (candidate_from_owner_obj provider_ns c) c.namespace c.uid
        consumer_namespace_annotation_key consumer_uid_annotation_key)

  pub to_provider : String → Object J → Option (Object J) → M (Unit {0})
  unfolding create_provider update_provider
  to_provider provider_ns c none = create_provider (provider_candidate provider_ns c)
  to_provider provider_ns c (some p) =
      let candidate = provider_candidate provider_ns c in
      ite (Object-discrete json (candidate_from_owner_obj provider_ns p) candidate) (ret tt)
        (update_provider candidate)

  pub consumer_owned : String → String → Option (Object J) → Option (Object J) → M (Unit {0})
  unfolding delete_provider done_if_missing
  consumer_owned provider_ns name p none = do
    deleted ← attempt (delete_provider provider_ns name)
    done_if_missing deleted
  consumer_owned provider_ns name p (some c) = do
    label_consumer c
    to_provider provider_ns (make_owner consumer c) p

  pub sync_owned :
      Result Owner → String → String → String → Option (Object J) → Option (Object J) → M (Unit {0})
  sync_owned (err _) provider_ns consumer_ns name p c = ret tt
  sync_owned (ok provider) provider_ns consumer_ns name p c = provider_owned consumer_ns name p c
  sync_owned (ok consumer) provider_ns consumer_ns name p c = consumer_owned provider_ns name p c

  pub sync : String → String → String → Option (Object J) → Option (Object J) → M (Unit {0})
  sync provider_ns consumer_ns name p c =
      if not (is_some p) && not (is_some c)
      then ret tt
      else sync_owned (determine_owner p c) provider_ns consumer_ns name p c

  unfoldable pub reconcile : String → String → M (Unit {0})
  reconcile provider_ns name = do
    consumer_ns ← consumer_namespace provider_ns
    p ← read_provider provider_ns name
    c ← read_consumer consumer_ns name
    sync provider_ns consumer_ns name p c
