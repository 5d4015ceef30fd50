-- ===== src/Tests.antt =====
-- Objects and servers for the runs of the syncers, and the files of the runs.
pub mod Stores
pub mod Syncers
pub mod Bindings
pub mod Claiming
pub mod Requests
pub mod Running
pub mod Beating
pub mod Granting
pub mod Converting
pub mod Installing
pub mod Bundling
use native.Mathlib.Decide.{ℕ_discrete}
use text.Mathlib.TextEquality.{eq_iff}
use kbind.Base.{
  ◌≢◌, arith, ◌=ˢ◌, ℕ, String, ◌≡◌, refl, Bool, true, false, Option, none, some, List, [], ◌∷◌,
  Error, Result, ok, err, Outcome, done, not_found, other,
}
use kbind.Conditions.{Conditions}
use kbind.Objects.{Object, NamespacedName}
use kbind.Isolation.{Strategy, prefixed, ServiceNamespace}
use kbind.Spec
use kbind.Status
use kbind.ClaimedResources

-- Cluster-scoped, with the spec 7 and no status.
abbrev pub consumer_object : Object ℕ
consumer_object = record {
  namespace = "";
  name = "db";
  uid = "c-uid";
  resource_version = "12";
  managed_fields = [];
  creation_timestamp = 5;
  deletion_timestamp = none;
  deletion_grace_period_seconds = none;
  owner_references = [];
  finalizers = "kubebind.io/syncer" ∷ [];
  labels = [];
  annotations = [];
  spec = some 7;
  status = none;
  rest = none;
}

-- Its copy at the provider, with an older spec and a status.
abbrev pub provider_object : Object ℕ
provider_object = record consumer_object {
  name = "cn-db";
  uid = "p-uid";
  finalizers = [];
  spec = some 6;
  status = some 1;
}

-- Texts that compare as different are different.
pub differ : (s t : String) → (s =ˢ t) ≡ false → s ≢ t
differ s t e p = ground (arith, eq_iff s t)

abbrev pub provider_key : NamespacedName
provider_key = record { namespace = ""; name = "cn-db" }

abbrev pub consumer_key : NamespacedName
consumer_key = record { namespace = ""; name = "db" }

abbrev pub cn_prefixed : Strategy
cn_prefixed = prefixed "cn" "cn-uid"

-- A server of which every read of a provider object answers `answer` and every write succeeds.
abbrev pub spec_server : Result (Object ℕ) → Spec.Server ℕ
spec_server answer = record {
  service_namespace = λ h ns n. err not_found;
  indexed = λ h n. ok [];
  created_service_namespace = λ h n. err not_found;
  got = λ h ns n. answer;
  deleted = λ h ns n. done;
  created = λ h o. ok o;
  updated = λ h o. done;
  updated_consumer = λ h o. ok o;
  requeued = λ h o n. done;
}

abbrev pub spec_reconciler : Result (Object ℕ) → Spec.Reconciler ℕ
spec_reconciler answer = record {
  isolation_strategy = cn_prefixed;
  cluster_namespace = "cn";
  server = spec_server answer;
}

abbrev pub status_server : Result (Object ℕ) → Status.Server ℕ
status_server answer = record {
  service_namespace = λ h ns n. err not_found;
  indexed = λ h n. ok [];
  created_service_namespace = λ h n. err not_found;
  got = λ h ns n. answer;
  deleted = λ h ns n. done;
  updated = λ h o. ok o;
  updated_status = λ h o. ok o;
}

-- Conditions as the list of the marks.
abbrev pub marks : Conditions (List String)
marks = record {
  mark_true = λ c k. c ∷ k;
  mark_false = λ c r s m k. r ∷ k;
  get_message = λ k c. "";
  get_condition = λ k c. none;
  is_false = λ k c. false;
  set_condition = λ x k. x.condition_type ∷ k;
  set_summary = λ k. k;
}
