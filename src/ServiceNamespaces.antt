-- ===== src/ServiceNamespaces.antt =====
-- backend/controllers/servicenamespace/servicenamespace_reconcile.go: the backend assigns a namespace
-- of the provider to an APIServiceNamespace.
pub mod Unique
pub mod Collisions
pub mod RoundTrip
use kbind.Base.{
  String, Bool, true, false, not, ◌||◌, List, [], ◌∷◌, if◌then◌else◌, Error, Result, ok, err,
  already_exists, other, Outcome, done, ◌=ˢ◌,
}
use kbind.Base.Dict.{Dict}
use kbind.Base.Exec.{Exec, call}
use kbind.Isolation.{ServiceNamespace}
use Prim.Native.String.{◌++◌ as ◌+ˢ◌}

pub record Namespace : Type 0 where
  pub name : String
  pub annotations : Dict String

pub data Call : Type 0 where
  get_namespace : (name : String) → Call
  create_namespace : Namespace → Call

pub record Server : Type 0 where
  pub got : List Call → String → Result Namespace
  pub created : List Call → Namespace → Outcome

abbrev pub service_namespace_annotation_key : String
service_namespace_annotation_key = "kube-bind.io/api-service-namespace"

-- `nsName`, by the backend's isolation.
unfoldable pub namespace_name : String → ServiceNamespace → Result String
namespace_name isolation sns =
    if not (sns.status_namespace =ˢ "")
    then ok sns.status_namespace
    else if isolation =ˢ "None"
    then ok sns.name
    else if (isolation =ˢ "Namespaced") || (isolation =ˢ "Prefixed")
    then ok (sns.namespace +ˢ "-" +ˢ sns.name)
    else err (other ("unknown isolation strategy: " +ˢ isolation))

abbrev pub new_namespace : String → ServiceNamespace → Namespace
new_namespace name sns = record {
  name = name;
  annotations = (service_namespace_annotation_key, sns.namespace +ˢ "/" +ˢ sns.name) ∷ [];
}

-- An `AlreadyExists` is no error.
unfoldable pub settled : Outcome → String → ServiceNamespace → Outcome × ServiceNamespace
settled (ok _) name sns = (done, record sns { status_namespace = name })
settled (err already_exists) name sns = (done, record sns { status_namespace = name })
settled (err e) name sns = (err e, sns)

module _ (isolation : String) (server : Server) where
  -- The error of the read is dropped: whatever it is, the namespace counts as missing.
  unfoldable pub ensure_namespace :
      Result Namespace
      → String
      → ServiceNamespace
      → List Call
      → (Outcome × ServiceNamespace) × List Call
  unfolding settled
  ensure_namespace (ok _) name sns h = (settled done name sns, h)
  ensure_namespace (err _) name sns h =
      let new = new_namespace name sns in
      let got = call (create_namespace new) (λ past. server.created past new) h in
      (settled got.0 name sns, got.1)

  unfoldable pub reconcile_named :
      Result String → ServiceNamespace → List Call → (Outcome × ServiceNamespace) × List Call
  unfolding ensure_namespace
  reconcile_named (err e) sns h = ((err e, sns), h)
  reconcile_named (ok name) sns h =
      let got = call (get_namespace name) (λ past. server.got past name) h in
      ensure_namespace got.0 name sns got.1

  unfoldable pub reconcile : ServiceNamespace → List Call → (Outcome × ServiceNamespace) × List Call
  unfolding namespace_name reconcile_named
  reconcile sns h = reconcile_named (namespace_name isolation sns) sns h
