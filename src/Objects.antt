-- ===== src/Objects.antt =====
-- Kubernetes objects as the controllers see them: `unstructured.Unstructured` with its accessors as
-- fields. `J` is the type of JSON values. A nil map or slice is an empty one, an absent or null
-- `spec` or `status` is `none`; a field at the top of an object is always read and set without error.
-- `rest` is all other content.
pub mod Metadata
use kbind.Base.{ℕ, String, Bool, true, false, Option, none, some, List, [], is_some}
use kbind.Base.Dict.{Dict}

pub record NamespacedName : Type 0 where
  pub namespace : String
  pub name : String

pub record OwnerReference : Type 0 where
  pub api_version : String
  pub kind : String
  pub name : String
  pub uid : String
  pub controller : Bool

pub record Object (J : Type 0) : Type 0 where
  pub namespace : String
  pub name : String
  pub uid : String
  pub resource_version : String
  pub managed_fields : List String
  pub creation_timestamp : ℕ
  pub deletion_timestamp : Option ℕ
  pub deletion_grace_period_seconds : Option ℕ
  pub owner_references : List OwnerReference
  pub finalizers : List String
  pub labels : Dict String
  pub annotations : Dict String
  pub spec : Option J
  pub status : Option J
  pub rest : Option J

-- `!obj.GetDeletionTimestamp().IsZero()`
abbrev pub is_deleting : {J : Type 0} → Object J → Bool
is_deleting o = is_some o.deletion_timestamp

abbrev pub key_of : {J : Type 0} → Object J → NamespacedName
key_of o = record { namespace = o.namespace; name = o.name }
