-- ===== src/Objects/Metadata.antt =====
-- pkg/konnector/types: the annotations that trace a synced object back to its source, and the
-- equality that reflect.DeepEqual decides.
use text.Mathlib.TextEquality.{eq_iff}
use kbind.Base.{String, ◌≡◌, ◌=ˢ◌, Bool, true, false, arith, Option}
use kbind.Base.Dict.{Dict, insert}
use kbind.Objects.{Object}
use native.Mathlib.Decide.{ℕ_discrete}

abbrev pub cluster_namespace_annotation_key : String
cluster_namespace_annotation_key = "kube-bind.io/cluster-namespace"

abbrev pub consumer_namespace_annotation_key : String
consumer_namespace_annotation_key = "kube-bind.io/consumer-namespace"

abbrev pub consumer_uid_annotation_key : String
consumer_uid_annotation_key = "kube-bind.io/consumer-uid"

abbrev pub provider_namespace_annotation_key : String
provider_namespace_annotation_key = "kube-bind.io/provider-namespace"

abbrev pub provider_uid_annotation_key : String
provider_uid_annotation_key = "kube-bind.io/provider-uid"

unfoldable pub set_source_metadata_annotations :
    {J : Type 0} → Object J → String → String → String → String → Object J
set_source_metadata_annotations obj source_ns source_uid ns_key uid_key = record obj {
  annotations = insert uid_key source_uid (insert ns_key source_ns obj.annotations);
}

decide_text : (s t : String) (b : Bool) → (s =ˢ t) ≡ b → Dec (s ≡ t)
decide_text s t true e = yes ((eq_iff s t).0 e)
decide_text s t false e = no (λ p. ground (arith, eq_iff s t))

unfoldable pub String_discrete : Discrete String
unfolding decide_text
String_discrete s t = decide_text s t (s =ˢ t) (λ i. s =ˢ t)

unfoldable pub annotations_discrete : Discrete (Dict String)
annotations_discrete = hlevel String_discrete

module _ {J : Type 0} (json : Discrete J) where
  unfoldable pub content_discrete : Discrete (Option J)
  content_discrete = hlevel json

  unfoldable pub Object-discrete : Discrete (Object J)
  Object-discrete = hlevel (json, String_discrete, ℕ_discrete)
