-- ===== src/Rbac.antt =====
-- backend/controllers/serviceexportrbac/rbac_reconciler.go: the roles by which a konnector may write
-- what an export offers and claims. The data and the functions that bring one object in place; the
-- rules are in Rbac/Rules.antt, `reconcile` in Rbac/Reconcile.antt.
pub mod Rules
pub mod Reconcile
pub mod Grants
pub mod Writes
pub mod Confined
pub mod Takeover
use kbind.Base.{
  String, Bool, true, false, not, ◌&&◌, ◌||◌, Option, none, some, List, [], ◌∷◌, if◌then◌else◌,
  Result, ok, err, not_found, already_exists, Outcome, ◌=ˢ◌,
}
use kbind.Base.Dict.{Dict, lookup, insert}
use kbind.Base.Exec.{Exec, ret, fail, attempt, call, ◌>>=◌, ◌>>◌}
use kbind.Isolation.{ServiceNamespace}
use kbind.Objects.{OwnerReference}
use kbind.Objects.Metadata.{String_discrete, annotations_discrete}
use mathlib.Core.Logic.{ite}

pub record PolicyRule : Type 0 where
  pub api_groups : List String
  pub resources : List String
  pub verbs : List String

pub record Subject : Type 0 where
  pub kind : String
  pub namespace : String
  pub name : String

-- `aggregation_rule` has the labels of each selector. The rules of a role are nil or a slice, which
-- can be empty.
pub record ClusterRole : Type 0 where
  pub name : String
  pub labels : Dict String
  pub owner_references : List OwnerReference
  pub aggregation_rule : Option (List (Dict String))
  pub rules : Option (List PolicyRule)

-- `role_ref` is the name of the role; its kind follows from the binding's.
pub record ClusterRoleBinding : Type 0 where
  pub name : String
  pub role_ref : String
  pub subjects : List Subject

pub record Role : Type 0 where
  pub namespace : String
  pub name : String
  pub rules : Option (List PolicyRule)

pub record RoleBinding : Type 0 where
  pub namespace : String
  pub name : String
  pub role_ref : String
  pub subjects : List Subject

-- The name and the uid of a corev1.Namespace.
pub record Namespace : Type 0 where
  pub name : String
  pub uid : String

pub data Call : Type 0 where
  get_namespace list_service_namespaces get_cluster_role get_cluster_role_binding :
      (name : String) → Call
  get_role get_role_binding : (namespace name : String) → Call
  create_cluster_role update_cluster_role : ClusterRole → Call
  create_cluster_role_binding update_cluster_role_binding : ClusterRoleBinding → Call
  create_role update_role : Role → Call
  create_role_binding update_role_binding : RoleBinding → Call

-- What each call answers after the calls before it; `quote` prints a text in quotes.
pub record Server : Type 0 where
  pub namespace : List Call → String → Result Namespace
  pub service_namespaces : List Call → String → Result (List ServiceNamespace)
  pub cluster_role : List Call → String → Result ClusterRole
  pub cluster_role_binding : List Call → String → Result ClusterRoleBinding
  pub role : List Call → String → String → Result Role
  pub role_binding : List Call → String → String → Result RoleBinding
  pub wrote : List Call → Call → Outcome
  pub quote : String → String

abbrev pub aggregate_label_key : String
aggregate_label_key = "rbac.kube-bind.io/aggregate-to-parent"

unfoldable pub rules_discrete : Discrete (Option (List PolicyRule))
rules_discrete = hlevel String_discrete

unfoldable pub subjects_discrete : Discrete (List Subject)
subjects_discrete = hlevel String_discrete

unfoldable pub owners_discrete : Discrete (List OwnerReference)
owners_discrete = hlevel String_discrete

unfoldable pub aggregation_discrete : Discrete (Option (List (Dict String)))
aggregation_discrete = hlevel annotations_discrete

abbrev is_yes : {A : Type 0} → Dec A → Bool
is_yes (yes _) = true
is_yes (no _) = false

-- getOrCreate: the object that is there, or the one that is created.
module _ {A : Type 0} where
  unfoldable pub created_as : A → Outcome → Exec Call A
  created_as expected (ok _) = ret expected
  created_as expected (err already_exists) = ret expected
  created_as expected (err e) = fail e

  unfoldable pub got_or_created : A → Exec Call (Unit {0}) → Result A → Exec Call A
  unfolding created_as
  got_or_created expected create (ok found) = ret found
  got_or_created expected create (err not_found) = attempt create >>= created_as expected
  got_or_created expected create (err e) = fail e

  unfoldable pub get_or_create : A → Exec Call A → Exec Call (Unit {0}) → Exec Call A
  unfolding got_or_created
  get_or_create expected get create = attempt get >>= got_or_created expected create

unfoldable pub is_aggregated : Dict String → Bool
is_aggregated labels = elim (lookup aggregate_label_key labels) [
  | none ↦ false
  | some value ↦ value =ˢ "true"
]

abbrev pub exports_name : String
exports_name = "kube-binder-exports"

abbrev pub aggregating_role : ClusterRole
aggregating_role = record {
  name = exports_name;
  labels = [];
  owner_references = [];
  aggregation_rule = some (((aggregate_label_key, "true") ∷ []) ∷ []);
  rules = none;
}

abbrev pub exports_binding : List Subject → ClusterRoleBinding
exports_binding subjects = record {
  name = exports_name;
  role_ref = exports_name;
  subjects = subjects;
}

-- Whether an aggregated cluster role differs from the expected one.
unfoldable pub is_outdated : ClusterRole → ClusterRole → Bool
unfolding is_aggregated
is_outdated expected found =
    not (is_aggregated found.labels)
    || not (is_yes (owners_discrete expected.owner_references found.owner_references))
    || not (is_yes (rules_discrete expected.rules found.rules))

module _ (server : Server) where
  abbrev M : Type 0 → Type 0
  M = Exec Call

  abbrev pub write : Call → M (Unit {0})
  write c = call c (λ h. server.wrote h c)

  unfoldable pub ensure_cluster_role : ClusterRole → M ClusterRole
  unfolding get_or_create
  ensure_cluster_role expected =
      get_or_create expected
        (call (get_cluster_role expected.name) (λ h. server.cluster_role h expected.name))
        (write (create_cluster_role expected))

  unfoldable pub update_rules : ClusterRole → ClusterRole → M (Unit {0})
  update_rules expected found =
      if is_outdated expected found
      then write (
          update_cluster_role (record found {
            labels = insert aggregate_label_key "true" found.labels;
            owner_references = expected.owner_references;
            rules = expected.rules;
          }))
      else ret tt

  unfoldable pub ensure_aggregated_cluster_role :
      String → List OwnerReference → List PolicyRule → M (Unit {0})
  unfolding ensure_cluster_role update_rules
  ensure_aggregated_cluster_role name owners rules =
      let expected : ClusterRole = record {
        name = name;
        labels = (aggregate_label_key, "true") ∷ [];
        owner_references = owners;
        aggregation_rule = none;
        rules = some rules;
      } in
      ensure_cluster_role expected >>= update_rules expected

  unfoldable pub update_aggregation : ClusterRole → ClusterRole → M (Unit {0})
  update_aggregation expected found =
      ite (aggregation_discrete expected.aggregation_rule found.aggregation_rule) (ret tt) (
        write (update_cluster_role (record found { aggregation_rule = expected.aggregation_rule })))

  unfoldable pub update_cluster_subjects : ClusterRoleBinding → ClusterRoleBinding → M (Unit {0})
  update_cluster_subjects expected found =
      ite (subjects_discrete expected.subjects found.subjects) (ret tt)
        (write (update_cluster_role_binding (record found { subjects = expected.subjects })))

  unfoldable pub ensure_cluster_role_binding : ClusterRoleBinding → M (Unit {0})
  unfolding get_or_create update_cluster_subjects
  ensure_cluster_role_binding expected =
      get_or_create expected
        (call (get_cluster_role_binding expected.name)
          (λ h. server.cluster_role_binding h expected.name))
        (write (create_cluster_role_binding expected))
      >>= update_cluster_subjects expected

  unfoldable pub ensure_aggregating_cluster_role_and_cluster_role_binding :
      List Subject → M (Unit {0})
  unfolding ensure_cluster_role update_aggregation ensure_cluster_role_binding
  ensure_aggregating_cluster_role_and_cluster_role_binding subjects =
      (ensure_cluster_role aggregating_role >>= update_aggregation aggregating_role)
      >> ensure_cluster_role_binding (exports_binding subjects)

  unfoldable pub update_role_rules : Role → Role → M (Unit {0})
  update_role_rules expected found =
      ite (rules_discrete expected.rules found.rules) (ret tt)
        (write (update_role (record found { rules = expected.rules })))

  unfoldable pub update_subjects : RoleBinding → RoleBinding → M (Unit {0})
  update_subjects expected found =
      ite (subjects_discrete expected.subjects found.subjects) (ret tt)
        (write (update_role_binding (record found { subjects = expected.subjects })))

  unfoldable pub ensure_role : Role → M (Unit {0})
  unfolding get_or_create update_role_rules
  ensure_role expected =
      get_or_create expected
        (call (get_role expected.namespace expected.name)
          (λ h. server.role h expected.namespace expected.name))
        (write (create_role expected))
      >>= update_role_rules expected

  unfoldable pub ensure_role_binding : RoleBinding → M (Unit {0})
  unfolding get_or_create update_subjects
  ensure_role_binding expected =
      get_or_create expected
        (call (get_role_binding expected.namespace expected.name)
          (λ h. server.role_binding h expected.namespace expected.name))
        (write (create_role_binding expected))
      >>= update_subjects expected

  unfoldable pub ensure_role_and_role_binding :
      String → String → List Subject → List PolicyRule → M (Unit {0})
  unfolding ensure_role ensure_role_binding
  ensure_role_and_role_binding namespace name subjects rules =
      ensure_role (record { namespace = namespace; name = name; rules = some rules })
      >> ensure_role_binding
          (record { namespace = namespace; name = name; role_ref = name; subjects = subjects })
