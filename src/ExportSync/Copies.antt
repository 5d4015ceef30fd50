-- ===== src/ExportSync/Copies.antt =====
-- serviceexport_reconcile.go: reconcile after its controllers: the conditions of the binding and of
-- the CRDs are copied to the export and to its bound schemas (ensureServiceBindingConditionCopied,
-- ensureCRDConditionsCopiedToBoundSchema).
use kbind.Base.{
  ℕ, zero, suc, String, Bool, true, false, Option, none, some, List, [], ◌∷◌, ◌++◌, if◌then◌else◌,
  Error, Result, ok, err, not_found, Outcome, ◌=ˢ◌,
}
use kbind.Base.Dict.{Dict, lookup, insert}
use kbind.Base.Exec.{call}
use kbind.Claims.{ExportResource}
use kbind.Conditions.{
  Condition, Conditions, severity_error, severity_warning, severity_info, severity_none,
}
use kbind.ExportRequest.{resource_group_name}
use Prim.Native.String.{◌++◌ as ◌+ˢ◌}

-- A condition of a CustomResourceDefinition, which has no severity.
pub record CrdCondition : Type 0 where
  pub condition_type : String
  pub status : String
  pub last_transition_time : ℕ
  pub reason : String
  pub message : String

-- `A` is the type of the accepted names.
pub record Crd (A : Type 0) : Type 0 where
  pub conditions : List CrdCondition
  pub accepted_names : A
  pub stored_versions : List String

-- The name and the status of a BoundSchema.
pub record SchemaStatus (A : Type 0) : Type 0 where
  pub name : String
  pub conditions : List Condition
  pub accepted_names : A
  pub stored_versions : List String

-- The name and the conditions of an APIServiceBinding.
pub record BindingStatus (K : Type 0) : Type 0 where
  pub name : String
  pub conditions : K

pub data Call (A : Type 0) : Type 0 where
  get_service_binding get_remote_bound_schema get_crd : (name : String) → Call A
  update_remote_bound_schema : SchemaStatus A → Call A

pub record Server (A K : Type 0) : Type 0 where
  pub service_binding : List (Call A) → String → Result (BindingStatus K)
  pub bound_schema : List (Call A) → String → Result (SchemaStatus A)
  pub crd : List (Call A) → String → Result (Crd A)
  pub updated_bound_schema : List (Call A) → SchemaStatus A → Outcome

abbrev pub connected : String
connected = "Connected"

abbrev pub consumer_in_sync : String
consumer_in_sync = "ConsumerInSync"

unfoldable pub severity_of : String → String
severity_of status = if status =ˢ "True" then severity_none else severity_error

unfoldable pub copied : CrdCondition → Condition
unfolding severity_of
copied c = record {
  condition_type = c.condition_type;
  status = c.status;
  severity = severity_of c.status;
  last_transition_time = c.last_transition_time;
  reason = c.reason;
  message = c.message;
}

-- `boundSchemaIndex`, from the position `i` on
unfoldable pub index_conditions : ℕ → List Condition → Dict ℕ → Dict ℕ
index_conditions i [] index = index
index_conditions i (c ∷ cs) index = index_conditions (suc i) cs (insert c.condition_type i index)

-- `conditions[i] = new`; the index has only positions in range.
unfoldable pub assign : ℕ → Condition → List Condition → List Condition
assign i new [] = []
assign zero new (c ∷ cs) = new ∷ cs
assign (suc i) new (c ∷ cs) = c ∷ assign i new cs

unfoldable pub update_or_append : Option ℕ → Condition → List Condition → List Condition
unfolding assign
update_or_append none new cs = cs ++ new ∷ []
update_or_append (some i) new cs = assign i new cs

unfoldable pub copy_all : Dict ℕ → List CrdCondition → List Condition → List Condition
unfolding update_or_append copied
copy_all index [] cs = cs
copy_all index (c ∷ rest) cs =
    if c.condition_type =ˢ "Ready"
    then copy_all index rest cs
    else copy_all index rest (update_or_append (lookup c.condition_type index) (copied c) cs)

module _ {A K : Type 0} (listed : Conditions (List Condition)) (marks : Conditions K)
    (server : Server A K) where
  unfoldable pub with_crd : Crd A → SchemaStatus A → SchemaStatus A
  unfolding index_conditions copy_all
  with_crd crd schema = record schema {
    conditions =
        listed.set_summary
          (copy_all (index_conditions 0 schema.conditions []) crd.conditions schema.conditions);
    accepted_names = crd.accepted_names;
    stored_versions = crd.stored_versions;
  }

  -- `errs` and `allValid`
  abbrev pub Sum : Type 0
  Sum = List Error × Bool

  unfoldable pub update_failed : Outcome → Sum → Sum
  update_failed (ok _) sum = sum
  update_failed (err e) (errs, all_valid) = (errs ++ e ∷ [], false)

  unfoldable pub skip_missing : Error → Sum → Sum
  skip_missing not_found sum = sum
  skip_missing e (errs, all_valid) = (errs ++ e ∷ [], all_valid)

  unfoldable pub copy_crd :
      SchemaStatus A → Result (Crd A) → Sum → List (Call A) → Sum × List (Call A)
  unfolding update_failed skip_missing with_crd
  copy_crd schema (err e) sum h = (skip_missing e sum, h)
  copy_crd schema (ok crd) sum h =
      let new = with_crd crd schema in
      let got =
        call (update_remote_bound_schema new) (λ past. server.updated_bound_schema past new) h in
      (update_failed got.0 sum, got.1)

  unfoldable pub copy_schema : Result (SchemaStatus A) → Sum → List (Call A) → Sum × List (Call A)
  unfolding copy_crd skip_missing
  copy_schema (err e) sum h = (skip_missing e sum, h)
  copy_schema (ok schema) sum h =
      let got = call (get_crd schema.name) (λ past. server.crd past schema.name) h in
      copy_crd schema got.0 sum got.1

  unfoldable pub copy_resources : List ExportResource → Sum → List (Call A) → Sum × List (Call A)
  unfolding copy_schema
  copy_resources [] sum h = (sum, h)
  copy_resources (res ∷ rest) sum h =
      let name = resource_group_name res in
      let got = call (get_remote_bound_schema name) (λ past. server.bound_schema past name) h in
      let r = copy_schema got.0 sum got.1 in copy_resources rest r.0 r.1

  unfoldable pub mark_connected : Bool → K → K
  mark_connected true k = marks.mark_true connected k
  mark_connected false k =
      marks.mark_false connected "BoundSchemasNotValid" severity_warning
        "One or more BoundSchemas are not valid" k

  unfoldable pub ensure_crd_conditions_copied_to_bound_schema :
      List ExportResource → K → List (Call A) → (List Error × K) × List (Call A)
  unfolding copy_resources mark_connected
  ensure_crd_conditions_copied_to_bound_schema resources k h =
      let r = copy_resources resources ([], true) h in ((r.0.0, mark_connected r.0.1 k), r.1)

  unfoldable pub copy_in_sync : String → Option Condition → K → K
  copy_in_sync binding_name (some in_sync) k =
      marks.set_condition (record in_sync { condition_type = consumer_in_sync }) k
  copy_in_sync binding_name none k =
      marks.mark_false consumer_in_sync "Unknown" severity_info
        ("APIServiceBinding " +ˢ binding_name
          +ˢ " in the consumer cluster does not have a SchemaInSync condition.")
        k

  -- The marks of an export without a binding.
  unfoldable pub mark_unbound : K → K
  mark_unbound k =
      marks.mark_false consumer_in_sync "NA" severity_info "No APIServiceBinding exists." (
        marks.mark_false connected "APIServiceBindingNotFound" severity_info
          "No APIServiceBinding exists." k)

  unfoldable pub copy_binding : Result (BindingStatus K) → K → List Error × K
  unfolding copy_in_sync mark_unbound
  copy_binding (ok binding) k = (
    [],
    copy_in_sync binding.name (marks.get_condition binding.conditions "SchemaInSync")
        (marks.mark_true connected k),
  )
  copy_binding (err not_found) k = ([], mark_unbound k)
  copy_binding (err e) k = (e ∷ [], k)

  -- The second half of `reconcile`, for an export that is there.
  unfoldable pub copy_conditions :
      String → List ExportResource → K → List (Call A) → (List Error × K) × List (Call A)
  unfolding copy_binding ensure_crd_conditions_copied_to_bound_schema
  copy_conditions name resources k h =
      let got = call (get_service_binding name) (λ past. server.service_binding past name) h in
      let bound = copy_binding got.0 k in
      let rest = ensure_crd_conditions_copied_to_bound_schema resources bound.1 got.1 in
      ((bound.0 ++ rest.0.0, rest.0.1), rest.1)
