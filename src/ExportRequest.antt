-- ===== src/ExportRequest.antt =====
-- backend/controllers/serviceexportrequest/serviceexportrequest_reconcile.go: the backend answers a
-- request by bound schemas and an APIServiceExport. The data and the validation; the handler is in
-- ExportRequest/Handler.antt.
pub mod Handler
pub mod Exports
pub mod Checks
pub mod Claimable
pub mod Valid
pub mod Schemas
pub mod Success
pub mod Accepted
pub mod Order
use Prim.Native.String
use Prim.Native.String.{◌++◌ as ◌+ˢ◌}
use kbind.Base.{
  ℕ, String, Bool, true, false, not, ◌&&◌, ◌||◌, Option, none, some, List, [], ◌∷◌, ◌++◌,
  if◌then◌else◌, any, contains, Error, Result, ok, err, Outcome, done, other, ◌=ˢ◌,
}
use kbind.Base.Dict.{Dict, lookup, insert}
use kbind.Claims.{IsolationMode, ExportResource}
use kbind.Conditions.{Conditions, severity_error}

-- `X` is the type of JSON values: `content` is the rest of a spec.
pub record BoundSchemaSpec (X : Type 0) : Type 0 where
  pub group : String
  pub plural : String
  pub scope : String
  pub informer_scope : String
  pub content : X

pub record BoundSchema (X : Type 0) : Type 0 where
  pub namespace : String
  pub name : String
  pub resource_version : String
  pub controller_uid : Option String
  pub annotations : Dict String
  pub spec : BoundSchemaSpec X

pub record PermissionClaim (X : Type 0) : Type 0 where
  pub group : String
  pub resource : String
  pub content : X

pub record Export (X : Type 0) : Type 0 where
  pub namespace : String
  pub name : String
  pub uid : String
  pub annotations : Dict String
  pub informer_scope : String
  pub isolation : IsolationMode
  pub resources : List ExportResource
  pub permission_claims : List (PermissionClaim X)

pub data SchemaUpdatePolicy : Type 0 where
  never always : SchemaUpdatePolicy

pub data Phase : Type 0 where
  pending succeeded failed : Phase

-- `K` is the type of conditions.
pub record Request (X K : Type 0) : Type 0 where
  pub namespace : String
  pub name : String
  pub resources : List ExportResource
  pub permission_claims : List (PermissionClaim X)
  pub namespaces : List String
  pub schema_update_policy : SchemaUpdatePolicy
  pub phase : Phase
  pub terminal_message : String
  pub conditions : K

abbrev pub exports_ready : String
exports_ready = "ExportsReady"

abbrev pub permission_claim : String
permission_claim = "PermissionClaim"

-- `ResourceGroupName` of a request's resource, and of a bound schema.
unfoldable pub resource_group_name : ExportResource → String
resource_group_name r =
    if r.group =ˢ "" then r.resource +ˢ "." +ˢ "core" else r.resource +ˢ "." +ˢ r.group

unfoldable pub schema_group_name : {X : Type 0} → BoundSchema X → String
schema_group_name b = b.spec.plural +ˢ "." +ˢ b.spec.group

-- The group and plural of each of `ClaimableAPIs`.
abbrev pub claimable_apis : List (String × String)
claimable_apis = ("", "configmaps") ∷ ("", "secrets") ∷ ("", "serviceaccounts") ∷ []

abbrev pub is_claimable_api : {X : Type 0} → PermissionClaim X → Bool
is_claimable_api claim =
    any (λ api. (claim.group =ˢ api.0) && (claim.resource =ˢ api.1)) claimable_apis

-- The condition that is marked false, its reason and message, and whether the request is terminal.
pub record Failure : Type 0 where
  pub condition : String
  pub reason : String
  pub message : String
  pub is_terminal : Bool

abbrev pub schema_missing : String → Failure
schema_missing name = record {
  condition = exports_ready;
  reason = "SchemaNotFound";
  message = "Schema " +ˢ name +ˢ " not found";
  is_terminal = false;
}

abbrev pub different_scopes : String → Failure
different_scopes scope = record {
  condition = exports_ready;
  reason = "DifferentScopes";
  message = "Different scopes found: " +ˢ scope;
  is_terminal = false;
}

abbrev pub or_else : {A : Type 0} → Option A → Option A → Option A
or_else (some a) o = some a
or_else none o = o

abbrev bad_claim : String → String → String → Failure × Error
bad_claim reason message text = (
  record { condition = permission_claim; reason = reason; message = message; is_terminal = true },
  other text,
)

module _ {X : Type 0} where
  -- One step of the loop over the resources: the scope to compare with from then on.
  unfoldable pub next_scope : String → Option (BoundSchema X) → String → Result String
  next_scope name none first = err (other ("schema " +ˢ name +ˢ " not found"))
  next_scope name (some b) first =
      if first =ˢ ""
      then ok b.spec.scope
      else if b.spec.scope =ˢ first
      then ok first
      else err (other ("different scopes found for claimed resources: " +ˢ b.name))

  -- What is wrong with the schema that was found, or not found.
  abbrev failure_of : String → Option (BoundSchema X) → Failure
  failure_of name none = schema_missing name
  failure_of name (some b) = different_scopes b.spec.scope

  unfoldable pub check_resources :
      Dict (BoundSchema X) → List ExportResource → (first : String) → Option (Failure × Error)
  check_resources schemas [] first = none
  check_resources schemas (res ∷ rest) first =
      let name = resource_group_name res in
      elim (next_scope name (lookup name schemas) first) [
        | ok first' ↦ check_resources schemas rest first'
        | err e ↦ some (failure_of name (lookup name schemas), e)
      ]

  -- `GroupResource.String`
  abbrev group_resource : PermissionClaim X → String
  group_resource claim = claim.resource +ˢ "." +ˢ claim.group

  unfoldable pub check_claimable : List (PermissionClaim X) → Option (Failure × Error)
  check_claimable [] = none
  check_claimable (claim ∷ rest) =
      if is_claimable_api claim
      then check_claimable rest
      else some (
          bad_claim "InvalidPermissionClaim"
            ("Resource " +ˢ group_resource claim +ˢ " is not a valid claimable API")
            ("resource " +ˢ group_resource claim +ˢ " is not a valid claimable API"))

  abbrev pub claim_key : PermissionClaim X → String
  claim_key claim = claim.group +ˢ "/" +ˢ claim.resource

  unfoldable pub check_duplicates :
      (seen : List String) → List (PermissionClaim X) → Option (Failure × Error)
  check_duplicates seen [] = none
  check_duplicates seen (claim ∷ rest) =
      if contains seen (claim_key claim)
      then some (
          bad_claim "DuplicatePermissionClaim"
            ("Duplicate permission claim found for group/resource " +ˢ group_resource claim)
            ("duplicate permission claim found for group/resource " +ˢ group_resource claim))
      else check_duplicates (claim_key claim ∷ seen) rest

  -- The first failure, in the order of the code.
  unfoldable pub failure :
      Dict (BoundSchema X)
      → List ExportResource
      → List (PermissionClaim X)
      → Option (Failure × Error)
  failure [] resources claims = some (
    record {
      condition = exports_ready;
      reason = "SchemaNotFound";
      message = "Schema not found";
      is_terminal = false;
    },
    other "no exported schemas found",
  )
  failure (s ∷ schemas) resources claims =
      or_else (check_resources (s ∷ schemas) resources "")
        (or_else (check_claimable claims) (check_duplicates [] claims))

  module _ {K : Type 0} (c : Conditions K) where
    pub fail_request : Failure → Request X K → Request X K
    fail_request f req =
        let marked = c.mark_false f.condition f.reason severity_error f.message req.conditions in
        if f.is_terminal
        then record req {
          conditions = marked;
          phase = failed;
          terminal_message = c.get_message marked f.condition;
        }
        else record req { conditions = marked }

    abbrev pub settle : Option (Failure × Error) → Request X K → Outcome × Request X K
    settle none req = (done, req)
    settle (some (f, e)) req = (err e, fail_request f req)

    -- `validate`, after the list of the exported schemas.
    unfoldable pub validate : Dict (BoundSchema X) → Request X K → Outcome × Request X K
    unfolding fail_request
    validate schemas req = settle (failure schemas req.resources req.permission_claims) req
