-- ===== src/Claims.antt =====
-- pkg/resources/resources.go: whether an object is claimed by a permission claim.
pub mod Claimed
pub mod Lists
use Prim.Native.String
use Prim.Native.Char.{code}
use kbind.Base.{
  ℕ, String, Bool, true, false, not, ◌&&◌, ◌||◌, ◌≤◌, Option, none, some, List, [], ◌∷◌, ◌++◌, map,
  if◌then◌else◌, is_some, any, contains, eqb, ltb, Error, Result, ok, err, not_found, ◌=ˢ◌,
}
use kbind.Base.Dict.{Dict}
use kbind.Base.Exec.{Exec, ret, fail, attempt, call, ◌>>=◌, ◌>>◌}
use kbind.Objects.{Object}
use kbind.Isolation.{ServiceNamespace}

pub data IsolationMode : Type 0 where
  isolation_prefixed isolation_namespaced isolation_none : IsolationMode

pub record NamedResource : Type 0 where
  pub namespace : String
  pub name : String

pub record SelectorReference : Type 0 where
  pub group : String
  pub resource : String
  pub versions : List String
  pub path_name : String
  pub path_namespace : String

-- `L` is the type of metav1.LabelSelector.
pub record Selector (L : Type 0) : Type 0 where
  pub label_selector : Option L
  pub named_resources : List NamedResource
  pub references : List SelectorReference

pub record ExportResource : Type 0 where
  pub group : String
  pub resource : String
  pub versions : List String

-- The fields of an APIServiceExport's spec that are read here.
pub record ExportSpec : Type 0 where
  pub isolation : IsolationMode
  pub resources : List ExportResource

-- What the accessors of a gjson.Result return: `elements` are the texts of `Array()`.
pub record GjsonResult : Type 0 where
  pub exists : Bool
  pub is_array : Bool
  pub text : String
  pub elements : List String

-- LabelSelectorAsSelector with Matches, MarshalJSON and gjson.Get.
pub record Env (J L : Type 0) : Type 0 where
  pub as_selector : L → Result (Dict String → Bool)
  pub marshal_json : Object J → Result String
  pub gjson_get : String → String → GjsonResult

-- The runes for which unicode.IsSpace holds.
abbrev is_space : ℕ → Bool
is_space n =
    (ltb 8 n && ltb n 14)
    || any (eqb n) (32 ∷ 133 ∷ 160 ∷ 5760 ∷ 8232 ∷ 8233 ∷ 8239 ∷ 8287 ∷ 12288 ∷ [])
    || (ltb 8191 n && ltb n 8203)

trim_left : String → String
trim_left String.[] = String.[]
trim_left (String.◌∷◌ c s) = if is_space (code c) then trim_left s else String.◌∷◌ c s

trim_right : String → String
trim_right String.[] = String.[]
trim_right (String.◌∷◌ c s) =
    let rest = trim_right s in if is_space (code c) && (rest =ˢ "") then "" else String.◌∷◌ c rest

-- strings.TrimSpace
unfoldable pub trim_space : String → String
unfolding trim_left trim_right
trim_space s = trim_right (trim_left s)

unfoldable pub trimmed : GjsonResult → List String
trimmed r = if r.is_array then map trim_space r.elements else trim_space r.text ∷ []

unfoldable pub is_namespaced : IsolationMode → Bool
is_namespaced isolation_namespaced = true
is_namespaced _ = false

abbrev is_nil : {A : Type 0} → List A → Bool
is_nil [] = true
is_nil (_ ∷ _) = false

module _ {J L : Type 0} (env : Env J L) where
  unfoldable pub matches_label_selector : Option L → Object J → Bool
  matches_label_selector none obj = false
  matches_label_selector (some l) obj = elim (env.as_selector l) [
    | err _ ↦ false
    | ok matches ↦ matches obj.labels
  ]

  unfoldable pub matches_named_resource : Object J → NamedResource → Bool
  matches_named_resource obj nr =
      if not (nr.namespace =ˢ "") && not (nr.namespace =ˢ obj.namespace)
      then false
      else nr.name =ˢ obj.name

  unfoldable pub matches_named_resources : List NamedResource → Object J → Bool
  matches_named_resources named_resources obj = any (matches_named_resource obj) named_resources

  -- `namespaceMatches`, which does not depend on the extracted name
  unfoldable pub namespace_matches :
      String → Object J → Object J → IsolationMode → SelectorReference → Bool
  namespace_matches json ref_obj obj isolation ref =
      if ref.path_namespace =ˢ ""
      then not (is_namespaced isolation) || (ref_obj.namespace =ˢ obj.namespace)
      else not (env.gjson_get json ref.path_namespace).exists
        || contains (trimmed (env.gjson_get json ref.path_namespace)) obj.namespace

  -- One extracted name.
  unfoldable pub name_refers :
      String → Object J → Object J → IsolationMode → SelectorReference → String → Bool
  name_refers json ref_obj obj isolation ref name =
      (name =ˢ obj.name) && namespace_matches json ref_obj obj isolation ref

  -- One reference in one object's JSON.
  unfoldable pub refers : String → Object J → Object J → IsolationMode → SelectorReference → Bool
  refers json ref_obj obj isolation ref =
      (env.gjson_get json ref.path_name).exists
      && any (name_refers json ref_obj obj isolation ref)
          (trimmed (env.gjson_get json ref.path_name))

  unfoldable pub any_reference : List SelectorReference → Object J → IsolationMode → Object J → Bool
  any_reference references obj isolation ref_obj = elim (env.marshal_json ref_obj) [
    | err _ ↦ false
    | ok json ↦ any (refers json ref_obj obj isolation) references
  ]

  unfoldable pub matches_references :
      List SelectorReference → Object J → List (Object J) → IsolationMode → Bool
  matches_references references obj potentially_referenced isolation =
      any (any_reference references obj isolation) potentially_referenced

  selects_nothing : Selector L → Bool
  selects_nothing selector =
      not (is_some selector.label_selector)
      && is_nil selector.named_resources
      && is_nil selector.references

  unfoldable pub is_claimed : Selector L → Object J → List (Object J) → IsolationMode → Bool
  unfolding selects_nothing
  is_claimed selector obj potentially_referenced isolation =
      if selects_nothing selector
      then false
      else matches_label_selector selector.label_selector obj
        || matches_named_resources selector.named_resources obj
        || matches_references selector.references obj potentially_referenced isolation

pub is_reference_allowed : SelectorReference → ExportSpec → Bool
is_reference_allowed ref spec = elim spec.isolation [
  | isolation_none ↦ true
  | _ ↦ any (λ r. (ref.group =ˢ r.group) && (ref.resource =ˢ r.resource)) spec.resources
]

-- The versions of the first resource of the export that is the reference's.
versions_of : SelectorReference → List ExportResource → Option (List String)
versions_of ref [] = none
versions_of ref (r ∷ rest) =
    if (ref.group =ˢ r.group) && (ref.resource =ˢ r.resource)
    then some r.versions
    else versions_of ref rest

or_before : Option (List String) → List String → List String
or_before none versions = versions
or_before (some versions) _ = versions

-- The variable `versions` keeps the value from the reference before where nothing sets it.
versions_after : SelectorReference → ExportSpec → List String → List String
unfolding versions_of or_before
versions_after ref spec versions = elim ref.versions [
  | [] ↦ or_before (versions_of ref spec.resources) versions
  | v ∷ vs ↦ v ∷ vs
]

pub data Call : Type 0 where
  list_objects : (group resource version : String) → Call
  list_service_namespaces : Call

pub record Server (J : Type 0) : Type 0 where
  pub objects : List Call → String → String → String → Result (List (Object J))
  pub service_namespaces : List Call → Result (List ServiceNamespace)

module _ {J : Type 0} (s : Server J) where
  pub list_versions : SelectorReference → List String → Exec Call (List (Object J))
  list_versions ref [] = ret []
  list_versions ref (v ∷ vs) = do
    objs ← call (list_objects ref.group ref.resource v) (λ h. s.objects h ref.group ref.resource v)
    rest ← list_versions ref vs
    ret (objs ++ rest)

  list_if_allowed : SelectorReference → ExportSpec → List String → Exec Call (List (Object J))
  list_if_allowed ref spec versions =
      if is_reference_allowed ref spec then list_versions ref versions else ret []

  -- The loop over the references.
  pub list_referenced :
      List SelectorReference → ExportSpec → List String → Exec Call (List (Object J))
  list_referenced [] spec versions = ret []
  list_referenced (ref ∷ refs) spec versions =
      let now =
        if is_reference_allowed ref spec then versions_after ref spec versions else versions in
      do
        objs ← list_if_allowed ref spec now
        rest ← list_referenced refs spec now
        ret (objs ++ rest)

-- The first APIServiceNamespace that is ready and to which the namespace is assigned.
unfoldable pub assigned_to : String → List ServiceNamespace → Option ServiceNamespace
assigned_to namespace [] = none
assigned_to namespace (sn ∷ rest) =
    if not (sn.status_namespace =ˢ "") && (namespace =ˢ sn.status_namespace)
    then some sn
    else assigned_to namespace rest

pub moved : {J : Type 0} → Object J → Option ServiceNamespace → Object J
moved obj none = obj
moved obj (some sn) = record obj { namespace = sn.name }

module _ {J L : Type 0} (env : Env J L) (s : Server J) (selector : Selector L)
    (spec : ExportSpec) where
  -- What follows the list of the APIServiceNamespaces on the provider's side.
  pub claimed_remapped : Object J → List (Object J) → Result (List ServiceNamespace) → Bool
  unfolding moved assigned_to
  claimed_remapped obj objs (ok sns) =
      is_claimed env selector (moved obj (assigned_to obj.namespace sns)) objs spec.isolation
  claimed_remapped obj objs (err not_found) = is_claimed env selector obj objs spec.isolation
  claimed_remapped obj objs (err _) = false

  pub claimed_among : Bool → Object J → Result (List (Object J)) → Exec Call Bool
  claimed_among consumer_side obj (err _) = ret false
  claimed_among true obj (ok objs) = ret (is_claimed env selector obj objs spec.isolation)
  claimed_among false obj (ok objs) = do
    sns ← attempt (call list_service_namespaces s.service_namespaces)
    ret (claimed_remapped obj objs sns)

  unfoldable pub is_claimed_with_reference : Bool → Object J → Exec Call Bool
  is_claimed_with_reference consumer_side obj = do
    objs ← attempt (list_referenced s selector.references spec [])
    claimed_among consumer_side obj objs
