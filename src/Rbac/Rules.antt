-- ===== src/Rbac/Rules.antt =====
-- rbac_reconciler.go: the rules for the exported and for the claimed resources.
use Prim.Native.Char.{code}
use kbind.Base.{String, Bool, true, false, ◌&&◌, List, [], ◌∷◌, map, if◌then◌else◌, eqb, ltb, ◌=ˢ◌}
use kbind.Base.Dict.{Dict, insert}
use kbind.Rbac.{PolicyRule}
use Prim.Native.String.{◌++◌ as ◌+ˢ◌}

pub record GroupResource : Type 0 where
  pub group : String
  pub resource : String

-- `GroupResource.String`
abbrev pub printed : GroupResource → String
printed gr = gr.resource +ˢ "." +ˢ gr.group

-- The order of texts that slices.Sorted uses.
unfoldable pub text_before : String → String → Bool
text_before String.[] t = true
text_before (String.◌∷◌ c s) String.[] = false
text_before (String.◌∷◌ c s) (String.◌∷◌ d t) =
    let rest = text_before s t in if eqb (code c) (code d) then rest else ltb (code c) (code d)

unfoldable pub insert_sorted {ℓ} : {V : Type ℓ} → String × V → Dict V → Dict V
unfolding text_before
insert_sorted e [] = e ∷ []
insert_sorted e (f ∷ rest) =
    let later = insert_sorted e rest in if text_before e.0 f.0 then e ∷ f ∷ rest else f ∷ later

unfoldable pub sorted {ℓ} : {V : Type ℓ} → Dict V → Dict V
unfolding insert_sorted
sorted [] = []
sorted (e ∷ rest) = insert_sorted e (sorted rest)

abbrev pub rule_for : List String → GroupResource → PolicyRule
rule_for verbs gr = record {
  api_groups = gr.group ∷ [];
  resources = gr.resource ∷ [];
  verbs = verbs;
}

unfoldable pub build_policy_rules : List String → Dict GroupResource → List PolicyRule
unfolding sorted
build_policy_rules verbs set = map (λ e. rule_for verbs e.1) (sorted set)

abbrev pub all_verbs : List String
all_verbs = "get" ∷ "list" ∷ "watch" ∷ "create" ∷ "update" ∷ "patch" ∷ "delete" ∷ []

-- `groupResourceSet[gr.String()] = gr` for each.
unfoldable pub add_all : List GroupResource → Dict GroupResource → Dict GroupResource
add_all [] set = set
add_all (gr ∷ rest) set = add_all rest (insert (printed gr) gr set)

unfoldable pub resource_rules : List GroupResource → List PolicyRule
unfolding build_policy_rules add_all
resource_rules resources = build_policy_rules all_verbs (add_all resources [])

-- A claimable API and its scope.
abbrev pub claimable_scopes : List (GroupResource × String)
claimable_scopes =
    (record { group = ""; resource = "configmaps" }, "Namespaced")
    ∷ (record { group = ""; resource = "secrets" }, "Namespaced")
    ∷ (record { group = ""; resource = "serviceaccounts" }, "Namespaced")
    ∷ []

unfoldable pub scope_in : List (GroupResource × String) → GroupResource → String
scope_in [] claim = ""
scope_in ((api, scope) ∷ rest) claim =
    if (claim.group =ˢ api.group) && (claim.resource =ˢ api.resource)
    then scope
    else scope_in rest claim

-- The claims of a scope, in order.
unfoldable pub claims_with_scope : String → List GroupResource → List GroupResource
unfolding scope_in
claims_with_scope scope [] = []
claims_with_scope scope (claim ∷ rest) =
    let later = claims_with_scope scope rest in
    if scope_in claimable_scopes claim =ˢ scope then claim ∷ later else later

unfoldable pub claim_rules : String → List GroupResource → List PolicyRule
unfolding claims_with_scope build_policy_rules add_all
claim_rules scope claims =
    build_policy_rules all_verbs (add_all (claims_with_scope scope claims) [])
