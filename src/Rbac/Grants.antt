-- ===== src/Rbac/Grants.antt =====
-- rbac_reconciler.go: which resources the rules grant.
use text.Mathlib.TextEquality.{eq_iff}
use text.Mathlib.TextPositions.{eq_refl}
use kbind.Base.{
  String, ◌≡◌, refl, ◌∙◌, Bool, true, false, ◌&&◌, ◌||◌, List, [], ◌∷◌, map, arith, inl, inr,
  Bool-cases, any, All, ◌=ˢ◌,
}
use kbind.Base.Dict.{Dict, insert}
use kbind.Rbac.{PolicyRule}
use kbind.Rbac.Rules.{
  GroupResource, printed, insert_sorted, sorted, rule_for, build_policy_rules, all_verbs, add_all,
  resource_rules, text_before, claims_with_scope, claim_rules, scope_in, claimable_scopes,
}

-- Whether a resource is among some resources.
abbrev pub is_among : List GroupResource → GroupResource → Bool
is_among all gr = any (λ x. (x.group =ˢ gr.group) && (x.resource =ˢ gr.resource)) all

-- A rule for one of the resources, with all verbs.
abbrev pub Grants : List GroupResource → PolicyRule → Type 0
Grants all rule = (gr : GroupResource) × (is_among all gr ≡ true) × (rule ≡ rule_for all_verbs gr)

prints : List String → List String → String → Bool
prints (g ∷ []) (r ∷ []) key = printed (record { group = g; resource = r }) =ˢ key
prints _ _ key = false

-- Whether a rule is for a resource that is printed so.
pub prints_as : String → PolicyRule → Bool
unfolding prints
prints_as key rule = prints rule.api_groups rule.resources key

abbrev has_key {ℓ} : {V : Type ℓ} → String → Dict V → Bool
has_key key m = any (λ e. e.0 =ˢ key) m

-- What all entries of a map have, and the keys of a map, through the insertions and the sort.
module _ {V : Type 0} where
  has_key-insert :
      (key k : String) (v : V) (m : Dict V)
      → has_key key (insert k v m) ≡ ((k =ˢ key) || has_key key m)
  unfolding insert
  has_key-insert key k v [] = refl
  has_key-insert key k v ((i, w) ∷ m) =
      ground (arith, eq_iff i k, eq_iff i key, eq_iff k key, has_key-insert key k v m)

  has_key-insert_sorted :
      (key : String) (e : String × V) (m : Dict V)
      → has_key key (insert_sorted e m) ≡ ((e.0 =ˢ key) || has_key key m)
  unfolding insert_sorted
  has_key-insert_sorted key e [] = refl
  has_key-insert_sorted key e (f ∷ m) = ground (arith, has_key-insert_sorted key e m)

  has_key-sorted : (key : String) (m : Dict V) → has_key key (sorted m) ≡ has_key key m
  unfolding sorted
  has_key-sorted key [] = refl
  has_key-sorted key (e ∷ m) =
      has_key-insert_sorted key e (sorted m) ∙ rw (has_key-sorted key m) refl

module _ {V : Type 0} (P : String × V → Type 0) where
  All-insert : (k : String) (v : V) (m : Dict V) → P (k, v) → All P m → All P (insert k v m)
  unfolding insert
  All-insert k v [] p a = (p, tt)
  All-insert k v ((i, w) ∷ m) p (q, a) = elim (Bool-cases (i =ˢ k)) [
    | inl e ↦ rw e (p, a)
    | inr e ↦ rw e (q, All-insert k v m p a)
  ]

  All-insert_sorted : (e : String × V) (m : Dict V) → P e → All P m → All P (insert_sorted e m)
  unfolding insert_sorted
  All-insert_sorted e [] p a = (p, tt)
  All-insert_sorted e (f ∷ m) p (q, a) = elim (Bool-cases (text_before e.0 f.0)) [
    | inl t ↦ rw t (p, (q, a))
    | inr t ↦ rw t (q, All-insert_sorted e m p a)
  ]

  All-sorted : (m : Dict V) → All P m → All P (sorted m)
  unfolding sorted
  All-sorted [] a = tt
  All-sorted (e ∷ m) (p, a) = All-insert_sorted e (sorted m) p (All-sorted m a)

-- An entry for one of the resources, under its printed form.
abbrev IsEntry : List GroupResource → String × GroupResource → Type 0
IsEntry all e = (is_among all e.1 ≡ true) × (e.0 ≡ printed e.1)

abbrev Among : List GroupResource → List GroupResource → Type 0
Among all = All (λ gr. is_among all gr ≡ true)

add_all-Entries :
    (all rest : List GroupResource) (set : Dict GroupResource)
    → Among all rest
    → All (IsEntry all) set
    → All (IsEntry all) (add_all rest set)
unfolding add_all
add_all-Entries all [] set a e = e
add_all-Entries all (gr ∷ rest) set (p, a) e =
    add_all-Entries all rest (insert (printed gr) gr set) a
      (All-insert (IsEntry all) (printed gr) gr set (p, refl) e)

has_key-add_all :
    (key : String) (rest : List GroupResource) (set : Dict GroupResource)
    → has_key key (add_all rest set) ≡ (any (λ gr. printed gr =ˢ key) rest || has_key key set)
unfolding add_all
has_key-add_all key [] set = refl
has_key-add_all key (gr ∷ rest) set = ground (
  arith,
  has_key-add_all key rest (insert (printed gr) gr set),
  has_key-insert key (printed gr) gr set,
)

is_among-cons :
    (all : List GroupResource) (x gr : GroupResource)
    → is_among all gr ≡ true
    → is_among (x ∷ all) gr ≡ true
is_among-cons all x gr e = ground arith

Among-cons :
    (all rest : List GroupResource) (x : GroupResource) → Among all rest → Among (x ∷ all) rest
Among-cons all [] x a = tt
Among-cons all (gr ∷ rest) x (p, a) = (is_among-cons all x gr p, Among-cons all rest x a)

Among-self : (all : List GroupResource) → Among all all
Among-self [] = tt
Among-self (gr ∷ rest) =
    (rw (eq_refl gr.group, eq_refl gr.resource) refl, Among-cons rest rest gr (Among-self rest))

rules-Grants :
    (all : List GroupResource) (es : Dict GroupResource)
    → All (IsEntry all) es
    → All (Grants all) (map (λ e. rule_for all_verbs e.1) es)
rules-Grants all [] a = tt
rules-Grants all (e ∷ es) (p, a) = ((e.1, p.0, refl), rules-Grants all es a)

any-prints_as :
    (all : List GroupResource) (key : String) (es : Dict GroupResource)
    → All (IsEntry all) es
    → any (prints_as key) (map (λ e. rule_for all_verbs e.1) es) ≡ has_key key es
unfolding prints_as prints
any-prints_as all key [] a = refl
any-prints_as all key (e ∷ es) (p, a) = rw (any-prints_as all key es a, p.1) refl

pub build_policy_rules-Grants :
    (all rest : List GroupResource)
    → Among all rest
    → All (Grants all) (build_policy_rules all_verbs (add_all rest []))
unfolding build_policy_rules
build_policy_rules-Grants all rest a =
    let set = add_all rest [] in
    rules-Grants all (sorted set) (All-sorted (IsEntry all) set (add_all-Entries all rest [] a tt))

Among-claims :
    (scope : String) (all rest : List GroupResource)
    → Among all rest
    → Among all (claims_with_scope scope rest)
unfolding claims_with_scope
Among-claims scope all [] a = tt
Among-claims scope all (claim ∷ rest) (p, a) =
    elim (Bool-cases (scope_in claimable_scopes claim =ˢ scope)) [
      | inl e ↦ rw e (p, Among-claims scope all rest a)
      | inr e ↦ rw e (Among-claims scope all rest a)
    ]

pub claim_rules-Grants :
    (scope : String) (claims : List GroupResource) → All (Grants claims) (claim_rules scope claims)
unfolding claim_rules
claim_rules-Grants scope claims =
    build_policy_rules-Grants claims (claims_with_scope scope claims)
      (Among-claims scope claims claims (Among-self claims))

-- No claimable API is cluster-scoped.
scope_in-namespaced :
    (apis : List (GroupResource × String)) (claim : GroupResource)
    → All (λ a. a.1 ≡ "Namespaced") apis
    → (scope_in apis claim =ˢ "Cluster") ≡ false
unfolding scope_in
scope_in-namespaced [] claim a = refl
scope_in-namespaced ((api, scope) ∷ rest) claim (e, a) =
    elim (Bool-cases ((claim.group =ˢ api.group) && (claim.resource =ˢ api.resource))) [
      | inl t ↦ rw (t, e) refl
      | inr t ↦ rw t (scope_in-namespaced rest claim a)
    ]

no_cluster_claims : (claims : List GroupResource) → claims_with_scope "Cluster" claims ≡ []
unfolding claims_with_scope
no_cluster_claims [] = refl
no_cluster_claims (claim ∷ rest) =
    rw (scope_in-namespaced claimable_scopes claim (refl, (refl, (refl, tt))))
      (no_cluster_claims rest)

pub claim_rules-none : (claims : List GroupResource) → claim_rules "Cluster" claims ≡ []
unfolding claim_rules build_policy_rules add_all sorted
claim_rules-none claims = rw (no_cluster_claims claims) refl

-- The rules for a list of resources: each rule grants one of them with all verbs, and a text is
-- printed by the resource of some rule if and only if it is printed by one of the resources.
pub resource_rules-Grants :
    (resources : List GroupResource)
    → All (Grants resources) (resource_rules resources)
      × ((key : String)
          → any (prints_as key) (resource_rules resources)
            ≡ any (λ gr. printed gr =ˢ key) resources)
unfolding resource_rules build_policy_rules
resource_rules-Grants resources =
    let set = add_all resources [] in
    let entries : All (IsEntry resources) (sorted set) =
      All-sorted (IsEntry resources) set
        (add_all-Entries resources resources [] (Among-self resources) tt) in
    (
      build_policy_rules-Grants resources resources (Among-self resources),
      λ key.
          any-prints_as resources key (sorted set) entries
          ∙ has_key-sorted key set
          ∙ has_key-add_all key resources []
          ∙ ground arith,
    )
