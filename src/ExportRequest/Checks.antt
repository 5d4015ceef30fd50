-- ===== src/ExportRequest/Checks.antt =====
-- The checks of validate in serviceexportrequest_reconcile.go: when each of them finds nothing.
use text.Mathlib.TextEquality.{eq_iff}
use kbind.Base.{
  String, ◌≡◌, ◌≢◌, refl, ◌∙◌, sym, subst, ap, ◌↔◌, inl, inr, true, false, Option, none, some, List,
  [], ◌∷◌, arith, All, contains, ◌=ˢ◌, Bool-cases, Option-cases, is_some,
}
use kbind.Base.Dict.{Dict, lookup}
use kbind.Claims.{ExportResource}
use kbind.ExportRequest.{
  BoundSchema, PermissionClaim, resource_group_name, next_scope, check_resources, check_claimable,
  check_duplicates, claim_key, is_claimable_api, failure, or_else,
}

or_else-none : {A : Type 0} (o p : Option A) → (or_else o p ≡ none) ↔ ((o ≡ none) × (p ≡ none))
or_else-none none p = (λ e. (refl, e), λ e. e.1)
or_else-none (some a) p = (λ e. absurd (ground arith), λ e. absurd (ground (arith, e.0)))

module _ {X : Type 0} where
  -- The resources all have an exported schema with the scope.
  abbrev pub HaveNamedScope : Dict (BoundSchema X) → String → List ExportResource → Type 0
  HaveNamedScope schemas scope = All (λ res.
      (b : BoundSchema X) × (lookup (resource_group_name res) schemas ≡ some b)
      × (b.spec.scope ≡ scope))

  -- The keys of the claims are all different, and none is among those seen.
  abbrev pub Unrepeated : List String → List (PermissionClaim X) → Type 0
  Unrepeated seen [] = Unit
  Unrepeated seen (claim ∷ rest) =
      (contains seen (claim_key claim) ≡ false) × Unrepeated (claim_key claim ∷ seen) rest

  -- Every exported schema has a scope.
  abbrev pub HaveScopes : Dict (BoundSchema X) → Type 0
  HaveScopes schemas =
      (k : String) (b : BoundSchema X) → lookup k schemas ≡ some b → b.spec.scope ≢ ""

  module _ (schemas : Dict (BoundSchema X)) where
    module _ (res : ExportResource) (rest : List ExportResource) (first : String) where
      check_resources-missing :
          lookup (resource_group_name res) schemas ≡ none
          → is_some (check_resources schemas (res ∷ rest) first) ≡ true
      unfolding check_resources next_scope
      check_resources-missing m = rw (check_resources, m) refl

      check_resources-first :
          (b : BoundSchema X)
          → lookup (resource_group_name res) schemas ≡ some b
          → first ≡ ""
          → check_resources schemas (res ∷ rest) first ≡ check_resources schemas rest b.spec.scope
      unfolding check_resources next_scope
      check_resources-first b m n = rw (check_resources, m, next_scope, (eq_iff first "").1 n) refl

      check_resources-same :
          (b : BoundSchema X)
          → lookup (resource_group_name res) schemas ≡ some b
          → (first =ˢ "") ≡ false
          → b.spec.scope ≡ first
          → check_resources schemas (res ∷ rest) first ≡ check_resources schemas rest first
      unfolding check_resources next_scope
      check_resources-same b m n p =
          rw (check_resources, m, next_scope, n, (eq_iff b.spec.scope first).1 p) refl

      check_resources-different :
          (b : BoundSchema X)
          → lookup (resource_group_name res) schemas ≡ some b
          → (first =ˢ "") ≡ false
          → (b.spec.scope =ˢ first) ≡ false
          → is_some (check_resources schemas (res ∷ rest) first) ≡ true
      unfolding check_resources next_scope
      check_resources-different b m n p = rw (check_resources, m, next_scope, n, p) refl

    check_resources-scope :
        (resources : List ExportResource) (first : String)
        → (first =ˢ "") ≡ false
        → check_resources schemas resources first ≡ none
        → HaveNamedScope schemas first resources
    check_resources-scope [] first n e = tt
    check_resources-scope (res ∷ rest) first n e =
        elim (Option-cases (lookup (resource_group_name res) schemas)) [
          | inl m ↦ absurd (ground (arith, check_resources-missing res rest first m, e))
          | inr (b, m) ↦ elim (Bool-cases (b.spec.scope =ˢ first)) [
            | inl p ↦
                let same = (eq_iff b.spec.scope first).0 p in
                (
                  (b, m, same),
                  check_resources-scope rest first n
                      (sym (check_resources-same res rest first b m n same) ∙ e),
                )
            | inr p ↦ absurd (ground (arith, check_resources-different res rest first b m n p, e))
          ]
        ]

    scope-check_resources :
        (resources : List ExportResource) (first : String)
        → (first =ˢ "") ≡ false
        → HaveNamedScope schemas first resources
        → check_resources schemas resources first ≡ none
    scope-check_resources [] first n a = unfold check_resources in refl
    scope-check_resources (res ∷ rest) first n ((b, m, p), a) =
        check_resources-same res rest first b m n p ∙ scope-check_resources rest first n a

    found_scope :
        (k : String) (b : BoundSchema X) (scope : String)
        → (b' : BoundSchema X) × (lookup k schemas ≡ some b') × (b'.spec.scope ≡ scope)
        → lookup k schemas ≡ some b
        → scope ≡ b.spec.scope
    found_scope k b scope (b', m', p) m =
        let same : b' ≡ b = ground (arith, m, m') in sym p ∙ ap (λ x. x.spec.scope) same

    -- The check of the resources starts without a scope and takes that of the first schema.
    pub check_resources-start :
        (resources : List ExportResource)
        → HaveScopes schemas
        → (check_resources schemas resources "" ≡ none)
          ↔ ((scope : String) × HaveNamedScope schemas scope resources)
    check_resources-start [] scopes = (λ e. ("", tt), λ s. unfold check_resources in refl)
    check_resources-start (res ∷ rest) scopes =
        elim (Option-cases (lookup (resource_group_name res) schemas)) [
          | inl m ↦ (
            λ e. absurd (ground (arith, check_resources-missing res rest "" m, e)),
            λ s. absurd (ground (arith, m, s.1.0.1)),
          )
          | inr (b, m) ↦
              let n : (b.spec.scope =ˢ "") ≡ false =
                ground (arith, eq_iff b.spec.scope "", scopes _ b m) in
              let step = check_resources-first res rest "" b m refl in
              (
                λ e. (
                  b.spec.scope,
                  ((b, m, refl), check_resources-scope rest b.spec.scope n (sym step ∙ e)),
                ),
                λ s.
                    step
                    ∙ scope-check_resources rest b.spec.scope n (
                        subst (λ t. HaveNamedScope schemas t rest)
                          (found_scope (resource_group_name res) b s.0 s.1.0 m) s.1.1),
              )
        ]

  pub check_claimable-All :
      (claims : List (PermissionClaim X))
      → (check_claimable claims ≡ none) ↔ All (λ claim. is_claimable_api claim ≡ true) claims
  unfolding check_claimable
  check_claimable-All [] = (λ e. tt, λ a. refl)
  check_claimable-All (claim ∷ rest) = elim (Bool-cases (is_claimable_api claim)) [
    | inl e ↦ (
      λ n. (e, (check_claimable-All rest).0 (ground (arith, e, n))),
      λ a. rw e ((check_claimable-All rest).1 a.1),
    )
    | inr e ↦ (λ n. absurd (ground (arith, e, n)), λ a. absurd (ground (arith, e, a.0)))
  ]

  pub check_duplicates-Unrepeated :
      (seen : List String) (claims : List (PermissionClaim X))
      → (check_duplicates seen claims ≡ none) ↔ Unrepeated seen claims
  unfolding check_duplicates
  check_duplicates-Unrepeated seen [] = (λ e. tt, λ a. refl)
  check_duplicates-Unrepeated seen (claim ∷ rest) =
      let later = check_duplicates-Unrepeated (claim_key claim ∷ seen) rest in
      elim (Bool-cases (contains seen (claim_key claim))) [
        | inl e ↦ (λ n. absurd (ground (arith, e, n)), λ a. absurd (ground (arith, e, a.0)))
        | inr e ↦ (λ n. (e, later.0 (ground (arith, e, n))), λ a. rw e (later.1 a.1))
      ]

  pub failure-none :
      (s : String × BoundSchema X) (schemas : Dict (BoundSchema X))
      (resources : List ExportResource) (claims : List (PermissionClaim X))
      → (failure (s ∷ schemas) resources claims ≡ none) ↔ (
          (check_resources (s ∷ schemas) resources "" ≡ none)
          × (check_claimable claims ≡ none)
          × (check_duplicates [] claims ≡ none))
  unfolding failure
  failure-none s schemas resources claims =
      let r = check_resources (s ∷ schemas) resources "" in
      let c = check_claimable claims in
      let d = check_duplicates [] claims in
      (
        λ e.
            let (x, y) = (or_else-none r (or_else c d)).0 e in
            let (u, v) = (or_else-none c d).0 y in (x, u, v),
        λ e. (or_else-none r (or_else c d)).1 (e.0, (or_else-none c d).1 (e.1, e.2)),
      )
