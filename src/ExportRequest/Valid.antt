-- ===== src/ExportRequest/Valid.antt =====
-- validate of serviceexportrequest_reconcile.go: which requests are valid.
use text.Mathlib.TextEquality.{eq_iff}
use kbind.Base.{
  String, ◌≡◌, ◌≢◌, refl, ◌∙◌, sym, ap, ◌↔◌, ◌⊎◌, inl, inr, some, List, [], ◌∷◌, arith, All, ok,
  ◌=ˢ◌, Bool-cases, Option-cases, none,
}
use kbind.Base.Dict.{Dict, lookup}
use kbind.Claims.{ExportResource}
use kbind.Conditions.{Conditions}
use kbind.ExportRequest.{
  BoundSchema, PermissionClaim, Request, resource_group_name, failure, validate,
}
use kbind.ExportRequest.Claimable.{
  IsClaimable, AreDistinct, All-IsClaimable, Unrepeated-AreDistinct, AreDistinct-Unrepeated,
  AreNew-nothing,
}
use kbind.ExportRequest.Checks.{
  HaveNamedScope, HaveScopes, check_resources-start, check_claimable-All,
  check_duplicates-Unrepeated, failure-none,
}
use Prim.Native.String.{◌++◌ as ◌+ˢ◌}

-- The key of an exported schema for a resource: its plural, a dot and its group, or `core` for the
-- core group.
abbrev pub IsKey : ExportResource → String → Type 0
IsKey res key =
    ((res.group ≡ "") × (key ≡ res.resource +ˢ "." +ˢ "core"))
    ⊎ ((res.group ≢ "") × (key ≡ res.resource +ˢ "." +ˢ res.group))

IsKey-name : (res : ExportResource) → IsKey res (resource_group_name res)
unfolding resource_group_name
IsKey-name res = elim (Bool-cases (res.group =ˢ "")) [
  | inl e ↦ inl ((eq_iff res.group "").0 e, rw e refl)
  | inr e ↦ inr (λ p. ground (arith, p, e, eq_iff res.group ""), rw e refl)
]

IsKey-unique : (res : ExportResource) (key : String) → IsKey res key → key ≡ resource_group_name res
unfolding resource_group_name
IsKey-unique res key (inl (e, k)) = rw ((eq_iff res.group "").1 e) k
IsKey-unique res key (inr (n, k)) = elim (Bool-cases (res.group =ˢ "")) [
  | inl e ↦ absurd (n ((eq_iff res.group "").0 e))
  | inr e ↦ rw e k
]

module _ {X : Type 0} where
  -- The resources all have an exported schema with the scope.
  abbrev pub HaveScope : Dict (BoundSchema X) → String → List ExportResource → Type 0
  HaveScope schemas scope = All (λ res.
      (key : String) × IsKey res key
      × ((b : BoundSchema X) × (lookup key schemas ≡ some b) × (b.spec.scope ≡ scope)))

  -- What a request has to be like, given the exported schemas.
  pub record IsValid (schemas : Dict (BoundSchema X)) (resources : List ExportResource)
      (claims : List (PermissionClaim X)) : Type 0 where
    pub exported : schemas ≢ []
    pub same_scope : (scope : String) × HaveScope schemas scope resources
    pub claimable : All IsClaimable claims
    pub distinct : AreDistinct claims

  HaveScope-named :
      (schemas : Dict (BoundSchema X)) (scope : String) (rs : List ExportResource)
      → HaveNamedScope schemas scope rs ↔ HaveScope schemas scope rs
  HaveScope-named schemas scope [] = (λ a. tt, λ a. tt)
  HaveScope-named schemas scope (res ∷ rs) =
      let later = HaveScope-named schemas scope rs in
      (
        λ a. ((resource_group_name res, IsKey-name res, a.0), later.0 a.1),
        λ a.
            let (key, k, (b, f, e)) = a.0 in
            ((b, ap (λ n. lookup n schemas) (sym (IsKey-unique res key k)) ∙ f, e), later.1 a.1),
      )

  failure-IsValid :
      (schemas : Dict (BoundSchema X)) (resources : List ExportResource)
      (claims : List (PermissionClaim X))
      → HaveScopes schemas
      → (failure schemas resources claims ≡ none) ↔ IsValid schemas resources claims
  failure-IsValid [] resources claims n =
      (λ e. absurd (unfold failure in ground (arith, e)), λ v. absurd (v.exported refl))
  failure-IsValid (s ∷ schemas) resources claims n =
      let parts = failure-none s schemas resources claims in
      let scopes = check_resources-start (s ∷ schemas) resources n in
      (
        λ e. record {
          exported = λ p. ground (arith, p);
          same_scope =
              let (scope, a) = scopes.0 (parts.0 e).0 in
              (scope, (HaveScope-named (s ∷ schemas) scope resources).0 a);
          claimable = (All-IsClaimable claims).0 ((check_claimable-All claims).0 (parts.0 e).1);
          distinct =
              (Unrepeated-AreDistinct [] claims
                ((check_duplicates-Unrepeated [] claims).0 (parts.0 e).2)).0;
        },
        λ v. parts.1 (
          scopes.1 (
            v.same_scope.0,
            (HaveScope-named (s ∷ schemas) v.same_scope.0 resources).1 v.same_scope.1,
          ),
          (check_claimable-All claims).1 ((All-IsClaimable claims).1 v.claimable),
          (check_duplicates-Unrepeated [] claims).1
              (AreDistinct-Unrepeated [] claims v.claimable v.distinct (AreNew-nothing claims)),
        ),
      )

  -- The exported schemas all have a scope. A request is accepted exactly if there are exported
  -- schemas, each resource has one under its plural and group, these have one scope in common, each
  -- permission claim is for config maps, secrets or service accounts of the core group, and no two
  -- claims are for the same resource.
  pub validate-IsValid :
      {K : Type 0} (c : Conditions K) (schemas : Dict (BoundSchema X)) (req : Request X K)
      → HaveScopes schemas
      → ((validate c schemas req).0 ≡ ok tt) ↔ IsValid schemas req.resources req.permission_claims
  validate-IsValid c schemas req n =
      let valid = failure-IsValid schemas req.resources req.permission_claims n in
      (λ e. valid.0 (unfold validate in accepted e), λ v. unfold validate in rw (valid.1 v) refl)
    where
      accepted :
          (validate c schemas req).0 ≡ ok tt
          → failure schemas req.resources req.permission_claims ≡ none
      accepted e = elim (Option-cases (failure schemas req.resources req.permission_claims)) [
        | inl p ↦ p
        | inr (f, p) ↦ absurd (unfold validate in ground (arith, e, p))
      ]
