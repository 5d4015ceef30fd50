-- ===== src/Rbac/Confined.antt =====
-- rbac_reconciler.go: what every call of `reconcile` writes.
use kbind.Base.{String, inl, inr, List, [], ◌∷◌, All, Bool-cases, Error, Result, ok, err, ◌=ˢ◌}
use kbind.Base.Keeps.{Keeps, Keeps-bind, Keeps-attempt}
use kbind.Isolation.{ServiceNamespace}
use kbind.Rbac.{Namespace, Call, Server}
use kbind.Rbac.Rules.{resource_rules, claim_rules}
use kbind.Rbac.Grants.{claim_rules-Grants, claim_rules-none, resource_rules-Grants}
use Prim.Native.String.{◌++◌ as ◌+ˢ◌}
use kbind.Rbac.Reconcile.{
  Export, owner_of, ensure_claims_role, ensure_roles, ensure_listed, list_and_ensure, ensure_claims,
  ensure_exported, ensure_all, reconcile,
}
use kbind.Rbac.Writes.{
  IsConfined, collect-Keeps, ensure_aggregated_cluster_role-Keeps, ensure_aggregating-Keeps,
  ensure_role_and_role_binding-Keeps,
}

module _ (scope : String) (server : Server) (export : Export) where
  abbrev Confined : List Call → Type 0
  Confined = All (IsConfined server export)

  ensure_roles-Keeps :
      (sns : List ServiceNamespace) (errs : List Error)
      → Keeps Confined (ensure_roles scope server export sns errs)
  unfolding ensure_roles
  ensure_roles-Keeps [] errs = λ h p. p
  ensure_roles-Keeps (sn ∷ rest) errs = elim (Bool-cases (sn.status_namespace =ˢ "")) [
    | inl e ↦ rw e (ensure_roles-Keeps rest errs)
    | inr e ↦ rw e (
        Keeps-bind Confined _ (ensure_roles scope server export rest)
          (collect-Keeps server export _ errs (
            ensure_role_and_role_binding-Keeps server export sn.status_namespace
              ("kube-binder-claims-" +ˢ export.name)
              (claim_rules "Namespaced" export.permission_claims)
              (claim_rules-Grants "Namespaced" export.permission_claims)))
          (ensure_roles-Keeps rest))
  ]

  ensure_listed-Keeps :
      (errs : List Error) (got : Result (List ServiceNamespace))
      → Keeps Confined (ensure_listed scope server export errs got)
  unfolding ensure_listed
  ensure_listed-Keeps errs (ok sns) = ensure_roles-Keeps sns errs
  ensure_listed-Keeps errs (err e) = λ h p. p

  list_and_ensure-Keeps :
      (errs : List Error) → Keeps Confined (list_and_ensure scope server export errs)
  unfolding list_and_ensure
  list_and_ensure-Keeps errs =
      Keeps-attempt Confined _ (ensure_listed scope server export errs) (λ h p. (tt, p))
        (ensure_listed-Keeps errs)

  ensure_exported-Keeps :
      (ns : Namespace) (errs : List Error)
      → Keeps Confined (ensure_exported scope server export ns errs)
  unfolding ensure_exported
  ensure_exported-Keeps ns errs = collect-Keeps server export _ errs (
      ensure_aggregated_cluster_role-Keeps server export
        ("kube-binder-resources-" +ˢ export.namespace +ˢ "-" +ˢ export.name) (owner_of ns ∷ [])
        (resource_rules export.resources) (resource_rules-Grants export.resources).0)

module _ (server : Server) (export : Export) where
  ensure_claims-Keeps :
      (ns : Namespace) (errs : List Error)
      → Keeps (All (IsConfined server export)) (ensure_claims "Namespaced" server export ns errs)
  unfolding ensure_claims ensure_claims_role
  ensure_claims-Keeps ns errs =
      Keeps-bind (All (IsConfined server export)) _ (list_and_ensure "Namespaced" server export)
        (collect-Keeps server export _ errs (
          ensure_aggregated_cluster_role-Keeps server export
            ("kube-binder-claims-" +ˢ export.namespace +ˢ "-" +ˢ export.name) (owner_of ns ∷ [])
            (claim_rules "Cluster" export.permission_claims)
            (rw (claim_rules-none export.permission_claims) tt)))
        (list_and_ensure-Keeps "Namespaced" server export)

  -- Under the namespaced informer scope, whatever is answered: every cluster role that a
  -- reconciliation writes grants resources of the export only, or is the shared one that aggregates
  -- others, which is created without rules and of which only the aggregation is updated; every role grants claimed resources only; and every binding binds only the service account in the
  -- export's namespace.
  pub reconcile-IsConfined :
      (h : List Call)
      → All (IsConfined server export) h
      → All (IsConfined server export) (reconcile "Namespaced" server export h).1
  unfolding reconcile ensure_all
  reconcile-IsConfined =
      Keeps-bind (All (IsConfined server export)) _ (ensure_all "Namespaced" server export)
        (λ h p. (tt, p))
        (λ ns.
          Keeps-bind (All (IsConfined server export)) _
            (ensure_claims "Namespaced" server export ns)
            (Keeps-bind (All (IsConfined server export)) _
              (ensure_exported "Namespaced" server export ns)
              (collect-Keeps server export _ [] (ensure_aggregating-Keeps server export))
              (ensure_exported-Keeps "Namespaced" server export ns))
            (ensure_claims-Keeps ns))
