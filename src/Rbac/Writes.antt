-- ===== src/Rbac/Writes.antt =====
-- rbac_reconciler.go: what the writes of a single object keep.
use mathlib.Core.Logic.{ite}
use kbind.Base.{
  String, ◌≡◌, refl, subst, arith, ◌⊎◌, inl, inr, Option, none, some, List, [], ◌∷◌, ◌++◌, All,
  Error, Result, ok, err, not_found, already_exists, invalid, other, Outcome,
}
use kbind.Base.Dict.{insert}
use kbind.Base.Exec.{Exec, ret, ◌>>=◌, bind_post}
use kbind.Base.Keeps.{Keeps, Keeps-bind, Keeps-attempt, if-Keeps}
use kbind.Objects.{OwnerReference}
use kbind.Rbac.{
  Subject, PolicyRule, ClusterRole, ClusterRoleBinding, Role, RoleBinding, Call, Server,
  create_cluster_role, update_cluster_role, create_cluster_role_binding,
  update_cluster_role_binding, create_role, update_role, create_role_binding, update_role_binding,
  aggregate_label_key, aggregating_role, exports_name, exports_binding, write, is_outdated,
  aggregation_discrete, subjects_discrete, rules_discrete, get_or_create, got_or_created,
  created_as, ensure_cluster_role, update_rules, ensure_aggregated_cluster_role, update_aggregation,
  update_cluster_subjects, ensure_cluster_role_binding,
  ensure_aggregating_cluster_role_and_cluster_role_binding, update_role_rules, update_subjects,
  ensure_role, ensure_role_binding, ensure_role_and_role_binding,
}
use kbind.Rbac.Grants.{Grants}
use kbind.Rbac.Reconcile.{Export, kubebinder, collect, errors_of}

-- What a range over the rules visits.
abbrev listed : Option (List PolicyRule) → List PolicyRule
listed none = []
listed (some rules) = rules

-- The labels by which a cluster role aggregates others; the API server computes its rules.
abbrev pub aggregates : Option (List (List (String × String)))
aggregates = some (((aggregate_label_key, "true") ∷ []) ∷ [])

-- The cluster role is the one under the name of the aggregating one, as it was read at some time or
-- just created, with nothing but its aggregation set.
abbrev IsReaggregated : Server → ClusterRole → Type 0
IsReaggregated server r =
    (found : ClusterRole) × ((found ≡ aggregating_role)
      ⊎ ((past : List Call) × (server.cluster_role past exports_name ≡ ok found)))
    × (r ≡ record found { aggregation_rule = aggregates })

-- A cluster role that is written grants exported resources only, or is the one that aggregates others,
-- which is created without rules and of which only the aggregation is updated; a role grants claimed
-- resources only; a binding binds the service account of the export's namespace only.
abbrev pub IsConfined : Server → Export → Call → Type 0
IsConfined server export (create_cluster_role r) =
    All (Grants export.resources) (listed r.rules) ⊎ (r ≡ aggregating_role)
IsConfined server export (update_cluster_role r) =
    All (Grants export.resources) (listed r.rules) ⊎ IsReaggregated server r
IsConfined server export (create_role r) = All (Grants export.permission_claims) (listed r.rules)
IsConfined server export (update_role r) = All (Grants export.permission_claims) (listed r.rules)
IsConfined server export (create_cluster_role_binding b) =
    b.subjects ≡ kubebinder export.namespace ∷ []
IsConfined server export (update_cluster_role_binding b) =
    b.subjects ≡ kubebinder export.namespace ∷ []
IsConfined server export (create_role_binding b) = b.subjects ≡ kubebinder export.namespace ∷ []
IsConfined server export (update_role_binding b) = b.subjects ≡ kubebinder export.namespace ∷ []
IsConfined server export _ = Unit

module _ (server : Server) (export : Export) where
  abbrev P : List Call → Type 0
  P = All (IsConfined server export)

  ite-Keeps :
      {A X : Type 0} (d : Dec X) (m k : Exec Call A) → Keeps P m → Keeps P k → Keeps P (ite d m k)
  ite-Keeps (yes _) m k km kk = km
  ite-Keeps (no _) m k km kk = kk

  created_as-Keeps : {A : Type 0} (expected : A) (o : Outcome) → Keeps P (created_as expected o)
  unfolding created_as
  created_as-Keeps expected (ok _) h p = p
  created_as-Keeps expected (err not_found) h p = p
  created_as-Keeps expected (err already_exists) h p = p
  created_as-Keeps expected (err invalid) h p = p
  created_as-Keeps expected (err (other _)) h p = p

  got_or_created-Keeps :
      {A : Type 0} (expected : A) (create : Exec Call (Unit {0})) (got : Result A)
      → Keeps P create
      → Keeps P (got_or_created expected create got)
  unfolding got_or_created
  got_or_created-Keeps expected create (ok found) k = λ h p. p
  got_or_created-Keeps expected create (err not_found) k =
      Keeps-attempt P create (created_as expected) k (created_as-Keeps expected)
  got_or_created-Keeps expected create (err already_exists) k = λ h p. p
  got_or_created-Keeps expected create (err invalid) k = λ h p. p
  got_or_created-Keeps expected create (err (other _)) k = λ h p. p

  -- What is known of an object that was read or is the expected one.
  module _ {A : Type 0} (Known : A → Type 0) (expected : A) where
    created_as-Known :
        (o : Outcome) (h : List Call) (a : A)
        → Known expected
        → (created_as expected o h).0 ≡ ok a
        → Known a
    unfolding created_as
    created_as-Known (ok _) h a k e = subst Known (cc) k
    created_as-Known (err already_exists) h a k e = subst Known (cc) k
    created_as-Known (err not_found) h a k e = absurd (ground (arith, e))
    created_as-Known (err invalid) h a k e = absurd (ground (arith, e))
    created_as-Known (err (other _)) h a k e = absurd (ground (arith, e))

    got_or_created-Known :
        (create : Exec Call (Unit {0})) (got : Result A) (h : List Call) (a : A)
        → Known expected
        → ((found : A) → got ≡ ok found → Known found)
        → (got_or_created expected create got h).0 ≡ ok a
        → Known a
    unfolding got_or_created ◌>>=◌
    got_or_created-Known create (ok found) h a k kg e = kg a e
    got_or_created-Known create (err not_found) h a k kg e =
        created_as-Known (create h).0 (create h).1 a k e
    got_or_created-Known create (err already_exists) h a k kg e = absurd (ground (arith, e))
    got_or_created-Known create (err invalid) h a k kg e = absurd (ground (arith, e))
    got_or_created-Known create (err (other _)) h a k kg e = absurd (ground (arith, e))

    -- An object that is read or created, and then perhaps updated.
    ensure_from-Keeps :
        (get : Exec Call A) (create : Exec Call (Unit {0})) (update : A → Exec Call (Unit {0}))
        → Known expected
        → ((h : List Call) (found : A) → (get h).0 ≡ ok found → Known found)
        → Keeps P get
        → Keeps P create
        → ((a : A) → Known a → Keeps P (update a))
        → Keeps P (get_or_create expected get create >>= update)
    unfolding get_or_create ◌>>=◌
    ensure_from-Keeps get create update k known kg kc ku h p =
        bind_post (get_or_create expected get create) update P h
          (λ a e.
            ku a (got_or_created-Known create (get h).0 (get h).1 a k (known h) e) _ (kept h p))
          (λ _ _. kept h p)
      where
        kept : Keeps P (get_or_create expected get create)
        kept =
            Keeps-attempt P get (got_or_created expected create) kg
              (λ r. got_or_created-Keeps expected create r kc)

  ensure-Keeps :
      {A : Type 0} (expected : A) (get : Exec Call A) (create : Exec Call (Unit {0}))
      (update : A → Exec Call (Unit {0}))
      → Keeps P get
      → Keeps P create
      → ((a : A) → Keeps P (update a))
      → Keeps P (get_or_create expected get create >>= update)
  ensure-Keeps expected get create update kg kc ku =
      ensure_from-Keeps (λ a. Unit) expected get create update tt (λ h a e. tt) kg kc (λ a _. ku a)

  write-Keeps : (c : Call) → IsConfined server export c → Keeps P (write server c)
  write-Keeps c w h p = (w, p)

  update_rules-Keeps :
      (expected found : ClusterRole)
      → All (Grants export.resources) (listed expected.rules)
      → Keeps P (update_rules server expected found)
  unfolding update_rules
  update_rules-Keeps expected found g =
      let new : ClusterRole = record found {
        labels = insert aggregate_label_key "true" found.labels;
        owner_references = expected.owner_references;
        rules = expected.rules;
      } in
      if-Keeps P (is_outdated expected found) (write server (update_cluster_role new)) (ret tt)
        (write-Keeps (update_cluster_role new) (inl g)) (λ h p. p)

  pub ensure_aggregated_cluster_role-Keeps :
      (name : String) (owners : List OwnerReference) (rules : List PolicyRule)
      → All (Grants export.resources) rules
      → Keeps P (ensure_aggregated_cluster_role server name owners rules)
  unfolding ensure_aggregated_cluster_role ensure_cluster_role
  ensure_aggregated_cluster_role-Keeps name owners rules g =
      ensure-Keeps _ _ _ _ (λ h p. (tt, p)) (λ h p. (inl g, p))
        (λ found. update_rules-Keeps _ found g)

  update_aggregation-Keeps :
      (found : ClusterRole)
      → ((found ≡ aggregating_role)
          ⊎ ((past : List Call) × (server.cluster_role past exports_name ≡ ok found)))
      → Keeps P (update_aggregation server aggregating_role found)
  unfolding update_aggregation
  update_aggregation-Keeps found e =
      ite-Keeps (aggregation_discrete aggregating_role.aggregation_rule found.aggregation_rule)
        (ret tt)
        (write server (update_cluster_role (record found { aggregation_rule = aggregates })))
        (λ h p. p) (λ h p. (inr (found, e, refl), p))

  abbrev own : List Subject
  own = kubebinder export.namespace ∷ []

  update_cluster_subjects-Keeps :
      (expected found : ClusterRoleBinding)
      → expected.subjects ≡ own
      → Keeps P (update_cluster_subjects server expected found)
  unfolding update_cluster_subjects
  update_cluster_subjects-Keeps expected found e =
      ite-Keeps (subjects_discrete expected.subjects found.subjects) (ret tt)
        (write server (update_cluster_role_binding (record found { subjects = expected.subjects })))
        (λ h p. p) (λ h p. (e, p))

  pub ensure_aggregating-Keeps :
      Keeps P (ensure_aggregating_cluster_role_and_cluster_role_binding server own)
  unfolding ensure_aggregating_cluster_role_and_cluster_role_binding ensure_cluster_role
      ensure_cluster_role_binding
  ensure_aggregating-Keeps =
      Keeps-bind P _ _
        (ensure_from-Keeps
          (λ found.
            (found ≡ aggregating_role)
            ⊎ ((past : List Call) × (server.cluster_role past exports_name ≡ ok found)))
          _ _ _ _ (inl refl) (λ h found e. inr (h, e)) (λ h p. (tt, p)) (λ h p. (inr refl, p))
          update_aggregation-Keeps)
        (λ _.
          ensure-Keeps _ _ _ _ (λ h p. (tt, p)) (λ h p. (refl, p))
            (λ found. update_cluster_subjects-Keeps (exports_binding own) found refl))

  update_role_rules-Keeps :
      (expected found : Role)
      → All (Grants export.permission_claims) (listed expected.rules)
      → Keeps P (update_role_rules server expected found)
  unfolding update_role_rules
  update_role_rules-Keeps expected found g =
      ite-Keeps (rules_discrete expected.rules found.rules) (ret tt)
        (write server (update_role (record found { rules = expected.rules }))) (λ h p. p)
        (λ h p. (g, p))

  update_subjects-Keeps :
      (expected found : RoleBinding)
      → expected.subjects ≡ own
      → Keeps P (update_subjects server expected found)
  unfolding update_subjects
  update_subjects-Keeps expected found e =
      ite-Keeps (subjects_discrete expected.subjects found.subjects) (ret tt)
        (write server (update_role_binding (record found { subjects = expected.subjects })))
        (λ h p. p) (λ h p. (e, p))

  pub ensure_role_and_role_binding-Keeps :
      (namespace name : String) (rules : List PolicyRule)
      → All (Grants export.permission_claims) rules
      → Keeps P (ensure_role_and_role_binding server namespace name own rules)
  unfolding ensure_role_and_role_binding ensure_role ensure_role_binding
  ensure_role_and_role_binding-Keeps namespace name rules g =
      let role : Role = record { namespace = namespace; name = name; rules = some rules } in
      let binding : RoleBinding = record {
        namespace = namespace;
        name = name;
        role_ref = name;
        subjects = own;
      } in
      Keeps-bind P _ _
        (ensure-Keeps _ _ _ _ (λ h p. (tt, p)) (λ h p. (g, p))
          (λ found. update_role_rules-Keeps role found g))
        (λ _.
          ensure-Keeps _ _ _ _ (λ h p. (tt, p)) (λ h p. (refl, p))
            (λ found. update_subjects-Keeps binding found refl))

  pub collect-Keeps :
      (m : Exec Call (Unit {0})) (errs : List Error) → Keeps P m → Keeps P (collect m errs)
  unfolding collect
  collect-Keeps m errs k = Keeps-attempt P m (λ o. ret (errs ++ errors_of o)) k (λ o h p. p)
