-- ===== src/Rbac/Takeover.antt =====
-- rbac_reconciler.go: the one cluster role binding that the exports share.
use mathlib.Core.Logic.{ite}
use kbind.Base.{String, sym, ◌≡◌, ◌≢◌, refl, ap, ◌∙◌, List, [], ◌∷◌, ok}
use kbind.Base.Exec.{ret, ◌>>=◌}
use kbind.Rbac.{
  Subject, ClusterRoleBinding, Call, Server, get_cluster_role_binding, update_cluster_role_binding,
  get_or_create, got_or_created, exports_name, exports_binding, update_cluster_subjects, write,
  ensure_cluster_role_binding, subjects_discrete,
}
use kbind.Rbac.Reconcile.{kubebinder}

ite-no : {A X : Type 0} (d : Dec X) (a b : A) → (X → ⊥) → ite d a b ≡ b
ite-no (yes x) a b n = absurd (n x)
ite-no (no _) a b n = refl

first_namespace : List Subject → String
first_namespace [] = ""
first_namespace (s ∷ _) = s.namespace

own_differ :
    (a b : String) → a ≢ b → Path (List Subject) (kubebinder b ∷ []) (kubebinder a ∷ []) → ⊥
unfolding first_namespace
own_differ a b n e = n (sym (ap first_namespace e))

update_cluster_subjects-write :
    (server : Server) (expected found : ClusterRoleBinding)
    → (expected.subjects ≡ found.subjects → ⊥)
    → update_cluster_subjects server expected found
      ≡ write server (update_cluster_role_binding (record found { subjects = expected.subjects }))
unfolding update_cluster_subjects
update_cluster_subjects-write server expected found n =
    ite-no (subjects_discrete expected.subjects found.subjects) (ret tt)
      (write server (update_cluster_role_binding (record found { subjects = expected.subjects }))) n

-- Where the shared binding binds the service account of one namespace, the reconciliation of an export
-- of another namespace replaces it by the account of its own: the first consumer is no longer bound.
pub ensure_cluster_role_binding-takes_over :
    (server : Server) (a b : String) (found : ClusterRoleBinding) (h : List Call)
    → a ≢ b
    → found.subjects ≡ kubebinder a ∷ []
    → server.cluster_role_binding h exports_name ≡ ok found
    → (ensure_cluster_role_binding server (exports_binding (kubebinder b ∷ [])) h).1
      ≡ update_cluster_role_binding (record found { subjects = kubebinder b ∷ [] })
        ∷ get_cluster_role_binding exports_name
        ∷ h
unfolding ensure_cluster_role_binding get_or_create got_or_created ◌>>=◌
ensure_cluster_role_binding-takes_over server a b found h n e f =
    let expected = exports_binding (kubebinder b ∷ []) in
    rw f (
      ap (λ m. (m (get_cluster_role_binding exports_name ∷ h)).1)
        (update_cluster_subjects-write server expected found (λ same. own_differ a b n (same ∙ e))))
