-- ===== src/ExportSync/Unbound.antt =====
-- serviceexport_reconcile.go: what the two copies of conditions say of an export without a binding.
use kbind.Base.{
  String, ◌≡◌, refl, ◌∙◌, true, List, [], ◌∷◌, Error, Result, ok, err, not_found, already_exists,
  invalid, other,
}
use kbind.Base.Exec.{call}
use kbind.Claims.{ExportResource}
use kbind.Conditions.{Condition, Conditions}
use kbind.ExportRequest.{resource_group_name}
use kbind.ExportSync.Copies.{
  Crd, SchemaStatus, Call, Server, Sum, get_service_binding, get_remote_bound_schema, skip_missing,
  copy_crd, copy_schema, copy_resources, update_failed, with_crd, mark_connected, mark_unbound,
  copy_binding, ensure_crd_conditions_copied_to_bound_schema, copy_conditions, connected,
}

module _ {A K : Type 0} (listed : Conditions (List Condition)) (marks : Conditions K)
    (server : Server A K) where
  -- Where every update succeeds, all schemas stay valid.
  module _
      (updates : (h : List (Call A)) (s : SchemaStatus A)
        → server.updated_bound_schema h s ≡ ok tt) where
    skip_missing-valid :
        (e : Error) (sum : Sum listed marks server)
        → (skip_missing listed marks server e sum).1 ≡ sum.1
    unfolding skip_missing
    skip_missing-valid not_found sum = refl
    skip_missing-valid already_exists sum = refl
    skip_missing-valid invalid sum = refl
    skip_missing-valid (other _) sum = refl

    copy_crd-valid :
        (schema : SchemaStatus A) (crd : Result (Crd A)) (sum : Sum listed marks server)
        (h : List (Call A))
        → (copy_crd listed marks server schema crd sum h).0.1 ≡ sum.1
    unfolding copy_crd update_failed
    copy_crd-valid schema (err e) sum h = skip_missing-valid e sum
    copy_crd-valid schema (ok crd) sum h =
        rw (updates h (with_crd listed marks server crd schema)) refl

    copy_schema-valid :
        (got : Result (SchemaStatus A)) (sum : Sum listed marks server) (h : List (Call A))
        → (copy_schema listed marks server got sum h).0.1 ≡ sum.1
    unfolding copy_schema
    copy_schema-valid (err e) sum h = skip_missing-valid e sum
    copy_schema-valid (ok schema) sum h = copy_crd-valid schema _ sum _

    copy_resources-valid :
        (rs : List ExportResource) (sum : Sum listed marks server) (h : List (Call A))
        → (copy_resources listed marks server rs sum h).0.1 ≡ sum.1
    unfolding copy_resources
    copy_resources-valid [] sum h = refl
    copy_resources-valid (res ∷ rest) sum h =
        let name = resource_group_name res in
        let got = call (get_remote_bound_schema name) (λ past. server.bound_schema past name) h in
        let r = copy_schema listed marks server got.0 sum got.1 in
        copy_resources-valid rest r.0 r.1 ∙ copy_schema-valid got.0 sum got.1

    -- An export whose binding is not found is marked as not connected and then as connected, unless
    -- an update of a bound schema fails.
    pub copy_conditions-unbound :
        (name : String) (rs : List ExportResource) (k : K) (h : List (Call A))
        → server.service_binding h name ≡ err not_found
        → (copy_conditions listed marks server name rs k h).0.1
          ≡ marks.mark_true connected (mark_unbound listed marks server k)
    unfolding copy_conditions copy_binding ensure_crd_conditions_copied_to_bound_schema
        mark_connected
    copy_conditions-unbound name rs k h e =
        rw (e, copy_resources-valid rs ([], true) (get_service_binding name ∷ h)) refl
