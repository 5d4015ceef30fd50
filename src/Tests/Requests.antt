-- ===== src/Tests/Requests.antt =====
-- Runs of the handler of a request for the resource dbs.db.io.
use kbind.Base.{ℕ, String, ◌≡◌, ◌≢◌, ◌↔◌, none, List, [], ◌∷◌, ok, err, not_found, done, arith}
use text.Mathlib.TextEquality.{eq_iff}
use kbind.Base.Dict.{Dict, lookup}
use kbind.Claims.{isolation_namespaced}
use kbind.Tests.{marks}
use kbind.ExportRequest.{BoundSchema, Request, always, pending, succeeded, validate}
use kbind.ExportRequest.Handler.{Env}
use kbind.ExportRequest.Exports.{ensure_exports, reconcile}
use kbind.ExportRequest.Accepted.{CreatesAccepted}
use kbind.ExportRequest.Order.{reconcile-CreatesAccepted}
use kbind.ExportRequest.Checks.{HaveScopes}
use kbind.ExportRequest.Valid.{IsValid, validate-IsValid}
use kbind.ExportRequest.Success.{CreatedIfSucceeded, ensure_exports-Created}

abbrev schema : BoundSchema ℕ
schema = record {
  namespace = "cn";
  name = "dbs.db.io";
  resource_version = "3";
  controller_uid = none;
  annotations = [];
  spec = record {
    group = "db.io";
    plural = "dbs";
    scope = "Namespaced";
    informer_scope = "Cluster";
    content = 0;
  };
}

abbrev schemas : Dict (BoundSchema ℕ)
schemas = ("dbs.db.io", schema) ∷ []

abbrev request : Request ℕ (List String)
request = record {
  namespace = "cn";
  name = "dbs";
  resources = record { group = "db.io"; resource = "dbs"; versions = "v1" ∷ [] } ∷ [];
  permission_claims = record { group = ""; resource = "secrets"; content = 0 } ∷ [];
  namespaces = [];
  schema_update_policy = always;
  phase = pending;
  terminal_message = "";
  conditions = [];
}

-- Everything is found, and every write succeeds.
abbrev env : Env ℕ (List String)
env = record {
  informer_scope = "Cluster";
  isolation = isolation_namespaced;
  conditions = marks;
  spec_hash = λ s. ok "h";
  specs_hash = λ s. ok "hs";
  set_controller_reference = λ e b. ok b;
  server = record {
    exported = λ h. ok (schema ∷ []);
    bound_schema = λ h ns n. ok schema;
    created_schema = λ h b. done;
    updated_schema = λ h b. done;
    service_export = λ h ns n. err not_found;
    created_export = λ h e. done;
    read_export = λ h ns n. err not_found;
    deleted_request = λ h ns n. done;
    service_namespace = λ h ns n. done;
    created_service_namespace = λ h ns n u. done;
    age = λ h. 1;
  };
}

have_scopes : HaveScopes schemas
unfolding lookup
have_scopes k b e p = ground (arith, e, p, eq_iff schema.spec.scope "")

validate-IsValid_example :
    ((validate marks schemas request).0 ≡ ok tt)
    ↔ IsValid schemas request.resources request.permission_claims
validate-IsValid_example = validate-IsValid marks schemas request have_scopes

not_succeeded : pending ≢ succeeded
not_succeeded p = ground (arith, p)

ensure_exports-Created_example : CreatedIfSucceeded env request (ensure_exports env none request [])
ensure_exports-Created_example = ensure_exports-Created env none request not_succeeded

reconcile-CreatesAccepted_example : CreatesAccepted env request (reconcile env request []).1
reconcile-CreatesAccepted_example = reconcile-CreatesAccepted env request
