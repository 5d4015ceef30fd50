-- ===== src/ServiceBindings/Reconcile.antt =====
-- servicebinding_reconcile.go: reconcile, ensureValidServiceExport, ensureCRDs and ensurePrettyName.
use kbind.Base.{
  String, Bool, List, [], ◌∷◌, ◌++◌, if◌then◌else◌, Error, Result, ok, err, not_found, other,
  Outcome, done,
}
use kbind.Base.Exec.{call}
use kbind.BoundSchemas.{BoundSchema, Json}
use kbind.Claims.{ExportResource}
use kbind.Conditions.{Conditions}
use kbind.ExportRequest.{resource_group_name}
use kbind.ServiceBindings.{
  Binding, Export, RequestStatus, Call, Server, get_service_export, get_service_export_request,
  get_bound_schema, get_cluster_binding, connected, not_connected, reference_bound_schema,
  ensure_crds_from_bound_schema,
}
use Prim.Native.String.{◌++◌ as ◌+ˢ◌}

abbrev errors_of : Outcome → List Error
errors_of (ok _) = []
errors_of (err e) = e ∷ []

-- `sprintf` prints its first argument as a format of the second.
module _ {J R X K : Type 0} (json : Json J R) (c : Conditions K) (server : Server J R X)
    (sprintf : String → String → String) where
  abbrev H : Type 0
  H = List (Call J R X)

  abbrev Step : Type 0
  Step = (Outcome × Binding X K) × H

  unfoldable pub missing_export : Result RequestStatus → Binding X K → Outcome × Binding X K
  missing_export (ok request) b =
      if request.is_failed
      then (
        err (
            other (
              "APIServiceExportRequest " +ˢ b.name +ˢ " is in failed state: "
              +ˢ request.terminal_message)),
        not_connected json c server "APIServiceExportFailed"
            (sprintf request.terminal_message b.name) b,
      )
      else (
        done,
        not_connected json c server "APIServiceExportNotFound"
            ("APIServiceExport " +ˢ b.name
              +ˢ " not found on the service provider cluster. Rerun kubectl bind for repair.")
            b,
      )
  missing_export (err e) b = (
    done,
    not_connected json c server "APIServiceExportNotFound"
        ("APIServiceExport " +ˢ b.name
          +ˢ " not found on the service provider cluster. Rerun kubectl bind for repair.")
        b,
  )

  unfoldable pub checked_export : Result (Export X) → Binding X K → H → Step
  unfolding missing_export
  checked_export (ok _) b h =
      ((done, record b { conditions = c.mark_true connected b.conditions }), h)
  checked_export (err not_found) b h =
      let got =
        call (get_service_export_request b.name) (λ past. server.service_export_request past b.name)
          h in
      (missing_export got.0 b, got.1)
  checked_export (err e) b h = ((err e, b), h)

  unfoldable pub ensure_valid_service_export : Binding X K → H → Step
  unfolding checked_export
  ensure_valid_service_export b h =
      let got = call (get_service_export b.name) (λ past. server.service_export past b.name) h in
      checked_export got.0 b got.1

  abbrev then_schema :
      Result (BoundSchema R X) → Result (List (BoundSchema R X)) → Result (List (BoundSchema R X))
  then_schema (err e) rest = err e
  then_schema (ok s) (err e) = err e
  then_schema (ok s) (ok ss) = ok (s ∷ ss)

  -- The first error ends the loop, so that the later schemas are not asked for.
  abbrev pub after_schema :
      Result (BoundSchema R X)
      → H
      → Result (List (BoundSchema R X)) × H
      → Result (List (BoundSchema R X)) × H
  after_schema (err e) h later = (err e, h)
  after_schema (ok s) h later = (then_schema (ok s) later.0, later.1)

  unfoldable pub get_schemas_from_export :
      List ExportResource → H → Result (List (BoundSchema R X)) × H
  get_schemas_from_export [] h = (ok [], h)
  get_schemas_from_export (ref ∷ rest) h =
      let name = resource_group_name ref in
      let got = call (get_bound_schema name) (λ past. server.bound_schema past name) h in
      after_schema got.0 got.1 (get_schemas_from_export rest got.1)

  -- The loop over the schemas, with the errors so far.
  unfoldable pub ensure_schemas :
      List X
      → List (BoundSchema R X)
      → List Error × Binding X K
      → H
      → (List Error × Binding X K) × H
  ensure_schemas claims [] sum h = (sum, h)
  ensure_schemas claims (schema ∷ rest) (errs, b) h =
      let a = reference_bound_schema json c server b schema.name h in
      let claimed : Binding X K = record a.0.1 { permission_claims = claims } in
      let r = ensure_crds_from_bound_schema json c server claimed schema a.1 in
      ensure_schemas claims rest (errs ++ errors_of a.0.0 ++ errors_of r.0.0, r.0.1) r.1

  unfoldable pub mark_in_sync : List Error × Binding X K → List Error × Binding X K
  mark_in_sync (e ∷ errs, b) = (e ∷ errs, b)
  mark_in_sync ([], b) = if c.is_false b.conditions connected then ([], b) else (
    [],
    record b { conditions = c.mark_true "SchemaInSync" (c.mark_true connected b.conditions) },
  )

  unfoldable pub ensure_fetched :
      Export X → Result (List (BoundSchema R X)) → Binding X K → H → (List Error × Binding X K) × H
  unfolding ensure_schemas mark_in_sync
  ensure_fetched export (err e) b h = (
    (
      e ∷ [],
      not_connected json c server "BoundSchemaFetchFailed"
          ("Failed to fetch BoundSchema objects: " +ˢ json.error_text e) b,
    ),
    h,
  )
  ensure_fetched export (ok schemas) b h =
      let r = ensure_schemas export.permission_claims schemas ([], b) h in (mark_in_sync r.0, r.1)

  unfoldable pub ensure_export_crds :
      Result (Export X) → Binding X K → H → (List Error × Binding X K) × H
  unfolding get_schemas_from_export ensure_fetched
  ensure_export_crds (ok export) b h =
      let got = get_schemas_from_export export.resources h in ensure_fetched export got.0 b got.1
  ensure_export_crds (err not_found) b h = (
    (
      [],
      not_connected json c server "APIServiceExportNotFound"
          ("APIServiceExport " +ˢ b.name +ˢ " not found on the service provider cluster.") b,
    ),
    h,
  )
  ensure_export_crds (err e) b h = ((e ∷ [], b), h)

  unfoldable pub ensure_crds : Binding X K → H → (List Error × Binding X K) × H
  unfolding ensure_export_crds
  ensure_crds b h =
      let got = call (get_service_export b.name) (λ past. server.service_export past b.name) h in
      ensure_export_crds got.0 b got.1

  unfoldable pub with_pretty_name : Result String → Binding X K → Outcome × Binding X K
  with_pretty_name (ok name) b = (done, record b { provider_pretty_name = name })
  with_pretty_name (err not_found) b = (done, record b { provider_pretty_name = "" })
  with_pretty_name (err e) b = (err e, b)

  unfoldable pub ensure_pretty_name : Binding X K → H → Step
  unfolding with_pretty_name
  ensure_pretty_name b h =
      let got = call get_cluster_binding (λ past. server.pretty_name past) h in
      (with_pretty_name got.0 b, got.1)

  -- `serves` is reconcileServiceBinding.
  unfoldable pub reconcile : (Binding X K → Bool) → Binding X K → H → (List Error × Binding X K) × H
  unfolding ensure_valid_service_export ensure_crds ensure_pretty_name
  reconcile serves b h =
      let a = ensure_valid_service_export b h in
      let crds = ensure_crds a.0.1 a.1 in
      let pretty = ensure_pretty_name crds.0.1 crds.1 in
      if serves b
      then (
        (
          errors_of a.0.0 ++ crds.0.0 ++ errors_of pretty.0.0,
          record pretty.0.1 { conditions = c.set_summary pretty.0.1.conditions },
        ),
        pretty.1,
      )
      else (([], b), h)
