-- ===== src/ServiceBindings/Owned.antt =====
-- servicebinding_reconcile.go: which CRDs a reconciliation writes.
use kbind.Base.{
  String, refl, Bool, List, [], ◌∷◌, Error, Result, ok, err, not_found, already_exists, invalid,
  other, Bool-cases, inl, inr,
}
use kbind.BoundSchemas.{BoundSchema, Json}
use kbind.Claims.{ExportResource}
use kbind.Conditions.{Conditions}
use kbind.ExportRequest.{resource_group_name}
use kbind.ServiceBindings.{
  Binding, Export, RequestStatus, Call, Server, get_service_export, get_service_export_request,
  get_bound_schema, connected, ensure_crds_from_bound_schema, reference_bound_schema,
}
use kbind.ServiceBindings.Reconcile.{
  missing_export, checked_export, ensure_valid_service_export, get_schemas_from_export,
  after_schema, ensure_schemas, mark_in_sync, ensure_fetched, ensure_export_crds, ensure_crds,
  ensure_pretty_name, reconcile,
}
use kbind.ServiceBindings.Install.{
  WritesOwned, Inv, reference_bound_schema-I, ensure_crds_from_bound_schema-I,
}

module _ {J R X K : Type 0} (json : Json J R) (c : Conditions K) (server : Server J R X)
    (name uid : String) (sprintf : String → String → String) where
  abbrev I : Binding X K → List (Call J R X) → Type 0
  I = Inv server name uid

  ensure_schemas-I :
      (claims : List X) (schemas : List (BoundSchema R X)) (sum : List Error × Binding X K)
      (h : List (Call J R X))
      → I sum.1 h
      → let r = ensure_schemas json c server sprintf claims schemas sum h in I r.0.1 r.1
  unfolding ensure_schemas
  ensure_schemas-I claims [] sum h i = i
  ensure_schemas-I claims (schema ∷ rest) sum h i =
      let a = reference_bound_schema json c server sum.1 schema.name h in
      let claimed : Binding X K = record a.0.1 { permission_claims = claims } in
      let r = ensure_crds_from_bound_schema json c server claimed schema a.1 in
      ensure_schemas-I claims rest _ r.1 (
        ensure_crds_from_bound_schema-I json c server name uid claimed schema a.1
          (reference_bound_schema-I json c server name uid sum.1 schema.name h i))

  after_schema-owned :
      (got : Result (BoundSchema R X)) (h : List (Call J R X))
      (later : Result (List (BoundSchema R X)) × List (Call J R X))
      → WritesOwned server name uid h
      → WritesOwned server name uid later.1
      → WritesOwned server name uid (after_schema json c server sprintf got h later).1
  after_schema-owned (ok s) h later w l = l
  after_schema-owned (err e) h later w l = w

  get_schemas-owned :
      (rs : List ExportResource) (h : List (Call J R X))
      → WritesOwned server name uid h
      → WritesOwned server name uid (get_schemas_from_export json c server sprintf rs h).1
  unfolding get_schemas_from_export
  get_schemas-owned [] h w = w
  get_schemas-owned (ref ∷ rest) h w =
      let n = resource_group_name ref in
      let asked : List (Call J R X) = get_bound_schema n ∷ h in
      after_schema-owned (server.bound_schema h n) asked
        (get_schemas_from_export json c server sprintf rest asked) (tt, w)
        (get_schemas-owned rest asked (tt, w))

  mark_in_sync-I :
      (sum : List Error × Binding X K) (h : List (Call J R X))
      → I sum.1 h
      → I (mark_in_sync json c server sprintf sum).1 h
  unfolding mark_in_sync
  mark_in_sync-I (e ∷ errs, b) h i = i
  mark_in_sync-I ([], b) h i = elim (Bool-cases (c.is_false b.conditions connected)) [
    | inl e ↦ rw e i
    | inr e ↦ rw e i
  ]

  ensure_fetched-I :
      (export : Export X) (got : Result (List (BoundSchema R X))) (b : Binding X K)
      (h : List (Call J R X))
      → I b h
      → let r = ensure_fetched json c server sprintf export got b h in I r.0.1 r.1
  unfolding ensure_fetched
  ensure_fetched-I export (err e) b h i = i
  ensure_fetched-I export (ok schemas) b h i =
      let r = ensure_schemas json c server sprintf export.permission_claims schemas ([], b) h in
      mark_in_sync-I r.0 r.1 (ensure_schemas-I export.permission_claims schemas ([], b) h i)

  ensure_export_crds-I :
      (got : Result (Export X)) (b : Binding X K) (h : List (Call J R X))
      → I b h
      → let r = ensure_export_crds json c server sprintf got b h in I r.0.1 r.1
  unfolding ensure_export_crds
  ensure_export_crds-I (ok export) b h (p, q, w) =
      let got = get_schemas_from_export json c server sprintf export.resources h in
      ensure_fetched-I export got.0 b got.1 (p, q, get_schemas-owned export.resources h w)
  ensure_export_crds-I (err not_found) b h i = i
  ensure_export_crds-I (err already_exists) b h i = i
  ensure_export_crds-I (err invalid) b h i = i
  ensure_export_crds-I (err (other _)) b h i = i

  ensure_crds-I :
      (b : Binding X K) (h : List (Call J R X))
      → I b h
      → let r = ensure_crds json c server sprintf b h in I r.0.1 r.1
  unfolding ensure_crds
  ensure_crds-I b h (p, q, w) =
      ensure_export_crds-I (server.service_export h b.name) b (get_service_export b.name ∷ h)
        (p, q, (tt, w))

  missing_export-I :
      (got : Result RequestStatus) (b : Binding X K) (h : List (Call J R X))
      → I b h
      → I (missing_export json c server sprintf got b).1 h
  unfolding missing_export
  missing_export-I (ok request) b h i = elim (Bool-cases request.is_failed) [
    | inl e ↦ rw e i
    | inr e ↦ rw e i
  ]
  missing_export-I (err e) b h i = i

  checked_export-I :
      (got : Result (Export X)) (b : Binding X K) (h : List (Call J R X))
      → I b h
      → let r = checked_export json c server sprintf got b h in I r.0.1 r.1
  unfolding checked_export
  checked_export-I (ok _) b h i = i
  checked_export-I (err not_found) b h (p, q, w) =
      missing_export-I (server.service_export_request h b.name) b
        (get_service_export_request b.name ∷ h) (p, q, (tt, w))
  checked_export-I (err already_exists) b h i = i
  checked_export-I (err invalid) b h i = i
  checked_export-I (err (other _)) b h i = i

-- Whatever is answered, a reconciliation of a binding keeps this of the calls, its own included: a CRD
-- is updated only right after a read at the name that is the plural and the group of the written
-- spec found one that the binding owns, whose metadata is kept; and a CRD is created only right after
-- a read at its own name, which is the plural and the group of its spec, did not find it.
pub reconcile-WritesOwned :
    {J R X K : Type 0} (json : Json J R) (c : Conditions K) (server : Server J R X)
    (sprintf : String → String → String) (serves : Binding X K → Bool) (b : Binding X K)
    (h : List (Call J R X))
    → WritesOwned server b.name b.uid h
    → WritesOwned server b.name b.uid (reconcile json c server sprintf serves b h).1
unfolding reconcile ensure_valid_service_export ensure_pretty_name
reconcile-WritesOwned json c server sprintf serves b h w =
    let a = ensure_valid_service_export json c server sprintf b h in
    let crds = ensure_crds json c server sprintf a.0.1 a.1 in
    let (p, q, v) = ensure_crds-I json c server b.name b.uid sprintf a.0.1 a.1 (
      checked_export-I json c server b.name b.uid sprintf (server.service_export h b.name) b
        (get_service_export b.name ∷ h) (refl, refl, (tt, w))) in
    elim (Bool-cases (serves b)) [ inl e ↦ rw e (tt, v) | inr e ↦ rw e w ]
