-- ===== src/ExportRequest/Order.antt =====
-- The order of validation and creation in `reconcile` of serviceexportrequest_reconcile.go.
use kbind.Base.{
  String, ◌≡◌, refl, true, Option, none, some, List, [], ◌∷◌, arith, Result, ok, err, not_found,
  already_exists, invalid, other, Outcome, Result-cases, inl, inr, ltb, ◌*◌,
}
use kbind.Base.Exec.{ret, Exec, ◌>>=◌, attempt, bind_post, call}
use kbind.Base.Keeps.{Keeps, Keeps-bind, if-Keeps}
use kbind.Claims.{ExportResource}
use kbind.ExportRequest.{
  resource_group_name, BoundSchema, Export, Request, Phase, pending, succeeded, failed, validate,
}
use kbind.ExportRequest.Handler.{
  Env, Call, list_exported_schemas, get_exported_schemas, ensure_bound_schemas, get_schema,
  get_service_export, index_schemas, delete_request,
}
use kbind.ExportRequest.Exports.{
  create_if_missing, done_if_there, collected, summarised, validated, unchanged, reconcile_found,
  ensure_exports, ensure_in, export_pending, create_export, after_create, succeed,
  delete_if_timed_out, collect, Collected, all_of, stopped, ensure_api_service_namespaces,
  ensure_names, check, ensure, and_then, reconcile,
}
use kbind.ExportRequest.Accepted.{
  is_accepted, was_accepted, CreatesAccepted, ensure_bound_schemas-Keeps,
}

-- An action whose result is only changed by `g` before the code goes on.
module _ {C : Type 0} (P : List C → Type 0) where
  map_post :
      {A B D : Type 0} (m : Exec C A) (g : Result A → B) (k : B → Exec C D) (h : List C)
      → P (k (g (m h).0) (m h).1).1
      → P ((attempt m >>= (λ x. ret (g x)) >>= k) h).1
  unfolding ◌>>=◌
  map_post m g k h p = p

module _ {X K : Type 0} (env : Env X K) (req : Request X K) where
  abbrev P : List (Call X) → Type 0
  P = CreatesAccepted env req

  -- From the acceptance on, whatever is called is justified.
  abbrev Q : List (Call X) → Type 0
  Q h = P h × (was_accepted env req h ≡ true)

  collect-Keeps : (r : Request X K) (rs : List ExportResource) → Keeps Q (collect env r rs)
  unfolding collect get_schema collected
  collect-Keeps r [] = λ h q. q
  collect-Keeps r (res ∷ rest) =
      Keeps-bind Q _ _ (λ h (p, a). ((tt, p), a)) (λ got. more (collect-Keeps r rest) got)
    where
      more :
          Keeps Q (collect env r rest)
          → (got : Result (BoundSchema X))
          → Keeps Q (collected env (resource_group_name res) got (collect env r rest))
      more k (ok b) = Keeps-bind Q _ _ k (λ _ h q. q)
      more k (err e) = λ h q. q

  delete-Keeps : (r : Request X K) → Keeps Q (delete_if_timed_out env r)
  unfolding delete_if_timed_out
  delete-Keeps r =
      Keeps-bind Q _ _ (λ h (p, a). ((tt, p), a))
        (λ age.
          Keeps-bind Q _ _
            (if-Keeps Q (ltb (10 * 60000000000) age)
              (call (delete_request r.namespace r.name)
                (λ h. env.server.deleted_request h r.namespace r.name))
              (ret tt) (λ h (p, a). ((tt, p), a)) (λ h q. q))
            (λ _ h q. q))

  after_create-Keeps : (r : Request X K) (o : Outcome) → Keeps Q (after_create env r o)
  unfolding after_create succeed
  after_create-Keeps r (ok _) = Keeps-bind Q _ _ (λ h (p, a). ((tt, p), a)) (λ age. delete-Keeps _)
  after_create-Keeps r (err already_exists) = λ h q. q
  after_create-Keeps r (err not_found) = λ h q. q
  after_create-Keeps r (err invalid) = λ h q. q
  after_create-Keeps r (err (other t)) = λ h q. q

  create_export-Keeps :
      (r : Request X K) (hash : Result String) → Keeps Q (create_export env r hash)
  unfolding create_export
  create_export-Keeps r (err e) = λ h q. q
  create_export-Keeps r (ok hash) =
      Keeps-bind Q _ _ (λ h (p, a). ((a, p), a)) (λ created. after_create-Keeps r created)

  export_pending-Keeps :
      (existing : Option (Export X)) (r : Request X K) (schemas : Collected X)
      → Keeps Q (export_pending env existing r schemas)
  unfolding export_pending
  export_pending-Keeps existing r (stopped name e) = λ h q. q
  export_pending-Keeps (some export) r (all_of schemas) = λ h q. q
  export_pending-Keeps none r (all_of schemas) = create_export-Keeps r (env.specs_hash schemas)

  ensure_in-Keeps :
      (phase : Phase) (existing : Option (Export X)) (r : Request X K)
      → Keeps Q (ensure_in env phase existing r)
  unfolding ensure_in
  ensure_in-Keeps pending existing r =
      Keeps-bind Q _ _ (collect-Keeps r r.resources) (export_pending-Keeps existing r)
  ensure_in-Keeps succeeded existing r = delete-Keeps r
  ensure_in-Keeps failed existing r = delete-Keeps r

  done_if_there-Keeps : (o : Outcome) → Keeps Q (done_if_there env o)
  unfolding done_if_there
  done_if_there-Keeps (ok _) = λ h q. q
  done_if_there-Keeps (err already_exists) = λ h q. q
  done_if_there-Keeps (err not_found) = λ h q. q
  done_if_there-Keeps (err invalid) = λ h q. q
  done_if_there-Keeps (err (other t)) = λ h q. q

  create_if_missing-Keeps :
      (export : Export X) (name : String) (o : Outcome)
      → Keeps Q (create_if_missing env export name o)
  unfolding create_if_missing
  create_if_missing-Keeps export name (ok _) = λ h q. q
  create_if_missing-Keeps export name (err not_found) =
      Keeps-bind Q _ _ (λ h (p, a). ((tt, p), a)) done_if_there-Keeps
  create_if_missing-Keeps export name (err already_exists) = λ h q. q
  create_if_missing-Keeps export name (err invalid) = λ h q. q
  create_if_missing-Keeps export name (err (other t)) = λ h q. q

  ensure_names-Keeps :
      (export : Export X) (names : List String) → Keeps Q (ensure_names env export names)
  unfolding ensure_names
  ensure_names-Keeps export [] = λ h q. q
  ensure_names-Keeps export (name ∷ rest) =
      Keeps-bind Q _ _ (λ h (p, a). ((tt, p), a))
        (λ got.
          Keeps-bind Q _ _ (create_if_missing-Keeps export name got)
            (λ _. ensure_names-Keeps export rest))

  namespaces-Keeps : (r : Request X K) → Keeps Q (ensure_api_service_namespaces env r)
  unfolding ensure_api_service_namespaces
  namespaces-Keeps r =
      Keeps-bind Q _ _ (λ h (p, a). ((tt, p), a)) (λ export. ensure_names-Keeps export r.namespaces)

  -- What follows the validation.
  exports-Keeps :
      (existing : Option (Export X)) (r : Request X K) → Keeps Q (ensure_exports env existing r)
  unfolding ensure_exports
  exports-Keeps existing r = ensure_in-Keeps r.phase existing r

  last-Keeps :
      (v : Outcome × Request X K)
      → Keeps Q (and_then env v (λ r. unchanged env r (ensure_api_service_namespaces env r)))
  unfolding and_then
  last-Keeps (ok _, r) = Keeps-bind Q _ _ (namespaces-Keeps r) (λ o h q. q)
  last-Keeps (err e, r) = λ h q. q

  after_check-P :
      (export : Option (Export X)) (v : Outcome × Request X K) (h : List (Call X))
      → P h
      → (v.0 ≡ ok tt → was_accepted env req h ≡ true)
      → P
          ((and_then env v (ensure_exports env export) >>= λ exported.
              and_then env exported (λ r. unchanged env r (ensure_api_service_namespaces env r)))
            h).1
  unfolding and_then
  after_check-P export (ok _, r) h p a =
      (Keeps-bind Q (ensure_exports env export r) _ (exports-Keeps export r) last-Keeps h
        (p, a refl)).0
  after_check-P export (err e, r) h p a = unfold ◌>>=◌ in p

  get_exported-calls :
      (h : List (Call X)) → (get_exported_schemas env h).1 ≡ list_exported_schemas ∷ h
  unfolding get_exported_schemas ◌>>=◌
  get_exported-calls h = elim (Result-cases (env.server.exported h)) [
    | inl (items, x) ↦ rw x refl
    | inr (e, x) ↦ rw x refl
  ]

  validated-is_accepted :
      (h : List (Call X))
      → (validated env req (get_exported_schemas env h).0).0 ≡ ok tt
      → is_accepted env req (env.server.exported h) ≡ true
  unfolding get_exported_schemas validated ◌>>=◌
  validated-is_accepted h e = elim (Result-cases (env.server.exported h)) [
    | inl (items, x) ↦
        let v : (validate env.conditions (index_schemas env items []) req).0 ≡ ok tt =
          ground (arith, x, e) in
        rw (x, v) refl
    | inr (y, x) ↦ absurd (ground (arith, x, e))
  ]

  check-P :
      (export : Option (Export X)) (h : List (Call X))
      → P h
      → P
          ((check env req >>= λ checked.
              and_then env checked (ensure_exports env export) >>= λ exported.
              and_then env exported (λ r. unchanged env r (ensure_api_service_namespaces env r)))
            h).1
  unfolding check
  check-P export h p = map_post P (get_exported_schemas env) (validated env req) _ h (
      rw (get_exported-calls h) (
        after_check-P export (validated env req (get_exported_schemas env h).0)
          (list_exported_schemas ∷ h) (tt, p) (λ e. rw (validated-is_accepted h e) refl)))

  ensure-P : (export : Option (Export X)) (h : List (Call X)) → P h → P (ensure env export req h).1
  unfolding ensure
  ensure-P export h p =
      map_post P (ensure_bound_schemas env export req) (λ o. (o, req)) _ h
        (go (ensure_bound_schemas env export req h).0 (ensure_bound_schemas env export req h).1
          (ensure_bound_schemas-Keeps env req export req h p))
    where
      go :
          (o : Outcome) (h' : List (Call X))
          → P h'
          → P
              ((and_then env (o, req) (check env) >>= λ checked.
                  and_then env checked (ensure_exports env export) >>= λ exported.
                  and_then env exported
                    (λ r. unchanged env r (ensure_api_service_namespaces env r)))
                h').1
      go (ok _) h' p = unfold and_then in check-P export h' p
      go (err e) h' p = unfold and_then ◌>>=◌ in p

  found-P :
      (got : Result (Export X)) (h : List (Call X)) → P h → P (reconcile_found env req got h).1
  unfolding reconcile_found summarised
  found-P (ok export) h p =
      bind_post (ensure env (some export) req) _ P h (λ _ _. ensure-P (some export) h p)
        (λ _ _. ensure-P (some export) h p)
  found-P (err not_found) h p =
      bind_post (ensure env none req) _ P h (λ _ _. ensure-P none h p) (λ _ _. ensure-P none h p)
  found-P (err already_exists) h p = p
  found-P (err invalid) h p = p
  found-P (err (other t)) h p = p

  -- However the servers answer: when a reconciliation of a request creates an export, the exported
  -- schemas have been listed before, and `validate` accepts the request for those that were listed.
  pub reconcile-CreatesAccepted : CreatesAccepted env req (reconcile env req []).1
  unfolding reconcile
  reconcile-CreatesAccepted =
      bind_post _ (reconcile_found env req) P []
        (λ got _. found-P got (get_service_export req.namespace req.name ∷ []) (tt, tt))
        (λ _ _. (tt, tt))
