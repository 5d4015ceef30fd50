-- ===== src/ExportRequest/Accepted.antt =====
-- serviceexportrequest_reconcile.go: when a request was accepted, and the calls for its bound schemas.
use kbind.Base.{
  String, ◌≡◌, Bool, true, false, ◌||◌, Option, List, [], ◌∷◌, Result, ok, err, Outcome, Bool-cases,
  inl, inr,
}
use kbind.Base.Dict.{Dict}
use kbind.Base.Keeps.{Keeps, Keeps-bind}
use kbind.Claims.{ExportResource}
use kbind.ExportRequest.{BoundSchema, Export, Request, SchemaUpdatePolicy, validate}
use kbind.ExportRequest.Handler.{
  Env, Call, list_exported_schemas, create_service_export, get_exported_schemas,
  ensure_bound_schemas, create_or_update_bound_schema, settle_schema, update_if_needed, synced,
  get_schema, create_schema, update_schema, ensure_for, ensure_all, is_absent, index_schemas,
  ensure_if, ensure_resource,
}

abbrev pub is_ok : Outcome → Bool
is_ok (ok _) = true
is_ok (err _) = false

module _ {X K : Type 0} (env : Env X K) (req : Request X K) where
  abbrev pub is_accepted : Result (List (BoundSchema X)) → Bool
  is_accepted (ok items) = is_ok (validate env.conditions (index_schemas env items []) req).0
  is_accepted (err e) = false

  -- One of the lists of the exported schemas was answered by schemas for which `validate` accepts
  -- the request.
  abbrev pub was_accepted : List (Call X) → Bool
  was_accepted [] = false
  was_accepted (list_exported_schemas ∷ h) = is_accepted (env.server.exported h) || was_accepted h
  was_accepted (_ ∷ h) = was_accepted h

  abbrev Justified : Call X → List (Call X) → Type 0
  Justified (create_service_export _) h = was_accepted h ≡ true
  Justified _ h = Unit

  abbrev pub CreatesAccepted : List (Call X) → Type 0
  CreatesAccepted [] = Unit
  CreatesAccepted (c ∷ h) = Justified c h × CreatesAccepted h

module _ {X K : Type 0} (env : Env X K) (req : Request X K) where
  abbrev P : List (Call X) → Type 0
  P = CreatesAccepted env req

  settle_schema-Keeps :
      (export : Option (Export X)) (desired : BoundSchema X) (hash : String)
      (policy : SchemaUpdatePolicy) (existing : Result (BoundSchema X))
      → Keeps P (settle_schema env export desired hash policy existing)
  unfolding settle_schema
  settle_schema-Keeps export desired hash policy (ok existing) =
      Keeps-bind P _ (λ owned. update_if_needed env (synced env policy hash desired owned))
        (λ h p. p) (λ owned. updated (synced env policy hash desired owned))
    where
      updated : (b : BoundSchema X × Bool) → Keeps P (update_if_needed env b)
      updated (b, true) h p = unfold update_if_needed update_schema in (tt, p)
      updated (b, false) h p = unfold update_if_needed in p
  settle_schema-Keeps export desired hash policy (err e) = λ h p. elim (Bool-cases (is_absent e)) [
    | inl a ↦ rw a (unfold create_schema in (tt, p))
    | inr a ↦ rw a p
  ]

  create_or_update-Keeps :
      (export : Option (Export X)) (desired : BoundSchema X) (policy : SchemaUpdatePolicy)
      → Keeps P (create_or_update_bound_schema env export desired policy)
  unfolding create_or_update_bound_schema get_schema
  create_or_update-Keeps export desired policy =
      Keeps-bind P _ _ (λ h p. p)
        (λ hash.
          Keeps-bind P _ _ (λ h p. (tt, p))
            (λ existing. settle_schema-Keeps export _ hash policy existing))

  ensure_if-Keeps :
      (wanted : Bool) (export : Option (Export X)) (desired : BoundSchema X)
      (policy : SchemaUpdatePolicy)
      → Keeps P (ensure_if env wanted export desired policy)
  unfolding ensure_if
  ensure_if-Keeps true export desired policy = create_or_update-Keeps export desired policy
  ensure_if-Keeps false export desired policy = λ h p. p

  ensure_for-Keeps :
      (export : Option (Export X)) (r : Request X K) (res : ExportResource)
      (schemas : Dict (BoundSchema X))
      → Keeps P (ensure_for env export r res schemas)
  unfolding ensure_for
  ensure_for-Keeps export r res [] = λ h p. p
  ensure_for-Keeps export r res ((k, b) ∷ schemas) =
      Keeps-bind P _ _ (ensure_if-Keeps _ export _ _) (λ _. ensure_for-Keeps export r res schemas)

  ensure_resource-Keeps :
      (export : Option (Export X)) (r : Request X K) (schemas : Dict (BoundSchema X))
      (res : ExportResource)
      → Keeps P (ensure_resource env export r schemas res)
  unfolding ensure_resource
  ensure_resource-Keeps export r schemas res = go res.versions
    where
      go :
          (vs : List String)
          → Keeps P (ensure_resource env export r schemas (record res { versions = vs }))
      go [] = λ h p. p
      go (v ∷ vs) = ensure_for-Keeps export r (record res { versions = v ∷ vs }) schemas

  ensure_all-Keeps :
      (export : Option (Export X)) (r : Request X K) (schemas : Dict (BoundSchema X))
      (rs : List ExportResource)
      → Keeps P (ensure_all env export r schemas rs)
  unfolding ensure_all
  ensure_all-Keeps export r schemas [] = λ h p. p
  ensure_all-Keeps export r schemas (res ∷ rest) =
      Keeps-bind P _ _ (ensure_resource-Keeps export r schemas res)
        (λ _. ensure_all-Keeps export r schemas rest)

  get_exported-Keeps : Keeps P (get_exported_schemas env)
  unfolding get_exported_schemas
  get_exported-Keeps = Keeps-bind P _ _ (λ h p. (tt, p)) (λ items h p. p)

  pub ensure_bound_schemas-Keeps :
      (export : Option (Export X)) (r : Request X K) → Keeps P (ensure_bound_schemas env export r)
  unfolding ensure_bound_schemas
  ensure_bound_schemas-Keeps export r =
      Keeps-bind P _ _ get_exported-Keeps (λ schemas. ensure_all-Keeps export r schemas r.resources)
