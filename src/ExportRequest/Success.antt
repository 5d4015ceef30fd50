-- ===== src/ExportRequest/Success.antt =====
-- ensureExports of serviceexportrequest_reconcile.go: when a request succeeds.
use kbind.Base.{
  ltb, ◌*◌, String, ◌≡◌, ◌⊎◌, ◌≢◌, refl, Option, none, some, List, [], ◌∷◌, Result, ok, err,
  not_found, already_exists, invalid, other, Outcome, Bool-cases, inl, inr,
}
use kbind.Base.Exec.{◌>>=◌, bind_rule}
use kbind.ExportRequest.{Export, Request, Phase, pending, succeeded, failed}
use kbind.ExportRequest.Handler.{Env, Call, Server, create_service_export, since_creation}
use kbind.ExportRequest.Exports.{
  ensure_exports, ensure_in, export_pending, create_export, after_create, succeed,
  delete_if_timed_out, collect, Collected, all_of, stopped, unreadable, export_of,
}

module _ {X : Type 0} (s : Server X) where
  -- The export has the key of the request, and offers and claims what the request lists.
  abbrev IsFor : {K : Type 0} → Request X K → Export X → Type 0
  IsFor req x =
      (x.namespace ≡ req.namespace)
      × (x.name ≡ req.name)
      × (x.resources ≡ req.resources)
      × (x.permission_claims ≡ req.permission_claims)

  -- One of the calls created an export for the request.
  abbrev pub HasCreated : {K : Type 0} → Request X K → List (Call X) → Type 0
  HasCreated req [] = ⊥
  HasCreated req (create_service_export x ∷ h) =
      ((s.created_export h x ≡ ok tt) × IsFor req x) ⊎ HasCreated req h
  HasCreated req (_ ∷ h) = HasCreated req h

module _ {X K : Type 0} (env : Env X K) where
  -- If the request comes out as succeeded, an export has been created for what was asked.
  abbrev pub CreatedIfSucceeded :
      Request X K → Result (Outcome × Request X K) × List (Call X) → Type 0
  CreatedIfSucceeded asked (ok (o, req), h) = req.phase ≡ succeeded → HasCreated env.server asked h
  CreatedIfSucceeded asked (err e, h) = Unit

  delete-Created :
      (asked req : Request X K) (h : List (Call X))
      → HasCreated env.server asked h
      → CreatedIfSucceeded asked (delete_if_timed_out env req h)
  unfolding delete_if_timed_out
  delete-Created asked req h c =
      bind_rule _ _ (CreatedIfSucceeded asked) h
        (λ age _. elim (Bool-cases (ltb (10 * 60000000000) age)) [
          | inl e ↦ rw e (unfold ◌>>=◌ in λ p. c)
          | inr e ↦ rw e (unfold ◌>>=◌ in λ p. c)
        ])
        (λ _ _. tt)

  succeed-Created :
      (asked req : Request X K) (h : List (Call X))
      → HasCreated env.server asked h
      → CreatedIfSucceeded asked (succeed env req h)
  unfolding succeed
  succeed-Created asked req h c =
      bind_rule _ _ (CreatedIfSucceeded asked) h
        (λ age _. delete-Created asked _ (since_creation ∷ h) c) (λ _ _. tt)

  create_export-Created :
      (req : Request X K) (hash : Result String) (h : List (Call X))
      → req.phase ≢ succeeded
      → CreatedIfSucceeded req (create_export env req hash h)
  unfolding create_export ◌>>=◌
  create_export-Created req (err e) h n = λ p. absurd (n p)
  create_export-Created req (ok hash) h n =
      go (env.server.created_export h (export_of env req hash)) refl
    where
      h' : List (Call X)
      h' = create_service_export (export_of env req hash) ∷ h

      go :
          (o : Outcome)
          → env.server.created_export h (export_of env req hash) ≡ o
          → CreatedIfSucceeded req (after_create env req o h')
      go (ok tt) e =
          unfold after_create in
          succeed-Created req req h' (inl (e, unfold export_of in (refl, refl, refl, refl)))
      go (err already_exists) e = unfold after_create in λ p. absurd (n p)
      go (err not_found) e = unfold after_create in λ p. absurd (n p)
      go (err invalid) e = unfold after_create in λ p. absurd (n p)
      go (err (other t)) e = unfold after_create in λ p. absurd (n p)

  export_pending-Created :
      (existing : Option (Export X)) (req : Request X K) (schemas : Collected X) (h : List (Call X))
      → req.phase ≢ succeeded
      → CreatedIfSucceeded req (export_pending env existing req schemas h)
  unfolding export_pending unreadable
  export_pending-Created existing req (stopped name not_found) h n = λ p. absurd (n p)
  export_pending-Created existing req (stopped name already_exists) h n = λ p. absurd (n p)
  export_pending-Created existing req (stopped name invalid) h n = λ p. absurd (n p)
  export_pending-Created existing req (stopped name (other t)) h n = λ p. absurd (n p)
  export_pending-Created (some export) req (all_of schemas) h n = λ p. absurd (n p)
  export_pending-Created none req (all_of schemas) h n =
      create_export-Created req (env.specs_hash schemas) h n

  delete-kept :
      (req : Request X K) (h : List (Call X))
      → req.phase ≢ succeeded
      → CreatedIfSucceeded req (delete_if_timed_out env req h)
  unfolding delete_if_timed_out ◌>>=◌
  delete-kept req h n = λ p. absurd (n p)

  ensure_in-Created :
      (phase : Phase) (existing : Option (Export X)) (req : Request X K)
      → req.phase ≢ succeeded
      → CreatedIfSucceeded req (ensure_in env phase existing req [])
  unfolding ensure_in
  ensure_in-Created pending existing req n =
      bind_rule (collect env req req.resources) _ (CreatedIfSucceeded req) []
        (λ schemas _. export_pending-Created existing req schemas _ n) (λ _ _. tt)
  ensure_in-Created succeeded existing req n = delete-kept req [] n
  ensure_in-Created failed existing req n = delete-kept req [] n

  -- However the servers answer: a request that had not succeeded comes out of `ensureExports` as
  -- succeeded only if a call that created an export, with the namespace, the name, the resources and
  -- the permission claims of the request, has been answered without an error.
  pub ensure_exports-Created :
      (existing : Option (Export X)) (req : Request X K)
      → req.phase ≢ succeeded
      → CreatedIfSucceeded req (ensure_exports env existing req [])
  unfolding ensure_exports
  ensure_exports-Created existing req n = ensure_in-Created req.phase existing req n
