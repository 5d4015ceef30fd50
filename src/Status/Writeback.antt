-- ===== src/Status/Writeback.antt =====
-- status_reconcile.go: the writes of the consumer object.
use kbind.Base.{◌≡◌, refl, ap, ◌⊎◌, inl, inr, List, ◌∷◌, arith, Error, Result-cases, ok, err}
use kbind.Base.Exec.{◌>>=◌}
use kbind.Objects.{Object, NamespacedName, key_of}
use kbind.Objects.Metadata.{Object-discrete}
use kbind.Isolation.{
  Strategy, none_strategy, prefixed, namespaced, service_namespaced, mutate_status,
}
use kbind.Status.{
  Call, update_consumer_object_status, Server, annotate, annotated_by, update_status, copy_status,
  sync_present,
}

module _ {J : Type 0} (json : Discrete J) (strategy : Strategy) (s : Server J) where
  copy_status-cases :
      (obj orig : Object J) (h : List (Call J))
      → let copied : Object J = record orig { status = obj.status } in
        (copy_status json strategy s obj orig h).0 ≡ ok tt
        → ((orig.status ≡ obj.status) × ((copy_status json strategy s obj orig h).1 ≡ h))
          ⊎ (((copy_status json strategy s obj orig h).1 ≡ update_consumer_object_status copied ∷ h)
              × ((updated : Object J) × (s.updated_status h copied ≡ ok updated)))
  unfolding copy_status update_status ◌>>=◌
  copy_status-cases obj orig h e =
      elim (Object-discrete json orig (record orig { status = obj.status })) [
        | yes p ↦ inl (ap (λ o. o.status) p, ground arith)
        | no p ↦ elim (Result-cases (s.updated_status h (record orig { status = obj.status }))) [
          | inl (u, eu) ↦ inr (ground arith, (u, eu))
          | inr (x, ex) ↦ absurd (ground (arith, e, ex))
        ]
      ]

  -- The annotated and renamed consumer object, as the status is copied to it.
  pub record IsCopied (obj downstream : Object J) (key : NamespacedName) (h h' : List (Call J))
      : Type 0 where
    pub annotated : Object J
    pub named : Object J
    pub was_annotated : (annotate json strategy s obj downstream h).0 ≡ ok annotated
    pub was_named : mutate_status strategy annotated key ≡ ok named
    pub copied :
        let before = (annotate json strategy s obj downstream h).1 in
        ((named.status ≡ obj.status) × (h' ≡ before))
        ⊎ ((h' ≡ update_consumer_object_status (record named { status = obj.status }) ∷ before)
            × ((updated : Object J) × (s.updated_status before
                    (record named { status = obj.status })
                  ≡ ok updated)))

  sync_present-eq :
      (obj downstream a n : Object J) (key : NamespacedName) (h : List (Call J))
      → (annotate json strategy s obj downstream h).0 ≡ ok a
      → mutate_status strategy a key ≡ ok n
      → sync_present json strategy s obj key downstream h
        ≡ copy_status json strategy s obj n (annotate json strategy s obj downstream h).1
  unfolding sync_present ◌>>=◌
  sync_present-eq obj downstream a n key h e f = rw (e, f) refl

  mutate_status-total :
      (a : Object J) (t : Strategy) (key : NamespacedName)
      → (n : Object J) × (mutate_status t a key ≡ ok n)
        × (n.status ≡ a.status)
        × (n.annotations ≡ a.annotations)
  unfolding mutate_status
  mutate_status-total a (none_strategy cn uid) key = (a, refl, refl, refl)
  mutate_status-total a (prefixed cn uid) key = (_, refl, refl, refl)
  mutate_status-total a (namespaced cn) key = (_, refl, refl, refl)
  mutate_status-total a (service_namespaced cn) key = (_, refl, refl, refl)

  annotate-refused :
      (obj downstream : Object J) (x : Error) (key : NamespacedName) (h : List (Call J))
      → (annotate json strategy s obj downstream h).0 ≡ err x
      → (sync_present json strategy s obj key downstream h).0 ≡ err x
  unfolding sync_present ◌>>=◌
  annotate-refused obj downstream x key h e = rw e refl

  -- A reconciliation that succeeds with the consumer object found has, after the annotation step,
  -- either found the provider's status on it and made no further call, or its newest call is an
  -- update of the status of that object to the provider's, which was accepted.
  pub sync_present-IsCopied :
      (obj downstream : Object J) (key : NamespacedName) (h : List (Call J))
      → (sync_present json strategy s obj key downstream h).0 ≡ ok tt
      → IsCopied obj downstream key h (sync_present json strategy s obj key downstream h).1
  sync_present-IsCopied obj downstream key h e =
      elim (Result-cases (annotate json strategy s obj downstream h).0) [
        | inl (a, ea) ↦
            let (n, en, _, _) = mutate_status-total a strategy key in
            record {
              annotated = a;
              named = n;
              was_annotated = ea;
              was_named = en;
              copied = rw (sync_present-eq obj downstream a n key h ea en) (
                  copy_status-cases obj n (annotate json strategy s obj downstream h).1
                    (rw (sync_present-eq obj downstream a n key h ea en) at e));
            }
        | inr (x, ex) ↦ absurd (ground (arith, ex, annotate-refused obj downstream x key h ex))
      ]

  annotate-done :
      (obj downstream : Object J) (h : List (Call J))
      → downstream.annotations ≡ (annotated_by json strategy s obj downstream).annotations
      → annotate json strategy s obj downstream h ≡ (ok downstream, h)
  unfolding annotate
  annotate-done obj downstream h e = ground arith

  mutate_status-done : (o : Object J) (t : Strategy) → mutate_status t o (key_of o) ≡ ok o
  unfolding mutate_status
  mutate_status-done o (none_strategy cn uid) = refl
  mutate_status-done o _ = refl

  copy_status-done :
      (obj o : Object J) (h : List (Call J))
      → o.status ≡ obj.status
      → copy_status json strategy s obj o h ≡ (ok tt, h)
  unfolding copy_status
  copy_status-done obj o h e = elim (Object-discrete json o (record o { status = obj.status })) [
    | yes p ↦ ground arith
    | no p ↦ absurd (p (λ i. record o { status = e i }))
  ]

  -- A consumer object with the provider annotations, the consumer key and the provider's status is
  -- left alone: the reconciliation succeeds with no call.
  pub sync_present-converged :
      (obj downstream : Object J) (h : List (Call J))
      → downstream.annotations ≡ (annotated_by json strategy s obj downstream).annotations
      → downstream.status ≡ obj.status
      → sync_present json strategy s obj (key_of downstream) downstream h ≡ (ok tt, h)
  unfolding sync_present ◌>>=◌
  sync_present-converged obj downstream h a e =
      rw (annotate-done obj downstream h a, mutate_status-done downstream strategy)
        (copy_status-done obj downstream h e)
