-- ===== src/Spec/Finalizer.antt =====
-- spec_reconcile.go: the finalizer and the writes of the provider object.
use kbind.Base.{
  ◌≡◌, refl, Bool, true, false, ◌||◌, Option, none, some, List, [], ◌∷◌, arith, ◌&&◌,
  contains-append_last, Result, ok, err, not_found, already_exists, Bool-cases, inl, inr,
}
use kbind.Base.Exec.{◌>>=◌, bind_post, attempt_post}
use kbind.Objects.{Object, NamespacedName, key_of, is_deleting}
use kbind.Isolation.{ensure_provider_key, service_namespaced, Strategy}
use kbind.Spec.{
  Call, get_provider_object, create_provider_object, update_provider_object, update_consumer_object,
  Server, Reconciler, downstream_finalizer, has_finalizer, ensure_downstream_finalizer,
  remove_downstream_finalizer, delete_upstream, release_if_gone, sync_spec, update_upstream,
  after_create, create_upstream, sync_found, sync_at, reconcile, service_namespaces,
  create_provider, delete_provider, get_provider,
}

abbrev pub is_accepted : {A : Type 0} → Result A → Bool
is_accepted (ok _) = true
is_accepted (err _) = false

module _ {J : Type 0} (s : Server J) where
  abbrev pub is_provider_write : Call J → Bool
  is_provider_write (create_provider_object _) = true
  is_provider_write (update_provider_object _) = true
  is_provider_write _ = false

  -- Whether the call is an update that sets the finalizer, and was accepted after the calls `h`.
  abbrev pub sets_finalizer : Call J → List (Call J) → Bool
  sets_finalizer (update_consumer_object o) h =
      has_finalizer o && is_accepted (s.updated_consumer h o)
  sets_finalizer _ h = false

  abbrev pub has_set_finalizer : List (Call J) → Bool
  has_set_finalizer [] = false
  has_set_finalizer (c ∷ h) = sets_finalizer c h || has_set_finalizer h

  -- Each write of the provider object comes after an accepted update that sets the finalizer, unless
  -- the consumer object had it from the start.
  abbrev pub Guarded : Bool → List (Call J) → Type 0
  Guarded held [] = Unit
  Guarded held (c ∷ h) =
      (is_provider_write c ≡ true → (held || has_set_finalizer h) ≡ true) × Guarded held h

module _ {J : Type 0} (json : Discrete J) (r : Reconciler J) (b : Bool) where
  ensure-Guarded :
      (obj : Object J) (h : List (Call J))
      → Guarded r.server b h
      → Guarded r.server b (ensure_downstream_finalizer json r obj h).1
  unfolding ensure_downstream_finalizer ◌>>=◌
  ensure-Guarded obj h g = ground arith

  ensure-sets :
      (obj o : Object J) (h : List (Call J))
      → (has_finalizer obj ≡ true → (b || has_set_finalizer r.server h) ≡ true)
      → (ensure_downstream_finalizer json r obj h).0 ≡ ok o
      → (b || has_set_finalizer r.server (ensure_downstream_finalizer json r obj h).1) ≡ true
  unfolding ensure_downstream_finalizer ◌>>=◌
  ensure-sets obj o h p e = ground (arith, contains-append_last obj.finalizers downstream_finalizer)

  remove-Guarded :
      (obj : Object J) (h : List (Call J))
      → Guarded r.server b h
      → Guarded r.server b (remove_downstream_finalizer json r obj h).1
  unfolding remove_downstream_finalizer ◌>>=◌
  remove-Guarded obj h g = ground arith

  sync_spec-Guarded :
      (obj upstream : Object J) (h : List (Call J))
      → (b || has_set_finalizer r.server h) ≡ true
      → Guarded r.server b h
      → Guarded r.server b (sync_spec json r obj upstream h).1
  unfolding sync_spec
  sync_spec-Guarded obj upstream h p g = ground arith

  delete_upstream-Guarded :
      (key : NamespacedName) (obj upstream : Object J) (h : List (Call J))
      → Guarded r.server b h
      → Guarded r.server b (delete_upstream json r key obj upstream h).1
  unfolding delete_upstream delete_provider release_if_gone remove_downstream_finalizer ◌>>=◌
  delete_upstream-Guarded key obj upstream h g = ground arith

  update_upstream-Guarded :
      (key : NamespacedName) (obj upstream : Object J) (h : List (Call J))
      → (has_finalizer obj ≡ true → (b || has_set_finalizer r.server h) ≡ true)
      → Guarded r.server b h
      → Guarded r.server b (update_upstream json r key obj upstream h).1
  unfolding update_upstream
  update_upstream-Guarded key obj upstream h p g = elim (Bool-cases (is_deleting obj)) [
    | inl e ↦ rw e (delete_upstream-Guarded key obj upstream h g)
    | inr e ↦ rw e (
        bind_post _ _ (Guarded r.server b) h
          (λ annotated _.
            bind_post (ensure_downstream_finalizer json r obj) _ (Guarded r.server b) h
              (λ held eq.
                sync_spec-Guarded held _ _ (ensure-sets obj held h p eq) (ensure-Guarded obj h g))
              (λ _ _. ensure-Guarded obj h g))
          (λ _ _. g))
  ]

  after_create-Guarded :
      (key : NamespacedName) (obj upstream : Object J) (created : Result (Object J))
      (h : List (Call J))
      → (has_finalizer obj ≡ true → (b || has_set_finalizer r.server h) ≡ true)
      → Guarded r.server b h
      → Guarded r.server b (after_create json r key obj upstream created h).1
  unfolding after_create
  after_create-Guarded key obj upstream (ok _) h p g =
      update_upstream-Guarded key obj upstream h p g
  after_create-Guarded key obj upstream (err already_exists) h p g =
      update_upstream-Guarded key obj upstream h p g
  after_create-Guarded key obj upstream (err _) h p g = g

  create_upstream-Guarded :
      (key : NamespacedName) (obj : Object J) (h : List (Call J))
      → (has_finalizer obj ≡ true → (b || has_set_finalizer r.server h) ≡ true)
      → Guarded r.server b h
      → Guarded r.server b (create_upstream json r key obj h).1
  unfolding create_upstream create_provider
  create_upstream-Guarded key obj h p g =
      bind_post (ensure_downstream_finalizer json r obj) _ (Guarded r.server b) h
        (λ held eq.
          bind_post _ _ (Guarded r.server b) _
            (λ upstream _.
              let h' = (ensure_downstream_finalizer json r obj h).1 in
              let q = ensure-sets obj held h p eq in
              attempt_post (create_provider json r upstream) _ (Guarded r.server b) h' (
                after_create-Guarded key held upstream _ (create_provider_object upstream ∷ h')
                  (λ _. q) ((λ _. q), ensure-Guarded obj h g)))
            (λ _ _. ensure-Guarded obj h g))
        (λ _ _. ensure-Guarded obj h g)

  sync_found-Guarded :
      (key : NamespacedName) (obj : Object J) (got : Result (Object J)) (h : List (Call J))
      → (has_finalizer obj ≡ true → (b || has_set_finalizer r.server h) ≡ true)
      → Guarded r.server b h
      → Guarded r.server b (sync_found json r key obj got h).1
  unfolding sync_found
  sync_found-Guarded key obj (ok upstream) h p g = update_upstream-Guarded key obj upstream h p g
  sync_found-Guarded key obj (err not_found) h p g = elim (Bool-cases (is_deleting obj)) [
    | inl e ↦ rw e (
        bind_post (remove_downstream_finalizer json r obj) _ (Guarded r.server b) h
          (λ _ _. remove-Guarded obj h g) (λ _ _. remove-Guarded obj h g))
    | inr e ↦ rw e (create_upstream-Guarded key obj h p g)
  ]
  sync_found-Guarded key obj (err _) h p g = g

  sync_at-Guarded :
      (obj : Object J) (key : Option NamespacedName) (h : List (Call J))
      → (has_finalizer obj ≡ true → (b || has_set_finalizer r.server h) ≡ true)
      → Guarded r.server b h
      → Guarded r.server b (sync_at json r obj key h).1
  unfolding sync_at get_provider
  sync_at-Guarded obj none h p g = ground arith
  sync_at-Guarded obj (some key) h p g =
      attempt_post (get_provider json r key) _ (Guarded r.server b) h (
        sync_found-Guarded key obj _ (get_provider_object key.namespace key.name ∷ h) p
          (λ e. cc, g))

ensure_provider_key-Guarded :
    {J : Type 0} (json : Discrete J) (r : Reconciler J) (b : Bool) (s : Strategy)
    (key : NamespacedName) (h : List (Call J))
    → Guarded r.server b h
    → Guarded r.server b (ensure_provider_key (service_namespaces json r) s key h).1
unfolding ensure_provider_key service_namespaces ◌>>=◌
ensure_provider_key-Guarded json r b (service_namespaced cn) key h g = ground arith
ensure_provider_key-Guarded json r b _ key h g = g

-- However the servers answer: every creation or update of the provider object in a reconciliation
-- comes after an update of the consumer object that sets the finalizer and that was accepted, unless
-- the consumer object carried the finalizer from the start.
pub reconcile-Guarded :
    {J : Type 0} (json : Discrete J) (r : Reconciler J) (obj : Object J)
    → Guarded r.server (has_finalizer obj) (reconcile json r obj []).1
unfolding reconcile
reconcile-Guarded json r obj =
    let b = has_finalizer obj in
    bind_post (ensure_provider_key (service_namespaces json r) r.isolation_strategy (key_of obj)) _
      (Guarded r.server b) []
      (λ key _.
        sync_at-Guarded json r b obj key _ (λ e. rw e refl)
          (ensure_provider_key-Guarded json r b r.isolation_strategy (key_of obj) [] tt))
      (λ _ _. ensure_provider_key-Guarded json r b r.isolation_strategy (key_of obj) [] tt)
