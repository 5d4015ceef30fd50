-- ===== src/Spec/Deletion.antt =====
-- spec_reconcile.go: when the finalizer of the consumer object is taken off.
use kbind.Base.{
  ◌≡◌, refl, Bool, true, false, not, Option, none, some, List, [], ◌∷◌, arith, contains-append_last,
  ◌&&◌, Result, ok, err, not_found, already_exists, Outcome, Bool-cases, inl, inr,
}
use kbind.Base.Exec.{◌>>=◌, ret, bind_post, attempt_post}
use kbind.Objects.{Object, NamespacedName, key_of, is_deleting}
use kbind.Isolation.Translated.{is_gone, names_key, names_key_self}
use kbind.Isolation.{ensure_provider_key, service_namespaced, Strategy}
use kbind.Spec.{
  Call, get_provider_object, delete_provider_object, create_provider_object, update_consumer_object,
  Server, Reconciler, downstream_finalizer, has_finalizer, ensure_downstream_finalizer,
  remove_downstream_finalizer, delete_upstream, release_if_gone, sync_spec, update_upstream,
  after_create, create_upstream, sync_found, sync_at, reconcile, service_namespaces,
  create_provider, delete_provider, get_provider,
}

abbrev pub is_deleted : Outcome → Bool
is_deleted (ok _) = true
is_deleted (err not_found) = true
is_deleted _ = false

module _ {J : Type 0} (s : Server J) (translated : Result (Option NamespacedName)) where
  abbrev pub drops_finalizer : Call J → Bool
  drops_finalizer (update_consumer_object o) = not (has_finalizer o)
  drops_finalizer _ = false

  -- Whether the newest call was about the object of the translated key, and showed that it does not
  -- exist any more or deleted it.
  abbrev pub shows_gone : List (Call J) → Bool
  shows_gone [] = false
  shows_gone (get_provider_object ns name ∷ h) =
      names_key translated ns name && is_gone (s.got h ns name)
  shows_gone (delete_provider_object ns name ∷ h) =
      names_key translated ns name && is_deleted (s.deleted h ns name)
  shows_gone (_ ∷ h) = false

  abbrev pub ReleasedWhenGone : List (Call J) → Type 0
  ReleasedWhenGone [] = Unit
  ReleasedWhenGone (c ∷ h) = (drops_finalizer c ≡ true → shows_gone h ≡ true) × ReleasedWhenGone h

module _ {J : Type 0} (json : Discrete J) (r : Reconciler J)
    (translated : Result (Option NamespacedName)) where
  abbrev P : List (Call J) → Type 0
  P = ReleasedWhenGone r.server translated

  ensure-P :
      (obj : Object J) (h : List (Call J)) → P h → P (ensure_downstream_finalizer json r obj h).1
  unfolding ensure_downstream_finalizer
  ensure-P obj h p = ground (arith, contains-append_last obj.finalizers downstream_finalizer)

  remove-P :
      (obj : Object J) (h : List (Call J))
      → shows_gone r.server translated h ≡ true
      → P h
      → P (remove_downstream_finalizer json r obj h).1
  unfolding remove_downstream_finalizer
  remove-P obj h g p = ground arith

  release-P :
      (obj : Object J) (h : List (Call J))
      → shows_gone r.server translated h ≡ true
      → P h
      → P ((remove_downstream_finalizer json r obj >>= λ _. ret tt) h).1
  release-P obj h g p =
      bind_post (remove_downstream_finalizer json r obj) (λ _. ret tt) P h
        (λ _ _. remove-P obj h g p) (λ _ _. remove-P obj h g p)

  release_if_gone-P :
      (obj : Object J) (deleted : Outcome) (h : List (Call J))
      → (is_deleted deleted ≡ true → shows_gone r.server translated h ≡ true)
      → P h
      → P (release_if_gone json r obj deleted h).1
  unfolding release_if_gone
  release_if_gone-P obj (ok _) h g p = release-P obj h (g refl) p
  release_if_gone-P obj (err not_found) h g p = release-P obj h (g refl) p
  release_if_gone-P obj (err _) h g p = p

  delete_upstream-P :
      (key : NamespacedName) (obj upstream : Object J) (h : List (Call J))
      → translated ≡ ok (some key)
      → P h
      → P (delete_upstream json r key obj upstream h).1
  unfolding delete_upstream delete_provider
  delete_upstream-P key obj upstream h t p = elim (Bool-cases (is_deleting upstream)) [
    | inl e ↦ rw e p
    | inr e ↦ rw e (
        attempt_post (delete_provider json r key) _ P h (
          release_if_gone-P obj _ (delete_provider_object key.namespace key.name ∷ h)
            (λ d. rw (t, names_key_self key) d) ((λ e'. cc), p)))
  ]

  sync_spec-P :
      (obj upstream : Object J) (h : List (Call J)) → P h → P (sync_spec json r obj upstream h).1
  unfolding sync_spec
  sync_spec-P obj upstream h p = ground arith

  update_upstream-P :
      (key : NamespacedName) (obj upstream : Object J) (h : List (Call J))
      → translated ≡ ok (some key)
      → P h
      → P (update_upstream json r key obj upstream h).1
  unfolding update_upstream
  update_upstream-P key obj upstream h t p = elim (Bool-cases (is_deleting obj)) [
    | inl e ↦ rw e (delete_upstream-P key obj upstream h t p)
    | inr e ↦ rw e (
        bind_post _ _ P h
          (λ annotated _.
            bind_post (ensure_downstream_finalizer json r obj) _ P h
              (λ held _. sync_spec-P held _ _ (ensure-P obj h p)) (λ _ _. ensure-P obj h p))
          (λ _ _. p))
  ]

  after_create-P :
      (key : NamespacedName) (obj upstream : Object J) (created : Result (Object J))
      (h : List (Call J))
      → translated ≡ ok (some key)
      → P h
      → P (after_create json r key obj upstream created h).1
  unfolding after_create
  after_create-P key obj upstream (ok _) h t p = update_upstream-P key obj upstream h t p
  after_create-P key obj upstream (err already_exists) h t p =
      update_upstream-P key obj upstream h t p
  after_create-P key obj upstream (err _) h t p = p

  create_upstream-P :
      (key : NamespacedName) (obj : Object J) (h : List (Call J))
      → translated ≡ ok (some key)
      → P h
      → P (create_upstream json r key obj h).1
  unfolding create_upstream create_provider
  create_upstream-P key obj h t p =
      bind_post (ensure_downstream_finalizer json r obj) _ P h
        (λ held _.
          bind_post _ _ P _
            (λ upstream _. attempt_post (create_provider json r upstream) _ P _ (
              after_create-P key held upstream _ (create_provider_object upstream ∷ _) t
                ((λ e. cc), ensure-P obj h p)))
            (λ _ _. ensure-P obj h p))
        (λ _ _. ensure-P obj h p)

  sync_found-P :
      (key : NamespacedName) (obj : Object J) (got : Result (Object J)) (h : List (Call J))
      → translated ≡ ok (some key)
      → (is_gone got ≡ true → shows_gone r.server translated h ≡ true)
      → P h
      → P (sync_found json r key obj got h).1
  unfolding sync_found
  sync_found-P key obj (ok upstream) h t g p = update_upstream-P key obj upstream h t p
  sync_found-P key obj (err not_found) h t g p = elim (Bool-cases (is_deleting obj)) [
    | inl e ↦ rw e (release-P obj h (g refl) p)
    | inr e ↦ rw e (create_upstream-P key obj h t p)
  ]
  sync_found-P key obj (err _) h t g p = p

  sync_at-P :
      (obj : Object J) (key : Option NamespacedName) (h : List (Call J))
      → translated ≡ ok key
      → P h
      → P (sync_at json r obj key h).1
  unfolding sync_at get_provider
  sync_at-P obj none h t p = ground arith
  sync_at-P obj (some key) h t p = attempt_post (get_provider json r key) _ P h (
      sync_found-P key obj _ (get_provider_object key.namespace key.name ∷ h) t
        (λ g. rw (t, names_key_self key) g) ((λ e. cc), p))

  ensure_provider_key-P :
      (s : Strategy) (key : NamespacedName) (h : List (Call J))
      → P h
      → P (ensure_provider_key (service_namespaces json r) s key h).1
  unfolding ensure_provider_key service_namespaces ◌>>=◌
  ensure_provider_key-P (service_namespaced cn) key h p = ground arith
  ensure_provider_key-P _ key h p = p

-- However the servers answer: whenever a reconciliation updates the consumer object to one without
-- the finalizer, the call just before was about the object at the key to which the isolation strategy
-- translated the key of the consumer object, and it was a read that found none, or a deletion that
-- succeeded or found none.
pub reconcile-ReleasedWhenGone :
    {J : Type 0} (json : Discrete J) (r : Reconciler J) (obj : Object J)
    → ReleasedWhenGone r.server
        (ensure_provider_key (service_namespaces json r) r.isolation_strategy (key_of obj) []).0
        (reconcile json r obj []).1
unfolding reconcile
reconcile-ReleasedWhenGone json r obj =
    let translation =
      ensure_provider_key (service_namespaces json r) r.isolation_strategy (key_of obj) in
    let start =
      ensure_provider_key-P json r (translation []).0 r.isolation_strategy (key_of obj) [] tt in
    bind_post translation _ (ReleasedWhenGone r.server (translation []).0) []
      (λ key e. sync_at-P json r (translation []).0 obj key _ e start) (λ _ _. start)
