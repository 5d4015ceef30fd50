-- ===== src/Status/Orphans.antt =====
-- status_reconcile.go: the deletion of the provider object.
use kbind.Base.{
  ◌&&◌, ◌≡◌, refl, Bool, true, false, Option, none, some, List, [], ◌∷◌, arith, Result, ok, err,
  not_found,
}
use kbind.Base.Exec.{◌>>=◌, bind_post, attempt_post}
use kbind.Objects.{Object, NamespacedName, key_of}
use kbind.Isolation.Translated.{is_gone, names_key, names_key_self}
use kbind.Isolation.{Strategy, to_consumer_key, consumer_namespace}
use kbind.Status.{
  Call, get_consumer_object, delete_provider_object, Server, service_namespaces, annotate,
  update_status, copy_status, sync_present, sync_got, sync_at, get_consumer, delete_provider,
  reconcile,
}

module _ {J : Type 0} (s : Server J) (obj : Object J)
    (translated : Result (Option NamespacedName)) where
  -- Whether the newest call read the object of the translated key and found none.
  abbrev shows_gone : List (Call J) → Bool
  shows_gone (get_consumer_object ns name ∷ h) =
      names_key translated ns name && is_gone (s.got h ns name)
  shows_gone _ = false

  -- What is deleted is this object, and the call before read its consumer object and found none.
  abbrev Justified : Call J → List (Call J) → Type 0
  Justified (delete_provider_object ns name) h =
      (ns ≡ obj.namespace) × (name ≡ obj.name) × (shows_gone h ≡ true)
  Justified _ h = Unit

  abbrev pub OnlyOrphans : List (Call J) → Type 0
  OnlyOrphans [] = Unit
  OnlyOrphans (c ∷ h) = Justified c h × OnlyOrphans h

module _ {J : Type 0} (json : Discrete J) (strategy : Strategy) (s : Server J) (obj : Object J)
    (translated : Result (Option NamespacedName)) where
  abbrev P : List (Call J) → Type 0
  P = OnlyOrphans s obj translated

  sync_present-P :
      (key : NamespacedName) (downstream : Object J) (h : List (Call J))
      → P h
      → P (sync_present json strategy s obj key downstream h).1
  unfolding sync_present
  sync_present-P key downstream h p =
      bind_post (annotate json strategy s obj downstream) _ P h
        (λ annotated _.
          bind_post _ _ P _ (λ named _. copied named _ (annotated_P downstream h p))
            (λ _ _. annotated_P downstream h p))
        (λ _ _. annotated_P downstream h p)
    where
      annotated_P :
          (d : Object J) (h : List (Call J)) → P h → P (annotate json strategy s obj d h).1
      annotated_P d h p = unfold annotate in ground arith

      copied : (o : Object J) (h : List (Call J)) → P h → P (copy_status json strategy s obj o h).1
      copied o h p = unfold copy_status update_status ◌>>=◌ in ground arith

  sync_got-P :
      (key : NamespacedName) (got : Result (Object J)) (h : List (Call J))
      → (is_gone got ≡ true → shows_gone s obj translated h ≡ true)
      → P h
      → P (sync_got json strategy s obj key got h).1
  unfolding sync_got delete_provider
  sync_got-P key (ok downstream) h g p = sync_present-P key downstream h p
  sync_got-P key (err not_found) h g p = ((refl, refl, g refl), p)
  sync_got-P key (err _) h g p = p

  sync_at-P :
      (key : Result (Option NamespacedName)) (h : List (Call J))
      → translated ≡ key
      → P h
      → P (sync_at json strategy s obj key h).1
  unfolding sync_at get_consumer
  sync_at-P (ok none) h t p = p
  sync_at-P (ok (some key)) h t p = attempt_post (get_consumer json strategy s key) _ P h (
      sync_got-P key _ (get_consumer_object key.namespace key.name ∷ h)
        (λ g. rw (t, names_key_self key) g) (tt, p))
  sync_at-P (err not_found) h t p = p
  sync_at-P (err _) h t p = p

  to_consumer_key-P :
      (t : Strategy) (key : NamespacedName) (h : List (Call J))
      → P h
      → P (to_consumer_key (service_namespaces json strategy s) t key h).1
  unfolding to_consumer_key consumer_namespace service_namespaces ◌>>=◌
  to_consumer_key-P t key h p = ground arith

-- However the servers answer: the only provider object that a reconciliation deletes is the one that
-- it reconciles, and only if the call just before read the object at the key to which the isolation
-- strategy translated the key of the provider object, and found none.
pub reconcile-OnlyOrphans :
    {J : Type 0} (json : Discrete J) (strategy : Strategy) (s : Server J) (obj : Object J)
    → OnlyOrphans s obj
        (to_consumer_key (service_namespaces json strategy s) strategy (key_of obj) []).0
        (reconcile json strategy s obj []).1
unfolding reconcile
reconcile-OnlyOrphans json strategy s obj =
    let translation = to_consumer_key (service_namespaces json strategy s) strategy (key_of obj) in
    attempt_post translation _ (OnlyOrphans s obj (translation []).0) [] (
      sync_at-P json strategy s obj (translation []).0 _ _ refl
        (to_consumer_key-P json strategy s obj (translation []).0 strategy (key_of obj) [] tt))
