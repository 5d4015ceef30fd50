-- ===== src/ClaimedResources/Deletion.antt =====
-- The deletions among the calls of the reconciliation in claimedresources_reconciler.go.
use kbind.Base.{
  String, ◌≡◌, refl, ap, ◌∙◌, sym, Bool, true, not, ◌&&◌, Option, none, some, List, [], ◌∷◌, arith,
  Result, ok, err, not_found, already_exists, invalid, other, Outcome, is_some, Bool-cases, inl,
  inr, ◌=ˢ◌,
}
use kbind.Base.Exec.{◌>>=◌, bind_post, attempt_post}
use kbind.Objects.{Object, is_deleting}
use kbind.Isolation.{ServiceNamespace}
use kbind.ClaimedResources.{
  Owner, provider, consumer, Call, get_provider_object, get_consumer_object, delete_provider_object,
  delete_consumer_object, get_service_namespace, Server, read_provider, read_consumer,
  found_or_none, consumer_namespace, name_if_ready, done_if_missing, delete_consumer,
  delete_provider, update_provider, update_consumer, create_provider, create_consumer,
  label_provider, label_consumer, copy_to_consumer, to_consumer, to_provider, provider_owned,
  consumer_owned, sync_owned, sync, reconcile, make_owner, determine_owner,
}

abbrev gone_or_deleting : {J : Type 0} → Option (Object J) → Bool
gone_or_deleting none = true
gone_or_deleting (some o) = is_deleting o

-- The name of the object if there is one.
abbrev name_or : {J : Type 0} → String → Option (Object J) → String
name_or name none = name
name_or name (some o) = o.name

-- What a read has shown: an object, that there is none, or an error.
abbrev shown : {J : Type 0} → Result (Object J) → Result (Option (Object J))
shown (ok o) = ok (some o)
shown (err not_found) = ok none
shown (err e) = err e

module _ {J : Type 0} (s : Server J) where
  -- What the newest read of the provider object has shown.
  abbrev pub seen_provider : List (Call J) → Result (Option (Object J))
  seen_provider [] = err (other "not read")
  seen_provider (get_provider_object ns name ∷ h) = shown (s.got_provider h ns name)
  seen_provider (_ ∷ h) = seen_provider h

  -- What the newest read of the consumer object has shown.
  abbrev pub seen_consumer : List (Call J) → Result (Option (Object J))
  seen_consumer [] = err (other "not read")
  seen_consumer (get_consumer_object ns name ∷ h) = shown (s.got_consumer h ns name)
  seen_consumer (_ ∷ h) = seen_consumer h

  -- The newest reads have shown an object of the provider, and the provider's is gone or deleting. What
  -- is deleted has the name that was asked for, or that of the provider's.
  abbrev ProviderLeaves : (name deleted : String) → List (Call J) → Type 0
  ProviderLeaves name deleted h =
      (p : Option (Object J)) × (c : Option (Object J)) × (seen_provider h ≡ ok p)
      × (seen_consumer h ≡ ok c)
      × (determine_owner p c ≡ ok provider)
      × (gone_or_deleting p ≡ true)
      × (deleted ≡ name_or name p)

  -- The newest reads have shown an object of the consumer, and the consumer's is gone.
  abbrev ConsumerLeaves : List (Call J) → Type 0
  ConsumerLeaves h =
      (p : Option (Object J)) × (seen_provider h ≡ ok p)
      × (seen_consumer h ≡ ok none)
      × (determine_owner p none ≡ ok consumer)

  -- `ns` and `name` are the key of the provider object, and `consumer_ns` the namespace of the
  -- consumer object.
  module _ (ns name : String) (consumer_ns : Result String) where
    abbrev Justified : Call J → List (Call J) → Type 0
    Justified (get_provider_object n m) h = (n ≡ ns) × (m ≡ name)
    Justified (get_consumer_object n m) h = (consumer_ns ≡ ok n) × (m ≡ name)
    Justified (delete_consumer_object n m) h = (consumer_ns ≡ ok n) × ProviderLeaves name m h
    Justified (delete_provider_object n m) h = (n ≡ ns) × (m ≡ name) × ConsumerLeaves h
    Justified _ h = Unit

    abbrev pub DeletesFollowOwners : List (Call J) → Type 0
    DeletesFollowOwners [] = Unit
    DeletesFollowOwners (c ∷ h) = Justified c h × DeletesFollowOwners h

module _ {J : Type 0} (json : Discrete J) (s : Server J) (ns name : String)
    (cn : Result String) where
  abbrev P : List (Call J) → Type 0
  P = DeletesFollowOwners s ns name cn

  -- The calls so far, and what the reads among them have shown of the two objects.
  abbrev Known : Option (Object J) → Option (Object J) → List (Call J) → Type 0
  Known p c h = P h × (seen_provider s h ≡ ok p) × (seen_consumer s h ≡ ok c)

  label_provider-Known :
      (o : Object J) (p c : Option (Object J)) (h : List (Call J))
      → Known p c h
      → Known p c (label_provider json s o h).1
  unfolding label_provider update_provider
  label_provider-Known o p c h (k, kp, kc) = (ground arith, ground (arith, kp), ground (arith, kc))

  label_consumer-Known :
      (o : Object J) (p c : Option (Object J)) (h : List (Call J))
      → Known p c h
      → Known p c (label_consumer json s o h).1
  unfolding label_consumer update_consumer ◌>>=◌
  label_consumer-Known o p c h (k, kp, kc) = (ground arith, ground (arith, kp), ground (arith, kc))

  done_if_missing-P : (o : Outcome) (h : List (Call J)) → P h → P (done_if_missing json s o h).1
  unfolding done_if_missing
  done_if_missing-P (ok _) h k = k
  done_if_missing-P (err not_found) h k = k
  done_if_missing-P (err already_exists) h k = k
  done_if_missing-P (err invalid) h k = k
  done_if_missing-P (err (other _)) h k = k

  copy_to_consumer-P :
      (n : String) (p c : Object J) (h : List (Call J))
      → P h
      → P (copy_to_consumer json s n p c h).1
  unfolding copy_to_consumer update_consumer ◌>>=◌
  copy_to_consumer-P n p c h k = ground arith

  to_consumer-P :
      (n : String) (p : Object J) (c : Option (Object J)) (h : List (Call J))
      → cn ≡ ok n
      → determine_owner (some p) c ≡ ok provider
      → Known (some p) c h
      → P (to_consumer json s n p c h).1
  unfolding to_consumer create_consumer delete_consumer
  to_consumer-P n p none h t o (k, kp, kc) = bind_post _ _ P h (λ _ _. (tt, k)) (λ _ _. (tt, k))
  to_consumer-P n p (some c) h t o (k, kp, kc) = elim (Bool-cases (is_deleting p)) [
    | inl e ↦ rw e ((t, (some p, some c, kp, kc, o, e, refl)), k)
    | inr e ↦ rw e (copy_to_consumer-P n p c h k)
  ]

  provider_owned-P :
      (n : String) (p c : Option (Object J)) (h : List (Call J))
      → cn ≡ ok n
      → determine_owner p c ≡ ok provider
      → Known p c h
      → P (provider_owned json s n name p c h).1
  unfolding provider_owned delete_consumer
  provider_owned-P n none c h t o (k, kp, kc) =
      attempt_post (delete_consumer json s n name) (done_if_missing json s) P h (
        done_if_missing-P _ (delete_consumer_object n name ∷ h)
          ((t, (none, c, kp, kc, o, refl, refl)), k))
  provider_owned-P n (some p) c h t o k =
      bind_post (label_provider json s p) (λ _. to_consumer json s n p c) P h
        (λ _ _. to_consumer-P n p c _ t o (label_provider-Known p (some p) c h k))
        (λ _ _. (label_provider-Known p (some p) c h k).0)

  to_provider-P :
      (n : String) (c : Object J) (p : Option (Object J)) (h : List (Call J))
      → P h
      → P (to_provider json s n c p h).1
  unfolding to_provider create_provider update_provider
  to_provider-P n c none h k = (tt, k)
  to_provider-P n c (some p) h k = ground arith

  consumer_owned-P :
      (p c : Option (Object J)) (h : List (Call J))
      → determine_owner p c ≡ ok consumer
      → Known p c h
      → P (consumer_owned json s ns name p c h).1
  unfolding consumer_owned delete_provider
  consumer_owned-P p none h o (k, kp, kc) =
      attempt_post (delete_provider json s ns name) (done_if_missing json s) P h
        (done_if_missing-P _ (delete_provider_object ns name ∷ h) ((refl, refl, (p, kp, kc, o)), k))
  consumer_owned-P p (some c) h o k =
      bind_post (label_consumer json s c) (λ _. to_provider json s ns (make_owner consumer c) p) P h
        (λ _ _.
          to_provider-P ns (make_owner consumer c) p _ (label_consumer-Known c p (some c) h k).0)
        (λ _ _. (label_consumer-Known c p (some c) h k).0)

  sync_owned-P :
      (r : Result Owner) (n : String) (p c : Option (Object J)) (h : List (Call J))
      → cn ≡ ok n
      → determine_owner p c ≡ r
      → Known p c h
      → P (sync_owned json s r ns n name p c h).1
  unfolding sync_owned
  sync_owned-P (err _) n p c h t o k = k.0
  sync_owned-P (ok provider) n p c h t o k = provider_owned-P n p c h t o k
  sync_owned-P (ok consumer) n p c h t o k = consumer_owned-P p c h o k

  sync-P :
      (n : String) (p c : Option (Object J)) (h : List (Call J))
      → cn ≡ ok n
      → Known p c h
      → P (sync json s ns n name p c h).1
  unfolding sync
  sync-P n p c h t k = elim (Bool-cases (not (is_some p) && not (is_some c))) [
    | inl e ↦ rw e (k.0)
    | inr e ↦ rw e (sync_owned-P (determine_owner p c) n p c h t refl k)
  ]

  found_or_none-calls :
      (r : Result (Object J)) (h : List (Call J)) → found_or_none json s r h ≡ (shown r, h)
  unfolding found_or_none
  found_or_none-calls (ok _) h = refl
  found_or_none-calls (err not_found) h = refl
  found_or_none-calls (err already_exists) h = refl
  found_or_none-calls (err invalid) h = refl
  found_or_none-calls (err (other _)) h = refl

  read_provider-P : (h : List (Call J)) → P h → P (read_provider json s ns name h).1
  unfolding read_provider ◌>>=◌
  read_provider-P h k =
      rw (found_or_none-calls (s.got_provider h ns name) (get_provider_object ns name ∷ h))
        ((refl, refl), k)

  read_provider-seen :
      (p : Option (Object J)) (h : List (Call J))
      → (read_provider json s ns name h).0 ≡ ok p
      → seen_provider s (read_provider json s ns name h).1 ≡ ok p
  unfolding read_provider ◌>>=◌
  read_provider-seen p h e =
      let q = found_or_none-calls (s.got_provider h ns name) (get_provider_object ns name ∷ h) in
      rw q (ap (λ t. t.0) (sym q) ∙ e)

  read_consumer-P :
      (n : String) (h : List (Call J)) → cn ≡ ok n → P h → P (read_consumer json s n name h).1
  unfolding read_consumer ◌>>=◌
  read_consumer-P n h t k =
      rw (found_or_none-calls (s.got_consumer h n name) (get_consumer_object n name ∷ h))
        ((t, refl), k)

  read_consumer-Known :
      (n : String) (p c : Option (Object J)) (h : List (Call J))
      → cn ≡ ok n
      → P h
      → seen_provider s h ≡ ok p
      → (read_consumer json s n name h).0 ≡ ok c
      → Known p c (read_consumer json s n name h).1
  unfolding read_consumer ◌>>=◌
  read_consumer-Known n p c h t k kp e =
      let q = found_or_none-calls (s.got_consumer h n name) (get_consumer_object n name ∷ h) in
      rw q (((t, refl), k), kp, ap (λ t. t.0) (sym q) ∙ e)

  name_if_ready-P :
      (sn : ServiceNamespace) (h : List (Call J)) → P h → P (name_if_ready json s sn h).1
  unfolding name_if_ready
  name_if_ready-P sn h k = elim (Bool-cases (sn.status_namespace =ˢ "")) [
    | inl e ↦ rw e k
    | inr e ↦ rw e k
  ]

  consumer_namespace-P : P (consumer_namespace json s ns []).1
  unfolding consumer_namespace
  consumer_namespace-P = elim (Bool-cases (ns =ˢ "")) [
    | inl e ↦ rw e tt
    | inr e ↦ rw e (
        bind_post _ (name_if_ready json s) P []
          (λ sn _. name_if_ready-P sn (get_service_namespace ns ∷ []) (tt, tt)) (λ _ _. (tt, tt)))
  ]

-- However the servers answer: a reconciliation of a key reads the provider object at that key and the
-- consumer object of that name in the consumer's namespace. It deletes an object in the consumer's
-- namespace only if by these reads the provider owns the object and its own is gone or being deleted,
-- under the name of the provider's if there is one and of the key if not; and it deletes the provider object only if by these reads the consumer owns the object and its own
-- is gone.
pub reconcile-DeletesFollowOwners :
    {J : Type 0} (json : Discrete J) (s : Server J) (ns name : String)
    → DeletesFollowOwners s ns name
        (consumer_namespace json s ns []).0
        (reconcile json s ns name []).1
unfolding reconcile
reconcile-DeletesFollowOwners json s ns name =
    let cn = (consumer_namespace json s ns []).0 in
    let Q = DeletesFollowOwners s ns name cn in
    let start = consumer_namespace-P json s ns name cn in
    let first = read_provider-P json s ns name cn _ start in
    bind_post (consumer_namespace json s ns) _ Q []
      (λ n t.
        bind_post (read_provider json s ns name) _ Q _
          (λ p ep.
            bind_post (read_consumer json s n name) _ Q _
              (λ c ec. sync-P json s ns name cn n p c _ t (
                read_consumer-Known json s ns name cn n p c _ t first
                  (read_provider-seen json s ns name cn p _ ep) ec))
              (λ _ _. read_consumer-P json s ns name cn n _ t first))
          (λ _ _. first))
      (λ _ _. start)
