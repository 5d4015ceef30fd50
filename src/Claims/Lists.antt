-- ===== src/Claims/Lists.antt =====
-- IsClaimedWithReference of pkg/resources/resources.go: its lists, and its two sides.
use text.Mathlib.TextEquality.{eq_iff}
use mathlib.Core.List.{Memᴰ}
use kbind.Base.{
  String, ◌≡◌, ◌≢◌, refl, sym, ◌⊎◌, Bool, true, false, ◌&&◌, List, [], ◌∷◌, arith, any, Result, inl,
  inr, ok, err, ◌=ˢ◌, Bool-cases,
}
use kbind.Base.Exec.{◌>>=◌, bind_post, attempt_post}
use kbind.Objects.{Object}
use kbind.Isolation.{ServiceNamespace}
use kbind.Claims.{
  Env, Selector, SelectorReference, ExportSpec, ExportResource, IsolationMode, isolation_none,
  isolation_namespaced, isolation_prefixed, Call, list_objects, list_service_namespaces, Server,
  list_versions, list_if_allowed, list_referenced, is_reference_allowed, claimed_among,
  claimed_remapped, is_claimed_with_reference, assigned_to, moved,
}
use kbind.Claims.Claimed.{any-Memᴰ}

module _ (spec : ExportSpec) where
  -- The export has no isolation, or exports the resource.
  abbrev pub MayList : (group resource : String) → Type 0
  MayList group resource =
      (spec.isolation ≡ isolation_none)
      ⊎ ((r : ExportResource) × Memᴰ r spec.resources × (r.group ≡ group) × (r.resource ≡ resource))

  abbrev Permitted : Call → Type 0
  Permitted list_service_namespaces = Unit
  Permitted (list_objects group resource v) = MayList group resource

  abbrev pub ListsOnlyAllowed : List Call → Type 0
  ListsOnlyAllowed [] = Unit
  ListsOnlyAllowed (c ∷ h) = Permitted c × ListsOnlyAllowed h

  of_resources :
      (ref : SelectorReference)
      → any (λ r. (ref.group =ˢ r.group) && (ref.resource =ˢ r.resource)) spec.resources ≡ true
      → MayList ref.group ref.resource
  of_resources ref e =
      let (r, mem, m) =
        any-Memᴰ (λ r. (ref.group =ˢ r.group) && (ref.resource =ˢ r.resource)) spec.resources e in
      inr (
        r,
        mem,
        ground (arith, eq_iff ref.group r.group),
        ground (arith, eq_iff ref.group r.group, eq_iff ref.resource r.resource),
      )

  allowed-MayList :
      (ref : SelectorReference)
      → is_reference_allowed ref spec ≡ true
      → MayList ref.group ref.resource
  unfolding is_reference_allowed
  allowed-MayList ref e = go spec.isolation refl e
    where
      go :
          (i : IsolationMode)
          → spec.isolation ≡ i
          → (elim i [
            | isolation_none ↦ true
            | _ ↦ any (λ r. (ref.group =ˢ r.group) && (ref.resource =ˢ r.resource)) spec.resources
          ])
            ≡ true
          → MayList ref.group ref.resource
      go isolation_none p e = inl p
      go isolation_namespaced p e = of_resources ref e
      go isolation_prefixed p e = of_resources ref e

-- The consumer's namespace of an object in a namespace of the provider.
abbrev pub IsConsumerNamespace : (namespace ns : String) → List ServiceNamespace → Type 0
IsConsumerNamespace namespace ns [] = ns ≡ namespace
IsConsumerNamespace namespace ns (sn ∷ rest) =
    ((namespace ≢ "") × (sn.status_namespace ≡ namespace) × (ns ≡ sn.name))
    ⊎ (((namespace ≡ "") ⊎ (sn.status_namespace ≢ namespace))
        × IsConsumerNamespace namespace ns rest)

moved-IsConsumerNamespace :
    {J : Type 0} (obj : Object J) (sns : List ServiceNamespace)
    → (ns : String) × IsConsumerNamespace obj.namespace ns sns
      × (moved obj (assigned_to obj.namespace sns) ≡ record obj { namespace = ns })
unfolding assigned_to moved
moved-IsConsumerNamespace obj [] = (obj.namespace, refl, refl)
moved-IsConsumerNamespace obj (sn ∷ rest) =
    let (ns, c, m) = moved-IsConsumerNamespace obj rest in
    elim (Bool-cases (sn.status_namespace =ˢ "")) [
      | inl e ↦ elim (Bool-cases (sn.status_namespace =ˢ obj.namespace)) [
        | inl f ↦
            let empty : obj.namespace ≡ "" =
              ground
                (arith, eq_iff sn.status_namespace "", eq_iff sn.status_namespace obj.namespace) in
            (ns, inr (inl empty, c), rw e m)
        | inr f ↦
            let other : sn.status_namespace ≢ obj.namespace =
              λ p. ground (arith, eq_iff sn.status_namespace obj.namespace, p) in
            (ns, inr (inr other, c), rw e m)
      ]
      | inr e ↦ elim (Bool-cases (obj.namespace =ˢ sn.status_namespace)) [
        | inl f ↦
            let same = (eq_iff obj.namespace sn.status_namespace).0 f in
            let nonempty : obj.namespace ≢ "" =
              λ p. ground (arith, eq_iff sn.status_namespace "", same, p) in
            (sn.name, inl (nonempty, sym same, refl), rw (e, f) refl)
        | inr f ↦
            let other : sn.status_namespace ≢ obj.namespace =
              λ p. ground (arith, eq_iff obj.namespace sn.status_namespace, p) in
            (ns, inr (inr other, c), rw (e, f) m)
      ]
    ]

module _ {J : Type 0} (s : Server J) (spec : ExportSpec) where
  abbrev P : List Call → Type 0
  P = ListsOnlyAllowed spec

  list_versions-P :
      (ref : SelectorReference) (versions : List String) (h : List Call)
      → MayList spec ref.group ref.resource
      → P h
      → P (list_versions s ref versions h).1
  unfolding list_versions
  list_versions-P ref [] h m p = p
  list_versions-P ref (v ∷ vs) h m p =
      bind_post _ _ P h
        (λ objs _.
          bind_post (list_versions s ref vs) _ P _
            (λ _ _. list_versions-P ref vs (list_objects ref.group ref.resource v ∷ h) m (m, p))
            (λ _ _. list_versions-P ref vs (list_objects ref.group ref.resource v ∷ h) m (m, p)))
        (λ _ _. (m, p))

  list_if_allowed-P :
      (ref : SelectorReference) (versions : List String) (h : List Call)
      → P h
      → P (list_if_allowed s ref spec versions h).1
  unfolding list_if_allowed
  list_if_allowed-P ref versions h p = elim (Bool-cases (is_reference_allowed ref spec)) [
    | inl e ↦ rw e (list_versions-P ref versions h (allowed-MayList spec ref e) p)
    | inr e ↦ rw e p
  ]

  list_referenced-P :
      (refs : List SelectorReference) (versions : List String) (h : List Call)
      → P h
      → P (list_referenced s refs spec versions h).1
  unfolding list_referenced
  list_referenced-P [] versions h p = p
  list_referenced-P (ref ∷ refs) versions h p =
      bind_post (list_if_allowed s ref spec _) _ P h
        (λ objs _.
          bind_post (list_referenced s refs spec _) _ P _
            (λ _ _. list_referenced-P refs _ _ (list_if_allowed-P ref _ h p))
            (λ _ _. list_referenced-P refs _ _ (list_if_allowed-P ref _ h p)))
        (λ _ _. list_if_allowed-P ref _ h p)

  module _ {L : Type 0} (env : Env J L) (selector : Selector L) where
    claimed_among-P :
        (side : Bool) (obj : Object J) (objs : Result (List (Object J))) (h : List Call)
        → P h
        → P (claimed_among env s selector spec side obj objs h).1
    unfolding claimed_among ◌>>=◌
    claimed_among-P side obj (err _) h p = p
    claimed_among-P true obj (ok objs) h p = p
    claimed_among-P false obj (ok objs) h p = (tt, p)

    -- Whatever the servers answer, the check of a claim lists only objects of the resources that the
    -- export exports, unless the export has no isolation.
    pub is_claimed_with_reference-ListsOnlyAllowed :
        (consumer_side : Bool) (obj : Object J)
        → ListsOnlyAllowed spec
            (is_claimed_with_reference env s selector spec consumer_side obj []).1
    unfolding is_claimed_with_reference
    is_claimed_with_reference-ListsOnlyAllowed consumer_side obj =
        attempt_post (list_referenced s selector.references spec []) _ P []
          (claimed_among-P consumer_side obj _ _ (list_referenced-P selector.references [] [] tt))

    -- The check of a provider object, where the APIServiceNamespaces can be listed, agrees with the
    -- check on the consumer's side of the object in its consumer namespace: that is the name of the
    -- first APIServiceNamespace that is ready and assigned the object's namespace, and the object's
    -- own namespace if there is none or the object is cluster-scoped.
    pub is_claimed_with_reference-remapped :
        (obj : Object J) (h : List Call) (sns : List ServiceNamespace)
        → s.service_namespaces (list_referenced s selector.references spec [] h).1 ≡ ok sns
        → (ns : String) × IsConsumerNamespace obj.namespace ns sns
          × ((is_claimed_with_reference env s selector spec false obj h).0
              ≡ (is_claimed_with_reference env s selector spec true
                  (record obj { namespace = ns })
                  h).0)
    unfolding is_claimed_with_reference ◌>>=◌
    is_claimed_with_reference-remapped obj h sns e =
        let (ns, c, m) = moved-IsConsumerNamespace obj sns in
        (ns, c, go ns m (list_referenced s selector.references spec [] h).0)
      where
        go :
            (ns : String)
            → moved obj (assigned_to obj.namespace sns) ≡ record obj { namespace = ns }
            → (objs : Result (List (Object J)))
            → (claimed_among env s selector spec false obj objs
                (list_referenced s selector.references spec [] h).1).0
              ≡ (claimed_among env s selector spec true
                  (record obj { namespace = ns })
                  objs
                  (list_referenced s selector.references spec [] h).1).0
        go ns m (err x) = unfold claimed_among in refl
        go ns m (ok objs) = unfold claimed_among claimed_remapped in rw (e, m) refl
