-- ===== src/ServiceBindings/Install.antt =====
-- servicebinding_reconcile.go: the installation of one CRD.
use kbind.Base.{
  String, ◌≡◌, refl, true, List, [], ◌∷◌, Result, ok, err, not_found, already_exists, invalid,
  other, Outcome, Bool-cases, inl, inr, any, ◌&&◌, ◌=ˢ◌,
}
use Prim.Native.String.{◌++◌ as ◌+ˢ◌}
use kbind.BoundSchemas.{BoundSchema, Json, bound_schema_to_crd}
use kbind.Conditions.{Conditions}
use kbind.ServiceBindings.{
  Binding, InstalledCrd, Call, Server, get_bound_schema, get_crd, update_crd, create_crd,
  is_owned_by_binding, wanted_crd, after_create, after_update, install,
  ensure_crds_from_bound_schema, add_reference, referenced, reference_bound_schema,
}

abbrev crd_name : {J R X : Type 0} → InstalledCrd J R X → String
crd_name crd = crd.spec.names.plural +ˢ "." +ˢ crd.spec.group

module _ {J R X : Type 0} (server : Server J R X) (name uid : String) where
  -- The call before read the CRD of the written spec, by the plural and the group: it is owned by the
  -- binding, and its metadata is kept.
  abbrev UpdateFollows : InstalledCrd J R X → List (Call J R X) → Type 0
  UpdateFollows new (get_crd n ∷ past) =
      (n ≡ crd_name new)
      × (existing : InstalledCrd J R X) × (server.crd past n ≡ ok existing)
      × (is_owned_by_binding name uid existing.meta.owner_references ≡ true)
      × (new.meta ≡ existing.meta)
  UpdateFollows new _ = ⊥

  -- The call before did not find the CRD, of this name and with this plural and group.
  abbrev CreateFollows : InstalledCrd J R X → List (Call J R X) → Type 0
  CreateFollows new (get_crd n ∷ past) =
      (n ≡ crd_name new) × (n ≡ new.meta.name) × (server.crd past n ≡ err not_found)
  CreateFollows new _ = ⊥

  abbrev Follows : Call J R X → List (Call J R X) → Type 0
  Follows (update_crd new) h = UpdateFollows new h
  Follows (create_crd new) h = CreateFollows new h
  Follows _ h = Unit

  abbrev pub WritesOwned : List (Call J R X) → Type 0
  WritesOwned [] = Unit
  WritesOwned (c ∷ h) = Follows c h × WritesOwned h

-- The binding keeps its name and its uid, and the calls have the property.
abbrev pub Inv :
    {J R X K : Type 0} → Server J R X → String → String → Binding X K → List (Call J R X) → Type 0
Inv server name uid b h = (b.name ≡ name) × (b.uid ≡ uid) × WritesOwned server name uid h

module _ {J R X K : Type 0} (json : Json J R) (c : Conditions K) (server : Server J R X)
    (name uid : String) where
  abbrev I : Binding X K → List (Call J R X) → Type 0
  I = Inv server name uid

  after_create-I :
      (n : String) (o : Outcome) (b : Binding X K) (h : List (Call J R X))
      → I b h
      → I (after_create json c server n o b).1 h
  unfolding after_create
  after_create-I n (ok _) b h i = i
  after_create-I n (err not_found) b h i = i
  after_create-I n (err already_exists) b h i = i
  after_create-I n (err invalid) b h i = i
  after_create-I n (err (other _)) b h i = i

  after_update-I :
      (o : Outcome) (b : Binding X K) (h : List (Call J R X))
      → I b h
      → I (after_update json c server o b).1 h
  unfolding after_update
  after_update-I (ok _) b h i = i
  after_update-I (err not_found) b h i = i
  after_update-I (err already_exists) b h i = i
  after_update-I (err invalid) b h i = i
  after_update-I (err (other _)) b h i = i

  install-I :
      (crd : InstalledCrd J R X) (n : String) (got : Result (InstalledCrd J R X)) (b : Binding X K)
      (h : List (Call J R X))
      → n ≡ crd_name crd
      → n ≡ crd.meta.name
      → server.crd h n ≡ got
      → I b h
      → let r = install json c server crd got b (get_crd n ∷ h) in I r.0.1 r.1
  unfolding install
  install-I crd n (err not_found) b h t m e (p, q, w) =
      after_create-I crd.meta.name _ b (create_crd crd ∷ get_crd n ∷ h) (p, q, ((t, m, e), (tt, w)))
  install-I crd n (err already_exists) b h t m e (p, q, w) = (p, q, (tt, w))
  install-I crd n (err invalid) b h t m e (p, q, w) = (p, q, (tt, w))
  install-I crd n (err (other _)) b h t m e (p, q, w) = (p, q, (tt, w))
  install-I crd n (ok existing) b h t m e (p, q, w) =
      elim (Bool-cases (is_owned_by_binding b.name b.uid existing.meta.owner_references)) [
        | inl o ↦ rw o (
            after_update-I _ b (update_crd (record crd { meta = existing.meta }) ∷ get_crd n ∷ h)
              (p, q, ((t, existing, e, rw (← p, ← q) o, refl), (tt, w))))
        | inr o ↦ rw o (p, q, (tt, w))
      ]

  pub ensure_crds_from_bound_schema-I :
      (b : Binding X K) (schema : BoundSchema R X) (h : List (Call J R X))
      → I b h
      → let r = ensure_crds_from_bound_schema json c server b schema h in I r.0.1 r.1
  unfolding ensure_crds_from_bound_schema
  ensure_crds_from_bound_schema-I b schema h i =
      let crd = wanted_crd json c server b schema in
      install-I crd crd.meta.name (server.crd h crd.meta.name) b h
        (unfold wanted_crd bound_schema_to_crd in refl) refl refl i

  add_reference-I :
      (schema : BoundSchema R X) (b : Binding X K) (h : List (Call J R X))
      → I b h
      → I (add_reference json c server schema b) h
  unfolding add_reference
  add_reference-I schema b h i =
      let known =
        any (λ ref. (ref.group =ˢ schema.spec.group) && (ref.resource =ˢ schema.spec.names.plural))
          b.bound_schemas in
      elim (Bool-cases known) [ inl e ↦ rw e i | inr e ↦ rw e i ]

  pub reference_bound_schema-I :
      (b : Binding X K) (n : String) (h : List (Call J R X))
      → I b h
      → let r = reference_bound_schema json c server b n h in I r.0.1 r.1
  unfolding reference_bound_schema
  reference_bound_schema-I b n h (p, q, w) = by_answer (server.bound_schema h n)
    where
      by_answer :
          (got : Result (BoundSchema R X))
          → I (referenced json c server got b).1 (get_bound_schema n ∷ h)
      by_answer (ok schema) =
          unfold referenced in add_reference-I schema b (get_bound_schema n ∷ h) (p, q, (tt, w))
      by_answer (err not_found) = unfold referenced in (p, q, (tt, w))
      by_answer (err already_exists) = unfold referenced in (p, q, (tt, w))
      by_answer (err invalid) = unfold referenced in (p, q, (tt, w))
      by_answer (err (other _)) = unfold referenced in (p, q, (tt, w))
