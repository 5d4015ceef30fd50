-- ===== src/Bundles/Synced.antt =====
-- servicebindingbundle_reconcile.go: which bindings are created and which are deleted.
use text.Mathlib.TextEquality.{eq_iff}
use kbind.Base.{
  String, ◌≡◌, refl, ◌∙◌, ap, Bool, true, false, not, ◌&&◌, ◌||◌, List, [], ◌∷◌, ◌++◌, any,
  contains, is_some, arith, Bool-cases, inl, inr, Error, All, ◌=ˢ◌,
}
use kbind.Base.Dict.{Dict, lookup, insert, lookup-insert}
use kbind.Bundles.{
  Bundle, Binding, Call, Server, Env, create_binding, delete_binding, is_owned, owned_bindings,
  create_missing, delete_orphans, sync_listed, create_error, delete_error, new_binding,
}
use kbind.Conditions.{Conditions}

-- Whether a call deletes, or creates, the binding of a name.
abbrev pub deletes : {C : Type 0} → String → Call C → Bool
deletes name (delete_binding n) = n =ˢ name
deletes name _ = false

abbrev pub creates : {C : Type 0} → String → Call C → Bool
creates name (create_binding b) = b.name =ˢ name
creates name _ = false

-- Whether one of the bindings has the name and is owned by the bundle.
abbrev pub has_owned : String → String → List Binding → String → Bool
has_owned bundle_name uid bindings name =
    any (λ b. (b.name =ˢ name) && is_owned bundle_name uid b) bindings

-- The map has exactly the names of the owned bindings, each under its name.
lookup-owned_bindings :
    (bundle_name uid name : String) (bindings : List Binding) (owned : Dict Binding)
    → is_some (lookup name (owned_bindings bundle_name uid bindings owned))
      ≡ (has_owned bundle_name uid bindings name || is_some (lookup name owned))
unfolding owned_bindings
lookup-owned_bindings bundle_name uid name [] owned = refl
lookup-owned_bindings bundle_name uid name (b ∷ rest) owned =
    elim (Bool-cases (is_owned bundle_name uid b)) [
      | inl e ↦ ground (
        arith,
        e,
        lookup-owned_bindings bundle_name uid name rest (insert b.name b owned),
        lookup-insert b.name name b owned,
      )
      | inr e ↦ ground (arith, e, lookup-owned_bindings bundle_name uid name rest owned)
    ]

abbrev IsNamed : String × Binding → Type 0
IsNamed e = e.0 ≡ e.1.name

abbrev has_key : String → Dict Binding → Bool
has_key name owned = any (λ e. e.0 =ˢ name) owned

has_key-lookup :
    (name : String) (owned : Dict Binding) → has_key name owned ≡ is_some (lookup name owned)
unfolding lookup
has_key-lookup name [] = refl
has_key-lookup name ((k, b) ∷ rest) = ground (arith, has_key-lookup name rest)

insert-IsNamed :
    (b : Binding) (owned : Dict Binding) → All IsNamed owned → All IsNamed (insert b.name b owned)
unfolding insert
insert-IsNamed b [] a = (refl, tt)
insert-IsNamed b ((k, c) ∷ rest) (p, a) = elim (Bool-cases (k =ˢ b.name)) [
  | inl e ↦ rw e (refl, a)
  | inr e ↦ rw e (p, insert-IsNamed b rest a)
]

owned_bindings-IsNamed :
    (bundle_name uid : String) (bindings : List Binding) (owned : Dict Binding)
    → All IsNamed owned
    → All IsNamed (owned_bindings bundle_name uid bindings owned)
unfolding owned_bindings
owned_bindings-IsNamed bundle_name uid [] owned a = a
owned_bindings-IsNamed bundle_name uid (b ∷ rest) owned a =
    elim (Bool-cases (is_owned bundle_name uid b)) [
      | inl e ↦ rw e (
          owned_bindings-IsNamed bundle_name uid rest (insert b.name b owned)
            (insert-IsNamed b owned a))
      | inr e ↦ rw e (owned_bindings-IsNamed bundle_name uid rest owned a)
    ]

same_key :
    (a b : String) (owned : Dict Binding)
    → (a =ˢ b) ≡ true
    → is_some (lookup a owned) ≡ is_some (lookup b owned)
same_key a b owned e = ap (λ k. is_some (lookup k owned)) ((eq_iff a b).0 e)

same_member :
    (exports : List String) (a b : String)
    → (a =ˢ b) ≡ true
    → contains exports a ≡ contains exports b
same_member exports a b e = ap (contains exports) ((eq_iff a b).0 e)

nothing : (name : String) → is_some (lookup {V = Binding} name []) ≡ false
unfolding lookup
nothing name = refl

module _ {C K : Type 0} (env : Env C) (c : Conditions K) (server : Server C)
    (bundle : Bundle K) where
  create_missing-creates :
      (owned : Dict Binding) (exports : List String) (errs : List Error) (h : List (Call C))
      (name : String)
      → any (creates name) (create_missing env c server bundle owned exports errs h).1
        ≡ ((contains exports name && not (is_some (lookup name owned))) || any (creates name) h)
  unfolding create_missing
  create_missing-creates owned [] errs h name = refl
  create_missing-creates owned (export ∷ rest) errs h name =
      elim (Bool-cases (is_some (lookup export owned))) [
        | inl e ↦ rw e (
            create_missing-creates owned rest errs h name
            ∙ ground (arith, e, same_key export name owned))
        | inr e ↦ rw e (
            create_missing-creates owned rest
              (errs ++ create_error (server.created h (new_binding bundle export)))
              (create_binding (new_binding bundle export) ∷ h) name
            ∙ ground (arith, e, same_key export name owned))
      ]

  create_missing-deletes :
      (owned : Dict Binding) (exports : List String) (errs : List Error) (h : List (Call C))
      (name : String)
      → any (deletes name) (create_missing env c server bundle owned exports errs h).1
        ≡ any (deletes name) h
  unfolding create_missing
  create_missing-deletes owned [] errs h name = refl
  create_missing-deletes owned (export ∷ rest) errs h name =
      elim (Bool-cases (is_some (lookup export owned))) [
        | inl e ↦ rw e (create_missing-deletes owned rest errs h name)
        | inr e ↦ rw e (
            create_missing-deletes owned rest
              (errs ++ create_error (server.created h (new_binding bundle export)))
              (create_binding (new_binding bundle export) ∷ h) name)
      ]

  delete_orphans-deletes :
      (exports : List String) (owned : Dict Binding) (errs : List Error) (h : List (Call C))
      (name : String)
      → All IsNamed owned
      → any (deletes name) (delete_orphans env c server exports owned errs h).1
        ≡ ((has_key name owned && not (contains exports name)) || any (deletes name) h)
  unfolding delete_orphans
  delete_orphans-deletes exports [] errs h name a = refl
  delete_orphans-deletes exports ((k, b) ∷ rest) errs h name (p, a) =
      elim (Bool-cases (contains exports k)) [
        | inl e ↦ rw e (
            delete_orphans-deletes exports rest errs h name a
            ∙ ground (arith, e, same_member exports k name))
        | inr e ↦ rw e (
            delete_orphans-deletes exports rest (errs ++ delete_error (server.deleted h b.name))
              (delete_binding b.name ∷ h) name a
            ∙ rw (← p) (ground (arith, e, same_member exports k name)))
      ]

  delete_orphans-creates :
      (exports : List String) (owned : Dict Binding) (errs : List Error) (h : List (Call C))
      (name : String)
      → any (creates name) (delete_orphans env c server exports owned errs h).1
        ≡ any (creates name) h
  unfolding delete_orphans
  delete_orphans-creates exports [] errs h name = refl
  delete_orphans-creates exports ((k, b) ∷ rest) errs h name =
      elim (Bool-cases (contains exports k)) [
        | inl e ↦ rw e (delete_orphans-creates exports rest errs h name)
        | inr e ↦ rw e (
            delete_orphans-creates exports rest (errs ++ delete_error (server.deleted h b.name))
              (delete_binding b.name ∷ h) name)
      ]

  -- With the exports and the bindings that were listed, whatever is answered then: the binding of a
  -- name is created if and only if an export has the name and the bundle owns no binding of it, and it
  -- is deleted if and only if the bundle owns it and no export has the name.
  pub sync_listed-refines :
      (exports : List String) (bindings : List Binding) (k : K) (name : String)
      → let calls : List (Call C) = (sync_listed env c server bundle exports bindings k []).1 in
        let owns : Bool = has_owned bundle.name bundle.uid bindings name in
        (any (creates name) calls ≡ (contains exports name && not owns))
        × (any (deletes name) calls ≡ (owns && not (contains exports name)))
  unfolding sync_listed
  sync_listed-refines exports bindings k name =
      let owned = owned_bindings bundle.name bundle.uid bindings [] in
      let a = create_missing env c server bundle owned exports [] [] in
      let keys = lookup-owned_bindings bundle.name bundle.uid name bindings [] in
      (
        delete_orphans-creates exports owned a.0 a.1 name
            ∙ create_missing-creates owned exports [] [] name
            ∙ ground (arith, keys, nothing name),
        delete_orphans-deletes exports owned a.0 a.1 name
              (owned_bindings-IsNamed bundle.name bundle.uid bindings [] tt)
            ∙ ground (
              arith,
              keys,
              nothing name,
              has_key-lookup name owned,
              create_missing-deletes owned exports [] [] name,
            ),
      )
