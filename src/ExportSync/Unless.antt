-- ===== src/ExportSync/Unless.antt =====
-- serviceexport_reconcile.go: what a clean-up loop leaves.
use text.Mathlib.TextEquality.{eq_iff}
use kbind.Base.{
  String, ◌≡◌, refl, ◌∙◌, ap, Bool, true, not, ◌&&◌, none, List, [], ◌∷◌, map, arith, inl, inr,
  Bool-cases, if◌then◌else◌,
}
use kbind.Base.Text.{has_prefix}
use kbind.Base.Dict.{Dict, lookup}
use kbind.ContextStore.{
  SyncContext, ContextStore, entries_prefixed, list_prefixed, delete, delete_keys, get,
}
use kbind.ContextStore.Bulk.{Distinct, IsStore, mentions, lookup-delete_keys}
use kbind.ExportSync.Controllers.{delete_unless}

-- The keys that the loop deletes.
deleted_keys : (String → Bool) → List SyncContext → List String
deleted_keys kept [] = []
deleted_keys kept (x ∷ xs) =
    if kept x.key then deleted_keys kept xs else x.key ∷ deleted_keys kept xs

module _ (kept : String → Bool) where
  delete_unless-delete_keys :
      (xs : List SyncContext) (c : ContextStore)
      → delete_unless kept xs c ≡ delete_keys (deleted_keys kept xs) c
  unfolding delete_unless delete_keys deleted_keys
  delete_unless-delete_keys [] c = refl
  delete_unless-delete_keys (x ∷ xs) c = elim (Bool-cases (kept x.key)) [
    | inl e ↦ rw e (delete_unless-delete_keys xs c)
    | inr e ↦ rw e (delete_unless-delete_keys xs (delete c x.key))
  ]

  abbrev deleted_of : String → Dict SyncContext → List String
  deleted_of p m = deleted_keys kept (map (λ e. e.1) (entries_prefixed p m))

  mentions-deleted :
      (p j : String) (m : Dict SyncContext)
      → Distinct m
      → mentions (deleted_of p m) j ≡ true
      → (has_prefix j p && not (kept j)) ≡ true
  unfolding entries_prefixed mentions deleted_keys
  mentions-deleted p j [] d h = cc
  mentions-deleted p j ((i, v) ∷ m) d h = elim (Bool-cases (has_prefix i p)) [
    | inl e ↦ elim (Bool-cases (kept i)) [
      | inl k ↦ ground (arith, d.1, mentions-deleted p j m d.2)
      | inr k ↦ ground (arith, d.1, eq_iff i j, mentions-deleted p j m d.2)
    ]
    | inr e ↦ mentions-deleted p j m d.2 (ground arith)
  ]

  mentions-deleted_of :
      (p j : String) (m : Dict SyncContext)
      → Distinct m
      → (if mentions (deleted_of p m) j then none else lookup j m)
        ≡ (if has_prefix j p && not (kept j) then none else lookup j m)
  unfolding entries_prefixed mentions lookup deleted_keys
  mentions-deleted_of p j [] d = ground arith
  mentions-deleted_of p j ((i, v) ∷ m) d =
      ground (arith, d.1, eq_iff i j, mentions-deleted_of p j m d.2, mentions-deleted p j m d.2)

  pub get-delete_unless :
      (p key : String) (c : ContextStore)
      → IsStore c
      → get (delete_unless kept (list_prefixed c p) c) key
        ≡ (if has_prefix key p && not (kept key) then none else get c key)
  unfolding get list_prefixed
  get-delete_unless p key c d =
      ap (λ x. lookup key x.store) (delete_unless-delete_keys (list_prefixed c p) c)
      ∙ lookup-delete_keys (deleted_of p c.store) key c
      ∙ mentions-deleted_of p key c.store d.distinct
