-- ===== src/ContextStore/Bulk.antt =====
-- The deletions of contextstore.go: what they remove, and which contexts they cancel.
use text.Mathlib.TextEquality.{eq_iff}
use mathlib.Core.List.{append-nil, append_assoc}
use kbind.Base.{
  String, ◌≡◌, refl, ◌∙◌, sym, ap, Bool, true, false, none, some, List, [], ◌∷◌, ◌++◌, map, arith,
  inl, inr, Bool-cases, if◌then◌else◌, All, ◌=ˢ◌,
}
use kbind.Base.Text.{has_prefix}
use kbind.Base.Dict.{Dict, lookup, remove, lookup-remove}
use kbind.ContextStore.{
  SyncContext, ContextStore, entries_prefixed, list_prefixed, delete, delete_keys,
  bulk_delete_prefixed, get,
}

-- Whether a key is among those listed.
unfoldable pub mentions : List String → String → Bool
mentions [] j = false
mentions (k ∷ ks) j = if k =ˢ j then true else mentions ks j

pub lookup-delete_keys :
    (ks : List String) (j : String) (c : ContextStore)
    → lookup j (delete_keys ks c).store ≡ (if mentions ks j then none else lookup j c.store)
unfolding delete_keys mentions
lookup-delete_keys [] j c = refl
lookup-delete_keys (k ∷ ks) j c =
    ground (arith, lookup-delete_keys ks j (delete c k), lookup-remove k j c.store)

mentioned_has_prefix :
    (p j : String) (m : Dict SyncContext)
    → mentions (map (λ e. e.0) (entries_prefixed p m)) j ≡ true
    → has_prefix j p ≡ true
unfolding entries_prefixed mentions
mentioned_has_prefix p j [] h = cc
mentioned_has_prefix p j ((i, v) ∷ m) h = elim (Bool-cases (has_prefix i p)) [
  | inl e ↦ ground (arith, eq_iff i j, mentioned_has_prefix p j m)
  | inr e ↦ mentioned_has_prefix p j m (ground arith)
]

mentions-entries :
    (p j : String) (m : Dict SyncContext)
    → (if mentions (map (λ e. e.0) (entries_prefixed p m)) j then none else lookup j m)
      ≡ (if has_prefix j p then none else lookup j m)
unfolding entries_prefixed mentions lookup
mentions-entries p j [] = ground arith
mentions-entries p j ((i, v) ∷ m) =
    ground (arith, eq_iff i j, mentions-entries p j m, mentioned_has_prefix p j m)

-- Every key is there once, and each context knows its key.
abbrev pub Distinct : Dict SyncContext → Type 0
Distinct [] = Unit
Distinct ((k, v) ∷ m) = (lookup k m ≡ none) × (v.key ≡ k) × Distinct m

lookup-entries_none :
    (p k : String) (m : Dict SyncContext)
    → lookup k m ≡ none
    → lookup k (entries_prefixed p m) ≡ none
unfolding entries_prefixed lookup
lookup-entries_none p k [] h = refl
lookup-entries_none p k ((i, v) ∷ m) h = ground (arith, lookup-entries_none p k m)

abbrev FoundIn : Dict SyncContext → Dict SyncContext → Type 0
FoundIn store = All (λ e. lookup e.0 store ≡ some e.1)

FoundIn-remove :
    (k : String) (store es : Dict SyncContext)
    → lookup k es ≡ none
    → FoundIn store es
    → FoundIn (remove k store) es
unfolding lookup
FoundIn-remove k store [] n f = tt
FoundIn-remove k store ((i, v) ∷ es) n f = (
  ground (arith, lookup-remove k i store, eq_iff k i, eq_iff i k, f.0),
  FoundIn-remove k store es (ground arith) f.1,
)

-- Deleting entries that a store holds cancels each of them once, in order.
cancelled-delete_keys :
    (es : Dict SyncContext) (c : ContextStore)
    → Distinct es
    → FoundIn c.store es
    → (delete_keys (map (λ e. e.0) es) c).cancelled ≡ c.cancelled ++ map (λ e. e.1.cancel) es
unfolding delete_keys
cancelled-delete_keys [] c d f = sym (append-nil _)
cancelled-delete_keys ((k, v) ∷ es) c d f =
    cancelled-delete_keys es (delete c k) d.2 (FoundIn-remove k c.store es d.0 f.1)
    ∙ rw (f.0) (append_assoc c.cancelled (v.cancel ∷ []) _)

Distinct-entries :
    (p : String) (m : Dict SyncContext) → Distinct m → Distinct (entries_prefixed p m)
unfolding entries_prefixed
Distinct-entries p [] d = tt
Distinct-entries p ((k, v) ∷ m) d = elim (Bool-cases (has_prefix k p)) [
  | inl e ↦ rw e (lookup-entries_none p k m d.0, d.1, Distinct-entries p m d.2)
  | inr e ↦ rw e (Distinct-entries p m d.2)
]

FoundIn-cons :
    (k : String) (v : SyncContext) (m es : Dict SyncContext)
    → lookup k es ≡ none
    → FoundIn m es
    → FoundIn ((k, v) ∷ m) es
unfolding lookup
FoundIn-cons k v m [] n f = tt
FoundIn-cons k v m ((i, w) ∷ es) n f =
    (ground (arith, eq_iff k i, eq_iff i k, f.0), FoundIn-cons k v m es (ground arith) f.1)

FoundIn-entries :
    (p : String) (m : Dict SyncContext) → Distinct m → FoundIn m (entries_prefixed p m)
unfolding entries_prefixed lookup
FoundIn-entries p [] d = tt
FoundIn-entries p ((k, v) ∷ m) d =
    let rest =
      FoundIn-cons k v m (entries_prefixed p m) (lookup-entries_none p k m d.0)
        (FoundIn-entries p m d.2) in
    elim (Bool-cases (has_prefix k p)) [
      | inl e ↦ rw e (ground (arith, eq_iff k k), rest)
      | inr e ↦ rw e rest
    ]

-- After BulkDeletePrefixed exactly the keys with the prefix are gone, and every other key has the
-- context that it had.
pub get-bulk_delete_prefixed :
    (c : ContextStore) (prefix key : String)
    → get (bulk_delete_prefixed c prefix).0 key
      ≡ (if has_prefix key prefix then none else get c key)
unfolding bulk_delete_prefixed get
get-bulk_delete_prefixed c prefix key =
    lookup-delete_keys (map (λ e. e.0) (entries_prefixed prefix c.store)) key c
    ∙ mentions-entries prefix key c.store

-- The keys of the map are distinct, and each context knows its key.
pub record IsStore (c : ContextStore) : Type 0 where
  pub distinct : Distinct c.store

map-entries :
    (es : Dict SyncContext) → map (λ e. e.1.cancel) es ≡ map (λ v. v.cancel) (map (λ e. e.1) es)
map-entries [] = refl
map-entries (e ∷ es) = ap (λ l. e.1.cancel ∷ l) (map-entries es)

-- In a store whose keys are distinct, BulkDeletePrefixed calls the cancel function of each context
-- that it returns once and no other, and returns what ListPrefixed listed before.
pub cancelled-bulk_delete_prefixed :
    (c : ContextStore) (prefix : String)
    → IsStore c
    → ((bulk_delete_prefixed c prefix).0.cancelled
        ≡ c.cancelled ++ map (λ v. v.cancel) (bulk_delete_prefixed c prefix).1)
      × ((bulk_delete_prefixed c prefix).1 ≡ list_prefixed c prefix)
unfolding bulk_delete_prefixed
cancelled-bulk_delete_prefixed c prefix d = (
  cancelled-delete_keys (entries_prefixed prefix c.store) c
        (Distinct-entries prefix c.store d.distinct) (FoundIn-entries prefix c.store d.distinct)
      ∙ ap (λ l. c.cancelled ++ l) (map-entries (entries_prefixed prefix c.store)),
  refl,
)
