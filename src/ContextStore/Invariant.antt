-- ===== src/ContextStore/Invariant.antt =====
-- The keys of the store of contextstore.go under its mutations, and the keys of NewKey as prefixes.
use text.Mathlib.TextEquality.{eq_iff}
use text.Mathlib.TextLemmas.{append_assoc}
use kbind.Base.{
  String, ◌≡◌, refl, ◌∙◌, sym, ap, false, none, List, [], ◌∷◌, map, arith, inl, inr, Bool-cases,
  ◌=ˢ◌,
}
use kbind.Base.Text.{has_prefix-append}
use kbind.Base.Dict.{Dict, lookup, remove, lookup-remove, insert, lookup-insert}
use kbind.ContextStore.{
  SyncContext, ContextStore, delete, delete_keys, set, entries_prefixed, bulk_delete_prefixed, get,
  new_key, join,
}
use kbind.ContextStore.Bulk.{Distinct, IsStore, get-bulk_delete_prefixed}
use Prim.Native.String.{◌++◌ as ◌+ˢ◌}

lookup-insert-none :
    (k j : String) (v : SyncContext) (m : Dict SyncContext)
    → lookup j m ≡ none
    → (k =ˢ j) ≡ false
    → lookup j (insert k v m) ≡ none
lookup-insert-none k j v m h n = lookup-insert k j v m ∙ rw n h

Distinct-insert :
    (k : String) (v : SyncContext) (m : Dict SyncContext)
    → v.key ≡ k
    → Distinct m
    → Distinct (insert k v m)
unfolding insert lookup
Distinct-insert k v [] h d = (refl, h, tt)
Distinct-insert k v ((i, w) ∷ m) h d = elim (Bool-cases (i =ˢ k)) [
  | inl e ↦ rw e (ground (arith, eq_iff i k, d.0), h, d.2)
  | inr e ↦ rw e (
    lookup-insert-none k i v m d.0 (ground (arith, eq_iff i k, eq_iff k i)),
    d.1,
    Distinct-insert k v m h d.2,
  )
]

Distinct-remove : (k : String) (m : Dict SyncContext) → Distinct m → Distinct (remove k m)
unfolding remove
Distinct-remove k [] d = tt
Distinct-remove k ((i, w) ∷ m) d = elim (Bool-cases (i =ˢ k)) [
  | inl e ↦ rw e (Distinct-remove k m d.2)
  | inr e ↦ rw e (lookup-remove k i m ∙ ground (arith, d.0), d.1, Distinct-remove k m d.2)
]

pub set-IsStore :
    (c : ContextStore) (key : String) (v : SyncContext) → IsStore c → IsStore (set c key v)
unfolding set
set-IsStore c key v d = record {
  distinct = Distinct-insert key (record v { key = key }) c.store refl d.distinct;
}

pub delete-IsStore : (c : ContextStore) (key : String) → IsStore c → IsStore (delete c key)
unfolding delete
delete-IsStore c key d = record { distinct = Distinct-remove key c.store d.distinct }

delete_keys-IsStore : (ks : List String) (c : ContextStore) → IsStore c → IsStore (delete_keys ks c)
unfolding delete_keys
delete_keys-IsStore [] c d = d
delete_keys-IsStore (k ∷ ks) c d = delete_keys-IsStore ks (delete c k) (delete-IsStore c k d)

pub bulk_delete_prefixed-IsStore :
    (c : ContextStore) (prefix : String) → IsStore c → IsStore (bulk_delete_prefixed c prefix).0
unfolding bulk_delete_prefixed
bulk_delete_prefixed-IsStore c prefix d =
    delete_keys-IsStore (map (λ e. e.0) (entries_prefixed prefix c.store)) c d

-- The mutations of the store.
pub data Op : Type 0 where
  sets : String → SyncContext → Op
  deletes bulk_deletes : String → Op

unfoldable pub apply : ContextStore → Op → ContextStore
apply c (sets k v) = set c k v
apply c (deletes k) = delete c k
apply c (bulk_deletes p) = (bulk_delete_prefixed c p).0

unfoldable pub run : ContextStore → List Op → ContextStore
unfolding apply
run c [] = c
run c (o ∷ os) = run (apply c o) os

apply-IsStore : (c : ContextStore) (o : Op) → IsStore c → IsStore (apply c o)
unfolding apply
apply-IsStore c (sets k v) d = set-IsStore c k v d
apply-IsStore c (deletes k) d = delete-IsStore c k d
apply-IsStore c (bulk_deletes p) d = bulk_delete_prefixed-IsStore c p d

-- Whatever is done to a store, its keys stay distinct and each context knows its key.
pub run-IsStore : (c : ContextStore) (os : List Op) → IsStore c → IsStore (run c os)
unfolding run
run-IsStore c [] d = d
run-IsStore c (o ∷ os) d = run-IsStore (apply c o) os (apply-IsStore c o d)

-- What stands behind "<namespace>.<export>" in the key of an export whose name goes on by `more`.
key_rest : String → List String → String
key_rest more [] = more
key_rest more (s ∷ suffix) = more +ˢ "." +ˢ join (s ∷ suffix) "."

new_key-append :
    (ns name more : String) (suffix : List String)
    → new_key ns (name +ˢ more) suffix ≡ new_key ns name [] +ˢ key_rest more suffix
unfolding new_key key_rest
new_key-append ns name more [] =
    sym (append_assoc ns ("." +ˢ name) more ∙ ap (λ t. ns +ˢ t) (append_assoc "." name more))
new_key-append ns name more (s ∷ suffix) =
    let rest = "." +ˢ join (s ∷ suffix) "." in
    ap (λ t. ns +ˢ "." +ˢ t) (append_assoc name more rest)
    ∙ sym (
        append_assoc ns ("." +ˢ name) (more +ˢ rest)
        ∙ ap (λ t. ns +ˢ t) (append_assoc "." name (more +ˢ rest)))

pub new_key-append_suffix :
    (ns name suffix more : String)
    → new_key ns name ((suffix +ˢ more) ∷ []) ≡ new_key ns name (suffix ∷ []) +ˢ more
unfolding new_key join
new_key-append_suffix ns name suffix more = sym (
    append_assoc ns ("." +ˢ name +ˢ "." +ˢ suffix) more
    ∙ ap (λ t. ns +ˢ t)
        (append_assoc "." (name +ˢ "." +ˢ suffix) more
          ∙ ap (λ t. "." +ˢ t)
              (append_assoc name ("." +ˢ suffix) more
                ∙ ap (λ t. name +ˢ t) (append_assoc "." suffix more))))

-- BulkDeletePrefixed on the key of an export removes every context of each export in that namespace
-- whose name begins with this export's name: of the export itself, and of the others too.
pub bulk_delete_prefixed-new_key :
    (c : ContextStore) (ns name more : String) (suffix : List String)
    → get (bulk_delete_prefixed c (new_key ns name [])).0 (new_key ns (name +ˢ more) suffix) ≡ none
bulk_delete_prefixed-new_key c ns name more suffix =
    get-bulk_delete_prefixed c (new_key ns name []) (new_key ns (name +ˢ more) suffix)
    ∙ rw
        (
          new_key-append ns name more suffix,
          has_prefix-append (new_key ns name []) (key_rest more suffix),
        )
        refl
