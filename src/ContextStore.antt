-- ===== src/ContextStore.antt =====
-- pkg/konnector/controllers/contextstore/contextstore.go: the contexts of the running syncers, by
-- the key "<export namespace>.<export name>[.<suffix>...]". The mutex makes each method one step.
pub mod Bulk
pub mod Invariant
use kbind.Base.{
  ℕ, String, Bool, true, false, Option, none, some, List, [], ◌∷◌, ◌++◌, map, if◌then◌else◌,
}
use kbind.Base.Text.{has_prefix}
use kbind.Base.Dict.{Dict, lookup, insert, remove}
use Prim.Native.String.{◌++◌ as ◌+ˢ◌}

-- strings.Join
unfoldable pub join : List String → String → String
join [] sep = ""
join (s ∷ []) sep = s
join (s ∷ t ∷ rest) sep = s +ˢ sep +ˢ join (t ∷ rest) sep

unfoldable pub new_key : String → String → List String → String
new_key export_namespace export_name [] = export_namespace +ˢ "." +ˢ export_name
new_key export_namespace export_name (s ∷ suffix) =
    export_namespace +ˢ "." +ˢ export_name +ˢ "." +ˢ join (s ∷ suffix) "."

-- `cancel` is the identity of the context's cancel function.
pub record SyncContext : Type 0 where
  pub key : String
  pub generation : ℕ
  pub cancel : ℕ

-- `cancelled` lists the cancel functions that the store has called, the newest last.
pub record ContextStore : Type 0 where
  pub store : Dict SyncContext
  pub cancelled : List ℕ

abbrev pub new : ContextStore
new = record { store = []; cancelled = [] }

unfoldable pub get : ContextStore → String → Option SyncContext
get c key = lookup key c.store

-- The entries whose key has the prefix.
unfoldable pub entries_prefixed : String → Dict SyncContext → Dict SyncContext
entries_prefixed prefix [] = []
entries_prefixed prefix ((k, v) ∷ m) =
    if has_prefix k prefix then (k, v) ∷ entries_prefixed prefix m else entries_prefixed prefix m

-- The map's iteration order is any; here it is the list's.
unfoldable pub list_prefixed : ContextStore → String → List SyncContext
unfolding entries_prefixed
list_prefixed c prefix = map (λ e. e.1) (entries_prefixed prefix c.store)

unfoldable pub set : ContextStore → String → SyncContext → ContextStore
set c key value = record c { store = insert key (record value { key = key }) c.store }

unfoldable pub cancel_found : Option SyncContext → List ℕ → List ℕ
cancel_found none cancelled = cancelled
cancel_found (some v) cancelled = cancelled ++ v.cancel ∷ []

-- The deferred call of `Cancel` and the deletion, both only if the key is there.
unfoldable pub delete : ContextStore → String → ContextStore
unfolding cancel_found
delete c key = record c {
  store = remove key c.store;
  cancelled = cancel_found (lookup key c.store) c.cancelled;
}

-- The second loop of BulkDeletePrefixed. Its keys come from the map, so each is found.
unfoldable pub delete_keys : List String → ContextStore → ContextStore
unfolding delete
delete_keys [] c = c
delete_keys (k ∷ ks) c = delete_keys ks (delete c k)

unfoldable pub bulk_delete_prefixed : ContextStore → String → ContextStore × List SyncContext
unfolding entries_prefixed delete_keys list_prefixed
bulk_delete_prefixed c prefix =
    (delete_keys (map (λ e. e.0) (entries_prefixed prefix c.store)) c, list_prefixed c prefix)
