-- ===== src/Tests/Stores.antt =====
-- Runs of the context store and of the isolation strategies.
use kbind.Base.{ℕ, String, ◌≡◌, refl, some, List, [], ◌∷◌, ◌++◌, map, ok, err, not_found}
use kbind.Base.Dict.{lookup}
use kbind.Base.Exec.{Exec}
use kbind.Objects.{NamespacedName}
use kbind.ContextStore.{ContextStore, bulk_delete_prefixed, list_prefixed}
use kbind.ContextStore.Bulk.{IsStore, cancelled-bulk_delete_prefixed}
use kbind.Isolation.{ServiceNamespace, prefixed, to_provider_key, to_consumer_key}
use kbind.Isolation.RoundTrip.{to_consumer_key-to_provider_key}
use kbind.Isolation.Cache.{cached}

abbrev two : ContextStore
two = record {
  store =
      ("ns.db.spec", record { key = "ns.db.spec"; generation = 1; cancel = 1 })
      ∷ ("ns.dbs.spec", record { key = "ns.dbs.spec"; generation = 1; cancel = 2 })
      ∷ [];
  cancelled = [];
}

two-IsStore : IsStore two
unfolding lookup
two-IsStore = record { distinct = (refl, refl, (refl, refl, tt)) }

cancelled-bulk_delete_prefixed_example :
    ((bulk_delete_prefixed two "ns.db").0.cancelled
      ≡ [] ++ map (λ v. v.cancel) (bulk_delete_prefixed two "ns.db").1)
    × ((bulk_delete_prefixed two "ns.db").1 ≡ list_prefixed two "ns.db")
cancelled-bulk_delete_prefixed_example = cancelled-bulk_delete_prefixed two "ns.db" two-IsStore

abbrev ready : ServiceNamespace
ready = record { namespace = "cn"; name = "team"; status_namespace = "cn-team" }

abbrev other_consumer : ServiceNamespace
other_consumer = record { namespace = "cn2"; name = "team"; status_namespace = "cn2-team" }

abbrev cache : List ServiceNamespace
cache = other_consumer ∷ ready ∷ []

abbrev creator : String → Exec ℕ ServiceNamespace
creator name h = (err not_found, h)

to_consumer_key-to_provider_key_example :
    (p : NamespacedName) × (to_provider_key
        (cached {C = ℕ} cache creator)
        (prefixed "cn" "uid")
        (record { namespace = ""; name = "db" })
        []
      ≡ (ok (some p), []))
    × (to_consumer_key (cached {C = ℕ} cache creator) (prefixed "cn" "uid") p []
        ≡ (ok (some (record { namespace = ""; name = "db" })), []))
to_consumer_key-to_provider_key_example =
    to_consumer_key-to_provider_key (cached {C = ℕ} cache creator) (prefixed "cn" "uid") "db" [] tt
