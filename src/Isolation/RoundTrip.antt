-- ===== src/Isolation/RoundTrip.antt =====
-- isolation/*.go: translating a key to the provider and back.
use text.Mathlib.TextEquality.{eq_iff}
use text.Mathlib.TextLemmas.{append_assoc}
use kbind.Base.{String, ◌≡◌, refl, some, List, ok, arith}
use kbind.Base.Text.{has_prefix-append, trim_prefix-append}
use kbind.Objects.{NamespacedName}
use kbind.Isolation.{
  Strategy, none_strategy, prefixed, namespaced, service_namespaced, ServiceNamespaces,
  to_provider_key, to_consumer_key,
}
use Prim.Native.String.{◌++◌ as ◌+ˢ◌}

-- The strategies for objects that are cluster-scoped at the consumer.
abbrev pub IsForClusterScoped : Strategy → Type 0
IsForClusterScoped (service_namespaced _) = ⊥
IsForClusterScoped _ = Unit

module _ {C : Type 0} (sns : ServiceNamespaces C) where
  -- A key without a namespace is translated to the provider and back to itself by every strategy
  -- for cluster-scoped objects, with no call of the API server.
  pub to_consumer_key-to_provider_key :
      (s : Strategy) (name : String) (h : List C)
      → IsForClusterScoped s
      → (p : NamespacedName) × (to_provider_key sns s (record { namespace = ""; name = name }) h
          ≡ (ok (some p), h))
        × (to_consumer_key sns s p h ≡ (ok (some (record { namespace = ""; name = name })), h))
  unfolding to_provider_key to_consumer_key
  to_consumer_key-to_provider_key (none_strategy cn uid) name h c = (_, refl, refl)
  to_consumer_key-to_provider_key (prefixed cn uid) name h c = (
    _,
    refl,
    rw (
      ← append_assoc cn "-" name,
      has_prefix-append (cn +ˢ "-") name,
      trim_prefix-append (cn +ˢ "-") name,
    ),
  )
  to_consumer_key-to_provider_key (namespaced cn) name h c = (_, refl, ground (arith, eq_iff cn cn))
  to_consumer_key-to_provider_key (service_namespaced cn) name h c = absurd c
