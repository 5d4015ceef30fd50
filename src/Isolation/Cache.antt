-- ===== src/Isolation/Cache.antt =====
-- The namespaced strategy over the informer's cache of APIServiceNamespaces, with the index of
-- pkg/indexers by the assigned namespace.
use text.Mathlib.TextEquality.{eq_iff}
use kbind.Base.{
  String, ◌≡◌, ◌≢◌, ◌∙◌, Bool, ◌&&◌, some, List, [], ◌∷◌, if◌then◌else◌, Result, ok, err, not_found,
  ◌=ˢ◌, arith, All, Bool-cases, inl, inr, contains,
}
use kbind.Base.Exec.{Exec, ◌>>=◌}
use kbind.Objects.{NamespacedName}
use kbind.Isolation.{
  ServiceNamespace, service_namespaced, ServiceNamespaces, to_provider_key, to_consumer_key,
  key_if_ready, first_in,
}

unfoldable pub index_service_namespace_by_namespace : ServiceNamespace → List String
index_service_namespace_by_namespace sn =
    if sn.status_namespace =ˢ "" then [] else sn.status_namespace ∷ []

unfoldable pub find_in : List ServiceNamespace → String → String → Result ServiceNamespace
find_in [] namespace name = err not_found
find_in (sn ∷ rest) namespace name =
    if (sn.namespace =ˢ namespace) && (sn.name =ˢ name) then ok sn else find_in rest namespace name

is_indexed : String → ServiceNamespace → Bool
unfolding index_service_namespace_by_namespace
is_indexed namespace sn = contains (index_service_namespace_by_namespace sn) namespace

pub indexed_under : String → List ServiceNamespace → List ServiceNamespace
unfolding is_indexed
indexed_under namespace [] = []
indexed_under namespace (sn ∷ rest) =
    if is_indexed namespace sn
    then sn ∷ indexed_under namespace rest
    else indexed_under namespace rest

is_indexed_eq :
    (namespace : String) (sn : ServiceNamespace)
    → namespace ≢ ""
    → is_indexed namespace sn ≡ (sn.status_namespace =ˢ namespace)
unfolding is_indexed
is_indexed_eq namespace sn n =
    ground (arith, eq_iff sn.status_namespace "", eq_iff sn.status_namespace namespace)

-- A cache that does not change while a key is translated; what `creator` answers is any function.
abbrev pub cached :
    {C : Type 0} → List ServiceNamespace → (String → Exec C ServiceNamespace) → ServiceNamespaces C
cached all creator = record {
  lister_get = λ namespace name h. (find_in all namespace name, h);
  by_index = λ namespace h. (ok (indexed_under namespace all), h);
  creator = creator;
}

-- Two APIServiceNamespaces of the cluster namespace with the same assigned namespace are the same.
abbrev SameIfAssigned : String → ServiceNamespace → ServiceNamespace → Type 0
SameIfAssigned cn s t =
    s.namespace ≡ cn
    → t.namespace ≡ cn
    → s.status_namespace ≡ t.status_namespace
    → s.status_namespace ≢ ""
    → s.name ≡ t.name

abbrev pub AssignsOnce : String → List ServiceNamespace → Type 0
AssignsOnce cn [] = Unit
AssignsOnce cn (s ∷ rest) = All (SameIfAssigned cn s) rest × AssignsOnce cn rest

-- What is found in a list has each property that all its elements have.
All-find_in :
    (P : ServiceNamespace → Type 0) (all : List ServiceNamespace) (cn name : String)
    (sn : ServiceNamespace)
    → All P all
    → find_in all cn name ≡ ok sn
    → P sn × (sn.namespace ≡ cn) × (sn.name ≡ name)
unfolding find_in
All-find_in P [] cn name sn a f = cc
All-find_in P (t ∷ rest) cn name sn a f =
    elim (Bool-cases ((t.namespace =ˢ cn) && (t.name =ˢ name))) [
      | inl e ↦
          let same : t ≡ sn = ground arith in
          rw (← same) (
            a.0,
            ground (arith, eq_iff t.namespace cn),
            ground (arith, eq_iff t.namespace cn, eq_iff t.name name),
          )
      | inr e ↦ All-find_in P rest cn name sn a.1 (ground arith)
    ]

first_in-cons :
    (cn ns : String) (t : ServiceNamespace) (rest : List ServiceNamespace)
    → ns ≢ ""
    → first_in cn (indexed_under ns (t ∷ rest)) ≡ (
        if (t.status_namespace =ˢ ns) && (t.namespace =ˢ cn)
        then t.name
        else first_in cn (indexed_under ns rest))
unfolding first_in indexed_under
first_in-cons cn ns t rest n = ground (arith, is_indexed_eq ns t n)

first_in-indexed_under :
    (cn name : String) (all : List ServiceNamespace) (sn : ServiceNamespace)
    → AssignsOnce cn all
    → sn.status_namespace ≢ ""
    → find_in all cn name ≡ ok sn
    → first_in cn (indexed_under sn.status_namespace all) ≡ name
unfolding find_in
first_in-indexed_under cn name [] sn u n f = cc
first_in-indexed_under cn name (t ∷ rest) sn u n f =
    elim (Bool-cases ((t.namespace =ˢ cn) && (t.name =ˢ name))) [
      | inl e ↦
          let same : t ≡ sn = ground arith in
          first_in-cons cn sn.status_namespace t rest n
          ∙ rw (← same) (
              ground (
                arith,
                eq_iff t.status_namespace t.status_namespace,
                eq_iff t.namespace cn,
                eq_iff t.name name,
              ))
      | inr e ↦
          let found : find_in rest cn name ≡ ok sn = ground arith in
          let (here, in_cn, named) = All-find_in (SameIfAssigned cn t) rest cn name sn u.0 found in
          first_in-cons cn sn.status_namespace t rest n
          ∙ ground (
            arith,
            first_in-indexed_under cn name rest sn u.1 n found,
            here,
            in_cn,
            named,
            eq_iff t.status_namespace sn.status_namespace,
            eq_iff t.namespace cn,
            eq_iff t.name name,
          )
    ]

-- Over a cache in which no assigned namespace is shared within the cluster namespace: a key whose
-- APIServiceNamespace is there and ready is translated to the assigned namespace, and that key is
-- translated back to it.
pub cached-to_consumer_key-to_provider_key :
    {C : Type 0} (all : List ServiceNamespace) (creator : String → Exec C ServiceNamespace)
    (cn : String) (key : NamespacedName) (sn : ServiceNamespace) (h : List C)
    → AssignsOnce cn all
    → find_in all cn key.namespace ≡ ok sn
    → sn.status_namespace ≢ ""
    → key.namespace ≢ ""
    → let p : NamespacedName = record { namespace = sn.status_namespace; name = key.name } in
      (to_provider_key (cached all creator) (service_namespaced cn) key h ≡ (ok (some p), h))
      × (to_consumer_key (cached all creator) (service_namespaced cn) p h ≡ (ok (some key), h))
unfolding to_provider_key to_consumer_key ◌>>=◌
cached-to_consumer_key-to_provider_key all creator cn key sn h u f n m = (
  rw (f, key_if_ready) (ground (arith, eq_iff sn.status_namespace "")),
  rw (first_in-indexed_under cn key.namespace all sn u n f)
      (ground (arith, eq_iff key.namespace "")),
)
