-- ===== src/ServiceNamespaces/Collisions.antt =====
-- servicenamespace_reconcile.go: the assigned namespaces of two cluster namespaces.
use text.Mathlib.TextLemmas.{append_assoc}
use kbind.Base.{String, ◌≡◌, refl, ◌∙◌, sym, ap, List, ◌∷◌, ok, done}
use kbind.Isolation.{ServiceNamespace}
use kbind.ServiceNamespaces.{
  Namespace, Call, Server, get_namespace, namespace_name, settled, ensure_namespace,
  reconcile_named, reconcile,
}
use Prim.Native.String.{◌++◌ as ◌+ˢ◌}

abbrev pub unassigned : String → String → ServiceNamespace
unassigned namespace name = record { namespace = namespace; name = name; status_namespace = "" }

joined_twice : (a b c : String) → (a +ˢ "-" +ˢ (b +ˢ "-" +ˢ c)) ≡ ((a +ˢ "-" +ˢ b) +ˢ "-" +ˢ c)
joined_twice a b c =
    sym (append_assoc a ("-" +ˢ b) ("-" +ˢ c) ∙ ap (λ t. a +ˢ t) (append_assoc "-" b ("-" +ˢ c)))

-- Under the prefixed isolation, where a namespace of the name exists already, the backend assigns it
-- to the APIServiceNamespace "b-c" of the cluster namespace "a" and to "c" of "a-b" alike, with one
-- read each and no look at the annotation that names the owner, for all texts a, b and c.
pub reconcile-shared :
    (server : Server) (a b c : String) (owned : Namespace) (h : List Call)
    → let name : String = a +ˢ "-" +ˢ (b +ˢ "-" +ˢ c) in
      let first : ServiceNamespace = unassigned a (b +ˢ "-" +ˢ c) in
      let second : ServiceNamespace = unassigned (a +ˢ "-" +ˢ b) c in
      server.got h name ≡ ok owned
      → (reconcile "Prefixed" server first h
          ≡ ((done, record first { status_namespace = name }), get_namespace name ∷ h))
        × (reconcile "Prefixed" server second h
            ≡ ((done, record second { status_namespace = name }), get_namespace name ∷ h))
unfolding reconcile namespace_name reconcile_named ensure_namespace settled
reconcile-shared server a b c owned h e = (rw e refl, rw (← joined_twice a b c, e) refl)
