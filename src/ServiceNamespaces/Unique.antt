-- ===== src/ServiceNamespaces/Unique.antt =====
-- servicenamespace_reconcile.go: the assigned namespaces of a cluster namespace, over histories of
-- creations and reconciliations.
use text.Mathlib.TextEquality.{eq_iff}
use kbind.Base.{
  String, ◌≡◌, ◌≢◌, refl, ◌∙◌, sym, ap, ◌⊎◌, inl, inr, List, [], ◌∷◌, map, arith, All, ◌&&◌,
  Bool-cases, Result, ok, err, not_found, already_exists, invalid, other, Outcome, done,
  if◌then◌else◌, ◌=ˢ◌,
}
use kbind.Base.Text.{trim_prefix, trim_prefix-append}
use kbind.Isolation.{ServiceNamespace}
use kbind.Isolation.Cache.{AssignsOnce}
use kbind.ServiceNamespaces.{
  Namespace, Call, get_namespace, Server, new_namespace, namespace_name, settled, ensure_namespace,
  reconcile_named, reconcile,
}
use Prim.Native.String.{◌++◌ as ◌+ˢ◌}

-- Nothing is assigned, or the name that the isolation gives.
abbrev pub IsAssigned : String → ServiceNamespace → Type 0
IsAssigned isolation sns =
    (sns.status_namespace ≡ "")
    ⊎ (namespace_name isolation (record sns { status_namespace = "" }) ≡ ok sns.status_namespace)

module _ (isolation : String) (server : Server) where
  settled-IsAssigned :
      (o : Outcome) (name : String) (sns : ServiceNamespace)
      → IsAssigned isolation sns
      → namespace_name isolation (record sns { status_namespace = "" }) ≡ ok name
      → IsAssigned isolation (settled o name sns).1
  unfolding settled
  settled-IsAssigned (ok _) name sns a e = inr e
  settled-IsAssigned (err already_exists) name sns a e = inr e
  settled-IsAssigned (err not_found) name sns a e = a
  settled-IsAssigned (err invalid) name sns a e = a
  settled-IsAssigned (err (other _)) name sns a e = a

  ensure_namespace-IsAssigned :
      (got : Result Namespace) (name : String) (sns : ServiceNamespace) (h : List Call)
      → IsAssigned isolation sns
      → namespace_name isolation (record sns { status_namespace = "" }) ≡ ok name
      → IsAssigned isolation (ensure_namespace isolation server got name sns h).0.1
  unfolding ensure_namespace
  ensure_namespace-IsAssigned (ok _) name sns h a e = settled-IsAssigned done name sns a e
  ensure_namespace-IsAssigned (err _) name sns h a e =
      settled-IsAssigned (server.created h (new_namespace name sns)) name sns a e

  same_name :
      (sns : ServiceNamespace)
      → IsAssigned isolation sns
      → namespace_name isolation sns
        ≡ namespace_name isolation (record sns { status_namespace = "" })
  unfolding namespace_name
  same_name sns (inl e) = ground (arith, eq_iff sns.status_namespace "")
  same_name sns (inr e) = elim (Bool-cases (sns.status_namespace =ˢ "")) [
    | inl t ↦ rw t refl
    | inr t ↦ rw t (sym e)
  ]

  reconcile_named-IsAssigned :
      (name : Result String) (sns : ServiceNamespace) (h : List Call)
      → IsAssigned isolation sns
      → namespace_name isolation (record sns { status_namespace = "" }) ≡ name
      → IsAssigned isolation (reconcile_named isolation server name sns h).0.1
  unfolding reconcile_named
  reconcile_named-IsAssigned (ok name) sns h a e =
      ensure_namespace-IsAssigned (server.got h name) name sns (get_namespace name ∷ h) a e
  reconcile_named-IsAssigned (err x) sns h a e = a

  reconcile-IsAssigned :
      (sns : ServiceNamespace) (h : List Call)
      → IsAssigned isolation sns
      → IsAssigned isolation (reconcile isolation server sns h).0.1
  unfolding reconcile
  reconcile-IsAssigned sns h a =
      reconcile_named-IsAssigned (namespace_name isolation sns) sns h a (sym (same_name sns a))

-- Equal names behind the same cluster namespace are equal.
same_behind : (ns a b : String) → (ns +ˢ "-" +ˢ a) ≡ (ns +ˢ "-" +ˢ b) → a ≡ b
same_behind ns a b e =
    sym (trim_prefix-append "-" a)
    ∙ ap (λ t. trim_prefix t "-")
        (sym (trim_prefix-append ns ("-" +ˢ a))
          ∙ ap (λ t. trim_prefix t ns) e
          ∙ trim_prefix-append ns ("-" +ˢ b))
    ∙ trim_prefix-append "-" b

name_of-same :
    (isolation cn a b x : String)
    → namespace_name isolation (record { namespace = cn; name = a; status_namespace = "" }) ≡ ok x
    → namespace_name isolation (record { namespace = cn; name = b; status_namespace = "" }) ≡ ok x
    → a ≡ b
unfolding namespace_name
name_of-same isolation cn a b x e f = elim (Bool-cases (isolation =ˢ "None")) [
  | inl t ↦ ground arith
  | inr t ↦ same_behind cn a b (ground arith)
]

IsAssigned-same :
    (isolation cn : String) (s t : ServiceNamespace)
    → IsAssigned isolation s
    → IsAssigned isolation t
    → s.namespace ≡ cn
    → t.namespace ≡ cn
    → s.status_namespace ≡ t.status_namespace
    → s.status_namespace ≢ ""
    → s.name ≡ t.name
IsAssigned-same isolation cn s t (inl e) b p q w n = absurd (n e)
IsAssigned-same isolation cn s t (inr e) (inl f) p q w n = absurd (n (w ∙ f))
IsAssigned-same isolation cn s t (inr e) (inr f) p q w n =
    name_of-same isolation cn s.name t.name s.status_namespace
      (ap
          (λ x.
            namespace_name isolation
              (record { namespace = x; name = s.name; status_namespace = "" }))
          (sym p)
        ∙ e)
      (ap
          (λ x.
            namespace_name isolation
              (record { namespace = x; name = t.name; status_namespace = "" }))
          (sym q)
        ∙ f
        ∙ ap ok (sym w))

IsAssigned-AssignsOnce :
    (isolation cn : String) (all : List ServiceNamespace)
    → All (IsAssigned isolation) all
    → AssignsOnce cn all
IsAssigned-AssignsOnce isolation cn [] a = tt
IsAssigned-AssignsOnce isolation cn (s ∷ rest) (a, later) =
    (with_rest rest later, IsAssigned-AssignsOnce isolation cn rest later)
  where
    with_rest :
        (rest : List ServiceNamespace)
        → All (IsAssigned isolation) rest
        → All
            (λ t.
              s.namespace ≡ cn
              → t.namespace ≡ cn
              → s.status_namespace ≡ t.status_namespace
              → s.status_namespace ≢ ""
              → s.name ≡ t.name)
            rest
    with_rest [] bs = tt
    with_rest (t ∷ ts) (b, bs) = (IsAssigned-same isolation cn s t a b, with_rest ts bs)

-- An APIServiceNamespace is created, or reconciled by the backend, whose server answers anything.
pub data Event : Type 0 where
  created_sns : (namespace name : String) → Event
  reconciled_sns : Server → (namespace name : String) → Event

unfoldable pub reconcile_if :
    String → Server → String → String → ServiceNamespace → ServiceNamespace
reconcile_if isolation server namespace name sns =
    if (sns.namespace =ˢ namespace) && (sns.name =ˢ name)
    then (reconcile isolation server sns []).0.1
    else sns

unfoldable pub handle : String → List ServiceNamespace → Event → List ServiceNamespace
unfolding reconcile_if
handle isolation all (created_sns namespace name) =
    record { namespace = namespace; name = name; status_namespace = "" } ∷ all
handle isolation all (reconciled_sns server namespace name) =
    map (reconcile_if isolation server namespace name) all

unfoldable pub run : String → List ServiceNamespace → List Event → List ServiceNamespace
unfolding handle
run isolation all [] = all
run isolation all (e ∷ es) = run isolation (handle isolation all e) es

map-Assigned :
    (isolation : String) (server : Server) (namespace name : String) (all : List ServiceNamespace)
    → All (IsAssigned isolation) all
    → All (IsAssigned isolation) (map (reconcile_if isolation server namespace name) all)
unfolding reconcile_if
map-Assigned isolation server namespace name [] a = tt
map-Assigned isolation server namespace name (s ∷ rest) (a, later) = (
  elim (Bool-cases ((s.namespace =ˢ namespace) && (s.name =ˢ name))) [
    | inl e ↦ rw e (reconcile-IsAssigned isolation server s [] a)
    | inr e ↦ rw e a
  ],
  map-Assigned isolation server namespace name rest later,
)

run-Assigned :
    (isolation : String) (all : List ServiceNamespace) (es : List Event)
    → All (IsAssigned isolation) all
    → All (IsAssigned isolation) (run isolation all es)
unfolding run handle
run-Assigned isolation all [] a = a
run-Assigned isolation all (created_sns namespace name ∷ es) a =
    run-Assigned isolation (handle isolation all (created_sns namespace name)) es (inl refl, a)
run-Assigned isolation all (reconciled_sns server namespace name ∷ es) a =
    run-Assigned isolation (handle isolation all (reconciled_sns server namespace name)) es
      (map-Assigned isolation server namespace name all a)

-- After any history of creations and reconciliations, whatever the servers answer and under every
-- isolation, no two APIServiceNamespaces of one cluster namespace that have a namespace assigned share
-- it. This is what the translation of keys relies on.
pub run-AssignsOnce :
    (isolation cn : String) (es : List Event) → AssignsOnce cn (run isolation [] es)
run-AssignsOnce isolation cn es =
    IsAssigned-AssignsOnce isolation cn (run isolation [] es) (run-Assigned isolation [] es tt)
