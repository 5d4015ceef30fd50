-- ===== src/Claims/Claimed.antt =====
-- IsClaimed of pkg/resources/resources.go: when an object is claimed by a selector.
use text.Mathlib.TextEquality.{eq_iff}
use mathlib.Core.List.{Memᴰ}
use mathlib.Core.List.Memᴰ.{head, tail}
use kbind.Base.{
  String, ◌≡◌, ◌≢◌, refl, ◌∙◌, ◌↔◌, inl, inr, Bool, true, false, ◌||◌, Option, none, some, List, [],
  ◌∷◌, subst, Option-cases, Result-cases, arith, Bool-cases, any, contains, ok, ◌=ˢ◌,
}
use kbind.Base.Dict.{Dict}
use kbind.Objects.{Object}
use kbind.Claims.{
  Env, Selector, SelectorReference, NamedResource, IsolationMode, isolation_namespaced,
  isolation_prefixed, isolation_none, is_claimed, is_namespaced, matches_label_selector,
  matches_named_resource, matches_named_resources, matches_references, any_reference, refers,
  name_refers, namespace_matches, trimmed,
}

pub any-Memᴰ :
    {A : Type 0} (p : A → Bool) (xs : List A) → any p xs ≡ true → (x : A) × Memᴰ x xs × (p x ≡ true)
any-Memᴰ p [] e = cc
any-Memᴰ p (x ∷ xs) e = elim (Bool-cases (p x)) [
  | inl h ↦ (x, head refl, h)
  | inr h ↦ let (y, m, q) = any-Memᴰ p xs (ground arith) in (y, tail m, q)
]

Memᴰ-any :
    {A : Type 0} (p : A → Bool) (x : A) (xs : List A) → Memᴰ x xs → p x ≡ true → any p xs ≡ true
Memᴰ-any p x [] m h = elim m [ ]
Memᴰ-any p x (y ∷ ys) (head e) h = rw (← e, h) refl
Memᴰ-any p x (y ∷ ys) (tail m) h = ground (arith, Memᴰ-any p x ys m h)

module _ {J L : Type 0} (env : Env J L) (selector : Selector L) (obj : Object J)
    (potentially_referenced : List (Object J)) (isolation : IsolationMode) where
  -- A listed object whose JSON names the object at a reference's path.
  pub record Refers (ref_obj : Object J) (ref : SelectorReference) (json : String) : Type 0 where
    pub marshalled : env.marshal_json ref_obj ≡ ok json
    pub exists : (env.gjson_get json ref.path_name).exists ≡ true
    pub named : Memᴰ obj.name (trimmed (env.gjson_get json ref.path_name))
    pub in_namespace :
        ref.path_namespace ≢ ""
        → (env.gjson_get json ref.path_namespace).exists ≡ true
        → Memᴰ obj.namespace (trimmed (env.gjson_get json ref.path_namespace))
    pub in_same_namespace :
        ref.path_namespace ≡ ""
        → isolation ≡ isolation_namespaced
        → ref_obj.namespace ≡ obj.namespace

  -- The three ways in which a selector claims an object.
  pub data Claims : Type 0 where
    by_labels :
        (l : L) (matches : Dict String → Bool)
        → selector.label_selector ≡ some l
        → env.as_selector l ≡ ok matches
        → matches obj.labels ≡ true
        → Claims
    by_name :
        (nr : NamedResource)
        → Memᴰ nr selector.named_resources
        → (nr.namespace ≢ "" → nr.namespace ≡ obj.namespace)
        → nr.name ≡ obj.name
        → Claims
    by_reference :
        (ref_obj : Object J) (ref : SelectorReference) (json : String)
        → Memᴰ ref_obj potentially_referenced
        → Memᴰ ref selector.references
        → Refers ref_obj ref json
        → Claims

module _ {J L : Type 0} (env : Env J L) (obj : Object J) (isolation : IsolationMode) where
  contains-Memᴰ : (xs : List String) (t : String) → contains xs t ≡ true → Memᴰ t xs
  contains-Memᴰ xs t e =
      let (x, m, h) = any-Memᴰ (λ x. x =ˢ t) xs e in subst (λ y. Memᴰ y xs) ((eq_iff x t).0 h) m

  Memᴰ-contains : (xs : List String) (t : String) → Memᴰ t xs → contains xs t ≡ true
  Memᴰ-contains xs t m = Memᴰ-any (λ x. x =ˢ t) t xs m ((eq_iff t t).1 refl)

  is_namespaced-eq : (i : IsolationMode) → is_namespaced i ≡ true → i ≡ isolation_namespaced
  unfolding is_namespaced
  is_namespaced-eq isolation_namespaced e = refl
  is_namespaced-eq isolation_prefixed e = cc
  is_namespaced-eq isolation_none e = cc

  namespace_matches-parts :
      (ref_obj : Object J) (ref : SelectorReference) (json : String)
      → namespace_matches env json ref_obj obj isolation ref ≡ true
      → (ref.path_namespace ≢ ""
          → (env.gjson_get json ref.path_namespace).exists ≡ true
          → contains (trimmed (env.gjson_get json ref.path_namespace)) obj.namespace ≡ true)
        × (ref.path_namespace ≡ ""
            → is_namespaced isolation ≡ true
            → ref_obj.namespace ≡ obj.namespace)
  unfolding namespace_matches
  namespace_matches-parts ref_obj ref json e = (
    λ n x. ground (arith, eq_iff ref.path_namespace ""),
    λ n x. ground (arith, eq_iff ref.path_namespace "", eq_iff ref_obj.namespace obj.namespace),
  )

  refers-Refers :
      (selector : Selector L) (items : List (Object J)) (ref_obj : Object J)
      (ref : SelectorReference) (json : String)
      → env.marshal_json ref_obj ≡ ok json
      → refers env json ref_obj obj isolation ref ≡ true
      → Refers env selector obj items isolation ref_obj ref json
  unfolding refers name_refers
  refers-Refers selector items ref_obj ref json m e =
      let names = trimmed (env.gjson_get json ref.path_name) in
      let (name, mem, both) =
        any-Memᴰ (name_refers env json ref_obj obj isolation ref) names (ground arith) in
      let (at_path, same) = namespace_matches-parts ref_obj ref json (ground arith) in
      record {
        marshalled = m;
        exists = ground arith;
        named = subst (λ t. Memᴰ t names) ((eq_iff name obj.name).0 (ground arith)) mem;
        in_namespace = λ n x. contains-Memᴰ _ obj.namespace (at_path n x);
        in_same_namespace = λ n i. same n (rw i (unfold is_namespaced in refl));
      }

  Refers-namespace_matches :
      (selector : Selector L) (items : List (Object J)) (ref_obj : Object J)
      (ref : SelectorReference) (json : String)
      → Refers env selector obj items isolation ref_obj ref json
      → namespace_matches env json ref_obj obj isolation ref ≡ true
  unfolding namespace_matches trimmed
  Refers-namespace_matches selector items ref_obj ref json r =
      elim (Bool-cases (ref.path_namespace =ˢ "")) [
        | inl e ↦ rw e (elim (Bool-cases (is_namespaced isolation)) [
          | inl i ↦ rw i (
              (eq_iff ref_obj.namespace obj.namespace).1 (
                r.in_same_namespace ((eq_iff ref.path_namespace "").0 e)
                  (is_namespaced-eq isolation i)))
          | inr i ↦ rw i refl
        ])
        | inr e ↦ rw e (elim (Bool-cases (env.gjson_get json ref.path_namespace).exists) [
          | inl x ↦ rw x (
              Memᴰ-contains _ obj.namespace
                (r.in_namespace (λ p. ground (arith, eq_iff ref.path_namespace "")) x))
          | inr x ↦ rw x refl
        ])
      ]

  Refers-refers :
      (selector : Selector L) (items : List (Object J)) (ref_obj : Object J)
      (ref : SelectorReference) (json : String)
      → Refers env selector obj items isolation ref_obj ref json
      → refers env json ref_obj obj isolation ref ≡ true
  unfolding refers name_refers trimmed
  Refers-refers selector items ref_obj ref json r =
      let names = trimmed (env.gjson_get json ref.path_name) in
      rw (r.exists) (
        Memᴰ-any (name_refers env json ref_obj obj isolation ref) obj.name names r.named (
          rw ((eq_iff obj.name obj.name).1 refl)
            (Refers-namespace_matches selector items ref_obj ref json r)))

module _ {J L : Type 0} (env : Env J L) (selector : Selector L) (obj : Object J)
    (items : List (Object J)) (isolation : IsolationMode) where
  by_labels_of :
      matches_label_selector env selector.label_selector obj ≡ true
      → Claims env selector obj items isolation
  unfolding matches_label_selector
  by_labels_of e = elim (Option-cases selector.label_selector) [
    | inl n ↦ absurd (ground (arith, n))
    | inr (l, p) ↦ elim (Result-cases (env.as_selector l)) [
      | inl (m, q) ↦ by_labels l m p q (ground (arith, p, q))
      | inr (x, q) ↦ absurd (ground (arith, p, q))
    ]
  ]

  by_name_of :
      matches_named_resources env selector.named_resources obj ≡ true
      → Claims env selector obj items isolation
  unfolding matches_named_resources
  by_name_of e =
      let (nr, mem, m) = any-Memᴰ (matches_named_resource env obj) selector.named_resources e in
      by_name nr mem
        (λ n.
          unfold matches_named_resource in
          ground (arith, eq_iff nr.namespace "", eq_iff nr.namespace obj.namespace))
        (unfold matches_named_resource in ground (arith, eq_iff nr.name obj.name))

  by_reference_of :
      matches_references env selector.references obj items isolation ≡ true
      → Claims env selector obj items isolation
  unfolding matches_references any_reference
  by_reference_of e =
      let (ref_obj, mem, m) =
        any-Memᴰ (any_reference env selector.references obj isolation) items e in
      elim (Result-cases (env.marshal_json ref_obj)) [
        | inl (json, q) ↦
            let (ref, there, r) =
              any-Memᴰ (refers env json ref_obj obj isolation) selector.references
                (ground (arith, q)) in
            by_reference ref_obj ref json mem there
              (refers-Refers env obj isolation selector items ref_obj ref json q r)
        | inr (x, q) ↦ absurd (ground (arith, q))
      ]

  no_references : (objs : List (Object J)) → matches_references env [] obj objs isolation ≡ false
  unfolding matches_references any_reference
  no_references [] = refl
  no_references (o ∷ objs) = elim (Result-cases (env.marshal_json o)) [
    | inl (json, e) ↦ rw (any_reference, e) (no_references objs)
    | inr (x, e) ↦ rw (any_reference, e) (no_references objs)
  ]

  is_claimed-any : is_claimed env selector obj items isolation ≡ (
      matches_label_selector env selector.label_selector obj
      || matches_named_resources env selector.named_resources obj
      || matches_references env selector.references obj items isolation)
  unfolding is_claimed
  is_claimed-any = go selector.label_selector selector.named_resources selector.references
    where
      go :
          (l : Option L) (n : List NamedResource) (r : List SelectorReference)
          → is_claimed env
              (record { label_selector = l; named_resources = n; references = r })
              obj
              items
              isolation
            ≡ (matches_label_selector env l obj
                || matches_named_resources env n obj
                || matches_references env r obj items isolation)
      go none [] [] =
          unfold matches_label_selector matches_named_resources in rw (no_references items) refl
      go (some l) n r = refl
      go none (x ∷ n) r = refl
      go none [] (x ∷ r) = refl

  Claims-matches :
      Claims env selector obj items isolation
      → (matches_label_selector env selector.label_selector obj
          || matches_named_resources env selector.named_resources obj
          || matches_references env selector.references obj items isolation)
        ≡ true
  unfolding matches_named_resources matches_references any_reference matches_label_selector
  Claims-matches (by_labels l m p q r) = rw (p, matches_label_selector, q, r) refl
  Claims-matches (by_name nr mem n e) =
      let here : any (matches_named_resource env obj) selector.named_resources ≡ true =
        Memᴰ-any (matches_named_resource env obj) nr selector.named_resources mem (
          unfold matches_named_resource in
          ground (
            arith,
            n,
            eq_iff nr.namespace "",
            eq_iff nr.namespace obj.namespace,
            eq_iff nr.name obj.name,
          )) in
      ground (arith, here)
  Claims-matches (by_reference ref_obj ref json mem there r) =
      let found : any_reference env selector.references obj isolation ref_obj ≡ true =
        rw (any_reference, r.marshalled)
          (Memᴰ-any (refers env json ref_obj obj isolation) ref selector.references there
            (Refers-refers env obj isolation selector items ref_obj ref json r)) in
      let here =
        Memᴰ-any (any_reference env selector.references obj isolation) ref_obj items mem found in
      ground (arith, here)

  -- An object is claimed by a selector exactly if the label selector is valid and matches its labels,
  -- a named resource has its name and no other namespace, or one of the given objects names it at the
  -- path of a reference: in its namespace where the reference has a path for that and the path
  -- exists, and in the object's own namespace where it has none under namespaced isolation.
  pub is_claimed-Claims :
      (is_claimed env selector obj items isolation ≡ true) ↔ Claims env selector obj items isolation
  is_claimed-Claims = (
    λ e. elim (Bool-cases (matches_label_selector env selector.label_selector obj)) [
      | inl l ↦ by_labels_of l
      | inr l ↦ elim (Bool-cases (matches_named_resources env selector.named_resources obj)) [
        | inl n ↦ by_name_of n
        | inr n ↦ by_reference_of (ground (arith, is_claimed-any, l, n, e))
      ]
    ],
    λ c. is_claimed-any ∙ Claims-matches c,
  )
