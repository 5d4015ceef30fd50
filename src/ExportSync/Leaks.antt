-- ===== src/ExportSync/Leaks.antt =====
-- serviceexport_reconcile.go: what becomes of each context that is made, over histories of
-- reconciliations and of goroutines that end.
use text.Mathlib.TextEquality.{eq_iff}
use text.Mathlib.TextPositions.{eq_refl}
use kbind.Base.{
  ℕ, ◌<◌, String, ◌≡◌, refl, ◌∙◌, sym, Bool, true, false, ◌||◌, Option, none, some, List, [], ◌∷◌,
  ◌++◌, arith, inl, inr, ◌⊎◌, Bool-cases, Option-cases, if◌then◌else◌, any, eqb, ◌=ˢ◌,
}
use kbind.Base.Dict.{lookup, lookup-insert, lookup-remove}
use kbind.ContextStore.{SyncContext, ContextStore, new, get, set, delete, cancel_found}
use kbind.ExportSync.{Export, Server}
use kbind.ExportSync.Controllers.{
  State, with_store, start_context, ensure_controllers, claim_goroutine_ended,
}
use kbind.ExportSync.Keeps.{IsStable, ensure_controllers-Keeps}

any-append_last : (p : ℕ → Bool) (xs : List ℕ) (y : ℕ) → any p (xs ++ y ∷ []) ≡ (any p xs || p y)
any-append_last p [] y = ground arith
any-append_last p (x ∷ xs) y = ground (arith, any-append_last p xs y)

-- Whether a context was cancelled.
abbrev pub is_cancelled : ContextStore → ℕ → Bool
is_cancelled c i = any (eqb i) c.cancelled

get-delete :
    (c : ContextStore) (k j : String) → get (delete c k) j ≡ (if k =ˢ j then none else get c j)
unfolding get delete
get-delete c k j = lookup-remove k j c.store

get-set :
    (c : ContextStore) (k j : String) (v : SyncContext)
    → get (set c k v) j ≡ (if k =ˢ j then some (record v { key = k }) else get c j)
unfolding get set
get-set c k j v = lookup-insert k j (record v { key = k }) c.store

module _ (c : ContextStore) (k : String) where
  is_cancelled-delete-none :
      (i : ℕ) → get c k ≡ none → is_cancelled (delete c k) i ≡ is_cancelled c i
  unfolding delete cancel_found get
  is_cancelled-delete-none i e = rw e refl

  is_cancelled-delete-some :
      (i : ℕ) (v : SyncContext)
      → get c k ≡ some v
      → is_cancelled (delete c k) i ≡ (is_cancelled c i || eqb i v.cancel)
  unfolding delete cancel_found get
  is_cancelled-delete-some i v e = rw e (any-append_last (eqb i) c.cancelled v.cancel)

is_cancelled-set :
    (c : ContextStore) (k : String) (v : SyncContext) (i : ℕ)
    → is_cancelled (set c k v) i ≡ is_cancelled c i
unfolding set
is_cancelled-set c k v i = refl

-- A context that is in the store under some key.
abbrev pub IsStored : ContextStore → ℕ → Type 0
IsStored c i = (k : String) × (v : SyncContext) × (get c k ≡ some v) × (v.cancel ≡ i)

-- Each context that was made is in the store or was cancelled, not both, and in the store at most
-- once.
pub record NoLeak (s : State) : Type 0 where
  pub tracked :
      (i : ℕ) → i < s.contexts → (is_cancelled s.sync_store i ≡ true) ⊎ IsStored s.sync_store i
  pub alive :
      (k : String) (v : SyncContext)
      → get s.sync_store k ≡ some v
      → is_cancelled s.sync_store v.cancel ≡ false
  pub known : (k : String) (v : SyncContext) → get s.sync_store k ≡ some v → v.cancel < s.contexts
  pub cancelled_known : (i : ℕ) → is_cancelled s.sync_store i ≡ true → i < s.contexts
  pub unique :
      (k j : String) (v w : SyncContext)
      → get s.sync_store k ≡ some v
      → get s.sync_store j ≡ some w
      → v.cancel ≡ w.cancel
      → k ≡ j

module _ (key : String) (s : State) (l : NoLeak s) where
  delete-none-NoLeak : get s.sync_store key ≡ none → NoLeak (with_store s (delete s.sync_store key))
  delete-none-NoLeak e =
      let c = s.sync_store in
      record {
        tracked = λ i b. elim (l.tracked i b) [
          | inl x ↦ inl (is_cancelled-delete-none c key i e ∙ x)
          | inr (k, v, g, q) ↦ inr (k, v, ground (arith, get-delete c key k, eq_iff key k), q)
        ];
        alive = λ k v g.
            ground
              (arith, get-delete c key k, is_cancelled-delete-none c key v.cancel e, l.alive k v);
        known = λ k v g. ground (arith, get-delete c key k, l.known k v);
        cancelled_known = λ i h. l.cancelled_known i (sym (is_cancelled-delete-none c key i e) ∙ h);
        unique = λ k j v w g h q.
            ground (arith, get-delete c key k, get-delete c key j, l.unique k j v w);
      }

  delete-some-NoLeak :
      (v : SyncContext)
      → get s.sync_store key ≡ some v
      → NoLeak (with_store s (delete s.sync_store key))
  delete-some-NoLeak v e =
      let c = s.sync_store in
      let cancels : (i : ℕ) → is_cancelled (delete c key) i ≡ (is_cancelled c i || eqb i v.cancel) =
        λ i. is_cancelled-delete-some c key i v e in
      record {
        tracked = λ i b. elim (l.tracked i b) [
          | inl x ↦ inl (ground (arith, cancels i))
          | inr (k, w, g, q) ↦ elim (Bool-cases (key =ˢ k)) [
            | inl t ↦ inl (ground (arith, cancels i, eq_iff key k))
            | inr t ↦ inr (k, w, ground (arith, get-delete c key k), q)
          ]
        ];
        alive = λ k w g. ground (
          arith,
          get-delete c key k,
          cancels w.cancel,
          l.alive k w,
          l.unique key k v w,
          eq_iff key k,
        );
        known = λ k w g. ground (arith, get-delete c key k, l.known k w);
        cancelled_known = λ i h. ground (arith, cancels i, l.cancelled_known i, l.known key v);
        unique = λ k j u w g h q.
            ground (arith, get-delete c key k, get-delete c key j, l.unique k j u w);
      }

  pub delete-NoLeak : NoLeak (with_store s (delete s.sync_store key))
  delete-NoLeak = elim (Option-cases (get s.sync_store key)) [
    | inl e ↦ delete-none-NoLeak e
    | inr (v, e) ↦ delete-some-NoLeak v e
  ]

  start_context-NoLeak :
      (generation : ℕ) → get s.sync_store key ≡ none → NoLeak (start_context key generation s)
  unfolding start_context
  start_context-NoLeak generation n =
      let x : SyncContext = record { key = ""; generation = generation; cancel = s.contexts } in
      let c = set s.sync_store key x in
      let sets : (j : String)
          → get c j ≡ (if key =ˢ j then some (record x { key = key }) else get s.sync_store j) =
        λ j. get-set s.sync_store key j x in
      let cancels : (i : ℕ) → is_cancelled c i ≡ is_cancelled s.sync_store i =
        λ i. is_cancelled-set s.sync_store key x i in
      let fresh : is_cancelled s.sync_store s.contexts ≡ false =
        ground (arith, l.cancelled_known s.contexts) in
      record {
        tracked = λ i b. elim (Bool-cases (eqb i s.contexts)) [
          | inl t ↦
              inr (key, record x { key = key }, sets key ∙ rw (eq_refl key) refl, ground arith)
          | inr t ↦ elim (l.tracked i (ground arith)) [
            | inl y ↦ inl (cancels i ∙ y)
            | inr (k, w, g, q) ↦ inr (k, w, ground (arith, sets k, eq_iff key k), q)
          ]
        ];
        alive = λ k v g. ground (arith, sets k, cancels v.cancel, l.alive k v, fresh);
        known = λ k v g. ground (arith, sets k, l.known k v);
        cancelled_known = λ i h. ground (arith, cancels i, l.cancelled_known i);
        unique = λ k j v w g h q. ground (
          arith,
          sets k,
          sets j,
          l.unique k j v w,
          l.known k v,
          l.known j w,
          eq_iff key k,
          eq_iff key j,
        );
      }

NoLeak-IsStable : IsStable NoLeak
NoLeak-IsStable = record {
  calls = λ s h l. record {
    tracked = l.tracked;
    alive = l.alive;
    known = l.known;
    cancelled_known = l.cancelled_known;
    unique = l.unique;
  };
  starts = λ key generation s n l. start_context-NoLeak key s l generation n;
  deletes = λ key s l. delete-NoLeak key s l;
}

-- A reconciliation of an export, with what its servers answer, and the end of the goroutine of a
-- claim's controller.
pub data Event : Type 0 where
  reconciled : (server : Server) (namespace name : String) → Option Export → Event
  goroutine_ended : (key : String) → Event

unfoldable pub handle : String → State → Event → State
unfolding claim_goroutine_ended
handle cluster_namespace s (reconciled server namespace name export) =
    (ensure_controllers cluster_namespace server namespace name export s).1
handle cluster_namespace s (goroutine_ended key) = claim_goroutine_ended key s

unfoldable pub run : String → State → List Event → State
unfolding handle
run cluster_namespace s [] = s
run cluster_namespace s (e ∷ es) = run cluster_namespace (handle cluster_namespace s e) es

-- At the start no context was made.
abbrev pub initial : State
initial = record { sync_store = new; contexts = 0; calls = [] }

handle-NoLeak :
    (cluster_namespace : String) (s : State) (e : Event)
    → NoLeak s
    → NoLeak (handle cluster_namespace s e)
unfolding handle claim_goroutine_ended
handle-NoLeak cluster_namespace s (reconciled server namespace name export) l =
    ensure_controllers-Keeps NoLeak-IsStable cluster_namespace server namespace name export s l
handle-NoLeak cluster_namespace s (goroutine_ended key) l = delete-NoLeak key s l

run_from-NoLeak :
    (cluster_namespace : String) (s : State) (es : List Event)
    → NoLeak s
    → NoLeak (run cluster_namespace s es)
unfolding run
run_from-NoLeak cluster_namespace s [] l = l
run_from-NoLeak cluster_namespace s (e ∷ es) l =
    run_from-NoLeak cluster_namespace (handle cluster_namespace s e) es
      (handle-NoLeak cluster_namespace s e l)

-- After any history of reconciliations of exports, whatever is answered, and of goroutines that end,
-- each context that was made is in the store or was cancelled, and never both; it is in the store
-- under at most one key. So no syncer that runs is lost, and none that is in the store was stopped.
pub run-NoLeak :
    (cluster_namespace : String) (es : List Event) → NoLeak (run cluster_namespace initial es)
unfolding get lookup
run-NoLeak cluster_namespace es = run_from-NoLeak cluster_namespace initial es (record {
  tracked = λ i b. ground arith;
  alive = λ k v g. cc;
  known = λ k v g. cc;
  cancelled_known = λ i h. cc;
  unique = λ k j v w g h q. cc;
})
