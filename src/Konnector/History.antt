-- ===== src/Konnector/History.antt =====
-- konnector_reconcile.go: histories of events, and two situations of shared controllers.
use text.Mathlib.TextEquality.{eq_iff}
use kbind.Base.{
  ℕ, ◌<◌, String, ◌≡◌, ◌≢◌, ◌∙◌, refl, true, false, none, some, List, [], ◌∷◌, arith, Error, Result,
  err, not_found, done, contains, ◌=ˢ◌,
}
use kbind.Base.Dict.{
  Dict, lookup, insert, lookup-insert_self, lookup-remove, lookup-remove_self, DistinctKeys,
}
use Prim.Native.String.{◌++◌ as ◌+ˢ◌}
use kbind.Konnector.{
  Env, Secret, Binding, ControllerContext, Reconciler, find_kubeconfig, release, stop_old,
  stop_old_at, reuse, register, start_new, started, attach, reconcile_with, reconcile,
  provider_namespace, start_cluster_controller_for_secret, reconcile_service_binding, write,
}
use kbind.Konnector.Attach.{contains-set_delete}
use kbind.Konnector.Invariant.{
  IsConsistent, reconcile-IsConsistent, start_cluster_controller_for_secret-IsConsistent,
}

pub data Event : Type 0 where
  binding_event : Env → Binding → Result Secret → Event
  secret_event : Env → Secret → Event

unfoldable pub handle : Reconciler → Event → Reconciler
handle r (binding_event env binding secret) = (reconcile env binding secret r).1
handle r (secret_event env secret) = (start_cluster_controller_for_secret env secret r).1

unfoldable pub run : Reconciler → List Event → Reconciler
unfolding handle
run r [] = r
run r (e ∷ es) = run (handle r e) es

handle-IsConsistent : (r : Reconciler) (e : Event) → IsConsistent r → IsConsistent (handle r e)
unfolding handle
handle-IsConsistent r (binding_event env b s) v = reconcile-IsConsistent env b s r v
handle-IsConsistent r (secret_event env s) v =
    start_cluster_controller_for_secret-IsConsistent env s r v

run_from-IsConsistent :
    (r : Reconciler) (es : List Event) → IsConsistent r → IsConsistent (run r es)
unfolding run
run_from-IsConsistent r [] v = v
run_from-IsConsistent r (e ∷ es) v =
    run_from-IsConsistent (handle r e) es (handle-IsConsistent r e v)

abbrev pub nobody : ControllerContext
nobody = record { kubeconfig = ""; service_bindings = []; running = false; cancelled = false }

abbrev pub initial : Reconciler
initial = record { controllers = []; heap = λ _. nobody; next = 0 }

pub initial-IsConsistent : IsConsistent initial
unfolding lookup
initial-IsConsistent = record {
  distinct = tt;
  known = λ n i e. cc;
  serves = λ n i e. cc;
  alive = λ n i e. cc;
  shared = λ n m i j e f s. cc;
}

-- After any history of bindings and secrets, whatever the environment answers: each name in the map
-- has a context that serves it and is not cancelled, and names whose contexts have the same
-- kubeconfig share one context.
pub run-IsConsistent : (es : List Event) → IsConsistent (run initial es)
run-IsConsistent es = run_from-IsConsistent initial es initial-IsConsistent

find_kubeconfig-insert :
    (heap : ℕ → ControllerContext) (kubeconfig name : String) (i : ℕ) (m : Dict ℕ)
    → find_kubeconfig heap kubeconfig m ≡ none
    → (heap i).kubeconfig ≡ kubeconfig
    → find_kubeconfig heap kubeconfig (insert name i m) ≡ some i
unfolding find_kubeconfig insert
find_kubeconfig-insert heap kubeconfig name i [] e k =
    ground (arith, eq_iff (heap i).kubeconfig kubeconfig)
find_kubeconfig-insert heap kubeconfig name i ((n, j) ∷ m) e k =
    ground (
      arith,
      eq_iff (heap i).kubeconfig kubeconfig,
      find_kubeconfig-insert heap kubeconfig name i m,
    )

find_kubeconfig-write :
    (heap : ℕ → ControllerContext) (kubeconfig : String) (i : ℕ) (c : ControllerContext)
    (m : Dict ℕ)
    → DistinctKeys m
    → ((n : String) (j : ℕ) → lookup n m ≡ some j → j < i)
    → find_kubeconfig (write heap i c) kubeconfig m ≡ find_kubeconfig heap kubeconfig m
unfolding find_kubeconfig lookup
find_kubeconfig-write heap kubeconfig i c [] d below = refl
find_kubeconfig-write heap kubeconfig i c ((k, j) ∷ m) d below =
    let rest =
      find_kubeconfig-write heap kubeconfig i c m d.1
        (λ n j' e. below n j' (ground (arith, eq_iff k n, d.0))) in
    ground (arith, rest, below k j, eq_iff k k)

module _ (binding : Binding) (kubeconfig : String) (r : Reconciler) where
  reconcile_with-failed :
      (env : Env) (ns : String) (x : Error)
      → kubeconfig ≢ ""
      → lookup binding.name r.controllers ≡ none
      → find_kubeconfig r.heap kubeconfig r.controllers ≡ none
      → provider_namespace env kubeconfig ≡ some ns
      → env.new_cluster_controller
          (binding.kubeconfig_secret_ref.namespace +ˢ "/" +ˢ binding.kubeconfig_secret_ref.name)
          ns
        ≡ err x
      → reconcile_with env binding kubeconfig r ≡ (err x, register binding.name kubeconfig r)
  unfolding reconcile_with stop_old attach start_new
  reconcile_with-failed env ns x k l f p c =
      let nonempty : (kubeconfig =ˢ "") ≡ false = ground (arith, eq_iff kubeconfig "") in
      rw (l, stop_old_at, nonempty, f, attach, p, start_new, c, started) refl

  register-kubeconfig : ((register binding.name kubeconfig r).heap r.next).kubeconfig ≡ kubeconfig
  unfolding register
  register-kubeconfig = ground arith

  register-lookup :
      lookup binding.name (register binding.name kubeconfig r).controllers ≡ some r.next
  unfolding register
  register-lookup = lookup-insert_self binding.name r.next r.controllers

  register-find :
      IsConsistent r
      → find_kubeconfig r.heap kubeconfig r.controllers ≡ none
      → find_kubeconfig
          (register binding.name kubeconfig r).heap
          kubeconfig
          (register binding.name kubeconfig r).controllers
        ≡ some r.next
  unfolding register
  register-find v f =
      find_kubeconfig-insert _ kubeconfig binding.name r.next r.controllers
        (find_kubeconfig-write r.heap kubeconfig r.next _ r.controllers v.distinct v.known ∙ f)
        register-kubeconfig

  reconcile_with-registered :
      (later : Env)
      → IsConsistent r
      → kubeconfig ≢ ""
      → find_kubeconfig r.heap kubeconfig r.controllers ≡ none
      → reconcile_with later binding kubeconfig (register binding.name kubeconfig r)
        ≡ (done, reuse binding.name r.next (register binding.name kubeconfig r))
  unfolding reconcile_with stop_old attach
  reconcile_with-registered later v k f =
      let nonempty : (kubeconfig =ˢ "") ≡ false = ground (arith, eq_iff kubeconfig "") in
      let kept : (((register binding.name kubeconfig r).heap r.next).kubeconfig =ˢ kubeconfig)
          ≡ true =
        (eq_iff _ kubeconfig).1 register-kubeconfig in
      rw (register-lookup, stop_old_at, kept, nonempty, register-find v f, attach) refl

-- A first reconciliation of a binding whose controller cannot be made leaves the name registered with
-- a context that does not run; the next reconciliation with the same kubeconfig, whatever it could
-- make by then, reports success, and that context still does not run.
pub reconcile_with-stuck :
    (env later : Env) (binding : Binding) (kubeconfig ns : String) (x : Error) (r : Reconciler)
    → IsConsistent r
    → kubeconfig ≢ ""
    → lookup binding.name r.controllers ≡ none
    → find_kubeconfig r.heap kubeconfig r.controllers ≡ none
    → provider_namespace env kubeconfig ≡ some ns
    → env.new_cluster_controller
        (binding.kubeconfig_secret_ref.namespace +ˢ "/" +ˢ binding.kubeconfig_secret_ref.name)
        ns
      ≡ err x
    → let failed = reconcile_with env binding kubeconfig r in
      let retried = reconcile_with later binding kubeconfig failed.1 in
      (failed.0 ≡ err x)
      × (retried.0 ≡ done)
      × (lookup binding.name retried.1.controllers ≡ some r.next)
      × ((retried.1.heap r.next).running ≡ false)
reconcile_with-stuck env later binding kubeconfig ns x r v k l f p c =
    rw
      (
        reconcile_with-failed binding kubeconfig r env ns x k l f p c,
        reconcile_with-registered binding kubeconfig r later v k f,
      )
      (
        refl,
        refl,
        unfold reuse in
            lookup-insert_self binding.name r.next (register binding.name kubeconfig r).controllers,
        unfold reuse register in ground arith,
      )

-- The secret of the binding `owner` is gone while `sharer` still uses the same context: the context
-- is not cancelled and keeps serving `sharer`, and the closure of the controller that was started
-- for `owner` dereferences nil when it is asked about any binding.
pub reconcile_service_binding-lost :
    (env : Env) (owner : Binding) (sharer asked : String) (i : ℕ) (r : Reconciler)
    → IsConsistent r
    → lookup owner.name r.controllers ≡ some i
    → lookup sharer r.controllers ≡ some i
    → owner.name ≢ sharer
    → (r.heap i).kubeconfig ≢ ""
    → let r' = (reconcile env owner (err not_found) r).1 in
      (reconcile_service_binding owner.name r' asked ≡ none)
      × (lookup sharer r'.controllers ≡ some i)
      × ((r'.heap i).cancelled ≡ false)
      × (contains (r'.heap i).service_bindings sharer ≡ true)
unfolding reconcile reconcile_with stop_old reconcile_service_binding release
reconcile_service_binding-lost env owner sharer asked i r v l m n k =
    let other : ((r.heap i).kubeconfig =ˢ "") ≡ false =
      ground (arith, eq_iff (r.heap i).kubeconfig "") in
    let kept = contains-set_delete owner.name sharer (r.heap i).service_bindings n in
    let serves = v.serves sharer i m in
    rw (l, stop_old_at, other)
      (
        rw (lookup-remove_self owner.name r.controllers, reconcile_service_binding) refl,
        ground (arith, lookup-remove owner.name sharer r.controllers, eq_iff owner.name sharer),
        ground (arith, v.alive owner.name i l, kept, serves),
        ground (arith, kept, serves),
      )
