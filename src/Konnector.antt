-- ===== src/Konnector.antt =====
-- pkg/konnector/konnector_reconcile.go: one cluster controller for each kubeconfig, shared by the
-- bindings that use it. The lock makes each method one step.
pub mod Attach
pub mod Invariant
pub mod History
use kbind.Base.{
  ℕ, ◌+◌, String, Bool, true, false, not, Option, none, some, List, [], ◌∷◌, if◌then◌else◌, eqb,
  contains, keep, Error, Result, ok, err, Outcome, done, not_found, ◌=ˢ◌,
}
use kbind.Base.Dict.{Dict, lookup, insert, remove}
use Prim.Native.String.{◌++◌ as ◌+ˢ◌}

-- `clientcmdapi.Config`: the namespace of each context.
pub record KubeConfig : Type 0 where
  pub current_context : String
  pub contexts : Dict String

-- clientcmd.Load, clientcmd.RESTConfigFromKubeConfig, and the creation of a cluster controller.
pub record Env : Type 0 where
  pub load : String → Result KubeConfig
  pub rest_config : String → Outcome
  pub new_cluster_controller : (consumer_secret_ref_key provider_namespace : String) → Outcome

pub record Secret : Type 0 where
  pub namespace : String
  pub name : String
  pub data_of : Dict String

pub record SecretKeyRef : Type 0 where
  pub namespace : String
  pub name : String
  pub key : String

pub record Binding : Type 0 where
  pub name : String
  pub kubeconfig_secret_ref : SecretKeyRef

-- `controllerContext`: `running` when its controller has been started, `cancelled` when `cancel` has
-- been called.
pub record ControllerContext : Type 0 where
  pub kubeconfig : String
  pub service_bindings : List String
  pub running : Bool
  pub cancelled : Bool

-- The map's values are pointers: numbers of entries in a heap, `next` the next free one.
pub record Reconciler : Type 0 where
  pub controllers : Dict ℕ
  pub heap : ℕ → ControllerContext
  pub next : ℕ

abbrev pub write : (ℕ → ControllerContext) → ℕ → ControllerContext → ℕ → ControllerContext
write f i c j = if eqb i j then c else f j

abbrev pub set_delete : String → List String → List String
set_delete s = keep (λ x. not (x =ˢ s))

abbrev pub set_insert : String → List String → List String
set_insert s xs = if contains xs s then xs else s ∷ xs

abbrev is_empty : List String → Bool
is_empty [] = true
is_empty (_ ∷ _) = false

text_or_empty : Option String → String
text_or_empty none = ""
text_or_empty (some s) = s

-- The `for` loop over the controllers, in the list's order.
unfoldable pub find_kubeconfig : (ℕ → ControllerContext) → String → Dict ℕ → Option ℕ
find_kubeconfig heap kubeconfig [] = none
find_kubeconfig heap kubeconfig ((n, i) ∷ m) =
    if (heap i).kubeconfig =ˢ kubeconfig then some i else find_kubeconfig heap kubeconfig m

nonempty : Option String → Option String
nonempty none = none
nonempty (some ns) = if ns =ˢ "" then none else some ns

after_rest_config : String → Outcome → Option String
after_rest_config ns (ok _) = some ns
after_rest_config ns (err _) = none

-- The provider namespace of a kubeconfig; `none` where the code logs an error and gives up.
unfoldable pub provider_namespace : Env → String → Option String
unfolding nonempty after_rest_config
provider_namespace env kubeconfig = elim (env.load kubeconfig) [
  | err _ ↦ none
  | ok cfg ↦ elim (nonempty (lookup cfg.current_context cfg.contexts)) [
    | none ↦ none
    | some ns ↦ after_rest_config ns (env.rest_config kubeconfig)
  ]
]

-- `// stop existing with old kubeconfig`
unfoldable pub release : String → ℕ → Reconciler → Reconciler
release name i r =
    let left = set_delete name (r.heap i).service_bindings in
    record r {
      controllers = remove name r.controllers;
      heap = write r.heap i (record (r.heap i) {
        service_bindings = left;
        cancelled = if is_empty left then true else (r.heap i).cancelled;
      });
    }

stop_old_at : String → String → Option ℕ → Reconciler → Reconciler
stop_old_at name kubeconfig none r = r
stop_old_at name kubeconfig (some i) r =
    if (r.heap i).kubeconfig =ˢ kubeconfig then r else release name i r

unfoldable pub stop_old : String → String → Reconciler → Reconciler
unfolding stop_old_at
stop_old name kubeconfig r = stop_old_at name kubeconfig (lookup name r.controllers) r

-- `Reuse existing controller - no new controller started`
unfoldable pub reuse : String → ℕ → Reconciler → Reconciler
reuse name i r = record r {
  controllers = insert name i r.controllers;
  heap =
      write r.heap i
        (record (r.heap i) { service_bindings = set_insert name (r.heap i).service_bindings });
}

-- A new context for one name, not yet started.
unfoldable pub register : String → String → Reconciler → Reconciler
register name kubeconfig r = record {
  controllers = insert name r.next r.controllers;
  heap = write r.heap r.next (record {
    kubeconfig = kubeconfig;
    service_bindings = name ∷ [];
    running = false;
    cancelled = false;
  });
  next = r.next + 1;
}

-- `go ctrl.Start(ctrlCtx)`
unfoldable pub start : ℕ → Reconciler → Reconciler
start i r = record r { heap = write r.heap i (record (r.heap i) { running = true }) }

started : Outcome → ℕ → Reconciler → Outcome × Reconciler
started (ok _) i r = (done, start i r)
started (err e) i r = (err e, r)

unfoldable pub start_new :
    Env → SecretKeyRef → String → String → Option String → Reconciler → Outcome × Reconciler
unfolding started register start
start_new env ref name kubeconfig none r = (done, r)
start_new env ref name kubeconfig (some ns) r =
    started (env.new_cluster_controller (ref.namespace +ˢ "/" +ˢ ref.name) ns) r.next
      (register name kubeconfig r)

unfoldable pub attach : Env → Binding → String → Option ℕ → Reconciler → Outcome × Reconciler
attach env binding kubeconfig (some i) r = (done, reuse binding.name i r)
attach env binding kubeconfig none r =
    start_new env binding.kubeconfig_secret_ref binding.name kubeconfig
      (provider_namespace env kubeconfig) r

-- What follows the read of the secret, under the lock.
unfoldable pub reconcile_with : Env → Binding → String → Reconciler → Outcome × Reconciler
reconcile_with env binding kubeconfig r =
    let r' = stop_old binding.name kubeconfig r in
    if kubeconfig =ˢ ""
    then (done, r')
    else attach env binding kubeconfig (find_kubeconfig r'.heap kubeconfig r'.controllers) r'

-- `secret` is what `getSecret` answers for the reference of the binding.
unfoldable pub reconcile : Env → Binding → Result Secret → Reconciler → Outcome × Reconciler
unfolding text_or_empty
reconcile env binding (ok secret) r =
    reconcile_with env binding
      (text_or_empty (lookup binding.kubeconfig_secret_ref.key secret.data_of)) r
reconcile env binding (err not_found) r = reconcile_with env binding "" r
reconcile env binding (err e) r = (err e, r)

-- `cancel()` and the deletion after a controller could not be made for a heartbeat.
pub discard : String → ℕ → Reconciler → Reconciler
discard name i r = record r {
  controllers = remove name r.controllers;
  heap = write r.heap i (record (r.heap i) { cancelled = true });
}

heartbeat_started : Outcome → String → ℕ → Reconciler → Outcome × Reconciler
unfolding start discard
heartbeat_started (ok _) name i r = (done, start i r)
heartbeat_started (err e) name i r = (err e, discard name i r)

abbrev pub synthetic_key : Secret → String
synthetic_key secret = "__heartbeat__" +ˢ secret.name

start_heartbeat : Env → Secret → String → Option String → Reconciler → Outcome × Reconciler
unfolding heartbeat_started register
start_heartbeat env secret kubeconfig none r = (done, r)
start_heartbeat env secret kubeconfig (some ns) r =
    heartbeat_started (env.new_cluster_controller (secret.namespace +ˢ "/" +ˢ secret.name) ns)
      (synthetic_key secret) r.next (register (synthetic_key secret) kubeconfig r)

heartbeat_for : Env → Secret → String → Option ℕ → Reconciler → Outcome × Reconciler
unfolding start_heartbeat
heartbeat_for env secret kubeconfig (some i) r = (done, r)
heartbeat_for env secret kubeconfig none r =
    start_heartbeat env secret kubeconfig (provider_namespace env kubeconfig) r

-- `startClusterControllerForSecret`
unfoldable pub start_cluster_controller_for_secret :
    Env → Secret → Reconciler → Outcome × Reconciler
unfolding heartbeat_for text_or_empty
start_cluster_controller_for_secret env secret r =
    let kubeconfig = text_or_empty (lookup "kubeconfig" secret.data_of) in
    if kubeconfig =ˢ ""
    then (done, r)
    else heartbeat_for env secret kubeconfig (find_kubeconfig r.heap kubeconfig r.controllers) r

-- The closure that `reconcile` hands to a new controller: whether the controller that was started for
-- the binding `owner` is to reconcile the binding `name`. `none` is a nil dereference.
unfoldable pub reconcile_service_binding : String → Reconciler → String → Option Bool
reconcile_service_binding owner r name = elim (lookup owner r.controllers) [
  | none ↦ none
  | some i ↦ some (contains (r.heap i).service_bindings name)
]
