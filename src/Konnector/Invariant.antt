-- ===== src/Konnector/Invariant.antt =====
-- konnector_reconcile.go: which contexts the map of the controllers holds.
use text.Mathlib.TextEquality.{eq_iff}
use kbind.Base.{
  ℕ, ◌<◌, String, ◌≡◌, ◌⊎◌, inl, inr, true, false, Option, none, some, arith, Bool-cases,
  Option-cases, Result-cases, if◌then◌else◌, contains, ◌=ˢ◌, Result, ok, err, not_found,
}
use kbind.Base.Dict.{
  lookup, lookup-insert, lookup-remove, DistinctKeys, DistinctKeys-insert, DistinctKeys-remove,
}
use kbind.Konnector.{
  Env, Secret, Binding, Reconciler, find_kubeconfig, release, stop_old, reuse, register, start,
  start_new, attach, reconcile_with, reconcile, discard, provider_namespace,
  start_cluster_controller_for_secret, synthetic_key, SecretKeyRef, stop_old_at, start_heartbeat,
  heartbeat_for, text_or_empty,
}
use Prim.Native.String.{◌++◌ as ◌+ˢ◌}
use kbind.Konnector.Attach.{
  contains-set_delete, contains-set_insert, contains-set_insert_self, find_kubeconfig-some,
  find_kubeconfig-none,
}

pub record IsConsistent (r : Reconciler) : Type 0 where
  pub distinct : DistinctKeys r.controllers
  -- Each name has a context that exists, serves the name, and has not been cancelled.
  pub known : (n : String) (i : ℕ) → lookup n r.controllers ≡ some i → i < r.next
  pub serves :
      (n : String) (i : ℕ)
      → lookup n r.controllers ≡ some i
      → contains (r.heap i).service_bindings n ≡ true
  pub alive : (n : String) (i : ℕ) → lookup n r.controllers ≡ some i → (r.heap i).cancelled ≡ false
  -- Names whose contexts have the same kubeconfig share one context.
  pub shared :
      (n m : String) (i j : ℕ)
      → lookup n r.controllers ≡ some i
      → lookup m r.controllers ≡ some j
      → (r.heap i).kubeconfig ≡ (r.heap j).kubeconfig
      → i ≡ j

module _ (name : String) (i : ℕ) (r : Reconciler) (v : IsConsistent r) where
  release-IsConsistent : lookup name r.controllers ≡ some i → IsConsistent (release name i r)
  unfolding release
  release-IsConsistent l = record {
    distinct = DistinctKeys-remove name r.controllers v.distinct;
    known = λ n j e. ground (arith, lookup-remove name n r.controllers, v.known n j);
    serves = λ n j e. ground (
      arith,
      lookup-remove name n r.controllers,
      v.serves n j,
      eq_iff name n,
      contains-set_delete name n (r.heap j).service_bindings,
    );
    alive = λ n j e. ground (
      arith,
      lookup-remove name n r.controllers,
      v.serves n j,
      v.alive n j,
      eq_iff name n,
      contains-set_delete name n (r.heap j).service_bindings,
    );
    shared = λ n m j k e f s. ground (
      arith,
      lookup-remove name n r.controllers,
      lookup-remove name m r.controllers,
      v.shared n m j k,
    );
  }

  reuse-IsConsistent :
      (m : String) → lookup m r.controllers ≡ some i → IsConsistent (reuse name i r)
  unfolding reuse
  reuse-IsConsistent m l = record {
    distinct = DistinctKeys-insert name i r.controllers v.distinct;
    known =
        λ n j e. ground (arith, lookup-insert name n i r.controllers, v.known n j, v.known m i l);
    serves = λ n j e. ground (
      arith,
      lookup-insert name n i r.controllers,
      v.serves n j,
      eq_iff name n,
      contains-set_insert name n (r.heap i).service_bindings,
      contains-set_insert_self name (r.heap i).service_bindings,
    );
    alive =
        λ n j e. ground (arith, lookup-insert name n i r.controllers, v.alive n j, v.alive m i l);
    shared = λ n k j j' e f s. ground (
      arith,
      lookup-insert name n i r.controllers,
      lookup-insert name k i r.controllers,
      v.shared n k j j',
      v.shared n m j i,
      v.shared m k i j',
      v.shared m m i i,
    );
  }

  start-IsConsistent : IsConsistent (start i r)
  unfolding start
  start-IsConsistent = record {
    distinct = v.distinct;
    known = v.known;
    serves = λ n j e. ground (arith, v.serves n j);
    alive = λ n j e. ground (arith, v.alive n j);
    shared = λ n m j k e f s. ground (arith, v.shared n m j k);
  }

  discard-IsConsistent :
      ((n : String) → lookup n r.controllers ≡ some i → n ≡ name) → IsConsistent (discard name i r)
  unfolding discard
  discard-IsConsistent own = record {
    distinct = DistinctKeys-remove name r.controllers v.distinct;
    known = λ n j e. ground (arith, lookup-remove name n r.controllers, v.known n j);
    serves = λ n j e. ground (arith, lookup-remove name n r.controllers, v.serves n j);
    alive = λ n j e.
        ground (arith, lookup-remove name n r.controllers, v.alive n j, own n, eq_iff name n);
    shared = λ n m j k e f s. ground (
      arith,
      lookup-remove name n r.controllers,
      lookup-remove name m r.controllers,
      v.shared n m j k,
    );
  }

register-IsConsistent :
    (name kubeconfig : String) (r : Reconciler)
    → IsConsistent r
    → find_kubeconfig r.heap kubeconfig r.controllers ≡ none
    → IsConsistent (register name kubeconfig r)
unfolding register
register-IsConsistent name kubeconfig r v absent = record {
  distinct = DistinctKeys-insert name r.next r.controllers v.distinct;
  known = λ n j e. ground (arith, lookup-insert name n r.next r.controllers, v.known n j);
  serves = λ n j e.
      ground (
        arith,
        lookup-insert name n r.next r.controllers,
        v.serves n j,
        v.known n j,
        eq_iff name n,
      );
  alive =
      λ n j e. ground (arith, lookup-insert name n r.next r.controllers, v.alive n j, v.known n j);
  shared = λ n m j k e f s. ground (
    arith,
    lookup-insert name n r.next r.controllers,
    lookup-insert name m r.next r.controllers,
    v.shared n m j k,
    v.known n j,
    v.known m k,
    find_kubeconfig-none r.heap kubeconfig r.controllers n j absent,
    find_kubeconfig-none r.heap kubeconfig r.controllers m k absent,
  );
}

stop_old-IsConsistent :
    (name kubeconfig : String) (r : Reconciler)
    → IsConsistent r
    → IsConsistent (stop_old name kubeconfig r)
unfolding stop_old
stop_old-IsConsistent name kubeconfig r v = elim (Option-cases (lookup name r.controllers)) [
  | inl e ↦ rw (e, stop_old_at) v
  | inr (i, e) ↦
      rw (e, stop_old_at) (stopped i e (Bool-cases ((r.heap i).kubeconfig =ˢ kubeconfig)))
]
  where
    stopped :
        (i : ℕ)
        → lookup name r.controllers ≡ some i
        → (((r.heap i).kubeconfig =ˢ kubeconfig) ≡ true)
          ⊎ (((r.heap i).kubeconfig =ˢ kubeconfig) ≡ false)
        → IsConsistent (if (r.heap i).kubeconfig =ˢ kubeconfig then r else release name i r)
    stopped i e (inl q) = rw q v
    stopped i e (inr q) = rw q (release-IsConsistent name i r v e)

start_new-IsConsistent :
    (env : Env) (ref : SecretKeyRef) (name kubeconfig : String) (ns : Option String)
    (r : Reconciler)
    → IsConsistent r
    → find_kubeconfig r.heap kubeconfig r.controllers ≡ none
    → IsConsistent (start_new env ref name kubeconfig ns r).1
unfolding start_new
start_new-IsConsistent env ref name kubeconfig none r v absent = v
start_new-IsConsistent env ref name kubeconfig (some ns) r v absent =
    let w = register-IsConsistent name kubeconfig r v absent in
    elim (Result-cases (env.new_cluster_controller (ref.namespace +ˢ "/" +ˢ ref.name) ns)) [
      | inl (_, e) ↦ rw e (start-IsConsistent name r.next (register name kubeconfig r) w)
      | inr (_, e) ↦ rw e w
    ]

attach-IsConsistent :
    (env : Env) (binding : Binding) (kubeconfig : String) (r : Reconciler)
    → IsConsistent r
    → IsConsistent
        (attach env binding kubeconfig (find_kubeconfig r.heap kubeconfig r.controllers) r).1
unfolding attach
attach-IsConsistent env binding kubeconfig r v =
    elim (Option-cases (find_kubeconfig r.heap kubeconfig r.controllers)) [
      | inl e ↦
          rw (e, attach)
            (start_new-IsConsistent env binding.kubeconfig_secret_ref binding.name kubeconfig
              (provider_namespace env kubeconfig) r v e)
      | inr (i, e) ↦
          let (m, l, _) = find_kubeconfig-some r.heap kubeconfig r.controllers i v.distinct e in
          rw (e, attach) (reuse-IsConsistent binding.name i r v m l)
    ]

reconcile_with-IsConsistent :
    (env : Env) (binding : Binding) (kubeconfig : String) (r : Reconciler)
    → IsConsistent r
    → IsConsistent (reconcile_with env binding kubeconfig r).1
unfolding reconcile_with
reconcile_with-IsConsistent env binding kubeconfig r v =
    let w = stop_old-IsConsistent binding.name kubeconfig r v in
    elim (Bool-cases (kubeconfig =ˢ "")) [
      | inl e ↦ rw e w
      | inr e ↦
          rw e (attach-IsConsistent env binding kubeconfig (stop_old binding.name kubeconfig r) w)
    ]

pub reconcile-IsConsistent :
    (env : Env) (binding : Binding) (secret : Result Secret) (r : Reconciler)
    → IsConsistent r
    → IsConsistent (reconcile env binding secret r).1
unfolding reconcile
reconcile-IsConsistent env binding (ok secret) r v = reconcile_with-IsConsistent env binding _ r v
reconcile-IsConsistent env binding (err not_found) r v =
    reconcile_with-IsConsistent env binding "" r v
reconcile-IsConsistent env binding (err _) r v = v

register-own :
    (name kubeconfig : String) (r : Reconciler)
    → IsConsistent r
    → (n : String) → lookup n (register name kubeconfig r).controllers ≡ some r.next
    → n ≡ name
unfolding register
register-own name kubeconfig r v n e =
    ground (arith, lookup-insert name n r.next r.controllers, v.known n r.next, eq_iff name n)

start_heartbeat-IsConsistent :
    (env : Env) (secret : Secret) (kubeconfig : String) (ns : Option String) (r : Reconciler)
    → IsConsistent r
    → find_kubeconfig r.heap kubeconfig r.controllers ≡ none
    → IsConsistent (start_heartbeat env secret kubeconfig ns r).1
unfolding start_heartbeat
start_heartbeat-IsConsistent env secret kubeconfig none r v absent = v
start_heartbeat-IsConsistent env secret kubeconfig (some ns) r v absent =
    let key = synthetic_key secret in
    let w = register-IsConsistent key kubeconfig r v absent in
    elim (Result-cases (env.new_cluster_controller (secret.namespace +ˢ "/" +ˢ secret.name) ns)) [
      | inl (_, e) ↦ rw e (start-IsConsistent key r.next (register key kubeconfig r) w)
      | inr (_, e) ↦ rw e (
          discard-IsConsistent key r.next (register key kubeconfig r) w
            (register-own key kubeconfig r v))
    ]

heartbeat_for-IsConsistent :
    (env : Env) (secret : Secret) (kubeconfig : String) (r : Reconciler)
    → IsConsistent r
    → IsConsistent
        (heartbeat_for env secret kubeconfig (find_kubeconfig r.heap kubeconfig r.controllers) r).1
unfolding heartbeat_for
heartbeat_for-IsConsistent env secret kubeconfig r v =
    elim (Option-cases (find_kubeconfig r.heap kubeconfig r.controllers)) [
      | inl e ↦
          rw (e, heartbeat_for)
            (start_heartbeat-IsConsistent env secret kubeconfig (provider_namespace env kubeconfig)
              r v e)
      | inr (i, e) ↦ rw (e, heartbeat_for) v
    ]

pub start_cluster_controller_for_secret-IsConsistent :
    (env : Env) (secret : Secret) (r : Reconciler)
    → IsConsistent r
    → IsConsistent (start_cluster_controller_for_secret env secret r).1
unfolding start_cluster_controller_for_secret
start_cluster_controller_for_secret-IsConsistent env secret r v =
    let kubeconfig = text_or_empty (lookup "kubeconfig" secret.data_of) in
    elim (Bool-cases (kubeconfig =ˢ "")) [
      | inl e ↦ rw e v
      | inr e ↦ rw e (heartbeat_for-IsConsistent env secret kubeconfig r v)
    ]
