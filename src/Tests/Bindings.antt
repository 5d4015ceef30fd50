-- ===== src/Tests/Bindings.antt =====
-- Runs of the konnector: two bindings that share a kubeconfig.
use kbind.Base.{
  ◌≡◌, refl, true, false, none, some, List, [], ◌∷◌, ok, err, not_found, Outcome, sym, ◌∙◌, done,
  contains,
}
use kbind.Base.Dict.{lookup, insert}
use kbind.Tests.{differ}
use kbind.Konnector.{
  Env, Binding, SecretKeyRef, Secret, Reconciler, reconcile, reconcile_with,
  reconcile_service_binding, find_kubeconfig, provider_namespace, attach, stop_old, start_new,
  reuse,
}
use kbind.Konnector.Invariant.{IsConsistent}
use kbind.Konnector.History.{
  Event, binding_event, run, initial, run-IsConsistent, initial-IsConsistent, reconcile_with-stuck,
  reconcile_service_binding-lost,
}

abbrev ref : SecretKeyRef
ref = record { namespace = "kb"; name = "creds"; key = "kubeconfig" }

abbrev owner_binding : Binding
owner_binding = record { name = "owner"; kubeconfig_secret_ref = ref }

abbrev sharer_binding : Binding
sharer_binding = record { name = "sharer"; kubeconfig_secret_ref = ref }

-- Any kubeconfig has the namespace "ns"; `made` is what the creation of a controller answers.
abbrev env_with : Outcome → Env
env_with made = record {
  load = λ s. ok (record { current_context = "c"; contexts = ("c", "ns") ∷ [] });
  rest_config = λ s. done;
  new_cluster_controller = λ k ns. made;
}

abbrev secret : Secret
secret = record { namespace = "kb"; name = "creds"; data_of = ("kubeconfig", "kc") ∷ [] }

abbrev events : List Event
events =
    binding_event (env_with done) owner_binding (ok secret)
    ∷ binding_event (env_with done) sharer_binding (ok secret)
    ∷ []

-- Both bindings use the context 0.
abbrev both : Reconciler
both = run initial events

run-IsConsistent_example : IsConsistent (run initial events)
run-IsConsistent_example = run-IsConsistent events

no_name : lookup "owner" initial.controllers ≡ none
unfolding lookup
no_name = refl

no_kubeconfig : find_kubeconfig initial.heap "kc" initial.controllers ≡ none
unfolding find_kubeconfig
no_kubeconfig = refl

has_namespace : (o : Outcome) → provider_namespace (env_with o) "kc" ≡ some "ns"
unfolding provider_namespace lookup
has_namespace o = refl

reconcile_with-stuck_example :
    let failed = reconcile_with (env_with (err not_found)) owner_binding "kc" initial in
    let retried = reconcile_with (env_with done) owner_binding "kc" failed.1 in
    (failed.0 ≡ err not_found)
    × (retried.0 ≡ done)
    × (lookup "owner" retried.1.controllers ≡ some 0)
    × ((retried.1.heap 0).running ≡ false)
reconcile_with-stuck_example =
    reconcile_with-stuck (env_with (err not_found)) (env_with done) owner_binding "kc" "ns"
      not_found initial initial-IsConsistent (differ "kc" "" refl) no_name no_kubeconfig
      (has_namespace (err not_found)) refl

owner_at : lookup "owner" both.controllers ≡ some 0
unfolding run reconcile reconcile_with lookup attach find_kubeconfig stop_old start_new
    provider_namespace insert reuse
owner_at = refl

sharer_at : lookup "sharer" both.controllers ≡ some 0
unfolding run reconcile reconcile_with lookup attach find_kubeconfig stop_old start_new
    provider_namespace insert reuse
sharer_at = refl

kubeconfig_of : (both.heap 0).kubeconfig ≡ "kc"
unfolding run reconcile reconcile_with lookup attach find_kubeconfig stop_old start_new
    provider_namespace insert reuse
kubeconfig_of = refl

reconcile_service_binding-lost_example :
    let r' = (reconcile (env_with done) owner_binding (err not_found) both).1 in
    (reconcile_service_binding "owner" r' "sharer" ≡ none)
    × (lookup "sharer" r'.controllers ≡ some 0)
    × ((r'.heap 0).cancelled ≡ false)
    × (contains (r'.heap 0).service_bindings "sharer" ≡ true)
reconcile_service_binding-lost_example =
    reconcile_service_binding-lost (env_with done) owner_binding "sharer" "sharer" 0 both
      (run-IsConsistent events) owner_at sharer_at (differ "owner" "sharer" refl)
      (λ p. differ "kc" "" refl (sym kubeconfig_of ∙ p))
