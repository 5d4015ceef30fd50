-- ===== src/Tests/Beating.antt =====
-- Runs of the two sides of a ClusterBinding, with a heartbeat every five minutes.
use kbind.Base.{
  ℕ, ◌*◌, ◌/◌, String, ◌≡◌, refl, true, none, some, List, [], ◌∷◌, ok, err, not_found, arith,
  is_some, done,
}
use kbind.Base.Dict.{lookup}
use kbind.Base.Exec.{◌>>=◌}
use kbind.ClusterBinding.{ClusterBinding, heartbeat_time_drift, health}
use kbind.ClusterBinding.Konnector.{
  Secret, Server, Reconciler, reconcile, is_due, get_provider_secret, get_consumer_secret,
  create_consumer_secret, ensure_consumer_secret, ensure_provided, copy_secret, found_secret,
  write_secret, new_secret, marked_valid,
}
use kbind.ClusterBinding.Heartbeat.{IsAlive, DropsAtMost, kept, reconcile-IsAlive, reconcile-drift}
use kbind.ClusterBinding.Secrets.{
  IsCopied, ensure_consumer_secret-IsCopied, ensure_consumer_secret-swapped,
}
use kbind.Tests.{marks}

abbrev provided : Secret
provided = record {
  namespace = "cn";
  name = "kubeconfig";
  data_of = ("kubeconfig", "contents") ∷ [];
  type_of = "Opaque";
}

abbrev server : Server
server = record {
  provider_secret = λ h. ok provided;
  consumer_secret = λ h. err not_found;
  updated = λ h s. ok tt;
  created = λ h s. ok tt;
}

abbrev konnector : Reconciler
konnector = record {
  consumer_secret_ref_key = "kube-bind/secret";
  cluster_namespace = "cn";
  heartbeat_interval = 300000000000;
  server = server;
  split_key = λ key. ok ("kube-bind", "secret");
  git_version = "v1.30.0+kube-bind-v0.5.0";
  quote = λ t. t;
  error_text = λ e. "";
}

-- Four minutes after the last heartbeat.
abbrev binding : ClusterBinding (List String)
binding = record {
  namespace = "cn";
  secret_name = "kubeconfig";
  secret_key = "kubeconfig";
  last_heartbeat_time = some 1000000000000;
  heartbeat_interval = 300000000000;
  konnector_version = "";
  consumer_secret_ref = none;
  conditions = [];
}

abbrev at : ℕ
at = 1240000000000

-- metav1.Time keeps whole seconds.
abbrev whole_seconds : ℕ → ℕ
whole_seconds t = t / 1000000000 * 1000000000

whole_seconds-DropsAtMost : DropsAtMost 999999999 whole_seconds
whole_seconds-DropsAtMost t = (omega arith, omega arith)

reconcile-IsAlive_example :
    let new : ClusterBinding (List String) = (reconcile marks konnector at binding []).0.1 in
    IsAlive
      (health (kept whole_seconds new.last_heartbeat_time) new.heartbeat_interval 1500000000000)
reconcile-IsAlive_example =
    reconcile-IsAlive marks konnector whole_seconds 999999999 at 1500000000000 binding []
      whole_seconds-DropsAtMost (omega arith) (omega arith) (omega arith) (omega arith)

reconcile-drift_example :
    let new : ClusterBinding (List String) = (reconcile marks konnector at binding []).0.1 in
    health (kept whole_seconds new.last_heartbeat_time) new.heartbeat_interval 1245000000000
    ≡ heartbeat_time_drift
reconcile-drift_example =
    reconcile-drift marks konnector whole_seconds 999999999 at 1245000000000 binding []
      whole_seconds-DropsAtMost (omega arith) (omega arith) beats (omega arith) (omega arith)
      (omega arith)
  where
    beats : is_due binding.last_heartbeat_time konnector.heartbeat_interval at ≡ true
    beats = unfold is_due in refl

has_kubeconfig : is_some (lookup binding.secret_key provided.data_of) ≡ true
unfolding lookup
has_kubeconfig = refl

is_done : (ensure_consumer_secret marks konnector binding []).0.0 ≡ done
unfolding ensure_consumer_secret ensure_provided copy_secret found_secret write_secret new_secret
    marked_valid lookup ◌>>=◌
is_done = refl

ensure_consumer_secret-IsCopied_example :
    IsCopied konnector provided
      (get_provider_secret ∷ [])
      (get_consumer_secret ∷ get_provider_secret ∷ [])
      (ensure_consumer_secret marks konnector binding []).1
ensure_consumer_secret-IsCopied_example =
    ensure_consumer_secret-IsCopied marks konnector binding [] provided refl has_kubeconfig is_done

ensure_consumer_secret-swapped_example :
    (ensure_consumer_secret marks konnector binding []).1
    ≡ create_consumer_secret (record provided { name = "kube-bind"; namespace = "secret" })
      ∷ get_consumer_secret
      ∷ get_provider_secret
      ∷ []
ensure_consumer_secret-swapped_example =
    ensure_consumer_secret-swapped marks konnector binding [] provided "kube-bind" "secret" refl
      has_kubeconfig refl refl
