-- ===== src/Bundles/Reconcile.antt =====
-- servicebindingbundle_reconcile.go: ensureValidKubeconfigSecret and reconcile.
use kbind.Base.{
  String, Option, none, some, List, [], ◌∷◌, if◌then◌else◌, Error, Result, ok, err, not_found, ◌=ˢ◌,
}
use kbind.Base.Dict.{Dict, lookup}
use kbind.Base.Exec.{call}
use kbind.Bundles.{
  Bundle, KubeConfig, Call, Server, Env, get_consumer_secret, sync_api_service_bindings,
}
use kbind.Conditions.{Conditions, severity_error}
use Prim.Native.String.{◌++◌ as ◌+ˢ◌}

module _ {C K : Type 0} (env : Env C) (c : Conditions K) (server : Server C) where
  -- The configuration and its namespace if the secret is valid, and the conditions.
  abbrev pub Checked : Type 0
  Checked = Result (Option (C × String)) × K

  unfoldable pub secret_invalid : String → String → Bundle K → Checked
  secret_invalid reason what bundle = (
    ok none,
    c.mark_false "SecretValid" reason severity_error
        ("Kubeconfig secret " +ˢ bundle.secret_ref.namespace +ˢ "/" +ˢ bundle.secret_ref.name
          +ˢ what)
        bundle.conditions,
  )

  unfoldable pub check_rest : String → Result C → Bundle K → Checked
  unfolding secret_invalid
  check_rest namespace (err e) bundle =
      secret_invalid "KubeconfigSecretInvalid" (" has an invalid kubeconfig: " +ˢ env.error_text e)
        bundle
  check_rest namespace (ok config) bundle =
      (ok (some (config, namespace)), c.mark_true "SecretValid" bundle.conditions)

  unfoldable pub check_context : String → KubeConfig → Option String → Bundle K → Checked
  unfolding secret_invalid check_rest
  check_context kubeconfig cfg none bundle =
      secret_invalid "KubeconfigSecretInvalid"
        (" has an invalid kubeconfig: current context "
          +ˢ env.quote cfg.current_context
          +ˢ " not found")
        bundle
  check_context kubeconfig cfg (some namespace) bundle =
      if namespace =ˢ ""
      then secret_invalid "KubeconfigSecretInvalid"
          (" has an invalid kubeconfig: current context "
            +ˢ env.quote cfg.current_context
            +ˢ " has no namespace set")
          bundle
      else check_rest namespace (env.rest_config kubeconfig) bundle

  unfoldable pub check_config : String → Result KubeConfig → Bundle K → Checked
  unfolding secret_invalid check_context
  check_config kubeconfig (err e) bundle =
      secret_invalid "KubeconfigSecretInvalid" (" has an invalid kubeconfig: " +ˢ env.error_text e)
        bundle
  check_config kubeconfig (ok cfg) bundle =
      check_context kubeconfig cfg (lookup cfg.current_context cfg.contexts) bundle

  unfoldable pub check_key : Option String → Bundle K → Checked
  unfolding secret_invalid check_config
  check_key none bundle =
      secret_invalid "KubeconfigSecretInvalid"
        (" is missing " +ˢ env.quote bundle.secret_ref.key +ˢ " string key.") bundle
  check_key (some kubeconfig) bundle = check_config kubeconfig (env.load kubeconfig) bundle

  unfoldable pub check_secret : Result (Dict String) → Bundle K → Checked
  unfolding secret_invalid check_key
  check_secret (err not_found) bundle =
      secret_invalid "KubeconfigSecretNotFound" " not found." bundle
  check_secret (err e) bundle = (err e, bundle.conditions)
  check_secret (ok data_of) bundle = check_key (lookup bundle.secret_ref.key data_of) bundle

  unfoldable pub ensure_valid_kubeconfig_secret : Bundle K → List (Call C) → Checked × List (Call C)
  unfolding check_secret
  ensure_valid_kubeconfig_secret bundle h =
      let ns = bundle.secret_ref.namespace in
      let name = bundle.secret_ref.name in
      let got =
        call (get_consumer_secret ns name) (λ past. server.consumer_secret past ns name) h in
      (check_secret got.0 bundle, got.1)

  unfoldable pub sync_valid : Bundle K → Checked → List (Call C) → (List Error × K) × List (Call C)
  unfolding sync_api_service_bindings
  sync_valid bundle (err e, k) h = ((e ∷ [], k), h)
  sync_valid bundle (ok none, k) h = (([], k), h)
  sync_valid bundle (ok (some (config, namespace)), k) h =
      sync_api_service_bindings env c server bundle config namespace k h

  unfoldable pub reconcile : Bundle K → List (Call C) → (List Error × Bundle K) × List (Call C)
  unfolding ensure_valid_kubeconfig_secret sync_valid
  reconcile bundle h =
      let checked = ensure_valid_kubeconfig_secret bundle h in
      let r = sync_valid bundle checked.0 checked.1 in
      ((r.0.0, record bundle { conditions = c.set_summary r.0.1 }), r.1)
