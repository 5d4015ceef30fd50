-- ===== src/ClusterBinding/Konnector.antt =====
-- pkg/konnector/controllers/cluster/clusterbinding/clusterbinding_reconcile.go and
-- pkg/version/version.go.
use Prim.Native.Char.{code}
use kbind.Base.{
  ℕ, ◌+◌, ◌/◌, String, Bool, true, Option, none, some, List, [], ◌∷◌, ◌++◌, if◌then◌else◌, ltb, eqb,
  is_some, Error, Result, ok, err, not_found, other, Outcome, done,
}
use kbind.Base.Dict.{Dict, lookup}
use kbind.Base.Exec.{Exec, attempt, call, ◌>>=◌}
use kbind.Base.Text.{has_prefix, trim_prefix}
use kbind.ClusterBinding.{ClusterBinding}
use kbind.Conditions.{Conditions, severity_warning}
use Prim.Native.String.{◌++◌ as ◌+ˢ◌}

pub record Secret : Type 0 where
  pub namespace : String
  pub name : String
  pub data_of : Dict String
  pub type_of : String

pub data Call : Type 0 where
  get_provider_secret get_consumer_secret : Call
  update_consumer_secret create_consumer_secret : Secret → Call

pub record Server : Type 0 where
  pub provider_secret : List Call → Result Secret
  pub consumer_secret : List Call → Result Secret
  pub updated : List Call → Secret → Outcome
  pub created : List Call → Secret → Outcome

-- The fields of `reconciler`. `split_key` is cache.SplitMetaNamespaceKey, `git_version` the version of
-- the binary; `quote` and `error_text` print a text and an error.
pub record Reconciler : Type 0 where
  pub consumer_secret_ref_key : String
  pub cluster_namespace : String
  pub heartbeat_interval : ℕ
  pub server : Server
  pub split_key : String → Result (String × String)
  pub git_version : String
  pub quote : String → String
  pub error_text : Error → String

-- What stands before the first `c`, and what stands behind it if there is one.
split_first : ℕ → String → String × Option String
split_first c String.[] = ("", none)
split_first c (String.◌∷◌ d s) =
    let rest = split_first c s in
    if eqb (code d) c then ("", some s) else (String.◌∷◌ d rest.0, rest.1)

unfoldable pub version_of_parts : (String → String) → String → Option String → Result String
unfolding split_first
version_of_parts quote s none = err (other ("failed to parse version " +ˢ quote s))
version_of_parts quote s (some build) =
    if has_prefix build "kube-bind"
    then ok (split_first 45 (trim_prefix build "kube-bind-")).0
    else err (other ("failed to parse version " +ˢ quote s))

-- pkg/version: what comes behind `+kube-bind-`, up to the next dash.
unfoldable pub binary_version : (String → String) → String → Result String
unfolding split_first version_of_parts
binary_version quote s =
    if has_prefix s "v0.0.0-" then ok "v0.0.0" else version_of_parts quote s (split_first 43 s).1

unfoldable pub is_due : Option ℕ → ℕ → ℕ → Bool
is_due none interval now = true
is_due (some last) interval now = ltb (last + interval / 2) now

module _ {K : Type 0} (c : Conditions K) (r : Reconciler) where
  abbrev M : Type 0 → Type 0
  M = Exec Call

  unfoldable pub ensure_heartbeat : ℕ → ClusterBinding K → ClusterBinding K
  unfolding is_due
  ensure_heartbeat now b = record b {
    heartbeat_interval = r.heartbeat_interval;
    last_heartbeat_time =
        if is_due b.last_heartbeat_time r.heartbeat_interval now
        then some now
        else b.last_heartbeat_time;
  }

  unfoldable pub mark_version : Result String → ClusterBinding K → ClusterBinding K
  mark_version (ok version) b = record b {
    konnector_version = version;
    conditions = c.mark_true "ValidVersion" b.conditions;
  }
  mark_version (err e) b = record b {
    konnector_version = "unknown";
    conditions =
        c.mark_false "ValidVersion" "ParseError" severity_warning
          ("Konnector binary version string "
            +ˢ r.quote r.git_version
            +ˢ " cannot be parsed: "
            +ˢ r.error_text e)
          b.conditions;
  }

  unfoldable pub ensure_konnector_version : ClusterBinding K → ClusterBinding K
  unfolding mark_version
  ensure_konnector_version b = mark_version (binary_version r.quote r.git_version) b

  abbrev pub get_consumer : M Secret
  get_consumer = call get_consumer_secret (λ h. r.server.consumer_secret h)

  -- The secret if there is one, and the error unless it is that there is none.
  unfoldable pub found_secret : Result Secret → Result (Option Secret)
  found_secret (ok s) = ok (some s)
  found_secret (err not_found) = ok none
  found_secret (err e) = err e

  unfoldable pub set_secret_ref :
      Result (Option Secret) → ClusterBinding K → Outcome × ClusterBinding K
  set_secret_ref (err e) b = (err e, b)
  set_secret_ref (ok none) b = (done, b)
  set_secret_ref (ok (some s)) b = (
    done,
    record b { consumer_secret_ref = some (record { name = s.name; namespace = s.namespace }) },
  )

  unfoldable pub ensure_consumer_secret_ref :
      ClusterBinding K → List Call → (Outcome × ClusterBinding K) × List Call
  unfolding found_secret set_secret_ref
  ensure_consumer_secret_ref b h =
      let got = get_consumer h in (set_secret_ref (found_secret got.0) b, got.1)

  -- The new secret: the first part of the key is its name.
  unfoldable pub new_secret : Secret → Result (String × String) → Result Secret
  new_secret provided (err e) = err e
  new_secret provided (ok (ns, name)) = ok (record {
    name = ns;
    namespace = name;
    data_of = provided.data_of;
    type_of = provided.type_of;
  })

  abbrev lift : {A : Type 0} → Result A → M A
  lift m h = (m, h)

  unfoldable pub write_secret : Secret → Option Secret → M (Unit {0})
  unfolding new_secret
  write_secret provided none = do
    new ← lift (new_secret provided (r.split_key r.consumer_secret_ref_key))
    call (create_consumer_secret new) (λ h. r.server.created h new)
  write_secret provided (some s) =
      let new : Secret = record s { data_of = provided.data_of; type_of = provided.type_of } in
      call (update_consumer_secret new) (λ h. r.server.updated h new)

  unfoldable pub copy_secret : Secret → M (Unit {0})
  unfolding write_secret found_secret
  copy_secret provided = do
    got ← attempt get_consumer
    found ← lift (found_secret got)
    write_secret provided found

  unfoldable pub secret_invalid : String → String → ClusterBinding K → ClusterBinding K
  secret_invalid reason message b = record b {
    conditions = c.mark_false "SecretValid" reason severity_warning message b.conditions;
  }

  unfoldable pub marked_valid : Outcome → ClusterBinding K → Outcome × ClusterBinding K
  marked_valid (err e) b = (err e, b)
  marked_valid (ok _) b = (done, record b { conditions = c.mark_true "SecretValid" b.conditions })

  unfoldable pub ensure_provided :
      Result Secret → ClusterBinding K → List Call → (Outcome × ClusterBinding K) × List Call
  unfolding copy_secret secret_invalid marked_valid
  ensure_provided (err not_found) b h = (
    (
      done,
      secret_invalid "ProviderSecretNotFound"
          ("Provider secret " +ˢ b.namespace +ˢ "/" +ˢ b.secret_name +ˢ " not found") b,
    ),
    h,
  )
  ensure_provided (err e) b h = ((err e, b), h)
  ensure_provided (ok provided) b h =
      let copied = copy_secret provided h in
      if is_some (lookup b.secret_key provided.data_of)
      then (marked_valid copied.0 b, copied.1)
      else (
        (
          done,
          secret_invalid "ProviderSecretInvalid"
              ("Provider secret "
                +ˢ r.cluster_namespace
                +ˢ "/"
                +ˢ b.secret_name
                +ˢ " is missing "
                +ˢ r.quote b.secret_key
                +ˢ " string key.")
              b,
        ),
        h,
      )

  unfoldable pub ensure_consumer_secret :
      ClusterBinding K → List Call → (Outcome × ClusterBinding K) × List Call
  unfolding ensure_provided
  ensure_consumer_secret b h =
      let got = call get_provider_secret (λ past. r.server.provider_secret past) h in
      ensure_provided got.0 b got.1

  abbrev errors_of : Outcome → List Error
  errors_of (ok _) = []
  errors_of (err e) = e ∷ []

  -- `now` is the time that ensureHeartbeat reads.
  unfoldable pub reconcile :
      ℕ → ClusterBinding K → List Call → (List Error × ClusterBinding K) × List Call
  unfolding ensure_consumer_secret ensure_consumer_secret_ref ensure_heartbeat
      ensure_konnector_version
  reconcile now b h =
      let a = ensure_consumer_secret b h in
      let ref = ensure_consumer_secret_ref a.0.1 a.1 in
      let new = ensure_konnector_version (ensure_heartbeat now ref.0.1) in
      (
        (
          errors_of a.0.0 ++ errors_of ref.0.0,
          record new { conditions = c.set_summary new.conditions },
        ),
        ref.1,
      )
