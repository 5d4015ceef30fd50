-- ===== src/ClusterBinding.antt =====
-- A ClusterBinding is where a konnector reports that it is alive: the konnector's side is
-- pkg/konnector/controllers/cluster/clusterbinding (ClusterBinding/Konnector.antt), the backend's is
-- backend/controllers/clusterbinding. Times and durations are in nanoseconds and not negative.
-- The API server keeps times in whole seconds: what reads a time that the other side wrote gets it
-- through a parameter of the theorems.
pub mod Konnector
pub mod Heartbeat
pub mod Secrets
use kbind.Base.{ℕ, ◌+◌, ◌*◌, String, Option, none, some, if◌then◌else◌, ltb, eqb, Outcome, done}
use kbind.Conditions.{Conditions, severity_info, severity_error, severity_warning}

pub record LocalSecretRef : Type 0 where
  pub name : String
  pub namespace : String

-- `secret_name` and `secret_key` are the KubeconfigSecretRef; the zero time is `none`.
pub record ClusterBinding (K : Type 0) : Type 0 where
  pub namespace : String
  pub secret_name : String
  pub secret_key : String
  pub last_heartbeat_time : Option ℕ
  pub heartbeat_interval : ℕ
  pub konnector_version : String
  pub consumer_secret_ref : Option LocalSecretRef
  pub conditions : K

abbrev pub healthy : String
healthy = "Healthy"

abbrev pub ten_seconds : ℕ
ten_seconds = 10000000000

pub data Health : Type 0 where
  first_heartbeat_pending heartbeat_interval_missing heartbeat_timeout heartbeat_time_drift
        is_healthy :
      Health

-- The branches of ensureClusterBindingConditions at the time `now`. `ago` is the time since the last
-- heartbeat, and is negative where that lies in the future, so the tests add on the other side.
unfoldable pub health_since : ℕ → ℕ → ℕ → Health
health_since interval last now =
    if eqb interval 0
    then heartbeat_interval_missing
    else if ltb (last + interval * 2) now
    then heartbeat_timeout
    else if ltb now (last + ten_seconds)
    then heartbeat_time_drift
    else is_healthy

unfoldable pub health : Option ℕ → ℕ → ℕ → Health
unfolding health_since
health none interval now = first_heartbeat_pending
health (some last) interval now = health_since interval last now

module _ {K : Type 0} (c : Conditions K) (timeout_message : ℕ → Option ℕ → String) where
  -- `timeout_message` prints the interval and the time of the last heartbeat.
  unfoldable pub mark_health : Health → ClusterBinding K → K
  mark_health first_heartbeat_pending b =
      c.mark_false healthy "FirstHeartbeatPending" severity_info "Waiting for first heartbeat"
        b.conditions
  mark_health heartbeat_interval_missing b =
      c.mark_false healthy "HeartbeatIntervalMissing" severity_info
        "Waiting for consumer cluster reporting its heartbeat interval" b.conditions
  mark_health heartbeat_timeout b =
      c.mark_false healthy "HeartbeatTimeout" severity_error
        (timeout_message b.heartbeat_interval b.last_heartbeat_time) b.conditions
  mark_health heartbeat_time_drift b =
      c.mark_false healthy "HeartbeatTimeDrift" severity_warning
        "Clocks of consumer cluster and service account cluster seem to be off by more than 10s"
        b.conditions
  mark_health is_healthy b = c.mark_true healthy b.conditions

  -- The backend's reconcile.
  unfoldable pub reconcile : ℕ → ClusterBinding K → Outcome × ClusterBinding K
  unfolding mark_health health
  reconcile now b = (
    done,
    record b {
      conditions =
          c.set_summary (mark_health (health b.last_heartbeat_time b.heartbeat_interval now) b);
    },
  )
