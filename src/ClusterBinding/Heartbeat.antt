-- ===== src/ClusterBinding/Heartbeat.antt =====
-- The two sides of a ClusterBinding together: the heartbeats that the konnector writes, and what the
-- backend says of them.
use kbind.Base.{
  ℕ, String, ◌+◌, ◌*◌, ◌/◌, ◌≤◌, ◌<◌, ◌≡◌, ◌⊎◌, inl, inr, refl, ap, ◌∙◌, true, Option, none, some,
  List, arith, Bool-cases, if◌then◌else◌, ltb, is_some, Result, ok, err, not_found, already_exists,
  invalid, other, Outcome,
}
use kbind.Base.Dict.{lookup}
use kbind.Base.Exec.{call}
use kbind.ClusterBinding.{
  ClusterBinding, Health, heartbeat_time_drift, is_healthy, health, health_since, ten_seconds,
}
use kbind.ClusterBinding.Konnector.{
  Call, Secret, Reconciler, is_due, ensure_heartbeat, reconcile, get_provider_secret, get_consumer,
  found_secret, set_secret_ref, marked_valid, secret_invalid, copy_secret, ensure_provided,
  mark_version, binary_version, ensure_konnector_version, ensure_consumer_secret,
  ensure_consumer_secret_ref,
}
use kbind.Conditions.{Conditions}

-- Alive: neither pending nor timed out.
abbrev pub IsAlive : Health → Type 0
IsAlive x = (x ≡ heartbeat_time_drift) ⊎ (x ≡ is_healthy)

health_since-IsAlive :
    (interval last now : ℕ)
    → 0 < interval
    → now ≤ last + interval * 2
    → IsAlive (health_since interval last now)
unfolding health_since
health_since-IsAlive interval last now p q = elim (Bool-cases (ltb now (last + ten_seconds))) [
  | inl e ↦ inl (ground arith)
  | inr e ↦ inr (ground arith)
]

-- A time as the API server keeps it.
abbrev pub kept : (ℕ → ℕ) → Option ℕ → Option ℕ
kept stored none = none
kept stored (some t) = some (stored t)

-- metav1.Time drops at most `lost` of a time.
abbrev pub DropsAtMost : ℕ → (ℕ → ℕ) → Type 0
DropsAtMost lost stored = (t : ℕ) → (stored t ≤ t) × (t ≤ stored t + lost)

-- A heartbeat that was written at `at`, and one that was left since it was not due.
after_beat-IsAlive :
    (stored : ℕ → ℕ) (last : Option ℕ) (lost interval at now : ℕ)
    → DropsAtMost lost stored
    → 0 < interval
    → lost * 2 ≤ interval
    → at ≤ now
    → now ≤ at + interval
    → IsAlive
        (health (kept stored (if is_due last interval at then some at else last)) interval now)
unfolding health is_due
after_beat-IsAlive stored none lost interval at now d p l q w =
    health_since-IsAlive interval (stored at) now p (ground (arith, d at))
after_beat-IsAlive stored (some last) lost interval at now d p l q w =
    elim (Bool-cases (ltb (last + interval / 2) at)) [
      | inl e ↦ rw e (health_since-IsAlive interval (stored at) now p (ground (arith, d at)))
      | inr e ↦ rw e (health_since-IsAlive interval (stored last) now p (ground (arith, d last)))
    ]

module _ {K : Type 0} (c : Conditions K) (r : Reconciler) where
  found_secret-last :
      (got : Result Secret) (b : ClusterBinding K)
      → (set_secret_ref c r (found_secret c r got) b).1.last_heartbeat_time ≡ b.last_heartbeat_time
  unfolding found_secret set_secret_ref
  found_secret-last (ok s) b = refl
  found_secret-last (err not_found) b = refl
  found_secret-last (err already_exists) b = refl
  found_secret-last (err invalid) b = refl
  found_secret-last (err (other _)) b = refl

  marked_valid-last :
      (o : Outcome) (b : ClusterBinding K)
      → (marked_valid c r o b).1.last_heartbeat_time ≡ b.last_heartbeat_time
  unfolding marked_valid
  marked_valid-last (ok _) b = refl
  marked_valid-last (err e) b = refl

  ensure_provided-last :
      (got : Result Secret) (b : ClusterBinding K) (h : List Call)
      → (ensure_provided c r got b h).0.1.last_heartbeat_time ≡ b.last_heartbeat_time
  unfolding ensure_provided secret_invalid
  ensure_provided-last (err not_found) b h = refl
  ensure_provided-last (err already_exists) b h = refl
  ensure_provided-last (err invalid) b h = refl
  ensure_provided-last (err (other _)) b h = refl
  ensure_provided-last (ok provided) b h =
      elim (Bool-cases (is_some (lookup b.secret_key provided.data_of))) [
        | inl e ↦ rw e (marked_valid-last (copy_secret c r provided h).0 b)
        | inr e ↦ rw e refl
      ]

  mark_version-beat :
      (v : Result String) (b : ClusterBinding K)
      → ((mark_version c r v b).last_heartbeat_time ≡ b.last_heartbeat_time)
        × ((mark_version c r v b).heartbeat_interval ≡ b.heartbeat_interval)
  unfolding mark_version
  mark_version-beat (ok v) b = (refl, refl)
  mark_version-beat (err e) b = (refl, refl)

  reconcile-beat :
      (at : ℕ) (b : ClusterBinding K) (h : List Call)
      → ((reconcile c r at b h).0.1.last_heartbeat_time ≡ (
          if is_due b.last_heartbeat_time r.heartbeat_interval at
          then some at
          else b.last_heartbeat_time))
        × ((reconcile c r at b h).0.1.heartbeat_interval ≡ r.heartbeat_interval)
  unfolding reconcile ensure_konnector_version ensure_heartbeat ensure_consumer_secret
      ensure_consumer_secret_ref
  reconcile-beat at b h =
      let asked = call get_provider_secret (λ past. r.server.provider_secret past) h in
      let a = ensure_provided c r asked.0 b asked.1 in
      let got = get_consumer c r a.1 in
      let same = found_secret-last got.0 a.0.1 ∙ ensure_provided-last asked.0 b asked.1 in
      let new = ensure_heartbeat c r at (set_secret_ref c r (found_secret c r got.0) a.0.1).1 in
      let kept = mark_version-beat (binary_version r.quote r.git_version) new in
      (
        kept.0 ∙ ap (λ last. if is_due last r.heartbeat_interval at then some at else last) same,
        kept.1,
      )

  -- metav1.Time drops at most `lost` of the time of the heartbeat on its way to the backend, half an
  -- interval at most, and the interval is positive. After the konnector reconciled at `at`, whatever
  -- its calls answered and whatever the ClusterBinding held before, the backend finds the konnector
  -- alive at every time up to one interval later: it reports no timeout and no missing heartbeat.
  pub reconcile-IsAlive :
      (stored : ℕ → ℕ) (lost at now : ℕ) (b : ClusterBinding K) (h : List Call)
      → DropsAtMost lost stored
      → 0 < r.heartbeat_interval
      → lost * 2 ≤ r.heartbeat_interval
      → at ≤ now
      → now ≤ at + r.heartbeat_interval
      → let new : ClusterBinding K = (reconcile c r at b h).0.1 in
        IsAlive (health (kept stored new.last_heartbeat_time) new.heartbeat_interval now)
  reconcile-IsAlive stored lost at now b h d p l q w =
      let beat = reconcile-beat at b h in
      rw (beat.0, beat.1)
        (after_beat-IsAlive stored b.last_heartbeat_time lost r.heartbeat_interval at now d p l q w)

  -- metav1.Time drops at most `lost` of the time of the heartbeat, an interval at most. A heartbeat
  -- that is due is written, and for the next ten seconds less `lost`, and one interval at most, the
  -- backend reports a drift of the clocks, though both read the same clock.
  pub reconcile-drift :
      (stored : ℕ → ℕ) (lost at now : ℕ) (b : ClusterBinding K) (h : List Call)
      → DropsAtMost lost stored
      → 0 < r.heartbeat_interval
      → lost ≤ r.heartbeat_interval
      → is_due b.last_heartbeat_time r.heartbeat_interval at ≡ true
      → at ≤ now
      → now + lost < at + ten_seconds
      → now ≤ at + r.heartbeat_interval
      → let new : ClusterBinding K = (reconcile c r at b h).0.1 in
        health (kept stored new.last_heartbeat_time) new.heartbeat_interval now
        ≡ heartbeat_time_drift
  unfolding health health_since
  reconcile-drift stored lost at now b h d p l due q w x =
      let beat = reconcile-beat at b h in rw (beat.0, beat.1, due) (ground (arith, d at))
