-- ===== src/Fsm/Brokers/Lease.antt =====
-- How long a heartbeat keeps its broker active.
use mathlib.Core.Option
use aero_mq.Prelude.{
  ℕ, ◌*◌, ◌^◌, ◌-◌, ◌≡◌, refl, ap, ◌∙◌, Bool-cases, inl, inr, not, ltb, Option, none, some, nat_key,
  ◌==◌, if◌then◌else◌,
}
use aero_mq.Prelude.Map.{lookup}
use aero_mq.Fsm.State.{BrokerStatus, ClusterState, Env}
use aero_mq.Fsm.Brokers.{HeartbeatPayload, seen, broker_heartbeat}
use aero_mq.Fsm.Brokers.Liveness.{broker_heartbeat-brokers}
use aero_mq.Fsm.Failover.{is_expired, clean_inactive}
use aero_mq.Fsm.Failover.Expiry.{expire, clean_inactive-brokers}

expire-seen :
    (beat now : ℕ) (o : Option BrokerStatus)
    → Option.map (expire now) (Option.map (seen beat) o)
      ≡ Option.map {A = BrokerStatus}
          (λ b. record b { last_seen = beat; active = not (ltb (8 * 10 ^ 9) (now - beat)) })
          o
unfolding is_expired
expire-seen beat now none = refl
expire-seen beat now (some b) = elim (Bool-cases (ltb (8 * 10 ^ 9) (now - beat))) [
  | inl e ↦ rw e refl
  | inr e ↦ rw e refl
]

-- A heartbeat gives its broker eight seconds, whatever was known of it before: a sweep after the
-- heartbeat leaves the broker, if it is registered, with the heartbeat's time, and active exactly if
-- no more than eight seconds have passed since. To every other broker the sweep does what it would do
-- without the heartbeat.
pub clean_inactive-broker_heartbeat :
    (env later : Env) (payload : HeartbeatPayload) (s : ClusterState) (j : ℕ)
    → lookup j (clean_inactive later (broker_heartbeat env payload s)).brokers ≡ (
        if j == payload.id
        then Option.map {A = BrokerStatus}
            (λ b. record b {
              last_seen = env.now;
              active = not (ltb (8 * 10 ^ 9) (later.now - env.now));
            })
            (lookup j s.brokers)
        else lookup j (clean_inactive later s).brokers)
clean_inactive-broker_heartbeat env later payload s j =
    clean_inactive-brokers later j (broker_heartbeat env payload s)
    ∙ ap (Option.map (expire later.now)) (broker_heartbeat-brokers env payload s j)
    ∙ elim (Bool-cases (j == payload.id)) [
      | inl e ↦ rw e (expire-seen env.now later.now (lookup j s.brokers))
      | inr e ↦ rw (e, clean_inactive-brokers later j s) refl
    ]
