-- ===== src/Vendor/Conditions.antt =====
-- `ApplyStatus` of the six adapters: what it leaves in the status of the custom resource.
use project_easter.Base.{
  String, ◌≡◌, refl, Bool, true, false, List, ◌==◌, if◌then◌else◌, Option, some, none,
}
use project_easter.Base.Int.{ℤ}
use project_easter.Api.{
  Condition, Resource, PostgresCluster, ValkeyCluster, GrafanaInstance, MariaDbCluster,
  RabbitMqCluster, PrometheusInstance,
}
use project_easter.Platform.{Library, ConditionLaws, find_condition, says}
use project_easter.Reconciler.Adapter.{Adapter, TargetStatus}
use project_easter.Vendor.Wording.{
  Wording, sentence, cnpg, valkey, grafana, mariadb, rabbitmq, prometheus,
}
use project_easter.Vendor.Cnpg
use project_easter.Vendor.Valkey
use project_easter.Vendor.Grafana
use project_easter.Vendor.Mariadb
use project_easter.Vendor.Rabbitmq
use project_easter.Vendor.Prometheus

-- What a status shows of its target: readiness, phase and counts. A `GrafanaInstanceStatus` has no
-- field for the observed count.
pub record Shown : Type 0 where
  pub ready : Bool
  pub phase : String
  pub observed : Option ℤ
  pub ready_count : ℤ

abbrev pub shown_of : (counted : Bool) → TargetStatus → Shown
shown_of counted s = record {
  ready = s.ready;
  phase = s.phase;
  observed = if counted then some s.observed_count else none;
  ready_count = s.ready_count;
}

module _ {S T : Type 0} (l : Library) (conditions : T → List Condition) (message : T → String)
    (shown : T → Shown) (counted : Bool) (w : Wording) (a : Adapter (Resource S T)) where
  -- After `ApplyStatus` the method's message is the vendor's sentence on the target; the Ready
  -- condition is True or False by the target's readiness, with the reason for it, this message and
  -- the generation of the resource; every other condition says what it said; and the status shows
  -- the message and what the target has of readiness, phase and counts.
  abbrev pub Tells : Resource S T → String → TargetStatus → Type 0
  Tells cr target s =
      let (cr', said) = a.apply_status cr target s in
      (said ≡ sentence l w target s)
      × ((t : String)
          → says (find_condition t (conditions cr'.status)) ≡ (
              if "Ready" == t
              then some (record {
                type = "Ready";
                status = if s.ready then "True" else "False";
                reason = if s.ready then w.reached else w.pending;
                message = said;
                observed_generation = cr.metadata.generation;
                last_transition_time = "";
              })
              else says (find_condition t (conditions cr.status))))
      × (message cr'.status ≡ said)
      × (shown cr'.status ≡ shown_of counted s)

module _ (l : Library) (target : String) (s : TargetStatus) where
  abbrev pub CnpgTells : PostgresCluster → Type 0
  CnpgTells cr =
      Tells l (λ x. x.conditions) (λ x. x.message)
        (λ x. record {
          ready = x.ready;
          phase = x.phase;
          observed = some x.instances;
          ready_count = x.ready_instances;
        })
        true cnpg (Cnpg.adapter l) cr target s

  abbrev pub ValkeyTells : ValkeyCluster → Type 0
  ValkeyTells cr =
      Tells l (λ x. x.conditions) (λ x. x.message)
        (λ x. record {
          ready = x.ready;
          phase = x.phase;
          observed = some x.shards;
          ready_count = x.ready_shards;
        })
        true valkey (Valkey.adapter l) cr target s

  abbrev pub GrafanaTells : GrafanaInstance → Type 0
  GrafanaTells cr =
      Tells l (λ x. x.conditions) (λ x. x.message)
        (λ x. record {
          ready = x.ready;
          phase = x.phase;
          observed = none;
          ready_count = x.replicas;
        })
        false grafana (Grafana.adapter l) cr target s

  abbrev pub MariadbTells : MariaDbCluster → Type 0
  MariadbTells cr =
      Tells l (λ x. x.conditions) (λ x. x.message)
        (λ x. record {
          ready = x.ready;
          phase = x.phase;
          observed = some x.replicas;
          ready_count = x.ready_replicas;
        })
        true mariadb (Mariadb.adapter l) cr target s

  abbrev pub RabbitmqTells : RabbitMqCluster → Type 0
  RabbitmqTells cr =
      Tells l (λ x. x.conditions) (λ x. x.message)
        (λ x. record {
          ready = x.ready;
          phase = x.phase;
          observed = some x.replicas;
          ready_count = x.ready_replicas;
        })
        true rabbitmq (Rabbitmq.adapter l) cr target s

  abbrev pub PrometheusTells : PrometheusInstance → Type 0
  PrometheusTells cr =
      Tells l (λ x. x.conditions) (λ x. x.message)
        (λ x. record {
          ready = x.ready;
          phase = x.phase;
          observed = some x.replicas;
          ready_count = x.ready_replicas;
        })
        true prometheus (Prometheus.adapter l) cr target s

module _ (l : Library) (laws : ConditionLaws l) (target : String) (s : TargetStatus) where
  cnpg-Tells : (cr : PostgresCluster) → CnpgTells l target s cr
  unfolding Cnpg.apply_status Cnpg.status_message
  cnpg-Tells cr = (refl, laws.find_set cr.status.conditions _, refl, refl)

  valkey-Tells : (cr : ValkeyCluster) → ValkeyTells l target s cr
  unfolding Valkey.apply_status Valkey.status_message
  valkey-Tells cr = (refl, laws.find_set cr.status.conditions _, refl, refl)

  grafana-Tells : (cr : GrafanaInstance) → GrafanaTells l target s cr
  unfolding Grafana.apply_status Grafana.status_message
  grafana-Tells cr = (refl, laws.find_set cr.status.conditions _, refl, refl)

  mariadb-Tells : (cr : MariaDbCluster) → MariadbTells l target s cr
  unfolding Mariadb.apply_status Mariadb.status_message
  mariadb-Tells cr = (refl, laws.find_set cr.status.conditions _, refl, refl)

  rabbitmq-Tells : (cr : RabbitMqCluster) → RabbitmqTells l target s cr
  unfolding Rabbitmq.apply_status Rabbitmq.status_message
  rabbitmq-Tells cr = (refl, laws.find_set cr.status.conditions _, refl, refl)

  prometheus-Tells : (cr : PrometheusInstance) → PrometheusTells l target s cr
  unfolding Prometheus.apply_status Prometheus.status_message
  prometheus-Tells cr = (refl, laws.find_set cr.status.conditions _, refl, refl)

  -- `ApplyStatus` of each of the six adapters, for any status of the target: the message that the
  -- method returns names the target in quotes and says that it is ready, with its ready and its
  -- observed count, or, if it is not, that it is waited for, with its phase; the Ready condition is
  -- True or False by the target's readiness, with the reason for it, this message and the generation
  -- of the resource; every other condition says what it said before; and the status shows the
  -- message, and the readiness, the phase and the counts of the target (a Grafana's, the ready count).
  pub adapters-Tell :
      (p : PostgresCluster) (v : ValkeyCluster) (g : GrafanaInstance) (m : MariaDbCluster)
      (r : RabbitMqCluster) (o : PrometheusInstance)
      → CnpgTells l target s p
        × ValkeyTells l target s v
        × GrafanaTells l target s g
        × MariadbTells l target s m
        × RabbitmqTells l target s r
        × PrometheusTells l target s o
  adapters-Tell p v g m r o = (
    cnpg-Tells p,
    valkey-Tells v,
    grafana-Tells g,
    mariadb-Tells m,
    rabbitmq-Tells r,
    prometheus-Tells o,
  )
