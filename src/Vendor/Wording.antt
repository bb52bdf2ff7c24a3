-- ===== src/Vendor/Wording.antt =====
-- What the six adapters say of their targets, in words of its own: the messages and the reasons that
-- `ApplyStatus` (internal/cnpg, valkey, grafana, mariadb, rabbitmq, prometheus) is checked against.
use project_easter.Base.{String, if◌then◌else◌, ◌<>◌}
use project_easter.Base.Format.{decimal, quote}
use project_easter.Platform.{Library}
use project_easter.Reconciler.Adapter.{TargetStatus}

-- What differs between the vendors: the reasons of a Ready condition that is True and of one that is
-- False, and how the message begins, with what it counts and what it calls the phase.
pub record Wording : Type 0 where
  pub reached : String
  pub pending : String
  pub target : String
  pub waiting : String
  pub units : String
  pub stage : String

-- The message: the target has this many ready units of so many, or is waited for in this phase.
abbrev pub sentence : Library → Wording → String → TargetStatus → String
sentence l w name s =
    if s.ready
    then w.target
      <> (quote l.is_print name
          <> (" is ready ("
              <> (decimal s.ready_count <> ("/" <> (decimal s.observed_count <> w.units)))))
    else w.waiting <> (quote l.is_print name <> (w.stage <> (s.phase <> ")")))

abbrev pub cnpg : Wording
cnpg = record {
  reached = "ClusterReady";
  pending = "ClusterNotReady";
  target = "CNPG Cluster ";
  waiting = "Waiting for CNPG Cluster ";
  units = " instances)";
  stage = " (phase: ";
}

abbrev pub valkey : Wording
valkey = record {
  reached = "ClusterReady";
  pending = "ClusterNotReady";
  target = "ValkeyCluster ";
  waiting = "Waiting for ValkeyCluster ";
  units = " shards)";
  stage = " (state: ";
}

abbrev pub grafana : Wording
grafana = record {
  reached = "GrafanaReady";
  pending = "GrafanaNotReady";
  target = "Grafana ";
  waiting = "Waiting for Grafana ";
  units = " replicas)";
  stage = " (stage: ";
}

abbrev pub mariadb : Wording
mariadb = record {
  reached = "ClusterReady";
  pending = "ClusterNotReady";
  target = "MariaDB ";
  waiting = "Waiting for MariaDB ";
  units = " replicas)";
  stage = " (phase: ";
}

abbrev pub rabbitmq : Wording
rabbitmq = record {
  reached = "ClusterReady";
  pending = "ClusterNotReady";
  target = "RabbitmqCluster ";
  waiting = "Waiting for RabbitmqCluster ";
  units = " replicas)";
  stage = " (phase: ";
}

abbrev pub prometheus : Wording
prometheus = record {
  reached = "PrometheusReady";
  pending = "PrometheusNotReady";
  target = "Prometheus ";
  waiting = "Waiting for Prometheus ";
  units = " replicas)";
  stage = " (phase: ";
}
