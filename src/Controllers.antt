-- ===== src/Controllers.antt =====
-- internal/controller: the six constructors that fill the fields of `GenericReconciler`. Its client,
-- scheme and recorder are arguments of the model's functions or left out.
pub mod Ownership
pub mod Owners
pub mod Contention
pub mod Together
use project_easter.Base.{String}
use project_easter.Api.{
  PostgresCluster, ValkeyCluster, GrafanaInstance, MariaDbCluster, RabbitMqCluster,
  PrometheusInstance,
}
use project_easter.Platform.{Library}
use project_easter.Reconciler.Adapter.{Adapter}
use project_easter.Vendor.Cnpg
use project_easter.Vendor.Valkey
use project_easter.Vendor.Grafana
use project_easter.Vendor.Mariadb
use project_easter.Vendor.Rabbitmq
use project_easter.Vendor.Prometheus

pub record GenericReconciler (R : Type 0) : Type 0 where
  pub adapter : Adapter R
  pub name : String

module _ (l : Library) where
  abbrev pub new_postgres_cluster_reconciler : GenericReconciler PostgresCluster
  new_postgres_cluster_reconciler = record { adapter = Cnpg.adapter l; name = "postgrescluster" }

  abbrev pub new_valkey_cluster_reconciler : GenericReconciler ValkeyCluster
  new_valkey_cluster_reconciler = record { adapter = Valkey.adapter l; name = "valkeycluster" }

  abbrev pub new_grafana_instance_reconciler : GenericReconciler GrafanaInstance
  new_grafana_instance_reconciler = record { adapter = Grafana.adapter l; name = "grafanainstance" }

  abbrev pub new_mariadb_cluster_reconciler : GenericReconciler MariaDbCluster
  new_mariadb_cluster_reconciler = record { adapter = Mariadb.adapter l; name = "mariadbcluster" }

  abbrev pub new_rabbitmq_cluster_reconciler : GenericReconciler RabbitMqCluster
  new_rabbitmq_cluster_reconciler = record {
    adapter = Rabbitmq.adapter l;
    name = "rabbitmqcluster";
  }

  abbrev pub new_prometheus_instance_reconciler : GenericReconciler PrometheusInstance
  new_prometheus_instance_reconciler = record {
    adapter = Prometheus.adapter l;
    name = "prometheusinstance";
  }
