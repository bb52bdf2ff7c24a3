-- ===== src/Api/Statuses.antt =====
-- The six statuses of api/v1alpha1, and the custom resources.
use project_easter.Base.{String, Bool, List}
use project_easter.Base.Int.{ℤ}
use project_easter.Api.Meta.{Condition, Resource}
use project_easter.Api.Specs.{
  PostgresClusterSpec, ValkeyClusterSpec, GrafanaInstanceSpec, MariaDbClusterSpec,
  RabbitMqClusterSpec, PrometheusInstanceSpec,
}

pub record PostgresClusterStatus : Type 0 where
  pub ready : Bool
  pub phase : String
  pub instances : ℤ
  pub ready_instances : ℤ
  pub message : String
  pub conditions : List Condition

pub record ValkeyClusterStatus : Type 0 where
  pub ready : Bool
  pub phase : String
  pub shards : ℤ
  pub ready_shards : ℤ
  pub message : String
  pub conditions : List Condition

pub record GrafanaInstanceStatus : Type 0 where
  pub ready : Bool
  pub phase : String
  pub replicas : ℤ
  pub message : String
  pub conditions : List Condition

pub record MariaDbClusterStatus : Type 0 where
  pub ready : Bool
  pub phase : String
  pub replicas : ℤ
  pub ready_replicas : ℤ
  pub message : String
  pub conditions : List Condition

pub record RabbitMqClusterStatus : Type 0 where
  pub ready : Bool
  pub phase : String
  pub replicas : ℤ
  pub ready_replicas : ℤ
  pub message : String
  pub conditions : List Condition

pub record PrometheusInstanceStatus : Type 0 where
  pub ready : Bool
  pub phase : String
  pub replicas : ℤ
  pub ready_replicas : ℤ
  pub message : String
  pub conditions : List Condition

abbrev pub PostgresCluster : Type 0
PostgresCluster = Resource PostgresClusterSpec PostgresClusterStatus

abbrev pub ValkeyCluster : Type 0
ValkeyCluster = Resource ValkeyClusterSpec ValkeyClusterStatus

abbrev pub GrafanaInstance : Type 0
GrafanaInstance = Resource GrafanaInstanceSpec GrafanaInstanceStatus

abbrev pub MariaDbCluster : Type 0
MariaDbCluster = Resource MariaDbClusterSpec MariaDbClusterStatus

abbrev pub RabbitMqCluster : Type 0
RabbitMqCluster = Resource RabbitMqClusterSpec RabbitMqClusterStatus

abbrev pub PrometheusInstance : Type 0
PrometheusInstance = Resource PrometheusInstanceSpec PrometheusInstanceStatus
