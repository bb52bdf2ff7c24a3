-- ===== src/Api/Specs.antt =====
-- The six specs of api/v1alpha1; a pointer field that may be nil is an `Option`.
use project_easter.Base.{String, Option}
use project_easter.Base.Int.{ℤ}
use project_easter.Api.Meta.{ResourceRequirements}
use project_easter.Api.Shared.{
  MonitoringSpec, StorageSpec, PersistenceSpec, DatabaseSpec, IngressSpec, ServiceExposeSpec,
}

pub record PostgresClusterSpec : Type 0 where
  pub instances : ℤ
  pub image : String
  pub storage : StorageSpec
  pub database : DatabaseSpec
  pub resources : ResourceRequirements
  pub monitoring : MonitoringSpec
  pub expose : Option ServiceExposeSpec

pub record ValkeyClusterSpec : Type 0 where
  pub shards : ℤ
  pub replicas : ℤ
  pub image : String
  pub persistence : PersistenceSpec
  pub resources : ResourceRequirements
  pub expose : Option ServiceExposeSpec

pub record GrafanaInstanceSpec : Type 0 where
  pub version : String
  pub replicas : ℤ
  pub persistence : Option PersistenceSpec
  pub ingress : Option IngressSpec

pub record MariaDbClusterSpec : Type 0 where
  pub replicas : ℤ
  pub image : String
  pub storage : StorageSpec
  pub database : DatabaseSpec
  pub resources : ResourceRequirements
  pub monitoring : MonitoringSpec
  pub expose : Option ServiceExposeSpec

pub record RabbitMqClusterSpec : Type 0 where
  pub replicas : ℤ
  pub image : String
  pub storage : StorageSpec
  pub resources : ResourceRequirements
  pub ingress : Option IngressSpec

pub record PrometheusInstanceSpec : Type 0 where
  pub version : String
  pub replicas : ℤ
  pub retention : String
  pub storage : Option StorageSpec
  pub resources : ResourceRequirements
  pub ingress : Option IngressSpec
