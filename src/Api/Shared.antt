-- ===== src/Api/Shared.antt =====
-- The parts that several specs share (api/v1alpha1/expose_types.go, postgrescluster_types.go,
-- valkeycluster_types.go).
use project_easter.Base.{String, Bool}
use project_easter.Api.Meta.{StringMap}

pub record MonitoringSpec : Type 0 where
  pub enable_pod_monitor : Bool

pub record StorageSpec : Type 0 where
  pub size : String
  pub storage_class : String

pub record PersistenceSpec : Type 0 where
  pub size : String
  pub storage_class : String

pub record DatabaseSpec : Type 0 where
  pub name : String
  pub owner : String

pub record IngressSpec : Type 0 where
  pub host : String
  pub ingress_class_name : String
  pub tls_secret_name : String
  pub annotations : StringMap

-- `type` is a corev1.ServiceType, a string
pub record ServiceExposeSpec : Type 0 where
  pub type : String
  pub annotations : StringMap
