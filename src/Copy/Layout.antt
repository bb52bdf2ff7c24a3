-- ===== src/Copy/Layout.antt =====
-- The API types as they lie in memory: a pointer, a map or a slice is an address, or nil. The layouts of
-- the types that apimachinery and core/v1 declare are parameters.
use project_easter.Base.{ℕ, String, Bool, Option, List}
use project_easter.Base.Int.{ℤ}
use project_easter.Api.{StorageSpec, PersistenceSpec, DatabaseSpec, MonitoringSpec}

abbrev pub Addr : Type 0
Addr = ℕ

-- `none` is nil
abbrev pub Ptr : Type 0
Ptr = Option Addr

-- metav1.ObjectMeta, metav1.ListMeta and corev1.ResourceRequirements
pub record Foreign : Type 1 where
  pub Meta : Type 0
  pub ListMeta : Type 0
  pub Requirements : Type 0

-- metav1.TypeMeta
pub record TypeMeta : Type 0 where
  pub kind : String
  pub api_version : String

pub record IngressSpecLayout : Type 0 where
  pub host : String
  pub ingress_class_name : String
  pub tls_secret_name : String
  pub annotations : Ptr

pub record ServiceExposeSpecLayout : Type 0 where
  pub type : String
  pub annotations : Ptr

module _ (y : Foreign) where
  pub record PostgresClusterSpecLayout : Type 0 where
    pub instances : ℤ
    pub image : String
    pub storage : StorageSpec
    pub database : DatabaseSpec
    pub resources : y.Requirements
    pub monitoring : MonitoringSpec
    pub expose : Ptr

  pub record ValkeyClusterSpecLayout : Type 0 where
    pub shards : ℤ
    pub replicas : ℤ
    pub image : String
    pub persistence : PersistenceSpec
    pub resources : y.Requirements
    pub expose : Ptr

  pub record MariaDbClusterSpecLayout : Type 0 where
    pub replicas : ℤ
    pub image : String
    pub storage : StorageSpec
    pub database : DatabaseSpec
    pub resources : y.Requirements
    pub monitoring : MonitoringSpec
    pub expose : Ptr

  pub record RabbitMqClusterSpecLayout : Type 0 where
    pub replicas : ℤ
    pub image : String
    pub storage : StorageSpec
    pub resources : y.Requirements
    pub ingress : Ptr

  pub record PrometheusInstanceSpecLayout : Type 0 where
    pub version : String
    pub replicas : ℤ
    pub retention : String
    pub storage : Ptr
    pub resources : y.Requirements
    pub ingress : Ptr

  -- A custom resource with a spec and a status, and a list of them.
  pub record ResourceLayout (S T : Type 0) : Type 0 where
    pub type_meta : TypeMeta
    pub metadata : y.Meta
    pub spec : S
    pub status : T

  pub record ListLayout : Type 0 where
    pub type_meta : TypeMeta
    pub list_meta : y.ListMeta
    pub items : Ptr

pub record GrafanaInstanceSpecLayout : Type 0 where
  pub version : String
  pub replicas : ℤ
  pub persistence : Ptr
  pub ingress : Ptr

-- Each of the six statuses: whether it is ready, the phase, its one or two counts in their order, the
-- message and the conditions.
pub record StatusLayout : Type 0 where
  pub ready : Bool
  pub phase : String
  pub counts : List ℤ
  pub message : String
  pub conditions : Ptr
