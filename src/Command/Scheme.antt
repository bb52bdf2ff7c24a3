-- ===== src/Command/Scheme.antt =====
-- The scheme: groupversion_info.go, the `init` of each file of api/v1alpha1, and that of cmd/main.go.
-- The entries that apimachinery and client-go make themselves are parameters.
use project_easter.Base.{String, List, [], ◌∷◌, ◌++◌, ◌<>◌}
use project_easter.Api.{
  GroupVersionKind, PostgresCluster, ValkeyCluster, GrafanaInstance, MariaDbCluster,
  RabbitMqCluster, PrometheusInstance,
}

-- Go's name of a type, which is its kind in the scheme. That of its list has "List" behind it.
pub record ApiType (R : Type 0) : Type 0 where
  pub type_name : String

instance abbrev pub postgres_cluster_type : ApiType PostgresCluster
postgres_cluster_type = record { type_name = "PostgresCluster" }

instance abbrev pub valkey_cluster_type : ApiType ValkeyCluster
valkey_cluster_type = record { type_name = "ValkeyCluster" }

instance abbrev pub grafana_instance_type : ApiType GrafanaInstance
grafana_instance_type = record { type_name = "GrafanaInstance" }

instance abbrev pub mariadb_cluster_type : ApiType MariaDbCluster
mariadb_cluster_type = record { type_name = "MariaDBCluster" }

instance abbrev pub rabbitmq_cluster_type : ApiType RabbitMqCluster
rabbitmq_cluster_type = record { type_name = "RabbitMQCluster" }

instance abbrev pub prometheus_instance_type : ApiType PrometheusInstance
prometheus_instance_type = record { type_name = "PrometheusInstance" }

-- a kind of `SchemeGroupVersion`
abbrev pub paas : String → GroupVersionKind
paas kind = record { group = "paas.example.com"; version = "v1alpha1"; kind = kind }

abbrev pub gvk_of : (R : Type 0) → ⦃t : ApiType R⦄ → GroupVersionKind
gvk_of R ⦃t⦄ = paas t.type_name

-- The `init` of a type's file: AddKnownTypes of the type and of its list.
abbrev pub add_known_types : (R : Type 0) → ⦃t : ApiType R⦄ → List GroupVersionKind
add_known_types R ⦃t⦄ = paas t.type_name ∷ paas (t.type_name <> "List") ∷ []

-- What clientgoscheme.AddToScheme and metav1.AddToGroupVersion register.
pub record Known : Type 0 where
  pub client_go : List GroupVersionKind
  pub group_version : List GroupVersionKind

-- `AddToScheme`: first that of the group version, then the files in the order of their names
abbrev pub add_to_scheme : Known → List GroupVersionKind
add_to_scheme k =
    k.group_version
    ++ (add_known_types GrafanaInstance
        ++ (add_known_types MariaDbCluster
            ++ (add_known_types PostgresCluster
                ++ (add_known_types PrometheusInstance
                    ++ (add_known_types RabbitMqCluster ++ add_known_types ValkeyCluster)))))

-- `init` of cmd/main.go
abbrev pub scheme : Known → List GroupVersionKind
scheme k = k.client_go ++ add_to_scheme k
