-- ===== src/Tests/Resources.antt =====
-- A custom resource of each kind.
use project_easter.Base.{true, false, none, some, [], ◌∷◌}
use project_easter.Base.Int.{pos}
use project_easter.Api.{
  ObjectMeta, IngressSpec, ServiceExposeSpec, PostgresCluster, ValkeyCluster, GrafanaInstance,
  MariaDbCluster, RabbitMqCluster, PrometheusInstance,
}

abbrev pub routed : IngressSpec
routed = record {
  host = "main.example.com";
  ingress_class_name = "";
  tls_secret_name = "main-tls";
  annotations = ("issuer", "prod") ∷ [];
}

abbrev pub exposed : ServiceExposeSpec
exposed = record { type = "LoadBalancer"; annotations = ("pool", "a") ∷ [] }

abbrev pub metadata : ObjectMeta
metadata = record {
  name = "main";
  namespace = "data";
  generation = pos 4;
  resource_version = "9";
  deletion_timestamp = none;
  finalizers = [];
}

abbrev pub postgres : PostgresCluster
postgres = record {
  metadata = metadata;
  spec = record {
    instances = pos 3;
    image = "";
    storage = record { size = "10Gi"; storage_class = "fast" };
    database = record { name = "app"; owner = "app" };
    resources = record { requests = ("cpu", "500m") ∷ []; limits = [] };
    monitoring = record { enable_pod_monitor = true };
    expose = some (record { type = "LoadBalancer"; annotations = ("pool", "a") ∷ [] });
  };
  status = record {
    ready = false;
    phase = "";
    instances = pos 0;
    ready_instances = pos 0;
    message = "";
    conditions = [];
  };
}

abbrev pub valkey : ValkeyCluster
valkey = record {
  metadata = metadata;
  spec = record {
    shards = pos 3;
    replicas = pos 1;
    image = "";
    persistence = record { size = "1Gi"; storage_class = "" };
    resources = record { requests = []; limits = [] };
    expose = some exposed;
  };
  status = record {
    ready = true;
    phase = "";
    shards = pos 0;
    ready_shards = pos 0;
    message = "";
    conditions = [];
  };
}

abbrev pub grafana : GrafanaInstance
grafana = record {
  metadata = metadata;
  spec = record {
    version = "12.3.0";
    replicas = pos 1;
    persistence = some (record { size = "1Gi"; storage_class = "" });
    ingress = some routed;
  };
  status = record { ready = false; phase = ""; replicas = pos 0; message = ""; conditions = [] };
}

abbrev pub mariadb : MariaDbCluster
mariadb = record {
  metadata = metadata;
  spec = record {
    replicas = pos 3;
    image = "";
    storage = record { size = "1Gi"; storage_class = "" };
    database = record { name = "app"; owner = "app" };
    resources = record { requests = []; limits = [] };
    monitoring = record { enable_pod_monitor = false };
    expose = some exposed;
  };
  status = record {
    ready = false;
    phase = "";
    replicas = pos 0;
    ready_replicas = pos 0;
    message = "";
    conditions = [];
  };
}

abbrev pub rabbitmq : RabbitMqCluster
rabbitmq = record {
  metadata = metadata;
  spec = record {
    replicas = pos 3;
    image = "";
    storage = record { size = "1Gi"; storage_class = "" };
    resources = record { requests = []; limits = [] };
    ingress = some routed;
  };
  status = record {
    ready = false;
    phase = "";
    replicas = pos 0;
    ready_replicas = pos 0;
    message = "";
    conditions = [];
  };
}

abbrev pub prometheus : PrometheusInstance
prometheus = record {
  metadata = metadata;
  spec = record {
    version = "";
    replicas = pos 2;
    retention = "15d";
    storage = some (record { size = "10Gi"; storage_class = "fast" });
    resources = record { requests = []; limits = [] };
    ingress = some routed;
  };
  status = record {
    ready = false;
    phase = "";
    replicas = pos 0;
    ready_replicas = pos 0;
    message = "";
    conditions = [];
  };
}
