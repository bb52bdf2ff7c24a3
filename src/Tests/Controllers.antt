-- ===== src/Tests/Controllers.antt =====
-- Two controllers that meet at an object, on concrete resources.
use project_easter.Base.{◌*◌, ◌≡◌, refl, false, none, some, [], ◌∷◌, Any, inl, inr, ◌⊎◌, ◌≢◌}
use project_easter.Base.Int.{pos, int32}
use project_easter.Base.Value.{insert, insert_if, insert_some}
use project_easter.Api.{
  ObjectMeta, NamespacedName, IngressSpec, ServiceExposeSpec, Unstructured, PostgresCluster,
  ValkeyCluster, RabbitMqCluster, RabbitMqClusterSpec, RabbitMqClusterStatus, PrometheusInstance,
}
use project_easter.Reconciler.Contract.{Key, extra_key, listed}
use project_easter.Base.Exec.{ok}
use project_easter.Reconciler.Cleanup.{Deleted}
use project_easter.Controllers.Contention.{run_deletes_foreign_ingress}
use project_easter.Reconciler.Engine.{Outcome, second, reconcile}
use project_easter.Reconciler.Confinement.{run}
use project_easter.Vendor.Common.{scan_conditions, resources_json, resource_list_json}
use project_easter.Vendor.Ingress
use project_easter.Vendor.Cnpg
use project_easter.Vendor.Cnpg.Manifest.{Exposure, read_cnpg}
use project_easter.Vendor.Valkey
use project_easter.Vendor.Rabbitmq
use project_easter.Vendor.Prometheus
use project_easter.Controllers.Ownership.{
  rabbitmq, prometheus, OwnedBy, target_of, rabbitmq_prunes_prometheus, valkey_prunes_postgres,
}
use project_easter.Controllers.Owners.{place_of, owners_of_object}
use project_easter.Tests.Samples.{library}
use project_easter.Tests.Memory.{Memory, memory, holding, object_at}

abbrev main : ObjectMeta
main = record {
  name = "main";
  namespace = "data";
  generation = pos 1;
  resource_version = "5";
  deletion_timestamp = none;
  finalizers = "paas.example.com/cleanup" ∷ [];
}

abbrev routed : IngressSpec
routed = record {
  host = "metrics.example.com";
  ingress_class_name = "";
  tls_secret_name = "";
  annotations = [];
}

abbrev exposed : ServiceExposeSpec
exposed = record { type = "LoadBalancer"; annotations = [] }

abbrev pub monitor : PrometheusInstance
monitor = record {
  metadata = main;
  spec = record {
    version = "";
    replicas = pos 1;
    retention = "";
    storage = none;
    resources = record { requests = []; limits = [] };
    ingress = some routed;
  };
  status = record {
    ready = false;
    phase = "";
    replicas = pos 0;
    ready_replicas = pos 0;
    message = "";
    conditions = [];
  };
}

abbrev pub queue : RabbitMqCluster
queue = record {
  metadata = main;
  spec = record {
    replicas = pos 1;
    image = "";
    storage = record { size = "1Gi"; storage_class = "" };
    resources = record { requests = []; limits = [] };
    ingress = none;
  };
  status = record {
    ready = false;
    phase = "";
    replicas = pos 0;
    ready_replicas = pos 0;
    message = "";
    conditions = [];
  };
}

abbrev pub store : PostgresCluster
store = record {
  metadata = main;
  spec = record {
    instances = pos 1;
    image = "";
    storage = record { size = "1Gi"; storage_class = "" };
    database = record { name = "app"; owner = "app" };
    resources = record { requests = []; limits = [] };
    monitoring = record { enable_pod_monitor = false };
    expose = some exposed;
  };
  status = record {
    ready = false;
    phase = "";
    instances = pos 0;
    ready_instances = pos 0;
    message = "";
    conditions = [];
  };
}

abbrev pub cache : ValkeyCluster
cache = record {
  metadata = main;
  spec = record {
    shards = pos 1;
    replicas = pos 0;
    image = "";
    persistence = record { size = "1Gi"; storage_class = "" };
    resources = record { requests = []; limits = [] };
    expose = none;
  };
  status = record {
    ready = false;
    phase = "";
    shards = pos 0;
    ready_shards = pos 0;
    message = "";
    conditions = [];
  };
}

-- the Ingress that a RabbitMQCluster and a PrometheusInstance of one name share
abbrev shared : Key
shared = record { gvk = Ingress.gvk; namespace = "data"; name = "main-ingress" }

owners_of_object_example :
    ((rabbitmq ≡ prometheus) × (place_of rabbitmq queue ≡ place_of prometheus monitor))
    ⊎ ((rabbitmq ≢ prometheus)
        × (shared ≢ target_of library rabbitmq queue)
        × (shared ≢ target_of library prometheus monitor))
unfolding Rabbitmq.extra_resources Prometheus.extra_resources
owners_of_object_example =
    owners_of_object library rabbitmq prometheus queue monitor shared (inr (inl refl))
      (inr (inr (inl refl)))

queue_prunes_monitor :
    (k : Key) × Any
      (λ e. (extra_key "data" e ≡ k) × (e.desired ≡ none))
      (listed (Rabbitmq.adapter library) queue "main" "data" "main")
    × Any
        (λ e. (extra_key "data" e ≡ k) × ((u : Unstructured) × (e.desired ≡ some u)))
        (listed (Prometheus.adapter library) monitor "main" "data" "main")
queue_prunes_monitor = rabbitmq_prunes_prometheus library queue monitor routed refl refl refl refl

valkey_prunes_postgres_example :
    let u = Cnpg.build_manifest store "main" "data" "main" in
    (s : Exposure) × ((read_cnpg u.object).exposures ≡ some (s ∷ []))
    × Any
        (λ r.
          (extra_key "data" r
            ≡ record { gvk = Valkey.service_gvk; namespace = u.namespace; name = s.name })
          × (r.desired ≡ none))
        (listed (Valkey.adapter library) cache "main" "data" "main")
valkey_prunes_postgres_example =
    valkey_prunes_postgres library store cache exposed refl refl refl refl

abbrev pub request : NamespacedName
request = record { namespace = "data"; name = "main" }

abbrev web_ingress : Unstructured
web_ingress =
    Ingress.build routed "main-ingress" "data" "main" "prometheusinstance-operator" "main-web"
      (pos 9090)

abbrev contested : Memory RabbitMqCluster
contested = holding queue (web_ingress ∷ [])

-- A run for the RabbitMQCluster deletes the Ingress of the PrometheusInstance.
run_drops_foreign_ingress :
    object_at Ingress.gvk
      (record { namespace = "data"; name = "main-ingress" })
      (run library
        (memory RabbitMqClusterSpec RabbitMqClusterStatus)
        (Rabbitmq.adapter library)
        request
        contested).1.cluster.objects
    ≡ none
unfolding reconcile Rabbitmq.build_manifest Rabbitmq.extract_status Rabbitmq.extra_resources
    Ingress.build insert_if insert_some insert resources_json resource_list_json int32
run_drops_foreign_ingress = refl

abbrev waiting : Outcome
waiting = record { requeue = false; requeue_after = 15 * second }

queue_waits :
    (run library
      (memory RabbitMqClusterSpec RabbitMqClusterStatus)
      (Rabbitmq.adapter library)
      request
      contested).0
    ≡ ok waiting
unfolding reconcile Rabbitmq.build_manifest Rabbitmq.extract_status Rabbitmq.extra_resources
    Ingress.build insert_if insert_some insert resources_json resource_list_json int32
    scan_conditions
queue_waits = refl

abbrev contended : Key
contended = record { gvk = Ingress.gvk; namespace = "data"; name = "main-ingress" }

run_deletes_foreign_ingress_example :
    OwnedBy library prometheus monitor contended
    × Deleted
        (memory RabbitMqClusterSpec RabbitMqClusterStatus)
        (run library
          (memory RabbitMqClusterSpec RabbitMqClusterStatus)
          (Rabbitmq.adapter library)
          request
          contested).1.calls
        contended
run_deletes_foreign_ingress_example =
    run_deletes_foreign_ingress library (memory RabbitMqClusterSpec RabbitMqClusterStatus) request
      contested queue waiting monitor refl refl refl refl refl refl queue_waits
