-- ===== src/Command.antt =====
-- cmd/main.go: the options of the manager and the order of its setup. The flags are taken as parsed;
-- logging and the log options are left out. The manager and its servers belong to controller-runtime:
-- what it does with each request of the setup is a parameter.
pub mod Scheme
pub mod Setup
use project_easter.Base.{
  String, Bool, true, false, not, Option, none, some, List, [], ◌∷◌, ◌++◌, ◌<>◌, if◌then◌else◌,
}
use project_easter.Base.Exec.{Result, ok, err, Exec, pure, ◌>>=◌, ◌>>◌}
use project_easter.Api.{
  GroupVersionKind, PostgresCluster, ValkeyCluster, GrafanaInstance, MariaDbCluster,
  RabbitMqCluster, PrometheusInstance,
}
use project_easter.Command.Scheme.{
  ApiType, Known, gvk_of, scheme, postgres_cluster_type, valkey_cluster_type, grafana_instance_type,
  mariadb_cluster_type, rabbitmq_cluster_type, prometheus_instance_type,
}
use project_easter.Platform.{Library}
use project_easter.Vendor.Common.{is_set}
use project_easter.Controllers.{
  GenericReconciler, new_postgres_cluster_reconciler, new_valkey_cluster_reconciler,
  new_grafana_instance_reconciler, new_mariadb_cluster_reconciler, new_rabbitmq_cluster_reconciler,
  new_prometheus_instance_reconciler,
}

-- the variables that the flags set
pub record Flags : Type 0 where
  pub metrics_addr : String
  pub metrics_cert_path : String
  pub metrics_cert_name : String
  pub metrics_cert_key : String
  pub webhook_cert_path : String
  pub webhook_cert_name : String
  pub webhook_cert_key : String
  pub enable_leader_election : Bool
  pub probe_addr : String
  pub secure_metrics : Bool
  pub enable_http2 : Bool

-- with no flag given
abbrev pub default_flags : Flags
default_flags = record {
  metrics_addr = "0";
  metrics_cert_path = "";
  metrics_cert_name = "tls.crt";
  metrics_cert_key = "tls.key";
  webhook_cert_path = "";
  webhook_cert_name = "tls.crt";
  webhook_cert_key = "tls.key";
  enable_leader_election = false;
  probe_addr = ":8081";
  secure_metrics = true;
  enable_http2 = false;
}

-- the protocols that a tls.Config offers, all that is written of it
pub record TlsConfig : Type 0 where
  pub next_protos : List String

abbrev pub TlsOptions : Type 0
TlsOptions = List (TlsConfig → TlsConfig)

-- `disableHTTP2`
abbrev pub disable_http2 : TlsConfig → TlsConfig
disable_http2 c = record c { next_protos = "http/1.1" ∷ [] }

unfoldable pub tls_options : Flags → TlsOptions
tls_options f = if not f.enable_http2 then disable_http2 ∷ [] else []

-- webhook.Options
pub record WebhookOptions : Type 0 where
  pub tls_opts : TlsOptions
  pub cert_dir : String
  pub cert_name : String
  pub key_name : String

unfoldable pub webhook_options : Flags → WebhookOptions
unfolding tls_options
webhook_options f =
    let options : WebhookOptions = record {
      tls_opts = tls_options f;
      cert_dir = "";
      cert_name = "";
      key_name = "";
    } in
    if is_set f.webhook_cert_path
    then record options {
      cert_dir = f.webhook_cert_path;
      cert_name = f.webhook_cert_name;
      key_name = f.webhook_cert_key;
    }
    else options

-- metricsserver.Options; `filtered` is whether FilterProvider is WithAuthenticationAndAuthorization,
-- and not nil
pub record MetricsOptions : Type 0 where
  pub bind_address : String
  pub secure_serving : Bool
  pub tls_opts : TlsOptions
  pub filtered : Bool
  pub cert_dir : String
  pub cert_name : String
  pub key_name : String

unfoldable pub metrics_options : Flags → MetricsOptions
unfolding tls_options
metrics_options f =
    let options : MetricsOptions = record {
      bind_address = f.metrics_addr;
      secure_serving = f.secure_metrics;
      tls_opts = tls_options f;
      filtered = false;
      cert_dir = "";
      cert_name = "";
      key_name = "";
    } in
    let filtered : MetricsOptions =
      if f.secure_metrics then record options { filtered = true } else options in
    if is_set f.metrics_cert_path
    then record filtered {
      cert_dir = f.metrics_cert_path;
      cert_name = f.metrics_cert_name;
      key_name = f.metrics_cert_key;
    }
    else filtered

-- ctrl.Options; `webhook` holds the options from which webhook.NewServer makes the server
pub record Options : Type 0 where
  pub scheme : List GroupVersionKind
  pub metrics : MetricsOptions
  pub webhook : WebhookOptions
  pub health_probe_bind_address : String
  pub leader_election : Bool
  pub leader_election_id : String

unfoldable pub options : Known → Flags → Options
unfolding metrics_options webhook_options
options k f = record {
  scheme = scheme k;
  metrics = metrics_options f;
  webhook = webhook_options f;
  health_probe_bind_address = f.probe_addr;
  leader_election = f.enable_leader_election;
  leader_election_id = "32cc4a18.example.com";
}

-- What `SetupWithManager` gives to the builder: the kind of resource that the controller is for, and
-- its name; and the name of the event recorder that the controller holds.
pub record Registration : Type 0 where
  pub for : GroupVersionKind
  pub named : String
  pub recorder : String

-- What main asks of controller-runtime. `get_config` is GetConfigOrDie.
pub data Action : Type 0 where
  get_config : Action
  new_manager : Options → Action
  complete : Registration → Action
  add_healthz_check : String → Action
  add_readyz_check : String → Action
  start : Action

-- What controller-runtime does with it.
pub record Runtime : Type 1 where
  pub State : Type 0
  pub Error : Type 0
  pub act : Action → State → Result Error (Unit {0}) × State

-- os.Exit(1)
pub data Exit : Type 0 where
  exit_one : Exit

module _ (r : Runtime) where
  abbrev exits : Result r.Error (Unit {0}) → Result Exit (Unit {0})
  exits (ok a) = ok a
  exits (err e) = err exit_one

  -- An action; after a failure the process exits with code 1.
  abbrev pub perform : Action → Exec Exit r.State (Unit {0})
  perform x s = let (result, s') = r.act x s in (exits result, s')

  -- `SetupWithManager`
  unfoldable pub setup_with_manager :
      {R : Type 0} → ⦃t : ApiType R⦄ → GenericReconciler R → String → Exec Exit r.State (Unit {0})
  setup_with_manager {R} g recorder =
      perform (complete (record { for = gvk_of R; named = g.name; recorder = recorder }))

  unfoldable pub main : Library → Known → Flags → Exec Exit r.State (Unit {0})
  unfolding options setup_with_manager
  main l k f = do
    perform get_config
    perform (new_manager (options k f))
    setup_with_manager (new_postgres_cluster_reconciler l) "postgrescluster-operator"
    setup_with_manager (new_valkey_cluster_reconciler l) "valkeycluster-operator"
    setup_with_manager (new_grafana_instance_reconciler l) "grafanainstance-operator"
    setup_with_manager (new_mariadb_cluster_reconciler l) "mariadbcluster-operator"
    setup_with_manager (new_rabbitmq_cluster_reconciler l) "rabbitmqcluster-operator"
    setup_with_manager (new_prometheus_instance_reconciler l) "prometheusinstance-operator"
    perform (add_healthz_check "healthz")
    perform (add_readyz_check "readyz")
    perform start
