-- ===== src/Vendor/Prometheus.antt =====
-- internal/prometheus/prometheus.go: a PrometheusInstance as a Prometheus of the Prometheus
pub mod Manifest
pub mod Web
-- Operator, with a Service and an Ingress for its web UI.
use project_easter.Base.{
  String, ◌<>◌, true, false, ◌&&◌, Option, none, some, List, [], ◌∷◌, if◌then◌else◌, or_default,
}
use project_easter.Base.Int.{ℤ, pos, ltb_ℤ, leb_ℤ}
use project_easter.Base.Format.{decimal, quote}
use project_easter.Base.Value.{
  Value, bool, int, str, arr, obj, nil, cons, Fields, end, field, insert_if, insert_some,
}
use project_easter.Api.{
  GroupVersionKind, Unstructured, PrometheusInstance, PrometheusInstanceSpec, IngressSpec,
  StorageSpec,
}
use project_easter.Platform.{Library}
use project_easter.Reconciler.Adapter.{Adapter, TargetStatus, ExtraResource}
use project_easter.Vendor.Common.{
  is_set, resources_json, managed_labels, ready_condition, unknown_status, count_at,
}
use project_easter.Vendor.Ingress

abbrev pub field_manager : String
field_manager = "prometheusinstance-operator"

abbrev pub gvk : GroupVersionKind
gvk = record { group = "monitoring.coreos.com"; version = "v1"; kind = "Prometheus" }

abbrev pub service_gvk : GroupVersionKind
service_gvk = record { group = ""; version = "v1"; kind = "Service" }

abbrev pub web_port : ℤ
web_port = pos 9090

abbrev volume_claim : Option StorageSpec → Option Value
volume_claim none = none
volume_claim (some p) =
    let claim = insert_if (is_set p.storage_class) "storageClassName" (str p.storage_class) (
      field "accessModes" (arr (cons (str "ReadWriteOnce") nil)) (
        field "resources" (obj (field "requests" (obj (field "storage" (str p.size) end)) end))
          end)) in
    some (obj (field "volumeClaimTemplate" (obj (field "spec" (obj claim) end)) end))

abbrev security_context : Fields
security_context = field "fsGroup" (int (pos 2000)) (
    field "runAsGroup" (int (pos 2000))
      (field "runAsNonRoot" (bool true) (field "runAsUser" (int (pos 1000)) end)))

unfoldable pub prometheus_spec : PrometheusInstanceSpec → Fields
prometheus_spec spec = insert_some "resources" (resources_json spec.resources) (
    insert_some "storage" (volume_claim spec.storage) (
      insert_if (is_set spec.retention) "retention" (str spec.retention) (
        insert_if (is_set spec.version) "version" (str spec.version) (
          field "replicas" (int spec.replicas) (
            field "serviceMonitorSelector" (obj end) (
              field "podMonitorSelector" (obj end)
                (field "securityContext" (obj security_context) end)))))))

unfoldable pub build_manifest : PrometheusInstance → String → String → String → Unstructured
unfolding prometheus_spec
build_manifest cr name namespace owner = record {
  gvk = gvk;
  name = name;
  namespace = namespace;
  labels = managed_labels field_manager owner;
  annotations = [];
  object = field "spec" (obj (prometheus_spec cr.spec)) end;
}

abbrev service_spec : String → Fields
service_spec target = field "type" (str "ClusterIP") (
    field "selector" (obj (field "operator.prometheus.io/name" (str target) end)) (
      field "ports"
        (arr (
          cons
            (obj (
              field "name" (str "web")
                (field "port" (int web_port) (field "targetPort" (str "web") end))))
            nil))
        end))

abbrev service : String → String → String → Unstructured
service target namespace owner = record {
  gvk = service_gvk;
  name = target <> "-web";
  namespace = namespace;
  labels = managed_labels field_manager owner;
  annotations = [];
  object = field "spec" (obj (service_spec target)) end;
}

-- The Service and the Ingress, for an ingress that may be asked for.
abbrev web_resources : Option IngressSpec → String → String → String → List ExtraResource
web_resources none target namespace owner =
    record { gvk = service_gvk; name = target <> "-web"; desired = none }
    ∷ record { gvk = Ingress.gvk; name = target <> "-ingress"; desired = none }
    ∷ []
web_resources (some i) target namespace owner =
    let routed =
      Ingress.build i (target <> "-ingress") namespace owner field_manager (target <> "-web")
        web_port in
    record {
      gvk = service_gvk;
      name = target <> "-web";
      desired = some (service target namespace owner);
    }
    ∷ record { gvk = Ingress.gvk; name = target <> "-ingress"; desired = some routed }
    ∷ []

unfoldable pub extra_resources : PrometheusInstance → String → String → String → List ExtraResource
unfolding Ingress.build
extra_resources cr target namespace owner = web_resources cr.spec.ingress target namespace owner

unfoldable pub extract_status : Library → Option Unstructured → TargetStatus
extract_status l none = unknown_status
extract_status l (some u) =
    let observed = count_at l u ("status" ∷ "replicas" ∷ []) in
    let available = count_at l u ("status" ∷ "availableReplicas" ∷ []) in
    let paused = or_default false (l.nested_bool u.object ("status" ∷ "paused" ∷ [])) in
    record {
      phase =
          if paused then "Paused" else if ltb_ℤ (pos 0) observed then "Progressing" else "Unknown";
      ready = ltb_ℤ (pos 0) observed && leb_ℤ observed available;
      observed_count = observed;
      ready_count = available;
    }

unfoldable pub status_message : Library → String → TargetStatus → String
unfolding quote decimal
status_message l target s =
    if s.ready
    then "Prometheus "
      <> (quote l.is_print target
          <> (" is ready ("
              <> (decimal s.ready_count <> ("/" <> (decimal s.observed_count <> " replicas)")))))
    else "Waiting for Prometheus " <> (quote l.is_print target <> (" (phase: " <> (s.phase <> ")")))

unfoldable pub apply_status :
    Library → PrometheusInstance → String → TargetStatus → PrometheusInstance × String
unfolding status_message
apply_status l cr target s =
    let message = status_message l target s in
    let condition =
      ready_condition "PrometheusReady" "PrometheusNotReady" message cr.metadata.generation
        s.ready in
    (
      record cr {
        status = record {
          ready = s.ready;
          phase = s.phase;
          replicas = s.observed_count;
          ready_replicas = s.ready_count;
          message = message;
          conditions = l.set_status_condition cr.status.conditions condition;
        };
      },
      message,
    )

abbrev pub adapter : Library → Adapter PrometheusInstance
adapter l = record {
  gvk = gvk;
  target_name = λ name. name;
  object_kind = "Prometheus";
  field_manager = field_manager;
  build_manifest = build_manifest;
  extract_status = extract_status l;
  apply_status = apply_status l;
  extra_resources = some extra_resources;
}
