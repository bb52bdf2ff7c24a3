-- ===== src/Vendor/Grafana.antt =====
-- internal/grafana/grafana.go: a GrafanaInstance as a grafana-operator Grafana.
pub mod Manifest
use project_easter.Base.{
  String, ◌<>◌, ◌&&◌, ◌==◌, Option, none, some, [], ◌∷◌, if◌then◌else◌, or_default,
}
use project_easter.Base.Int.{pos, int32}
use project_easter.Base.Format.{decimal, quote}
use project_easter.Base.Value.{
  Value, int, str, arr, obj, nil, cons, Fields, end, field, insert_if, insert_some,
}
use project_easter.Api.{
  GroupVersionKind, Unstructured, GrafanaInstance, GrafanaInstanceSpec, IngressSpec,
  PersistenceSpec,
}
use project_easter.Platform.{Library}
use project_easter.Reconciler.Adapter.{Adapter, TargetStatus}
use project_easter.Vendor.Common.{
  is_set, metadata_field, managed_labels, or_unknown, ready_condition, unknown_status, count_at,
}
use project_easter.Vendor.Ingress

abbrev pub field_manager : String
field_manager = "grafanainstance-operator"

abbrev pub gvk : GroupVersionKind
gvk = record { group = "grafana.integreatly.org"; version = "v1beta1"; kind = "Grafana" }

abbrev ingress_spec : IngressSpec → Fields
ingress_spec i =
    insert_if (is_set i.tls_secret_name) "tls" (Ingress.tls_block i.host i.tls_secret_name) (
      insert_if (is_set i.ingress_class_name) "ingressClassName" (str i.ingress_class_name)
        (field "rules" (arr (cons (obj (field "host" (str i.host) end)) nil)) end))

abbrev ingress : Option IngressSpec → Option Value
ingress none = none
ingress (some i) = some (
    obj (
      insert_some "metadata" (metadata_field i.annotations)
        (field "spec" (obj (ingress_spec i)) end)))

abbrev volume_claim : Option PersistenceSpec → Option Value
volume_claim none = none
volume_claim (some p) =
    let claim = insert_if (is_set p.storage_class) "storageClassName" (str p.storage_class) (
      field "accessModes" (arr (cons (str "ReadWriteOnce") nil)) (
        field "resources" (obj (field "requests" (obj (field "storage" (str p.size) end)) end))
          end)) in
    some (obj (field "spec" (obj claim) end))

unfoldable pub grafana_spec : GrafanaInstanceSpec → Fields
grafana_spec spec = insert_some "persistentVolumeClaim" (volume_claim spec.persistence) (
    insert_some "ingress" (ingress spec.ingress) (
      insert_if (is_set spec.version) "version" (str spec.version) (
        field "deployment" (obj (field "spec" (obj (field "replicas" (int spec.replicas) end)) end))
          end)))

unfoldable pub build_manifest : GrafanaInstance → String → String → String → Unstructured
unfolding grafana_spec
build_manifest cr name namespace owner = record {
  gvk = gvk;
  name = name;
  namespace = namespace;
  labels = managed_labels field_manager owner;
  annotations = [];
  object = field "spec" (obj (grafana_spec cr.spec)) end;
}

-- Ready by the stage alone; the counts are for display.
unfoldable pub extract_status : Library → Option Unstructured → TargetStatus
extract_status l none = unknown_status
extract_status l (some u) =
    let stage = or_unknown (l.nested_string u.object ("status" ∷ "stage" ∷ [])) in
    let stage_status = or_default "" (l.nested_string u.object ("status" ∷ "stageStatus" ∷ [])) in
    let desired =
      or_default (pos 1)
        (l.nested_int64 u.object ("spec" ∷ "deployment" ∷ "spec" ∷ "replicas" ∷ [])) in
    record {
      phase = stage <> ("/" <> stage_status);
      ready = (stage == "complete") && (stage_status == "success");
      observed_count = int32 desired;
      ready_count = count_at l u ("status" ∷ "replicas" ∷ []);
    }

unfoldable pub status_message : Library → String → TargetStatus → String
unfolding quote decimal
status_message l target s =
    if s.ready
    then "Grafana "
      <> (quote l.is_print target
          <> (" is ready ("
              <> (decimal s.ready_count <> ("/" <> (decimal s.observed_count <> " replicas)")))))
    else "Waiting for Grafana " <> (quote l.is_print target <> (" (stage: " <> (s.phase <> ")")))

unfoldable pub apply_status :
    Library → GrafanaInstance → String → TargetStatus → GrafanaInstance × String
unfolding status_message
apply_status l cr target s =
    let message = status_message l target s in
    let condition =
      ready_condition "GrafanaReady" "GrafanaNotReady" message cr.metadata.generation s.ready in
    (
      record cr {
        status = record {
          ready = s.ready;
          phase = s.phase;
          replicas = s.ready_count;
          message = message;
          conditions = l.set_status_condition cr.status.conditions condition;
        };
      },
      message,
    )

abbrev pub adapter : Library → Adapter GrafanaInstance
adapter l = record {
  gvk = gvk;
  target_name = λ name. name;
  object_kind = "Grafana";
  field_manager = field_manager;
  build_manifest = build_manifest;
  extract_status = extract_status l;
  apply_status = apply_status l;
  extra_resources = none;
}
