-- ===== src/Vendor/Rabbitmq.antt =====
-- internal/rabbitmq/rabbitmq.go: a RabbitMqCluster as a RabbitmqCluster of the RabbitMQ Cluster
pub mod Manifest
-- Operator, with an Ingress for its management UI.
use project_easter.Base.{
  String, ◌<>◌, ◌&&◌, Option, none, some, List, [], ◌∷◌, if◌then◌else◌, or_default,
}
use project_easter.Base.Int.{ℤ, pos, ltb_ℤ}
use project_easter.Base.Format.{decimal, quote}
use project_easter.Base.Value.{int, str, obj, nil, Fields, end, field, insert_if, insert_some}
use project_easter.Api.{
  GroupVersionKind, Unstructured, RabbitMqCluster, RabbitMqClusterSpec, IngressSpec,
}
use project_easter.Platform.{Library}
use project_easter.Reconciler.Adapter.{Adapter, TargetStatus, ExtraResource}
use project_easter.Vendor.Common.{
  is_set, resources_json, managed_labels, ready_condition, unknown_status, count_at,
  scan_conditions,
}
use project_easter.Vendor.Ingress

abbrev pub field_manager : String
field_manager = "rabbitmqcluster-operator"

abbrev pub gvk : GroupVersionKind
gvk = record { group = "rabbitmq.com"; version = "v1beta1"; kind = "RabbitmqCluster" }

abbrev pub management_port : ℤ
management_port = pos 15672

unfoldable pub cluster_spec : RabbitMqClusterSpec → Fields
cluster_spec spec = insert_some "resources" (resources_json spec.resources) (
    insert_if (is_set spec.image) "image" (str spec.image) (
      field "replicas" (int spec.replicas) (
        field "persistence"
          (obj (
            insert_if (is_set spec.storage.storage_class) "storageClassName"
              (str spec.storage.storage_class) (field "storage" (str spec.storage.size) end)))
          end)))

unfoldable pub build_manifest : RabbitMqCluster → String → String → String → Unstructured
unfolding cluster_spec
build_manifest cr name namespace owner = record {
  gvk = gvk;
  name = name;
  namespace = namespace;
  labels = managed_labels field_manager owner;
  annotations = [];
  object = field "spec" (obj (cluster_spec cr.spec)) end;
}

-- The Ingress in front of the management UI, or nil.
abbrev pub management_ingress : Option IngressSpec → String → String → String → Option Unstructured
management_ingress none target namespace owner = none
management_ingress (some i) target namespace owner =
    some
      (Ingress.build i (target <> "-ingress") namespace owner field_manager target management_port)

unfoldable pub extra_resources : RabbitMqCluster → String → String → String → List ExtraResource
unfolding Ingress.build
extra_resources cr target namespace owner =
    record {
      gvk = Ingress.gvk;
      name = target <> "-ingress";
      desired = management_ingress cr.spec.ingress target namespace owner;
    }
    ∷ []

unfoldable pub extract_status : Library → Option Unstructured → TargetStatus
extract_status l none = unknown_status
extract_status l (some u) =
    let observed = count_at l u ("spec" ∷ "replicas" ∷ []) in
    let conditions = or_default nil (l.nested_slice u.object ("status" ∷ "conditions" ∷ [])) in
    let (ready, phase) = scan_conditions "AllReplicasReady" conditions in
    record {
      phase = phase;
      ready = ready && ltb_ℤ (pos 0) observed;
      observed_count = observed;
      ready_count = if ready then observed else pos 0;
    }

unfoldable pub status_message : Library → String → TargetStatus → String
unfolding quote decimal
status_message l target s =
    if s.ready
    then "RabbitmqCluster "
      <> (quote l.is_print target
          <> (" is ready ("
              <> (decimal s.ready_count <> ("/" <> (decimal s.observed_count <> " replicas)")))))
    else "Waiting for RabbitmqCluster "
      <> (quote l.is_print target <> (" (phase: " <> (s.phase <> ")")))

unfoldable pub apply_status :
    Library → RabbitMqCluster → String → TargetStatus → RabbitMqCluster × String
unfolding status_message
apply_status l cr target s =
    let message = status_message l target s in
    let condition =
      ready_condition "ClusterReady" "ClusterNotReady" message cr.metadata.generation s.ready in
    (
      record cr {
        status = record {
          ready = s.ready;
          phase = s.phase;
          replicas = s.observed_count;
          ready_replicas = s.ready_count;
          message = message;
          conditions = l.set_status_condition cr.status.conditions condition;
        };
      },
      message,
    )

abbrev pub adapter : Library → Adapter RabbitMqCluster
adapter l = record {
  gvk = gvk;
  target_name = λ name. name;
  object_kind = "RabbitmqCluster";
  field_manager = field_manager;
  build_manifest = build_manifest;
  extract_status = extract_status l;
  apply_status = apply_status l;
  extra_resources = some extra_resources;
}
