-- ===== src/Vendor/Valkey.antt =====
-- internal/valkey/valkey.go: a ValkeyCluster as a valkey-operator ValkeyCluster, with a Service to
pub mod Manifest
-- expose it.
use project_easter.Base.{String, ◌<>◌, ◌&&◌, Option, none, some, List, [], ◌∷◌, if◌then◌else◌}
use project_easter.Base.Int.{ℤ, pos, ltb_ℤ, leb_ℤ}
use project_easter.Base.Format.{decimal, quote}
use project_easter.Base.Value.{
  int, str, arr, obj, nil, cons, Fields, end, field, insert_if, insert_some,
}
use project_easter.Api.{
  GroupVersionKind, Unstructured, ValkeyCluster, ValkeyClusterSpec, ServiceExposeSpec,
}
use project_easter.Platform.{Library}
use project_easter.Reconciler.Adapter.{Adapter, TargetStatus, ExtraResource}
use project_easter.Vendor.Common.{
  is_set, resources_json, managed_labels, or_unknown, ready_condition, unknown_status, count_at,
}

abbrev pub field_manager : String
field_manager = "valkeycluster-operator"

abbrev pub gvk : GroupVersionKind
gvk = record { group = "valkey.io"; version = "v1alpha1"; kind = "ValkeyCluster" }

abbrev pub service_gvk : GroupVersionKind
service_gvk = record { group = ""; version = "v1"; kind = "Service" }

abbrev pub data_port : ℤ
data_port = pos 6379

unfoldable pub cluster_spec : ValkeyClusterSpec → Fields
cluster_spec spec = insert_some "resources" (resources_json spec.resources) (
    insert_if (is_set spec.image) "image" (str spec.image) (
      field "shards" (int spec.shards) (
        field "replicas" (int spec.replicas) (
          field "persistence"
            (obj (
              insert_if (is_set spec.persistence.storage_class) "storageClassName"
                (str spec.persistence.storage_class)
                (field "size" (str spec.persistence.size) end)))
            end))))

unfoldable pub build_manifest : ValkeyCluster → String → String → String → Unstructured
unfolding cluster_spec
build_manifest cr name namespace owner = record {
  gvk = gvk;
  name = name;
  namespace = namespace;
  labels = managed_labels field_manager owner;
  annotations = [];
  object = field "spec" (obj (cluster_spec cr.spec)) end;
}

abbrev service_spec : String → String → Fields
service_spec type target = field "type" (str type) (
    field "selector" (obj (field "valkey.io/cluster" (str target) end)) (
      field "ports"
        (arr (
          cons
            (obj (
              field "name" (str "valkey")
                (field "port" (int data_port) (field "targetPort" (int data_port) end))))
            nil))
        end))

-- The Service that exposes the cluster, or nil.
abbrev service : Option ServiceExposeSpec → String → String → String → Option Unstructured
service none target namespace owner = none
service (some e) target namespace owner = some (record {
  gvk = service_gvk;
  name = target <> "-external";
  namespace = namespace;
  labels = managed_labels field_manager owner;
  annotations = e.annotations;
  object = field "spec" (obj (service_spec e.type target)) end;
})

unfoldable pub extra_resources : ValkeyCluster → String → String → String → List ExtraResource
extra_resources cr target namespace owner =
    record {
      gvk = service_gvk;
      name = target <> "-external";
      desired = service cr.spec.expose target namespace owner;
    }
    ∷ []

unfoldable pub extract_status : Library → Option Unstructured → TargetStatus
extract_status l none = unknown_status
extract_status l (some u) =
    let observed = count_at l u ("status" ∷ "shards" ∷ []) in
    let ready_shards = count_at l u ("status" ∷ "readyShards" ∷ []) in
    record {
      phase = or_unknown (l.nested_string u.object ("status" ∷ "state" ∷ []));
      ready = ltb_ℤ (pos 0) observed && leb_ℤ observed ready_shards;
      observed_count = observed;
      ready_count = ready_shards;
    }

unfoldable pub status_message : Library → String → TargetStatus → String
unfolding quote decimal
status_message l target s =
    if s.ready
    then "ValkeyCluster "
      <> (quote l.is_print target
          <> (" is ready ("
              <> (decimal s.ready_count <> ("/" <> (decimal s.observed_count <> " shards)")))))
    else "Waiting for ValkeyCluster "
      <> (quote l.is_print target <> (" (state: " <> (s.phase <> ")")))

unfoldable pub apply_status :
    Library → ValkeyCluster → String → TargetStatus → ValkeyCluster × String
unfolding status_message
apply_status l cr target s =
    let message = status_message l target s in
    let condition =
      ready_condition "ClusterReady" "ClusterNotReady" message cr.metadata.generation s.ready in
    (
      record cr {
        status = record {
          ready = s.ready;
          phase = s.phase;
          shards = s.observed_count;
          ready_shards = s.ready_count;
          message = message;
          conditions = l.set_status_condition cr.status.conditions condition;
        };
      },
      message,
    )

abbrev pub adapter : Library → Adapter ValkeyCluster
adapter l = record {
  gvk = gvk;
  target_name = λ name. name;
  object_kind = "Valkey ValkeyCluster";
  field_manager = field_manager;
  build_manifest = build_manifest;
  extract_status = extract_status l;
  apply_status = apply_status l;
  extra_resources = some extra_resources;
}
