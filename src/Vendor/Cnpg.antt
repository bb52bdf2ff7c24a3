-- ===== src/Vendor/Cnpg.antt =====
-- internal/cnpg/cnpg.go: a PostgresCluster as a CloudNativePG Cluster.
pub mod Manifest
use project_easter.Base.{String, ◌<>◌, true, ◌&&◌, Option, none, some, [], ◌∷◌, if◌then◌else◌}
use project_easter.Base.Int.{pos, ltb_ℤ, leb_ℤ}
use project_easter.Base.Format.{decimal, quote}
use project_easter.Base.Value.{
  Value, bool, int, str, arr, obj, nil, cons, Fields, end, field, insert_if, insert_some,
}
use project_easter.Api.{
  GroupVersionKind, Unstructured, PostgresCluster, PostgresClusterSpec, ServiceExposeSpec,
}
use project_easter.Platform.{Library}
use project_easter.Reconciler.Adapter.{Adapter, TargetStatus}
use project_easter.Vendor.Common.{
  is_set, resources_json, annotations_field, managed_labels, or_unknown, ready_condition,
  unknown_status, count_at,
}

abbrev pub field_manager : String
field_manager = "postgrescluster-operator"

abbrev pub gvk : GroupVersionKind
gvk = record { group = "postgresql.cnpg.io"; version = "v1"; kind = "Cluster" }

-- The external Service that CNPG is asked to manage.
abbrev managed : String → Option ServiceExposeSpec → Option Value
managed name none = none
managed name (some e) =
    let metadata =
      insert_some "annotations" (annotations_field e.annotations)
        (field "name" (str (name <> "-external")) end) in
    let service = field "selectorType" (str "rw") (
      field "serviceTemplate"
        (obj (
          field "metadata" (obj metadata) (field "spec" (obj (field "type" (str e.type) end)) end)))
        end) in
    some (obj (field "services" (obj (field "additional" (arr (cons (obj service) nil)) end)) end))

unfoldable pub cluster_spec : PostgresClusterSpec → String → Fields
cluster_spec spec name =
    insert_if spec.monitoring.enable_pod_monitor "monitoring"
      (obj (field "enablePodMonitor" (bool true) end))
      (insert_some "managed" (managed name spec.expose) (
        insert_some "resources" (resources_json spec.resources) (
          insert_if (is_set spec.image) "imageName" (str spec.image) (
            field "instances" (int spec.instances) (
              field "storage"
                (obj (
                  insert_if (is_set spec.storage.storage_class) "storageClass"
                    (str spec.storage.storage_class) (field "size" (str spec.storage.size) end)))
                (field "bootstrap"
                  (obj (
                    field "initdb"
                      (obj (
                        field "database" (str spec.database.name)
                          (field "owner" (str spec.database.owner) end)))
                      end))
                  end))))))

unfoldable pub build_manifest : PostgresCluster → String → String → String → Unstructured
unfolding cluster_spec
build_manifest cr name namespace owner = record {
  gvk = gvk;
  name = name;
  namespace = namespace;
  labels = managed_labels "postgrescluster-operator" owner;
  annotations = [];
  object = field "spec" (obj (cluster_spec cr.spec name)) end;
}

unfoldable pub extract_status : Library → Option Unstructured → TargetStatus
extract_status l none = unknown_status
extract_status l (some u) =
    let instances = count_at l u ("status" ∷ "instances" ∷ []) in
    let ready_instances = count_at l u ("status" ∷ "readyInstances" ∷ []) in
    record {
      phase = or_unknown (l.nested_string u.object ("status" ∷ "phase" ∷ []));
      ready = ltb_ℤ (pos 0) instances && leb_ℤ instances ready_instances;
      observed_count = instances;
      ready_count = ready_instances;
    }

unfoldable pub status_message : Library → String → TargetStatus → String
unfolding quote decimal
status_message l target s =
    if s.ready
    then "CNPG Cluster "
      <> (quote l.is_print target
          <> (" is ready ("
              <> (decimal s.ready_count <> ("/" <> (decimal s.observed_count <> " instances)")))))
    else "Waiting for CNPG Cluster "
      <> (quote l.is_print target <> (" (phase: " <> (s.phase <> ")")))

unfoldable pub apply_status :
    Library → PostgresCluster → String → TargetStatus → PostgresCluster × String
unfolding status_message
apply_status l cr target s =
    let message = status_message l target s in
    let condition =
      ready_condition "ClusterReady" "ClusterNotReady" message cr.metadata.generation s.ready in
    (
      record cr {
        status = record {
          ready = s.ready;
          phase = s.phase;
          instances = s.observed_count;
          ready_instances = s.ready_count;
          message = message;
          conditions = l.set_status_condition cr.status.conditions condition;
        };
      },
      message,
    )

abbrev pub adapter : Library → Adapter PostgresCluster
adapter l = record {
  gvk = gvk;
  target_name = λ name. name;
  object_kind = "CNPG Cluster";
  field_manager = field_manager;
  build_manifest = build_manifest;
  extract_status = extract_status l;
  apply_status = apply_status l;
  extra_resources = none;
}
