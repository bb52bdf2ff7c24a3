-- ===== src/Vendor/Mariadb.antt =====
-- internal/mariadb/mariadb.go: a MariaDbCluster as a mariadb-operator MariaDB.
pub mod Manifest
use project_easter.Base.{
  String, ◌<>◌, true, ◌&&◌, Option, none, some, [], ◌∷◌, if◌then◌else◌, or_default,
}
use project_easter.Base.Int.{pos, ltb_ℤ}
use project_easter.Base.Format.{decimal, quote}
use project_easter.Base.Value.{
  Value, bool, int, str, obj, nil, Fields, end, field, insert_if, insert_some,
}
use project_easter.Api.{
  GroupVersionKind, Unstructured, MariaDbCluster, MariaDbClusterSpec, ServiceExposeSpec,
}
use project_easter.Platform.{Library}
use project_easter.Reconciler.Adapter.{Adapter, TargetStatus}
use project_easter.Vendor.Common.{
  is_set, resources_json, metadata_field, managed_labels, ready_condition, unknown_status, count_at,
  scan_conditions,
}

abbrev pub field_manager : String
field_manager = "mariadbcluster-operator"

abbrev pub gvk : GroupVersionKind
gvk = record { group = "k8s.mariadb.com"; version = "v1alpha1"; kind = "MariaDB" }

-- A reference to a Secret that mariadb-operator generates.
abbrev generated_secret : String → Value
generated_secret name =
    obj (field "name" (str name) (field "key" (str "password") (field "generate" (bool true) end)))

abbrev service : Option ServiceExposeSpec → Option Value
service none = none
service (some e) =
    some
      (obj (insert_some "metadata" (metadata_field e.annotations) (field "type" (str e.type) end)))

unfoldable pub cluster_spec : MariaDbClusterSpec → String → Fields
cluster_spec spec name =
    insert_if spec.monitoring.enable_pod_monitor "metrics"
      (obj (field "enabled" (bool true) (field "serviceMonitor" (obj end) end)))
      (insert_some "service" (service spec.expose) (
        insert_some "resources" (resources_json spec.resources) (
          insert_if (is_set spec.image) "image" (str spec.image) (
            insert_if (ltb_ℤ (pos 1) spec.replicas) "galera" (obj (field "enabled" (bool true) end))
              (field "replicas" (int spec.replicas) (
                field "storage"
                  (obj (
                    insert_if (is_set spec.storage.storage_class) "storageClassName"
                      (str spec.storage.storage_class) (field "size" (str spec.storage.size) end)))
                  (field "database" (str spec.database.name) (
                    field "username" (str spec.database.owner) (
                      field "passwordSecretKeyRef" (generated_secret (name <> "-app")) (
                        field "rootPasswordSecretKeyRef" (generated_secret (name <> "-root"))
                          end))))))))))

unfoldable pub build_manifest : MariaDbCluster → String → String → String → Unstructured
unfolding cluster_spec
build_manifest cr name namespace owner = record {
  gvk = gvk;
  name = name;
  namespace = namespace;
  labels = managed_labels field_manager owner;
  annotations = [];
  object = field "spec" (obj (cluster_spec cr.spec name)) end;
}

unfoldable pub extract_status : Library → Option Unstructured → TargetStatus
extract_status l none = unknown_status
extract_status l (some u) =
    let observed = count_at l u ("status" ∷ "replicas" ∷ []) in
    let conditions = or_default nil (l.nested_slice u.object ("status" ∷ "conditions" ∷ [])) in
    let (ready, phase) = scan_conditions "Ready" conditions in
    record {
      phase = phase;
      ready = ready && ltb_ℤ (pos 0) observed;
      observed_count = observed;
      ready_count = if ready then observed else pos 0;
    }

unfoldable pub status_message : Library → String → TargetStatus → String
unfolding quote decimal
status_message l target s =
    if s.ready
    then "MariaDB "
      <> (quote l.is_print target
          <> (" is ready ("
              <> (decimal s.ready_count <> ("/" <> (decimal s.observed_count <> " replicas)")))))
    else "Waiting for MariaDB " <> (quote l.is_print target <> (" (phase: " <> (s.phase <> ")")))

unfoldable pub apply_status :
    Library → MariaDbCluster → String → TargetStatus → MariaDbCluster × String
unfolding status_message
apply_status l cr target s =
    let message = status_message l target s in
    let condition =
      ready_condition "ClusterReady" "ClusterNotReady" message cr.metadata.generation s.ready in
    (
      record cr {
        status = record {
          ready = s.ready;
          phase = s.phase;
          replicas = s.observed_count;
          ready_replicas = s.ready_count;
          message = message;
          conditions = l.set_status_condition cr.status.conditions condition;
        };
      },
      message,
    )

abbrev pub adapter : Library → Adapter MariaDbCluster
adapter l = record {
  gvk = gvk;
  target_name = λ name. name;
  object_kind = "MariaDB";
  field_manager = field_manager;
  build_manifest = build_manifest;
  extract_status = extract_status l;
  apply_status = apply_status l;
  extra_resources = none;
}
