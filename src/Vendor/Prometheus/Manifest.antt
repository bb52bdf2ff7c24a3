-- ===== src/Vendor/Prometheus/Manifest.antt =====
-- The manifest of a PrometheusInstance, read by the schema of the Prometheus operator.
use project_easter.Base.{Bool, Option, String, [], ap, none, refl, some, true, ◌∷◌, ◌≡◌}
use project_easter.Base.Int.{ℤ, pos}
use project_easter.Base.Value.{
  Fields, Value, as_bool, as_int, as_str, end, lookup, map_laws, nested, obj, or_else-none, under,
}
use project_easter.Api.{PrometheusInstance, PrometheusInstanceSpec, StorageSpec}
use project_easter.Vendor.Schema.{
  Schema, Shape, fits_some, word, number, flag, map_of, last, key, fits, Fits, insert_if-Fits,
  insert_some-Fits, spec-Fits,
}
use project_easter.Vendor.Reading.{
  as_str-given, given, compute_schema, fits-resources_json, claim_schema, fits-claim, Compute,
  compute_of, compute, compute_of-resources_json, Volume, volume, volume_in, volume_in-claim,
}
use project_easter.Vendor.Prometheus.{build_manifest, security_context, volume_claim}

-- The monitors that are selected, in which namespaces (none: the one of the Prometheus), and the
-- identity that the pods run under, beside what the spec asks for.
pub record Settings : Type 0 where
  pub version : Option String
  pub replicas : Option ℤ
  pub retention : Option String
  pub volume : Option Volume
  pub resources : Compute
  pub service_monitors : Option Value
  pub pod_monitors : Option Value
  pub service_monitor_namespaces : Option Value
  pub pod_monitor_namespaces : Option Value
  pub user : Option ℤ
  pub group : Option ℤ
  pub volume_group : Option ℤ
  pub non_root : Option Bool

abbrev volume_of : Option Value → Option Volume
volume_of none = none
volume_of (some v) = some (volume_in (under "spec" (under "volumeClaimTemplate" (some v))))

-- What the Prometheus asks for, by the keys of its schema.
pub read_prometheus : Fields → Settings
read_prometheus m = record {
  version = as_str (nested m ("spec" ∷ "version" ∷ []));
  replicas = as_int (nested m ("spec" ∷ "replicas" ∷ []));
  retention = as_str (nested m ("spec" ∷ "retention" ∷ []));
  volume = volume_of (nested m ("spec" ∷ "storage" ∷ []));
  resources = compute_of (nested m ("spec" ∷ "resources" ∷ []));
  service_monitors = nested m ("spec" ∷ "serviceMonitorSelector" ∷ []);
  pod_monitors = nested m ("spec" ∷ "podMonitorSelector" ∷ []);
  service_monitor_namespaces = nested m ("spec" ∷ "serviceMonitorNamespaceSelector" ∷ []);
  pod_monitor_namespaces = nested m ("spec" ∷ "podMonitorNamespaceSelector" ∷ []);
  user = as_int (nested m ("spec" ∷ "securityContext" ∷ "runAsUser" ∷ []));
  group = as_int (nested m ("spec" ∷ "securityContext" ∷ "runAsGroup" ∷ []));
  volume_group = as_int (nested m ("spec" ∷ "securityContext" ∷ "fsGroup" ∷ []));
  non_root = as_bool (nested m ("spec" ∷ "securityContext" ∷ "runAsNonRoot" ∷ []));
}

abbrev asked : Option StorageSpec → Option Volume
asked none = none
asked (some s) = some (volume s.size s.storage_class)

-- What the spec asks for, and what is the same for all: every monitor, of the own namespace alone, and
-- an identity that is not root.
pub settings : PrometheusInstanceSpec → Settings
settings spec = record {
  version = given spec.version;
  replicas = some spec.replicas;
  retention = given spec.retention;
  volume = asked spec.storage;
  resources = compute spec.resources;
  service_monitors = some (obj end);
  pod_monitors = some (obj end);
  service_monitor_namespaces = none;
  pod_monitor_namespaces = none;
  user = some (pos 1000);
  group = some (pos 2000);
  volume_group = some (pos 2000);
  non_root = some true;
}

volume_of-volume_claim : (s : Option StorageSpec) → volume_of (volume_claim s) ≡ asked s
volume_of-volume_claim none = refl
volume_of-volume_claim (some s) = ap some (volume_in-claim s.size s.storage_class)

-- The keys that the manifest may have.
abbrev volume_shape : Shape
volume_shape = key "volumeClaimTemplate" (map_of (key "spec" claim_schema last)) last

abbrev context_schema : Schema
context_schema = map_of (
    key "fsGroup" number
      (key "runAsGroup" number (key "runAsNonRoot" flag (key "runAsUser" number last))))

abbrev spec_schema : Shape
spec_schema = key "version" word (
    key "replicas" number (
      key "retention" word (
        key "storage" (map_of volume_shape) (
          key "resources" compute_schema (
            key "serviceMonitorSelector" (map_of last) (
              key "podMonitorSelector" (map_of last)
                (key "securityContext" context_schema last)))))))

fits-volume_claim :
    (o : Option StorageSpec) → fits_some (map_of volume_shape) (volume_claim o) ≡ true
unfolding fits
fits-volume_claim none = refl
fits-volume_claim (some o) = rw (fits-claim o.size o.storage_class) refl

abbrev pub manifest_schema : Shape
manifest_schema = key "spec" (map_of spec_schema) last

module _ (cr : PrometheusInstance) (name namespace owner : String) where
  abbrev object : Fields
  object = (build_manifest cr name namespace owner).object

  read_version : as_str (nested object ("spec" ∷ "version" ∷ [])) ≡ given cr.spec.version
  unfolding build_manifest
  read_version = simp map_laws (as_str-given cr.spec.version)

  read_replicas : as_int (nested object ("spec" ∷ "replicas" ∷ [])) ≡ some cr.spec.replicas
  unfolding build_manifest
  read_replicas = simp map_laws

  read_retention : as_str (nested object ("spec" ∷ "retention" ∷ [])) ≡ given cr.spec.retention
  unfolding build_manifest
  read_retention = simp map_laws (as_str-given cr.spec.retention)

  read_volume : volume_of (nested object ("spec" ∷ "storage" ∷ [])) ≡ asked cr.spec.storage
  unfolding build_manifest
  read_volume = simp (map_laws, or_else-none) (volume_of-volume_claim cr.spec.storage)

  read_resources :
      compute_of (nested object ("spec" ∷ "resources" ∷ [])) ≡ compute cr.spec.resources
  unfolding build_manifest
  read_resources = simp (map_laws, or_else-none) (compute_of-resources_json cr.spec.resources)

  read_service_monitors : nested object ("spec" ∷ "serviceMonitorSelector" ∷ []) ≡ some (obj end)
  unfolding build_manifest
  read_service_monitors = simp map_laws

  read_pod_monitors : nested object ("spec" ∷ "podMonitorSelector" ∷ []) ≡ some (obj end)
  unfolding build_manifest
  read_pod_monitors = simp map_laws

  read_service_monitor_namespaces :
      nested object ("spec" ∷ "serviceMonitorNamespaceSelector" ∷ []) ≡ none
  unfolding build_manifest
  read_service_monitor_namespaces = simp map_laws

  read_pod_monitor_namespaces : nested object ("spec" ∷ "podMonitorNamespaceSelector" ∷ []) ≡ none
  unfolding build_manifest
  read_pod_monitor_namespaces = simp map_laws

  read_context :
      (k : String) → nested object ("spec" ∷ "securityContext" ∷ k ∷ []) ≡ lookup k security_context
  unfolding build_manifest
  read_context k = simp map_laws

  manifest-Fits : Fits manifest_schema object
  unfolding build_manifest fits
  manifest-Fits = spec-Fits (
      insert_some-Fits _ _ (fits-resources_json cr.spec.resources) (
        insert_some-Fits _ _ (fits-volume_claim cr.spec.storage)
          (insert_if-Fits _ _ _ refl (insert_if-Fits _ _ _ refl (record { fitting = refl })))))

  -- Read by the schema of the Prometheus operator, the manifest asks for what the spec asks for: the
  -- version, the replicas, the retention, a volume exactly when the spec has one, the CPU and memory.
  -- Whatever the spec says, it selects every ServiceMonitor and PodMonitor, leaves the namespace selectors
  -- of both unset, and runs as user 1000 and group 2000, not as root. The version, the retention and the
  -- storage class have no key where the spec has "", and no object in the manifest has any other key.
  pub read_prometheus-build_manifest :
      (read_prometheus (build_manifest cr name namespace owner).object ≡ settings cr.spec)
      × Fits manifest_schema (build_manifest cr name namespace owner).object
  unfolding read_prometheus settings
  read_prometheus-build_manifest = (
    (λ i. record {
      version = read_version i;
      replicas = read_replicas i;
      retention = read_retention i;
      volume = read_volume i;
      resources = read_resources i;
      service_monitors = read_service_monitors i;
      pod_monitors = read_pod_monitors i;
      service_monitor_namespaces = read_service_monitor_namespaces i;
      pod_monitor_namespaces = read_pod_monitor_namespaces i;
      user = as_int (read_context "runAsUser" i);
      group = as_int (read_context "runAsGroup" i);
      volume_group = as_int (read_context "fsGroup" i);
      non_root = as_bool (read_context "runAsNonRoot" i);
    }),
    manifest-Fits,
  )
