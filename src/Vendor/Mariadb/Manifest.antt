-- ===== src/Vendor/Mariadb/Manifest.antt =====
-- The manifest of a MariaDBCluster, read by the schema of mariadb-operator.
use project_easter.Base.{
  Bool, Option, String, [], arith, if◌then◌else◌, none, refl, some, true, ◌<>◌, ◌∷◌, ◌≡◌,
}
use project_easter.Base.Int.{ℤ, pos, ltb_ℤ}
use project_easter.Base.Value.{
  Fields, Value, as_bool, as_int, as_str, end, field, insert_if, insert_some, lookup, map_laws,
  nested, obj, or_else-none, str, under,
}
use project_easter.Api.{MariaDbCluster, MariaDbClusterSpec, ServiceExposeSpec}
use project_easter.Vendor.Common.{is_set, metadata_field}
use project_easter.Vendor.Schema.{
  Schema, Shape, fits_some, word, number, flag, map_of, last, key, fits, Fits, insert_if-Fits,
  insert_some-Fits, spec-Fits,
}
use project_easter.Vendor.Reading.{
  as_str-given, given, compute_schema, fits-resources_json, annotations_of-metadata_field,
  annotations_of, annotations, metadata_schema, fits-metadata_field, Compute, compute_of, compute,
  compute_of-resources_json,
}
use project_easter.Vendor.Mariadb.{build_manifest, service}

-- A Service to be made: its type, and its annotations by name.
pub record Exposure : Type 0 where
  pub type : Option String
  pub annotations : Option (String → Option String)

-- A password that the operator generates into a Secret.
pub record Password : Type 0 where
  pub secret : Option String
  pub key : Option String
  pub generated : Option Bool

pub record Settings : Type 0 where
  pub replicas : Option ℤ
  pub galera : Option Bool
  pub image : Option String
  pub size : Option String
  pub storage_class : Option String
  pub database : Option String
  pub username : Option String
  pub password : Password
  pub root_password : Password
  pub resources : Compute
  pub metrics : Option Bool
  pub service_monitor : Option Value
  pub exposure : Option Exposure

abbrev password_of : Option Value → Password
password_of v = record {
  secret = as_str (under "name" v);
  key = as_str (under "key" v);
  generated = as_bool (under "generate" v);
}

abbrev exposure_of : Option Value → Option Exposure
exposure_of none = none
exposure_of (some v) = some (record {
  type = as_str (under "type" (some v));
  annotations = annotations_of (under "annotations" (under "metadata" (some v)));
})

-- What the MariaDB asks for, by the keys of its schema.
pub read_mariadb : Fields → Settings
read_mariadb m = record {
  replicas = as_int (nested m ("spec" ∷ "replicas" ∷ []));
  galera = as_bool (nested m ("spec" ∷ "galera" ∷ "enabled" ∷ []));
  image = as_str (nested m ("spec" ∷ "image" ∷ []));
  size = as_str (nested m ("spec" ∷ "storage" ∷ "size" ∷ []));
  storage_class = as_str (nested m ("spec" ∷ "storage" ∷ "storageClassName" ∷ []));
  database = as_str (nested m ("spec" ∷ "database" ∷ []));
  username = as_str (nested m ("spec" ∷ "username" ∷ []));
  password = password_of (nested m ("spec" ∷ "passwordSecretKeyRef" ∷ []));
  root_password = password_of (nested m ("spec" ∷ "rootPasswordSecretKeyRef" ∷ []));
  resources = compute_of (nested m ("spec" ∷ "resources" ∷ []));
  metrics = as_bool (nested m ("spec" ∷ "metrics" ∷ "enabled" ∷ []));
  service_monitor = nested m ("spec" ∷ "metrics" ∷ "serviceMonitor" ∷ []);
  exposure = exposure_of (nested m ("spec" ∷ "service" ∷ []));
}

abbrev exposure : Option ServiceExposeSpec → Option Exposure
exposure none = none
exposure (some e) = some (record { type = some e.type; annotations = annotations e.annotations })

abbrev generated_password : String → Password
generated_password secret = record {
  secret = some secret;
  key = some "password";
  generated = some true;
}

-- What the spec of the MariaDBCluster asks for.
pub settings : MariaDbClusterSpec → String → Settings
settings spec name = record {
  replicas = some spec.replicas;
  galera = if ltb_ℤ (pos 1) spec.replicas then some true else none;
  image = given spec.image;
  size = some spec.storage.size;
  storage_class = given spec.storage.storage_class;
  database = some spec.database.name;
  username = some spec.database.owner;
  password = generated_password (name <> "-app");
  root_password = generated_password (name <> "-root");
  resources = compute spec.resources;
  metrics = if spec.monitoring.enable_pod_monitor then some true else none;
  service_monitor = if spec.monitoring.enable_pod_monitor then some (obj end) else none;
  exposure = exposure spec.expose;
}

exposure_of-service : (e : Option ServiceExposeSpec) → exposure_of (service e) ≡ exposure e
exposure_of-service none = refl
exposure_of-service (some e) =
    λ i. some (record { type = type_path i; annotations = annotations_path i })
  where
    fields : Fields
    fields = insert_some "metadata" (metadata_field e.annotations) (field "type" (str e.type) end)

    type_path : as_str (lookup "type" fields) ≡ some e.type
    type_path = simp map_laws

    annotations_path :
        annotations_of (under "annotations" (lookup "metadata" fields)) ≡ annotations e.annotations
    annotations_path = simp (map_laws, or_else-none) (annotations_of-metadata_field e.annotations)

-- The keys that the manifest may have.
abbrev storage_schema : Shape
storage_schema = key "size" word (key "storageClassName" word last)

abbrev secret_schema : Schema
secret_schema = map_of (key "name" word (key "key" word (key "generate" flag last)))

abbrev service_schema : Shape
service_schema = key "type" word (key "metadata" metadata_schema last)

abbrev spec_schema : Shape
spec_schema = key "replicas" number (
    key "galera" (map_of (key "enabled" flag last)) (
      key "image" word (
        key "storage" (map_of storage_schema) (
          key "database" word (
            key "username" word (
              key "passwordSecretKeyRef" secret_schema (
                key "rootPasswordSecretKeyRef" secret_schema (
                  key "resources" compute_schema (
                    key "metrics"
                      (map_of (key "enabled" flag (key "serviceMonitor" (map_of last) last)))
                      (key "service" (map_of service_schema) last))))))))))

fits-service : (e : Option ServiceExposeSpec) → fits_some (map_of service_schema) (service e) ≡ true
unfolding fits
fits-service none = refl
fits-service (some e) =
    let f : Fits service_schema
        (insert_some "metadata" (metadata_field e.annotations) (field "type" (str e.type) end)) =
      insert_some-Fits _ _ (fits-metadata_field e.annotations) (record { fitting = refl }) in
    f.fitting

abbrev pub manifest_schema : Shape
manifest_schema = key "spec" (map_of spec_schema) last

module _ (cr : MariaDbCluster) (name namespace owner : String) where
  abbrev object : Fields
  object = (build_manifest cr name namespace owner).object

  read_replicas : as_int (nested object ("spec" ∷ "replicas" ∷ [])) ≡ some cr.spec.replicas
  unfolding build_manifest
  read_replicas = simp map_laws

  read_galera :
      as_bool (nested object ("spec" ∷ "galera" ∷ "enabled" ∷ []))
      ≡ (if ltb_ℤ (pos 1) cr.spec.replicas then some true else none)
  unfolding build_manifest
  read_galera = simp map_laws (ground arith)

  read_image : as_str (nested object ("spec" ∷ "image" ∷ [])) ≡ given cr.spec.image
  unfolding build_manifest
  read_image = simp map_laws (as_str-given cr.spec.image)

  read_size : as_str (nested object ("spec" ∷ "storage" ∷ "size" ∷ [])) ≡ some cr.spec.storage.size
  unfolding build_manifest
  read_size = simp map_laws

  read_storage_class :
      as_str (nested object ("spec" ∷ "storage" ∷ "storageClassName" ∷ []))
      ≡ given cr.spec.storage.storage_class
  unfolding build_manifest
  read_storage_class = simp map_laws (as_str-given cr.spec.storage.storage_class)

  read_database : as_str (nested object ("spec" ∷ "database" ∷ [])) ≡ some cr.spec.database.name
  unfolding build_manifest
  read_database = simp map_laws

  read_username : as_str (nested object ("spec" ∷ "username" ∷ [])) ≡ some cr.spec.database.owner
  unfolding build_manifest
  read_username = simp map_laws

  read_password :
      password_of (nested object ("spec" ∷ "passwordSecretKeyRef" ∷ []))
      ≡ generated_password (name <> "-app")
  unfolding build_manifest
  read_password = simp map_laws

  read_root_password :
      password_of (nested object ("spec" ∷ "rootPasswordSecretKeyRef" ∷ []))
      ≡ generated_password (name <> "-root")
  unfolding build_manifest
  read_root_password = simp map_laws

  read_resources :
      compute_of (nested object ("spec" ∷ "resources" ∷ [])) ≡ compute cr.spec.resources
  unfolding build_manifest
  read_resources = simp (map_laws, or_else-none) (compute_of-resources_json cr.spec.resources)

  read_metrics :
      as_bool (nested object ("spec" ∷ "metrics" ∷ "enabled" ∷ []))
      ≡ (if cr.spec.monitoring.enable_pod_monitor then some true else none)
  unfolding build_manifest
  read_metrics = simp map_laws (ground arith)

  read_service_monitor :
      nested object ("spec" ∷ "metrics" ∷ "serviceMonitor" ∷ [])
      ≡ (if cr.spec.monitoring.enable_pod_monitor then some (obj end) else none)
  unfolding build_manifest
  read_service_monitor = simp map_laws (ground arith)

  read_exposure : exposure_of (nested object ("spec" ∷ "service" ∷ [])) ≡ exposure cr.spec.expose
  unfolding build_manifest
  read_exposure = simp (map_laws, or_else-none) (exposure_of-service cr.spec.expose)

  manifest-Fits : Fits manifest_schema object
  unfolding build_manifest fits
  manifest-Fits =
      let stored : Fits storage_schema (
          insert_if (is_set cr.spec.storage.storage_class) "storageClassName"
            (str cr.spec.storage.storage_class) (field "size" (str cr.spec.storage.size) end)) =
        insert_if-Fits _ _ _ refl (record { fitting = refl }) in
      spec-Fits (
        insert_if-Fits _ _ _ refl (
          insert_some-Fits _ _ (fits-service cr.spec.expose) (
            insert_some-Fits _ _ (fits-resources_json cr.spec.resources) (
              insert_if-Fits _ _ _ refl
                (insert_if-Fits _ _ _ refl (record { fitting = rw stored.fitting refl }))))))

  -- Read by the schema of mariadb-operator, the manifest asks for what the spec asks for: the replicas,
  -- Galera exactly with more than one of them, the image, the volume, the database and its user, generated
  -- passwords for the user and for root, the CPU and memory, the metrics with a ServiceMonitor exactly
  -- when the spec enables them, and the Service with its annotations. The image and the storage class
  -- have no key where the spec has "", and no object in the manifest has any other key.
  pub read_mariadb-build_manifest :
      (read_mariadb (build_manifest cr name namespace owner).object ≡ settings cr.spec name)
      × Fits manifest_schema (build_manifest cr name namespace owner).object
  unfolding read_mariadb settings
  read_mariadb-build_manifest = (
    (λ i. record {
      replicas = read_replicas i;
      galera = read_galera i;
      image = read_image i;
      size = read_size i;
      storage_class = read_storage_class i;
      database = read_database i;
      username = read_username i;
      password = read_password i;
      root_password = read_root_password i;
      resources = read_resources i;
      metrics = read_metrics i;
      service_monitor = read_service_monitor i;
      exposure = read_exposure i;
    }),
    manifest-Fits,
  )
