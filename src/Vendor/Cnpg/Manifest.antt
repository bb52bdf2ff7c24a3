-- ===== src/Vendor/Cnpg/Manifest.antt =====
-- The manifest of a PostgresCluster, read by the schema of a CloudNativePG Cluster.
use project_easter.Base.{
  Bool, List, Option, String, [], arith, if◌then◌else◌, none, refl, some, true, ◌<>◌, ◌∷◌, ◌≡◌,
}
use project_easter.Base.Int.{ℤ}
use project_easter.Base.Value.{
  Fields, Value, as_arr, as_bool, as_int, as_str, end, field, follow, insert_if, insert_some,
  lookup, map_laws, nested, or_else-none, str, under,
}
use project_easter.Api.{PostgresCluster, PostgresClusterSpec, ServiceExposeSpec}
use project_easter.Vendor.Common.{annotations_field, is_set}
use project_easter.Vendor.Schema.{
  Schema, Shape, fits_some, labels, word, number, flag, list_of, map_of, last, key, fits, Fits,
  insert_if-Fits, insert_some-Fits, spec-Fits,
}
use project_easter.Vendor.Reading.{
  text, as_str-given, given, compute_schema, fits-resources_json, each,
  annotations_of-annotations_field, annotations_of, annotations, fits-annotations_field, Compute,
  compute_of, compute, compute_of-resources_json,
}
use project_easter.Vendor.Cnpg.{build_manifest, managed}

-- A Service to be managed: its name, its selector and type, and its annotations by name.
pub record Exposure : Type 0 where
  pub name : String
  pub selector : String
  pub type : Option String
  pub annotations : Option (String → Option String)

pub record Settings : Type 0 where
  pub instances : Option ℤ
  pub image : Option String
  pub size : Option String
  pub storage_class : Option String
  pub database : Option String
  pub owner : Option String
  pub resources : Compute
  pub monitored : Option Bool
  pub exposures : Option (List Exposure)

abbrev service_of : Value → Exposure
service_of v = record {
  name = text (follow ("serviceTemplate" ∷ "metadata" ∷ "name" ∷ []) (some v));
  selector = text (under "selectorType" (some v));
  type = as_str (follow ("serviceTemplate" ∷ "spec" ∷ "type" ∷ []) (some v));
  annotations =
      annotations_of (follow ("serviceTemplate" ∷ "metadata" ∷ "annotations" ∷ []) (some v));
}

-- What the Cluster asks for, by the keys of its schema.
pub read_cnpg : Fields → Settings
read_cnpg m = record {
  instances = as_int (nested m ("spec" ∷ "instances" ∷ []));
  image = as_str (nested m ("spec" ∷ "imageName" ∷ []));
  size = as_str (nested m ("spec" ∷ "storage" ∷ "size" ∷ []));
  storage_class = as_str (nested m ("spec" ∷ "storage" ∷ "storageClass" ∷ []));
  database = as_str (nested m ("spec" ∷ "bootstrap" ∷ "initdb" ∷ "database" ∷ []));
  owner = as_str (nested m ("spec" ∷ "bootstrap" ∷ "initdb" ∷ "owner" ∷ []));
  resources = compute_of (nested m ("spec" ∷ "resources" ∷ []));
  monitored = as_bool (nested m ("spec" ∷ "monitoring" ∷ "enablePodMonitor" ∷ []));
  exposures =
      each service_of (as_arr (nested m ("spec" ∷ "managed" ∷ "services" ∷ "additional" ∷ [])));
}

abbrev pub exposed_as : String → ServiceExposeSpec → Exposure
exposed_as name e = record {
  name = name <> "-external";
  selector = "rw";
  type = some e.type;
  annotations = annotations e.annotations;
}

abbrev exposures_of : String → Option ServiceExposeSpec → Option (List Exposure)
exposures_of name none = none
exposures_of name (some e) = some (exposed_as name e ∷ [])

-- What the spec of the PostgresCluster asks for.
unfoldable pub settings : PostgresClusterSpec → String → Settings
settings spec name = record {
  instances = some spec.instances;
  image = given spec.image;
  size = some spec.storage.size;
  storage_class = given spec.storage.storage_class;
  database = some spec.database.name;
  owner = some spec.database.owner;
  resources = compute spec.resources;
  monitored = if spec.monitoring.enable_pod_monitor then some true else none;
  exposures = exposures_of name spec.expose;
}

abbrev metadata_of : String → ServiceExposeSpec → Fields
metadata_of name e =
    insert_some "annotations" (annotations_field e.annotations)
      (field "name" (str (name <> "-external")) end)

each-managed :
    (name : String) (e : Option ServiceExposeSpec)
    → each service_of (as_arr (under "additional" (under "services" (managed name e))))
      ≡ exposures_of name e
each-managed name none = refl
each-managed name (some e) = λ i. some (
    record {
      name = name_path i;
      selector = "rw";
      type = some e.type;
      annotations = annotations_path i;
    }
    ∷ [])
  where
    name_path : text (lookup "name" (metadata_of name e)) ≡ name <> "-external"
    name_path = simp map_laws

    annotations_path :
        annotations_of (lookup "annotations" (metadata_of name e)) ≡ annotations e.annotations
    annotations_path =
        simp (map_laws, or_else-none) (annotations_of-annotations_field e.annotations)

-- The keys that the manifest may have.
abbrev metadata_shape : Shape
metadata_shape = key "name" word (key "annotations" labels last)

abbrev service_schema : Schema
service_schema = map_of (
    key "selectorType" word (
      key "serviceTemplate"
        (map_of (
          key "metadata" (map_of metadata_shape) (key "spec" (map_of (key "type" word last)) last)))
        last))

abbrev managed_schema : Schema
managed_schema =
    map_of (key "services" (map_of (key "additional" (list_of service_schema) last)) last)

abbrev storage_schema : Shape
storage_schema = key "size" word (key "storageClass" word last)

abbrev spec_schema : Shape
spec_schema = key "instances" number (
    key "imageName" word (
      key "storage" (map_of storage_schema) (
        key "bootstrap"
          (map_of (key "initdb" (map_of (key "database" word (key "owner" word last))) last))
          (key "resources" compute_schema (
            key "monitoring" (map_of (key "enablePodMonitor" flag last))
              (key "managed" managed_schema last))))))

fits-managed :
    (name : String) (e : Option ServiceExposeSpec)
    → fits_some managed_schema (managed name e) ≡ true
unfolding fits
fits-managed name none = refl
fits-managed name (some e) =
    let f : Fits metadata_shape (metadata_of name e) =
      insert_some-Fits _ _ (fits-annotations_field e.annotations) (record { fitting = refl }) in
    rw f.fitting refl

abbrev pub manifest_schema : Shape
manifest_schema = key "spec" (map_of spec_schema) last

module _ (cr : PostgresCluster) (name namespace owner : String) where
  abbrev object : Fields
  object = (build_manifest cr name namespace owner).object

  read_image : as_str (nested object ("spec" ∷ "imageName" ∷ [])) ≡ given cr.spec.image
  unfolding build_manifest
  read_image = simp map_laws (as_str-given cr.spec.image)

  read_storage_class :
      as_str (nested object ("spec" ∷ "storage" ∷ "storageClass" ∷ []))
      ≡ given cr.spec.storage.storage_class
  unfolding build_manifest
  read_storage_class = simp map_laws (as_str-given cr.spec.storage.storage_class)

  read_resources :
      compute_of (nested object ("spec" ∷ "resources" ∷ [])) ≡ compute cr.spec.resources
  unfolding build_manifest
  read_resources = simp (map_laws, or_else-none) (compute_of-resources_json cr.spec.resources)

  read_monitored :
      as_bool (nested object ("spec" ∷ "monitoring" ∷ "enablePodMonitor" ∷ []))
      ≡ (if cr.spec.monitoring.enable_pod_monitor then some true else none)
  unfolding build_manifest
  read_monitored = simp map_laws (ground arith)

  read_exposures :
      each service_of (as_arr (nested object ("spec" ∷ "managed" ∷ "services" ∷ "additional" ∷ [])))
      ≡ exposures_of name cr.spec.expose
  unfolding build_manifest
  read_exposures = simp (map_laws, or_else-none) (each-managed name cr.spec.expose)

  read_size : as_str (nested object ("spec" ∷ "storage" ∷ "size" ∷ [])) ≡ some cr.spec.storage.size
  unfolding build_manifest
  read_size = simp map_laws

  read_instances : as_int (nested object ("spec" ∷ "instances" ∷ [])) ≡ some cr.spec.instances
  unfolding build_manifest
  read_instances = simp map_laws

  read_database :
      as_str (nested object ("spec" ∷ "bootstrap" ∷ "initdb" ∷ "database" ∷ []))
      ≡ some cr.spec.database.name
  unfolding build_manifest
  read_database = simp map_laws

  read_owner :
      as_str (nested object ("spec" ∷ "bootstrap" ∷ "initdb" ∷ "owner" ∷ []))
      ≡ some cr.spec.database.owner
  unfolding build_manifest
  read_owner = simp map_laws

  manifest-Fits : Fits manifest_schema object
  unfolding build_manifest fits
  manifest-Fits =
      let stored : Fits storage_schema (
          insert_if (is_set cr.spec.storage.storage_class) "storageClass"
            (str cr.spec.storage.storage_class) (field "size" (str cr.spec.storage.size) end)) =
        insert_if-Fits _ _ _ refl (record { fitting = refl }) in
      spec-Fits (
        insert_if-Fits _ _ _ refl (
          insert_some-Fits _ _ (fits-managed name cr.spec.expose) (
            insert_some-Fits _ _ (fits-resources_json cr.spec.resources)
              (insert_if-Fits _ _ _ refl (record { fitting = rw stored.fitting refl })))))

  -- Read by the schema of a CloudNativePG Cluster, the manifest asks for what the spec asks for: the
  -- instances, the image, the volume, the initial database and its owner, the CPU and memory, the pod
  -- monitor exactly when the spec enables it, and one managed Service, the external one with its type and
  -- annotations, exactly when the spec has it exposed. The image and the storage class have no key where
  -- the spec has "", and no object in the manifest has any other key.
  pub read_cnpg-build_manifest :
      (read_cnpg (build_manifest cr name namespace owner).object ≡ settings cr.spec name)
      × Fits manifest_schema (build_manifest cr name namespace owner).object
  unfolding read_cnpg settings
  read_cnpg-build_manifest = (
    (λ i. record {
      instances = read_instances i;
      image = read_image i;
      size = read_size i;
      storage_class = read_storage_class i;
      database = read_database i;
      owner = read_owner i;
      resources = read_resources i;
      monitored = read_monitored i;
      exposures = read_exposures i;
    }),
    manifest-Fits,
  )
