-- ===== src/Vendor/Valkey/Manifest.antt =====
-- The manifest of a ValkeyCluster, read by the schema of valkey-operator, and its Service.
use project_easter.Base.{Option, String, [], arith, map, none, refl, some, ◌<>◌, ◌∷◌, ◌≡◌}
use project_easter.Base.Int.{ℤ}
use project_easter.Base.Value.{
  Fields, as_arr, as_int, as_str, end, field, insert_if, map_laws, nested, or_else-none, str, under,
}
use project_easter.Api.{ValkeyCluster, ValkeyClusterSpec, ServiceExposeSpec, Unstructured}
use project_easter.Reconciler.Adapter.{ExtraResource}
use project_easter.Vendor.Common.{find, is_set}
use project_easter.Vendor.Schema.{
  Shape, word, number, map_of, last, key, fits, Fits, insert_if-Fits, insert_some-Fits, spec-Fits,
}
use project_easter.Vendor.Reading.{
  first, text, as_str-given, given, compute_schema, fits-resources_json, Compute, compute_of,
  compute, compute_of-resources_json,
}
use project_easter.Vendor.Valkey.{build_manifest, data_port, extra_resources}

pub record Settings : Type 0 where
  pub shards : Option ℤ
  pub replicas : Option ℤ
  pub image : Option String
  pub size : Option String
  pub storage_class : Option String
  pub resources : Compute

-- What the ValkeyCluster of valkey-operator asks for, by the keys of its schema.
pub read_valkey : Fields → Settings
read_valkey m = record {
  shards = as_int (nested m ("spec" ∷ "shards" ∷ []));
  replicas = as_int (nested m ("spec" ∷ "replicas" ∷ []));
  image = as_str (nested m ("spec" ∷ "image" ∷ []));
  size = as_str (nested m ("spec" ∷ "persistence" ∷ "size" ∷ []));
  storage_class = as_str (nested m ("spec" ∷ "persistence" ∷ "storageClassName" ∷ []));
  resources = compute_of (nested m ("spec" ∷ "resources" ∷ []));
}

-- What the spec asks for.
pub settings : ValkeyClusterSpec → Settings
settings spec = record {
  shards = some spec.shards;
  replicas = some spec.replicas;
  image = given spec.image;
  size = some spec.persistence.size;
  storage_class = given spec.persistence.storage_class;
  resources = compute spec.resources;
}

-- A Service: its place, type, the cluster that it selects, its first port with the port of the pods
-- behind it, and its annotations.
pub record Exposure : Type 0 where
  pub name : String
  pub namespace : String
  pub type : String
  pub selected : String
  pub port : Option ℤ
  pub target_port : Option ℤ
  pub annotations : String → Option String

-- What a Service offers, by the keys of its schema.
pub read_service : Unstructured → Exposure
read_service u = record {
  name = u.name;
  namespace = u.namespace;
  type = text (nested u.object ("spec" ∷ "type" ∷ []));
  selected = text (nested u.object ("spec" ∷ "selector" ∷ "valkey.io/cluster" ∷ []));
  port = as_int (under "port" (first (as_arr (nested u.object ("spec" ∷ "ports" ∷ [])))));
  target_port =
      as_int (under "targetPort" (first (as_arr (nested u.object ("spec" ∷ "ports" ∷ [])))));
  annotations = λ k. find k u.annotations;
}

abbrev pub exposure : Option ServiceExposeSpec → String → String → Option Exposure
exposure none target namespace = none
exposure (some e) target namespace = some (record {
  name = target <> "-external";
  namespace = namespace;
  type = e.type;
  selected = target;
  port = some data_port;
  target_port = some data_port;
  annotations = λ k. find k e.annotations;
})

abbrev pub read_desired : ExtraResource → Option Exposure
read_desired x = elim x.desired [ none ↦ none | some u ↦ some (read_service u) ]

-- The keys that the manifest may have.
abbrev persistence_schema : Shape
persistence_schema = key "size" word (key "storageClassName" word last)

abbrev spec_schema : Shape
spec_schema = key "shards" number (
    key "replicas" number (
      key "image" word
        (key "persistence" (map_of persistence_schema) (key "resources" compute_schema last))))

abbrev pub manifest_schema : Shape
manifest_schema = key "spec" (map_of spec_schema) last

module _ (cr : ValkeyCluster) (name namespace owner : String) where
  abbrev object : Fields
  object = (build_manifest cr name namespace owner).object

  read_shards : as_int (nested object ("spec" ∷ "shards" ∷ [])) ≡ some cr.spec.shards
  unfolding build_manifest
  read_shards = simp map_laws

  read_replicas : as_int (nested object ("spec" ∷ "replicas" ∷ [])) ≡ some cr.spec.replicas
  unfolding build_manifest
  read_replicas = simp map_laws

  read_image : as_str (nested object ("spec" ∷ "image" ∷ [])) ≡ given cr.spec.image
  unfolding build_manifest
  read_image = simp map_laws (as_str-given cr.spec.image)

  read_size :
      as_str (nested object ("spec" ∷ "persistence" ∷ "size" ∷ [])) ≡ some cr.spec.persistence.size
  unfolding build_manifest
  read_size = simp map_laws

  read_storage_class :
      as_str (nested object ("spec" ∷ "persistence" ∷ "storageClassName" ∷ []))
      ≡ given cr.spec.persistence.storage_class
  unfolding build_manifest
  read_storage_class = simp map_laws (as_str-given cr.spec.persistence.storage_class)

  read_resources :
      compute_of (nested object ("spec" ∷ "resources" ∷ [])) ≡ compute cr.spec.resources
  unfolding build_manifest
  read_resources = simp (map_laws, or_else-none) (compute_of-resources_json cr.spec.resources)

  manifest-Fits : Fits manifest_schema object
  unfolding build_manifest fits
  manifest-Fits =
      let stored : Fits persistence_schema (
          insert_if (is_set cr.spec.persistence.storage_class) "storageClassName"
            (str cr.spec.persistence.storage_class)
            (field "size" (str cr.spec.persistence.size) end)) =
        insert_if-Fits _ _ _ refl (record { fitting = refl }) in
      spec-Fits (
        insert_some-Fits _ _ (fits-resources_json cr.spec.resources)
          (insert_if-Fits _ _ _ refl (record { fitting = rw stored.fitting refl })))

  -- Read by the schema of valkey-operator, the manifest asks for what the spec asks for: the shards, the
  -- replicas, the image, the volume, the CPU and memory. The image and the storage class have no key
  -- where the spec has "", and no object in the manifest has any other key.
  pub read_valkey-build_manifest :
      (read_valkey (build_manifest cr name namespace owner).object ≡ settings cr.spec)
      × Fits manifest_schema (build_manifest cr name namespace owner).object
  unfolding read_valkey settings
  read_valkey-build_manifest = (
    (λ i. record {
      shards = read_shards i;
      replicas = read_replicas i;
      image = read_image i;
      size = read_size i;
      storage_class = read_storage_class i;
      resources = read_resources i;
    }),
    manifest-Fits,
  )

  pub read_valkey-extra_resources :
      map read_desired (extra_resources cr name namespace owner)
      ≡ exposure cr.spec.expose name namespace ∷ []
  unfolding extra_resources read_service
  read_valkey-extra_resources = ground arith
