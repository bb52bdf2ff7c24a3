-- ===== src/Vendor/Rabbitmq/Manifest.antt =====
-- The manifest of a RabbitMQCluster, read by the schema of the RabbitMQ cluster operator.
use project_easter.Base.{Option, String, [], ap, map, none, refl, some, ◌<>◌, ◌∷◌, ◌≡◌}
use project_easter.Base.Int.{ℤ}
use project_easter.Base.Value.{
  Fields, as_int, as_str, end, field, insert_if, map_laws, nested, or_else-none, str,
}
use project_easter.Api.{IngressSpec, RabbitMqCluster, RabbitMqClusterSpec}
use project_easter.Vendor.Schema.{
  Shape, word, number, map_of, last, key, fits, Fits, insert_if-Fits, insert_some-Fits, spec-Fits,
}
use project_easter.Vendor.Common.{is_set}
use project_easter.Vendor.Reading.{
  as_str-given, given, compute_schema, fits-resources_json, Compute, compute_of, compute,
  compute_of-resources_json,
}
use project_easter.Reconciler.Adapter.{ExtraResource}
use project_easter.Vendor.Ingress
use project_easter.Vendor.Ingress.Manifest.{Route, read_ingress, route, read_ingress-build}
use project_easter.Vendor.Rabbitmq.{
  build_manifest, field_manager, management_port, management_ingress, extra_resources,
}

pub record Settings : Type 0 where
  pub replicas : Option ℤ
  pub image : Option String
  pub size : Option String
  pub storage_class : Option String
  pub resources : Compute

-- What the RabbitmqCluster asks for, by the keys of its schema.
pub read_rabbitmq : Fields → Settings
read_rabbitmq m = record {
  replicas = as_int (nested m ("spec" ∷ "replicas" ∷ []));
  image = as_str (nested m ("spec" ∷ "image" ∷ []));
  size = as_str (nested m ("spec" ∷ "persistence" ∷ "storage" ∷ []));
  storage_class = as_str (nested m ("spec" ∷ "persistence" ∷ "storageClassName" ∷ []));
  resources = compute_of (nested m ("spec" ∷ "resources" ∷ []));
}

-- What the spec asks for.
pub settings : RabbitMqClusterSpec → Settings
settings spec = record {
  replicas = some spec.replicas;
  image = given spec.image;
  size = some spec.storage.size;
  storage_class = given spec.storage.storage_class;
  resources = compute spec.resources;
}

-- The keys that the manifest may have.
abbrev persistence_schema : Shape
persistence_schema = key "storage" word (key "storageClassName" word last)

abbrev spec_schema : Shape
spec_schema = key "replicas" number (
    key "image" word
      (key "persistence" (map_of persistence_schema) (key "resources" compute_schema last)))

abbrev pub manifest_schema : Shape
manifest_schema = key "spec" (map_of spec_schema) last

module _ (cr : RabbitMqCluster) (name namespace owner : String) where
  abbrev object : Fields
  object = (build_manifest cr name namespace owner).object

  read_replicas : as_int (nested object ("spec" ∷ "replicas" ∷ [])) ≡ some cr.spec.replicas
  unfolding build_manifest
  read_replicas = simp map_laws

  read_image : as_str (nested object ("spec" ∷ "image" ∷ [])) ≡ given cr.spec.image
  unfolding build_manifest
  read_image = simp map_laws (as_str-given cr.spec.image)

  read_size :
      as_str (nested object ("spec" ∷ "persistence" ∷ "storage" ∷ [])) ≡ some cr.spec.storage.size
  unfolding build_manifest
  read_size = simp map_laws

  read_storage_class :
      as_str (nested object ("spec" ∷ "persistence" ∷ "storageClassName" ∷ []))
      ≡ given cr.spec.storage.storage_class
  unfolding build_manifest
  read_storage_class = simp map_laws (as_str-given cr.spec.storage.storage_class)

  read_resources :
      compute_of (nested object ("spec" ∷ "resources" ∷ [])) ≡ compute cr.spec.resources
  unfolding build_manifest
  read_resources = simp (map_laws, or_else-none) (compute_of-resources_json cr.spec.resources)

  manifest-Fits : Fits manifest_schema object
  unfolding build_manifest fits
  manifest-Fits =
      let stored : Fits persistence_schema (
          insert_if (is_set cr.spec.storage.storage_class) "storageClassName"
            (str cr.spec.storage.storage_class) (field "storage" (str cr.spec.storage.size) end)) =
        insert_if-Fits _ _ _ refl (record { fitting = refl }) in
      spec-Fits (
        insert_some-Fits _ _ (fits-resources_json cr.spec.resources)
          (insert_if-Fits _ _ _ refl (record { fitting = rw stored.fitting refl })))

  -- Read by the schema of the RabbitMQ cluster operator, the manifest asks for what the spec asks for:
  -- the replicas, the image, the volume, the CPU and memory. The image and the storage class have no key
  -- where the spec has "", and no object in the manifest has any other key.
  pub read_rabbitmq-build_manifest :
      (read_rabbitmq (build_manifest cr name namespace owner).object ≡ settings cr.spec)
      × Fits manifest_schema (build_manifest cr name namespace owner).object
  unfolding read_rabbitmq settings
  read_rabbitmq-build_manifest = (
    (λ i. record {
      replicas = read_replicas i;
      image = read_image i;
      size = read_size i;
      storage_class = read_storage_class i;
      resources = read_resources i;
    }),
    manifest-Fits,
  )

abbrev pub read_desired : ExtraResource → Option Route
read_desired x = elim x.desired [ none ↦ none | some u ↦ some (read_ingress u) ]

abbrev pub routed : Option IngressSpec → String → String → Option Route
routed none target namespace = none
routed (some i) target namespace =
    some (route i (target <> "-ingress") namespace target management_port)

module _ (cr : RabbitMqCluster) (target namespace owner : String) where
  read_desired-management_ingress :
      (o : Option IngressSpec)
      → read_desired (record {
        gvk = Ingress.gvk;
        name = target <> "-ingress";
        desired = management_ingress o target namespace owner;
      })
        ≡ routed o target namespace
  read_desired-management_ingress none = refl
  read_desired-management_ingress (some i) = ap some (
      (read_ingress-build i (target <> "-ingress") namespace owner field_manager target
        management_port).0)

  pub read_rabbitmq-extra_resources :
      map read_desired (extra_resources cr target namespace owner)
      ≡ routed cr.spec.ingress target namespace ∷ []
  unfolding extra_resources
  read_rabbitmq-extra_resources = ap (λ r. r ∷ []) (read_desired-management_ingress cr.spec.ingress)
