-- ===== src/Vendor/Grafana/Manifest.antt =====
-- The manifest of a GrafanaInstance, read by the schema of grafana-operator.
use project_easter.Base.{List, Option, String, [], ap, arith, none, refl, some, true, ◌∷◌, ◌≡◌}
use project_easter.Base.Int.{ℤ}
use project_easter.Base.Value.{
  Fields, Value, as_arr, as_int, as_str, end, field, insert_some, map_laws, nested, obj,
  or_else-none, under,
}
use project_easter.Api.{GrafanaInstance, GrafanaInstanceSpec, IngressSpec, PersistenceSpec}
use project_easter.Vendor.Common.{metadata_field}
use project_easter.Vendor.Schema.{
  Shape, fits_some, word, number, list_of, map_of, last, key, fits, Fits, insert_if-Fits,
  insert_some-Fits, spec-Fits,
}
use project_easter.Vendor.Reading.{
  as_str-given, given, each, annotations_of-metadata_field, annotations_of, annotations,
  metadata_schema, fits-metadata_field, claim_schema, fits-claim, Volume, volume, volume_in,
  volume_in-claim,
}
use project_easter.Vendor.Ingress.Manifest.{Tls, read_tls, tls, tls_schema}
use project_easter.Vendor.Grafana.{build_manifest, ingress, ingress_spec, volume_claim}

-- An Ingress: the hosts of its rules, its class, its TLS blocks and its annotations.
pub record Exposure : Type 0 where
  pub hosts : Option (List (Option String))
  pub class : Option String
  pub tls : Option (List Tls)
  pub annotations : Option (String → Option String)

pub record Settings : Type 0 where
  pub version : Option String
  pub replicas : Option ℤ
  pub volume : Option Volume
  pub exposure : Option Exposure

abbrev volume_of : Option Value → Option Volume
volume_of none = none
volume_of (some v) = some (volume_in (under "spec" (some v)))

abbrev host_of : Value → Option String
host_of v = as_str (under "host" (some v))

abbrev exposure_of : Option Value → Option Exposure
exposure_of none = none
exposure_of (some v) = some (record {
  hosts = each host_of (as_arr (under "rules" (under "spec" (some v))));
  class = as_str (under "ingressClassName" (under "spec" (some v)));
  tls = each read_tls (as_arr (under "tls" (under "spec" (some v))));
  annotations = annotations_of (under "annotations" (under "metadata" (some v)));
})

-- What the Grafana asks for, by the keys of its schema.
pub read_grafana : Fields → Settings
read_grafana m = record {
  version = as_str (nested m ("spec" ∷ "version" ∷ []));
  replicas = as_int (nested m ("spec" ∷ "deployment" ∷ "spec" ∷ "replicas" ∷ []));
  volume = volume_of (nested m ("spec" ∷ "persistentVolumeClaim" ∷ []));
  exposure = exposure_of (nested m ("spec" ∷ "ingress" ∷ []));
}

abbrev asked : Option PersistenceSpec → Option Volume
asked none = none
asked (some p) = some (volume p.size p.storage_class)

abbrev exposure : Option IngressSpec → Option Exposure
exposure none = none
exposure (some i) = some (record {
  hosts = some (some i.host ∷ []);
  class = given i.ingress_class_name;
  tls = tls i;
  annotations = annotations i.annotations;
})

-- What the spec asks for.
pub settings : GrafanaInstanceSpec → Settings
settings spec = record {
  version = given spec.version;
  replicas = some spec.replicas;
  volume = asked spec.persistence;
  exposure = exposure spec.ingress;
}

volume_of-volume_claim : (p : Option PersistenceSpec) → volume_of (volume_claim p) ≡ asked p
volume_of-volume_claim none = refl
volume_of-volume_claim (some p) = ap some (volume_in-claim p.size p.storage_class)

exposure_of-ingress : (i : Option IngressSpec) → exposure_of (ingress i) ≡ exposure i
exposure_of-ingress none = refl
exposure_of-ingress (some e) = λ i. some (record {
  hosts = hosts_path i;
  class = class_path i;
  tls = tls_path i;
  annotations = annotations_path i;
})
  where
    spec : Option Value
    spec = under "spec" (ingress (some e))

    hosts_path : each host_of (as_arr (under "rules" spec)) ≡ some (some e.host ∷ [])
    hosts_path = simp map_laws

    class_path : as_str (under "ingressClassName" spec) ≡ given e.ingress_class_name
    class_path = simp map_laws (as_str-given e.ingress_class_name)

    tls_path : each read_tls (as_arr (under "tls" spec)) ≡ tls e
    tls_path = simp map_laws (ground arith)

    annotations_path :
        annotations_of (under "annotations" (under "metadata" (ingress (some e))))
        ≡ annotations e.annotations
    annotations_path = simp (map_laws, or_else-none) (annotations_of-metadata_field e.annotations)

-- The keys that the manifest may have.
abbrev ingress_shape : Shape
ingress_shape =
    key "rules" (list_of (map_of (key "host" word last)))
      (key "ingressClassName" word (key "tls" tls_schema last))

abbrev exposure_shape : Shape
exposure_shape = key "metadata" metadata_schema (key "spec" (map_of ingress_shape) last)

abbrev volume_shape : Shape
volume_shape = key "spec" claim_schema last

abbrev spec_schema : Shape
spec_schema = key "version" word (
    key "deployment" (map_of (key "spec" (map_of (key "replicas" number last)) last)) (
      key "persistentVolumeClaim" (map_of volume_shape)
        (key "ingress" (map_of exposure_shape) last)))

ingress_spec-Fits : (e : IngressSpec) → Fits ingress_shape (ingress_spec e)
unfolding fits
ingress_spec-Fits e =
    insert_if-Fits _ _ _ refl (insert_if-Fits _ _ _ refl (record { fitting = refl }))

fits-ingress : (i : Option IngressSpec) → fits_some (map_of exposure_shape) (ingress i) ≡ true
unfolding fits
fits-ingress none = refl
fits-ingress (some e) =
    let f : Fits exposure_shape (
        insert_some "metadata" (metadata_field e.annotations)
          (field "spec" (obj (ingress_spec e)) end)) =
      insert_some-Fits _ _ (fits-metadata_field e.annotations)
        (record { fitting = rw (ingress_spec-Fits e).fitting refl }) in
    f.fitting

fits-volume_claim :
    (o : Option PersistenceSpec) → fits_some (map_of volume_shape) (volume_claim o) ≡ true
unfolding fits
fits-volume_claim none = refl
fits-volume_claim (some o) = rw (fits-claim o.size o.storage_class) refl

abbrev pub manifest_schema : Shape
manifest_schema = key "spec" (map_of spec_schema) last

module _ (cr : GrafanaInstance) (name namespace owner : String) where
  abbrev object : Fields
  object = (build_manifest cr name namespace owner).object

  read_version : as_str (nested object ("spec" ∷ "version" ∷ [])) ≡ given cr.spec.version
  unfolding build_manifest
  read_version = simp map_laws (as_str-given cr.spec.version)

  read_replicas :
      as_int (nested object ("spec" ∷ "deployment" ∷ "spec" ∷ "replicas" ∷ []))
      ≡ some cr.spec.replicas
  unfolding build_manifest
  read_replicas = simp map_laws

  read_volume :
      volume_of (nested object ("spec" ∷ "persistentVolumeClaim" ∷ [])) ≡ asked cr.spec.persistence
  unfolding build_manifest
  read_volume = simp (map_laws, or_else-none) (volume_of-volume_claim cr.spec.persistence)

  read_exposure : exposure_of (nested object ("spec" ∷ "ingress" ∷ [])) ≡ exposure cr.spec.ingress
  unfolding build_manifest
  read_exposure = simp (map_laws, or_else-none) (exposure_of-ingress cr.spec.ingress)

  manifest-Fits : Fits manifest_schema object
  unfolding build_manifest fits
  manifest-Fits = spec-Fits (
      insert_some-Fits _ _ (fits-volume_claim cr.spec.persistence) (
        insert_some-Fits _ _ (fits-ingress cr.spec.ingress)
          (insert_if-Fits _ _ _ refl (record { fitting = refl }))))

  -- Read by the schema of grafana-operator, the manifest asks for what the spec asks for: the version,
  -- the replicas, a volume exactly when the spec has one, and an Ingress exactly when the spec has one,
  -- with one rule for its host, its class, its TLS and its annotations. The version, the storage class and
  -- the class of the Ingress have no key where the spec has "", the TLS has none where no Secret is named,
  -- and no object in the manifest has any other key.
  pub read_grafana-build_manifest :
      (read_grafana (build_manifest cr name namespace owner).object ≡ settings cr.spec)
      × Fits manifest_schema (build_manifest cr name namespace owner).object
  unfolding read_grafana settings
  read_grafana-build_manifest = (
    (λ i. record {
      version = read_version i;
      replicas = read_replicas i;
      volume = read_volume i;
      exposure = read_exposure i;
    }),
    manifest-Fits,
  )
