-- ===== src/Vendor/Ingress/Manifest.antt =====
-- An Ingress that `Build` makes, read by the schema of networking.k8s.io/v1.
use project_easter.Base.{String, ◌≡◌, refl, Option, none, some, List, [], ◌∷◌, arith, if◌then◌else◌}
use project_easter.Base.Int.{ℤ}
use project_easter.Base.Value.{
  Value, obj, cons, nil, Fields, nested, as_str, as_int, as_arr, under, map_laws,
}
use project_easter.Api.{GroupVersionKind, IngressSpec, Unstructured}
use project_easter.Vendor.Common.{find, is_set}
use project_easter.Vendor.Reading.{each, given, as_str-given}
use project_easter.Vendor.Schema.{
  Schema, Shape, word, number, list_of, map_of, last, key, fits, Fits, insert_if-Fits, spec-Fits,
}
use project_easter.Vendor.Ingress.{gvk, build, rule}

-- A TLS block: its hosts, and the Secret of their certificate.
pub record Tls : Type 0 where
  pub hosts : Option (List (Option String))
  pub secret : Option String

-- A path of a rule, and the service and the port behind it.
pub record HttpPath : Type 0 where
  pub path : Option String
  pub path_type : Option String
  pub service : Option String
  pub port : Option ℤ

pub record Rule : Type 0 where
  pub host : Option String
  pub paths : Option (List HttpPath)

-- All the rules and TLS blocks, and the class.
pub record Route : Type 0 where
  pub gvk : GroupVersionKind
  pub name : String
  pub namespace : String
  pub rules : Option (List Rule)
  pub class : Option String
  pub tls : Option (List Tls)
  pub annotations : String → Option String

abbrev pub read_tls : Value → Tls
read_tls v = record {
  hosts = each (λ x. as_str (some x)) (as_arr (under "hosts" (some v)));
  secret = as_str (under "secretName" (some v));
}

abbrev service_in : Value → Option Value
service_in v = under "service" (under "backend" (some v))

abbrev read_path : Value → HttpPath
read_path v = record {
  path = as_str (under "path" (some v));
  path_type = as_str (under "pathType" (some v));
  service = as_str (under "name" (service_in v));
  port = as_int (under "number" (under "port" (service_in v)));
}

abbrev read_rule : Value → Rule
read_rule v = record {
  host = as_str (under "host" (some v));
  paths = each read_path (as_arr (under "paths" (under "http" (some v))));
}

-- What an Ingress routes, by the keys of its schema.
pub read_ingress : Unstructured → Route
read_ingress u = record {
  gvk = u.gvk;
  name = u.name;
  namespace = u.namespace;
  rules = each read_rule (as_arr (nested u.object ("spec" ∷ "rules" ∷ [])));
  class = as_str (nested u.object ("spec" ∷ "ingressClassName" ∷ []));
  tls = each read_tls (as_arr (nested u.object ("spec" ∷ "tls" ∷ [])));
  annotations = λ k. find k u.annotations;
}

abbrev pub tls : IngressSpec → Option (List Tls)
tls spec =
    if is_set spec.tls_secret_name
    then some
        (record { hosts = some (some spec.host ∷ []); secret = some spec.tls_secret_name } ∷ [])
    else none

-- What is asked for: the host, on every path, to a port of a Service.
unfoldable pub route : IngressSpec → String → String → String → ℤ → Route
route spec name namespace service port = record {
  gvk = gvk;
  name = name;
  namespace = namespace;
  rules = some (
      record {
        host = some spec.host;
        paths = some (
            record {
              path = some "/";
              path_type = some "Prefix";
              service = some service;
              port = some port;
            }
            ∷ []);
      }
      ∷ []);
  class = given spec.ingress_class_name;
  tls = tls spec;
  annotations = λ k. find k spec.annotations;
}

-- The keys that an Ingress may have.
abbrev pub tls_schema : Schema
tls_schema = list_of (map_of (key "hosts" (list_of word) (key "secretName" word last)))

abbrev service_schema : Schema
service_schema = map_of (key "name" word (key "port" (map_of (key "number" number last)) last))

abbrev path_schema : Schema
path_schema = map_of (
    key "path" word
      (key "pathType" word (key "backend" (map_of (key "service" service_schema last)) last)))

abbrev spec_schema : Shape
spec_schema =
    key "rules"
      (list_of (
        map_of
          (key "host" word (key "http" (map_of (key "paths" (list_of path_schema) last)) last))))
      (key "ingressClassName" word (key "tls" tls_schema last))

abbrev pub ingress_schema : Shape
ingress_schema = key "spec" (map_of spec_schema) last

module _ (spec : IngressSpec) (name namespace owner manager service : String) (port : ℤ) where
  abbrev object : Fields
  object = (build spec name namespace owner manager service port).object

  rules_path :
      as_arr (nested object ("spec" ∷ "rules" ∷ []))
      ≡ some (cons (obj (rule spec.host service port)) nil)
  unfolding build
  rules_path = simp map_laws

  class_path :
      as_str (nested object ("spec" ∷ "ingressClassName" ∷ [])) ≡ given spec.ingress_class_name
  unfolding build
  class_path = simp map_laws (as_str-given spec.ingress_class_name)

  tls_path : each read_tls (as_arr (nested object ("spec" ∷ "tls" ∷ []))) ≡ tls spec
  unfolding build
  tls_path = simp map_laws (ground arith)

  object-Fits : Fits ingress_schema object
  unfolding build fits
  object-Fits =
      spec-Fits (insert_if-Fits _ _ _ refl (insert_if-Fits _ _ _ refl (record { fitting = refl })))

  -- Read by the schema of networking.k8s.io/v1, the Ingress of `Build` has the given name and
  -- namespace and the annotations of the spec; its one rule routes the host of the spec, on its one path
  -- "/" and all below it, to the given port of the given Service. It has one TLS block, for the host by
  -- the named Secret, where the spec names a Secret, and none where it names none; and the class of the
  -- spec, with no key for it where that is "". No object in the Ingress has any other key.
  pub read_ingress-build :
      (read_ingress (build spec name namespace owner manager service port)
        ≡ route spec name namespace service port)
      × Fits ingress_schema (build spec name namespace owner manager service port).object
  unfolding build read_ingress route
  read_ingress-build = (
    (λ i. record {
      gvk = gvk;
      name = name;
      namespace = namespace;
      rules = each read_rule (rules_path i);
      class = class_path i;
      tls = tls_path i;
      annotations = λ k. find k spec.annotations;
    }),
    object-Fits,
  )
