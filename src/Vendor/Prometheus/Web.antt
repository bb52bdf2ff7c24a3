-- ===== src/Vendor/Prometheus/Web.antt =====
-- The Service and the Ingress of a PrometheusInstance, read by their schemas.
use project_easter.Base.{String, ◌<>◌, ◌≡◌, refl, Option, none, some, List, [], ◌∷◌, map}
use project_easter.Base.Int.{ℤ}
use project_easter.Base.Value.{nested, as_int, as_arr, under}
use project_easter.Api.{GroupVersionKind, IngressSpec, PrometheusInstance, Unstructured}
use project_easter.Vendor.Reading.{first, text}
use project_easter.Vendor.Ingress.Manifest.{read_ingress, route, read_ingress-build}
use project_easter.Vendor.Prometheus.{
  field_manager, service_gvk, service, web_port, web_resources, extra_resources,
}

-- A Service: its kind and place, its type, the Prometheus that it selects, and its first port with
-- the named port of the pods behind it.
pub record Front : Type 0 where
  pub gvk : GroupVersionKind
  pub name : String
  pub namespace : String
  pub type : String
  pub selected : String
  pub port : Option ℤ
  pub target_port : String

pub read_front : Unstructured → Front
read_front u = record {
  gvk = u.gvk;
  name = u.name;
  namespace = u.namespace;
  type = text (nested u.object ("spec" ∷ "type" ∷ []));
  selected = text (nested u.object ("spec" ∷ "selector" ∷ "operator.prometheus.io/name" ∷ []));
  port = as_int (under "port" (first (as_arr (nested u.object ("spec" ∷ "ports" ∷ [])))));
  target_port =
      text (under "targetPort" (first (as_arr (nested u.object ("spec" ∷ "ports" ∷ [])))));
}

abbrev front : String → String → Front
front target namespace = record {
  gvk = service_gvk;
  name = target <> "-web";
  namespace = namespace;
  type = "ClusterIP";
  selected = target;
  port = some web_port;
  target_port = "web";
}

-- With no ingress both objects are to be absent. With one, there is a Service in front of the target,
-- and an Ingress that routes to this Service, at the port that it has.
abbrev pub Fronted : Option IngressSpec → String → String → List (Option Unstructured) → Type 0
Fronted none target namespace os = os ≡ none ∷ none ∷ []
Fronted (some i) target namespace os =
    (s : Unstructured) × (u : Unstructured) × (os ≡ some s ∷ some u ∷ [])
    × (read_front s ≡ front target namespace)
    × ((p : ℤ) × ((read_front s).port ≡ some p)
        × (read_ingress u ≡ route i (target <> "-ingress") namespace s.name p))

module _ (target namespace owner : String) where
  web_resources-Fronted :
      (o : Option IngressSpec)
      → Fronted o target namespace (map (λ x. x.desired) (web_resources o target namespace owner))
  unfolding read_front
  web_resources-Fronted none = refl
  web_resources-Fronted (some i) = (
    service target namespace owner,
    _,
    refl,
    refl,
    (web_port, refl, (read_ingress-build i _ namespace owner field_manager _ web_port).0),
  )

  pub extra_resources-Fronted :
      (cr : PrometheusInstance)
      → Fronted cr.spec.ingress target namespace
          (map (λ x. x.desired) (extra_resources cr target namespace owner))
  unfolding extra_resources
  extra_resources-Fronted cr = web_resources-Fronted cr.spec.ingress
