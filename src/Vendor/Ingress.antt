-- ===== src/Vendor/Ingress.antt =====
-- `Build` of internal/ingress/ingress.go.
pub mod Manifest
use project_easter.Base.{String}
use project_easter.Base.Int.{ℤ}
use project_easter.Base.Value.{Value, int, str, arr, obj, nil, cons, Fields, end, field, insert_if}
use project_easter.Api.{GroupVersionKind, Unstructured, IngressSpec}
use project_easter.Vendor.Common.{is_set, managed_labels}

abbrev pub gvk : GroupVersionKind
gvk = record { group = "networking.k8s.io"; version = "v1"; kind = "Ingress" }

-- the backend of the one path "/"
abbrev pub backend : String → ℤ → Fields
backend service port =
    field "service"
      (obj (field "name" (str service) (field "port" (obj (field "number" (int port) end)) end)))
      end

abbrev pub rule : String → String → ℤ → Fields
rule host service port = field "host" (str host) (
    field "http"
      (obj (
        field "paths"
          (arr (
            cons
              (obj (
                field "path" (str "/") (
                  field "pathType" (str "Prefix")
                    (field "backend" (obj (backend service port)) end))))
              nil))
          end))
      end)

abbrev pub tls_block : String → String → Value
tls_block host secret = arr (
    cons (obj (field "hosts" (arr (cons (str host) nil)) (field "secretName" (str secret) end)))
      nil)

unfoldable pub ingress_spec : IngressSpec → String → ℤ → Fields
ingress_spec spec service port =
    insert_if (is_set spec.tls_secret_name) "tls" (tls_block spec.host spec.tls_secret_name) (
      insert_if (is_set spec.ingress_class_name) "ingressClassName" (str spec.ingress_class_name)
        (field "rules" (arr (cons (obj (rule spec.host service port)) nil)) end))

-- An Ingress that routes the host to a port of the backend service.
unfoldable pub build : IngressSpec → String → String → String → String → String → ℤ → Unstructured
unfolding ingress_spec
build spec name namespace owner manager service port = record {
  gvk = gvk;
  name = name;
  namespace = namespace;
  labels = managed_labels manager owner;
  annotations = spec.annotations;
  object = field "spec" (obj (ingress_spec spec service port)) end;
}
