-- ===== src/Vendor/Separate.antt =====
-- Resources of one kind that have different names own different objects, for each of the six adapters.
use project_easter.Base.{String, ◌≡◌, refl, List, [], ◌∷◌, ◌<>◌, Option, none, some}
use text.Mathlib.TextLemmas.{append_cancel_right}
use project_easter.Api.{IngressSpec, PrometheusInstance, named}
use project_easter.Platform.{Library}
use project_easter.Reconciler.Contract.{Key}
use project_easter.Reconciler.Scope.{Owns}
use project_easter.Reconciler.Separate.{Slot, IsIn, IsSeparate, slots-IsSeparate}
use project_easter.Vendor.Ingress
use project_easter.Vendor.Cnpg
use project_easter.Vendor.Valkey
use project_easter.Vendor.Grafana
use project_easter.Vendor.Mariadb
use project_easter.Vendor.Rabbitmq
use project_easter.Vendor.Prometheus

suffix_tells : (suffix s t : String) → s <> suffix ≡ t <> suffix → s ≡ t
suffix_tells suffix s t = append_cancel_right s t suffix

module _ (l : Library) where
  pub cnpg-IsSeparate : IsSeparate (Cnpg.adapter l)
  cnpg-IsSeparate =
      slots-IsSeparate (Cnpg.adapter l) (record { gvk = Cnpg.gvk; named_after = λ s. s } ∷ [])
        ((λ s t e. e), tt, tt) (λ cr k own. own)

  pub grafana-IsSeparate : IsSeparate (Grafana.adapter l)
  grafana-IsSeparate =
      slots-IsSeparate (Grafana.adapter l) (record { gvk = Grafana.gvk; named_after = λ s. s } ∷ [])
        ((λ s t e. e), tt, tt) (λ cr k own. own)

  pub mariadb-IsSeparate : IsSeparate (Mariadb.adapter l)
  mariadb-IsSeparate =
      slots-IsSeparate (Mariadb.adapter l) (record { gvk = Mariadb.gvk; named_after = λ s. s } ∷ [])
        ((λ s t e. e), tt, tt) (λ cr k own. own)

  pub valkey-IsSeparate : IsSeparate (Valkey.adapter l)
  unfolding Valkey.extra_resources
  valkey-IsSeparate =
      slots-IsSeparate (Valkey.adapter l)
        (record { gvk = Valkey.gvk; named_after = λ s. s }
          ∷ record { gvk = Valkey.service_gvk; named_after = λ s. s <> "-external" }
          ∷ [])
        ((λ s t e. e), (refl, tt), (suffix_tells "-external", tt, tt)) (λ cr k own. own)

  pub rabbitmq-IsSeparate : IsSeparate (Rabbitmq.adapter l)
  unfolding Rabbitmq.extra_resources
  rabbitmq-IsSeparate =
      slots-IsSeparate (Rabbitmq.adapter l)
        (record { gvk = Rabbitmq.gvk; named_after = λ s. s }
          ∷ record { gvk = Ingress.gvk; named_after = λ s. s <> "-ingress" }
          ∷ [])
        ((λ s t e. e), (refl, tt), (suffix_tells "-ingress", tt, tt)) (λ cr k own. own)

  prometheus_slots : List Slot
  prometheus_slots =
      record { gvk = Prometheus.gvk; named_after = λ s. s }
      ∷ record { gvk = Prometheus.service_gvk; named_after = λ s. s <> "-web" }
      ∷ record { gvk = Ingress.gvk; named_after = λ s. s <> "-ingress" }
      ∷ []

  pub prometheus-IsSeparate : IsSeparate (Prometheus.adapter l)
  unfolding Prometheus.extra_resources prometheus_slots
  prometheus-IsSeparate =
      slots-IsSeparate (Prometheus.adapter l) prometheus_slots
        (
          (λ s t e. e),
          (refl, (refl, tt)),
          (suffix_tells "-web", (refl, tt), (suffix_tells "-ingress", tt, tt)),
        )
        (λ cr k own. go cr k cr.spec.ingress own)
    where
      go :
          (cr : PrometheusInstance) (k : Key) (o : Option IngressSpec)
          → Owns (Prometheus.adapter l) (record cr { spec = record cr.spec { ingress = o } }) k
          → IsIn (named cr.metadata.namespace cr.metadata.name) prometheus_slots k
      go cr k none own = own
      go cr k (some i) own = own
