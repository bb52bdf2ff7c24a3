-- ===== src/Vendor/Apart.antt =====
-- The objects of one custom resource are different ones, for each of the six adapters.
use project_easter.Base.{◌≡◌, ◌≢◌, refl, ap, false, ◌==◌, differ, ◌∷◌, Option, none, some}
use project_easter.Api.{
  IngressSpec, PostgresCluster, ValkeyCluster, GrafanaInstance, MariaDbCluster, RabbitMqCluster,
  PrometheusInstance,
}
use project_easter.Platform.{Library}
use project_easter.Reconciler.Contract.{Key}
use project_easter.Reconciler.Scope.{target, extra_keys}
use project_easter.Reconciler.Effects.{AreApart}
use project_easter.Vendor.Cnpg
use project_easter.Vendor.Valkey
use project_easter.Vendor.Grafana
use project_easter.Vendor.Mariadb
use project_easter.Vendor.Rabbitmq
use project_easter.Vendor.Prometheus

-- They are of different API groups.
groups : (j k : Key) → (j.gvk.group == k.gvk.group) ≡ false → j ≢ k
groups j k h e = differ j.gvk.group k.gvk.group h (ap (λ i. i.gvk.group) e)

module _ (l : Library) where
  pub cnpg-AreApart :
      (cr : PostgresCluster)
      → AreApart (target (Cnpg.adapter l) cr ∷ extra_keys (Cnpg.adapter l) cr)
  cnpg-AreApart cr = (tt, tt)

  pub valkey-AreApart :
      (cr : ValkeyCluster)
      → AreApart (target (Valkey.adapter l) cr ∷ extra_keys (Valkey.adapter l) cr)
  unfolding Valkey.extra_resources
  valkey-AreApart cr = ((groups _ _ refl, tt), (tt, tt))

  pub grafana-AreApart :
      (cr : GrafanaInstance)
      → AreApart (target (Grafana.adapter l) cr ∷ extra_keys (Grafana.adapter l) cr)
  grafana-AreApart cr = (tt, tt)

  pub mariadb-AreApart :
      (cr : MariaDbCluster)
      → AreApart (target (Mariadb.adapter l) cr ∷ extra_keys (Mariadb.adapter l) cr)
  mariadb-AreApart cr = (tt, tt)

  pub rabbitmq-AreApart :
      (cr : RabbitMqCluster)
      → AreApart (target (Rabbitmq.adapter l) cr ∷ extra_keys (Rabbitmq.adapter l) cr)
  unfolding Rabbitmq.extra_resources
  rabbitmq-AreApart cr = ((groups _ _ refl, tt), (tt, tt))

  pub prometheus-AreApart :
      (cr : PrometheusInstance)
      → AreApart (target (Prometheus.adapter l) cr ∷ extra_keys (Prometheus.adapter l) cr)
  unfolding Prometheus.extra_resources
  prometheus-AreApart cr = go cr.spec.ingress
    where
      go :
          (o : Option IngressSpec)
          → let x = record cr { spec = record cr.spec { ingress = o } } in
            AreApart (target (Prometheus.adapter l) x ∷ extra_keys (Prometheus.adapter l) x)
      go none = ((groups _ _ refl, (groups _ _ refl, tt)), ((groups _ _ refl, tt), (tt, tt)))
      go (some i) = ((groups _ _ refl, (groups _ _ refl, tt)), ((groups _ _ refl, tt), (tt, tt)))
