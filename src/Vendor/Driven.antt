-- ===== src/Vendor/Driven.antt =====
-- What the six adapters ask for depends on the spec alone.
use project_easter.Base.{refl}
use project_easter.Platform.{Library}
use project_easter.Reconciler.Repeats.{IsDriven}
use project_easter.Vendor.Cnpg
use project_easter.Vendor.Valkey
use project_easter.Vendor.Grafana
use project_easter.Vendor.Mariadb
use project_easter.Vendor.Rabbitmq
use project_easter.Vendor.Prometheus

module _ (l : Library) where
  pub cnpg-IsDriven : IsDriven (Cnpg.adapter l)
  unfolding Cnpg.build_manifest
  cnpg-IsDriven = record { manifest = λ cr cr' t n o e. rw e refl; extras = λ cr cr' t n o e. refl }

  pub valkey-IsDriven : IsDriven (Valkey.adapter l)
  unfolding Valkey.build_manifest Valkey.extra_resources
  valkey-IsDriven = record {
    manifest = λ cr cr' t n o e. rw e refl;
    extras = λ cr cr' t n o e. rw e refl;
  }

  pub grafana-IsDriven : IsDriven (Grafana.adapter l)
  unfolding Grafana.build_manifest
  grafana-IsDriven = record {
    manifest = λ cr cr' t n o e. rw e refl;
    extras = λ cr cr' t n o e. refl;
  }

  pub mariadb-IsDriven : IsDriven (Mariadb.adapter l)
  unfolding Mariadb.build_manifest
  mariadb-IsDriven = record {
    manifest = λ cr cr' t n o e. rw e refl;
    extras = λ cr cr' t n o e. refl;
  }

  pub rabbitmq-IsDriven : IsDriven (Rabbitmq.adapter l)
  unfolding Rabbitmq.build_manifest Rabbitmq.extra_resources
  rabbitmq-IsDriven = record {
    manifest = λ cr cr' t n o e. rw e refl;
    extras = λ cr cr' t n o e. rw e refl;
  }

  pub prometheus-IsDriven : IsDriven (Prometheus.adapter l)
  unfolding Prometheus.build_manifest Prometheus.extra_resources
  prometheus-IsDriven = record {
    manifest = λ cr cr' t n o e. rw e refl;
    extras = λ cr cr' t n o e. rw e refl;
  }
