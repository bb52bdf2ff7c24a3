-- ===== src/Vendor/Contract.antt =====
-- The six adapters meet the contract of the engine.
use project_easter.Base.{refl, arith}
use project_easter.Platform.{Library}
use project_easter.Reconciler.Contract.{IsLawful}
use project_easter.Vendor.Ingress
use project_easter.Vendor.Cnpg
use project_easter.Vendor.Valkey
use project_easter.Vendor.Grafana
use project_easter.Vendor.Mariadb
use project_easter.Vendor.Rabbitmq
use project_easter.Vendor.Prometheus

module _ (l : Library) where
  pub cnpg-IsLawful : IsLawful (Cnpg.adapter l)
  unfolding Cnpg.build_manifest Cnpg.apply_status Cnpg.extract_status
  cnpg-IsLawful = record {
    built = λ cr t n o. (refl, refl);
    matched = λ cr t n o. tt;
    stable = λ cr cr' t n o. refl;
    keeps = λ cr t s. (refl, refl);
    waits = refl;
  }

  pub valkey-IsLawful : IsLawful (Valkey.adapter l)
  unfolding Valkey.build_manifest Valkey.apply_status Valkey.extract_status Valkey.extra_resources
  valkey-IsLawful = record {
    built = λ cr t n o. (refl, refl);
    matched = λ cr t n o. ground arith;
    stable = λ cr cr' t n o. refl;
    keeps = λ cr t s. (refl, refl);
    waits = refl;
  }

  pub grafana-IsLawful : IsLawful (Grafana.adapter l)
  unfolding Grafana.build_manifest Grafana.apply_status Grafana.extract_status
  grafana-IsLawful = record {
    built = λ cr t n o. (refl, refl);
    matched = λ cr t n o. tt;
    stable = λ cr cr' t n o. refl;
    keeps = λ cr t s. (refl, refl);
    waits = refl;
  }

  pub mariadb-IsLawful : IsLawful (Mariadb.adapter l)
  unfolding Mariadb.build_manifest Mariadb.apply_status Mariadb.extract_status
  mariadb-IsLawful = record {
    built = λ cr t n o. (refl, refl);
    matched = λ cr t n o. tt;
    stable = λ cr cr' t n o. refl;
    keeps = λ cr t s. (refl, refl);
    waits = refl;
  }

  pub rabbitmq-IsLawful : IsLawful (Rabbitmq.adapter l)
  unfolding Rabbitmq.build_manifest Rabbitmq.apply_status Rabbitmq.extract_status
      Rabbitmq.extra_resources Ingress.build
  rabbitmq-IsLawful = record {
    built = λ cr t n o. (refl, refl);
    matched = λ cr t n o. ground arith;
    stable = λ cr cr' t n o. refl;
    keeps = λ cr t s. (refl, refl);
    waits = refl;
  }

  pub prometheus-IsLawful : IsLawful (Prometheus.adapter l)
  unfolding Prometheus.build_manifest Prometheus.apply_status Prometheus.extract_status
      Prometheus.extra_resources Ingress.build
  prometheus-IsLawful = record {
    built = λ cr t n o. (refl, refl);
    matched = λ cr t n o. ground arith;
    stable = λ cr cr' t n o. ground arith;
    keeps = λ cr t s. (refl, refl);
    waits = refl;
  }

  -- Each of the six adapters meets the contract: its manifest is of its own kind, named and placed as
  -- asked, and labelled with its field manager and the owner; every extra object that it asks for is
  -- the one that it names, with these labels; which extra objects it names does not depend on the
  -- spec, so that what is switched off is deleted; `ApplyStatus` leaves the metadata and the spec of
  -- the resource alone; and a target that is not there is not ready.
  pub adapters-AreLawful :
      IsLawful (Cnpg.adapter l)
      × IsLawful (Valkey.adapter l)
      × IsLawful (Grafana.adapter l)
      × IsLawful (Mariadb.adapter l)
      × IsLawful (Rabbitmq.adapter l)
      × IsLawful (Prometheus.adapter l)
  adapters-AreLawful = (
    cnpg-IsLawful, valkey-IsLawful, grafana-IsLawful, mariadb-IsLawful, rabbitmq-IsLawful,
    prometheus-IsLawful,
  )
