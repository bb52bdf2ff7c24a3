-- ===== src/Tests/Manifests.antt =====
-- The manifests and the extra objects of concrete resources.
use project_easter.Base.{◌≡◌}
use project_easter.Base.Int.{pos}
use project_easter.Vendor.Ingress
use project_easter.Vendor.Ingress.Manifest.{read_ingress, route, read_ingress-build}
use project_easter.Vendor.Cnpg
use project_easter.Vendor.Cnpg.Manifest.{read_cnpg, read_cnpg-build_manifest}
use project_easter.Vendor.Valkey
use project_easter.Vendor.Valkey.Manifest.{read_valkey, read_valkey-build_manifest}
use project_easter.Vendor.Grafana
use project_easter.Vendor.Grafana.Manifest.{read_grafana, read_grafana-build_manifest}
use project_easter.Vendor.Mariadb
use project_easter.Vendor.Mariadb.Manifest.{read_mariadb, read_mariadb-build_manifest}
use project_easter.Vendor.Rabbitmq
use project_easter.Vendor.Rabbitmq.Manifest.{read_rabbitmq, read_rabbitmq-build_manifest}
use project_easter.Vendor.Prometheus
use project_easter.Vendor.Prometheus.Manifest.{read_prometheus, read_prometheus-build_manifest}
use project_easter.Vendor.Schema.{Fits}
use project_easter.Tests.Resources.{
  routed, postgres, valkey, grafana, mariadb, rabbitmq, prometheus,
}

read_ingress-build_example :
    (read_ingress (Ingress.build routed "main-ingress" "data" "main" "manager" "main" (pos 80))
      ≡ route routed "main-ingress" "data" "main" (pos 80))
    × Fits Ingress.Manifest.ingress_schema
        (Ingress.build routed "main-ingress" "data" "main" "manager" "main" (pos 80)).object
read_ingress-build_example =
    read_ingress-build routed "main-ingress" "data" "main" "manager" "main" (pos 80)

read_cnpg-build_manifest_example :
    (read_cnpg (Cnpg.build_manifest postgres "main" "data" "main").object
      ≡ Cnpg.Manifest.settings postgres.spec "main")
    × Fits Cnpg.Manifest.manifest_schema (Cnpg.build_manifest postgres "main" "data" "main").object
read_cnpg-build_manifest_example = read_cnpg-build_manifest postgres "main" "data" "main"

read_mariadb-build_manifest_example :
    (read_mariadb (Mariadb.build_manifest mariadb "main" "data" "main").object
      ≡ Mariadb.Manifest.settings mariadb.spec "main")
    × Fits Mariadb.Manifest.manifest_schema
        (Mariadb.build_manifest mariadb "main" "data" "main").object
read_mariadb-build_manifest_example = read_mariadb-build_manifest mariadb "main" "data" "main"

read_valkey-build_manifest_example :
    (read_valkey (Valkey.build_manifest valkey "main" "data" "main").object
      ≡ Valkey.Manifest.settings valkey.spec)
    × Fits Valkey.Manifest.manifest_schema
        (Valkey.build_manifest valkey "main" "data" "main").object
read_valkey-build_manifest_example = read_valkey-build_manifest valkey "main" "data" "main"

read_rabbitmq-build_manifest_example :
    (read_rabbitmq (Rabbitmq.build_manifest rabbitmq "main" "data" "main").object
      ≡ Rabbitmq.Manifest.settings rabbitmq.spec)
    × Fits Rabbitmq.Manifest.manifest_schema
        (Rabbitmq.build_manifest rabbitmq "main" "data" "main").object
read_rabbitmq-build_manifest_example = read_rabbitmq-build_manifest rabbitmq "main" "data" "main"

read_grafana-build_manifest_example :
    (read_grafana (Grafana.build_manifest grafana "main" "data" "main").object
      ≡ Grafana.Manifest.settings grafana.spec)
    × Fits Grafana.Manifest.manifest_schema
        (Grafana.build_manifest grafana "main" "data" "main").object
read_grafana-build_manifest_example = read_grafana-build_manifest grafana "main" "data" "main"

read_prometheus-build_manifest_example :
    (read_prometheus (Prometheus.build_manifest prometheus "main" "data" "main").object
      ≡ Prometheus.Manifest.settings prometheus.spec)
    × Fits Prometheus.Manifest.manifest_schema
        (Prometheus.build_manifest prometheus "main" "data" "main").object
read_prometheus-build_manifest_example =
    read_prometheus-build_manifest prometheus "main" "data" "main"
