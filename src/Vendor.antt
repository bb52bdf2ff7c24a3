-- ===== src/Vendor.antt =====
-- The six vendor adapters (internal/cnpg, valkey, grafana, mariadb, rabbitmq, prometheus) and the
-- parts that they share.
pub mod Common
pub mod Ingress
pub mod Cnpg
pub mod Valkey
pub mod Grafana
pub mod Mariadb
pub mod Rabbitmq
pub mod Prometheus
pub mod Apart
pub mod Separate
pub mod Exposed
pub mod Schema
pub mod Wording
pub mod Bounds
pub mod Contract
pub mod Driven
pub mod Reading
pub mod Readiness
pub mod Conditions
