-- ===== src/Vendor/Exposed.antt =====
-- The extra objects of a ValkeyCluster, of a RabbitMQCluster and of a PrometheusInstance.
use project_easter.Vendor.Valkey
use project_easter.Vendor.Rabbitmq
use project_easter.Vendor.Prometheus
