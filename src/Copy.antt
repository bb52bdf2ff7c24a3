-- ===== src/Copy.antt =====
-- api/v1alpha1/zz_generated.deepcopy.go: the deep copies of the API types, in a heap where the pointers,
-- maps and slices of a value may be shared.
pub mod Layout
pub mod Heap
pub mod Slots
pub mod Into
pub mod Kind
pub mod Deep
pub mod Pointers
pub mod Maps
pub mod Laws
pub mod Resources
pub mod Postgres
pub mod Valkey
pub mod Grafana
pub mod Mariadb
pub mod Rabbitmq
pub mod Prometheus
pub mod ByKind
pub mod Isolation
