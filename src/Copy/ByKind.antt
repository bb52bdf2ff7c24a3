-- ===== src/Copy/ByKind.antt =====
-- The deep copies by kind.
use project_easter.Base.{Option, List}
use project_easter.Copy.Layout.{
  Ptr, Foreign, TypeMeta, PostgresClusterSpecLayout, ValkeyClusterSpecLayout,
  GrafanaInstanceSpecLayout, MariaDbClusterSpecLayout, RabbitMqClusterSpecLayout,
  PrometheusInstanceSpecLayout,
}
use project_easter.Controllers.Ownership.{
  Kind, postgres, valkey, grafana, mariadb, rabbitmq, prometheus, ResourceOf,
}
use project_easter.Copy.Heap.{Cell, Cmd}
use project_easter.Copy.Kind.{Copiers, Object}
use project_easter.Copy.Deep.{Reading}
use project_easter.Copy.Laws.{CopierLaws}
use project_easter.Copy.Postgres
use project_easter.Copy.Valkey
use project_easter.Copy.Grafana
use project_easter.Copy.Mariadb
use project_easter.Copy.Rabbitmq
use project_easter.Copy.Prometheus

abbrev pub LayoutOf : Foreign → Kind → Type 0
LayoutOf y postgres = PostgresClusterSpecLayout y
LayoutOf y valkey = ValkeyClusterSpecLayout y
LayoutOf y grafana = GrafanaInstanceSpecLayout
LayoutOf y mariadb = MariaDbClusterSpecLayout y
LayoutOf y rabbitmq = RabbitMqClusterSpecLayout y
LayoutOf y prometheus = PrometheusInstanceSpecLayout y

module _ {y : Foreign} where
  abbrev pub copy_as_object :
      (i : Kind) → Copiers y (LayoutOf y i) → Ptr → Cmd (Cell y (LayoutOf y i)) (Option Object)
  copy_as_object postgres f = Postgres.copy_as_object f
  copy_as_object valkey f = Valkey.copy_as_object f
  copy_as_object grafana f = Grafana.copy_as_object f
  copy_as_object mariadb f = Mariadb.copy_as_object f
  copy_as_object rabbitmq f = Rabbitmq.copy_as_object f
  copy_as_object prometheus f = Prometheus.copy_as_object f

  abbrev pub list_copy_as_object :
      (i : Kind) → Copiers y (LayoutOf y i) → Ptr → Cmd (Cell y (LayoutOf y i)) (Option Object)
  list_copy_as_object postgres f = Postgres.list_copy_as_object f
  list_copy_as_object valkey f = Valkey.list_copy_as_object f
  list_copy_as_object grafana f = Grafana.list_copy_as_object f
  list_copy_as_object mariadb f = Mariadb.list_copy_as_object f
  list_copy_as_object rabbitmq f = Rabbitmq.list_copy_as_object f
  list_copy_as_object prometheus f = Prometheus.list_copy_as_object f

  -- What a pointer to a resource stands for, and a pointer to a list.
  abbrev pub ReadsCopy :
      (i : Kind) {f : Copiers y (LayoutOf y i)}
      → CopierLaws f
      → Reading (Cell y (LayoutOf y i)) Ptr (Option (TypeMeta × ResourceOf i))
  ReadsCopy postgres laws = Postgres.Deep.ReadsCopy laws
  ReadsCopy valkey laws = Valkey.Deep.ReadsCopy laws
  ReadsCopy grafana laws = Grafana.Deep.ReadsCopy laws
  ReadsCopy mariadb laws = Mariadb.Deep.ReadsCopy laws
  ReadsCopy rabbitmq laws = Rabbitmq.Deep.ReadsCopy laws
  ReadsCopy prometheus laws = Prometheus.Deep.ReadsCopy laws

  abbrev pub ReadsListCopy :
      (i : Kind) {f : Copiers y (LayoutOf y i)} (laws : CopierLaws f)
      → Reading
          (Cell y (LayoutOf y i))
          Ptr
          (Option (TypeMeta × laws.ListMetaValue × List (TypeMeta × ResourceOf i)))
  ReadsListCopy postgres laws = Postgres.Deep.ReadsListCopy laws
  ReadsListCopy valkey laws = Valkey.Deep.ReadsListCopy laws
  ReadsListCopy grafana laws = Grafana.Deep.ReadsListCopy laws
  ReadsListCopy mariadb laws = Mariadb.Deep.ReadsListCopy laws
  ReadsListCopy rabbitmq laws = Rabbitmq.Deep.ReadsListCopy laws
  ReadsListCopy prometheus laws = Prometheus.Deep.ReadsListCopy laws
