-- ===== src/Controllers/Ownership.antt =====
-- Which objects the resources of the six controllers own, and where two controllers meet.
use project_easter.Base.{
  String, ◌<>◌, ◌≡◌, refl, ap, ◌⊎◌, or_default, Option, none, some, List, [], ◌∷◌, ◌==◌, inl, inr,
  arith, Any, if◌then◌else◌,
}
use mathlib.Core.Path.{sym, ◌∙◌, subst}
use project_easter.Api.{
  IngressSpec, ServiceExposeSpec, Unstructured, PostgresCluster, ValkeyCluster, GrafanaInstance,
  MariaDbCluster, RabbitMqCluster, PrometheusInstance,
}
use project_easter.Platform.{Library}
use project_easter.Reconciler.Contract.{Key, extra_key, listed}
use project_easter.Reconciler.Scope
use project_easter.Vendor.Ingress
use project_easter.Vendor.Cnpg
use project_easter.Vendor.Cnpg.Manifest.{
  Exposure, exposed_as, read_cnpg, settings, read_cnpg-build_manifest,
}
use project_easter.Vendor.Valkey
use project_easter.Vendor.Rabbitmq
use project_easter.Vendor.Prometheus
use project_easter.Controllers.{
  new_postgres_cluster_reconciler, new_valkey_cluster_reconciler, new_grafana_instance_reconciler,
  new_mariadb_cluster_reconciler, new_rabbitmq_cluster_reconciler,
  new_prometheus_instance_reconciler,
}

-- The six kinds of custom resources.
pub data Kind : Type 0 where
  postgres : Kind
  valkey : Kind
  grafana : Kind
  mariadb : Kind
  rabbitmq : Kind
  prometheus : Kind

abbrev pub ResourceOf : Kind → Type 0
ResourceOf postgres = PostgresCluster
ResourceOf valkey = ValkeyCluster
ResourceOf grafana = GrafanaInstance
ResourceOf mariadb = MariaDbCluster
ResourceOf rabbitmq = RabbitMqCluster
ResourceOf prometheus = PrometheusInstance

module _ (l : Library) where
  abbrev pub target_of : (i : Kind) → ResourceOf i → Key
  target_of postgres cr = Scope.target (new_postgres_cluster_reconciler l).adapter cr
  target_of valkey cr = Scope.target (new_valkey_cluster_reconciler l).adapter cr
  target_of grafana cr = Scope.target (new_grafana_instance_reconciler l).adapter cr
  target_of mariadb cr = Scope.target (new_mariadb_cluster_reconciler l).adapter cr
  target_of rabbitmq cr = Scope.target (new_rabbitmq_cluster_reconciler l).adapter cr
  target_of prometheus cr = Scope.target (new_prometheus_instance_reconciler l).adapter cr

  abbrev pub OwnedBy : (i : Kind) → ResourceOf i → Key → Type 0
  OwnedBy postgres cr = Scope.Owns (new_postgres_cluster_reconciler l).adapter cr
  OwnedBy valkey cr = Scope.Owns (new_valkey_cluster_reconciler l).adapter cr
  OwnedBy grafana cr = Scope.Owns (new_grafana_instance_reconciler l).adapter cr
  OwnedBy mariadb cr = Scope.Owns (new_mariadb_cluster_reconciler l).adapter cr
  OwnedBy rabbitmq cr = Scope.Owns (new_rabbitmq_cluster_reconciler l).adapter cr
  OwnedBy prometheus cr = Scope.Owns (new_prometheus_instance_reconciler l).adapter cr

-- The kind of the target, which no other controller uses.
pub target_kind : Kind → String
target_kind postgres = "Cluster"
target_kind valkey = "ValkeyCluster"
target_kind grafana = "Grafana"
target_kind mariadb = "MariaDB"
target_kind rabbitmq = "RabbitmqCluster"
target_kind prometheus = "Prometheus"

-- The controller whose targets are of a kind.
pub controller : String → Option Kind
controller s =
    if s == "Cluster"
    then some postgres
    else if s == "ValkeyCluster"
    then some valkey
    else if s == "Grafana"
    then some grafana
    else if s == "MariaDB"
    then some mariadb
    else if s == "RabbitmqCluster"
    then some rabbitmq
    else if s == "Prometheus"
    then some prometheus
    else none

pub controller-target_kind : (i : Kind) → controller (target_kind i) ≡ some i
unfolding controller target_kind
controller-target_kind postgres = refl
controller-target_kind valkey = refl
controller-target_kind grafana = refl
controller-target_kind mariadb = refl
controller-target_kind rabbitmq = refl
controller-target_kind prometheus = refl

module _ (l : Library) where
  kind_of_target : (i : Kind) (x : ResourceOf i) → controller (target_of l i x).gvk.kind ≡ some i
  unfolding controller
  kind_of_target postgres x = refl
  kind_of_target valkey x = refl
  kind_of_target grafana x = refl
  kind_of_target mariadb x = refl
  kind_of_target rabbitmq x = refl
  kind_of_target prometheus x = refl

  -- The Service and the Ingress of a PrometheusInstance, whatever its spec asks for.
  abbrev pub web_keys : PrometheusInstance → List Key
  web_keys y =
      extra_key y.metadata.namespace
        (record { gvk = Prometheus.service_gvk; name = y.metadata.name <> "-web"; desired = none })
      ∷ extra_key y.metadata.namespace
          (record { gvk = Ingress.gvk; name = y.metadata.name <> "-ingress"; desired = none })
      ∷ []

  pub extra_keys_of_prometheus :
      (y : PrometheusInstance) → Scope.extra_keys (Prometheus.adapter l) y ≡ web_keys y
  unfolding Prometheus.extra_resources
  extra_keys_of_prometheus y = ground arith

  abbrev Known : Kind → Key → Type 0
  Known j k = (controller k.gvk.kind ≡ some j) ⊎ (controller k.gvk.kind ≡ none)

  known : {k m : Key} → k ≡ m → controller k.gvk.kind ≡ controller m.gvk.kind
  known e = ap (λ k. controller k.gvk.kind) e

  web_kind :
      (y : PrometheusInstance) (k : Key)
      → Any (λ j. k ≡ j) (web_keys y)
      → controller k.gvk.kind ≡ none
  unfolding controller
  web_kind y k (inl e) = known e
  web_kind y k (inr (inl e)) = known e
  web_kind y k (inr (inr h)) = elim h [ ]

  owned_kind : (j : Kind) (y : ResourceOf j) (k : Key) → OwnedBy l j y k → Known j k
  unfolding controller Valkey.extra_resources Rabbitmq.extra_resources
  owned_kind postgres y k (inl e) = inl (known e)
  owned_kind postgres y k (inr h) = elim h [ ]
  owned_kind valkey y k (inl e) = inl (known e)
  owned_kind valkey y k (inr (inl e)) = inr (known e)
  owned_kind valkey y k (inr (inr h)) = elim h [ ]
  owned_kind grafana y k (inl e) = inl (known e)
  owned_kind grafana y k (inr h) = elim h [ ]
  owned_kind mariadb y k (inl e) = inl (known e)
  owned_kind mariadb y k (inr h) = elim h [ ]
  owned_kind rabbitmq y k (inl e) = inl (known e)
  owned_kind rabbitmq y k (inr (inl e)) = inr (known e)
  owned_kind rabbitmq y k (inr (inr h)) = elim h [ ]
  owned_kind prometheus y k (inl e) = inl (known e)
  owned_kind prometheus y k (inr h) =
      inr (web_kind y k (subst (Any (λ j. k ≡ j)) (extra_keys_of_prometheus y) h))

  -- A resource never owns the target of a resource of another kind: if the target of x is among the
  -- objects that y owns, then x and y are of the same kind.
  pub owner_of_target :
      (i j : Kind) (x : ResourceOf i) (y : ResourceOf j) → OwnedBy l j y (target_of l i x) → i ≡ j
  owner_of_target i j x y own = elim (owned_kind j y (target_of l i x) own) [
    | inl e ↦ ap (or_default i) (sym (kind_of_target i x) ∙ e)
    | inr e ↦ ground (arith, kind_of_target i x)
  ]

  -- A RabbitMQCluster and a PrometheusInstance of one name and namespace contend for an Ingress: if
  -- the first asks for no ingress and the second for one, then the first one's adapter lists, as an
  -- object to delete, the very Ingress that the second one's adapter lists as an object to apply.
  pub rabbitmq_prunes_prometheus :
      (x : RabbitMqCluster) (y : PrometheusInstance) (i : IngressSpec)
      → x.metadata.namespace ≡ y.metadata.namespace
      → x.metadata.name ≡ y.metadata.name
      → x.spec.ingress ≡ none
      → y.spec.ingress ≡ some i
      → (k : Key) × Any
          (λ e. (extra_key x.metadata.namespace e ≡ k) × (e.desired ≡ none))
          (listed (Rabbitmq.adapter l) x x.metadata.name x.metadata.namespace x.metadata.name)
        × Any
            (λ e.
              (extra_key y.metadata.namespace e ≡ k) × ((u : Unstructured) × (e.desired ≡ some u)))
            (listed (Prometheus.adapter l) y y.metadata.name y.metadata.namespace y.metadata.name)
  unfolding Rabbitmq.extra_resources Prometheus.extra_resources
  rabbitmq_prunes_prometheus x y i same_namespace same_name off on =
      rw (off, on, same_namespace, same_name) (_, inl (refl, refl), inr (inl (refl, (_, refl))))

  -- A PostgresCluster and a ValkeyCluster of one name and namespace contend for a Service: if the
  -- first is to be exposed and the second is not, then the Service that the first one's manifest asks
  -- CloudNativePG for has the name and namespace of the Service that the second one's adapter lists as
  -- an object to delete.
  pub valkey_prunes_postgres :
      (x : PostgresCluster) (y : ValkeyCluster) (e : ServiceExposeSpec)
      → x.metadata.namespace ≡ y.metadata.namespace
      → x.metadata.name ≡ y.metadata.name
      → x.spec.expose ≡ some e
      → y.spec.expose ≡ none
      → let u = Cnpg.build_manifest x x.metadata.name x.metadata.namespace x.metadata.name in
        (s : Exposure) × ((read_cnpg u.object).exposures ≡ some (s ∷ []))
        × Any
            (λ r.
              (extra_key y.metadata.namespace r
                ≡ record { gvk = Valkey.service_gvk; namespace = u.namespace; name = s.name })
              × (r.desired ≡ none))
            (listed (Valkey.adapter l) y y.metadata.name y.metadata.namespace y.metadata.name)
  unfolding Valkey.extra_resources settings Cnpg.build_manifest
  valkey_prunes_postgres x y e same_namespace same_name on off =
      let name = x.metadata.name in
      let asked =
        ap (λ s. s.exposures) (read_cnpg-build_manifest x name x.metadata.namespace name).0 in
      (
        exposed_as name e,
        asked ∙ rw on refl,
        rw off (inl (rw (same_namespace, same_name) refl, refl)),
      )
