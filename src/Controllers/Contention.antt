-- ===== src/Controllers/Contention.antt =====
-- A run of one controller that deletes an object of another controller's resource.
use project_easter.Base.{◌<>◌, ◌≡◌, refl, true, false, Option, none, Any, inl, inr}
use mathlib.Core.Path.{sym, subst}
use project_easter.Base.Exec.{ok}
use project_easter.Api.{
  NamespacedName, ObjectMeta, Unstructured, IngressSpec, RabbitMqCluster, PrometheusInstance,
}
use project_easter.Platform.{Library, Client}
use project_easter.Reconciler.Contract.{Key}
use project_easter.Reconciler.Engine.{Outcome, is_deleting, has_finalizer}
use project_easter.Reconciler.Confinement.{run}
use project_easter.Reconciler.Cleanup.{Deleted}
use project_easter.Reconciler.Extras.{SettledAs, run-Settled}
use project_easter.Vendor.Ingress
use project_easter.Vendor.Rabbitmq
use project_easter.Vendor.Contract.{rabbitmq-IsLawful}
use project_easter.Controllers.Ownership.{prometheus, OwnedBy, extra_keys_of_prometheus}

module _ (l : Library) (c : Client RabbitMqCluster) where
  -- A run of the RabbitMQ controller that succeeds, for a live RabbitMQCluster that has the finalizer
  -- and asks for no ingress, has deleted an object that every PrometheusInstance of the same name and
  -- namespace owns: its Ingress.
  pub run_deletes_foreign_ingress :
      (req : NamespacedName) (s : c.Cluster) (x : RabbitMqCluster) (o : Outcome)
      (y : PrometheusInstance)
      → c.get s req ≡ ok x
      → is_deleting x ≡ false
      → has_finalizer l c (Rabbitmq.adapter l) x ≡ true
      → x.spec.ingress ≡ none
      → x.metadata.namespace ≡ y.metadata.namespace
      → x.metadata.name ≡ y.metadata.name
      → (run l c (Rabbitmq.adapter l) req s).0 ≡ ok o
      → let k : Key = record {
        gvk = Ingress.gvk;
        namespace = y.metadata.namespace;
        name = y.metadata.name <> "-ingress";
      } in
        OwnedBy l prometheus y k × Deleted c (run l c (Rabbitmq.adapter l) req s).1.calls k
  unfolding Rabbitmq.extra_resources
  run_deletes_foreign_ingress req s x o y e live finalized off same_namespace same_name returned =
      let t = (run l c (Rabbitmq.adapter l) req s).1.calls in
      let asked : Option IngressSpec → Option Unstructured =
        λ i. Rabbitmq.management_ingress i x.metadata.name x.metadata.namespace x.metadata.name in
      let place : ObjectMeta → Key =
        λ m. record { gvk = Ingress.gvk; namespace = m.namespace; name = m.name <> "-ingress" } in
      let key : place x.metadata ≡ place y.metadata = λ i. record {
        gvk = Ingress.gvk;
        namespace = same_namespace i;
        name = same_name i <> "-ingress";
      } in
      let settled =
        run-Settled l c (Rabbitmq.adapter l) (rabbitmq-IsLawful l) req s x o e live finalized
          returned in
      (
        inr (subst (Any _) (sym (extra_keys_of_prometheus l y)) (inr (inl refl))),
        subst (Deleted c t) key (
            subst (λ i. SettledAs c (Rabbitmq.adapter l) (asked i) (place x.metadata) t) off
              settled.0),
      )
