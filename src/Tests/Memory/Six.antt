-- ===== src/Tests/Memory/Six.antt =====
-- The API server in memory with the six kinds of custom resources.
use project_easter.Base.{true, none, ◌∷◌, ◌≡◌, sym, ◌∙◌, Option, List}
use project_easter.Base.Exec.{Result, ok}
use project_easter.Api.{
  NamespacedName, named, Unstructured, Resource, PostgresCluster, ValkeyCluster, GrafanaInstance,
  MariaDbCluster, RabbitMqCluster, PrometheusInstance,
}
use project_easter.Reconciler.Contract.{Key}
use project_easter.Controllers.Ownership.{
  Kind, postgres, valkey, grafana, mariadb, rabbitmq, prometheus, ResourceOf,
}
use project_easter.Controllers.Owners
use project_easter.Controllers.Together.{Server, Spared, client}
use project_easter.Tests.Memory.{
  Failure, object_at, drop_at, delete_result, merge, place, found, matching, put, put_status,
}
use project_easter.Tests.Memory.Laws.{at_key, found-matching}
use project_easter.Tests.Memory.Effects.{patch_elsewhere, at_key-kept}

abbrev pub Shelf : Type 0 → Type 0
Shelf R = NamespacedName → Option R

pub record Six : Type 0 where
  pub postgres_clusters : Shelf PostgresCluster
  pub valkey_clusters : Shelf ValkeyCluster
  pub grafana_instances : Shelf GrafanaInstance
  pub mariadb_clusters : Shelf MariaDbCluster
  pub rabbitmq_clusters : Shelf RabbitMqCluster
  pub prometheus_instances : Shelf PrometheusInstance
  pub objects : List Unstructured

abbrev get_kind : (i : Kind) → Six → NamespacedName → Result Failure (ResourceOf i)
get_kind postgres s n = found (matching n (s.postgres_clusters n))
get_kind valkey s n = found (matching n (s.valkey_clusters n))
get_kind grafana s n = found (matching n (s.grafana_instances n))
get_kind mariadb s n = found (matching n (s.mariadb_clusters n))
get_kind rabbitmq s n = found (matching n (s.rabbitmq_clusters n))
get_kind prometheus s n = found (matching n (s.prometheus_instances n))

abbrev put_kind : (i : Kind) → Six → ResourceOf i → Six
put_kind postgres s x = record s { postgres_clusters = put x s.postgres_clusters }
put_kind valkey s x = record s { valkey_clusters = put x s.valkey_clusters }
put_kind grafana s x = record s { grafana_instances = put x s.grafana_instances }
put_kind mariadb s x = record s { mariadb_clusters = put x s.mariadb_clusters }
put_kind rabbitmq s x = record s { rabbitmq_clusters = put x s.rabbitmq_clusters }
put_kind prometheus s x = record s { prometheus_instances = put x s.prometheus_instances }

abbrev put_status_kind : (i : Kind) → Six → ResourceOf i → Six
put_status_kind postgres s x = record s { postgres_clusters = put_status x s.postgres_clusters }
put_status_kind valkey s x = record s { valkey_clusters = put_status x s.valkey_clusters }
put_status_kind grafana s x = record s { grafana_instances = put_status x s.grafana_instances }
put_status_kind mariadb s x = record s { mariadb_clusters = put_status x s.mariadb_clusters }
put_status_kind rabbitmq s x = record s { rabbitmq_clusters = put_status x s.rabbitmq_clusters }
put_status_kind prometheus s x = record s {
  prometheus_instances = put_status x s.prometheus_instances;
}

abbrev pub six : Server
six = record {
  Cluster = Six;
  Error = Failure;
  is_not_found = λ e. true;
  ignore_not_found = λ e. none;
  get = get_kind;
  get_object = λ s g k. found (object_at g k s.objects);
  update = λ i s x. (ok tt, put_kind i s x);
  update_status = λ i s x. (ok tt, put_status_kind i s x);
  patch = λ s u m.
      let v = merge (object_at u.gvk (place u) s.objects) u in
      (ok v, record s { objects = v ∷ drop_at u.gvk (place u) s.objects });
  delete = λ s g k.
      (delete_result (object_at g k s.objects), record s { objects = drop_at g k s.objects });
}

named_so :
    {S T : Type 0} (n : NamespacedName) (o : Option (Resource S T)) (x : Resource S T)
    → found (matching n o) ≡ ok x
    → named x.metadata.namespace x.metadata.name ≡ n
named_so n o x e =
    let (_, p, q) = found-matching n o x e in λ i. record { namespace = q i; name = p i }

pub six-gets_placed :
    (i : Kind) (s : Six) (n : NamespacedName) (x : ResourceOf i)
    → six.get i s n ≡ ok x
    → Owners.place_of i x ≡ n
six-gets_placed postgres s n x e = named_so n (s.postgres_clusters n) x e
six-gets_placed valkey s n x e = named_so n (s.valkey_clusters n) x e
six-gets_placed grafana s n x e = named_so n (s.grafana_instances n) x e
six-gets_placed mariadb s n x e = named_so n (s.mariadb_clusters n) x e
six-gets_placed rabbitmq s n x e = named_so n (s.rabbitmq_clusters n) x e
six-gets_placed prometheus s n x e = named_so n (s.prometheus_instances n) x e

-- The object under the key is the given one, or there is none.
abbrev pub Shows : Key → Option Unstructured → Six → Type 0
Shows k o s = at_key k s.objects ≡ o

module _ (k : Key) (o : Option Unstructured) where
  put_kind-Shows :
      (i : Kind) (s : Six) (x : ResourceOf i) → Shows k o s → Shows k o (put_kind i s x)
  put_kind-Shows postgres s x d = d
  put_kind-Shows valkey s x d = d
  put_kind-Shows grafana s x d = d
  put_kind-Shows mariadb s x d = d
  put_kind-Shows rabbitmq s x d = d
  put_kind-Shows prometheus s x d = d

  put_status_kind-Shows :
      (i : Kind) (s : Six) (x : ResourceOf i) → Shows k o s → Shows k o (put_status_kind i s x)
  put_status_kind-Shows postgres s x d = d
  put_status_kind-Shows valkey s x d = d
  put_status_kind-Shows grafana s x d = d
  put_status_kind-Shows mariadb s x d = d
  put_status_kind-Shows rabbitmq s x d = d
  put_status_kind-Shows prometheus s x d = d

  pub Shows-Spared : (i : Kind) → Spared (client six i) k (Shows k o)
  Shows-Spared i = record {
    patches = λ s u m other d. patch_elsewhere s.objects u k (λ e. other (sym e)) ∙ d;
    deletes = λ s g n other d.
        at_key-kept (record { gvk = g; namespace = n.namespace; name = n.name }) k s.objects
          (λ e. other (sym e))
        ∙ d;
    updates = put_kind-Shows i;
    statuses = put_status_kind-Shows i;
  }
