-- ===== src/Controllers/Together.antt =====
-- The six controllers in one cluster.
use project_easter.Base.{
  ◌≡◌, ◌≢◌, String, Option, List, [], ◌∷◌, All, Bool, sym, refl, ◌∙◌, inl, inr,
}
use mathlib.Core.Path.{subst}
use project_easter.Base.Exec.{Result, ok}
use project_easter.Api.{GroupVersionKind, NamespacedName, Unstructured, Resource}
use project_easter.Platform.{Library, Client}
use project_easter.Reconciler.Adapter.{Adapter}
use project_easter.Reconciler.Calls.{
  Call, read, read_object, update, update_status, patch, delete, event,
}
use project_easter.Reconciler.Contract.{Key, key_of, IsLawful}
use project_easter.Reconciler.Scope.{Owns, Touches}
use project_easter.Reconciler.Confinement.{run}
use project_easter.Reconciler.Replay.{effect}
use project_easter.Reconciler.Kept.{run-Keeps}
use project_easter.Vendor.Contract.{
  cnpg-IsLawful, valkey-IsLawful, grafana-IsLawful, mariadb-IsLawful, rabbitmq-IsLawful,
  prometheus-IsLawful,
}
use project_easter.Controllers.{
  new_postgres_cluster_reconciler, new_valkey_cluster_reconciler, new_grafana_instance_reconciler,
  new_mariadb_cluster_reconciler, new_rabbitmq_cluster_reconciler,
  new_prometheus_instance_reconciler,
}
use project_easter.Controllers.Ownership.{
  Kind, postgres, valkey, grafana, mariadb, rabbitmq, prometheus, ResourceOf, target_of, OwnedBy,
}
use project_easter.Controllers.Owners.{place_of, owners_of_object}

-- The API server, as the client of the manager that the six controllers share reaches it.
pub record Server : Type 1 where
  pub Cluster : Type 0
  pub Error : Type 0
  pub is_not_found : Error → Bool
  pub ignore_not_found : Error → Option Error
  pub get : (i : Kind) → Cluster → NamespacedName → Result Error (ResourceOf i)
  pub get_object : Cluster → GroupVersionKind → NamespacedName → Result Error Unstructured
  pub update : (i : Kind) → Cluster → ResourceOf i → Result Error (Unit {0}) × Cluster
  pub update_status : (i : Kind) → Cluster → ResourceOf i → Result Error (Unit {0}) × Cluster
  pub patch : Cluster → Unstructured → String → Result Error Unstructured × Cluster
  pub delete : Cluster → GroupVersionKind → NamespacedName → Result Error (Unit {0}) × Cluster

abbrev pub client : (v : Server) (i : Kind) → Client (ResourceOf i)
client v i = record {
  Cluster = v.Cluster;
  Error = v.Error;
  is_not_found = v.is_not_found;
  ignore_not_found = v.ignore_not_found;
  get = v.get i;
  get_object = v.get_object;
  update = v.update i;
  update_status = v.update_status i;
  patch = v.patch;
  delete = v.delete;
}

-- A property of the cluster that every request keeps but the applies and the deletions of one object.
pub record Spared {R : Type 0} (c : Client R) (k : Key) (D : c.Cluster → Type 0) : Type 0 where
  pub patches :
      (s : c.Cluster) (u : Unstructured) (m : String) → key_of u ≢ k → D s → D (c.patch s u m).1
  pub deletes :
      (s : c.Cluster) (g : GroupVersionKind) (n : NamespacedName)
      → let j : Key = record { gvk = g; namespace = n.namespace; name = n.name } in
        j ≢ k → D s → D (c.delete s g n).1
  pub updates : (s : c.Cluster) (x : R) → D s → D (c.update s x).1
  pub statuses : (s : c.Cluster) (x : R) → D s → D (c.update_status s x).1

module _ {S T : Type 0} (l : Library) (c : Client (Resource S T)) (a : Adapter (Resource S T))
    (lawful : IsLawful a) (k : Key) (D : c.Cluster → Type 0) (spared : Spared c k D) where
  effect-Keeps :
      (cr : Resource S T)
      → ((j : Key) → Owns a cr j → j ≢ k)
      → (x : Call (Resource S T) c.Error) (t : c.Cluster) → Touches c a cr x
      → D t
      → D (effect c x t)
  effect-Keeps cr apart (read n r) t h d = d
  effect-Keeps cr apart (read_object g n r) t h d = d
  effect-Keeps cr apart (event e) t h d = d
  effect-Keeps cr apart (update x r) t h d = spared.updates t x d
  effect-Keeps cr apart (update_status x r) t h d = spared.statuses t x d
  effect-Keeps cr apart (patch u m r) t (owns, h, p) d =
      spared.patches t u m (apart (key_of u) owns) d
  effect-Keeps cr apart (delete g n r) t owns d = spared.deletes t g n (apart _ owns) d

  -- A run for a resource that does not own the object keeps the property.
  run-Spared :
      (n : NamespacedName) (s : c.Cluster)
      → ((cr : Resource S T) → c.get s n ≡ ok cr → (j : Key) → Owns a cr j → j ≢ k)
      → D s
      → D (run l c a n s).1.cluster
  run-Spared n s apart d = run-Keeps l c a lawful D n s d (λ cr e. effect-Keeps cr (apart cr e))

module _ (l : Library) (v : Server) where
  -- The cluster after a run of a controller.
  abbrev pub turn : Kind → NamespacedName → v.Cluster → v.Cluster
  turn postgres n s =
      (run l (client v postgres) (new_postgres_cluster_reconciler l).adapter n s).1.cluster
  turn valkey n s =
      (run l (client v valkey) (new_valkey_cluster_reconciler l).adapter n s).1.cluster
  turn grafana n s =
      (run l (client v grafana) (new_grafana_instance_reconciler l).adapter n s).1.cluster
  turn mariadb n s =
      (run l (client v mariadb) (new_mariadb_cluster_reconciler l).adapter n s).1.cluster
  turn rabbitmq n s =
      (run l (client v rabbitmq) (new_rabbitmq_cluster_reconciler l).adapter n s).1.cluster
  turn prometheus n s =
      (run l (client v prometheus) (new_prometheus_instance_reconciler l).adapter n s).1.cluster

  -- Runs of any controllers for any names, one after the other.
  abbrev pub turns : List (Kind × NamespacedName) → v.Cluster → v.Cluster
  turns [] s = s
  turns (t ∷ ts) s = turns ts (turn t.0 t.1 s)

  module _ (k : Key) (D : v.Cluster → Type 0) (spared : (i : Kind) → Spared (client v i) k D) where
    turn-Spared :
        (j : Kind) (n : NamespacedName) (s : v.Cluster)
        → ((y : ResourceOf j) → v.get j s n ≡ ok y → (m : Key) → OwnedBy l j y m → m ≢ k)
        → D s
        → D (turn j n s)
    turn-Spared postgres n s apart d =
        run-Spared l (client v postgres) (new_postgres_cluster_reconciler l).adapter
          (cnpg-IsLawful l) k D (spared postgres) n s apart d
    turn-Spared valkey n s apart d =
        run-Spared l (client v valkey) (new_valkey_cluster_reconciler l).adapter (valkey-IsLawful l)
          k D (spared valkey) n s apart d
    turn-Spared grafana n s apart d =
        run-Spared l (client v grafana) (new_grafana_instance_reconciler l).adapter
          (grafana-IsLawful l) k D (spared grafana) n s apart d
    turn-Spared mariadb n s apart d =
        run-Spared l (client v mariadb) (new_mariadb_cluster_reconciler l).adapter
          (mariadb-IsLawful l) k D (spared mariadb) n s apart d
    turn-Spared rabbitmq n s apart d =
        run-Spared l (client v rabbitmq) (new_rabbitmq_cluster_reconciler l).adapter
          (rabbitmq-IsLawful l) k D (spared rabbitmq) n s apart d
    turn-Spared prometheus n s apart d =
        run-Spared l (client v prometheus) (new_prometheus_instance_reconciler l).adapter
          (prometheus-IsLawful l) k D (spared prometheus) n s apart d

-- Every resource owns its target.
target-OwnedBy : (l : Library) (i : Kind) (x : ResourceOf i) → OwnedBy l i x (target_of l i x)
target-OwnedBy l postgres x = inl refl
target-OwnedBy l valkey x = inl refl
target-OwnedBy l grafana x = inl refl
target-OwnedBy l mariadb x = inl refl
target-OwnedBy l rabbitmq x = inl refl
target-OwnedBy l prometheus x = inl refl

module _ (l : Library) (v : Server)
    (gets_placed : (j : Kind) (s : v.Cluster) (n : NamespacedName) (y : ResourceOf j)
      → v.get j s n ≡ ok y
      → place_of j y ≡ n)
    (i : Kind) (x : ResourceOf i) (D : v.Cluster → Type 0)
    (spared : (j : Kind) → Spared (client v j) (target_of l i x) D) where
  elsewhere :
      (j : Kind) (n : NamespacedName) (s : v.Cluster)
      → ¬ ((j ≡ i) × (n ≡ place_of i x))
      → (y : ResourceOf j) → v.get j s n ≡ ok y
      → (m : Key) → OwnedBy l j y m
      → m ≢ target_of l i x
  elsewhere j n s other y e m own p =
      elim (owners_of_object l j i y x m own
        (subst (OwnedBy l i x) (sym p) (target-OwnedBy l i x))) [
          | inl (same, q) ↦ other (same, sym (gets_placed j s n y e) ∙ q)
          | inr (_, _, h) ↦ h p
        ]

  -- Take a property of the cluster that every request keeps but an apply or a deletion of the target of a
  -- resource (`Spared`), and a read that gives the resource of the name that was asked for. It is kept
  -- by any number of runs of the six controllers, in any order and whether they succeed or fail, for
  -- any names but those of the resource's own controller for its name. So no controller touches the
  -- target of another one's resource, nor that of another resource of its own kind.
  pub turns-Keep :
      (ts : List (Kind × NamespacedName)) (s : v.Cluster)
      → All (λ t. ¬ ((t.0 ≡ i) × (t.1 ≡ place_of i x))) ts
      → D s
      → D (turns l v ts s)
  turns-Keep [] s others d = d
  turns-Keep (t ∷ ts) s (other, others) d =
      turns-Keep ts (turn l v t.0 t.1 s) others
        (turn-Spared l v (target_of l i x) D spared t.0 t.1 s (elsewhere t.0 t.1 s other) d)
