-- ===== src/Reconciler/Progress.antt =====
-- A run against an API server that serves its requests ends without an error.
use project_easter.Base.{String, ◌≡◌, refl, true, none, [], ◌∷◌, arith}
use project_easter.Base.Exec.{Result, ok, err}
use project_easter.Base.Hoare.{Post}
use project_easter.Api.{GroupVersionKind, NamespacedName, Unstructured, Resource}
use project_easter.Platform.{Library, Client}
use project_easter.Reconciler.Adapter.{Adapter}
use project_easter.Reconciler.Calls.{
  Call, World, read, read_object, update, update_status, patch, delete,
}
use project_easter.Reconciler.Contract.{IsLawful}
use project_easter.Reconciler.Logic.{FailsWith, Answers}
use project_easter.Reconciler.Traverse.{on_get-Walks}
use project_easter.Reconciler.Engine.{Outcome, on_get, reconcile}
use project_easter.Reconciler.Confinement.{run}

module _ {R : Type 0} (c : Client R) where
  -- A result that is no error, or the error of an object that is not there.
  abbrev pub Serves : {A : Type 0} → Result c.Error A → Type 0
  Serves (ok a) = Unit
  Serves (err e) = c.is_not_found e ≡ true

  abbrev pub Succeeds : {A : Type 0} → Result c.Error A → Type 0
  Succeeds (ok a) = Unit
  Succeeds (err e) = ⊥

  -- The API server serves every request; only what is read or deleted may be missing.
  pub record IsAvailable : Type 0 where
    pub gets : (s : c.Cluster) (k : NamespacedName) → Serves (c.get s k)
    pub gets_object :
        (s : c.Cluster) (g : GroupVersionKind) (k : NamespacedName) → Serves (c.get_object s g k)
    pub deletes :
        (s : c.Cluster) (g : GroupVersionKind) (k : NamespacedName) → Serves (c.delete s g k).0
    pub updates : (s : c.Cluster) (x : R) → Succeeds (c.update s x).0
    pub updates_status : (s : c.Cluster) (x : R) → Succeeds (c.update_status s x).0
    pub patches : (s : c.Cluster) (u : Unstructured) (m : String) → Succeeds (c.patch s u m).0
    -- `client.IgnoreNotFound`
    pub ignores : (e : c.Error) → c.is_not_found e ≡ true → c.ignore_not_found e ≡ none

module _ {S T : Type 0} (l : Library) (c : Client (Resource S T)) (a : Adapter (Resource S T)) where
  pub no_failure :
      IsAvailable c
      → (e : c.Error) (x : Call (Resource S T) c.Error) → Answers c x
      → FailsWith c e x
      → ⊥
  no_failure v e (read k (err x)) (s, q) f = ground (arith, v.gets s k, v.ignores x)
  no_failure v e (read_object g k (err x)) (s, q) f = ground (arith, v.gets_object s g k)
  no_failure v e (update x (err y)) (s, q) f = ground (arith, v.updates s x)
  no_failure v e (update_status x (err y)) (s, q) f = ground (arith, v.updates_status s x)
  no_failure v e (patch u m (err x)) (s, q) f = ground (arith, v.patches s u m)
  no_failure v e (delete g k (err x)) (s, q) f = ground (arith, v.deletes s g k)
  no_failure v e _ h f = f

  on_get-returns :
      IsLawful a
      → IsAvailable c
      → (req : NamespacedName) (s : c.Cluster) (r : Result c.Error (Resource S T)) → c.get s req ≡ r
      → Post
          (λ _ (w : World c). Unit {0})
          (λ _ _. ⊥)
          (on_get l c a r (record { cluster = s; calls = read req r ∷ [] }))
  unfolding on_get
  on_get-returns lawful v req s (ok cr) q =
      (on_get-Walks l c a cr (λ _. Unit) (λ _. Unit) (λ _. Unit) (λ _ _. ⊥)
          (record { pass = λ _ _ _ _ _. tt; fail = λ e x _ h f _. no_failure v e x h.2 f }) lawful
          tt (λ _. tt)).run
        _ tt
  on_get-returns lawful v req s (err e) q = ground (arith, v.gets s req, v.ignores e)

  Post-returns :
      (r : Result c.Error Outcome × World c)
      → Post (λ _ _. Unit {0}) (λ _ _. ⊥) r
      → (o : Outcome) × (r.0 ≡ ok o)
  Post-returns (ok o, w) h = (o, refl)
  Post-returns (err e, w) h = elim h [ ]

  -- If the API server serves every request, where only what is read or deleted may be missing, then
  -- every run returns without an error, whichever path it takes.
  pub run-returns :
      IsLawful a
      → IsAvailable c
      → (req : NamespacedName) (s : c.Cluster) → (o : Outcome) × ((run l c a req s).0 ≡ ok o)
  unfolding reconcile
  run-returns lawful v req s = Post-returns _ (on_get-returns lawful v req s (c.get s req) refl)
