-- ===== src/Reconciler/Confinement.antt =====
-- What a run of `Reconcile` may touch, and how it stops at an error.
use project_easter.Base.{◌≡◌, [], ◌∷◌, All, arith}
use project_easter.Base.Exec.{Result, ok, err}
use project_easter.Base.Hoare.{Post, Post-same}
use project_easter.Api.{NamespacedName, Resource}
use project_easter.Platform.{Library, Client}
use project_easter.Reconciler.Adapter.{Adapter}
use project_easter.Reconciler.Calls.{World, read}
use project_easter.Reconciler.Contract.{IsLawful}
use project_easter.Reconciler.Logic.{Calls, Passes, FailsWith}
use project_easter.Reconciler.Scope.{Touches}
use project_easter.Reconciler.Traverse.{on_get-Walks}
use project_easter.Reconciler.Engine.{Outcome, on_get, reconcile}

module _ {S T : Type 0} (l : Library) (c : Client (Resource S T)) (a : Adapter (Resource S T)) where
  -- A run that begins with no call made.
  abbrev pub run : NamespacedName → c.Cluster → Result c.Error Outcome × World c
  run req s = reconcile l c a req (record { cluster = s; calls = [] })

  -- The last call failed with the error, and every call before it passed.
  abbrev pub StoppedBy : c.Error → Calls c → Type 0
  StoppedBy e [] = ⊥
  StoppedBy e (x ∷ earlier) = FailsWith c e x × All (Passes c) earlier

  -- Whatever the API server answers, a run for a custom resource reads, applies and deletes no
  -- object but the resource's target and the extra resources that its adapter lists; what it applies
  -- carries the labels and the field manager of the adapter, with the resource as owner; and of the
  -- resource itself it writes the finalizers or the status alone.
  pub run-Touches :
      IsLawful a
      → (req : NamespacedName) (s : c.Cluster) (cr : Resource S T) → c.get s req ≡ ok cr
      → All (Touches c a cr) (run req s).1.calls
  unfolding reconcile
  run-Touches lawful req s cr e = rw e (
      Post-same (λ (w : World c). All (Touches c a cr) w.calls) _
        ((on_get-Walks l c a cr (λ _. Unit {0}) (λ _. Unit {0}) (All (Touches c a cr))
            (λ _. All (Touches c a cr))
            (record { pass = λ x t h _ i. (h.0, i); fail = λ _ x t h _ i. (h.0, i) }) lawful tt
            (λ _. tt)).run
          (record { cluster = s; calls = read req (ok cr) ∷ [] }) (tt, tt)))

  on_get-stops :
      IsLawful a
      → (req : NamespacedName) (s : c.Cluster) (r : Result c.Error (Resource S T))
      → Post
          (λ _ (w : World c). All (Passes c) w.calls)
          (λ e w. StoppedBy e w.calls)
          (on_get l c a r (record { cluster = s; calls = read req r ∷ [] }))
  unfolding on_get
  on_get-stops lawful req s (ok cr) =
      (on_get-Walks l c a cr (λ _. Unit {0}) (λ _. Unit {0}) (All (Passes c)) StoppedBy
          (record { pass = λ x t _ p i. (p, i); fail = λ e x t _ p i. (p, i) }) lawful tt
          (λ _. tt)).run
        _ (tt, tt)
  on_get-stops lawful req s (err e) = ground arith

  -- Of a run that returns without an error every call passed: it succeeded, or it was a read or a
  -- deletion of an object that was not found. A run that returns an error stopped at a call that
  -- failed with this error, and every call before that one had passed.
  pub run-stops :
      IsLawful a
      → (req : NamespacedName) (s : c.Cluster)
      → Post (λ _ w. All (Passes c) w.calls) (λ e w. StoppedBy e w.calls) (run req s)
  unfolding reconcile
  run-stops lawful req s = on_get-stops lawful req s (c.get s req)
