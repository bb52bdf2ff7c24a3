-- ===== src/Reconciler/Kept.antt =====
-- What each call of a run keeps, the run keeps.
use project_easter.Base.{◌≡◌, refl, sym, arith}
use mathlib.Core.Path.{subst}
use project_easter.Base.Exec.{Result, ok, err}
use project_easter.Api.{NamespacedName, Resource}
use project_easter.Platform.{Library, Client}
use project_easter.Reconciler.Adapter.{Adapter}
use project_easter.Reconciler.Calls.{Call, World}
use project_easter.Reconciler.Contract.{IsLawful}
use project_easter.Reconciler.Scope.{Touches}
use project_easter.Reconciler.Engine.{on_get, reconcile}
use project_easter.Reconciler.Confinement.{run, run-Touches}
use project_easter.Reconciler.Replay.{effect, replay-Keeps, run-IsReplayed}

module _ {S T : Type 0} (l : Library) (c : Client (Resource S T)) (a : Adapter (Resource S T)) where
  pub on_get-err : (e : c.Error) (w : World c) → (on_get l c a (err e) w).1 ≡ w
  unfolding on_get
  on_get-err e w = ground arith

  module _ (lawful : IsLawful a) (D : c.Cluster → Type 0) (req : NamespacedName) (s : c.Cluster)
      (d : D s) where
    run_failed-Keeps : (e : c.Error) → c.get s req ≡ err e → D (run l c a req s).1.cluster
    unfolding reconcile
    run_failed-Keeps e q = rw q (subst (λ (w : World c). D w.cluster) (sym (on_get-err e _)) d)

    -- What is kept by every call that a run for the resource may make, the run keeps.
    pub run-Keeps :
        ((cr : Resource S T)
          → c.get s req ≡ ok cr
          → (x : Call (Resource S T) c.Error) (t : c.Cluster) → Touches c a cr x
          → D t
          → D (effect c x t))
        → D (run l c a req s).1.cluster
    run-Keeps keeps = go (c.get s req) refl
      where
        go : (r : Result c.Error (Resource S T)) → c.get s req ≡ r → D (run l c a req s).1.cluster
        go (ok cr) q = subst D (sym (run-IsReplayed l c a s req)) (
            replay-Keeps c (Touches c a cr) D (keeps cr q) _ s (run-Touches l c a lawful req s cr q)
              d)
        go (err e) q = run_failed-Keeps e q
