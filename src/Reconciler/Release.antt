-- ===== src/Reconciler/Release.antt =====
-- A deletion that the API server serves ends with the removal of the finalizer.
use project_easter.Base.{◌≡◌, refl, true, false, [], ◌∷◌, ap, inl, inr}
use project_easter.Base.Exec.{Result, ok, err}
use project_easter.Base.Hoare.{Post, Hoare-pure, Hoare-bind}
use project_easter.Api.{NamespacedName, Resource}
use project_easter.Platform.{Library, FinalizerLaws, Client}
use project_easter.Reconciler.Adapter.{Adapter, finalizer_name}
use project_easter.Reconciler.Calls.{World, read, update}
use project_easter.Reconciler.Logic.{Calls, Spec, Spec-write}
use project_easter.Reconciler.Rules.{Rules}
use project_easter.Reconciler.Traverse.{delete_target-Walks, delete_extras-Walks}
use project_easter.Reconciler.Engine.{
  Outcome, done, with_finalizers, has_finalizer, is_deleting, delete_target, delete_extra_resources,
  extras, update_resource, release, finalize, on_get, reconcile,
}
use project_easter.Reconciler.Confinement.{run}
use project_easter.Reconciler.Progress.{IsAvailable, no_failure}

module _ {S T : Type 0} (l : Library) (c : Client (Resource S T)) (a : Adapter (Resource S T))
    (cr : Resource S T) where
  -- The last call updated the resource, with success, to one that differs in its finalizers alone
  -- and has not the operator's.
  abbrev pub Freed : Calls c → Type 0
  Freed (update x (ok _) ∷ earlier) =
      (has_finalizer l c a x ≡ false) × (with_finalizers cr.metadata.finalizers x ≡ cr)
  Freed _ = ⊥

  abbrev Ends : Outcome → Calls c → Type 0
  Ends o t = (o ≡ done) × Freed t

  Post-Ends :
      (r : Result c.Error Outcome × World c)
      → Post (λ o w. Ends o w.calls) (λ _ _. ⊥) r
      → (r.0 ≡ ok done) × Freed r.1.calls
  Post-Ends (ok o, w) h = (ap ok h.0, h.1)
  Post-Ends (err e, w) h = elim h [ ]

  served : IsAvailable c → Rules c a cr (λ _. Unit) (λ _. Unit) (λ _. Unit) (λ _ _. ⊥)
  served v = record { pass = λ _ _ _ _ _. tt; fail = λ e x _ h f _. no_failure l c a v e x h.2 f }

  not_failed :
      IsAvailable c
      → (x : Resource S T) (s : c.Cluster) (e : c.Error) → (c.update s x).0 ≡ err e
      → ⊥
  not_failed v x s e q = no_failure l c a v e (update x (err e)) (s, q) refl

  release-Ends :
      IsAvailable c
      → FinalizerLaws l
      → Spec c (λ _. Unit) (release l c a cr (a.target_name cr.metadata.name)) Ends (λ _ _. ⊥)
  unfolding release extras update_resource
  release-Ends v laws =
      let name = a.target_name cr.metadata.name in
      let x = with_finalizers (l.remove_finalizer cr.metadata.finalizers finalizer_name) cr in
      Hoare-bind (delete_target l c a cr.metadata.namespace name) _
        (delete_target-Walks l c a cr _ _ (λ _. Unit) (λ _ _. ⊥) (served v) cr.metadata.namespace
          name (inl refl))
        (λ _.
          Hoare-bind (delete_extra_resources l c a cr name) _
            (delete_extras-Walks l c a cr _ _ (λ _. Unit) (λ _ _. ⊥) (served v) _ (λ j h. inr h))
            (λ _.
              Hoare-bind (update_resource l c a x) _
                (Spec-write c (λ _. Unit) (λ _. Freed) (λ _ _. ⊥) (update x) (λ s. c.update s x)
                  (λ b t s q h. (
                    laws.contains-remove cr.metadata.finalizers finalizer_name finalizer_name,
                    refl,
                  ))
                  (λ e t s q h. not_failed v x s e q))
                (λ _. Hoare-pure _ (λ w h. (refl, h)))))

-- If the API server serves every request, a single run for a custom resource whose deletion is
-- requested and which has the finalizer succeeds, asks for no further run, and its last call is an
-- update that takes the finalizer off and changes nothing else.
pub run-Freed :
    {S T : Type 0} (l : Library) (c : Client (Resource S T)) (a : Adapter (Resource S T))
    → IsAvailable c
    → FinalizerLaws l
    → (req : NamespacedName) (s : c.Cluster) (cr : Resource S T) → c.get s req ≡ ok cr
    → is_deleting cr ≡ true
    → has_finalizer l c a cr ≡ true
    → ((run l c a req s).0 ≡ ok done) × Freed l c a cr (run l c a req s).1.calls
unfolding reconcile on_get finalize
run-Freed l c a v laws req s cr e d y = Post-Ends l c a cr (run l c a req s) (
    rw (e, d, y)
      ((release-Ends l c a cr v laws).run (record { cluster = s; calls = read req (ok cr) ∷ [] })
        tt))
