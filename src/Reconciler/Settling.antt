-- ===== src/Reconciler/Settling.antt =====
-- A resource that is new to the operator: one run adopts it, the next one settles it.
use project_easter.Base.{◌≡◌, refl, ap, ◌∙◌, true, false}
use project_easter.Base.Exec.{Result, ok, err}
use project_easter.Api.{NamespacedName, Resource}
use project_easter.Platform.{Library, FinalizerLaws, Client}
use project_easter.Reconciler.Adapter.{Adapter, finalizer_name}
use project_easter.Reconciler.Engine.{
  Outcome, with_finalizers, is_deleting, has_finalizer, update_resource, adopt, sync, on_get,
  reconcile,
}
use project_easter.Reconciler.Contract.{IsLawful}
use project_easter.Reconciler.Confinement.{run}
use project_easter.Reconciler.Progress.{Succeeds, IsAvailable, run-returns}
use project_easter.Reconciler.Plan.{requests}
use project_easter.Reconciler.Repeats.{IsDriven, settling, wanted, run-wanted, wanted-same}

-- Two versions of a resource that differ at most in the status and the resource version.
abbrev pub Agrees : {S T : Type 0} → Resource S T → Resource S T → Type 0
Agrees x y =
    (y.metadata.name ≡ x.metadata.name)
    × (y.metadata.namespace ≡ x.metadata.namespace)
    × (y.metadata.finalizers ≡ x.metadata.finalizers)
    × (is_deleting y ≡ is_deleting x)
    × (y.spec ≡ x.spec)

-- A read that follows an update gives what was written.
pub record ReadsBack {S T : Type 0} (c : Client (Resource S T)) (req : NamespacedName)
    : Type 0 where
  pub updated :
      (s : c.Cluster) (x : Resource S T)
      → (x.metadata.name ≡ req.name) × (x.metadata.namespace ≡ req.namespace)
      → (c.update s x).0 ≡ ok tt
      → (y : Resource S T) × (c.get (c.update s x).1 req ≡ ok y) × Agrees x y

module _ {S T : Type 0} (l : Library) (finalizers : FinalizerLaws l) (c : Client (Resource S T))
    (a : Adapter (Resource S T)) (req : NamespacedName) where
  abbrev adopted : Resource S T → Resource S T
  adopted cr = with_finalizers (l.add_finalizer cr.metadata.finalizers finalizer_name) cr

  Succeeds-ok : (r : Result c.Error (Unit {0})) → Succeeds c r → r ≡ ok tt
  Succeeds-ok (ok tt) h = refl
  Succeeds-ok (err e) h = absurd h

  -- The run that adopts a resource.
  run_adopts :
      (s : c.Cluster) (cr : Resource S T)
      → c.get s req ≡ ok cr
      → is_deleting cr ≡ false
      → has_finalizer l c a cr ≡ false
      → (c.update s (adopted cr)).0 ≡ ok tt
      → ((run l c a req s).0 ≡ ok (record { requeue = true; requeue_after = 0 }))
        × ((run l c a req s).1.cluster ≡ (c.update s (adopted cr)).1)
  unfolding reconcile on_get sync adopt update_resource
  run_adopts s cr e live new accepted = rw (e, live, new, accepted) (refl, refl)

  -- With an adapter that meets the contract (`IsLawful`) and reads what it asks for off the spec
  -- (`IsDriven`), the laws of finalizers, an API server that serves every request and from which an
  -- update can be read back, and a resource of the requested name that is not to be deleted and has
  -- no finalizer yet: a run succeeds and asks to be requeued at once; and if nothing else happens,
  -- the next run succeeds too, and makes the applies and deletes that the spec asks for, all of
  -- them and no others: of the manifest, and of each extra object that is desired or not.
  pub settles_in_two :
      IsLawful a
      → IsDriven a
      → IsAvailable c
      → ReadsBack c req
      → (s : c.Cluster) (cr : Resource S T) → c.get s req ≡ ok cr
      → (cr.metadata.name ≡ req.name) × (cr.metadata.namespace ≡ req.namespace)
      → is_deleting cr ≡ false
      → has_finalizer l c a cr ≡ false
      → let s' = (run l c a req s).1.cluster in
        ((run l c a req s).0 ≡ ok (record { requeue = true; requeue_after = 0 }))
        × ((o : Outcome) × ((run l c a req s').0 ≡ ok o))
        × (settling (requests (run l c a req s').1.calls)
            ≡ wanted l c a cr cr.metadata.namespace cr.metadata.name)
  settles_in_two lawful driven v back s cr e here live new =
      let accepted = Succeeds-ok (c.update s (adopted cr)).0 (v.updates s (adopted cr)) in
      let (first, next) = run_adopts s cr e live new accepted in
      let (y, read_back, agrees) = back.updated s (adopted cr) here accepted in
      let guarded =
        ap (λ fs. l.contains_finalizer fs finalizer_name) agrees.2
        ∙ finalizers.contains-add cr.metadata.finalizers finalizer_name finalizer_name in
      let (o, returned) = run-returns l c a lawful v req (run l c a req s).1.cluster in
      (
        first,
        (o, returned),
        run-wanted l c a req (run l c a req s).1.cluster y o
              (ap (λ t. c.get t req) next ∙ read_back) (agrees.3 ∙ live) guarded returned
            ∙ wanted-same l c a driven y cr (agrees.0, agrees.1, agrees.4),
      )
