-- ===== src/Reconciler/Cleanup.antt =====
-- The deletion path: the finalizer goes only after the target and the extra resources have gone.
use project_easter.Base.{
  String, ◌≡◌, refl, true, false, List, [], ◌∷◌, map, All, Any, inl, inr, Bool-cases,
}
use project_easter.Base.Exec.{Result, ok}
use project_easter.Base.Hoare.{Post-same, Hoare-pure, Hoare-bind, Hoare-map}
use project_easter.Api.{GroupVersionKind, NamespacedName, named, Resource}
use project_easter.Platform.{Library, FinalizerLaws, Client}
use project_easter.Reconciler.Adapter.{Adapter, ExtraResource, finalizer_name}
use project_easter.Reconciler.Calls.{Call, World, read, update, delete}
use project_easter.Reconciler.Contract.{Key, extra_key, IsLawful}
use project_easter.Reconciler.Logic.{Calls, Passes, Spec, Spec-write}
use project_easter.Reconciler.Scope.{target, extra_keys}
use project_easter.Reconciler.Rules.{Permits, Spec-forgive}
use project_easter.Reconciler.Traverse.{converge-Walks}
use project_easter.Reconciler.Engine.{
  with_finalizers, has_finalizer, is_deleting, delete_target, delete_extra, delete_extras, extras,
  delete_extra_resources, update_resource, release, finalize, adopt, sync, on_get, reconcile,
}
use project_easter.Reconciler.Confinement.{run}

module _ {S T : Type 0} (c : Client (Resource S T)) where
  -- The deletion of an object, accepted by the API server or answered by "not found".
  abbrev pub IsDeletion : Key → Call (Resource S T) c.Error → Type 0
  IsDeletion k (delete g n r) =
      (k ≡ record { gvk = g; namespace = n.namespace; name = n.name }) × Passes c (delete g n r)
  IsDeletion k _ = ⊥

  abbrev pub Deleted : Calls c → Key → Type 0
  Deleted t k = Any (IsDeletion k) t

module _ {S T : Type 0} (l : Library) (c : Client (Resource S T)) (a : Adapter (Resource S T)) where
  -- An update, made or tried, that leaves the resource without the finalizer.
  abbrev pub IsRelease : Call (Resource S T) c.Error → Type 0
  IsRelease (update x r) = has_finalizer l c a x ≡ false
  IsRelease _ = ⊥

  module _ (cr : Resource S T) where
    -- Before every such update the target and all extra resources were deleted.
    abbrev pub ReleaseIsLast : Calls c → Type 0
    ReleaseIsLast [] = Unit
    ReleaseIsLast (x ∷ earlier) =
        (IsRelease x → All (Deleted c earlier) (target a cr ∷ extra_keys a cr))
        × ReleaseIsLast earlier

module _ {S T : Type 0} (l : Library) (c : Client (Resource S T)) (a : Adapter (Resource S T)) where
  -- A property of the calls that a further deletion keeps.
  abbrev pub Endures : (Calls c → Type 0) → Type 0
  Endures D =
      (g : GroupVersionKind) (n : NamespacedName) (r : Result c.Error (Unit {0})) (t : Calls c)
      → D t
      → D (delete g n r ∷ t)

  module _ (D : Calls c → Type 0) (e : Endures D) where
    pub delete_target-Deleted :
        (n m : String)
        → Spec c D
            (delete_target l c a n m)
            (λ _ t. D t × Deleted c t (record { gvk = a.gvk; namespace = n; name = m }))
            (λ _. D)
    unfolding delete_target
    delete_target-Deleted n m =
        Spec-forgive l c a D _ (λ _. D) (delete a.gvk (named n m)) false (λ _. true)
          (λ s. c.delete s a.gvk (named n m)) (λ b t s q d. (e _ _ _ t d, inl (refl, tt)))
          (λ x t s q y d. (e _ _ _ t d, inl (refl, y))) (λ x t s q y d. e _ _ _ t d)

    pub delete_extra-Deleted :
        (g : GroupVersionKind) (n m : String)
        → Spec c D
            (delete_extra l c a g n m)
            (λ _ t. D t × Deleted c t (record { gvk = g; namespace = n; name = m }))
            (λ _. D)
    unfolding delete_extra
    delete_extra-Deleted g n m =
        Spec-forgive l c a D _ (λ _. D) (delete g (named n m)) tt (λ _. tt)
          (λ s. c.delete s g (named n m)) (λ b t s q d. (e _ _ _ t d, inl (refl, tt)))
          (λ x t s q y d. (e _ _ _ t d, inl (refl, y))) (λ x t s q y d. e _ _ _ t d)

  pub delete_extras-Deleted :
      (D : Calls c → Type 0) (e : Endures D) (n : String) (xs : List ExtraResource)
      → Spec c D
          (delete_extras l c a n xs)
          (λ _ t. D t × All (Deleted c t) (map (extra_key n) xs))
          (λ _. D)
  unfolding delete_extras
  delete_extras-Deleted D e n [] = Hoare-pure tt (λ w d. (d, tt))
  delete_extras-Deleted D e n (x ∷ xs) =
      let k : Key = extra_key n x in
      Hoare-bind (delete_extra l c a x.gvk n x.name) _ (delete_extra-Deleted D e x.gvk n x.name)
        (λ _.
          Hoare-map (delete_extras l c a n xs) (λ _ w h. (h.0.0, (h.0.1, h.1))) (λ _ w h. h.0)
            (delete_extras-Deleted (λ t. D t × Deleted c t k)
              (λ g m r t h. (e g m r t h.0, inr h.1)) n xs))

  module _ (cr : Resource S T) where
    release-ReleaseIsLast :
        Spec c
          (ReleaseIsLast l c a cr)
          (release l c a cr (a.target_name cr.metadata.name))
          (λ _. ReleaseIsLast l c a cr)
          (λ _. ReleaseIsLast l c a cr)
    unfolding release extras update_resource
    release-ReleaseIsLast =
        let name = a.target_name cr.metadata.name in
        let x = with_finalizers (l.remove_finalizer cr.metadata.finalizers finalizer_name) cr in
        Hoare-bind (delete_target l c a cr.metadata.namespace name) _
          (delete_target-Deleted (ReleaseIsLast l c a cr) (λ g n r t h. (λ f. absurd f, h))
            cr.metadata.namespace name)
          (λ _.
            Hoare-bind (delete_extra_resources l c a cr name) _
              (Hoare-map (delete_extra_resources l c a cr name) (λ _ w h. h) (λ _ w h. h.0)
                (delete_extras-Deleted (λ t. ReleaseIsLast l c a cr t × Deleted c t (target a cr))
                  (λ g n r t h. ((λ f. absurd f, h.0), inr h.1)) cr.metadata.namespace _))
              (λ _.
                Hoare-bind (update_resource l c a x) _
                  (Spec-write c _ (λ _. ReleaseIsLast l c a cr) _ (update x) (λ s. c.update s x)
                    (λ b t s q h. (λ _. (h.0.1, h.1), h.0.0))
                    (λ e t s q h. (λ _. (h.0.1, h.1), h.0.0)))
                  (λ _. Hoare-pure _ (λ w h. h))))

    no_release :
        (x : Call (Resource S T) c.Error)
        → Permits c a cr (λ _. ⊥) (λ _. Unit) x
        → IsRelease l c a x
        → ⊥
    no_release (update x r) p f = p
    no_release (read k r) p f = f
    no_release _ p f = f

    sync-ReleaseIsLast :
        IsLawful a
        → FinalizerLaws l
        → Spec c
            (ReleaseIsLast l c a cr)
            (sync l c a cr (a.target_name cr.metadata.name))
            (λ _. ReleaseIsLast l c a cr)
            (λ _. ReleaseIsLast l c a cr)
    unfolding sync adopt
    sync-ReleaseIsLast lawful laws =
        let x = with_finalizers (l.add_finalizer cr.metadata.finalizers finalizer_name) cr in
        let kept : has_finalizer l c a x ≡ true =
          laws.contains-add cr.metadata.finalizers finalizer_name finalizer_name in
        elim (Bool-cases (has_finalizer l c a cr)) [
          | inl y ↦ rw y (
              converge-Walks l c a cr (λ _. ⊥) (λ _. Unit) (ReleaseIsLast l c a cr)
                (λ _. ReleaseIsLast l c a cr)
                (record {
                  pass = λ z t h _ i. ((λ f. absurd (no_release z h.1 f)), i);
                  fail = λ e z t h _ i. ((λ f. absurd (no_release z h.1 f)), i);
                })
                lawful tt)
          | inr n ↦ rw n (
              Hoare-bind (update_resource l c a x) _
                (Spec-write c _ (λ _. ReleaseIsLast l c a cr) _ (update x) (λ s. c.update s x)
                  (λ b t s q i. (λ f. cc (f, kept), i)) (λ e t s q i. (λ f. cc (f, kept), i)))
                (λ _. Hoare-pure _ (λ w h. h)))
        ]

    on_get-ReleaseIsLast :
        IsLawful a
        → FinalizerLaws l
        → Spec c
            (ReleaseIsLast l c a cr)
            (on_get l c a (ok cr))
            (λ _. ReleaseIsLast l c a cr)
            (λ _. ReleaseIsLast l c a cr)
    unfolding on_get finalize
    on_get-ReleaseIsLast lawful laws = elim (Bool-cases (is_deleting cr)) [
      | inl d ↦ rw d (elim (Bool-cases (has_finalizer l c a cr)) [
        | inl y ↦ rw y release-ReleaseIsLast
        | inr n ↦ rw n (Hoare-pure _ (λ w h. h))
      ])
      | inr n ↦ rw n (sync-ReleaseIsLast lawful laws)
    ]

  -- Whatever the API server answers: when a run takes the finalizer off a custom resource, then
  -- before this update it deleted the target and every extra resource that the adapter lists, and
  -- each of these deletions was accepted or answered by "not found".
  pub run-ReleaseIsLast :
      IsLawful a
      → FinalizerLaws l
      → (req : NamespacedName) (s : c.Cluster) (cr : Resource S T) → c.get s req ≡ ok cr
      → ReleaseIsLast l c a cr (run l c a req s).1.calls
  unfolding reconcile
  run-ReleaseIsLast lawful laws req s cr e = rw e (
      Post-same (λ (w : World c). ReleaseIsLast l c a cr w.calls) _
        ((on_get-ReleaseIsLast cr lawful laws).run
          (record { cluster = s; calls = read req (ok cr) ∷ [] }) ((λ f. absurd f), tt)))
