-- ===== src/Reconciler/Gate.antt =====
-- The finalizer gates the work: nothing is applied or deleted for a resource without it, and
-- nothing is applied for a resource that is being deleted; a served deletion ends with its removal.
use project_easter.Base.{◌≡◌, true, false, [], ◌∷◌, All, inl, inr, Bool-cases}
use project_easter.Base.Exec.{ok}
use project_easter.Base.Hoare.{Post-same, Hoare-pure, Hoare-pre, Hoare-map, Hoare-bind}
use project_easter.Api.{NamespacedName, Resource}
use project_easter.Platform.{Library, Client}
use project_easter.Reconciler.Adapter.{Adapter, finalizer_name}
use project_easter.Reconciler.Calls.{
  Call, World, read, read_object, update, update_status, patch, delete, event,
}
use project_easter.Reconciler.Contract.{IsLawful}
use project_easter.Reconciler.Logic.{Calls, Spec, Spec-write}
use project_easter.Reconciler.Rules.{Rules, Permits}
use project_easter.Reconciler.Traverse.{converge-Walks}
use project_easter.Reconciler.Cleanup.{Endures, delete_target-Deleted, delete_extras-Deleted}
use project_easter.Reconciler.Engine.{
  with_finalizers, has_finalizer, is_deleting, delete_target, delete_extra_resources, extras,
  update_resource, release, finalize, adopt, sync, on_get, reconcile,
}
use project_easter.Reconciler.Confinement.{run}

module _ {S T : Type 0} (l : Library) (c : Client (Resource S T)) (a : Adapter (Resource S T))
    (cr : Resource S T) where
  -- A call that the state of the resource allows: it deletes only for a resource that has the
  -- finalizer, it applies, writes the status or records an event only if the resource moreover is
  -- not being deleted, and it updates only to remove the finalizer of a resource that is being
  -- deleted and has it, or to add it to one that is not and has not.
  abbrev pub IsGated : Call (Resource S T) c.Error → Type 0
  IsGated (read k r) = Unit
  IsGated (read_object g k r) = Unit
  IsGated (delete g k r) = has_finalizer l c a cr ≡ true
  IsGated (update x r) = has_finalizer l c a cr ≡ is_deleting cr
  IsGated (update_status x r) = (has_finalizer l c a cr ≡ true) × (is_deleting cr ≡ false)
  IsGated (patch u m r) = (has_finalizer l c a cr ≡ true) × (is_deleting cr ≡ false)
  IsGated (event e) = (has_finalizer l c a cr ≡ true) × (is_deleting cr ≡ false)

  abbrev Gated : Calls c → Type 0
  Gated = All IsGated

  no_update :
      has_finalizer l c a cr ≡ true
      → is_deleting cr ≡ false
      → (x : Call (Resource S T) c.Error) → Permits c a cr (λ _. ⊥) (λ _. Unit) x
      → IsGated x
  no_update y n (read k r) p = tt
  no_update y n (read_object g k r) p = tt
  no_update y n (update x r) p = absurd p
  no_update y n (delete g k r) p = y
  no_update y n _ p = (y, n)

  converge_rules :
      has_finalizer l c a cr ≡ true
      → is_deleting cr ≡ false
      → Rules c a cr (λ _. ⊥) (λ _. Unit) Gated (λ _. Gated)
  converge_rules y n = record {
    pass = λ x t h _ i. (no_update y n x h.1, i);
    fail = λ e x t h _ i. (no_update y n x h.1, i);
  }

  release-Gated :
      has_finalizer l c a cr ≡ true
      → is_deleting cr ≡ true
      → Spec c Gated (release l c a cr (a.target_name cr.metadata.name)) (λ _. Gated) (λ _. Gated)
  unfolding release extras update_resource
  release-Gated y d =
      let name = a.target_name cr.metadata.name in
      let x = with_finalizers (l.remove_finalizer cr.metadata.finalizers finalizer_name) cr in
      let e : Endures l c a Gated = λ g n r t h. (y, h) in
      let same : has_finalizer l c a cr ≡ is_deleting cr = cc in
      Hoare-bind (delete_target l c a cr.metadata.namespace name) _
        (delete_target-Deleted l c a Gated e cr.metadata.namespace name)
        (λ _.
          Hoare-bind (delete_extra_resources l c a cr name) _
            (Hoare-map (delete_extra_resources l c a cr name) (λ _ w h. h.0) (λ _ w h. h)
              (Hoare-pre (delete_extra_resources l c a cr name) (λ w h. h.0)
                (delete_extras-Deleted l c a Gated e cr.metadata.namespace _)))
            (λ _.
              Hoare-bind (update_resource l c a x) _
                (Spec-write c Gated (λ _. Gated) (λ _. Gated) (update x) (λ s. c.update s x)
                  (λ b t s q h. (same, h)) (λ e t s q h. (same, h)))
                (λ _. Hoare-pure _ (λ w h. h))))

  adopt-Gated :
      has_finalizer l c a cr ≡ false
      → is_deleting cr ≡ false
      → Spec c Gated (adopt l c a cr) (λ _. Gated) (λ _. Gated)
  unfolding adopt update_resource
  adopt-Gated y d =
      let x = with_finalizers (l.add_finalizer cr.metadata.finalizers finalizer_name) cr in
      let same : has_finalizer l c a cr ≡ is_deleting cr = cc in
      Hoare-bind (update_resource l c a x) _
        (Spec-write c Gated (λ _. Gated) (λ _. Gated) (update x) (λ s. c.update s x)
          (λ b t s q h. (same, h)) (λ e t s q h. (same, h)))
        (λ _. Hoare-pure _ (λ w h. h))

  on_get-Gated : IsLawful a → Spec c Gated (on_get l c a (ok cr)) (λ _. Gated) (λ _. Gated)
  unfolding on_get finalize sync
  on_get-Gated lawful = elim (Bool-cases (is_deleting cr)) [
    | inl d ↦ elim (Bool-cases (has_finalizer l c a cr)) [
      | inl y ↦ rw (d, y) (release-Gated y d)
      | inr m ↦ rw (d, m) (Hoare-pure _ (λ w h. h))
    ]
    | inr n ↦ elim (Bool-cases (has_finalizer l c a cr)) [
      | inl y ↦
          rw (n, y)
            (converge-Walks l c a cr (λ _. ⊥) (λ _. Unit) Gated (λ _. Gated) (converge_rules y n)
              lawful tt)
      | inr m ↦ rw (n, m) (adopt-Gated m n)
    ]
  ]

  -- Every call of a run is one that the finalizer and the deletion mark of the custom resource allow
  -- (`IsGated`): without the finalizer nothing is deleted and nothing applied, and once deletion is
  -- requested nothing is applied, no status written and no event recorded.
  pub run-IsGated :
      IsLawful a
      → (req : NamespacedName) (s : c.Cluster) → c.get s req ≡ ok cr
      → All IsGated (run l c a req s).1.calls
  unfolding reconcile
  run-IsGated lawful req s e = rw e (
      Post-same (λ (w : World c). Gated w.calls)
        (on_get l c a (ok cr) (record { cluster = s; calls = read req (ok cr) ∷ [] }))
        ((on_get-Gated lawful).run (record { cluster = s; calls = read req (ok cr) ∷ [] })
          (tt, tt)))
