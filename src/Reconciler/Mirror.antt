-- ===== src/Reconciler/Mirror.antt =====
-- The normal path: what a run that succeeds leaves in the status, and when it asks to run again.
use project_easter.Base.{
  String, ◌≡◌, refl, true, false, some, [], ◌∷◌, Any, inl, inr, ◌*◌, if◌then◌else◌,
}
use project_easter.Base.Exec.{ok}
use project_easter.Base.Hoare.{Post-ok, Hoare-pure, Hoare-bind}
use project_easter.Api.{NamespacedName, Unstructured, Resource}
use project_easter.Platform.{Library, Client}
use project_easter.Reconciler.Adapter.{Adapter, TargetStatus}
use project_easter.Reconciler.Calls.{Call, World, read, update_status, patch}
use project_easter.Reconciler.Contract.{IsLawful}
use project_easter.Reconciler.Logic.{Calls, Spec, Spec-write}
use project_easter.Reconciler.Rules.{Rules}
use project_easter.Reconciler.Traverse.{apply_extras-Walks, announce-Walks, get_target-Walks}
use project_easter.Reconciler.Engine.{
  Outcome, second, minute, has_finalizer, is_deleting, get_target, apply_target, announce,
  apply_extra_resources, update_resource_status, requeue_later, extras, converge, sync, on_get,
  reconcile,
}
use project_easter.Reconciler.Confinement.{run}

module _ {S T : Type 0} (c : Client (Resource S T)) (a : Adapter (Resource S T))
    (cr : Resource S T) where
  abbrev target_name : String
  target_name = a.target_name cr.metadata.name

  -- The API server answered the apply of the resource's manifest with the object `merged`.
  abbrev pub IsApplied : Unstructured → Call (Resource S T) c.Error → Type 0
  IsApplied merged x =
      x
      ≡ patch (a.build_manifest cr target_name cr.metadata.namespace cr.metadata.name)
          a.field_manager (ok merged)

  -- The last call wrote the status that the adapter makes of `merged`.
  abbrev pub WroteStatus : TargetStatus → Calls c → Type 0
  WroteStatus s [] = ⊥
  WroteStatus s (x ∷ earlier) = x ≡ update_status (a.apply_status cr target_name s).0 (ok tt)

  -- The run mirrors the object with which the API server answered the apply, and polls by it.
  abbrev pub Mirrors : Outcome → Calls c → Type 0
  Mirrors o t =
      (merged : Unstructured) × Any (IsApplied merged) t
      × WroteStatus (a.extract_status (some merged)) t
      × (o.requeue ≡ false)
      × (o.requeue_after
          ≡ (if (a.extract_status (some merged)).ready then 5 * minute else 15 * second))

module _ {S T : Type 0} (l : Library) (c : Client (Resource S T)) (a : Adapter (Resource S T))
    (lawful : IsLawful a) (cr : Resource S T) where
  pub any_rules :
      (P : Calls c → Type 0)
      → ((x : Call (Resource S T) c.Error) (t : Calls c) → P t → P (x ∷ t))
      → Rules c a cr (λ _. Unit) (λ _. Unit) P (λ _ _. Unit)
  any_rules P f = record { pass = λ x t _ _. f x t; fail = λ e x t _ _ _. tt }

  converge-Mirrors :
      Spec c (λ _. Unit) (converge l c a cr (target_name c a cr)) (Mirrors c a cr) (λ _ _. Unit)
  unfolding converge extras apply_target update_resource_status requeue_later
  converge-Mirrors =
      let name = target_name c a cr in
      let manifest = a.build_manifest cr name cr.metadata.namespace cr.metadata.name in
      Hoare-bind (get_target l c a a.gvk cr.metadata.namespace name) _
        (get_target-Walks l c a cr _ _ (λ _. Unit) (λ _ _. Unit)
          (any_rules (λ _. Unit) (λ _ _ h. h)) a.gvk cr.metadata.namespace name (inl refl))
        (λ existing.
          Hoare-bind (apply_target l c a manifest) _
            (Spec-write c _ (λ merged t. Any (IsApplied c a cr merged) t) (λ _ _. Unit)
              (patch manifest a.field_manager) (λ s. c.patch s manifest a.field_manager)
              (λ merged t s q h. inl refl) (λ e t s q h. tt))
            (λ merged.
              let P : Calls c → Type 0 = λ t. Any (IsApplied c a cr merged) t in
              let k = any_rules P (λ x t h. inr h) in
              Hoare-bind (announce l c a existing cr name) _
                (announce-Walks l c a cr _ _ P (λ _ _. Unit) k existing name tt)
                (λ _.
                  Hoare-bind (apply_extra_resources l c a cr name) _
                    (apply_extras-Walks l c a cr _ _ P (λ _ _. Unit) k _
                      (lawful.matched cr name cr.metadata.namespace cr.metadata.name)
                      (λ j h. inr h))
                    (λ _.
                      let status = a.extract_status (some merged) in
                      let x = (a.apply_status cr name status).0 in
                      Hoare-bind (update_resource_status l c a x) _
                        (Spec-write c _ (λ _ t. P t × WroteStatus c a cr status t) (λ _ _. Unit)
                          (update_status x) (λ s. c.update_status s x) (λ b t s q h. (inr h, refl))
                          (λ e t s q h. tt))
                        (λ _. Hoare-pure _ (λ w h. (merged, h.0, h.1, refl, refl)))))))

  on_get-Mirrors :
      is_deleting cr ≡ false
      → has_finalizer l c a cr ≡ true
      → Spec c (λ _. Unit) (on_get l c a (ok cr)) (Mirrors c a cr) (λ _ _. Unit)
  unfolding on_get sync
  on_get-Mirrors live finalized = rw (live, finalized) converge-Mirrors

-- When a run succeeds for a live custom resource that has the finalizer, then the API server was
-- sent the adapter's manifest and answered with some object; the last call of the run wrote the
-- status that the adapter makes of that object; and the run asks for the next one after 5 minutes
-- if the object is ready, after 15 seconds if not.
pub run-Mirrors :
    {S T : Type 0} (l : Library) (c : Client (Resource S T)) (a : Adapter (Resource S T))
    → IsLawful a
    → (req : NamespacedName) (s : c.Cluster) (cr : Resource S T) (o : Outcome) → c.get s req ≡ ok cr
    → is_deleting cr ≡ false
    → has_finalizer l c a cr ≡ true
    → (run l c a req s).0 ≡ ok o
    → Mirrors c a cr o (run l c a req s).1.calls
unfolding reconcile
run-Mirrors l c a lawful req s cr o e live finalized returned =
    Post-ok (λ x (w : World c). Mirrors c a cr x w.calls) (λ _ _. Unit) (run l c a req s) o returned
      (rw e (
        (on_get-Mirrors l c a lawful cr live finalized).run
          (record { cluster = s; calls = read req (ok cr) ∷ [] }) tt))
