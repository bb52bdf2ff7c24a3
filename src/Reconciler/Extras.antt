-- ===== src/Reconciler/Extras.antt =====
-- The extra resources after a run: what is asked for was applied, what is not was deleted.
use project_easter.Base.{
  String, ◌≡◌, refl, true, false, Option, none, some, List, [], ◌∷◌, All, Any, inl, inr,
}
use project_easter.Base.Exec.{ok, pure}
use project_easter.Base.Hoare.{Post-ok, Hoare-pure, Hoare-bind, Hoare-map}
use project_easter.Api.{NamespacedName, Resource, Unstructured}
use project_easter.Platform.{Library, Client}
use project_easter.Reconciler.Adapter.{Adapter, ExtraResource}
use project_easter.Reconciler.Calls.{Call, World, read, patch, update_status}
use project_easter.Reconciler.Contract.{Key, extra_key, IsLawful, listed}
use project_easter.Reconciler.Logic.{Calls, Spec, Spec-write}
use project_easter.Reconciler.Traverse.{get_target-Walks, apply_target-Walks, announce-Walks}
use project_easter.Reconciler.Cleanup.{Deleted, delete_extra-Deleted}
use project_easter.Reconciler.Mirror.{any_rules}
use project_easter.Reconciler.Engine.{
  Outcome, has_finalizer, is_deleting, get_target, apply_target, delete_extra, apply_extra,
  apply_extras, extras, apply_extra_resources, announce, update_resource_status, converge, sync,
  on_get, reconcile,
}
use project_easter.Reconciler.Confinement.{run}

module _ {S T : Type 0} (c : Client (Resource S T)) (a : Adapter (Resource S T)) where
  -- The API server accepted the apply of the object.
  abbrev pub IsAccepted : Unstructured → Call (Resource S T) c.Error → Type 0
  IsAccepted u (patch v m (ok merged)) = (v ≡ u) × (m ≡ a.field_manager)
  IsAccepted u _ = ⊥

  -- An object that is asked for was applied, one that is not was deleted.
  abbrev pub SettledAs : Option Unstructured → Key → Calls c → Type 0
  SettledAs none k t = Deleted c t k
  SettledAs (some u) k t = Any (IsAccepted u) t

  abbrev pub Settled : String → Calls c → ExtraResource → Type 0
  Settled namespace t x = SettledAs x.desired (extra_key namespace x) t

  SettledAs-later :
      (d : Option Unstructured) (k : Key) (x : Call (Resource S T) c.Error) (t : Calls c)
      → SettledAs d k t
      → SettledAs d k (x ∷ t)
  SettledAs-later none k x t h = inr h
  SettledAs-later (some u) k x t h = inr h

  All-later :
      (n : String) (xs : List ExtraResource) (y : Call (Resource S T) c.Error) (t : Calls c)
      → All (Settled n t) xs
      → All (Settled n (y ∷ t)) xs
  All-later n [] y t h = tt
  All-later n (x ∷ xs) y t (h, hs) = (SettledAs-later x.desired _ y t h, All-later n xs y t hs)

  -- A property of the calls that every further call keeps.
  abbrev pub Lasts : (Calls c → Type 0) → Type 0
  Lasts D = (x : Call (Resource S T) c.Error) (t : Calls c) → D t → D (x ∷ t)

module _ {S T : Type 0} (l : Library) (c : Client (Resource S T)) (a : Adapter (Resource S T)) where
  apply_extra-Settled :
      (D : Calls c → Type 0) (e : Lasts c a D) (n : String) (x : ExtraResource)
      → Spec c D (apply_extra l c a n x) (λ _ t. D t × Settled c a n t x) (λ _ _. Unit)
  unfolding apply_extra apply_target
  apply_extra-Settled D e n x = go x.desired
    where
      go :
          (d : Option Unstructured)
          → Spec c D
              (apply_extra l c a n (record x { desired = d }))
              (λ _ t. D t × SettledAs c a d (extra_key n x) t)
              (λ _ _. Unit)
      go none =
          Hoare-map (delete_extra l c a x.gvk n x.name) (λ _ w h. h) (λ _ w h. tt)
            (delete_extra-Deleted l c a D (λ g m r t d. e _ t d) x.gvk n x.name)
      go (some u) =
          Hoare-bind (apply_target l c a u) (λ _. pure tt)
            (Spec-write c D (λ _ t. D t × Any (IsAccepted c a u) t) (λ _ _. Unit)
              (patch u a.field_manager) (λ s. c.patch s u a.field_manager)
              (λ b t s q d. (e _ t d, inl (refl, refl))) (λ b t s q d. tt))
            (λ _. Hoare-pure tt (λ w h. h))

  apply_extras-Settled :
      (D : Calls c → Type 0) (e : Lasts c a D) (n : String) (xs : List ExtraResource)
      → Spec c D (apply_extras l c a n xs) (λ _ t. D t × All (Settled c a n t) xs) (λ _ _. Unit)
  unfolding apply_extras
  apply_extras-Settled D e n [] = Hoare-pure tt (λ w d. (d, tt))
  apply_extras-Settled D e n (x ∷ xs) =
      Hoare-bind (apply_extra l c a n x) _ (apply_extra-Settled D e n x) (λ _.
        Hoare-map (apply_extras l c a n xs) (λ _ w h. (h.0.0, (h.0.1, h.1))) (λ _ w h. h)
          (apply_extras-Settled (λ t. D t × Settled c a n t x)
            (λ y t h. (e y t h.0, SettledAs-later c a x.desired _ y t h.1)) n xs))

  module _ (lawful : IsLawful a) (cr : Resource S T) where
    abbrev AllSettled : Calls c → Type 0
    AllSettled t =
        All (Settled c a cr.metadata.namespace t)
          (listed a cr (a.target_name cr.metadata.name) cr.metadata.namespace cr.metadata.name)

    converge-AllSettled :
        Spec c
          (λ _. Unit)
          (converge l c a cr (a.target_name cr.metadata.name))
          (λ _. AllSettled)
          (λ _ _. Unit)
    unfolding converge extras update_resource_status
    converge-AllSettled =
        let name = a.target_name cr.metadata.name in
        let manifest = a.build_manifest cr name cr.metadata.namespace cr.metadata.name in
        let (same, labels) = lawful.built cr name cr.metadata.namespace cr.metadata.name in
        let k = any_rules l c a lawful cr (λ _. Unit) (λ _ _ h. h) in
        Hoare-bind (get_target l c a a.gvk cr.metadata.namespace name) _
          (get_target-Walks l c a cr _ _ (λ _. Unit) (λ _ _. Unit) k a.gvk cr.metadata.namespace
            name (inl refl))
          (λ existing.
            Hoare-bind (apply_target l c a manifest) _
              (apply_target-Walks l c a cr _ _ (λ _. Unit) (λ _ _. Unit) k manifest (inl same)
                labels)
              (λ merged.
                Hoare-bind (announce l c a existing cr name) _
                  (announce-Walks l c a cr _ _ (λ _. Unit) (λ _ _. Unit) k existing name tt)
                  (λ _.
                    Hoare-bind (apply_extra_resources l c a cr name) _
                      (apply_extras-Settled (λ _. Unit) (λ _ _ h. h) cr.metadata.namespace _)
                      (λ _.
                        let status = a.extract_status (some merged) in
                        let x = (a.apply_status cr name status).0 in
                        Hoare-bind (update_resource_status l c a x) _
                          (Spec-write c _ (λ _. AllSettled) (λ _ _. Unit) (update_status x)
                            (λ s. c.update_status s x)
                            (λ b t s q h. All-later c a cr.metadata.namespace _ _ t h.1)
                            (λ b t s q h. tt))
                          (λ _. Hoare-pure _ (λ w h. h))))))

    on_get-AllSettled :
        is_deleting cr ≡ false
        → has_finalizer l c a cr ≡ true
        → Spec c (λ _. Unit) (on_get l c a (ok cr)) (λ _. AllSettled) (λ _ _. Unit)
    unfolding on_get sync
    on_get-AllSettled live finalized = rw (live, finalized) converge-AllSettled

-- When a run succeeds for a live custom resource that has the finalizer, then for every extra
-- resource that the adapter lists: if it is asked for, the API server accepted the apply of it under
-- the adapter's field manager; if not, its deletion was accepted or answered by "not found".
pub run-Settled :
    {S T : Type 0} (l : Library) (c : Client (Resource S T)) (a : Adapter (Resource S T))
    → IsLawful a
    → (req : NamespacedName) (s : c.Cluster) (cr : Resource S T) (o : Outcome) → c.get s req ≡ ok cr
    → is_deleting cr ≡ false
    → has_finalizer l c a cr ≡ true
    → (run l c a req s).0 ≡ ok o
    → All
        (Settled c a cr.metadata.namespace (run l c a req s).1.calls)
        (listed a cr (a.target_name cr.metadata.name) cr.metadata.namespace cr.metadata.name)
unfolding reconcile
run-Settled l c a lawful req s cr o e live finalized returned =
    Post-ok (λ _ (w : World c). AllSettled l c a lawful cr w.calls) (λ _ _. Unit) (run l c a req s)
      o returned
      (rw e (
        (on_get-AllSettled l c a lawful cr live finalized).run
          (record { cluster = s; calls = read req (ok cr) ∷ [] }) tt))
