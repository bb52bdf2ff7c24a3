-- ===== src/Reconciler/Asking.antt =====
-- The parts of a run of internal/reconciler/reconciler.go, each with the requests that it makes.
use project_easter.Base.{String, refl, ap, true, false, Option, none, some, List, [], ◌∷◌, map}
use project_easter.Base.Exec.{pure}
use project_easter.Api.{GroupVersionKind, named, Unstructured, Resource}
use project_easter.Platform.{Library, Client}
use project_easter.Reconciler.Adapter.{Adapter, ExtraResource, finalizer_name}
use project_easter.Reconciler.Calls.{event, read_object, update, update_status, patch, delete}
use project_easter.Reconciler.Engine.{
  created, done, with_finalizers, get_target, apply_target, delete_target, delete_extra,
  apply_extra, apply_extras, delete_extras, extras, delete_extra_resources, announce,
  update_resource, update_resource_status, release, adopt,
}
use project_easter.Reconciler.Contract.{listed}
use project_easter.Reconciler.Plan.{
  looks, updates, reports, applies, deletes, settle, remove, announced, releasing, adopting,
}
use project_easter.Reconciler.Planned.{Asks, Asks-pure, Asks-bind, Asks-write, Asks-forgive}

module _ {S T : Type 0} (l : Library) (c : Client (Resource S T)) (a : Adapter (Resource S T)) where
  get_target-Asks :
      (g : GroupVersionKind) (n m : String)
      → Asks c (get_target l c a g n m) (looks g (named n m) ∷ [])
  unfolding get_target
  get_target-Asks g n m =
      Asks-forgive c (read_object g (named n m)) (looks g (named n m)) (λ _. refl) l a none some
        (λ s. (c.get_object s g (named n m), s))

  delete_target-Asks :
      (n m : String) → Asks c (delete_target l c a n m) (deletes a.gvk (named n m) ∷ [])
  unfolding delete_target
  delete_target-Asks n m =
      Asks-forgive c (delete a.gvk (named n m)) (deletes a.gvk (named n m)) (λ _. refl) l a false
        (λ _. true) (λ s. c.delete s a.gvk (named n m))

  delete_extra-Asks :
      (g : GroupVersionKind) (n m : String)
      → Asks c (delete_extra l c a g n m) (deletes g (named n m) ∷ [])
  unfolding delete_extra
  delete_extra-Asks g n m =
      Asks-forgive c (delete g (named n m)) (deletes g (named n m)) (λ _. refl) l a tt (λ _. tt)
        (λ s. c.delete s g (named n m))

  apply_target-Asks :
      (u : Unstructured) → Asks c (apply_target l c a u) (applies u a.field_manager ∷ [])
  unfolding apply_target
  apply_target-Asks u =
      Asks-write c (patch u a.field_manager) (applies u a.field_manager) (λ _. refl)
        (λ s. c.patch s u a.field_manager)

  update_resource-Asks : (x : Resource S T) → Asks c (update_resource l c a x) (updates x ∷ [])
  unfolding update_resource
  update_resource-Asks x = Asks-write c (update x) (updates x) (λ _. refl) (λ s. c.update s x)

  pub update_resource_status-Asks :
      (x : Resource S T) → Asks c (update_resource_status l c a x) (reports x ∷ [])
  unfolding update_resource_status
  update_resource_status-Asks x =
      Asks-write c (update_status x) (reports x) (λ _. refl) (λ s. c.update_status s x)

  pub announce-Asks :
      (cr : Resource S T) (o : Option Unstructured)
      → Asks c (announce l c a o cr (a.target_name cr.metadata.name)) (announced l c a cr o)
  unfolding announce
  announce-Asks cr none t0 = record {
    run = λ w e.
        let x = created l c a cr (a.target_name cr.metadata.name) in
        (event x ∷ [], ap (λ t. event x ∷ t) e, refl);
  }
  announce-Asks cr (some u) t0 = Asks-pure c tt t0

  apply_extra-Asks :
      (n : String) (x : ExtraResource) → Asks c (apply_extra l c a n x) (settle l c a n x ∷ [])
  unfolding apply_extra
  apply_extra-Asks n x = go x.desired
    where
      go :
          (o : Option Unstructured)
          → Asks c
              (apply_extra l c a n (record x { desired = o }))
              (settle l c a n (record x { desired = o }) ∷ [])
      go none = delete_extra-Asks x.gvk n x.name
      go (some u) =
          Asks-bind c (apply_target l c a u) (λ _. pure tt) (applies u a.field_manager ∷ []) []
            (apply_target-Asks u) (λ _. Asks-pure c tt)

  pub apply_extras-Asks :
      (n : String) (xs : List ExtraResource)
      → Asks c (apply_extras l c a n xs) (map (settle l c a n) xs)
  unfolding apply_extras
  apply_extras-Asks n [] = Asks-pure c tt
  apply_extras-Asks n (x ∷ xs) =
      Asks-bind c (apply_extra l c a n x) _ (settle l c a n x ∷ []) (map (settle l c a n) xs)
        (apply_extra-Asks n x) (λ _. apply_extras-Asks n xs)

  delete_extras-Asks :
      (n : String) (xs : List ExtraResource)
      → Asks c (delete_extras l c a n xs) (map (remove l c a n) xs)
  unfolding delete_extras
  delete_extras-Asks n [] = Asks-pure c tt
  delete_extras-Asks n (x ∷ xs) =
      Asks-bind c (delete_extra l c a x.gvk n x.name) _ (remove l c a n x ∷ [])
        (map (remove l c a n) xs) (delete_extra-Asks x.gvk n x.name) (λ _. delete_extras-Asks n xs)

  module _ (cr : Resource S T) where
    abbrev t : String
    t = a.target_name cr.metadata.name

    abbrev listed_extras : List ExtraResource
    listed_extras = listed a cr t cr.metadata.namespace cr.metadata.name

    pub release-Asks : Asks c (release l c a cr t) (releasing l c a cr)
    unfolding release extras
    release-Asks =
        let n = cr.metadata.namespace in
        let x = with_finalizers (l.remove_finalizer cr.metadata.finalizers finalizer_name) cr in
        Asks-bind c (delete_target l c a n t) _ (deletes a.gvk (named n t) ∷ []) _
          (delete_target-Asks n t)
          (λ _.
            Asks-bind c (delete_extra_resources l c a cr t) _ (map (remove l c a n) listed_extras)
              (updates x ∷ []) (delete_extras-Asks n listed_extras)
              (λ _.
                Asks-bind c (update_resource l c a x) _ (updates x ∷ []) [] (update_resource-Asks x)
                  (λ _. Asks-pure c done)))

    pub adopt-Asks : Asks c (adopt l c a cr) (adopting l c a cr)
    unfolding adopt
    adopt-Asks =
        let x = with_finalizers (l.add_finalizer cr.metadata.finalizers finalizer_name) cr in
        Asks-bind c (update_resource l c a x) _ (updates x ∷ []) [] (update_resource-Asks x)
          (λ _. Asks-pure c _)
