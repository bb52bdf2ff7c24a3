-- ===== src/Reconciler/Lasting.antt =====
-- What the normal path keeps, whatever comes of its calls.
use project_easter.Base.{String, Option, none, some, List, [], ◌∷◌}
use project_easter.Base.Exec.{pure}
use project_easter.Base.Hoare.{Hoare-pure, Hoare-bind, Hoare-map}
use project_easter.Api.{GroupVersionKind, NamespacedName, Unstructured, Resource}
use project_easter.Platform.{Library, Client}
use project_easter.Reconciler.Adapter.{Adapter, ExtraResource}
use project_easter.Reconciler.Engine.{
  get_target, apply_target, delete_extra, apply_extra, apply_extras, apply_extra_resources,
  announce, update_resource_status, converge,
}
use project_easter.Reconciler.Keeping.{
  On, Keeps, get_target-On, announce-On, apply_target-On, update_resource_status-On,
  delete_extra-On,
}

module _ {S T : Type 0} (l : Library) (c : Client (Resource S T)) (a : Adapter (Resource S T)) where
  -- A property of the cluster that applies, deletions and updates of a status keep.
  pub record Lasting (D : c.Cluster → Type 0) : Type 0 where
    pub patches : (u : Unstructured) (m : String) → Keeps l c a D (λ s. c.patch s u m)
    pub deletes : (g : GroupVersionKind) (n : NamespacedName) → Keeps l c a D (λ s. c.delete s g n)
    pub statuses : (x : Resource S T) → Keeps l c a D (λ s. c.update_status s x)

  module _ (D : c.Cluster → Type 0) (d : Lasting D) where
    apply_extra-On :
        (n : String) (x : ExtraResource) → On c D (apply_extra l c a n x) (λ _. D) (λ _. D)
    unfolding apply_extra
    apply_extra-On n x = go x.desired
      where
        go :
            (o : Option Unstructured)
            → On c D (apply_extra l c a n (record x { desired = o })) (λ _. D) (λ _. D)
        go none =
            Hoare-map (delete_extra l c a x.gvk n x.name) (λ _ w h. h.0) (λ _ w h. h)
              (delete_extra-On l c a D (λ _ _. Unit {0}) x.gvk n x.name
                (record { keeps = d.deletes x.gvk _; brings = λ s h y. tt }))
        go (some u) =
            Hoare-bind (apply_target l c a u) (λ _. pure tt)
              (apply_target-On l c a D u (d.patches u a.field_manager))
              (λ _. Hoare-pure tt (λ w h. h))

    apply_extras-On :
        (n : String) (xs : List ExtraResource) → On c D (apply_extras l c a n xs) (λ _. D) (λ _. D)
    unfolding apply_extras
    apply_extras-On n [] = Hoare-pure tt (λ w h. h)
    apply_extras-On n (x ∷ xs) =
        Hoare-bind (apply_extra l c a n x) _ (apply_extra-On n x) (λ _. apply_extras-On n xs)

    pub converge-On :
        (cr : Resource S T) (t : String) → On c D (converge l c a cr t) (λ _. D) (λ _. D)
    unfolding converge
    converge-On cr t =
        let manifest = a.build_manifest cr t cr.metadata.namespace cr.metadata.name in
        Hoare-bind (get_target l c a a.gvk cr.metadata.namespace t) _
          (get_target-On l c a D a.gvk cr.metadata.namespace t)
          (λ existing.
            Hoare-bind (apply_target l c a manifest) _
              (apply_target-On l c a D manifest (d.patches manifest a.field_manager))
              (λ merged.
                Hoare-bind (announce l c a existing cr t) _ (announce-On l c a D existing cr t)
                  (λ _.
                    Hoare-bind (apply_extra_resources l c a cr t) _
                      (apply_extras-On cr.metadata.namespace _)
                      (λ _.
                        let x = (a.apply_status cr t (a.extract_status (some merged))).0 in
                        Hoare-bind (update_resource_status l c a x) _
                          (update_resource_status-On l c a D x (d.statuses x))
                          (λ _. Hoare-pure _ (λ w h. h))))))
