-- ===== src/Reconciler/Traverse.antt =====
-- One walk through the engine: what each call keeps, every run keeps.
use project_easter.Base.{
  String, ◌≡◌, refl, sym, true, false, Option, none, some, List, [], ◌∷◌, map, inl, inr, Bool-cases,
  All, Any,
}
use mathlib.Core.Path.{subst}
use project_easter.Base.Exec.{ok, pure}
use project_easter.Base.Hoare.{Hoare-pure, Hoare-bind}
use project_easter.Api.{GroupVersionKind, named, Unstructured, Resource}
use project_easter.Platform.{Library, Client}
use project_easter.Reconciler.Adapter.{Adapter, ExtraResource}
use project_easter.Reconciler.Calls.{
  Event, Run, read_object, update, update_status, patch, delete, event,
}
use project_easter.Reconciler.Contract.{Key, key_of, extra_key, IsLawful, Matches, IsLabelled}
use project_easter.Reconciler.Logic.{Calls, Spec, Spec-write}
use project_easter.Reconciler.Scope.{Owns}
use project_easter.Reconciler.Engine.{
  with_finalizers, has_finalizer, is_deleting, adopt, get_target, apply_target, delete_target,
  delete_extra, apply_extra, apply_extras, delete_extras, extras, apply_extra_resources,
  delete_extra_resources, update_resource, update_resource_status, release, finalize, announce,
  created, converge, sync, on_get,
}
use project_easter.Reconciler.Rules.{Rules, Spec-forgive}

module _ {S T : Type 0} (l : Library) (c : Client (Resource S T)) (a : Adapter (Resource S T))
    (cr : Resource S T) (May : Resource S T → Type 0) (Tell : Event → Type 0)
    (Inv : Calls c → Type 0) (F : c.Error → Calls c → Type 0)
    (k : Rules c a cr May Tell Inv F) where
  abbrev pub Walks : {A : Type 0} → Run c A → Type 0
  Walks m = Spec c Inv m (λ _. Inv) F

  pub get_target-Walks :
      (g : GroupVersionKind) (n m : String)
      → Owns a cr (record { gvk = g; namespace = n; name = m })
      → Walks (get_target l c a g n m)
  unfolding get_target
  get_target-Walks g n m own =
      Spec-forgive l c a Inv (λ _. Inv) F (read_object g (named n m)) none some
        (λ s. (c.get_object s g (named n m), s)) (λ b t s q. k.pass _ t (own, tt, (s, q)) tt)
        (λ e t s q y. k.pass _ t (own, tt, (s, q)) y)
        (λ e t s q y. k.fail e _ t (own, tt, (s, q)) (refl, y))

  pub delete_target-Walks :
      (n m : String)
      → Owns a cr (record { gvk = a.gvk; namespace = n; name = m })
      → Walks (delete_target l c a n m)
  unfolding delete_target
  delete_target-Walks n m own =
      Spec-forgive l c a Inv (λ _. Inv) F (delete a.gvk (named n m)) false (λ _. true)
        (λ s. c.delete s a.gvk (named n m)) (λ b t s q. k.pass _ t (own, tt, (s, q)) tt)
        (λ e t s q y. k.pass _ t (own, tt, (s, q)) y)
        (λ e t s q y. k.fail e _ t (own, tt, (s, q)) (refl, y))

  delete_extra-Walks :
      (g : GroupVersionKind) (n m : String)
      → Owns a cr (record { gvk = g; namespace = n; name = m })
      → Walks (delete_extra l c a g n m)
  unfolding delete_extra
  delete_extra-Walks g n m own =
      Spec-forgive l c a Inv (λ _. Inv) F (delete g (named n m)) tt (λ _. tt)
        (λ s. c.delete s g (named n m)) (λ b t s q. k.pass _ t (own, tt, (s, q)) tt)
        (λ e t s q y. k.pass _ t (own, tt, (s, q)) y)
        (λ e t s q y. k.fail e _ t (own, tt, (s, q)) (refl, y))

  pub apply_target-Walks :
      (u : Unstructured)
      → Owns a cr (key_of u)
      → IsLabelled a.field_manager cr.metadata.name u
      → Walks (apply_target l c a u)
  unfolding apply_target
  apply_target-Walks u own labels =
      Spec-write c Inv (λ _. Inv) F (patch u a.field_manager) (λ s. c.patch s u a.field_manager)
        (λ b t s q. k.pass _ t ((own, labels, refl), tt, (s, q)) tt)
        (λ e t s q. k.fail e _ t ((own, labels, refl), tt, (s, q)) refl)

  apply_extra-Walks :
      (x : ExtraResource)
      → Owns a cr (extra_key cr.metadata.namespace x)
      → Matches a.field_manager cr.metadata.name cr.metadata.namespace x
      → Walks (apply_extra l c a cr.metadata.namespace x)
  unfolding apply_extra
  apply_extra-Walks x own match = go x.desired match
    where
      go :
          (d : Option Unstructured)
          → Matches a.field_manager cr.metadata.name cr.metadata.namespace
              (record x { desired = d })
          → Walks (apply_extra l c a cr.metadata.namespace (record x { desired = d }))
      go none m = delete_extra-Walks x.gvk cr.metadata.namespace x.name own
      go (some u) (same, labels) =
          Hoare-bind (apply_target l c a u) (λ _. pure tt)
            (apply_target-Walks u (subst (Owns a cr) (sym same) own) labels)
            (λ _. Hoare-pure tt (λ w h. h))

  pub apply_extras-Walks :
      (xs : List ExtraResource)
      → All (Matches a.field_manager cr.metadata.name cr.metadata.namespace) xs
      → ((j : Key) → Any (λ i. j ≡ i) (map (extra_key cr.metadata.namespace) xs) → Owns a cr j)
      → Walks (apply_extras l c a cr.metadata.namespace xs)
  unfolding apply_extras
  apply_extras-Walks [] m own = Hoare-pure tt (λ w h. h)
  apply_extras-Walks (x ∷ xs) (m, ms) own =
      Hoare-bind (apply_extra l c a cr.metadata.namespace x)
        (λ _. apply_extras l c a cr.metadata.namespace xs)
        (apply_extra-Walks x (own _ (inl refl)) m)
        (λ _. apply_extras-Walks xs ms (λ j h. own j (inr h)))

  pub delete_extras-Walks :
      (xs : List ExtraResource)
      → ((j : Key) → Any (λ i. j ≡ i) (map (extra_key cr.metadata.namespace) xs) → Owns a cr j)
      → Walks (delete_extras l c a cr.metadata.namespace xs)
  unfolding delete_extras
  delete_extras-Walks [] own = Hoare-pure tt (λ w h. h)
  delete_extras-Walks (x ∷ xs) own =
      Hoare-bind (delete_extra l c a x.gvk cr.metadata.namespace x.name)
        (λ _. delete_extras l c a cr.metadata.namespace xs)
        (delete_extra-Walks x.gvk cr.metadata.namespace x.name (own _ (inl refl)))
        (λ _. delete_extras-Walks xs (λ j h. own j (inr h)))

  update_resource-Walks :
      (fs : List String)
      → May (with_finalizers fs cr)
      → Walks (update_resource l c a (with_finalizers fs cr))
  unfolding update_resource
  update_resource-Walks fs may =
      Spec-write c Inv (λ _. Inv) F (update (with_finalizers fs cr))
        (λ s. c.update s (with_finalizers fs cr)) (λ b t s q. k.pass _ t (refl, may, (s, q)) tt)
        (λ e t s q. k.fail e _ t (refl, may, (s, q)) refl)

  pub update_resource_status-Walks :
      (x : Resource S T)
      → x.metadata ≡ cr.metadata
      → x.spec ≡ cr.spec
      → Walks (update_resource_status l c a x)
  unfolding update_resource_status
  update_resource_status-Walks x m s =
      Spec-write c Inv (λ _. Inv) F (update_status x) (λ s. c.update_status s x)
        (λ b t r q. k.pass _ t ((m, s), tt, (r, q)) tt)
        (λ e t r q. k.fail e _ t ((m, s), tt, (r, q)) refl)

  pub announce-Walks :
      (o : Option Unstructured) (t : String)
      → Tell (created l c a cr t)
      → Walks (announce l c a o cr t)
  unfolding announce
  announce-Walks none t tell = record { run = λ w h. k.pass (event _) w.calls (tt, tell, tt) tt h }
  announce-Walks (some u) t tell = Hoare-pure tt (λ w h. h)

  module _ (may : (fs : List String) → May (with_finalizers fs cr)) where
    release-Walks : Walks (release l c a cr (a.target_name cr.metadata.name))
    unfolding release extras
    release-Walks =
        let name = a.target_name cr.metadata.name in
        Hoare-bind (delete_target l c a cr.metadata.namespace name) _
          (delete_target-Walks cr.metadata.namespace name (inl refl))
          (λ _.
            Hoare-bind (delete_extra_resources l c a cr name) _
              (delete_extras-Walks _ (λ j h. inr h))
              (λ _.
                Hoare-bind (update_resource l c a (with_finalizers _ cr)) _
                  (update_resource-Walks _ (may _)) (λ _. Hoare-pure _ (λ w h. h))))

    pub finalize-Walks : Walks (finalize l c a cr (a.target_name cr.metadata.name))
    unfolding finalize
    finalize-Walks = elim (Bool-cases (has_finalizer l c a cr)) [
      | inl y ↦ rw y release-Walks
      | inr n ↦ rw n (Hoare-pure _ (λ w h. h))
    ]

    pub adopt-Walks : Walks (adopt l c a cr)
    unfolding adopt
    adopt-Walks =
        Hoare-bind (update_resource l c a (with_finalizers _ cr)) _
          (update_resource-Walks _ (may _)) (λ _. Hoare-pure _ (λ w h. h))

  module _ (lawful : IsLawful a)
      (tell : Tell (created l c a cr (a.target_name cr.metadata.name))) where
    pub converge-Walks : Walks (converge l c a cr (a.target_name cr.metadata.name))
    unfolding converge extras
    converge-Walks =
        let name = a.target_name cr.metadata.name in
        let (same, labels) = lawful.built cr name cr.metadata.namespace cr.metadata.name in
        Hoare-bind (get_target l c a a.gvk cr.metadata.namespace name) _
          (get_target-Walks a.gvk cr.metadata.namespace name (inl refl))
          (λ existing.
            Hoare-bind
              (apply_target l c a (a.build_manifest cr name cr.metadata.namespace cr.metadata.name))
              _ (apply_target-Walks _ (inl same) labels)
              (λ merged.
                Hoare-bind (announce l c a existing cr name) _ (announce-Walks existing name tell)
                  (λ _.
                    Hoare-bind (apply_extra_resources l c a cr name) _
                      (apply_extras-Walks _
                        (lawful.matched cr name cr.metadata.namespace cr.metadata.name)
                        (λ j h. inr h))
                      (λ _.
                        let status = a.extract_status (some merged) in
                        let (m, s) = lawful.keeps cr name status in
                        Hoare-bind (update_resource_status l c a (a.apply_status cr name status).0)
                          _ (update_resource_status-Walks _ m s) (λ _. Hoare-pure _ (λ w h. h))))))

    module _ (may : (fs : List String) → May (with_finalizers fs cr)) where
      sync-Walks : Walks (sync l c a cr (a.target_name cr.metadata.name))
      unfolding sync
      sync-Walks = elim (Bool-cases (has_finalizer l c a cr)) [
        | inl y ↦ rw y converge-Walks
        | inr n ↦ rw n (adopt-Walks may)
      ]

      pub on_get-Walks : Walks (on_get l c a (ok cr))
      unfolding on_get
      on_get-Walks = elim (Bool-cases (is_deleting cr)) [
        | inl y ↦ rw y (finalize-Walks may)
        | inr n ↦ rw n sync-Walks
      ]
