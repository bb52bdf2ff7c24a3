-- ===== src/Reconciler/Events.antt =====
-- The one event of the engine: the creation of the target.
use project_easter.Base.{◌≡◌, refl, true, Option, none, some, [], ◌∷◌, inl, inr, Bool-cases}
use project_easter.Base.Exec.{ok, err}
use project_easter.Base.Hoare.{Post-same, Hoare-pure, Hoare-bind}
use project_easter.Api.{NamespacedName, named, Unstructured, Resource}
use project_easter.Platform.{Library, Client}
use project_easter.Reconciler.Adapter.{Adapter}
use project_easter.Reconciler.Calls.{Call, World, read, read_object, patch, event}
use project_easter.Reconciler.Contract.{IsLawful, key_of}
use project_easter.Reconciler.Scope.{target}
use project_easter.Reconciler.Logic.{Calls, Spec, Spec-write}
use project_easter.Reconciler.Rules.{Rules, Spec-forgive, IsOurs}
use project_easter.Reconciler.Traverse.{
  apply_extras-Walks, finalize-Walks, adopt-Walks, update_resource_status-Walks,
}
use project_easter.Reconciler.Engine.{
  has_finalizer, is_deleting, get_target, apply_target, announce, created, apply_extra_resources,
  update_resource_status, extras, converge, sync, on_get, reconcile,
}
use project_easter.Reconciler.Confinement.{run}

module _ {S T : Type 0} (l : Library) (c : Client (Resource S T)) (a : Adapter (Resource S T))
    (cr : Resource S T) where
  -- The target was looked for and not found.
  abbrev pub Missed : Calls c → Type 0
  Missed (read_object g k (err e) ∷ t) =
      (record { gvk = g; namespace = k.namespace; name = k.name } ≡ target a cr)
      × (c.is_not_found e ≡ true)
  Missed _ = ⊥

  -- The target was not found, and then its manifest was applied with success.
  abbrev pub Created : Calls c → Type 0
  Created (patch u m (ok v) ∷ t) = (key_of u ≡ target a cr) × Missed t
  Created _ = ⊥

  -- Every event tells of a creation that had just taken place.
  abbrev pub EventsAreTrue : Calls c → Type 0
  EventsAreTrue [] = Unit
  EventsAreTrue (event e ∷ earlier) =
      (e ≡ created l c a cr (a.target_name cr.metadata.name))
      × Created earlier
      × EventsAreTrue earlier
  EventsAreTrue (_ ∷ earlier) = EventsAreTrue earlier

  abbrev AfterRead : Option Unstructured → Calls c → Type 0
  AfterRead none t = Missed t × EventsAreTrue t
  AfterRead (some u) t = EventsAreTrue t

  abbrev AfterApply : Option Unstructured → Calls c → Type 0
  AfterApply none t = Created t × EventsAreTrue t
  AfterApply (some u) t = EventsAreTrue t

  announce-EventsAreTrue :
      (o : Option Unstructured)
      → Spec c
          (AfterApply o)
          (announce l c a o cr (a.target_name cr.metadata.name))
          (λ _. EventsAreTrue)
          (λ _. EventsAreTrue)
  unfolding announce
  announce-EventsAreTrue none = record { run = λ w h. (refl, h.0, h.1) }
  announce-EventsAreTrue (some u) = record { run = λ w h. h }

  quiet_cons :
      (x : Call (Resource S T) c.Error) (t : Calls c)
      → IsOurs c a cr (λ _. Unit) (λ _. ⊥) x
      → EventsAreTrue t
      → EventsAreTrue (x ∷ t)
  quiet_cons (read k r) t n h = h
  quiet_cons (event e) t n h = absurd n.1
  quiet_cons _ t n h = h

  -- Calls other than events keep the events true.
  quiet : Rules c a cr (λ _. Unit) (λ _. ⊥) EventsAreTrue (λ _. EventsAreTrue)
  quiet = record {
    pass = λ x t n _ h. quiet_cons x t n h;
    fail = λ e x t n _ h. quiet_cons x t n h;
  }

  module _ (lawful : IsLawful a) where
    apply-EventsAreTrue :
        (o : Option Unstructured)
        → let name = a.target_name cr.metadata.name in
          Spec c
            (AfterRead o)
            (apply_target l c a (a.build_manifest cr name cr.metadata.namespace cr.metadata.name))
            (λ _. AfterApply o)
            (λ _. EventsAreTrue)
    unfolding apply_target
    apply-EventsAreTrue none =
        let name = a.target_name cr.metadata.name in
        let m = a.build_manifest cr name cr.metadata.namespace cr.metadata.name in
        Spec-write c _ _ _ (patch m a.field_manager) (λ s. c.patch s m a.field_manager)
          (λ v t s q h.
            (((lawful.built cr name cr.metadata.namespace cr.metadata.name).0, h.0), h.1))
          (λ e t s q h. h.1)
    apply-EventsAreTrue (some u) =
        let name = a.target_name cr.metadata.name in
        let m = a.build_manifest cr name cr.metadata.namespace cr.metadata.name in
        Spec-write c _ _ _ (patch m a.field_manager) (λ s. c.patch s m a.field_manager)
          (λ v t s q h. h) (λ e t s q h. h)

    converge-EventsAreTrue :
        Spec c EventsAreTrue
          (converge l c a cr (a.target_name cr.metadata.name))
          (λ _. EventsAreTrue)
          (λ _. EventsAreTrue)
    unfolding converge extras get_target
    converge-EventsAreTrue =
        let name = a.target_name cr.metadata.name in
        let key = named cr.metadata.namespace name in
        Hoare-bind (get_target l c a a.gvk cr.metadata.namespace name) _
          (Spec-forgive l c a EventsAreTrue AfterRead _ (read_object a.gvk key) none some
            (λ s. (c.get_object s a.gvk key, s)) (λ b t s q h. h) (λ e t s q y h. ((refl, y), h))
            (λ e t s q y h. h))
          (λ existing.
            Hoare-bind
              (apply_target l c a (a.build_manifest cr name cr.metadata.namespace cr.metadata.name))
              _ (apply-EventsAreTrue existing)
              (λ merged.
                Hoare-bind (announce l c a existing cr name) _ (announce-EventsAreTrue existing)
                  (λ _.
                    Hoare-bind (apply_extra_resources l c a cr name) _
                      (apply_extras-Walks l c a cr _ _ EventsAreTrue (λ _. EventsAreTrue) quiet _
                        (lawful.matched cr name cr.metadata.namespace cr.metadata.name)
                        (λ j h. inr h))
                      (λ _.
                        let status = a.extract_status (some merged) in
                        let kept = lawful.keeps cr name status in
                        Hoare-bind (update_resource_status l c a (a.apply_status cr name status).0)
                          _
                          (update_resource_status-Walks l c a cr _ _ EventsAreTrue
                            (λ _. EventsAreTrue) quiet _ kept.0 kept.1)
                          (λ _. Hoare-pure _ (λ w h. h))))))

    on_get-EventsAreTrue :
        Spec c EventsAreTrue (on_get l c a (ok cr)) (λ _. EventsAreTrue) (λ _. EventsAreTrue)
    unfolding on_get sync
    on_get-EventsAreTrue = elim (Bool-cases (is_deleting cr)) [
      | inl d ↦
          rw d (finalize-Walks l c a cr _ _ EventsAreTrue (λ _. EventsAreTrue) quiet (λ _. tt))
      | inr n ↦ rw n (elim (Bool-cases (has_finalizer l c a cr)) [
        | inl y ↦ rw y converge-EventsAreTrue
        | inr m ↦ rw m (adopt-Walks l c a cr _ _ EventsAreTrue (λ _. EventsAreTrue) quiet (λ _. tt))
      ])
    ]

  -- A run for a custom resource records an event only to say that its target was created, and only
  -- after it looked for the target, did not find it, and applied its manifest with success.
  pub run-EventsAreTrue :
      IsLawful a
      → (req : NamespacedName) (s : c.Cluster) → c.get s req ≡ ok cr
      → EventsAreTrue (run l c a req s).1.calls
  unfolding reconcile
  run-EventsAreTrue lawful req s e = rw e (
      Post-same (λ (w : World c). EventsAreTrue w.calls)
        (on_get l c a (ok cr) (record { cluster = s; calls = read req (ok cr) ∷ [] }))
        ((on_get-EventsAreTrue lawful).run (record { cluster = s; calls = read req (ok cr) ∷ [] })
          tt))
