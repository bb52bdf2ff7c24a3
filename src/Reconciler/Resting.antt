-- ===== src/Reconciler/Resting.antt =====
-- A cluster that is as the spec asks comes to rest: runs no longer change its objects.
use project_easter.Base.{
  String, ◌≡◌, refl, sym, ◌∙◌, true, false, Option, none, some, List, [], ◌∷◌, All,
}
use mathlib.Core.Path.{subst}
use project_easter.Base.Exec.{ok, pure}
use project_easter.Base.Hoare.{Post-same, Hoare-pure, Hoare-bind, Hoare-map}
use project_easter.Api.{NamespacedName, named, Unstructured, Resource}
use project_easter.Platform.{Library, Client}
use project_easter.Reconciler.Adapter.{Adapter, ExtraResource}
use project_easter.Reconciler.Calls.{World, read}
use project_easter.Reconciler.Engine.{
  has_finalizer, is_deleting, get_target, apply_target, delete_extra, apply_extra, apply_extras,
  extras, apply_extra_resources, announce, update_resource_status, converge, sync, on_get,
  reconcile,
}
use project_easter.Reconciler.Contract.{Key, key_of, extra_key, Matches, IsLawful}
use project_easter.Reconciler.Scope.{target}
use project_easter.Reconciler.Confinement.{run}
use project_easter.Reconciler.Keeping.{
  On, Keeps, get_target-On, announce-On, apply_target-On, update_resource_status-On,
  delete_extra-On,
}
use project_easter.Reconciler.Effects.{Effects}
use project_easter.Reconciler.Achieved.{Achieved}

-- What can be seen of the objects. A request for what is already so changes nothing of it, and neither
-- does the status of the custom resource.
pub record Idle {S T : Type 0} (c : Client (Resource S T)) {manager : String}
    (e : Effects c manager) : Type 1 where
  pub View : Type 0
  pub view : c.Cluster → View
  pub seen :
      (s s' : c.Cluster) (k : Key) (o : Option Unstructured)
      → view s ≡ view s'
      → e.Meets s k o
      → e.Meets s' k o
  pub patched_again :
      (s : c.Cluster) (u : Unstructured)
      → e.Meets s (key_of u) (some u)
      → view (c.patch s u manager).1 ≡ view s
  pub deleted_again :
      (s : c.Cluster) (k : Key)
      → e.Meets s k none
      → view (c.delete s k.gvk (named k.namespace k.name)).1 ≡ view s
  pub reported : (s : c.Cluster) (x : Resource S T) → view (c.update_status s x).1 ≡ view s

module _ {S T : Type 0} (l : Library) (c : Client (Resource S T)) (a : Adapter (Resource S T))
    (e : Effects c a.field_manager) (i : Idle c e) (s : c.Cluster) where
  -- The objects are those of `s`.
  abbrev AtRest : c.Cluster → Type 0
  AtRest s' = i.view s ≡ i.view s'

  apply-AtRest :
      (u : Unstructured) (k : Key)
      → key_of u ≡ k
      → e.Meets s k (some u)
      → Keeps l c a AtRest (λ s'. c.patch s' u a.field_manager)
  apply-AtRest u k p met s' r =
      r
      ∙ sym (
          i.patched_again s' u
            (i.seen s s' (key_of u) (some u) r (subst (λ j. e.Meets s j (some u)) (sym p) met)))

  apply_extra-AtRest :
      (n owner : String) (x : ExtraResource)
      → Matches a.field_manager owner n x
      → e.Meets s (extra_key n x) x.desired
      → On c AtRest (apply_extra l c a n x) (λ _. AtRest) (λ _. AtRest)
  unfolding apply_extra
  apply_extra-AtRest n owner x m met = go x.desired m met
    where
      go :
          (o : Option Unstructured)
          → Matches a.field_manager owner n (record x { desired = o })
          → e.Meets s (extra_key n x) o
          → On c AtRest (apply_extra l c a n (record x { desired = o })) (λ _. AtRest) (λ _. AtRest)
      go none m met =
          Hoare-map (delete_extra l c a x.gvk n x.name) (λ _ w h. h.0) (λ _ w h. h)
            (delete_extra-On l c a AtRest (λ _ _. Unit {0}) x.gvk n x.name
              (record {
                keeps = λ s' r.
                    r
                    ∙ sym (
                        i.deleted_again s' (extra_key n x)
                          (i.seen s s' (extra_key n x) none r met));
                brings = λ s' r y. tt;
              }))
      go (some u) m met =
          Hoare-bind (apply_target l c a u) (λ _. pure tt)
            (apply_target-On l c a AtRest u (apply-AtRest u (extra_key n x) m.0 met))
            (λ _. Hoare-pure tt (λ w r. r))

  apply_extras-AtRest :
      (n owner : String) (xs : List ExtraResource)
      → All (Matches a.field_manager owner n) xs
      → All (λ x. e.Meets s (extra_key n x) x.desired) xs
      → On c AtRest (apply_extras l c a n xs) (λ _. AtRest) (λ _. AtRest)
  unfolding apply_extras
  apply_extras-AtRest n owner [] m h = Hoare-pure tt (λ w r. r)
  apply_extras-AtRest n owner (x ∷ xs) (m, ms) (h, hs) =
      Hoare-bind (apply_extra l c a n x) _ (apply_extra-AtRest n owner x m h)
        (λ _. apply_extras-AtRest n owner xs ms hs)

  module _ (lawful : IsLawful a) (cr : Resource S T) (met : Achieved l c a e lawful cr s) where
    abbrev t : String
    t = a.target_name cr.metadata.name

    converge-AtRest : On c AtRest (converge l c a cr t) (λ _. AtRest) (λ _. AtRest)
    unfolding converge apply_extra_resources extras
    converge-AtRest =
        let n = cr.metadata.namespace in
        let u = a.build_manifest cr t n cr.metadata.name in
        Hoare-bind (get_target l c a a.gvk n t) _ (get_target-On l c a AtRest a.gvk n t)
          (λ existing.
            Hoare-bind (apply_target l c a u) _
              (apply_target-On l c a AtRest u
                (apply-AtRest u (target a cr) (lawful.built cr t n cr.metadata.name).0 met.0))
              (λ merged.
                Hoare-bind (announce l c a existing cr t) _ (announce-On l c a AtRest existing cr t)
                  (λ _.
                    Hoare-bind (apply_extra_resources l c a cr t) _
                      (apply_extras-AtRest n cr.metadata.name _
                        (lawful.matched cr t n cr.metadata.name) met.1)
                      (λ _.
                        let x = (a.apply_status cr t (a.extract_status (some merged))).0 in
                        Hoare-bind (update_resource_status l c a x) _
                          (update_resource_status-On l c a AtRest x
                            (λ s' r. r ∙ sym (i.reported s' x)))
                          (λ _. Hoare-pure _ (λ w r. r))))))

    -- Take an adapter that meets the contract (`IsLawful`), a cluster that is as the spec asks
    -- (`Achieved`), as a run that succeeds leaves it, and a server on which requests have the
    -- effects that `Effects` says, and a request for what is already so changes nothing (`Idle`). A
    -- run for the resource, which has the finalizer and is not to be deleted, then leaves the
    -- objects as they are, whether it succeeds or fails, while nobody else acts.
    pub run-AtRest :
        (req : NamespacedName)
        → c.get s req ≡ ok cr
        → is_deleting cr ≡ false
        → has_finalizer l c a cr ≡ true
        → i.view s ≡ i.view (run l c a req s).1.cluster
    unfolding reconcile on_get sync
    run-AtRest req q live has =
        Post-same (λ (w : World c). AtRest w.cluster) (run l c a req s)
          (rw (q, live, has)
            (converge-AtRest.run (record { cluster = s; calls = read req (ok cr) ∷ [] }) refl))
