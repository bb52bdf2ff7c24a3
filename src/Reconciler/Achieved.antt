-- ===== src/Reconciler/Achieved.antt =====
-- What a run that succeeds has made of the cluster.
use project_easter.Base.{String, ◌≡◌, ◌≢◌, true, false, Option, some, List, [], ◌∷◌, map, All}
use project_easter.Base.Exec.{ok}
use project_easter.Base.Hoare.{Post-ok, Hoare-pure, Hoare-bind, Hoare-map}
use project_easter.Api.{NamespacedName, Unstructured, Resource}
use project_easter.Platform.{Library, Client}
use project_easter.Reconciler.Adapter.{Adapter, ExtraResource}
use project_easter.Reconciler.Calls.{World, read}
use project_easter.Reconciler.Engine.{
  Outcome, has_finalizer, is_deleting, get_target, apply_target, apply_extra, apply_extras, extras,
  apply_extra_resources, announce, update_resource_status, converge, sync, on_get, reconcile,
}
use project_easter.Reconciler.Contract.{Key, extra_key, listed, Matches, IsLawful}
use project_easter.Reconciler.Scope.{target, extra_keys}
use project_easter.Reconciler.Confinement.{run}
use project_easter.Reconciler.Keeping.{
  On, Keeps, get_target-On, announce-On, update_resource_status-On,
}
use project_easter.Reconciler.Effects.{
  Effects, AreApart, Spares, Spares-both, Meets-Spares, apply_target-Meets, apply_extra-Meets,
}

module _ {S T : Type 0} (l : Library) (c : Client (Resource S T)) (a : Adapter (Resource S T))
    (e : Effects c a.field_manager) where
  -- Each extra resource is as it is wanted.
  abbrev AllMeet : String → List ExtraResource → c.Cluster → Type 0
  AllMeet n xs s = All (λ x. e.Meets s (extra_key n x) x.desired) xs

  apply_extras-Meets :
      (D : c.Cluster → Type 0) (n owner : String) (xs : List ExtraResource)
      → All (Matches a.field_manager owner n) xs
      → All (Spares l c a e D) (map (extra_key n) xs)
      → AreApart (map (extra_key n) xs)
      → On c D (apply_extras l c a n xs) (λ _ s. D s × AllMeet n xs s) (λ _ _. Unit)
  unfolding apply_extras
  apply_extras-Meets D n owner [] m h p = Hoare-pure tt (λ w d. (d, tt))
  apply_extras-Meets D n owner (x ∷ xs) (m, ms) (h, hs) (p, ps) =
      let E : c.Cluster → Type 0 = λ s. D s × e.Meets s (extra_key n x) x.desired in
      Hoare-bind (apply_extra l c a n x) _ (apply_extra-Meets l c a e D n x owner m h) (λ _.
        Hoare-map (apply_extras l c a n xs) (λ _ w h. (h.0.0, (h.0.1, h.1))) (λ _ w h. tt)
          (apply_extras-Meets E n owner xs ms (spared (map (extra_key n) xs) hs p) ps))
    where
      spared :
          (ks : List Key)
          → All (Spares l c a e D) ks
          → All (λ j. extra_key n x ≢ j) ks
          → All (Spares l c a e (λ s. D s × e.Meets s (extra_key n x) x.desired)) ks
      spared [] h p = tt
      spared (k ∷ ks) (h, hs) (p, ps) = (
        Spares-both l c a e D _ k h (Meets-Spares l c a e (extra_key n x) k x.desired p),
        spared ks hs ps,
      )

  All-spared :
      (k : Key) (o : Option Unstructured) (ks : List Key)
      → All (λ j. k ≢ j) ks
      → All (Spares l c a e (λ s. e.Meets s k o)) ks
  All-spared k o [] p = tt
  All-spared k o (j ∷ ks) (p, ps) = (Meets-Spares l c a e k j o p, All-spared k o ks ps)

  AllMeet-lasts :
      (n : String) (xs : List ExtraResource) (x : Resource S T)
      → Keeps l c a (AllMeet n xs) (λ s. c.update_status s x)
  AllMeet-lasts n [] x s h = tt
  AllMeet-lasts n (y ∷ ys) x s (h, hs) =
      (e.update_status-Meets s x (extra_key n y) y.desired h, AllMeet-lasts n ys x s hs)

  module _ (lawful : IsLawful a) (cr : Resource S T) where
    abbrev t : String
    t = a.target_name cr.metadata.name

    abbrev manifest : Unstructured
    manifest = a.build_manifest cr t cr.metadata.namespace cr.metadata.name

    -- The target is as the manifest says, and each extra object as it is desired.
    abbrev pub Achieved : c.Cluster → Type 0
    Achieved s =
        e.Meets s (target a cr) (some manifest)
        × AllMeet cr.metadata.namespace (listed a cr t cr.metadata.namespace cr.metadata.name) s

    Achieved-lasts : (x : Resource S T) → Keeps l c a Achieved (λ s. c.update_status s x)
    Achieved-lasts x s (h, hs) =
        (e.update_status-Meets s x (target a cr) (some manifest) h, AllMeet-lasts _ _ x s hs)

    converge-Achieved :
        AreApart (target a cr ∷ extra_keys a cr)
        → On c (λ _. Unit) (converge l c a cr t) (λ _. Achieved) (λ _ _. Unit)
    unfolding converge apply_extra_resources extras
    converge-Achieved (p, ps) =
        let n = cr.metadata.namespace in
        let Top : c.Cluster → Type 0 = λ _. Unit in
        let Met : c.Cluster → Type 0 = λ s. e.Meets s (target a cr) (some manifest) in
        Hoare-bind (get_target l c a a.gvk n t) _ (get_target-On l c a Top a.gvk n t) (λ existing.
          Hoare-bind (apply_target l c a manifest) _
            (apply_target-Meets l c a e Top manifest (target a cr)
              (lawful.built cr t n cr.metadata.name).0
              (record { patches = λ u q s d. tt; deletes = λ s d. tt }))
            (λ merged.
              Hoare-bind (announce l c a existing cr t) _
                (Hoare-map (announce l c a existing cr t) (λ _ w h. h.1) (λ _ w h. tt)
                  (announce-On l c a (λ s. Top s × Met s) existing cr t))
                (λ _.
                  Hoare-bind (apply_extra_resources l c a cr t) _
                    (apply_extras-Meets Met n cr.metadata.name _
                      (lawful.matched cr t n cr.metadata.name)
                      (All-spared (target a cr) (some manifest) (extra_keys a cr) p) ps)
                    (λ _.
                      let x = (a.apply_status cr t (a.extract_status (some merged))).0 in
                      Hoare-bind (update_resource_status l c a x) _
                        (Hoare-map (update_resource_status l c a x) (λ _ w h. h) (λ _ w h. tt)
                          (update_resource_status-On l c a Achieved x (Achieved-lasts x)))
                        (λ _. Hoare-pure _ (λ w h. h))))))

  -- With an adapter that meets the contract (`IsLawful`) and a server on which requests have the
  -- effects that `Effects` says: when a run for a resource that has the finalizer and is not to be
  -- deleted succeeds, and nobody else acts meanwhile, the cluster that it leaves is as the spec
  -- asks: the target has what the manifest says, every extra object that is desired has what was
  -- built for it, and every one that is not is gone or on its way. The objects of the resource are
  -- to be different ones.
  pub run-Achieved :
      (lawful : IsLawful a) (req : NamespacedName) (s : c.Cluster) (cr : Resource S T) (o : Outcome)
      → AreApart (target a cr ∷ extra_keys a cr)
      → c.get s req ≡ ok cr
      → is_deleting cr ≡ false
      → has_finalizer l c a cr ≡ true
      → (run l c a req s).0 ≡ ok o
      → Achieved lawful cr (run l c a req s).1.cluster
  unfolding reconcile on_get sync
  run-Achieved lawful req s cr o apart q live has returned =
      Post-ok (λ _ (w : World c). Achieved lawful cr w.cluster) (λ _ _. Unit) (run l c a req s) o
        returned
        (rw (q, live, has)
          ((converge-Achieved lawful cr apart).run
            (record { cluster = s; calls = read req (ok cr) ∷ [] }) tt))
