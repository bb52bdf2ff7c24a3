-- ===== src/Reconciler/Orphans.antt =====
-- The deletion path leaves nothing of a resource behind, and keeps the resource until then.
use project_easter.Base.{String, ◌≡◌, sym, ap, ◌∙◌, List, [], ◌∷◌, map, All, Any, ◌⊎◌, inl, inr}
use mathlib.Core.Path.{subst}
use project_easter.Base.Hoare.{Hoare-pure, Hoare-bind, Hoare-map}
use project_easter.Api.{GroupVersionKind, NamespacedName, Resource}
use project_easter.Platform.{Library, FinalizerLaws, Client}
use project_easter.Reconciler.Adapter.{Adapter, ExtraResource}
use project_easter.Reconciler.Contract.{Key, extra_key, listed, IsLawful}
use project_easter.Reconciler.Scope.{target, extra_keys, Owns}
use project_easter.Reconciler.Engine.{
  with_finalizers, delete_target, delete_extra, delete_extras, extras, delete_extra_resources,
  update_resource, release,
}
use project_easter.Reconciler.Store.{Store, Guarded, StoreLaws}
use project_easter.Reconciler.Lasting.{Lasting}
use project_easter.Reconciler.Keeping.{
  On, Keeps, Deletes, update_resource-On, delete_target-On, delete_extra-On,
}

module _ {S T : Type 0} (a : Adapter (Resource S T)) where
  -- What a resource of that name owns, whatever its spec.
  abbrev pub IsOwned : NamespacedName → Key → Type 0
  IsOwned req k =
      (cr : Resource S T) × (cr.metadata.name ≡ req.name)
      × (cr.metadata.namespace ≡ req.namespace)
      × Owns a cr k

  keys : Resource S T → String → String → List Key
  keys cr namespace name =
      record { gvk = a.gvk; namespace = namespace; name = a.target_name name }
      ∷ map (extra_key namespace) (listed a cr (a.target_name name) namespace name)

  -- All resources of one name own the same objects.
  pub IsOwned-Owns :
      IsLawful a
      → (req : NamespacedName) (cr : Resource S T) → cr.metadata.name ≡ req.name
      → cr.metadata.namespace ≡ req.namespace
      → (k : Key) → IsOwned req k
      → Owns a cr k
  unfolding keys
  IsOwned-Owns lawful req cr p q k (x, p', q', own) = subst (Any (λ j. k ≡ j)) (renamed ∙ same) own
    where
      renamed :
          keys x x.metadata.namespace x.metadata.name
          ≡ keys x cr.metadata.namespace cr.metadata.name
      renamed = λ i. keys x ((q' ∙ sym q) i) ((p' ∙ sym p) i)

      same :
          keys x cr.metadata.namespace cr.metadata.name
          ≡ keys cr cr.metadata.namespace cr.metadata.name
      same = ap (λ ks. target a cr ∷ ks) (lawful.stable x cr _ _ _)

module _ {S T : Type 0} (l : Library) (finalizers : FinalizerLaws l) {c : Client (Resource S T)}
    (a : Adapter (Resource S T)) (lawful : IsLawful a) (st : Store c) (req : NamespacedName)
    (laws : StoreLaws l st req (IsOwned a req)) where
  -- An object of the resource is not live.
  abbrev pub Gone : Key → c.Cluster → Type 0
  Gone k s = IsOwned a req k → ¬ st.IsLive s k

  abbrev pub AllGone : c.Cluster → Type 0
  AllGone s = (k : Key) → Gone k s

  -- The resource is there with its finalizer, or nothing of it is live.
  abbrev pub NoOrphans : c.Cluster → Type 0
  NoOrphans s = Guarded l st req s ⊎ AllGone s

  pub Guarded-lasts : Lasting l c a (Guarded l st req)
  Guarded-lasts = record {
    patches = λ u m s g. laws.patch-Guards s u m g;
    deletes = λ k n s g. laws.delete-Guards s k n g;
    statuses = λ x s g. laws.update_status-Guards s x g;
  }

  delete-Gone :
      (g : GroupVersionKind) (n : NamespacedName) (k : Key)
      → Keeps l c a (Gone k) (λ s. c.delete s g n)
  delete-Gone g n k s gone own live = gone own (laws.delete-IsLive s g n k own live)

  Deletes-own :
      (D : c.Cluster → Type 0)
      → ((g : GroupVersionKind) (n : NamespacedName) → Keeps l c a D (λ s. c.delete s g n))
      → (k : Key) → Deletes l c a D Gone k
  Deletes-own D keeps k = record {
    keeps = keeps k.gvk _;
    brings = λ s d accepted own. laws.deleted s k.gvk _ own accepted;
  }

  delete_extras-Gone :
      (D : c.Cluster → Type 0)
      → ((g : GroupVersionKind) (n : NamespacedName) → Keeps l c a D (λ s. c.delete s g n))
      → (n : String) (xs : List ExtraResource)
      → On c D
          (delete_extras l c a n xs)
          (λ _ s. D s × All (λ k. Gone k s) (map (extra_key n) xs))
          (λ _. D)
  unfolding delete_extras
  delete_extras-Gone D keeps n [] = Hoare-pure tt (λ w d. (d, tt))
  delete_extras-Gone D keeps n (x ∷ xs) =
      let k : Key = extra_key n x in
      Hoare-bind (delete_extra l c a x.gvk n x.name) _
        (delete_extra-On l c a D Gone x.gvk n x.name (Deletes-own D keeps k))
        (λ _.
          Hoare-map (delete_extras l c a n xs) (λ _ w h. (h.0.0, (h.0.1, h.1))) (λ _ w h. h.0)
            (delete_extras-Gone (λ s. D s × Gone k s)
              (λ g m s h. (keeps g m s h.0, delete-Gone g m k s h.1)) n xs))

  Gone-of_All :
      (s : c.Cluster) (ks : List Key)
      → All (λ k. Gone k s) ks
      → (k : Key) → Any (λ j. k ≡ j) ks
      → Gone k s
  Gone-of_All s [] h k m = elim m [ ]
  Gone-of_All s (j ∷ ks) (h, hs) k (inl e) = subst (λ i. Gone i s) (sym e) h
  Gone-of_All s (j ∷ ks) (h, hs) k (inr m) = Gone-of_All s ks hs k m

  module _ (cr : Resource S T) (name : cr.metadata.name ≡ req.name)
      (namespace : cr.metadata.namespace ≡ req.namespace) where
    all_gone :
        (s : c.Cluster) → Gone (target a cr) s → All (λ k. Gone k s) (extra_keys a cr) → AllGone s
    all_gone s t e k own =
        Gone-of_All s (target a cr ∷ extra_keys a cr) (t, e) k
          (IsOwned-Owns a lawful req cr name namespace k own) own

    pub update-AllGone : (x : Resource S T) → Keeps l c a AllGone (λ s. c.update s x)
    update-AllGone x s gone k own live = gone k own (laws.update-IsLive s x k own live)

    -- The deletion path: guarded to the end, with nothing left.
    pub release-AllGone :
        On c
          (Guarded l st req)
          (release l c a cr (a.target_name cr.metadata.name))
          (λ _. AllGone)
          (λ _. NoOrphans)
    unfolding release extras
    release-AllGone =
        let t = a.target_name cr.metadata.name in
        let G : c.Cluster → Type 0 = Guarded l st req in
        Hoare-bind (delete_target l c a cr.metadata.namespace t) _
          (Hoare-map (delete_target l c a cr.metadata.namespace t) (λ _ w h. h) (λ _ w h. inl h)
            (delete_target-On l c a G Gone cr.metadata.namespace t
              (Deletes-own G Guarded-lasts.deletes (target a cr))))
          (λ _.
            Hoare-bind (delete_extra_resources l c a cr t) _
              (Hoare-map (delete_extra_resources l c a cr t) (λ _ w h. all_gone w.cluster h.0.1 h.1)
                (λ _ w h. inl h.0)
                (delete_extras-Gone (λ s. G s × Gone (target a cr) s)
                  (λ g n s h.
                    (Guarded-lasts.deletes g n s h.0, delete-Gone g n (target a cr) s h.1))
                  cr.metadata.namespace _))
              (λ _.
                Hoare-bind (update_resource l c a (with_finalizers _ cr)) _
                  (Hoare-map (update_resource l c a (with_finalizers _ cr)) (λ _ w h. h)
                    (λ _ w h. inr h)
                    (update_resource-On l c a AllGone (with_finalizers _ cr) (update-AllGone _)))
                  (λ _. Hoare-pure _ (λ w h. h))))
