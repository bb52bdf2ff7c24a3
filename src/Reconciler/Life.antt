-- ===== src/Reconciler/Life.antt =====
-- The life of a custom resource: runs of the engine, between which others act.
use project_easter.Base.{◌≡◌, refl, sym, true, some, [], ◌∷◌, inl, inr, Bool-cases}
use mathlib.Core.Path.{subst}
use project_easter.Base.Exec.{Result, ok, err}
use project_easter.Base.Hoare.{
  Post, Post-ok, Post-both, Post-same, Hoare-pure, Hoare-bind, Hoare-map, Hoare-pre,
}
use project_easter.Api.{NamespacedName, Resource}
use project_easter.Platform.{Library, FinalizerLaws, Client}
use project_easter.Reconciler.Adapter.{Adapter, finalizer_name}
use project_easter.Reconciler.Calls.{World, read}
use project_easter.Reconciler.Contract.{Key, IsLawful}
use project_easter.Reconciler.Engine.{
  Outcome, with_finalizers, has_finalizer, is_deleting, update_resource, release, finalize, adopt,
  converge, sync, on_get, reconcile,
}
use project_easter.Reconciler.Confinement.{run}
use project_easter.Reconciler.Kept.{on_get-err}
use project_easter.Reconciler.Store.{Store, Guarded, Guards, StoreLaws}
use project_easter.Reconciler.Lasting.{converge-On}
use project_easter.Reconciler.Keeping.{On, Keeps, update_resource-On}
use project_easter.Reconciler.Separate.{IsSeparate}
use project_easter.Reconciler.Neighbours.{same_or_other, run_other-NoOrphans}
use project_easter.Reconciler.Orphans.{
  IsOwned, AllGone, NoOrphans, Guarded-lasts, update-AllGone, release-AllGone,
}

module _ {S T : Type 0} (l : Library) (finalizers : FinalizerLaws l) {c : Client (Resource S T)}
    (a : Adapter (Resource S T)) (lawful : IsLawful a) (st : Store c) (req : NamespacedName)
    (laws : StoreLaws l st req (IsOwned a req)) where
  abbrev Safe : c.Cluster → Type 0
  Safe = NoOrphans l finalizers a lawful st req laws

  module _ (cr : Resource S T) (name : cr.metadata.name ≡ req.name)
      (namespace : cr.metadata.namespace ≡ req.namespace) where
    adopt-NoOrphans : On c Safe (adopt l c a cr) (λ _. Safe) (λ _. Safe)
    unfolding adopt
    adopt-NoOrphans =
        let x = with_finalizers (l.add_finalizer cr.metadata.finalizers finalizer_name) cr in
        Hoare-bind (update_resource l c a x) _ (update_resource-On l c a Safe x keeps)
          (λ _. Hoare-pure _ (λ w h. h))
      where
        x : Resource S T
        x = with_finalizers (l.add_finalizer cr.metadata.finalizers finalizer_name) cr

        keeps : Keeps l c a Safe (λ s. c.update s x)
        keeps s (inl g) = inl (
            laws.update-Guards s x
              (finalizers.contains-add cr.metadata.finalizers finalizer_name finalizer_name) g)
        keeps s (inr g) =
            inr (update-AllGone l finalizers a lawful st req laws cr name namespace x s g)

    -- The resource that is stored, in a cluster that is safe.
    abbrev Read : c.Cluster → Type 0
    Read s = (st.stored s req ≡ some cr) × Safe s

    guarded : has_finalizer l c a cr ≡ true → (s : c.Cluster) → Read s → Guarded l st req s
    guarded y s (e, safe) = (cr, e, y)

    finalize-NoOrphans :
        On c Read (finalize l c a cr (a.target_name cr.metadata.name)) (λ _. Safe) (λ _. Safe)
    unfolding finalize
    finalize-NoOrphans = elim (Bool-cases (has_finalizer l c a cr)) [
      | inl y ↦ rw y (
          Hoare-map (release l c a cr (a.target_name cr.metadata.name)) (λ _ w h. inr h)
            (λ _ w h. h)
            (Hoare-pre (release l c a cr (a.target_name cr.metadata.name))
              (λ w h. guarded y w.cluster h)
              (release-AllGone l finalizers a lawful st req laws cr name namespace)))
      | inr n ↦ rw n (Hoare-pure _ (λ w h. h.1))
    ]

    sync-NoOrphans :
        On c Read (sync l c a cr (a.target_name cr.metadata.name)) (λ _. Safe) (λ _. Safe)
    unfolding sync
    sync-NoOrphans =
        let t = a.target_name cr.metadata.name in
        elim (Bool-cases (has_finalizer l c a cr)) [
          | inl y ↦ rw y (
              Hoare-map (converge l c a cr t) (λ _ w h. inl h) (λ _ w h. inl h)
                (Hoare-pre (converge l c a cr t) (λ w h. guarded y w.cluster h)
                  (converge-On l c a (Guarded l st req)
                    (Guarded-lasts l finalizers a lawful st req laws) cr t)))
          | inr n ↦ rw n (Hoare-pre (adopt l c a cr) (λ w h. h.1) adopt-NoOrphans)
        ]

    live-NoOrphans : On c Read (on_get l c a (ok cr)) (λ _. Safe) (λ _. Safe)
    unfolding on_get
    live-NoOrphans = elim (Bool-cases (is_deleting cr)) [
      | inl y ↦ rw y finalize-NoOrphans
      | inr n ↦ rw n sync-NoOrphans
    ]

  on_get-NoOrphans :
      (s : c.Cluster)
      → Safe s
      → (r : Result c.Error (Resource S T)) → c.get s req ≡ r
      → Post
          (λ _ (w : World c). Safe w.cluster)
          (λ _ w. Safe w.cluster)
          (on_get l c a r (record { cluster = s; calls = read req r ∷ [] }))
  unfolding on_get
  on_get-NoOrphans s safe (ok cr) e =
      let (name, namespace) = laws.get_named s req cr e in
      let held = laws.get_stored s cr e in (live-NoOrphans cr name namespace).run _ (held, safe)
  on_get-NoOrphans s safe (err x) e =
      Post-both (λ (w : World c). Safe w.cluster) (on_get l c a (err x) _)
        (subst (λ (w : World c). Safe w.cluster) (sym (on_get-err l c a x _)) safe)

  -- A run, whatever the server answers, keeps a cluster safe.
  run-NoOrphans : (s : c.Cluster) → Safe s → Safe (run l c a req s).1.cluster
  unfolding reconcile
  run-NoOrphans s safe =
      Post-same (λ (w : World c). Safe w.cluster) (run l c a req s)
        (on_get-NoOrphans s safe (c.get s req) refl)

  -- With an adapter that meets the contract (`IsLawful`), the laws of finalizers, and an API server
  -- that keeps what `StoreLaws` says: when a run for a custom resource whose deletion is requested
  -- and which has the finalizer succeeds, none of the objects that a resource of its name may own
  -- is live in the cluster that the run leaves.
  pub run-Gone :
      (s : c.Cluster) (cr : Resource S T) (o : Outcome)
      → c.get s req ≡ ok cr
      → is_deleting cr ≡ true
      → has_finalizer l c a cr ≡ true
      → (run l c a req s).0 ≡ ok o
      → (k : Key) → IsOwned a req k
      → ¬ st.IsLive (run l c a req s).1.cluster k
  unfolding reconcile on_get finalize
  run-Gone s cr o e deleting has returned =
      let (name, namespace) = laws.get_named s req cr e in
      let held = laws.get_stored s cr e in
      Post-ok (λ _ (w : World c). AllGone l finalizers a lawful st req laws w.cluster)
        (λ _ (w : World c). Safe w.cluster) (run l c a req s) o returned
        (rw (e, deleting, has)
          ((release-AllGone l finalizers a lawful st req laws cr name namespace).run
            (record { cluster = s; calls = read req (ok cr) ∷ [] }) (cr, held, has)))

-- A step in the life of a resource: a run of the engine for it or for another resource of the kind, or
-- what others do. Others leave a resource with the finalizer in place, and make none of the objects that
-- it owns.
pub data Step {S T : Type 0} (l : Library) {c : Client (Resource S T)} (a : Adapter (Resource S T))
    (st : Store c) (req : NamespacedName) (s s' : c.Cluster) : Type 0 where
  reconciles : (n : NamespacedName) → s' ≡ (run l c a n s).1.cluster → Step l a st req s s'
  others :
      Guards l st req s s'
      → ((k : Key) → IsOwned a req k → st.IsLive s' k → st.IsLive s k)
      → Step l a st req s s'

-- The clusters that such steps lead to.
pub data Reach {S T : Type 0} (l : Library) {c : Client (Resource S T)} (a : Adapter (Resource S T))
    (st : Store c) (req : NamespacedName) (s : c.Cluster) : c.Cluster → Type 0 where
  start : Reach l a st req s s
  later : {t u : c.Cluster} → Reach l a st req s t → Step l a st req t u → Reach l a st req s u

module _ {S T : Type 0} (l : Library) (finalizers : FinalizerLaws l) {c : Client (Resource S T)}
    (a : Adapter (Resource S T)) (lawful : IsLawful a) (separate : IsSeparate a) (st : Store c)
    (req : NamespacedName) (laws : StoreLaws l st req (IsOwned a req)) where
  Step-NoOrphans :
      {s s' : c.Cluster}
      → Step l a st req s s'
      → NoOrphans l finalizers a lawful st req laws s
      → NoOrphans l finalizers a lawful st req laws s'
  Step-NoOrphans {s} (reconciles n e) safe =
      subst (NoOrphans l finalizers a lawful st req laws) (sym e) (elim (same_or_other req n) [
        | inl p ↦
            subst (λ m. NoOrphans l finalizers a lawful st req laws (run l c a m s).1.cluster) p
              (run-NoOrphans l finalizers a lawful st req laws s safe)
        | inr other ↦ run_other-NoOrphans l finalizers a lawful separate st req laws n other s safe
      ])
  Step-NoOrphans (others guards fewer) (inl g) = inl (guards g)
  Step-NoOrphans (others guards fewer) (inr gone) =
      inr (λ k own live. gone k own (fewer k own live))

  Reach-NoOrphans :
      {s s' : c.Cluster}
      → Reach l a st req s s'
      → NoOrphans l finalizers a lawful st req laws s
      → NoOrphans l finalizers a lawful st req laws s'
  Reach-NoOrphans start safe = safe
  Reach-NoOrphans (later r step) safe = Step-NoOrphans step (Reach-NoOrphans r safe)

  -- With an adapter that meets the contract (`IsLawful`) and under which resources of different names
  -- own different objects (`IsSeparate`), the laws of finalizers, and an API server that keeps what
  -- `StoreLaws` says: start from a cluster in which no object that a resource of the requested name may
  -- own is live. After any runs of the engine, in any order, for that name and for other resources of
  -- the kind, each of which may fail at any call, and any acts of others in between and meanwhile that
  -- leave a resource with the finalizer in place and make none of these objects: where the resource is
  -- gone, or has not the finalizer, none of the objects is live.
  pub no_orphans :
      {s s' : c.Cluster}
      → ((k : Key) → IsOwned a req k → ¬ st.IsLive s k)
      → Reach l a st req s s'
      → ¬ Guarded l st req s'
      → (k : Key) → IsOwned a req k
      → ¬ st.IsLive s' k
  no_orphans none_live r unguarded k own live = elim (Reach-NoOrphans r (inr none_live)) [
    | inl g ↦ absurd (unguarded g)
    | inr gone ↦ absurd (gone k own live)
  ]
