-- ===== src/Reconciler/Effects.antt =====
-- What the requests of a run make of the objects of a cluster, one by one.
use project_easter.Base.{String, ◌≡◌, ◌≢◌, refl, ◌∙◌, Option, none, some, List, [], ◌∷◌, All}
use mathlib.Core.Path.{subst}
use project_easter.Base.Exec.{Result, ok, err, pure}
use project_easter.Base.Hoare.{Post, Hoare-pure, Hoare-bind, Hoare-map}
use project_easter.Api.{named, Unstructured, Resource}
use project_easter.Platform.{Library, Client}
use project_easter.Reconciler.Adapter.{Adapter, ExtraResource}
use project_easter.Reconciler.Calls.{patch}
use project_easter.Reconciler.Engine.{apply_target, delete_extra, apply_extra}
use project_easter.Reconciler.Contract.{Key, key_of, extra_key, Matches}
use project_easter.Reconciler.Store.{Accepted}
use project_easter.Reconciler.Keeping.{On, On-write, Keeps, delete_extra-On}

-- What a server makes of the requests of one field manager. `Meets s k (some u)`: the object under the
-- key has what the manager has applied as `u`; `Meets s k none`: there is no such object, or its
-- deletion is on its way. A request touches only the object that it names, and nobody else acts
-- meanwhile.
pub record Effects {S T : Type 0} (c : Client (Resource S T)) (manager : String) : Type 1 where
  pub Meets : c.Cluster → Key → Option Unstructured → Type 0
  pub patched :
      (s : c.Cluster) (u v : Unstructured)
      → (c.patch s u manager).0 ≡ ok v
      → Meets (c.patch s u manager).1 (key_of u) (some u)
  pub deleted :
      (s : c.Cluster) (k : Key)
      → Accepted c (c.delete s k.gvk (named k.namespace k.name)).0
      → Meets (c.delete s k.gvk (named k.namespace k.name)).1 k none
  pub patch-Meets :
      (s : c.Cluster) (u : Unstructured) (k : Key) (o : Option Unstructured)
      → k ≢ key_of u
      → Meets s k o
      → Meets (c.patch s u manager).1 k o
  pub delete-Meets :
      (s : c.Cluster) (j k : Key) (o : Option Unstructured)
      → k ≢ j
      → Meets s k o
      → Meets (c.delete s j.gvk (named j.namespace j.name)).1 k o
  pub update_status-Meets :
      (s : c.Cluster) (x : Resource S T) (k : Key) (o : Option Unstructured)
      → Meets s k o
      → Meets (c.update_status s x).1 k o
  pub update-Meets :
      (s : c.Cluster) (x : Resource S T) (k : Key) (o : Option Unstructured)
      → Meets s k o
      → Meets (c.update s x).1 k o

abbrev pub AreApart : List Key → Type 0
AreApart [] = Unit
AreApart (k ∷ ks) = All (λ j. k ≢ j) ks × AreApart ks

module _ {S T : Type 0} (l : Library) (c : Client (Resource S T)) (a : Adapter (Resource S T))
    (e : Effects c a.field_manager) where
  -- What holds of the cluster stays when the object under the key is applied or deleted.
  pub record Spares (D : c.Cluster → Type 0) (k : Key) : Type 0 where
    pub patches :
        (u : Unstructured) → key_of u ≡ k → Keeps l c a D (λ s. c.patch s u a.field_manager)
    pub deletes : Keeps l c a D (λ s. c.delete s k.gvk (named k.namespace k.name))

  pub Spares-both :
      (D E : c.Cluster → Type 0) (k : Key) → Spares D k → Spares E k → Spares (λ s. D s × E s) k
  Spares-both D E k d f = record {
    patches = λ u p s h. (d.patches u p s h.0, f.patches u p s h.1);
    deletes = λ s h. (d.deletes s h.0, f.deletes s h.1);
  }

  pub Meets-Spares : (k j : Key) (o : Option Unstructured) → k ≢ j → Spares (λ s. e.Meets s k o) j
  Meets-Spares k j o apart = record {
    patches = λ u p s h. e.patch-Meets s u k o (λ q. apart (q ∙ p)) h;
    deletes = λ s h. e.delete-Meets s j k o apart h;
  }

  module _ (D : c.Cluster → Type 0) where
    pub apply_target-Meets :
        (u : Unstructured) (k : Key)
        → key_of u ≡ k
        → Spares D k
        → On c D (apply_target l c a u) (λ _ s. D s × e.Meets s k (some u)) (λ _ _. Unit)
    unfolding apply_target
    apply_target-Meets u k p spares =
        On-write c D _ _ (patch u a.field_manager) (λ s. c.patch s u a.field_manager)
          (λ s d. go (c.patch s u a.field_manager) (spares.patches u p s d) (λ v q.
            subst (λ j. e.Meets (c.patch s u a.field_manager).1 j (some u)) p (e.patched s u v q)))
      where
        go :
            (x : Result c.Error Unstructured × c.Cluster)
            → D x.1
            → ((v : Unstructured) → x.0 ≡ ok v → e.Meets x.1 k (some u))
            → Post (λ _ s. D s × e.Meets s k (some u)) (λ _ _. Unit) x
        go (ok v, s) d h = (d, h v refl)
        go (err x, s) d h = tt

    pub apply_extra-Meets :
        (n : String) (x : ExtraResource) (owner : String)
        → Matches a.field_manager owner n x
        → Spares D (extra_key n x)
        → On c D
            (apply_extra l c a n x)
            (λ _ s. D s × e.Meets s (extra_key n x) x.desired)
            (λ _ _. Unit)
    unfolding apply_extra
    apply_extra-Meets n x owner m spares = go x.desired m
      where
        go :
            (o : Option Unstructured)
            → Matches a.field_manager owner n (record x { desired = o })
            → On c D
                (apply_extra l c a n (record x { desired = o }))
                (λ _ s. D s × e.Meets s (extra_key n x) o)
                (λ _ _. Unit)
        go none m =
            Hoare-map (delete_extra l c a x.gvk n x.name) (λ _ w h. h) (λ _ w h. tt)
              (delete_extra-On l c a D (λ k s. e.Meets s k none) x.gvk n x.name
                (record {
                  keeps = spares.deletes;
                  brings = λ s d y. e.deleted s (extra_key n x) y;
                }))
        go (some u) m =
            Hoare-bind (apply_target l c a u) (λ _. pure tt)
              (apply_target-Meets u (extra_key n x) m.0 spares) (λ _. Hoare-pure tt (λ w h. h))
