-- ===== src/Reconciler/Neighbours.antt =====
-- Runs for other resources of the kind, seen from one resource.
use project_easter.Base.{◌≡◌, ◌≢◌, ◌⊎◌, ◌==◌, differ, eq_iff, arith, Bool-cases, inl, inr, ap, sym}
use mathlib.Core.Path.{subst}
use project_easter.Api.{NamespacedName, Resource}
use project_easter.Platform.{Library, FinalizerLaws, Client}
use project_easter.Reconciler.Adapter.{Adapter}
use project_easter.Reconciler.Calls.{
  Call, read, read_object, update, update_status, patch, delete, event,
}
use project_easter.Reconciler.Contract.{Key, IsLawful}
use project_easter.Reconciler.Scope.{Owns, Touches}
use project_easter.Reconciler.Confinement.{run}
use project_easter.Reconciler.Replay.{effect}
use project_easter.Reconciler.Kept.{run-Keeps}
use project_easter.Reconciler.Store.{Store, StoreLaws}
use project_easter.Reconciler.Orphans.{IsOwned, NoOrphans}
use project_easter.Reconciler.Separate.{IsSeparate}

pub same_or_other : (m n : NamespacedName) → (m ≡ n) ⊎ (m ≢ n)
same_or_other m n = elim (Bool-cases (m.name == n.name)) [
  | inr e ↦ inr (λ p. differ m.name n.name e (ap (λ (j : NamespacedName). j.name) p))
  | inl e ↦ elim (Bool-cases (m.namespace == n.namespace)) [
    | inr f ↦
        inr (λ p. differ m.namespace n.namespace f (ap (λ (j : NamespacedName). j.namespace) p))
    | inl f ↦
        let u : m.name ≡ n.name = ground (arith, eq_iff m.name n.name) in
        let v : m.namespace ≡ n.namespace = ground (arith, eq_iff m.namespace n.namespace) in
        inl (λ i. record { namespace = v i; name = u i })
  ]
]

module _ {S T : Type 0} (l : Library) (finalizers : FinalizerLaws l) {c : Client (Resource S T)}
    (a : Adapter (Resource S T)) (lawful : IsLawful a) (separate : IsSeparate a) (st : Store c)
    (req : NamespacedName) (laws : StoreLaws l st req (IsOwned a req)) where
  abbrev Safe : c.Cluster → Type 0
  Safe = NoOrphans l finalizers a lawful st req laws

  module _ (req' : NamespacedName) (other : req ≢ req') where
    module _ (cr : Resource S T) (name : cr.metadata.name ≡ req'.name)
        (namespace : cr.metadata.namespace ≡ req'.namespace) where
      elsewhere : (k : Key) → IsOwned a req k → ¬ Owns a cr k
      elsewhere k own owns = other (separate req req' k own (cr, name, namespace, owns))

      renamed :
          (x : Resource S T)
          → x.metadata.name ≡ cr.metadata.name
          → x.metadata.namespace ≡ cr.metadata.namespace
          → ¬ ((x.metadata.name ≡ req.name) × (x.metadata.namespace ≡ req.namespace))
      renamed x p q (m, n) =
          let u : req.name ≡ req'.name = cc in
          let v : req.namespace ≡ req'.namespace = cc in
          other (λ i. record { namespace = v i; name = u i })

      effect-Safe :
          (x : Call (Resource S T) c.Error) (t : c.Cluster)
          → Touches c a cr x
          → Safe t
          → Safe (effect c x t)
      effect-Safe (read k r) t h safe = safe
      effect-Safe (read_object g k r) t h safe = safe
      effect-Safe (event e) t h safe = safe
      effect-Safe (update x r) t h (inl g) = inl (
          laws.update_other-Guards t x
            (renamed x (ap (λ y. y.metadata.name) h) (ap (λ y. y.metadata.namespace) h)) g)
      effect-Safe (update x r) t h (inr gone) =
          inr (λ k own live. gone k own (laws.update-IsLive t x k own live))
      effect-Safe (update_status x r) t h (inl g) = inl (laws.update_status-Guards t x g)
      effect-Safe (update_status x r) t h (inr gone) =
          inr (λ k own live. gone k own (laws.update_status-IsLive t x k own live))
      effect-Safe (patch u m r) t h (inl g) = inl (laws.patch-Guards t u m g)
      effect-Safe (patch u m r) t (owns, h, i) (inr gone) = inr (λ k own live.
          elim (laws.patch-IsLive t u m k own live) [
            | inl y ↦ gone k own y
            | inr e ↦ elsewhere k own (subst (Owns a cr) (sym e) owns)
          ])
      effect-Safe (delete g k r) t h (inl y) = inl (laws.delete-Guards t g k y)
      effect-Safe (delete g k r) t h (inr gone) =
          inr (λ j own live. gone j own (laws.delete-IsLive t g k j own live))

    -- A run for another resource, whatever the server answers, keeps a cluster safe for this one.
    pub run_other-NoOrphans : (s : c.Cluster) → Safe s → Safe (run l c a req' s).1.cluster
    run_other-NoOrphans s safe = run-Keeps l c a lawful Safe req' s safe (λ cr e.
        let (name, namespace) = laws.get_named s req' cr e in effect-Safe cr name namespace)
