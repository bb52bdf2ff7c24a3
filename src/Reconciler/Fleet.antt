-- ===== src/Reconciler/Fleet.antt =====
-- Runs for many resources of one kind, one after the other.
use project_easter.Base.{
  String, ◌≡◌, ◌≢◌, true, false, refl, sym, ◌∙◌, Option, List, [], ◌∷◌, map, All, Any, inl, inr,
}
use mathlib.Core.Path.{subst}
use project_easter.Base.Exec.{ok}
use project_easter.Api.{NamespacedName, named, Unstructured, Resource}
use project_easter.Platform.{Library, Client}
use project_easter.Reconciler.Adapter.{Adapter, ExtraResource}
use project_easter.Reconciler.Calls.{
  Call, read, read_object, update, update_status, patch, delete, event,
}
use project_easter.Reconciler.Contract.{Key, key_of, extra_key, IsLawful}
use project_easter.Reconciler.Scope.{target, extra_keys, Owns, Touches}
use project_easter.Reconciler.Engine.{Outcome, has_finalizer, is_deleting}
use project_easter.Reconciler.Confinement.{run}
use project_easter.Reconciler.Store.{GetsNamed}
use project_easter.Reconciler.Effects.{Effects, AreApart}
use project_easter.Reconciler.Achieved.{Achieved, run-Achieved}
use project_easter.Reconciler.Replay.{effect}
use project_easter.Reconciler.Kept.{run-Keeps}
use project_easter.Reconciler.Separate.{IsSeparate}

abbrev place : {S T : Type 0} → Resource S T → NamespacedName
place x = named x.metadata.namespace x.metadata.name

module _ {S T : Type 0} (l : Library) (c : Client (Resource S T)) (a : Adapter (Resource S T))
    (s : c.Cluster) where
  -- Runs for resources of the kind, one after the other, with the resources whose runs have converged:
  -- a run of a live resource with the finalizer that succeeds adds it, a run for any other name, which
  -- may fail, adds none.
  pub data Round : List (Resource S T) → c.Cluster → Type 0 where
    start : Round [] s
    converges :
        {t : c.Cluster} {done : List (Resource S T)} (cr : Resource S T) (o : Outcome)
        → Round done t
        → All (λ x. place cr ≢ place x) done
        → c.get t (place cr) ≡ ok cr
        → is_deleting cr ≡ false
        → has_finalizer l c a cr ≡ true
        → (run l c a (place cr) t).0 ≡ ok o
        → Round (cr ∷ done) (run l c a (place cr) t).1.cluster
    runs :
        {t : c.Cluster} {done : List (Resource S T)} (n : NamespacedName)
        → Round done t
        → All (λ x. n ≢ place x) done
        → Round done (run l c a n t).1.cluster

module _ {S T : Type 0} (l : Library) (c : Client (Resource S T)) (a : Adapter (Resource S T))
    (e : Effects c a.field_manager) (gets_named : GetsNamed c) (lawful : IsLawful a)
    (separate : IsSeparate a) (cr : Resource S T) where
  module _ (cr' : Resource S T) (other : place cr' ≢ place cr) where
    elsewhere : (j k : Key) → Owns a cr k → Owns a cr' j → k ≢ j
    elsewhere j k own owns p =
        other (separate _ _ j (cr', refl, refl, owns) (cr, refl, refl, subst (Owns a cr) p own))

    effect-Meets :
        (x : Call (Resource S T) c.Error) (s : c.Cluster) (k : Key) (o : Option Unstructured)
        → Touches c a cr' x
        → Owns a cr k
        → e.Meets s k o
        → e.Meets (effect c x s) k o
    effect-Meets (read n r) s k o h own met = met
    effect-Meets (read_object g n r) s k o h own met = met
    effect-Meets (event v) s k o h own met = met
    effect-Meets (update x r) s k o h own met = e.update-Meets s x k o met
    effect-Meets (update_status x r) s k o h own met = e.update_status-Meets s x k o met
    effect-Meets (patch u m r) s k o (owns, h, p) own met =
        subst (λ i. e.Meets (c.patch s u i).1 k o) (sym p)
          (e.patch-Meets s u k o (elsewhere (key_of u) k own owns) met)
    effect-Meets (delete g n r) s k o owns own met =
        let j : Key = record { gvk = g; namespace = n.namespace; name = n.name } in
        e.delete-Meets s j k o (elsewhere j k own owns) met

    module _ (x : Call (Resource S T) c.Error) (s : c.Cluster) (h : Touches c a cr' x) where
      effect-AllMeet :
          (n : String) (xs : List ExtraResource)
          → ((k : Key) → Any (λ j. k ≡ j) (map (extra_key n) xs) → Owns a cr k)
          → All (λ y. e.Meets s (extra_key n y) y.desired) xs
          → All (λ y. e.Meets (effect c x s) (extra_key n y) y.desired) xs
      effect-AllMeet n [] own met = tt
      effect-AllMeet n (y ∷ ys) own (met, mets) = (
        effect-Meets x s (extra_key n y) y.desired h (own _ (inl refl)) met,
        effect-AllMeet n ys (λ k i. own k (inr i)) mets,
      )

      effect-Achieved : Achieved l c a e lawful cr s → Achieved l c a e lawful cr (effect c x s)
      effect-Achieved (met, mets) = (
        effect-Meets x s (target a cr) _ h (inl refl) met,
        effect-AllMeet cr.metadata.namespace _ (λ k i. inr i) mets,
      )

  -- A run for another resource leaves the objects of this one as its spec asks.
  run_other-Achieved :
      (n : NamespacedName) (s : c.Cluster)
      → n ≢ place cr
      → Achieved l c a e lawful cr s
      → Achieved l c a e lawful cr (run l c a n s).1.cluster
  run_other-Achieved n s other met =
      run-Keeps l c a lawful (Achieved l c a e lawful cr) n s met (λ cr' q x t h.
        let (name, namespace) = gets_named s n cr' q in
        effect-Achieved cr' (λ p. other ((λ i. named (sym namespace i) (sym name i)) ∙ p)) x t h)

module _ {S T : Type 0} (l : Library) (c : Client (Resource S T)) (a : Adapter (Resource S T))
    (e : Effects c a.field_manager) (gets_named : GetsNamed c) (lawful : IsLawful a)
    (separate : IsSeparate a)
    (apart : (x : Resource S T) → AreApart (target a x ∷ extra_keys a x)) where
  All-Achieved :
      (n : NamespacedName) (t : c.Cluster) (done : List (Resource S T))
      → All (λ x. n ≢ place x) done
      → All (λ x. Achieved l c a e lawful x t) done
      → All (λ x. Achieved l c a e lawful x (run l c a n t).1.cluster) done
  All-Achieved n t [] others met = tt
  All-Achieved n t (x ∷ xs) (other, others) (met, mets) = (
    run_other-Achieved l c a e gets_named lawful separate x n t other met,
    All-Achieved n t xs others mets,
  )

  -- With an adapter that meets the contract (`IsLawful`), under which the objects of one resource are
  -- different ones, and those of resources of different names too (`IsSeparate`), a read that gives the
  -- resource of the name that was asked for, and a server on which requests have the effects that
  -- `Effects` says: after any number of runs of the engine for resources of the kind, in any order,
  -- while nobody else acts, the objects of every resource that had a run which converged are as its
  -- spec asks. Such a run is one that succeeds for a resource that has the finalizer and is not to be
  -- deleted; the runs after it are for other names, and may fail.
  pub Round-Achieved :
      (s s' : c.Cluster) (done : List (Resource S T))
      → Round l c a s done s'
      → All (λ x. Achieved l c a e lawful x s') done
  Round-Achieved s s' done start = tt
  Round-Achieved s s' done (converges {t} {done = xs} cr o r others q live has returned) = (
    run-Achieved l c a e lawful (place cr) t cr o (apart cr) q live has returned,
    All-Achieved (place cr) t xs others (Round-Achieved s t xs r),
  )
  Round-Achieved s s' done (runs {t} n r others) =
      All-Achieved n t done others (Round-Achieved s t done r)
