-- ===== src/Reconciler/Logic.antt =====
-- Rules for the calls of a run: what holds of the list of calls after each of them.
use project_easter.Base.{◌≡◌, refl, ap, true, false, none, some, List, ◌∷◌}
use project_easter.Base.Exec.{Result, ok, err}
use project_easter.Base.Hoare.{Post, Hoare}
use project_easter.Platform.{Client}
use project_easter.Reconciler.Calls.{
  Call, World, Run, write, read, read_object, update, update_status, patch, delete, event,
}

module _ {R : Type 0} (c : Client R) where
  abbrev pub Calls : Type 0
  Calls = List (Call R c.Error)

  -- A call that succeeded, or whose error the engine tolerates.
  abbrev pub Passes : Call R c.Error → Type 0
  Passes (read k (ok _)) = Unit
  Passes (read k (err e)) = c.ignore_not_found e ≡ none
  Passes (read_object g k (ok _)) = Unit
  Passes (read_object g k (err e)) = c.is_not_found e ≡ true
  Passes (update x (ok _)) = Unit
  Passes (update x (err e)) = ⊥
  Passes (update_status x (ok _)) = Unit
  Passes (update_status x (err e)) = ⊥
  Passes (patch u m (ok _)) = Unit
  Passes (patch u m (err e)) = ⊥
  Passes (delete g k (ok _)) = Unit
  Passes (delete g k (err e)) = c.is_not_found e ≡ true
  Passes (event x) = Unit

  -- A call that failed with an error that `Reconcile` returns.
  abbrev pub FailsWith : c.Error → Call R c.Error → Type 0
  FailsWith e (read k (err f)) = c.ignore_not_found f ≡ some e
  FailsWith e (read_object g k (err f)) = (f ≡ e) × (c.is_not_found f ≡ false)
  FailsWith e (update x (err f)) = f ≡ e
  FailsWith e (update_status x (err f)) = f ≡ e
  FailsWith e (patch u m (err f)) = f ≡ e
  FailsWith e (delete g k (err f)) = (f ≡ e) × (c.is_not_found f ≡ false)
  FailsWith e _ = ⊥

  -- The result of a call is what the client answers in some cluster.
  abbrev pub Answers : Call R c.Error → Type 0
  Answers (read k r) = (s : c.Cluster) × (c.get s k ≡ r)
  Answers (read_object g k r) = (s : c.Cluster) × (c.get_object s g k ≡ r)
  Answers (update x r) = (s : c.Cluster) × ((c.update s x).0 ≡ r)
  Answers (update_status x r) = (s : c.Cluster) × ((c.update_status s x).0 ≡ r)
  Answers (patch u m r) = (s : c.Cluster) × ((c.patch s u m).0 ≡ r)
  Answers (delete g k r) = (s : c.Cluster) × ((c.delete s g k).0 ≡ r)
  Answers (event x) = Unit

  abbrev pub Spec :
      {A : Type 0}
      → (Calls → Type 0)
      → Run c A
      → (A → Calls → Type 0)
      → (c.Error → Calls → Type 0)
      → Type 0
  Spec P m Q F = Hoare (λ w. P w.calls) m (λ a w. Q a w.calls) (λ e w. F e w.calls)

module _ {R A : Type 0} (c : Client R) (P : Calls c → Type 0) (Q : A → Calls c → Type 0)
    (F : c.Error → Calls c → Type 0) (call : Result c.Error A → Call R c.Error) where
  Post-write :
      (w : World c) (op : c.Cluster → Result c.Error A × c.Cluster)
      (r : Result c.Error A × c.Cluster)
      → op w.cluster ≡ r
      → ((a : A) → (op w.cluster).0 ≡ ok a → Q a (call (ok a) ∷ w.calls))
      → ((e : c.Error) → (op w.cluster).0 ≡ err e → F e (call (err e) ∷ w.calls))
      → Post (λ a (v : World c). Q a v.calls) (λ e v. F e v.calls) (write c (λ _. r) call w)
  Post-write w op (ok a, s) e f g = f a (ap (λ p. p.0) e)
  Post-write w op (err x, s) e f g = g x (ap (λ p. p.0) e)

  -- After a call of the client: `Q` if it succeeded, `F` if it failed.
  pub Spec-write :
      (op : c.Cluster → Result c.Error A × c.Cluster)
      → ((a : A) (t : Calls c) (s : c.Cluster) → (op s).0 ≡ ok a → P t → Q a (call (ok a) ∷ t))
      → ((e : c.Error) (t : Calls c) (s : c.Cluster)
          → (op s).0 ≡ err e
          → P t
          → F e (call (err e) ∷ t))
      → Spec c P (write c op call) Q F
  Spec-write op f g = record {
    run = λ w p.
        Post-write w op (op w.cluster) refl (λ a h. f a w.calls w.cluster h p)
          (λ e h. g e w.calls w.cluster h p);
  }
