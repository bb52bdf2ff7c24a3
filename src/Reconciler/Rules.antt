-- ===== src/Reconciler/Rules.antt =====
-- What is asked of a property of the calls, so that every run of the engine has it.
use project_easter.Base.{◌≡◌, refl, ap, true, false, ◌∷◌, inl, inr, Bool-cases}
use project_easter.Base.Exec.{Result, ok, err, attempt, ◌>>=◌}
use project_easter.Base.Hoare.{Post}
use project_easter.Api.{Resource}
use project_easter.Platform.{Library, Client}
use project_easter.Reconciler.Adapter.{Adapter}
use project_easter.Reconciler.Calls.{Event, Call, World, write, update, event}
use project_easter.Reconciler.Logic.{Calls, Passes, FailsWith, Answers, Spec}
use project_easter.Reconciler.Scope.{Touches}
use project_easter.Reconciler.Engine.{forgive}

module _ {S T : Type 0} (c : Client (Resource S T)) (a : Adapter (Resource S T))
    (cr : Resource S T) where
  -- An update of the resource is one that `May` allows, and an event one that `Tell` allows.
  abbrev pub Permits :
      (Resource S T → Type 0) → (Event → Type 0) → Call (Resource S T) c.Error → Type 0
  Permits May Tell (update x r) = May x
  Permits May Tell (event e) = Tell e
  Permits May Tell _ = Unit

  -- What every call of a run is known to be.
  abbrev pub IsOurs :
      (Resource S T → Type 0) → (Event → Type 0) → Call (Resource S T) c.Error → Type 0
  IsOurs May Tell x = Touches c a cr x × Permits May Tell x × Answers c x

  -- What is asked of a property of the calls, and of a property of the calls that end in an error:
  -- every call of a run that passes keeps the first, one that fails gives the second.
  pub record Rules (May : Resource S T → Type 0) (Tell : Event → Type 0) (Inv : Calls c → Type 0)
      (F : c.Error → Calls c → Type 0) : Type 0 where
    pub pass :
        (x : Call (Resource S T) c.Error) (t : Calls c)
        → IsOurs May Tell x
        → Passes c x
        → Inv t
        → Inv (x ∷ t)
    pub fail :
        (e : c.Error) (x : Call (Resource S T) c.Error) (t : Calls c)
        → IsOurs May Tell x
        → FailsWith c e x
        → Inv t
        → F e (x ∷ t)

module _ {S T : Type 0} (l : Library) (c : Client (Resource S T)) (a : Adapter (Resource S T))
    {A B : Type 0} (P : Calls c → Type 0) (Q : A → Calls c → Type 0)
    (F : c.Error → Calls c → Type 0) (call : Result c.Error B → Call (Resource S T) c.Error)
    (absent : A) (present : B → A) where
  -- A call whose missing object is tolerated.
  pub Spec-forgive :
      (op : c.Cluster → Result c.Error B × c.Cluster)
      → ((b : B) (t : Calls c) (s : c.Cluster)
          → (op s).0 ≡ ok b
          → P t
          → Q (present b) (call (ok b) ∷ t))
      → ((e : c.Error) (t : Calls c) (s : c.Cluster)
          → (op s).0 ≡ err e
          → c.is_not_found e ≡ true
          → P t
          → Q absent (call (err e) ∷ t))
      → ((e : c.Error) (t : Calls c) (s : c.Cluster)
          → (op s).0 ≡ err e
          → c.is_not_found e ≡ false
          → P t
          → F e (call (err e) ∷ t))
      → Spec c P (attempt (write c op call) >>= forgive l c a absent present) Q F
  Spec-forgive op f g h = record { run = λ w p. go w p (op w.cluster) refl }
    where
      go :
          (w : World c) (p : P w.calls) (r : Result c.Error B × c.Cluster)
          → op w.cluster ≡ r
          → Post
              (λ x (v : World c). Q x v.calls)
              (λ e v. F e v.calls)
              ((attempt (write c (λ _. r) call) >>= forgive l c a absent present) w)
      go w p (ok b, s) q = f b w.calls w.cluster (ap (λ x. x.0) q) p
      go w p (err e, s) q = elim (Bool-cases (c.is_not_found e)) [
        | inl y ↦ rw y (g e w.calls w.cluster (ap (λ x. x.0) q) y p)
        | inr n ↦ rw n (h e w.calls w.cluster (ap (λ x. x.0) q) n p)
      ]
