-- ===== src/Reconciler/Planned.antt =====
-- Runs follow the plan: the parts of the engine, each with the requests that it makes.
use project_easter.Base.{◌≡◌, refl, ap, sym, ◌∙◌, List, [], ◌∷◌, ◌++◌}
use mathlib.Core.List.{append-nil, append_assoc}
use project_easter.Base.Exec.{Result, ok, err, pure, attempt, ◌>>=◌}
use project_easter.Base.Hoare.{Hoare-pure, Hoare-bind, Hoare-map, Post-map}
use project_easter.Api.{Resource}
use project_easter.Platform.{Library, Client}
use project_easter.Reconciler.Adapter.{Adapter}
use project_easter.Reconciler.Calls.{Call, Run, write}
use project_easter.Reconciler.Logic.{Calls, Spec, Spec-write}
use project_easter.Reconciler.Rules.{Spec-forgive}
use project_easter.Reconciler.Engine.{forgive}
use project_easter.Reconciler.Plan.{Request, request_of, requests}

module _ {S T : Type 0} (c : Client (Resource S T)) where
  abbrev pub Asked : Type 0
  Asked = List (Request (Resource S T))

  -- The calls of `t` are those of `t0` and then new ones, which make the requests of `p`.
  abbrev pub Made : Calls c → Asked → Calls c → Type 0
  Made t0 p t = (new : Calls c) × (t ≡ new ++ t0) × (requests new ≡ p)

  -- The new calls make the first requests of `p`.
  abbrev pub Cut : Calls c → Asked → Calls c → Type 0
  Cut t0 p t = (q : Asked) × (r : Asked) × (p ≡ q ++ r) × Made t0 q t

  -- The action makes the requests of `p`, or fails after some of them.
  abbrev pub Asks : {A : Type 0} → Run c A → Asked → Type 0
  Asks m p = (t0 : Calls c) → Spec c (λ t. t ≡ t0) m (λ _ t. Made t0 p t) (λ _ t. Cut t0 p t)

  requests-append : (new t0 : Calls c) → requests (new ++ t0) ≡ requests t0 ++ requests new
  requests-append [] t0 = sym (append-nil (requests t0))
  requests-append (x ∷ new) t0 =
      ap (λ p. p ++ request_of x ∷ []) (requests-append new t0)
      ∙ append_assoc (requests t0) (requests new) (request_of x ∷ [])

  pub requests-Made : (t0 t : Calls c) (p : Asked) → Made t0 p t → requests t ≡ requests t0 ++ p
  requests-Made t0 t p (new, e, f) =
      ap requests e ∙ (requests-append new t0 ∙ ap (λ q. requests t0 ++ q) f)

  pub Made-append :
      (t0 t1 t : Calls c) (p p' : Asked) → Made t0 p t1 → Made t1 p' t → Made t0 (p ++ p') t
  Made-append t0 t1 t p p' (new, e, f) (new', e', f') = (
    new' ++ new,
    e' ∙ (ap (λ x. new' ++ x) e ∙ sym (append_assoc new' new t0)),
    requests-append new' new ∙ (λ i. f i ++ f' i),
  )

  Cut-append : (t0 t : Calls c) (p p' : Asked) → Cut t0 p t → Cut t0 (p ++ p') t
  Cut-append t0 t p p' (q, r, e, made) =
      (q, r ++ p', ap (λ x. x ++ p') e ∙ append_assoc q r p', made)

  pub Cut-later :
      (t0 t1 t : Calls c) (p p' : Asked) → Made t0 p t1 → Cut t1 p' t → Cut t0 (p ++ p') t
  Cut-later t0 t1 t p p' made (q, r, e, made') =
      (p ++ q, r, ap (λ x. p ++ x) e ∙ sym (append_assoc p q r), Made-append t0 t1 t p q made made')

  pub Asks-pure : {A : Type 0} (a : A) → Asks (pure a) []
  Asks-pure a t0 = Hoare-pure a (λ w e. ([], e, refl))

  module _ {A B : Type 0} (m : Run c A) (f : A → Run c B) where
    pub Asks-bind : (p p' : Asked) → Asks m p → ((a : A) → Asks (f a) p') → Asks (m >>= f) (p ++ p')
    Asks-bind p p' h k t0 =
        Hoare-bind m f (Hoare-map m (λ _ w e. e) (λ _ w e. Cut-append t0 w.calls p p' e) (h t0))
          (λ a. record {
            run = λ v made.
                Post-map _ _ _ _ (f a v) (λ _ w e. Made-append t0 v.calls w.calls p p' made e)
                  (λ _ w e. Cut-later t0 v.calls w.calls p p' made e) ((k a v.calls).run v refl);
          })

  -- One call.
  module _ {A : Type 0} (call : Result c.Error A → Call (Resource S T) c.Error)
      (x : Request (Resource S T)) (same : (r : Result c.Error A) → request_of (call r) ≡ x) where
    pub next : (t0 t : Calls c) (r : Result c.Error A) → t ≡ t0 → Made t0 (x ∷ []) (call r ∷ t)
    next t0 t r e = (call r ∷ [], ap (λ u. call r ∷ u) e, ap (λ y. y ∷ []) (same r))

    pub Asks-write :
        (op : c.Cluster → Result c.Error A × c.Cluster) → Asks (write c op call) (x ∷ [])
    Asks-write op t0 =
        Spec-write c _ (λ _ t. Made t0 (x ∷ []) t) (λ _ t. Cut t0 (x ∷ []) t) call op
          (λ b t s q e. next t0 t (ok b) e) (λ b t s q e. (x ∷ [], [], refl, next t0 t (err b) e))

    pub Asks-forgive :
        (l : Library) (a : Adapter (Resource S T)) {B : Type 0} (absent : B) (present : A → B)
        (op : c.Cluster → Result c.Error A × c.Cluster)
        → Asks (attempt (write c op call) >>= forgive l c a absent present) (x ∷ [])
    Asks-forgive l a absent present op t0 =
        Spec-forgive l c a _ (λ _ t. Made t0 (x ∷ []) t) (λ _ t. Cut t0 (x ∷ []) t) call absent
          present op (λ b t s q e. next t0 t (ok b) e) (λ b t s q y e. next t0 t (err b) e)
          (λ b t s q y e. (x ∷ [], [], refl, next t0 t (err b) e))
