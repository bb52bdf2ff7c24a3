-- ===== src/Base/Hoare.antt =====
-- A program logic for actions: what holds after an action returns, and after it fails.
use mathlib.Core.Path.{◌≡◌, subst}
use project_easter.Base.Exec.{Result, ok, err, Exec, pure, raise, attempt, continue, ◌>>=◌}

module _ {E W A : Type 0} where
  -- What the outcome of an action has to meet: `Q` where it returned, `F` where it failed.
  abbrev pub Post : (A → W → Type 0) → (E → W → Type 0) → Result E A × W → Type 0
  Post Q F (ok a, w) = Q a w
  Post Q F (err e, w) = F e w

  pub record Hoare (P : W → Type 0) (m : Exec E W A) (Q : A → W → Type 0) (F : E → W → Type 0)
      : Type 0 where
    pub run : (w : W) → P w → Post Q F (m w)

  -- What holds after either outcome.
  pub Post-same : (G : W → Type 0) (r : Result E A × W) → Post (λ _. G) (λ _. G) r → G r.1
  Post-same G (ok a, w) h = h
  Post-same G (err e, w) h = h

  pub Post-both : (G : W → Type 0) (r : Result E A × W) → G r.1 → Post (λ _. G) (λ _. G) r
  Post-both G (ok a, w) h = h
  Post-both G (err e, w) h = h

  -- What holds after an action that is known to have returned.
  pub Post-ok :
      (Q : A → W → Type 0) (F : E → W → Type 0) (r : Result E A × W) (a : A)
      → r.0 ≡ ok a
      → Post Q F r
      → Q a r.1
  Post-ok Q F (ok b, w) a e h = let p : b ≡ a = cc in subst (λ x. Q x w) p h
  Post-ok Q F (err x, w) a e h = cc

  pub Post-map :
      (Q Q' : A → W → Type 0) (F F' : E → W → Type 0) (r : Result E A × W)
      → ((a : A) (w : W) → Q a w → Q' a w)
      → ((e : E) (w : W) → F e w → F' e w)
      → Post Q F r
      → Post Q' F' r
  Post-map Q Q' F F' (ok a, w) f g h = f a w h
  Post-map Q Q' F F' (err e, w) f g h = g e w h

module _ {E W A : Type 0} {P : W → Type 0} {Q : A → W → Type 0} {F : E → W → Type 0} where
  pub Hoare-pure : (a : A) → ((w : W) → P w → Q a w) → Hoare P (pure a) Q F
  Hoare-pure a h = record { run = h }

  pub Hoare-raise : (e : E) → ((w : W) → P w → F e w) → Hoare P (raise e) Q F
  Hoare-raise e h = record { run = h }

  pub Hoare-pre :
      {P' : W → Type 0} (m : Exec E W A) → ((w : W) → P' w → P w) → Hoare P m Q F → Hoare P' m Q F
  Hoare-pre m f h = record { run = λ w p. h.run w (f w p) }

  pub Hoare-map :
      {Q' : A → W → Type 0} {F' : E → W → Type 0} (m : Exec E W A)
      → ((a : A) (w : W) → Q a w → Q' a w)
      → ((e : E) (w : W) → F e w → F' e w)
      → Hoare P m Q F
      → Hoare P m Q' F'
  Hoare-map m f g h = record { run = λ w p. Post-map _ _ _ _ (m w) f g (h.run w p) }

module _ {E W A B : Type 0} where
  Post-continue :
      (Q : A → W → Type 0) (R : B → W → Type 0) (F : E → W → Type 0) (r : Result E A × W)
      (f : A → Exec E W B)
      → Post Q F r
      → ((a : A) → Hoare (Q a) (f a) R F)
      → Post R F (continue r.0 f r.1)
  Post-continue Q R F (ok a, w) f q k = (k a).run w q
  Post-continue Q R F (err e, w) f q k = q

  pub Hoare-bind :
      {P : W → Type 0} {Q : A → W → Type 0} {R : B → W → Type 0} {F : E → W → Type 0}
      (m : Exec E W A) (f : A → Exec E W B)
      → Hoare P m Q F
      → ((a : A) → Hoare (Q a) (f a) R F)
      → Hoare P (m >>= f) R F
  Hoare-bind m f h k = record { run = λ w p. Post-continue _ _ _ (m w) f (h.run w p) k }

module _ {E W A : Type 0} where
  Post-attempt :
      (Q : Result E A → W → Type 0) (r : Result E A × W)
      → Post (λ a. Q (ok a)) (λ e. Q (err e)) r
      → Q r.0 r.1
  Post-attempt Q (ok a, w) h = h
  Post-attempt Q (err e, w) h = h

  pub Hoare-attempt :
      {P : W → Type 0} {Q : Result E A → W → Type 0} {F : E → W → Type 0} (m : Exec E W A)
      → Hoare P m (λ a. Q (ok a)) (λ e. Q (err e))
      → Hoare P (attempt m) Q F
  Hoare-attempt {Q} m h = record { run = λ w p. Post-attempt Q (m w) (h.run w p) }
