-- ===== src/Base/Exec.antt =====
-- Actions on a world that may fail. What was done before a failure stays done, so the world comes
-- back beside the error too.

pub data Result {ℓ} (E A : Type ℓ) : Type ℓ where
  ok : A → Result E A
  err : E → Result E A

abbrev pub Exec : Type 0 → Type 0 → Type 0 → Type 0
Exec E W A = W → Result E A × W

module _ {E W A : Type 0} where
  abbrev pub pure : A → Exec E W A
  pure a w = (ok a, w)

  abbrev pub raise : E → Exec E W A
  raise e w = (err e, w)

  -- The error as a value, for code that looks at it.
  abbrev pub attempt : Exec E W A → Exec E W (Result E A)
  attempt m w = let (r, w') = m w in (ok r, w')

module _ {E W A B : Type 0} where
  abbrev pub continue : Result E A → (A → Exec E W B) → Exec E W B
  continue (ok a) f w = f a w
  continue (err e) f w = (err e, w)

  infixl 5 ◌>>=◌ ◌>>◌
  abbrev pub ◌>>=◌ : Exec E W A → (A → Exec E W B) → Exec E W B
  ◌>>=◌ m f w = let (r, w') = m w in continue r f w'

  abbrev pub ◌>>◌ : Exec E W A → Exec E W B → Exec E W B
  m >> k = m >>= λ _. k
