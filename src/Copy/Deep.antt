-- ===== src/Copy/Deep.antt =====
-- Deep copies: what a value stands for, and what its copy has to be.
use project_easter.Base.{◌+◌, ◌<◌, ◌≤◌, ◌≡◌, refl, some, arith}
use project_easter.Base.Exec.{Result, ok, err, continue}
use project_easter.Base.Hoare.{Post}
use project_easter.Copy.Layout.{Addr}
use project_easter.Copy.Heap.{Slot, Heap, Fault, Cmd, write, load}

abbrev pub Region : Type 1
Region = Addr → Type 0

-- the addresses from `lo` up to and without `hi`
abbrev pub Within : Addr → Addr → Region
Within lo hi a = (lo ≤ a) × (a < hi)

-- `Reads P h v x`: in the heap, the value `v` stands for `x`, and the addresses that it leads to lie in
-- the region.
abbrev pub Reading : Type 0 → Type 0 → Type 0 → Type 1
Reading C V X = Region → Heap C → V → X → Type 0

module _ {C : Type 0} where
  -- Nothing lies beyond the addresses that have been given out, and what was there before is unchanged.
  pub record Grows (h h' : Heap C) : Type 0 where
    pub further : h.next ≤ h'.next
    pub keeps : (a : Addr) → a < h.next → h'.cell a ≡ h.cell a

  pub Grows-refl : (h : Heap C) → Grows h h
  Grows-refl h = record { further = omega arith; keeps = λ a i. refl }

  pub Grows-trans : (h h' h'' : Heap C) → Grows h h' → Grows h' h'' → Grows h h''
  Grows-trans h h' h'' g k = record {
    further = omega (arith, g.further, k.further);
    keeps = λ a i. ground (arith, g.further, k.keeps a, g.keeps a);
  }

  -- The laws of a copying function: a value stands for the same in every heap that agrees on its
  -- addresses; and a copy of a value is made without a fault, changes nothing that was there, stands for
  -- the same, and leads to new addresses alone.
  pub record IsDeep {V X : Type 0} (Reads : Reading C V X) (into : V → Cmd C V) : Type 1 where
    pub moves :
        (P Q : Region) (h h' : Heap C) (v : V) (x : X)
        → ((a : Addr) → P a → Q a × (h'.cell a ≡ h.cell a))
        → Reads P h v x
        → Reads Q h' v x
    pub copies :
        (h : Heap C) (v : V) (x : X)
        → Reads (Within 0 h.next) h v x
        → Post (λ v' h'. Grows h h' × Reads (Within h.next h'.next) h' v' x) (λ _ _. ⊥) (into v h)

  pub bind :
      {A B : Type 0} (Q : A → Heap C → Type 0) (R : B → Heap C → Type 0)
      (r : Result Fault A × Heap C) (f : A → Cmd C B)
      → Post Q (λ _ _. ⊥) r
      → ((a : A) (h : Heap C) → Q a h → Post R (λ _ _. ⊥) (f a h))
      → Post R (λ _ _. ⊥) (continue r.0 f r.1)
  bind Q R (ok a, h) f q k = k a h q
  bind Q R (err e, h) f q k = absurd q

  module _ {V X : Type 0} {Reads : Reading C V X} {into : V → Cmd C V} (d : IsDeep Reads into) where
    -- What a value stands for stays as the heap grows.
    pub lasts :
        (lo : Addr) (h h' : Heap C) (v : V) (x : X)
        → Grows h h'
        → Reads (Within lo h.next) h v x
        → Reads (Within lo h'.next) h' v x
    lasts lo h h' v x g =
        d.moves (Within lo h.next) (Within lo h'.next) h h' v x
          (λ a i. ((i.0, omega (arith, g.further, i.1)), g.keeps a i.1))

    -- A copy that is made after others, in a heap that has grown from `h` to `k`.
    pub step :
        (h k : Heap C) (v : V) (x : X)
        → Grows h k
        → Reads (Within 0 h.next) h v x
        → Post
            (λ v' k'. Grows h k' × Grows k k' × Reads (Within h.next k'.next) k' v' x)
            (λ _ _. ⊥)
            (into v k)
    step h k v x g r = go (into v k) (d.copies k v x (lasts 0 h k v x g r))
      where
        go :
            (z : Result Fault V × Heap C)
            → Post (λ v' k'. Grows k k' × Reads (Within k.next k'.next) k' v' x) (λ _ _. ⊥) z
            → Post
                (λ v' k'. Grows h k' × Grows k k' × Reads (Within h.next k'.next) k' v' x)
                (λ _ _. ⊥)
                z
        go (ok v', k') (f, s) = (
          Grows-trans h k k' g f,
          f,
          d.moves (Within k.next k'.next) (Within h.next k'.next) k' k' v' x
              (λ a i. ((omega (arith, g.further, i.0), i.1), refl)) s,
        )
        go (err e, k') q = q

module _ {C V : Type 0} where
  pub load-ok :
      (s : Slot C V) (a : Addr) (v : V) (h : Heap C)
      → h.cell a ≡ some (s.wrap v)
      → load s a h ≡ (ok v, h)
  unfolding load
  load-ok s a v h e = rw (e, s.unwrap-wrap v) refl

module _ {C : Type 0} where
  pub write-Grows :
      (h k : Heap C) (p : Addr) (c : C) → h.next ≤ p → Grows h k → Grows h (write k p c)
  write-Grows h k p c i g = record { further = g.further; keeps = λ a j. ground (arith, g.keeps a) }

  pub allocate-Grows :
      (h : Heap C) (c : C) → Grows h (record (write h h.next c) { next = h.next + 1 })
  allocate-Grows h c = record { further = omega arith; keeps = λ a j. ground arith }
