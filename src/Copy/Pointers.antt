-- ===== src/Copy/Pointers.antt =====
-- Copies of what a pointer, a slice or a map leads to.
use project_easter.Base.{◌+◌, ◌≡◌, ◌∙◌, Option, none, some, List, [], ◌∷◌, arith}
use project_easter.Base.Hoare.{Post, Post-map}
use project_easter.Copy.Layout.{Addr, Ptr}
use project_easter.Copy.Heap.{Slot, Heap, Cmd, write, load, store, allocate}
use project_easter.Copy.Into.{copy_pointer, copy_all}
use project_easter.Copy.Deep.{
  Region, Within, Grows, Grows-refl, Grows-trans, Reading, IsDeep, bind, lasts, step, load-ok,
  write-Grows, allocate-Grows,
}

module _ {C V X : Type 0} where
  abbrev pub ReadsPtr : Slot C V → Reading C V X → Reading C Ptr (Option X)
  ReadsPtr s R P h none none = Unit
  ReadsPtr s R P h (some a) (some x) = (v : V) × P a × (h.cell a ≡ some (s.wrap v)) × R P h v x
  ReadsPtr s R P h _ _ = ⊥

  pub copy_pointer-IsDeep :
      (s : Slot C V) (zero : C) {R : Reading C V X} {into : V → Cmd C V}
      → IsDeep R into
      → IsDeep (ReadsPtr s R) (copy_pointer s zero into)
  unfolding copy_pointer load store allocate
  copy_pointer-IsDeep s zero {R} {into} d = record { moves = moved; copies = copied }
    where
      moved :
          (P Q : Region) (h h' : Heap C) (p : Ptr) (x : Option X)
          → ((a : Addr) → P a → Q a × (h'.cell a ≡ h.cell a))
          → ReadsPtr s R P h p x
          → ReadsPtr s R Q h' p x
      moved P Q h h' none none f r = tt
      moved P Q h h' (some a) (some x) f (v, i, e, r) =
          (v, (f a i).0, (f a i).1 ∙ e, d.moves P Q h h' v x f r)
      moved P Q h h' none (some x) f r = r
      moved P Q h h' (some a) none f r = r

      copied :
          (h : Heap C) (p : Ptr) (x : Option X)
          → ReadsPtr s R (Within 0 h.next) h p x
          → Post
              (λ p' h'. Grows h h' × ReadsPtr s R (Within h.next h'.next) h' p' x)
              (λ _ _. ⊥)
              (copy_pointer s zero into p h)
      copied h none none r = (Grows-refl h, tt)
      copied h none (some x) r = absurd r
      copied h (some a) none r = absurd r
      copied h (some a) (some x) (v, i, e, r) =
          let k = record (write h h.next zero) { next = h.next + 1 } in
          let g = allocate-Grows h zero in
          rw (load-ok s a v k (g.keeps a i.1 ∙ e)) (
            bind (λ v' k'. Grows k k' × R (Within k.next k'.next) k' v' x) _ (into v k) _
              (d.copies k v x (lasts d 0 h k v x g r))
              (λ v' k' q.
                let c = s.wrap v' in
                (
                  write-Grows h k' h.next c (omega arith) (Grows-trans h k k' g q.0),
                  (
                    v',
                    (omega arith, omega (arith, q.0.further)),
                    ground arith,
                    d.moves (Within k.next k'.next) (Within h.next k'.next) k' (write k' h.next c)
                        v' x (λ b j. ((omega (arith, j.0), j.1), ground (arith, j.0))) q.1,
                  ),
                )))

  -- the items of a slice, one by one
  abbrev pub ReadsAll : Reading C V X → Reading C (List V) (List X)
  ReadsAll R P h [] [] = Unit
  ReadsAll R P h (v ∷ vs) (x ∷ xs) = R P h v x × ReadsAll R P h vs xs
  ReadsAll R P h _ _ = ⊥

  pub copy_all-IsDeep :
      {R : Reading C V X} {into : V → Cmd C V} → IsDeep R into → IsDeep (ReadsAll R) (copy_all into)
  copy_all-IsDeep {R} {into} d = record { moves = moved; copies = copied }
    where
      moved :
          (P Q : Region) (h h' : Heap C) (vs : List V) (xs : List X)
          → ((a : Addr) → P a → Q a × (h'.cell a ≡ h.cell a))
          → ReadsAll R P h vs xs
          → ReadsAll R Q h' vs xs
      moved P Q h h' [] [] f r = tt
      moved P Q h h' (v ∷ vs) (x ∷ xs) f (r, rs) =
          (d.moves P Q h h' v x f r, moved P Q h h' vs xs f rs)
      moved P Q h h' [] (x ∷ xs) f r = r
      moved P Q h h' (v ∷ vs) [] f r = r

      -- the loop from a later heap on
      loop :
          (h k : Heap C) (vs : List V) (xs : List X)
          → Grows h k
          → ReadsAll R (Within 0 h.next) h vs xs
          → Post
              (λ vs' k'. Grows h k' × Grows k k' × ReadsAll R (Within h.next k'.next) k' vs' xs)
              (λ _ _. ⊥)
              (copy_all into vs k)
      loop h k [] [] g r = (g, Grows-refl k, tt)
      loop h k (v ∷ vs) (x ∷ xs) g (r, rs) = bind _ _ (into v k) _ (step d h k v x g r) (λ v' k' q.
          bind _ _ (copy_all into vs k') _ (loop h k' vs xs q.0 rs) (λ vs' k'' p.
            (p.0, Grows-trans k k' k'' q.1 p.1, (lasts d h.next k' k'' v' x p.1 q.2, p.2))))
      loop h k [] (x ∷ xs) g r = absurd r
      loop h k (v ∷ vs) [] g r = absurd r

      copied :
          (h : Heap C) (vs : List V) (xs : List X)
          → ReadsAll R (Within 0 h.next) h vs xs
          → Post
              (λ vs' h'. Grows h h' × ReadsAll R (Within h.next h'.next) h' vs' xs)
              (λ _ _. ⊥)
              (copy_all into vs h)
      copied h vs xs r =
          Post-map
            (λ vs' k'. Grows h k' × Grows h k' × ReadsAll R (Within h.next k'.next) k' vs' xs)
            (λ vs' k'. Grows h k' × ReadsAll R (Within h.next k'.next) k' vs' xs) (λ _ _. ⊥)
            (λ _ _. ⊥) (copy_all into vs h) (λ vs' k' q. (q.0, q.2)) (λ e k' q. q)
            (loop h h vs xs (Grows-refl h) r)
