-- ===== src/Copy/Maps.antt =====
-- Copies of maps: the order in which `range` gives the entries does not matter.
use project_easter.Base.{
  String, ◌≡◌, refl, sym, ap, ◌∙◌, true, false, Option, none, some, [], ◌∷◌, ◌==◌, if◌then◌else◌,
  All, Any, inl, inr, Bool-cases, eq_iff, arith,
}
use project_easter.Base.Exec.{pure}
use project_easter.Api.{StringMap}
use project_easter.Copy.Heap.{Slot}
use project_easter.Copy.Into.{put, fill, copy_map}
use project_easter.Copy.Deep.{Grows-refl, Reading, IsDeep}
use project_easter.Copy.Pointers.{ReadsPtr, copy_pointer-IsDeep}

-- `m[k]`
abbrev pub value_at : String → StringMap → Option String
value_at k [] = none
value_at k ((j, v) ∷ m) = if j == k then some v else value_at k m

-- What Go says of `range` over a map: it gives the entries of the map, and every one of them.
pub record RangeLaws (range : StringMap → StringMap) : Type 0 where
  pub given : (m : StringMap) → All (λ e. value_at e.0 m ≡ some e.1) (range m)
  pub every :
      (m : StringMap) (k v : String) → value_at k m ≡ some v → Any (λ e. (k, v) ≡ e) (range m)

-- Two maps with the same entries, in whatever order.
abbrev pub SameMap : StringMap → StringMap → Type 0
SameMap m x = (k : String) → value_at k m ≡ value_at k x

value_at-put :
    (k j v : String) (m : StringMap)
    → value_at j (put k v m) ≡ (if k == j then some v else value_at j m)
value_at-put k j v [] = refl
value_at-put k j v ((i, w) ∷ m) =
    ground (arith, eq_iff k j, eq_iff i k, eq_iff i j, value_at-put k j v m)

-- Putting in an entry of `x` under the key `j`, seen at the key `k`.
value_at-put-same :
    (x m : StringMap) (j w k : String)
    → value_at j x ≡ some w
    → (j == k) ≡ true
    → value_at k (put j w m) ≡ value_at k x
value_at-put-same x m j w k p y =
    value_at-put j k w m ∙ (rw y (sym p ∙ ap (λ i. value_at i x) ((eq_iff j k).0 y)))

value_at-put-other :
    (m : StringMap) (j w k : String) → (j == k) ≡ false → value_at k (put j w m) ≡ value_at k m
value_at-put-other m j w k n = value_at-put j k w m ∙ rw n refl

-- While entries of `x` are put in, none is wrong, and none gets lost.
fill-given :
    (x es m : StringMap) (k v : String)
    → All (λ e. value_at e.0 x ≡ some e.1) es
    → ((w : String) → value_at k m ≡ some w → value_at k x ≡ some w)
    → value_at k (fill es m) ≡ some v
    → value_at k x ≡ some v
fill-given x [] m k v h g e = g v e
fill-given x ((j, w) ∷ es) m k v (p, ps) g e =
    fill-given x es (put j w m) k v ps
      (λ u f. elim (Bool-cases (j == k)) [
        | inl y ↦ sym (value_at-put-same x m j w k p y) ∙ f
        | inr n ↦ g u (sym (value_at-put-other m j w k n) ∙ f)
      ])
      e

fill-kept :
    (x es m : StringMap) (k v : String)
    → All (λ e. value_at e.0 x ≡ some e.1) es
    → value_at k x ≡ some v
    → value_at k m ≡ some v
    → value_at k (fill es m) ≡ some v
fill-kept x [] m k v h q e = e
fill-kept x ((j, w) ∷ es) m k v (p, ps) q e =
    fill-kept x es (put j w m) k v ps q (elim (Bool-cases (j == k)) [
      | inl y ↦ value_at-put-same x m j w k p y ∙ q
      | inr n ↦ value_at-put-other m j w k n ∙ e
    ])

fill-every :
    (x es m : StringMap) (k v : String)
    → All (λ e. value_at e.0 x ≡ some e.1) es
    → value_at k x ≡ some v
    → Any (λ e. (k, v) ≡ e) es
    → value_at k (fill es m) ≡ some v
fill-every x [] m k v h q a = elim a [ ]
fill-every x ((j, w) ∷ es) m k v (p, ps) q (inl e) =
    fill-kept x es (put j w m) k v ps q
      (value_at-put-same x m j w k p ((eq_iff j k).1 (sym (ap (λ i. i.0) e))) ∙ q)
fill-every x ((j, w) ∷ es) m k v (p, ps) q (inr a) = fill-every x es (put j w m) k v ps q a

-- What the loop has made in the end.
pub fill-SameMap :
    (range : StringMap → StringMap)
    → RangeLaws range
    → (m : StringMap) → SameMap (fill (range m) []) m
fill-SameMap range laws m k = go (value_at k m) refl (value_at k (fill (range m) [])) refl
  where
    go :
        (a : Option String)
        → value_at k m ≡ a
        → (b : Option String) → value_at k (fill (range m) []) ≡ b
        → value_at k (fill (range m) []) ≡ value_at k m
    go none e none f = f ∙ sym e
    go (some v) e b f = fill-every m (range m) [] k v (laws.given m) e (laws.every m k v e) ∙ sym e
    go none e (some w) f = f ∙ sym (fill-given m (range m) [] k w (laws.given m) (λ u g. cc g) f)

module _ {C : Type 0} where
  -- the map behind an address has these entries
  abbrev pub ReadsMap : Reading C StringMap StringMap
  ReadsMap P h m x = SameMap m x

  pub copy_map-IsDeep :
      (s : Slot C StringMap) (zero : C) (range : StringMap → StringMap)
      → RangeLaws range
      → IsDeep (ReadsPtr s ReadsMap) (copy_map s zero range)
  unfolding copy_map
  copy_map-IsDeep s zero range laws =
      copy_pointer-IsDeep s zero {into = λ m. pure (fill (range m) [])} (record {
        moves = λ P Q h h' m x f r. r;
        copies = λ h m x r. (Grows-refl h, λ k. fill-SameMap range laws m k ∙ r k);
      })
