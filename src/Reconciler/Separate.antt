-- ===== src/Reconciler/Separate.antt =====
-- When resources of one kind that have different names own different objects.
use project_easter.Base.{
  String, ◌≡◌, sym, ap, ◌∙◌, false, List, [], ◌∷◌, All, Any, inl, inr, ◌==◌, differ,
}
use mathlib.Core.Path.{subst}
use project_easter.Api.{GroupVersionKind, NamespacedName, named, Resource}
use project_easter.Reconciler.Adapter.{Adapter}
use project_easter.Reconciler.Contract.{Key}
use project_easter.Reconciler.Scope.{Owns}
use project_easter.Reconciler.Orphans.{IsOwned}

-- A kind of object that each resource owns one of, and the name that it has by that of the resource.
pub record Slot : Type 0 where
  pub gvk : GroupVersionKind
  pub named_after : String → String

abbrev slot_key : NamespacedName → Slot → Key
slot_key n x = record { gvk = x.gvk; namespace = n.namespace; name = x.named_after n.name }

abbrev pub IsIn : NamespacedName → List Slot → Key → Type 0
IsIn n xs k = Any (λ x. k ≡ slot_key n x) xs

-- Slots of different API groups, in each of which the name tells that of the resource.
abbrev pub AreTelling : List Slot → Type 0
AreTelling [] = Unit
AreTelling (x ∷ xs) =
    ((s t : String) → x.named_after s ≡ x.named_after t → s ≡ t)
    × All (λ (y : Slot). (x.gvk.group == y.gvk.group) ≡ false) xs
    × AreTelling xs

apart :
    (m n : NamespacedName) (k : Key) (x : Slot) (xs : List Slot)
    → All (λ (y : Slot). (x.gvk.group == y.gvk.group) ≡ false) xs
    → k ≡ slot_key m x
    → ¬ IsIn n xs k
apart m n k x [] h e i = i
apart m n k x (y ∷ ys) (h, hs) e (inl f) =
    differ x.gvk.group y.gvk.group h (ap (λ (j : Key). j.gvk.group) (sym e ∙ f))
apart m n k x (y ∷ ys) (h, hs) e (inr i) = apart m n k x ys hs e i

one_name :
    (m n : NamespacedName) (k : Key) (xs : List Slot)
    → AreTelling xs
    → IsIn m xs k
    → IsIn n xs k
    → m ≡ n
one_name m n k [] h i j = elim i [ ]
one_name m n k (x ∷ xs) (tell, groups, h) (inl e) (inl f) =
    let p = sym e ∙ f in
    λ i. record {
      namespace = ap (λ (j : Key). j.namespace) p i;
      name = tell m.name n.name (ap (λ (j : Key). j.name) p) i;
    }
one_name m n k (x ∷ xs) (tell, groups, h) (inl e) (inr j) = absurd (apart m n k x xs groups e j)
one_name m n k (x ∷ xs) (tell, groups, h) (inr i) (inl f) = absurd (apart n m k x xs groups f i)
one_name m n k (x ∷ xs) (tell, groups, h) (inr i) (inr j) = one_name m n k xs h i j

-- Resources of the kind that have different names own different objects.
abbrev pub IsSeparate : {S T : Type 0} → Adapter (Resource S T) → Type 0
IsSeparate a =
    (req req' : NamespacedName) (k : Key) → IsOwned a req k → IsOwned a req' k → req ≡ req'

module _ {S T : Type 0} (a : Adapter (Resource S T)) (xs : List Slot) where
  own_slot :
      ((cr : Resource S T) (k : Key)
        → Owns a cr k
        → IsIn (named cr.metadata.namespace cr.metadata.name) xs k)
      → (req : NamespacedName) (k : Key) → IsOwned a req k
      → IsIn req xs k
  own_slot owned req k (cr, p, q, own) =
      subst (λ n. IsIn n xs k) (λ i. record { namespace = q i; name = p i }) (owned cr k own)

  pub slots-IsSeparate :
      AreTelling xs
      → ((cr : Resource S T) (k : Key)
          → Owns a cr k
          → IsIn (named cr.metadata.namespace cr.metadata.name) xs k)
      → IsSeparate a
  slots-IsSeparate h owned req req' k own own' =
      one_name req req' k xs h (own_slot owned req k own) (own_slot owned req' k own')
