-- ===== src/Tests/Memory/Idle.antt =====
-- What is applied or deleted again in memory leaves the objects under their keys.
use project_easter.Base.{
  String, ◌==◌, ◌≡◌, refl, sym, ap, ◌∙◌, true, Option, none, some, List, [], ◌∷◌, Bool-cases, inl,
  inr, eq_iff, eq_refl, arith,
}
use mathlib.Core.Path.{subst}
use project_easter.Base.Value.{
  Value, Fields, end, field, lookup, insert, insert_some, lookup-insert,
}
use project_easter.Api.{GroupVersionKind, NamespacedName, named, Unstructured}
use project_easter.Reconciler.Contract.{Key, key_of}
use project_easter.Reconciler.Resting.{Idle}
use project_easter.Tests.Memory.{memory, is_at, object_at, drop_at, merge, place}
use project_easter.Tests.Memory.Laws.{at_key, is_at-key_of}
use project_easter.Tests.Memory.Effects.{
  Meets-same, memory_effects, key_of-merge, applied, patched_here, patch_elsewhere,
}

insert-lookup : (k : String) (v : Value) (m : Fields) → lookup k m ≡ some v → insert k v m ≡ m
unfolding insert
insert-lookup k v end e = cc e
insert-lookup k v (field j w m) e = elim (Bool-cases (j == k)) [
  | inl y ↦ rw y (
      let p : j ≡ k = (eq_iff j k).0 y in
      let q : w ≡ v = ground arith in λ i. field (sym p i) (sym q i) m)
  | inr n ↦ rw n (ap (λ r. field j w r) (insert-lookup k v m (ground arith)))
]

insert_some-lookup : (k : String) (m : Fields) → insert_some k (lookup k m) m ≡ m
unfolding insert_some
insert_some-lookup k m = go (lookup k m) refl
  where
    go : (o : Option Value) → lookup k m ≡ o → insert_some k o m ≡ m
    go none e = refl
    go (some v) e = insert-lookup k v m e

-- The status that an object has is kept once.
kept_once :
    (o : Option Value) (m : Fields)
    → insert_some "status" (lookup "status" (insert_some "status" o m)) m ≡ insert_some "status" o m
unfolding insert_some
kept_once none m = insert_some-lookup "status" m
kept_once (some v) m = ap (λ r. insert_some "status" r m) (lookup-insert "status" "status" v m)

remerge : (o : Option Unstructured) (u : Unstructured) → merge (some (merge o u)) u ≡ merge o u
remerge none u = ap (λ x. record u { object = x }) (insert_some-lookup "status" u.object)
remerge (some w) u =
    ap (λ x. record u { object = x }) (kept_once (lookup "status" w.object) u.object)

is_at_own : (u : Unstructured) → is_at u.gvk (place u) u ≡ true
is_at_own u =
    rw
      (
        eq_refl u.gvk.group,
        eq_refl u.gvk.version,
        eq_refl u.gvk.kind,
        eq_refl u.namespace,
        eq_refl u.name,
      )
      refl

applied_again :
    (us : List Unstructured) (u : Unstructured) (o : Option Unstructured)
    → at_key (key_of u) us ≡ some (merge o u)
    → (k : Key) → at_key k (applied us u) ≡ at_key k us
applied_again us u o e k =
    elim (Bool-cases (is_at k.gvk (named k.namespace k.name) (merge old u))) [
      | inl y ↦
          subst (λ j. at_key j (applied us u) ≡ at_key j us)
            (sym (is_at-key_of k (merge old u) y ∙ key_of-merge old u)) same
      | inr n ↦ patch_elsewhere us u k (λ p.
          let q : is_at k.gvk (named k.namespace k.name) (merge old u) ≡ true =
            ap (λ j. is_at j.gvk (named j.namespace j.name) (merge old u))
              (p ∙ sym (key_of-merge old u))
            ∙ is_at_own (merge old u) in
          cc (q, n))
    ]
  where
    old : Option Unstructured
    old = object_at u.gvk (place u) us

    same : at_key (key_of u) (applied us u) ≡ at_key (key_of u) us
    same = patched_here us u ∙ (ap (λ x. some (merge x u)) e ∙ (ap some (remerge o u) ∙ sym e))

drop_at-none :
    (g : GroupVersionKind) (n : NamespacedName) (us : List Unstructured)
    → object_at g n us ≡ none
    → drop_at g n us ≡ us
drop_at-none g n [] e = refl
drop_at-none g n (u ∷ us) e = elim (Bool-cases (is_at g n u)) [
  | inl y ↦ ground arith
  | inr m ↦ rw m (ap (λ r. u ∷ r) (drop_at-none g n us (ground arith)))
]

pub memory-Idle : (S T : Type 0) (manager : String) → Idle (memory S T) (memory_effects S T manager)
memory-Idle S T manager = record {
  View = Key → Option Unstructured;
  view = λ s k. at_key k s.objects;
  seen = λ s s' k o e. Meets-same s s' k o (λ i. sym e i k);
  patched_again = λ s u met i k. applied_again s.objects u met.0 met.1 k i;
  deleted_again =
      λ s j met i k. at_key k (drop_at-none j.gvk (named j.namespace j.name) s.objects met i);
  reported = λ s x. refl;
}
