-- ===== src/Tests/Memory/Effects.antt =====
-- What applies and deletions make of the objects in memory.
use project_easter.Base.{
  String, ◌≡◌, ◌≢◌, refl, sym, ap, ◌∙◌, false, Option, none, some, List, [], ◌∷◌, Bool-cases, inl,
  inr, eq_refl,
}
use project_easter.Api.{named, Unstructured}
use project_easter.Reconciler.Contract.{Key, key_of}
use project_easter.Reconciler.Effects.{Effects}
use project_easter.Tests.Memory.{Memory, memory, is_at, object_at, drop_at, merge, place}
use project_easter.Tests.Memory.Laws.{at_key, is_at-key_of, dropped}

pub key_of-merge : (o : Option Unstructured) (u : Unstructured) → key_of (merge o u) ≡ key_of u
key_of-merge none u = refl
key_of-merge (some w) u = refl

at_own_key : (u : Unstructured) (us : List Unstructured) → at_key (key_of u) (u ∷ us) ≡ some u
at_own_key u us =
    rw
      (
        eq_refl u.gvk.group,
        eq_refl u.gvk.version,
        eq_refl u.gvk.kind,
        eq_refl u.namespace,
        eq_refl u.name,
      )
      refl

-- An object of another key is not there.
not_at :
    (k : Key) (u : Unstructured) → k ≢ key_of u → is_at k.gvk (named k.namespace k.name) u ≡ false
not_at k u apart = elim (Bool-cases (is_at k.gvk (named k.namespace k.name) u)) [
  | inl y ↦ absurd (apart (is_at-key_of k u y))
  | inr n ↦ n
]

pub at_key-kept :
    (j k : Key) (us : List Unstructured)
    → k ≢ j
    → at_key k (drop_at j.gvk (named j.namespace j.name) us) ≡ at_key k us
at_key-kept j k [] apart = refl
at_key-kept j k (u ∷ us) apart = elim (Bool-cases (is_at j.gvk (named j.namespace j.name) u)) [
  | inl y ↦
      rw (y, not_at k u (λ e. apart (e ∙ sym (is_at-key_of j u y)))) (at_key-kept j k us apart)
  | inr n ↦ rw (n, at_key-kept j k us apart) refl
]

abbrev pub applied : List Unstructured → Unstructured → List Unstructured
applied us u = merge (object_at u.gvk (place u) us) u ∷ drop_at u.gvk (place u) us

pub patched_here :
    (us : List Unstructured) (u : Unstructured)
    → at_key (key_of u) (applied us u) ≡ some (merge (object_at u.gvk (place u) us) u)
patched_here us u =
    let v = merge (object_at u.gvk (place u) us) u in
    ap (λ k. at_key k (applied us u)) (sym (key_of-merge (object_at u.gvk (place u) us) u))
    ∙ at_own_key v (drop_at u.gvk (place u) us)

pub patch_elsewhere :
    (us : List Unstructured) (u : Unstructured) (k : Key)
    → k ≢ key_of u
    → at_key k (applied us u) ≡ at_key k us
patch_elsewhere us u k apart =
    let v = merge (object_at u.gvk (place u) us) u in
    rw (not_at k v (λ e. apart (e ∙ key_of-merge (object_at u.gvk (place u) us) u)))
      (at_key-kept (key_of u) k us apart)

-- The object under the key is the one that was applied, with the status that it had; or there is none.
abbrev pub Meets : {R : Type 0} → Memory R → Key → Option Unstructured → Type 0
Meets s k none = at_key k s.objects ≡ none
Meets s k (some u) = (o : Option Unstructured) × (at_key k s.objects ≡ some (merge o u))

pub Meets-same :
    {R : Type 0} (s s' : Memory R) (k : Key) (o : Option Unstructured)
    → at_key k s'.objects ≡ at_key k s.objects
    → Meets s k o
    → Meets s' k o
Meets-same s s' k none e h = e ∙ h
Meets-same s s' k (some u) e (o, h) = (o, e ∙ h)

abbrev pub memory_effects : (S T : Type 0) (manager : String) → Effects (memory S T) manager
memory_effects S T manager = record {
  Meets = Meets;
  patched = λ s u v e. (object_at u.gvk (place u) s.objects, patched_here s.objects u);
  deleted = λ s k e. dropped k.gvk (named k.namespace k.name) s.objects;
  patch-Meets = λ s u k o apart h.
      Meets-same s ((memory S T).patch s u manager).1 k o (patch_elsewhere s.objects u k apart) h;
  delete-Meets = λ s j k o apart h.
      Meets-same s (record s { objects = drop_at j.gvk (named j.namespace j.name) s.objects }) k o
        (at_key-kept j k s.objects apart) h;
  update_status-Meets = λ s x k o h. Meets-same s ((memory S T).update_status s x).1 k o refl h;
  update-Meets = λ s x k o h. Meets-same s ((memory S T).update s x).1 k o refl h;
}
