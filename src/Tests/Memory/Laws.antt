-- ===== src/Tests/Memory/Laws.antt =====
-- The API server in memory meets what the theorems rely on.
use project_easter.Base.{
  eq_refl, ◌≡◌, refl, true, false, Option, none, some, List, [], ◌∷◌, eq_iff, arith, Bool-cases,
  inl, inr, ◌⊎◌,
}
use project_easter.Base.Exec.{ok}
use project_easter.Api.{GroupVersionKind, NamespacedName, named, Unstructured, Resource}
use project_easter.Platform.{Library}
use project_easter.Reconciler.Adapter.{finalizer_name}
use project_easter.Reconciler.Contract.{Key, key_of}
use project_easter.Reconciler.Settling.{ReadsBack}
use project_easter.Reconciler.Store.{StoreLaws, Guarded}
use project_easter.Tests.Memory.{
  Memory, memory, shelf, is_at, object_at, drop_at, merge, place, place_of, found, matching, put,
  put_status, with_status, same,
}

abbrev pub at_key : Key → List Unstructured → Option Unstructured
at_key k us = object_at k.gvk (named k.namespace k.name) us

-- Dropping an object makes none, and leaves none of that kind and name.
at_key-drop_at :
    (g : GroupVersionKind) (n : NamespacedName) (k : Key) (us : List Unstructured)
    (v : Unstructured)
    → at_key k (drop_at g n us) ≡ some v
    → (u : Unstructured) × (at_key k us ≡ some u)
at_key-drop_at g n k [] v e = (v, e)
at_key-drop_at g n k (u ∷ us) v e = elim (Bool-cases (is_at k.gvk (named k.namespace k.name) u)) [
  | inl y ↦ (u, rw y)
  | inr m ↦ let (w, q) = at_key-drop_at g n k us v (ground arith) in (w, rw m q)
]

pub dropped :
    (g : GroupVersionKind) (n : NamespacedName) (us : List Unstructured)
    → object_at g n (drop_at g n us) ≡ none
dropped g n [] = refl
dropped g n (u ∷ us) = elim (Bool-cases (is_at g n u)) [
  | inl y ↦ rw y (dropped g n us)
  | inr m ↦ rw (m, m) (dropped g n us)
]

pub is_at-key_of :
    (k : Key) (u : Unstructured) → is_at k.gvk (named k.namespace k.name) u ≡ true → k ≡ key_of u
is_at-key_of k u e = ground (
  arith,
  eq_iff u.gvk.group k.gvk.group,
  eq_iff u.gvk.version k.gvk.version,
  eq_iff u.gvk.kind k.gvk.kind,
  eq_iff u.namespace k.namespace,
  eq_iff u.name k.name,
)

-- An apply makes at most the object that is applied.
patched :
    (us : List Unstructured) (u : Unstructured) (k : Key)
    → ((v : Unstructured) × (at_key k
            (merge (object_at u.gvk (place u) us) u ∷ drop_at u.gvk (place u) us)
          ≡ some v))
    → ((v : Unstructured) × (at_key k us ≡ some v)) ⊎ (k ≡ key_of u)
patched us u k (v, e) = elim (Bool-cases (is_at k.gvk (named k.namespace k.name) u)) [
  | inl y ↦ inr (is_at-key_of k u y)
  | inr n ↦ inl (at_key-drop_at u.gvk (place u) k us v (missed (object_at u.gvk (place u) us) n e))
]
  where
    missed :
        (o : Option Unstructured)
        → is_at k.gvk (named k.namespace k.name) u ≡ false
        → at_key k (merge o u ∷ drop_at u.gvk (place u) us) ≡ some v
        → at_key k (drop_at u.gvk (place u) us) ≡ some v
    missed none n e = ground arith
    missed (some w) n e = ground arith

module _ {S T : Type 0} where
  pub found-matching :
      (req : NamespacedName) (o : Option (Resource S T)) (cr : Resource S T)
      → found (matching req o) ≡ ok cr
      → (matching req o ≡ some cr)
        × (cr.metadata.name ≡ req.name)
        × (cr.metadata.namespace ≡ req.namespace)
  found-matching req none cr e = cc
  found-matching req (some x) cr e =
      ground (arith, eq_iff req.namespace x.metadata.namespace, eq_iff req.name x.metadata.name)

module _ {S T : Type 0} (l : Library) (req : NamespacedName) where
  put-Guarded :
      (s : Memory (Resource S T)) (x : Resource S T)
      → l.contains_finalizer x.metadata.finalizers finalizer_name ≡ true
      → Guarded l (shelf S T) req s
      → Guarded l (shelf S T) req (record s { resources = put x s.resources })
  put-Guarded s x has (cr, e, h) = elim (Bool-cases (same req (place_of x))) [
    | inl y ↦ (x, rw (y, y), has)
    | inr n ↦ (cr, rw n e, h)
  ]

  same-placed :
      (x : Resource S T)
      → same req (place_of x) ≡ true
      → (x.metadata.name ≡ req.name) × (x.metadata.namespace ≡ req.namespace)
  same-placed x e =
      ground (arith, eq_iff req.namespace x.metadata.namespace, eq_iff req.name x.metadata.name)

  put_other-Guarded :
      (s : Memory (Resource S T)) (x : Resource S T)
      → ¬ ((x.metadata.name ≡ req.name) × (x.metadata.namespace ≡ req.namespace))
      → Guarded l (shelf S T) req s
      → Guarded l (shelf S T) req (record s { resources = put x s.resources })
  put_other-Guarded s x other (cr, e, h) = elim (Bool-cases (same req (place_of x))) [
    | inl y ↦ absurd (other (same-placed x y))
    | inr n ↦ (cr, rw n e, h)
  ]

  put_status-Guarded :
      (s : Memory (Resource S T)) (x : Resource S T)
      → Guarded l (shelf S T) req s
      → Guarded l (shelf S T) req (record s { resources = put_status x s.resources })
  put_status-Guarded s x (cr, e, h) = elim (Bool-cases (same req (place_of x))) [
    | inl y ↦ (record cr { status = x.status }, rw y (go (s.resources req) e), h)
    | inr n ↦ (cr, rw n e, h)
  ]
    where
      go :
          (o : Option (Resource S T))
          → matching req o ≡ some cr
          → matching req (with_status x o) ≡ some (record cr { status = x.status })
      go none e = cc
      go (some y) e = ground arith

  -- The memory keeps what the engine relies on, whatever the objects are.
  pub memory-StoreLaws : (Own : Key → Type 0) → StoreLaws l (shelf S T) req Own
  memory-StoreLaws Own = record {
    get_stored = λ s cr e. (found-matching req (s.resources req) cr e).0;
    get_named = λ s n cr e. let (m, p, q) = found-matching n (s.resources n) cr e in (p, q);
    patch-Guards = λ s u m g. g;
    delete-Guards = λ s k n g. g;
    update_status-Guards = λ s x g. put_status-Guarded s x g;
    update-Guards = λ s x has g. put-Guarded s x has g;
    update_other-Guards = λ s x other g. put_other-Guarded s x other g;
    patch-IsLive = λ s u m k own live. patched s.objects u k live;
    delete-IsLive = λ s g n k own live. at_key-drop_at g n k s.objects live.0 live.1;
    update-IsLive = λ s x k own live. live;
    update_status-IsLive = λ s x k own live. live;
    deleted = λ s g n own accepted live. cc (dropped g n s.objects, live.1);
  }

  pub memory-ReadsBack : ReadsBack (memory S T) req
  memory-ReadsBack = record {
    updated =
        λ s x here e. (x, rw (placed x here, placed x here) refl, (refl, refl, refl, refl, refl));
  }
    where
      placed :
          (x : Resource S T)
          → (x.metadata.name ≡ req.name) × (x.metadata.namespace ≡ req.namespace)
          → same req (place_of x) ≡ true
      placed x (p, q) = rw (p, q, eq_refl req.namespace, eq_refl req.name) refl
