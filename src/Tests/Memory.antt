-- ===== src/Tests/Memory.antt =====
-- An API server in memory, and what it keeps.
pub mod Laws
pub mod Effects
pub mod Idle
pub mod Six
use project_easter.Base.{
  eq_refl, ◌≡◌, refl, Bool, true, false, ◌&&◌, Option, none, some, List, [], ◌∷◌, ◌==◌, eq_iff,
  arith, if◌then◌else◌, Bool-cases, inl, inr, ◌⊎◌,
}
use project_easter.Base.Value.{lookup, insert_some}
use project_easter.Base.Exec.{Result, ok, err}
use project_easter.Api.{GroupVersionKind, NamespacedName, named, Unstructured, Resource}
use project_easter.Platform.{Library, Client}
use project_easter.Reconciler.Adapter.{finalizer_name}
use project_easter.Reconciler.Contract.{Key, key_of}
use project_easter.Reconciler.Progress.{IsAvailable}
use project_easter.Reconciler.Settling.{ReadsBack}
use project_easter.Reconciler.Store.{Store, StoreLaws, Guarded}

abbrev is_kind : GroupVersionKind → GroupVersionKind → Bool
is_kind g h = (g.group == h.group) && ((g.version == h.version) && (g.kind == h.kind))

abbrev is_at : GroupVersionKind → NamespacedName → Unstructured → Bool
is_at g k u = is_kind u.gvk g && ((u.namespace == k.namespace) && (u.name == k.name))

abbrev pub object_at : GroupVersionKind → NamespacedName → List Unstructured → Option Unstructured
object_at g k [] = none
object_at g k (u ∷ us) = if is_at g k u then some u else object_at g k us

abbrev pub drop_at : GroupVersionKind → NamespacedName → List Unstructured → List Unstructured
drop_at g k [] = []
drop_at g k (u ∷ us) = let rest = drop_at g k us in if is_at g k u then rest else u ∷ rest

pub data Failure : Type 0 where
  not_found : Failure

-- The custom resources by name, and any number of objects.
pub record Memory (R : Type 0) : Type 0 where
  pub resources : NamespacedName → Option R
  pub objects : List Unstructured

abbrev place : Unstructured → NamespacedName
place u = record { namespace = u.namespace; name = u.name }

-- An applied object keeps the status that the stored one has.
abbrev merge : Option Unstructured → Unstructured → Unstructured
merge none u = u
merge (some old) u = record u {
  object = insert_some "status" (lookup "status" old.object) u.object;
}

abbrev found : {A : Type 0} → Option A → Result Failure A
found none = err not_found
found (some x) = ok x

-- Deletes what is there.
abbrev delete_result : Option Unstructured → Result Failure (Unit {0})
delete_result none = err not_found
delete_result (some u) = ok tt

abbrev same : NamespacedName → NamespacedName → Bool
same n k = (n.namespace == k.namespace) && (n.name == k.name)

module _ {S T : Type 0} where
  abbrev pub place_of : Resource S T → NamespacedName
  place_of x = record { namespace = x.metadata.namespace; name = x.metadata.name }

  -- the resource, if it is of that name
  abbrev matching : NamespacedName → Option (Resource S T) → Option (Resource S T)
  matching n none = none
  matching n (some x) = if same n (place_of x) then some x else none

  abbrev pub put :
      Resource S T
      → (NamespacedName → Option (Resource S T))
      → NamespacedName
      → Option (Resource S T)
  put x f n = if same n (place_of x) then some x else f n

  -- a resource alone
  abbrev pub holding : Resource S T → List Unstructured → Memory (Resource S T)
  holding x us = record { resources = put x (λ _. none); objects = us }

  -- An update of the status leaves the rest of the resource as it is.
  abbrev with_status : Resource S T → Option (Resource S T) → Option (Resource S T)
  with_status x none = none
  with_status x (some old) = some (record old { status = x.status })

  abbrev put_status :
      Resource S T
      → (NamespacedName → Option (Resource S T))
      → NamespacedName
      → Option (Resource S T)
  put_status x f n = if same n (place_of x) then with_status x (f n) else f n

module _ (S T : Type 0) where
  abbrev pub memory : Client (Resource S T)
  memory = record {
    Cluster = Memory (Resource S T);
    Error = Failure;
    is_not_found = λ e. true;
    ignore_not_found = λ e. none;
    get = λ s k. found (matching k (s.resources k));
    get_object = λ s g k. found (object_at g k s.objects);
    update = λ s x. (ok tt, record s { resources = put x s.resources });
    update_status = λ s x. (ok tt, record s { resources = put_status x s.resources });
    patch = λ s u m.
        let v = merge (object_at u.gvk (place u) s.objects) u in
        (ok v, record s { objects = v ∷ drop_at u.gvk (place u) s.objects });
    delete = λ s g k.
        (delete_result (object_at g k s.objects), record s { objects = drop_at g k s.objects });
  }

  pub memory-IsAvailable : IsAvailable memory
  memory-IsAvailable = record {
    gets = λ s k. ground arith;
    gets_object = λ s g k. ground arith;
    deletes = λ s g k. ground arith;
    updates = λ s x. tt;
    updates_status = λ s x. tt;
    patches = λ s u m. tt;
    ignores = λ e h. refl;
  }

  -- An object is live if it is there.
  abbrev pub shelf : Store memory
  shelf = record {
    stored = λ s n. matching n (s.resources n);
    IsLive =
        λ s k. (u : Unstructured) × (object_at k.gvk (named k.namespace k.name) s.objects ≡ some u);
  }
