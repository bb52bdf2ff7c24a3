-- ===== src/Copy/Into.antt =====
-- The steps of which the generated functions are made: a pointer, a slice or a map that is not nil is
-- replaced by a new one with a copy of what is behind it.
use project_easter.Base.{String, none, some, List, [], ◌∷◌, ◌==◌, if◌then◌else◌}
use project_easter.Base.Exec.{pure, ◌>>=◌, ◌>>◌}
use project_easter.Api.{StringMap}
use project_easter.Copy.Layout.{Ptr}
use project_easter.Copy.Heap.{Slot, Cmd, load, store, allocate}

-- `m[k] = v`
abbrev pub put : String → String → StringMap → StringMap
put k v [] = (k, v) ∷ []
put k v ((j, w) ∷ m) = let rest = put k v m in if j == k then (k, v) ∷ m else (j, w) ∷ rest

-- the loop over the entries of a map, from the map that is made so far
abbrev pub fill : StringMap → StringMap → StringMap
fill [] m = m
fill ((k, v) ∷ es) m = fill es (put k v m)

module _ {C V : Type 0} where
  -- `if in == nil { return nil }; out := new(T); in.DeepCopyInto(out); return out`
  unfoldable pub copy_pointer : Slot C V → C → (V → Cmd C V) → Ptr → Cmd C Ptr
  unfolding load store allocate
  copy_pointer s zero into none = pure none
  copy_pointer s zero into (some a) = do
    p ← allocate zero
    v ← load s a
    v' ← into v
    store s p v'
    pure (some p)

  -- `for i := range *in { (*in)[i].DeepCopyInto(&(*out)[i]) }`
  abbrev pub copy_all : (V → Cmd C V) → List V → Cmd C (List V)
  copy_all into [] = pure []
  copy_all into (v ∷ vs) = do v' ← into v; vs' ← copy_all into vs; pure (v' ∷ vs')

module _ {C V : Type 0} where
  -- `*out = make([]T, len(*in))` and the loop over the items
  unfoldable pub copy_slice : Slot C (List V) → C → (V → Cmd C V) → Ptr → Cmd C Ptr
  unfolding copy_pointer
  copy_slice s zero into = copy_pointer s zero (copy_all into)

module _ {C : Type 0} where
  -- `*out = make(map[string]string, len(*in))` and the loop over the entries, in the order of `range`
  unfoldable pub copy_map : Slot C StringMap → C → (StringMap → StringMap) → Ptr → Cmd C Ptr
  unfolding copy_pointer
  copy_map s zero range = copy_pointer s zero (λ m. pure (fill (range m) []))
