-- ===== src/Base/Value.antt =====
-- JSON values, as an `unstructured.Unstructured` holds them (`map[string]any`, `[]any`).
use mathlib.Core.Path.{◌≡◌, refl}
use mathlib.Core.Bool.{Bool, true, false}
use mathlib.Core.Option.{Option, none, some}
use mathlib.Core.List.{List, [], ◌∷◌}
use Prim.Native.String.{String}
use native.Mathlib.Omega.{arith}
use text.Mathlib.Text.{◌==◌}
use text.Mathlib.TextEquality.{eq_iff}
use project_easter.Base.Tests.{if◌then◌else◌}
use project_easter.Base.Int.{ℤ}

-- A number is an `int64`, or a `float64` by its text.
mutual
  pub data Value : Type 0 where
    null : Value
    bool : Bool → Value
    int : ℤ → Value
    float : String → Value
    str : String → Value
    arr : Values → Value
    obj : Fields → Value

  pub data Values : Type 0 where
    nil : Values
    cons : Value → Values → Values

  pub data Fields : Type 0 where
    end : Fields
    field : String → Value → Fields → Fields

-- `m[k]`
abbrev pub lookup : String → Fields → Option Value
lookup k end = none
lookup k (field j v m) = if j == k then some v else lookup k m

-- `m[k] = v`
unfoldable pub insert : String → Value → Fields → Fields
insert k v end = field k v end
insert k v (field j w m) = if j == k then field k v m else field j w (insert k v m)

-- `if c { m[k] = v }`
unfoldable pub insert_if : Bool → String → Value → Fields → Fields
insert_if c k v m = if c then insert k v m else m

pub lookup-insert :
    (k j : String) (v : Value) (m : Fields)
    → lookup j (insert k v m) ≡ (if k == j then some v else lookup j m)
unfolding insert
lookup-insert k j v end = refl
lookup-insert k j v (field i w m) =
    ground (arith, eq_iff k j, eq_iff i k, eq_iff i j, lookup-insert k j v m)

-- The key is compared first, so that the law computes away at two literal keys that differ.
pub lookup-insert_if :
    (c : Bool) (k j : String) (v : Value) (m : Fields)
    → lookup j (insert_if c k v m)
      ≡ (if k == j then (if c then some v else lookup j m) else lookup j m)
unfolding insert_if
lookup-insert_if true k j v m = lookup-insert k j v m
lookup-insert_if false k j v m = ground arith

-- The value under a key of a value that is an object.
abbrev pub under : String → Option Value → Option Value
under k (some (obj m)) = lookup k m
under k _ = none

-- The value behind a path of keys.
abbrev pub follow : List String → Option Value → Option Value
follow [] v = v
follow (k ∷ path) v = follow path (under k v)

abbrev pub nested : Fields → List String → Option Value
nested m path = follow path (some (obj m))

abbrev pub as_str : Option Value → Option String
as_str (some (str s)) = some s
as_str _ = none

abbrev pub as_int : Option Value → Option ℤ
as_int (some (int n)) = some n
as_int _ = none

abbrev pub as_bool : Option Value → Option Bool
as_bool (some (bool b)) = some b
as_bool _ = none

abbrev pub as_arr : Option Value → Option Values
as_arr (some (arr vs)) = some vs
as_arr _ = none

-- `if v != nil { m[k] = *v }`
unfoldable pub insert_some : String → Option Value → Fields → Fields
insert_some k none m = m
insert_some k (some v) m = insert k v m

abbrev pub or_else : Option Value → Option Value → Option Value
or_else none o = o
or_else (some v) o = some v

pub lookup-insert_some :
    (k j : String) (v : Option Value) (m : Fields)
    → lookup j (insert_some k v m) ≡ (if k == j then or_else v (lookup j m) else lookup j m)
unfolding insert_some
lookup-insert_some k j none m = ground arith
lookup-insert_some k j (some v) m = lookup-insert k j v m

-- How a key reads in a map that such writes have built.
pub ruleset map_laws = (lookup-insert, lookup-insert_if, lookup-insert_some)

pub or_else-none : (o : Option Value) → or_else o none ≡ o
or_else-none none = refl
or_else-none (some v) = refl
