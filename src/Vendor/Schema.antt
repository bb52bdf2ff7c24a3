-- ===== src/Vendor/Schema.antt =====
-- Schemas of manifests: which keys an object may have, and what kind of value under each.
use project_easter.Base.{
  String, ◌≡◌, refl, Bool, true, false, ◌&&◌, ◌==◌, Option, none, some, eq_iff, arith,
  if◌then◌else◌,
}
use project_easter.Base.Value.{
  Value, bool, int, str, arr, obj, Values, nil, cons, Fields, end, field, insert, insert_if,
  insert_some,
}

mutual
  pub data Schema : Type 0 where
    -- no value at all
    nothing : Schema
    word : Schema
    number : Schema
    flag : Schema
    -- any keys, each with a text
    labels : Schema
    list_of : Schema → Schema
    map_of : Shape → Schema

  pub data Shape : Type 0 where
    last : Shape
    key : String → Schema → Shape → Shape

-- The schema of a key.
abbrev pub child : String → Shape → Schema
child k last = nothing
child k (key j s rest) = if j == k then s else child k rest

unfoldable pub all_texts : Fields → Bool
all_texts end = true
all_texts (field k (str s) m) = all_texts m
all_texts (field k _ m) = false

unfoldable mutual
  -- The value is of the kind that the schema says, and no object in it has another key.
  pub fits : Schema → Value → Bool
  fits word (str s) = true
  fits number (int n) = true
  fits flag (bool b) = true
  fits labels (obj m) = all_texts m
  fits (list_of s) (arr vs) = fits_each s vs
  fits (map_of shape) (obj m) = fits_fields shape m
  fits _ _ = false

  pub fits_each : Schema → Values → Bool
  fits_each s nil = true
  fits_each s (cons v vs) = fits s v && fits_each s vs

  pub fits_fields : Shape → Fields → Bool
  fits_fields shape end = true
  fits_fields shape (field k v m) = fits (child k shape) v && fits_fields shape m

abbrev pub fits_some : Schema → Option Value → Bool
fits_some o none = true
fits_some o (some v) = fits o v

-- The object has no other keys than the shape.
pub record Fits (shape : Shape) (m : Fields) : Type 0 where
  pub fitting : fits_fields shape m ≡ true

-- Writes of values that the schema allows.
fits-insert :
    (shape : Shape) (k : String) (v : Value) (m : Fields)
    → fits (child k shape) v ≡ true
    → fits_fields shape m ≡ true
    → fits_fields shape (insert k v m) ≡ true
unfolding insert fits
fits-insert shape k v end h e = ground arith
fits-insert shape k v (field j w m) h e = ground (arith, eq_iff j k, fits-insert shape k v m h)

module _ {shape : Shape} {m : Fields} where
  pub insert_if-Fits :
      (c : Bool) (k : String) (v : Value)
      → fits (child k shape) v ≡ true
      → Fits shape m
      → Fits shape (insert_if c k v m)
  unfolding insert_if
  insert_if-Fits true k v h e = record { fitting = fits-insert shape k v m h e.fitting }
  insert_if-Fits false k v h e = e

  pub insert_some-Fits :
      (k : String) (o : Option Value)
      → fits_some (child k shape) o ≡ true
      → Fits shape m
      → Fits shape (insert_some k o m)
  unfolding insert_some
  insert_some-Fits k none h e = e
  insert_some-Fits k (some v) h e = record { fitting = fits-insert shape k v m h e.fitting }

-- An object that is a spec alone.
pub spec-Fits :
    {shape : Shape} {m : Fields}
    → Fits shape m
    → Fits (key "spec" (map_of shape) last) (field "spec" (obj m) end)
unfolding fits
spec-Fits e = record { fitting = rw e.fitting refl }
