-- ===== src/Vendor/Reading.antt =====
-- Reading a manifest back: what a vendor's operator finds under the keys of its schema.
use project_easter.Base.{
  String, ◌≡◌, refl, ap, true, List, Option, none, some, [], ◌∷◌, arith, if◌then◌else◌, or_default,
}
use mathlib.Core.Path.{fun_ext}
use project_easter.Base.Value.{
  Value, Values, nil, cons, null, bool, int, float, arr, obj, str, Fields, end, field, lookup,
  under, as_str, as_arr, insert, insert_if, insert_some, lookup-insert, map_laws,
}
use project_easter.Api.{StringMap, ResourceList, ResourceRequirements}
use project_easter.Vendor.Schema.{
  Schema, word, labels, list_of, map_of, Shape, last, key, all_texts, fits, fits_some, Fits,
  insert_if-Fits, insert_some-Fits,
}
use project_easter.Vendor.Common.{
  non_empty, find, is_set, resource_list_json, resources_json, annotations_json, annotations_field,
  metadata_field,
}

-- A text, "" if the key is left out.
abbrev pub text : Option Value → String
text v = or_default "" (as_str v)

-- the text under a key of a map
abbrev pub texts : Option Value → String → Option String
texts v k = as_str (under k v)

-- A text that is to be left out if it is "".
abbrev pub given : String → Option String
given s = if is_set s then some s else none

pub as_str-given : (s : String) → as_str (if is_set s then some (str s) else none) ≡ given s
as_str-given s = ground arith

-- What is read off each item of a list.
abbrev pub items : {A : Type 0} → (Value → A) → Values → List A
items f nil = []
items f (cons v vs) = f v ∷ items f vs

abbrev pub each : {A : Type 0} → (Value → A) → Option Values → Option (List A)
each f none = none
each f (some vs) = some (items f vs)

pub texts-annotations_json :
    (m : StringMap) (k : String) → as_str (lookup k (annotations_json m)) ≡ find k m
unfolding annotations_json
texts-annotations_json [] k = refl
texts-annotations_json ((j, v) ∷ m) k =
    simp lookup-insert (ground (arith, texts-annotations_json m k))

-- Annotations by their names, if there are any.
abbrev pub annotations_of : Option Value → Option (String → Option String)
annotations_of none = none
annotations_of (some v) = some (texts (some v))

abbrev pub annotations : StringMap → Option (String → Option String)
annotations [] = none
annotations (x ∷ m) = some (λ k. find k (x ∷ m))

-- Annotations read back as they were given.
pub annotations_of-annotations_field :
    (m : StringMap) → annotations_of (annotations_field m) ≡ annotations m
annotations_of-annotations_field [] = refl
annotations_of-annotations_field (x ∷ m) = ap some (fun_ext (texts-annotations_json (x ∷ m)))

all_texts-insert :
    (k s : String) (m : Fields) → all_texts m ≡ true → all_texts (insert k (str s) m) ≡ true
unfolding all_texts insert
all_texts-insert k s end e = refl
all_texts-insert k s (field j (str t) m) e = ground (arith, all_texts-insert k s m e)
all_texts-insert k s (field j null m) e = ground arith
all_texts-insert k s (field j (bool b) m) e = ground arith
all_texts-insert k s (field j (int n) m) e = ground arith
all_texts-insert k s (field j (float t) m) e = ground arith
all_texts-insert k s (field j (arr vs) m) e = ground arith
all_texts-insert k s (field j (obj fs) m) e = ground arith

all_texts-annotations_json : (m : StringMap) → all_texts (annotations_json m) ≡ true
unfolding annotations_json all_texts
all_texts-annotations_json [] = refl
all_texts-annotations_json ((k, v) ∷ m) =
    all_texts-insert k v (annotations_json m) (all_texts-annotations_json m)

pub fits-annotations_field : (m : StringMap) → fits_some labels (annotations_field m) ≡ true
unfolding fits
fits-annotations_field [] = refl
fits-annotations_field (x ∷ m) = all_texts-annotations_json (x ∷ m)

-- metadata that has nothing but annotations
abbrev pub metadata_schema : Schema
metadata_schema = map_of (key "annotations" labels last)

pub fits-metadata_field : (m : StringMap) → fits_some metadata_schema (metadata_field m) ≡ true
unfolding fits
fits-metadata_field [] = refl
fits-metadata_field (x ∷ m) = ground (arith, all_texts-annotations_json (x ∷ m))

-- The CPU and the memory that are asked for, and the limits of both.
pub record Compute : Type 0 where
  pub cpu_request : Option String
  pub memory_request : Option String
  pub cpu_limit : Option String
  pub memory_limit : Option String

-- What the "resources" block of a manifest says.
pub compute_of : Option Value → Compute
compute_of v = record {
  cpu_request = texts (under "requests" v) "cpu";
  memory_request = texts (under "requests" v) "memory";
  cpu_limit = texts (under "limits" v) "cpu";
  memory_limit = texts (under "limits" v) "memory";
}

-- What the spec says.
pub compute : ResourceRequirements → Compute
compute r = record {
  cpu_request = find "cpu" r.requests;
  memory_request = find "memory" r.requests;
  cpu_limit = find "cpu" r.limits;
  memory_limit = find "memory" r.limits;
}

cpu-resource_list_json : (q : ResourceList) → texts (resource_list_json q) "cpu" ≡ find "cpu" q
unfolding resource_list_json insert_some insert
cpu-resource_list_json [] = refl
cpu-resource_list_json (x ∷ q) = ground arith

memory-resource_list_json :
    (q : ResourceList) → texts (resource_list_json q) "memory" ≡ find "memory" q
unfolding resource_list_json insert_some insert
memory-resource_list_json [] = refl
memory-resource_list_json (x ∷ q) = ground arith

requests-resources_json :
    (r : ResourceRequirements) → under "requests" (resources_json r) ≡ resource_list_json r.requests
unfolding resources_json insert_some insert
requests-resources_json r = ground arith

limits-resources_json :
    (r : ResourceRequirements) → under "limits" (resources_json r) ≡ resource_list_json r.limits
unfolding resources_json insert_some insert
limits-resources_json r = ground arith

pub compute_of-resources_json :
    (r : ResourceRequirements) → compute_of (resources_json r) ≡ compute r
unfolding compute_of compute
compute_of-resources_json r = ground (
  arith,
  requests-resources_json r,
  limits-resources_json r,
  cpu-resource_list_json r.requests,
  memory-resource_list_json r.requests,
  cpu-resource_list_json r.limits,
  memory-resource_list_json r.limits,
)

-- the CPU and the memory, and nothing else
abbrev amounts_schema : Schema
amounts_schema = map_of (key "cpu" word (key "memory" word last))

abbrev compute_shape : Shape
compute_shape = key "requests" amounts_schema (key "limits" amounts_schema last)

abbrev pub compute_schema : Schema
compute_schema = map_of compute_shape

fits-resource_list_json :
    (q : ResourceList) → fits_some amounts_schema (resource_list_json q) ≡ true
unfolding resource_list_json insert_some insert fits
fits-resource_list_json [] = refl
fits-resource_list_json (x ∷ q) = ground arith

Fits-non_empty :
    (shape : Shape) (m : Fields) → Fits shape m → fits_some (map_of shape) (non_empty m) ≡ true
unfolding fits
Fits-non_empty shape end h = refl
Fits-non_empty shape (field k v m) h = h.fitting

pub fits-resources_json :
    (r : ResourceRequirements) → fits_some compute_schema (resources_json r) ≡ true
unfolding resources_json fits
fits-resources_json r =
    Fits-non_empty compute_shape
      (insert_some "limits" (resource_list_json r.limits)
        (insert_some "requests" (resource_list_json r.requests) end))
      (insert_some-Fits _ _ (fits-resource_list_json r.limits)
        (insert_some-Fits _ _ (fits-resource_list_json r.requests) (record { fitting = refl })))

-- Annotations under the metadata of a nested object read back as they were given.
pub annotations_of-metadata_field :
    (m : StringMap) → annotations_of (under "annotations" (metadata_field m)) ≡ annotations m
annotations_of-metadata_field [] = refl
annotations_of-metadata_field (x ∷ m) = ap some (fun_ext (texts-annotations_json (x ∷ m)))

-- The first of a list.
abbrev pub first : Option Values → Option Value
first (some (cons v vs)) = some v
first _ = none

-- A volume: its size, its storage class and its access modes.
pub record Volume : Type 0 where
  pub size : Option String
  pub storage_class : Option String
  pub modes : Option (List (Option String))

-- What the spec of a PersistentVolumeClaim asks for.
pub volume_in : Option Value → Volume
volume_in v = record {
  size = as_str (under "storage" (under "requests" (under "resources" v)));
  storage_class = as_str (under "storageClassName" v);
  modes = each (λ x. as_str (some x)) (as_arr (under "accessModes" v));
}

-- A claim, as two of the adapters write it.
abbrev pub claim : String → String → Fields
claim size class = insert_if (is_set class) "storageClassName" (str class) (
    field "accessModes" (arr (cons (str "ReadWriteOnce") nil))
      (field "resources" (obj (field "requests" (obj (field "storage" (str size) end)) end)) end))

abbrev pub volume : String → String → Volume
volume size class = record {
  size = some size;
  storage_class = given class;
  modes = some (some "ReadWriteOnce" ∷ []);
}

abbrev claim_shape : Shape
claim_shape = key "accessModes" (list_of word) (
    key "resources" (map_of (key "requests" (map_of (key "storage" word last)) last))
      (key "storageClassName" word last))

abbrev pub claim_schema : Schema
claim_schema = map_of claim_shape

pub fits-claim : (size class : String) → fits claim_schema (obj (claim size class)) ≡ true
unfolding fits
fits-claim size class =
    let f : Fits claim_shape (claim size class) =
      insert_if-Fits _ _ _ refl (record { fitting = refl }) in
    f.fitting

pub volume_in-claim :
    (size class : String) → volume_in (some (obj (claim size class))) ≡ volume size class
unfolding volume_in
volume_in-claim size class =
    λ i. record { size = size_path i; storage_class = class_path i; modes = modes_path i }
  where
    fields : Option Value
    fields = some (obj (claim size class))

    size_path : as_str (under "storage" (under "requests" (under "resources" fields))) ≡ some size
    size_path = simp map_laws

    class_path : as_str (under "storageClassName" fields) ≡ given class
    class_path = simp map_laws (as_str-given class)

    modes_path :
        each (λ x. as_str (some x)) (as_arr (under "accessModes" fields))
        ≡ some (some "ReadWriteOnce" ∷ [])
    modes_path = simp map_laws
