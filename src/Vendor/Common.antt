-- ===== src/Vendor/Common.antt =====
-- Code that the vendor packages repeat, each in its own copy: `resourceListJSON`, the "resources"
-- block and the labels of `BuildManifest`, the scan of `ExtractStatus` for a condition, and the
-- Ready condition of `ApplyStatus`.
use project_easter.Base.{
  String, Bool, true, false, not, Option, none, some, List, [], ◌∷◌, ◌==◌, if◌then◌else◌,
  or_default,
}
use project_easter.Base.Int.{ℤ, pos, int32}
use project_easter.Base.Value.{
  Value, str, obj, Values, nil, cons, Fields, end, field, lookup, insert, insert_some, as_str,
}
use project_easter.Api.{StringMap, ResourceList, ResourceRequirements, Condition, Unstructured}
use project_easter.Platform.{Library}
use project_easter.Reconciler.Adapter.{TargetStatus}

-- `m[k]` of a `map[string]string`
abbrev pub find : String → StringMap → Option String
find k [] = none
find k ((j, v) ∷ m) = if j == k then some v else find k m

abbrev pub is_set : String → Bool
is_set s = not (s == "")

abbrev pub is_empty : StringMap → Bool
is_empty [] = true
is_empty (_ ∷ _) = false

abbrev pub strings : Option String → Option Value
strings none = none
strings (some s) = some (str s)

-- a map, or nil if it has no entry
abbrev pub non_empty : Fields → Option Value
non_empty end = none
non_empty (field k v m) = some (obj (field k v m))

-- `resourceListJSON`
unfoldable pub resource_list_json : ResourceList → Option Value
resource_list_json [] = none
resource_list_json (q ∷ qs) =
    let list = q ∷ qs in
    non_empty (
      insert_some "memory" (strings (find "memory" list))
        (insert_some "cpu" (strings (find "cpu" list)) end))

-- The "resources" block, if one of its parts is there.
unfoldable pub resources_json : ResourceRequirements → Option Value
resources_json r = non_empty (
    insert_some "limits" (resource_list_json r.limits)
      (insert_some "requests" (resource_list_json r.requests) end))

-- The loop that copies annotations into a `map[string]any`.
unfoldable pub annotations_json : StringMap → Fields
annotations_json [] = end
annotations_json ((k, v) ∷ m) = insert k (str v) (annotations_json m)

-- A map of annotations as a field that is left out when there are none.
abbrev pub annotations_field : StringMap → Option Value
annotations_field [] = none
annotations_field (x ∷ m) = some (obj (annotations_json (x ∷ m)))

-- The metadata of a nested object that has nothing but annotations.
abbrev pub metadata_field : StringMap → Option Value
metadata_field [] = none
metadata_field (x ∷ m) = some (obj (field "annotations" (obj (annotations_json (x ∷ m))) end))

-- The labels of every object that the operator manages.
abbrev pub managed_labels : String → String → StringMap
managed_labels manager owner =
    ("app.kubernetes.io/managed-by", manager) ∷ ("paas.example.com/owner", owner) ∷ []

-- A phase as the target reports it, "Unknown" if it reports none.
abbrev pub or_unknown : Option String → String
or_unknown none = "Unknown"
or_unknown (some p) = if p == "" then "Unknown" else p

-- The status that `ExtractStatus` gives for a nil object.
abbrev pub unknown_status : TargetStatus
unknown_status = record {
  phase = "Unknown";
  ready = false;
  observed_count = pos 0;
  ready_count = pos 0;
}

-- A number of the object as an `int32`, 0 if it is not there.
abbrev pub count_at : Library → Unstructured → List String → ℤ
count_at l u path = int32 (or_default (pos 0) (l.nested_int64 u.object path))

-- `x, _ := m[k].(string)`
abbrev pub text_at : String → Fields → String
text_at k m = or_default "" (as_str (lookup k m))

-- The loop over a target's conditions: whether the first one of type `t` is True, and its reason.
unfoldable pub scan_conditions : String → Values → Bool × String
scan_conditions t nil = (false, "Unknown")
scan_conditions t (cons (obj m) vs) =
    let rest = scan_conditions t vs in
    if text_at "type" m == t
    then (text_at "status" m == "True", or_unknown (some (text_at "reason" m)))
    else rest
scan_conditions t (cons _ vs) = scan_conditions t vs

-- The Ready condition, its reason by whether the target is ready.
abbrev pub ready_condition : String → String → String → ℤ → Bool → Condition
ready_condition ready_reason waiting_reason message generation ready = record {
  type = "Ready";
  status = if ready then "True" else "False";
  reason = if ready then ready_reason else waiting_reason;
  message = message;
  observed_generation = generation;
  last_transition_time = "";
}
