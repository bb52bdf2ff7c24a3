-- ===== src/Api/Meta.antt =====
-- Kubernetes types, by the fields that the operator reads or writes. An `Unstructured` is given by
-- what its setters set (the group, version and kind, name, namespace, labels, annotations; "" or no
-- entry where a field is unset) and by the rest of its content, such as "spec" and "status".
use project_easter.Base.{String, Option, List}
use project_easter.Base.Int.{ℤ}
use project_easter.Base.Value.{Fields}

-- schema.GroupVersionKind
pub record GroupVersionKind : Type 0 where
  pub group : String
  pub version : String
  pub kind : String

-- types.NamespacedName
pub record NamespacedName : Type 0 where
  pub namespace : String
  pub name : String

-- a `map[string]string` by its entries
abbrev pub StringMap : Type 0
StringMap = List (String × String)

-- A deletion timestamp is there once deletion is requested; the operator asks only whether it is.
pub record ObjectMeta : Type 0 where
  pub name : String
  pub namespace : String
  pub generation : ℤ
  pub resource_version : String
  pub deletion_timestamp : Option String
  pub finalizers : List String

-- metav1.Condition; a status is "True", "False" or "Unknown"
pub record Condition : Type 0 where
  pub type : String
  pub status : String
  pub reason : String
  pub message : String
  pub observed_generation : ℤ
  pub last_transition_time : String

pub record Unstructured : Type 0 where
  pub gvk : GroupVersionKind
  pub name : String
  pub namespace : String
  pub labels : StringMap
  pub annotations : StringMap
  pub object : Fields

-- A `resource.Quantity` by the text that its `String` method gives, all that is read of it; a
-- `corev1.ResourceList` maps resource names to quantities.
abbrev pub ResourceList : Type 0
ResourceList = StringMap

-- corev1.ResourceRequirements
pub record ResourceRequirements : Type 0 where
  pub requests : ResourceList
  pub limits : ResourceList

-- A custom resource: each of the six types of api/v1alpha1 has metadata, a spec and a status.
pub record Resource (Spec Status : Type 0) : Type 0 where
  pub metadata : ObjectMeta
  pub spec : Spec
  pub status : Status

-- `name` in `namespace`
abbrev pub named : String → String → NamespacedName
named namespace name = record { namespace = namespace; name = name }
