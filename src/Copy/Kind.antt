-- ===== src/Copy/Kind.antt =====
-- The generated functions that differ between kinds only in the type of the spec, and those of the types
-- that the kinds share. `*out = *in` is the value itself, the fields that are copied are then replaced.
use project_easter.Base.{Option, none, some, []}
use project_easter.Base.Exec.{pure, ◌>>=◌}
use project_easter.Api.{
  StringMap, Condition, StorageSpec, PersistenceSpec, DatabaseSpec, MonitoringSpec,
}
use project_easter.Copy.Layout.{
  Addr, Ptr, Foreign, IngressSpecLayout, ServiceExposeSpecLayout, StatusLayout, ResourceLayout,
  ListLayout,
}
use project_easter.Copy.Heap.{Cell, zeroed, strings, Cmd}
use project_easter.Copy.Slots.{
  strings_slot, conditions_slot, storage_slot, persistence_slot, database_slot, monitoring_slot,
  ingress_slot, expose_slot, resources_slot,
}
use project_easter.Copy.Into.{copy_pointer, copy_slice, copy_map}

-- `DeepCopyInto` of the types of other packages, and the order in which `range` gives a map's entries.
pub record Copiers (y : Foreign) (S : Type 0) : Type 0 where
  pub meta_into : y.Meta → Cmd (Cell y S) y.Meta
  pub list_meta_into : y.ListMeta → Cmd (Cell y S) y.ListMeta
  pub requirements_into : y.Requirements → Cmd (Cell y S) y.Requirements
  pub condition_into : Condition → Cmd (Cell y S) Condition
  pub range : StringMap → StringMap

-- A runtime.Object: the type that the interface value holds, and the pointer.
pub data Object : Type 0 where
  of_resource : Addr → Object
  of_list : Addr → Object

module _ {y : Foreign} {S : Type 0} where
  -- `DatabaseSpec`, `MonitoringSpec`, `PersistenceSpec`, `StorageSpec`: no pointers
  abbrev pub database_spec_into : DatabaseSpec → Cmd (Cell y S) DatabaseSpec
  database_spec_into = pure

  unfoldable pub database_spec_copy : Ptr → Cmd (Cell y S) Ptr
  database_spec_copy = copy_pointer database_slot zeroed database_spec_into

  abbrev pub monitoring_spec_into : MonitoringSpec → Cmd (Cell y S) MonitoringSpec
  monitoring_spec_into = pure

  unfoldable pub monitoring_spec_copy : Ptr → Cmd (Cell y S) Ptr
  monitoring_spec_copy = copy_pointer monitoring_slot zeroed monitoring_spec_into

  abbrev pub persistence_spec_into : PersistenceSpec → Cmd (Cell y S) PersistenceSpec
  persistence_spec_into = pure

  unfoldable pub persistence_spec_copy : Ptr → Cmd (Cell y S) Ptr
  persistence_spec_copy = copy_pointer persistence_slot zeroed persistence_spec_into

  abbrev pub storage_spec_into : StorageSpec → Cmd (Cell y S) StorageSpec
  storage_spec_into = pure

  unfoldable pub storage_spec_copy : Ptr → Cmd (Cell y S) Ptr
  storage_spec_copy = copy_pointer storage_slot zeroed storage_spec_into

module _ {y : Foreign} {S : Type 0} (f : Copiers y S) where
  unfoldable pub ingress_spec_into : IngressSpecLayout → Cmd (Cell y S) IngressSpecLayout
  ingress_spec_into v = do
    annotations ← copy_map strings_slot (strings []) f.range v.annotations
    pure (record v { annotations = annotations })

  unfoldable pub ingress_spec_copy : Ptr → Cmd (Cell y S) Ptr
  unfolding ingress_spec_into
  ingress_spec_copy = copy_pointer ingress_slot zeroed ingress_spec_into

  unfoldable pub service_expose_spec_into :
      ServiceExposeSpecLayout → Cmd (Cell y S) ServiceExposeSpecLayout
  service_expose_spec_into v = do
    annotations ← copy_map strings_slot (strings []) f.range v.annotations
    pure (record v { annotations = annotations })

  unfoldable pub service_expose_spec_copy : Ptr → Cmd (Cell y S) Ptr
  unfolding service_expose_spec_into
  service_expose_spec_copy = copy_pointer expose_slot zeroed service_expose_spec_into

  -- `DeepCopyInto` of a status
  unfoldable pub status_into : StatusLayout → Cmd (Cell y S) StatusLayout
  status_into v = do
    conditions ← copy_slice conditions_slot zeroed f.condition_into v.conditions
    pure (record v { conditions = conditions })

  -- `DeepCopyInto` of a custom resource, by those of its spec and its status
  unfoldable pub resource_into :
      (S → Cmd (Cell y S) S)
      → (StatusLayout → Cmd (Cell y S) StatusLayout)
      → ResourceLayout y S StatusLayout
      → Cmd (Cell y S) (ResourceLayout y S StatusLayout)
  resource_into into_spec into_status v = do
    metadata ← f.meta_into v.metadata
    spec ← into_spec v.spec
    status ← into_status v.status
    pure (record v { metadata = metadata; spec = spec; status = status })

  -- `DeepCopyInto` of a list, by that of its items
  unfoldable pub list_into :
      (ResourceLayout y S StatusLayout → Cmd (Cell y S) (ResourceLayout y S StatusLayout))
      → ListLayout y
      → Cmd (Cell y S) (ListLayout y)
  list_into into v = do
    list_meta ← f.list_meta_into v.list_meta
    items ← copy_slice resources_slot zeroed into v.items
    pure (record v { list_meta = list_meta; items = items })

-- An interface value that is nil where the pointer is, and not an interface that holds a nil pointer.
abbrev pub object : (Addr → Object) → Ptr → Option Object
object of none = none
object of (some a) = some (of a)

module _ {C : Type 0} where
  -- `if c := in.DeepCopy(); c != nil { return c }; return nil`
  unfoldable pub copy_object : (Addr → Object) → (Ptr → Cmd C Ptr) → Ptr → Cmd C (Option Object)
  copy_object of copy p = do c ← copy p; pure (object of c)
