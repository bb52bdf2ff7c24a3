-- ===== src/Copy/Valkey.antt =====
-- The generated functions of ValkeyCluster, its list, its spec and its status.
pub mod Deep
use project_easter.Base.{Option}
use project_easter.Base.Exec.{Exec, pure, ◌>>=◌}
use project_easter.Copy.Layout.{
  Ptr, Foreign, ValkeyClusterSpecLayout, StatusLayout, ResourceLayout, ListLayout,
}
use project_easter.Copy.Heap.{Cell, zeroed, Cmd}
use project_easter.Copy.Slots.{spec_slot, status_slot, resource_slot, list_slot}
use project_easter.Copy.Into.{copy_pointer}
use project_easter.Copy.Kind.{
  Copiers, Object, of_resource, of_list, service_expose_spec_copy, resource_into, list_into,
  copy_object,
}
use project_easter.Copy.Kind

module _ {y : Foreign} (f : Copiers y (ValkeyClusterSpecLayout y)) where
  abbrev Spec : Type 0
  Spec = ValkeyClusterSpecLayout y

  abbrev C : Type 0
  C = Cell y Spec

  unfoldable pub spec_into : Spec → Cmd C Spec
  spec_into v = do
    resources ← f.requirements_into v.resources
    expose ← service_expose_spec_copy f v.expose
    pure (record v { resources = resources; expose = expose })

  unfoldable pub spec_copy : Ptr → Cmd C Ptr
  unfolding spec_into
  spec_copy = copy_pointer spec_slot zeroed spec_into

  unfoldable pub status_into : StatusLayout → Cmd C StatusLayout
  status_into = Kind.status_into f

  unfoldable pub status_copy : Ptr → Cmd C Ptr
  unfolding status_into
  status_copy = copy_pointer status_slot zeroed status_into

  unfoldable pub into :
      ResourceLayout y Spec StatusLayout → Cmd C (ResourceLayout y Spec StatusLayout)
  unfolding spec_into status_into
  into = resource_into f spec_into status_into

  unfoldable pub copy : Ptr → Cmd C Ptr
  unfolding into
  copy = copy_pointer resource_slot zeroed into

  unfoldable pub copy_as_object : Ptr → Cmd C (Option Object)
  unfolding copy
  copy_as_object = copy_object of_resource copy

  unfoldable pub items_into : ListLayout y → Cmd C (ListLayout y)
  unfolding into
  items_into = list_into f into

  unfoldable pub list_copy : Ptr → Cmd C Ptr
  unfolding items_into
  list_copy = copy_pointer list_slot zeroed items_into

  unfoldable pub list_copy_as_object : Ptr → Cmd C (Option Object)
  unfolding list_copy
  list_copy_as_object = copy_object of_list list_copy
