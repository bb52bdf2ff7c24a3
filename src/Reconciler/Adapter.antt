-- ===== src/Reconciler/Adapter.antt =====
-- `TargetStatus`, `Adapter`, `ExtraResource` and `ExtraResourcesAdapter` of
-- internal/reconciler/reconciler.go.
use project_easter.Base.{String, Bool, Option, List}
use project_easter.Base.Int.{ℤ}
use project_easter.Api.{GroupVersionKind, Unstructured}

abbrev pub finalizer_name : String
finalizer_name = "paas.example.com/cleanup"

pub record TargetStatus : Type 0 where
  pub phase : String
  pub ready : Bool
  pub observed_count : ℤ
  pub ready_count : ℤ

pub record ExtraResource : Type 0 where
  pub gvk : GroupVersionKind
  pub name : String
  pub desired : Option Unstructured

-- The methods for custom resources of type `R`. `extract_status` takes a pointer that may be nil;
-- `apply_status` gives the changed resource beside its message; `extra_resources` is there if the
-- adapter implements `ExtraResourcesAdapter`.
pub record Adapter (R : Type 0) : Type 0 where
  pub gvk : GroupVersionKind
  pub target_name : String → String
  pub object_kind : String
  pub field_manager : String
  pub build_manifest : R → String → String → String → Unstructured
  pub extract_status : Option Unstructured → TargetStatus
  pub apply_status : R → String → TargetStatus → R × String
  pub extra_resources : Option (R → String → String → String → List ExtraResource)
