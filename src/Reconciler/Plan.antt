-- ===== src/Reconciler/Plan.antt =====
-- What a run asks of the API server and of the recorder, as a list: the engine without its calls.
use project_easter.Base.{String, Option, none, some, List, [], ◌∷◌, ◌++◌, map, if◌then◌else◌}
use project_easter.Api.{GroupVersionKind, NamespacedName, named, Unstructured, Resource}
use project_easter.Platform.{Library, Client}
use project_easter.Reconciler.Adapter.{Adapter, ExtraResource, finalizer_name}
use project_easter.Reconciler.Calls.{
  Call, Event, read, read_object, update, update_status, patch, delete, event,
}
use project_easter.Reconciler.Contract.{listed}
use project_easter.Reconciler.Engine.{with_finalizers, has_finalizer, is_deleting, created}

-- A call without its result.
pub data Request (R : Type 0) : Type 0 where
  reads : NamespacedName → Request R
  looks : GroupVersionKind → NamespacedName → Request R
  updates : R → Request R
  reports : R → Request R
  applies : Unstructured → String → Request R
  deletes : GroupVersionKind → NamespacedName → Request R
  records : Event → Request R

abbrev pub request_of : {R E : Type 0} → Call R E → Request R
request_of (read k r) = reads k
request_of (read_object g k r) = looks g k
request_of (update x r) = updates x
request_of (update_status x r) = reports x
request_of (patch u m r) = applies u m
request_of (delete g k r) = deletes g k
request_of (event e) = records e

-- The requests of a run in their order.
abbrev pub requests : {R E : Type 0} → List (Call R E) → List (Request R)
requests [] = []
requests (x ∷ earlier) = requests earlier ++ request_of x ∷ []

-- How the API server answered the two questions on which a run depends: the target that was there,
-- and the object that the apply of the manifest gave.
pub record Answered : Type 0 where
  pub existing : Option Unstructured
  pub merged : Unstructured

module _ {S T : Type 0} (l : Library) (c : Client (Resource S T)) (a : Adapter (Resource S T)) where
  -- Apply what is desired, delete what is not.
  abbrev pub settle : String → ExtraResource → Request (Resource S T)
  settle namespace x = elim x.desired [
    | none ↦ deletes x.gvk (named namespace x.name)
    | some u ↦ applies u a.field_manager
  ]

  abbrev pub remove : String → ExtraResource → Request (Resource S T)
  remove namespace x = deletes x.gvk (named namespace x.name)

  module _ (cr : Resource S T) where
    abbrev name : String
    name = cr.metadata.name

    abbrev namespace : String
    namespace = cr.metadata.namespace

    abbrev target : String
    target = a.target_name name

    abbrev pub announced : Option Unstructured → List (Request (Resource S T))
    announced none = records (created l c a cr target) ∷ []
    announced (some u) = []

    abbrev pub converging : Answered → List (Request (Resource S T))
    converging x =
        looks a.gvk (named namespace target)
        ∷ applies (a.build_manifest cr target namespace name) a.field_manager
        ∷ (announced x.existing
            ++ (map (settle namespace) (listed a cr target namespace name)
                ++ reports (a.apply_status cr target (a.extract_status (some x.merged))).0 ∷ []))

    abbrev pub releasing : List (Request (Resource S T))
    releasing =
        deletes a.gvk (named namespace target)
        ∷ (map (remove namespace) (listed a cr target namespace name)
            ++ updates
                (with_finalizers (l.remove_finalizer cr.metadata.finalizers finalizer_name) cr)
              ∷ [])

    abbrev pub adopting : List (Request (Resource S T))
    adopting =
        updates (with_finalizers (l.add_finalizer cr.metadata.finalizers finalizer_name) cr) ∷ []

    -- What a run asks for after it has read the resource.
    abbrev pub plan : Answered → List (Request (Resource S T))
    plan x =
        if is_deleting cr
        then (if has_finalizer l c a cr then releasing else [])
        else (if has_finalizer l c a cr then converging x else adopting)
