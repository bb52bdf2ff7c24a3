-- ===== src/Reconciler/Scope.antt =====
-- Which objects a custom resource owns, and which calls stay within them.
use project_easter.Base.{◌≡◌, List, ◌∷◌, map, Any}
use project_easter.Api.{Resource}
use project_easter.Platform.{Client}
use project_easter.Reconciler.Adapter.{Adapter}
use project_easter.Reconciler.Calls.{
  Call, read, read_object, update, update_status, patch, delete, event,
}
use project_easter.Reconciler.Contract.{Key, key_of, extra_key, IsLabelled, listed}
use project_easter.Reconciler.Engine.{with_finalizers}

module _ {S T : Type 0} (a : Adapter (Resource S T)) (cr : Resource S T) where
  abbrev pub target : Key
  target = record {
    gvk = a.gvk;
    namespace = cr.metadata.namespace;
    name = a.target_name cr.metadata.name;
  }

  abbrev pub extra_keys : List Key
  extra_keys =
      map (extra_key cr.metadata.namespace)
        (listed a cr (a.target_name cr.metadata.name) cr.metadata.namespace cr.metadata.name)

  -- The target, and every extra resource that the adapter may ask for.
  abbrev pub Owns : Key → Type 0
  Owns k = Any (λ j. k ≡ j) (target ∷ extra_keys)

module _ {S T : Type 0} (c : Client (Resource S T)) (a : Adapter (Resource S T))
    (cr : Resource S T) where
  -- A call that reads or writes an object that the resource owns, or the resource itself: its
  -- finalizers or its status. What is applied has the labels and the field manager of the adapter.
  abbrev pub Touches : Call (Resource S T) c.Error → Type 0
  Touches (read k r) = Unit
  Touches (read_object g k r) =
      Owns a cr (record { gvk = g; namespace = k.namespace; name = k.name })
  Touches (update x r) = with_finalizers cr.metadata.finalizers x ≡ cr
  Touches (update_status x r) = (x.metadata ≡ cr.metadata) × (x.spec ≡ cr.spec)
  Touches (patch u m r) =
      Owns a cr (key_of u) × IsLabelled a.field_manager cr.metadata.name u × (m ≡ a.field_manager)
  Touches (delete g k r) = Owns a cr (record { gvk = g; namespace = k.namespace; name = k.name })
  Touches (event e) = Unit
