-- ===== src/Reconciler/Contract.antt =====
-- What the engine relies on in an adapter, beyond its Go signatures.
use project_easter.Base.{String, ◌≡◌, false, none, some, List, [], ◌∷◌, map, All}
use project_easter.Api.{GroupVersionKind, Unstructured, Resource}
use project_easter.Reconciler.Adapter.{Adapter, ExtraResource, TargetStatus}

-- The identity of an object in the cluster.
pub record Key : Type 0 where
  pub gvk : GroupVersionKind
  pub namespace : String
  pub name : String

abbrev pub key_of : Unstructured → Key
key_of u = record { gvk = u.gvk; namespace = u.namespace; name = u.name }

abbrev pub extra_key : String → ExtraResource → Key
extra_key namespace x = record { gvk = x.gvk; namespace = namespace; name = x.name }

-- The labels of a managed object name the field manager and the owner.
abbrev pub IsLabelled : String → String → Unstructured → Type 0
IsLabelled manager owner u =
    u.labels ≡ ("app.kubernetes.io/managed-by", manager) ∷ ("paas.example.com/owner", owner) ∷ []

-- An object that is asked for is the one that the extra resource names, with the labels.
abbrev pub Matches : String → String → String → ExtraResource → Type 0
Matches manager owner namespace x = elim x.desired [
  | none ↦ Unit
  | some u ↦ (key_of u ≡ extra_key namespace x) × IsLabelled manager owner u
]

module _ {S T : Type 0} (a : Adapter (Resource S T)) where
  abbrev pub listed : Resource S T → String → String → String → List ExtraResource
  listed cr target namespace owner = elim a.extra_resources [
    | none ↦ []
    | some list ↦ list cr target namespace owner
  ]

  pub record IsLawful : Type 0 where
    -- the manifest is that of the target, with the labels
    pub built :
        (cr : Resource S T) (target namespace owner : String)
        → let u = a.build_manifest cr target namespace owner in
          (key_of u ≡ record { gvk = a.gvk; namespace = namespace; name = target })
          × IsLabelled a.field_manager owner u
    -- every extra resource asks for the object that it names
    pub matched :
        (cr : Resource S T) (target namespace owner : String)
        → All (Matches a.field_manager owner namespace) (listed cr target namespace owner)
    -- the extra resources are listed whatever the spec asks for
    pub stable :
        (cr cr' : Resource S T) (target namespace owner : String)
        → map (extra_key namespace) (listed cr target namespace owner)
          ≡ map (extra_key namespace) (listed cr' target namespace owner)
    -- only the status changes
    pub keeps :
        (cr : Resource S T) (target : String) (s : TargetStatus)
        → ((a.apply_status cr target s).0.metadata ≡ cr.metadata)
          × ((a.apply_status cr target s).0.spec ≡ cr.spec)
    -- no target, not ready
    pub waits : (a.extract_status none).ready ≡ false
