-- ===== src/Copy/Laws.antt =====
-- What the values of the types that the kinds share stand for, and that their copies are deep.
use project_easter.Base.{String, Bool, ◌≡◌, Option, List, [], or_default}
use project_easter.Base.Int.{ℤ}
use project_easter.Base.Exec.{pure}
use project_easter.Api.{
  StringMap, ObjectMeta, ResourceRequirements, Condition, StorageSpec, PersistenceSpec, IngressSpec,
  ServiceExposeSpec,
}
use project_easter.Base.Hoare.{Post-map}
use project_easter.Copy.Layout.{
  Ptr, Foreign, IngressSpecLayout, ServiceExposeSpecLayout, StatusLayout,
}
use project_easter.Copy.Heap.{Cell, zeroed, strings, Cmd}
use project_easter.Copy.Slots.{
  strings_slot, conditions_slot, storage_slot, persistence_slot, ingress_slot, expose_slot,
}
use project_easter.Copy.Into.{copy_slice, copy_map}
use project_easter.Copy.Kind.{
  Copiers, storage_spec_copy, persistence_spec_copy, ingress_spec_into, ingress_spec_copy,
  service_expose_spec_into, service_expose_spec_copy, status_into,
}
use project_easter.Copy.Deep.{Within, Grows, Grows-refl, Reading, IsDeep, bind}
use project_easter.Copy.Pointers.{ReadsPtr, ReadsAll, copy_pointer-IsDeep, copy_all-IsDeep}
use project_easter.Copy.Maps.{RangeLaws, ReadsMap, copy_map-IsDeep}

-- a value that leads to no address
abbrev pub Same : {C V : Type 0} → Reading C V V
Same P h v x = v ≡ x

-- The functions of other packages are deep copies too.
pub record CopierLaws {y : Foreign} {S : Type 0} (f : Copiers y S) : Type 1 where
  pub ReadsMeta : Reading (Cell y S) y.Meta ObjectMeta
  pub meta : IsDeep ReadsMeta f.meta_into
  pub ListMetaValue : Type 0
  pub ReadsListMeta : Reading (Cell y S) y.ListMeta ListMetaValue
  pub list_meta : IsDeep ReadsListMeta f.list_meta_into
  pub ReadsRequirements : Reading (Cell y S) y.Requirements ResourceRequirements
  pub requirements : IsDeep ReadsRequirements f.requirements_into
  pub condition : IsDeep Same f.condition_into
  pub range : RangeLaws f.range

module _ {C : Type 0} where
  pub pure-IsDeep : {V : Type 0} → IsDeep {C = C} {V = V} Same pure
  pure-IsDeep = record { moves = λ P Q h h' v x f r. r; copies = λ h v x r. (Grows-refl h, r) }

  -- A value seen as another one, such as a nil slice as an empty one.
  abbrev pub Seen : {V X Y : Type 0} → (X → Y) → Reading C V X → Reading C V Y
  Seen {X} see R P h v z = (x : X) × (see x ≡ z) × R P h v x

  pub Seen-IsDeep :
      {V X Y : Type 0} {R : Reading C V X} {into : V → Cmd C V} (see : X → Y)
      → IsDeep R into
      → IsDeep (Seen see R) into
  Seen-IsDeep {V} {X} {Y} {R} {into} see d = record {
    moves = λ P Q h h' v z f r. (r.0, r.1, d.moves P Q h h' v r.0 f r.2);
    copies = λ h v z r.
        Post-map (λ v' h'. Grows h h' × R (Within h.next h'.next) h' v' r.0)
          (λ v' h'. Grows h h' × Seen see R (Within h.next h'.next) h' v' z) (λ _ _. ⊥) (λ _ _. ⊥)
          (into v h) (λ v' h' q. (q.0, (r.0, r.1, q.1))) (λ e h' q. q) (d.copies h v r.0 r.2);
  }

module _ {y : Foreign} {S : Type 0} where
  abbrev pub ReadsStorage : Reading (Cell y S) Ptr (Option StorageSpec)
  ReadsStorage = ReadsPtr storage_slot Same

  pub storage_spec_copy-IsDeep : IsDeep ReadsStorage storage_spec_copy
  unfolding storage_spec_copy
  storage_spec_copy-IsDeep = copy_pointer-IsDeep storage_slot zeroed pure-IsDeep

  abbrev pub ReadsPersistence : Reading (Cell y S) Ptr (Option PersistenceSpec)
  ReadsPersistence = ReadsPtr persistence_slot Same

  pub persistence_spec_copy-IsDeep : IsDeep ReadsPersistence persistence_spec_copy
  unfolding persistence_spec_copy
  persistence_spec_copy-IsDeep = copy_pointer-IsDeep persistence_slot zeroed pure-IsDeep

  -- a map, where nil has no entries
  abbrev pub ReadsEntries : Reading (Cell y S) Ptr StringMap
  ReadsEntries = Seen (or_default []) (ReadsPtr strings_slot ReadsMap)

  abbrev pub ReadsIngress : Reading (Cell y S) IngressSpecLayout IngressSpec
  ReadsIngress P h v x =
      (v.host ≡ x.host)
      × (v.ingress_class_name ≡ x.ingress_class_name)
      × (v.tls_secret_name ≡ x.tls_secret_name)
      × ReadsEntries P h v.annotations x.annotations

  abbrev pub ReadsExpose : Reading (Cell y S) ServiceExposeSpecLayout ServiceExposeSpec
  ReadsExpose P h v x = (v.type ≡ x.type) × ReadsEntries P h v.annotations x.annotations

  -- a slice of conditions, where nil is empty
  abbrev pub ReadsConditions : Reading (Cell y S) Ptr (List Condition)
  ReadsConditions = Seen (or_default []) (ReadsPtr conditions_slot (ReadsAll Same))

-- A status of any of the six kinds.
pub record StatusValue : Type 0 where
  pub ready : Bool
  pub phase : String
  pub counts : List ℤ
  pub message : String
  pub conditions : List Condition

module _ {y : Foreign} {S : Type 0} where
  abbrev pub ReadsStatus : Reading (Cell y S) StatusLayout StatusValue
  ReadsStatus P h v x =
      (v.ready ≡ x.ready)
      × (v.phase ≡ x.phase)
      × (v.counts ≡ x.counts)
      × (v.message ≡ x.message)
      × ReadsConditions P h v.conditions x.conditions

module _ {y : Foreign} {S : Type 0} (f : Copiers y S) (laws : CopierLaws f) where
  entries-IsDeep : IsDeep {C = Cell y S} ReadsEntries (copy_map strings_slot (strings []) f.range)
  entries-IsDeep =
      Seen-IsDeep (or_default []) (copy_map-IsDeep strings_slot (strings []) f.range laws.range)

  ingress_spec_into-IsDeep : IsDeep ReadsIngress (ingress_spec_into f)
  unfolding ingress_spec_into
  ingress_spec_into-IsDeep = record {
    moves = λ P Q h h' v x m r. (r.0, r.1, r.2, entries-IsDeep.moves P Q h h' _ _ m r.3);
    copies = λ h v x r.
        bind _ _ (copy_map strings_slot (strings []) f.range v.annotations h) _
          (entries-IsDeep.copies h v.annotations x.annotations r.3)
          (λ p k q. (q.0, (r.0, r.1, r.2, q.1)));
  }

  pub ingress_spec_copy-IsDeep : IsDeep (ReadsPtr ingress_slot ReadsIngress) (ingress_spec_copy f)
  unfolding ingress_spec_copy
  ingress_spec_copy-IsDeep = copy_pointer-IsDeep ingress_slot zeroed ingress_spec_into-IsDeep

  service_expose_spec_into-IsDeep : IsDeep ReadsExpose (service_expose_spec_into f)
  unfolding service_expose_spec_into
  service_expose_spec_into-IsDeep = record {
    moves = λ P Q h h' v x m r. (r.0, entries-IsDeep.moves P Q h h' _ _ m r.1);
    copies = λ h v x r.
        bind _ _ (copy_map strings_slot (strings []) f.range v.annotations h) _
          (entries-IsDeep.copies h v.annotations x.annotations r.1) (λ p k q. (q.0, (r.0, q.1)));
  }

  pub service_expose_spec_copy-IsDeep :
      IsDeep (ReadsPtr expose_slot ReadsExpose) (service_expose_spec_copy f)
  unfolding service_expose_spec_copy
  service_expose_spec_copy-IsDeep =
      copy_pointer-IsDeep expose_slot zeroed service_expose_spec_into-IsDeep

  conditions-IsDeep :
      IsDeep {C = Cell y S} ReadsConditions (copy_slice conditions_slot zeroed f.condition_into)
  unfolding copy_slice
  conditions-IsDeep =
      Seen-IsDeep (or_default [])
        (copy_pointer-IsDeep conditions_slot zeroed (copy_all-IsDeep laws.condition))

  pub status_into-IsDeep : IsDeep ReadsStatus (status_into f)
  unfolding status_into
  status_into-IsDeep = record {
    moves = λ P Q h h' v x m r. (r.0, r.1, r.2, r.3, conditions-IsDeep.moves P Q h h' _ _ m r.4);
    copies = λ h v x r.
        bind _ _ (copy_slice conditions_slot zeroed f.condition_into v.conditions h) _
          (conditions-IsDeep.copies h v.conditions x.conditions r.4)
          (λ p k q. (q.0, (r.0, r.1, r.2, r.3, q.1)));
  }
