-- ===== src/Copy/Valkey/Deep.antt =====
-- The copies of a ValkeyCluster and of a list of them are deep.
use project_easter.Base.{◌≡◌, Option, List, [], ◌∷◌}
use project_easter.Api.{ValkeyClusterSpec, ValkeyClusterStatus}
use project_easter.Copy.Layout.{Ptr, Foreign, TypeMeta, ValkeyClusterSpecLayout}
use project_easter.Copy.Heap.{Cell, zeroed}
use project_easter.Copy.Slots.{expose_slot, list_slot, resource_slot}
use project_easter.Copy.Kind.{Copiers, service_expose_spec_copy}
use project_easter.Copy.Deep.{Reading, IsDeep, bind, lasts, step}
use project_easter.Copy.Pointers.{ReadsPtr, copy_pointer-IsDeep}
use project_easter.Copy.Laws.{
  CopierLaws, StatusValue, status_into-IsDeep, ReadsExpose, service_expose_spec_copy-IsDeep,
}
use project_easter.Copy.Resources.{
  Typed, ReadsResource, ReadsList, resource_into-IsDeep, list_into-IsDeep,
}
use project_easter.Copy.Valkey.{spec_into, status_into, into, copy, items_into, list_copy}

-- what a status says
abbrev pub shown : ValkeyClusterStatus → StatusValue
shown t = record {
  ready = t.ready;
  phase = t.phase;
  counts = t.shards ∷ t.ready_shards ∷ [];
  message = t.message;
  conditions = t.conditions;
}

module _ {y : Foreign} {f : Copiers y (ValkeyClusterSpecLayout y)} (laws : CopierLaws f) where
  abbrev pub ReadsSpec :
      Reading (Cell y (ValkeyClusterSpecLayout y)) (ValkeyClusterSpecLayout y) ValkeyClusterSpec
  ReadsSpec P h v x =
      (v.shards ≡ x.shards)
      × (v.replicas ≡ x.replicas)
      × (v.image ≡ x.image)
      × (v.persistence ≡ x.persistence)
      × laws.ReadsRequirements P h v.resources x.resources
      × ReadsPtr expose_slot ReadsExpose P h v.expose x.expose

  spec_into-IsDeep : IsDeep ReadsSpec (spec_into f)
  unfolding spec_into
  spec_into-IsDeep = record {
    moves = λ P Q h h' v x m r. (
      r.0,
      r.1,
      r.2,
      r.3,
      laws.requirements.moves P Q h h' _ _ m r.4,
      (service_expose_spec_copy-IsDeep f laws).moves P Q h h' _ _ m r.5,
    );
    copies = λ h v x r.
        bind _ _ (f.requirements_into v.resources h) _
          (laws.requirements.copies h v.resources x.resources r.4)
          (λ a i p.
            bind _ _ (service_expose_spec_copy f v.expose i) _
              (step (service_expose_spec_copy-IsDeep f laws) h i v.expose x.expose p.0 r.5)
              (λ b j q. (
                q.0,
                (r.0, r.1, r.2, r.3, lasts laws.requirements h.next i j a x.resources q.1 p.1, q.2),
              )));
  }

  -- a resource behind a pointer, and a list
  abbrev pub ReadsCopy :
      Reading
        (Cell y (ValkeyClusterSpecLayout y))
        Ptr
        (Option (Typed ValkeyClusterSpec ValkeyClusterStatus))
  ReadsCopy = ReadsPtr resource_slot (ReadsResource laws shown ReadsSpec)

  abbrev pub ReadsListCopy :
      Reading (Cell y (ValkeyClusterSpecLayout y)) Ptr (
        Option (TypeMeta × laws.ListMetaValue × List (Typed ValkeyClusterSpec ValkeyClusterStatus)))
  ReadsListCopy = ReadsPtr list_slot (ReadsList laws shown ReadsSpec)

  into-IsDeep : IsDeep (ReadsResource laws shown ReadsSpec) (into f)
  unfolding into status_into
  into-IsDeep =
      resource_into-IsDeep laws shown ReadsSpec spec_into-IsDeep (status_into-IsDeep f laws)

  pub copy-IsDeep : IsDeep ReadsCopy (copy f)
  unfolding copy
  copy-IsDeep = copy_pointer-IsDeep resource_slot zeroed into-IsDeep

  pub list_copy-IsDeep : IsDeep ReadsListCopy (list_copy f)
  unfolding list_copy items_into
  list_copy-IsDeep =
      copy_pointer-IsDeep list_slot zeroed (list_into-IsDeep laws shown ReadsSpec into-IsDeep)
