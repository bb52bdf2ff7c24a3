-- ===== src/Copy/Rabbitmq/Deep.antt =====
-- The copies of a RabbitMQCluster and of a list of them are deep.
use project_easter.Base.{◌≡◌, Option, List, [], ◌∷◌}
use project_easter.Api.{RabbitMqClusterSpec, RabbitMqClusterStatus}
use project_easter.Copy.Layout.{Ptr, Foreign, TypeMeta, RabbitMqClusterSpecLayout}
use project_easter.Copy.Heap.{Cell, zeroed}
use project_easter.Copy.Slots.{ingress_slot, list_slot, resource_slot}
use project_easter.Copy.Kind.{Copiers, ingress_spec_copy}
use project_easter.Copy.Deep.{Reading, IsDeep, bind, lasts, step}
use project_easter.Copy.Pointers.{ReadsPtr, copy_pointer-IsDeep}
use project_easter.Copy.Laws.{
  CopierLaws, StatusValue, status_into-IsDeep, ReadsIngress, ingress_spec_copy-IsDeep,
}
use project_easter.Copy.Resources.{
  Typed, ReadsResource, ReadsList, resource_into-IsDeep, list_into-IsDeep,
}
use project_easter.Copy.Rabbitmq.{spec_into, status_into, into, copy, items_into, list_copy}

-- what a status says
abbrev pub shown : RabbitMqClusterStatus → StatusValue
shown t = record {
  ready = t.ready;
  phase = t.phase;
  counts = t.replicas ∷ t.ready_replicas ∷ [];
  message = t.message;
  conditions = t.conditions;
}

module _ {y : Foreign} {f : Copiers y (RabbitMqClusterSpecLayout y)} (laws : CopierLaws f) where
  abbrev pub ReadsSpec :
      Reading
        (Cell y (RabbitMqClusterSpecLayout y))
        (RabbitMqClusterSpecLayout y)
        RabbitMqClusterSpec
  ReadsSpec P h v x =
      (v.replicas ≡ x.replicas)
      × (v.image ≡ x.image)
      × (v.storage ≡ x.storage)
      × laws.ReadsRequirements P h v.resources x.resources
      × ReadsPtr ingress_slot ReadsIngress P h v.ingress x.ingress

  spec_into-IsDeep : IsDeep ReadsSpec (spec_into f)
  unfolding spec_into
  spec_into-IsDeep = record {
    moves = λ P Q h h' v x m r. (
      r.0,
      r.1,
      r.2,
      laws.requirements.moves P Q h h' _ _ m r.3,
      (ingress_spec_copy-IsDeep f laws).moves P Q h h' _ _ m r.4,
    );
    copies = λ h v x r.
        bind _ _ (f.requirements_into v.resources h) _
          (laws.requirements.copies h v.resources x.resources r.3)
          (λ a i p.
            bind _ _ (ingress_spec_copy f v.ingress i) _
              (step (ingress_spec_copy-IsDeep f laws) h i v.ingress x.ingress p.0 r.4)
              (λ b j q. (
                q.0,
                (r.0, r.1, r.2, lasts laws.requirements h.next i j a x.resources q.1 p.1, q.2),
              )));
  }

  -- a resource behind a pointer, and a list
  abbrev pub ReadsCopy :
      Reading
        (Cell y (RabbitMqClusterSpecLayout y))
        Ptr
        (Option (Typed RabbitMqClusterSpec RabbitMqClusterStatus))
  ReadsCopy = ReadsPtr resource_slot (ReadsResource laws shown ReadsSpec)

  abbrev pub ReadsListCopy : Reading (Cell y (RabbitMqClusterSpecLayout y)) Ptr (
      Option
        (TypeMeta × laws.ListMetaValue × List (Typed RabbitMqClusterSpec RabbitMqClusterStatus)))
  ReadsListCopy = ReadsPtr list_slot (ReadsList laws shown ReadsSpec)

  into-IsDeep : IsDeep (ReadsResource laws shown ReadsSpec) (into f)
  unfolding into status_into
  into-IsDeep =
      resource_into-IsDeep laws shown ReadsSpec spec_into-IsDeep (status_into-IsDeep f laws)

  pub copy-IsDeep : IsDeep ReadsCopy (copy f)
  unfolding copy
  copy-IsDeep = copy_pointer-IsDeep resource_slot zeroed into-IsDeep

  pub list_copy-IsDeep : IsDeep ReadsListCopy (list_copy f)
  unfolding list_copy items_into
  list_copy-IsDeep =
      copy_pointer-IsDeep list_slot zeroed (list_into-IsDeep laws shown ReadsSpec into-IsDeep)
