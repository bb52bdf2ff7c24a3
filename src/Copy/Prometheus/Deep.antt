-- ===== src/Copy/Prometheus/Deep.antt =====
-- The copies of a PrometheusInstance and of a list of them are deep.
use project_easter.Base.{◌≡◌, Option, List, [], ◌∷◌}
use project_easter.Api.{PrometheusInstanceSpec, PrometheusInstanceStatus}
use project_easter.Copy.Layout.{Ptr, Foreign, TypeMeta, PrometheusInstanceSpecLayout}
use project_easter.Copy.Heap.{Cell, zeroed}
use project_easter.Copy.Slots.{ingress_slot, list_slot, resource_slot}
use project_easter.Copy.Kind.{Copiers, ingress_spec_copy, storage_spec_copy}
use project_easter.Copy.Deep.{Reading, IsDeep, bind, lasts, step}
use project_easter.Copy.Pointers.{ReadsPtr, copy_pointer-IsDeep}
use project_easter.Copy.Laws.{
  CopierLaws, StatusValue, status_into-IsDeep, ReadsIngress, ReadsStorage, ingress_spec_copy-IsDeep,
  storage_spec_copy-IsDeep,
}
use project_easter.Copy.Resources.{
  Typed, ReadsResource, ReadsList, resource_into-IsDeep, list_into-IsDeep,
}
use project_easter.Copy.Prometheus.{spec_into, status_into, into, copy, items_into, list_copy}

-- what a status says
abbrev pub shown : PrometheusInstanceStatus → StatusValue
shown t = record {
  ready = t.ready;
  phase = t.phase;
  counts = t.replicas ∷ t.ready_replicas ∷ [];
  message = t.message;
  conditions = t.conditions;
}

module _ {y : Foreign} {f : Copiers y (PrometheusInstanceSpecLayout y)} (laws : CopierLaws f) where
  abbrev pub ReadsSpec :
      Reading
        (Cell y (PrometheusInstanceSpecLayout y))
        (PrometheusInstanceSpecLayout y)
        PrometheusInstanceSpec
  ReadsSpec P h v x =
      (v.version ≡ x.version)
      × (v.replicas ≡ x.replicas)
      × (v.retention ≡ x.retention)
      × ReadsStorage P h v.storage x.storage
      × laws.ReadsRequirements P h v.resources x.resources
      × ReadsPtr ingress_slot ReadsIngress P h v.ingress x.ingress

  spec_into-IsDeep : IsDeep ReadsSpec (spec_into f)
  unfolding spec_into
  spec_into-IsDeep = record {
    moves = λ P Q h h' v x m r. (
      r.0,
      r.1,
      r.2,
      storage_spec_copy-IsDeep.moves P Q h h' _ _ m r.3,
      laws.requirements.moves P Q h h' _ _ m r.4,
      (ingress_spec_copy-IsDeep f laws).moves P Q h h' _ _ m r.5,
    );
    copies = λ h v x r.
        bind _ _ (storage_spec_copy v.storage h) _
          (storage_spec_copy-IsDeep.copies h v.storage x.storage r.3)
          (λ a i p.
            bind _ _ (f.requirements_into v.resources i) _
              (step laws.requirements h i v.resources x.resources p.0 r.4)
              (λ b j q.
                bind _ _ (ingress_spec_copy f v.ingress j) _
                  (step (ingress_spec_copy-IsDeep f laws) h j v.ingress x.ingress q.0 r.5)
                  (λ c k s. (
                    s.0,
                    (
                      r.0,
                      r.1,
                      r.2,
                      lasts storage_spec_copy-IsDeep h.next j k a x.storage s.1
                          (lasts storage_spec_copy-IsDeep h.next i j a x.storage q.1 p.1),
                      lasts laws.requirements h.next j k b x.resources s.1 q.2,
                      s.2,
                    ),
                  ))));
  }

  -- a resource behind a pointer, and a list
  abbrev pub ReadsCopy :
      Reading
        (Cell y (PrometheusInstanceSpecLayout y))
        Ptr
        (Option (Typed PrometheusInstanceSpec PrometheusInstanceStatus))
  ReadsCopy = ReadsPtr resource_slot (ReadsResource laws shown ReadsSpec)

  abbrev pub ReadsListCopy : Reading (Cell y (PrometheusInstanceSpecLayout y)) Ptr (
      Option (
        TypeMeta
        × laws.ListMetaValue
        × List (Typed PrometheusInstanceSpec PrometheusInstanceStatus)))
  ReadsListCopy = ReadsPtr list_slot (ReadsList laws shown ReadsSpec)

  into-IsDeep : IsDeep (ReadsResource laws shown ReadsSpec) (into f)
  unfolding into status_into
  into-IsDeep =
      resource_into-IsDeep laws shown ReadsSpec spec_into-IsDeep (status_into-IsDeep f laws)

  pub copy-IsDeep : IsDeep ReadsCopy (copy f)
  unfolding copy
  copy-IsDeep = copy_pointer-IsDeep resource_slot zeroed into-IsDeep

  pub list_copy-IsDeep : IsDeep ReadsListCopy (list_copy f)
  unfolding list_copy items_into
  list_copy-IsDeep =
      copy_pointer-IsDeep list_slot zeroed (list_into-IsDeep laws shown ReadsSpec into-IsDeep)
