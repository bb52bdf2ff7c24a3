-- ===== src/Copy/Postgres/Deep.antt =====
-- The copies of a PostgresCluster and of a list of them are deep.
use project_easter.Base.{◌≡◌, Option, List, [], ◌∷◌}
use project_easter.Api.{PostgresClusterSpec, PostgresClusterStatus}
use project_easter.Copy.Layout.{Ptr, Foreign, TypeMeta, PostgresClusterSpecLayout}
use project_easter.Copy.Heap.{Cell, zeroed}
use project_easter.Copy.Slots.{expose_slot, list_slot, resource_slot}
use project_easter.Copy.Kind.{Copiers, service_expose_spec_copy}
use project_easter.Copy.Deep.{Reading, IsDeep, bind, lasts, step}
use project_easter.Copy.Pointers.{ReadsPtr, copy_pointer-IsDeep}
use project_easter.Copy.Laws.{
  CopierLaws, StatusValue, status_into-IsDeep, ReadsExpose, service_expose_spec_copy-IsDeep,
}
use project_easter.Copy.Resources.{
  Typed, ReadsResource, ReadsList, resource_into-IsDeep, list_into-IsDeep,
}
use project_easter.Copy.Postgres.{spec_into, status_into, into, copy, items_into, list_copy}

-- what a status says
abbrev pub shown : PostgresClusterStatus → StatusValue
shown t = record {
  ready = t.ready;
  phase = t.phase;
  counts = t.instances ∷ t.ready_instances ∷ [];
  message = t.message;
  conditions = t.conditions;
}

module _ {y : Foreign} {f : Copiers y (PostgresClusterSpecLayout y)} (laws : CopierLaws f) where
  abbrev pub ReadsSpec :
      Reading
        (Cell y (PostgresClusterSpecLayout y))
        (PostgresClusterSpecLayout y)
        PostgresClusterSpec
  ReadsSpec P h v x =
      (v.instances ≡ x.instances)
      × (v.image ≡ x.image)
      × (v.storage ≡ x.storage)
      × (v.database ≡ x.database)
      × (v.monitoring ≡ x.monitoring)
      × laws.ReadsRequirements P h v.resources x.resources
      × ReadsPtr expose_slot ReadsExpose P h v.expose x.expose

  spec_into-IsDeep : IsDeep ReadsSpec (spec_into f)
  unfolding spec_into
  spec_into-IsDeep = record {
    moves = λ P Q h h' v x m r. (
      r.0,
      r.1,
      r.2,
      r.3,
      r.4,
      laws.requirements.moves P Q h h' _ _ m r.5,
      (service_expose_spec_copy-IsDeep f laws).moves P Q h h' _ _ m r.6,
    );
    copies = λ h v x r.
        bind _ _ (f.requirements_into v.resources h) _
          (laws.requirements.copies h v.resources x.resources r.5)
          (λ a i p.
            bind _ _ (service_expose_spec_copy f v.expose i) _
              (step (service_expose_spec_copy-IsDeep f laws) h i v.expose x.expose p.0 r.6)
              (λ b j q. (
                q.0,
                (
                  r.0,
                  r.1,
                  r.2,
                  r.3,
                  r.4,
                  lasts laws.requirements h.next i j a x.resources q.1 p.1,
                  q.2,
                ),
              )));
  }

  -- a resource behind a pointer, and a list
  abbrev pub ReadsCopy :
      Reading
        (Cell y (PostgresClusterSpecLayout y))
        Ptr
        (Option (Typed PostgresClusterSpec PostgresClusterStatus))
  ReadsCopy = ReadsPtr resource_slot (ReadsResource laws shown ReadsSpec)

  abbrev pub ReadsListCopy : Reading (Cell y (PostgresClusterSpecLayout y)) Ptr (
      Option
        (TypeMeta × laws.ListMetaValue × List (Typed PostgresClusterSpec PostgresClusterStatus)))
  ReadsListCopy = ReadsPtr list_slot (ReadsList laws shown ReadsSpec)

  into-IsDeep : IsDeep (ReadsResource laws shown ReadsSpec) (into f)
  unfolding into status_into
  into-IsDeep =
      resource_into-IsDeep laws shown ReadsSpec spec_into-IsDeep (status_into-IsDeep f laws)

  pub copy-IsDeep : IsDeep ReadsCopy (copy f)
  unfolding copy
  copy-IsDeep = copy_pointer-IsDeep resource_slot zeroed into-IsDeep

  pub list_copy-IsDeep : IsDeep ReadsListCopy (list_copy f)
  unfolding list_copy items_into
  list_copy-IsDeep =
      copy_pointer-IsDeep list_slot zeroed (list_into-IsDeep laws shown ReadsSpec into-IsDeep)
