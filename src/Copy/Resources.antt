-- ===== src/Copy/Resources.antt =====
-- Deep copies of custom resources and of lists of them, for any spec whose copies are deep.
use project_easter.Base.{◌≡◌, List, [], or_default}
use project_easter.Api.{Resource}
use project_easter.Copy.Layout.{Ptr, Foreign, TypeMeta, StatusLayout, ResourceLayout, ListLayout}
use project_easter.Copy.Heap.{Cell, zeroed, Cmd}
use project_easter.Copy.Slots.{resources_slot}
use project_easter.Copy.Into.{copy_slice}
use project_easter.Copy.Kind.{Copiers, resource_into, list_into}
use project_easter.Copy.Deep.{Reading, IsDeep, bind, lasts, step}
use project_easter.Copy.Pointers.{ReadsPtr, ReadsAll, copy_pointer-IsDeep, copy_all-IsDeep}
use project_easter.Copy.Laws.{CopierLaws, Seen, Seen-IsDeep, StatusValue, ReadsStatus}

-- A resource with its kind and API version.
abbrev pub Typed : Type 0 → Type 0 → Type 0
Typed X T = TypeMeta × Resource X T

module _ {y : Foreign} {S : Type 0} {f : Copiers y S} (laws : CopierLaws f) {X T : Type 0}
    (see : T → StatusValue) (ReadsSpec : Reading (Cell y S) S X) where
  abbrev pub ReadsResource : Reading (Cell y S) (ResourceLayout y S StatusLayout) (Typed X T)
  ReadsResource P h v x =
      (v.type_meta ≡ x.0)
      × laws.ReadsMeta P h v.metadata x.1.metadata
      × ReadsSpec P h v.spec x.1.spec
      × ReadsStatus P h v.status (see x.1.status)

  abbrev ReadsItems : Reading (Cell y S) Ptr (List (Typed X T))
  ReadsItems = Seen (or_default []) (ReadsPtr resources_slot (ReadsAll ReadsResource))

  abbrev pub ReadsList :
      Reading (Cell y S) (ListLayout y) (TypeMeta × laws.ListMetaValue × List (Typed X T))
  ReadsList P h v x =
      (v.type_meta ≡ x.0) × laws.ReadsListMeta P h v.list_meta x.1 × ReadsItems P h v.items x.2

  module _ {into_spec : S → Cmd (Cell y S) S}
      {into_status : StatusLayout → Cmd (Cell y S) StatusLayout} (spec : IsDeep ReadsSpec into_spec)
      (status : IsDeep {C = Cell y S} ReadsStatus into_status) where
    pub resource_into-IsDeep : IsDeep ReadsResource (resource_into f into_spec into_status)
    unfolding resource_into
    resource_into-IsDeep = record {
      moves = λ P Q h h' v x m r. (
        r.0,
        laws.meta.moves P Q h h' _ _ m r.1,
        spec.moves P Q h h' _ _ m r.2,
        status.moves P Q h h' _ _ m r.3,
      );
      copies = λ h v x r.
          bind _ _ (f.meta_into v.metadata h) _ (laws.meta.copies h v.metadata x.1.metadata r.1)
            (λ a i p.
              bind _ _ (into_spec v.spec i) _ (step spec h i v.spec x.1.spec p.0 r.2) (λ b j q.
                bind _ _ (into_status v.status j) _
                  (step status h j v.status (see x.1.status) q.0 r.3)
                  (λ c k s. (
                    s.0,
                    (
                      r.0,
                      lasts laws.meta h.next j k a x.1.metadata s.1
                          (lasts laws.meta h.next i j a x.1.metadata q.1 p.1),
                      lasts spec h.next j k b x.1.spec s.1 q.2,
                      s.2,
                    ),
                  ))));
    }

  module _
      {into : ResourceLayout y S StatusLayout → Cmd (Cell y S) (ResourceLayout y S StatusLayout)}
      (item : IsDeep ReadsResource into) where
    items-IsDeep : IsDeep ReadsItems (copy_slice resources_slot zeroed into)
    unfolding copy_slice
    items-IsDeep =
        Seen-IsDeep (or_default [])
          (copy_pointer-IsDeep resources_slot zeroed (copy_all-IsDeep item))

    pub list_into-IsDeep : IsDeep ReadsList (list_into f into)
    unfolding list_into
    list_into-IsDeep = record {
      moves = λ P Q h h' v x m r.
          (r.0, laws.list_meta.moves P Q h h' _ _ m r.1, items-IsDeep.moves P Q h h' _ _ m r.2);
      copies = λ h v x r.
          bind _ _ (f.list_meta_into v.list_meta h) _ (laws.list_meta.copies h v.list_meta x.1 r.1)
            (λ a i p.
              bind _ _ (copy_slice resources_slot zeroed into v.items i) _
                (step items-IsDeep h i v.items x.2 p.0 r.2)
                (λ b j q. (q.0, (r.0, lasts laws.list_meta h.next i j a x.1 q.1 p.1, q.2))));
    }
