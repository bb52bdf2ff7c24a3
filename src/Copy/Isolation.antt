-- ===== src/Copy/Isolation.antt =====
-- A copy and its original share nothing: `DeepCopyObject` of the six kinds and of their lists.
use project_easter.Base.{◌≡◌, refl, Option, List, ltb, if◌then◌else◌, arith, Bool-cases, inl, inr}
use project_easter.Base.Hoare.{Post}
use project_easter.Copy.Layout.{Addr, Ptr, Foreign, TypeMeta}
use project_easter.Controllers.Ownership.{
  Kind, postgres, valkey, grafana, mariadb, rabbitmq, prometheus, ResourceOf,
}
use project_easter.Copy.Heap.{Cell, Heap, Cmd, write}
use project_easter.Copy.Kind.{Copiers, Object, of_resource, of_list, object, copy_object}
use project_easter.Copy.Deep.{Within, Grows, Reading, IsDeep, bind}
use project_easter.Copy.Laws.{CopierLaws}
use project_easter.Copy.ByKind.{
  LayoutOf, copy_as_object, list_copy_as_object, ReadsCopy, ReadsListCopy,
}
use project_easter.Copy.Postgres
use project_easter.Copy.Valkey
use project_easter.Copy.Grafana
use project_easter.Copy.Mariadb
use project_easter.Copy.Rabbitmq
use project_easter.Copy.Prometheus

module _ {C X : Type 0} (Reads : Reading C Ptr (Option X)) (of : Addr → Object) where
  -- The interface value holds a pointer that stands for the value, or is nil where there is none.
  abbrev ReadsObject : Reading C (Option Object) (Option X)
  ReadsObject P h o x = (q : Ptr) × (o ≡ object of q) × Reads P h q x

  -- What is to hold when a copy `o` of `p` has been made, which took the heap from `h` to `h'`, and when
  -- then any address is written.
  abbrev pub Isolated : Heap C → Ptr → Option X → Addr → C → Option Object → Heap C → Type 0
  Isolated h p x a c o h' =
      Grows h h'
      × ReadsObject (Within h.next h'.next) h' o x
      × (if ltb a h.next
          then ReadsObject (Within h.next h'.next) (write h' a c) o x
          else Reads (Within 0 h.next) (write h' a c) p x)

  isolated :
      {copy : Ptr → Cmd C Ptr}
      → IsDeep Reads copy
      → (h : Heap C) (p : Ptr) (x : Option X) (a : Addr) (c : C) → Reads (Within 0 h.next) h p x
      → Post (Isolated h p x a c) (λ _ _. ⊥) (copy_object of copy p h)
  unfolding copy_object
  isolated {copy} d h p x a c r =
      bind _ _ (copy p h) _ (d.copies h p x r)
        (λ q h' s. (s.0, (q, refl, s.1), written q h' s.0 s.1))
    where
      written :
          (q : Ptr) (h' : Heap C)
          → Grows h h'
          → Reads (Within h.next h'.next) h' q x
          → (if ltb a h.next
              then ReadsObject (Within h.next h'.next) (write h' a c) (object of q) x
              else Reads (Within 0 h.next) (write h' a c) p x)
      written q h' g s = elim (Bool-cases (ltb a h.next)) [
        | inl y ↦ rw y (
          q,
          refl,
          d.moves (Within h.next h'.next) (Within h.next h'.next) h' (write h' a c) q x
              (λ b i. (i, ground (arith, i.0))) s,
        )
        | inr n ↦ rw n (
            d.moves (Within 0 h.next) (Within 0 h.next) h (write h' a c) p x
              (λ b i. (i, ground (arith, i.1, g.keeps b i.1))) r)
      ]

module _ {y : Foreign} where
  -- With copies of the types of other packages that are deep (`CopierLaws`), and for each of the
  -- six kinds: `DeepCopyObject` of a pointer that stands for a resource in the heap, or of nil,
  -- ends without a fault, whatever the order in which `range` gives the entries of a map. It
  -- changes nothing that was in the heap. Its result is a nil interface where the pointer is nil,
  -- and else an object whose pointer stands for the same resource and leads to new addresses alone.
  -- When then any address is written, the copy still stands for the resource if the address is an
  -- old one, and the original does if it is a new one.
  pub copy_as_object-Isolated :
      (i : Kind) (f : Copiers y (LayoutOf y i)) (laws : CopierLaws f)
      (h : Heap (Cell y (LayoutOf y i))) (p : Ptr) (x : Option (TypeMeta × ResourceOf i)) (a : Addr)
      (c : Cell y (LayoutOf y i))
      → ReadsCopy i laws (Within 0 h.next) h p x
      → Post (Isolated (ReadsCopy i laws) of_resource h p x a c) (λ _ _. ⊥) (copy_as_object i f p h)
  unfolding Postgres.copy_as_object Valkey.copy_as_object Grafana.copy_as_object
      Mariadb.copy_as_object Rabbitmq.copy_as_object Prometheus.copy_as_object
  copy_as_object-Isolated postgres f laws h p x a c r =
      isolated (ReadsCopy postgres laws) of_resource (Postgres.Deep.copy-IsDeep laws) h p x a c r
  copy_as_object-Isolated valkey f laws h p x a c r =
      isolated (ReadsCopy valkey laws) of_resource (Valkey.Deep.copy-IsDeep laws) h p x a c r
  copy_as_object-Isolated grafana f laws h p x a c r =
      isolated (ReadsCopy grafana laws) of_resource (Grafana.Deep.copy-IsDeep laws) h p x a c r
  copy_as_object-Isolated mariadb f laws h p x a c r =
      isolated (ReadsCopy mariadb laws) of_resource (Mariadb.Deep.copy-IsDeep laws) h p x a c r
  copy_as_object-Isolated rabbitmq f laws h p x a c r =
      isolated (ReadsCopy rabbitmq laws) of_resource (Rabbitmq.Deep.copy-IsDeep laws) h p x a c r
  copy_as_object-Isolated prometheus f laws h p x a c r =
      isolated (ReadsCopy prometheus laws) of_resource (Prometheus.Deep.copy-IsDeep laws) h p x a c
        r

  -- The same for `DeepCopyObject` of a list of resources of each of the six kinds, with all its
  -- items: it ends without a fault, changes nothing, gives nil for nil, and else a list that stands
  -- for the same and leads to new addresses alone; and a write of an old address leaves the copy
  -- what it is, a write of a new one the original. The copies of the types of other packages are
  -- taken to be deep (`CopierLaws`).
  pub list_copy_as_object-Isolated :
      (i : Kind) (f : Copiers y (LayoutOf y i)) (laws : CopierLaws f)
      (h : Heap (Cell y (LayoutOf y i))) (p : Ptr)
      (x : Option (TypeMeta × laws.ListMetaValue × List (TypeMeta × ResourceOf i))) (a : Addr)
      (c : Cell y (LayoutOf y i))
      → ReadsListCopy i laws (Within 0 h.next) h p x
      → Post
          (Isolated (ReadsListCopy i laws) of_list h p x a c)
          (λ _ _. ⊥)
          (list_copy_as_object i f p h)
  unfolding Postgres.list_copy_as_object Valkey.list_copy_as_object Grafana.list_copy_as_object
      Mariadb.list_copy_as_object Rabbitmq.list_copy_as_object Prometheus.list_copy_as_object
  list_copy_as_object-Isolated postgres f laws h p x a c r =
      isolated (ReadsListCopy postgres laws) of_list (Postgres.Deep.list_copy-IsDeep laws) h p x a c
        r
  list_copy_as_object-Isolated valkey f laws h p x a c r =
      isolated (ReadsListCopy valkey laws) of_list (Valkey.Deep.list_copy-IsDeep laws) h p x a c r
  list_copy_as_object-Isolated grafana f laws h p x a c r =
      isolated (ReadsListCopy grafana laws) of_list (Grafana.Deep.list_copy-IsDeep laws) h p x a c r
  list_copy_as_object-Isolated mariadb f laws h p x a c r =
      isolated (ReadsListCopy mariadb laws) of_list (Mariadb.Deep.list_copy-IsDeep laws) h p x a c r
  list_copy_as_object-Isolated rabbitmq f laws h p x a c r =
      isolated (ReadsListCopy rabbitmq laws) of_list (Rabbitmq.Deep.list_copy-IsDeep laws) h p x a c
        r
  list_copy_as_object-Isolated prometheus f laws h p x a c r =
      isolated (ReadsListCopy prometheus laws) of_list (Prometheus.Deep.list_copy-IsDeep laws) h p x
        a c r
