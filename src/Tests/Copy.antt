-- ===== src/Tests/Copy.antt =====
-- A copy of a PrometheusInstance, and of a list that holds it.
use project_easter.Tests.Engine.{held}
use project_easter.Base.{
  ◌-◌, String, ◌≡◌, refl, sym, ap, ◌∙◌, true, false, Option, none, some, List, [], ◌∷◌, ◌==◌,
  if◌then◌else◌, eqb, All, Any, inl, inr, Bool-cases, eq_iff, eq_refl, arith, ltb,
}
use project_easter.Base.Int.{pos}
use project_easter.Base.Exec.{ok, pure}
use project_easter.Base.Hoare.{Post}
use project_easter.Api.{
  StringMap, ObjectMeta, ResourceRequirements, PrometheusInstance, StorageSpec,
}
use project_easter.Controllers.Ownership.{prometheus}
use project_easter.Copy.Layout.{
  Addr, Foreign, TypeMeta, IngressSpecLayout, PrometheusInstanceSpecLayout, StatusLayout,
  ResourceLayout, ListLayout,
}
use project_easter.Copy.Heap.{
  Cell, Heap, strings, conditions, storage, ingress, resource, resources, list, load, store,
  allocate,
}
use project_easter.Copy.Kind.{
  Copiers, of_resource, of_list, ingress_spec_copy, storage_spec_copy, status_into, resource_into,
  copy_object,
}
use project_easter.Copy.Into.{copy_map, copy_slice, copy_pointer}
use project_easter.Copy.Deep.{Within}
use project_easter.Copy.Maps.{value_at}
use project_easter.Copy.Laws.{CopierLaws, Same, pure-IsDeep}
use project_easter.Copy.Prometheus
use project_easter.Copy.Prometheus.Deep.{shown, ReadsSpec}
use project_easter.Copy.Resources.{ReadsResource}
use project_easter.Copy.ByKind.{copy_as_object, list_copy_as_object, ReadsCopy, ReadsListCopy}
use project_easter.Copy.Isolation.{Isolated, copy_as_object-Isolated, list_copy_as_object-Isolated}

-- The entries of a map, each key once.
abbrev without : String → StringMap → StringMap
without k [] = []
without k ((j, v) ∷ m) = let rest = without k m in if j == k then rest else (j, v) ∷ rest

abbrev entries : StringMap → StringMap
entries [] = []
entries ((k, v) ∷ m) = (k, v) ∷ without k (entries m)

without-All :
    (k v : String) (m es : StringMap)
    → All (λ e. value_at e.0 m ≡ some e.1) es
    → All (λ e. value_at e.0 ((k, v) ∷ m) ≡ some e.1) (without k es)
without-All k v m [] h = tt
without-All k v m ((j, w) ∷ es) (h, hs) = elim (Bool-cases (j == k)) [
  | inl y ↦ rw y (without-All k v m es hs)
  | inr n ↦ rw n (ground (arith, eq_iff j k, eq_iff k j, eq_refl j), without-All k v m es hs)
]

entries-given : (m : StringMap) → All (λ e. value_at e.0 m ≡ some e.1) (entries m)
entries-given [] = tt
entries-given ((k, v) ∷ m) = (rw (eq_refl k) refl, without-All k v m (entries m) (entries-given m))

without-Any :
    (k j w : String) (es : StringMap)
    → (k == j) ≡ false
    → Any (λ e. (j, w) ≡ e) es
    → Any (λ e. (j, w) ≡ e) (without k es)
without-Any k j w [] n a = elim a [ ]
without-Any k j w ((i, u) ∷ es) n (inl e) =
    rw (ap (λ z. z == k) (sym (ap (λ z. z.0) e)) ∙ apart) (inl e)
  where
    apart : (j == k) ≡ false
    apart = ground (arith, eq_iff j k, eq_iff k j)
without-Any k j w ((i, u) ∷ es) n (inr a) = elim (Bool-cases (i == k)) [
  | inl y ↦ rw y (without-Any k j w es n a)
  | inr m ↦ rw m (inr (without-Any k j w es n a))
]

entries-every :
    (m : StringMap) (k v : String) → value_at k m ≡ some v → Any (λ e. (k, v) ≡ e) (entries m)
entries-every [] k v e = cc e
entries-every ((j, w) ∷ m) k v e = elim (Bool-cases (j == k)) [
  | inl y ↦
      let p : k ≡ j = sym ((eq_iff j k).0 y) in
      let q : v ≡ w = ground arith in inl (λ i. (p i, q i))
  | inr n ↦ inr (without-Any j k v (entries m) n (entries-every m k v (ground arith)))
]

abbrev foreign : Foreign
foreign = record { Meta = ObjectMeta; ListMeta = String; Requirements = ResourceRequirements }

abbrev Layout : Type 0
Layout = PrometheusInstanceSpecLayout foreign

abbrev copiers : Copiers foreign Layout
copiers = record {
  meta_into = pure;
  list_meta_into = pure;
  requirements_into = pure;
  condition_into = pure;
  range = entries;
}

abbrev copiers-laws : CopierLaws copiers
copiers-laws = record {
  ReadsMeta = Same;
  meta = pure-IsDeep;
  ListMetaValue = String;
  ReadsListMeta = Same;
  list_meta = pure-IsDeep;
  ReadsRequirements = Same;
  requirements = pure-IsDeep;
  condition = pure-IsDeep;
  range = record { given = entries-given; every = entries-every };
}

-- An instance in a heap: at 0 the instance, at 1 its storage, at 2 its ingress, at 3 the annotations of
-- that, at 4 its conditions; at 5 a list of which it is the one item, at 6 the items.
abbrev ingress_at : IngressSpecLayout
ingress_at = record {
  host = "prometheus.example.com";
  ingress_class_name = "nginx";
  tls_secret_name = "";
  annotations = some 3;
}

abbrev storage_at : StorageSpec
storage_at = record { size = "10Gi"; storage_class = "" }

abbrev type_meta : TypeMeta
type_meta = record { kind = "PrometheusInstance"; api_version = "paas.example.com/v1alpha1" }

abbrev instance_at : ResourceLayout foreign Layout StatusLayout
instance_at = record {
  type_meta = type_meta;
  metadata = held.metadata;
  spec = record {
    version = "v3.1.0";
    replicas = pos 2;
    retention = "15d";
    storage = some 1;
    resources = held.spec.resources;
    ingress = some 2;
  };
  status = record {
    ready = false;
    phase = "";
    counts = pos 0 ∷ pos 0 ∷ [];
    message = "";
    conditions = some 4;
  };
}

abbrev annotations : StringMap
annotations = ("a", "1") ∷ ("b", "2") ∷ []

abbrev list_at : ListLayout foreign
list_at = record {
  type_meta = record type_meta { kind = "PrometheusInstanceList" };
  list_meta = "17";
  items = some 6;
}

abbrev cells : List (Cell foreign Layout)
cells =
    resource instance_at
    ∷ storage storage_at
    ∷ ingress ingress_at
    ∷ strings annotations
    ∷ conditions []
    ∷ list list_at
    ∷ resources (instance_at ∷ [])
    ∷ []

abbrev cell_at : List (Cell foreign Layout) → Addr → Option (Cell foreign Layout)
cell_at [] a = none
cell_at (c ∷ cs) a = if eqb a 0 then some c else cell_at cs (a - 1)

abbrev heap : Heap (Cell foreign Layout)
heap = record { next = 7; cell = cell_at cells }

abbrev read_instance : PrometheusInstance
read_instance = record held {
  spec = record held.spec {
    ingress = some (record {
      host = "prometheus.example.com";
      ingress_class_name = "nginx";
      tls_secret_name = "";
      annotations = annotations;
    });
  };
}

-- The addresses are below 7.
old : (a : Addr) → ltb a 7 ≡ true → Within 0 7 a
old a h = (omega arith, ground arith)

instance_reads :
    ReadsResource copiers-laws shown
      (ReadsSpec copiers-laws)
      (Within 0 7)
      heap
      instance_at
      (type_meta, read_instance)
instance_reads = (
  refl,
  refl,
  (
    refl,
    refl,
    refl,
    (storage_at, old 1 refl, refl, refl),
    refl,
    (
      ingress_at,
      old 2 refl,
      refl,
      (refl, refl, refl, (some annotations, refl, (annotations, old 3 refl, refl, λ k. refl))),
    ),
  ),
  (refl, refl, refl, refl, (some [], refl, ([], old 4 refl, refl, tt))),
)

copy_as_object-Isolated_example :
    Post
      (Isolated
        (ReadsCopy prometheus copiers-laws)
        of_resource
        heap
        (some 0)
        (some (type_meta, read_instance))
        3
        (strings []))
      (λ _ _. ⊥)
      (copy_as_object prometheus copiers (some 0) heap)
copy_as_object-Isolated_example =
    copy_as_object-Isolated prometheus copiers copiers-laws heap (some 0)
      (some (type_meta, read_instance)) 3 (strings [])
      (instance_at, old 0 refl, refl, instance_reads)

list_copy_as_object-Isolated_example :
    Post
      (Isolated
        (ReadsListCopy prometheus copiers-laws)
        of_list
        heap
        (some 5)
        (some (list_at.type_meta, "17", (type_meta, read_instance) ∷ []))
        9
        (strings []))
      (λ _ _. ⊥)
      (list_copy_as_object prometheus copiers (some 5) heap)
list_copy_as_object-Isolated_example =
    list_copy_as_object-Isolated prometheus copiers copiers-laws heap (some 5)
      (some (list_at.type_meta, "17", (type_meta, read_instance) ∷ [])) 9 (strings [])
      (
        list_at,
        old 5 refl,
        refl,
        (
          refl,
          refl,
          (
            some ((type_meta, read_instance) ∷ []),
            refl,
            (instance_at ∷ [], old 6 refl, refl, (instance_reads, tt)),
          ),
        ),
      )

-- Five new values, the copy at 7.
copied_object : (copy_as_object prometheus copiers (some 0) heap).0 ≡ ok (some (of_resource 7))
unfolding Prometheus.copy_as_object load store allocate copy_map copy_slice ingress_spec_copy
    storage_spec_copy status_into copy_object resource_into
copied_object = refl

no_object : (copy_as_object prometheus copiers none heap).0 ≡ ok none
unfolding Prometheus.copy_as_object copy_object copy_pointer
no_object = refl
