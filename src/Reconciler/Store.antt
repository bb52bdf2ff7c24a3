-- ===== src/Reconciler/Store.antt =====
-- What the API server is relied on to keep, so that a run can be followed in the cluster itself.
use project_easter.Base.{String, ◌≡◌, true, Option, some, ◌⊎◌}
use project_easter.Base.Exec.{Result, ok, err}
use project_easter.Api.{GroupVersionKind, NamespacedName, Unstructured, Resource}
use project_easter.Platform.{Library, Client}
use project_easter.Reconciler.Adapter.{finalizer_name}
use project_easter.Reconciler.Contract.{Key, key_of}

-- What can be seen in a cluster: the custom resource that is stored under a name, and whether an
-- object is there with no deletion of it requested.
pub record Store {R : Type 0} (c : Client R) : Type 1 where
  pub stored : c.Cluster → NamespacedName → Option R
  pub IsLive : c.Cluster → Key → Type 0

-- A read gives a resource of the name that was asked for.
abbrev pub GetsNamed : {S T : Type 0} → Client (Resource S T) → Type 0
GetsNamed {S} {T} c =
    (s : c.Cluster) (n : NamespacedName) (cr : Resource S T)
    → c.get s n ≡ ok cr
    → (cr.metadata.name ≡ n.name) × (cr.metadata.namespace ≡ n.namespace)

-- A deletion that was accepted, or that found nothing.
abbrev pub Accepted : {R A : Type 0} (c : Client R) → Result c.Error A → Type 0
Accepted c (ok a) = Unit
Accepted c (err e) = c.is_not_found e ≡ true

module _ {S T : Type 0} (l : Library) {c : Client (Resource S T)} (st : Store c)
    (req : NamespacedName) where
  -- The resource is stored, with the finalizer of the operator.
  abbrev pub Guarded : c.Cluster → Type 0
  Guarded s =
      (cr : Resource S T) × (st.stored s req ≡ some cr)
      × (l.contains_finalizer cr.metadata.finalizers finalizer_name ≡ true)

  -- A resource with the finalizer stays, and keeps the finalizer.
  abbrev pub Guards : c.Cluster → c.Cluster → Type 0
  Guards s s' = Guarded s → Guarded s'

  -- The server keeps a resource that has a finalizer, and only the operator takes its own finalizer
  -- off; nobody else makes the objects in `Own`. Both hold across a call too, so that others may do
  -- whatever else they like while it runs. A call that fails may have taken effect or not.
  pub record StoreLaws (Own : Key → Type 0) : Type 0 where
    -- a read gives what is stored, and a resource of the name that was asked for
    pub get_stored :
        (s : c.Cluster) (cr : Resource S T) → c.get s req ≡ ok cr → st.stored s req ≡ some cr
    pub get_named : GetsNamed c
    pub patch-Guards : (s : c.Cluster) (u : Unstructured) (m : String) → Guards s (c.patch s u m).1
    pub delete-Guards :
        (s : c.Cluster) (g : GroupVersionKind) (n : NamespacedName) → Guards s (c.delete s g n).1
    pub update_status-Guards : (s : c.Cluster) (x : Resource S T) → Guards s (c.update_status s x).1
    -- an update that leaves the finalizer in place
    pub update-Guards :
        (s : c.Cluster) (x : Resource S T)
        → l.contains_finalizer x.metadata.finalizers finalizer_name ≡ true
        → Guards s (c.update s x).1
    -- an update of another resource
    pub update_other-Guards :
        (s : c.Cluster) (x : Resource S T)
        → ¬ ((x.metadata.name ≡ req.name) × (x.metadata.namespace ≡ req.namespace))
        → Guards s (c.update s x).1
    -- only an apply makes an object, and only the one that is applied
    pub patch-IsLive :
        (s : c.Cluster) (u : Unstructured) (m : String) (k : Key)
        → Own k
        → st.IsLive (c.patch s u m).1 k
        → st.IsLive s k ⊎ (k ≡ key_of u)
    pub delete-IsLive :
        (s : c.Cluster) (g : GroupVersionKind) (n : NamespacedName) (k : Key)
        → Own k
        → st.IsLive (c.delete s g n).1 k
        → st.IsLive s k
    pub update-IsLive :
        (s : c.Cluster) (x : Resource S T) (k : Key)
        → Own k
        → st.IsLive (c.update s x).1 k
        → st.IsLive s k
    pub update_status-IsLive :
        (s : c.Cluster) (x : Resource S T) (k : Key)
        → Own k
        → st.IsLive (c.update_status s x).1 k
        → st.IsLive s k
    -- what was deleted is not live
    pub deleted :
        (s : c.Cluster) (g : GroupVersionKind) (n : NamespacedName)
        → let k : Key = record { gvk = g; namespace = n.namespace; name = n.name } in
          Own k → Accepted c (c.delete s g n).0 → ¬ st.IsLive (c.delete s g n).1 k
