-- ===== src/Reconciler/Keeping.antt =====
-- Rules for what a run leaves in the cluster.
use project_easter.Base.{String, ◌≡◌, true, false, Option, none, some, inl, inr, Bool-cases}
use project_easter.Base.Exec.{Result, ok, err, attempt, ◌>>=◌}
use project_easter.Base.Hoare.{Post, Post-both, Hoare, Hoare-pure}
use project_easter.Api.{GroupVersionKind, named, Unstructured, Resource}
use project_easter.Platform.{Library, Client}
use project_easter.Reconciler.Adapter.{Adapter}
use project_easter.Reconciler.Calls.{
  Call, World, Run, write, update, update_status, patch, delete, read_object,
}
use project_easter.Reconciler.Engine.{
  get_target, apply_target, delete_target, delete_extra, announce, update_resource,
  update_resource_status, forgive,
}
use project_easter.Reconciler.Contract.{Key}
use project_easter.Reconciler.Store.{Accepted}

module _ {R : Type 0} (c : Client R) where
  -- What holds of the cluster before and after a run.
  abbrev pub On :
      {A : Type 0}
      → (c.Cluster → Type 0)
      → Run c A
      → (A → c.Cluster → Type 0)
      → (c.Error → c.Cluster → Type 0)
      → Type 0
  On P m Q F = Hoare (λ w. P w.cluster) m (λ a w. Q a w.cluster) (λ e w. F e w.cluster)

module _ {R A : Type 0} (c : Client R) (P : c.Cluster → Type 0) (Q : A → c.Cluster → Type 0)
    (F : c.Error → c.Cluster → Type 0) (call : Result c.Error A → Call R c.Error) where
  pub On-write :
      (op : c.Cluster → Result c.Error A × c.Cluster)
      → ((s : c.Cluster) → P s → Post Q F (op s))
      → On c P (write c op call) Q F
  On-write op h = record { run = λ w p. go w (op w.cluster) (h w.cluster p) }
    where
      go :
          (w : World c) (x : Result c.Error A × c.Cluster)
          → Post Q F x
          → Post (λ a (v : World c). Q a v.cluster) (λ e v. F e v.cluster) (write c (λ _. x) call w)
      go w (ok a, s) q = q
      go w (err e, s) q = q

module _ {S T : Type 0} (l : Library) (c : Client (Resource S T)) (a : Adapter (Resource S T))
    {A B : Type 0} (P : c.Cluster → Type 0) (Q : A → c.Cluster → Type 0)
    (F : c.Error → c.Cluster → Type 0) (call : Result c.Error B → Call (Resource S T) c.Error)
    (absent : A) (present : B → A) where
  -- After a call whose missing object is tolerated.
  abbrev Forgiven : Result c.Error B × c.Cluster → Type 0
  Forgiven (ok b, s) = Q (present b) s
  Forgiven (err e, s) = (c.is_not_found e ≡ true → Q absent s) × F e s

  On-forgive :
      (op : c.Cluster → Result c.Error B × c.Cluster)
      → ((s : c.Cluster) → P s → Forgiven (op s))
      → On c P (attempt (write c op call) >>= forgive l c a absent present) Q F
  On-forgive op h = record { run = λ w p. go w (op w.cluster) (h w.cluster p) }
    where
      go :
          (w : World c) (x : Result c.Error B × c.Cluster)
          → Forgiven x
          → Post
              (λ b (v : World c). Q b v.cluster)
              (λ e v. F e v.cluster)
              ((attempt (write c (λ _. x) call) >>= forgive l c a absent present) w)
      go w (ok b, s) q = q
      go w (err e, s) q = elim (Bool-cases (c.is_not_found e)) [
        | inl y ↦ rw y (q.0 y)
        | inr n ↦ rw n q.1
      ]

module _ {S T : Type 0} (l : Library) (c : Client (Resource S T)) (a : Adapter (Resource S T)) where
  -- A write keeps `D`, whatever comes of it.
  abbrev pub Keeps :
      {A : Type 0} → (c.Cluster → Type 0) → (c.Cluster → Result c.Error A × c.Cluster) → Type 0
  Keeps D op = (s : c.Cluster) → D s → D (op s).1

  module _ (D : c.Cluster → Type 0) where
    pub get_target-On :
        (g : GroupVersionKind) (n m : String) → On c D (get_target l c a g n m) (λ _. D) (λ _. D)
    unfolding get_target
    get_target-On g n m =
        On-forgive l c a D (λ _. D) (λ _. D) (read_object g (named n m)) none some
          (λ s. (c.get_object s g (named n m), s)) (λ s d. go s d (c.get_object s g (named n m)))
      where
        go :
            (s : c.Cluster)
            → D s
            → (r : Result c.Error Unstructured)
            → Forgiven l c a D (λ _. D) (λ _. D) (read_object g (named n m)) none some (r, s)
        go s d (ok u) = d
        go s d (err e) = (λ _. d, d)

    pub announce-On :
        (o : Option Unstructured) (cr : Resource S T) (t : String)
        → On c D (announce l c a o cr t) (λ _. D) (λ _. D)
    unfolding announce
    announce-On none cr t = record { run = λ w d. d }
    announce-On (some u) cr t = Hoare-pure tt (λ w d. d)

    pub apply_target-On :
        (u : Unstructured)
        → Keeps D (λ s. c.patch s u a.field_manager)
        → On c D (apply_target l c a u) (λ _. D) (λ _. D)
    unfolding apply_target
    apply_target-On u keeps =
        On-write c D (λ _. D) (λ _. D) (patch u a.field_manager) (λ s. c.patch s u a.field_manager)
          (λ s d. Post-both D _ (keeps s d))

    pub update_resource-On :
        (x : Resource S T)
        → Keeps D (λ s. c.update s x)
        → On c D (update_resource l c a x) (λ _. D) (λ _. D)
    unfolding update_resource
    update_resource-On x keeps =
        On-write c D (λ _. D) (λ _. D) (update x) (λ s. c.update s x)
          (λ s d. Post-both D _ (keeps s d))

    pub update_resource_status-On :
        (x : Resource S T)
        → Keeps D (λ s. c.update_status s x)
        → On c D (update_resource_status l c a x) (λ _. D) (λ _. D)
    unfolding update_resource_status
    update_resource_status-On x keeps =
        On-write c D (λ _. D) (λ _. D) (update_status x) (λ s. c.update_status s x)
          (λ s d. Post-both D _ (keeps s d))

  -- Deletions that keep `D`, and of which an accepted one brings `Gone` for its object.
  pub record Deletes (D : c.Cluster → Type 0) (Gone : Key → c.Cluster → Type 0) (k : Key)
      : Type 0 where
    pub keeps : Keeps D (λ s. c.delete s k.gvk (named k.namespace k.name))
    pub brings :
        (s : c.Cluster)
        → D s
        → Accepted c (c.delete s k.gvk (named k.namespace k.name)).0
        → Gone k (c.delete s k.gvk (named k.namespace k.name)).1

  module _ (D : c.Cluster → Type 0) (Gone : Key → c.Cluster → Type 0) where
    delete-Forgiven :
        {A : Type 0} (absent : A) (present : Unit {0} → A) (k : Key)
        → Deletes D Gone k
        → (s : c.Cluster) → D s
        → Forgiven l c a D
            (λ _ s'. D s' × Gone k s')
            (λ _. D)
            (delete k.gvk (named k.namespace k.name))
            absent
            present
            (c.delete s k.gvk (named k.namespace k.name))
    delete-Forgiven absent present k h s d =
        go (c.delete s k.gvk (named k.namespace k.name)) (h.keeps s d) (h.brings s d)
      where
        go :
            (x : Result c.Error (Unit {0}) × c.Cluster)
            → D x.1
            → (Accepted c x.0 → Gone k x.1)
            → Forgiven l c a D
                (λ _ s'. D s' × Gone k s')
                (λ _. D)
                (delete k.gvk (named k.namespace k.name))
                absent
                present
                x
        go (ok b, s') d' gone = (d', gone tt)
        go (err e, s') d' gone = (λ y. (d', gone y), d')

    pub delete_target-On :
        (n m : String)
        → Deletes D Gone (record { gvk = a.gvk; namespace = n; name = m })
        → On c D
            (delete_target l c a n m)
            (λ _ s. D s × Gone (record { gvk = a.gvk; namespace = n; name = m }) s)
            (λ _. D)
    unfolding delete_target
    delete_target-On n m h =
        let k : Key = record { gvk = a.gvk; namespace = n; name = m } in
        On-forgive l c a D (λ _ s. D s × Gone k s) (λ _. D) (delete a.gvk (named n m)) false
          (λ _. true) (λ s. c.delete s a.gvk (named n m)) (delete-Forgiven false (λ _. true) k h)

    pub delete_extra-On :
        (g : GroupVersionKind) (n m : String)
        → Deletes D Gone (record { gvk = g; namespace = n; name = m })
        → On c D
            (delete_extra l c a g n m)
            (λ _ s. D s × Gone (record { gvk = g; namespace = n; name = m }) s)
            (λ _. D)
    unfolding delete_extra
    delete_extra-On g n m h =
        let k : Key = record { gvk = g; namespace = n; name = m } in
        On-forgive l c a D (λ _ s. D s × Gone k s) (λ _. D) (delete g (named n m)) tt (λ _. tt)
          (λ s. c.delete s g (named n m)) (delete-Forgiven tt (λ _. tt) k h)
