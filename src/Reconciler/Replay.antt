-- ===== src/Reconciler/Replay.antt =====
-- The calls of a run say all that becomes of the cluster.
use project_easter.Base.{
  String, ◌≡◌, refl, ap, ◌∙◌, true, false, Option, none, some, List, [], ◌∷◌, All, inl, inr,
  Bool-cases,
}
use project_easter.Base.Exec.{Result, ok, err, attempt, pure, raise, ◌>>=◌}
use project_easter.Base.Hoare.{
  Post-both, Post-same, Hoare, Hoare-pure, Hoare-raise, Hoare-bind, Hoare-attempt,
}
use project_easter.Api.{GroupVersionKind, NamespacedName, named, Unstructured, Resource}
use project_easter.Platform.{Library, Client}
use project_easter.Reconciler.Adapter.{Adapter, ExtraResource}
use project_easter.Reconciler.Calls.{
  Call, World, Run, write, look, read, read_object, update, update_status, patch, delete,
}
use project_easter.Reconciler.Logic.{Calls}
use project_easter.Reconciler.Engine.{
  forgive, done, with_finalizers, has_finalizer, is_deleting, get_target, apply_target,
  delete_target, delete_extra, apply_extra, apply_extras, delete_extras, apply_extra_resources,
  delete_extra_resources, update_resource, update_resource_status, release, finalize, announce,
  converge, adopt, sync, on_get, reconcile,
}
use project_easter.Reconciler.Confinement.{run}

module _ {R : Type 0} (c : Client R) where
  -- What a call makes of the cluster.
  abbrev pub effect : Call R c.Error → c.Cluster → c.Cluster
  effect (update x r) s = (c.update s x).1
  effect (update_status x r) s = (c.update_status s x).1
  effect (patch u m r) s = (c.patch s u m).1
  effect (delete g k r) s = (c.delete s g k).1
  effect _ s = s

  -- The calls made again, the last one of the list first.
  abbrev pub replay : Calls c → c.Cluster → c.Cluster
  replay [] s = s
  replay (x ∷ xs) s = effect x (replay xs s)

  pub replay-Keeps :
      (P : Call R c.Error → Type 0) (D : c.Cluster → Type 0)
      → ((x : Call R c.Error) (s : c.Cluster) → P x → D s → D (effect x s))
      → (xs : Calls c) (s : c.Cluster) → All P xs
      → D s
      → D (replay xs s)
  replay-Keeps P D keeps [] s h d = d
  replay-Keeps P D keeps (x ∷ xs) s (h, hs) d = keeps x _ h (replay-Keeps P D keeps xs s hs d)

module _ {S T : Type 0} (l : Library) (c : Client (Resource S T)) (a : Adapter (Resource S T))
    (s : c.Cluster) where
  -- The cluster is what the calls have made of `s`.
  abbrev pub IsReplayed : World c → Type 0
  IsReplayed w = w.cluster ≡ replay c w.calls s

  -- A run that adds to its calls whatever it makes of the cluster.
  abbrev Replays : {A : Type 0} → Run c A → Type 0
  Replays m = Hoare IsReplayed m (λ _. IsReplayed) (λ _. IsReplayed)

  write-Replays :
      {A : Type 0} (op : c.Cluster → Result c.Error A × c.Cluster)
      (call : Result c.Error A → Call (Resource S T) c.Error)
      → ((r : Result c.Error A) (t : c.Cluster) → (op t).1 ≡ effect c (call r) t)
      → Replays (write c op call)
  write-Replays op call same = record {
    run = λ w p.
        Post-both IsReplayed (write c op call w)
          (same (op w.cluster).0 w.cluster ∙ ap (effect c (call (op w.cluster).0)) p);
  }

  forgive-Replays :
      {A B : Type 0} (m : Run c B) (absent : A) (present : B → A)
      → Replays m
      → Replays (attempt m >>= forgive l c a absent present)
  forgive-Replays {B = B} m absent present h =
      Hoare-bind (attempt m) (forgive l c a absent present) (Hoare-attempt m h) go
    where
      go :
          (r : Result c.Error B)
          → Hoare IsReplayed (forgive l c a absent present r) (λ _. IsReplayed) (λ _. IsReplayed)
      go (ok b) = Hoare-pure (present b) (λ w p. p)
      go (err e) = elim (Bool-cases (c.is_not_found e)) [
        | inl y ↦ rw y (Hoare-pure absent (λ w p. p))
        | inr n ↦ rw n (Hoare-raise e (λ w p. p))
      ]

  get_target-Replays : (g : GroupVersionKind) (n m : String) → Replays (get_target l c a g n m)
  unfolding get_target
  get_target-Replays g n m =
      let get : Run c Unstructured =
        look c (λ t. c.get_object t g (named n m)) (read_object g (named n m)) in
      forgive-Replays get none some (record { run = λ w p. Post-both IsReplayed (get w) p })

  apply_target-Replays : (u : Unstructured) → Replays (apply_target l c a u)
  unfolding apply_target
  apply_target-Replays u = write-Replays _ (patch u a.field_manager) (λ r t. refl)

  delete_target-Replays : (n m : String) → Replays (delete_target l c a n m)
  unfolding delete_target
  delete_target-Replays n m =
      forgive-Replays (write c (λ t. c.delete t a.gvk (named n m)) (delete a.gvk (named n m))) false
        (λ _. true)
        (write-Replays (λ t. c.delete t a.gvk (named n m)) (delete a.gvk (named n m)) (λ r t. refl))

  delete_extra-Replays : (g : GroupVersionKind) (n m : String) → Replays (delete_extra l c a g n m)
  unfolding delete_extra
  delete_extra-Replays g n m =
      forgive-Replays (write c (λ t. c.delete t g (named n m)) (delete g (named n m))) tt (λ _. tt)
        (write-Replays (λ t. c.delete t g (named n m)) (delete g (named n m)) (λ r t. refl))

  update-Replays : (x : Resource S T) → Replays (update_resource l c a x)
  unfolding update_resource
  update-Replays x = write-Replays _ (update x) (λ r t. refl)

  update_status-Replays : (x : Resource S T) → Replays (update_resource_status l c a x)
  unfolding update_resource_status
  update_status-Replays x = write-Replays _ (update_status x) (λ r t. refl)

  announce-Replays :
      (o : Option Unstructured) (cr : Resource S T) (t : String) → Replays (announce l c a o cr t)
  unfolding announce
  announce-Replays none cr t = record { run = λ w p. p }
  announce-Replays (some u) cr t = Hoare-pure tt (λ w p. p)

  apply_extra-Replays : (n : String) (x : ExtraResource) → Replays (apply_extra l c a n x)
  unfolding apply_extra
  apply_extra-Replays n x = go x.desired
    where
      go : (o : Option Unstructured) → Replays (apply_extra l c a n (record x { desired = o }))
      go none = delete_extra-Replays x.gvk n x.name
      go (some u) =
          Hoare-bind (apply_target l c a u) _ (apply_target-Replays u)
            (λ _. Hoare-pure tt (λ w p. p))

  apply_extras-Replays : (n : String) (xs : List ExtraResource) → Replays (apply_extras l c a n xs)
  unfolding apply_extras
  apply_extras-Replays n [] = Hoare-pure tt (λ w p. p)
  apply_extras-Replays n (x ∷ xs) =
      Hoare-bind (apply_extra l c a n x) _ (apply_extra-Replays n x)
        (λ _. apply_extras-Replays n xs)

  delete_extras-Replays :
      (n : String) (xs : List ExtraResource) → Replays (delete_extras l c a n xs)
  unfolding delete_extras
  delete_extras-Replays n [] = Hoare-pure tt (λ w p. p)
  delete_extras-Replays n (x ∷ xs) =
      Hoare-bind (delete_extra l c a x.gvk n x.name) _ (delete_extra-Replays x.gvk n x.name)
        (λ _. delete_extras-Replays n xs)

  module _ (cr : Resource S T) (t : String) where
    release-Replays : Replays (release l c a cr t)
    unfolding release
    release-Replays =
        Hoare-bind (delete_target l c a cr.metadata.namespace t) _
          (delete_target-Replays cr.metadata.namespace t)
          (λ _. Hoare-bind (delete_extra_resources l c a cr t) _ (delete_extras-Replays _ _) (λ _.
            Hoare-bind (update_resource l c a (with_finalizers _ cr)) _ (update-Replays _)
              (λ _. Hoare-pure _ (λ w p. p))))

    adopt-Replays : Replays (adopt l c a cr)
    unfolding adopt
    adopt-Replays =
        Hoare-bind (update_resource l c a (with_finalizers _ cr)) _ (update-Replays _)
          (λ _. Hoare-pure _ (λ w p. p))

    converge-Replays : Replays (converge l c a cr t)
    unfolding converge
    converge-Replays =
        let u = a.build_manifest cr t cr.metadata.namespace cr.metadata.name in
        Hoare-bind (get_target l c a a.gvk cr.metadata.namespace t) _ (get_target-Replays a.gvk _ t)
          (λ existing. Hoare-bind (apply_target l c a u) _ (apply_target-Replays u) (λ merged.
            Hoare-bind (announce l c a existing cr t) _ (announce-Replays existing cr t) (λ _.
              Hoare-bind (apply_extra_resources l c a cr t) _ (apply_extras-Replays _ _) (λ _.
                let x = (a.apply_status cr t (a.extract_status (some merged))).0 in
                Hoare-bind (update_resource_status l c a x) _ (update_status-Replays x)
                  (λ _. Hoare-pure _ (λ w p. p))))))

    finalize-Replays : Replays (finalize l c a cr t)
    unfolding finalize
    finalize-Replays = elim (Bool-cases (has_finalizer l c a cr)) [
      | inl y ↦ rw y release-Replays
      | inr n ↦ rw n (Hoare-pure _ (λ w p. p))
    ]

    sync-Replays : Replays (sync l c a cr t)
    unfolding sync
    sync-Replays = elim (Bool-cases (has_finalizer l c a cr)) [
      | inl y ↦ rw y converge-Replays
      | inr n ↦ rw n adopt-Replays
    ]

  on_get-Replays : (r : Result c.Error (Resource S T)) → Replays (on_get l c a r)
  unfolding on_get
  on_get-Replays (ok cr) = elim (Bool-cases (is_deleting cr)) [
    | inl y ↦ rw y (finalize-Replays cr (a.target_name cr.metadata.name))
    | inr n ↦ rw n (sync-Replays cr (a.target_name cr.metadata.name))
  ]
  on_get-Replays (err e) = go (c.ignore_not_found e)
    where
      go : (o : Option c.Error) → Replays (elim o [ none ↦ pure done | some e' ↦ raise e' ])
      go none = Hoare-pure done (λ w p. p)
      go (some e') = Hoare-raise e' (λ w p. p)

  pub run-IsReplayed : (req : NamespacedName) → IsReplayed (run l c a req s).1
  unfolding reconcile
  run-IsReplayed req = Post-same IsReplayed (run l c a req s) (
      (on_get-Replays (c.get s req)).run
        (record { cluster = s; calls = read req (c.get s req) ∷ [] }) refl)
