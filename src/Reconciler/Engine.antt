-- ===== src/Reconciler/Engine.antt =====
-- `GenericReconciler` of internal/reconciler/reconciler.go: `Reconcile` and the methods below it.
-- The log messages are left out.
use project_easter.Base.{
  ℕ, ◌*◌, ◌^◌, String, ◌<>◌, Bool, true, false, Option, none, some, List, [], ◌∷◌, if◌then◌else◌,
}
use project_easter.Base.Exec.{Result, ok, err, pure, raise, attempt, ◌>>=◌, ◌>>◌}
use project_easter.Base.Format.{quote}
use project_easter.Api.{GroupVersionKind, NamespacedName, Unstructured, Resource}
use project_easter.Platform.{Library, Client}
use project_easter.Reconciler.Adapter.{Adapter, ExtraResource, TargetStatus, finalizer_name}
use project_easter.Reconciler.Calls.{
  Event, Run, write, look, tell, read, read_object, update, update_status, patch, delete,
}

-- ctrl.Result; a duration is a number of nanoseconds
pub record Outcome : Type 0 where
  pub requeue : Bool
  pub requeue_after : ℕ

abbrev pub second : ℕ
second = 10 ^ 9

abbrev pub minute : ℕ
minute = 60 * second

abbrev pub done : Outcome
done = record { requeue = false; requeue_after = 0 }

abbrev pub with_finalizers : {S T : Type 0} → List String → Resource S T → Resource S T
with_finalizers fs cr = record cr { metadata = record cr.metadata { finalizers = fs } }

abbrev pub is_deleting : {S T : Type 0} → Resource S T → Bool
is_deleting cr = elim cr.metadata.deletion_timestamp [ none ↦ false | some _ ↦ true ]

module _ {S T : Type 0} (l : Library) (c : Client (Resource S T)) (a : Adapter (Resource S T)) where
  abbrev pub has_finalizer : Resource S T → Bool
  has_finalizer cr = l.contains_finalizer cr.metadata.finalizers finalizer_name

  -- After a call that looks at its error: a missing object gives `absent`, another error is returned.
  abbrev pub forgive : {A B : Type 0} → A → (B → A) → Result c.Error B → Run c A
  forgive absent present (ok b) = pure (present b)
  forgive absent present (err e) = if c.is_not_found e then pure absent else raise e

  -- `GetTarget`: an object that is not found is no error
  unfoldable pub get_target : GroupVersionKind → String → String → Run c (Option Unstructured)
  get_target gvk namespace name = do
    let key : NamespacedName = record { namespace = namespace; name = name }
    r ← attempt (look c (λ s. c.get_object s gvk key) (read_object gvk key))
    forgive none some r

  -- `applyTarget`: the merged object
  unfoldable pub apply_target : Unstructured → Run c Unstructured
  apply_target u = write c (λ s. c.patch s u a.field_manager) (patch u a.field_manager)

  -- `r.Delete`
  unfoldable pub delete_object : GroupVersionKind → String → String → Run c (Unit {0})
  delete_object gvk namespace name =
      let key : NamespacedName = record { namespace = namespace; name = name } in
      write c (λ s. c.delete s gvk key) (delete gvk key)

  -- `deleteTarget`: whether there was something to delete
  unfoldable pub delete_target : String → String → Run c Bool
  unfolding delete_object
  delete_target namespace name = do
    r ← attempt (delete_object a.gvk namespace name)
    forgive false (λ _. true) r

  -- `deleteExtra`
  unfoldable pub delete_extra : GroupVersionKind → String → String → Run c (Unit {0})
  unfolding delete_object
  delete_extra gvk namespace name = do
    r ← attempt (delete_object gvk namespace name)
    forgive tt (λ _. tt) r

  unfoldable pub apply_extra : String → ExtraResource → Run c (Unit {0})
  unfolding apply_target delete_extra
  apply_extra namespace x = elim x.desired [
    | none ↦ delete_extra x.gvk namespace x.name
    | some u ↦ (do apply_target u; pure tt)
  ]

  -- the loops over the extra resources
  unfoldable pub apply_extras : String → List ExtraResource → Run c (Unit {0})
  unfolding apply_extra
  apply_extras namespace [] = pure tt
  apply_extras namespace (x ∷ xs) = apply_extra namespace x >> apply_extras namespace xs

  unfoldable pub delete_extras : String → List ExtraResource → Run c (Unit {0})
  unfolding delete_extra
  delete_extras namespace [] = pure tt
  delete_extras namespace (x ∷ xs) =
      delete_extra x.gvk namespace x.name >> delete_extras namespace xs

  -- the extra resources that the adapter lists, if it does
  unfoldable pub extras : Resource S T → String → List ExtraResource
  extras cr target = elim a.extra_resources [
    | none ↦ []
    | some list ↦ list cr target cr.metadata.namespace cr.metadata.name
  ]

  unfoldable pub apply_extra_resources : Resource S T → String → Run c (Unit {0})
  unfolding apply_extras extras
  apply_extra_resources cr target = apply_extras cr.metadata.namespace (extras cr target)

  unfoldable pub delete_extra_resources : Resource S T → String → Run c (Unit {0})
  unfolding delete_extras extras
  delete_extra_resources cr target = delete_extras cr.metadata.namespace (extras cr target)

  unfoldable pub update_resource : Resource S T → Run c (Unit {0})
  update_resource cr = write c (λ s. c.update s cr) (update cr)

  unfoldable pub update_resource_status : Resource S T → Run c (Unit {0})
  update_resource_status cr = write c (λ s. c.update_status s cr) (update_status cr)

  -- the deletion path of a resource that has the finalizer
  unfoldable pub release : Resource S T → String → Run c Outcome
  unfolding delete_target delete_extra_resources update_resource
  release cr target = do
    delete_target cr.metadata.namespace target
    delete_extra_resources cr target
    update_resource (with_finalizers (l.remove_finalizer cr.metadata.finalizers finalizer_name) cr)
    pure done

  -- the deletion path
  unfoldable pub finalize : Resource S T → String → Run c Outcome
  unfolding release
  finalize cr target = if has_finalizer cr then release cr target else pure done

  unfoldable pub created : Resource S T → String → Event
  unfolding quote
  created cr target = record {
    type = "Normal";
    reason = "TargetCreated";
    action = "Sync";
    note =
        a.object_kind
        <> (" "
            <> (quote l.is_print target
                <> (" created in namespace " <> quote l.is_print cr.metadata.namespace)));
  }

  unfoldable pub announce : Option Unstructured → Resource S T → String → Run c (Unit {0})
  unfolding created
  announce none cr target = tell c (created cr target)
  announce (some _) cr target = pure tt

  unfoldable pub requeue_later : TargetStatus → Outcome
  requeue_later s = record {
    requeue = false;
    requeue_after = if s.ready then 5 * minute else 15 * second;
  }

  -- the steps 2 to 4 of the normal path
  unfoldable pub converge : Resource S T → String → Run c Outcome
  unfolding get_target apply_target announce apply_extra_resources update_resource_status
      requeue_later
  converge cr target = do
    existing ← get_target a.gvk cr.metadata.namespace target
    merged ← apply_target (a.build_manifest cr target cr.metadata.namespace cr.metadata.name)
    announce existing cr target
    apply_extra_resources cr target
    let status = a.extract_status (some merged)
    update_resource_status (a.apply_status cr target status).0
    pure (requeue_later status)

  -- step 1 of the normal path for a resource that has no finalizer yet
  unfoldable pub adopt : Resource S T → Run c Outcome
  unfolding update_resource
  adopt cr = do
    update_resource (with_finalizers (l.add_finalizer cr.metadata.finalizers finalizer_name) cr)
    pure (record { requeue = true; requeue_after = 0 })

  -- the normal path
  unfoldable pub sync : Resource S T → String → Run c Outcome
  unfolding converge adopt
  sync cr target = if has_finalizer cr then converge cr target else adopt cr

  -- `Reconcile` from its first `Get` on
  unfoldable pub on_get : Result c.Error (Resource S T) → Run c Outcome
  unfolding finalize sync
  on_get (err e) = elim (c.ignore_not_found e) [ none ↦ pure done | some e' ↦ raise e' ]
  on_get (ok cr) =
      let target = a.target_name cr.metadata.name in
      if is_deleting cr then finalize cr target else sync cr target

  unfoldable pub reconcile : NamespacedName → Run c Outcome
  unfolding on_get
  reconcile req = do r ← attempt (look c (λ s. c.get s req) (read req)); on_get r
