-- ===== src/Reconciler/Repeats.antt =====
-- Runs are driven by the level, not by what happened: what a run applies and deletes depends on the
-- spec alone.
use project_easter.Base.{
  String, ◌≡◌, refl, sym, ap, ◌∙◌, true, false, Option, none, some, List, [], ◌∷◌, ◌++◌, map,
}
use project_easter.Base.Exec.{ok}
use project_easter.Base.Hoare.{Post-ok}
use project_easter.Api.{NamespacedName, Unstructured, Resource}
use project_easter.Platform.{Library, Client}
use project_easter.Reconciler.Adapter.{Adapter, ExtraResource}
use project_easter.Reconciler.Calls.{read}
use project_easter.Reconciler.Engine.{Outcome, is_deleting, has_finalizer}
use project_easter.Reconciler.Contract.{listed}
use project_easter.Reconciler.Confinement.{run}
use project_easter.Reconciler.Plan.{
  Request, reads, looks, updates, reports, applies, deletes, records, requests, settle, announced,
  Answered, converging, plan,
}
use project_easter.Reconciler.Follows.{told_some, run-Follows}

-- What an adapter asks for is read off the spec, beside the names.
pub record IsDriven {S T : Type 0} (a : Adapter (Resource S T)) : Type 0 where
  pub manifest :
      (cr cr' : Resource S T) (target namespace owner : String)
      → cr.spec ≡ cr'.spec
      → a.build_manifest cr target namespace owner ≡ a.build_manifest cr' target namespace owner
  pub extras :
      (cr cr' : Resource S T) (target namespace owner : String)
      → cr.spec ≡ cr'.spec
      → listed a cr target namespace owner ≡ listed a cr' target namespace owner

-- The requests that change objects, in their order.
abbrev pub settling : {R : Type 0} → List (Request R) → List (Request R)
settling [] = []
settling (applies u m ∷ xs) = applies u m ∷ settling xs
settling (deletes g k ∷ xs) = deletes g k ∷ settling xs
settling (reads k ∷ xs) = settling xs
settling (looks g k ∷ xs) = settling xs
settling (updates x ∷ xs) = settling xs
settling (reports x ∷ xs) = settling xs
settling (records e ∷ xs) = settling xs

module _ {S T : Type 0} (l : Library) (c : Client (Resource S T)) (a : Adapter (Resource S T)) where
  settling-settle :
      (n : String) (y : ExtraResource) (xs : List (Request (Resource S T)))
      → settling (settle l c a n y ∷ xs) ≡ settle l c a n y ∷ settling xs
  settling-settle n y xs = go y.desired
    where
      go :
          (o : Option Unstructured)
          → let z = settle l c a n (record y { desired = o }) in settling (z ∷ xs) ≡ z ∷ settling xs
      go none = refl
      go (some u) = refl

  settling-map :
      (n : String) (xs : List ExtraResource) (x : Resource S T)
      → settling (map (settle l c a n) xs ++ reports x ∷ []) ≡ map (settle l c a n) xs
  settling-map n [] x = refl
  settling-map n (y ∷ ys) x =
      settling-settle n y _ ∙ ap (λ zs. settle l c a n y ∷ zs) (settling-map n ys x)

  settling-announced :
      (cr : Resource S T) (o : Option Unstructured) (xs : List (Request (Resource S T)))
      → settling (announced l c a cr o ++ xs) ≡ settling xs
  settling-announced cr none xs = refl
  settling-announced cr (some u) xs = refl

  -- What is to be there and what is not, in the order of the requests.
  abbrev pub wanted : Resource S T → String → String → List (Request (Resource S T))
  wanted cr namespace name =
      applies (a.build_manifest cr (a.target_name name) namespace name) a.field_manager
      ∷ map (settle l c a namespace) (listed a cr (a.target_name name) namespace name)

  settling-converging :
      (cr : Resource S T) (i : Answered)
      → settling (converging l c a cr i) ≡ wanted cr cr.metadata.namespace cr.metadata.name
  settling-converging cr i =
      let n = cr.metadata.namespace in
      let t = a.target_name cr.metadata.name in
      ap (λ zs. applies (a.build_manifest cr t n cr.metadata.name) a.field_manager ∷ zs)
        (settling-announced cr i.existing _
          ∙ settling-map n (listed a cr t n cr.metadata.name)
              (a.apply_status cr t (a.extract_status (some i.merged))).0)

  pub run-wanted :
      (req : NamespacedName) (s : c.Cluster) (cr : Resource S T) (o : Outcome)
      → c.get s req ≡ ok cr
      → is_deleting cr ≡ false
      → has_finalizer l c a cr ≡ true
      → (run l c a req s).0 ≡ ok o
      → settling (requests (run l c a req s).1.calls)
        ≡ wanted cr cr.metadata.namespace cr.metadata.name
  run-wanted req s cr o e live has returned =
      let (i, p) =
        told_some l c a cr (read req (ok cr) ∷ []) (run l c a req s).1.calls _
          (Post-ok _ _ (run l c a req s) o returned (run-Follows l c a req s cr e)) in
      ap settling p ∙ (ap settling (planned i) ∙ settling-converging cr i)
    where
      planned : (i : Answered) → plan l c a cr i ≡ converging l c a cr i
      planned i = rw (live, has) refl

  pub wanted-same :
      IsDriven a
      → (cr cr' : Resource S T)
      → (cr.metadata.name ≡ cr'.metadata.name)
        × (cr.metadata.namespace ≡ cr'.metadata.namespace)
        × (cr.spec ≡ cr'.spec)
      → wanted cr cr.metadata.namespace cr.metadata.name
        ≡ wanted cr' cr'.metadata.namespace cr'.metadata.name
  wanted-same driven cr cr' (p, q, r) = renamed ∙ respecified
    where
      renamed :
          wanted cr cr.metadata.namespace cr.metadata.name
          ≡ wanted cr cr'.metadata.namespace cr'.metadata.name
      renamed = λ i. wanted cr (q i) (p i)

      respecified :
          wanted cr cr'.metadata.namespace cr'.metadata.name
          ≡ wanted cr' cr'.metadata.namespace cr'.metadata.name
      respecified = λ i.
          let n = cr'.metadata.namespace in
          let t = a.target_name cr'.metadata.name in
          applies (driven.manifest cr cr' t n cr'.metadata.name r i) a.field_manager
          ∷ map (settle l c a n) (driven.extras cr cr' t n cr'.metadata.name r i)

  -- Take two runs for one resource, at two times: in any two clusters, with any two versions of the
  -- resource that have the finalizer, are not to be deleted and agree in name, namespace and spec. If
  -- both succeed, they make the same applies of the same objects and the same deletes in the same
  -- order, whatever the status said, whatever was there, and whatever the API server answered. The
  -- adapter is one that reads what it asks for off the name, the namespace and the spec.
  pub run-Repeats :
      (driven : IsDriven a) (req : NamespacedName) (s s' : c.Cluster) (cr cr' : Resource S T)
      (o o' : Outcome)
      → (c.get s req ≡ ok cr) × (c.get s' req ≡ ok cr')
      → (cr.metadata.name ≡ cr'.metadata.name)
        × (cr.metadata.namespace ≡ cr'.metadata.namespace)
        × (cr.spec ≡ cr'.spec)
      → (is_deleting cr ≡ false) × (is_deleting cr' ≡ false)
      → (has_finalizer l c a cr ≡ true) × (has_finalizer l c a cr' ≡ true)
      → ((run l c a req s).0 ≡ ok o) × ((run l c a req s').0 ≡ ok o')
      → settling (requests (run l c a req s).1.calls)
        ≡ settling (requests (run l c a req s').1.calls)
  run-Repeats driven req s s' cr cr' o o' (e, e') same (d, d') (f, f') (t, t') =
      run-wanted req s cr o e d f t
      ∙ (wanted-same driven cr cr' same ∙ sym (run-wanted req s' cr' o' e' d' f' t'))
