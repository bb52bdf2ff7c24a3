-- ===== src/Reconciler/Follows.antt =====
-- Every run makes the requests of the plan, or the first ones of them.
use project_easter.Base.{
  String, ◌≡◌, refl, ap, Option, none, some, List, [], ◌∷◌, ◌++◌, map, inl, inr, ◌⊎◌, ◌∙◌,
  Bool-cases,
}
use project_easter.Base.Exec.{Result, ok, err}
use project_easter.Base.Hoare.{Post, Post-map, Hoare-map, Hoare-bind}
use project_easter.Api.{NamespacedName, named, Unstructured, Resource}
use project_easter.Platform.{Library, Client}
use project_easter.Reconciler.Adapter.{Adapter, ExtraResource}
use project_easter.Reconciler.Calls.{Call, Run, World, read, read_object, patch}
use project_easter.Reconciler.Engine.{
  done, has_finalizer, is_deleting, get_target, apply_target, extras, apply_extra_resources,
  announce, update_resource_status, finalize, converge, sync, on_get, reconcile,
}
use project_easter.Reconciler.Confinement.{run}
use project_easter.Reconciler.Contract.{listed}
use project_easter.Reconciler.Plan.{
  Request, reads, looks, reports, applies, requests, settle, announced, Answered, converging,
  releasing, adopting, plan,
}
use project_easter.Reconciler.Logic.{Calls, Spec, Spec-write}
use project_easter.Reconciler.Rules.{Spec-forgive}
use project_easter.Reconciler.Asking.{
  announce-Asks, apply_extras-Asks, update_resource_status-Asks, release-Asks, adopt-Asks,
}
use project_easter.Reconciler.Planned.{
  Asks, Made, Cut, requests-Made, Made-append, Cut-later, Asks-pure, Asks-bind,
}

-- What a look at an object has shown.
abbrev pub seen : {E : Type 0} → Result E Unstructured → Option Unstructured
seen (ok u) = some u
seen (err e) = none

module _ {S T : Type 0} (l : Library) (c : Client (Resource S T)) (a : Adapter (Resource S T))
    (cr : Resource S T) where
  abbrev t : String
  t = a.target_name cr.metadata.name

  abbrev listed_extras : List ExtraResource
  listed_extras = listed a cr t cr.metadata.namespace cr.metadata.name

  abbrev manifest : Unstructured
  manifest = a.build_manifest cr t cr.metadata.namespace cr.metadata.name

  -- The API server answered the look at the target and the apply of the manifest, the first two calls
  -- after those of `t0`, as `i` says.
  abbrev pub Heard : Calls c → Answered → Calls c → Type 0
  Heard t0 i calls =
      (later : Calls c) × (r : Result c.Error Unstructured) × (calls
        ≡ later
          ++ patch manifest a.field_manager (ok i.merged)
            ∷ read_object a.gvk (named cr.metadata.namespace t) r
            ∷ t0)
      × (seen r ≡ i.existing)

  -- `P` holds for the answers that were given, or whatever they would be.
  abbrev pub Told : Calls c → (Answered → Type 0) → Calls c → Type 0
  Told t0 P calls = ((i : Answered) → P i) ⊎ ((i : Answered) × Heard t0 i calls × P i)

  Told-map :
      (t0 calls : Calls c) (P Q : Answered → Type 0)
      → ((i : Answered) → P i → Q i)
      → Told t0 P calls
      → Told t0 Q calls
  Told-map t0 calls P Q f (inl h) = inl (λ i. f i (h i))
  Told-map t0 calls P Q f (inr (i, h, p)) = inr (i, h, f i p)

  pub told_some :
      (t0 calls : Calls c) (P : Answered → Type 0) → Told t0 P calls → (i : Answered) × P i
  told_some t0 calls P (inl h) =
      let i : Answered = record { existing = none; merged = manifest } in (i, h i)
  told_some t0 calls P (inr (i, h, p)) = (i, p)

  module _ (t0 : Calls c) where
    -- The requests of the plan after those of `t0`, and the first ones of them.
    abbrev Whole : (Answered → List (Request (Resource S T))) → Calls c → Type 0
    Whole p calls = Told t0 (λ i. Made c t0 (p i) calls) calls

    abbrev Part : (Answered → List (Request (Resource S T))) → Calls c → Type 0
    Part p calls = Told t0 (λ i. Cut c t0 (p i) calls) calls

    abbrev KeepsTo : {A : Type 0} → Run c A → (Answered → List (Request (Resource S T))) → Type 0
    KeepsTo m p = Spec c (λ calls. calls ≡ t0) m (λ _. Whole p) (λ _. Part p)

    told :
        {A : Type 0} (m : Run c A) (p : List (Request (Resource S T)))
        → Asks c m p
        → KeepsTo m (λ _. p)
    told m p h = Hoare-map m (λ _ w e. inl (λ _. e)) (λ _ w e. inl (λ _. e)) (h t0)

    abbrev looked : Result c.Error Unstructured → Call (Resource S T) c.Error
    looked r = read_object a.gvk (named cr.metadata.namespace t) r

    abbrev Looked : Option Unstructured → Calls c → Type 0
    Looked existing calls =
        (r : Result c.Error Unstructured) × (calls ≡ looked r ∷ t0) × (seen r ≡ existing)

    abbrev Applied : Option Unstructured → Unstructured → Calls c → Type 0
    Applied existing merged calls =
        (r : Result c.Error Unstructured) × (calls
          ≡ patch manifest a.field_manager (ok merged) ∷ looked r ∷ t0)
        × (seen r ≡ existing)

    get_target-Looked :
        Spec c
          (λ calls. calls ≡ t0)
          (get_target l c a a.gvk cr.metadata.namespace t)
          Looked
          (λ _. Part (converging l c a cr))
    unfolding get_target
    get_target-Looked =
        Spec-forgive l c a (λ calls. calls ≡ t0) Looked (λ _. Part (converging l c a cr)) looked
          none some (λ s. (c.get_object s a.gvk (named cr.metadata.namespace t), s))
          (λ b calls s q e. (ok b, ap (λ u. looked (ok b) ∷ u) e, refl))
          (λ x calls s q y e. (err x, ap (λ u. looked (err x) ∷ u) e, refl))
          (λ x calls s q y e. inl (λ i. (
            looks a.gvk (named cr.metadata.namespace t) ∷ [],
            _,
            refl,
            (looked (err x) ∷ [], ap (λ u. looked (err x) ∷ u) e, refl),
          )))

    apply_target-Applied :
        (existing : Option Unstructured)
        → Spec c
            (Looked existing)
            (apply_target l c a manifest)
            (Applied existing)
            (λ _. Part (converging l c a cr))
    unfolding apply_target
    apply_target-Applied existing =
        let sent : Result c.Error Unstructured → Call (Resource S T) c.Error =
          patch manifest a.field_manager in
        Spec-write c (Looked existing) (Applied existing) (λ _. Part (converging l c a cr)) sent
          (λ s. c.patch s manifest a.field_manager)
          (λ b calls s q h. (h.0, ap (λ u. sent (ok b) ∷ u) h.1, h.2))
          (λ x calls s q h. inl (λ i. (
            looks a.gvk (named cr.metadata.namespace t) ∷ applies manifest a.field_manager ∷ [],
            _,
            refl,
            (sent (err x) ∷ looked h.0 ∷ [], ap (λ u. sent (err x) ∷ u) h.1, refl),
          )))

    -- What the plan has after the two answers.
    abbrev rest : Answered → List (Request (Resource S T))
    rest i =
        announced l c a cr i.existing
        ++ (map (settle l c a cr.metadata.namespace) listed_extras
            ++ reports (a.apply_status cr t (a.extract_status (some i.merged))).0 ∷ [])

    first_two :
        (existing : Option Unstructured) (merged : Unstructured) (calls : Calls c)
        → Applied existing merged calls
        → Made c t0
            (looks a.gvk (named cr.metadata.namespace t) ∷ applies manifest a.field_manager ∷ [])
            calls
    first_two existing merged calls (r, e, f) =
        (patch manifest a.field_manager (ok merged) ∷ looked r ∷ [], e, refl)

    heard :
        (i : Answered) (v calls new : Calls c)
        → Applied i.existing i.merged v
        → calls ≡ new ++ v
        → Heard t0 i calls
    heard i v calls new (r, e, f) e' = (new, r, e' ∙ ap (λ u. new ++ u) e, f)

    answered :
        {A : Type 0} (i : Answered) (m : Run c A)
        → Asks c m (rest i)
        → Spec c
            (Applied i.existing i.merged)
            m
            (λ _. Whole (converging l c a cr))
            (λ _. Part (converging l c a cr))
    answered i m h = record {
      run = λ v h0.
          Post-map _ _ _ _ (m v)
            (λ _ w made. inr (
              i,
              heard i v.calls w.calls made.0 h0 made.1,
              Made-append c t0 v.calls w.calls _ (rest i) (first_two i.existing i.merged v.calls h0)
                  made,
            ))
            (λ _ w cut. inr (
              i,
              heard i v.calls w.calls cut.3.0 h0 cut.3.1,
              Cut-later c t0 v.calls w.calls _ (rest i) (first_two i.existing i.merged v.calls h0)
                  cut,
            ))
            ((h v.calls).run v refl);
    }

    converge-KeepsTo : KeepsTo (converge l c a cr t) (converging l c a cr)
    unfolding converge extras
    converge-KeepsTo =
        let n = cr.metadata.namespace in
        Hoare-bind (get_target l c a a.gvk n t) _ get_target-Looked (λ existing.
          Hoare-bind (apply_target l c a manifest) _ (apply_target-Applied existing) (λ merged.
            let x = (a.apply_status cr t (a.extract_status (some merged))).0 in
            answered (record { existing = existing; merged = merged }) _
              (Asks-bind c (announce l c a existing cr t) _ (announced l c a cr existing) _
                (announce-Asks l c a cr existing)
                (λ _.
                  Asks-bind c (apply_extra_resources l c a cr t) _
                    (map (settle l c a n) listed_extras) (reports x ∷ [])
                    (apply_extras-Asks l c a n listed_extras)
                    (λ _.
                      Asks-bind c (update_resource_status l c a x) _ (reports x ∷ []) []
                        (update_resource_status-Asks l c a x) (λ _. Asks-pure c _))))))

    on_get-KeepsTo : KeepsTo (on_get l c a (ok cr)) (plan l c a cr)
    unfolding on_get finalize sync
    on_get-KeepsTo = elim (Bool-cases (is_deleting cr)) [
      | inl d ↦ rw d (elim (Bool-cases (has_finalizer l c a cr)) [
        | inl y ↦ rw y (told _ (releasing l c a cr) (release-Asks l c a cr))
        | inr n ↦ rw n (told _ [] (Asks-pure c done))
      ])
      | inr m ↦ rw m (elim (Bool-cases (has_finalizer l c a cr)) [
        | inl y ↦ rw y converge-KeepsTo
        | inr n ↦ rw n (told _ (adopting l c a cr) (adopt-Asks l c a cr))
      ])
    ]

-- The requests of a run that succeeds are the read of the resource and then exactly those of the plan, in
-- its order; a run that fails made the first ones of them. Where the plan depends on how the API server
-- answers, it is the plan for the answers that the run was given (`Heard`): by the look at the target and
-- by the apply of the manifest, its two calls after the read.
pub run-Follows :
    {S T : Type 0} (l : Library) (c : Client (Resource S T)) (a : Adapter (Resource S T))
    (req : NamespacedName) (s : c.Cluster) (cr : Resource S T)
    → c.get s req ≡ ok cr
    → let t0 : Calls c = read req (ok cr) ∷ [] in
      Post
        (λ _ (w : World c).
          Told l c a cr t0 (λ i. requests w.calls ≡ reads req ∷ plan l c a cr i) w.calls)
        (λ _ (w : World c).
          Told l c a cr t0
            (λ i.
              (made : List (Request (Resource S T))) × (left : List (Request (Resource S T)))
              × (plan l c a cr i ≡ made ++ left)
              × (requests w.calls ≡ reads req ∷ made))
            w.calls)
        (run l c a req s)
unfolding reconcile
run-Follows l c a req s cr e =
    let t0 : Calls c = read req (ok cr) ∷ [] in
    rw e (
      (Hoare-map (on_get l c a (ok cr))
          (λ _ w. Told-map l c a cr t0 w.calls _ _ (λ i made. requests-Made c t0 w.calls _ made))
          (λ _ w.
            Told-map l c a cr t0 w.calls _ _
              (λ i cut. (cut.0, cut.1, cut.2, requests-Made c t0 w.calls cut.0 cut.3)))
          (on_get-KeepsTo l c a cr t0)).run
        (record { cluster = s; calls = t0 }) refl)
