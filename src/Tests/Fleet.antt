-- ===== src/Tests/Fleet.antt =====
-- Two PrometheusInstances in one cluster.
use project_easter.Base.{
  ◌≡◌, ◌≢◌, String, true, false, none, refl, sym, ◌∙◌, ap, List, [], ◌∷◌, All, differ, some, Option,
}
use project_easter.Base.Int.{int32}
use project_easter.Base.Value.{insert, insert_if, insert_some}
use project_easter.Base.Exec.{ok}
use project_easter.Api.{NamespacedName, PrometheusInstance}
use mathlib.Core.Path.{subst}
use project_easter.Reconciler.Adapter.{finalizer_name}
use project_easter.Reconciler.Engine.{reconcile}
use project_easter.Reconciler.Confinement.{run}
use project_easter.Reconciler.Store.{Guarded}
use project_easter.Reconciler.Orphans.{IsOwned}
use project_easter.Reconciler.Life.{Reach, start, later, reconciles, others, no_orphans}
use project_easter.Reconciler.Achieved.{Achieved}
use project_easter.Reconciler.Fleet
use project_easter.Vendor.Prometheus
use project_easter.Vendor.Common.{resources_json, resource_list_json}
use project_easter.Vendor.Contract.{prometheus-IsLawful}
use project_easter.Vendor.Apart.{prometheus-AreApart}
use project_easter.Vendor.Separate.{prometheus-IsSeparate}
use project_easter.Tests.Samples.{library, library-FinalizerLaws}
use project_easter.Tests.Memory.{put}
use project_easter.Tests.Memory.Laws.{memory-StoreLaws}
use project_easter.Tests.Engine.{waiting, held, request, fresh, client, stored, adapter}
use project_easter.Tests.Life.{Cluster, unwanted, view, effects, target_key, target-IsOwned}

abbrev side : NamespacedName
side = record { namespace = "monitoring"; name = "side" }

abbrev renamed : PrometheusInstance → PrometheusInstance
renamed x = record x { metadata = record x.metadata { name = "side" } }

abbrev ran : NamespacedName → Cluster → Cluster
ran n s = (run library client adapter n s).1.cluster

-- A second instance beside the first, from the first run of each to the end of the first.
abbrev both : Cluster
both = record (stored fresh) { resources = put (renamed fresh) (stored fresh).resources }

abbrev settled : Cluster
settled = ran side (ran request (ran side (ran request both)))

abbrev marked : Cluster
marked = record settled { resources = put unwanted settled.resources }

abbrev ended : Cluster
ended = ran side (ran request marked)

abbrev finalizers_of : Option PrometheusInstance → List String
finalizers_of none = []
finalizers_of (some x) = x.metadata.finalizers

finalizers_at_end : finalizers_of (view.stored ended request) ≡ []
unfolding reconcile Prometheus.build_manifest Prometheus.extract_status Prometheus.extra_resources
    insert_if insert_some insert resources_json resource_list_json int32 Prometheus.apply_status
finalizers_at_end = refl

end_without_finalizer : ¬ Guarded library view request ended
end_without_finalizer (cr, e, h) =
    let p : cr.metadata.finalizers ≡ [] = sym (ap finalizers_of e) ∙ finalizers_at_end in
    let q : false ≡ true = subst (λ fs. library.contains_finalizer fs finalizer_name ≡ true) p h in
    cc q

abbrev two_lives : Reach library adapter view request both ended
two_lives =
    later
      (later
        (later
          (later
            (later (later (later start (reconciles request refl)) (reconciles side refl))
              (reconciles request refl))
            (reconciles side refl))
          (others (λ _. (unwanted, refl, refl)) (λ k own live. live)))
        (reconciles request refl))
      (reconciles side refl)

no_orphans_example : ¬ view.IsLive ended target_key
no_orphans_example =
    no_orphans library library-FinalizerLaws adapter (prometheus-IsLawful library)
      (prometheus-IsSeparate library) view request
      (memory-StoreLaws library request (IsOwned adapter request)) (λ k own live. cc live.1)
      two_lives end_without_finalizer target_key target-IsOwned

-- Both have the finalizer, and the run for the first converges before that for the second.
abbrev guarded : Cluster
guarded = record (stored held) { resources = put (renamed held) (stored held).resources }

first_waits_too : (run library client adapter request guarded).0 ≡ ok waiting
unfolding reconcile Prometheus.build_manifest Prometheus.extract_status Prometheus.extra_resources
    insert_if insert_some insert resources_json resource_list_json int32
first_waits_too = refl

second_waits : (run library client adapter side (ran request guarded)).0 ≡ ok waiting
unfolding reconcile Prometheus.build_manifest Prometheus.extract_status Prometheus.extra_resources
    insert_if insert_some insert resources_json resource_list_json int32 Prometheus.apply_status
second_waits = refl

-- the name of the one is not that of the other
side_is_another : side ≢ request
side_is_another e = differ "side" "main" refl (ap (λ (n : NamespacedName). n.name) e)

second_is_read : client.get (ran request guarded) side ≡ ok (renamed held)
unfolding reconcile Prometheus.build_manifest Prometheus.extract_status Prometheus.extra_resources
    insert_if insert_some insert resources_json resource_list_json int32 Prometheus.apply_status
second_is_read = refl

abbrev round :
    Fleet.Round library client adapter guarded
      (renamed held ∷ held ∷ [])
      (ran side (ran request guarded))
round =
    Fleet.Round.converges (renamed held) waiting
      (Fleet.Round.converges held waiting Fleet.Round.start tt refl refl refl first_waits_too)
      (side_is_another, tt) second_is_read refl refl second_waits

Round-Achieved_example :
    All
      (λ x.
        Achieved library client adapter effects
          (prometheus-IsLawful library)
          x
          (ran side (ran request guarded)))
      (renamed held ∷ held ∷ [])
Round-Achieved_example =
    Fleet.Round-Achieved library client adapter effects
      (memory-StoreLaws library request (IsOwned adapter request)).get_named
      (prometheus-IsLawful library) (prometheus-IsSeparate library) (prometheus-AreApart library)
      guarded (ran side (ran request guarded)) (renamed held ∷ held ∷ []) round
