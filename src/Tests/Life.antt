-- ===== src/Tests/Life.antt =====
-- A PrometheusInstance from its first run to its end.
use project_easter.Base.{inl, ◌≡◌, ◌≢◌, refl, true, none, some, [], ◌∷◌}
use project_easter.Base.Int.{int32}
use project_easter.Base.Value.{insert, insert_if, insert_some}
use project_easter.Base.Exec.{ok}
use project_easter.Api.{PrometheusInstance, PrometheusInstanceSpec, PrometheusInstanceStatus}
use project_easter.Reconciler.Contract.{Key}
use project_easter.Reconciler.Engine.{Outcome, done, reconcile}
use project_easter.Reconciler.Confinement.{run}
use project_easter.Reconciler.Plan.{requests}
use project_easter.Reconciler.Repeats.{settling, wanted, run-Repeats}
use project_easter.Reconciler.Settling.{settles_in_two}
use project_easter.Vendor.Driven.{prometheus-IsDriven}
use project_easter.Reconciler.Achieved.{Achieved, run-Achieved}
use project_easter.Vendor.Apart.{prometheus-AreApart}
use project_easter.Tests.Memory.Effects.{memory_effects}
use project_easter.Reconciler.Effects.{Effects}
use project_easter.Reconciler.Resting.{run-AtRest}
use project_easter.Tests.Memory.Idle.{memory-Idle}
use project_easter.Reconciler.Store.{Store}
use project_easter.Reconciler.Orphans.{IsOwned}
use project_easter.Reconciler.Life.{run-Gone}
use project_easter.Vendor.Common.{resources_json, resource_list_json}
use project_easter.Vendor.Prometheus
use project_easter.Vendor.Contract.{prometheus-IsLawful}
use project_easter.Tests.Samples.{library, library-FinalizerLaws}
use project_easter.Tests.Memory.{Memory, shelf, memory-IsAvailable, put, object_at}
use project_easter.Tests.Memory.Laws.{memory-StoreLaws, memory-ReadsBack}
use project_easter.Tests.Engine.{
  waiting, held, request, instance_with, fresh, client, stored, adapter,
}

abbrev pub Cluster : Type 0
Cluster = Memory PrometheusInstance

abbrev ran : Cluster → Cluster
ran s = (run library client adapter request s).1.cluster

-- The instance is adopted, its objects are made, its deletion is requested, and it goes.
abbrev adopted : Cluster
adopted = ran (stored fresh)

abbrev settled : Cluster
settled = ran adopted

abbrev pub unwanted : PrometheusInstance
unwanted = instance_with ("paas.example.com/cleanup" ∷ []) (some "2026-01-01T00:00:00Z")

abbrev marked : Cluster
marked = record settled { resources = put unwanted settled.resources }

abbrev ended : Cluster
ended = ran marked

abbrev pub view : Store client
view = shelf PrometheusInstanceSpec PrometheusInstanceStatus

-- While it is settled its target is there, at the end nothing is.
target_is_there : object_at Prometheus.gvk request settled.objects ≢ none
unfolding reconcile Prometheus.build_manifest Prometheus.extract_status Prometheus.extra_resources
    insert_if insert_some insert resources_json resource_list_json int32
target_is_there e = cc e

-- the target, as an instance in its first version owns it
abbrev pub target_key : Key
target_key = record { gvk = Prometheus.gvk; namespace = "monitoring"; name = "main" }

abbrev pub target-IsOwned : IsOwned adapter request target_key
target-IsOwned = (fresh, refl, refl, inl refl)

returned : (run library client adapter request marked).0 ≡ ok done
unfolding reconcile Prometheus.build_manifest Prometheus.extract_status Prometheus.extra_resources
    insert_if insert_some insert resources_json resource_list_json int32
returned = refl

run-Gone_example : ¬ view.IsLive ended target_key
run-Gone_example =
    run-Gone library library-FinalizerLaws adapter (prometheus-IsLawful library) view request
      (memory-StoreLaws library request (IsOwned adapter request)) marked unwanted done refl refl
      refl returned target_key target-IsOwned

-- a later version of the instance, beside the objects that an earlier run has left
abbrev reported : PrometheusInstance
reported = record held { status = record held.status { ready = true; phase = "Ready" } }

abbrev settled_before : Cluster
settled_before = record settled { resources = put reported settled.resources }

still_waits : (run library client adapter request settled_before).0 ≡ ok waiting
unfolding reconcile Prometheus.build_manifest Prometheus.extract_status Prometheus.extra_resources
    insert_if insert_some insert resources_json resource_list_json int32
still_waits = refl

pub first_waits : (run library client adapter request (stored held)).0 ≡ ok waiting
unfolding reconcile Prometheus.build_manifest Prometheus.extract_status Prometheus.extra_resources
    insert_if insert_some insert resources_json resource_list_json int32
first_waits = refl

run-Repeats_example :
    settling (requests (run library client adapter request (stored held)).1.calls)
    ≡ settling (requests (run library client adapter request settled_before).1.calls)
run-Repeats_example =
    run-Repeats library client adapter (prometheus-IsDriven library) request (stored held)
      settled_before held reported waiting waiting (refl, refl) (refl, refl, refl) (refl, refl)
      (refl, refl) (first_waits, still_waits)

settles_in_two_example :
    ((run library client adapter request (stored fresh)).0
      ≡ ok (record { requeue = true; requeue_after = 0 }))
    × ((o : Outcome) × ((run library client adapter request adopted).0 ≡ ok o))
    × (settling (requests (run library client adapter request adopted).1.calls)
        ≡ wanted library client adapter fresh "monitoring" "main")
settles_in_two_example =
    settles_in_two library library-FinalizerLaws client adapter request
      (prometheus-IsLawful library) (prometheus-IsDriven library)
      (memory-IsAvailable PrometheusInstanceSpec PrometheusInstanceStatus)
      (memory-ReadsBack library request) (stored fresh) fresh refl (refl, refl) refl refl

run-Achieved_example :
    Achieved library client adapter
      (memory_effects PrometheusInstanceSpec PrometheusInstanceStatus adapter.field_manager)
      (prometheus-IsLawful library)
      held
      (run library client adapter request (stored held)).1.cluster
run-Achieved_example =
    run-Achieved library client adapter
      (memory_effects PrometheusInstanceSpec PrometheusInstanceStatus adapter.field_manager)
      (prometheus-IsLawful library) request (stored held) held waiting
      (prometheus-AreApart library held) refl refl refl first_waits

-- the cluster that the first run leaves, with a later version of the instance
abbrev achieved : Cluster
achieved =
    let s = (run library client adapter request (stored held)).1.cluster in
    record s { resources = put reported s.resources }

abbrev pub effects : Effects client adapter.field_manager
effects = memory_effects PrometheusInstanceSpec PrometheusInstanceStatus adapter.field_manager

achieved-Achieved :
    Achieved library client adapter effects (prometheus-IsLawful library) reported achieved
unfolding Prometheus.build_manifest Prometheus.extra_resources
achieved-Achieved =
    run-Achieved library client adapter effects (prometheus-IsLawful library) request (stored held)
      held waiting (prometheus-AreApart library held) refl refl refl first_waits

run-AtRest_example :
    let idle = memory-Idle PrometheusInstanceSpec PrometheusInstanceStatus adapter.field_manager in
    idle.view achieved ≡ idle.view (run library client adapter request achieved).1.cluster
run-AtRest_example =
    run-AtRest library client adapter effects
      (memory-Idle PrometheusInstanceSpec PrometheusInstanceStatus adapter.field_manager) achieved
      (prometheus-IsLawful library) reported achieved-Achieved request refl refl refl
