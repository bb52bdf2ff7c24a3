-- ===== src/Tests/Engine.antt =====
-- Runs of `Reconcile` for a PrometheusInstance.
use project_easter.Base.{
  String, ◌≡◌, refl, false, Option, none, some, List, [], ◌∷◌, ◌++◌, All, ◌*◌,
}
use project_easter.Base.Int.{pos, int32}
use project_easter.Base.Value.{insert, insert_if, insert_some}
use project_easter.Base.Exec.{ok}
use project_easter.Base.Hoare.{Post}
use project_easter.Api.{
  NamespacedName, PrometheusInstance, PrometheusInstanceSpec, PrometheusInstanceStatus, IngressSpec,
}
use project_easter.Platform.{Client}
use project_easter.Reconciler.Adapter.{Adapter}
use project_easter.Reconciler.Engine.{Outcome, done, reconcile, second}
use project_easter.Reconciler.Logic.{Passes}
use project_easter.Reconciler.Scope.{Touches}
use project_easter.Reconciler.Confinement.{run, StoppedBy, run-Touches, run-stops}
use project_easter.Reconciler.Progress.{run-returns}
use project_easter.Reconciler.Cleanup.{ReleaseIsLast, run-ReleaseIsLast}
use project_easter.Reconciler.Mirror.{Mirrors, run-Mirrors}
use project_easter.Reconciler.Events.{EventsAreTrue, run-EventsAreTrue}
use project_easter.Reconciler.Gate.{IsGated, run-IsGated}
use project_easter.Reconciler.Calls.{read}
use project_easter.Reconciler.Contract.{listed}
use project_easter.Reconciler.Extras.{Settled, run-Settled}
use project_easter.Reconciler.Plan.{Request, reads, requests, plan}
use project_easter.Reconciler.Follows.{Told, run-Follows}
use project_easter.Reconciler.Release.{Freed, run-Freed}
use project_easter.Vendor.Common.{resources_json, resource_list_json}
use project_easter.Vendor.Prometheus
use project_easter.Vendor.Contract.{prometheus-IsLawful}
use project_easter.Tests.Memory.{Memory, memory, memory-IsAvailable, holding}
use project_easter.Tests.Samples.{library, library-FinalizerLaws}

abbrev pub request : NamespacedName
request = record { namespace = "monitoring"; name = "main" }

abbrev ingress : IngressSpec
ingress = record {
  host = "prometheus.example.com";
  ingress_class_name = "nginx";
  tls_secret_name = "";
  annotations = [];
}

abbrev pub instance_with : List String → Option String → PrometheusInstance
instance_with finalizers deleted = record {
  metadata = record {
    name = "main";
    namespace = "monitoring";
    generation = pos 3;
    resource_version = "17";
    deletion_timestamp = deleted;
    finalizers = finalizers;
  };
  spec = record {
    version = "v3.1.0";
    replicas = pos 2;
    retention = "15d";
    storage = some (record { size = "10Gi"; storage_class = "" });
    resources = record { requests = ("cpu", "500m") ∷ []; limits = [] };
    ingress = some ingress;
  };
  status = record {
    ready = false;
    phase = "";
    replicas = pos 0;
    ready_replicas = pos 0;
    message = "";
    conditions = [];
  };
}

abbrev pub fresh : PrometheusInstance
fresh = instance_with [] none

abbrev pub held : PrometheusInstance
held = instance_with ("paas.example.com/cleanup" ∷ []) none

abbrev pub leaving : PrometheusInstance
leaving = instance_with ("paas.example.com/cleanup" ∷ "other" ∷ []) (some "2026-01-01T00:00:00Z")

abbrev pub client : Client PrometheusInstance
client = memory PrometheusInstanceSpec PrometheusInstanceStatus

abbrev pub stored : PrometheusInstance → Memory PrometheusInstance
stored x = holding x []

abbrev pub adapter : Adapter PrometheusInstance
adapter = Prometheus.adapter library

run-Touches_example :
    All (Touches client adapter held) (run library client adapter request (stored held)).1.calls
run-Touches_example =
    run-Touches library client adapter (prometheus-IsLawful library) request (stored held) held refl

run-stops_example :
    Post
      (λ _ w. All (Passes client) w.calls)
      (λ e w. StoppedBy library client adapter e w.calls)
      (run library client adapter request (stored held))
run-stops_example =
    run-stops library client adapter (prometheus-IsLawful library) request (stored held)

run-returns_example :
    (o : Outcome) × ((run library client adapter request (stored leaving)).0 ≡ ok o)
run-returns_example =
    run-returns library client adapter (prometheus-IsLawful library)
      (memory-IsAvailable PrometheusInstanceSpec PrometheusInstanceStatus) request (stored leaving)

run-ReleaseIsLast_example :
    ReleaseIsLast library client adapter leaving
      (run library client adapter request (stored leaving)).1.calls
run-ReleaseIsLast_example =
    run-ReleaseIsLast library client adapter (prometheus-IsLawful library) library-FinalizerLaws
      request (stored leaving) leaving refl

abbrev pub waiting : Outcome
waiting = record { requeue = false; requeue_after = 15 * second }

held_waits : (run library client adapter request (stored held)).0 ≡ ok waiting
unfolding reconcile Prometheus.build_manifest Prometheus.extract_status Prometheus.extra_resources
    insert_if insert_some insert resources_json resource_list_json int32
held_waits = refl

run-Mirrors_example :
    Mirrors client adapter held waiting (run library client adapter request (stored held)).1.calls
run-Mirrors_example =
    run-Mirrors library client adapter (prometheus-IsLawful library) request (stored held) held
      waiting refl refl refl held_waits

run-Settled_example :
    All
      (Settled client adapter "monitoring"
        (run library client adapter request (stored held)).1.calls)
      (listed adapter held "main" "monitoring" "main")
run-Settled_example =
    run-Settled library client adapter (prometheus-IsLawful library) request (stored held) held
      waiting refl refl refl held_waits

run-EventsAreTrue_example :
    EventsAreTrue library client adapter held
      (run library client adapter request (stored held)).1.calls
run-EventsAreTrue_example =
    run-EventsAreTrue library client adapter held (prometheus-IsLawful library) request
      (stored held) refl

run-IsGated_example :
    All
      (IsGated library client adapter fresh)
      (run library client adapter request (stored fresh)).1.calls
run-IsGated_example =
    run-IsGated library client adapter fresh (prometheus-IsLawful library) request (stored fresh)
      refl

run-Freed_example :
    ((run library client adapter request (stored leaving)).0 ≡ ok done)
    × Freed library client adapter leaving
        (run library client adapter request (stored leaving)).1.calls
run-Freed_example =
    run-Freed library client adapter
      (memory-IsAvailable PrometheusInstanceSpec PrometheusInstanceStatus) library-FinalizerLaws
      request (stored leaving) leaving refl refl refl

run-Follows_example :
    Post
      (λ _ w.
        Told library client adapter held
          (read request (ok held) ∷ [])
          (λ i. requests w.calls ≡ reads request ∷ plan library client adapter held i)
          w.calls)
      (λ _ w.
        Told library client adapter held
          (read request (ok held) ∷ [])
          (λ i.
            (made : List (Request PrometheusInstance)) × (left : List (Request PrometheusInstance))
            × (plan library client adapter held i ≡ made ++ left)
            × (requests w.calls ≡ reads request ∷ made))
          w.calls)
      (run library client adapter request (stored held))
run-Follows_example = run-Follows library client adapter request (stored held) held refl
