-- ===== src/Tests/Together.antt =====
-- Runs of several controllers in one cluster.
use project_easter.Base.{All, ◌≢◌, ◌≡◌, refl, none, List, [], ◌∷◌, differ, ap}
use project_easter.Api.{NamespacedName}
use project_easter.Reconciler.Contract.{Key}
use project_easter.Controllers.Ownership.{Kind, postgres, valkey, rabbitmq, prometheus, target_of}
use project_easter.Controllers.Together.{turn, turns, turns-Keep}
use project_easter.Tests.Samples.{library}
use project_easter.Tests.Memory.{put}
use project_easter.Tests.Memory.Laws.{at_key}
use project_easter.Tests.Memory.Six.{Six, six, six-gets_placed, Shows, Shows-Spared}
use project_easter.Tests.Controllers.{monitor, queue, store, cache, request}

abbrev side : NamespacedName
side = record { namespace = "data"; name = "side" }

-- Four resources of one name, and a second PrometheusInstance.
abbrev stored : Six
stored = record {
  postgres_clusters = put store (λ _. none);
  valkey_clusters = put cache (λ _. none);
  grafana_instances = λ _. none;
  mariadb_clusters = λ _. none;
  rabbitmq_clusters = put queue (λ _. none);
  prometheus_instances =
      put (record monitor { metadata = record monitor.metadata { name = "side" } })
        (put monitor (λ _. none));
  objects = [];
}

abbrev begun : Six
begun = turn library six prometheus request stored

abbrev target_key : Key
target_key = target_of library prometheus monitor

abbrev others : List (Kind × NamespacedName)
others =
    (rabbitmq, request)
    ∷ (prometheus, side)
    ∷ (postgres, request)
    ∷ (valkey, request)
    ∷ (rabbitmq, side)
    ∷ []

rabbitmq_is_another : rabbitmq ≢ prometheus
rabbitmq_is_another e = cc e

postgres_is_another : postgres ≢ prometheus
postgres_is_another e = cc e

valkey_is_another : valkey ≢ prometheus
valkey_is_another e = cc e

side_is_another : side ≢ request
side_is_another e = differ "side" "main" refl (ap (λ (n : NamespacedName). n.name) e)

others_are_others : All (λ t. ¬ ((t.0 ≡ prometheus) × (t.1 ≡ request))) others
others_are_others = (
  (λ e. rabbitmq_is_another e.0),
  (
    (λ e. side_is_another e.1),
    (
      (λ e. postgres_is_another e.0),
      ((λ e. valkey_is_another e.0), ((λ e. rabbitmq_is_another e.0), tt)),
    ),
  ),
)

turns-Keep_example :
    at_key target_key (turns library six others begun).objects ≡ at_key target_key begun.objects
turns-Keep_example =
    turns-Keep library six six-gets_placed prometheus monitor
      (Shows target_key (at_key target_key begun.objects))
      (Shows-Spared target_key (at_key target_key begun.objects)) others begun others_are_others
      refl
