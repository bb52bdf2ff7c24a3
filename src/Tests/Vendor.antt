-- ===== src/Tests/Vendor.antt =====
-- The six adapters on the status of a target, and on a spec.
use project_easter.Base.{refl, true, some, [], arith}
use project_easter.Base.Int.{pos}
use project_easter.Base.Value.{Values, Fields, nil, cons, obj, arr, str, int, field, end}
use project_easter.Api.{Unstructured}
use project_easter.Reconciler.Adapter.{TargetStatus}
use project_easter.Reconciler.Contract.{IsLawful}
use project_easter.Vendor.Cnpg
use project_easter.Vendor.Valkey
use project_easter.Vendor.Grafana
use project_easter.Vendor.Mariadb
use project_easter.Vendor.Rabbitmq
use project_easter.Vendor.Prometheus
use project_easter.Vendor.Bounds.{IsSound, IsInRange, adapters-AreSound}
use project_easter.Vendor.Contract.{adapters-AreLawful}
use project_easter.Vendor.Readiness.{
  Reports, ReportsCondition, first_of_type, of_cnpg, of_valkey, of_prometheus, counting-Reports,
}
use project_easter.Vendor.Readiness.Conditional.{of_mariadb, of_rabbitmq, conditional_reports}
use project_easter.Vendor.Conditions.{
  CnpgTells, ValkeyTells, GrafanaTells, MariadbTells, RabbitmqTells, PrometheusTells, adapters-Tell,
}
use project_easter.Tests.Resources.{postgres, valkey, grafana, mariadb, rabbitmq, prometheus}
use project_easter.Tests.Samples.{library, library-GettersLaws, library-ConditionLaws}

abbrev conditions : Values
conditions =
    cons
      (obj
        (field "type" (str "Ready") (field "status" (str "True") (field "reason" (str "Up") end))))
      (cons (obj (field "type" (str "AllReplicasReady") (field "status" (str "False") end))) nil)

-- three units of which two are ready, under the names of all six schemas
abbrev status : Fields
status = field "instances" (int (pos 3)) (
    field "readyInstances" (int (pos 2)) (
      field "shards" (int (pos 3)) (
        field "readyShards" (int (pos 3)) (
          field "replicas" (int (pos 3)) (
            field "availableReplicas" (int (pos 4)) (
              field "stage" (str "complete") (
                field "stageStatus" (str "success") (field "conditions" (arr conditions) end))))))))

abbrev target : Unstructured
target = record {
  gvk = Cnpg.gvk;
  name = "main";
  namespace = "data";
  labels = [];
  annotations = [];
  object =
      field "spec" (obj (field "replicas" (int (pos 3)) end)) (field "status" (obj status) end);
}

counting-Reports_example : Reports (pos 3) (pos 2) (Cnpg.extract_status library (some target))
counting-Reports_example =
    counting-Reports library library-GettersLaws target of_cnpg (pos 3) (pos 2) (omega arith)
      (omega arith) refl refl

-- all shards are ready, and more replicas than there are
all_shards : Reports (pos 3) (pos 3) (Valkey.extract_status library (some target))
all_shards =
    counting-Reports library library-GettersLaws target of_valkey (pos 3) (pos 3) (omega arith)
      (omega arith) refl refl

more_replicas : Reports (pos 3) (pos 4) (Prometheus.extract_status library (some target))
more_replicas =
    counting-Reports library library-GettersLaws target of_prometheus (pos 3) (pos 4) (omega arith)
      (omega arith) refl refl

conditional_reports_example :
    ReportsCondition
      (pos 3)
      (first_of_type "Ready" conditions)
      (Mariadb.extract_status library (some target))
conditional_reports_example =
    conditional_reports library library-GettersLaws target of_mariadb (pos 3) conditions
      (omega arith) refl refl

not_all_replicas :
    ReportsCondition
      (pos 3)
      (first_of_type "AllReplicasReady" conditions)
      (Rabbitmq.extract_status library (some target))
not_all_replicas =
    conditional_reports library library-GettersLaws target of_rabbitmq (pos 3) conditions
      (omega arith) refl refl

adapters-AreLawful_example :
    IsLawful (Cnpg.adapter library)
    × IsLawful (Valkey.adapter library)
    × IsLawful (Grafana.adapter library)
    × IsLawful (Mariadb.adapter library)
    × IsLawful (Rabbitmq.adapter library)
    × IsLawful (Prometheus.adapter library)
adapters-AreLawful_example = adapters-AreLawful library

abbrev observed : TargetStatus
observed = record { phase = "Creating"; ready = true; observed_count = pos 3; ready_count = pos 3 }

adapters-Tell_example :
    CnpgTells library "main" observed postgres
    × ValkeyTells library "main" observed valkey
    × GrafanaTells library "main" observed grafana
    × MariadbTells library "main" observed mariadb
    × RabbitmqTells library "main" observed rabbitmq
    × PrometheusTells library "main" observed prometheus
adapters-Tell_example =
    adapters-Tell library library-ConditionLaws "main" observed postgres valkey grafana mariadb
      rabbitmq prometheus

adapters-AreSound_example :
    IsSound (Cnpg.extract_status library (some target))
    × IsSound (Valkey.extract_status library (some target))
    × IsInRange (Grafana.extract_status library (some target))
    × IsSound (Mariadb.extract_status library (some target))
    × IsSound (Rabbitmq.extract_status library (some target))
    × IsSound (Prometheus.extract_status library (some target))
adapters-AreSound_example = adapters-AreSound library (some target)
