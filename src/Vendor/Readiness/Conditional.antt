-- ===== src/Vendor/Readiness/Conditional.antt =====
-- The two adapters that go by a condition of the target.
use project_easter.Base.{String, ◌≡◌, Option, some, [], ◌∷◌}
use project_easter.Base.Int.{ℤ, IsInt32}
use project_easter.Base.Value.{Values, nested, int, arr}
use project_easter.Api.{Unstructured}
use project_easter.Platform.{Library, GettersLaws}
use project_easter.Reconciler.Adapter.{TargetStatus}
use project_easter.Vendor.Mariadb
use project_easter.Vendor.Rabbitmq
use project_easter.Vendor.Readiness.{
  ReportsCondition, first_of_type, mariadb_reports, rabbitmq_reports,
}

pub data Conditional : Type 0 where
  of_mariadb : Conditional
  of_rabbitmq : Conditional

-- where the replicas are counted, and the type of the condition
abbrev pub count_in : Conditional → String
count_in of_mariadb = "status"
count_in of_rabbitmq = "spec"

abbrev pub condition_type : Conditional → String
condition_type of_mariadb = "Ready"
condition_type of_rabbitmq = "AllReplicasReady"

abbrev pub conditional_status : Library → Conditional → Option Unstructured → TargetStatus
conditional_status l of_mariadb = Mariadb.extract_status l
conditional_status l of_rabbitmq = Rabbitmq.extract_status l

-- A MariaDB with `status.replicas` n, or a RabbitmqCluster with `spec.replicas` n, within an `int32`, and
-- with a list of conditions in its status is reported by its first condition of type "Ready", or
-- "AllReplicasReady": its reason is the phase, and the target is ready exactly when the condition is True
-- and n is at least 1.
pub conditional_reports :
    (l : Library) (laws : GettersLaws l) (u : Unstructured) (i : Conditional) (n : ℤ) (vs : Values)
    → IsInt32 n
    → nested u.object (count_in i ∷ "replicas" ∷ []) ≡ some (int n)
    → nested u.object ("status" ∷ "conditions" ∷ []) ≡ some (arr vs)
    → ReportsCondition n (first_of_type (condition_type i) vs) (conditional_status l i (some u))
conditional_reports l laws u of_mariadb n vs hn = mariadb_reports l laws u n vs hn
conditional_reports l laws u of_rabbitmq n vs hn = rabbitmq_reports l laws u n vs hn
