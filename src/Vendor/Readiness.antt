-- ===== src/Vendor/Readiness.antt =====
-- `ExtractStatus` of the six adapters: when a target counts as ready, and by which of its fields.
pub mod Conditional
use project_easter.Base.{
  String, ◌≡◌, refl, ◌↔◌, Bool, true, false, ◌&&◌, Option, none, some, List, [], ◌∷◌, ◌==◌, arith,
  if◌then◌else◌, or_default,
}
use project_easter.Base.Int.{ℤ, pos, ◌≤ℤ◌, IsInt32, int32-of_IsInt32, leb_ℤ, ltb_ℤ}
use project_easter.Base.Value.{Values, nil, cons, obj, Fields, nested, int, arr}
use project_easter.Api.{Unstructured}
use project_easter.Platform.{Library, GettersLaws}
use project_easter.Reconciler.Adapter.{TargetStatus}
use project_easter.Vendor.Common.{count_at, text_at, or_unknown, scan_conditions}
use project_easter.Vendor.Cnpg
use project_easter.Vendor.Valkey
use project_easter.Vendor.Grafana
use project_easter.Vendor.Mariadb
use project_easter.Vendor.Rabbitmq
use project_easter.Vendor.Prometheus

-- A status that reports `n` units of which `r` are ready, and is ready when there is a unit and all
-- of them are ready.
abbrev pub Reports : ℤ → ℤ → TargetStatus → Type 0
Reports n r s =
    (s.observed_count ≡ n) × (s.ready_count ≡ r) × ((s.ready ≡ true) ↔ ((pos 1 ≤ℤ n) × (n ≤ℤ r)))

ready_iff : (n r : ℤ) → ((ltb_ℤ (pos 0) n && leb_ℤ n r) ≡ true) ↔ ((pos 1 ≤ℤ n) × (n ≤ℤ r))
ready_iff n r = ground arith

module _ (l : Library) (laws : GettersLaws l) (u : Unstructured) where
  -- A number of the object that fits an `int32` is read as it stands.
  count_at-of_IsInt32 :
      (path : List String) (n : ℤ)
      → nested u.object path ≡ some (int n)
      → IsInt32 n
      → count_at l u path ≡ n
  count_at-of_IsInt32 path n e h = rw (laws.int64_at u.object path, e) (int32-of_IsInt32 n h)

  module _ (n r : ℤ) (hn : IsInt32 n) (hr : IsInt32 r) where
    cnpg-Reports :
        nested u.object ("status" ∷ "instances" ∷ []) ≡ some (int n)
        → nested u.object ("status" ∷ "readyInstances" ∷ []) ≡ some (int r)
        → Reports n r (Cnpg.extract_status l (some u))
    unfolding Cnpg.extract_status
    cnpg-Reports p q =
        rw (count_at-of_IsInt32 _ n p hn, count_at-of_IsInt32 _ r q hr) (refl, refl, ready_iff n r)

    valkey-Reports :
        nested u.object ("status" ∷ "shards" ∷ []) ≡ some (int n)
        → nested u.object ("status" ∷ "readyShards" ∷ []) ≡ some (int r)
        → Reports n r (Valkey.extract_status l (some u))
    unfolding Valkey.extract_status
    valkey-Reports p q =
        rw (count_at-of_IsInt32 _ n p hn, count_at-of_IsInt32 _ r q hr) (refl, refl, ready_iff n r)

    prometheus-Reports :
        nested u.object ("status" ∷ "replicas" ∷ []) ≡ some (int n)
        → nested u.object ("status" ∷ "availableReplicas" ∷ []) ≡ some (int r)
        → Reports n r (Prometheus.extract_status l (some u))
    unfolding Prometheus.extract_status
    prometheus-Reports p q =
        rw (count_at-of_IsInt32 _ n p hn, count_at-of_IsInt32 _ r q hr) (refl, refl, ready_iff n r)

-- The adapters that compare two counts of the status, the fields of the counts, and the report.
pub data Counting : Type 0 where
  of_cnpg : Counting
  of_valkey : Counting
  of_prometheus : Counting

abbrev pub count_fields : Counting → String × String
count_fields of_cnpg = ("instances", "readyInstances")
count_fields of_valkey = ("shards", "readyShards")
count_fields of_prometheus = ("replicas", "availableReplicas")

abbrev pub counting_status : Library → Counting → Option Unstructured → TargetStatus
counting_status l of_cnpg = Cnpg.extract_status l
counting_status l of_valkey = Valkey.extract_status l
counting_status l of_prometheus = Prometheus.extract_status l

-- A target of one of these adapters whose status has n in the field of all units and r in that of the
-- ready ones (`instances` and `readyInstances` of a CNPG Cluster, `shards` and `readyShards` of a
-- ValkeyCluster, `replicas` and `availableReplicas` of a Prometheus), both within an `int32`, is
-- reported with these counts, and as ready exactly when n is at least 1 and r at least n.
pub counting-Reports :
    (l : Library) (laws : GettersLaws l) (u : Unstructured) (i : Counting) (n r : ℤ)
    → IsInt32 n
    → IsInt32 r
    → nested u.object ("status" ∷ (count_fields i).0 ∷ []) ≡ some (int n)
    → nested u.object ("status" ∷ (count_fields i).1 ∷ []) ≡ some (int r)
    → Reports n r (counting_status l i (some u))
counting-Reports l laws u of_cnpg n r hn hr = cnpg-Reports l laws u n r hn hr
counting-Reports l laws u of_valkey n r hn hr = valkey-Reports l laws u n r hn hr
counting-Reports l laws u of_prometheus n r hn hr = prometheus-Reports l laws u n r hn hr

-- The first entry of a list of conditions that is an object of the given type.
abbrev pub first_of_type : String → Values → Option Fields
first_of_type t nil = none
first_of_type t (cons (obj m) vs) = if text_at "type" m == t then some m else first_of_type t vs
first_of_type t (cons _ vs) = first_of_type t vs

abbrev pub is_true : Option Fields → Bool
is_true none = false
is_true (some m) = text_at "status" m == "True"

abbrev pub reason_of : Option Fields → String
reason_of none = "Unknown"
reason_of (some m) = or_unknown (some (text_at "reason" m))

scan_conditions_lem :
    (t : String) (vs : Values)
    → scan_conditions t vs ≡ (is_true (first_of_type t vs), reason_of (first_of_type t vs))
unfolding scan_conditions
scan_conditions_lem t nil = refl
scan_conditions_lem t (cons (obj m) vs) = ground (arith, scan_conditions_lem t vs)
scan_conditions_lem t (cons _ vs) = scan_conditions_lem t vs

-- A status that reports `n` units and goes by the first condition of a type: ready when there is a
-- unit and the condition is True, with all units counted as ready if it is True and none if not.
abbrev pub ReportsCondition : ℤ → Option Fields → TargetStatus → Type 0
ReportsCondition n m s =
    (s.phase ≡ reason_of m)
    × (s.observed_count ≡ n)
    × (s.ready_count ≡ (if is_true m then n else pos 0))
    × ((s.ready ≡ true) ↔ ((is_true m ≡ true) × (pos 1 ≤ℤ n)))

condition_iff : (b : Bool) (n : ℤ) → ((b && ltb_ℤ (pos 0) n) ≡ true) ↔ ((b ≡ true) × (pos 1 ≤ℤ n))
condition_iff b n = ground arith

module _ (l : Library) (laws : GettersLaws l) (u : Unstructured) (n : ℤ) (vs : Values)
    (hn : IsInt32 n) where
  conditions_at :
      nested u.object ("status" ∷ "conditions" ∷ []) ≡ some (arr vs)
      → or_default nil (l.nested_slice u.object ("status" ∷ "conditions" ∷ [])) ≡ vs
  conditions_at q = rw (laws.slice_at u.object ("status" ∷ "conditions" ∷ []), q)

  mariadb_reports :
      nested u.object ("status" ∷ "replicas" ∷ []) ≡ some (int n)
      → nested u.object ("status" ∷ "conditions" ∷ []) ≡ some (arr vs)
      → ReportsCondition n (first_of_type "Ready" vs) (Mariadb.extract_status l (some u))
  unfolding Mariadb.extract_status
  mariadb_reports p q =
      rw (count_at-of_IsInt32 l laws u _ n p hn, conditions_at q, scan_conditions_lem "Ready" vs)
        (refl, refl, refl, condition_iff _ n)

  rabbitmq_reports :
      nested u.object ("spec" ∷ "replicas" ∷ []) ≡ some (int n)
      → nested u.object ("status" ∷ "conditions" ∷ []) ≡ some (arr vs)
      → ReportsCondition n
          (first_of_type "AllReplicasReady" vs)
          (Rabbitmq.extract_status l (some u))
  unfolding Rabbitmq.extract_status
  rabbitmq_reports p q =
      rw
        (
          count_at-of_IsInt32 l laws u _ n p hn,
          conditions_at q,
          scan_conditions_lem "AllReplicasReady" vs,
        )
        (refl, refl, refl, condition_iff _ n)
