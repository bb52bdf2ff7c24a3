-- ===== src/Vendor/Bounds.antt =====
-- `ExtractStatus` of the six adapters on any object: the range of the counts, and what being ready
-- says at least.
use project_easter.Base.{
  String, ◌≡◌, ◌≢◌, refl, Bool, true, false, ◌&&◌, Option, none, some, List, [], ◌∷◌, ◌==◌, differ,
  Bool-cases, inl, inr, arith, if◌then◌else◌, or_default,
}
use project_easter.Base.Int.{ℤ, pos, ◌≤ℤ◌, IsInt32, int32-IsInt32, leb_ℤ, ltb_ℤ}
use project_easter.Base.Value.{Values, nil, cons, obj, null, bool, int, float, str, arr}
use project_easter.Api.{Unstructured}
use project_easter.Platform.{Library}
use project_easter.Reconciler.Adapter.{TargetStatus}
use project_easter.Vendor.Common.{count_at, text_at, or_unknown, unknown_status, scan_conditions}
use project_easter.Vendor.Cnpg
use project_easter.Vendor.Valkey
use project_easter.Vendor.Grafana
use project_easter.Vendor.Mariadb
use project_easter.Vendor.Rabbitmq
use project_easter.Vendor.Prometheus

-- Both counts are values of an `int32`.
abbrev pub IsInRange : TargetStatus → Type 0
IsInRange s = IsInt32 s.observed_count × IsInt32 s.ready_count

-- What counts as ready has a unit, and as many ready ones at least; and the phase is not empty.
abbrev pub IsSound : TargetStatus → Type 0
IsSound s =
    IsInRange s
    × (s.ready ≡ true → (pos 1 ≤ℤ s.observed_count) × (s.observed_count ≤ℤ s.ready_count))
    × (s.phase ≢ "")

or_unknown-filled : (o : Option String) → or_unknown o ≢ ""
or_unknown-filled none = differ "Unknown" "" refl
or_unknown-filled (some p) = elim (Bool-cases (p == "")) [
  | inl y ↦ rw y (differ "Unknown" "" refl)
  | inr n ↦ rw n (differ p "" n)
]

scan_conditions-filled : (t : String) (vs : Values) → (scan_conditions t vs).1 ≢ ""
unfolding scan_conditions
scan_conditions-filled t nil = differ "Unknown" "" refl
scan_conditions-filled t (cons (obj m) vs) = elim (Bool-cases (text_at "type" m == t)) [
  | inl y ↦ rw y (or_unknown-filled (some (text_at "reason" m)))
  | inr n ↦ rw n (scan_conditions-filled t vs)
]
scan_conditions-filled t (cons null vs) = scan_conditions-filled t vs
scan_conditions-filled t (cons (bool b) vs) = scan_conditions-filled t vs
scan_conditions-filled t (cons (int n) vs) = scan_conditions-filled t vs
scan_conditions-filled t (cons (float x) vs) = scan_conditions-filled t vs
scan_conditions-filled t (cons (str x) vs) = scan_conditions-filled t vs
scan_conditions-filled t (cons (arr xs) vs) = scan_conditions-filled t vs

progress-filled :
    (paused progressing : Bool)
    → let phase : String =
        if paused then "Paused" else if progressing then "Progressing" else "Unknown" in
      phase ≢ ""
progress-filled true b = differ "Paused" "" refl
progress-filled false true = differ "Progressing" "" refl
progress-filled false false = differ "Unknown" "" refl

count_ready : (n r : ℤ) → (ltb_ℤ (pos 0) n && leb_ℤ n r) ≡ true → (pos 1 ≤ℤ n) × (n ≤ℤ r)
count_ready n r = ground arith

flag_ready :
    (b : Bool) (n : ℤ)
    → (b && ltb_ℤ (pos 0) n) ≡ true
    → (pos 1 ≤ℤ n) × (n ≤ℤ (if b then n else pos 0))
flag_ready b n = ground arith

flag-IsInt32 : (b : Bool) (n : ℤ) → IsInt32 n → IsInt32 (if b then n else pos 0)
flag-IsInt32 true n h = h
flag-IsInt32 false n h = ground arith

unknown-IsSound : IsSound unknown_status
unknown-IsSound = ((ground arith, ground arith), (λ e. cc e), λ e. cc e)

module _ (l : Library) where
  count_at-IsInt32 : (u : Unstructured) (path : List String) → IsInt32 (count_at l u path)
  count_at-IsInt32 u path = int32-IsInt32 (or_default (pos 0) (l.nested_int64 u.object path))

  count_ready-IsSound :
      (p : String) (u : Unstructured) (ns rs : List String)
      → p ≢ ""
      → let n = count_at l u ns in
        let r = count_at l u rs in
        IsSound (record {
          phase = p;
          ready = ltb_ℤ (pos 0) n && leb_ℤ n r;
          observed_count = n;
          ready_count = r;
        })
  count_ready-IsSound p u ns rs h =
      ((count_at-IsInt32 u ns, count_at-IsInt32 u rs), count_ready _ _, h)

  flag_ready-IsSound :
      (p : String) (u : Unstructured) (ns : List String) (b : Bool)
      → p ≢ ""
      → let n = count_at l u ns in
        IsSound (record {
          phase = p;
          ready = b && ltb_ℤ (pos 0) n;
          observed_count = n;
          ready_count = if b then n else pos 0;
        })
  flag_ready-IsSound p u ns b h =
      let n = count_at-IsInt32 u ns in ((n, flag-IsInt32 b _ n), flag_ready b _, h)

  cnpg-IsSound : (o : Option Unstructured) → IsSound (Cnpg.extract_status l o)
  unfolding Cnpg.extract_status
  cnpg-IsSound none = unknown-IsSound
  cnpg-IsSound (some u) =
      count_ready-IsSound _ u _ _
        (or_unknown-filled (l.nested_string u.object ("status" ∷ "phase" ∷ [])))

  valkey-IsSound : (o : Option Unstructured) → IsSound (Valkey.extract_status l o)
  unfolding Valkey.extract_status
  valkey-IsSound none = unknown-IsSound
  valkey-IsSound (some u) =
      count_ready-IsSound _ u _ _
        (or_unknown-filled (l.nested_string u.object ("status" ∷ "state" ∷ [])))

  prometheus-IsSound : (o : Option Unstructured) → IsSound (Prometheus.extract_status l o)
  unfolding Prometheus.extract_status
  prometheus-IsSound none = unknown-IsSound
  prometheus-IsSound (some u) =
      count_ready-IsSound _ u _ _
        (progress-filled (or_default false (l.nested_bool u.object ("status" ∷ "paused" ∷ []))) _)

  mariadb-IsSound : (o : Option Unstructured) → IsSound (Mariadb.extract_status l o)
  unfolding Mariadb.extract_status
  mariadb-IsSound none = unknown-IsSound
  mariadb-IsSound (some u) = flag_ready-IsSound _ u _ _ (scan_conditions-filled "Ready" _)

  rabbitmq-IsSound : (o : Option Unstructured) → IsSound (Rabbitmq.extract_status l o)
  unfolding Rabbitmq.extract_status
  rabbitmq-IsSound none = unknown-IsSound
  rabbitmq-IsSound (some u) =
      flag_ready-IsSound _ u _ _ (scan_conditions-filled "AllReplicasReady" _)

  grafana-IsInRange : (o : Option Unstructured) → IsInRange (Grafana.extract_status l o)
  unfolding Grafana.extract_status
  grafana-IsInRange none = (ground arith, ground arith)
  grafana-IsInRange (some u) = (int32-IsInt32 _, count_at-IsInt32 u _)

  -- Whatever object is given, also none or a malformed one: the two counts that each of the six
  -- adapters reports are values of an `int32`; and but for Grafana's, what an adapter reports as ready
  -- has at least one unit and at least as many ready ones, and its phase is never empty.
  pub adapters-AreSound :
      (o : Option Unstructured)
      → IsSound (Cnpg.extract_status l o)
        × IsSound (Valkey.extract_status l o)
        × IsInRange (Grafana.extract_status l o)
        × IsSound (Mariadb.extract_status l o)
        × IsSound (Rabbitmq.extract_status l o)
        × IsSound (Prometheus.extract_status l o)
  adapters-AreSound o = (
    cnpg-IsSound o,
    valkey-IsSound o,
    grafana-IsInRange o,
    mariadb-IsSound o,
    rabbitmq-IsSound o,
    prometheus-IsSound o,
  )
