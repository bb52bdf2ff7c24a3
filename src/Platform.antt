-- ===== src/Platform.antt =====
-- What the operator calls and this repository does not hold, as parameters: the helpers of
-- apimachinery and controller-runtime (`unstructured.Nested*`, `meta.SetStatusCondition`,
-- `controllerutil`), the printable characters of Go's `unicode`, and the client of the API server.
-- Each record of helpers comes with records of what their documentation says of them.
use project_easter.Base.{
  ℕ, String, ◌≡◌, Bool, true, false, Option, none, some, List, [], ◌∷◌, ◌==◌, if◌then◌else◌,
}
use project_easter.Base.Int.{ℤ}
use project_easter.Base.Value.{Fields, Values, nested, as_str, as_int, as_bool, as_arr}
use project_easter.Base.Exec.{Result}
use project_easter.Api.{Condition, GroupVersionKind, NamespacedName, Unstructured}

-- A getter's `found` and value: `none` stands for a zero value that was not found, or for a value of
-- another type, whose error the operator drops. `set_status_condition` is the call at one time.
pub record Library : Type 0 where
  pub nested_string : Fields → List String → Option String
  pub nested_int64 : Fields → List String → Option ℤ
  pub nested_bool : Fields → List String → Option Bool
  pub nested_slice : Fields → List String → Option Values
  pub set_status_condition : List Condition → Condition → List Condition
  pub contains_finalizer : List String → String → Bool
  pub add_finalizer : List String → String → List String
  pub remove_finalizer : List String → String → List String
  pub is_print : ℕ → Bool

-- The getters read the value behind the path, if it has the getter's type.
pub record GettersLaws (l : Library) : Type 0 where
  pub string_at : (m : Fields) (p : List String) → l.nested_string m p ≡ as_str (nested m p)
  pub int64_at : (m : Fields) (p : List String) → l.nested_int64 m p ≡ as_int (nested m p)
  pub bool_at : (m : Fields) (p : List String) → l.nested_bool m p ≡ as_bool (nested m p)
  pub slice_at : (m : Fields) (p : List String) → l.nested_slice m p ≡ as_arr (nested m p)

-- The first condition of a type.
abbrev pub find_condition : String → List Condition → Option Condition
find_condition t [] = none
find_condition t (c ∷ cs) = if c.type == t then some c else find_condition t cs

-- What a condition says, but for the time of its last change.
abbrev pub says : Option Condition → Option Condition
says none = none
says (some c) = some (record c { last_transition_time = "" })

-- A set condition replaces the one of its type and leaves the others.
pub record ConditionLaws (l : Library) : Type 0 where
  pub find_set :
      (cs : List Condition) (c : Condition) (t : String)
      → says (find_condition t (l.set_status_condition cs c))
        ≡ (if c.type == t then says (some c) else says (find_condition t cs))

-- Finalizers are a list in which a name stands or not.
pub record FinalizerLaws (l : Library) : Type 0 where
  pub contains-add :
      (fs : List String) (f g : String)
      → l.contains_finalizer (l.add_finalizer fs f) g
        ≡ (if f == g then true else l.contains_finalizer fs g)
  pub contains-remove :
      (fs : List String) (f g : String)
      → l.contains_finalizer (l.remove_finalizer fs f) g
        ≡ (if f == g then false else l.contains_finalizer fs g)

-- The API server as the operator's client shows it, for custom resources of type `R`. A write gives
-- its result and the cluster after it, a failed one too. `patch` is the Server-Side Apply with
-- ForceOwnership, by a field owner, and gives the merged object.
pub record Client (R : Type 0) : Type 1 where
  pub Cluster : Type 0
  pub Error : Type 0
  pub is_not_found : Error → Bool
  pub ignore_not_found : Error → Option Error
  pub get : Cluster → NamespacedName → Result Error R
  pub get_object : Cluster → GroupVersionKind → NamespacedName → Result Error Unstructured
  pub update : Cluster → R → Result Error (Unit {0}) × Cluster
  pub update_status : Cluster → R → Result Error (Unit {0}) × Cluster
  pub patch : Cluster → Unstructured → String → Result Error Unstructured × Cluster
  pub delete : Cluster → GroupVersionKind → NamespacedName → Result Error (Unit {0}) × Cluster
