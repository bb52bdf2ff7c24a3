-- ===== src/Tests/Samples.antt =====
-- The helpers of the libraries, as concrete functions.
use project_easter.Base.{
  String, ◌≡◌, refl, Bool, true, false, ◌||◌, some, List, [], ◌∷◌, ◌==◌, eq_iff, arith,
  if◌then◌else◌,
}
use project_easter.Base.Value.{nested, as_str, as_int, as_bool, as_arr}
use project_easter.Api.{Condition}
use project_easter.Platform.{
  Library, GettersLaws, ConditionLaws, FinalizerLaws, find_condition, says,
}

abbrev pub set_condition : List Condition → Condition → List Condition
set_condition [] c = c ∷ []
set_condition (d ∷ ds) c = if d.type == c.type then c ∷ ds else d ∷ set_condition ds c

abbrev pub contains : List String → String → Bool
contains [] f = false
contains (g ∷ gs) f = (g == f) || contains gs f

abbrev pub without : List String → String → List String
without [] f = []
without (g ∷ gs) f = let rest = without gs f in if g == f then rest else g ∷ rest

abbrev pub library : Library
library = record {
  nested_string = λ m p. as_str (nested m p);
  nested_int64 = λ m p. as_int (nested m p);
  nested_bool = λ m p. as_bool (nested m p);
  nested_slice = λ m p. as_arr (nested m p);
  set_status_condition = set_condition;
  contains_finalizer = contains;
  add_finalizer = λ fs f. f ∷ fs;
  remove_finalizer = without;
  is_print = λ _. true;
}

pub library-GettersLaws : GettersLaws library
library-GettersLaws = record {
  string_at = λ m p. refl;
  int64_at = λ m p. refl;
  bool_at = λ m p. refl;
  slice_at = λ m p. refl;
}

find-set_condition :
    (cs : List Condition) (c : Condition) (t : String)
    → says (find_condition t (set_condition cs c))
      ≡ (if c.type == t then says (some c) else says (find_condition t cs))
find-set_condition [] c t = ground arith
find-set_condition (d ∷ ds) c t =
    ground
      (arith, eq_iff d.type c.type, eq_iff c.type t, eq_iff d.type t, find-set_condition ds c t)

pub library-ConditionLaws : ConditionLaws library
library-ConditionLaws = record { find_set = find-set_condition }

contains-without :
    (fs : List String) (f g : String)
    → contains (without fs f) g ≡ (if f == g then false else contains fs g)
contains-without [] f g = ground arith
contains-without (h ∷ hs) f g =
    ground (arith, eq_iff h f, eq_iff h g, eq_iff f g, contains-without hs f g)

contains-cons :
    (fs : List String) (f g : String)
    → contains (f ∷ fs) g ≡ (if f == g then true else contains fs g)
contains-cons fs f g = ground arith

pub library-FinalizerLaws : FinalizerLaws library
library-FinalizerLaws = record { contains-add = contains-cons; contains-remove = contains-without }
