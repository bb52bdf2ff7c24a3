-- ===== src/Reconciler/Calls.antt =====
-- The calls of the client and of the event recorder, each with its result, as a run of `Reconcile`
-- makes them. The list of calls is a record of the run, and the code never reads it.
use project_easter.Base.{String, List, ◌∷◌}
use project_easter.Base.Exec.{Result, Exec, ok}
use project_easter.Api.{GroupVersionKind, NamespacedName, Unstructured}
use project_easter.Platform.{Client}

-- an `Eventf` about the custom resource: its type, reason, action and note
pub record Event : Type 0 where
  pub type : String
  pub reason : String
  pub action : String
  pub note : String

pub data Call (R E : Type 0) : Type 0 where
  read : NamespacedName → Result E R → Call R E
  read_object : GroupVersionKind → NamespacedName → Result E Unstructured → Call R E
  update : R → Result E (Unit {0}) → Call R E
  update_status : R → Result E (Unit {0}) → Call R E
  patch : Unstructured → String → Result E Unstructured → Call R E
  delete : GroupVersionKind → NamespacedName → Result E (Unit {0}) → Call R E
  event : Event → Call R E

-- the cluster, and the calls made so far, the last one first
pub record World {R : Type 0} (c : Client R) : Type 0 where
  pub cluster : c.Cluster
  pub calls : List (Call R c.Error)

module _ {R : Type 0} (c : Client R) where
  abbrev pub Run : Type 0 → Type 0
  Run A = Exec c.Error (World c) A

-- A write of the cluster, and the call that it was.
abbrev pub write :
    {R A : Type 0} (c : Client R)
    → (c.Cluster → Result c.Error A × c.Cluster)
    → (Result c.Error A → Call R c.Error)
    → Run c A
write c op call w =
    let (r, s) = op w.cluster in (r, record { cluster = s; calls = call r ∷ w.calls })

-- A read of the cluster, and the call that it was.
abbrev pub look :
    {R A : Type 0} (c : Client R)
    → (c.Cluster → Result c.Error A)
    → (Result c.Error A → Call R c.Error)
    → Run c A
look c op call w =
    let r = op w.cluster in (r, record { cluster = w.cluster; calls = call r ∷ w.calls })

-- `Recorder.Eventf`
abbrev pub tell : {R : Type 0} (c : Client R) → Event → Run c (Unit {0})
tell c e w = (ok tt, record { cluster = w.cluster; calls = event e ∷ w.calls })
