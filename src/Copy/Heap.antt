-- ===== src/Copy/Heap.antt =====
-- A heap of Go values, and the commands that read and write it.
use project_easter.Base.{◌+◌, ◌≡◌, Option, none, some, List, eqb, if◌then◌else◌}
use project_easter.Base.Value.{Value}
use project_easter.Base.Exec.{ok, Exec, pure, raise}
use project_easter.Api.{
  StringMap, Condition, StorageSpec, PersistenceSpec, DatabaseSpec, MonitoringSpec,
}
use project_easter.Copy.Layout.{
  Addr, Foreign, IngressSpecLayout, ServiceExposeSpecLayout, StatusLayout, ResourceLayout,
  ListLayout,
}

-- What an address holds, in a heap for one kind of resource whose spec is laid out as `S`. `zeroed` is a
-- new value, to be written before it is read; `other` is a value of another package.
pub data Cell (y : Foreign) (S : Type 0) : Type 0 where
  zeroed : Cell y S
  strings : StringMap → Cell y S
  conditions : List Condition → Cell y S
  storage : StorageSpec → Cell y S
  persistence : PersistenceSpec → Cell y S
  database : DatabaseSpec → Cell y S
  monitoring : MonitoringSpec → Cell y S
  ingress : IngressSpecLayout → Cell y S
  expose : ServiceExposeSpecLayout → Cell y S
  spec : S → Cell y S
  status : StatusLayout → Cell y S
  resource : ResourceLayout y S StatusLayout → Cell y S
  resources : List (ResourceLayout y S StatusLayout) → Cell y S
  list : ListLayout y → Cell y S
  other : Value → Cell y S

-- The cells of one type: how they are made, and the value of a cell of that type.
pub record Slot (C V : Type 0) : Type 0 where
  pub wrap : V → C
  pub unwrap : C → Option V
  pub unwrap-wrap : (v : V) → unwrap (wrap v) ≡ some v

-- The addresses below `next` have been given out.
pub record Heap (C : Type 0) : Type 0 where
  pub next : Addr
  pub cell : Addr → Option C

-- a read of an address that holds nothing, or a value of another type
pub data Fault : Type 0 where
  fault : Fault

abbrev pub Cmd : Type 0 → Type 0 → Type 0
Cmd C A = Exec Fault (Heap C) A

module _ {C : Type 0} where
  abbrev pub write : Heap C → Addr → C → Heap C
  write h p c = record h { cell = λ a. if eqb a p then some c else h.cell a }

  abbrev found : {V : Type 0} → Option V → Cmd C V
  found none = raise fault
  found (some v) = pure v

  abbrev seen : {V : Type 0} → Slot C V → Option C → Option V
  seen s none = none
  seen s (some c) = s.unwrap c

  -- `*p`
  unfoldable pub load : {V : Type 0} → Slot C V → Addr → Cmd C V
  load s p h = found (seen s (h.cell p)) h

  -- `*p = v`
  unfoldable pub store : {V : Type 0} → Slot C V → Addr → V → Cmd C (Unit {0})
  store s p v h = (ok tt, write h p (s.wrap v))

  -- `new` and `make`: the next address, with the cell there
  unfoldable pub allocate : C → Cmd C Addr
  allocate c h = (ok h.next, record (write h h.next c) { next = h.next + 1 })
