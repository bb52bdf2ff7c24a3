-- ===== src/Copy/Slots.antt =====
-- The slots of the cells.
use project_easter.Base.{none, some, List, refl}
use project_easter.Api.{
  StringMap, Condition, StorageSpec, PersistenceSpec, DatabaseSpec, MonitoringSpec,
}
use project_easter.Copy.Layout.{
  Foreign, IngressSpecLayout, ServiceExposeSpecLayout, StatusLayout, ResourceLayout, ListLayout,
}
use project_easter.Copy.Heap.{
  Cell, strings, conditions, storage, persistence, database, monitoring, ingress, expose, spec,
  status, resource, resources, list, Slot,
}

module _ {y : Foreign} {S : Type 0} where
  abbrev pub strings_slot : Slot (Cell y S) StringMap
  strings_slot = record {
    wrap = strings;
    unwrap = λ c. elim c [ strings v ↦ some v | _ ↦ none ];
    unwrap-wrap = λ v. refl;
  }

  abbrev pub conditions_slot : Slot (Cell y S) (List Condition)
  conditions_slot = record {
    wrap = conditions;
    unwrap = λ c. elim c [ conditions v ↦ some v | _ ↦ none ];
    unwrap-wrap = λ v. refl;
  }

  abbrev pub storage_slot : Slot (Cell y S) StorageSpec
  storage_slot = record {
    wrap = storage;
    unwrap = λ c. elim c [ storage v ↦ some v | _ ↦ none ];
    unwrap-wrap = λ v. refl;
  }

  abbrev pub persistence_slot : Slot (Cell y S) PersistenceSpec
  persistence_slot = record {
    wrap = persistence;
    unwrap = λ c. elim c [ persistence v ↦ some v | _ ↦ none ];
    unwrap-wrap = λ v. refl;
  }

  abbrev pub database_slot : Slot (Cell y S) DatabaseSpec
  database_slot = record {
    wrap = database;
    unwrap = λ c. elim c [ database v ↦ some v | _ ↦ none ];
    unwrap-wrap = λ v. refl;
  }

  abbrev pub monitoring_slot : Slot (Cell y S) MonitoringSpec
  monitoring_slot = record {
    wrap = monitoring;
    unwrap = λ c. elim c [ monitoring v ↦ some v | _ ↦ none ];
    unwrap-wrap = λ v. refl;
  }

  abbrev pub ingress_slot : Slot (Cell y S) IngressSpecLayout
  ingress_slot = record {
    wrap = ingress;
    unwrap = λ c. elim c [ ingress v ↦ some v | _ ↦ none ];
    unwrap-wrap = λ v. refl;
  }

  abbrev pub expose_slot : Slot (Cell y S) ServiceExposeSpecLayout
  expose_slot = record {
    wrap = expose;
    unwrap = λ c. elim c [ expose v ↦ some v | _ ↦ none ];
    unwrap-wrap = λ v. refl;
  }

  abbrev pub spec_slot : Slot (Cell y S) S
  spec_slot = record {
    wrap = spec;
    unwrap = λ c. elim c [ spec v ↦ some v | _ ↦ none ];
    unwrap-wrap = λ v. refl;
  }

  abbrev pub status_slot : Slot (Cell y S) StatusLayout
  status_slot = record {
    wrap = status;
    unwrap = λ c. elim c [ status v ↦ some v | _ ↦ none ];
    unwrap-wrap = λ v. refl;
  }

  abbrev pub resource_slot : Slot (Cell y S) (ResourceLayout y S StatusLayout)
  resource_slot = record {
    wrap = resource;
    unwrap = λ c. elim c [ resource v ↦ some v | _ ↦ none ];
    unwrap-wrap = λ v. refl;
  }

  abbrev pub resources_slot : Slot (Cell y S) (List (ResourceLayout y S StatusLayout))
  resources_slot = record {
    wrap = resources;
    unwrap = λ c. elim c [ resources v ↦ some v | _ ↦ none ];
    unwrap-wrap = λ v. refl;
  }

  abbrev pub list_slot : Slot (Cell y S) (ListLayout y)
  list_slot = record {
    wrap = list;
    unwrap = λ c. elim c [ list v ↦ some v | _ ↦ none ];
    unwrap-wrap = λ v. refl;
  }
