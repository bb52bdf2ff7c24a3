-- ===== src/Lib.antt =====
-- The PaaS operator (module github.com/bartvanbenthem/paas-operator): six kinds of custom resources,
-- each of which is kept in step with one object of a vendor's operator.
--
-- The program. `GenericReconciler.Reconcile` (internal/reconciler/reconciler.go) is called with the
-- name of a custom resource. It reads the resource, guards it by a finalizer, applies the target
-- object and any extra objects, and mirrors the target's status; when deletion is requested, it
-- deletes what it applied and takes the finalizer off. What differs between vendors is an `Adapter`
-- (internal/cnpg, valkey, grafana, mariadb, rabbitmq, prometheus): it builds the manifest and the extra
-- objects, reads the target's status and writes the status of the resource. The two meet only in
-- the methods of the interface, and the cluster is changed only by calls of the client.
--
-- The files.
--   Base           names from the libraries, and what all parts share: Base/Int (int32 and the
--                  integers), Base/Value (JSON values), Base/Exec (code with a state and an error),
--                  Base/Hoare (its logic), Base/Format (`%d` and `%q`)
--   Api            api/v1alpha1: Api/Specs, Api/Statuses, Api/Shared (expose_types.go and the parts
--                  that several specs share), Api/Meta (the Kubernetes types that are read or written)
--   Platform       the code that is not part of the repository, as parameters
--   Reconciler     internal/reconciler/reconciler.go: Reconciler/Adapter holds its types,
--                  Reconciler/Engine its functions (`reconcile` is Reconcile; `release`, `adopt` and
--                  `converge` are the three ways through it; `get_target`, `apply_target`,
--                  `delete_target`, `apply_extra_resources`, `delete_extra_resources` and
--                  `delete_extra` are the functions of those names), Reconciler/Calls the record of
--                  the calls, Reconciler/Contract what the engine relies on in an adapter;
--                  Logic, Scope, Rules and Traverse are the means of the proofs on the calls of one
--                  run, and Confinement, Extras, Progress, Cleanup, Mirror, Events, Gate and Release
--                  their theorems. Plan says what a run asks for as a list; Planned, Asking and Follows are
--                  about runs and their plan, Repeats and Settling about what a second run asks for.
--                  Effects says what each request makes of an object, Achieved what a run makes of all,
--                  and Resting what later runs leave as it is. Replay and Kept make the cluster that a
--                  run leaves from its calls.
--                  Store says what an API server keeps; Keeping, Lasting and Orphans are about the
--                  clusters between the calls. Separate says when resources of one kind own different
--                  objects, Neighbours is about a run for another resource of the kind, and Life and
--                  Fleet about many runs, with the acts of others between them or without
--   Vendor         one module per adapter, with `build_manifest`, `extra_resources`,
--                  `extract_status` and `apply_status` for the methods of those names;
--                  Vendor/Ingress is internal/ingress/ingress.go, Vendor/Common the code that the
--                  packages repeat; Contract, Driven, Apart, Separate, Exposed, Bounds, Readiness,
--                  Conditions, Wording, Reading, Schema, the Manifest modules and Prometheus/Web are
--                  proofs; Schema says which keys an object may have, and a reading of a manifest keeps
--                  a key that is absent apart from one with the value ""
--   Controllers    the constructors of internal/controller; Controllers/Ownership, Owners
--                  and Contention are about the objects that their resources own, and Together about
--                  runs of all six in one cluster
--   Command        cmd/main.go: `options` and `main`; Command/Scheme the kinds that the init functions
--                  of api/v1alpha1 and cmd/main.go register; Command/Setup is about both
--   Copy           api/v1alpha1/zz_generated.deepcopy.go: one module per kind with `into` for
--                  DeepCopyInto, `copy` for DeepCopy and `copy_as_object` for DeepCopyObject, and the
--                  same for its spec, its status and its list; Copy/Kind the functions of the shared
--                  types, Copy/Into the steps of which all are made, Copy/Layout and Copy/Heap what
--                  lies in memory; Deep, Pointers, Maps, Laws, Resources, the Deep modules, ByKind and
--                  Isolation are proofs
--   Tests          concrete runs and values
--
-- How it is modelled. A method of the engine is a function of a `World`: the cluster, which is
-- whatever the client says it is, and the list of the calls made so far, each with its result, the
-- last one first. The list is there for the theorems and is never read by the code. A Go error is an
-- `err`, and an early return is the bind of `Exec`. Theorems on runs quantify over the client, so that
-- they hold for any answers of the API server, also when others change the cluster between calls.
-- The helpers of apimachinery and controller-runtime (getters of unstructured content, conditions,
-- finalizers), Go's table of printable characters, and the client are parameters (Platform); the
-- records of laws there say what their documentation says, as does StoreLaws of Reconciler/Store for the
-- API server: a read gives what is stored, under the name that was asked for; a custom resource with
-- the finalizer stays, and only an update of it by the operator takes the finalizer off; only an apply
-- makes an object, the one that is applied; and a delete that is accepted, or finds nothing, leaves no
-- live object. A read from a cache that lags behind is outside these laws, not outside the theorems that
-- do without them. ReadsBack of Reconciler/Settling says that an update can be read back, Effects that
-- an apply or a delete that is accepted takes effect on its object and on no other, while nobody else
-- acts, Idle of Reconciler/Resting that a request for what is already so changes nothing, and Spared of
-- Controllers/Together that a property outlives every request but those for one object. Their instances
-- in Tests show that the laws can hold: Tests/Memory is an API server in memory.
-- An `Unstructured` is its identity, labels and annotations beside the rest of its content, a
-- `map[string]any` is a list of fields, a `resource.Quantity` is the text that its String method gives,
-- and a `map[string]string` is the list of its entries. The conversion of an int64 to an int32 wraps
-- around (`int32`). `%d` writes the digits of n with fuel n + 1, which is enough: `value-digits` reads
-- n back from them. Every loop is a recursion on its list.
--
-- In Controllers/Together the six clients are those of one `Server`, whose requests all six controllers
-- share; a run of one controller ends before the next one begins.
--
-- In Command, what controller-runtime does with each request of the setup is a parameter too, which may
-- fail at any of them.
--
-- Everywhere but in Copy, a value is not shared: a copy is the value itself. In Copy a pointer, map or
-- slice is the address of a cell, a struct is a record of such fields, a function that writes `*out`
-- gives the value that it writes, and the read of a cell that is not there is a fault. A slice has its
-- array for itself. The order in which `range` gives the entries of a map is a parameter (RangeLaws), and
-- so are the deep copies of metav1 and core/v1 (CopierLaws).
--
-- Not modelled: the log messages, the parsing of the flags, the manager of controller-runtime once it
-- runs (queues, leader election, caches), the validation of the CRDs by the API server, strings that are
-- not UTF-8, and the tests of the repository.
pub mod Base
pub mod Api
pub mod Platform
pub mod Reconciler
pub mod Vendor
pub mod Controllers
pub mod Copy
pub mod Command
pub mod Tests
