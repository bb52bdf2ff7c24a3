-- ===== src/Command/Setup.antt =====
-- The setup of the manager: its steps in their order, and what its servers offer.
use project_easter.Base.{
  String, ◌≡◌, ◌≢◌, refl, Bool, true, List, [], ◌∷◌, ◌++◌, All, Any, inl, inr, if◌then◌else◌, map,
  not, ◌&&◌, ◌==◌, differ, arith,
}
use project_easter.Base.Exec.{Result, ok, err, Exec, ◌>>◌}
use project_easter.Api.{GroupVersionKind}
use project_easter.Platform.{Library}
use project_easter.Vendor.Common.{is_set}
use project_easter.Command.Scheme.{Known, paas, add_to_scheme, scheme}
use project_easter.Controllers.{
  GenericReconciler, new_postgres_cluster_reconciler, new_valkey_cluster_reconciler,
  new_grafana_instance_reconciler, new_mariadb_cluster_reconciler, new_rabbitmq_cluster_reconciler,
  new_prometheus_instance_reconciler,
}
use project_easter.Command.{
  Flags, TlsConfig, TlsOptions, tls_options, webhook_options, metrics_options, options,
  Registration, Action, get_config, new_manager, complete, add_healthz_check, add_readyz_check,
  start, Runtime, Exit, exit_one, exits, perform, setup_with_manager, main,
}

-- The steps of the setup, without what becomes of them. A controller records its events under the name
-- with which its adapter applies objects.
module _ (l : Library) where
  abbrev registration : {R : Type 0} → String → GenericReconciler R → Registration
  registration kind g = record {
    for = paas kind;
    named = g.name;
    recorder = g.adapter.field_manager;
  }

  abbrev pub registrations : List Registration
  registrations =
      registration "PostgresCluster" (new_postgres_cluster_reconciler l)
      ∷ registration "ValkeyCluster" (new_valkey_cluster_reconciler l)
      ∷ registration "GrafanaInstance" (new_grafana_instance_reconciler l)
      ∷ registration "MariaDBCluster" (new_mariadb_cluster_reconciler l)
      ∷ registration "RabbitMQCluster" (new_rabbitmq_cluster_reconciler l)
      ∷ registration "PrometheusInstance" (new_prometheus_instance_reconciler l)
      ∷ []

  abbrev pub steps : Known → Flags → List Action
  steps k f =
      get_config
      ∷ new_manager (options k f)
      ∷ (map complete registrations
          ++ add_healthz_check "healthz" ∷ add_readyz_check "readyz" ∷ start ∷ [])

-- Steps that are taken one after the other, each in the state that the one before has left, up to the
-- first that fails.
pub data Taken (r : Runtime)
    : List Action → r.State → Result Exit (Unit {0}) × r.State → Type 0 where
  all_done : {s : r.State} → Taken r [] s (ok tt, s)
  next :
      {x : Action} {xs : List Action} {s t : r.State} {o : Result Exit (Unit {0}) × r.State}
      → r.act x s ≡ (ok tt, t)
      → Taken r xs t o
      → Taken r (x ∷ xs) s o
  failed :
      {x : Action} {xs : List Action} {s t : r.State} {e : r.Error}
      → r.act x s ≡ (err e, t)
      → Taken r (x ∷ xs) s (err exit_one, t)

module _ (r : Runtime) where
  perform-last : (x : Action) (s : r.State) → Taken r (x ∷ []) s (perform r x s)
  perform-last x s = go (r.act x s) refl
    where
      go :
          (o : Result r.Error (Unit {0}) × r.State)
          → r.act x s ≡ o
          → Taken r (x ∷ []) s (exits r o.0, o.1)
      go (ok tt, t) e = next e all_done
      go (err a, t) e = failed e

  perform-then :
      (x : Action) (xs : List Action) (m : Exec Exit r.State (Unit {0}))
      → ((t : r.State) → Taken r xs t (m t))
      → (s : r.State) → Taken r (x ∷ xs) s ((perform r x >> m) s)
  perform-then x xs m h s = go (r.act x s) refl
    where
      go :
          (o : Result r.Error (Unit {0}) × r.State)
          → r.act x s ≡ o
          → Taken r (x ∷ xs) s (((λ (t : r.State). (exits r o.0, o.1)) >> m) s)
      go (ok tt, t) e = next e (h t)
      go (err a, t) e = failed e

  -- Whatever controller-runtime does with each request, main takes these steps, each in the state that
  -- the one before has left: it asks for the configuration, makes the manager with the options of the
  -- flags, registers the six controllers, each with its kind, its name and its adapter's field manager
  -- as event recorder, adds the two health checks, and starts the manager. The first step that fails
  -- ends it with exit code 1, and no later one is taken; it returns when all have succeeded.
  pub main-Taken :
      (l : Library) (k : Known) (f : Flags) (s : r.State) → Taken r (steps l k f) s (main r l k f s)
  unfolding main setup_with_manager
  main-Taken l k f s =
      perform-then get_config _ _
        (perform-then (new_manager (options k f)) _ _ (
          perform-then _ _ _ (
            perform-then _ _ _ (
              perform-then _ _ _ (
                perform-then _ _ _ (
                  perform-then _ _ _ (
                    perform-then _ _ _ (
                      perform-then (add_healthz_check "healthz") _ _
                        (perform-then (add_readyz_check "readyz") _ _ (perform-last start))))))))))
        s

-- What a server does with its TLS options: it lets each change the configuration, in their order.
abbrev pub configured : TlsOptions → TlsConfig → TlsConfig
configured [] c = c
configured (o ∷ os) c = configured os (o c)

-- The directory and the names, if the directory is given.
abbrev pub certificate : String → String → String → String × String × String
certificate dir name key = if is_set dir then (dir, name, key) else ("", "", "")

-- Whatever the flags: both servers are configured to offer HTTP/1.1 alone unless HTTP/2 is enabled, and
-- then what they would offer anyhow; the metrics endpoint is filtered by authentication and
-- authorization exactly when it is served securely; and each server is given the directory and the
-- names of its certificate and key exactly when its path is not empty.
pub served :
    (f : Flags) (c : TlsConfig)
    → let offered = if f.enable_http2 then c.next_protos else "http/1.1" ∷ [] in
      let w = webhook_options f in
      let m = metrics_options f in
      ((configured w.tls_opts c).next_protos ≡ offered)
      × ((configured m.tls_opts c).next_protos ≡ offered)
      × (m.filtered ≡ m.secure_serving)
      × ((w.cert_dir, w.cert_name, w.key_name)
          ≡ certificate f.webhook_cert_path f.webhook_cert_name f.webhook_cert_key)
      × ((m.cert_dir, m.cert_name, m.key_name)
          ≡ certificate f.metrics_cert_path f.metrics_cert_name f.metrics_cert_key)
unfolding webhook_options metrics_options tls_options
served f c = ground arith

abbrev pub AreDistinct : List String → Type 0
AreDistinct [] = Unit
AreDistinct (x ∷ xs) = All (λ y. x ≢ y) xs × AreDistinct xs

-- The test of it, which computes.
abbrev is_new : String → List String → Bool
is_new x [] = true
is_new x (y ∷ ys) = not (x == y) && is_new x ys

abbrev all_distinct : List String → Bool
all_distinct [] = true
all_distinct (x ∷ xs) = is_new x xs && all_distinct xs

is_new-All : (x : String) (ys : List String) → is_new x ys ≡ true → All (λ y. x ≢ y) ys
is_new-All x [] h = tt
is_new-All x (y ∷ ys) h = (differ x y (ground arith), is_new-All x ys (ground arith))

all_distinct-AreDistinct : (xs : List String) → all_distinct xs ≡ true → AreDistinct xs
all_distinct-AreDistinct [] h = tt
all_distinct-AreDistinct (x ∷ xs) h =
    (is_new-All x xs (ground arith), all_distinct-AreDistinct xs (ground arith))

-- Controllers that a manager with the scheme takes: each for a kind of it, no two of one name.
abbrev pub AreTaken : List GroupVersionKind → List Registration → Type 0
AreTaken kinds xs = All (λ x. Any (λ g. g ≡ x.for) kinds) xs × AreDistinct (map (λ x. x.named) xs)

-- A kind behind those that the libraries register.
behind :
    (xs ys : List GroupVersionKind) (g : GroupVersionKind)
    → Any (λ x. x ≡ g) ys
    → Any (λ x. x ≡ g) (xs ++ ys)
behind [] ys g h = h
behind (x ∷ xs) ys g h = inr (behind xs ys g h)

own :
    (k : Known) (kind : String)
    → Any (λ x. x ≡ paas kind) (add_to_scheme (record { client_go = []; group_version = [] }))
    → Any (λ x. x ≡ paas kind) (scheme k)
own k kind h = behind k.client_go _ (paas kind) (behind k.group_version _ (paas kind) h)

-- Whatever else the libraries register in the scheme, the kinds of the six controllers that main
-- registers are in it, and their names are distinct.
pub registrations-AreTaken : (l : Library) (k : Known) → AreTaken (scheme k) (registrations l)
registrations-AreTaken l k = (
  (
    own k "PostgresCluster" (inr (inr (inr (inr (inl refl))))),
    (
      own k "ValkeyCluster" (inr (inr (inr (inr (inr (inr (inr (inr (inr (inr (inl refl))))))))))),
      (
        own k "GrafanaInstance" (inl refl),
        (
          own k "MariaDBCluster" (inr (inr (inl refl))),
          (
            own k "RabbitMQCluster" (inr (inr (inr (inr (inr (inr (inr (inr (inl refl))))))))),
            (own k "PrometheusInstance" (inr (inr (inr (inr (inr (inr (inl refl))))))), tt),
          ),
        ),
      ),
    ),
  ),
  all_distinct-AreDistinct (map (λ x. x.named) (registrations l)) refl,
)
