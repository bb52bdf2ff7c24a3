-- ===== src/Tests/Command.antt =====
-- The setup of the manager on concrete flags.
use project_easter.Base.{◌≡◌, refl, List, [], ◌∷◌, ◌++◌}
use project_easter.Base.Exec.{Result, ok, err}
use project_easter.Command.Scheme.{Known, scheme}
use project_easter.Command.{
  Flags, default_flags, TlsConfig, webhook_options, metrics_options, options, Action, get_config,
  Runtime, exit_one, setup_with_manager, main,
}
use project_easter.Command.Setup.{
  steps, Taken, main-Taken, configured, certificate, served, registrations, AreTaken,
  registrations-AreTaken,
}
use project_easter.Tests.Samples.{library}

data Refusal : Type 0 where
  no_such_kind : Refusal

-- Everything works.
abbrev willing : Runtime
willing = record { State = List Action; Error = Refusal; act = λ x s. (ok tt, s ++ x ∷ []) }

-- Nothing but the configuration works.
abbrev reply : Action → Result Refusal (Unit {0})
reply get_config = ok tt
reply x = err no_such_kind

abbrev refusing : Runtime
refusing = record { State = List Action; Error = Refusal; act = λ x s. (reply x, s ++ x ∷ []) }

abbrev none_known : Known
none_known = record { client_go = []; group_version = [] }

all_taken :
    main willing library none_known default_flags []
    ≡ (ok tt, steps library none_known default_flags)
unfolding main setup_with_manager
all_taken = refl

stopped :
    main refusing library none_known default_flags []
    ≡ (err exit_one, get_config ∷ Action.new_manager (options none_known default_flags) ∷ [])
unfolding main
stopped = refl

main-Taken_example :
    Taken refusing
      (steps library none_known default_flags)
      []
      (main refusing library none_known default_flags [])
main-Taken_example = main-Taken refusing library none_known default_flags []

abbrev anything : TlsConfig
anything = record { next_protos = "h2" ∷ "http/1.1" ∷ [] }

abbrev certified : Flags
certified = record default_flags { webhook_cert_path = "/certs" }

served_example :
    let w = webhook_options certified in
    let m = metrics_options certified in
    ((configured w.tls_opts anything).next_protos ≡ "http/1.1" ∷ [])
    × ((configured m.tls_opts anything).next_protos ≡ "http/1.1" ∷ [])
    × (m.filtered ≡ m.secure_serving)
    × ((w.cert_dir, w.cert_name, w.key_name) ≡ certificate "/certs" "tls.crt" "tls.key")
    × ((m.cert_dir, m.cert_name, m.key_name) ≡ certificate "" "tls.crt" "tls.key")
served_example = served certified anything

registrations-AreTaken_example : AreTaken (scheme none_known) (registrations library)
registrations-AreTaken_example = registrations-AreTaken library none_known
