-- ===== src/Tests/Server.antt =====
-- The server's configuration and its goroutines at concrete inputs.
use git_bundle_server.Auth.Config.{Packages}
use git_bundle_server.Base.{
  List, Text, [], ◌∷◌, ℕ, codes, text_eq, true, none, some, ok, err, message, ◌≡◌, refl,
}
use git_bundle_server.Base.Assoc.{lookup, insert}
use git_bundle_server.Daemon.Passed.{start_flags, web_flags, parse_flags-service_flags}
use git_bundle_server.Daemon.Start.{
  service_flags, sort_names, insert_name, text_lt, pass_flags, pass_flag, abs,
}
use git_bundle_server.Flags.{
  FlagSet, string, no_flags, define, define_alias, flag_value, set_flag, set_value, tls_set,
  tls_name, split_value, token, parse_from, parse_bool, parse_flags,
}
use git_bundle_server.Flags.WebServer.{
  web_server_values, define_all, value_text, get_flag_value, text_of, in_port_range,
  validate_values,
}
use git_bundle_server.Go.Decimal.{parse_int, read_digits}
use git_bundle_server.Go.Path.{join, clean, keep, keep_all, is_elem}
use git_bundle_server.Go.Strings.{is_empty, to_lower, index, split, drop_empty, join_with}
use git_bundle_server.Machine.{Reply, done, failed}
use git_bundle_server.Machine.Memory.{memory}
use git_bundle_server.Tests.Inputs.{empty_disk}
use git_bundle_server.Web.Lifecycle.{
  ServerState, before_start, start_server_async, start, here, then, status, shutting_down, Reached,
}
use git_bundle_server.Web.Lifecycle.Shutdown.{
  IsRunning, CanEnd, Reached-IsRunning, Reached-CanEnd, ended_busy,
}
use git_bundle_server.Web.Setup.{
  listen_and_serve_tls, new_bundle_web_server, configure_auth, configure,
}
use git_bundle_server.Web.Setup.Checked.{IsConfigured, configure-IsConfigured}

abbrev no_packages : Packages ℕ (Unit {0}) (Unit {0})
no_packages = record {
  sha256 = λ t. t;
  hex_decode = ok;
  unmarshal_config = λ t. err (message t);
  unmarshal_params = λ t. err (message t);
  plugin_open = λ t. ok tt;
  lookup_symbol = λ p t. ok tt;
  as_initializer = λ s. none;
}

abbrev tls_flags : FlagSet
tls_flags =
    define (codes "key") (string (codes "k.pem"))
      (define (codes "cert") (string (codes "c.pem")) (define_all web_server_values no_flags))

configure-IsConfigured_example :
    (in_port_range (parse_int (text_of tls_flags (codes "port"))) ≡ true)
    × (is_empty (text_of tls_flags (codes "cert")) ≡ is_empty (text_of tls_flags (codes "key")))
    × IsConfigured {Middleware = ℕ}
        (text_of tls_flags (codes "port"))
        (text_of tls_flags (codes "cert"))
        (text_of tls_flags (codes "key"))
        (text_of tls_flags (codes "client-ca"))
        (text_of tls_flags (codes "auth-config"))
        (record {
          addr = codes ":8080";
          tls_config = some (record { min_version = 771; client_cas = none });
          listen = listen_and_serve_tls (codes "c.pem") (codes "k.pem");
          middleware_authorize = none;
        })
unfolding define define_all lookup insert text_eq flag_value get_flag_value validate_values
    parse_int read_digits new_bundle_web_server configure_auth configure
configure-IsConfigured_example =
    configure-IsConfigured no_packages (λ a. 0) memory tls_flags empty_disk _ refl refl

abbrev started_state : ServerState
started_state = start_server_async before_start

Reached-IsRunning_example : IsRunning started_state
Reached-IsRunning_example = Reached-IsRunning started_state (then here (start refl refl))

Reached-CanEnd_example : CanEnd started_state
unfolding start_server_async
Reached-CanEnd_example = Reached-CanEnd started_state (then here (start refl refl)) refl

ended_busy_example :
    (s : ServerState) × Reached s
    × (s.ended ≡ some (status 0))
    × (s.requests ≡ 3)
    × (s.catcher ≡ shutting_down)
ended_busy_example = ended_busy 3

abbrev or_no_flags : Reply FlagSet → FlagSet
or_no_flags (done fs) = fs
or_no_flags (failed e) = no_flags

abbrev start_args : List Text
start_args =
    codes "--tls-version=TLSv1.3"
    ∷ codes "-f"
    ∷ codes "--cert"
    ∷ codes "c.pem"
    ∷ codes "-key"
    ∷ codes "/k.pem"
    ∷ []

abbrev start_set : FlagSet
start_set = or_no_flags (parse_flags start_flags start_args)

parse_flags-service_flags_example :
    (g : FlagSet) × (parse_flags web_flags (
        codes "--cert"
        ∷ codes "/wd/c.pem"
        ∷ codes "--key"
        ∷ codes "/k.pem"
        ∷ codes "--tls-version"
        ∷ codes "tlsv1.3"
        ∷ [])
      ≡ done g)
    × (g.args ≡ [])
    × (flag_value g (codes "cert") ≡ some (string (codes "/wd/c.pem")))
unfolding define define_alias define_all lookup insert text_eq flag_value set_flag set_value tls_set
    to_lower split_value index token parse_from parse_bool service_flags sort_names insert_name
    text_lt pass_flags pass_flag abs join clean keep keep_all split drop_empty join_with is_elem
    value_text tls_name
parse_flags-service_flags_example =
    parse_flags-service_flags (done (codes "/wd")) start_args _ start_set (codes "cert") refl refl
      refl
