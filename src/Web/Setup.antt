-- ===== src/Web/Setup.antt =====
-- cmd/git-bundle-web-server: NewBundleWebServer, and `main` of main.go up to the server that it
-- starts.
pub mod Checked
use git_bundle_server.Argparse.{ArgParser, new_arg_parser, parse}
use git_bundle_server.Auth.{FixedCredentialAuth}
use git_bundle_server.Auth.Config.{Packages, parse_auth_config}
use git_bundle_server.Base.{
  ℕ, Text, codes, List, ◌++◌, Option, none, some, if◌then◌else◌, Outcome, ok, err, halt, exit,
  panic, M, return, stop, bind_from, ◌>>=◌, ◌>>◌,
}
use git_bundle_server.Flags.{FlagSet, no_flags}
use git_bundle_server.Flags.WebServer.{
  as_string, as_uint16, get_flag_value, web_server_values, define_all, validate,
}
use git_bundle_server.Go.Strings.{is_empty}
use git_bundle_server.Machine.{Machine, Reply, done, failed, call}

-- The fields of `tls.Config` that are set; a certificate authority goes with
-- `tls.RequireAndVerifyClientCert`. What `AppendCertsFromPEM` takes from the bytes is left out.
pub record TlsConfig : Type 0 where
  pub min_version : ℕ
  pub client_cas : Option Text

-- `listenAndServeFunc`
pub data Listen : Type 0 where
  listen_and_serve : Listen
  listen_and_serve_tls : Text → Text → Listen

-- `bundleWebServer`; no middleware is `none`.
pub record BundleWebServer (Middleware : Type 0) : Type 0 where
  pub addr : Text
  pub tls_config : Option TlsConfig
  pub listen : Listen
  pub middleware_authorize : Option Middleware

module _ {Middleware : Type 0} (m : Machine) where
  open m use {World}

  abbrev pub plain_server : Text → Option Middleware → BundleWebServer Middleware
  plain_server port authorize = record {
    addr = codes ":" ++ port;
    tls_config = none;
    listen = listen_and_serve;
    middleware_authorize = authorize;
  }

  abbrev pub tls_server :
      Text → Text → Text → TlsConfig → Option Middleware → BundleWebServer Middleware
  tls_server port cert key config authorize = record (plain_server port authorize) {
    tls_config = some config;
    listen = listen_and_serve_tls cert key;
  }

  -- `NewBundleWebServer`
  unfoldable pub new_bundle_web_server :
      Text → Text → Text → ℕ → Text → Option Middleware → M World (BundleWebServer Middleware)
  new_bundle_web_server port cert key version client_ca authorize w =
      if is_empty cert
      then (ok (plain_server port authorize), w)
      else if is_empty client_ca
      then (
        ok (
            tls_server port cert key (record { min_version = version; client_cas = none })
              authorize),
        w,
      )
      else (do
        bytes ← call (m.open_read client_ca)
        return (
            tls_server port cert key (record { min_version = version; client_cas = some bytes })
              authorize))
          w

-- An error that is fatal: it ends the process with status 1.
abbrev pub fatal : {A : Type 0} → Outcome A → Outcome A
fatal (ok a) = ok a
fatal (err e) = halt (exit 1)
fatal (halt h) = halt h

abbrev pub not_nil : {A : Type 0} → Option A → Outcome (Option A)
not_nil none = halt (exit 1)
not_nil (some a) = ok (some a)

module _ {Middleware Plugin Symbol : Type 0} (p : Packages Middleware Plugin Symbol)
    (fixed : FixedCredentialAuth → Middleware) (m : Machine) where
  open m use {World}

  abbrev pub web_server_parser : ArgParser World
  web_server_parser = record new_arg_parser { flags = define_all web_server_values no_flags }

  -- `if authConfig != ""`
  unfoldable pub configure_auth : Text → M World (Option Middleware)
  configure_auth auth_config w =
      if is_empty auth_config
      then (ok none, w)
      else (do
        middleware ← λ v. (
          fatal (parse_auth_config p m fixed auth_config v).0,
          (parse_auth_config p m fixed auth_config v).1,
        )
        λ v. (not_nil middleware, v))
          w

  abbrev pub configure_server :
      Text → Text → Text → ℕ → Text → Option Middleware → M World (BundleWebServer Middleware)
  configure_server port cert key version client_ca authorize w = (
    fatal (new_bundle_web_server m port cert key version client_ca authorize w).0,
    (new_bundle_web_server m port cert key version client_ca authorize w).1,
  )

  -- `main` from the flags to the server
  unfoldable pub configure : FlagSet → M World (BundleWebServer Middleware)
  configure fs = do
    port ← λ w. (get_flag_value as_string fs (codes "port"), w)
    cert ← λ w. (get_flag_value as_string fs (codes "cert"), w)
    key ← λ w. (get_flag_value as_string fs (codes "key"), w)
    version ← λ w. (get_flag_value as_uint16 fs (codes "tls-version"), w)
    client_ca ← λ w. (get_flag_value as_string fs (codes "client-ca"), w)
    auth_config ← λ w. (get_flag_value as_string fs (codes "auth-config"), w)
    authorize ← configure_auth auth_config
    configure_server port cert key version client_ca authorize

  -- `main`, up to the server that is started
  unfoldable pub server_main : List Text → M World (BundleWebServer Middleware)
  server_main args = do
    q ← λ w. (parse web_server_parser args, w)
    λ w. (validate q.flags, w)
    configure q.flags
