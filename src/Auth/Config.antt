-- ===== src/Auth/Config.antt =====
-- cmd/git-bundle-web-server/main.go: `parseAuthConfig`. Go's plugins, SHA-256, hexadecimal and JSON
-- are parameters. `Middleware` is what a plugin's initializer gives; `none` is a nil one.
use git_bundle_server.Base.{
  Text, codes, not, ◌++◌, Option, none, some, if◌then◌else◌, ◌==◌, text_Eq, message, Outcome, err,
  M, return, throw, ◌>>=◌, wrapping,
}
use git_bundle_server.Auth.{
  FixedCredentialAuth, FixedCredentialAuthParams, new_fixed_credential_auth,
}
use git_bundle_server.Go.Strings.{is_empty, to_lower}
use git_bundle_server.Machine.{Machine, call}

-- `authConfig`
pub record AuthConfig : Type 0 where
  pub auth_mode : Text
  pub path : Text
  pub initializer : Text
  pub checksum : Text
  pub parameters : Text

-- What the standard library's packages crypto/sha256, encoding/hex, encoding/json and plugin do.
pub record Packages (Middleware Plugin Symbol : Type 0) : Type 0 where
  pub sha256 : Text → Text
  pub hex_decode : Text → Outcome Text
  pub unmarshal_config : Text → Outcome AuthConfig
  pub unmarshal_params : Text → Outcome FixedCredentialAuthParams
  pub plugin_open : Text → Outcome Plugin
  pub lookup_symbol : Plugin → Text → Outcome Symbol
  pub as_initializer : Symbol → Option (Text → Outcome (Option Middleware))

module _ {Middleware Plugin Symbol : Type 0} (p : Packages Middleware Plugin Symbol)
    (m : Machine) where
  open m use {World}

  abbrev pub pure : {A : Type 0} → Outcome A → M World A
  pure o w = (o, w)

  -- `getPluginChecksum`, with `Sum(nil)`
  unfoldable pub get_plugin_checksum : Text → M World Text
  get_plugin_checksum path = do content ← call (m.open_read path); return (p.sha256 content)

  abbrev pub initializer_of :
      Option (Text → Outcome (Option Middleware)) → Text → M World (Option Middleware)
  initializer_of none parameters =
      throw (message (codes "initializer function has incorrect signature"))
  initializer_of (some f) parameters = pure (f parameters)

  -- The part of the plugin mode behind the checksum.
  unfoldable pub load_plugin : AuthConfig → M World (Option Middleware)
  load_plugin config = do
    opened ← wrapping (codes "could not load auth plugin: ") (pure (p.plugin_open config.path))
    symbol ←
        wrapping (codes "failed to load initializer: ")
          (pure (p.lookup_symbol opened config.initializer))
    initializer_of (p.as_initializer symbol) config.parameters

  abbrev pub compared : AuthConfig → Text → Text → M World (Option Middleware)
  compared config expected checksum =
      if not (expected == checksum)
      then throw (message (codes "specified hash does not match plugin checksum"))
      else load_plugin config

  -- The two checksums, and what follows them.
  unfoldable pub verify_plugin : AuthConfig → M World (Option Middleware)
  verify_plugin config = do
    expected ← wrapping (codes "plugin checksum is invalid: ") (pure (p.hex_decode config.checksum))
    checksum ←
        wrapping (codes "could not calculate plugin checksum: ") (get_plugin_checksum config.path)
    compared config expected checksum

  unfoldable pub parse_plugin : AuthConfig → M World (Option Middleware)
  parse_plugin config w =
      if is_empty config.path
      then (err (message (codes "plugin .so is empty")), w)
      else if is_empty config.initializer
      then (err (message (codes "plugin initializer symbol is empty")), w)
      else if is_empty config.checksum
      then (err (message (codes "SHA256 checksum of plugin file is empty")), w)
      else verify_plugin config w

  -- The mode, as `parseAuthConfig` tests it. `fixed` is the built-in middleware as one of
  -- `Middleware`.
  unfoldable pub parse_auth_config :
      (FixedCredentialAuth → Middleware) → Text → M World (Option Middleware)
  parse_auth_config fixed config_path = do
    bytes ← call (m.open_read config_path)
    config ← pure (p.unmarshal_config bytes)
    if to_lower config.auth_mode == codes "fixed"
        then (do
          a ←
              pure (
                new_fixed_credential_auth p.sha256 p.hex_decode p.unmarshal_params
                  config.parameters)
          return (some (fixed a)))
        else if to_lower config.auth_mode == codes "plugin"
        then parse_plugin config
        else throw (message (codes "unrecognized auth mode '" ++ config.auth_mode ++ codes "'"))
