-- ===== src/Auth/Verified.antt =====
-- No plugin is loaded whose file has another checksum than the configuration says.
use git_bundle_server.Base.{
  wrapped-eq-ok, Text, codes, false, Option, ◌≡◌, ap, sym, ◌∙◌, arith, text_Eq, text_eq_iff, ok, M,
  ◌>>=◌, >>=-eq-ok, wrapping, return,
}
use git_bundle_server.Auth.Config.{
  AuthConfig, Packages, parse_plugin, verify_plugin, compared, load_plugin, get_plugin_checksum,
  pure,
}
use git_bundle_server.Go.Strings.{is_empty}
use git_bundle_server.Machine.{Machine, Reply, done, failed, outcome, call}

module _ {Middleware Plugin Symbol : Type 0} (p : Packages Middleware Plugin Symbol)
    (m : Machine) where
  outcome-inv : {A : Type 0} (o : Reply A) {x : A} → outcome o ≡ ok x → o ≡ done x
  outcome-inv (done a) h = ground arith
  outcome-inv (failed e) h = cc

  checksum-eq-ok :
      (path sum : Text) (w : m.World)
      → (get_plugin_checksum p m path w).0 ≡ ok sum
      → (content : Text) × ((m.open_read path w).0 ≡ done content) × (p.sha256 content ≡ sum)
  unfolding get_plugin_checksum
  checksum-eq-ok path sum w h =
      let (content, a, b) =
        >>=-eq-ok (call (m.open_read path)) (λ (c : Text). return (p.sha256 c)) w h in
      (content, outcome-inv (m.open_read path w).0 a, ground (arith, b))

  compared-eq-ok :
      (config : AuthConfig) (expected sum : Text) (w : m.World) (result : Option Middleware)
      → (compared p m config expected sum w).0 ≡ ok result
      → (expected ≡ sum) × ((load_plugin p m config w).0 ≡ ok result)
  compared-eq-ok config expected sum w result h = ground (arith, text_eq_iff expected sum)

  verify_plugin-eq-ok :
      (config : AuthConfig) (w : m.World) (result : Option Middleware)
      → (verify_plugin p m config w).0 ≡ ok result
      → (content : Text) × (v : m.World) × ((m.open_read config.path w).0 ≡ done content)
        × (p.hex_decode config.checksum ≡ ok (p.sha256 content))
        × ((load_plugin p m config v).0 ≡ ok result)
  unfolding verify_plugin
  verify_plugin-eq-ok config w result h =
      let sum_of =
        wrapping (codes "could not calculate plugin checksum: ")
          (get_plugin_checksum p m config.path) in
      let decoding : M m.World Text =
        wrapping (codes "plugin checksum is invalid: ") (pure p m (p.hex_decode config.checksum)) in
      let rest : Text → M m.World (Option Middleware) =
        λ expected. sum_of >>= compared p m config expected in
      let (expected, a, b) = >>=-eq-ok decoding rest w h in
      let (sum, c, d) = >>=-eq-ok sum_of (compared p m config expected) w b in
      let (content, opened, summed) = checksum-eq-ok config.path sum w (
        wrapped-eq-ok (codes "could not calculate plugin checksum: ")
          (get_plugin_checksum p m config.path w).0 c) in
      let (same, loaded) = compared-eq-ok config expected sum (sum_of w).1 result d in
      (
        content,
        (sum_of w).1,
        opened,
        wrapped-eq-ok (codes "plugin checksum is invalid: ") (p.hex_decode config.checksum) a
            ∙ ap ok (same ∙ sym summed),
        loaded,
      )

  -- If the plugin mode of parseAuthConfig gives a middleware (or a nil one), then path, initializer
  -- and checksum are given, the checksum is the hexadecimal form of the SHA-256 of what the
  -- plugin's file holds, and the middleware is the one that the plugin loaded gives.
  pub parse_plugin-eq-ok :
      (config : AuthConfig) (w : m.World) (result : Option Middleware)
      → (parse_plugin p m config w).0 ≡ ok result
      → (is_empty config.path ≡ false)
        × (is_empty config.initializer ≡ false)
        × (is_empty config.checksum ≡ false)
        × ((content : Text) × (v : m.World) × ((m.open_read config.path w).0 ≡ done content)
            × (p.hex_decode config.checksum ≡ ok (p.sha256 content))
            × ((load_plugin p m config v).0 ≡ ok result))
  unfolding parse_plugin
  parse_plugin-eq-ok config w result h =
      let verified : (is_empty config.path ≡ false)
          × (is_empty config.initializer ≡ false)
          × (is_empty config.checksum ≡ false)
          × ((verify_plugin p m config w).0 ≡ ok result) =
        ground arith in
      (verified.0, verified.1, verified.2, verify_plugin-eq-ok config w result verified.3)
