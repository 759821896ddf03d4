-- ===== src/Web/Setup/Checked.antt =====
-- What the flags guarantee of the server that is configured from them.
use git_bundle_server.Auth.{FixedCredentialAuth}
use git_bundle_server.Auth.Config.{Packages, parse_auth_config}
use git_bundle_server.Base.{
  ℕ, Text, codes, Bool, true, false, ◌++◌, Option, none, some, Outcome, ok, err, halt, >>=-eq-ok,
  ◌≡◌, refl, arith,
}
use git_bundle_server.Flags.{FlagSet, FlagValue, boolean, string, tls_version, flag_value}
use git_bundle_server.Flags.WebServer.{
  as_string, as_uint16, get_flag_value, text_of, in_port_range, validate, validate_values,
}
use git_bundle_server.Go.Decimal.{parse_int}
use git_bundle_server.Go.Strings.{is_empty}
use git_bundle_server.Machine.{Machine, Reply, done, failed}
use git_bundle_server.Web.Setup.{
  listen_and_serve, listen_and_serve_tls, BundleWebServer, new_bundle_web_server, configure_auth,
  configure_server, configure,
}

-- A server on a port, from the certificate, the key, the file of authorities and the file for
-- authorization.
pub record IsConfigured {Middleware : Type 0} (port cert key client_ca auth_config : Text)
    (s : BundleWebServer Middleware) : Type 0 where
  pub addressed : s.addr ≡ codes ":" ++ port
  pub plain : is_empty cert ≡ true → s.listen ≡ listen_and_serve
  pub secure : is_empty cert ≡ false → s.listen ≡ listen_and_serve_tls cert key
  pub clients :
      is_empty cert ≡ false
      → is_empty client_ca ≡ false
      → (v : ℕ) × (bytes : Text) × (s.tls_config
          ≡ some (record { min_version = v; client_cas = some bytes }))
  pub guarded : is_empty auth_config ≡ false → (a : Middleware) × (s.middleware_authorize ≡ some a)

text_of_string :
    (fs : FlagSet) (name t : Text) → get_flag_value as_string fs name ≡ ok t → text_of fs name ≡ t
unfolding get_flag_value
text_of_string fs name t h = split (flag_value fs name) refl
  where
    split : (v : Option FlagValue) → flag_value fs name ≡ v → text_of fs name ≡ t
    split none e = ground (arith, e, h)
    split (some (boolean b)) e = ground (arith, e, h)
    split (some (string s)) e = ground (arith, e, h)
    split (some (tls_version v)) e = ground (arith, e, h)

validate_values-eq-ok :
    (port cert key : Text)
    → validate_values port cert key ≡ ok tt
    → (in_port_range (parse_int port) ≡ true) × (is_empty cert ≡ is_empty key)
unfolding validate_values
validate_values-eq-ok port cert key h = ground (arith, h)

module _ {Middleware Plugin Symbol : Type 0} (p : Packages Middleware Plugin Symbol)
    (fixed : FixedCredentialAuth → Middleware) (m : Machine) where
  open m use {World}

  configure_auth-guarded :
      (t : Text) (w : World) (a : Option Middleware)
      → (configure_auth p fixed m t w).0 ≡ ok a
      → is_empty t ≡ false
      → (x : Middleware) × (a ≡ some x)
  unfolding configure_auth
  configure_auth-guarded t w a h e = split (parse_auth_config p m fixed t w).0 refl
    where
      split :
          (o : Outcome (Option Middleware))
          → (parse_auth_config p m fixed t w).0 ≡ o
          → (x : Middleware) × (a ≡ some x)
      split (ok none) q = ground (arith, q, h, e)
      split (ok (some x)) q = (x, ground (arith, q, h, e))
      split (err x) q = ground (arith, q, h, e)
      split (halt x) q = ground (arith, q, h, e)

  configure_server-IsConfigured :
      (port cert key : Text) (version : ℕ) (client_ca auth_config : Text) (a : Option Middleware)
      (w : World) (s : BundleWebServer Middleware)
      → (is_empty auth_config ≡ false → (x : Middleware) × (a ≡ some x))
      → (configure_server p fixed m port cert key version client_ca a w).0 ≡ ok s
      → IsConfigured port cert key client_ca auth_config s
  unfolding new_bundle_web_server
  configure_server-IsConfigured port cert key version client_ca auth_config a w s g h =
      split (is_empty cert) refl (is_empty client_ca) refl (m.open_read client_ca w).0 refl
    where
      split :
          (b : Bool)
          → is_empty cert ≡ b
          → (c : Bool) → is_empty client_ca ≡ c
          → (r : Reply Text) → (m.open_read client_ca w).0 ≡ r
          → IsConfigured port cert key client_ca auth_config s
      split true e c f r q = ground (arith, e, f, q, h, g)
      split false e true f r q = ground (arith, e, f, q, h, g)
      split false e false f (done bytes) q = record {
        addressed = ground (arith, e, f, q, h);
        plain = λ k. ground (arith, e, k);
        secure = λ k. ground (arith, e, f, q, h);
        clients = λ k l. (version, bytes, ground (arith, e, f, q, h));
        guarded = λ k. ((g k).0, ground (arith, e, f, q, h, (g k).1));
      }
      split false e false f (failed x) q = ground (arith, e, f, q, h, g)

  -- If `main` of the web server configures a server from flags that the validation accepts, then
  -- the port is a number from 0 to 65535 and the server is at its address; the certificate and the
  -- key are given both or neither; with them the server speaks TLS with them, and asks the clients
  -- for certificates of the authorities if their file is given, and without them it does not speak
  -- TLS; and if a file for authorization is given, there is a middleware.
  pub configure-IsConfigured :
      (fs : FlagSet) (w : World) (s : BundleWebServer Middleware)
      → validate fs ≡ ok tt
      → (configure p fixed m fs w).0 ≡ ok s
      → (in_port_range (parse_int (text_of fs (codes "port"))) ≡ true)
        × (is_empty (text_of fs (codes "cert")) ≡ is_empty (text_of fs (codes "key")))
        × IsConfigured
            (text_of fs (codes "port"))
            (text_of fs (codes "cert"))
            (text_of fs (codes "key"))
            (text_of fs (codes "client-ca"))
            (text_of fs (codes "auth-config"))
            s
  unfolding configure
  configure-IsConfigured fs w s v h =
      let (port, e0, h0) = >>=-eq-ok (λ w. (get_flag_value as_string fs (codes "port"), w)) _ w h in
      let (cert, e1, h1) =
        >>=-eq-ok (λ w. (get_flag_value as_string fs (codes "cert"), w)) _ w h0 in
      let (key, e2, h2) = >>=-eq-ok (λ w. (get_flag_value as_string fs (codes "key"), w)) _ w h1 in
      let (version, e3, h3) =
        >>=-eq-ok (λ w. (get_flag_value as_uint16 fs (codes "tls-version"), w)) _ w h2 in
      let (ca, e4, h4) =
        >>=-eq-ok (λ w. (get_flag_value as_string fs (codes "client-ca"), w)) _ w h3 in
      let (auth, e5, h5) =
        >>=-eq-ok (λ w. (get_flag_value as_string fs (codes "auth-config"), w)) _ w h4 in
      let (a, e6, h6) = >>=-eq-ok (configure_auth p fixed m auth) _ w h5 in
      let (in_range, both) = validate_values-eq-ok _ _ _ v in
      (
        in_range,
        both,
        rw
            (
              text_of_string fs (codes "port") port e0,
              text_of_string fs (codes "cert") cert e1,
              text_of_string fs (codes "key") key e2,
              text_of_string fs (codes "client-ca") ca e4,
              text_of_string fs (codes "auth-config") auth e5,
            )
            (configure_server-IsConfigured port cert key version ca auth a _ s
              (configure_auth-guarded auth w a e6) h6),
      )
