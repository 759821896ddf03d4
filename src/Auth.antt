-- ===== src/Auth.antt =====
-- pkg/auth/auth-result.go and internal/auth/middleware.go: what a middleware says of a request, and
-- the built-in middleware. SHA-256, hexadecimal and JSON are the standard library's: parameters.
pub mod Fixed
pub mod Config
pub mod Verified
use git_bundle_server.Base.{
  ℕ, Text, codes, Bool, true, false, not, ◌&&◌, ◌||◌, List, [], ◌∷◌, ◌++◌, Option, none, some,
  if◌then◌else◌, nat_eq, length, text_eq, ℤ, pos, lt_ℤ, Error, message, Outcome, ok, err, halt,
  panic, wrapped, ◌==◌, text_Eq,
}
use git_bundle_server.Go.Decimal.{show_int, show_nat}
use git_bundle_server.Go.Strings.{contains, is_empty}

-- `Header`
pub record Header : Type 0 where
  pub key : Text
  pub value : Text

-- What a handler did with its `http.ResponseWriter`: the headers added, the first status written,
-- and the file handed to `http.ServeContent` with the name given.
pub record Response : Type 0 where
  pub headers : List Header
  pub status : Option ℤ
  pub served : Option (Text × Text)

abbrev pub fresh : Response
fresh = record { headers = []; status = none; served = none }

-- `w.WriteHeader(code)`: only the first call counts.
abbrev pub first_status : Option ℤ → ℤ → Option ℤ
first_status none code = some code
first_status (some c) code = some c

unfoldable pub write_header : ℤ → Response → Response
write_header code w = record w { status = first_status w.status code }

unfoldable pub write_custom_headers : List Header → Response → Response
write_custom_headers headers w = record w { headers = w.headers ++ headers }

-- `AuthResult`: `none` is a nil function.
pub record AuthResult : Type 0 where
  pub apply_result_func : Option (Response → Bool × Response)

unfoldable pub apply_result : AuthResult → Response → Bool × Response
apply_result a w = elim a.apply_result_func [
  | none ↦ (true, write_header (pos 500) w)
  | some f ↦ f w
]

unfoldable pub deny : ℤ → List Header → Outcome AuthResult
deny code headers =
    if lt_ℤ code (pos 400) || lt_ℤ (pos 499) code
    then halt (
        panic (
          codes "invalid auth middleware response code (must be 4XX, got "
          ++ show_int code
          ++ codes ")"))
    else ok (record {
      apply_result_func = some (λ w. (true, write_header code (write_custom_headers headers w)));
    })

unfoldable pub allow : List Header → AuthResult
allow headers = record { apply_result_func = some (λ w. (false, write_custom_headers headers w)) }

-- What the server reads of a `http.Request`.
pub record Request : Type 0 where
  pub path : Text
  pub basic_auth : Option (Text × Text)

abbrev pub AuthFunc : Type 0
AuthFunc = Request → Text → Text → Outcome AuthResult

-- `fixedCredentialAuth`
pub record FixedCredentialAuth : Type 0 where
  pub username_hash : Text
  pub password_hash : Text

-- `fixedCredentialAuthParams`
pub record FixedCredentialAuthParams : Type 0 where
  pub username : Text
  pub password_hash_text : Text

abbrev pub challenge : Header
challenge = record {
  key = codes "WWW-Authenticate";
  value = codes "Basic realm=\"restricted\", charset=\"UTF-8\"";
}

module _ (sha256 : Text → Text) (hex_decode : Text → Outcome Text)
    (unmarshal : Text → Outcome FixedCredentialAuthParams) where
  abbrev pub checked_hash : FixedCredentialAuthParams → Outcome Text → Outcome FixedCredentialAuth
  checked_hash params (ok bytes) =
      if not (nat_eq (length bytes) 32)
      then err (
          message (
            codes "passwordHash is incorrect length ("
            ++ show_nat (length bytes)
            ++ codes " vs. expected 32)"))
      else ok (record { username_hash = sha256 params.username; password_hash = bytes })
  checked_hash params (err e) = err e
  checked_hash params (halt h) = halt h

  abbrev pub checked_params : Outcome FixedCredentialAuthParams → Outcome FixedCredentialAuth
  checked_params (ok params) =
      if contains params.username (codes ":")
      then err (message (codes "username contains a colon (\":\")"))
      else checked_hash params
          (wrapped (codes "passwordHash is invalid: ") (hex_decode params.password_hash_text))
  checked_params (err e) = err e
  checked_params (halt h) = halt h

  unfoldable pub new_fixed_credential_auth : Text → Outcome FixedCredentialAuth
  new_fixed_credential_auth raw =
      if is_empty raw
      then err (message (codes "parameters JSON must exist"))
      else checked_params (unmarshal raw)

  -- `ConstantTimeCompare` of two slices is 1 if they are equal.
  abbrev pub authorize_pair : FixedCredentialAuth → Option (Text × Text) → Outcome AuthResult
  authorize_pair a none = deny (pos 401) (challenge ∷ [])
  authorize_pair a (some (username, password)) =
      let username_match = sha256 username == a.username_hash in
      let password_match = sha256 password == a.password_hash in
      if username_match && password_match then ok (allow []) else deny (pos 404) []

  unfoldable pub authorize : FixedCredentialAuth → AuthFunc
  authorize a r owner repo = authorize_pair a r.basic_auth
