-- ===== src/Auth/Fixed.antt =====
-- Whom the middleware with fixed credentials lets in.
use git_bundle_server.Base.{
  wrapped-eq-ok, Text, true, false, some, ◌≡◌, refl, arith, Outcome, ok, err, halt, wrapped, codes,
  if◌then◌else◌, ◌==◌, ◌&&◌, ap, ◌∙◌, [], text_Eq, text_eq_iff, pos, length, ◌↔◌, Bool-cases, inl,
  inr,
}
use git_bundle_server.Auth.{
  FixedCredentialAuth, FixedCredentialAuthParams, Request, AuthResult, apply_result, allow, deny,
  authorize, authorize_pair, new_fixed_credential_auth, write_header, write_custom_headers, fresh,
  checked_params, checked_hash,
}

abbrev not_found : AuthResult
not_found = record {
  apply_result_func = some (λ w. (true, write_header (pos 404) (write_custom_headers [] w)));
}

module _ (sha256 : Text → Text) (hex_decode : Text → Outcome Text)
    (unmarshal : Text → Outcome FixedCredentialAuthParams) where
  checked_hash-eq-ok :
      (params : FixedCredentialAuthParams) (decoded : Outcome Text) (a : FixedCredentialAuth)
      → checked_hash sha256 hex_decode unmarshal params decoded ≡ ok a
      → (a.username_hash ≡ sha256 params.username)
        × (decoded ≡ ok a.password_hash)
        × (length a.password_hash ≡ 32)
  checked_hash-eq-ok params (ok bytes) a h = ground arith
  checked_hash-eq-ok params (err e) a h = cc
  checked_hash-eq-ok params (halt e) a h = cc

  checked_params-eq-ok :
      (params : FixedCredentialAuthParams) (a : FixedCredentialAuth)
      → checked_params sha256 hex_decode unmarshal (ok params) ≡ ok a
      → checked_hash sha256 hex_decode unmarshal params
          (wrapped (codes "passwordHash is invalid: ") (hex_decode params.password_hash_text))
        ≡ ok a
  checked_params-eq-ok params a h = ground arith

  -- What the middleware made of these parameters compares credentials with.
  new_fixed_credential_auth-eq-ok :
      (raw : Text) (params : FixedCredentialAuthParams) (a : FixedCredentialAuth)
      → unmarshal raw ≡ ok params
      → new_fixed_credential_auth sha256 hex_decode unmarshal raw ≡ ok a
      → (a.username_hash ≡ sha256 params.username)
        × (hex_decode params.password_hash_text ≡ ok a.password_hash)
        × (length a.password_hash ≡ 32)
  unfolding new_fixed_credential_auth
  new_fixed_credential_auth-eq-ok raw params a parsed h =
      let checked : checked_params sha256 hex_decode unmarshal (ok params) ≡ ok a =
        ground (arith, parsed) in
      let decoded =
        wrapped (codes "passwordHash is invalid: ") (hex_decode params.password_hash_text) in
      let (user, pass, size) =
        checked_hash-eq-ok params decoded a (checked_params-eq-ok params a checked) in
      (
        user,
        wrapped-eq-ok (codes "passwordHash is invalid: ") (hex_decode params.password_hash_text)
            pass,
        size,
      )

  -- For a middleware that NewFixedCredentialAuth made of parameters that parse: Authorize of a
  -- request with credentials gives a result; it lets the request go on exactly if the user name
  -- has the hash of the one configured and the password has the hash configured; and if it does
  -- not, the response is a 404 with no header.
  pub authorize_fixed :
      (raw : Text) (params : FixedCredentialAuthParams) (a : FixedCredentialAuth) (r : Request)
      → (owner repo username password : Text) → unmarshal raw ≡ ok params
      → new_fixed_credential_auth sha256 hex_decode unmarshal raw ≡ ok a
      → r.basic_auth ≡ some (username, password)
      → (res : AuthResult) × (authorize sha256 hex_decode unmarshal a r owner repo ≡ ok res)
        × (((apply_result res fresh).0 ≡ false) ↔ (
            (sha256 username ≡ sha256 params.username)
            × (hex_decode params.password_hash_text ≡ ok (sha256 password))))
        × ((apply_result res fresh).0 ≡ true
            → (apply_result res fresh).1 ≡ write_header (pos 404) fresh)
  unfolding authorize apply_result allow deny write_custom_headers write_header
  authorize_fixed raw params a r owner repo username password parsed made given =
      let (user, pass, size) = new_fixed_credential_auth-eq-ok raw params a parsed made in
      let match = sha256 username == a.username_hash && sha256 password == a.password_hash in
      let run : authorize sha256 hex_decode unmarshal a r owner repo
          ≡ (if match then ok (allow []) else ok not_found) =
        ap (authorize_pair sha256 hex_decode unmarshal a) given in
      elim (Bool-cases match) [
        | inl same ↦ (
          allow [],
          run ∙ ground (arith, same),
          (
            (λ _. ground (
              arith,
              same,
              user,
              pass,
              text_eq_iff (sha256 username) a.username_hash,
              text_eq_iff (sha256 password) a.password_hash,
            )),
            λ _. refl,
          ),
          λ h. ground (arith, h),
        )
        | inr differ ↦ (
          not_found,
          run ∙ ground (arith, differ),
          (
            (λ h. ground (arith, h)),
            λ h. ground (
              arith,
              differ,
              h.0,
              h.1,
              user,
              pass,
              text_eq_iff (sha256 username) a.username_hash,
              text_eq_iff (sha256 password) a.password_hash,
            ),
          ),
          λ _. refl,
        )
      ]
