-- ===== src/Rest.antt =====
-- The authentication of server/src/rest_controller: `JwtClaims::from_request` of auth.rs and
-- `post_authenticate` of routes/auth.rs. The jsonwebtoken crate, the database and the random
-- generator are parameters; times are seconds.
pub mod Splitting
pub mod Outcomes
pub mod Parsing
pub mod Rooms
pub mod Joining
mod Tests
use text.Mathlib.Text.{◌==◌ as str_eq}
use Prim.Native.String.{◌++◌ as text_append}
use simple_screen_share.Base.{
  ℕ, ◌+◌, ◌*◌, ◌/◌, Bool, true, false, not, String, Option, none, some, List, [], ◌∷◌, is_some,
  if◌then◌else◌,
}
use simple_screen_share.Base.Result.{Result, ok, err}
use simple_screen_share.Messages.{UserId}
use simple_screen_share.Rest.Splitting.{split_space}

pub record JwtClaims : Type 0 where
  pub user_id : String
  pub user_registered : Bool
  pub exp : ℕ
  pub iat : ℕ

pub data JwtTokenError : Type 0 where
  missing_token invalid_authorization token_invalid jwt_token_expired : JwtTokenError
  validation_failure : (reason : String) → JwtTokenError
  expired : (claims : JwtClaims) → JwtTokenError

pub data Status : Type 0 where
  bad_request unauthorized : Status

-- `Outcome` of rocket, as far as it is used.
pub data Outcome : Type 0 where
  success : JwtClaims → Outcome
  failure : Status → JwtTokenError → Outcome

-- An error of `jsonwebtoken::decode`, with its text.
pub data DecodeError : Type 0 where
  expired_signature other_error : (message : String) → DecodeError

-- `decode validate token`: with the default validation, or without that of the two times.
abbrev pub Decode : Type 0
Decode = Bool → String → Result JwtClaims DecodeError

unfoldable pub decode_token : Decode → String → Outcome
decode_token decode token = elim (decode true token) [
  | ok claims ↦ success claims
  | err (other_error message) ↦ failure unauthorized (validation_failure message)
  | err (expired_signature message) ↦ elim (decode false token) [
    | ok claims ↦ success claims
    | err error ↦ failure unauthorized (validation_failure message)
  ]
]

unfoldable pub from_parts : Decode → String → List String → Outcome
unfolding decode_token
from_parts decode user [] =
    if str_eq user "Bearer"
    then failure bad_request token_invalid
    else failure bad_request invalid_authorization
from_parts decode user (token ∷ rest) =
    let decoded = decode_token decode token in
    if str_eq user "Bearer" then decoded else failure bad_request invalid_authorization

-- `from_request`, given the authorization header.
unfoldable pub from_request : Decode → Option String → Outcome
unfolding from_parts split_space
from_request decode none = failure bad_request missing_token
from_request decode (some header) = from_parts decode (split_space header).0 (split_space header).1

pub record UserRegistration : Type 0 where
  pub username : String
  pub password : String

pub record User : Type 0 where
  pub user_id : UserId
  pub registration : Option UserRegistration

pub data ResponseAuthenticate : Type 0 where
  authenticated :
      (user_id : String) (user_registered : Bool) (refreshed_token : String) → ResponseAuthenticate
  token_expired invalid_user no_authentication user_requires_login : ResponseAuthenticate
  authenticate_error : (message : String) → ResponseAuthenticate

pub record PayloadAuthenticate : Type 0 where
  pub credentials : Option (String × String)
  pub create_account : Bool

-- A request's guard is its outcome as a result.
unfoldable pub current_token : Outcome → Option (JwtClaims × Bool)
current_token (success claims) = some (claims, false)
current_token (failure status (expired claims)) = some (claims, true)
current_token (failure status missing_token) = none
current_token (failure status invalid_authorization) = none
current_token (failure status token_invalid) = none
current_token (failure status jwt_token_expired) = none
current_token (failure status (validation_failure reason)) = none

abbrev pub days : ℕ → ℕ
days n = n * 86400

-- `insert_one` is the database's, `drawn` the random u64 and `to_text` its digits.
unfoldable pub register_new_user :
    (User → Option String) → (ℕ → String) → (drawn : ℕ) → Result JwtClaims String
register_new_user insert_one to_text drawn =
    let user : User = record { user_id = drawn / 2; registration = none } in
    elim (insert_one user) [
      | some error ↦ err error
      | none ↦
          ok (record { user_id = to_text user.user_id; user_registered = false; exp = 0; iat = 0 })
    ]

-- `find_user` is the database's `find_one`, `register` what `register_new_user` gives, and `encode`
-- signs.
module _ (find_user : String → Result (Option User) String) (register : Result JwtClaims String)
    (encode : JwtClaims → Result String String) (now : ℕ) where
  -- The claims of a request with a token, with their new expiry.
  unfoldable pub refresh :
      PayloadAuthenticate → JwtClaims → Bool → Result JwtClaims ResponseAuthenticate
  refresh payload claims is_expired = elim (find_user claims.user_id) [
    | err error ↦ err (authenticate_error error)
    | ok none ↦
        if payload.create_account
        then ok (record claims { exp = now + days 1 })
        else err invalid_user
    | ok (some user) ↦
        if is_some user.registration
        then (if not claims.user_registered
            then err user_requires_login
            else if is_expired
            then err token_expired
            else ok (record claims { exp = now + days 7 }))
        else ok (record claims { exp = now + days 356 })
  ]

  -- The claims of a request without a token.
  unfoldable pub new_claims : PayloadAuthenticate → Result JwtClaims ResponseAuthenticate
  new_claims payload =
      let created : Result JwtClaims ResponseAuthenticate = elim register [
        | ok claims ↦ ok (record claims { exp = now + days 356 })
        | err error ↦ err (authenticate_error error)
      ] in
      if is_some payload.credentials
      then err (authenticate_error "login not yet supported")
      else if payload.create_account
      then created
      else err no_authentication

  unfoldable pub issue : Result JwtClaims ResponseAuthenticate → ResponseAuthenticate
  issue (err response) = response
  issue (ok claims) = elim (encode (record claims { iat = now })) [
    | err error ↦ authenticate_error (text_append "failed to generate token: " error)
    | ok token ↦ authenticated claims.user_id claims.user_registered token
  ]

  unfoldable pub post_authenticate : Outcome → PayloadAuthenticate → ResponseAuthenticate
  unfolding current_token refresh new_claims issue
  post_authenticate outcome payload = elim (current_token outcome) [
    | some (claims, is_expired) ↦ issue (refresh payload claims is_expired)
    | none ↦ issue (new_claims payload)
  ]
