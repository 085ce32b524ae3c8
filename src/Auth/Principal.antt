-- ===== src/Auth/Principal.antt =====
-- src/auth/middleware.rs: who makes a request, by its bearer token, and the check of a role. The users
-- are those of src/db/repositories/users.rs.
use klass_mobile_backend.Prelude.{
  ℕ, String, ◌<>◌, not, Option, none, some, List, [], ◌∷◌, str_eq, if◌then◌else◌,
}
use klass_mobile_backend.Prelude.Int.{ℤ, eq_ℤ}
use klass_mobile_backend.Prelude.Text.{is_empty}
use klass_mobile_backend.Prelude.Result.{Result, ok, err}
use klass_mobile_backend.Storage.{strip_prefix}
use klass_mobile_backend.Auth.Tokens.{TokenEnv, PersonalAccessToken, Tokens, verify_token}

pub record Principal : Type 0 where
  pub user_id : ℤ
  pub role : String

-- An error response: its status, and the code and message of its body.
pub record Response : Type 0 where
  pub status : ℕ
  pub code : String
  pub message : String

unfoldable pub unauthorized_response : String → Response
unauthorized_response message = record { status = 401; code = "unauthorized"; message = message }

unfoldable pub forbidden_response : String → Response
forbidden_response message = record { status = 403; code = "forbidden"; message = message }

unfoldable pub internal_error_response : String → Response
internal_error_response message = record {
  status = 500;
  code = "internal_error";
  message = message;
}

-- The columns of a user that are read here.
pub record User : Type 0 where
  pub id : ℤ
  pub role : String

unfoldable pub find_user : ℤ → List User → Option User
find_user id [] = none
find_user id (u ∷ us) = let rest = find_user id us in if eq_ℤ u.id id then some u else rest

-- The tables, and the errors of the two statements.
pub record Database : Type 0 where
  pub tokens : Tokens
  pub users : List User
  pub token_fault : Option String
  pub user_fault : Option String

unfoldable pub find_by_fault : Option String → ℤ → List User → Result String (Option User)
find_by_fault none id users = ok (find_user id users)
find_by_fault (some e) id users = err ("failed to find user by id: " <> e)

unfoldable pub find_by_id : Database → ℤ → Result String (Option User)
unfolding find_by_fault
find_by_id db id = find_by_fault db.user_fault id db.users

unfoldable pub principal_of : User → Principal
principal_of u = record { user_id = u.id; role = u.role }

unfoldable pub user_found : Result String (Option User) → Result Response Principal
unfolding principal_of
user_found (err e) = err (internal_error_response "user lookup failed")
user_found (ok none) = err (unauthorized_response "user not found")
user_found (ok (some u)) = ok (principal_of u)

unfoldable pub token_found :
    Database → Result String (Option PersonalAccessToken) → Result Response Principal
token_found db (err e) = err (internal_error_response "token verification failed")
token_found db (ok none) = err (unauthorized_response "invalid or expired token")
token_found db (ok (some t)) = user_found (find_by_id db t.tokenable_id)

unfoldable pub optional_user : Result String (Option User) → Option Principal
unfolding principal_of
optional_user (ok (some u)) = some (principal_of u)
optional_user (ok none) = none
optional_user (err e) = none

unfoldable pub optional_token :
    Database → Result String (Option PersonalAccessToken) → Option Principal
optional_token db (ok (some t)) = optional_user (find_by_id db t.tokenable_id)
optional_token db (ok none) = none
optional_token db (err e) = none

module _ (E : TokenEnv) (db : Database) where
  unfoldable pub bearer_token : Option String → Result Response Principal
  bearer_token none = err (unauthorized_response "invalid authorization scheme")
  bearer_token (some token) =
      if is_empty token
      then err (unauthorized_response "empty bearer token")
      else token_found db (verify_token E db.token_fault token db.tokens)

  -- `Principal::from_request_parts`, on the header Authorization, `none` where it is missing or no text.
  unfoldable pub principal : Option String → Result Response Principal
  principal none = err (unauthorized_response "missing authorization header")
  principal (some auth_header) = bearer_token (strip_prefix "Bearer " auth_header)

  unfoldable pub optional_bearer : Option String → Option Principal
  optional_bearer none = none
  optional_bearer (some token) =
      if not (is_empty token)
      then optional_token db (verify_token E db.token_fault token db.tokens)
      else none

  -- `OptionalPrincipal::from_request_parts`, which never rejects a request.
  unfoldable pub optional_principal : Option String → Option Principal
  optional_principal none = none
  optional_principal (some auth_header) = optional_bearer (strip_prefix "Bearer " auth_header)

-- The response, or the request goes on with the principal.
unfoldable pub require_role : String → Principal → Result Response Principal
require_role required p =
    if not (str_eq p.role required)
    then err (
        forbidden_response
          ("requires role '" <> (required <> ("', user has '" <> (p.role <> "'")))))
    else ok p
