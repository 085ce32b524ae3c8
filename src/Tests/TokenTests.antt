-- ===== src/Tests/TokenTests.antt =====
-- The tokens of src/auth/tokens.rs and the requests that carry them, for one user.
use klass_mobile_backend.Prelude.{ℕ, ◌≡◌, refl, String, ◌<>◌, none, some, List, [], ◌∷◌, arith}
use klass_mobile_backend.Prelude.Int.{pos}
use klass_mobile_backend.Prelude.Text.{is_empty}
use klass_mobile_backend.Prelude.Decimal.{
  show_int, show_nat, digits, digit, parse_i64, read_signed, read_number, read_digits, positive,
}
use klass_mobile_backend.Prelude.Result.{ok, err}
use klass_mobile_backend.Storage.{strip_prefix}
use klass_mobile_backend.Auth.Tokens.{
  TokenEnv, PersonalAccessToken, Insert, generate_plain_token, has_duplicate, split_once,
  find_token, revoke_token, hash_token, new_token, insert_token, issue_token, query_token,
  verify_id, verify_pair, verify_token,
}
use klass_mobile_backend.Auth.Tokens.Issued.{TokenCall, issue, revoke, revoke_all, calls}
use klass_mobile_backend.Auth.Principal.{
  User, unauthorized_response, find_user, token_found, bearer_token, principal, optional_principal,
}
use klass_mobile_backend.Auth.Bearer.{
  healthy, text_of, ok_of, issued_authenticates, revoked_is_refused, optional_principal-principal,
}
use klass_mobile_backend.Auth.Expiry.{with_expiry, expiry_ignored}

abbrev env : TokenEnv
env = record { sha256_hex = λ s. "#" <> s; duplicate_key = "duplicate key" }

abbrev with_id : ℕ → String → Insert
with_id n uuid = record {
  first_uuid = uuid;
  second_uuid = "0f";
  new_id = pos n;
  now = pos 1000;
  fault = none;
}

abbrev users : List User
users = record { id = pos 7; role = "teacher" } ∷ []

abbrev first_token : PersonalAccessToken
first_token = new_token env (with_id 3 "ab") (pos 7) "auth" none

-- Another user logs in, and two revocations of other tokens, one of which fails.
abbrev others : List TokenCall
others =
    issue (with_id 4 "cd") (pos 8) "auth" none
    ∷ revoke none (pos 4)
    ∷ revoke (some "timeout") (pos 5)
    ∷ revoke_all none (pos 8)
    ∷ []

issued_first :
    issue_token env (with_id 3 "ab") (pos 7) "auth" none [] ≡ (ok "3|ab0f", first_token ∷ [])
unfolding issue_token insert_token has_duplicate generate_plain_token show_int show_nat digits digit
issued_first = refl

user_seven : find_user (pos 7) users ≡ some (record { id = pos 7; role = "teacher" })
unfolding find_user
user_seven = refl

issued_authenticates_example :
    principal env
      (healthy (calls env others (first_token ∷ [])) users)
      (some ("Bearer " <> "3|ab0f"))
    ≡ ok (record { user_id = pos 7; role = "teacher" })
issued_authenticates_example =
    issued_authenticates env (with_id 3 "ab") (pos 7) "auth" none [] (first_token ∷ []) "3|ab0f"
      others users (record { id = pos 7; role = "teacher" }) (omega arith) issued_first
      (tt, (refl, (refl, (refl, tt)))) user_seven

revoked_is_refused_example :
    principal env
      (healthy (calls env others (revoke_token none (pos 3) (first_token ∷ [])).1) users)
      (some ("Bearer " <> text_of (pos 3) "ab0f"))
    ≡ err (unauthorized_response "invalid or expired token")
revoked_is_refused_example =
    revoked_is_refused env (pos 3) "ab0f" (first_token ∷ []) others users (omega arith)
      (refl, (tt, (tt, (tt, tt))))

optional_principal-principal_example :
    optional_principal env (healthy (first_token ∷ []) users) (some "Bearer 3|ab0f")
    ≡ ok_of (principal env (healthy (first_token ∷ []) users) (some "Bearer 3|ab0f"))
optional_principal-principal_example =
    optional_principal-principal env (healthy (first_token ∷ []) users) (some "Bearer 3|ab0f")

expiry_ignored_example :
    principal env
      (with_expiry (λ t. some (pos 0)) (healthy (first_token ∷ []) users))
      (some "Bearer 3|ab0f")
    ≡ principal env (healthy (first_token ∷ []) users) (some "Bearer 3|ab0f")
expiry_ignored_example =
    expiry_ignored (λ t. some (pos 0)) env (healthy (first_token ∷ []) users) (some "Bearer 3|ab0f")

another_secret :
    principal env (healthy (first_token ∷ []) users) (some "Bearer 3|ab0e")
    ≡ err (unauthorized_response "invalid or expired token")
unfolding principal bearer_token strip_prefix is_empty verify_token verify_pair verify_id
    query_token split_once parse_i64 read_signed read_number read_digits positive find_token
    hash_token new_token generate_plain_token token_found
another_secret = refl
