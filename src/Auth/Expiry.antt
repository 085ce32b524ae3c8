-- ===== src/Auth/Expiry.antt =====
-- src/auth/tokens.rs: the expiry of a token.
use mathlib.Core.Option
use klass_mobile_backend.Prelude.{
  ◌≡◌, refl, ap, ◌∙◌, String, ◌&&◌, Option, none, some, List, map, str_eq, Bool-cases, inl, inr,
}
use klass_mobile_backend.Prelude.Int.{ℤ, eq_ℤ}
use klass_mobile_backend.Prelude.Text.{is_empty}
use klass_mobile_backend.Prelude.Decimal.{parse_i64}
use klass_mobile_backend.Prelude.Result.{ok}
use klass_mobile_backend.Storage.{strip_prefix}
use klass_mobile_backend.Auth.Tokens.{
  TokenEnv, PersonalAccessToken, Tokens, split_once, find_token, hash_token, query_token, verify_id,
  verify_pair, verify_token,
}
use klass_mobile_backend.Auth.Principal.{Database, find_by_id, token_found, bearer_token, principal}

module _ (expiry : PersonalAccessToken → Option ℤ) where
  -- The token with another expiry, and the tables with each.
  abbrev pub set_expiry : PersonalAccessToken → PersonalAccessToken
  set_expiry t = record t { expires_at = expiry t }

  abbrev pub with_expiry : Database → Database
  with_expiry db = record db { tokens = map set_expiry db.tokens }

  find_token-map :
      (id : ℤ) (hash : String) (ts : Tokens)
      → find_token id hash (map set_expiry ts) ≡ Option.map set_expiry (find_token id hash ts)
  unfolding find_token
  find_token-map id hash List.[] = refl
  find_token-map id hash (List.◌∷◌ t ts) = elim (Bool-cases (eq_ℤ t.id id && str_eq t.token hash)) [
    | inl m ↦ rw m refl
    | inr n ↦ rw n (find_token-map id hash ts)
  ]

  module _ (E : TokenEnv) (db : Database) where
    token_found-set_expiry :
        (o : Option PersonalAccessToken)
        → token_found (with_expiry db) (ok (Option.map set_expiry o)) ≡ token_found db (ok o)
    unfolding token_found find_by_id
    token_found-set_expiry none = refl
    token_found-set_expiry (some t) = refl

    query_found :
        (fault : Option String) (id : ℤ) (hash : String)
        → token_found (with_expiry db) (query_token E fault id hash (with_expiry db).tokens)
          ≡ token_found db (query_token E fault id hash db.tokens)
    unfolding query_token token_found
    query_found (some e) id hash = refl
    query_found none id hash =
        ap (λ o. token_found (with_expiry db) (ok o)) (find_token-map id hash db.tokens)
        ∙ token_found-set_expiry (find_token id hash db.tokens)

    verified_id :
        (o : Option ℤ) (plain : String)
        → token_found (with_expiry db) (verify_id E db.token_fault o plain (with_expiry db).tokens)
          ≡ token_found db (verify_id E db.token_fault o plain db.tokens)
    unfolding verify_id token_found
    verified_id none plain = refl
    verified_id (some id) plain = query_found db.token_fault id (hash_token E plain)

    verified :
        (o : Option (String × String))
        → token_found (with_expiry db) (verify_pair E db.token_fault o (with_expiry db).tokens)
          ≡ token_found db (verify_pair E db.token_fault o db.tokens)
    unfolding verify_pair token_found
    verified none = refl
    verified (some (id_str, plain)) = verified_id (parse_i64 id_str) plain

    bearer : (o : Option String) → bearer_token E (with_expiry db) o ≡ bearer_token E db o
    unfolding bearer_token verify_token
    bearer none = refl
    bearer (some token) = elim (Bool-cases (is_empty token)) [
      | inl t ↦ rw t refl
      | inr f ↦ rw f (verified (split_once token))
    ]

    -- Whether a request is let in does not depend on when the tokens expire: with other expiries in
    -- the table, or with none, each header gets the same answer.
    pub expiry_ignored :
        (header : Option String) → principal E (with_expiry db) header ≡ principal E db header
    unfolding principal
    expiry_ignored none = refl
    expiry_ignored (some h) = bearer (strip_prefix "Bearer " h)
