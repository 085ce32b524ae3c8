-- ===== src/Auth/Tokens.antt =====
-- src/auth/tokens.rs: personal access tokens, on the rows of the table personal_access_tokens, with its
-- two unique keys.
pub mod Issued
use klass_mobile_backend.Prelude.{
  ℕ, String, ◌<>◌, Bool, true, false, not, ◌&&◌, ◌||◌, Option, none, some, List, [], ◌∷◌, str_eq,
  ◌==◌, if◌then◌else◌,
}
use mathlib.Core.Option
use Prim.Native.String
use Prim.Native.Char.{code}
use klass_mobile_backend.Prelude.Int.{ℤ, eq_ℤ}
use klass_mobile_backend.Prelude.Decimal.{show_int, parse_i64}
use klass_mobile_backend.Prelude.Filter.{filter}
use klass_mobile_backend.Prelude.Result.{Result, ok, err}

-- SHA-256 in hexadecimal digits, and the text of the database's error on a duplicate key.
pub record TokenEnv : Type 0 where
  pub sha256_hex : String → String
  pub duplicate_key : String

-- Times are numbers of microseconds.
pub record PersonalAccessToken : Type 0 where
  pub id : ℤ
  pub tokenable_type : String
  pub tokenable_id : ℤ
  pub name : String
  pub token : String
  pub abilities : Option String
  pub last_used_at : Option ℤ
  pub expires_at : Option ℤ
  pub created_at : Option ℤ
  pub updated_at : Option ℤ

abbrev pub Tokens : Type 0
Tokens = List PersonalAccessToken

abbrev pub tokenable_user : String
tokenable_user = "App\\Models\\User"

-- The digits of two random uuids.
unfoldable pub generate_plain_token : String → String → String
generate_plain_token a b = a <> b

-- What a call of `issue_token` meets: the two uuids, the id of the sequence, the time of the database,
-- and the error of the statement.
pub record Insert : Type 0 where
  pub first_uuid : String
  pub second_uuid : String
  pub new_id : ℤ
  pub now : ℤ
  pub fault : Option String

unfoldable pub has_duplicate : PersonalAccessToken → Tokens → Bool
has_duplicate new [] = false
has_duplicate new (t ∷ ts) =
    let rest = has_duplicate new ts in (eq_ℤ t.id new.id || str_eq t.token new.token) || rest

-- `split_once('|')`.
unfoldable pub split_once : String → Option (String × String)
split_once String.[] = none
split_once (String.◌∷◌ c s) =
    let rest = split_once s in
    if code c == 124
    then some (String.[], s)
    else Option.map (λ (p : String × String). (String.◌∷◌ c p.0, p.1)) rest

-- WHERE id = $1 AND token = $2.
unfoldable pub find_token : ℤ → String → Tokens → Option PersonalAccessToken
find_token id hash [] = none
find_token id hash (t ∷ ts) =
    let rest = find_token id hash ts in if eq_ℤ t.id id && str_eq t.token hash then some t else rest

abbrev pub belongs_to : ℤ → PersonalAccessToken → Bool
belongs_to user_id t = eq_ℤ t.tokenable_id user_id && str_eq t.tokenable_type tokenable_user

-- A deletion that may fail.
abbrev pub delete_where :
    String
    → Option String
    → (PersonalAccessToken → Bool)
    → Tokens
    → Result String (Unit {0}) × Tokens
delete_where context none p ts = (ok tt, filter (λ t. not (p t)) ts)
delete_where context (some e) p ts = (err (context <> e), ts)

unfoldable pub revoke_token : Option String → ℤ → Tokens → Result String (Unit {0}) × Tokens
revoke_token fault id ts =
    delete_where "failed to delete token: " fault (λ (t : PersonalAccessToken). eq_ℤ t.id id) ts

unfoldable pub revoke_all_for_user : Option String → ℤ → Tokens → Result String (Unit {0}) × Tokens
revoke_all_for_user fault user_id ts =
    delete_where "failed to delete tokens for user: " fault (belongs_to user_id) ts

module _ (E : TokenEnv) where
  unfoldable pub hash_token : String → String
  hash_token plain = E.sha256_hex plain

  unfoldable pub new_token : Insert → ℤ → String → Option String → PersonalAccessToken
  new_token i user_id name abilities = record {
    id = i.new_id;
    tokenable_type = tokenable_user;
    tokenable_id = user_id;
    name = name;
    token = hash_token (generate_plain_token i.first_uuid i.second_uuid);
    abilities = abilities;
    last_used_at = none;
    expires_at = none;
    created_at = some i.now;
    updated_at = some i.now;
  }

  unfoldable pub insert_token :
      Insert → PersonalAccessToken → Option String → Tokens → Result String String × Tokens
  insert_token i row (some e) ts = (err ("failed to insert token: " <> e), ts)
  insert_token i row none ts =
      if has_duplicate row ts then (err ("failed to insert token: " <> E.duplicate_key), ts) else (
        ok (show_int i.new_id <> ("|" <> generate_plain_token i.first_uuid i.second_uuid)),
        row ∷ ts,
      )

  unfoldable pub issue_token :
      Insert → ℤ → String → Option String → Tokens → Result String String × Tokens
  issue_token i user_id name abilities ts =
      insert_token i (new_token i user_id name abilities) i.fault ts

  unfoldable pub query_token :
      Option String → ℤ → String → Tokens → Result String (Option PersonalAccessToken)
  query_token (some e) id hash ts = err ("failed to query token: " <> e)
  query_token none id hash ts = ok (find_token id hash ts)

  unfoldable pub verify_id :
      Option String → Option ℤ → String → Tokens → Result String (Option PersonalAccessToken)
  verify_id fault none plain ts = ok none
  verify_id fault (some id) plain ts = query_token fault id (hash_token plain) ts

  unfoldable pub verify_pair :
      Option String → Option (String × String) → Tokens → Result String (Option PersonalAccessToken)
  verify_pair fault none ts = ok none
  verify_pair fault (some (id_str, plain)) ts = verify_id fault (parse_i64 id_str) plain ts

  unfoldable pub verify_token :
      Option String → String → Tokens → Result String (Option PersonalAccessToken)
  verify_token fault token ts = verify_pair fault (split_once token) ts
