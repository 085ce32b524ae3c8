-- ===== src/Auth/Bearer.antt =====
-- src/auth/middleware.rs with src/auth/tokens.rs: which requests the tokens let in.
use Prim.Native.Char.{code}
use Prim.Native.String.{◌∷◌}
use text.Mathlib.TextLemmas.{nil-append, cons-append}
use mathlib.Core.Path.{subst}
use mathlib.Core.Option.{none-ne-some}
use klass_mobile_backend.Prelude.{
  ◌≡◌, refl, sym, ap, ◌∙◌, String, ◌<>◌, false, Option, none, some, List, eq_iff, ==_iff,
  Bool-cases, inl, inr,
}
use klass_mobile_backend.Prelude.Int.{ℤ, eq_ℤ_iff}
use klass_mobile_backend.Prelude.Text.{is_empty}
use klass_mobile_backend.Prelude.Decimal.{show_int}
use klass_mobile_backend.Prelude.Decimal.Laws.{Fits64, parse_i64-show_int}
use klass_mobile_backend.Prelude.Decimal.Bar.{no_bar-show_int}
use klass_mobile_backend.Prelude.Filter.{All}
use klass_mobile_backend.Prelude.Result.{Result, ok, err, ok_injective, ok≢err}
use klass_mobile_backend.Storage.{strip_prefix}
use klass_mobile_backend.Auth.Tokens.{
  TokenEnv, PersonalAccessToken, Tokens, Insert, generate_plain_token, has_duplicate, split_once,
  find_token, revoke_token, hash_token, new_token, insert_token, issue_token, query_token,
  verify_id, verify_pair, verify_token,
}
use klass_mobile_backend.Auth.Tokens.Issued.{
  split_once-append, find_token-All, TokenCall, Spares, Fresh, calls, found_after, Absent-after,
  revoked-Absent,
}
use klass_mobile_backend.Auth.Principal.{
  unauthorized_response, User, find_user, Database, find_by_fault, find_by_id, principal_of,
  user_found, token_found, optional_user, optional_token, bearer_token, principal, optional_bearer,
  optional_principal,
}

-- The tables where both statements succeed.
abbrev pub healthy : Tokens → List User → Database
healthy ts users = record { tokens = ts; users = users; token_fault = none; user_fault = none }

abbrev pub text_of : ℤ → String → String
text_of id plain = show_int id <> ("|" <> plain)

strip_prefix-append : (p s : String) → strip_prefix p (p <> s) ≡ some s
unfolding strip_prefix
strip_prefix-append String.[] s = rw nil-append refl
strip_prefix-append (c ∷ p) s =
    rw cons-append (rw ((==_iff (code c) (code c)).1 refl, strip_prefix-append p s) refl)

not_empty : (s : String) (p : String × String) → split_once s ≡ some p → is_empty s ≡ false
unfolding split_once is_empty
not_empty String.[] p h = absurd (none-ne-some p h)
not_empty (c ∷ s) p h = refl

abbrev pub ok_of : {A : Type 0} {B : Type 0} → Result B A → Option A
ok_of (ok a) = some a
ok_of (err _) = none

module _ (E : TokenEnv) where
  verify_token-text :
      (id : ℤ) (plain : String) (ts : Tokens)
      → Fits64 id
      → verify_token E none (text_of id plain) ts ≡ ok (find_token id (hash_token E plain) ts)
  unfolding verify_token verify_pair verify_id query_token
  verify_token-text id plain ts f =
      rw (split_once-append (show_int id) plain (no_bar-show_int id))
        (rw (parse_i64-show_int id f) refl)

  -- The header with a token of this text.
  principal-text :
      (id : ℤ) (plain : String) (ts : Tokens) (users : List User)
      → Fits64 id
      → principal E (healthy ts users) (some ("Bearer " <> text_of id plain))
        ≡ token_found (healthy ts users) (ok (find_token id (hash_token E plain) ts))
  unfolding principal bearer_token
  principal-text id plain ts users f =
      let some_text = not_empty _ _ (split_once-append (show_int id) plain (no_bar-show_int id)) in
      rw (strip_prefix-append "Bearer " (text_of id plain))
        (rw some_text (ap (token_found (healthy ts users)) (verify_token-text id plain ts f)))

  module _ (i : Insert) (user_id : ℤ) (name : String) (abilities : Option String) where
    abbrev row : PersonalAccessToken
    row = new_token E i user_id name abilities

    abbrev plain_of : String
    plain_of = generate_plain_token i.first_uuid i.second_uuid

    find_token-row : (ts : Tokens) → find_token i.new_id row.token (List.◌∷◌ row ts) ≡ some row
    unfolding find_token new_token
    find_token-row ts =
        rw ((eq_ℤ_iff i.new_id i.new_id).1 refl) (rw ((eq_iff row.token row.token).1 refl) refl)

    issued :
        (ts ts' : Tokens) (token : String) (fault : Option String)
        → insert_token E i row fault ts ≡ (ok token, ts')
        → (token ≡ text_of i.new_id plain_of) × (find_token i.new_id row.token ts' ≡ some row)
    unfolding insert_token
    issued ts ts' token (some e) h = absurd (ok≢err token _ (sym (ap (λ r. r.0) h)))
    issued ts ts' token none h = elim (Bool-cases (has_duplicate row ts)) [
      | inl t ↦ absurd (ok≢err token _ (sym (ap (λ r. r.0) (rw t at h))))
      | inr f ↦
          let g = rw f at h in
          (
            sym (ok_injective (ap (λ r. r.0) g)),
            subst (λ l. find_token i.new_id row.token l ≡ some row) (ap (λ r. r.1) g)
                (find_token-row ts),
          )
    ]

    -- A token that was issued lets its user in, after any calls that do not revoke it or all of the
    -- user's: the header with the token gives the user that the table has for the id.
    pub issued_authenticates :
        (ts ts' : Tokens) (token : String) (cs : List TokenCall) (users : List User) (u : User)
        → Fits64 i.new_id
        → issue_token E i user_id name abilities ts ≡ (ok token, ts')
        → All (Spares i.new_id user_id) cs
        → find_user user_id users ≡ some u
        → principal E (healthy (calls E cs ts') users) (some ("Bearer " <> token))
          ≡ ok (record { user_id = u.id; role = u.role })
    unfolding issue_token token_found user_found find_by_id find_by_fault principal_of new_token
    issued_authenticates ts ts' token cs users u f h s g =
        let (e, found) = issued ts ts' token i.fault h in
        let still = found_after E i.new_id user_id row.token row cs ts' refl refl s found in
        subst
          (λ t.
            principal E (healthy (calls E cs ts') users) (some ("Bearer " <> t))
            ≡ ok (record { user_id = u.id; role = u.role }))
          (sym e)
          (principal-text i.new_id plain_of (calls E cs ts') users f
            ∙ ap (λ o. token_found (healthy (calls E cs ts') users) (ok o)) still
            ∙ rw g refl)

  -- After a token is revoked nobody is let in with its id, whatever follows the bar, after any calls
  -- that do not give the id to another token.
  pub revoked_is_refused :
      (id : ℤ) (plain : String) (ts : Tokens) (cs : List TokenCall) (users : List User)
      → Fits64 id
      → All (Fresh id) cs
      → principal E
          (healthy (calls E cs (revoke_token none id ts).1) users)
          (some ("Bearer " <> text_of id plain))
        ≡ err (unauthorized_response "invalid or expired token")
  unfolding token_found
  revoked_is_refused id plain ts cs users f n =
      let after = calls E cs (revoke_token none id ts).1 in
      let none_left = Absent-after E id cs (revoke_token none id ts).1 n (revoked-Absent id ts) in
      principal-text id plain after users f
      ∙ ap (λ o. token_found (healthy after users) (ok o))
          (find_token-All id (hash_token E plain) after none_left)

  module _ (db : Database) where
    optional_user-eq : (r : Result String (Option User)) → optional_user r ≡ ok_of (user_found r)
    unfolding optional_user user_found
    optional_user-eq (err e) = refl
    optional_user-eq (ok none) = refl
    optional_user-eq (ok (some u)) = refl

    optional_token-eq :
        (r : Result String (Option PersonalAccessToken))
        → optional_token db r ≡ ok_of (token_found db r)
    unfolding optional_token token_found
    optional_token-eq (err e) = refl
    optional_token-eq (ok none) = refl
    optional_token-eq (ok (some t)) = optional_user-eq (find_by_id db t.tokenable_id)

    optional_bearer-eq : (o : Option String) → optional_bearer E db o ≡ ok_of (bearer_token E db o)
    unfolding optional_bearer bearer_token
    optional_bearer-eq none = refl
    optional_bearer-eq (some token) = elim (Bool-cases (is_empty token)) [
      | inl t ↦ rw t refl
      | inr f ↦ rw f (optional_token-eq (verify_token E db.token_fault token db.tokens))
    ]

    -- The extractor that never rejects gives the principal of the one that does, and none exactly
    -- where that one rejects the request, faults of the database included.
    pub optional_principal-principal :
        (header : Option String) → optional_principal E db header ≡ ok_of (principal E db header)
    unfolding optional_principal principal
    optional_principal-principal none = refl
    optional_principal-principal (some h) = optional_bearer-eq (strip_prefix "Bearer " h)
