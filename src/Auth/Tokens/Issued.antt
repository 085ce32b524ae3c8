-- ===== src/Auth/Tokens/Issued.antt =====
-- src/auth/tokens.rs: what becomes of a token after it is issued, whatever is called in between.
use Prim.Native.Char.{code}
use Prim.Native.String.{◌∷◌}
use text.Mathlib.TextLemmas.{nil-append, cons-append}
use mathlib.Core.Option.{none-ne-some, some-injective}
use klass_mobile_backend.Prelude.{
  ◌≡◌, refl, ap, ◌∙◌, String, ◌<>◌, Bool, true, false, not, ◌&&◌, Option, none, some, List, arith,
  str_eq, ◌==◌, Bool-cases, inl, inr,
}
use klass_mobile_backend.Prelude.Int.{ℤ, eq_ℤ}
use klass_mobile_backend.Prelude.Decimal.Bar.{no_bar}
use klass_mobile_backend.Prelude.Filter.{filter, All, All-filter, All-map, filter-true}
use klass_mobile_backend.Auth.Tokens.{
  TokenEnv, PersonalAccessToken, Tokens, Insert, has_duplicate, split_once, find_token, belongs_to,
  revoke_token, revoke_all_for_user, new_token, insert_token, issue_token,
}

-- A text without a bar before the bar is the first part.
pub split_once-append :
    (a s : String) → no_bar a ≡ true → split_once (a <> ("|" <> s)) ≡ some (a, s)
unfolding split_once no_bar
split_once-append String.[] s h = rw (nil-append, cons-append, nil-append) refl
split_once-append (c ∷ a) s h = elim (Bool-cases (code c == 124)) [
  | inl t ↦ ground arith
  | inr f ↦ rw cons-append (rw (f, split_once-append a s (ground arith)) refl)
]

module _ (id : ℤ) (hash : String) where
  matches : PersonalAccessToken → Bool
  matches t = eq_ℤ t.id id && str_eq t.token hash

  -- A deletion that spares the row that is found does not change what is found.
  find_token-filter :
      (p : PersonalAccessToken → Bool) (row : PersonalAccessToken) (ts : Tokens)
      → p row ≡ true
      → find_token id hash ts ≡ some row
      → find_token id hash (filter p ts) ≡ some row
  unfolding find_token
  find_token-filter p row List.[] h e = e
  find_token-filter p row (List.◌∷◌ t ts) h e =
      elim (Bool-cases (eq_ℤ t.id id && str_eq t.token hash)) [
        | inl m ↦
            let same : t ≡ row = some-injective _ _ (rw m at e) in
            rw (ap p same ∙ h) (rw m (rw m at e))
        | inr n ↦ elim (Bool-cases (p t)) [
          | inl k ↦ rw k (rw n (find_token-filter p row ts h (rw n at e)))
          | inr k ↦ rw k (find_token-filter p row ts h (rw n at e))
        ]
      ]

  -- A row of the same id is a duplicate of the one that is found.
  find_token-has_duplicate :
      (row new : PersonalAccessToken) (ts : Tokens)
      → eq_ℤ new.id id ≡ true
      → find_token id hash ts ≡ some row
      → has_duplicate new ts ≡ true
  unfolding find_token has_duplicate
  find_token-has_duplicate row new List.[] h e = absurd (none-ne-some row e)
  find_token-has_duplicate row new (List.◌∷◌ t ts) h e =
      elim (Bool-cases (eq_ℤ t.id id && str_eq t.token hash)) [
        | inl m ↦ ground arith
        | inr n ↦ let ih = find_token-has_duplicate row new ts h (rw n at e) in ground arith
      ]

  pub find_token-All :
      (ts : Tokens)
      → All (λ (t : PersonalAccessToken). eq_ℤ t.id id ≡ false) ts
      → find_token id hash ts ≡ none
  unfolding find_token
  find_token-All List.[] h = refl
  find_token-All (List.◌∷◌ t ts) h = rw h.0 (find_token-All ts h.1)

-- A call on the table of tokens, with what it meets.
pub data TokenCall : Type 0 where
  issue : Insert → ℤ → String → Option String → TokenCall
  revoke revoke_all : Option String → ℤ → TokenCall

-- A call that does not revoke the token of this id and user.
abbrev pub Spares : ℤ → ℤ → TokenCall → Type 0
Spares id user_id (issue i u name abilities) = Unit {0}
Spares id user_id (revoke fault j) = eq_ℤ id j ≡ false
Spares id user_id (revoke_all fault u) = eq_ℤ user_id u ≡ false

-- A call that does not issue a token with this id: no sequence gives an id twice.
abbrev pub Fresh : ℤ → TokenCall → Type 0
Fresh id (issue i u name abilities) = eq_ℤ i.new_id id ≡ false
Fresh id (revoke fault j) = Unit {0}
Fresh id (revoke_all fault u) = Unit {0}

-- No row has this id, while calls give it to none.
abbrev pub Absent : ℤ → Tokens → Type 0
Absent id = All λ (t : PersonalAccessToken). eq_ℤ t.id id ≡ false

pub revoked-Absent : (id : ℤ) (ts : Tokens) → Absent id (revoke_token none id ts).1
unfolding revoke_token
revoked-Absent id ts =
    All-map _ _ (λ t h. not_true (eq_ℤ t.id id) h) _ (filter-true (λ t. not (eq_ℤ t.id id)) ts)
  where
    not_true : (p : Bool) → not p ≡ true → p ≡ false
    not_true p h = ground arith

module _ (E : TokenEnv) where
  abbrev pub call : TokenCall → Tokens → Tokens
  call (issue i u name abilities) ts = (issue_token E i u name abilities ts).1
  call (revoke fault j) ts = (revoke_token fault j ts).1
  call (revoke_all fault u) ts = (revoke_all_for_user fault u ts).1

  abbrev pub calls : List TokenCall → Tokens → Tokens
  calls List.[] ts = ts
  calls (List.◌∷◌ c cs) ts = calls cs (call c ts)

  -- A row that is found stays found, while calls spare it.
  inserted_after :
      (id : ℤ) (hash : String) (row new : PersonalAccessToken) (i : Insert) (fault : Option String)
      (ts : Tokens)
      → find_token id hash ts ≡ some row
      → find_token id hash (insert_token E i new fault ts).1 ≡ some row
  unfolding insert_token find_token
  inserted_after id hash row new i (some e) ts h = h
  inserted_after id hash row new i none ts h = elim (Bool-cases (has_duplicate new ts)) [
    | inl t ↦ rw t h
    | inr f ↦ elim (Bool-cases (eq_ℤ new.id id)) [
      | inl m ↦ ground (arith, find_token-has_duplicate id hash row new ts m h)
      | inr n ↦ rw f (rw n h)
    ]
  ]

  kept : (p : Bool) → p ≡ false → not p ≡ true
  kept p h = ground arith

  found_after_call :
      (id user_id : ℤ) (hash : String) (row : PersonalAccessToken) (c : TokenCall) (ts : Tokens)
      → row.id ≡ id
      → row.tokenable_id ≡ user_id
      → Spares id user_id c
      → find_token id hash ts ≡ some row
      → find_token id hash (call c ts) ≡ some row
  unfolding issue_token revoke_token revoke_all_for_user
  found_after_call id user_id hash row (issue i u name abilities) ts e f s h =
      inserted_after id hash row (new_token E i u name abilities) i i.fault ts h
  found_after_call id user_id hash row (revoke (some x) j) ts e f s h = h
  found_after_call id user_id hash row (revoke none j) ts e f s h =
      find_token-filter id hash (λ t. not (eq_ℤ t.id j)) row ts (kept _ (ap (λ x. eq_ℤ x j) e ∙ s))
        h
  found_after_call id user_id hash row (revoke_all (some x) u) ts e f s h = h
  found_after_call id user_id hash row (revoke_all none u) ts e f s h =
      find_token-filter id hash (λ t. not (belongs_to u t)) row ts
        (kept _ (rw (ap (λ x. eq_ℤ x u) f ∙ s) refl)) h

  pub found_after :
      (id user_id : ℤ) (hash : String) (row : PersonalAccessToken) (cs : List TokenCall)
      (ts : Tokens)
      → row.id ≡ id
      → row.tokenable_id ≡ user_id
      → All (Spares id user_id) cs
      → find_token id hash ts ≡ some row
      → find_token id hash (calls cs ts) ≡ some row
  found_after id user_id hash row List.[] ts e f s h = h
  found_after id user_id hash row (List.◌∷◌ c cs) ts e f s h =
      found_after id user_id hash row cs (call c ts) e f s.1
        (found_after_call id user_id hash row c ts e f s.0 h)

  Absent-inserted :
      (id : ℤ) (new : PersonalAccessToken) (i : Insert) (fault : Option String) (ts : Tokens)
      → eq_ℤ new.id id ≡ false
      → Absent id ts
      → Absent id (insert_token E i new fault ts).1
  unfolding insert_token
  Absent-inserted id new i (some e) ts n h = h
  Absent-inserted id new i none ts n h = elim (Bool-cases (has_duplicate new ts)) [
    | inl t ↦ rw t h
    | inr f ↦ rw f (n, h)
  ]

  Absent-after_call :
      (id : ℤ) (c : TokenCall) (ts : Tokens) → Fresh id c → Absent id ts → Absent id (call c ts)
  unfolding issue_token revoke_token revoke_all_for_user new_token
  Absent-after_call id (issue i u name abilities) ts n h =
      Absent-inserted id (new_token E i u name abilities) i i.fault ts n h
  Absent-after_call id (revoke (some x) j) ts n h = h
  Absent-after_call id (revoke none j) ts n h = All-filter _ (λ t. not (eq_ℤ t.id j)) ts h
  Absent-after_call id (revoke_all (some x) u) ts n h = h
  Absent-after_call id (revoke_all none u) ts n h = All-filter _ (λ t. not (belongs_to u t)) ts h

  pub Absent-after :
      (id : ℤ) (cs : List TokenCall) (ts : Tokens)
      → All (Fresh id) cs
      → Absent id ts
      → Absent id (calls cs ts)
  Absent-after id List.[] ts n h = h
  Absent-after id (List.◌∷◌ c cs) ts n h =
      Absent-after id cs (call c ts) n.1 (Absent-after_call id c ts n.0 h)
