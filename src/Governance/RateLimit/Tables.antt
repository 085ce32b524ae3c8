-- ===== src/Governance/RateLimit/Tables.antt =====
-- The statements and the check of src/governance/rate_limit.rs, on its two tables.
use klass_mobile_backend.Prelude.{
  ℕ, String, Bool, true, false, ◌&&◌, ◌||◌, Option, none, some, List, [], ◌∷◌, ltb, ◌==◌, str_eq,
  if◌then◌else◌,
}
use klass_mobile_backend.Prelude.Int.{ℤ, pos, ◌+ℤ◌, ltb_ℤ}
use klass_mobile_backend.Prelude.Word.{wrap64}
use klass_mobile_backend.Governance.{Decimals}
use klass_mobile_backend.Governance.RateLimit.Types.{
  allow, deny, degrade, PreflightDecision, RateLimitPolicy,
}

unfoldable pub exhausted_decision : String → PreflightDecision
exhausted_decision route =
    let action =
      if str_eq route "interpret" then deny else if str_eq route "respond" then degrade else deny in
    record { allowed = elim action [ degrade ↦ true | _ ↦ false ]; action = action }

unfoldable pub allowed_decision : PreflightDecision
allowed_decision = record { allowed = true; action = allow }

-- The ranks of the ORDER BY.
unfoldable pub window_rank : String → ℕ
window_rank s = if str_eq s "minute" then 1 else if str_eq s "hour" then 2 else 3

unfoldable pub scope_rank : String → ℕ
scope_rank s =
    if str_eq s "route"
    then 1
    else if str_eq s "provider"
    then 2
    else if str_eq s "model"
    then 3
    else 4

-- `COALESCE`.
unfoldable pub coalesce {ℓ} : {A : Type ℓ} → Option A → Option A → Option A
coalesce none b = b
coalesce (some a) b = some a

module _ (D : Decimals) where
  unfoldable pub matches_policy : String → String → String → RateLimitPolicy D → Bool
  matches_policy route provider model p =
      p.enabled
      && (str_eq p.route route || str_eq p.route "all")
      && (str_eq p.provider provider || str_eq p.provider "*")
      && (str_eq p.model model || str_eq p.model "*")

  -- Whether `p` comes before `q` in the order of APPLICABLE_POLICIES_SQL.
  unfoldable pub before : RateLimitPolicy D → RateLimitPolicy D → Bool
  unfolding window_rank scope_rank
  before p q =
      ltb (window_rank p.window_unit) (window_rank q.window_unit)
      || ((window_rank p.window_unit == window_rank q.window_unit)
          && (ltb (scope_rank p.scope_type) (scope_rank q.scope_type)
              || ((scope_rank p.scope_type == scope_rank q.scope_type) && ltb_ℤ p.id q.id)))

  unfoldable pub insert : RateLimitPolicy D → List (RateLimitPolicy D) → List (RateLimitPolicy D)
  insert p [] = p ∷ []
  insert p (q ∷ qs) = let rest = insert p qs in if before q p then q ∷ rest else p ∷ q ∷ qs

  unfoldable pub find_applicable :
      String → String → String → List (RateLimitPolicy D) → List (RateLimitPolicy D)
  unfolding insert matches_policy
  find_applicable route provider model [] = []
  find_applicable route provider model (p ∷ ps) =
      let rest = find_applicable route provider model ps in
      if matches_policy route provider model p then insert p rest else rest

  -- The row of POLICY_UPSERT_SQL as `upsert_default` binds it, under a new id.
  unfoldable pub default_policy :
      ℤ
      → String
      → String
      → String
      → Option ℤ
      → Option ℤ
      → Option ℤ
      → Option ℤ
      → Option D.Decimal
      → RateLimitPolicy D
  default_policy id route scope_type window_unit requests input output total cost = record {
    id = id;
    scope_type = scope_type;
    strategy = "fixed_window";
    route = route;
    provider = "*";
    model = "*";
    window_unit = window_unit;
    max_requests = requests;
    max_input_tokens = input;
    max_output_tokens = output;
    max_total_tokens = total;
    max_estimated_cost_usd = cost;
    enabled = true;
  }

  unfoldable pub same_scope : RateLimitPolicy D → RateLimitPolicy D → Bool
  same_scope p q =
      str_eq p.scope_type q.scope_type
      && str_eq p.route q.route
      && str_eq p.provider q.provider
      && str_eq p.model q.model
      && str_eq p.window_unit q.window_unit

  -- ON CONFLICT DO UPDATE: the id stays, and so do the columns of the key.
  unfoldable pub update_policy : RateLimitPolicy D → RateLimitPolicy D → RateLimitPolicy D
  update_policy p new = record p {
    strategy = new.strategy;
    max_requests = new.max_requests;
    max_input_tokens = new.max_input_tokens;
    max_output_tokens = new.max_output_tokens;
    max_total_tokens = new.max_total_tokens;
    max_estimated_cost_usd = new.max_estimated_cost_usd;
    enabled = new.enabled;
  }

  -- POLICY_UPSERT_SQL for `upsert_default`, where `new` is the row to insert.
  unfoldable pub upsert_policy :
      RateLimitPolicy D → List (RateLimitPolicy D) → List (RateLimitPolicy D)
  unfolding same_scope update_policy
  upsert_policy new [] = new ∷ []
  upsert_policy new (p ∷ ps) =
      let rest = upsert_policy new ps in
      if same_scope p new then update_policy p new ∷ ps else p ∷ rest

  unfoldable pub exceeds_requests : Option ℤ → ℤ → Bool
  exceeds_requests none count = false
  exceeds_requests (some max_req) count = ltb_ℤ max_req (wrap64 (count +ℤ pos 1))

  unfoldable pub exceeds_cost : Option D.Decimal → D.Decimal → D.Decimal → Bool
  exceeds_cost none spent estimated = false
  exceeds_cost (some max_cost) spent estimated = D.greater (D.plus spent estimated) max_cost

  unfoldable pub estimated_cost : Option D.Decimal → D.Decimal
  estimated_cost none = D.decimal (pos 1) 4
  estimated_cost (some cost) = cost
