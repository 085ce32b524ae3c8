-- ===== src/Providers/Router/Breaker.antt =====
-- The circuit breaker of the router over calls of `complete`, one after the other.
use klass_mobile_backend.Prelude.{
  ℕ, suc, ◌+◌, ◌%◌, ◌^◌, ◌≤◌, ◌<◌, ◌≡◌, refl, true, false, Option, none, some, List, [], ◌∷◌,
  length, arith, leb, ap, sym, ◌∙◌,
}
use mathlib.Core.Path.{subst}
use klass_mobile_backend.Prelude.Result.{Result, ok, err}
use klass_mobile_backend.Providers.{Env, ProviderError, CompletionRequest, Provider}
use klass_mobile_backend.Providers.Router.{
  ProviderRouter, Reply, is_circuit_open, try_fallback, finish_primary, count_failure,
  finish_fallback, complete,
}
use klass_mobile_backend.Providers.Router.Retry.{FailsTransiently, try_fails}

-- The counter after a call with this reply, from this counter.
abbrev pub counter_after {ℓ κ} : {X : Type ℓ} {A : Type κ} → Result X A → ℕ → ℕ
counter_after (ok a) n = 0
counter_after (err e) n = (n + 1) % 2 ^ 32

module _ (E : Env) where
  -- The requests in turn, with the replies dropped.
  pub serve : ProviderRouter E → List (CompletionRequest E) → E.World → ProviderRouter E × E.World
  serve r [] w = (r, w)
  serve r (q ∷ qs) w = serve (complete E r q w).1 qs (complete E r q w).2

  finish_fallback_counter :
      (r : ProviderRouter E) (e : ProviderError E) (res : Reply E × E.World)
      → let out = finish_fallback E (count_failure E r) e res in
        out.1 ≡ record r { consecutive_failures = counter_after out.0 r.consecutive_failures }
  unfolding finish_fallback count_failure
  finish_fallback_counter r e (ok a, w) = refl
  finish_fallback_counter r e (err x, w) = refl

  try_fallback_counter :
      (r : ProviderRouter E) (fallback : Option (Provider E)) (q : CompletionRequest E)
      (e : ProviderError E) (w : E.World)
      → let out = try_fallback E (count_failure E r) fallback q e w in
        out.1 ≡ record r { consecutive_failures = counter_after out.0 r.consecutive_failures }
  unfolding try_fallback
  try_fallback_counter r none q e w = unfold count_failure in refl
  try_fallback_counter r (some p) q e w = finish_fallback_counter r e _

  finish_primary_counter :
      (r : ProviderRouter E) (q : CompletionRequest E) (res : Reply E × E.World)
      → let out = finish_primary E r q res in
        out.1 ≡ record r { consecutive_failures = counter_after out.0 r.consecutive_failures }
  unfolding finish_primary
  finish_primary_counter r q (ok a, w) = refl
  finish_primary_counter r q (err e, w) = try_fallback_counter r r.fallback q e w

  -- A call through a closed circuit changes the counter only: a response sets it to 0, by whichever
  -- provider it came, and an error adds one (modulo 2 ^ 32), also where both providers failed.
  pub complete_counter :
      (r : ProviderRouter E) (q : CompletionRequest E) (w : E.World)
      → is_circuit_open E r ≡ false
      → let out = complete E r q w in
        out.1 ≡ record r { consecutive_failures = counter_after out.0 r.consecutive_failures }
  unfolding complete
  complete_counter r q w h = rw h (finish_primary_counter r q _)

  -- Once the circuit is open it stays open: after any requests the router is as it was, and
  -- neither a provider nor a sleep has changed the world.
  pub open_forever :
      (r : ProviderRouter E) (qs : List (CompletionRequest E)) (w : E.World)
      → is_circuit_open E r ≡ true
      → serve r qs w ≡ (r, w)
  unfolding serve complete
  open_forever r [] w h = refl
  open_forever r (q ∷ qs) w h = rw h (open_forever r qs w h)

  finish_primary_fails :
      (r : ProviderRouter E) (q : CompletionRequest E) (res : Reply E × E.World)
      → r.fallback ≡ none
      → (e : ProviderError E) × (res.0 ≡ err e)
      → (e : ProviderError E) × ((finish_primary E r q res).0 ≡ err e)
  unfolding finish_primary try_fallback
  finish_primary_fails r q (ok a, w) h (e, i) = absurd (cc)
  finish_primary_fails r q (err x, w) h i = rw h (_, refl)

  module _ (r : ProviderRouter E) (w : E.World) where
    complete_fails :
        (q : CompletionRequest E)
        → r.fallback ≡ none
        → FailsTransiently E r.primary
        → is_circuit_open E r ≡ false
        → (e : ProviderError E) × ((complete E r q w).0 ≡ err e)
    unfolding complete
    complete_fails q h f closed =
        rw closed (finish_primary_fails r q _ h (try_fails E r.retry_config r.primary q f w))

    complete_failure :
        (q : CompletionRequest E)
        → r.fallback ≡ none
        → FailsTransiently E r.primary
        → is_circuit_open E r ≡ false
        → (complete E r q w).1
          ≡ record r { consecutive_failures = (r.consecutive_failures + 1) % 2 ^ 32 }
    complete_failure q h f closed =
        let (e, failed) = complete_fails q h f closed in
        rw failed at (complete_counter r q w closed)

  serve_failures :
      (r : ProviderRouter E) (qs : List (CompletionRequest E)) (w : E.World)
      → r.fallback ≡ none
      → FailsTransiently E r.primary
      → r.circuit_breaker_threshold < 2 ^ 32
      → r.consecutive_failures + length qs ≤ r.circuit_breaker_threshold
      → (serve r qs w).0 ≡ record r { consecutive_failures = r.consecutive_failures + length qs }
  unfolding serve
  serve_failures r [] w h f small room =
      ap (λ n. record r { consecutive_failures = n }) (omega arith)
  serve_failures r (q ∷ qs) w h f small room =
      let n = r.consecutive_failures in
      let next : ProviderRouter E = record r { consecutive_failures = n + 1 } in
      let counted : (n + 1) % 2 ^ 32 ≡ n + 1 = omega arith in
      let stepped : (complete E r q w).1 ≡ next =
        rw counted at (complete_failure r w q h f (unfold is_circuit_open in ground arith)) in
      subst
        (λ (s : ProviderRouter E).
          (serve s qs (complete E r q w).2).0
          ≡ record r { consecutive_failures = n + suc (length qs) })
        (sym stepped)
        (serve_failures next qs (complete E r q w).2 h f small (omega arith)
          ∙ ap (λ m. record r { consecutive_failures = m }) (omega arith))

  -- Without a fallback, while the primary provider fails on each call, and never by its
  -- configuration, each request adds one to the counter until it is at the threshold (a u32):
  -- so the circuit opens with the failure that reaches the threshold, and not before.
  pub failures_count :
      (r : ProviderRouter E) (qs : List (CompletionRequest E)) (w : E.World)
      → r.fallback ≡ none
      → FailsTransiently E r.primary
      → r.circuit_breaker_threshold < 2 ^ 32
      → r.consecutive_failures + length qs ≤ r.circuit_breaker_threshold
      → let after = (serve r qs w).0 in
        (after ≡ record r { consecutive_failures = r.consecutive_failures + length qs })
        × (is_circuit_open E after
            ≡ leb r.circuit_breaker_threshold (r.consecutive_failures + length qs))
  unfolding is_circuit_open
  failures_count r qs w h f small room = let e = serve_failures r qs w h f small room in (e, rw e)
