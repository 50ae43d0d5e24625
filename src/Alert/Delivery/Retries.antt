-- ===== src/Alert/Delivery/Retries.antt =====
-- `webhook`: the attempts of one delivery.
use openwrt_starwatch.Base.{
  ℕ, zero, suc, ◌+◌, ◌*◌, ◌≡◌, refl, Bool, true, not, List, [], ◌∷◌, Option, none, some,
  if◌then◌else◌, arith,
}
use openwrt_starwatch.Base.Maps.{nat_eq}
use openwrt_starwatch.Alert.Delivery.{
  DeliveryError, Action, posted, slept, retryable_delivery_error, outcome, shift_left, Outside,
  webhook_loop, webhook,
}

module _ (o : Outside) (backoff : ℕ) where
  -- The attempt ends the delivery whatever attempts are left: it succeeds, or its error is not one to
  -- retry after.
  abbrev pub is_final : Option DeliveryError → Bool
  is_final none = true
  is_final (some e) = not (retryable_delivery_error e)

  -- `retries` attempts from `attempt` on that are retried after, each with its sleep, and one more.
  abbrev pub schedule : ℕ → ℕ → List Action
  schedule attempt zero = posted attempt ∷ []
  schedule attempt (suc retries) =
      posted attempt ∷ slept (backoff * shift_left attempt) ∷ schedule (suc attempt) retries

  -- The number of attempts from `attempt` on before the first that is final, at most `most`.
  abbrev pub retries : ℕ → ℕ → ℕ
  retries attempt zero = 0
  retries attempt (suc most) =
      let later = retries (suc attempt) most in
      if is_final (outcome (o.do_request attempt)) then 0 else suc later

  loop_lem :
      (left attempt : ℕ) (last : Option DeliveryError)
      → left + attempt ≡ 3
      → ((i : ℕ) → o.new_request i ≡ none)
      → ((i : ℕ) → o.sleep i ≡ none)
      → webhook_loop o backoff (suc left) attempt last ≡ (
        outcome (o.do_request (attempt + retries attempt left)),
        schedule attempt (retries attempt left),
      )
  unfolding webhook_loop
  loop_lem zero attempt last total requests sleeps = ground (arith, total, requests attempt)
  loop_lem (suc left) attempt last total requests sleeps = ground (
    arith,
    loop_lem left (suc attempt) (outcome (o.do_request attempt)) (omega arith) requests sleeps,
    requests attempt,
    sleeps attempt,
  )

  -- A webhook delivery whose body and requests can be made, and whose sleeps are not interrupted,
  -- takes the attempts up to the first one that succeeds or fails with an error that is not retried
  -- after, at most four in all; it sleeps the back-off, then twice, then four times it between them, and
  -- returns the outcome of the last attempt.
  pub webhook_lem :
      o.marshal ≡ none
      → ((i : ℕ) → o.new_request i ≡ none)
      → ((i : ℕ) → o.sleep i ≡ none)
      → webhook o backoff ≡ (outcome (o.do_request (retries 0 3)), schedule 0 (retries 0 3))
  unfolding webhook
  webhook_lem body requests sleeps = ground (arith, body, loop_lem 3 0 none refl requests sleeps)
