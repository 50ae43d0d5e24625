-- ===== src/Alert/Tests.antt =====
-- Runs of the alert engine and of the delivery on concrete inputs, and their theorems at such inputs.
use openwrt_starwatch.Base.{
  sym, ℕ, ◌+◌, ◌*◌, ◌/◌, ◌≤◌, ◌≡◌, ◌≢◌, refl, true, false, List, [], ◌∷◌, none, some, String, ltb,
  length, arith, if◌then◌else◌,
}
use openwrt_starwatch.Base.Int.{pos, sub_ℕ, leb_ℤ}
use openwrt_starwatch.Base.Maps.{contains, lookup, insert, string_eq, ◌==◌}
use openwrt_starwatch.History.{second}
use openwrt_starwatch.Alert.Engine.{
  critical, Value, text, texts, float, seconds, anys, null, Floats, Rule, Inputs, AlertState,
  Engine, Persisted, Wiring,
}
use openwrt_starwatch.Alert.Engine.Evaluate.{evaluate, saved_state}
use openwrt_starwatch.Alert.Engine.Tick.{tick, settle, lower, clear}
use openwrt_starwatch.Alert.Engine.Alternation.{follow, is_on}
use openwrt_starwatch.Alert.Engine.Run.{Call, ticking, run, alerts_alternate}
use openwrt_starwatch.Alert.Engine.Clears.{tick_clears_after_hold}
use openwrt_starwatch.Alert.Engine.Restore.{
  Codec, reread_all, new_engine, restore_state, restore_state-saved_state,
}
use openwrt_starwatch.Alert.Delivery.{
  Queue, enqueue, enqueue_endpoint, Dispatcher, dispatch, responded, retryable_delivery_error,
  Outside, outcome, webhook, posted, slept,
}
use openwrt_starwatch.Alert.Delivery.Queues.{enqueue_endpoint_lem, IsSent, dispatch_lem}
use openwrt_starwatch.Alert.Delivery.Retries.{webhook_lem}

-- Natural numbers in the place of floats.
abbrev whole : Floats
whole = record {
  F = ℕ;
  gt = λ a b. ltb b a;
  zero_float = 0;
  add_float = λ a b. a + b;
  div_float = λ a b. a / b;
  of_count = λ n. n;
  narrow = λ a. a;
  widen = λ a. a;
}

-- A codec whose encoding is the state itself, with the values of the details as it decodes them.
abbrev decoded : Value ℕ → Value ℕ
decoded (text s) = text s
decoded (texts []) = null
decoded (texts (s ∷ ss)) = anys (s ∷ ss)
decoded (float x) = float (2 * x)
decoded (seconds n) = seconds n
decoded (anys ss) = anys ss
decoded null = null

abbrev plain : Codec whole
plain = record {
  Bytes = Persisted whole;
  is_empty = λ b. false;
  encode = λ p. some (reread_all whole decoded p);
  decode = λ b. some b;
  reread = decoded;
  encode_nonempty = λ p b h. refl;
  decode-encode = λ p b once h. sym h;
}

abbrev wired : Wiring whole
wired = record {
  has_delivery = true;
  has_events = true;
  has_live = true;
  has_store = true;
  encodes = λ p. true;
  history = none;
}

abbrev hot_rule : Rule whole
hot_rule = record {
  enabled = true;
  severity = critical;
  threshold = 0;
  threshold2 = 0;
  hold = pos 0;
  clear_hold = pos (10 * second);
}

abbrev rules : List (String × Rule whole)
rules = ("thermal_shutdown", hot_rule) ∷ []

abbrev hot : Inputs whole
hot = record {
  dish = some (record { software_update_state = ""; alerts = λ s. s == "thermal_shutdown" });
  device_id = some "ut01";
  wan_available = false;
  probe_loss_5m = 0;
  probe_rtt_5m_ms = 0;
  mwan3 = none;
  outages = [];
}

abbrev cool : Inputs whole
cool = record hot { dish = some (record { software_update_state = ""; alerts = λ s. false }) }

abbrev idle : Engine whole
idle = new_engine whole plain rules

abbrev a_hot_minute : List (Call whole)
a_hot_minute =
    ticking hot (1 * second) ∷ ticking cool (2 * second) ∷ ticking cool (20 * second) ∷ []

alerts_alternate_example :
    follow whole "thermal_shutdown"
      (is_on whole "thermal_shutdown" idle)
      (run whole wired a_hot_minute idle).1
    ≡ some (is_on whole "thermal_shutdown" (run whole wired a_hot_minute idle).0)
unfolding new_engine lookup
alerts_alternate_example =
    alerts_alternate whole wired "thermal_shutdown" a_hot_minute idle refl refl (hot_rule, refl) tt

-- An alert whose clearing is pending from 2 s on.
abbrev clearing : AlertState whole
clearing = record {
  active = true;
  fired_at = 1 * second;
  subject_start = 1 * second;
  clear_since = 2 * second;
  detail = ("online", texts ("wan" ∷ [])) ∷ [];
}

abbrev cooling : Engine whole
cooling = record idle { states = ("thermal_shutdown", clearing) ∷ [] }

tick_clears_after_hold_example :
    (true ≡ true)
    × (false ≡ false)
    × (2 * second ≢ 0)
    × (leb_ℤ (pos (10 * second)) (sub_ℕ (12 * second) (2 * second)) ≡ true)
unfolding tick evaluate lookup new_engine openwrt_starwatch.Alert.Engine.Tick.tick_alert
    openwrt_starwatch.Alert.Engine.Tick.forget settle lower clear insert
tick_clears_after_hold_example =
    tick_clears_after_hold whole wired "thermal_shutdown" hot_rule cool (12 * second) cooling refl
      refl refl refl refl

restore_state-saved_state_example :
    let r =
      restore_state whole plain wired
        (some (reread_all whole decoded (saved_state whole cooling)))
        (new_engine whole plain rules) in
    (lookup "thermal_shutdown" r.states
      ≡ some (record clearing { detail = ("online", anys ("wan" ∷ [])) ∷ [] }))
    × (r.failover_set ≡ "")
    × (r.failover_ready ≡ false)
    × (r.rules ≡ rules)
unfolding lookup new_engine contains
restore_state-saved_state_example =
    restore_state-saved_state whole plain wired cooling rules "thermal_shutdown"
      (reread_all whole decoded (saved_state whole cooling)) refl (refl, tt) refl

abbrev full : Queue ℕ
full = record { capacity = 2; items = 1 ∷ 2 ∷ [] }

-- A full queue whose consumer takes nothing loses its oldest item.
full_drops : (enqueue 0 0 3 full).0.items ≡ 2 ∷ 3 ∷ []
unfolding enqueue
full_drops = refl

enqueue_endpoint_lem_example :
    let r = enqueue_endpoint "ntfy" 0 0 3 full in
    (r.0.items ≡ 2 ∷ 3 ∷ [])
    × (r.0.capacity ≡ 2)
    × (length r.0.items ≤ r.0.capacity)
    × (length r.1 ≡ 1)
enqueue_endpoint_lem_example = enqueue_endpoint_lem "ntfy" 0 0 3 full (omega arith) (omega arith)

abbrev one_endpoint : Dispatcher ℕ
one_endpoint = record {
  webhook_url = "http://hook";
  ntfy_url = "";
  queue = full;
  webhook_queue = record { capacity = 2; items = [] };
  ntfy_queue = record { capacity = 2; items = [] };
}

dispatch_lem_example :
    let r = (dispatch (0, 0) (0, 0) one_endpoint).0 in
    (r.queue.items ≡ 2 ∷ [])
    × IsSent (0, 0) "http://hook" 1 (record { capacity = 2; items = [] }) r.webhook_queue
    × IsSent (0, 0) "" 1 (record { capacity = 2; items = [] }) r.ntfy_queue
dispatch_lem_example =
    dispatch_lem (0, 0) (0, 0) one_endpoint 1 (2 ∷ []) refl (omega arith) (omega arith)
      (omega arith) (omega arith)

-- A server that is unavailable once, and then accepts.
abbrev flaky : Outside
flaky = record {
  marshal = none;
  new_request = λ i. none;
  do_request = λ i. if ltb i 1 then responded 503 else responded 204;
  sleep = λ i. none;
}

webhook_lem_example : webhook flaky 1000 ≡ (none, posted 0 ∷ slept 1000 ∷ posted 1 ∷ [])
unfolding outcome retryable_delivery_error
webhook_lem_example = webhook_lem flaky 1000 refl (λ i. refl) (λ i. refl)
