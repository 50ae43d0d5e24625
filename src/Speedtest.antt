-- ===== src/Speedtest.antt =====
-- router/internal/dish/speedtest.go: the dish's speed test, from Start to its result.
-- The manager's state is shared by the calls of `Start` in progress and the goroutines that poll:
-- these are the workers, each with where it stands, and a step is one event of one worker. The
-- dish's answers, the clock and the ends of the waits come with the events. An error is its gRPC code
-- and its message. Floats are an argument with the operations that the code uses.
pub mod Workers
pub mod Latest
mod Tests
use openwrt_starwatch.Base.{
  ℕ, zero, suc, ◌+◌, ◌≡◌, Bool, true, false, not, ◌&&◌, ◌||◌, List, [], ◌∷◌, ◌++◌, Option, none,
  some, String, leb, get_elem?, set, if◌then◌else◌,
}
use openwrt_starwatch.Base.Maps.{nat_eq, string_eq, ◌==◌}

pub data SpeedtestState : Type 0 where
  idle running done unsupported error : SpeedtestState

pub data Code : Type 0 where
  unimplemented unavailable other_code : Code

pub record RpcError : Type 0 where
  pub code : Code
  pub message : String

abbrev pub unsupported_rpc : RpcError → Bool
unsupported_rpc e = elim (e.code) [
  | unimplemented ↦ true
  | unavailable ↦ false
  | other_code ↦ false
]

abbrev pub is_unavailable : RpcError → Bool
is_unavailable e = elim (e.code) [ unimplemented ↦ false | unavailable ↦ true | other_code ↦ false ]

-- float32 and float64: `math.Max`, the conversion, and the product with 1_000_000.
pub record Floats : Type 1 where
  pub F32 : Type 0
  pub F : Type 0
  pub zero_float : F
  pub max_float : F → F → F
  pub widen : F32 → F
  pub millions : F → F

pub data Worker : Type 0 where
  starting : ℕ → Worker  -- in `StartSpeedtest`, by its attempt
  waiting : ℕ → Worker  -- in `waitContext` after the attempt
  polling : ℕ → Worker  -- in `poll`, by `unsupportedFailures`

module _ (fl : Floats) where
  open fl use {F32, F, zero_float, max_float, widen, millions}

  -- A direction's error, none for SPEEDTEST_ERROR_NONE, and its throughputs; the empty direction is
  -- nil's, whose getters give the same.
  pub record Direction : Type 0 where
    pub err : Option String
    pub throughputs_mbps : List F32

  pub record SpeedtestStatus : Type 0 where
    pub running_now : Bool
    pub down : Direction
    pub up : Direction

  pub record Speedtest : Type 0 where
    pub at : ℕ
    pub down_bps : F
    pub up_bps : F

  pub record SpeedtestSnapshot : Type 0 where
    pub state : SpeedtestState
    pub latest : Option Speedtest
    pub error_text : String

  pub record Manager : Type 0 where
    pub snapshot : SpeedtestSnapshot
    pub workers : List Worker

  pub data Event : Type 0 where
    answered : Option RpcError → Event  -- `StartSpeedtest` returns
    waited : Option String → Event  -- `waitContext` ends, or the context does
    cancelled : Option String → Event  -- the poll's context ends
    status_failed : RpcError → Event  -- `GetSpeedtestStatus` fails
    status_got : Option SpeedtestStatus → ℕ → Event  -- … or returns, at an instant

  pub data Effect : Type 0 where
    added : Speedtest → Effect
    published : Speedtest → Effect

  pub record Wiring : Type 0 where
    pub has_store : Bool
    pub has_live : Bool

  unfoldable pub new_manager : Manager
  new_manager = record {
    snapshot = record { state = idle; latest = none; error_text = "" };
    workers = [];
  }

  abbrev pub is_running : SpeedtestState → Bool
  is_running running = true
  is_running idle = false
  is_running done = false
  is_running unsupported = false
  is_running error = false

  unfoldable pub set_state : SpeedtestState → String → SpeedtestSnapshot → SpeedtestSnapshot
  set_state state message s = record s { state = state; error_text = message }

  unfoldable pub fail : Option String → SpeedtestSnapshot → SpeedtestSnapshot
  unfolding set_state
  fail none s = set_state error "speed test failed" s
  fail (some message) s = set_state error message s

  abbrev pub max_from : F → List F32 → F
  max_from result [] = result
  max_from result (v ∷ vs) = max_from (max_float result (widen v)) vs

  abbrev pub max_throughput : List F32 → F
  max_throughput vs = max_from zero_float vs

  abbrev pub speedtest_direction_error : SpeedtestStatus → Option String
  speedtest_direction_error r = elim (r.down.err) [ some e ↦ some e | none ↦ r.up.err ]

  abbrev pub result_of : SpeedtestStatus → ℕ → Speedtest
  result_of r now = record {
    at = now;
    down_bps = millions (max_throughput r.down.throughputs_mbps);
    up_bps = millions (max_throughput r.up.throughputs_mbps);
  }

  abbrev pub complete : Wiring → Speedtest → List Effect
  complete w result =
      (if w.has_store then added result ∷ [] else [])
      ++ (if w.has_live then published result ∷ [] else [])

  -- What an event makes of its worker (none: it has returned), of the shared state, and what it sends.
  abbrev pub Step : Type 0
  Step = Option Worker × SpeedtestSnapshot × List Effect

  -- The loop of `Start` once `StartSpeedtest` has returned.
  unfoldable pub start_answered : ℕ → Option RpcError → SpeedtestSnapshot → Step
  unfolding fail set_state
  start_answered attempt none s = (some (polling 0), s, [])
  start_answered attempt (some e) s =
      if not (unsupported_rpc e) && not (is_unavailable e)
      then (none, fail (some e.message) s, [])
      else if attempt == 2
      then (if unsupported_rpc e
          then (none, set_state unsupported "" s, [])
          else (none, fail (some e.message) s, []))
      else (some (waiting attempt), s, [])

  unfoldable pub start_waited : ℕ → Option String → SpeedtestSnapshot → Step
  unfolding fail
  start_waited attempt none s = (some (starting (attempt + 1)), s, [])
  start_waited attempt (some message) s = (none, fail (some message) s, [])

  unfoldable pub poll_failed : ℕ → RpcError → SpeedtestSnapshot → Step
  unfolding fail set_state
  poll_failed failures e s =
      if unsupported_rpc e
      then (if leb 3 (failures + 1)
          then (none, set_state unsupported "" s, [])
          else (some (polling (failures + 1)), s, []))
      else if is_unavailable e
      then (some (polling failures), s, [])
      else (none, fail (some e.message) s, [])

  unfoldable pub poll_got : Wiring → Option SpeedtestStatus → ℕ → SpeedtestSnapshot → Step
  unfolding set_state
  poll_got w none now s = (some (polling 0), s, [])
  poll_got w (some r) now s =
      if r.running_now then (some (polling 0), s, []) else elim (speedtest_direction_error r) [
        | some message ↦ (none, set_state error message s, [])
        | none ↦ (
          none,
          record { state = done; latest = some (result_of r now); error_text = "" },
          complete w (result_of r now),
        )
      ]

  -- An event that the worker does not wait for changes nothing.
  unfoldable pub step : Wiring → Worker → Event → SpeedtestSnapshot → Step
  unfolding start_answered start_waited poll_failed poll_got fail
  step w (starting attempt) (answered answer) s = start_answered attempt answer s
  step w (waiting attempt) (waited end) s = start_waited attempt end s
  step w (polling failures) (cancelled end) s = (none, fail end s, [])
  step w (polling failures) (status_failed e) s = poll_failed failures e s
  step w (polling failures) (status_got r now) s = poll_got w r now s
  step w (starting attempt) (waited end) s = (some (starting attempt), s, [])
  step w (starting attempt) (cancelled end) s = (some (starting attempt), s, [])
  step w (starting attempt) (status_failed e) s = (some (starting attempt), s, [])
  step w (starting attempt) (status_got r now) s = (some (starting attempt), s, [])
  step w (waiting attempt) (answered answer) s = (some (waiting attempt), s, [])
  step w (waiting attempt) (cancelled end) s = (some (waiting attempt), s, [])
  step w (waiting attempt) (status_failed e) s = (some (waiting attempt), s, [])
  step w (waiting attempt) (status_got r now) s = (some (waiting attempt), s, [])
  step w (polling failures) (answered answer) s = (some (polling failures), s, [])
  step w (polling failures) (waited end) s = (some (polling failures), s, [])

  -- `Start` until its first `StartSpeedtest`; false is ErrSpeedtestRunning.
  unfoldable pub start : Manager → Manager × Bool
  start m = if is_running m.snapshot.state then (m, false) else (
    record {
      snapshot = record (m.snapshot) { state = running; error_text = "" };
      workers = m.workers ++ starting 0 ∷ [];
    },
    true,
  )

  -- The workers with the `i`-th replaced, or gone.
  abbrev pub replace : ℕ → Option Worker → List Worker → List Worker
  replace i v [] = []
  replace zero none (x ∷ xs) = xs
  replace zero (some v) (x ∷ xs) = v ∷ xs
  replace (suc i) v (x ∷ xs) = x ∷ replace i v xs

  -- An event of the `i`-th worker.
  unfoldable pub work : Wiring → ℕ → Event → Manager → Manager × List Effect
  unfolding step
  work w i e m = elim (get_elem? m.workers i) [
    | none ↦ (m, [])
    | some v ↦
        let (v', s, es) = step w v e m.snapshot in
        (record { snapshot = s; workers = replace i v' m.workers }, es)
  ]
