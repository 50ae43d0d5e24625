-- ===== src/Alert/Delivery.antt =====
-- router/internal/alert/delivery.go: the bounded queues of notifications, and their delivery.
-- A queue is a Go channel: its capacity and the items in it, the oldest first. Between two selects of
-- an enqueueing call the consumer may take items; how many it takes there is an argument. The HTTP
-- client, the creation of a request and the sleep are arguments, which attempt by attempt say what
-- happens. The back-off is positive, as `NewDispatcher` sees to, and its multiples are below 2^63.
pub mod Queues
pub mod Retries
use openwrt_starwatch.Base.{
  ℕ, zero, suc, ◌+◌, ◌*◌, ◌≡◌, Bool, true, false, not, ◌&&◌, ◌||◌, List, [], ◌∷◌, ◌++◌, Option,
  none, some, String, ltb, leb, length, drop, if◌then◌else◌,
}
use Prim.Native.String.{◌++◌ as append_text}
use openwrt_starwatch.Base.Int.{ℤ, pos, ltb_ℤ, pos_part}
use openwrt_starwatch.Base.Maps.{nat_eq, string_eq, ◌==◌}
use openwrt_starwatch.History.{second}
use openwrt_starwatch.Alert.Engine.{Severity, critical, warning, info}

-- A channel of the runtime.
pub record Queue (A : Type 0) : Type 0 where
  pub capacity : ℕ
  pub items : List A

pub data LogLine (A : Type 0) : Type 0 where
  dropping_oldest : String → A → LogLine A
  remained_full : String → A → LogLine A

module _ {A : Type 0} where
  -- What the consumer takes.
  abbrev pub consume : ℕ → Queue A → Queue A
  consume n q = record q { items = drop n q.items }

  -- `case d.queue <- notification`: none where the queue is full.
  abbrev pub push : A → Queue A → Option (Queue A)
  push a q =
      if ltb (length q.items) q.capacity
      then some (record q { items = q.items ++ a ∷ [] })
      else none

  -- `case dropped := <-d.queue`, and its line in the log.
  unfoldable pub drop_oldest : String → List A → List A × List (LogLine A)
  drop_oldest kind [] = ([], [])
  drop_oldest kind (x ∷ xs) = (xs, dropping_oldest kind x ∷ [])

  unfoldable pub push_again : String → A → Queue A → Queue A × List (LogLine A)
  push_again kind a q = elim (push a q) [
    | none ↦ (q, remained_full kind a ∷ [])
    | some pushed ↦ (pushed, [])
  ]

  -- `first` and `later` are how many items the consumer takes after the first and after the second
  -- select. `Enqueue` is this with the kind "alert".
  unfoldable pub enqueue_endpoint : String → ℕ → ℕ → A → Queue A → Queue A × List (LogLine A)
  unfolding drop_oldest push_again
  enqueue_endpoint kind first later a q = elim (push a q) [
    | some pushed ↦ (pushed, [])
    | none ↦
        let (kept, dropping) = drop_oldest kind (consume first q).items in
        let (r, remaining) = push_again kind a (consume later (record q { items = kept })) in
        (r, dropping ++ remaining)
  ]

  unfoldable pub enqueue : ℕ → ℕ → A → Queue A → Queue A × List (LogLine A)
  unfolding enqueue_endpoint
  enqueue first later a q = enqueue_endpoint "alert" first later a q

pub record DeliveryJob (N : Type 0) : Type 0 where
  pub notification : N
  pub endpoint : String

-- The queues, the endpoints of `options`, and what was logged.
pub record Dispatcher (N : Type 0) : Type 0 where
  pub webhook_url : String
  pub ntfy_url : String
  pub queue : Queue N
  pub webhook_queue : Queue (DeliveryJob N)
  pub ntfy_queue : Queue (DeliveryJob N)

module _ {N : Type 0} where
  unfoldable pub set_endpoints : String → String → Dispatcher N → Dispatcher N
  set_endpoints webhook ntfy d = record d { webhook_url = webhook; ntfy_url = ntfy }

  -- One of the two `if url != ""` of `Run`.
  unfoldable pub send_to :
      String
      → ℕ
      → ℕ
      → String
      → N
      → Queue (DeliveryJob N)
      → Queue (DeliveryJob N) × List (LogLine (DeliveryJob N))
  unfolding enqueue_endpoint
  send_to kind first later url n q =
      if url == ""
      then (q, [])
      else enqueue_endpoint kind first later (record { notification = n; endpoint = url }) q

  -- `case notification := <-d.queue` of `Run`; an empty queue waits.
  unfoldable pub dispatch :
      ℕ × ℕ → ℕ × ℕ → Dispatcher N → Dispatcher N × List (LogLine (DeliveryJob N))
  unfolding send_to
  dispatch webhook_takes ntfy_takes d = elim (d.queue.items) [
    | [] ↦ (d, [])
    | n ∷ later ↦
        let (w, dropped) =
          send_to "webhook" webhook_takes.0 webhook_takes.1 d.webhook_url n d.webhook_queue in
        let (t, lost) = send_to "ntfy" ntfy_takes.0 ntfy_takes.1 d.ntfy_url n d.ntfy_queue in
        (
          record d {
            queue = record (d.queue) { items = later };
            webhook_queue = w;
            ntfy_queue = t;
          },
          dropped ++ lost,
        )
  ]

pub data DeliveryError : Type 0 where
  http_error : ℕ → DeliveryError  -- deliveryHTTPError, by its code
  url_error : DeliveryError  -- *url.Error
  other_error : DeliveryError

-- An answer of the HTTP client: a response's status code, or an error.
pub data Answer : Type 0 where
  responded : ℕ → Answer
  failed : DeliveryError → Answer

pub data Action : Type 0 where
  posted : ℕ → Action  -- the attempt's number
  slept : ℕ → Action  -- the duration

unfoldable pub retryable_delivery_error : DeliveryError → Bool
retryable_delivery_error (http_error code) = code == 429 || leb 500 code
retryable_delivery_error url_error = true
retryable_delivery_error other_error = false

abbrev pub is_success : ℕ → Bool
is_success code = leb 200 code && ltb code 300

-- The error of an answer, none for a 2xx status.
unfoldable pub outcome : Answer → Option DeliveryError
outcome (responded code) = if is_success code then none else some (http_error code)
outcome (failed e) = some e

-- `1 << attempt`
abbrev pub shift_left : ℕ → ℕ
shift_left zero = 1
shift_left (suc n) = 2 * shift_left n

-- What the collaborators answer at each attempt.
pub record Outside : Type 0 where
  pub marshal : Option DeliveryError
  pub new_request : ℕ → Option DeliveryError
  pub do_request : ℕ → Answer
  pub sleep : ℕ → Option DeliveryError

module _ (o : Outside) (backoff : ℕ) where
  -- The attempts from `attempt` on, of which `left` are left.
  unfoldable pub webhook_loop : ℕ → ℕ → Option DeliveryError → Option DeliveryError × List Action
  unfolding outcome retryable_delivery_error
  webhook_loop zero attempt last = (last, [])
  webhook_loop (suc left) attempt last =
      let (later, actions) = webhook_loop left (suc attempt) (outcome (o.do_request attempt)) in
      elim (o.new_request attempt) [
        | some e ↦ (some e, [])
        | none ↦ elim (outcome (o.do_request attempt)) [
          | none ↦ (none, posted attempt ∷ [])
          | some e ↦
              if attempt == 3 || not (retryable_delivery_error e)
              then (some e, posted attempt ∷ [])
              else elim (o.sleep attempt) [
                | some interrupted ↦
                    (some interrupted, posted attempt ∷ slept (backoff * shift_left attempt) ∷ [])
                | none ↦ (later, posted attempt ∷ slept (backoff * shift_left attempt) ∷ actions)
              ]
        ]
      ]

  unfoldable pub webhook : Option DeliveryError × List Action
  unfolding webhook_loop
  webhook = elim (o.marshal) [ some e ↦ (some e, []) | none ↦ webhook_loop 4 0 none ]

  unfoldable pub ntfy : Option DeliveryError × List Action
  unfolding outcome
  ntfy = elim (o.marshal) [
    | some e ↦ (some e, [])
    | none ↦ elim (o.new_request 0) [
      | some e ↦ (some e, [])
      | none ↦ (outcome (o.do_request 0), posted 0 ∷ [])
    ]
  ]

-- The causes of a `*url.Error` that are told apart in the log.
pub data Cause : Type 0 where
  deadline_exceeded context_canceled network : Cause

-- What the log says of an error; `type_name` is its Go type.
pub data LoggedError : Type 0 where
  status_error : String → LoggedError
  request_error : Cause → LoggedError
  unnamed_error : String → LoggedError

-- No part of the endpoint's URL is in it.
unfoldable pub safe_delivery_error : LoggedError → String
safe_delivery_error (status_error status) = append_text "HTTP " status
safe_delivery_error (request_error deadline_exceeded) = "request timed out"
safe_delivery_error (request_error context_canceled) = "request canceled"
safe_delivery_error (request_error network) = "network request failed"
safe_delivery_error (unnamed_error type_name) = type_name

-- A job's delivery: its actions, and its error for the log, unless the context has ended.
module _ (o : Outside) (backoff : ℕ) where
  unfoldable pub deliver_endpoint : String → Bool → Option DeliveryError × List Action
  unfolding webhook ntfy
  deliver_endpoint kind cancelled =
      let (err, actions) = if kind == "webhook" then webhook o backoff else ntfy o backoff in
      (if cancelled then none else err, actions)

-- The queue of notifications and the back-off of a new dispatcher.
unfoldable pub new_dispatcher : {N : Type 0} → ℤ → ℤ → Queue N × ℤ
new_dispatcher queue_size backoff = (
  record { capacity = if ltb_ℤ (pos 0) queue_size then pos_part queue_size else 64; items = [] },
  if ltb_ℤ (pos 0) backoff then backoff else pos second,
)

-- The priority and the tags of a notification for ntfy.
unfoldable pub ntfy_headers : Severity → String × String
ntfy_headers critical = ("urgent", "rotating_light")
ntfy_headers warning = ("high", "warning")
ntfy_headers info = ("default", "information_source")
