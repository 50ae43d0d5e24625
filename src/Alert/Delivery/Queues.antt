-- ===== src/Alert/Delivery/Queues.antt =====
-- `Enqueue`, `enqueueEndpoint` and one iteration of `Run`: a full queue gives up its oldest item.
use openwrt_starwatch.Base.{
  ℕ, zero, suc, ◌+◌, ◌-◌, ◌<◌, ◌≤◌, ◌≡◌, refl, true, List, [], ◌∷◌, ◌++◌, String, ltb, length,
  length-append, length-drop, drop, if◌then◌else◌, arith, ap, sym, ◌∙◌, min,
}
use openwrt_starwatch.Base.Int.{ℤ, pos, ltb_ℤ}
use openwrt_starwatch.Base.Maps.{string_eq, ◌==◌}
use openwrt_starwatch.Alert.Delivery.{
  Queue, drop_oldest, push_again, enqueue_endpoint, DeliveryJob, Dispatcher, new_dispatcher,
  send_to, dispatch,
}

module _ {A : Type 0} where
  -- How many items an enqueueing call drops itself: one, if the queue was full and the consumer took
  -- nothing that made it empty.
  abbrev pub drops : ℕ → Queue A → ℕ
  drops first q = if ltb (length q.items) q.capacity then 0 else min 1 (length q.items - first)

  -- How many items are gone from the queue's front.
  abbrev pub gone : ℕ → ℕ → Queue A → ℕ
  gone first later q = if ltb (length q.items) q.capacity then 0 else first + 1 + later

  drop-nil : (n : ℕ) → drop {A = A} n [] ≡ []
  drop-nil zero = refl
  drop-nil (suc n) = refl

  drop-drop : (m n : ℕ) (xs : List A) → drop m (drop n xs) ≡ drop (n + m) xs
  drop-drop m zero xs = ap (λ k. drop k xs) (omega arith)
  drop-drop m (suc n) [] = drop-nil m ∙ sym (drop-nil (suc n + m))
  drop-drop m (suc n) (x ∷ xs) =
      drop-drop m n xs ∙ ap {A = ℕ} (λ k. drop k (x ∷ xs)) {x = suc (n + m)} (omega arith)

  push_again_room :
      (kind : String) (a : A) (q : Queue A)
      → ltb (length q.items) q.capacity ≡ true
      → push_again kind a q ≡ (record q { items = q.items ++ a ∷ [] }, [])
  unfolding push_again
  push_again_room kind a q room = ground (arith, room)

  drop_oldest-drop : (kind : String) (xs : List A) → (drop_oldest kind xs).0 ≡ drop 1 xs
  unfolding drop_oldest
  drop_oldest-drop kind [] = refl
  drop_oldest-drop kind (x ∷ xs) = refl

  length-drop_oldest :
      (kind : String) (xs : List A) → length (drop_oldest kind xs).1 ≡ min 1 (length xs)
  unfolding drop_oldest
  length-drop_oldest kind [] = omega arith
  length-drop_oldest kind (x ∷ xs) = omega arith

  -- What the consumer and `drop_oldest` leave, with room for the item.
  kept_room :
      (kind : String) (first later : ℕ) (q : Queue A)
      → 0 < q.capacity
      → length q.items ≤ q.capacity
      → let kept = drop later (drop_oldest kind (drop first q.items)).0 in
        (kept ≡ drop (first + 1 + later) q.items) × (ltb (length kept) q.capacity ≡ true)
  kept_room kind first later q positive within = ground (
    arith,
    drop_oldest-drop kind (drop first q.items),
    drop-drop 1 first q.items,
    drop-drop later (first + 1) q.items,
    length-drop (first + 1 + later) q.items,
  )

  -- A call of `Enqueue` or `enqueueEndpoint` on a queue of positive capacity that is not over it, in
  -- any interleaving with the queue's consumer: the item is always put at the queue's end, the
  -- queue stays within its capacity, only items at its front are gone, and the log has one line if
  -- an item was dropped, and none otherwise.
  pub enqueue_endpoint_lem :
      (kind : String) (first later : ℕ) (a : A) (q : Queue A)
      → 0 < q.capacity
      → length q.items ≤ q.capacity
      → let r = enqueue_endpoint kind first later a q in
        (r.0.items ≡ drop (gone first later q) q.items ++ a ∷ [])
        × (r.0.capacity ≡ q.capacity)
        × (length r.0.items ≤ r.0.capacity)
        × (length r.1 ≡ drops first q)
  unfolding enqueue_endpoint
  enqueue_endpoint_lem kind first later a q positive within = ground (
    arith,
    kept_room kind first later q positive within,
    push_again_room kind a
        (record q { items = drop later (drop_oldest kind (drop first q.items)).0 }),
    length-drop_oldest kind (drop first q.items),
    length-drop first q.items,
    length-append q.items (a ∷ []),
    length-append (drop (first + 1 + later) q.items) (a ∷ []),
    length-drop (first + 1 + later) q.items,
  )

-- What `send_to` promises of an endpoint's queue before and after it.
abbrev pub IsSent :
    {N : Type 0} → ℕ × ℕ → String → N → Queue (DeliveryJob N) → Queue (DeliveryJob N) → Type 0
IsSent takes url n q r =
    (r.items ≡ (
      if url == ""
      then q.items
      else drop (gone takes.0 takes.1 q) q.items
        ++ record { notification = n; endpoint = url } ∷ []))
    × (length r.items ≤ r.capacity)

send_to_lem :
    {N : Type 0} (kind : String) (takes : ℕ × ℕ) (url : String) (n : N) (q : Queue (DeliveryJob N))
    → 0 < q.capacity
    → length q.items ≤ q.capacity
    → IsSent takes url n q (send_to kind takes.0 takes.1 url n q).0
unfolding send_to
send_to_lem kind takes url n q positive within = ground (
  arith,
  enqueue_endpoint_lem kind takes.0 takes.1 (record { notification = n; endpoint = url }) q positive
      within,
)

-- One iteration of `Run` on a queue that holds a notification first, in any interleaving with the two
-- workers, where the workers' queues have a positive capacity and are not over it: the
-- notification leaves the queue; it is put at the end of the queue of each endpoint that is set,
-- with that endpoint, whatever the state of the other one; the queue of an endpoint that is not set is
-- left alone; and the two queues stay within their capacities.
pub dispatch_lem :
    {N : Type 0} (webhook_takes ntfy_takes : ℕ × ℕ) (d : Dispatcher N) (n : N) (rest : List N)
    → d.queue.items ≡ n ∷ rest
    → 0 < d.webhook_queue.capacity
    → length d.webhook_queue.items ≤ d.webhook_queue.capacity
    → 0 < d.ntfy_queue.capacity
    → length d.ntfy_queue.items ≤ d.ntfy_queue.capacity
    → let r = (dispatch webhook_takes ntfy_takes d).0 in
      (r.queue.items ≡ rest)
      × IsSent webhook_takes d.webhook_url n d.webhook_queue r.webhook_queue
      × IsSent ntfy_takes d.ntfy_url n d.ntfy_queue r.ntfy_queue
unfolding dispatch
dispatch_lem webhook_takes ntfy_takes d n rest front w₀ w t₀ t = ground (
  arith,
  front,
  send_to_lem "webhook" webhook_takes d.webhook_url n d.webhook_queue w₀ w,
  send_to_lem "ntfy" ntfy_takes d.ntfy_url n d.ntfy_queue t₀ t,
)

-- A new dispatcher's queue has room for one notification at least, and its back-off is positive.
pub new_dispatcher_lem :
    (N : Type 0) (queue_size backoff : ℤ)
    → (0 < (new_dispatcher {N = N} queue_size backoff).0.capacity)
      × (ltb_ℤ (pos 0) (new_dispatcher {N = N} queue_size backoff).1 ≡ true)
unfolding new_dispatcher
new_dispatcher_lem N queue_size backoff = ground arith
