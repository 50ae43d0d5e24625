-- ===== src/Bus.antt =====
-- router/internal/event/bus.go: bounded fanout of live events.
-- A channel outlives its place in the bus's map, since its subscriber keeps the receiving end: the
-- store `channels` holds every channel ever made, by the id of its subscription, and `subscribers`
-- the ids in the map. A send on a closed channel and a second close panic: the result is `none`.
pub mod Publish
pub mod Valid
pub mod Cancel
pub mod Run
mod Tests
use openwrt_starwatch.Base.{
  ℕ, zero, suc, ◌+◌, ◌%◌, ◌^◌, Bool, true, false, List, [], ◌∷◌, ◌++◌, Option, none, some, length,
  ltb, if◌then◌else◌, ◌≤◌, arith,
}
use mathlib.Core.List.{head?}
use openwrt_starwatch.Base.Int.{ℤ, pos, negsuc}
use openwrt_starwatch.Base.Maps.{lookup, insert, contains, remove, nat_eq}

pub record Channel (M : Type 0) : Type 0 where
  pub capacity : ℕ
  pub buffer : List M
  pub closed : Bool

pub record Bus (M : Type 0) : Type 0 where
  pub next_id : ℕ  -- uint64
  pub subscribers : List ℕ
  pub channels : List (ℕ × Channel M)
  pub once_done : List ℕ

-- `if capacity < 1 { capacity = 1 }`
abbrev pub at_least_one : ℤ → ℕ
at_least_one (pos zero) = 1
at_least_one (pos (suc n)) = suc n
at_least_one (negsuc n) = 1

module _ {M : Type 0} where
  unfoldable pub new_bus : Bus M
  new_bus = record { next_id = 0; subscribers = []; channels = []; once_done = [] }

  abbrev pub make_channel : ℕ → Channel M
  make_channel capacity = record { capacity = capacity; buffer = []; closed = false }

  -- `Subscribe`: the id stands for the channel and for the cancelling closure, which share it.
  unfoldable pub subscribe : ℤ → Bus M → ℕ × Bus M
  subscribe capacity b = (
    b.next_id,
    record b {
      next_id = (b.next_id + 1) % 2 ^ 64;
      subscribers = b.next_id ∷ remove b.next_id b.subscribers;
      channels = insert b.next_id (make_channel (at_least_one capacity)) b.channels;
    },
  )

  -- `close(channel)`
  unfoldable pub close : ℕ → Bus M → Option (Bus M)
  close id b = elim (lookup id b.channels) [
    | none ↦ none
    | some c ↦
        if c.closed
        then none
        else some (record b { channels = insert id (record c { closed = true }) b.channels })
  ]

  -- The function that `Subscribe` returns: its `sync.Once` runs the body at most once.
  unfoldable pub cancel : ℕ → Bus M → Option (Bus M)
  unfolding close
  cancel id b =
      if contains b.once_done id
      then some b
      else if contains b.subscribers id
      then close id
          (record b { once_done = id ∷ b.once_done; subscribers = remove id b.subscribers })
      else some (record b { once_done = id ∷ b.once_done })

  -- The `select` of `Publish`: a send where the buffer has room, else the subscriber is dropped.
  unfoldable pub offer : M → ℕ → Bus M → Option (Bus M)
  unfolding close
  offer m id b = elim (lookup id b.channels) [
    | none ↦ none
    | some c ↦
        if c.closed
        then none
        else if ltb (length c.buffer) c.capacity
        then some (record b {
          channels = insert id (record c { buffer = c.buffer ++ m ∷ [] }) b.channels;
        })
        else close id (record b { subscribers = remove id b.subscribers })
  ]

  -- The loop of `Publish` over the subscribers.
  unfoldable pub offer_all : M → List ℕ → Bus M → Option (Bus M)
  offer_all m [] b = some b
  offer_all m (id ∷ ids) b = elim (offer m id b) [ none ↦ none | some b' ↦ offer_all m ids b' ]

  unfoldable pub publish : M → Bus M → Option (Bus M)
  unfolding offer_all
  publish m b = offer_all m b.subscribers b

  abbrev pub rest : List M → List M
  rest [] = []
  rest (m ∷ ms) = ms

  -- The subscriber's `<-channel`: the oldest message, also from a closed channel.
  unfoldable pub receive : ℕ → Bus M → Option M × Bus M
  receive id b = elim (lookup id b.channels) [
    | none ↦ (none, b)
    | some c ↦ (
      head? c.buffer,
      record b { channels = insert id (record c { buffer = rest c.buffer }) b.channels },
    )
  ]

  pub length-rest : (ms : List M) → length (rest ms) ≤ length ms
  length-rest [] = omega arith
  length-rest (m ∷ ms) = omega arith
