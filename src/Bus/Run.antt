-- ===== src/Bus/Run.antt =====
-- Every sequence of calls on a bus, in any order.

use openwrt_starwatch.Base.{
  ℕ, ◌+◌, ◌^◌, ◌≡◌, refl, List, [], ◌∷◌, Option, none, some, length, ltb, if◌then◌else◌, arith, ◌<◌,
  ◌≤◌, Bool-cases, inl, inr, ltb→lt,
}
use openwrt_starwatch.Base.Int.{ℤ}
use openwrt_starwatch.Base.Maps.{nat_eq}
use openwrt_starwatch.Bus.{Bus, new_bus, subscribe, cancel, publish, receive}
use openwrt_starwatch.Bus.Valid.{IsValid, new_bus-IsValid, subscribe-IsValid, publish-IsValid}
use openwrt_starwatch.Bus.Cancel.{cancel_lem, receive-IsValid}

-- What the users of a bus call. Nobody holds a channel or a closure before it is issued.
pub data Call (M : Type 0) : Type 0 where
  subscribing : ℤ → Call M
  publishing : M → Call M
  cancelling : ℕ → Call M
  receiving : ℕ → Call M

module _ {M : Type 0} where
  abbrev pub call : Call M → Bus M → Option (Bus M)
  call (subscribing n) b = some (subscribe n b).1
  call (publishing m) b = publish m b
  call (cancelling id) b = if ltb id b.next_id then cancel id b else some b
  call (receiving id) b = some (receive id b).1

  abbrev pub run : List (Call M) → Bus M → Option (Bus M)
  run [] b = some b
  run (c ∷ cs) b = elim (call c b) [ none ↦ none | some b' ↦ run cs b' ]

  -- One call on a valid bus.
  call_lem :
      (c : Call M) (b : Bus M)
      → b.next_id + 1 < 2 ^ 64
      → IsValid b
      → (b' : Bus M) × (call c b ≡ some b') × IsValid b' × (b'.next_id ≤ b.next_id + 1)
  unfolding subscribe
  call_lem (subscribing n) b small v =
      ((subscribe n b).1, refl, subscribe-IsValid n b small v, omega arith)
  call_lem (publishing m) b small v =
      let (b', e, w, same) = publish-IsValid m b v in (b', e, w, omega arith)
  call_lem (cancelling id) b small v = elim (Bool-cases (ltb id b.next_id)) [
    | inl old ↦
        let (b', e, w, same, _, _) = cancel_lem id b (ltb→lt id b.next_id old) v in
        (b', rw old e, w, omega arith)
    | inr new ↦ (b, rw new, v, omega arith)
  ]
  call_lem (receiving id) b small v =
      let (w, same) = receive-IsValid id b v in ((receive id b).1, refl, w, omega arith)

  run_from :
      (cs : List (Call M)) (b : Bus M)
      → b.next_id + length cs < 2 ^ 64
      → IsValid b
      → (b' : Bus M) × (run cs b ≡ some b') × IsValid b'
  run_from [] b small v = (b, refl, v)
  run_from (c ∷ cs) b small v =
      let (b₁, e, w, le) = call_lem c b (omega arith) v in
      let (b', r, u) = run_from cs b₁ (omega arith) w in (b', rw (e, run) r, u)

  -- From a new bus no sequence of fewer than 2^64 calls panics: no message is sent on a closed
  -- channel and no channel is closed twice, and the bus is valid at the end (subscribers' channels
  -- are open, dropped and cancelled ones closed, and no buffer exceeds its capacity).
  pub run_lem :
      (cs : List (Call M))
      → length cs < 2 ^ 64
      → (b' : Bus M) × (run cs new_bus ≡ some b') × IsValid b'
  unfolding new_bus
  run_lem cs small = run_from cs new_bus (omega arith) new_bus-IsValid
