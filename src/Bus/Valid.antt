-- ===== src/Bus/Valid.antt =====
-- The invariant of the bus, which subscribing and publishing keep.

use openwrt_starwatch.Base.{
  ℕ, ◌+◌, ◌^◌, ◌≡◌, refl, true, false, [], ◌∷◌, none, some, length, if◌then◌else◌, arith, ◌<◌, ◌≤◌,
  Bool-cases, Option-cases, inl, inr, length-append,
}
use openwrt_starwatch.Base.Int.{ℤ}
use openwrt_starwatch.Base.Maps.{
  lookup, contains, NoRepeat, lookup-insert, contains-remove, remove-NoRepeat, ◌==◌, nat_eq,
}
use openwrt_starwatch.Bus.{Channel, Bus, at_least_one, make_channel, new_bus, subscribe, publish}
use openwrt_starwatch.Bus.Publish.{offered, IsOpen, Offered, publish_lem}

module _ {M : Type 0} where
  pub record IsValid (b : Bus M) : Type 0 where
    pub no_repeat : NoRepeat b.subscribers
    pub opened : (id : ℕ) → contains b.subscribers id ≡ true → IsOpen b id
    pub shut :
        (id : ℕ) (c : Channel M)
        → lookup id b.channels ≡ some c
        → contains b.subscribers id ≡ false
        → c.closed ≡ true
    pub bounded :
        (id : ℕ) (c : Channel M)
        → lookup id b.channels ≡ some c
        → (length c.buffer ≤ c.capacity) × (0 < c.capacity)
    pub fresh : (id : ℕ) → b.next_id ≤ id → lookup id b.channels ≡ none
    pub spent : (id : ℕ) → contains b.once_done id ≡ true → contains b.subscribers id ≡ false
    pub issued : (id : ℕ) → b.next_id ≤ id → contains b.once_done id ≡ false

  -- A bus with no subscriber is valid.
  pub new_bus-IsValid : IsValid new_bus
  unfolding new_bus lookup contains
  new_bus-IsValid = record {
    no_repeat = tt;
    opened = λ id h. cc;
    shut = λ id c h k. cc;
    bounded = λ id c h. absurd (ground arith);
    fresh = λ id h. refl;
    spent = λ id h. refl;
    issued = λ id h. refl;
  }

  module _ (n : ℤ) (b : Bus M) (small : b.next_id + 1 < 2 ^ 64) (v : IsValid b) where
    IsOpen-subscribe :
        (id : ℕ) → contains (subscribe n b).1.subscribers id ≡ true → IsOpen (subscribe n b).1 id
    unfolding subscribe contains
    IsOpen-subscribe id h = elim (Bool-cases (b.next_id == id)) [
      | inl same ↦ (
        make_channel (at_least_one n),
        rw (lookup-insert b.next_id id (make_channel (at_least_one n)) b.channels, same),
        refl,
      )
      | inr other ↦
          let (c, e, o) =
            v.opened id (ground (arith, contains-remove b.next_id id b.subscribers)) in
          (
            c,
            rw (lookup-insert b.next_id id (make_channel (at_least_one n)) b.channels, other) e,
            o,
          )
    ]

    pub subscribe-IsValid : IsValid (subscribe n b).1
    unfolding subscribe contains
    subscribe-IsValid = record {
      no_repeat = ground (
        arith,
        contains-remove b.next_id b.next_id b.subscribers,
        remove-NoRepeat b.next_id b.subscribers v.no_repeat,
      );
      opened = IsOpen-subscribe;
      shut = λ id c h k. ground (
        arith,
        lookup-insert b.next_id id (make_channel (at_least_one n)) b.channels,
        contains-remove b.next_id id b.subscribers,
        v.shut id c,
      );
      bounded = λ id c h. ground (
        arith,
        lookup-insert b.next_id id (make_channel (at_least_one n)) b.channels,
        v.bounded id c,
      );
      fresh = λ id h. ground (
        arith,
        lookup-insert b.next_id id (make_channel (at_least_one n)) b.channels,
        v.fresh id,
      );
      spent = λ id h.
          ground
            (arith, contains-remove b.next_id id b.subscribers, v.spent id, v.issued b.next_id);
      issued = λ id h. ground (arith, v.issued id);
    }

  module _ (m : M) (b b' : Bus M) (v : IsValid b) (r : Offered m b.subscribers b b') where
    IsOpen-publish : (id : ℕ) → contains b'.subscribers id ≡ true → IsOpen b' id
    IsOpen-publish id h =
        let (c, e, o) = v.opened id (ground (arith, r.kept id)) in
        (offered m c, ground (arith, r.buffers id, r.kept id), ground (arith, r.kept id))

    -- The channel that stood where `Publish` leaves a channel.
    before_publish :
        (id : ℕ) (c : Channel M)
        → lookup id b'.channels ≡ some c
        → (d : Channel M) × (lookup id b.channels ≡ some d)
          × (c ≡ (if contains b.subscribers id then offered m d else d))
    before_publish id c h = elim (Option-cases (lookup id b.channels)) [
      | inl e ↦ absurd (ground (arith, r.buffers id))
      | inr (d, e) ↦ (d, e, ground (arith, r.buffers id))
    ]

    Offered-IsValid : IsValid b'
    Offered-IsValid = record {
      no_repeat = r.no_repeat;
      opened = IsOpen-publish;
      shut = λ id c h k.
          let (d, e, q) = before_publish id c h in
          ground (arith, r.kept id, v.shut id d, v.opened id);
      bounded = λ id c h.
          let (d, e, q) = before_publish id c h in
          ground (arith, v.bounded id d, length-append d.buffer (m ∷ []));
      fresh = λ id h. ground (arith, r.buffers id, r.same_next, v.fresh id);
      spent = λ id h. ground (arith, r.kept id, r.same_once, v.spent id);
      issued = λ id h. ground (arith, r.same_next, r.same_once, v.issued id);
    }

  pub publish-IsValid :
      (m : M) (b : Bus M)
      → IsValid b
      → (b' : Bus M) × (publish m b ≡ some b') × IsValid b' × (b'.next_id ≡ b.next_id)
  publish-IsValid m b v =
      let (b', e, r) = publish_lem m b v.no_repeat v.opened in
      (b', e, Offered-IsValid m b b' v r, r.same_next)
