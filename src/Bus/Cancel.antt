-- ===== src/Bus/Cancel.antt =====
-- The closure that `Subscribe` returns, and the receiving end of a channel.

use openwrt_starwatch.Base.{
  ℕ, ◌≡◌, refl, true, false, ◌∷◌, some, if◌then◌else◌, arith, ◌<◌, Bool-cases, Option-cases, inl,
  inr, not, ◌&&◌,
}
use openwrt_starwatch.Base.Maps.{
  lookup, insert, contains, remove, lookup-insert, contains-remove, remove-NoRepeat, ◌==◌, nat_eq,
}
use openwrt_starwatch.Bus.{Channel, Bus, cancel, receive, rest, length-rest}
use openwrt_starwatch.Bus.Valid.{IsValid}

module _ {M : Type 0} where
  -- What a first call of the cancelling closure of `id` leaves.
  abbrev cancelled : ℕ → Channel M → Bus M → Bus M
  cancelled id c b = record b {
    subscribers = remove id b.subscribers;
    channels = insert id (record c { closed = true }) b.channels;
    once_done = id ∷ b.once_done;
  }

  cancel_subscribed :
      (id : ℕ) (b : Bus M) (c : Channel M)
      → contains b.once_done id ≡ false
      → contains b.subscribers id ≡ true
      → lookup id b.channels ≡ some c
      → c.closed ≡ false
      → cancel id b ≡ some (cancelled id c b)
  unfolding cancel
  cancel_subscribed id b c o s e k = ground arith

  cancelled-IsValid :
      (id : ℕ) (b : Bus M) (c : Channel M)
      → lookup id b.channels ≡ some c
      → id < b.next_id
      → IsValid b
      → IsValid (cancelled id c b)
  unfolding contains
  cancelled-IsValid id b c e issued v = record {
    no_repeat = remove-NoRepeat id b.subscribers v.no_repeat;
    opened = λ j h.
        let (d, f, o) = v.opened j (ground (arith, contains-remove id j b.subscribers)) in
        (
          d,
          ground (
            arith,
            contains-remove id j b.subscribers,
            lookup-insert id j (record c { closed = true }) b.channels,
          ),
          o,
        );
    shut = λ j d h k. ground (
      arith,
      contains-remove id j b.subscribers,
      lookup-insert id j (record c { closed = true }) b.channels,
      v.shut j d,
    );
    bounded = λ j d h. ground (
      arith,
      lookup-insert id j (record c { closed = true }) b.channels,
      v.bounded j d,
      v.bounded id c,
    );
    fresh = λ j h. ground (
      arith,
      lookup-insert id j (record c { closed = true }) b.channels,
      nat_eq.test_iff id j,
      v.fresh j,
      v.fresh id,
    );
    spent = λ j h. ground (arith, contains-remove id j b.subscribers, v.spent j);
    issued = λ j h. ground (arith, v.issued j);
  }

  once_spent-IsValid :
      (id : ℕ) (b : Bus M)
      → contains b.subscribers id ≡ false
      → id < b.next_id
      → IsValid b
      → IsValid (record b { once_done = id ∷ b.once_done })
  unfolding contains
  once_spent-IsValid id b s issued v = record {
    no_repeat = v.no_repeat;
    opened = v.opened;
    shut = v.shut;
    bounded = v.bounded;
    fresh = v.fresh;
    spent = λ j h. ground (arith, nat_eq.test_iff id j, v.spent j);
    issued = λ j h. ground (arith, v.issued j);
  }

  cancel_again : (id : ℕ) (b : Bus M) → contains b.once_done id ≡ true → cancel id b ≡ some b
  unfolding cancel
  cancel_again id b h = rw h

  -- A call of the cancelling closure that `Subscribe` returned with `id` does not panic and keeps
  -- the invariant; afterwards `id` is no subscriber, every other id is one as before, and calling
  -- the closure again changes nothing.
  pub cancel_lem :
      (id : ℕ) (b : Bus M)
      → id < b.next_id
      → IsValid b
      → (b' : Bus M) × (cancel id b ≡ some b')
        × IsValid b'
        × (b'.next_id ≡ b.next_id)
        × ((j : ℕ) → contains b'.subscribers j ≡ (not (id == j) && contains b.subscribers j))
        × (cancel id b' ≡ some b')
  unfolding cancel contains
  cancel_lem id b issued v = elim (Bool-cases (contains b.once_done id)) [
    | inl done ↦ (
      b,
      cancel_again id b done,
      v,
      refl,
      λ j. ground (arith, v.spent id, nat_eq.test_iff id j),
      cancel_again id b done,
    )
    | inr todo ↦ elim (Bool-cases (contains b.subscribers id)) [
      | inl there ↦
          let (c, e, o) = v.opened id there in
          (
            cancelled id c b,
            cancel_subscribed id b c todo there e o,
            cancelled-IsValid id b c e issued v,
            refl,
            λ j. ground (arith, contains-remove id j b.subscribers),
            cancel_again id (cancelled id c b) (ground arith),
          )
      | inr gone ↦
          let b' : Bus M = record b { once_done = id ∷ b.once_done } in
          (
            b',
            rw (todo, gone),
            once_spent-IsValid id b gone issued v,
            refl,
            λ j. ground (arith, nat_eq.test_iff id j),
            cancel_again id b' (ground arith),
          )
    ]
  ]

  taken-IsValid :
      (id : ℕ) (b : Bus M) (c : Channel M)
      → lookup id b.channels ≡ some c
      → IsValid b
      → IsValid (record b { channels = insert id (record c { buffer = rest c.buffer }) b.channels })
  taken-IsValid id b c e v = record {
    no_repeat = v.no_repeat;
    opened = λ j h.
        let (d, f, o) = v.opened j h in
        (
          (if id == j then record d { buffer = rest d.buffer } else d),
          ground (
            arith,
            nat_eq.test_iff id j,
            lookup-insert id j (record c { buffer = rest c.buffer }) b.channels,
          ),
          ground arith,
        );
    shut = λ j d h k. ground (
      arith,
      nat_eq.test_iff id j,
      lookup-insert id j (record c { buffer = rest c.buffer }) b.channels,
      v.shut j d,
      v.shut j c,
    );
    bounded = λ j d h. ground (
      arith,
      lookup-insert id j (record c { buffer = rest c.buffer }) b.channels,
      length-rest c.buffer,
      v.bounded j d,
      v.bounded id c,
    );
    fresh = λ j h. ground (
      arith,
      lookup-insert id j (record c { buffer = rest c.buffer }) b.channels,
      nat_eq.test_iff id j,
      v.fresh j,
      v.fresh id,
    );
    spent = v.spent;
    issued = v.issued;
  }

  pub receive-IsValid :
      (id : ℕ) (b : Bus M)
      → IsValid b
      → IsValid (receive id b).1 × ((receive id b).1.next_id ≡ b.next_id)
  unfolding receive
  receive-IsValid id b v = elim (Option-cases (lookup id b.channels)) [
    | inl e ↦ rw (e, receive) (v, refl)
    | inr (c, e) ↦ rw (e, receive) (taken-IsValid id b c e v, refl)
  ]
