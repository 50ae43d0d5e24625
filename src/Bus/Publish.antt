-- ===== src/Bus/Publish.antt =====
-- What `Publish` does to every channel.
use openwrt_starwatch.Base.{
  ℕ, ◌≡◌, refl, Bool, true, false, ◌&&◌, ◌||◌, not, List, [], ◌∷◌, ◌++◌, none, some, length, ltb,
  if◌then◌else◌, arith,
}
use mathlib.Core.Option
use openwrt_starwatch.Base.Maps.{
  lookup, insert, contains, remove, NoRepeat, lookup-insert, contains-remove, remove-NoRepeat, ◌==◌,
  contains-head, contains-tail, not_head, nat_eq,
}
use openwrt_starwatch.Bus.{Channel, Bus, offer, offer_all, publish}

module _ {M : Type 0} where
  abbrev pub has_room : Channel M → Bool
  has_room c = ltb (length c.buffer) c.capacity

  -- What a publication leaves of a subscribed channel.
  abbrev pub offered : M → Channel M → Channel M
  offered m c =
      if has_room c then record c { buffer = c.buffer ++ m ∷ [] } else record c { closed = true }

  abbrev pub room : ℕ → Bus M → Bool
  room id b = elim (lookup id b.channels) [ none ↦ false | some c ↦ has_room c ]

  abbrev pub IsOpen : Bus M → ℕ → Type 0
  IsOpen b id = (c : Channel M) × (lookup id b.channels ≡ some c) × (c.closed ≡ false)

  offer_lem :
      (m : M) (id : ℕ) (b : Bus M) (c : Channel M)
      → lookup id b.channels ≡ some c
      → c.closed ≡ false
      → offer m id b
        ≡ some (record b {
          subscribers = if has_room c then b.subscribers else remove id b.subscribers;
          channels = insert id (offered m c) b.channels;
        })
  unfolding offer
  offer_lem m id b c e o = ground arith

  -- The bus after the loop has passed the subscribers `ids` of `b`.
  pub record Offered (m : M) (ids : List ℕ) (b : Bus M) (b' : Bus M) : Type 0 where
    pub buffers :
        (id : ℕ)
        → lookup id b'.channels ≡ (
            if contains ids id
            then Option.map (offered m) (lookup id b.channels)
            else lookup id b.channels)
    pub kept :
        (id : ℕ)
        → contains b'.subscribers id
          ≡ (contains b.subscribers id && (not (contains ids id) || room id b))
    pub no_repeat : NoRepeat b'.subscribers
    pub same_next : b'.next_id ≡ b.next_id
    pub same_once : b'.once_done ≡ b.once_done

  abbrev after_offer : M → ℕ → Channel M → Bus M → Bus M
  after_offer m id c b = record b {
    subscribers = if has_room c then b.subscribers else remove id b.subscribers;
    channels = insert id (offered m c) b.channels;
  }

  IsOpen-after_offer :
      (m : M) (id j : ℕ) (c : Channel M) (b : Bus M)
      → (id == j) ≡ false
      → IsOpen b j
      → IsOpen (after_offer m id c b) j
  IsOpen-after_offer m id j c b ne (d, e, o) =
      (d, rw (lookup-insert id j (offered m c) b.channels, ne) e, o)

  after_offer-NoRepeat :
      (m : M) (id : ℕ) (c : Channel M) (b : Bus M)
      → NoRepeat b.subscribers
      → NoRepeat (after_offer m id c b).subscribers
  after_offer-NoRepeat m id c b h = ground (arith, remove-NoRepeat id b.subscribers h)

  Offered-cons :
      (m : M) (id : ℕ) (ids : List ℕ) (b : Bus M) (c : Channel M) (b' : Bus M)
      → lookup id b.channels ≡ some c
      → contains ids id ≡ false
      → Offered m ids (after_offer m id c b) b'
      → Offered m (id ∷ ids) b b'
  unfolding contains
  Offered-cons m id ids b c b' e ne r = record {
    buffers = λ j.
        ground
          (arith, r.buffers j, lookup-insert id j (offered m c) b.channels, nat_eq.test_iff id j);
    kept = λ j. ground (
      arith,
      r.kept j,
      contains-remove id j b.subscribers,
      lookup-insert id j (offered m c) b.channels,
      nat_eq.test_iff id j,
    );
    no_repeat = r.no_repeat;
    same_next = r.same_next;
    same_once = r.same_once;
  }

  offer_all_lem :
      (m : M) (ids : List ℕ) (b : Bus M)
      → NoRepeat ids
      → NoRepeat b.subscribers
      → ((id : ℕ) → contains ids id ≡ true → IsOpen b id)
      → (b' : Bus M) × (offer_all m ids b ≡ some b') × Offered m ids b b'
  unfolding offer_all contains
  offer_all_lem m [] b nr ns opened = (
    b,
    refl,
    record {
      buffers = λ id. refl;
      kept = λ id. ground arith;
      no_repeat = ns;
      same_next = refl;
      same_once = refl;
    },
  )
  offer_all_lem m (id ∷ ids) b nr ns opened =
      let (c, e, o) = opened id (contains-head id ids) in
      let (b', e', r) =
        offer_all_lem m ids (after_offer m id c b) nr.1 (after_offer-NoRepeat m id c b ns)
          (still_open c) in
      (b', rw (offer_lem m id b c e o, offer_all) e', Offered-cons m id ids b c b' e nr.0 r)
    where
      apart : (j : ℕ) → contains ids j ≡ true → (id == j) ≡ false
      apart j h = not_head id j ids nr.0 h

      still_open : (c : Channel M) (j : ℕ) → contains ids j ≡ true → IsOpen (after_offer m id c b) j
      still_open c j h =
          IsOpen-after_offer m id j c b (apart j h) (opened j (contains-tail id j ids h))

  -- Where every subscriber's channel is open, `Publish` does not panic; it appends the message to
  -- the buffer of each subscriber with room and closes the channel of each other one, which it
  -- drops from the map, and it changes no other channel.
  pub publish_lem :
      (m : M) (b : Bus M)
      → NoRepeat b.subscribers
      → ((id : ℕ) → contains b.subscribers id ≡ true → IsOpen b id)
      → (b' : Bus M) × (publish m b ≡ some b') × Offered m b.subscribers b b'
  unfolding publish
  publish_lem m b ns opened = offer_all_lem m b.subscribers b ns ns opened
