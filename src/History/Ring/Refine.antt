-- ===== src/History/Ring/Refine.antt =====
-- The ring holds the last points that were appended, oldest first.
use openwrt_starwatch.Base.{
  ℕ, zero, suc, ◌+◌, ◌-◌, ◌*◌, ◌%◌, ◌<◌, ◌≤◌, ◌≡◌, ◌≢◌, refl, List, [], ◌∷◌, ◌++◌, ap, ap₂, sym,
  ◌∙◌, none, length, ltb, drop, map, arith, Bool-cases, inl, inr, length-set, length-replicate,
  append_assoc, append-nil,
}
use openwrt_starwatch.Base.Int.{ℤ, pos, negsuc}
use openwrt_starwatch.Bus.{at_least_one}
use openwrt_starwatch.History.{Point, second, unix}
use openwrt_starwatch.History.Ring.{Ring, new_ring, slot, start, read_from, snapshot, append}
use openwrt_starwatch.History.Ring.Slide.{
  get_or-set_self, get_or-set_ne, take_last, slide, slide-take_last, collect-cong, slide-short,
  slide-long, drop-nil,
}
use openwrt_starwatch.History.Ring.Window.{wrap, collect, length-collect, collect-ext, collect-snoc}

module _ {V : Type 0} (v₀ : V) where
  pub record IsValid (r : Ring V) : Type 0 where
    pub same_length : length r.times ≡ length r.values
    pub some_room : 0 < length r.values
    pub next_in : r.next < length r.values
    pub count_in : r.count ≤ length r.values

  pub append-IsValid : (p : Point V) (r : Ring V) → IsValid r → IsValid (append p r)
  unfolding append
  append-IsValid p r v = ground (
    arith,
    length-set r.times r.next (unix p.time),
    length-set r.values r.next p.value,
    wrap (r.next + 1) (length r.values),
  )

  pub snapshot-collect :
      (r : Ring V) (i k : ℕ)
      → read_from v₀ r i k ≡ collect (slot v₀ r) (length r.values) (start v₀ r) i k
  unfolding read_from
  snapshot-collect r i zero = refl
  snapshot-collect r i (suc k) = ap₂ ◌∷◌ refl (snapshot-collect r (i + 1) k)

  -- A point as the ring gives it back: in whole seconds.
  abbrev pub stored : Point V → Point V
  stored p = record {
    time = unix p.time * second;
    value = p.value;
    min = none;
    max = none;
    samples = 0;
  }

  module _ (p : Point V) (r : Ring V) (v : IsValid r) where
    slot-append_new : slot v₀ (append p r) r.next ≡ stored p
    unfolding append
    slot-append_new = ground (
      arith,
      get_or-set_self r.times r.next (unix p.time) 0,
      get_or-set_self r.values r.next p.value v₀,
    )

    slot-append_old : (i : ℕ) → r.next ≢ i → slot v₀ (append p r) i ≡ slot v₀ r i
    unfolding append
    slot-append_old i ne = ground (
      arith,
      get_or-set_ne r.times r.next i (unix p.time) 0 ne,
      get_or-set_ne r.values r.next i p.value v₀ ne,
    )

    length-values : length (append p r).values ≡ length r.values
    unfolding append
    length-values = length-set r.values r.next p.value

    -- While the ring fills up, its start stays.
    start-append_filling : r.count < length r.values → start v₀ (append p r) ≡ start v₀ r
    unfolding append
    start-append_filling h = ground (arith, wrap (r.next + 1) (length r.values), length-values)

    -- A full ring starts at its next slot.
    start_full : r.count ≡ length r.values → start v₀ r ≡ r.next
    start_full h = ground arith

    slots_filling :
        r.count < length r.values
        → collect (slot v₀ (append p r)) (length r.values) (start v₀ r) 0 (suc r.count)
          ≡ collect (slot v₀ r) (length r.values) (start v₀ r) 0 r.count ++ stored p ∷ []
    slots_filling h =
        collect-snoc (slot v₀ (append p r)) (length r.values) (start v₀ r) 0 r.count
        ∙ ap₂ (λ l x. l ++ x ∷ [])
            (collect-ext (slot v₀ (append p r)) (slot v₀ r) (length r.values) (start v₀ r)
              (start v₀ r) 0 0 r.count
              (λ j lt.
                slot-append_old ((start v₀ r + (0 + j)) % length r.values)
                  (ground (arith, wrap (start v₀ r + (0 + j)) (length r.values)))))
            (ap {A = ℕ} (slot v₀ (append p r)) last ∙ slot-append_new)
      where
        last : (start v₀ r + (0 + r.count)) % length r.values ≡ r.next
        last = ground (arith, wrap (start v₀ r + (0 + r.count)) (length r.values))

    slots_full :
        (k : ℕ)
        → length r.values ≡ suc k
        → collect
            (slot v₀ (append p r))
            (length r.values)
            ((r.next + 1) % length r.values)
            0
            (suc k)
          ≡ drop 1 (collect (slot v₀ r) (length r.values) r.next 0 (suc k) ++ stored p ∷ [])
    slots_full k h =
        collect-snoc (slot v₀ (append p r)) (length r.values) ((r.next + 1) % length r.values) 0 k
        ∙ ap₂ (λ l x. l ++ x ∷ [])
            (collect-ext (slot v₀ (append p r)) (slot v₀ r) (length r.values)
              ((r.next + 1) % length r.values) r.next 0 1 k
              (λ j lt. slot-append_old (at j) (apart j lt) ∙ ap {A = ℕ} (slot v₀ r) (same j lt)))
            (ap {A = ℕ} (slot v₀ (append p r)) last ∙ slot-append_new)
      where
        at : ℕ → ℕ
        at j = ((r.next + 1) % length r.values + (0 + j)) % length r.values

        apart : (j : ℕ) → j < k → r.next ≢ at j
        apart j lt = ground (
          arith,
          wrap (r.next + 1) (length r.values),
          wrap ((r.next + 1) % length r.values + (0 + j)) (length r.values),
        )

        same : (j : ℕ) → j < k → at j ≡ (r.next + (1 + j)) % length r.values
        same j lt = ground (
          arith,
          wrap (r.next + 1) (length r.values),
          wrap ((r.next + 1) % length r.values + (0 + j)) (length r.values),
          wrap (r.next + (1 + j)) (length r.values),
        )

        last : ((r.next + 1) % length r.values + (0 + k)) % length r.values ≡ r.next
        last = ground (
          arith,
          wrap (r.next + 1) (length r.values),
          wrap ((r.next + 1) % length r.values + (0 + k)) (length r.values),
        )

    length-snapshot : length (snapshot v₀ r) ≡ r.count
    unfolding snapshot
    length-snapshot =
        ap length (snapshot-collect r 0 r.count)
        ∙ length-collect (slot v₀ r) (length r.values) (start v₀ r) 0 r.count

    read_append :
        (s k : ℕ)
        → start v₀ (append p r) ≡ s
        → (append p r).count ≡ k
        → snapshot v₀ (append p r) ≡ collect (slot v₀ (append p r)) (length r.values) s 0 k
    unfolding snapshot
    read_append s k es ek =
        snapshot-collect (append p r) 0 (append p r).count
        ∙ collect-cong (slot v₀ (append p r)) (length (append p r).values) (length r.values)
            (start v₀ (append p r)) s (append p r).count k length-values es ek

    snapshot-append_filling :
        r.count < length r.values
        → snapshot v₀ (append p r) ≡ slide (length r.values) (snapshot v₀ r) (stored p)
    unfolding snapshot
    snapshot-append_filling lt =
        read_append (start v₀ r) (suc r.count) (start-append_filling lt)
          (unfold append in ground arith)
        ∙ slots_filling lt
        ∙ ap (λ l. l ++ stored p ∷ []) (sym (snapshot-collect r 0 r.count))
        ∙ slide-short (length r.values) (snapshot v₀ r) (stored p) (omega (arith, length-snapshot))

    snapshot-append_full :
        r.count ≡ length r.values
        → snapshot v₀ (append p r) ≡ slide (length r.values) (snapshot v₀ r) (stored p)
    unfolding snapshot
    snapshot-append_full full =
        read_append ((r.next + 1) % length r.values) (suc (r.count - 1))
          (unfold append in ground (arith, wrap (r.next + 1) (length r.values), length-values))
          (unfold append in ground arith)
        ∙ slots_full (r.count - 1) (omega arith)
        ∙ ap (λ l. drop 1 (l ++ stored p ∷ []))
            (collect-cong (slot v₀ r) (length r.values) (length r.values) r.next (start v₀ r)
                (suc (r.count - 1)) r.count refl (sym (start_full full)) (omega arith)
              ∙ sym (snapshot-collect r 0 r.count))
        ∙ slide-long (length r.values) (snapshot v₀ r) (stored p) (omega (arith, length-snapshot))

  -- The ring's contents slide: a new point comes in at the end, and once the ring is full the oldest
  -- one goes out.
  pub snapshot-append :
      (p : Point V) (r : Ring V)
      → IsValid r
      → snapshot v₀ (append p r) ≡ slide (length r.values) (snapshot v₀ r) (stored p)
  snapshot-append p r v = elim (Bool-cases (ltb r.count (length r.values))) [
    | inl filling ↦ snapshot-append_filling p r v (ground arith)
    | inr full ↦ snapshot-append_full p r v (ground arith)
  ]

  unfoldable pub append_all : List (Point V) → Ring V → Ring V
  append_all [] r = r
  append_all (p ∷ ps) r = append_all ps (append p r)

  append_all-slide :
      (xs ps : List (Point V)) (r : Ring V)
      → IsValid r
      → snapshot v₀ r ≡ take_last (length r.values) xs
      → snapshot v₀ (append_all ps r) ≡ take_last (length r.values) (xs ++ map stored ps)
  unfolding append_all
  append_all-slide xs [] r v e = e ∙ ap (take_last (length r.values)) (sym (append-nil xs))
  append_all-slide xs (p ∷ ps) r v e =
      append_all-slide (xs ++ stored p ∷ []) ps (append p r) (append-IsValid p r v) (
        snapshot-append p r v
        ∙ ap (λ q. slide (length r.values) q (stored p)) e
        ∙ slide-take_last (length r.values) xs (stored p) v.some_room
        ∙ ap (λ n. take_last n (xs ++ stored p ∷ [])) (sym (length-values p r v)))
      ∙ ap₂ take_last (length-values p r v) (append_assoc xs (stored p ∷ []) (map stored ps))

  at_least_one_pos : (c : ℤ) → 0 < at_least_one c
  at_least_one_pos (pos zero) = omega arith
  at_least_one_pos (pos (suc n)) = omega arith
  at_least_one_pos (negsuc n) = omega arith

  pub new_ring-IsValid : (c : ℤ) → IsValid (new_ring v₀ c)
  unfolding new_ring
  new_ring-IsValid c = ground (
    arith,
    at_least_one_pos c,
    length-replicate {A = ℕ} (at_least_one c) 0,
    length-replicate (at_least_one c) v₀,
  )

  snapshot-new_ring :
      (c : ℤ) → snapshot v₀ (new_ring v₀ c) ≡ take_last (length (new_ring v₀ c).values) []
  unfolding snapshot new_ring
  snapshot-new_ring c = sym (drop-nil (0 - length (new_ring v₀ c).values))

  length-new_ring : (c : ℤ) → length (new_ring v₀ c).values ≡ at_least_one c
  unfolding new_ring
  length-new_ring c = length-replicate (at_least_one c) v₀

  -- After any appends to a new ring of capacity `c`, `snapshot` returns the last `c` of the points
  -- (one, where `c` is below 1), oldest first, each with its time cut to the second.
  pub snapshot-append_all :
      (c : ℤ) (ps : List (Point V))
      → snapshot v₀ (append_all ps (new_ring v₀ c)) ≡ take_last (at_least_one c) (map stored ps)
  snapshot-append_all c ps =
      append_all-slide [] ps (new_ring v₀ c) (new_ring-IsValid c) (snapshot-new_ring c)
      ∙ ap (λ n. take_last n (map stored ps)) (length-new_ring c)
