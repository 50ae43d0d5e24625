-- ===== src/Config/Atomic/Crash.antt =====
-- What a crash leaves, in the course of a write and after it.
use mathlib.Core.Path.{subst}
use openwrt_starwatch.Base.{
  append-nil, sym, ◌≡◌, ◌++◌, ◌∙◌, Option, ◌⊎◌, inl, inr, refl, Bool, true, false, not, ◌&&◌, List,
  [], ◌∷◌, some, if◌then◌else◌, arith,
}
use openwrt_starwatch.Base.Effects.{All}
use openwrt_starwatch.Base.Maps.{lookup, insert, erase, lookup-insert, lookup-erase, ◌==◌}
use openwrt_starwatch.Base.Strings.{Text, text_eq}
use openwrt_starwatch.Config.Atomic.{
  Files, Outcomes, Snapshot, Disk, snapshot, next, mark, create, write, sync, move, rename, remove,
  sync_directory, fill, atomic_write, durable,
}

-- What `path` may be found to have after a crash that came back to a state: a content that was not synced
-- may be found as anything.
abbrev pub CrashReads : Text → Snapshot → Option Text → Type 0
CrashReads path s r = (s.unsynced path ≡ true) ⊎ (r ≡ lookup path s.files)

-- After a crash that came back to one of some states.
abbrev pub AfterCrash : Text → List Snapshot → Option Text → Type 0
AfterCrash path [] r = ⊥
AfterCrash path (s ∷ ss) r = CrashReads path s r ⊎ AfterCrash path ss r

-- The states that a crash may come back to now, and those that one could have come back to since the
-- write began.
abbrev pub states : Disk → List Snapshot
states d = snapshot d ∷ d.recent

abbrev pub all_states : Disk → List Snapshot
all_states d = snapshot d ∷ (d.recent ++ d.passed)

module _ (path : Text) (R : Option Text → Type 0) where
  abbrev Safe : Snapshot → Type 0
  Safe s = (r : Option Text) → CrashReads path s r → R r

  by_state : (ss : List Snapshot) → All Safe ss → (r : Option Text) → AfterCrash path ss r → R r
  by_state [] h r k = absurd k
  by_state (s ∷ ss) h r (inl k) = h.0 r k
  by_state (s ∷ ss) h r (inr k) = by_state ss h.1 r k

  All-Safe : (ss : List Snapshot) → ((r : Option Text) → AfterCrash path ss r → R r) → All Safe ss
  All-Safe [] h = tt
  All-Safe (s ∷ ss) h = ((λ r k. h r (inl k)), All-Safe ss (λ r k. h r (inr k)))

module _ (o : Outcomes) (name path source : Text) (disk : Disk)
    (distinct : (name == path) ≡ false) where
  -- What a crash before the write may leave, or the new text.
  abbrev OldOrNew : Option Text → Type 0
  OldOrNew r = AfterCrash path (states disk) r ⊎ (r ≡ some source)

  -- A state that shows `path` as it was, or with the new text synced.
  abbrev Keeps : Files → (Text → Bool) → Type 0
  Keeps files unsynced =
      ((unsynced path ≡ disk.unsynced path) × (lookup path files ≡ lookup path disk.now))
      ⊎ ((unsynced path ≡ false) × (lookup path files ≡ some source))

  Keeps-Safe :
      (files : Files) (unsynced : Text → Bool)
      → Keeps files unsynced
      → Safe path OldOrNew (record { files = files; unsynced = unsynced })
  Keeps-Safe files unsynced (inl (u, l)) r (inl k) = inl (inl (inl (ground (arith, u, k))))
  Keeps-Safe files unsynced (inl (u, l)) r (inr k) = inl (inl (inr (k ∙ l)))
  Keeps-Safe files unsynced (inr (u, l)) r (inl k) = absurd (ground (arith, u, k))
  Keeps-Safe files unsynced (inr (u, l)) r (inr k) = inr (k ∙ l)

  -- The states of the write are safe, and so is the one that is there.
  abbrev Good : Disk → Type 0
  Good d = All (Safe path OldOrNew) (all_states d) × Keeps d.now d.unsynced

  Good-next :
      (files : Files) (unsynced : Text → Bool) (d : Disk)
      → Good d
      → Keeps files unsynced
      → Good (next files unsynced d)
  Good-next files unsynced d g k = ((Keeps-Safe files unsynced k, g.0), k)

  Keeps-insert :
      (content : Text) (b : Bool) (files : Files) (unsynced : Text → Bool)
      → Keeps files unsynced
      → Keeps (insert name content files) (mark name b unsynced)
  Keeps-insert content b files unsynced (inl (u, l)) = inl (
    ground (arith, distinct, u),
    ground (arith, distinct, l, lookup-insert name path content files),
  )
  Keeps-insert content b files unsynced (inr (u, l)) = inr (
    ground (arith, distinct, u),
    ground (arith, distinct, l, lookup-insert name path content files),
  )

  Keeps-mark :
      (b : Bool) (files : Files) (unsynced : Text → Bool)
      → Keeps files unsynced
      → Keeps files (mark name b unsynced)
  Keeps-mark b files unsynced (inl (u, l)) = inl (ground (arith, distinct, u), l)
  Keeps-mark b files unsynced (inr (u, l)) = inr (ground (arith, distinct, u), l)

  Keeps-erase :
      (b : Bool) (files : Files) (unsynced : Text → Bool)
      → Keeps files unsynced
      → Keeps (erase name files) (mark name b unsynced)
  Keeps-erase b files unsynced (inl (u, l)) =
      inl (ground (arith, distinct, u), ground (arith, distinct, l, lookup-erase name path files))
  Keeps-erase b files unsynced (inr (u, l)) =
      inr (ground (arith, distinct, u), ground (arith, distinct, l, lookup-erase name path files))

  Good-remove : (d : Disk) → Good d → Good (remove o name d)
  Good-remove d g =
      elim o.removed
        as (λ r. Good (if r then next (erase name d.now) (mark name false d.unsynced) d else d)) [
          | true ↦
              Good-next (erase name d.now) (mark name false d.unsynced) d g
                (Keeps-erase false d.now d.unsynced g.1)
          | false ↦ g
        ]

  Good-sync_directory : (d : Disk) → Good d → Good (sync_directory o d)
  Good-sync_directory d g =
      elim (o.directory_opened && o.directory_synced)
        as (λ b. Good (
          if b
          then record {
            now = d.now;
            unsynced = d.unsynced;
            recent = [];
            passed = d.recent ++ d.passed;
          }
          else d)) [ true ↦ g | false ↦ g ]

  Good-write : (content : Text) (d : Disk) → Good d → Good (write name content d)
  Good-write content d g =
      Good-next (insert name content d.now) (mark name true d.unsynced) d g
        (Keeps-insert content true d.now d.unsynced g.1)

  Good-sync : (d : Disk) → Good d → Good (sync name d)
  Good-sync d g =
      Good-next d.now (mark name false d.unsynced) d g (Keeps-mark false d.now d.unsynced g.1)

  Good-move :
      (d : Disk)
      → Good d
      → lookup name d.now ≡ some source
      → d.unsynced name ≡ false
      → Good (move name path d)
  Good-move d g l u =
      Good-next (rename name path d.now) (mark path (d.unsynced name) (mark name false d.unsynced))
        d g
        (inr (
          ground (arith, u, text_eq.test_iff path path),
          ground (
            arith,
            l,
            text_eq.test_iff path path,
            lookup-insert path path source (erase name d.now),
          ),
        ))

  Good-if :
      (b : Bool) (x y : Bool × Disk)
      → (b ≡ true → Good x.1)
      → (b ≡ false → Good y.1)
      → Good (if b then x else y).1
  Good-if true x y h k = h refl
  Good-if false x y h k = k refl

  Good-fill : (d : Disk) → Good d → Good (fill o name source d).1
  Good-fill d g =
      let whole = write name source d in
      let wrote = Good-write source d g in
      let last : Bool × Disk = if not o.synced then (false, whole) else (true, sync name whole) in
      let part : Bool × Disk = (false, write name o.partial d) in
      Good-if (not o.chmod_done) (false, d) (if not o.written then part else last) (λ _. g)
        (λ _.
          Good-if (not o.written) part last (λ _. Good-write o.partial d g)
            (λ _.
              Good-if (not o.synced) (false, whole) (true, sync name whole) (λ _. wrote)
                (λ _. Good-sync whole wrote)))

  filled_content :
      (d : Disk)
      → (fill o name source d).0 ≡ true
      → (lookup name (fill o name source d).1.now ≡ some source)
        × ((fill o name source d).1.unsynced name ≡ false)
  filled_content d h =
      ground (arith, h, text_eq.test_iff name name, lookup-insert name name source d.now)

  start-Good : Good (record disk { passed = [] })
  start-Good = (
    subst (All (Safe path OldOrNew)) (sym (append-nil {A = Snapshot} (states disk)))
        (All-Safe path OldOrNew (states disk) (λ r h. inl h)),
    inl (refl, refl),
  )

  Good-atomic_write : Good (atomic_write o name path source disk).1
  unfolding atomic_write
  Good-atomic_write =
      let start = record disk { passed = [] } in
      let made = create name start in
      let good = Good-fill made (
        Good-next (insert name [] disk.now) (mark name true disk.unsynced) start start-Good
          (Keeps-insert [] true disk.now disk.unsynced start-Good.1)) in
      let filled = (fill o name source made).0 in
      let after = (fill o name source made).1 in
      let moved = move name path after in
      let failed : Bool × Disk = (false, remove o name after) in
      let over : Bool × Disk = (durable o, remove o name (sync_directory o moved)) in
      let renames : Bool × Disk = if not o.renamed then failed else over in
      Good-if (not o.created) (false, start) (if not (filled && o.closed) then failed else renames)
        (λ _. start-Good)
        (λ _.
          Good-if (not (filled && o.closed)) failed renames (λ _. Good-remove after good)
            (λ full.
              Good-if (not o.renamed) failed over (λ _. Good-remove after good)
                (λ _.
                  let done = filled_content made (ground (arith, full)) in
                  Good-remove (sync_directory o moved)
                    (Good-sync_directory moved (Good-move after good done.0 done.1)))))

-- A crash in the course of a write, or after it, leaves the file with what a crash just before the
-- write could have left, or with the whole new text: whichever calls fail, and though a content
-- that is not synced can be lost and a rename undone. The temporary file is another than the file.
pub crash_leaves-OldOrNew :
    (o : Outcomes) (name path source : Text) (disk : Disk) (r : Option Text)
    → (name == path) ≡ false
    → AfterCrash path (all_states (atomic_write o name path source disk).1) r
    → AfterCrash path (states disk) r ⊎ (r ≡ some source)
crash_leaves-OldOrNew o name path source disk r distinct h =
    by_state path (OldOrNew o name path source disk distinct)
      (all_states (atomic_write o name path source disk).1)
      (Good-atomic_write o name path source disk distinct).0 r h

module _ (o : Outcomes) (name path source : Text) (disk : Disk) where
  -- The disk once all calls have succeeded, but for the removal.
  abbrev over : Disk
  over = move name path (sync name (write name source (create name (record disk { passed = [] }))))

  abbrev emptied : Disk
  emptied = record {
    now = over.now;
    unsynced = over.unsynced;
    recent = [];
    passed = over.recent ++ over.passed;
  }

  abbrev all_done : Disk
  all_done = remove o name emptied

  succeeded :
      (atomic_write o name path source disk).0 ≡ true
      → (atomic_write o name path source disk).1 ≡ all_done
  unfolding atomic_write
  succeeded h = ground (arith, h)

  over_lem : (over.unsynced path ≡ false) × (lookup path over.now ≡ some source)
  over_lem = (
    ground (arith, text_eq.test_iff path path, text_eq.test_iff name name),
    ground (
      arith,
      text_eq.test_iff path path,
      text_eq.test_iff name name,
      lookup-insert name name source (insert name [] disk.now),
      lookup-insert path path source (erase name (insert name source (insert name [] disk.now))),
    ),
  )

  finds_new :
      (files : Files) (unsynced : Text → Bool) (r : Option Text)
      → unsynced path ≡ false
      → lookup path files ≡ some source
      → CrashReads path (record { files = files; unsynced = unsynced }) r
      → r ≡ some source
  finds_new files unsynced r u l (inl k) = absurd (ground (arith, u, k))
  finds_new files unsynced r u l (inr k) = k ∙ l

  module _ (distinct : (name == path) ≡ false) (r : Option Text) where
    over_found : CrashReads path (snapshot over) r → r ≡ some source
    over_found = finds_new over.now over.unsynced r over_lem.0 over_lem.1

    removed_found :
        CrashReads path
          (record { files = erase name over.now; unsynced = mark name false over.unsynced })
          r
        → r ≡ some source
    removed_found =
        finds_new (erase name over.now) (mark name false over.unsynced) r
          (ground (arith, distinct, over_lem.0))
          (ground (arith, distinct, over_lem.1, lookup-erase name path over.now))

    found_if :
        (b : Bool)
        → AfterCrash path
            (states (
              if b
              then next (erase name over.now) (mark name false over.unsynced) emptied
              else emptied))
            r
        → r ≡ some source
    found_if true (inl h) = removed_found h
    found_if true (inr (inl h)) = over_found h
    found_if true (inr (inr h)) = absurd h
    found_if false (inl h) = over_found h
    found_if false (inr h) = absurd h

-- Once a write has returned without an error, a crash leaves the file with the whole new text: no
-- state before the rename can come back, and the text cannot be lost. The temporary file is
-- another than the file.
pub success_survives_crash :
    (o : Outcomes) (name path source : Text) (disk : Disk) (r : Option Text)
    → (name == path) ≡ false
    → (atomic_write o name path source disk).0 ≡ true
    → AfterCrash path (states (atomic_write o name path source disk).1) r
    → r ≡ some source
success_survives_crash o name path source disk r distinct done h =
    found_if o name path source disk distinct r o.removed
      (subst (λ d. AfterCrash path (states d) r) (succeeded o name path source disk done) h)
