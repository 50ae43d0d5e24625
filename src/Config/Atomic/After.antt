-- ===== src/Config/Atomic/After.antt =====
-- What a write leaves in the file system.
use openwrt_starwatch.Base.{◌≡◌, true, false, ◌&&◌, [], none, some, if◌then◌else◌, arith}
use openwrt_starwatch.Base.Maps.{lookup, insert, erase, lookup-insert, lookup-erase, ◌==◌}
use openwrt_starwatch.Base.Strings.{Text, text_eq}
use openwrt_starwatch.Config.Atomic.{Files, Outcomes, Disk, rename, atomic_write, replaces, durable}

module _ (o : Outcomes) (name path source old : Text) (disk : Disk)
    (fresh : lookup name disk.now ≡ none) (exists : lookup path disk.now ≡ some old) where
  distinct : (name == path) ≡ false
  distinct = ground (arith, fresh, exists, text_eq.test_iff name path)

  abbrev made : Files
  made = insert name [] disk.now

  abbrev filled : Text → Files
  filled content = insert name content made

  look_made : (q : Text) → lookup q made ≡ (if name == q then some [] else lookup q disk.now)
  look_made q = lookup-insert name q [] disk.now

  look_filled :
      (q content : Text)
      → lookup q (filled content) ≡ (if name == q then some content else lookup q disk.now)
  look_filled q content = ground (arith, look_made q, lookup-insert name q content made)

  look_moved :
      (q content : Text)
      → lookup q (rename name path (filled content))
        ≡ (if path == q then some content else if name == q then none else lookup q disk.now)
  look_moved q content = ground (
    arith,
    look_filled name content,
    look_filled q content,
    text_eq.test_iff name name,
    lookup-insert path q content (erase name (filled content)),
    lookup-erase name q (filled content),
  )

  look_removed :
      (q : Text) (files : Files)
      → lookup q (erase name files) ≡ (if name == q then none else lookup q files)
  look_removed q files = lookup-erase name q files

  -- The write succeeds where all calls do, but for the removal of the temporary file. Where those up to
  -- the rename succeed the file has the new text, also if a later one fails; else it has the old one. No
  -- other path has changed, the temporary file's included.
  pub atomic_write_lem :
      (q : Text)
      → o.removed ≡ true
      → ((atomic_write o name path source disk).0 ≡ replaces o && durable o)
        × (lookup q (atomic_write o name path source disk).1.now
            ≡ (if path == q then some (if replaces o then source else old) else lookup q disk.now))
  unfolding atomic_write
  atomic_write_lem q clean = ground (
    arith,
    clean,
    fresh,
    exists,
    distinct,
    text_eq.test_iff path q,
    text_eq.test_iff name q,
    look_made q,
    look_filled q source,
    look_filled q o.partial,
    look_moved q source,
    look_removed q made,
    look_removed q (filled source),
    look_removed q (filled o.partial),
    look_removed q (rename name path (filled source)),
  )

  pub write_reply : (atomic_write o name path source disk).0 ≡ replaces o && durable o
  unfolding atomic_write
  write_reply = ground arith

  -- Also where the temporary file stays.
  pub file_after :
      lookup path (atomic_write o name path source disk).1.now
      ≡ some (if replaces o then source else old)
  unfolding atomic_write
  file_after = ground (
    arith,
    fresh,
    exists,
    distinct,
    text_eq.test_iff path path,
    look_made path,
    look_filled path source,
    look_filled path o.partial,
    look_moved path source,
    look_removed path made,
    look_removed path (filled source),
    look_removed path (filled o.partial),
    look_removed path (rename name path (filled source)),
  )
