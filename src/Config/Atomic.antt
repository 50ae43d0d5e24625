-- ===== src/Config/Atomic.antt =====
-- `atomicWriteWithOperations` of router/internal/config/manager.go, over a file system that maps paths to
-- contents. What the calls of the operating system return is an argument. A crash may come back to any state
-- since the directory was last synced, and may lose a content that was written and not synced.
pub mod After
pub mod Crash
use openwrt_starwatch.Base.{
  ◌≡◌, ◌++◌, Bool, true, false, not, ◌&&◌, List, [], ◌∷◌, Option, none, some, if◌then◌else◌, arith,
}
use openwrt_starwatch.Base.Maps.{lookup, insert, erase, ◌==◌}
use openwrt_starwatch.Base.Strings.{Text, text_eq}

abbrev pub Files : Type 0
Files = List (Text × Text)

-- Which calls succeed, and what a failed write leaves in the temporary file.
pub record Outcomes : Type 0 where
  pub created : Bool
  pub chmod_done : Bool
  pub written : Bool
  pub partial : Text
  pub synced : Bool
  pub closed : Bool
  pub renamed : Bool
  pub directory_opened : Bool
  pub directory_synced : Bool
  pub directory_closed : Bool
  pub removed : Bool

-- The files, and which of them have a content that was written and not synced.
pub record Snapshot : Type 0 where
  pub files : Files
  pub unsynced : Text → Bool

-- The file system now; the states before that a crash may come back to, since the directory was last
-- synced; and those that the write has left behind by syncing the directory. The latest are first.
pub record Disk : Type 0 where
  pub now : Files
  pub unsynced : Text → Bool
  pub recent : List Snapshot
  pub passed : List Snapshot

abbrev pub snapshot : Disk → Snapshot
snapshot disk = record { files = disk.now; unsynced = disk.unsynced }

abbrev pub next : Files → (Text → Bool) → Disk → Disk
next files unsynced disk = record {
  now = files;
  unsynced = unsynced;
  recent = snapshot disk ∷ disk.recent;
  passed = disk.passed;
}

abbrev pub mark : Text → Bool → (Text → Bool) → Text → Bool
mark name b unsynced q = if name == q then b else unsynced q

-- `os.CreateTemp`
abbrev pub create : Text → Disk → Disk
create name disk = next (insert name [] disk.now) (mark name true disk.unsynced) disk

-- `WriteString`, which may leave a part.
abbrev pub write : Text → Text → Disk → Disk
write name content disk = next (insert name content disk.now) (mark name true disk.unsynced) disk

-- `file.Sync`
abbrev pub sync : Text → Disk → Disk
sync name disk = next disk.now (mark name false disk.unsynced) disk

-- `os.Rename`: the content that is not synced is not under its new name either.
abbrev pub rename : Text → Text → Files → Files
rename from to files = elim (lookup from files) [
  | none ↦ files
  | some content ↦ insert to content (erase from files)
]

abbrev pub move : Text → Text → Disk → Disk
move from to disk =
    next (rename from to disk.now) (mark to (disk.unsynced from) (mark from false disk.unsynced))
      disk

-- The deferred `remove(name)`, whose error is not looked at.
abbrev pub remove : Outcomes → Text → Disk → Disk
remove o name disk =
    if o.removed then next (erase name disk.now) (mark name false disk.unsynced) disk else disk

-- `directory.Sync`
abbrev pub sync_directory : Outcomes → Disk → Disk
sync_directory o disk =
    if o.directory_opened && o.directory_synced
    then record {
      now = disk.now;
      unsynced = disk.unsynced;
      recent = [];
      passed = disk.recent ++ disk.passed;
    }
    else disk

-- `Chmod`, `WriteString` and `Sync`, each only where those before it succeeded.
abbrev pub fill : Outcomes → Text → Text → Disk → Bool × Disk
fill o name source disk =
    if not o.chmod_done
    then (false, disk)
    else if not o.written
    then (false, write name o.partial disk)
    else if not o.synced
    then (false, write name source disk)
    else (true, sync name (write name source disk))

-- Whether it succeeds, and the file system after it. The temporary file has the name `name`.
unfoldable pub atomic_write : Outcomes → Text → Text → Text → Disk → Bool × Disk
unfolding lookup insert erase
atomic_write o name path source disk =
    let start = record disk { passed = [] } in
    let (filled, after) = fill o name source (create name start) in
    if not o.created
    then (false, start)
    else if not (filled && o.closed)
    then (false, remove o name after)
    else if not o.renamed
    then (false, remove o name after)
    else (
      o.directory_opened && o.directory_synced && o.directory_closed,
      remove o name (sync_directory o (move name path after)),
    )

-- The calls up to the rename have succeeded.
abbrev pub replaces : Outcomes → Bool
replaces o = o.created && o.chmod_done && o.written && o.synced && o.closed && o.renamed

-- Those after it have, too.
abbrev pub durable : Outcomes → Bool
durable o = o.directory_opened && o.directory_synced && o.directory_closed
