-- ===== src/Backup/Roundtrip.antt =====
-- A snapshot that is restored to another path gives the tables that it was taken of.
use nonprofit_ledger.Prelude.{
  ℕ, String, ◌≡◌, refl, ◌∙◌, ap, true, false, not, find, select, none, some, List, [], ◌∷◌, ◌++◌,
  eq_iff, arith,
}
use nonprofit_ledger.Schema.{Db}
use nonprofit_ledger.Exec.{ok}
use nonprofit_ledger.Database.{Sqlite, open_db}
use nonprofit_ledger.Disk.{
  file, Entry, Disk, Host, quiet, FilePath, ◌>>=◌, ◌>>◌, copy, close, is_at, is_dir_at, opened,
  read_at, bytes_of, put_file, with_folder,
}
use nonprofit_ledger.Backup.{snapshot}
use nonprofit_ledger.Backup.Beside.{Apart, beside, beside-Apart, is_dir_at-with_folder}
use nonprofit_ledger.Backup.Restore.{copy_file, check_integrity, restore}

-- Whether no log stands beside the file of a database.
abbrev pub HasNoLog : FilePath → Disk → Type 0
HasNoLog p d = (read_at (beside p "-wal") d ≡ none) × (read_at (beside p "-journal") d ≡ none)

-- Paths that are not those of a database, of its logs, or of their index.
pub record IsOutside (q p : FilePath) : Type 0 where
  pub main : Apart q p
  pub wal : Apart q (beside p "-wal")
  pub shm : Apart q (beside p "-shm")
  pub journal : Apart q (beside p "-journal")

-- SQLite reads back the file that it wrote of some tables, once it stands at a path with no log
-- beside it; it finds no fault in it when it is in WAL mode, and changes no other file when it brings
-- it there.
pub record ReadsBack (sqlite : Sqlite) (content : Db) (p : FilePath) : Type 0 where
  pub load-image :
      (d : Disk)
      → read_at p d ≡ some (sqlite.image content)
      → HasNoLog p d
      → sqlite.load p d ≡ some content
  pub integrity-image :
      (d : Disk)
      → read_at p d ≡ some (sqlite.image content)
      → HasNoLog p d
      → sqlite.integrity p (sqlite.wal_mode p d) ≡ "ok"
  pub wal_mode-outside :
      (q : FilePath) (d : Disk) → IsOutside q p → read_at q (sqlite.wal_mode p d) ≡ read_at q d

is_at_self :
    (p : FilePath) (bytes : List ℕ) → is_at p (record { path = p; node = file bytes }) ≡ true
is_at_self p bytes = ground (arith, eq_iff p.dir p.dir, eq_iff p.name p.name)

find-append_last :
    (p : FilePath) (es : List Entry) (e : Entry)
    → is_at p e ≡ true
    → find (is_at p) (select (λ x. not (is_at p x)) es ++ e ∷ []) ≡ some e
find-append_last p [] e h = rw h refl
find-append_last p (x ∷ es) e h = ground (arith, find-append_last p es e h)

-- The file that was put is read back.
pub read_at-put_file :
    (p : FilePath) (bytes : List ℕ) (d : Disk) → read_at p (put_file p bytes d) ≡ some bytes
read_at-put_file p bytes d =
    ap bytes_of
      (find-append_last p d.entries (record { path = p; node = file bytes }) (is_at_self p bytes))

find-other :
    (p q : FilePath) (bytes : List ℕ) (es : List Entry)
    → Apart p q
    → find
        (is_at p)
        (select (λ x. not (is_at q x)) es ++ record { path = q; node = file bytes } ∷ [])
      ≡ find (is_at p) es
find-other p q bytes [] h =
    ground
      (arith, eq_iff p.dir q.dir, eq_iff q.dir p.dir, eq_iff p.name q.name, eq_iff q.name p.name)
find-other p q bytes (x ∷ es) h = ground (
  arith,
  find-other p q bytes es h,
  eq_iff p.dir q.dir,
  eq_iff x.path.dir q.dir,
  eq_iff x.path.dir p.dir,
  eq_iff p.name q.name,
  eq_iff x.path.name q.name,
  eq_iff x.path.name p.name,
)

-- The other files stay.
pub read_at-put_file_other :
    (p q : FilePath) (bytes : List ℕ) (d : Disk)
    → Apart p q
    → read_at p (put_file q bytes d) ≡ read_at p d
read_at-put_file_other p q bytes d h = ap bytes_of (find-other p q bytes d.entries h)

read_at-with_folder :
    (p : FilePath) (dir : String) (d : Disk) → read_at p (with_folder dir d) ≡ read_at p d
read_at-with_folder p dir d = ground arith

module _ (sqlite : Sqlite) where
  pub snapshot-disk :
      (dest : FilePath) (h : Host) {t : Host}
      → snapshot sqlite dest h ≡ (ok tt, t)
      → t.disk ≡ put_file dest (sqlite.image h.state.db) (with_folder dest.dir h.disk)
  unfolding snapshot
  snapshot-disk dest h {t} e = ground arith

  -- A snapshot that was taken holds the image of the tables.
  pub snapshot-read_at :
      (dest : FilePath) (h : Host) {t : Host}
      → snapshot sqlite dest h ≡ (ok tt, t)
      → read_at dest t.disk ≡ some (sqlite.image h.state.db)
  snapshot-read_at dest h e =
      ap (read_at dest) (snapshot-disk dest h e)
      ∙ read_at-put_file dest (sqlite.image h.state.db) (with_folder dest.dir h.disk)

-- The disk after a copy.
abbrev pub copied_disk : FilePath → List ℕ → Disk → Disk
copied_disk dst bytes d = put_file dst bytes (put_file dst [] (with_folder dst.dir d))

copied_disk-other :
    (p dst : FilePath) (bytes : List ℕ) (d : Disk)
    → Apart p dst
    → read_at p (copied_disk dst bytes d) ≡ read_at p d
copied_disk-other p dst bytes d apart =
    read_at-put_file_other p dst bytes (put_file dst [] (with_folder dst.dir d)) apart
    ∙ read_at-put_file_other p dst [] (with_folder dst.dir d) apart
    ∙ read_at-with_folder p dst.dir d

opened-file :
    (p : FilePath) (d : Disk) {bytes : List ℕ}
    → read_at p d ≡ some bytes
    → opened p d ≡ some (tt, d)
opened-file p d held = ground (arith, held)

copy-close-calm :
    (src dst : FilePath) (bytes : List ℕ) (db : Db) (d : Disk)
    → read_at src d ≡ some bytes
    → (copy src dst >> close) (quiet db d) ≡ (ok tt, quiet db (put_file dst bytes d))
unfolding copy close ◌>>=◌
copy-close-calm src dst bytes db d held = rw held refl

copy_file-calm :
    (src dst : FilePath) (bytes : List ℕ) (db : Db) (d : Disk)
    → Apart src dst
    → read_at src d ≡ some bytes
    → is_dir_at dst d ≡ false
    → copy_file src dst (quiet db d) ≡ (ok tt, quiet db (copied_disk dst bytes d))
unfolding copy_file
copy_file-calm src dst bytes db d apart held vacant =
    let same = read_at-with_folder src dst.dir d ∙ held in
    let still = read_at-put_file_other src dst [] (with_folder dst.dir d) apart ∙ same in
    let free = is_dir_at-with_folder dst d ∙ vacant in
    rw (opened-file src (with_folder dst.dir d) same, free)
      (copy-close-calm src dst bytes db (put_file dst [] (with_folder dst.dir d)) still)

copied-HasNoLog :
    (p : FilePath) (bytes : List ℕ) (d : Disk) → HasNoLog p d → HasNoLog p (copied_disk p bytes d)
copied-HasNoLog p bytes d (wal, journal) = (
  copied_disk-other (beside p "-wal") p bytes d (beside-Apart p "-wal" refl) ∙ wal,
  copied_disk-other (beside p "-journal") p bytes d (beside-Apart p "-journal" refl) ∙ journal,
)

module _ (sqlite : Sqlite) (content : Db) (dest : FilePath)
    (law : ReadsBack sqlite content dest) where
  open_db-calm :
      (db : Db) (d : Disk)
      → read_at dest d ≡ some (sqlite.image content)
      → HasNoLog dest d
      → open_db sqlite dest (quiet db d) ≡ (ok content, quiet db (sqlite.wal_mode dest d))
  unfolding open_db
  open_db-calm db d held alone = rw (law.load-image d held alone) refl

  check_integrity-calm :
      (db : Db) (d : Disk)
      → read_at dest d ≡ some (sqlite.image content)
      → HasNoLog dest d
      → check_integrity sqlite dest content (quiet db (sqlite.wal_mode dest d))
        ≡ (ok content, quiet db (sqlite.wal_mode dest d))
  unfolding check_integrity
  check_integrity-calm db d held alone = rw (law.integrity-image d held alone) refl

  -- A snapshot was taken without an error. Whatever becomes of the tables after that, and if no call
  -- fails, `Restore` to another path returns the tables that were there when it was taken, and leaves
  -- the file of the snapshot as it was, provided that SQLite reads back, at that path, what it wrote
  -- of them. The other path is no directory, no log (-wal or -journal) of a database that stood there
  -- before is beside it, and the snapshot is none of the files that SQLite keeps for a database at
  -- that path.
  pub restore-snapshot :
      (src : FilePath) (h : Host) {t : Host}
      → h.state.db ≡ content
      → snapshot sqlite src h ≡ (ok tt, t)
      → IsOutside src dest
      → HasNoLog dest t.disk
      → is_dir_at dest t.disk ≡ false
      → (now : Db)
      → (after : Host) × (restore sqlite src dest (quiet now t.disk) ≡ (ok content, after))
        × (read_at src after.disk ≡ some (sqlite.image content))
  unfolding restore ◌>>=◌
  restore-snapshot src h {t} held_db taken outside alone vacant now =
      let bytes = sqlite.image content in
      let held =
        snapshot-read_at sqlite src h taken ∙ ap (λ (db : Db). some (sqlite.image db)) held_db in
      let d = copied_disk dest bytes t.disk in
      let copied = read_at-put_file dest bytes (put_file dest [] (with_folder dest.dir t.disk)) in
      let still_alone = copied-HasNoLog dest bytes t.disk alone in
      (
        quiet now (sqlite.wal_mode dest d),
        rw (copy_file-calm src dest bytes now t.disk outside.main held vacant) (
            rw (open_db-calm now d copied still_alone)
              (check_integrity-calm now d copied still_alone)),
        law.wal_mode-outside src d outside
            ∙ copied_disk-other src dest bytes t.disk outside.main
            ∙ held,
      )

read_at-copied : (p : FilePath) (d : Disk) → read_at p (copied_disk p [] d) ≡ some []
read_at-copied p d = read_at-put_file p [] (put_file p [] (with_folder p.dir d))

copy_file-same :
    (p : FilePath) (bytes : List ℕ) (db : Db) (d : Disk)
    → read_at p d ≡ some bytes
    → is_dir_at p d ≡ false
    → copy_file p p (quiet db d) ≡ (ok tt, quiet db (copied_disk p [] d))
unfolding copy_file
copy_file-same p bytes db d held vacant =
    let same = read_at-with_folder p p.dir d ∙ held in
    let free = is_dir_at-with_folder p d ∙ vacant in
    rw (opened-file p (with_folder p.dir d) same, free)
      (copy-close-calm p p [] db (put_file p [] (with_folder p.dir d))
        (read_at-put_file p [] (with_folder p.dir d)))

-- `Restore` of a snapshot to its own path, if no call fails: the copying succeeds and leaves the file
-- empty, whatever it held, and every other file as it was; what `Restore` then returns, and the disk
-- that it leaves, are those of opening and checking the emptied file.
pub restore_empties :
    (sqlite : Sqlite) (p : FilePath) (bytes : List ℕ) (db : Db) (d : Disk)
    → read_at p d ≡ some bytes
    → is_dir_at p d ≡ false
    → (q : FilePath) → Apart q p
    → (emptied : Host) × (copy_file p p (quiet db d) ≡ (ok tt, emptied))
      × (read_at p emptied.disk ≡ some [])
      × (read_at q emptied.disk ≡ read_at q d)
      × (restore sqlite p p (quiet db d)
          ≡ (open_db sqlite p >>= λ (content : Db). check_integrity sqlite p content) emptied)
unfolding restore ◌>>=◌
restore_empties sqlite p bytes db d held vacant q apart =
    let copied = copy_file-same p bytes db d held vacant in
    (
      quiet db (copied_disk p [] d),
      copied,
      read_at-copied p d,
      copied_disk-other q p [] d apart,
      rw copied refl,
    )
