-- ===== src/Backup/Newest.antt =====
-- The snapshot that a scheduled run takes is not deleted by the rotation that follows it.
use nonprofit_ledger.Prelude.{
  ℕ, ⊤, zero, suc, String, ◌≡◌, refl, sym, ◌∙◌, ap, true, false, not, ◌≤◌, ◌<◌, All, find, select,
  length, some, List, [], ◌∷◌, ◌++◌, map, ◌==◌, eq_iff, arith,
}
use nonprofit_ledger.Prelude.Text.{text_le}
use nonprofit_ledger.Prelude.Sort.{insert, sort, take, has}
use nonprofit_ledger.Prelude.Sort.Select.{has-sort}
use nonprofit_ledger.Exec.{Conn, Result, ok, err, Error}
use nonprofit_ledger.Database.{Sqlite}
use nonprofit_ledger.Disk.{
  stat_size, file, Entry, Disk, Host, FilePath, is_at, entry_of, read_at, bytes_of, put_file,
  with_folder,
}
use nonprofit_ledger.Backup.{
  Clock, is_snapshot, snapshot_names, rotate, snapshot, snapshot_path, rotate_after, size_after,
  end_run, run_scheduled,
}
use nonprofit_ledger.Backup.Rotate.{is_among, snapshots}
use nonprofit_ledger.Backup.Retention.{rotate-IsRotated}
use nonprofit_ledger.Backup.Roundtrip.{snapshot-disk, snapshot-read_at}

insert-append_last :
    (x d : String) (ys : List String)
    → text_le x d ≡ true
    → insert x (ys ++ d ∷ []) ≡ insert x ys ++ d ∷ []
unfolding insert
insert-append_last x d [] h = rw h refl
insert-append_last x d (y ∷ ys) h = ground (arith, insert-append_last x d ys h)

sort-append_last :
    (xs : List String) (d : String)
    → All (λ n. text_le n d ≡ true) xs
    → sort (xs ++ d ∷ []) ≡ sort xs ++ d ∷ []
unfolding sort
sort-append_last [] d h = refl
sort-append_last (x ∷ xs) d h =
    ap (insert x) (sort-append_last xs d h.1) ∙ insert-append_last x d (sort xs) h.0

has-take :
    (m : ℕ) (n d : String) (s : List String)
    → m ≤ length s
    → has n s ≡ false
    → has n (take m (s ++ d ∷ [])) ≡ false
has-take zero n d s le h = refl
has-take (suc m) n d [] le h = absurd (omega arith)
has-take (suc m) n d (x ∷ xs) le h = ground (arith, has-take m n d xs (omega arith))

length-append_last : (s : List String) (d : String) → length (s ++ d ∷ []) ≡ suc (length s)
length-append_last [] d = refl
length-append_last (x ∷ s) d = ap suc (length-append_last s d)

-- The names of the snapshots in a directory, in the order of the disk.
abbrev pub names_in : String → List Entry → List String
names_in dir es = snapshot_names (map entry_of (select (λ (e : Entry). e.path.dir == dir) es))

names_in-put :
    (dir n : String) (bytes : List ℕ) (es : List Entry)
    → is_snapshot n ≡ true
    → has n (names_in dir es) ≡ false
    → names_in dir (
        select (λ e. not (is_at (record { dir = dir; name = n }) e)) es
        ++ record { path = record { dir = dir; name = n }; node = file bytes } ∷ [])
      ≡ names_in dir es ++ n ∷ []
unfolding snapshot_names
names_in-put dir n bytes [] s h = ground (arith, eq_iff dir dir)
names_in-put dir n bytes (e ∷ es) s h =
    ground (arith, names_in-put dir n bytes es s, eq_iff e.path.name n)

read_at-without :
    (dir n : String) (names : List String) (es : List Entry)
    → has n names ≡ false
    → find (is_at (record { dir = dir; name = n })) (select (λ e. not (is_among dir names e)) es)
      ≡ find (is_at (record { dir = dir; name = n })) es
read_at-without dir n names [] h = refl
read_at-without dir n names (e ∷ es) h =
    ground (arith, read_at-without dir n names es h, eq_iff e.path.name n)

entries-with_folder : (dir : String) (d : Disk) → (with_folder dir d).entries ≡ d.entries
entries-with_folder dir d = ground arith

-- The new name, and what the directory holds with it.
pub record IsNewest (dir n : String) (d : Disk) : Type 0 where
  pub named : is_snapshot n ≡ true
  pub fresh : has n (names_in dir d.entries) ≡ false
  pub latest : All (λ m. text_le m n ≡ true) (names_in dir d.entries)

snapshots-put :
    (dir n : String) (bytes : List ℕ) (d : Disk)
    → IsNewest dir n d
    → snapshots dir (put_file (record { dir = dir; name = n }) bytes (with_folder dir d))
      ≡ snapshots dir d ++ n ∷ []
snapshots-put dir n bytes d new =
    ap
      (λ (es : List Entry). sort (
        names_in dir (
          select (λ e. not (is_at (record { dir = dir; name = n }) e)) es
          ++ record { path = record { dir = dir; name = n }; node = file bytes } ∷ [])))
      (entries-with_folder dir d)
    ∙ ap sort (names_in-put dir n bytes d.entries new.named new.fresh)
    ∙ sort-append_last (names_in dir d.entries) n new.latest

-- Whatever becomes of a rotation that keeps at least one, the newest file is as it was.
rotate-newest :
    (dir n : String) (keep_n : ℕ) (bytes : List ℕ) (d : Disk) (h : Host)
    → 0 < keep_n
    → IsNewest dir n d
    → h.disk ≡ put_file (record { dir = dir; name = n }) bytes (with_folder dir d)
    → read_at (record { dir = dir; name = n }) (rotate dir keep_n h).1.disk
      ≡ read_at (record { dir = dir; name = n }) h.disk
rotate-newest dir n keep_n bytes d h pos_keep new put =
    let r = rotate-IsRotated dir keep_n h in
    let listed : snapshots dir h.disk ≡ snapshots dir d ++ n ∷ [] =
      ap (snapshots dir) put ∙ snapshots-put dir n bytes d new in
    let long = ap (λ (s : List String). length s) listed ∙ length-append_last (snapshots dir d) n in
    let few : r.count ≤ length (snapshots dir d) = omega (arith, r.bounded, long) in
    let safe : has n (take r.count (snapshots dir h.disk)) ≡ false =
      ap (λ s. has n (take r.count s)) listed
      ∙ has-take r.count n n (snapshots dir d) few
          (has-sort n (names_in dir d.entries) ∙ new.fresh) in
    ap (read_at (record { dir = dir; name = n })) r.left
    ∙ ap bytes_of (read_at-without dir n (take r.count (snapshots dir h.disk)) h.disk.entries safe)

rotated_ok :
    (snap : Result ⊤) (dir : String) (keep_n : ℕ) (h : Host)
    → (rotate_after snap dir keep_n h).0 ≡ ok tt
    → snap ≡ ok tt
rotated_ok (ok u) dir keep_n h e = refl
rotated_ok (err x) dir keep_n h e = cc

size_after-disk :
    (run : Result ⊤) (dest : FilePath) (h : Host) → (size_after run dest h).1.disk ≡ h.disk
unfolding stat_size
size_after-disk (ok u) dest h = refl
size_after-disk (err x) dest h = refl

module _ (conn : Conn) (text : Error → String) where
  end_run-ok : (r run : Result ⊤) → end_run conn text r run ≡ ok tt → run ≡ ok tt
  end_run-ok (ok u) run e = e
  end_run-ok (err x) run e = cc

  -- A scheduled run that keeps at least one snapshot, whose file's name is new and not before the
  -- names that are there, and which returns no error, leaves in that file the image of the tables
  -- that it was called on: the rotation does not delete it.
  pub run_scheduled-keeps :
      (sqlite : Sqlite) (dir : String) (keep_n : ℕ) (clock : Clock) (h : Host) {t : Host}
      → 0 < keep_n
      → IsNewest dir (snapshot_path dir clock).name h.disk
      → run_scheduled conn text sqlite dir keep_n clock h ≡ (ok tt, t)
      → read_at (snapshot_path dir clock) t.disk ≡ some (sqlite.image h.state.db)
  unfolding run_scheduled
  run_scheduled-keeps sqlite dir keep_n clock h {t} some_kept new e =
      let dest = snapshot_path dir clock in
      let h₁ = (snapshot sqlite dest h).1 in
      let snap = (snapshot sqlite dest h).0 in
      let run = (rotate_after snap dir keep_n h₁).0 in
      let h₂ = (rotate_after snap dir keep_n h₁).1 in
      let ran : run ≡ ok tt = end_run-ok _ run (ap (λ (p : Result ⊤ × Host). p.0) e) in
      let taken : snap ≡ ok tt = rotated_ok snap dir keep_n h₁ ran in
      let took : snapshot sqlite dest h ≡ (ok tt, h₁) = λ i. (taken i, h₁) in
      let put = snapshot-disk sqlite dest h took in
      ap (λ (p : Result ⊤ × Host). read_at dest p.1.disk) (sym e)
      ∙ ap (read_at dest) (size_after-disk run dest h₂)
      ∙ ap (λ (r : Result ⊤). read_at dest (rotate_after r dir keep_n h₁).1.disk) taken
      ∙ rotate-newest dir dest.name keep_n (sqlite.image h.state.db) h.disk h₁ some_kept new put
      ∙ snapshot-read_at sqlite dest h took
