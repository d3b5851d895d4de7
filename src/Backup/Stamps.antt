-- ===== src/Backup/Stamps.antt =====
-- The names of snapshots, in which the time of the snapshot is written, and the order of these times.
use Prim.Native.String
use nonprofit_ledger.Prelude.{
  ℕ, String, ◌≡◌, refl, sym, ◌∙◌, ap, Bool, true, false, inl, inr, Bool-cases, leb, ◌<◌, All,
  All-weaken, some, List, [], ◌∷◌, ◌++◌, ◌==◌, eq_iff, arith, false≢true,
}
use nonprofit_ledger.Prelude.Text.{codes, lex_le, lex_le_refl, text_le, text_le_refl, text_le_total}
use nonprofit_ledger.Prelude.Digits.{
  two_digits, four_digits, by_key, lex_le-two_digits, lex_le-four_digits, lex_le-append,
  codes-append,
}
use nonprofit_ledger.Prelude.Sort.{has}
use nonprofit_ledger.Exec.{Conn, Error, ok}
use nonprofit_ledger.Database.{Sqlite}
use nonprofit_ledger.Disk.{Host, read_at}
use nonprofit_ledger.Backup.{
  Clock, snapshot_prefix, snapshot_ext, is_snapshot, snapshot_path, run_scheduled,
}
use nonprofit_ledger.Backup.Newest.{names_in, run_scheduled-keeps}

-- A time in UTC, by its calendar date and its time of day.
pub record Time : Type 0 where
  pub year : ℕ
  pub month : ℕ
  pub day : ℕ
  pub hour : ℕ
  pub minute : ℕ
  pub second : ℕ

-- What snapshotTimeFormat, "20060102-150405", asks for, before what follows it: the parts of a day, and
-- the day itself before them.
abbrev clock_codes : Time → List ℕ → List ℕ
clock_codes t rest = two_digits t.hour (two_digits t.minute (two_digits t.second rest))

abbrev after_year : Time → List ℕ → List ℕ
after_year t rest = two_digits t.month (two_digits t.day (b'-' ∷ clock_codes t rest))

abbrev pub time_codes : Time → List ℕ → List ℕ
time_codes t rest = four_digits t.year (after_year t rest)

abbrev pub snapshot_codes : Time → List ℕ
snapshot_codes t = codes snapshot_prefix ++ time_codes t (codes snapshot_ext)

-- The order of the times.
abbrev clock_order : Time → Time → Bool
clock_order a b = by_key a.hour b.hour (by_key a.minute b.minute (leb a.second b.second))

abbrev pub is_not_after : Time → Time → Bool
is_not_after a b =
    by_key a.year b.year (by_key a.month b.month (by_key a.day b.day (clock_order a b)))

lex_le-same : (a b : ℕ) (rest : List ℕ) → lex_le (two_digits a rest) (two_digits b rest) ≡ leb a b
lex_le-same a b rest = lex_le-two_digits a b rest rest ∙ ground (arith, lex_le_refl rest)

lex_le-clock :
    (a b : Time) (rest : List ℕ)
    → lex_le (clock_codes a rest) (clock_codes b rest) ≡ clock_order a b
lex_le-clock a b rest =
    lex_le-two_digits a.hour b.hour (two_digits a.minute (two_digits a.second rest))
      (two_digits b.minute (two_digits b.second rest))
    ∙ ap (by_key a.hour b.hour) (
        lex_le-two_digits a.minute b.minute (two_digits a.second rest) (two_digits b.second rest)
        ∙ ap (by_key a.minute b.minute) (lex_le-same a.second b.second rest))

lex_le-time :
    (a b : Time) (rest : List ℕ) → lex_le (time_codes a rest) (time_codes b rest) ≡ is_not_after a b
lex_le-time a b rest =
    lex_le-four_digits a.year b.year (after_year a rest) (after_year b rest)
    ∙ ap (by_key a.year b.year) (
        lex_le-two_digits a.month b.month (two_digits a.day (b'-' ∷ clock_codes a rest))
          (two_digits b.day (b'-' ∷ clock_codes b rest))
        ∙ ap (by_key a.month b.month) (
            lex_le-two_digits a.day b.day (b'-' ∷ clock_codes a rest) (b'-' ∷ clock_codes b rest)
            ∙ ap (by_key a.day b.day) (lex_le-clock a b rest)))

-- Snapshots are sorted by their times.
text_le-snapshots :
    (a b : Time) (m n : String)
    → codes m ≡ snapshot_codes a
    → codes n ≡ snapshot_codes b
    → text_le m n ≡ is_not_after a b
unfolding text_le
text_le-snapshots a b m n p q =
    (λ i. lex_le (p i) (q i))
    ∙ lex_le-append (codes snapshot_prefix) (time_codes a (codes snapshot_ext))
        (time_codes b (codes snapshot_ext))
    ∙ lex_le-time a b (codes snapshot_ext)

-- A name in which a time before `now` is written.
pub record IsBefore (now : Time) (name : String) : Type 0 where
  pub time : Time
  pub written : codes name ≡ snapshot_codes time
  pub earlier : is_not_after now time ≡ false

snapshot_path-codes :
    (dir : String) (clock : Clock) (now : Time)
    → codes clock.stamp ≡ time_codes now []
    → codes (snapshot_path dir clock).name ≡ snapshot_codes now
snapshot_path-codes dir clock now h =
    codes-append snapshot_prefix (String.◌++◌ clock.stamp snapshot_ext)
    ∙ ap (λ m. codes snapshot_prefix ++ m)
        (codes-append clock.stamp snapshot_ext ∙ ap (λ m. m ++ codes snapshot_ext) h)

snapshot-named : (n : String) (t : Time) → codes n ≡ snapshot_codes t → is_snapshot n ≡ true
unfolding is_snapshot
snapshot-named n t h = rw h refl

module _ (now : Time) (n : String) (stamped : codes n ≡ snapshot_codes now) where
  not_before : (m : String) → IsBefore now m → text_le n m ≡ false
  not_before m b = text_le-snapshots now b.time n m stamped b.written ∙ b.earlier

  other_name : (m : String) → IsBefore now m → (m == n) ≡ false
  other_name m b = elim (Bool-cases (m == n)) [
    | inl same ↦
        absurd (
          false≢true (sym (not_before m b) ∙ ap (text_le n) ((eq_iff m n).0 same) ∙ text_le_refl n))
    | inr other ↦ other
  ]

  before-fresh : (ms : List String) → All (IsBefore now) ms → has n ms ≡ false
  before-fresh [] h = refl
  before-fresh (m ∷ ms) h = rw (other_name m h.0) (before-fresh ms h.1)

  before_le : (m : String) → IsBefore now m → text_le m n ≡ true
  before_le m b = elim (text_le_total m n) [
    | inl le ↦ le
    | inr ge ↦ absurd (false≢true (sym (not_before m b) ∙ ge))
  ]

-- A scheduled run that keeps at least one snapshot, at a time that is written in the name of its file
-- and is later than those in the names of the snapshots that are there, and which returns no error,
-- leaves in that file the image of the tables that it was called on: the rotation does not delete it.
pub run_scheduled_later :
    (conn : Conn) (text : Error → String) (sqlite : Sqlite) (dir : String) (keep_n : ℕ)
    (clock : Clock) (now : Time) (h : Host) {t : Host}
    → 0 < keep_n
    → codes clock.stamp ≡ time_codes now []
    → All (IsBefore now) (names_in dir h.disk.entries)
    → run_scheduled conn text sqlite dir keep_n clock h ≡ (ok tt, t)
    → read_at (snapshot_path dir clock) t.disk ≡ some (sqlite.image h.state.db)
run_scheduled_later conn text sqlite dir keep_n clock now h keeps stamp before e =
    let n = (snapshot_path dir clock).name in
    let stamped = snapshot_path-codes dir clock now stamp in
    run_scheduled-keeps conn text sqlite dir keep_n clock h keeps
      (record {
        named = snapshot-named n now stamped;
        fresh = before-fresh now n stamped (names_in dir h.disk.entries) before;
        latest =
            All-weaken (IsBefore now) (λ m. text_le m n ≡ true) (before_le now n stamped)
              (names_in dir h.disk.entries) before;
      })
      e
