-- ===== src/Backup/Rotate.antt =====
-- What `Rotate` leaves in the directory of the snapshots, whether or not it gets to its end.
use nonprofit_ledger.Prelude.{
  ℕ, ⊤, suc, String, ◌≡◌, refl, sym, ◌∙◌, ap, ◌⊎◌, inl, inr, Bool, true, not, ◌&&◌, Bool-cases, ◌-◌,
  leb, any, select, length, List, [], ◌∷◌, map, ◌==◌, eq_iff, arith,
}
use nonprofit_ledger.Prelude.Sort.{sort, take, has}
use nonprofit_ledger.Prelude.Sort.Select.{sort-select}
use nonprofit_ledger.Exec.{Result, ok, err, file_error, is_due}
use nonprofit_ledger.Disk.{Entry, Disk, Host, ◌>>=◌, next_call, is_at, entry_of, remove}
use nonprofit_ledger.Backup.{snapshot_names, remove_all, to_delete}

module _ {A : Type 0} where
  select_id : (p : A → Bool) → ((x : A) → p x ≡ true) → (xs : List A) → select p xs ≡ xs
  select_id p h [] = refl
  select_id p h (x ∷ xs) = ground (arith, h x, select_id p h xs)

  select-select :
      (p q r : A → Bool)
      → ((x : A) → (q x && p x) ≡ r x)
      → (xs : List A) → select p (select q xs) ≡ select r xs
  select-select p q r h [] = refl
  select-select p q r h (x ∷ xs) = ground (arith, h x, select-select p q r h xs)

-- Whether an entry is one of the named ones of a directory.
abbrev pub is_among : String → List String → Entry → Bool
is_among dir names e = e.path.dir == dir && has e.path.name names

-- The disk without the named files of a directory.
abbrev pub without : String → List String → Disk → Disk
without dir names d = record d { entries = select (λ e. not (is_among dir names e)) d.entries }

abbrev pub less : String → String → Disk → Disk
less dir n d = record d {
  entries = select (λ e. not (is_at (record { dir = dir; name = n }) e)) d.entries;
}

pub remove-cases :
    (dir n : String) (h : Host)
    → (remove (record { dir = dir; name = n }) h ≡ (err file_error, next_call h))
      ⊎ (remove (record { dir = dir; name = n }) h
          ≡ (ok tt, record (next_call h) { disk = less dir n h.disk }))
unfolding remove
remove-cases dir n h = elim (Bool-cases (is_due h.state.faults)) [
  | inl due ↦ inl (rw due)
  | inr calm ↦ elim (Bool-cases (any (is_at (record { dir = dir; name = n })) h.disk.entries)) [
    | inl there ↦ inr (rw (calm, there))
    | inr missing ↦ inl (rw (calm, missing))
  ]
]

pub without_none : (dir : String) (d : Disk) → without dir [] d ≡ d
without_none dir d =
    ap (λ (m : List Entry). record d { entries = m })
      (select_id (λ (e : Entry). not (is_among dir [] e)) (λ e. ground arith) d.entries)

without_more :
    (dir n : String) (ns : List String) (d : Disk)
    → select
        (λ e. not (is_among dir ns e))
        (select (λ e. not (is_at (record { dir = dir; name = n }) e)) d.entries)
      ≡ select (λ e. not (is_among dir (n ∷ ns) e)) d.entries
without_more dir n ns d =
    select-select _ _ _ (λ e. ground (arith, eq_iff e.path.name n, eq_iff n e.path.name)) d.entries

-- A run of the loop deletes the first `count` of the names, which are all of them on success.
pub record IsRemoved (dir : String) (ns : List String) (before : Disk) (result : Result ⊤ × Host)
    : Type 0 where
  pub count : ℕ
  pub left : result.1.disk ≡ without dir (take count ns) before
  pub complete : result.0 ≡ ok tt → take count ns ≡ ns

pub remove_all-IsRemoved :
    (dir : String) (ns : List String) (h : Host) → IsRemoved dir ns h.disk (remove_all dir ns h)
unfolding remove_all ◌>>=◌
remove_all-IsRemoved dir [] h = record {
  count = 0;
  left = sym (without_none dir h.disk);
  complete = λ e. refl;
}
remove_all-IsRemoved dir (n ∷ ns) h = elim (remove-cases dir n h) [
  | inl failed ↦
      rw failed (record { count = 0; left = sym (without_none dir h.disk); complete = λ e. cc })
  | inr gone ↦
      let rest = remove_all-IsRemoved dir ns (record (next_call h) { disk = less dir n h.disk }) in
      rw gone (record {
        count = suc rest.count;
        left =
            rest.left
            ∙ ap (λ (m : List Entry). record h.disk { entries = m })
                (without_more dir n (take rest.count ns) h.disk);
        complete = λ e. ap (λ m. n ∷ m) (rest.complete e);
      })
]

-- The names of the snapshots in a directory, oldest first.
abbrev pub snapshots : String → Disk → List String
snapshots dir d =
    sort (snapshot_names (map entry_of (select (λ (e : Entry). e.path.dir == dir) d.entries)))

snapshot_names-without :
    (dir : String) (ns : List String) (es : List Entry)
    → snapshot_names (
        map entry_of
          (select (λ (e : Entry). e.path.dir == dir) (select (λ e. not (is_among dir ns e)) es)))
      ≡ select
          (λ n. not (has n ns))
          (snapshot_names (map entry_of (select (λ (e : Entry). e.path.dir == dir) es)))
unfolding snapshot_names
snapshot_names-without dir ns [] = refl
snapshot_names-without dir ns (e ∷ es) = ground (arith, snapshot_names-without dir ns es)

pub snapshots-without :
    (dir : String) (ns : List String) (d : Disk)
    → snapshots dir (without dir ns d) ≡ select (λ n. not (has n ns)) (snapshots dir d)
snapshots-without dir ns d =
    ap sort (snapshot_names-without dir ns d.entries)
    ∙ sort-select (λ n. not (has n ns))
        (snapshot_names (map entry_of (select (λ (e : Entry). e.path.dir == dir) d.entries)))

-- How many snapshots there are more than are to be kept.
abbrev pub surplus : String → ℕ → Disk → ℕ
surplus dir keep_n d = length (snapshots dir d) - keep_n

pub to_delete_lem :
    (keep_n : ℕ) (names : List String)
    → to_delete keep_n names ≡ take (length (sort names) - keep_n) (sort names)
unfolding to_delete
to_delete_lem keep_n names = elim (Bool-cases (leb (length (sort names)) keep_n)) [
  | inl few ↦
      let none_left : length (sort names) - keep_n ≡ 0 = ground arith in rw few (rw none_left refl)
  | inr many ↦ rw many refl
]
