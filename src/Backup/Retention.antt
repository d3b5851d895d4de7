-- ===== src/Backup/Retention.antt =====
-- Which snapshots `Rotate` keeps.
use nonprofit_ledger.Prelude.{
  ℕ, ⊤, String, ◌≡◌, refl, sym, ◌∙◌, ap, subst, inl, inr, true, Bool-cases, zero, suc, ◌≤◌, any,
  select, length, All, List, [], ◌∷◌, map, ◌==◌, arith,
}
use nonprofit_ledger.Prelude.Text.{text_le}
use nonprofit_ledger.Prelude.Sort.{take, drop, Nodup, sort-IsSorted}
use nonprofit_ledger.Prelude.Sort.Select.{select-take, take-le-drop, length-drop}
use nonprofit_ledger.Exec.{Result, ok, err, file_error, is_due}
use nonprofit_ledger.Disk.{Entry, Disk, Host, entry_of, next_call}
use nonprofit_ledger.Backup.{snapshot_names, remove_all, to_delete, rotate}
use nonprofit_ledger.Backup.Rotate.{
  IsRemoved, remove_all-IsRemoved, without, without_none, snapshots, snapshots-without, surplus,
  to_delete_lem,
}

take-take : (k m : ℕ) (xs : List String) → (n : ℕ) × (n ≤ m) × (take k (take m xs) ≡ take n xs)
take-take zero m xs = (0, omega arith, refl)
take-take (suc k) zero xs = (0, omega arith, refl)
take-take (suc k) (suc m) [] = (0, omega arith, refl)
take-take (suc k) (suc m) (x ∷ xs) =
    let (n, le, e) = take-take k m xs in (suc n, omega arith, ap (λ ys. x ∷ ys) e)

-- What a rotation leaves: the disk without the `count` oldest of the surplus, all of it on success.
pub record IsRotated (dir : String) (keep_n : ℕ) (before : Disk) (result : Result ⊤ × Host)
    : Type 0 where
  pub count : ℕ
  pub bounded : count ≤ surplus dir keep_n before
  pub left : result.1.disk ≡ without dir (take count (snapshots dir before)) before

module _ (dir : String) (keep_n : ℕ) (h : Host) where
  IsRotated-unread : (r : Result ⊤) → IsRotated dir keep_n h.disk (r, next_call h)
  IsRotated-unread r = record {
    count = 0;
    bounded = omega arith;
    left = sym (without_none dir h.disk);
  }

  names : List String
  names = snapshot_names (map entry_of (select (λ (e : Entry). e.path.dir == dir) h.disk.entries))

  removed-IsRotated :
      (result : Result ⊤ × Host)
      → IsRemoved dir (to_delete keep_n names) h.disk result
      → IsRotated dir keep_n h.disk result
  unfolding names
  removed-IsRotated result r =
      let (n, le, e) = take-take r.count (surplus dir keep_n h.disk) (snapshots dir h.disk) in
      record {
        count = n;
        bounded = le;
        left =
            r.left
            ∙ ap (λ (m : List String). without dir m h.disk)
                (ap (take r.count) (to_delete_lem keep_n names) ∙ e);
      }

  -- Whether or not `Rotate` succeeds, what it deletes is an initial part of the sorted names, at most
  -- as many as there are more than `keep_n`: the `keep_n` newest snapshots, and every file that is
  -- no snapshot or is in another directory, are left.
  pub rotate-IsRotated : IsRotated dir keep_n h.disk (rotate dir keep_n h)
  unfolding rotate names
  rotate-IsRotated = elim (Bool-cases (is_due h.state.faults)) [
    | inl due ↦ rw due (IsRotated-unread _)
    | inr calm ↦ elim (Bool-cases (any (λ f. f == dir) h.disk.folders)) [
      | inl there ↦
          rw (calm, there)
            (removed-IsRotated _ (remove_all-IsRemoved dir (to_delete keep_n names) (next_call h)))
      | inr missing ↦ rw (calm, missing) (IsRotated-unread _)
    ]
  ]

  -- What the directory holds once all the surplus is deleted.
  complete-keeps :
      Nodup (snapshots dir h.disk)
      → (d : Disk)
      → d ≡ without dir (take (surplus dir keep_n h.disk) (snapshots dir h.disk)) h.disk
      → snapshots dir d ≡ drop (surplus dir keep_n h.disk) (snapshots dir h.disk)
  complete-keeps unique d e =
      ap (snapshots dir) e
      ∙ snapshots-without dir (take (surplus dir keep_n h.disk) (snapshots dir h.disk)) h.disk
      ∙ select-take (surplus dir keep_n h.disk) (snapshots dir h.disk) unique

  rotate-deletes :
      {t : Host}
      → any (λ f. f == dir) h.disk.folders ≡ true
      → rotate dir keep_n h ≡ (ok tt, t)
      → t.disk ≡ without dir (take (surplus dir keep_n h.disk) (snapshots dir h.disk)) h.disk
  unfolding rotate names
  rotate-deletes {t} there e = elim (Bool-cases (is_due h.state.faults)) [
    | inl due ↦
        let e' : ◌≡◌ {A = Result ⊤ × Host} (err file_error, next_call h) (ok tt, t) = rw due at e in
        cc
    | inr calm ↦
        let e' : remove_all dir (to_delete keep_n names) (next_call h) ≡ (ok tt, t) =
          rw (calm, there) at e in
        let r = remove_all-IsRemoved dir (to_delete keep_n names) (next_call h) in
        ap (λ (p : Result ⊤ × Host). p.1.disk) (sym e')
        ∙ r.left
        ∙ ap (λ (m : List String). without dir m h.disk)
            (r.complete (ap (λ (p : Result ⊤ × Host). p.0) e') ∙ to_delete_lem keep_n names)
  ]

  -- When `Rotate` returns without an error, on a directory that is there and whose names differ, the
  -- snapshots that are left are the last `keep_n` of the sorted names, or all of them if there were
  -- no more; every deleted name comes before every kept one; and files that are no snapshot or are
  -- in another directory stay.
  pub rotate_retains :
      {t : Host}
      → any (λ f. f == dir) h.disk.folders ≡ true
      → Nodup (snapshots dir h.disk)
      → rotate dir keep_n h ≡ (ok tt, t)
      → (snapshots dir t.disk ≡ drop (surplus dir keep_n h.disk) (snapshots dir h.disk))
        × (length (snapshots dir t.disk) ≤ keep_n)
        × All
            (λ a. All (λ b. text_le a b ≡ true) (snapshots dir t.disk))
            (take (surplus dir keep_n h.disk) (snapshots dir h.disk))
        × (t.disk ≡ without dir (take (surplus dir keep_n h.disk) (snapshots dir h.disk)) h.disk)
  rotate_retains {t} there unique e =
      let left = rotate-deletes {t = t} there e in
      let kept = complete-keeps unique t.disk left in
      let m = surplus dir keep_n h.disk in
      let before = snapshots dir h.disk in
      let counted = length-drop m before in
      (
        kept,
        rw kept (omega arith),
        subst (λ ks. All (λ a. All (λ b. text_le a b ≡ true) ks) (take m before)) (sym kept)
            (take-le-drop m before (sort-IsSorted _)),
        left,
      )
