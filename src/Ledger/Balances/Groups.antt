-- ===== src/Ledger/Balances/Groups.antt =====
-- The groups of the trial balance: each fund with a line stands in them once, in ascending order, so
-- that the groups share out the lines.
use nonprofit_ledger.Prelude.{
  ℕ, ◌<◌, ◌≡◌, refl, sym, ap, subst, ◌∙◌, inl, inr, true, false, ◌||◌, eqb, eqb_iff, ltb, contains,
  Bool-cases, All, All-weaken, List, [], ◌∷◌, map, arith,
}
use nonprofit_ledger.Prelude.Int.{ℤ, pos, ◌+ℤ◌, ◌-ℤ◌, int_laws}
use nonprofit_ledger.Schema.{LineRow}
use nonprofit_ledger.Ledger.Entry.Lines.{line_of}
use nonprofit_ledger.Ledger.Totals.{net}
use nonprofit_ledger.Ledger.Balances.{of_fund, insert_group, groups}

-- Each number is below all that follow.
abbrev pub IsAscending : List ℕ → Type 0
IsAscending [] = Unit
IsAscending (n ∷ ns) = All (λ m. n < m) ns × IsAscending ns

All-insert_group :
    (k n : ℕ) (ns : List ℕ) → k < n → All (λ m. k < m) ns → All (λ m. k < m) (insert_group n ns)
All-insert_group k n [] h a = (h, tt)
All-insert_group k n (m ∷ ms) h a = ground (arith, All-insert_group k n ms h a.1)

insert_group-IsAscending : (n : ℕ) (ns : List ℕ) → IsAscending ns → IsAscending (insert_group n ns)
insert_group-IsAscending n [] h = (tt, tt)
insert_group-IsAscending n (m ∷ ms) h = elim (Bool-cases (ltb n m)) [
  | inl below ↦
      let lt : n < m = ground arith in
      rw below ((lt, All-weaken (λ k. m < k) (λ k. n < k) (λ k q. omega arith) ms h.0), h)
  | inr above ↦ rw above (elim (Bool-cases (eqb n m)) [
    | inl same ↦ rw same h
    | inr other ↦
        let gt : m < n = ground arith in
        rw other (All-insert_group m n ms gt h.0, insert_group-IsAscending n ms h.1)
  ])
]

pub contains-insert_group :
    (k n : ℕ) (ns : List ℕ) → contains k (insert_group n ns) ≡ (eqb k n || contains k ns)
contains-insert_group k n [] = refl
contains-insert_group k n (m ∷ ms) = ground (arith, contains-insert_group k n ms)

-- The groups are the funds of the lines.
pub contains-groups :
    (k : ℕ) (rows : List LineRow)
    → contains k (groups rows) ≡ contains k (map (λ (r : LineRow). r.fund_id) rows)
unfolding groups
contains-groups k [] = refl
contains-groups k (r ∷ rows) =
    contains-insert_group k r.fund_id (groups rows)
    ∙ ap (λ b. eqb k r.fund_id || b) (contains-groups k rows)

pub groups-IsAscending : (rows : List LineRow) → IsAscending (groups rows)
unfolding groups
groups-IsAscending [] = tt
groups-IsAscending (r ∷ rows) =
    insert_group-IsAscending r.fund_id (groups rows) (groups-IsAscending rows)

-- The sum over the groups of what is left in each.
abbrev pub net_of : List ℕ → List LineRow → ℤ
net_of [] rows = pos 0
net_of (f ∷ fs) rows = net (map line_of (of_fund f rows)) +ℤ net_of fs rows

abbrev amount : LineRow → ℤ
amount r = r.debit_amount -ℤ r.credit_amount

contains-above : (f : ℕ) (fs : List ℕ) → All (λ g. f < g) fs → contains f fs ≡ false
contains-above f [] h = refl
contains-above f (g ∷ fs) h = ground (arith, contains-above f fs h.1)

net_of-absent :
    (r : LineRow) (rows : List LineRow) (fs : List ℕ)
    → contains r.fund_id fs ≡ false
    → net_of fs (r ∷ rows) ≡ net_of fs rows
net_of-absent r rows [] h = refl
net_of-absent r rows (f ∷ fs) h = elim (Bool-cases (eqb r.fund_id f)) [
  | inl here ↦ absurd (ground arith)
  | inr other ↦
      rw other
        (ap (λ z. net (map line_of (of_fund f rows)) +ℤ z) (net_of-absent r rows fs (ground arith)))
]

net_of-present :
    (r : LineRow) (rows : List LineRow) (fs : List ℕ)
    → IsAscending fs
    → contains r.fund_id fs ≡ true
    → net_of fs (r ∷ rows) ≡ amount r +ℤ net_of fs rows
net_of-present r rows [] a h = cc
net_of-present r rows (f ∷ fs) a h = elim (Bool-cases (eqb r.fund_id f)) [
  | inl here ↦
      let missing : contains r.fund_id fs ≡ false =
        subst (λ n. contains n fs ≡ false) (sym ((eqb_iff r.fund_id f).0 here))
          (contains-above f fs a.0) in
      rw here (rw (net_of-absent r rows fs missing) (omega int_laws))
  | inr other ↦ rw other (rw (net_of-present r rows fs a.1 (ground arith)) (omega int_laws))
]

net_of-nil : (fs : List ℕ) → net_of fs [] ≡ pos 0
net_of-nil [] = refl
net_of-nil (f ∷ fs) = rw (net_of-nil fs) (omega int_laws)

-- Groups that hold every line's fund, each once, share out what is left in all lines.
net_of-eq-net :
    (fs : List ℕ) (rows : List LineRow)
    → IsAscending fs
    → All (λ (r : LineRow). contains r.fund_id fs ≡ true) rows
    → net_of fs rows ≡ net (map line_of rows)
net_of-eq-net fs [] a h = net_of-nil fs
net_of-eq-net fs (r ∷ rows) a h =
    net_of-present r rows fs a h.0 ∙ ap (λ z. amount r +ℤ z) (net_of-eq-net fs rows a h.1)

groups-cover :
    (rows : List LineRow) → All (λ (r : LineRow). contains r.fund_id (groups rows) ≡ true) rows
unfolding groups
groups-cover [] = tt
groups-cover (r ∷ rows) = (
  ground (arith, contains-insert_group r.fund_id r.fund_id (groups rows)),
  All-weaken (λ (q : LineRow). contains q.fund_id (groups rows) ≡ true) _
      (λ q h. ground (arith, contains-insert_group q.fund_id r.fund_id (groups rows))) rows
      (groups-cover rows),
)

pub net_of-groups : (rows : List LineRow) → net_of (groups rows) rows ≡ net (map line_of rows)
net_of-groups rows = net_of-eq-net (groups rows) rows (groups-IsAscending rows) (groups-cover rows)
