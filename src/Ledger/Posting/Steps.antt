-- ===== src/Ledger/Posting/Steps.antt =====
-- What each step of a posting has found or written when it returns.
use nonprofit_ledger.Prelude.{ℕ, String, ◌≡◌, false, All, some, List, [], ◌∷◌, arith}
use nonprofit_ledger.Schema.{Db}
use nonprofit_ledger.Exec.{Exec, tick, State, ok, ◌>>=◌, category_required}
use nonprofit_ledger.Exec.Inversion.{raise_if_then}
use nonprofit_ledger.Ledger.Entry.{NewLine}
use nonprofit_ledger.Ledger.Posting.{account_type, lookup_account_type, lacks_category, check_lines}

-- The account of a line exists, and an expense carries a category.
abbrev pub IsClassified : Db → NewLine → Type 0
IsClassified db l =
    (type : String) × (account_type l.account_id db ≡ some type)
    × (lacks_category type l.functional_category ≡ false)

lookup_account_type_then :
    {A : Type 0} (account_id : ℕ) (k : String → Exec A) (s : State) {a : A} {t : State}
    → (lookup_account_type account_id >>= k) s ≡ (ok a, t)
    → (type : String) × (account_type account_id s.db ≡ some type) × (k type (tick s) ≡ (ok a, t))
unfolding lookup_account_type
lookup_account_type_then account_id k s h = ground arith

pub check_lines-eq-ok :
    (lines : List NewLine) (s : State) {t : State}
    → check_lines lines s ≡ (ok tt, t)
    → All (IsClassified s.db) lines × (t.db ≡ s.db)
unfolding check_lines
check_lines-eq-ok [] s h = (tt, cc)
check_lines-eq-ok (l ∷ ls) s h =
    let (type, hit, h₁) = lookup_account_type_then l.account_id _ s h in
    let (has, h₂) =
      raise_if_then (lacks_category type l.functional_category) (category_required l.account_id) _
        (tick s) h₁ in
    let (others, same) = check_lines-eq-ok ls (tick s) h₂ in (((type, hit, has), others), same)
