-- ===== src/Ledger/Posting/Dates.antt =====
-- What the comparison of dates as texts, in PostJournalEntry, says of the dates themselves.
use nonprofit_ledger.Prelude.{ℕ, String, ◌≡◌, ◌∙◌, ap, Bool, leb, some, List, [], ◌∷◌, arith}
use nonprofit_ledger.Prelude.Text.{codes, lex_le, text_le}
use nonprofit_ledger.Prelude.Digits.{
  two_digits, four_digits, by_key, lex_le-two_digits, lex_le-four_digits,
}
use nonprofit_ledger.Ledger.Posting.{is_locked}

pub record Date : Type 0 where
  pub year : ℕ
  pub month : ℕ
  pub day : ℕ

-- The order of the calendar.
abbrev pub is_on_or_before : Date → Date → Bool
is_on_or_before a b = by_key a.year b.year (by_key a.month b.month (leb a.day b.day))

-- What is after the year, in YYYY-MM-DD, and what is after the month.
abbrev after_month : Date → List ℕ
after_month d = b'-' ∷ two_digits d.day []

abbrev after_year : Date → List ℕ
after_year d = b'-' ∷ two_digits d.month (after_month d)

-- YYYY-MM-DD
abbrev pub date_codes : Date → List ℕ
date_codes d = four_digits d.year (after_year d)

lex_le-last : (a b : ℕ) → lex_le (two_digits a []) (two_digits b []) ≡ leb a b
lex_le-last a b = ground arith

-- For dates that are written as YYYY-MM-DD, the lock check compares the dates by the calendar: an entry
-- counts as locked exactly when its date is on or before the locked-through date.
pub is_locked-dates :
    (a b : Date) (entry_date locked_through : String)
    → codes entry_date ≡ date_codes a
    → codes locked_through ≡ date_codes b
    → is_locked entry_date (some locked_through) ≡ is_on_or_before a b
unfolding text_le
is_locked-dates a b entry_date locked_through written locked =
    rw (written, locked)
      (lex_le-four_digits a.year b.year (after_year a) (after_year b)
        ∙ ap (by_key a.year b.year) (
            lex_le-two_digits a.month b.month (after_month a) (after_month b)
            ∙ ap (by_key a.month b.month) (lex_le-last a.day b.day)))
