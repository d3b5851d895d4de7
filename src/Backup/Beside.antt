-- ===== src/Backup/Beside.antt =====
-- Paths beside a path, and paths that differ: for the files of a database, and for os.Create.
use Prim.Native.String
use nonprofit_ledger.Prelude.{
  String, ◌≡◌, refl, ◌∙◌, ap, true, false, length, eq_iff, List, [], ◌∷◌, ◌++◌, ◌==◌, ◌&&◌, ◌+◌,
  any, arith, length-append, Bool-cases, inl, inr, ltb,
}
use nonprofit_ledger.Prelude.Text.{codes}
use nonprofit_ledger.Prelude.Digits.{codes-append}
use nonprofit_ledger.Disk.{FilePath, Disk, text_of, is_dir_at, with_folder}

-- Paths that differ.
abbrev pub Apart : FilePath → FilePath → Type 0
Apart p q = ((p.dir == q.dir && p.name == q.name) ≡ false)

-- SQLite keeps its logs beside the file of a database.
abbrev pub beside : FilePath → String → FilePath
beside p suffix = record p { name = String.◌++◌ p.name suffix }

length_codes-append :
    (s t : String) → length (codes (String.◌++◌ s t)) ≡ length (codes s) + length (codes t)
length_codes-append s t = ap length (codes-append s t) ∙ length-append (codes s) (codes t)

-- A text is not followed by more of itself.
pub append-differs :
    (s t : String) → ltb 0 (length (codes t)) ≡ true → (s == String.◌++◌ s t) ≡ false
append-differs s t longer = elim (Bool-cases (s == String.◌++◌ s t)) [
  | inl same ↦
      let both =
        ap (λ x. length (codes x)) ((eq_iff s (String.◌++◌ s t)).0 same)
        ∙ length_codes-append s t in
      absurd (ground arith)
  | inr differs ↦ differs
]

pub beside-Apart :
    (p : FilePath) (suffix : String)
    → ltb 0 (length (codes suffix)) ≡ true
    → Apart (beside p suffix) p
beside-Apart p suffix longer = ground (
  arith,
  append-differs p.name suffix longer,
  eq_iff p.name (String.◌++◌ p.name suffix),
  eq_iff (String.◌++◌ p.name suffix) p.name,
)

text_of-differs : (p : FilePath) → (p.dir == text_of p) ≡ false
text_of-differs p =
    let longer : ltb 0 (length (codes (String.◌++◌ "/" p.name))) ≡ true =
      ground (arith, length_codes-append "/" p.name) in
    append-differs p.dir (String.◌++◌ "/" p.name) longer

any_folder-append :
    (q : String) (dir : String) (fs : List String)
    → (dir == q) ≡ false
    → any (λ f. f == q) (fs ++ dir ∷ []) ≡ any (λ f. f == q) fs
any_folder-append q dir [] h = rw h refl
any_folder-append q dir (f ∷ fs) h = ground (arith, any_folder-append q dir fs h)

-- To make the directory of a path does not make one at the path.
pub is_dir_at-with_folder :
    (p : FilePath) (d : Disk) → is_dir_at p (with_folder p.dir d) ≡ is_dir_at p d
is_dir_at-with_folder p d =
    ground (arith, any_folder-append (text_of p) p.dir d.folders (text_of-differs p))
