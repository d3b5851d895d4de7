-- ===== src/Disk.antt =====
-- What the program uses of the packages os, io and path/filepath: directories and the files in them.
-- A path is the text of a clean directory and a name in it, and so `filepath.Dir` and `filepath.Join`
-- take it apart and put it together. Each call may fail, as the list of faults says.
use Prim.Native.String
use nonprofit_ledger.Prelude.{
  ℕ, ⊤, String, Bool, true, false, ◌&&◌, ◌||◌, not, any, find, select, length, if◌then◌else◌,
  Option, none, some, List, [], ◌∷◌, ◌++◌, ◌==◌, map,
}
use nonprofit_ledger.Schema.{Db}
use nonprofit_ledger.Exec.{State, Exec, Result, ok, err, Error, file_error, is_due, tick}

pub record FilePath : Type 0 where
  pub dir : String
  pub name : String

-- `filepath.Join(dir, name)`
abbrev pub text_of : FilePath → String
text_of p = String.◌++◌ p.dir (String.◌++◌ "/" p.name)

pub data Node : Type 0 where
  folder : Node
  file : List ℕ → Node

pub record Entry : Type 0 where
  pub path : FilePath
  pub node : Node

-- The directories that there are, and what is in them.
pub record Disk : Type 0 where
  pub folders : List String
  pub entries : List Entry

-- The database that is open, and the disk.
pub record Host : Type 0 where
  pub state : State
  pub disk : Disk

-- A host on which no call is to fail.
abbrev pub quiet : Db → Disk → Host
quiet db disk = record { state = record { db = db; faults = [] }; disk = disk }

abbrev pub Sys : Type 0 → Type 0
Sys A = Host → Result A × Host

module _ {A : Type 0} where
  abbrev pub pure : A → Sys A
  pure a h = (ok a, h)

  abbrev pub raise : Error → Sys A
  raise e h = (err e, h)

  -- A call on the database.
  abbrev pub on_db : Exec A → Sys A
  on_db m h = let (r, s) = m h.state in (r, record h { state = s })

module _ {A B : Type 0} where
  abbrev pub resume : Result A → (A → Sys B) → Sys B
  resume (ok a) f h = f a h
  resume (err e) f h = (err e, h)

infixl 5 ◌>>=◌ ◌>>◌
unfoldable pub ◌>>=◌ : {A B : Type 0} → Sys A → (A → Sys B) → Sys B
◌>>=◌ m f h = let (r, h') = m h in resume r f h'

abbrev pub ◌>>◌ : {A B : Type 0} → Sys A → Sys B → Sys B
m >> k = m >>= λ _. k

abbrev pub next_call : Host → Host
next_call h = record h { state = tick h.state }

module _ {A : Type 0} where
  abbrev pub conclude : Option (A × Disk) → Sys A
  conclude none h = (err file_error, h)
  conclude (some (a, disk)) h = (ok a, record h { disk = disk })

  abbrev pub attempt_os : Bool → (Disk → Option (A × Disk)) → Sys A
  attempt_os true f h = (err file_error, h)
  attempt_os false f h = conclude (f h.disk) h

  -- One call of the operating system; a failed one leaves the disk alone.
  unfoldable pub os_call : (Disk → Option (A × Disk)) → Sys A
  os_call f h = attempt_os (is_due h.state.faults) f (next_call h)

-- Whether an entry stands at a path.
abbrev pub is_at : FilePath → Entry → Bool
is_at p e = e.path.dir == p.dir && e.path.name == p.name

abbrev pub is_folder : Node → Bool
is_folder folder = true
is_folder (file bytes) = false

abbrev pub bytes_of : Option Entry → Option (List ℕ)
bytes_of none = none
bytes_of (some e) = elim e.node [ folder ↦ none | file bytes ↦ some bytes ]

abbrev pub read_at : FilePath → Disk → Option (List ℕ)
read_at p d = bytes_of (find (is_at p) d.entries)

-- Whether a directory is known to stand at a path.
abbrev pub is_dir_at : FilePath → Disk → Bool
is_dir_at p d =
    any (λ e. is_at p e && is_folder e.node) d.entries || any (λ f. f == text_of p) d.folders

-- The file at a path is replaced, or added.
abbrev pub put_file : FilePath → List ℕ → Disk → Disk
put_file p bytes d = record d {
  entries = select (λ e. not (is_at p e)) d.entries ++ record { path = p; node = file bytes } ∷ [];
}

abbrev pub with_folder : String → Disk → Disk
with_folder dir d =
    if any (λ f. f == dir) d.folders then d else record d { folders = d.folders ++ dir ∷ [] }

-- `os.MkdirAll`
unfoldable pub mkdir_all : String → Sys ⊤
unfolding os_call
mkdir_all dir = os_call (λ d. some (tt, with_folder dir d))

abbrev pub removed : FilePath → Disk → Option (⊤ × Disk)
removed p d =
    if any (is_at p) d.entries
    then some (tt, record d { entries = select (λ e. not (is_at p e)) d.entries })
    else none

-- `os.Remove`, of a file
unfoldable pub remove : FilePath → Sys ⊤
unfolding os_call
remove p = os_call (removed p)

pub record DirEntry : Type 0 where
  pub name : String
  pub is_dir : Bool

-- What `os.ReadDir` finds.
pub data Listing : Type 0 where
  no_such_dir unreadable : Listing
  listed : List DirEntry → Listing

abbrev pub entry_of : Entry → DirEntry
entry_of e = record { name = e.path.name; is_dir = is_folder e.node }

abbrev pub listing_of : String → Disk → Listing
listing_of dir d =
    if any (λ f. f == dir) d.folders
    then listed (map entry_of (select (λ (e : Entry). e.path.dir == dir) d.entries))
    else no_such_dir

abbrev pub listing_if : Bool → String → Disk → Listing
listing_if true dir d = unreadable
listing_if false dir d = listing_of dir d

-- `os.ReadDir`, which reads only; those who call it do not use the order of the entries.
unfoldable pub read_dir : String → Host → Listing × Host
read_dir dir h = (listing_if (is_due h.state.faults) dir h.disk, next_call h)

-- `os.Stat(path).Size()`, where an error is `none`.
abbrev pub size_at : FilePath → Disk → Option ℕ
size_at p d = elim (read_at p d) [ none ↦ none | some bytes ↦ some (length bytes) ]

abbrev pub size_if : Bool → FilePath → Disk → Option ℕ
size_if true p d = none
size_if false p d = size_at p d

unfoldable pub stat_size : FilePath → Host → Option ℕ × Host
stat_size p h = (size_if (is_due h.state.faults) p h.disk, next_call h)

abbrev pub opened : FilePath → Disk → Option (⊤ × Disk)
opened p d =
    if is_dir_at p d
    then some (tt, d)
    else elim (read_at p d) [ none ↦ none | some bytes ↦ some (tt, d) ]

-- `os.Open`, of a file or a directory
unfoldable pub open_file : FilePath → Sys ⊤
unfolding os_call
open_file p = os_call (opened p)

abbrev pub emptied : FilePath → Disk → Option (⊤ × Disk)
emptied p d = if is_dir_at p d then none else some (tt, put_file p [] d)

-- `os.Create`, which empties the file if it is there, and fails on a directory
unfoldable pub create : FilePath → Sys ⊤
unfolding os_call
create p = os_call (emptied p)

abbrev pub copied : FilePath → FilePath → Disk → Option (⊤ × Disk)
copied src dst d = elim (read_at src d) [
  | none ↦ none
  | some bytes ↦ some (tt, put_file dst bytes d)
]

-- `io.Copy`, of what the source holds by then; of a directory nothing can be read
unfoldable pub copy : FilePath → FilePath → Sys ⊤
unfolding os_call
copy src dst = os_call (copied src dst)

-- `Close`
unfoldable pub close : Sys ⊤
unfolding os_call
close = os_call (λ d. some (tt, d))
