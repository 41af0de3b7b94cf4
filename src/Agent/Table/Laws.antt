-- ===== src/Agent/Table/Laws.antt =====
-- The table of open files and the descriptors of the process.
use flume_ascend_host_bypass.Prelude.{
  ℕ, ◌+◌, ◌≤◌, ◌<◌, ◌≡◌, refl, ◌≢◌, none, some, List, [], ◌∷◌, arith, ◌==◌, if◌then◌else◌,
}
use flume_ascend_host_bypass.Storage.PosixFile.{OpenedFile, Descriptors}
use flume_ascend_host_bypass.Storage.PosixFile.Balance.{count}
use flume_ascend_host_bypass.Agent.Table.{Files, find, erase, emplace}

abbrev pub fds : Files → List ℕ
fds [] = []
fds ((id, file) ∷ files) = file.fd ∷ fds files

-- Each descriptor has been obtained as often as it has been closed and stands in the table.
abbrev pub IsBalanced : Descriptors → Files → Type 0
IsBalanced d files = (x : ℕ) → count x d.obtained ≡ count x d.closed + count x (fds files)

-- The ids of the table are distinct and below the bound.
abbrev pub Below : ℕ → Files → Type 0
Below n [] = Unit {0}
Below n ((id, file) ∷ files) = (id < n) × (find id files ≡ none) × Below n files

pub Below-mono : (m n : ℕ) (files : Files) → m ≤ n → Below m files → Below n files
Below-mono m n [] h b = tt
Below-mono m n ((id, file) ∷ files) h (l, f, b) = (omega arith, f, Below-mono m n files h b)

pub find_above : (n id : ℕ) (files : Files) → Below n files → n ≤ id → find id files ≡ none
unfolding find
find_above n id [] b h = refl
find_above n id ((key, file) ∷ files) (l, f, b) h = ground (arith, find_above n id files b)

find-erase :
    (id other : ℕ) (files : Files) → find other files ≡ none → find other (erase id files) ≡ none
unfolding find erase
find-erase id other [] h = refl
find-erase id other ((key, file) ∷ files) h = ground (arith, find-erase id other files)

pub erase-Below : (n id : ℕ) (files : Files) → Below n files → Below n (erase id files)
unfolding erase
erase-Below n id [] b = tt
erase-Below n id ((key, file) ∷ files) (l, f, b) =
    ground (arith, erase-Below n id files b, find-erase id key files f)

-- After a close the id is unknown, and every other id is what it was.
pub find-erase_self : (n id : ℕ) (files : Files) → Below n files → find id (erase id files) ≡ none
unfolding find erase
find-erase_self n id [] b = refl
find-erase_self n id ((key, file) ∷ files) (l, f, b) = ground (arith, find-erase_self n id files b)

pub find-erase_ne :
    (id other : ℕ) (files : Files) → id ≢ other → find other (erase id files) ≡ find other files
unfolding find erase
find-erase_ne id other [] h = refl
find-erase_ne id other ((key, file) ∷ files) h = ground (arith, find-erase_ne id other files h)

pub count-erase :
    (x id : ℕ) (files : Files) (file : OpenedFile)
    → find id files ≡ some file
    → count x (fds files) ≡ (if x == file.fd then 1 else 0) + count x (fds (erase id files))
unfolding find erase
count-erase x id [] file h = cc
count-erase x id ((key, f) ∷ files) file h = ground (arith, count-erase x id files file)

pub emplace_new :
    (id : ℕ) (file : OpenedFile) (files : Files)
    → find id files ≡ none
    → emplace id file files ≡ (id, file) ∷ files
unfolding emplace
emplace_new id file files e = rw (e, emplace)
