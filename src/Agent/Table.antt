-- ===== src/Agent/Table.antt =====
-- src/agent/storage_agent.cc and storage_agent.h: the agent's state, its table of open files, and
-- the ends of Start and Stop.
pub mod Laws
use flume_ascend_host_bypass.Prelude.{ℕ, Option, none, some, List, [], ◌∷◌, ◌==◌, if◌then◌else◌}
use flume_ascend_host_bypass.Storage.PosixFile.{OpenedFile, Descriptors, close}

-- The std::map of the open files, newest first: a key that is there is never entered again.
abbrev pub Files : Type 0
Files = List (ℕ × OpenedFile)

unfoldable pub find : ℕ → Files → Option OpenedFile
find id [] = none
find id ((key, file) ∷ files) = if key == id then some file else find id files

unfoldable pub erase : ℕ → Files → Files
erase id [] = []
erase id ((key, file) ∷ files) = if key == id then files else (key, file) ∷ erase id files

pub record Agent : Type 0 where
  pub root : List ℕ
  pub next_file_id : ℕ
  pub files : Files
  pub descriptors : Descriptors

unfoldable pub start : List ℕ → Agent
start root = record {
  root = root;
  next_file_id = 1;
  files = [];
  descriptors = record { obtained = []; closed = [] };
}

-- std::map::emplace: a key that is there keeps its value.
unfoldable pub emplace : ℕ → OpenedFile → Files → Files
unfolding find
emplace id file files = elim (find id files) [ none ↦ (id, file) ∷ files | some _ ↦ files ]

unfoldable pub close_file : ℕ → Agent → Agent
unfolding find erase
close_file id agent = elim (find id agent.files) [
  | none ↦ agent
  | some file ↦ record agent {
    files = erase id agent.files;
    descriptors = close file.fd agent.descriptors;
  }
]

unfoldable pub close_all : Files → Descriptors → Descriptors
unfolding close
close_all [] d = d
close_all ((id, file) ∷ files) d = close_all files (close file.fd d)

-- The end of Stop, when every client's thread has ended.
unfoldable pub stop : Agent → Agent
unfolding close_all
stop agent = record agent { files = []; descriptors = close_all agent.files agent.descriptors }
