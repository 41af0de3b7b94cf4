-- ===== src/Agent/Samples.antt =====
-- An agent that has one file open under the id 1, and a request for three bytes of it.
use flume_ascend_host_bypass.Prelude.{[], ◌∷◌, arith}
use flume_ascend_host_bypass.Storage.PosixFile.{OpenedFile}
use flume_ascend_host_bypass.Storage.Samples.{root, name}
use flume_ascend_host_bypass.Agent.Table.{Agent}
use flume_ascend_host_bypass.Agent.Replies.{IsReadReq}
use flume_ascend_host_bypass.Agent.{ReadReq}

abbrev pub file : OpenedFile
file = record { fd = 5; size = 6; path = name }

abbrev pub agent : Agent
agent = record {
  root = root;
  next_file_id = 2;
  files = (1, file) ∷ [];
  descriptors = record { obtained = 5 ∷ []; closed = [] };
}

abbrev pub req : ReadReq
req = record { file_id = 1; offset = 2; size = 3 }

pub req-IsReadReq : IsReadReq req
req-IsReadReq = record { id_fits = omega arith; offset_fits = omega arith; size_fits = omega arith }
