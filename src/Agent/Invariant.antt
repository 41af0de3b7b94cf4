-- ===== src/Agent/Invariant.antt =====
-- The invariant of the agent: the ids of open files are fresh, and no descriptor is lost or closed
-- twice, over every request.
use flume_ascend_host_bypass.Prelude.{
  ℕ, ◌+◌, ◌-◌, ◌%◌, ◌^◌, ◌<◌, ◌≡◌, refl, ap, inl, inr, Option, none, some, List, [], ◌∷◌, ◌++◌,
  arith, ◌==◌, if◌then◌else◌, Option-cases,
}
use flume_ascend_host_bypass.Protocol.Frame.{Frame}
use flume_ascend_host_bypass.Storage.System.{System, Descriptor, handle, errno}
use flume_ascend_host_bypass.Storage.PosixFile.{
  OpenedFile, Descriptors, obtain, close, Result, ok, err, Read, bytes, fails, waiting, open_file,
  read,
}
use flume_ascend_host_bypass.Storage.PosixFile.Balance.{count, taken, open_file_balance}
use flume_ascend_host_bypass.Prelude.Text.{codes}
use flume_ascend_host_bypass.Prelude.{Bool-cases, ltb}
use flume_ascend_host_bypass.Agent.{
  ReadReq, parse_open, parse_read, parse_close, read_status, err_io, err_remote,
  max_read_payload_size, Answer, opened, handle_open, read_copy, read_file, handle_read,
  handle_close, handle_request, handle_hello, close_copy, read_done,
}
use flume_ascend_host_bypass.Agent.Table.{Agent, Files, find, close_file, start, stop, close_all}
use flume_ascend_host_bypass.Agent.Table.Laws.{
  fds, IsBalanced, Below, Below-mono, find_above, erase-Below, find-erase_self, find-erase_ne,
  count-erase, emplace_new,
}

pub record Inv (a : Agent) : Type 0 where
  pub fresh : Below a.next_file_id a.files
  pub balanced : IsBalanced a.descriptors a.files

opened-Inv :
    (sys : System) (request_id : ℕ) (a : Agent) (r : Result OpenedFile × Descriptors)
    → a.next_file_id < 2 ^ 64 - 1
    → ((x : ℕ)
        → count x r.1.obtained + count x a.descriptors.closed
          ≡ count x a.descriptors.obtained + count x r.1.closed + taken x r.0)
    → Inv a
    → Inv (opened sys request_id a r).1
unfolding opened
opened-Inv sys request_id a (ok file, d) h b v =
    let none_yet = find_above a.next_file_id a.next_file_id a.files v.fresh (omega arith) in
    let next : (a.next_file_id + 1) % 2 ^ 64 ≡ a.next_file_id + 1 = omega arith in
    rw (emplace_new a.next_file_id file a.files none_yet, next)
      (record {
        fresh = (
          omega arith,
          none_yet,
          Below-mono a.next_file_id (a.next_file_id + 1) a.files (omega arith) v.fresh,
        );
        balanced = λ x. omega (arith, b x, v.balanced x);
      })
opened-Inv sys request_id a (err e, d) h b v = record {
  fresh = v.fresh;
  balanced = λ x. omega (arith, b x, v.balanced x);
}

handle_open-Inv :
    (sys : System) (request : Frame) (a : Agent)
    → a.next_file_id < 2 ^ 64 - 1
    → Inv a
    → Inv (handle_open sys request a).1
unfolding handle_open
handle_open-Inv sys request a h v = elim (Option-cases (parse_open request.body)) [
  | inl e ↦ rw (e, handle_open) v
  | inr (path, e) ↦
      rw (e, handle_open)
        (opened-Inv sys request.request_id a (open_file sys a.root path a.descriptors) h
          (open_file_balance sys a.root path a.descriptors) v)
]

-- The copy of a descriptor that a read makes is closed again, unless the read has not returned.
read_copy-Inv :
    (sys : System) (request_id : ℕ) (req : ReadReq) (copy : ℕ) (a : Agent) {reply : Frame}
    → Inv a
    → (read_copy sys request_id req copy a).0 ≡ some reply
    → Inv (read_copy sys request_id req copy a).1
unfolding read_copy obtain close
read_copy-Inv sys request_id req copy a v h = done (read sys req.offset req.size) h
  where
    done :
        (r : Read) {reply : Frame}
        → let o : Agent = record a { descriptors = obtain copy a.descriptors } in
          (read_done sys request_id (close_copy copy r o) r).0 ≡ some reply
          → Inv (read_done sys request_id (close_copy copy r o) r).1
    done (bytes payload) h = record { fresh = v.fresh; balanced = λ x. omega (arith, v.balanced x) }
    done (fails e) h = record { fresh = v.fresh; balanced = λ x. omega (arith, v.balanced x) }
    done waiting h = cc

read_file-Inv :
    (sys : System) (request_id : ℕ) (req : ReadReq) (a : Agent) {reply : Frame}
    → Inv a
    → (read_file sys request_id req a).0 ≡ some reply
    → Inv (read_file sys request_id req a).1
unfolding read_file
read_file-Inv sys request_id req a v h = go (find req.file_id a.files) h
  where
    copied :
        (d : Descriptor) {reply : Frame}
        → let r : Answer = elim d [
          | errno e ↦
              (some (read_status request_id err_io (codes "dup failed: " ++ sys.strerror e)), a)
          | handle copy ↦ read_copy sys request_id req copy a
        ] in
          r.0 ≡ some reply → Inv r.1
    copied (errno e) h = v
    copied (handle copy) h = read_copy-Inv sys request_id req copy a v h

    go :
        (f : Option OpenedFile) {reply : Frame}
        → let r : Answer = elim f [
          | none ↦ (some (read_status request_id err_remote (codes "unknown file id")), a)
          | some file ↦ elim (sys.dup file.fd) [
            | errno e ↦
                (some (read_status request_id err_io (codes "dup failed: " ++ sys.strerror e)), a)
            | handle copy ↦ read_copy sys request_id req copy a
          ]
        ] in
          r.0 ≡ some reply → Inv r.1
    go none h = v
    go (some file) h = copied (sys.dup file.fd) h

handle_read-Inv :
    (sys : System) (request : Frame) (a : Agent) {reply : Frame}
    → Inv a
    → (handle_read sys request a).0 ≡ some reply
    → Inv (handle_read sys request a).1
unfolding handle_read
handle_read-Inv sys request a v h = elim (Option-cases (parse_read request.body)) [
  | inl e ↦ rw (e, handle_read) v
  | inr (req, e) ↦ elim (Bool-cases (ltb max_read_payload_size req.size)) [
    | inl big ↦ rw (e, big, handle_read) v
    | inr fits ↦
        rw (e, fits, handle_read)
          (read_file-Inv sys request.request_id req a v (rw (e, fits, handle_read) at h))
  ]
]

close_file-Inv : (id : ℕ) (a : Agent) → Inv a → Inv (close_file id a)
unfolding close_file close
close_file-Inv id a v = elim (Option-cases (find id a.files)) [
  | inl e ↦ rw (e, close_file) v
  | inr (file, e) ↦
      rw (e, close_file)
        (record {
          fresh = erase-Below a.next_file_id id a.files v.fresh;
          balanced = λ x. omega (arith, v.balanced x, count-erase x id a.files file e);
        })
]

handle_close-Inv : (request : Frame) (a : Agent) → Inv a → Inv (handle_close request a).1
unfolding handle_close
handle_close-Inv request a v = elim (Option-cases (parse_close request.body)) [
  | inl e ↦ rw (e, handle_close) v
  | inr (id, e) ↦ rw (e, handle_close) (close_file-Inv id a v)
]

-- A request that is answered keeps the agent's invariant, as long as the next file id is below 2 ^
-- 64 - 1.
pub handle_request-Inv :
    (sys : System) (request : Frame) (a : Agent) {reply : Frame}
    → a.next_file_id < 2 ^ 64 - 1
    → Inv a
    → (handle_request sys request a).0 ≡ some reply
    → Inv (handle_request sys request a).1
unfolding handle_request handle_hello
handle_request-Inv sys request a {reply} n v h = ground (
  arith,
  handle_open-Inv sys request a n v,
  handle_read-Inv sys request a {reply = reply} v,
  handle_close-Inv request a v,
)

start-Inv : (root : List ℕ) → Inv (start root)
unfolding start
start-Inv root = record { fresh = tt; balanced = λ x. omega arith }

close_all_balance :
    (x : ℕ) (files : Files) (d : Descriptors)
    → (count x (close_all files d).closed ≡ count x d.closed + count x (fds files))
      × ((close_all files d).obtained ≡ d.obtained)
unfolding close_all close
close_all_balance x [] d = (omega arith, refl)
close_all_balance x ((id, file) ∷ files) d =
    let (c, o) = close_all_balance x files (close file.fd d) in (omega (arith, c), o)

-- When an agent with the invariant has stopped, every descriptor has been closed exactly as often
-- as it was obtained.
pub stop_balanced :
    (a : Agent) (x : ℕ)
    → Inv a
    → count x (stop a).descriptors.obtained ≡ count x (stop a).descriptors.closed
unfolding stop
stop_balanced a x v =
    let (c, o) = close_all_balance x a.files a.descriptors in
    omega (arith, v.balanced x, c, ap (count x) o)

-- On an agent with the invariant, a successful open enters the file under the next file id, and the
-- files under all other ids stay as they are.
opened-find :
    (sys : System) (request_id : ℕ) (a : Agent) (file : OpenedFile) (d : Descriptors) (other : ℕ)
    → Inv a
    → let r = opened sys request_id a (ok file, d) in
      find other r.1.files ≡ (if a.next_file_id == other then some file else find other a.files)
unfolding opened find
opened-find sys request_id a file d other v =
    rw
      (emplace_new a.next_file_id file a.files
        (find_above a.next_file_id a.next_file_id a.files v.fresh (omega arith)))
      (unfold find in refl)

-- On an agent with the invariant, closing an id leaves nothing under it, whether it was open or
-- not, and the files under all other ids stay as they are.
close_file-find :
    (id other : ℕ) (a : Agent)
    → Inv a
    → find other (close_file id a).files ≡ (if id == other then none else find other a.files)
unfolding close_file
close_file-find id other a v = elim (Option-cases (find id a.files)) [
  | inl e ↦ rw (e, close_file) (ground (arith, e))
  | inr (file, e) ↦
      rw (e, close_file)
        (ground (
          arith,
          find-erase_self a.next_file_id id a.files v.fresh,
          find-erase_ne id other a.files,
        ))
]
