-- ===== src/Roce/Command/RoundTrip.antt =====
-- A decoder reads back what the encoder wrote.
use flume_ascend_host_bypass.Prelude.{
  ℕ, ◌%◌, ◌^◌, ◌≡◌, true, false, some, List, ◌++◌, arith, drop, ◌==◌,
}
use flume_ascend_host_bypass.Roce.Words.{
  append_loop, append_u16, append_u32, append_u64, read_u16, read_u32, read_u64, le16, le32, le64,
  load32-le32, load64-le64, load16-le16,
}
use flume_ascend_host_bypass.Roce.Command.{
  Command, Completion, IsCommand, encode_completion, decode_completion, completion_fields,
  check_completion, IsCompletion, is_sendable, encode_command, decode_command, command_fields,
  protocol_magic, protocol_version, check_command,
}

abbrev command_bytes : Command → List ℕ
command_bytes c =
    le32 protocol_magic
    ++ (le16 protocol_version
        ++ (le16 c.operation
            ++ (le64 c.request_id
                ++ (le64 c.object_id
                    ++ (le64 c.storage_offset
                        ++ (le64 c.size
                            ++ (le64 c.npu_address
                                ++ (le32 c.npu_rkey ++ (le32 c.npu_access ++ le64 0)))))))))

encode_command_lem :
    (c : Command) → is_sendable c ≡ true → encode_command c ≡ some (command_bytes c)
unfolding encode_command append_u16 append_u32 append_u64 append_loop
encode_command_lem c h = rw h

command_fields-command_bytes :
    (c : Command)
    → IsCommand c
    → command_fields (command_bytes c) 0
      ≡ some (
        record { magic = protocol_magic; version = protocol_version; command = c; reserved = 0 },
        64,
      )
unfolding command_fields read_u16 read_u32 read_u64
command_fields-command_bytes c v = ground (
  arith,
  load16-le16 c.operation,
  load64-le64 c.request_id (drop 16 (command_bytes c)),
  load64-le64 c.object_id (drop 24 (command_bytes c)),
  load64-le64 c.storage_offset (drop 32 (command_bytes c)),
  load64-le64 c.size (drop 40 (command_bytes c)),
  load64-le64 c.npu_address (drop 48 (command_bytes c)),
  load32-le32 c.npu_rkey (drop 52 (command_bytes c)),
  load32-le32 c.npu_access (drop 56 (command_bytes c)),
)

decode_command-bytes :
    (c : Command) → IsCommand c → is_sendable c ≡ true → decode_command (command_bytes c) ≡ some c
unfolding decode_command check_command
decode_command-bytes c v h = rw (command_fields-command_bytes c v, h)

-- A command whose fields fit their types, and which the encoder's test lets through, is encoded,
-- and the decoder reads the same command back.
pub decode_command-encode_command :
    (c : Command)
    → IsCommand c
    → is_sendable c ≡ true
    → (w : List ℕ) × (encode_command c ≡ some w) × (decode_command w ≡ some c)
decode_command-encode_command c v s =
    (command_bytes c, encode_command_lem c s, decode_command-bytes c v s)

abbrev completion_bytes : Completion → List ℕ
completion_bytes c =
    le32 protocol_magic
    ++ (le16 protocol_version
        ++ (le16 (c.status % 2 ^ 16)
            ++ (le64 c.request_id
                ++ (le64 c.bytes ++ (le32 c.checksum ++ (le32 c.flags ++ le64 0))))))

abbrev pub travelled : Completion → Completion
travelled c = record {
  request_id = c.request_id;
  status = c.status % 2 ^ 16;
  bytes = c.bytes;
  checksum = c.checksum;
  flags = c.flags;
}

completion_fields-completion_bytes :
    (c : Completion)
    → IsCompletion c
    → completion_fields (completion_bytes c) 0
      ≡ some (
        record {
          magic = protocol_magic;
          version = protocol_version;
          completion = travelled c;
          reserved = 0;
        },
        40,
      )
unfolding completion_fields read_u16 read_u32 read_u64
completion_fields-completion_bytes c v = ground (
  arith,
  load16-le16 (c.status % 2 ^ 16),
  load64-le64 c.request_id (drop 16 (completion_bytes c)),
  load64-le64 c.bytes (drop 24 (completion_bytes c)),
  load32-le32 c.checksum (drop 28 (completion_bytes c)),
  load32-le32 c.flags (drop 32 (completion_bytes c)),
)

encode_completion_lem :
    (c : Completion) → (c.request_id == 0) ≡ false → encode_completion c ≡ some (completion_bytes c)
unfolding encode_completion append_u16 append_u32 append_u64 append_loop
encode_completion_lem c h = rw h

decode_completion-bytes :
    (c : Completion)
    → IsCompletion c
    → (c.request_id == 0) ≡ false
    → decode_completion (completion_bytes c) ≡ some (travelled c)
unfolding decode_completion check_completion
decode_completion-bytes c v s = rw (completion_fields-completion_bytes c v) (ground (arith, s))

-- A completion whose fields fit their types and whose request id is not 0 is encoded, and the
-- decoder reads it back with its status modulo 2 ^ 16 and all else unchanged.
pub decode_completion-encode_completion :
    (c : Completion)
    → IsCompletion c
    → (c.request_id == 0) ≡ false
    → (w : List ℕ) × (encode_completion c ≡ some w) × (decode_completion w ≡ some (travelled c))
decode_completion-encode_completion c v s =
    (completion_bytes c, encode_completion_lem c s, decode_completion-bytes c v s)
