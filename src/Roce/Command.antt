-- ===== src/Roce/Command.antt =====
-- src/roce_storage/roce_storage.cc: commands and completions on the wire. An operation is the number
-- that travels: the source casts any 16-bit number to its enumeration. What a Decode function
-- leaves in its output when it fails is not looked at by its callers, and the model drops it.
pub mod RoundTrip
use flume_ascend_host_bypass.Prelude.{
  ℕ, ◌%◌, ◌^◌, ◌*◌, ◌≤◌, Bool, true, false, not, ◌&&◌, ◌||◌, Option, none, some, List, [], length,
  bit_and, ltb, ◌==◌, ◌!=◌, if◌then◌else◌,
}
use flume_ascend_host_bypass.Protocol.Words.{IsU16, IsU32, IsU64}
use flume_ascend_host_bypass.Roce.Words.{
  Parse, ◌>>=◌, return, append_u16, append_u32, append_u64, read_u16, read_u32, read_u64,
}

abbrev pub protocol_magic : ℕ
protocol_magic = 0x464c5243

abbrev pub protocol_version : ℕ
protocol_version = 2

abbrev pub command_wire_bytes : ℕ
command_wire_bytes = 64

abbrev pub completion_wire_bytes : ℕ
completion_wire_bytes = 40

abbrev pub memory_remote_write : ℕ
memory_remote_write = 1

abbrev pub memory_remote_read : ℕ
memory_remote_read = 2

-- enum class Operation
abbrev pub operation_read : ℕ
operation_read = 1

abbrev pub operation_write : ℕ
operation_write = 2

abbrev pub status_success : ℕ
status_success = 0

abbrev pub status_invalid_request : ℕ
status_invalid_request = 1

abbrev pub status_backend_error : ℕ
status_backend_error = 2

abbrev pub status_unsupported : ℕ
status_unsupported = 3

pub record Command : Type 0 where
  pub request_id : ℕ
  pub operation : ℕ
  pub object_id : ℕ
  pub storage_offset : ℕ
  pub size : ℕ
  pub npu_address : ℕ
  pub npu_rkey : ℕ
  pub npu_access : ℕ

pub record Completion : Type 0 where
  pub request_id : ℕ
  pub status : ℕ
  pub bytes : ℕ
  pub checksum : ℕ
  pub flags : ℕ

unfoldable pub required_access : ℕ → ℕ
required_access operation =
    if operation == operation_read then memory_remote_write else memory_remote_read

-- The fields of a command that may travel.
unfoldable pub is_sendable : Command → Bool
unfolding required_access
is_sendable c =
    (c.request_id != 0)
    && ((c.size != 0)
        && ((c.npu_address != 0)
            && ((c.npu_rkey != 0)
                && ((bit_and c.npu_access (required_access c.operation) != 0)
                    && ((c.operation == operation_read) || (c.operation == operation_write))))))

unfoldable pub encode_command : Command → Option (List ℕ)
encode_command c =
    if not (is_sendable c)
    then none
    else let w = append_u32 protocol_magic [] in
      let w = append_u16 protocol_version w in
      let w = append_u16 c.operation w in
      let w = append_u64 c.request_id w in
      let w = append_u64 c.object_id w in
      let w = append_u64 c.storage_offset w in
      let w = append_u64 c.size w in
      let w = append_u64 c.npu_address w in
      let w = append_u32 c.npu_rkey w in let w = append_u32 c.npu_access w in some (append_u64 0 w)

pub record CommandWire : Type 0 where
  pub magic : ℕ
  pub version : ℕ
  pub command : Command
  pub reserved : ℕ

unfoldable pub command_fields : Parse CommandWire
command_fields = do
  magic ← read_u32
  version ← read_u16
  operation ← read_u16
  request_id ← read_u64
  object_id ← read_u64
  storage_offset ← read_u64
  size ← read_u64
  npu_address ← read_u64
  npu_rkey ← read_u32
  npu_access ← read_u32
  reserved ← read_u64
  return (record {
    magic = magic;
    version = version;
    command = record {
      request_id = request_id;
      operation = operation;
      object_id = object_id;
      storage_offset = storage_offset;
      size = size;
      npu_address = npu_address;
      npu_rkey = npu_rkey;
      npu_access = npu_access;
    };
    reserved = reserved;
  })

unfoldable pub check_command : Option (CommandWire × ℕ) → Option Command
check_command none = none
check_command (some (w, offset)) =
    if (w.magic == protocol_magic)
      && ((w.version == protocol_version) && ((w.reserved == 0) && is_sendable w.command))
    then some w.command
    else none

unfoldable pub decode_command : List ℕ → Option Command
unfolding command_fields check_command
decode_command wire =
    if length wire != command_wire_bytes then none else check_command (command_fields wire 0)

-- The status is cut to 16 bits.
unfoldable pub encode_completion : Completion → Option (List ℕ)
encode_completion c =
    if c.request_id == 0
    then none
    else let w = append_u32 protocol_magic [] in
      let w = append_u16 protocol_version w in
      let w = append_u16 (c.status % 2 ^ 16) w in
      let w = append_u64 c.request_id w in
      let w = append_u64 c.bytes w in
      let w = append_u32 c.checksum w in let w = append_u32 c.flags w in some (append_u64 0 w)

pub record CompletionWire : Type 0 where
  pub magic : ℕ
  pub version : ℕ
  pub completion : Completion
  pub reserved : ℕ

unfoldable pub completion_fields : Parse CompletionWire
completion_fields = do
  magic ← read_u32
  version ← read_u16
  status ← read_u16
  request_id ← read_u64
  bytes ← read_u64
  checksum ← read_u32
  flags ← read_u32
  reserved ← read_u64
  return (record {
    magic = magic;
    version = version;
    completion = record {
      request_id = request_id;
      status = status;
      bytes = bytes;
      checksum = checksum;
      flags = flags;
    };
    reserved = reserved;
  })

unfoldable pub check_completion : Option (CompletionWire × ℕ) → Option Completion
check_completion none = none
check_completion (some (w, offset)) =
    if (w.magic == protocol_magic)
      && ((w.version == protocol_version) && ((w.reserved == 0) && (w.completion.request_id != 0)))
    then some w.completion
    else none

unfoldable pub decode_completion : List ℕ → Option Completion
unfolding completion_fields check_completion
decode_completion wire =
    if length wire != completion_wire_bytes
    then none
    else check_completion (completion_fields wire 0)

-- Values that fit the fields' types.
pub record IsCommand (c : Command) : Type 0 where
  pub request_id_fits : IsU64 c.request_id
  pub operation_fits : IsU16 c.operation
  pub object_id_fits : IsU64 c.object_id
  pub storage_offset_fits : IsU64 c.storage_offset
  pub size_fits : IsU64 c.size
  pub npu_address_fits : IsU64 c.npu_address
  pub npu_rkey_fits : IsU32 c.npu_rkey
  pub npu_access_fits : IsU32 c.npu_access

pub record IsCompletion (c : Completion) : Type 0 where
  pub request_id_fits : IsU64 c.request_id
  pub status_fits : IsU32 c.status
  pub bytes_fits : IsU64 c.bytes
  pub checksum_fits : IsU32 c.checksum
  pub flags_fits : IsU32 c.flags
