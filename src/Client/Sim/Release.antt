-- ===== src/Client/Sim/Release.antt =====
-- src/core/client.cc: buffers come and go, and requests go.
use flume_ascend_host_bypass.Prelude.{
  ℕ, Bool, true, false, ◌||◌, not, Option, none, some, get_elem?, ◌==◌, ◌!=◌, if◌then◌else◌,
}
use flume_ascend_host_bypass.Client.Status
use flume_ascend_host_bypass.Client.Buffer.{Buffer, is_registerable_buffer_type}
use flume_ascend_host_bypass.Client.Io.{Io}
use flume_ascend_host_bypass.Client.Sim.{Store, set_at, update_io}

unfoldable pub set_live : ℕ → Bool → Store → Store
set_live handle b s = record s { live = λ h. if h == handle then b else s.live h }

-- The handle is the address that `new` has given, and its counts begin at 0.
unfoldable pub flume_register_buffer : ℕ → ℕ → ℕ → ℕ → ℕ → Store → ℕ × Option Buffer × Store
unfolding set_live set_at
flume_register_buffer handle client ptr len type s =
    if (ptr == 0) || (len == 0)
    then (Status.invalid_argument, none, s)
    else if not (is_registerable_buffer_type type)
    then (Status.unsupported, none, s)
    else (
      Status.ok,
      some (record { handle = handle; client = client; ptr = ptr; len = len; type = type }),
      record (set_live handle true s) {
        pending_refs = set_at handle 0 s.pending_refs;
        symmetric_refs = set_at handle 0 s.symmetric_refs;
      },
    )

unfoldable pub flume_buffer_release : Buffer → Store → ℕ × Store
unfolding set_live
flume_buffer_release b s =
    if (s.symmetric_refs b.handle != 0) || (s.pending_refs b.handle != 0)
    then (Status.invalid_argument, s)
    else (Status.ok, set_live b.handle false s)

unfoldable pub delete_io : ℕ → Io → Store → ℕ × Store
delete_io i io s =
    if io.pending_ref_count != 0
    then (Status.invalid_argument, s)
    else (Status.ok, update_io i (λ o. record o { deleted = true }) s)

-- A handle that stands for no request is the null pointer.
unfoldable pub release_found : ℕ → Option Io → Store → ℕ × Store
unfolding delete_io
release_found i none s = (Status.ok, s)
release_found i (some io) s = delete_io i io s

unfoldable pub flume_io_release : ℕ → Store → ℕ × Store
unfolding release_found
flume_io_release i s = release_found i (get_elem? s.ios i) s
