-- ===== src/Protocol/Tests.antt =====
-- The properties of the protocol, applied to a frame of two bytes.
use flume_ascend_host_bypass.Prelude.{
  ℕ, ◌≤◌, ◌<◌, ◌≡◌, ◌≢◌, ◌⊎◌, refl, List, [], ◌∷◌, ◌++◌, drop, arith,
}
use flume_ascend_host_bypass.Protocol.Words.{
  append_u16, append_u32, append_u64, append_u64_loop, load_u16, load_u32,
}
use flume_ascend_host_bypass.Protocol.Stream.{
  Received, got, Sent, took, Sink, ok, err, invalid_magic, unsupported_version,
  body_exceeds_maximum, write_all,
}
use flume_ascend_host_bypass.Protocol.Stream.Laws.{Takes, Delivers}
use flume_ascend_host_bypass.Protocol.Frame.{
  Frame, IsFrame, header, header_size, magic, version, max_body_size, write_frame, read_frame,
}
use flume_ascend_host_bypass.Protocol.Frame.RoundTrip.{
  wire_form, read_frame-write_frame, write_frame_total, write_frame_prefix,
}
use flume_ascend_host_bypass.Protocol.Frame.Inversion.{read_frame_rejects, read_frame_accepts}

abbrev frame : Frame
frame = record { type = 3; request_id = 7; body = 104 ∷ 105 ∷ [] }

abbrev front : List ℕ
front = 76 ∷ 85 ∷ 77 ∷ 0 ∷ 1 ∷ 0 ∷ 3 ∷ 0 ∷ 0 ∷ 0 ∷ 0 ∷ []

abbrev back : List ℕ
back = 0 ∷ 0 ∷ 0 ∷ 0 ∷ 0 ∷ 0 ∷ 7 ∷ 0 ∷ 0 ∷ 0 ∷ 2 ∷ 0 ∷ 0 ∷ 0 ∷ 0 ∷ []

abbrev head : List ℕ
head = 70 ∷ (front ++ (0 ∷ back))

abbrev socket : Sink
socket = record { answers = took 5 ∷ Sent.interrupted ∷ took 23 ∷ took 2 ∷ []; wire = 9 ∷ [] }

abbrev behind : List Received
behind = got (104 ∷ 105 ∷ []) ∷ []

abbrev incoming : List Received
incoming = got (70 ∷ front) ∷ Received.interrupted ∷ got (0 ∷ back) ∷ behind

head-Delivers : Delivers header_size head incoming behind
head-Delivers =
    Delivers.chunk 70 front refl (Delivers.again (Delivers.chunk 0 back refl Delivers.none_left))

body-Delivers : Delivers 2 (104 ∷ 105 ∷ []) behind []
body-Delivers = Delivers.chunk 104 (105 ∷ []) refl Delivers.none_left

frame-IsFrame : IsFrame frame
frame-IsFrame = record { type_fits = omega arith; id_fits = omega arith; body_fits = omega arith }

read_frame-write_frame_example : read_frame incoming ≡ (ok frame, [])
unfolding write_frame write_all header append_u16 append_u32 append_u64 append_u64_loop
read_frame-write_frame_example =
    read_frame-write_frame frame socket (record { answers = []; wire = 9 ∷ (head ++ frame.body) })
      head frame.body frame-IsFrame refl refl head-Delivers body-Delivers

head-Takes : Takes socket.answers header_size
head-Takes = Takes.some_of 4 (Takes.again (Takes.some_of 22 Takes.enough))

write_frame_total_example : (write_frame frame socket).0 ≡ ok tt
unfolding write_all header append_u16 append_u32 append_u64 append_u64_loop
write_frame_total_example =
    write_frame_total frame socket frame-IsFrame head-Takes (Takes.some_of 1 Takes.enough)

write_frame_prefix_example :
    (part left : List ℕ) × (wire_form frame ≡ part ++ left)
    × ((write_frame frame socket).1.wire ≡ 9 ∷ part)
write_frame_prefix_example = write_frame_prefix frame socket

-- A header whose unused fields are not 0.
abbrev odd_tail : List ℕ
odd_tail =
    76 ∷ 85 ∷ 77 ∷ 0 ∷ 1 ∷ 0 ∷ 3 ∷ 0 ∷ 8 ∷ 0 ∷ 9 ∷ 0 ∷ 0 ∷ 0 ∷ 0 ∷ 0 ∷ 0 ∷ 0 ∷ 7 ∷ 0 ∷ 0 ∷ 0 ∷ 2 ∷ 0
    ∷ 0 ∷ 1 ∷ 0 ∷ []

read_frame_accepts_example :
    read_frame (got (70 ∷ odd_tail) ∷ behind)
    ≡ (ok (record { type = 3; request_id = 7; body = 104 ∷ 105 ∷ [] }), [])
read_frame_accepts_example =
    read_frame_accepts 3 8 9 7 256 (104 ∷ 105 ∷ []) (omega arith) (omega arith) (omega arith)
      (Delivers.chunk 70 odd_tail refl Delivers.none_left) body-Delivers

-- The version is 2.
abbrev newer_tail : List ℕ
newer_tail =
    76 ∷ 85 ∷ 77 ∷ 0 ∷ 2 ∷ 0 ∷ 3 ∷ 0 ∷ 0 ∷ 0 ∷ 0 ∷ 0 ∷ 0 ∷ 0 ∷ 0 ∷ 0 ∷ 0 ∷ 0 ∷ 7 ∷ 0 ∷ 0 ∷ 0 ∷ 2 ∷ 0
    ∷ 0 ∷ 0 ∷ 0 ∷ []

abbrev newer : List ℕ
newer = 70 ∷ newer_tail

read_frame_rejects_example :
    ((load_u32 newer ≢ magic) × (read_frame (got newer ∷ behind) ≡ (err invalid_magic, behind)))
    ⊎ (((load_u32 newer ≡ magic)
          × (load_u16 (drop 4 newer) ≢ version)
          × (read_frame (got newer ∷ behind) ≡ (err unsupported_version, behind)))
        ⊎ (((load_u32 newer ≡ magic)
              × (load_u16 (drop 4 newer) ≡ version)
              × (max_body_size < load_u32 (drop 20 newer))
              × (read_frame (got newer ∷ behind) ≡ (err body_exceeds_maximum, behind)))
            ⊎ ((load_u32 newer ≡ magic)
                × (load_u16 (drop 4 newer) ≡ version)
                × (load_u32 (drop 20 newer) ≤ max_body_size))))
read_frame_rejects_example =
    read_frame_rejects newer (Delivers.chunk 70 newer_tail refl Delivers.none_left)
