-- ===== src/Protocol/Frame/Inversion.antt =====
-- What ReadFrame does with any header that arrives, in the order of its checks.
use flume_ascend_host_bypass.Prelude.{
  ℕ, ◌≤◌, ◌<◌, ◌≡◌, refl, sym, subst, ap, ◌∙◌, ◌++◌, ◌*◌, ◌≢◌, ◌⊎◌, List, [], length, drop, arith,
}
use flume_ascend_host_bypass.Protocol.Words.{
  IsU16, IsU64, be16, be32, be64, load_u16, load_u32, load_u16-be16, load_u32-be32, load_u64-be64,
}
use flume_ascend_host_bypass.Protocol.Stream.{
  Received, ok, err, invalid_magic, unsupported_version, body_exceeds_maximum,
}
use flume_ascend_host_bypass.Protocol.Stream.Laws.{Delivers, Delivers-none, read_all-Delivers}
use flume_ascend_host_bypass.Protocol.Frame.{
  magic, version, max_body_size, header_size, continue, frame_of, check_header, read_frame,
}

module _ (head : List ℕ) {answers middle : List Received}
    (d : Delivers header_size head answers middle) where
  header_read : read_frame answers ≡ check_header head middle
  unfolding read_frame
  header_read = ap (λ r. continue r check_header) (read_all-Delivers [] d)

  -- Where recv delivers 28 bytes of header, either its magic is wrong, or else its version, or else
  -- its body length is above the maximum, and ReadFrame answers with the error of that one and
  -- leaves the answers behind the header untouched; or the header passes all three tests.
  pub read_frame_rejects :
      ((load_u32 head ≢ magic) × (read_frame answers ≡ (err invalid_magic, middle)))
      ⊎ (((load_u32 head ≡ magic)
            × (load_u16 (drop 4 head) ≢ version)
            × (read_frame answers ≡ (err unsupported_version, middle)))
          ⊎ (((load_u32 head ≡ magic)
                × (load_u16 (drop 4 head) ≡ version)
                × (max_body_size < load_u32 (drop 20 head))
                × (read_frame answers ≡ (err body_exceeds_maximum, middle)))
              ⊎ ((load_u32 head ≡ magic)
                  × (load_u16 (drop 4 head) ≡ version)
                  × (load_u32 (drop 20 head) ≤ max_body_size))))
  unfolding check_header
  read_frame_rejects = rw header_read (ground arith)

  -- A header that passes the tests, and the body behind it.
  read_frame-frame_of :
      (body : List ℕ) {after : List Received}
      → load_u32 head ≡ magic
      → load_u16 (drop 4 head) ≡ version
      → load_u32 (drop 20 head) ≤ max_body_size
      → Delivers (load_u32 (drop 20 head)) body middle after
      → read_frame answers ≡ (ok (frame_of head body), after)
  unfolding check_header frame_of
  read_frame-frame_of body {after} m v l b =
      header_read ∙ ground (arith, read_all-Delivers [] b, Delivers-none b)

-- A header as it lies on the wire: magic, version, type, two fields that are not looked at, the
-- request's id, the length of the body, and a last field that is not looked at.
abbrev pub laid_out : ℕ → ℕ → ℕ → ℕ → ℕ → ℕ → List ℕ
laid_out type flags status request_id body_len reserved =
    be32 0x464C554D
    ++ (be16 1
        ++ (be16 type
            ++ (be16 flags
                ++ (be16 status ++ (be64 request_id ++ (be32 body_len ++ be32 reserved))))))

-- Where recv delivers the magic, the version 1, a type of 16 bits, any two fields of 16 bits, a
-- request id of 64 bits, a body length of at most 128 MiB and any last field, each most significant
-- byte first, and then a body of that length, ReadFrame returns the frame with that type, request
-- id and body, whatever the fields between them hold.
pub read_frame_accepts :
    (type flags status request_id reserved : ℕ) (body : List ℕ)
    {answers middle after : List Received}
    → IsU16 type
    → IsU64 request_id
    → length body ≤ 128 * 1024 * 1024
    → Delivers 28 (laid_out type flags status request_id (length body) reserved) answers middle
    → Delivers (length body) body middle after
    → read_frame answers
      ≡ (ok (record { type = type; request_id = request_id; body = body }), after)
unfolding frame_of
read_frame_accepts type flags status request_id reserved body {answers} {middle} {after} t i l h b =
    let head = laid_out type flags status request_id (length body) reserved in
    let magic_lem : load_u32 head ≡ magic = load_u32-be32 magic (drop 4 head) (omega arith) in
    let version_lem : load_u16 (drop 4 head) ≡ version =
      load_u16-be16 version (drop 6 head) (omega arith) in
    let length_lem : load_u32 (drop 20 head) ≡ length body =
      load_u32-be32 (length body) (drop 24 head) (omega (arith, l)) in
    read_frame-frame_of head h body magic_lem version_lem (omega (arith, length_lem, l))
      (subst (λ n. Delivers n body middle after) (sym length_lem) b)
    ∙ rw (load_u16-be16 type (drop 8 head) t, load_u64-be64 request_id (drop 20 head) i) refl
