-- ===== src/Program/Frame.antt =====
-- The frame with a block, at the sender and at the peer that gets it (src/common/p2p.c, src/peer/main.c).
use p2p_live_streming_system.Prelude.{
  ℕ, suc, ◌+◌, ◌%◌, ◌^◌, ◌≤◌, ◌≡◌, refl, sym, ap, ◌∙◌, List, ◌∷◌, ◌++◌, false, ltb, ◌==◌, ◌&&◌,
  if◌then◌else◌, arith, length, length-append, take, replicate, length-read, read, take-append,
  take-read, read-shift-append, at, at-append, shift, Buf,
}
use mathlib.Core.Path.{fun_ext}
use mathlib.Core.List.{append_assoc}
use p2p_live_streming_system.Prelude.Int.{pos}
use p2p_live_streming_system.Words.{u16, htons}
use p2p_live_streming_system.Wire.{
  BlockInfo, IsBlockInfo, copy_block_info_to_bytes, copy_bytes_to_block_info,
}
use p2p_live_streming_system.Wire.RoundTrip.{block_info_round_trip}
use p2p_live_streming_system.Packet.{
  Endpoint, IsEndpoint, packet_generate, receive, handler_data, ignored, datagram, ip_header,
  udp_segment,
}
use p2p_live_streming_system.Packet.Deliver.{receive-packet_generate}
use p2p_live_streming_system.Block.{max_block_bytes}
use p2p_live_streming_system.Fault.{ok}
use p2p_live_streming_system.Node.{Node, send_packet}
use p2p_live_streming_system.Node.Send.{send_buffer, block_proto, max_data_bytes}

length-copy_block_info_to_bytes : (b : BlockInfo) → length (copy_block_info_to_bytes b) ≡ 18
unfolding copy_block_info_to_bytes
length-copy_block_info_to_bytes b = refl

-- The data of a block packet, behind the protocol byte.
abbrev pub block_payload : BlockInfo → Buf → List ℕ
block_payload info buf = copy_block_info_to_bytes info ++ read info.bytes buf

pub length-block_payload :
    (info : BlockInfo) (buf : Buf) → length (block_payload info buf) ≡ info.bytes + 18
length-block_payload info buf = omega (
  arith,
  length-append (copy_block_info_to_bytes info) (read info.bytes buf),
  length-copy_block_info_to_bytes info,
  length-read info.bytes buf,
)

-- What stands behind the protocol byte of a frame.
handler_data-frame :
    (src dst : Endpoint) (protocol : ℕ) (payload rest : List ℕ)
    → handler_data (at (packet_generate src dst (protocol ∷ payload) ++ rest))
      ≡ at (payload ++ rest)
unfolding packet_generate ip_header udp_segment
handler_data-frame src dst protocol payload rest =
    fun_ext (at-append (take 43 (packet_generate src dst (protocol ∷ payload))) (payload ++ rest))

-- The packet buffer of SendCacheBlock is sent up to the last byte of the block.
pub send_buffer-block :
    (n : Node) (info : BlockInfo) (buf : Buf) (dst_id : ℕ)
    → info.bytes ≤ max_block_bytes
    → send_buffer n
        (block_proto ∷ (copy_block_info_to_bytes info ++ read max_block_bytes buf))
        (pos (u16 (info.bytes + 19)))
        dst_id
      ≡ ok (send_packet n (block_proto ∷ block_payload info buf) dst_id)
unfolding send_buffer
send_buffer-block n info buf dst_id small = rw (whole, count, part, taken) refl
  where
    header : List ℕ
    header = block_proto ∷ copy_block_info_to_bytes info

    whole : ltb max_data_bytes (length (header ++ read max_block_bytes buf)) ≡ false
    whole = ground (
      arith,
      length-append header (read max_block_bytes buf),
      length-copy_block_info_to_bytes info,
      length-read max_block_bytes buf,
    )

    count : u16 (info.bytes + 19) % 2 ^ 16 ≡ 19 + info.bytes
    count = omega (arith, small)

    part : ltb max_data_bytes (19 + info.bytes) ≡ false
    part = ground (arith, small)

    taken :
        take (19 + info.bytes) ((header ++ read max_block_bytes buf) ++ replicate max_data_bytes 0)
        ≡ header ++ read info.bytes buf
    taken =
        ap (take (19 + info.bytes))
          (append_assoc header (read max_block_bytes buf) (replicate max_data_bytes 0))
        ∙ ap
            (λ k.
              take (suc k + info.bytes)
                (header ++ (read max_block_bytes buf ++ replicate max_data_bytes 0)))
            (sym (length-copy_block_info_to_bytes info))
        ∙ take-append header (read max_block_bytes buf ++ replicate max_data_bytes 0) info.bytes
        ∙ ap (λ t. header ++ t)
            (take-read info.bytes max_block_bytes buf (replicate max_data_bytes 0) small)

-- What a peer that gets the frame finds: the block's info and its data.
pub record Delivered (sent_info : BlockInfo) (chunk : List ℕ) (src dst : Endpoint) (frame : List ℕ)
    : Type 0 where
  pub accepted :
      (rest : List ℕ) (my_ip my_port : ℕ)
      → receive my_ip my_port (at (frame ++ rest)) ≡ (
          if dst.ip == my_ip && dst.port == my_port
          then datagram block_proto (sent_info.bytes + 18) src.ip (htons src.port)
          else ignored)
  pub info :
      (rest : List ℕ) → copy_bytes_to_block_info (handler_data (at (frame ++ rest))) ≡ sent_info
  pub bytes :
      (rest : List ℕ) → read sent_info.bytes (shift (handler_data (at (frame ++ rest))) 18) ≡ chunk

pub frame-Delivered :
    (src dst : Endpoint) (info : BlockInfo) (buf : Buf)
    → IsEndpoint src
    → IsEndpoint dst
    → IsBlockInfo info
    → info.bytes ≤ max_block_bytes
    → Delivered info
        (read info.bytes buf)
        src
        dst
        (packet_generate src dst (block_proto ∷ block_payload info buf))
frame-Delivered src dst info buf hs hd h small = record {
  accepted = λ rest my_ip my_port.
      receive-packet_generate src dst block_proto payload rest my_ip my_port hs hd
        (omega (arith, size, small))
      ∙ ap
          (λ k.
            if dst.ip == my_ip && dst.port == my_port
            then datagram block_proto k src.ip (htons src.port)
            else ignored)
          size;
  info = λ rest.
      ap copy_bytes_to_block_info
        (handler_data-frame src dst block_proto payload rest ∙ opened rest)
      ∙ block_info_round_trip info (read info.bytes buf ++ rest) h;
  bytes = λ rest.
      ap (λ p. read info.bytes (shift p 18))
        (handler_data-frame src dst block_proto payload rest ∙ opened rest)
      ∙ behind_info rest;
}
  where
    payload : List ℕ
    payload = block_payload info buf

    size : length payload ≡ info.bytes + 18
    size = length-block_payload info buf

    opened :
        (rest : List ℕ)
        → at (payload ++ rest) ≡ at (copy_block_info_to_bytes info ++ (read info.bytes buf ++ rest))
    opened rest = ap at (append_assoc (copy_block_info_to_bytes info) (read info.bytes buf) rest)

    behind_info :
        (rest : List ℕ)
        → read info.bytes
            (shift (at (copy_block_info_to_bytes info ++ (read info.bytes buf ++ rest))) 18)
          ≡ read info.bytes buf
    behind_info rest =
        ap (λ k. read k (shift (at (header ++ (bytes ++ rest))) 18))
          (sym (length-read info.bytes buf))
        ∙ ap (λ k. read (length bytes) (shift (at (header ++ (bytes ++ rest))) k))
            (sym (length-copy_block_info_to_bytes info))
        ∙ read-shift-append header bytes rest
      where
        header : List ℕ
        header = copy_block_info_to_bytes info

        bytes : List ℕ
        bytes = read info.bytes buf
