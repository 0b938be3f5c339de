-- ===== src/Packet/Deliver.antt =====
-- A frame that one program builds and another receives.
use p2p_live_streming_system.Prelude.{
  ℕ, ◌<◌, ◌≡◌, List, ◌∷◌, ◌++◌, arith, length, at, read, ◌==◌, ◌&&◌, if◌then◌else◌, take,
  read-shift-append,
}
use p2p_live_streming_system.Words.{htons}
use p2p_live_streming_system.Packet.{
  Endpoint, IsEndpoint, ip_header, udp_segment, packet_generate, ignored, datagram, receive,
  handler_data,
}

-- Between addresses and ports that fit their types, and with less than 60000 bytes of data, the
-- receive loop accepts a generated packet exactly when its own address and port are those that the
-- packet was made for. It then reads the sender's protocol byte, the number of data bytes behind
-- it, and the sender's address and port.
pub receive-packet_generate :
    (src dst : Endpoint) (protocol : ℕ) (payload rest : List ℕ) (my_ip my_port : ℕ)
    → IsEndpoint src
    → IsEndpoint dst
    → length payload < 60000
    → receive my_ip my_port (at (packet_generate src dst (protocol ∷ payload) ++ rest)) ≡ (
        if dst.ip == my_ip && dst.port == my_port
        then datagram protocol (length payload) src.ip (htons src.port)
        else ignored)
unfolding packet_generate receive ip_header udp_segment htons
receive-packet_generate src dst protocol payload rest ip port hs hd small = ground arith

-- Behind the protocol byte the handler finds the bytes that the sender gave to SendPacket.
pub handler_data-packet_generate :
    (src dst : Endpoint) (protocol : ℕ) (payload rest : List ℕ)
    → read
        (length payload)
        (handler_data (at (packet_generate src dst (protocol ∷ payload) ++ rest)))
      ≡ payload
unfolding packet_generate ip_header udp_segment
handler_data-packet_generate src dst protocol payload rest =
    read-shift-append (take 43 (packet_generate src dst (protocol ∷ payload))) payload rest
