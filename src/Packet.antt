-- ===== src/Packet.antt =====
-- Ethernet frames (src/common/p2p.c: PacketGenerate, the packet part of SendPacket; the start of the
-- receive loop in src/peer/main.c and src/originsource/main.c).
-- Fields of headers in memory are words as the host reads them; `htons` puts them in network order.
-- Addresses (u32) are kept in network order throughout, as `inet_pton` stores them.
pub mod Verify
pub mod Deliver
mod Tests
use p2p_live_streming_system.Prelude.{
  ℕ, ◌+◌, ◌-◌, ◌%◌, ◌^◌, ◌<◌, List, [], ◌∷◌, ◌++◌, length, Bool, true, false, not, ◌&&◌, ◌==◌,
  if◌then◌else◌, Buf, shift, All, IsByte,
}
use p2p_live_streming_system.Words.{u16, bytes_u16, bytes_u32, load_u16, load_u32, htons}
use p2p_live_streming_system.Checksum.{cal_ip_checksum, cal_l4_checksum}

pub record Mac : Type 0 where
  pub m0 : ℕ
  pub m1 : ℕ
  pub m2 : ℕ
  pub m3 : ℕ
  pub m4 : ℕ
  pub m5 : ℕ

abbrev pub mac_bytes : Mac → List ℕ
mac_bytes m = m.m0 ∷ m.m1 ∷ m.m2 ∷ m.m3 ∷ m.m4 ∷ m.m5 ∷ []

-- One entry of DST_MAC, DST_IP and DST_PORT, or the SRC_ variables.
pub record Endpoint : Type 0 where
  pub mac : Mac
  pub ip : ℕ
  pub port : ℕ

abbrev pub ethertype_ip : ℕ
ethertype_ip = 0x0800

abbrev pub ethertype_arp : ℕ
ethertype_arp = 0x0806

abbrev pub ipproto_udp : ℕ
ipproto_udp = 17

-- The IP header around its checksum field.
abbrev ip_front : ℕ → List ℕ
ip_front data_bytes =
    0x45
    ∷ 0
    ∷ (bytes_u16 (htons (8 + 20 + data_bytes))
        ++ (bytes_u16 (htons 34567) ++ (bytes_u16 (htons 0) ++ (0xff ∷ ipproto_udp ∷ []))))

abbrev ip_back : Endpoint → Endpoint → List ℕ
ip_back src dst = bytes_u32 src.ip ++ bytes_u32 dst.ip

abbrev udp_front : Endpoint → Endpoint → ℕ → List ℕ
udp_front src dst data_bytes =
    bytes_u16 (htons src.port) ++ (bytes_u16 (htons dst.port) ++ bytes_u16 (htons (8 + data_bytes)))

-- `struct PseudoIP_header`
abbrev pub pseudo_iphdr : Endpoint → Endpoint → ℕ → List ℕ
pseudo_iphdr src dst data_bytes =
    bytes_u32 src.ip ++ (bytes_u32 dst.ip ++ (0 ∷ ipproto_udp ∷ bytes_u16 (htons (8 + data_bytes))))

-- `iphdr`, the checksum included.
unfoldable pub ip_header : Endpoint → Endpoint → ℕ → List ℕ
ip_header src dst data_bytes =
    let check = cal_ip_checksum (ip_front data_bytes ++ (bytes_u16 0 ++ ip_back src dst)) in
    ip_front data_bytes ++ (bytes_u16 check ++ ip_back src dst)

-- `udphdr` and the data behind it.
unfoldable pub udp_segment : Endpoint → Endpoint → List ℕ → List ℕ
udp_segment src dst send_data =
    let n = length send_data in
    let front = udp_front src dst n in
    let check = cal_l4_checksum (front ++ (bytes_u16 0 ++ send_data)) (pseudo_iphdr src dst n) in
    front ++ (bytes_u16 check ++ send_data)

-- PacketGenerate, over the bytes that SendPacket writes to the socket.
unfoldable pub packet_generate : Endpoint → Endpoint → List ℕ → List ℕ
packet_generate src dst send_data =
    mac_bytes dst.mac
    ++ (mac_bytes src.mac
        ++ (bytes_u16 (htons ethertype_ip)
            ++ (ip_header src dst (length send_data) ++ udp_segment src dst send_data)))

-- What the receive loop makes of a frame. `data_bytes` is the u16 that the handlers get.
pub data Received : Type 0 where
  ignored : Received
  arp : Received
  datagram : (protocol data_bytes saddr source : ℕ) → Received

-- The tests of Receive, up to the dispatch on the protocol byte.
unfoldable pub receive : ℕ → ℕ → Buf → Received
receive src_ip port packet =
    if load_u16 (shift packet 12) == htons ethertype_arp
    then arp
    else if load_u16 (shift packet 12) == htons ethertype_ip
    then (if load_u32 (shift packet 30) == src_ip && htons (load_u16 (shift packet 36)) == port
        then datagram (packet 42) (u16 (htons (load_u16 (shift packet 38)) + 2 ^ 16 - 8 - 1))
            (load_u32 (shift packet 26)) (load_u16 (shift packet 34))
        else ignored)
    else ignored

-- The data behind the protocol byte, which the handlers are given.
abbrev pub handler_data : Buf → Buf
handler_data packet = shift packet 43

pub record IsEndpoint (e : Endpoint) : Type 0 where
  pub mac : All IsByte (mac_bytes e.mac)
  pub ip : e.ip < 2 ^ 32
  pub port : e.port < 2 ^ 16
