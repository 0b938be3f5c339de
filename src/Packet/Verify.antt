-- ===== src/Packet/Verify.antt =====
-- The checksums of a generated packet.
use p2p_live_streming_system.Prelude.{ℕ, ◌<◌, ◌≡◌, refl, List, arith, length, All, IsByte}
use p2p_live_streming_system.Words.{htons}
use p2p_live_streming_system.Checksum.{cal_ip_checksum, cal_l4_checksum}
use p2p_live_streming_system.Checksum.Verify.{cal_ip_checksum-verifies, cal_l4_checksum-verifies}
use p2p_live_streming_system.Packet.{
  Endpoint, ip_header, udp_segment, ip_front, ip_back, udp_front, pseudo_iphdr,
}

-- The IP header and the UDP segment of every packet that PacketGenerate builds of less than 60000
-- bytes pass the tests that a receiver makes: the header's checksum comes out as 0, and so does
-- that of the segment with its pseudo header.
pub packet_checksums :
    (src dst : Endpoint) (send_data : List ℕ)
    → All IsByte send_data
    → length send_data < 60000
    → (cal_ip_checksum (ip_header src dst (length send_data)) ≡ 0)
      × (cal_l4_checksum (udp_segment src dst send_data) (pseudo_iphdr src dst (length send_data))
          ≡ 0)
unfolding ip_header udp_segment
packet_checksums src dst d h small = (
  cal_ip_checksum-verifies 5 (ip_front (length d)) (ip_back src dst) refl
      (unfold htons in omega arith) (omega arith) (omega arith),
  cal_l4_checksum-verifies 3 (udp_front src dst (length d)) d (pseudo_iphdr src dst (length d)) refl
      (unfold htons in omega arith) h (unfold htons in omega arith) (omega arith) (omega arith),
)
