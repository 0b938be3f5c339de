-- ===== src/Packet/Tests.antt =====
-- A packet between two hosts.
use p2p_live_streming_system.Prelude.{
  ℕ, ◌≡◌, refl, List, [], ◌∷◌, ◌++◌, arith, at, ◌==◌, ◌&&◌, if◌then◌else◌,
}
use p2p_live_streming_system.Words.{htons}
use p2p_live_streming_system.Checksum.{
  cal_ip_checksum, cal_l4_checksum, cal_sum_loop, cal_sum_each_16bit,
}
use p2p_live_streming_system.Packet.{
  Endpoint, IsEndpoint, ip_header, udp_segment, pseudo_iphdr, packet_generate, receive, ignored,
  datagram,
}
use p2p_live_streming_system.Packet.Verify.{packet_checksums}
use p2p_live_streming_system.Packet.Deliver.{receive-packet_generate}

abbrev here : Endpoint
here = record {
  mac = record { m0 = 1; m1 = 2; m2 = 3; m3 = 4; m4 = 5; m5 = 6 };
  ip = 0x0101a8c0;
  port = 5000;
}

abbrev there : Endpoint
there = record {
  mac = record { m0 = 9; m1 = 8; m2 = 7; m3 = 6; m4 = 5; m5 = 4 };
  ip = 0x0201a8c0;
  port = 5001;
}

abbrev payload : List ℕ
payload = 1 ∷ 2 ∷ 255 ∷ []

here_fits : IsEndpoint here
here_fits = record { mac = omega arith; ip = omega arith; port = omega arith }

there_fits : IsEndpoint there
there_fits = record { mac = omega arith; ip = omega arith; port = omega arith }

checksum_lem : cal_ip_checksum (0x45 ∷ 0 ∷ 1 ∷ []) ≡ 65465
unfolding cal_ip_checksum cal_sum_each_16bit cal_sum_loop
checksum_lem = refl

packet_checksums_example :
    (cal_ip_checksum (ip_header here there 3) ≡ 0)
    × (cal_l4_checksum (udp_segment here there payload) (pseudo_iphdr here there 3) ≡ 0)
packet_checksums_example = packet_checksums here there payload (omega arith) (omega arith)

receive-packet_generate_example :
    receive 0x0201a8c0 5001 (at (packet_generate here there (7 ∷ payload) ++ (0 ∷ []))) ≡ (
      if there.ip == 0x0201a8c0 && there.port == 5001
      then datagram 7 3 here.ip (htons here.port)
      else ignored)
receive-packet_generate_example =
    receive-packet_generate here there 7 payload (0 ∷ []) 0x0201a8c0 5001 here_fits there_fits
      (omega arith)
