-- ===== src/Node/Invariant.antt =====
-- CURRENT_CHILD_NUM and CONNECTED_NODES in NodeSetup (src/common/p2p.c).
use p2p_live_streming_system.Prelude.{
  ℕ, ◌<◌, ◌≡◌, Option, some, none, Bool, true, false, if◌then◌else◌, Buf,
}
use p2p_live_streming_system.Prelude.Int.{pos, ◌+ℤ◌, ltb_ℤ}
use p2p_live_streming_system.Words.{htons}
use p2p_live_streming_system.Fault.{Result, ok, err, Ensures}
use p2p_live_streming_system.Node.{
  Node, World, bit, my_id, tmp_id, the_cluster, renew_dst_ip_and_mac, default_cache,
}
use p2p_live_streming_system.Node.Slots.{check_child_num, generate_rnd_id}
use p2p_live_streming_system.Node.Send.{send_initial_status, send_webm_header, send_advertise}
use p2p_live_streming_system.Node.Join.{accept_child, node_setup, is_my_id}
use p2p_live_streming_system.Node.Count.{
  IsCounted, IsFree, check_child_num-IsFree, set_bit-IsCounted,
}
use p2p_live_streming_system.Node.Frame.{
  SameSlots, Ensures-bind, SameSlots-bind, send_initial_status-SameSlots,
  send_webm_header-SameSlots, send_advertise-SameSlots,
}

abbrev pub Counted : Node → Type 0
Counted n = IsCounted n.current_child_num n.connected_nodes

Counted-same : {n m : Node} → SameSlots n m → Counted n → Counted m
Counted-same e h = rw (e.count, e.connected) h

-- A call that leaves the slots alone.
pub kept : (n : Node) (m : Result Node) → Counted n → Ensures (SameSlots n) m → Ensures Counted m
kept n (ok m) h e = Counted-same e h
kept n (err f) h e = tt

accept_child-Counted :
    (n : Node) (w : World) (p : Buf) (ipaddr port i : ℕ)
    → Counted n
    → i < 2
    → bit n.connected_nodes i ≡ false
    → Ensures Counted (accept_child n w p ipaddr port i)
unfolding accept_child renew_dst_ip_and_mac
accept_child-Counted n w p ipaddr port i h small free =
    Ensures-bind Counted (the_cluster n) _ λ cluster.
      SameSlots-bind _ Counted (send_initial_status _ i) _ (send_initial_status-SameSlots _ i)
        λ n4 f.
          SameSlots-bind n4 Counted (send_webm_header n4 i) _ (send_webm_header-SameSlots n4 i)
            λ n5 g.
              rw (g.count, g.connected, f.count, f.connected)
                (set_bit-IsCounted n.current_child_num n.connected_nodes i h small free)

pub node_setup-Counted :
    (n : Node) (w : World) (p : Buf) (ipaddr port : ℕ)
    → Counted n
    → Ensures Counted (node_setup n w p ipaddr port)
unfolding node_setup renew_dst_ip_and_mac
node_setup-Counted n w p ipaddr port h =
    split (is_my_id (generate_rnd_id n (w.rand 0) 0 (n.current_child_num +ℤ pos 1)))
      (ltb_ℤ n.current_cache (pos default_cache)) (check_child_num n) (check_child_num-IsFree n h)
  where
    tmp : Node
    tmp = renew_dst_ip_and_mac n ipaddr (htons port) tmp_id

    ask : (ad_id : Option ℕ) → Ensures Counted (send_advertise tmp tmp_id ad_id)
    ask ad_id = kept tmp _ h (send_advertise-SameSlots tmp tmp_id ad_id)

    split :
        (mine young : Bool) (slot : Option ℕ)
        → IsFree n.connected_nodes slot
        → Ensures Counted (
            if mine
            then (if young then send_advertise tmp tmp_id (some my_id) else elim slot [
              | some child_id ↦ accept_child n w p ipaddr (htons port) child_id
              | none ↦
                  send_advertise tmp tmp_id (generate_rnd_id tmp (w.rand 1) 1 tmp.current_child_num)
            ])
            else send_advertise tmp tmp_id
                (generate_rnd_id n (w.rand 0) 0 (n.current_child_num +ℤ pos 1)))
    split true true slot f = ask (some my_id)
    split true false (some i) f = accept_child-Counted n w p ipaddr (htons port) i h f.0 f.1
    split true false none f = ask (generate_rnd_id tmp (w.rand 1) 1 tmp.current_child_num)
    split false young slot f = ask (generate_rnd_id n (w.rand 0) 0 (n.current_child_num +ℤ pos 1))
