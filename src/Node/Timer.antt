-- ===== src/Node/Timer.antt =====
-- The timer thread (src/common/p2p.c: TimeProcess, CalPlayedBuffer): one round of its loop.
-- The argument of `now` numbers the places where the clock is read; NodeRetry reads it behind a place
-- of its own.
pub mod Timeout
pub mod Cache
pub mod Phases
pub mod Round
mod Tests
use p2p_live_streming_system.Prelude.{
  ℕ, zero, suc, ◌+◌, ◌*◌, ◌/◌, ◌%◌, ◌^◌, List, [], ◌∷◌, Bool, true, false, ◌==◌, ◌&&◌,
  if◌then◌else◌,
}
use p2p_live_streming_system.Prelude.Int.{ℤ, pos, ◌-ℤ◌, ltb_ℤ}
use p2p_live_streming_system.Words.{u64, htonl}
use p2p_live_streming_system.Wire.{NodeStatus, Timeval}
use p2p_live_streming_system.Time.{diff_current_time, is_exceed_time, seconds, eq_ℤ}
use p2p_live_streming_system.Fault.{Result, ok, ◌>>=◌}
use p2p_live_streming_system.Node.{
  Node, World, bit, clear_bit, parent_id, tmp_id, origin_id, my_status, max_node_num, default_cache,
  cache_tlv, stamp, renew_dst_ip_and_mac,
}
use p2p_live_streming_system.Node.Slots.{g_to_pip}
use p2p_live_streming_system.Node.Send.{send_keepalive, send_setup, send_req_list, send_depart}
use p2p_live_streming_system.Node.Reconnect.{node_retry}

-- TIMEPROCESS_INTARVAL, from INTARVAL_SEC and INTARVAL_MSEC.
abbrev pub timeprocess_intarval : Timeval
timeprocess_intarval = record { tv_sec = pos 3; tv_usec = pos 5000 }

-- KEEPALIVE_TLV_INTARVAL, LISTUPDATE_TLV_INTARVAL and DEPART_INTARVAL are the same.
abbrev pub five_seconds : Timeval
five_seconds = seconds 5

abbrev pub played_intarval : Timeval
played_intarval = seconds 1

abbrev pub buffer_dt_sec : ℕ
buffer_dt_sec = 1

-- DiffCurrentTime and IsExceedTime at the `k`-th place.
abbrev pub exceeded : Node → World → ℕ → Timeval → Timeval → Bool
exceeded n w k timestamp intarval =
    is_exceed_time (diff_current_time n.start_timestamp (w.now k) timestamp) intarval

abbrev pub later : World → ℕ → World
later w k = record w { now = λ i. w.now (k + i) }

unfoldable pub send_keepalives : ℕ → ℕ → Node → Node
send_keepalives zero i n = n
send_keepalives (suc rounds) i n =
    send_keepalives rounds (i + 1) (if bit n.connected_nodes i then send_keepalive n i else n)

unfoldable pub keepalive_phase : Node → World → Node
keepalive_phase n w =
    if exceeded n w 0 n.timestamp timeprocess_intarval
    then send_keepalives max_node_num 0 (record n { timestamp = stamp n w 1 })
    else n

unfoldable pub setup_phase : Node → World → Node
setup_phase n w =
    if n.is_setup && exceeded n w 2 n.setup_timestamp five_seconds
    then send_setup (record n { setup_timestamp = stamp n w 3 })
    else n

abbrev pub is_zero_time : Timeval → Bool
is_zero_time t = eq_ℤ t.tv_sec (pos 0) && eq_ℤ t.tv_usec (pos 0)

-- A slot that has timed out; InitNodeStatus works on a copy.
abbrev pub drop_slot : Node → ℕ → Node
drop_slot n id = record n {
  connected_nodes = clear_bit n.connected_nodes id;
  current_child_num = n.current_child_num -ℤ pos 1;
}

-- One round of the loop over the slots.
unfoldable pub timeout_round : ℕ → World → Node → Result Node
timeout_round id w n =
    if bit n.connected_nodes id
    then (let timestamp = (n.nodes_status id).timestamp in
        if is_zero_time timestamp
        then ok n
        else if exceeded n w (10 * (id + 1)) timestamp five_seconds
        then (if id == parent_id
            then node_retry (drop_slot n id) (later w (10 * (id + 1) + 1))
            else ok (drop_slot n id))
        else ok n)
    else ok n

unfoldable pub timeout_phase : Node → World → Result Node
timeout_phase n w =
    timeout_round 0 w n >>= timeout_round 1 w >>= timeout_round 2 w >>= timeout_round 3 w

-- The loop over the list.
unfoldable pub send_req_lists : List NodeStatus → Node → Node
send_req_lists [] n = n
send_req_lists (s ∷ l) n =
    send_req_lists l
      (send_req_list (renew_dst_ip_and_mac n (htonl (g_to_pip n s)) s.port tmp_id) tmp_id)

unfoldable pub list_phase : Node → World → Node
list_phase n w =
    if exceeded n w 50 n.listupdate_timestamp five_seconds && bit n.connected_nodes parent_id
    then send_req_lists n.nodes_list
        (send_req_list (record n { listupdate_timestamp = stamp n w 51 }) parent_id)
    else n

unfoldable pub retry_phase : Node → World → Result Node
retry_phase n w =
    if n.is_retry && exceeded n w 60 n.retry_timestamp five_seconds
    then node_retry n (later w 61)
    else ok n

-- CalPlayedBuffer
unfoldable pub cal_played_buffer : Node → World → Node
cal_played_buffer n w =
    if (my_status n).id == origin_id
    then n
    else (let n' = record n { total_buffer = n.total_block_num } in
        if n'.is_begin_playing && exceeded n' w 70 n'.played_timestamp played_intarval
        then record n' {
          played_timestamp = stamp n' w 71;
          played_buffer = u64 (n'.played_buffer + buffer_dt_sec);
        }
        else n')

-- The cache: a u64 difference that is stored as a signed number, exact below 2^63.
unfoldable pub cache_phase : Node → World → Node
cache_phase n w =
    let n' = record n { current_cache = pos n.total_buffer -ℤ pos n.played_buffer } in
    if eq_ℤ n'.current_cache (pos default_cache)
    then record n' {
      is_begin_streaming = true;
      is_begin_playing = true;
      played_timestamp = stamp n' w 80;
    }
    else n'

unfoldable pub depart_phase : Node → World → Node
depart_phase n w =
    if ltb_ℤ n.current_cache (pos cache_tlv)
      && (n.is_begin_streaming && exceeded n w 90 n.depart_timestamp five_seconds)
    then (let n' = record n { depart_timestamp = stamp n w 91 } in
        if bit n'.connected_nodes parent_id then send_depart n' else n')
    else n

-- The last part of a round.
unfoldable pub buffer_phases : Node → World → Node
buffer_phases n w = depart_phase (cache_phase (cal_played_buffer n w) w) w

-- One round of TimeProcess.
unfoldable pub time_process : Node → World → Result Node
time_process n w = do
  n1 ← timeout_phase (setup_phase (keepalive_phase n w) w) w
  n2 ← retry_phase (list_phase n1 w) w
  ok (buffer_phases n2 w)
