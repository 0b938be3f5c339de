-- ===== src/Node/Timer/Cache.antt =====
-- The cache, and when a node asks its parent to let it go.
use p2p_live_streming_system.Prelude.{
  ◌+◌, ◌≡◌, List, ◌∷◌, [], ◌++◌, ℕ, Bool, true, ◌&&◌, if◌then◌else◌,
}
use p2p_live_streming_system.Prelude.Int.{pos, ◌-ℤ◌, ltb_ℤ}
use p2p_live_streming_system.Words.{u64}
use p2p_live_streming_system.Wire.{copy_node_status_to_bytes}
use p2p_live_streming_system.Time.{eq_ℤ}
use p2p_live_streming_system.Packet.{packet_generate}
use p2p_live_streming_system.Node.{Node, World, bit, parent_id, my_status, cache_tlv, default_cache}
use p2p_live_streming_system.Node.Send.{depart_proto}
use p2p_live_streming_system.Node.Timer.{exceeded, five_seconds, buffer_dt_sec, played_intarval}

-- Another second of a node that plays is over.
abbrev pub plays : Node → World → Bool
plays n w = n.is_begin_playing && exceeded n w 70 n.played_timestamp played_intarval

-- The parent is to be asked: the cache is below 160 while the node streams, five seconds are over
-- since the last time, and the parent is connected.
abbrev pub asks : Node → World → Node → Bool
asks n w m =
    ltb_ℤ m.current_cache (pos cache_tlv)
    && (m.is_begin_streaming
        && (exceeded n w 90 n.depart_timestamp five_seconds && bit n.connected_nodes parent_id))

-- The frame of a DEPART to the parent.
abbrev pub depart_frame : Node → List ℕ
depart_frame n =
    packet_generate n.source (n.dst parent_id)
      (depart_proto ∷ copy_node_status_to_bytes (my_status n))

-- What one round leaves of a node that is not the origin.
pub record HasCache (n : Node) (w : World) (m : Node) : Type 0 where
  pub total : m.total_buffer ≡ n.total_block_num
  pub played :
      m.played_buffer
      ≡ (if plays n w then u64 (n.played_buffer + buffer_dt_sec) else n.played_buffer)
  pub cache : m.current_cache ≡ pos m.total_buffer -ℤ pos m.played_buffer
  pub begun :
      m.is_begin_playing
      ≡ (if eq_ℤ m.current_cache (pos default_cache) then true else n.is_begin_playing)
  pub streaming :
      m.is_begin_streaming
      ≡ (if eq_ℤ m.current_cache (pos default_cache) then true else n.is_begin_streaming)

-- A DEPART goes to the parent exactly when the node asks, and nothing else is sent.
abbrev pub AsksParent : Node → World → Node → Type 0
AsksParent n w m = m.sent ≡ (if asks n w m then n.sent ++ (depart_frame n ∷ []) else n.sent)

-- What the parts of the round before the request leave alone.
abbrev Aside : Node → Node → Type 0
Aside n m =
    (m.start_timestamp ≡ n.start_timestamp)
    × (m.depart_timestamp ≡ n.depart_timestamp)
    × (m.connected_nodes ≡ n.connected_nodes)
    × (m.source ≡ n.source)
    × (m.dst ≡ n.dst)
    × (m.nodes_status ≡ n.nodes_status)
    × (m.sent ≡ n.sent)

record AfterPlayed (n : Node) (w : World) (m : Node) : Type 0 where
  total : m.total_buffer ≡ n.total_block_num
  played :
      m.played_buffer
      ≡ (if plays n w then u64 (n.played_buffer + buffer_dt_sec) else n.played_buffer)
  begun : m.is_begin_playing ≡ n.is_begin_playing
  streaming : m.is_begin_streaming ≡ n.is_begin_streaming
  aside : Aside n m
