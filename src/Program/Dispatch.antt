-- ===== src/Program/Dispatch.antt =====
-- The count of the children in the dispatch on the protocol byte (src/peer/main.c,
-- src/originsource/main.c).
use p2p_live_streming_system.Prelude.{
  ℕ, ◌≡◌, List, [], ◌∷◌, true, false, Bool, Bool-cases, inl, inr, ◌==◌, ==_iff, if◌then◌else◌, Buf,
}
use p2p_live_streming_system.Wire.{copy_bytes_to_node_status}
use p2p_live_streming_system.Fault.{Result, ok, err, Ensures, ◌>>=◌}
use p2p_live_streming_system.Store.Assemble.{Assembled, running, finished, assemble_block}
use p2p_live_streming_system.Node.{
  Node, World, bit, parent_id, my_status, renew_dst_ip_and_mac, send_packet,
}
use p2p_live_streming_system.Node.Send.{initial_status_proto, depart_proto, detach_proto, send_id}
use p2p_live_streming_system.Node.Join.{node_id}
use p2p_live_streming_system.Node.Exchange.{node_res_list}
use p2p_live_streming_system.Node.Invariant.{Counted, node_setup-Counted}
use p2p_live_streming_system.Node.Steps.{
  Connected, node_connect-Counted, node_depart-Counted, node_detach-Counted, node_accept-Counted,
  node_unaccept-Counted, node_keepalive-Counted, node_keepalive_res-Counted, node_req_list-Counted,
  node_initial_status-Counted, node_advertise-Counted,
}
use p2p_live_streming_system.Program.{Program, with_store}
use p2p_live_streming_system.Program.Receive.{
  Outcome, goes_on, ended, select, handled, handle_block, peer_dispatch, origin_dispatch,
}

-- Each entry of a table that is taken for `k` has the property.
abbrev Cases {ℓ κ} : {A : Type ℓ} → ℕ → (A → Type κ) → List (ℕ × A) → Type κ
Cases k P [] = Unit
Cases k P ((key, v) ∷ l) = (k ≡ key → P v) × Cases k P l

infixr 4 ◌&◌
◌&◌ {ℓ κ} : {A : Type ℓ} {B : Type κ} → A → B → A × B
h & rest = (h, rest)

select-Cases {ℓ κ} :
    {A : Type ℓ} (k : ℕ) (P : A → Type κ) (l : List (ℕ × A)) (v : A)
    → Cases k P l
    → P v
    → P (select k l v)
unfolding select
select-Cases k P [] v h d = d
select-Cases k P ((key, value) ∷ l) v h d = elim (Bool-cases (k == key)) [
  | inl e ↦ rw e (h.0 ((==_iff k key).0 e))
  | inr e ↦ rw e (select-Cases k P l v h.1 d)
]

-- A program that goes on has a right count.
abbrev pub StaysCounted : Outcome → Type 0
StaysCounted (goes_on p) = Counted p.node
StaysCounted (ended s) = Unit

-- What the handlers rely on: statuses arrive only at a node without a parent, a departing id stands
-- only in connected slots, and a detach arrives only from a parent that is connected.
pub record IsExpected (n : Node) (protocol : ℕ) (recv_data : Buf) : Type 0 where
  pub initial_status : protocol ≡ initial_status_proto → bit n.connected_nodes parent_id ≡ false
  pub depart :
      protocol ≡ depart_proto → Connected n (copy_bytes_to_node_status (my_status n) recv_data).id
  pub detach : protocol ≡ detach_proto → bit n.connected_nodes parent_id ≡ true

handled-StaysCounted :
    (p : Program) (r : Result Node) → Ensures Counted r → Ensures StaysCounted (handled p r)
handled-StaysCounted p (ok n) h = h
handled-StaysCounted p (err f) h = tt

handle_block-StaysCounted :
    (p : Program) (recv_data : Buf) (data_bytes : ℕ)
    → Counted p.node
    → Ensures StaysCounted (handle_block p recv_data data_bytes)
handle_block-StaysCounted p recv_data data_bytes h =
    go (assemble_block p.store recv_data data_bytes)
  where
    go :
        (r : Result Assembled)
        → Ensures StaysCounted (
            r >>= λ assembled. elim assembled [
              | running s ↦ ok (goes_on (with_store p s))
              | finished s ↦ ok (ended s)
            ])
    go (ok (running s)) = h
    go (ok (finished s)) = tt
    go (err f) = tt

pub peer_dispatch-StaysCounted :
    (p : Program) (w : World) (recv_data : Buf) (protocol data_bytes saddr source : ℕ)
    → Counted p.node
    → IsExpected p.node protocol recv_data
    → Ensures StaysCounted (peer_dispatch p w recv_data protocol data_bytes saddr source)
unfolding peer_dispatch node_id node_res_list
peer_dispatch-StaysCounted p w recv_data protocol data_bytes saddr source h expected =
    let n = p.node in
    select-Cases protocol (Ensures StaysCounted) _ _
      ((λ e. handled-StaysCounted p _ (node_setup-Counted n w recv_data saddr source h))
        & (λ e. h)
        & (λ e. node_initial_status-Counted n w recv_data data_bytes h (expected.initial_status e))
        & (λ e. node_advertise-Counted n w recv_data data_bytes h)
        & (λ e. handle_block-StaysCounted p recv_data data_bytes h)
        & (λ e. handled-StaysCounted p _ (node_connect-Counted n w recv_data h))
        & (λ e. node_depart-Counted n w recv_data h (expected.depart e))
        & (λ e. handled-StaysCounted p _ (node_detach-Counted n w recv_data h (expected.detach e)))
        & (λ e. handled-StaysCounted p _ (node_req_list-Counted n recv_data h))
        & (λ e. h)
        & (λ e. node_accept-Counted n w recv_data h)
        & (λ e. handled-StaysCounted p _ (node_unaccept-Counted n recv_data h))
        & (λ e. node_keepalive-Counted n recv_data h)
        & (λ e. node_keepalive_res-Counted n w recv_data h)
        & tt)
      h

send_id-Counted :
    (n : Node) (c : Bool) (saddr source : ℕ)
    → Counted n
    → Counted (if c then send_id n saddr source else n)
unfolding send_id renew_dst_ip_and_mac send_packet
send_id-Counted n true saddr source h = h
send_id-Counted n false saddr source h = h

pub origin_dispatch-StaysCounted :
    (p : Program) (w : World) (recv_data : Buf) (protocol data_bytes saddr source : ℕ)
    → Counted p.node
    → IsExpected p.node protocol recv_data
    → Ensures StaysCounted (origin_dispatch p w recv_data protocol data_bytes saddr source)
unfolding origin_dispatch
origin_dispatch-StaysCounted p w recv_data protocol data_bytes saddr source h expected =
    let n = p.node in
    select-Cases protocol (Ensures StaysCounted) _ _
      ((λ e. handled-StaysCounted p _ (
          node_setup-Counted _ w recv_data saddr source
            (send_id-Counted n (data_bytes == 4) saddr source h)))
        & (λ e. node_initial_status-Counted n w recv_data data_bytes h (expected.initial_status e))
        & (λ e. node_advertise-Counted n w recv_data data_bytes h)
        & (λ e. h)
        & (λ e. handled-StaysCounted p _ (node_connect-Counted n w recv_data h))
        & (λ e. node_depart-Counted n w recv_data h (expected.depart e))
        & (λ e. handled-StaysCounted p _ (node_detach-Counted n w recv_data h (expected.detach e)))
        & (λ e. handled-StaysCounted p _ (node_req_list-Counted n recv_data h))
        & (λ e. h)
        & (λ e. h)
        & (λ e. h)
        & (λ e. node_keepalive-Counted n recv_data h)
        & (λ e. node_keepalive_res-Counted n w recv_data h)
        & tt)
      h
