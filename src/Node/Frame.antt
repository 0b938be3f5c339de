-- ===== src/Node/Frame.antt =====
-- The slots under the functions that send (src/common/p2p.c).
use p2p_live_streming_system.Prelude.{
  ℕ, ◌≡◌, refl, ◌∙◌, List, ◌++◌, Option, some, none, Bool, true, false, ltb, if◌then◌else◌, length,
  take, replicate,
}
use p2p_live_streming_system.Prelude.Int.{ℤ}
use p2p_live_streming_system.Fault.{Result, ok, err, buffer_overflow, Ensures, ◌>>=◌}
use p2p_live_streming_system.Node.{Node, send_packet}
use p2p_live_streming_system.Node.Send.{
  send_buffer, send_initial_status, send_advertise, send_res_list, send_webm_header, int_to_u16,
  max_data_bytes,
}

pub record SameSlots (n m : Node) : Type 0 where
  pub count : m.current_child_num ≡ n.current_child_num
  pub connected : m.connected_nodes ≡ n.connected_nodes

pub SameSlots-trans : {a b c : Node} → SameSlots a b → SameSlots b c → SameSlots a c
SameSlots-trans f g = record { count = g.count ∙ f.count; connected = g.connected ∙ f.connected }

pub Ensures-bind {ℓ} :
    {A : Type ℓ} (Q : Node → Type 0) (m : Result A) (f : A → Result Node)
    → ((a : A) → Ensures Q (f a))
    → Ensures Q (m >>= f)
Ensures-bind Q (ok a) f k = k a
Ensures-bind Q (err e) f k = tt

-- The same behind a call that leaves the slots alone.
pub SameSlots-bind :
    (n : Node) (Q : Node → Type 0) (m : Result Node) (f : Node → Result Node)
    → Ensures (SameSlots n) m
    → ((a : Node) → SameSlots n a → Ensures Q (f a))
    → Ensures Q (m >>= f)
SameSlots-bind n Q (ok a) f p k = k a p
SameSlots-bind n Q (err e) f p k = tt

pub send_buffer-SameSlots :
    (n : Node) (content : List ℕ) (data_bytes : ℤ) (dst_id : ℕ)
    → Ensures (SameSlots n) (send_buffer n content data_bytes dst_id)
unfolding send_buffer send_packet
send_buffer-SameSlots n content data_bytes dst_id =
    split (ltb max_data_bytes (length content)) (ltb max_data_bytes (int_to_u16 data_bytes))
  where
    sent : Node
    sent =
        send_packet n (take (int_to_u16 data_bytes) (content ++ replicate max_data_bytes 0)) dst_id

    split :
        (a b : Bool)
        → Ensures
            (SameSlots n)
            (if a then err buffer_overflow else if b then err buffer_overflow else ok sent)
    split true b = tt
    split false true = tt
    split false false = record { count = refl; connected = refl }

pub send_initial_status-SameSlots :
    (n : Node) (dst_id : ℕ) → Ensures (SameSlots n) (send_initial_status n dst_id)
unfolding send_initial_status
send_initial_status-SameSlots n dst_id = send_buffer-SameSlots n _ _ dst_id

pub send_webm_header-SameSlots :
    (n : Node) (dst_id : ℕ) → Ensures (SameSlots n) (send_webm_header n dst_id)
unfolding send_webm_header
send_webm_header-SameSlots n dst_id = send_buffer-SameSlots n _ _ dst_id

pub send_res_list-SameSlots :
    (n : Node) (dst_id : ℕ) → Ensures (SameSlots n) (send_res_list n dst_id)
unfolding send_res_list
send_res_list-SameSlots n dst_id = send_buffer-SameSlots n _ _ dst_id

pub send_advertise-SameSlots :
    (n : Node) (dst_id : ℕ) (ad_id : Option ℕ)
    → Ensures (SameSlots n) (send_advertise n dst_id ad_id)
unfolding send_advertise
send_advertise-SameSlots n dst_id none = tt
send_advertise-SameSlots n dst_id (some ad_id) = send_buffer-SameSlots n _ _ dst_id
