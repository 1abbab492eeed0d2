-- ===== src/Tests/Hubs.antt =====
-- Tests of the hub of cmd/supervisor/main.go: two clients connect, a message is queued for one and
-- written, the other leaves while its offer is still to come.
use pingmon.Prelude.{
  ℕ, none, ◌≤◌, true, false, not, ◌||◌, List, [], ◌∷◌, ◌++◌, ltb, length, ◌≡◌, refl, arith,
}
use pingmon.Prelude.Text.{Text, codes}
use pingmon.Supervisor.Hub.{
  send_capacity, Hub, new_websocket_hub, put_client, is_client, without, add_client, forget_client,
  close_client, close_conn, remove_client, write_message, broadcast_bytes, broadcast_json, sent,
  try_offer, close_all,
}
use pingmon.Supervisor.Hub.Steps.{Reach, here, next, connect, broadcast, offer, write, leave}
use pingmon.Supervisor.Hub.Invariant.{bit, IsPlaced}
use pingmon.Supervisor.Hub.Closing.{Reach-IsPlaced, Reach-in_order, shut_down, shut_down-Reach}

-- Unfolds what the tests run through.
program : Unit {0}
unfolding put_client is_client without add_client forget_client close_client close_conn
    remove_client write_message broadcast_bytes broadcast_json try_offer close_all
program = tt

abbrev refresh : Text
refresh = codes "refresh"

abbrev two : Hub
two = add_client (add_client new_websocket_hub)

abbrev offered : Hub
offered = try_offer 0 refresh 1 sent (broadcast_bytes refresh two)

abbrev half_left : Hub
half_left = forget_client 0 (write_message 1 true offered)

half_left_reached : Reach new_websocket_hub half_left
unfolding program
half_left_reached =
    next
      (next
        (next (next (next (next here (connect _)) (connect _)) (broadcast two refresh))
          (offer _ 0 refresh 1 sent refl refl))
        (write offered 1 true (omega arith) refl (λ e. refl)))
      (leave _ 0 (omega arith))

runs :
    (half_left.clients ≡ 1 ∷ [])
    × (half_left.closing ≡ 0 ∷ [])
    × ((half_left.client 1).send ≡ refresh ∷ [])
    × ((broadcast_json none two).offers ≡ (refresh, 1) ∷ (refresh, 0) ∷ [])
    × ((close_client 0 half_left).panicked ≡ false)
    × (((close_client 0 half_left).client 0).conn_open ≡ true)
    × (((remove_client 1 half_left).client 1).conn_open ≡ false)
    × ((close_client 0 (close_client 0 half_left)).panicked ≡ true)
unfolding program
runs = (refl, refl, refl, refl, refl, refl, refl, refl)

Reach-IsPlaced_example : (half_left.panicked ≡ false) × ((c : ℕ) → IsPlaced half_left c)
Reach-IsPlaced_example = Reach-IsPlaced half_left_reached

Reach-in_order_example :
    ((half_left.client 1).written ++ ((half_left.client 1).lost ++ (half_left.client 1).send)
      ≡ (half_left.client 1).queued)
    × (length (half_left.client 1).send ≤ send_capacity)
    × ((half_left.client 1).conn_open
        ≡ (not (half_left.client 1).done || is_client 1 half_left.ending))
    × (length (half_left.client 1).lost ≤ bit (half_left.client 1).writer_ended)
    × ((rest : List Text) × ((half_left.client 1).queued ≡ codes "connected" ∷ rest))
Reach-in_order_example = Reach-in_order 1 half_left_reached

shut_down-Reach_example :
    Reach new_websocket_hub (shut_down half_left)
    × ((shut_down half_left).clients ≡ [])
    × ((c : ℕ) → ((shut_down half_left).client c).done ≡ ltb c half_left.created)
    × ((c : ℕ) → ((shut_down half_left).client c).conn_open ≡ not (ltb c half_left.created))
shut_down-Reach_example = shut_down-Reach half_left_reached
