-- ===== src/Supervisor/Hub/Steps.antt =====
-- cmd/supervisor/main.go: the steps of the goroutines that share the hub.
use pingmon.Prelude.{ℕ, Bool, true, false, some, get_elem?, ◌≡◌, ◌<◌}
use pingmon.Prelude.Text.{Text}
use pingmon.Supervisor.Hub.{
  Hub, is_client, add_client, forget_client, close_client, close_conn, write_message, write_ping,
  stop_writer, broadcast_bytes, Offer, may_take, try_offer,
}

-- A write on a closed connection fails.
pub data Step : Hub → Hub → Type 0 where
  connect : (h : Hub) → Step h (add_client h)
  leave : (h : Hub) (c : ℕ) → c < h.created → Step h (forget_client c h)
  close : (h : Hub) (c : ℕ) → is_client c h.closing ≡ true → Step h (close_client c h)
  hang_up : (h : Hub) (c : ℕ) → is_client c h.ending ≡ true → Step h (close_conn c h)
  write :
      (h : Hub) (c : ℕ) (ok : Bool)
      → c < h.created
      → (h.client c).writer_ended ≡ false
      → (ok ≡ true → (h.client c).conn_open ≡ true)
      → Step h (write_message c ok h)
  ping :
      (h : Hub) (c : ℕ) (ok : Bool)
      → c < h.created
      → (h.client c).writer_ended ≡ false
      → (ok ≡ true → (h.client c).conn_open ≡ true)
      → Step h (write_ping c ok h)
  stop : (h : Hub) (c : ℕ) → (h.client c).done ≡ true → Step h (stop_writer c h)
  broadcast : (h : Hub) (payload : Text) → Step h (broadcast_bytes payload h)
  offer :
      (h : Hub) (i : ℕ) (payload : Text) (c : ℕ) (o : Offer)
      → get_elem? h.offers i ≡ some (payload, c)
      → may_take (h.client c) o ≡ true
      → Step h (try_offer i payload c o h)

pub data Reach (h : Hub) : Hub → Type 0 where
  here : Reach h h
  next : {g k : Hub} → Reach h g → Step g k → Reach h k
