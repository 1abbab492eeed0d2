-- ===== src/Supervisor/Hub.antt =====
-- cmd/supervisor/main.go: the hub of the dashboard's websockets, from `newWebsocketHub` to
-- `broadcastJSON`. A client is named by the number of those created before it. What happens under the
-- lock, on one channel or on one connection is one step, and the steps of the goroutines interleave.
pub mod Steps
pub mod Invariant
pub mod Closing
use pingmon.Prelude.{
  ℕ, zero, suc, ◌+◌, Bool, true, false, not, ◌&&◌, ◌||◌, List, [], ◌∷◌, ◌++◌, Option, none, some,
  ltb, ◌==◌, if◌then◌else◌, length,
}
use pingmon.Prelude.Text.{Text, codes}

-- The capacity of `send`.
abbrev pub send_capacity : ℕ
send_capacity = 16

-- `queued` is all that `send` has ever taken, and `lost` what a failed write took from it; a closed
-- `done` is true, and `written` is what the connection has taken.
pub record Client : Type 0 where
  pub send : List Text
  pub queued : List Text
  pub done : Bool
  pub conn_open : Bool
  pub written : List Text
  pub lost : List Text
  pub writer_ended : Bool

-- `closing` are the clients that calls of `remove` have deleted and whose `done` they have still to
-- close, `ending` those whose connection they have then still to close, and `offers` the
-- sends that calls of `broadcastBytes` have still to try, in any order, as a map is iterated. The
-- program panics when it closes a channel twice.
pub record Hub : Type 0 where
  pub clients : List ℕ
  pub client : ℕ → Client
  pub created : ℕ
  pub closing : List ℕ
  pub ending : List ℕ
  pub offers : List (Text × ℕ)
  pub panicked : Bool

abbrev pub new_client : Client
new_client = record {
  send = codes "connected" ∷ [];
  queued = codes "connected" ∷ [];
  done = false;
  conn_open = true;
  written = [];
  lost = [];
  writer_ended = false;
}

abbrev pub new_websocket_hub : Hub
new_websocket_hub = record {
  clients = [];
  client = λ c. new_client;
  created = 0;
  closing = [];
  ending = [];
  offers = [];
  panicked = false;
}

unfoldable pub put_client : ℕ → Client → (ℕ → Client) → ℕ → Client
put_client c v f d = if d == c then v else f d

unfoldable pub is_client : ℕ → List ℕ → Bool
is_client c [] = false
is_client c (d ∷ ds) = d == c || is_client c ds

-- `delete(h.clients, c)`.
unfoldable pub without : ℕ → List ℕ → List ℕ
without c [] = []
without c (d ∷ ds) = let rest = without c ds in if d == c then rest else d ∷ rest

-- `add`; its client is not shared before it is in the map.
unfoldable pub add_client : Hub → Hub
unfolding put_client
add_client h = record h {
  clients = h.created ∷ h.clients;
  client = put_client h.created new_client h.client;
  created = suc h.created;
}

-- The part of `remove` under the lock.
unfoldable pub forget_client : ℕ → Hub → Hub
unfolding is_client without
forget_client c h =
    if is_client c h.clients
    then record h { clients = without c h.clients; closing = c ∷ h.closing }
    else h

-- `close(c.done)` in `remove`.
unfoldable pub close_client : ℕ → Hub → Hub
unfolding put_client without
close_client c h = record h {
  client = put_client c (record (h.client c) { done = true }) h.client;
  closing = without c h.closing;
  ending = c ∷ h.ending;
  panicked = h.panicked || (h.client c).done;
}

-- `c.conn.Close()` in `remove`.
unfoldable pub close_conn : ℕ → Hub → Hub
unfolding put_client without
close_conn c h = record h {
  client = put_client c (record (h.client c) { conn_open = false }) h.client;
  ending = without c h.ending;
}

-- `remove`, without a goroutine between its parts.
unfoldable pub remove_client : ℕ → Hub → Hub
remove_client c h =
    if is_client c h.clients then close_conn c (close_client c (forget_client c h)) else h

-- The case of `send` in `runWriter`, and whether the write succeeds.
unfoldable pub write_message : ℕ → Bool → Hub → Hub
unfolding put_client forget_client
write_message c ok h =
    let v = h.client c in
    elim v.send [
      | [] ↦ h
      | m ∷ ms ↦
          if ok
          then record h {
            client = put_client c (record v { send = ms; written = v.written ++ m ∷ [] }) h.client;
          }
          else forget_client c (record h {
            client =
                put_client c (record v { send = ms; lost = m ∷ []; writer_ended = true }) h.client;
          })
    ]

-- The case of the ticker.
unfoldable pub write_ping : ℕ → Bool → Hub → Hub
unfolding put_client forget_client
write_ping c ok h =
    if ok
    then h
    else forget_client c
        (record h { client = put_client c (record (h.client c) { writer_ended = true }) h.client })

-- The case of `done`.
unfoldable pub stop_writer : ℕ → Hub → Hub
unfolding put_client
stop_writer c h = record h {
  client = put_client c (record (h.client c) { writer_ended = true }) h.client;
}

abbrev offers_to : Text → List ℕ → List (Text × ℕ)
offers_to payload [] = []
offers_to payload (c ∷ cs) = (payload, c) ∷ offers_to payload cs

-- The part of `broadcastBytes` under the lock.
unfoldable pub broadcast_bytes : Text → Hub → Hub
broadcast_bytes payload h = record h { offers = offers_to payload h.clients ++ h.offers }

-- `broadcastJSON`, of what json.Marshal gives.
unfoldable pub broadcast_json : Option Text → Hub → Hub
unfolding broadcast_bytes
broadcast_json none h = broadcast_bytes (codes "refresh") h
broadcast_json (some payload) h = broadcast_bytes payload h

abbrev pub without_at : ℕ → List (Text × ℕ) → List (Text × ℕ)
without_at i [] = []
without_at zero (o ∷ os) = os
without_at (suc i) (o ∷ os) = o ∷ without_at i os

-- The outcomes of the `select` in `broadcastBytes`.
pub data Offer : Type 0 where
  gone : Offer
  sent : Offer
  dropped : Offer

-- Whether the case may be taken; the default only if no other may.
abbrev pub may_take : Client → Offer → Bool
may_take v gone = v.done
may_take v sent = ltb (length v.send) send_capacity
may_take v dropped = not v.done && not (ltb (length v.send) send_capacity)

unfoldable pub try_offer : ℕ → Text → ℕ → Offer → Hub → Hub
unfolding put_client forget_client
try_offer i payload c gone h = record h { offers = without_at i h.offers }
try_offer i payload c sent h =
    let v = h.client c in
    record h {
      client =
          put_client c
            (record v { send = v.send ++ payload ∷ []; queued = v.queued ++ payload ∷ [] })
            h.client;
      offers = without_at i h.offers;
    }
try_offer i payload c dropped h = forget_client c (record h { offers = without_at i h.offers })

-- `closeAll`, which no goroutine interrupts.
unfoldable pub close_all : List ℕ → Hub → Hub
unfolding remove_client
close_all [] h = h
close_all (c ∷ cs) h = close_all cs (remove_client c h)
