-- ===== src/Supervisor/Hub/Invariant.antt =====
-- cmd/supervisor/main.go: what holds of the hub whatever its goroutines do.
use mathlib.Core.List.{append_assoc}
use pingmon.Prelude.{
  ℕ, suc, ◌+◌, ◌≤◌, Bool, true, false, List, [], ◌∷◌, ◌++◌, ltb, ◌==◌, if◌then◌else◌, length,
  length-append, List-cases, ◌≡◌, inl, inr, refl, sym, ap, ◌∙◌, arith, Bool-cases, ltb→lt,
}
use pingmon.Prelude.Text.{Text, codes}
use pingmon.Supervisor.Hub.{
  send_capacity, Client, Hub, new_client, new_websocket_hub, put_client, is_client, without,
  add_client, forget_client, close_client, close_conn, write_message, write_ping, stop_writer,
  broadcast_bytes, Offer, gone, sent, dropped, may_take, without_at, try_offer,
}
use pingmon.Supervisor.Hub.Steps.{
  Step, connect, leave, close, hang_up, write, ping, stop, broadcast, offer, Reach, here, next,
}

abbrev pub occurrences : ℕ → List ℕ → ℕ
occurrences c [] = 0
occurrences c (d ∷ ds) = if d == c then suc (occurrences c ds) else occurrences c ds

abbrev pub bit : Bool → ℕ
bit true = 1
bit false = 0

pub occurrences-without :
    (c d : ℕ) (ds : List ℕ)
    → occurrences d (without c ds) ≡ (if d == c then 0 else occurrences d ds)
unfolding without
occurrences-without c d [] = ground arith
occurrences-without c d (e ∷ ds) = ground (arith, occurrences-without c d ds)

pub is_client-occurrences : (c : ℕ) (ds : List ℕ) → is_client c ds ≡ ltb 0 (occurrences c ds)
unfolding is_client
is_client-occurrences c [] = refl
is_client-occurrences c (d ∷ ds) = ground (arith, is_client-occurrences c ds)

put_client-keeps :
    (P : Client → Type 0) (c : ℕ) (v : Client) (f : ℕ → Client)
    → P v
    → ((d : ℕ) → P (f d))
    → (d : ℕ) → P (put_client c v f d)
unfolding put_client
put_client-keeps P c v f p h d = elim (Bool-cases (d == c)) [
  | inl same ↦ rw same p
  | inr other ↦ rw other (h d)
]

put_client-done :
    (c : ℕ) (v : Client) (f : ℕ → Client) (d : ℕ)
    → v.done ≡ (f c).done
    → (put_client c v f d).done ≡ (f d).done
unfolding put_client
put_client-done c v f d e = elim (Bool-cases (d == c)) [
  | inl same ↦ let at : c ≡ d = ground arith in rw same (e ∙ ap (λ x. (f x).done) at)
  | inr other ↦ rw other refl
]

put_client-conn_open :
    (c : ℕ) (v : Client) (f : ℕ → Client) (d : ℕ)
    → v.conn_open ≡ (f c).conn_open
    → (put_client c v f d).conn_open ≡ (f d).conn_open
unfolding put_client
put_client-conn_open c v f d e = elim (Bool-cases (d == c)) [
  | inl same ↦ let at : c ≡ d = ground arith in rw same (e ∙ ap (λ x. (f x).conn_open) at)
  | inr other ↦ rw other refl
]

-- A client that was created is in the map, or being closed, or closed; each other nowhere.
abbrev pub IsPlaced : Hub → ℕ → Type 0
IsPlaced h c =
    occurrences c h.clients + occurrences c h.closing + bit (h.client c).done
    ≡ bit (ltb c h.created)

-- What a client's channel took is what was written, what a failed write lost, and what it holds.
abbrev pub IsInOrder : Client → Type 0
IsInOrder v =
    (v.written ++ (v.lost ++ v.send) ≡ v.queued)
    × (length v.send ≤ send_capacity)
    × (length v.lost ≤ bit v.writer_ended)
    × ((rest : List Text) × (v.queued ≡ codes "connected" ∷ rest))

-- The connection of a client is open until its `done` is closed, and then until the call of `remove`
-- that closed it closes the connection too.
abbrev pub IsConnected : Hub → ℕ → Type 0
IsConnected h c = bit (h.client c).conn_open + bit (h.client c).done ≡ suc (occurrences c h.ending)

pub record Inv (h : Hub) : Type 0 where
  pub calm : h.panicked ≡ false
  pub placed : (c : ℕ) → IsPlaced h c
  pub connected : (c : ℕ) → IsConnected h c
  pub in_order : (c : ℕ) → IsInOrder (h.client c)

new_client-IsInOrder : IsInOrder new_client
new_client-IsInOrder = (refl, omega arith, omega arith, ([], refl))

pub new_websocket_hub-Inv : Inv new_websocket_hub
new_websocket_hub-Inv = record {
  calm = refl;
  placed = λ c. ground arith;
  connected = λ c. refl;
  in_order = λ c. new_client-IsInOrder;
}

add_client-IsPlaced : (h : Hub) (c : ℕ) → IsPlaced h c → IsPlaced (add_client h) c
unfolding add_client put_client
add_client-IsPlaced h c p = ground arith

add_client-IsConnected :
    (h : Hub) (c : ℕ)
    → IsPlaced h h.created
    → IsConnected h h.created
    → IsConnected h c
    → IsConnected (add_client h) c
unfolding add_client put_client
add_client-IsConnected h c p q k = elim (Bool-cases (c == h.created)) [
  | inl same ↦
      let at : c ≡ h.created = ground arith in
      let none_ending : occurrences h.created h.ending ≡ 0 = ground arith in
      rw (same, at, none_ending) refl
  | inr other ↦ rw other k
]

add_client-Inv : {h : Hub} → Inv h → Inv (add_client h)
unfolding add_client
add_client-Inv {h} inv = record {
  calm = inv.calm;
  placed = λ c. add_client-IsPlaced h c (inv.placed c);
  connected = λ c.
      add_client-IsConnected h c (inv.placed h.created) (inv.connected h.created) (inv.connected c);
  in_order =
      put_client-keeps IsInOrder h.created new_client h.client new_client-IsInOrder inv.in_order;
}

forget_client-IsPlaced :
    (h : Hub) (c d : ℕ)
    → is_client c h.clients ≡ true
    → IsPlaced h d
    → occurrences d (without c h.clients) + occurrences d (c ∷ h.closing) + bit (h.client d).done
      ≡ bit (ltb d h.created)
forget_client-IsPlaced h c d m p =
    ground (arith, occurrences-without c d h.clients, is_client-occurrences c h.clients)

pub forget_client-Inv : {h : Hub} (c : ℕ) → Inv h → Inv (forget_client c h)
unfolding forget_client
forget_client-Inv {h} c inv = elim (Bool-cases (is_client c h.clients)) [
  | inl yes' ↦ rw yes' (record {
    calm = inv.calm;
    placed = λ d. forget_client-IsPlaced h c d yes' (inv.placed d);
    connected = inv.connected;
    in_order = inv.in_order;
  })
  | inr no' ↦ rw no' inv
]

close_client-IsPlaced :
    (h : Hub) (c d : ℕ)
    → is_client c h.closing ≡ true
    → IsPlaced h d
    → IsPlaced (close_client c h) d
unfolding close_client put_client
close_client-IsPlaced h c d m p =
    ground (arith, occurrences-without c d h.closing, is_client-occurrences c h.closing)

-- The channel of a client that is being closed is open.
closing-open :
    (h : Hub) (c : ℕ) → is_client c h.closing ≡ true → IsPlaced h c → (h.client c).done ≡ false
closing-open h c m p = ground (arith, is_client-occurrences c h.closing)

close_client-IsConnected :
    (h : Hub) (c d : ℕ)
    → (h.client c).done ≡ false
    → IsConnected h c
    → IsConnected h d
    → IsConnected (close_client c h) d
unfolding close_client put_client
close_client-IsConnected h c d opened k l = elim (Bool-cases (d == c)) [
  | inl same ↦
      let at : d ≡ c = ground arith in let at' : c ≡ d = ground arith in rw same (ground arith)
  | inr other ↦ rw other (ground arith)
]

pub close_client-Inv :
    {h : Hub} (c : ℕ) → is_client c h.closing ≡ true → Inv h → Inv (close_client c h)
unfolding close_client
close_client-Inv {h} c m inv =
    let opened = closing-open h c m (inv.placed c) in
    record {
      calm = rw (inv.calm, opened) refl;
      placed = λ d. close_client-IsPlaced h c d m (inv.placed d);
      connected = λ d. close_client-IsConnected h c d opened (inv.connected c) (inv.connected d);
      in_order =
          put_client-keeps IsInOrder c (record (h.client c) { done = true }) h.client
            (inv.in_order c) inv.in_order;
    }

close_conn-IsConnected :
    (h : Hub) (c d : ℕ)
    → is_client c h.ending ≡ true
    → IsConnected h c
    → IsConnected h d
    → IsConnected (close_conn c h) d
unfolding close_conn put_client
close_conn-IsConnected h c d m k l =
    ground (arith, occurrences-without c d h.ending, is_client-occurrences c h.ending)

pub close_conn-Inv : {h : Hub} (c : ℕ) → is_client c h.ending ≡ true → Inv h → Inv (close_conn c h)
unfolding close_conn
close_conn-Inv {h} c m inv =
    let v : Client = record (h.client c) { conn_open = false } in
    record {
      calm = inv.calm;
      placed = λ d. rw (put_client-done c v h.client d refl) (inv.placed d);
      connected = λ d. close_conn-IsConnected h c d m (inv.connected c) (inv.connected d);
      in_order = put_client-keeps IsInOrder c v h.client (inv.in_order c) inv.in_order;
    }

same_clients : {h : Hub} (offers : List (Text × ℕ)) → Inv h → Inv (record h { offers = offers })
same_clients offers inv = record {
  calm = inv.calm;
  placed = inv.placed;
  connected = inv.connected;
  in_order = inv.in_order;
}

-- A change to a client that leaves `done` and the connection alone.
change-Inv :
    {h : Hub} (c : ℕ) (v : Client) (offers : List (Text × ℕ))
    → v.done ≡ (h.client c).done
    → v.conn_open ≡ (h.client c).conn_open
    → IsInOrder v
    → Inv h
    → Inv (record h { client = put_client c v h.client; offers = offers })
change-Inv {h} c v offers e o k inv = record {
  calm = inv.calm;
  placed = λ d. rw (put_client-done c v h.client d e) (inv.placed d);
  connected = λ d.
      rw (put_client-done c v h.client d e, put_client-conn_open c v h.client d o)
        (inv.connected d);
  in_order = put_client-keeps IsInOrder c v h.client k inv.in_order;
}

none_lost : (v : Client) → v.writer_ended ≡ false → length v.lost ≤ bit v.writer_ended → v.lost ≡ []
none_lost v w k = elim (List-cases v.lost) [
  | inl e ↦ e
  | inr (m, ms, e) ↦ absurd (omega (arith, ap length e, ap bit w))
]

taken :
    (v : Client) (m : Text) (ms : List Text)
    → v.send ≡ m ∷ ms
    → v.writer_ended ≡ false
    → IsInOrder v
    → v.written ++ m ∷ ms ≡ v.queued
taken v m ms e w k =
    let rest : v.lost ++ v.send ≡ m ∷ ms = rw (none_lost v w k.2, e) refl in
    ap (◌++◌ v.written) (sym rest) ∙ k.0

written-IsInOrder :
    (v : Client) (m : Text) (ms : List Text)
    → v.send ≡ m ∷ ms
    → v.writer_ended ≡ false
    → IsInOrder v
    → IsInOrder (record v { send = ms; written = v.written ++ m ∷ [] })
written-IsInOrder v m ms e w k = (
  rw (none_lost v w k.2) (append_assoc v.written (m ∷ []) ms ∙ taken v m ms e w k),
  omega (arith, k.1, ap length e),
  k.2,
  k.3,
)

lost-IsInOrder :
    (v : Client) (m : Text) (ms : List Text)
    → v.send ≡ m ∷ ms
    → v.writer_ended ≡ false
    → IsInOrder v
    → IsInOrder (record v { send = ms; lost = m ∷ []; writer_ended = true })
lost-IsInOrder v m ms e w k =
    (taken v m ms e w k, omega (arith, k.1, ap length e), omega arith, k.3)

write_message-Inv :
    {h : Hub} (c : ℕ) (ok : Bool)
    → (h.client c).writer_ended ≡ false
    → Inv h
    → Inv (write_message c ok h)
unfolding write_message
write_message-Inv {h} c ok w inv = elim (List-cases (h.client c).send) [
  | inl e ↦ rw (write_message, e) inv
  | inr (m, ms, e) ↦ elim (Bool-cases ok) [
    | inl fine ↦
        rw (write_message, e, fine)
          (change-Inv c
            (record (h.client c) { send = ms; written = (h.client c).written ++ m ∷ [] }) h.offers
            refl refl (written-IsInOrder (h.client c) m ms e w (inv.in_order c)) inv)
    | inr failed ↦
        rw (write_message, e, failed)
          (forget_client-Inv c (
            change-Inv c (record (h.client c) { send = ms; lost = m ∷ []; writer_ended = true })
              h.offers refl refl (lost-IsInOrder (h.client c) m ms e w (inv.in_order c)) inv))
  ]
]

bit_le : (xs : List Text) (b : Bool) → length xs ≤ bit b → length xs ≤ 1
bit_le xs true h = h
bit_le xs false h = omega arith

ended-Inv :
    {h : Hub} (c : ℕ)
    → Inv h
    → Inv
        (record h { client = put_client c (record (h.client c) { writer_ended = true }) h.client })
ended-Inv {h} c inv =
    let k = inv.in_order c in
    change-Inv c (record (h.client c) { writer_ended = true }) h.offers refl refl
      (k.0, k.1, bit_le (h.client c).lost (h.client c).writer_ended k.2, k.3) inv

write_ping-Inv : {h : Hub} (c : ℕ) (ok : Bool) → Inv h → Inv (write_ping c ok h)
unfolding write_ping
write_ping-Inv c true inv = inv
write_ping-Inv c false inv = forget_client-Inv c (ended-Inv c inv)

queued-IsInOrder :
    (v : Client) (m : Text)
    → ltb (length v.send) send_capacity ≡ true
    → IsInOrder v
    → IsInOrder (record v { send = v.send ++ m ∷ []; queued = v.queued ++ m ∷ [] })
queued-IsInOrder v m room k = (
  ap (◌++◌ v.written) (sym (append_assoc v.lost v.send (m ∷ [])))
      ∙ sym (append_assoc v.written (v.lost ++ v.send) (m ∷ []))
      ∙ ap (λ q. q ++ m ∷ []) k.0,
  omega (arith, length-append v.send (m ∷ []), ltb→lt (length v.send) send_capacity room),
  k.2,
  (k.3.0 ++ m ∷ [], ap (λ q. q ++ m ∷ []) k.3.1),
)

try_offer-Inv :
    {h : Hub} (i : ℕ) (payload : Text) (c : ℕ) (o : Offer)
    → may_take (h.client c) o ≡ true
    → Inv h
    → Inv (try_offer i payload c o h)
unfolding try_offer
try_offer-Inv {h} i payload c gone may inv = same_clients (without_at i h.offers) inv
try_offer-Inv {h} i payload c sent may inv =
    let v = h.client c in
    change-Inv c (record v { send = v.send ++ payload ∷ []; queued = v.queued ++ payload ∷ [] })
      (without_at i h.offers) refl refl (queued-IsInOrder v payload may (inv.in_order c)) inv
try_offer-Inv {h} i payload c dropped may inv =
    forget_client-Inv c (same_clients (without_at i h.offers) inv)

pub Step-Inv : {h k : Hub} → Step h k → Inv h → Inv k
Step-Inv (connect h) inv = add_client-Inv inv
Step-Inv (leave h c m) inv = forget_client-Inv c inv
Step-Inv (close h c m) inv = close_client-Inv c m inv
Step-Inv (hang_up h c m) inv = close_conn-Inv c m inv
Step-Inv (write h c ok m w p) inv = write_message-Inv c ok w inv
Step-Inv (ping h c ok m w p) inv = write_ping-Inv c ok inv
Step-Inv (stop h c m) inv = unfold stop_writer in ended-Inv c inv
Step-Inv (broadcast h payload) inv = unfold broadcast_bytes in same_clients _ inv
Step-Inv (offer h i payload c o at may) inv = try_offer-Inv i payload c o may inv

pub Reach-Inv : {g h : Hub} → Inv g → Reach g h → Inv h
Reach-Inv inv here = inv
Reach-Inv inv (next r st) = Step-Inv st (Reach-Inv inv r)
