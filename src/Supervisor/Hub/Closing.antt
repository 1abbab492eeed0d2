-- ===== src/Supervisor/Hub/Closing.antt =====
-- cmd/supervisor/main.go: no channel is closed twice, what a client reads is in order, and the hub can
-- always be shut down.
use pingmon.Prelude.{
  ℕ, ◌≤◌, ◌<◌, Bool, true, false, not, ◌||◌, List, [], ◌∷◌, ◌++◌, ltb, length, ◌≡◌, refl, ap, ◌∙◌,
  arith,
}
use pingmon.Prelude.Text.{Text, codes}
use pingmon.Supervisor.Hub.{
  send_capacity, Hub, new_websocket_hub, is_client, without, forget_client, close_client,
  close_conn, remove_client, close_all,
}
use pingmon.Supervisor.Hub.Steps.{leave, close, hang_up, Reach, next}
use pingmon.Supervisor.Hub.Invariant.{
  occurrences, bit, is_client-occurrences, IsPlaced, IsConnected, Inv, new_websocket_hub-Inv,
  forget_client-Inv, close_client-Inv, close_conn-Inv, Reach-Inv,
}

-- Whatever the goroutines do, the program does not panic by closing a channel twice, and of a
-- client that was created exactly one holds: it is in the map, once, or one call of `remove` is
-- closing it, or it is closed.
pub Reach-IsPlaced :
    {h : Hub} → Reach new_websocket_hub h → (h.panicked ≡ false) × ((c : ℕ) → IsPlaced h c)
Reach-IsPlaced r = let inv = Reach-Inv new_websocket_hub-Inv r in (inv.calm, inv.placed)

conn_open_is :
    (h : Hub) (c : ℕ)
    → IsConnected h c
    → (h.client c).conn_open ≡ (not (h.client c).done || is_client c h.ending)
conn_open_is h c k = ground (arith, is_client-occurrences c h.ending)

-- Whatever the goroutines do, what the connection of a client has taken, then the one message that a
-- failed write may have lost, then the at most 16 in its channel are all messages that were
-- queued for it, in their order and "connected" first; its connection is open until its channel is
-- closed, and then until the call of `remove` that closed the channel closes the connection.
pub Reach-in_order :
    {h : Hub} (c : ℕ)
    → Reach new_websocket_hub h
    → ((h.client c).written ++ ((h.client c).lost ++ (h.client c).send) ≡ (h.client c).queued)
      × (length (h.client c).send ≤ send_capacity)
      × ((h.client c).conn_open ≡ (not (h.client c).done || is_client c h.ending))
      × (length (h.client c).lost ≤ bit (h.client c).writer_ended)
      × ((rest : List Text) × ((h.client c).queued ≡ codes "connected" ∷ rest))
Reach-in_order {h} c r =
    let inv = Reach-Inv new_websocket_hub-Inv r in
    let k = inv.in_order c in (k.0, k.1, conn_open_is h c (inv.connected c), k.2, k.3)

without_none : (c : ℕ) (ds : List ℕ) → occurrences c ds ≡ 0 → without c ds ≡ ds
unfolding without
without_none c [] e = refl
without_none c (d ∷ ds) e = ground (arith, without_none c ds)

is_client-head : (c : ℕ) (cs ds : List ℕ) → ds ≡ c ∷ cs → is_client c ds ≡ true
unfolding is_client
is_client-head c cs ds e = rw e (ground arith)

without_head : (c : ℕ) (cs ds : List ℕ) → ds ≡ c ∷ cs → occurrences c ds ≤ 1 → without c ds ≡ cs
unfolding without
without_head c cs ds e h =
    let once : occurrences c (c ∷ cs) ≤ 1 = omega (arith, ap (occurrences c) e) in
    rw e (ground (arith, without_none c cs))

occurrences_le :
    (h : Hub) (c : ℕ) → IsPlaced h c → (occurrences c h.clients ≤ 1) × (occurrences c h.closing ≤ 1)
occurrences_le h c p = ground arith

ending_le : (h : Hub) (c : ℕ) → IsConnected h c → occurrences c h.ending ≤ 1
ending_le h c k = ground arith

-- The calls of `remove` that have closed a channel close the connection.
abbrev pub finish_ending : List ℕ → Hub → Hub
finish_ending [] h = h
finish_ending (c ∷ cs) h = finish_ending cs (close_conn c h)

-- The calls of `remove` that have still to close a channel come to their end.
abbrev pub finish_closing : List ℕ → Hub → Hub
finish_closing [] h = h
finish_closing (c ∷ cs) h = finish_closing cs (close_conn c (close_client c h))

-- What a run of calls of `remove` leaves.
record Quiet (g h k : Hub) : Type 0 where
  reach : Reach g k
  inv : Inv k
  ended : k.ending ≡ []
  created : k.created ≡ h.created

finish_ending-Quiet :
    {g : Hub} (h : Hub) (cs : List ℕ)
    → Reach g h
    → Inv h
    → h.ending ≡ cs
    → Quiet g h (finish_ending cs h)
      × ((finish_ending cs h).clients ≡ h.clients)
      × ((finish_ending cs h).closing ≡ h.closing)
unfolding close_conn
finish_ending-Quiet h [] r inv e =
    (record { reach = r; inv = inv; ended = e; created = refl }, refl, refl)
finish_ending-Quiet h (c ∷ cs) r inv e =
    let at = is_client-head c cs h.ending e in
    let rest =
      finish_ending-Quiet (close_conn c h) cs (next r (hang_up h c at)) (close_conn-Inv c at inv)
        (without_head c cs h.ending e (ending_le h c (inv.connected c))) in
    (
      record {
        reach = rest.0.reach;
        inv = rest.0.inv;
        ended = rest.0.ended;
        created = rest.0.created;
      },
      rest.1,
      rest.2,
    )

finish_closing-Quiet :
    {g : Hub} (h : Hub) (cs : List ℕ)
    → Reach g h
    → Inv h
    → h.ending ≡ []
    → h.closing ≡ cs
    → Quiet g h (finish_closing cs h)
      × ((finish_closing cs h).clients ≡ h.clients)
      × ((finish_closing cs h).closing ≡ [])
unfolding close_client close_conn
finish_closing-Quiet h [] r inv quiet e =
    (record { reach = r; inv = inv; ended = quiet; created = refl }, refl, e)
finish_closing-Quiet h (c ∷ cs) r inv quiet e =
    let at = is_client-head c cs h.closing e in
    let once = (occurrences_le h c (inv.placed c)).1 in
    let closed = close_client c h in
    let inv' = close_client-Inv c at inv in
    let at' = is_client-head c h.ending (c ∷ h.ending) refl in
    let rest =
      finish_closing-Quiet (close_conn c closed) cs
        (next (next r (close h c at)) (hang_up closed c at')) (close_conn-Inv c at' inv')
        (without_head c h.ending (c ∷ h.ending) refl (ending_le closed c (inv'.connected c))
          ∙ quiet)
        (without_head c cs h.closing e once) in
    (
      record {
        reach = rest.0.reach;
        inv = rest.0.inv;
        ended = rest.0.ended;
        created = rest.0.created;
      },
      rest.1,
      rest.2,
    )

forget_client-member :
    (h : Hub) (c : ℕ)
    → is_client c h.clients ≡ true
    → forget_client c h ≡ record h { clients = without c h.clients; closing = c ∷ h.closing }
unfolding forget_client
forget_client-member h c m = rw m refl

remove_client-member :
    (h : Hub) (c : ℕ)
    → is_client c h.clients ≡ true
    → remove_client c h ≡ close_conn c (close_client c (forget_client c h))
unfolding remove_client
remove_client-member h c m = rw m refl

made : (h : Hub) (c : ℕ) → IsPlaced h c → is_client c h.clients ≡ true → c < h.created
made h c p m = ground (arith, is_client-occurrences c h.clients)

-- All parts of `remove`.
remove_client-Quiet :
    {g : Hub} (h : Hub) (c : ℕ) (cs : List ℕ)
    → Quiet g h h
    → h.closing ≡ []
    → h.clients ≡ c ∷ cs
    → Quiet g h (remove_client c h)
      × ((remove_client c h).clients ≡ cs)
      × ((remove_client c h).closing ≡ [])
remove_client-Quiet {g} h c cs q none_closing e =
    let at = is_client-head c cs h.clients e in
    let once = (occurrences_le h c (q.inv.placed c)).0 in
    let left = next q.reach (leave h c (made h c (q.inv.placed c) at)) in
    let is = forget_client-member h c at in
    let closed =
      finish_closing-Quiet (forget_client c h) (c ∷ []) left (forget_client-Inv c q.inv)
        (ap (λ k. k.ending) is ∙ q.ended) (ap (λ k. k.closing) is ∙ ap (◌∷◌ c) none_closing) in
    rw (remove_client-member h c at) (
      record {
        reach = closed.0.reach;
        inv = closed.0.inv;
        ended = closed.0.ended;
        created = closed.0.created ∙ ap (λ k. k.created) is;
      },
      closed.1 ∙ ap (λ k. k.clients) is ∙ without_head c cs h.clients e once,
      closed.2,
    )

close_all-Quiet :
    {g : Hub} (h : Hub) (cs : List ℕ)
    → Quiet g h h
    → h.closing ≡ []
    → h.clients ≡ cs
    → Quiet g h (close_all cs h) × ((close_all cs h).clients ≡ []) × ((close_all cs h).closing ≡ [])
unfolding close_all
close_all-Quiet h [] q none_closing e = (q, e, none_closing)
close_all-Quiet h (c ∷ cs) q none_closing e =
    let first = remove_client-Quiet h c cs q none_closing e in
    let rest =
      close_all-Quiet (remove_client c h) cs
        (record { reach = first.0.reach; inv = first.0.inv; ended = first.0.ended; created = refl })
        first.2 first.1 in
    (
      record {
        reach = rest.0.reach;
        inv = rest.0.inv;
        ended = rest.0.ended;
        created = rest.0.created ∙ first.0.created;
      },
      rest.1,
      rest.2,
    )

-- `closeAll` once the calls of `remove` that are under way have ended.
abbrev pub shut_down : Hub → Hub
shut_down h = close_all h.clients (finish_closing h.closing (finish_ending h.ending h))

bit_injective : (a b : Bool) → bit a ≡ bit b → a ≡ b
bit_injective true true e = refl
bit_injective true false e = absurd (omega arith)
bit_injective false true e = absurd (omega arith)
bit_injective false false e = refl

all_closed :
    (h k : Hub) (c : ℕ)
    → IsPlaced k c
    → k.clients ≡ []
    → k.closing ≡ []
    → k.created ≡ h.created
    → (k.client c).done ≡ ltb c h.created
all_closed h k c p e f g =
    let same : bit (k.client c).done ≡ bit (ltb c h.created) =
      omega (arith, p, ap (occurrences c) e, ap (occurrences c) f, ap (λ n. bit (ltb c n)) g) in
    bit_injective (k.client c).done (ltb c h.created) same

all_hung_up :
    (h k : Hub) (c : ℕ)
    → IsConnected k c
    → k.ending ≡ []
    → (k.client c).done ≡ ltb c h.created
    → (k.client c).conn_open ≡ not (ltb c h.created)
all_hung_up h k c p e closed =
    let none_ending : occurrences c k.ending ≡ 0 = ap (occurrences c) e in
    let same : (k.client c).conn_open ≡ not (k.client c).done = ground arith in same ∙ ap not closed

-- From every state that the goroutines can reach, the calls of `remove` that are under way and then
-- `closeAll` are steps that lead to a state with no client in the map and in which the channel of
-- every client that was created is closed, and so is its connection.
pub shut_down-Reach :
    {h : Hub}
    → Reach new_websocket_hub h
    → Reach new_websocket_hub (shut_down h)
      × ((shut_down h).clients ≡ [])
      × ((c : ℕ) → ((shut_down h).client c).done ≡ ltb c h.created)
      × ((c : ℕ) → ((shut_down h).client c).conn_open ≡ not (ltb c h.created))
shut_down-Reach {h} r =
    let start = finish_ending-Quiet h h.ending r (Reach-Inv new_websocket_hub-Inv r) refl in
    let ended = finish_ending h.ending h in
    let first =
      finish_closing-Quiet ended h.closing start.0.reach start.0.inv start.0.ended start.2 in
    let quiet = finish_closing h.closing ended in
    let rest =
      close_all-Quiet quiet h.clients
        (record { reach = first.0.reach; inv = first.0.inv; ended = first.0.ended; created = refl })
        first.2 (first.1 ∙ start.1) in
    let closed : (c : ℕ) → ((shut_down h).client c).done ≡ ltb c h.created = λ c.
      all_closed h (shut_down h) c (rest.0.inv.placed c) rest.1 rest.2
        (rest.0.created ∙ first.0.created ∙ start.0.created) in
    (
      rest.0.reach,
      rest.1,
      closed,
      λ c. all_hung_up h (shut_down h) c (rest.0.inv.connected c) rest.0.ended (closed c),
    )
