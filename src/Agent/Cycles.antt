-- ===== src/Agent/Cycles.antt =====
-- cmd/agent/main.go: the rounds of the main loop, one after another.
use mathlib.Core.List.{append_assoc, append-nil}
use pingmon.Prelude.{
  ℕ, ◌+◌, ◌-◌, ◌<◌, ◌≤◌, Bool, List, [], ◌∷◌, ◌++◌, Option, none, some, ◌≡◌, refl, sym, ap, ◌∙◌,
  arith, length, length-append, All,
}
use pingmon.Prelude.Int.{ℤ, pos}
use pingmon.Config.Defs.{AgentConfig}
use pingmon.Agent.Queue.{append_pending_results, upload_pending_results, AgentState, run_cycle}
use pingmon.Agent.Delivery.{
  append_pending_results_lem, concat, IsBatch, upload_pending_results-Delivers,
}

-- What a round of the main loop gets: the clock, and the result of `collectCycle`.
abbrev pub Cycle : Type 0 → Type 0
Cycle R = ℕ × Option (ℤ × List R)

module _ {R : Type 0} where
  abbrev pub gathered : Option (ℤ × List R) → List R
  gathered none = []
  gathered (some (sleep, batch)) = batch

  abbrev pub all_gathered : List (Cycle R) → List R
  all_gathered [] = []
  all_gathered ((nanos, cycle) ∷ cs) = gathered cycle ++ all_gathered cs

module _ {R : Type 0} (accepts : List (List R) → List R → Bool) (cfg : AgentConfig) where
  abbrev pub run_cycles : List (Cycle R) → AgentState R → AgentState R
  run_cycles [] s = s
  run_cycles ((nanos, cycle) ∷ cs) s = run_cycles cs (run_cycle accepts cfg nanos cycle s).0

  -- One round, with a positive maximum.
  record Moves (cycle : Option (ℤ × List R)) (maximum : ℕ) (s s' : AgentState R) : Type 0 where
    dropped : List R
    sent : List R
    splits : s.pending ++ gathered cycle ≡ dropped ++ (sent ++ s'.pending)
    dropped_is : length dropped ≡ length (s.pending ++ gathered cycle) - maximum
    in_order : concat s'.delivered ≡ concat s.delivered ++ sent
    bounded : length s'.pending ≤ maximum
    batches : All IsBatch s'.delivered

  run_cycle-Moves :
      (cycle : Option (ℤ × List R)) (nanos maximum : ℕ) (s : AgentState R)
      → cfg.max_pending_results ≡ pos maximum
      → 0 < maximum
      → length s.pending ≤ maximum
      → All IsBatch s.delivered
      → Moves cycle maximum s (run_cycle accepts cfg nanos cycle s).0
  unfolding run_cycle
  run_cycle-Moves none nanos maximum s e positive fits b = record {
    dropped = [];
    sent = [];
    splits = append-nil s.pending;
    dropped_is = rw append-nil (omega arith);
    in_order = sym (append-nil (concat s.delivered));
    bounded = fits;
    batches = b;
  }
  run_cycle-Moves (some (sleep, batch)) nanos maximum s e positive fits b =
      let (dropped, split, count, bound) =
        append_pending_results_lem s.pending batch maximum positive in
      let pending = append_pending_results s.pending batch (pos maximum) in
      let up = upload_pending_results accepts (length pending + 1) s.delivered pending in
      let d =
        upload_pending_results-Delivers accepts (length pending + 1) s.delivered pending
          (omega arith) b in
      let lengths = ap (λ (l : List R). length l) d.splits in
      rw e (record {
        dropped = dropped;
        sent = d.sent;
        splits = split ∙ ap (◌++◌ dropped) (sym d.splits);
        dropped_is = count;
        in_order = d.in_order;
        bounded = omega (arith, bound, lengths, length-append d.sent up.pending);
        batches = d.batches;
      })

  nil_of_length : (xs : List R) → length xs ≡ 0 → xs ≡ []
  nil_of_length [] h = refl
  nil_of_length (x ∷ xs) h = absurd (omega arith)

  -- With a positive maximum the queue never exceeds it, whatever the rounds bring, and
  -- every upload is of one to 200 results.
  pub length-run_cycles :
      (maximum : ℕ) (cs : List (Cycle R)) (s : AgentState R)
      → cfg.max_pending_results ≡ pos maximum
      → 0 < maximum
      → length s.pending ≤ maximum
      → All IsBatch s.delivered
      → (length (run_cycles cs s).pending ≤ maximum) × All IsBatch (run_cycles cs s).delivered
  length-run_cycles maximum [] s e positive fits b = (fits, b)
  length-run_cycles maximum ((nanos, cycle) ∷ cs) s e positive fits b =
      let m = run_cycle-Moves cycle nanos maximum s e positive fits b in
      length-run_cycles maximum cs (run_cycle accepts cfg nanos cycle s).0 e positive m.bounded
        m.batches

  -- While all that was gathered fits the queue nothing is lost, doubled or reordered: what was
  -- delivered, followed by what is pending, is what was there followed by what the rounds gathered,
  -- whichever uploads failed.
  pub run_cycles-in_order :
      (maximum : ℕ) (cs : List (Cycle R)) (s : AgentState R)
      → cfg.max_pending_results ≡ pos maximum
      → 0 < maximum
      → length (s.pending ++ all_gathered cs) ≤ maximum
      → All IsBatch s.delivered
      → concat (run_cycles cs s).delivered ++ (run_cycles cs s).pending
        ≡ concat s.delivered ++ (s.pending ++ all_gathered cs)
  run_cycles-in_order maximum [] s e positive fits b =
      ap (◌++◌ (concat s.delivered)) (sym (append-nil s.pending))
  run_cycles-in_order maximum ((nanos, cycle) ∷ cs) s e positive fits b =
      let s' = (run_cycle accepts cfg nanos cycle s).0 in
      let rest = all_gathered cs in
      let sizes = length-append s.pending (gathered cycle ++ rest) in
      let m = run_cycle-Moves cycle nanos maximum s e positive (omega (arith, sizes)) b in
      let gone = nil_of_length m.dropped (
        omega (
          arith,
          m.dropped_is,
          sizes,
          length-append s.pending (gathered cycle),
          length-append (gathered cycle) rest,
        )) in
      let kept : s.pending ++ gathered cycle ≡ m.sent ++ s'.pending =
        m.splits ∙ ap (λ xs. xs ++ (m.sent ++ s'.pending)) gone in
      let counts = ap (λ (l : List R). length l) kept in
      let small : length (s'.pending ++ rest) ≤ maximum = omega (
        arith,
        counts,
        sizes,
        length-append s.pending (gathered cycle),
        length-append (gathered cycle) rest,
        length-append m.sent s'.pending,
        length-append s'.pending rest,
      ) in
      run_cycles-in_order maximum cs s' e positive small m.batches
      ∙ ap (λ xs. xs ++ (s'.pending ++ rest)) m.in_order
      ∙ append_assoc (concat s.delivered) m.sent (s'.pending ++ rest)
      ∙ ap (◌++◌ (concat s.delivered)) (
          sym (append_assoc m.sent s'.pending rest)
          ∙ ap (λ xs. xs ++ rest) (sym kept)
          ∙ append_assoc s.pending (gathered cycle) rest)
