-- ===== src/Agent/Delivery.antt =====
-- cmd/agent/main.go: what the agent keeps of its results, what it delivers, and in which order.
use mathlib.Core.List.{append_assoc, append-nil}
use pingmon.Prelude.{
  ℕ, zero, suc, ◌-◌, ◌<◌, ◌≤◌, Bool, true, false, List, [], ◌∷◌, ◌++◌, ◌≡◌, refl, sym, ap, ◌∙◌,
  arith, ltb, length, take, drop, length-drop, length-take_of_le, take-append-drop, All, All-append,
  Bool-cases, inl, inr, ◌⊎◌,
}
use pingmon.Prelude.Int.{pos}
use pingmon.Agent.Queue.{
  upload_batch_size, append_pending_results, Upload, batch_size, upload_pending_results,
}

module _ {R : Type 0} where
  -- `appendPendingResults` drops the oldest results that exceed the maximum, and nothing else.
  pub append_pending_results_lem :
      (pending batch : List R) (maximum : ℕ)
      → 0 < maximum
      → (dropped : List R) × (pending ++ batch
          ≡ dropped ++ append_pending_results pending batch (pos maximum))
        × (length dropped ≡ length (pending ++ batch) - maximum)
        × (length (append_pending_results pending batch (pos maximum)) ≤ maximum)
  unfolding append_pending_results
  append_pending_results_lem pending batch maximum positive =
      let all = pending ++ batch in
      let n = length all - maximum in
      elim (Bool-cases (ltb maximum (length all))) [
        | inl over ↦ (
          take n all,
          ground (arith, over, take-append-drop n all),
          length-take_of_le n all (omega arith),
          ground (arith, over, length-drop n all),
        )
        | inr fits ↦ ([], ground (arith, fits), ground (arith, fits), ground (arith, fits))
      ]

  abbrev pub concat : List (List R) → List R
  concat [] = []
  concat (b ∷ bs) = b ++ concat bs

  pub concat-append : (xs ys : List (List R)) → concat (xs ++ ys) ≡ concat xs ++ concat ys
  concat-append [] ys = refl
  concat-append (x ∷ xs) ys = ap (◌++◌ x) (concat-append xs ys) ∙ sym (append_assoc x _ _)

  -- A batch that may be sent.
  abbrev pub IsBatch : List R → Type 0
  IsBatch batch = (0 < length batch) × (length batch ≤ upload_batch_size)

  take-IsBatch :
      (pending : List R)
      → 0 < length pending
      → IsBatch (take (batch_size pending) pending) × (0 < batch_size pending)
  unfolding batch_size
  take-IsBatch pending h = elim (Bool-cases (ltb (length pending) upload_batch_size)) [
    | inl small ↦ rw small (
      (
        omega (arith, length-take_of_le (length pending) pending (omega arith)),
        ground (arith, length-take_of_le (length pending) pending (omega arith), small),
      ),
      h,
    )
    | inr large ↦
        let enough : upload_batch_size ≤ length pending = ground arith in
        rw large (
          (
            omega (arith, length-take_of_le upload_batch_size pending enough),
            omega (arith, length-take_of_le upload_batch_size pending enough),
          ),
          omega arith,
        )
  ]

  pub record Delivers (accepts : List (List R) → List R → Bool) (before : List (List R))
      (pending : List R) (up : Upload R) : Type 0 where
    pub sent : List R
    pub splits : sent ++ up.pending ≡ pending
    pub in_order : concat up.delivered ≡ concat before ++ sent
    pub batches : All IsBatch up.delivered
    pub ends :
        ((up.success ≡ true) × (up.pending ≡ []))
        ⊎ ((up.success ≡ false)
            × ((batch : List R) × (rest : List R) × (up.pending ≡ batch ++ rest)
                × IsBatch batch
                × (accepts up.delivered batch ≡ false)))

  -- With fuel for every pending result the upload ends: it has sent a first part of the pending results
  -- in order, in batches of one to 200, and keeps the rest; and either nothing is left and it reports
  -- success, or it reports the failure of the batch that comes next and keeps that batch.
  pub upload_pending_results-Delivers :
      (accepts : List (List R) → List R → Bool) (fuel : ℕ) (before : List (List R))
      (pending : List R)
      → length pending < fuel
      → All IsBatch before
      → Delivers accepts before pending (upload_pending_results accepts fuel before pending)
  unfolding upload_pending_results
  upload_pending_results-Delivers accepts zero before pending h b = absurd (omega arith)
  upload_pending_results-Delivers accepts (suc fuel) before [] h b = record {
    sent = [];
    splits = refl;
    in_order = sym (append-nil (concat before));
    batches = b;
    ends = inl (refl, refl);
  }
  upload_pending_results-Delivers accepts (suc fuel) before (r ∷ rs) h b =
      let pending = r ∷ rs in
      let n = batch_size pending in
      let batch = take n pending in
      let cut = take-append-drop n pending in
      let fits = take-IsBatch pending (omega arith) in
      elim (Bool-cases (accepts before batch)) [
        | inr no' ↦ rw no' (record {
          sent = [];
          splits = refl;
          in_order = sym (append-nil (concat before));
          batches = b;
          ends = inr (refl, (batch, drop n pending, sym cut, fits.0, no'));
        })
        | inl taken ↦
            let shorter : length (drop n pending) < fuel =
              omega (arith, length-drop n pending, fits.1) in
            let later =
              upload_pending_results-Delivers accepts fuel (before ++ batch ∷ []) (drop n pending)
                shorter (All-append IsBatch before (batch ∷ []) b (fits.0, tt)) in
            let later_up =
              upload_pending_results accepts fuel (before ++ batch ∷ []) (drop n pending) in
            rw taken (record {
              sent = batch ++ later.sent;
              splits =
                  append_assoc batch later.sent later_up.pending
                  ∙ ap (◌++◌ batch) later.splits
                  ∙ cut;
              in_order =
                  later.in_order
                  ∙ ap (λ xs. xs ++ later.sent)
                      (concat-append before (batch ∷ [])
                        ∙ ap (◌++◌ (concat before)) (append-nil batch))
                  ∙ append_assoc (concat before) batch later.sent;
              batches = later.batches;
              ends = later.ends;
            })
      ]
