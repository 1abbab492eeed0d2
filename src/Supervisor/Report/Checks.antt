-- ===== src/Supervisor/Report/Checks.antt =====
-- cmd/supervisor/main.go: what `validateReportResult` accepts.
use pingmon.Prelude.{
  ◌+◌, ◌≤◌, false, List, [], ◌∷◌, none, ◌≡◌, arith, length, All, Option-cases, inl, inr,
}
use pingmon.Prelude.Int.{ℤ, pos, negsuc, ◌+ℤ◌, ◌≤ℤ◌, wrap64, wrap64_pos}
use pingmon.Prelude.Text.{Text, is_empty, byte_len, trim_space}
use pingmon.Model.{Result}
use pingmon.Supervisor.Report.{
  has_long_label, Codecs, check_texts, check_numbers, validate_report_result,
}

-- The numbers are in their ranges; the sum is that of the integers, and does not wrap.
pub record HasRanges {F : Type 0} (result : Result F) : Type 0 where
  pub port_ge : pos 1 ≤ℤ result.port
  pub port_le : result.port ≤ℤ pos 65535
  pub successes_ge : pos 0 ≤ℤ result.success_count
  pub successes_le : result.success_count ≤ℤ pos 10000
  pub failures_ge : pos 0 ≤ℤ result.failure_count
  pub failures_le : result.failure_count ≤ℤ pos 10000
  pub samples_ge : pos 1 ≤ℤ result.success_count +ℤ result.failure_count
  pub samples_is :
      wrap64 (result.success_count +ℤ result.failure_count)
      ≡ result.success_count +ℤ result.failure_count

-- The texts that are required are not blank, and none is too long, in bytes.
pub record HasTexts {F : Type 0} (result : Result F) : Type 0 where
  pub agent_set : is_empty (trim_space result.agent) ≡ false
  pub target_name_set : is_empty (trim_space result.target_name) ≡ false
  pub address_set : is_empty (trim_space result.address) ≡ false
  pub agent_le : byte_len result.agent ≤ 128
  pub target_name_le : byte_len result.target_name ≤ 256
  pub address_le : byte_len result.address ≤ 512
  pub agent_ip_le : byte_len result.agent_ip ≤ 256
  pub error_le : byte_len result.error ≤ 2048
  pub labels_le : length result.labels ≤ 64
  pub label_le : All (λ label. byte_len label ≤ 128) result.labels

has_long_label-All :
    (labels : List Text)
    → has_long_label labels ≡ false
    → All (λ label. byte_len label ≤ 128) labels
unfolding has_long_label
has_long_label-All [] h = tt
has_long_label-All (label ∷ labels) h = ground (arith, has_long_label-All labels)

-- Small counts add up without wrapping around.
sum_small :
    (a b : ℤ) → pos 0 ≤ℤ a → a ≤ℤ pos 10000 → pos 0 ≤ℤ b → b ≤ℤ pos 10000 → wrap64 (a +ℤ b) ≡ a +ℤ b
unfolding ◌+ℤ◌
sum_small (pos m) (pos n) h i j k =
    let sum : pos m +ℤ pos n ≡ pos (m + n) = ground arith in
    rw sum (wrap64_pos (m + n) (omega arith))
sum_small (pos m) (negsuc n) h i j k = absurd (omega arith)
sum_small (negsuc m) b h i j k = absurd (omega arith)

module _ {F : Type 0} (codecs : Codecs F) where
  check_texts-HasTexts : (result : Result F) → check_texts codecs result ≡ none → HasTexts result
  unfolding check_texts
  check_texts-HasTexts result h = record {
    agent_set = ground arith;
    target_name_set = ground arith;
    address_set = ground arith;
    agent_le = ground arith;
    target_name_le = ground arith;
    address_le = ground arith;
    agent_ip_le = ground arith;
    error_le = ground arith;
    labels_le = ground arith;
    label_le = has_long_label-All result.labels (ground arith);
  }

  check_numbers-HasRanges :
      (result : Result F) → check_numbers codecs result ≡ none → HasRanges result
  unfolding check_numbers
  check_numbers-HasRanges result h =
      let a0 : pos 0 ≤ℤ result.success_count = ground arith in
      let a1 : result.success_count ≤ℤ pos 10000 = ground arith in
      let b0 : pos 0 ≤ℤ result.failure_count = ground arith in
      let b1 : result.failure_count ≤ℤ pos 10000 = ground arith in
      let same = sum_small result.success_count result.failure_count a0 a1 b0 b1 in
      record {
        port_ge = ground arith;
        port_le = ground arith;
        successes_ge = a0;
        successes_le = a1;
        failures_ge = b0;
        failures_le = b1;
        samples_ge = ground (arith, same);
        samples_is = same;
      }

  -- A result that passes the validation has its required texts, all within their lengths, a port from
  -- 1 to 65535, and from 0 to 10000 successes and failures, at least one together; the sum that is
  -- tested does not wrap around.
  pub validate_report_result_lem :
      (result : Result F)
      → validate_report_result codecs result ≡ none
      → HasTexts result × HasRanges result
  unfolding validate_report_result
  validate_report_result_lem result h = elim (Option-cases (check_texts codecs result)) [
    | inr (fault, bad) ↦ absurd (ground arith)
    | inl fine ↦ (check_texts-HasTexts result fine, check_numbers-HasRanges result (ground arith))
  ]
