-- ===== src/Supervisor/Report.antt =====
-- cmd/supervisor/main.go: `decodeReportPayload`, `validateReportResult`, `normalizeReport` and
-- `handleReport`. What encoding/json makes of a payload, and the tests on float64, are parameters; the
-- clock is read once. An address with a port is cut to its host before `agent_ip`.
pub mod Checks
pub mod Outcomes
use pingmon.Prelude.{
  ℕ, ◌+◌, ◌*◌, Bool, true, false, not, ◌&&◌, ◌||◌, List, [], ◌∷◌, Option, none, some, ltb, leb,
  ◌==◌, if◌then◌else◌, length,
}
use pingmon.Prelude.Int.{ℤ, pos, ◌+ℤ◌, ltb_ℤ, leb_ℤ, wrap64}
use pingmon.Prelude.Text.{Text, codes, text_eq, is_empty, byte_len, trim_space}
use pingmon.Model.{Time, second, Result}
use pingmon.Config.Defs.{Config}
use pingmon.Storage.Rows.{FloatOps}
use pingmon.Storage.Retention.{days_before}
use pingmon.Storage.Store.{Store, SaveFaults}
use pingmon.Storage.Store.Operations.{save_results}
use pingmon.Supervisor.Cache.{ResultsCache, clear}
use pingmon.Supervisor.Connectivity.{Connectivity, update_agent_connectivity}

abbrev pub max_report_batch_size : ℕ
max_report_batch_size = 1000

pub data ReportFault : Type 0 where
  agent_required agent_long target_name_required target_name_long : ReportFault
  address_required address_long agent_ip_long error_long : ReportFault
  many_labels label_long bad_port : ReportFault
  negative_successes negative_failures no_samples many_samples : ReportFault
  bad_latency bad_rate : ReportFault

abbrev is_blank : Text → Bool
is_blank s = is_empty (trim_space s)

-- Whether `len(s) > n`.
abbrev pub is_longer : ℕ → Text → Bool
is_longer n s = ltb n (byte_len s)

unfoldable pub has_long_label : List Text → Bool
has_long_label [] = false
has_long_label (label ∷ labels) = is_longer 128 label || has_long_label labels

pub data Reply : Type 0 where
  method_not_allowed bad_request too_large server_error : Reply
  saved : ℕ → Reply

-- What a report changes of the server: the store, the cache of results, the connectivity of the
-- agents, and the results that were broadcast, the last ones first.
pub record ReportState (F : Type 0) : Type 0 where
  pub store : Store F
  pub cache : ResultsCache
  pub connectivity : Connectivity
  pub broadcasts : List (List (Result F))

-- What the functions use of other packages.
pub record Codecs (F : Type 0) : Type 0 where
  pub ops : FloatOps F
  pub is_nan : F → Bool
  pub is_inf : F → Bool
  pub unmarshal_results : Text → Option (List (Result F))
  pub unmarshal_result : Text → Option (Result F)
  pub marshal_labels : List Text → Text

module _ {F : Type 0} (codecs : Codecs F) where
  -- `none` is an error.
  unfoldable pub decode_report_payload : Text → Option (List (Result F))
  decode_report_payload raw =
      if text_eq (trim_space raw) (codes "null")
      then none
      else elim (codecs.unmarshal_results raw) [
        | some results ↦ some results
        | none ↦ elim (codecs.unmarshal_result raw) [
          | some result ↦ some (result ∷ [])
          | none ↦ none
        ]
      ]

  unfoldable pub check_texts : Result F → Option ReportFault
  check_texts result =
      if is_blank result.agent
      then some agent_required
      else if is_longer 128 result.agent
      then some agent_long
      else if is_blank result.target_name
      then some target_name_required
      else if is_longer 256 result.target_name
      then some target_name_long
      else if is_blank result.address
      then some address_required
      else if is_longer 512 result.address
      then some address_long
      else if is_longer 256 result.agent_ip
      then some agent_ip_long
      else if is_longer 2048 result.error
      then some error_long
      else if ltb 64 (length result.labels)
      then some many_labels
      else if has_long_label result.labels
      then some label_long
      else none

  unfoldable pub check_numbers : Result F → Option ReportFault
  check_numbers result =
      if ltb_ℤ result.port (pos 1) || ltb_ℤ (pos 65535) result.port
      then some bad_port
      else if ltb_ℤ result.success_count (pos 0)
      then some negative_successes
      else if ltb_ℤ result.failure_count (pos 0)
      then some negative_failures
      else if leb_ℤ (wrap64 (result.success_count +ℤ result.failure_count)) (pos 0)
      then some no_samples
      else if ltb_ℤ (pos 10000) result.success_count || ltb_ℤ (pos 10000) result.failure_count
      then some many_samples
      else if codecs.ops.lt result.average_latency_ms codecs.ops.zero
          || codecs.is_nan result.average_latency_ms
          || codecs.is_inf result.average_latency_ms
      then some bad_latency
      else if codecs.ops.lt result.success_rate codecs.ops.zero
          || codecs.ops.lt codecs.ops.one result.success_rate
      then some bad_rate
      else none

  -- `none` is the source's nil error.
  unfoldable pub validate_report_result : Result F → Option ReportFault
  unfolding check_texts check_numbers
  validate_report_result result = elim (check_texts result) [
    | some fault ↦ some fault
    | none ↦ check_numbers result
  ]

  unfoldable pub normalize_report : Time → Text → Result F → Result F
  normalize_report now agent_ip result =
      let total = wrap64 (result.success_count +ℤ result.failure_count) in
      record result {
        checked_at = if result.checked_at == 0 then now else result.checked_at;
        agent_ip = if is_empty result.agent_ip then agent_ip else result.agent_ip;
        success_rate =
            if ltb_ℤ (pos 0) total
            then codecs.ops.div (codecs.ops.of_int result.success_count) (codecs.ops.of_int total)
            else result.success_rate;
      }

  -- Whether `checked_at` is set and outside the accepted range.
  unfoldable pub is_out_of_range : Time → Config → Time → Bool
  is_out_of_range now cfg at =
      not (at == 0) && (ltb (now + 600 * second) at || ltb at (days_before now cfg.retention_days))

  -- The loop: the normalised results, or `none` at the first that is refused.
  unfoldable pub accept_each : Time → Config → Text → List (Result F) → Option (List (Result F))
  accept_each now cfg agent_ip [] = some []
  accept_each now cfg agent_ip (result ∷ results) =
      let rest = accept_each now cfg agent_ip results in
      elim (validate_report_result result) [
        | some fault ↦ none
        | none ↦ if is_out_of_range now cfg result.checked_at then none else elim rest [
          | none ↦ none
          | some accepted ↦ some (normalize_report now agent_ip result ∷ accepted)
        ]
      ]

  -- From the saving on.
  unfoldable pub commit_report :
      SaveFaults → Config → Time → ℕ → List (Result F) → ReportState F → ReportState F × Reply
  commit_report faults cfg now n accepted s =
      let (store, found) = save_results codecs.marshal_labels faults accepted now s.store in
      elim found [
        | none ↦ (record s { store = store }, server_error)
        | some results ↦ (
          record {
            store = store;
            cache = clear s.cache;
            connectivity =
                update_agent_connectivity cfg.failure_threshold results now s.connectivity;
            broadcasts = results ∷ s.broadcasts;
          },
          saved n,
        )
      ]

  -- `body` is `none` where the request is not one JSON value of the allowed size.
  unfoldable pub handle_report :
      SaveFaults → Config → Time → Bool → Option Text → Text → ReportState F → ReportState F × Reply
  handle_report faults cfg now false body agent_ip s = (s, method_not_allowed)
  handle_report faults cfg now true none agent_ip s = (s, bad_request)
  handle_report faults cfg now true (some raw) agent_ip s = elim (decode_report_payload raw) [
    | none ↦ (s, bad_request)
    | some results ↦
        if length results == 0
        then (s, bad_request)
        else if ltb max_report_batch_size (length results)
        then (s, too_large)
        else elim (accept_each now cfg agent_ip results) [
          | none ↦ (s, bad_request)
          | some accepted ↦ commit_report faults cfg now (length results) accepted s
        ]
  ]
