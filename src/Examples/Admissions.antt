-- ===== src/Examples/Admissions.antt =====
-- Examples of the theorems on estimates, verdicts and queue records.
use vvz_lmrs.Prelude.{◌≡◌, ◌↔◌, ◌⊎◌, refl, arith, true, false, none, ok}
use vvz_lmrs.Prelude.Int.{pos, ◌≤ℤ◌, ◌<ℤ◌}
use vvz_lmrs.Prelude.Value.{Scalar}
use vvz_lmrs.Estimation.{RequestCapacityEstimate, estimate_request_capacity}
use vvz_lmrs.Estimation.Laws.{IsSized, estimate_iff}
use vvz_lmrs.Admission.{
  missing_names, item, evaluate_lmcache_admission, AdmissionVerdict, QueueRecord, decide_admission,
  build_queue_entry_request,
}
use vvz_lmrs.Admission.Decision.{IsEasier, Admissible, decision_iff}
use vvz_lmrs.Admission.Record.{Holds, record-only}
use vvz_lmrs.Commands.Handler.{estimate_input}
use vvz_lmrs.Examples.Data.{
  request_on, capacity_of, estimate_on, session_metadata, admission_metadata,
}

estimate_iff_example :
    let i = estimate_input (request_on (capacity_of 400 1000)) in
    ((e : RequestCapacityEstimate) × (estimate_request_capacity i ≡ ok e)) ↔ IsSized i
estimate_iff_example = estimate_iff (estimate_input (request_on (capacity_of 400 1000)))

decision_iff_example :
    let v = decide_admission (estimate_on 400) (capacity_of 400 1000) false none in
    ((v.decision ≡ "would_execute")
      ↔ (Admissible (estimate_on 400) (capacity_of 400 1000) (pos 450) × (pos 450 ≤ℤ pos 400)))
    × ((v.decision ≡ "would_queue")
        ↔ (Admissible (estimate_on 400) (capacity_of 400 1000) (pos 450) × (pos 400 <ℤ pos 450)))
    × ((v.decision ≡ "would_reject") ↔ ((pos 128 <ℤ pos 100) ⊎ (pos 1000 <ℤ pos 450)))
unfolding evaluate_lmcache_admission
decision_iff_example = decision_iff (estimate_on 400) (capacity_of 400 1000) false none

abbrev verdict : AdmissionVerdict
verdict = decide_admission (estimate_on 400) (capacity_of 400 1000) false none

easier :
    IsEasier
      (estimate_on 400)
      (estimate_on 400)
      (capacity_of 900 1000)
      (capacity_of 500 800)
      false
      none
easier = record {
  tokens = omega arith;
  window = omega arith;
  bytes = omega arith;
  usable = omega arith;
  pool = omega arith;
}

harder :
    IsEasier
      (estimate_on 400)
      (estimate_on 400)
      (capacity_of 300 420)
      (capacity_of 200 410)
      false
      none
harder = record {
  tokens = omega arith;
  window = omega arith;
  bytes = omega arith;
  usable = omega arith;
  pool = omega arith;
}

abbrev queue_record : QueueRecord
queue_record = record {
  request_id = "r1";
  session_id = Scalar.text "s1";
  model_name = "qwen";
  required_tokens = pos 100;
  required_dynamic_vram_bytes = pos 450;
  admitted_at = Scalar.text "t0";
  expires_at = Scalar.text "t9";
  priority = Scalar.int (pos 2);
  status = Scalar.text "queued";
  reason_code = "CAPACITY_CONSTRAINED";
}

record-only_example :
    (verdict.queueable ≡ true)
    × ((estimate_on 400).request_id ≡ verdict.request_id)
    × Holds session_metadata "session_id" (Scalar.text "s1")
    × Holds admission_metadata "admitted_at" (Scalar.text "t0")
    × Holds admission_metadata "expires_at" (Scalar.text "t9")
record-only_example =
    record-only verdict (estimate_on 400) session_metadata admission_metadata queue_record
      (unfold build_queue_entry_request decide_admission missing_names item in refl)
