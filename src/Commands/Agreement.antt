-- ===== src/Commands/Agreement.antt =====
-- How the dry run and the chat path agree, and how often the chat path calls the runtime.
use vvz_lmrs.Prelude.{
  ok_injective, ◌≡◌, refl, sym, subst, ap, inl, inr, ◌∙◌, ℕ, suc, String, Bool, true, false, not,
  ◌&&◌, ◌==◌, Bool-cases, Option, Result, ok, err, if◌then◌else◌, >>=-eq-ok,
}
use vvz_lmrs.Prelude.Dict.{Dict}
use vvz_lmrs.Prelude.Value.{Scalar}
use vvz_lmrs.Estimation.{RequestCapacityEstimate, estimate_request_capacity}
use vvz_lmrs.Admission.{
  AdmissionVerdict, Ruling, context_overflow, request_too_large, capacity_constrained,
  capacity_available, decision_of, rule, decide_admission, QueueRecord,
}
use vvz_lmrs.Queue.{QueueEntry, RequestQueue, add}
use vvz_lmrs.Commands.{
  RuntimeReply, failed, normalized, CommandResult, Artifacts, canonical_decision, estimate_result,
  dry_run_outcome, dry_run_table, result_of,
}
use vvz_lmrs.Commands.Handler.{
  Request, estimate_input, estimate_and_admit, artifacts_of, switching_artifacts, is_switching,
  call_sink, after_sink, enqueue, after_runtime, chat_decided, chat_admitted, chat, estimate,
  switching_rejection,
}
use vvz_lmrs.Commands.Paths.{verdict_on, charged, chat_now, chat_switching, chat_of_reject}

module _ {R : Type 0} (a : Artifacts R) where
  -- The result of a dry run with a decision for its outcome.
  abbrev dry_result : String → CommandResult R
  dry_result decision = result_of "estimate" decision (not (decision == "would_reject")) a

  estimate_result_lem :
      (g : Ruling) → estimate_result (decision_of g) a ≡ ok (dry_result (decision_of g))
  unfolding estimate_result decision_of dry_run_outcome canonical_decision dry_run_table
  estimate_result_lem context_overflow = refl
  estimate_result_lem request_too_large = refl
  estimate_result_lem capacity_constrained = refl
  estimate_result_lem capacity_available = refl

switching_estimate :
    {R : Type 0} (r : Request)
    → switching_rejection {R = R} r true ≡ ok (dry_result (switching_artifacts r) "would_reject")
unfolding switching_rejection estimate_result dry_run_outcome canonical_decision dry_run_table
switching_estimate r = refl

admitted_parts :
    (r : Request) (e : RequestCapacityEstimate) (v : AdmissionVerdict)
    → estimate_and_admit r ≡ ok (e, v)
    → (estimate_request_capacity (estimate_input r) ≡ ok e) × (verdict_on r e ≡ v)
unfolding estimate_and_admit
admitted_parts r e v h =
    let (e', made, parts) = >>=-eq-ok (estimate_request_capacity (estimate_input r)) _ h in
    let same = ok_injective parts in
    (
      made ∙ ap (λ p. ok p.0) same,
      ap (verdict_on r) (sym (ap (λ p. p.0) same)) ∙ ap (λ p. p.1) same,
    )

module _ {S R : Type 0} (model_switch_in_progress : Option (String → S → Bool))
    (runtime_execute : S → Result (RuntimeReply R) × S)
    (queue_sink : Option (RequestQueue → S → Result (Unit {0}) × S)) (queue : RequestQueue)
    (request_metadata queue_metadata : Dict Scalar) (r : Request) (s : S) where
  abbrev now : Result (CommandResult R) × S
  now =
      chat_now model_switch_in_progress runtime_execute queue_sink queue request_metadata
        queue_metadata r s

  refused_idle :
      (e : RequestCapacityEstimate) (x : CommandResult R)
      → is_switching model_switch_in_progress r.model_name s ≡ false
      → estimate_request_capacity (estimate_input r) ≡ ok e
      → estimate_result (verdict_on r e).decision (artifacts_of r e (verdict_on r e)) ≡ ok x
      → x.outcome ≡ "would_reject"
      → now ≡ (ok (record x { command = "chat"; outcome = "rejected" }), s)
  unfolding decide_admission
  refused_idle e x idle estimated h k =
      let a = artifacts_of r e (verdict_on r e) in
      let g = rule e r.capacity (charged r e) in
      let is_x : dry_result a (decision_of g) ≡ x =
        ok_injective (sym (estimate_result_lem a g) ∙ h) in
      let d : decision_of g ≡ "would_reject" = ap (λ x. x.outcome) is_x ∙ k in
      chat_of_reject model_switch_in_progress runtime_execute queue_sink queue request_metadata
        queue_metadata r s e idle estimated d
      ∙ ap (λ x. (ok (record x { command = "chat"; outcome = "rejected" }), s))
          (ap (dry_result a) (sym d) ∙ is_x)

  -- Whenever the dry run of a request would reject it, for a running switch too, its chat is rejected
  -- with the same reason and artifacts, and leaves the world as it was.
  pub estimate-chat_reject :
      (x : CommandResult R)
      → estimate model_switch_in_progress r s ≡ ok x
      → x.outcome ≡ "would_reject"
      → now ≡ (ok (record x { command = "chat"; outcome = "rejected" }), s)
  unfolding estimate
  estimate-chat_reject x h k =
      elim (Bool-cases (is_switching model_switch_in_progress r.model_name s)) [
        | inl busy ↦
            chat_switching model_switch_in_progress runtime_execute queue_sink queue
              request_metadata queue_metadata r s busy
            ∙ ap (λ x. (ok (record x { command = "chat"; outcome = "rejected" }), s))
                (ok_injective (sym (switching_estimate r) ∙ rw busy at h))
        | inr idle ↦
            let (p, admitted, made) = >>=-eq-ok (estimate_and_admit r) _ (rw idle at h) in
            let (estimated, same) = admitted_parts r p.0 p.1 admitted in
            refused_idle p.0 x idle estimated
              (ap (λ v. estimate_result v.decision (artifacts_of r p.0 v)) same ∙ made) k
      ]

-- What `runs` finds of an estimate: that its verdict is to execute.
abbrev executes : Result (RequestCapacityEstimate × AdmissionVerdict) → Bool
executes (err error) = false
executes (ok (e, v)) = v.decision == "would_execute"

module _ {S R : Type 0} (calls : S → ℕ) (model_switch_in_progress : Option (String → S → Bool))
    (runtime_execute : S → Result (RuntimeReply R) × S)
    (queue_sink : Option (RequestQueue → S → Result (Unit {0}) × S))
    (counted : (s : S) → calls (runtime_execute s).1 ≡ suc (calls s))
    (uncounted : (q : RequestQueue) (s : S) → calls (call_sink queue_sink q s).1 ≡ calls s)
    (queue : RequestQueue) (request_metadata queue_metadata : Dict Scalar) (r : Request)
    (s : S) where
  -- A request that reaches the runtime: no switch runs for its model and its verdict is to execute.
  abbrev pub runs : Bool
  runs =
      not (is_switching model_switch_in_progress r.model_name s) && executes (estimate_and_admit r)

  after_sink_lem :
      (e : RequestCapacityEstimate) (v : AdmissionVerdict) (rec : QueueRecord) (q : RequestQueue)
      (out : Result (Unit {0}) × S)
      → (after_sink model_switch_in_progress runtime_execute queue_sink queue request_metadata
          queue_metadata r e v rec q out).1
        ≡ out.1
  unfolding after_sink
  after_sink_lem e v rec q (err error, t) = refl
  after_sink_lem e v rec q (ok u, t) = refl

  enqueue_calls :
      (e : RequestCapacityEstimate) (v : AdmissionVerdict) (m : Result (QueueRecord × QueueEntry))
      → calls
          (enqueue model_switch_in_progress runtime_execute queue_sink queue request_metadata
            queue_metadata r e v m s).1
        ≡ calls s
  unfolding enqueue
  enqueue_calls e v (err error) = refl
  enqueue_calls e v (ok (rec, entry)) =
      ap calls (after_sink_lem e v rec (add queue entry) (call_sink queue_sink (add queue entry) s))
      ∙ uncounted (add queue entry) s

  after_runtime_lem :
      (e : RequestCapacityEstimate) (v : AdmissionVerdict) (out : Result (RuntimeReply R) × S)
      → (after_runtime model_switch_in_progress runtime_execute queue_sink queue request_metadata
          queue_metadata r e v out).1
        ≡ out.1
  unfolding after_runtime
  after_runtime_lem e v (err error, t) = refl
  after_runtime_lem e v (ok (failed f), t) = refl
  after_runtime_lem e v (ok (normalized a), t) = refl

  abbrev decided : RequestCapacityEstimate → AdmissionVerdict → String → S
  decided e v d =
      (chat_decided model_switch_in_progress runtime_execute queue_sink queue request_metadata
        queue_metadata r e v (canonical_decision d) s).1

  abbrev expected : Bool → ℕ
  expected b = if b then suc (calls s) else calls s

  decided_calls :
      (e : RequestCapacityEstimate) (v : AdmissionVerdict) (g : Ruling)
      → calls (decided e v (decision_of g)) ≡ expected (decision_of g == "would_execute")
  unfolding chat_decided canonical_decision decision_of
  decided_calls e v context_overflow = refl
  decided_calls e v request_too_large = refl
  decided_calls e v capacity_constrained = enqueue_calls e v _
  decided_calls e v capacity_available =
      ap calls (after_runtime_lem e v (runtime_execute s)) ∙ counted s

  admitted_calls :
      (m : Result (RequestCapacityEstimate × AdmissionVerdict))
      → estimate_and_admit r ≡ m
      → calls
          (chat_admitted model_switch_in_progress runtime_execute queue_sink queue request_metadata
            queue_metadata r m s).1
        ≡ expected (executes m)
  unfolding chat_admitted
  admitted_calls (err error) h = refl
  admitted_calls (ok (e, v)) h =
      let (_, same) = admitted_parts r e v h in
      let d : decision_of (rule e r.capacity (charged r e)) ≡ v.decision =
        unfold decide_admission in ap (λ v. v.decision) same in
      subst (λ d. calls (decided e v d) ≡ expected (d == "would_execute")) d
        (decided_calls e v (rule e r.capacity (charged r e)))

  -- A chat request calls the runtime once when no switch runs for its model and its verdict is to
  -- execute, and never otherwise, whatever the collaborators answer, exceptions included; provided
  -- that `calls` counts each call of the runtime, and that the owner of the queue makes none.
  pub chat_calls :
      calls
        (chat_now model_switch_in_progress runtime_execute queue_sink queue request_metadata
          queue_metadata r s).1
      ≡ (if runs then suc (calls s) else calls s)
  unfolding chat
  chat_calls = elim (Bool-cases (is_switching model_switch_in_progress r.model_name s)) [
    | inl busy ↦ rw busy refl
    | inr idle ↦ rw idle (admitted_calls (estimate_and_admit r) refl)
  ]
