-- ===== src/Commands/Queued.antt =====
-- lmrs/commands.py: which chat requests are queued, and what becomes of the queue.
use vvz_lmrs.Prelude.{
  ok_injective, ◌≡◌, ◌⊎◌, refl, sym, subst, ap, ◌∙◌, inl, inr, String, Bool, true, false,
  Bool-cases, Option, none, some, Result, ok, err, Exception, >>=-eq-ok,
}
use vvz_lmrs.Prelude.Int.{◌<ℤ◌}
use vvz_lmrs.Prelude.Dict.{Dict}
use vvz_lmrs.Prelude.Value.{Scalar}
use vvz_lmrs.Estimation.{RequestCapacityEstimate, estimate_request_capacity}
use vvz_lmrs.Admission.{
  Ruling, context_overflow, request_too_large, capacity_constrained, capacity_available,
  decision_of, decide_admission, QueueRecord, build_queue_entry_request,
}
use vvz_lmrs.Admission.Decision.{Admissible, decision_iff}
use vvz_lmrs.Queue.{QueueEntry, RequestQueue, add}
use vvz_lmrs.Commands.{
  RuntimeReply, failed, normalized, CommandResult, canonical_decision, chat_result,
  execution_outcome, execution_table, queue_entry_from_record, result_of,
}
use vvz_lmrs.Commands.Handler.{
  Request, estimate_input, estimate_and_admit, is_switching, call_sink, after_sink, enqueue,
  chat_admitted, chat,
}
use vvz_lmrs.Commands.Paths.{
  verdict_on, charged, queue_parts, queued_artifacts, report, chat_now, chat_switching,
  chat_of_reject, chat-runs, chat_enqueues,
}

-- The owner of the queue, where there is one, has taken the queue; without one nothing happens.
abbrev pub Handed :
    {S : Type 0} → Option (RequestQueue → S → Result (Unit {0}) × S) → RequestQueue → S → S → Type 0
Handed none updated s t = t ≡ s
Handed (some sink) updated s t = sink updated s ≡ (ok tt, t)

-- A call that returned a queued result.
abbrev pub ReturnsQueued : {S R : Type 0} → Result (CommandResult R) × S → Type 0
ReturnsQueued (err raised, s) = ⊥
ReturnsQueued (ok c, s) = c.outcome ≡ "queued"

-- What a queued result comes from: a request whose estimate fits the window and the pool but not the
-- memory that is usable now, with a record and an entry, which the queue that is reported and handed
-- over has at its end.
pub record IsQueued {S R : Type 0} (queue_sink : Option (RequestQueue → S → Result (Unit {0}) × S))
    (queue : RequestQueue) (request_metadata queue_metadata : Dict Scalar) (r : Request) (s : S)
    (out : Result (CommandResult R) × S) : Type 0 where
  estimate : RequestCapacityEstimate
  record_ : QueueRecord
  entry : QueueEntry
  estimated : estimate_request_capacity (estimate_input r) ≡ ok estimate
  fits : Admissible estimate r.capacity (charged r estimate)
  exceeds : r.capacity.usable_dynamic_vram_bytes <ℤ charged r estimate
  built :
      build_queue_entry_request (verdict_on r estimate) estimate request_metadata queue_metadata
      ≡ ok record_
  read : queue_entry_from_record record_ ≡ ok entry
  handed : Handed queue_sink (add queue entry) s out.1
  reported :
      out.0 ≡ ok (result_of "chat" "queued" true (queued_artifacts r estimate queue record_ entry))

decision_cases :
    (g : Ruling)
    → (decision_of g ≡ "would_execute")
      ⊎ (decision_of g ≡ "would_queue")
      ⊎ (decision_of g ≡ "would_reject")
unfolding decision_of
decision_cases context_overflow = inr (inr refl)
decision_cases request_too_large = inr (inr refl)
decision_cases capacity_constrained = inr (inl refl)
decision_cases capacity_available = inl refl

verdict_cases :
    (r : Request) (e : RequestCapacityEstimate)
    → ((verdict_on r e).decision ≡ "would_execute")
      ⊎ ((verdict_on r e).decision ≡ "would_queue")
      ⊎ ((verdict_on r e).decision ≡ "would_reject")
unfolding decide_admission
verdict_cases r e = decision_cases _

Result-cases :
    {A : Type 0} (x : Result A) → ((a : A) × (x ≡ ok a)) ⊎ ((raised : Exception) × (x ≡ err raised))
Result-cases (ok a) = inl (a, refl)
Result-cases (err raised) = inr (raised, refl)

rejected_not : ◌≡◌ {A = String} "rejected" "queued" → ⊥
rejected_not e = cc

no_report :
    {S R : Type 0} (r : Request) (e : RequestCapacityEstimate) (x : Result (RuntimeReply R)) (t : S)
    → ReturnsQueued (report r e x, t)
    → ⊥
no_report r e (err raised) t h = h
no_report r e (ok (failed f)) t h = cc
no_report r e (ok (normalized a)) t h = cc

Handed-of_sink :
    {S : Type 0} (o : Option (RequestQueue → S → Result (Unit {0}) × S)) (updated : RequestQueue)
    (s t : S) (u : Unit {0})
    → call_sink o updated s ≡ (ok u, t)
    → Handed o updated s t
unfolding call_sink
Handed-of_sink none updated s t u h = ap (λ x. x.1) (sym h)
Handed-of_sink (some sink) updated s t u h = h

module _ {S R : Type 0} (model_switch_in_progress : Option (String → S → Bool))
    (runtime_execute : S → Result (RuntimeReply R) × S)
    (queue_sink : Option (RequestQueue → S → Result (Unit {0}) × S)) (queue : RequestQueue)
    (request_metadata queue_metadata : Dict Scalar) (r : Request) (s : S) where
  abbrev now : Result (CommandResult R) × S
  now =
      chat_now model_switch_in_progress runtime_execute queue_sink queue request_metadata
        queue_metadata r s

  abbrev Queued : Result (CommandResult R) × S → Type 0
  Queued = IsQueued queue_sink queue request_metadata queue_metadata r s

  module _ (e : RequestCapacityEstimate)
      (estimated : estimate_request_capacity (estimate_input r) ≡ ok e)
      (fits : Admissible e r.capacity (charged r e))
      (exceeds : r.capacity.usable_dynamic_vram_bytes <ℤ charged r e)
      (queued : (verdict_on r e).decision ≡ "would_queue") where
    after_sink-Queued :
        (rec : QueueRecord) (entry : QueueEntry) (x : Result (Unit {0}) × S)
        → build_queue_entry_request (verdict_on r e) e request_metadata queue_metadata ≡ ok rec
        → queue_entry_from_record rec ≡ ok entry
        → call_sink queue_sink (add queue entry) s ≡ x
        → ReturnsQueued (
            after_sink model_switch_in_progress runtime_execute queue_sink queue request_metadata
              queue_metadata r e
              (verdict_on r e)
              rec
              (add queue entry)
              x)
        → Queued (
            after_sink model_switch_in_progress runtime_execute queue_sink queue request_metadata
              queue_metadata r e
              (verdict_on r e)
              rec
              (add queue entry)
              x)
    unfolding after_sink chat_result execution_outcome canonical_decision execution_table
    after_sink-Queued rec entry (err raised, t) built read sunk h = absurd h
    after_sink-Queued rec entry (ok u, t) built read sunk h = record {
      estimate = e;
      record_ = rec;
      entry = entry;
      estimated = estimated;
      fits = fits;
      exceeds = exceeds;
      built = built;
      read = read;
      handed = Handed-of_sink queue_sink (add queue entry) s t u sunk;
      reported = ap (λ d. chat_result d (queued_artifacts r e queue rec entry)) queued;
    }

    enqueue-Queued :
        (parts : Result (QueueRecord × QueueEntry))
        → queue_parts r e request_metadata queue_metadata ≡ parts
        → ReturnsQueued (
            enqueue model_switch_in_progress runtime_execute queue_sink queue request_metadata
              queue_metadata r e
              (verdict_on r e)
              parts
              s)
        → Queued (
            enqueue model_switch_in_progress runtime_execute queue_sink queue request_metadata
              queue_metadata r e
              (verdict_on r e)
              parts
              s)
    unfolding enqueue
    enqueue-Queued (err raised) eq h = absurd h
    enqueue-Queued (ok (rec, entry)) eq h =
        let (rec', built, rest) =
          >>=-eq-ok (build_queue_entry_request (verdict_on r e) e request_metadata queue_metadata) _
            eq in
        let (entry', read, both) = >>=-eq-ok (queue_entry_from_record rec') _ rest in
        let same = ok_injective both in
        let same_record = ap (λ p. p.0) same in
        after_sink-Queued rec entry (call_sink queue_sink (add queue entry) s)
          (built ∙ ap ok same_record)
          (ap queue_entry_from_record (sym same_record) ∙ read ∙ ap (λ p. ok p.1) same) refl h

  raises :
      (raised : Exception)
      → estimate_request_capacity (estimate_input r) ≡ err raised
      → is_switching model_switch_in_progress r.model_name s ≡ false
      → now ≡ (err raised, s)
  unfolding chat estimate_and_admit chat_admitted
  raises raised e idle = rw (idle, e) refl

  estimated-Queued :
      (e : RequestCapacityEstimate)
      → is_switching model_switch_in_progress r.model_name s ≡ false
      → estimate_request_capacity (estimate_input r) ≡ ok e
      → ReturnsQueued now
      → Queued now
  estimated-Queued e idle est h =
      let (runs, queues, rejects) =
        decision_iff e r.capacity r.cache_hit_confirmed r.cache_adjusted_dynamic_vram_bytes in
      elim (verdict_cases r e) [
        | inl d ↦
            let (fits, enough) = runs.0 d in
            absurd (
              no_report r e (runtime_execute s).0 (runtime_execute s).1 (
                subst ReturnsQueued
                  (chat-runs model_switch_in_progress runtime_execute queue_sink queue
                    request_metadata queue_metadata r s e idle est fits enough)
                  h))
        | inr (inl d) ↦
            let (fits, exceeds) = queues.0 d in
            let goes_on =
              chat_enqueues model_switch_in_progress runtime_execute queue_sink queue
                request_metadata queue_metadata r s e idle est fits exceeds in
            subst Queued (sym goes_on) (
              enqueue-Queued e est fits exceeds d (queue_parts r e request_metadata queue_metadata)
                refl (subst ReturnsQueued goes_on h))
        | inr (inr d) ↦ absurd (
            rejected_not (
              subst ReturnsQueued
                (chat_of_reject model_switch_in_progress runtime_execute queue_sink queue
                  request_metadata queue_metadata r s e idle est d)
                h))
      ]

  -- A chat request that is answered as queued had no switch running for its model, an estimate that
  -- fits the window and the pool but not the memory that is usable now, and a record and an entry;
  -- the queue that the answer shows has that entry at its end, and the owner of the queue, where
  -- there is one, has taken it; without an owner the world is as it was.
  pub chat-IsQueued :
      ReturnsQueued now
      → (is_switching model_switch_in_progress r.model_name s ≡ false)
        × IsQueued queue_sink queue request_metadata queue_metadata r s now
  chat-IsQueued h = elim (Bool-cases (is_switching model_switch_in_progress r.model_name s)) [
    | inl e ↦ absurd (
        rejected_not (
          subst ReturnsQueued
            (chat_switching model_switch_in_progress runtime_execute queue_sink queue
              request_metadata queue_metadata r s e)
            h))
    | inr idle ↦ (
      idle,
      elim (Result-cases (estimate_request_capacity (estimate_input r))) [
        | inl (e, est) ↦ estimated-Queued e idle est h
        | inr (raised, e) ↦ absurd (subst ReturnsQueued (raises raised e idle) h)
      ],
    )
  ]
