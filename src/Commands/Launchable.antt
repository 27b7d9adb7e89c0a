-- ===== src/Commands/Launchable.antt =====
-- From the chat path to the scheduler: what was queued can be selected.
use vvz_lmrs.Prelude.{
  ◌≡◌, ◌≢◌, refl, sym, ap, ◌∙◌, arith, true, false, none, List, [], ◌∷◌, ◌++◌, All, ok, or_else,
  ok_injective, >>=-eq-ok,
}
use vvz_lmrs.Prelude.Int.{ℤ, ◌≤ℤ◌}
use vvz_lmrs.Prelude.Dict.{Dict, lookup}
use vvz_lmrs.Prelude.Value.{Scalar, to_text, to_int}
use vvz_lmrs.Estimation.{RequestCapacityEstimate}
use vvz_lmrs.Admission.{QueueRecord, decide_admission, build_queue_entry_request}
use vvz_lmrs.Admission.Record.{record_of_built}
use vvz_lmrs.Queue.{QueueEntry, RequestQueue, add, is_candidate, largest_fit_scheduler}
use vvz_lmrs.Queue.Schedule.{scheduler-none_iff}
use vvz_lmrs.Commands.{queue_entry_from_record}
use vvz_lmrs.Commands.Handler.{Request}
use vvz_lmrs.Commands.Paths.{verdict_on, charged}

entry_fields :
    (rec : QueueRecord) (entry : QueueEntry)
    → queue_entry_from_record rec ≡ ok entry
    → (entry.required_dynamic_vram_bytes ≡ rec.required_dynamic_vram_bytes)
      × (entry.status ≡ to_text rec.status)
unfolding queue_entry_from_record
entry_fields rec entry h =
    let (priority, _, made) = >>=-eq-ok (to_int rec.priority) _ h in
    let same = ok_injective made in
    (ap (λ e. e.required_dynamic_vram_bytes) (sym same), ap (λ e. e.status) (sym same))

All-last : {A : Type 0} (P : A → Type 0) (xs : List A) (x : A) → All P (xs ++ x ∷ []) → P x
All-last P [] x h = h.0
All-last P (y ∷ ys) x h = All-last P ys x h.1

candidate_of :
    (usable : ℤ) (e : QueueEntry)
    → e.status ≡ "queued"
    → e.required_dynamic_vram_bytes ≤ℤ usable
    → is_candidate usable e ≡ true
unfolding is_candidate
candidate_of usable e h k = rw h (ground arith)

-- When the record and the entry of a request are built, with no status among the metadata, and the
-- usable memory is at least what the request is charged, the scheduler selects some entry of the queue
-- with that entry at its end.
pub queued_launchable :
    (r : Request) (e : RequestCapacityEstimate) (request_metadata queue_metadata : Dict Scalar)
    (rec : QueueRecord) (entry : QueueEntry) (queue : RequestQueue) (usable : ℤ)
    → build_queue_entry_request (verdict_on r e) e request_metadata queue_metadata ≡ ok rec
    → queue_entry_from_record rec ≡ ok entry
    → lookup "status" queue_metadata ≡ none
    → charged r e ≤ℤ usable
    → largest_fit_scheduler (add queue entry).entries usable ≢ none
unfolding add decide_admission
queued_launchable r e rm qm rec entry queue usable built read default fits selected =
    let (bytes, status) = record_of_built (verdict_on r e) e rm qm rec built in
    let (bytes', status') = entry_fields rec entry read in
    let queued : entry.status ≡ "queued" =
      status'
      ∙ ap to_text (status ∙ ap (λ o. or_else o (Scalar.text "queued")) default)
      ∙ (unfold to_text in refl) in
    let room : entry.required_dynamic_vram_bytes ≤ℤ usable = rw (bytes' ∙ bytes) fits in
    let not_one =
      All-last (λ e. is_candidate usable e ≡ false) queue.entries entry
        ((scheduler-none_iff usable (queue.entries ++ entry ∷ [])).0 selected) in
    cc (candidate_of usable entry queued room, not_one)
