-- ===== src/Capacity/Holder.antt =====
-- The queue that the process holds, against a ledger that keeps the entries of each request apart.
use vvz_lmrs.Prelude.{
  String, Bool, true, false, ◌==◌, ◌≡◌, refl, ap, ◌∙◌, List, [], ◌∷◌, ◌++◌, filter-append,
  if◌then◌else◌,
}
use mathlib.Core.List.{append-nil}
use vvz_lmrs.Queue.{QueueEntry, RequestQueue, add}
use vvz_lmrs.Queue.Edits.{with_id, with_id-cancel}
use vvz_lmrs.Capacity.{holder_cancel, replace}

-- What the commands do to the held queue: a chat request that is queued, and a cancellation.
pub data QueueEvent : Type 0 where
  admitted : QueueEntry → QueueEvent
  cancelled : String → QueueEvent

unfoldable pub held_after : QueueEvent → RequestQueue → RequestQueue
unfolding holder_cancel replace add
held_after (admitted e) q = replace (add q e) q
held_after (cancelled id) q = (holder_cancel id q).1

unfoldable pub run_events : List QueueEvent → RequestQueue → RequestQueue
unfolding held_after
run_events [] q = q
run_events (v ∷ vs) q = run_events vs (held_after v q)

-- The specification: for each request identifier, the entries that are promised a launch.
abbrev pub Ledger : Type 0
Ledger = String → List QueueEntry

unfoldable pub ledger_after : QueueEvent → Ledger → Ledger
ledger_after (admitted e) l id = if e.request_id == id then l id ++ (e ∷ []) else l id
ledger_after (cancelled r) l id = if id == r then [] else l id

unfoldable pub run_ledger : List QueueEvent → Ledger → Ledger
unfolding ledger_after
run_ledger [] l = l
run_ledger (v ∷ vs) l = run_ledger vs (ledger_after v l)

-- The ledger of a queue forgets how the entries of different requests are ordered.
abbrev pub ledger_of : RequestQueue → Ledger
ledger_of q id = with_id id q.entries

kept_one :
    (e : QueueEntry) (es : List QueueEntry) (same : Bool)
    → es ++ (if same then e ∷ [] else []) ≡ (if same then es ++ (e ∷ []) else es)
kept_one e es true = refl
kept_one e es false = append-nil es

admitted_one :
    (e : QueueEntry) (es : List QueueEntry) (id : String)
    → with_id id (es ++ (e ∷ []))
      ≡ (if e.request_id == id then with_id id es ++ (e ∷ []) else with_id id es)
admitted_one e es id =
    filter-append (λ (x : QueueEntry). x.request_id == id) es (e ∷ [])
    ∙ kept_one e (with_id id es) (e.request_id == id)

step_refines :
    (v : QueueEvent) (q : RequestQueue) (id : String)
    → ledger_of (held_after v q) id ≡ ledger_after v (ledger_of q) id
unfolding held_after holder_cancel replace ledger_after add
step_refines (admitted e) q id = admitted_one e q.entries id
step_refines (cancelled r) q id = with_id-cancel q r id

run_ledger_cong :
    (vs : List QueueEvent) (l m : Ledger)
    → ((id : String) → l id ≡ m id)
    → (id : String) → run_ledger vs l id ≡ run_ledger vs m id
unfolding run_ledger ledger_after
run_ledger_cong [] l m same id = same id
run_ledger_cong (admitted e ∷ vs) l m same id =
    run_ledger_cong vs _ _
      (λ j. ap (λ es. if e.request_id == j then es ++ (e ∷ []) else es) (same j)) id
run_ledger_cong (cancelled r ∷ vs) l m same id =
    run_ledger_cong vs _ _ (λ j. ap (λ es. if j == r then [] else es) (same j)) id

-- Whatever admissions and cancellations the held queue goes through, in whatever order, the entries
-- of each request that it holds are those of the ledger that goes through the same.
pub run_refines :
    (vs : List QueueEvent) (q : RequestQueue) (id : String)
    → ledger_of (run_events vs q) id ≡ run_ledger vs (ledger_of q) id
unfolding run_events run_ledger
run_refines [] q id = refl
run_refines (v ∷ vs) q id =
    run_refines vs (held_after v q) id
    ∙ run_ledger_cong vs (ledger_of (held_after v q)) (ledger_after v (ledger_of q))
        (step_refines v q) id
