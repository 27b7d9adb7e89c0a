-- ===== src/Queue/Edits.antt =====
-- Adding and cancelling entries.
use vvz_lmrs.Prelude.{
  Bool-cases, inl, inr, if◌then◌else◌, ◌≡◌, ◌≢◌, refl, arith, ◌==◌, String, List, [], ◌∷◌, filter,
  filter-append, eq_iff, eq_refl,
}
use mathlib.Core.List.{append-nil}
use vvz_lmrs.Queue.{QueueEntry, RequestQueue, add, cancel, is_other}

-- The entries with the identifier, in their order.
abbrev pub with_id : String → List QueueEntry → List QueueEntry
with_id request_id = filter (λ e. e.request_id == request_id)

filter_away : (id : String) (es : List QueueEntry) → with_id id (filter (is_other id) es) ≡ []
filter_away id [] = refl
filter_away id (e ∷ es) = ground (arith, filter_away id es)

keep_others :
    (id j : String) (es : List QueueEntry)
    → j ≢ id
    → with_id j (filter (is_other id) es) ≡ with_id j es
keep_others id j [] h = refl
keep_others id j (e ∷ es) h =
    ground (arith, keep_others id j es, eq_iff e.request_id id, eq_iff e.request_id j)

-- Cancelling removes every entry of the identifier, and leaves the entries of every other one as
-- they were and in their order.
pub with_id-cancel :
    (q : RequestQueue) (id j : String)
    → with_id j (cancel q id).entries ≡ (if j == id then [] else with_id j q.entries)
unfolding cancel
with_id-cancel q id j = elim (Bool-cases (j == id)) [
  | inl same ↦ rw (same, (eq_iff j id).0 same) (filter_away id q.entries)
  | inr other ↦ rw other (keep_others id j q.entries (λ e. cc (other, (eq_iff j id).1 e)))
]

filter_fresh :
    (id : String) (es : List QueueEntry) → with_id id es ≡ [] → filter (is_other id) es ≡ es
filter_fresh id [] h = refl
filter_fresh id (e ∷ es) h = ground (arith, filter_fresh id es)

-- Adding an entry and cancelling its identifier gives a queue that had no such entry back.
pub cancel-add :
    (q : RequestQueue) (e : QueueEntry)
    → with_id e.request_id q.entries ≡ []
    → cancel (add q e) e.request_id ≡ q
unfolding cancel add
cancel-add q e fresh = rw (
  filter-append (is_other e.request_id) q.entries (e ∷ []),
  filter_fresh e.request_id q.entries fresh,
  eq_refl e.request_id,
  append-nil,
)
