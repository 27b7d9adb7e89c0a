-- ===== src/Admission/Record.antt =====
-- The queue record: when it is built, and what it holds.
use vvz_lmrs.Prelude.{
  ◌≡◌, refl, sym, ap, ok_injective, ◌∙◌, arith, true, false, not, ◌==◌, some, String, List, [], ◌∷◌,
  ◌++◌, ok, or_else, eq_refl, eq_iff, Bool, Exception, Result, ◌>>◌, ◌>>=◌, raise_if,
}
use vvz_lmrs.Prelude.Int.{pos}
use vvz_lmrs.Prelude.Dict.{Dict, lookup}
use vvz_lmrs.Prelude.Value.{Scalar, is_null}
use vvz_lmrs.Estimation.{RequestCapacityEstimate}
use vvz_lmrs.Admission.{
  AdmissionVerdict, refuse_missing, QueueRecord, item, missing_names, build_queue_entry_request,
  is_absent, required_request_metadata, required_queue_metadata,
}

-- The key holds the value, and the value is not None.
abbrev pub Holds : Dict Scalar → String → Scalar → Type 0
Holds d name v = (lookup name d ≡ some v) × (is_null v ≡ false)

present : (d : Dict Scalar) (name : String) (v : Scalar) → Holds d name v → is_absent d name ≡ false
present d name v h = rw (h.0, is_absent) h.1

item-Holds : (d : Dict Scalar) (name : String) (v : Scalar) → Holds d name v → item d name ≡ ok v
unfolding item
item-Holds d name v h = rw (h.0, item)

-- The names of which a mapping lacks none.
missing_one :
    (d : Dict Scalar) (name : String) (v : Scalar)
    → Holds d name v
    → missing_names d (name ∷ []) ≡ []
unfolding missing_names
missing_one d name v h = rw (present d name v h)

missing_two :
    (d : Dict Scalar) (name other : String) (v w : Scalar)
    → Holds d name v
    → Holds d other w
    → missing_names d (name ∷ other ∷ []) ≡ []
unfolding missing_names
missing_two d name other v w h k = rw (present d name v h, present d other w k)

module _ (verdict : AdmissionVerdict) (estimate : RequestCapacityEstimate)
    (request_metadata queue_metadata : Dict Scalar) where
  -- The record of a queueable verdict carries the verdict's identity and requirements, and the
  -- session, admission and expiry values of the metadata; priority defaults to 0, status to queued.
  pub record_exact :
      (session admitted expires : Scalar)
      → verdict.queueable ≡ true
      → estimate.request_id ≡ verdict.request_id
      → Holds request_metadata "session_id" session
      → Holds queue_metadata "admitted_at" admitted
      → Holds queue_metadata "expires_at" expires
      → build_queue_entry_request verdict estimate request_metadata queue_metadata
        ≡ ok (record {
          request_id = verdict.request_id;
          session_id = session;
          model_name = verdict.model_name;
          required_tokens = verdict.required_tokens;
          required_dynamic_vram_bytes = verdict.required_dynamic_vram_bytes;
          admitted_at = admitted;
          expires_at = expires;
          priority = or_else (lookup "priority" queue_metadata) (Scalar.int (pos 0));
          status = or_else (lookup "status" queue_metadata) (Scalar.text "queued");
          reason_code = verdict.reason_code;
        })
  unfolding build_queue_entry_request
  record_exact session admitted expires q same s a x = rw (
    q,
    same,
    eq_refl verdict.request_id,
    missing_one request_metadata "session_id" session s,
    missing_two queue_metadata "admitted_at" "expires_at" admitted expires a x,
    item-Holds request_metadata "session_id" session s,
    item-Holds queue_metadata "admitted_at" admitted a,
    item-Holds queue_metadata "expires_at" expires x,
  )

-- What a block of two guards, a list of names and three reads has gone through when it returns.
steps_of_ok {ℓ} :
    {A : Type ℓ} (b c : Bool) (d e : Exception) (names : List String) (m n o : Result Scalar)
    (f : Scalar → Scalar → Scalar → A) {r : A}
    → (raise_if b d
        >> (raise_if c e
            >> (refuse_missing names >> (m >>= λ s. n >>= λ a. o >>= λ x. ok (f s a x)))))
      ≡ ok r
    → (b ≡ false)
      × (c ≡ false)
      × (names ≡ [])
      × ((s a x : Scalar) × (m ≡ ok s) × (n ≡ ok a) × (o ≡ ok x) × (f s a x ≡ r))
steps_of_ok false false d e [] (ok s) (ok a) (ok x) f h =
    (refl, refl, refl, (s, a, x, refl, refl, refl, cc))
steps_of_ok _ _ d e _ _ _ _ f h = cc

absent_of_missing :
    (d : Dict Scalar) (name : String) (names : List String)
    → missing_names d (name ∷ names) ≡ []
    → (is_absent d name ≡ false) × (missing_names d names ≡ [])
unfolding missing_names
absent_of_missing d name names h = ground arith

item-eq-ok :
    (d : Dict Scalar) (name : String) {v : Scalar} → item d name ≡ ok v → lookup name d ≡ some v
unfolding item
item-eq-ok d name h = ground arith

Holds-of_item :
    (d : Dict Scalar) (name : String) {v : Scalar}
    → is_absent d name ≡ false
    → item d name ≡ ok v
    → Holds d name v
Holds-of_item d name {v} given read =
    let found = item-eq-ok d name read in (found, rw (found, is_absent) at given)

nil_parts : (xs ys : List String) → xs ++ ys ≡ [] → (xs ≡ []) × (ys ≡ [])
nil_parts [] ys h = (refl, h)
nil_parts (x ∷ xs) ys h = cc

not-eq-false : (b : Bool) → not b ≡ false → b ≡ true
not-eq-false true h = refl
not-eq-false false h = cc

-- A record is built only for a queueable verdict and an estimate of the same request, and then its
-- session, admission and expiry are the values of the metadata, none of them None.
pub record-only :
    (verdict : AdmissionVerdict) (estimate : RequestCapacityEstimate)
    (request_metadata queue_metadata : Dict Scalar) (r : QueueRecord)
    → build_queue_entry_request verdict estimate request_metadata queue_metadata ≡ ok r
    → (verdict.queueable ≡ true)
      × (estimate.request_id ≡ verdict.request_id)
      × Holds request_metadata "session_id" r.session_id
      × Holds queue_metadata "admitted_at" r.admitted_at
      × Holds queue_metadata "expires_at" r.expires_at
unfolding build_queue_entry_request
record-only verdict estimate rm qm r h =
    let missing_rm = missing_names rm required_request_metadata in
    let missing_qm = missing_names qm required_queue_metadata in
    let (q, same, given, (s, a, x, read_s, read_a, read_x, built)) =
      steps_of_ok (not verdict.queueable) (not (estimate.request_id == verdict.request_id)) _ _
        (missing_rm ++ missing_qm) (item rm "session_id") (item qm "admitted_at")
        (item qm "expires_at") _ h in
    let (lacks_rm, lacks_qm) = nil_parts missing_rm missing_qm given in
    let has_s = absent_of_missing rm "session_id" [] lacks_rm in
    let has_a = absent_of_missing qm "admitted_at" ("expires_at" ∷ []) lacks_qm in
    let has_x = absent_of_missing qm "expires_at" [] has_a.1 in
    rw (← built) (
      not-eq-false verdict.queueable q,
      (eq_iff estimate.request_id verdict.request_id).0
          (not-eq-false (estimate.request_id == verdict.request_id) same),
      Holds-of_item rm "session_id" has_s.0 read_s,
      Holds-of_item qm "admitted_at" has_a.0 read_a,
      Holds-of_item qm "expires_at" has_x.0 read_x,
    )

-- A record that was built is the one that its parts determine.
pub record_of_built :
    (verdict : AdmissionVerdict) (estimate : RequestCapacityEstimate)
    (request_metadata queue_metadata : Dict Scalar) (r : QueueRecord)
    → build_queue_entry_request verdict estimate request_metadata queue_metadata ≡ ok r
    → (r.required_dynamic_vram_bytes ≡ verdict.required_dynamic_vram_bytes)
      × (r.status ≡ or_else (lookup "status" queue_metadata) (Scalar.text "queued"))
record_of_built verdict estimate rm qm r h =
    let (q, same, s, a, x) = record-only verdict estimate rm qm r h in
    let built =
      record_exact verdict estimate rm qm r.session_id r.admitted_at r.expires_at q same s a x in
    let determined = ok_injective (sym h ∙ built) in
    (ap (λ r. r.required_dynamic_vram_bytes) determined, ap (λ r. r.status) determined)
