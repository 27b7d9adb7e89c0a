-- ===== src/Commands/Contract.antt =====
-- lmrs/commands.py: the tables of `PublicCommandContract`.
use vvz_lmrs.Prelude.{
  ◌≡◌, refl, sym, ◌∙◌, inl, inr, Bool-cases, String, Bool, true, false, ◌==◌, Option, none, some,
  is_some, List, [], ◌∷◌, Result, ok, err,
}
use vvz_lmrs.Prelude.Dict.{Dict, lookup}

unfoldable pub command_categories : Dict String
command_categories =
    ("healthcheck", "health")
    ∷ ("model_status", "model_status")
    ∷ ("capacity", "capacity")
    ∷ ("token_count", "token_accounting")
    ∷ ("estimate", "token_accounting_admission_dry_run")
    ∷ ("chat", "token_accounting_admission_chat")
    ∷ ("queue_status", "request_queue_state")
    ∷ ("cancel", "request_cancellation")
    ∷ ("local_model_cache_preload", "disk_cache")
    ∷ ("local_model_cache_status", "disk_cache")
    ∷ ("local_model_cache_delete", "disk_cache")
    ∷ ("local_model_load", "model_lifecycle")
    ∷ ("local_model_unload", "model_lifecycle")
    ∷ ("local_model_reload", "model_lifecycle")
    ∷ []

unfoldable pub result_shapes : Dict String
result_shapes =
    ("healthcheck", "payload")
    ∷ ("model_status", "payload")
    ∷ ("capacity", "capacity_snapshot")
    ∷ ("token_count", "token_breakdown")
    ∷ ("estimate", "would_outcome_with_reason")
    ∷ ("chat", "execution_queue_or_rejection")
    ∷ ("queue_status", "queue_state")
    ∷ ("cancel", "cancellation_result")
    ∷ ("local_model_cache_preload", "cache_result")
    ∷ ("local_model_cache_status", "cache_result")
    ∷ ("local_model_cache_delete", "cache_result")
    ∷ ("local_model_load", "lifecycle_result")
    ∷ ("local_model_unload", "lifecycle_result")
    ∷ ("local_model_reload", "lifecycle_result")
    ∷ []

-- `mapping[key]`
or_key_error : String → Option String → Result String
or_key_error key none = err (record { type_name = "KeyError"; message = key })
or_key_error key (some v) = ok v

unfoldable pub operation_category : String → Result String
unfolding command_categories or_key_error
operation_category command = or_key_error command (lookup command command_categories)

unfoldable pub result_shape : String → Result String
unfolding result_shapes or_key_error
result_shape command = or_key_error command (lookup command result_shapes)

abbrev pub is_ok : Result String → Bool
is_ok (ok _) = true
is_ok (err _) = false

or_key_error_lem : (key : String) (o : Option String) → is_ok (or_key_error key o) ≡ is_some o
unfolding or_key_error
or_key_error_lem key none = refl
or_key_error_lem key (some v) = refl

abbrev keys : Dict String → List String
keys [] = []
keys ((k, v) ∷ d) = k ∷ keys d

same_keys :
    (key : String) (d e : Dict String)
    → keys d ≡ keys e
    → is_some (lookup key d) ≡ is_some (lookup key e)
unfolding lookup
same_keys key [] [] h = refl
same_keys key [] (x ∷ e) h = cc
same_keys key (x ∷ d) [] h = cc
same_keys key ((j, v) ∷ d) ((i, w) ∷ e) h =
    let same_head : j ≡ i = cc h in
    let same_tail : keys d ≡ keys e = cc h in
    elim (Bool-cases (j == key)) [
      | inl found ↦ rw (← same_head, found) refl
      | inr other ↦ rw (← same_head, other) (same_keys key d e same_tail)
    ]

-- The two tables of the contract name the same commands: for every text, the category lookup returns
-- exactly when the lookup of the result shape does.
pub tables_agree :
    (command : String) → is_ok (operation_category command) ≡ is_ok (result_shape command)
unfolding operation_category result_shape command_categories result_shapes
tables_agree command =
    or_key_error_lem command (lookup command command_categories)
    ∙ same_keys command command_categories result_shapes refl
    ∙ sym (or_key_error_lem command (lookup command result_shapes))
