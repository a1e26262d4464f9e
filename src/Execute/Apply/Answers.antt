-- ===== src/Execute/Apply/Answers.antt =====
-- What an answer of the writer says, in src/iaas/opnsense_workflow/executor.py and in
-- `native_content_results` of src/iaas/opnsense_workflow/confirmation.py.
use iaas.Prelude.{
  Bool, true, false, not, ◌&&◌, ◌||◌, Option, none, some, List, [], ◌∷◌, Text, codes, text_eq,
  if◌then◌else◌, any, map,
}
use iaas.Value.{Value, Fields, list, dict, get, is_null, is_text, to_list}
use iaas.Confirm.{Bound, Content}

-- A row of `content_update` that reports a failure.
is_failed_row : Value → Bool
unfolding get text_eq
is_failed_row (dict row) =
    is_text (codes "failed") (get (codes "status") row)
    || (is_text (codes "error") (get (codes "status") row)
        || (is_text (codes "failed") (get (codes "loading") row)
            || is_text (codes "error") (get (codes "loading") row)))
is_failed_row _ = false

has_failure : Value → Bool
unfolding is_failed_row
has_failure (list vs) = any is_failed_row (to_list vs)
has_failure _ = false

content_status : Bool → Bool → Text
content_status true is_confirmed = codes "failed"
content_status false true = codes "provider_managed"
content_status false false = codes "unknown"

no_actions : List Content → Bool
no_actions [] = true
no_actions (c ∷ cs) = false

-- The statuses of `native_content_results`, one for each content action.
unfoldable pub native_content_results : Bound → Fields → Option (List Text)
unfolding has_failure content_status no_actions get text_eq
native_content_results b activation =
    let is_failure = has_failure (get (codes "content_update") activation) in
    if is_failure && no_actions b.content_actions
    then none
    else some (
        map
          (λ c.
            content_status is_failure
              (is_text (codes "confirmed") (get (codes "status") activation)))
          b.content_actions)

is_saved_status : Value → Bool
unfolding text_eq
is_saved_status status = is_text (codes "saved") status || is_text (codes "unchanged") status

-- The writes and activations that a later stage rests on.
unfoldable pub is_saved : Fields → Bool
unfolding is_saved_status get
is_saved answer = is_saved_status (get (codes "status") answer)

-- `saved.get('save', {}).get('failure') is not None`
unfoldable pub has_diagnostics : Value → Bool
unfolding get
has_diagnostics (dict process) = not (is_null (get (codes "failure") process))
has_diagnostics _ = false

unfoldable pub is_confirmed : Fields → Bool
unfolding get text_eq
is_confirmed answer = is_text (codes "confirmed") (get (codes "status") answer)
