-- ===== src/Wait/Examples.antt =====
-- Runs of opnsense_workflow/waiting.py on concrete environments, and the theorems at them.
use iaas.Prelude.{
  ℕ, ◌≡◌, refl, true, false, none, some, arith, codes, text_eq, is_in, lower, ltb, lt→ltb,
  if◌then◌else◌,
}
use iaas.Prelude.Int.{pos, negsuc}
use iaas.Wait.{
  Policy, Observation, mapping, Env, WaitResult, returned, confirmed, completed, judge,
  wait_for_confirmation,
}
use iaas.Wait.Bounds.{IsBoundedEnd, wait_for_confirmation-IsBoundedEnd}
use iaas.Wait.Evidence.{IsEvidenced, wait_for_confirmation-Honest}
use iaas.Wait.Progress.{Decides, Answers, wait_for_confirmation-Decides}
use iaas.Wait.Admission.{
  PolicyArgs, int, float, IsAdmitted, post_init, policy, value_error, interval_negative,
  post_init-IsAdmitted,
}

abbrev default_policy : Policy
default_policy = record {
  deadline_seconds = 60;
  max_attempts = 30;
  request_timeout_seconds = 15;
  interval_seconds = 2;
}

abbrev still_processing : Observation
still_processing = record {
  status = some (codes "Processing");
  complete = true;
  fresh = true;
  truncated = false;
}

abbrev done : Observation
done = record {
  status = some (codes "CONFIRMED");
  complete = true;
  fresh = true;
  truncated = false;
}

-- The third read confirms.
abbrev answers : ℕ → Observation
answers i = if ltb i 3 then still_processing else done

abbrev steady : Env
steady = record { clock = λ i. i; read = λ i τ. mapping (answers i); sleep = λ i τ. none }

-- A clock that stays at one reading.
abbrev frozen : Env
frozen = record { clock = λ i. 7; read = λ i τ. mapping (answers i); sleep = λ i τ. none }

abbrev steady_result : WaitResult
steady_result = record {
  status = confirmed;
  reason = completed;
  attempts = 3;
  elapsed_seconds = 6;
  last_observation = some done;
}

wait_steady : (wait_for_confirmation steady default_policy).0 ≡ returned steady_result
unfolding wait_for_confirmation judge is_in text_eq lower
wait_steady = refl

wait_for_confirmation-IsBoundedEnd_example :
    IsBoundedEnd default_policy 0 (wait_for_confirmation steady default_policy)
wait_for_confirmation-IsBoundedEnd_example =
    wait_for_confirmation-IsBoundedEnd steady default_policy

wait_for_confirmation-Honest_example : IsEvidenced steady default_policy steady_result
wait_for_confirmation-Honest_example =
    wait_for_confirmation-Honest steady default_policy steady_result wait_steady refl

frozen-Answers : Answers frozen default_policy answers 3 confirmed completed
unfolding judge is_in text_eq lower
frozen-Answers = record {
  within = omega arith;
  early = λ i. omega arith;
  rested = λ i τ. refl;
  answered = λ i τ h. refl;
  processing = λ i h. rw (lt→ltb i 3 h) refl;
  decided = refl;
}

wait_for_confirmation-Decides_example :
    Decides confirmed completed 3 done (wait_for_confirmation frozen default_policy).0
wait_for_confirmation-Decides_example =
    wait_for_confirmation-Decides frozen default_policy answers 2 confirmed completed frozen-Answers

abbrev given : PolicyArgs
given = record {
  deadline_seconds = int (pos 60);
  max_attempts = int (pos 30);
  request_timeout_seconds = float (pos 15);
  interval_seconds = int (pos 2);
}

post_init-given : post_init given ≡ policy default_policy
unfolding post_init
post_init-given = refl

post_init-negative :
    post_init (record given { interval_seconds = float (negsuc 0) }) ≡ value_error interval_negative
unfolding post_init
post_init-negative = refl

post_init-IsAdmitted_example : IsAdmitted given default_policy
post_init-IsAdmitted_example = post_init-IsAdmitted given default_policy post_init-given
