-- ===== src/Tests/Waits.antt =====
-- Workflows resumed, timers, messages waited for, streams read to their end.
use durust.Base.{
  ℕ, zero, suc, ℤ, pos, negsuc, ◌+ℤ◌, Bool, true, false, none, some, is_some, [], ◌∷◌, ◌≡◌, refl,
  ap, inl, inr, arith, string_eq, int_eq, pair_eq,
}
use durust.Error.{ok, app}
use durust.Store.{contains_key, get, insert, values}
use durust.Provider.{new_workflow}
use durust.Memory.Lifecycle.{insert_workflow_status, get_workflow_status}
use durust.Memory.Steps.{get_step_result, record_step_result}
use durust.Memory.Calls.Checkpoints.{no_call}
use durust.Memory.Mailbox.{insert_notification, consume_notification}
use durust.Context.{StepEnv, durable_value, replay_or_guard}
use durust.Context.Program.{
  Program, returns, calls, to_send, to_draw, execute, perform, following, Progress, stopped, went,
}
use durust.Context.Program.Resumes.{execute-resumes}
use durust.Context.Messages.{Timers, Turn, durable_wake_at, recv, wait_loop, send}
use durust.Context.Messages.Deadline.{durable_wake_at-stable}
use durust.Context.Messages.Replays.{recv-replays}
use durust.Context.Messages.Returns.{recv-returns}
use durust.Context.Messages.Receive.{IsElsewhere}
use durust.Context.Messages.Send.{send-replays, send-IsEffect}
use Prim.Native.Nat.{◌≤◌}
use durust.Base.{Option, All, take, sym}
use durust.Engine.{default_options}
use durust.Debounce.{DebouncerInput, DebounceMessage, Round, from_options, internal_debouncer}
use durust.Debounce.Collector.{IsTimely, HasMessage, last_input, acks, internal_debouncer-settles}
use durust.Tests.Data.{plain, State, one_row, one_row-IsValid}

abbrev env : StepEnv plain
env = record {
  encode_error = λ e. "failed";
  panic_error = λ name. app name;
  started_at_ms = pos 20;
  now = pos 21;
}

-- An id is drawn, then a message with it is sent to the workflow itself.
abbrev sends : ℕ → Program plain "a"
sends v = calls (to_send "a" v "topic" "u1" (pos 22)) (λ done. returns v)

abbrev workflow : Program plain "a"
workflow = calls (to_draw "DBOS.uuid" (λ rt. 8)) sends

abbrev drawn : State
drawn = (durable_value env "a" (pos 0) "DBOS.uuid" 8 one_row).1

-- It stopped after the first operation, and the message was not sent.
part_way : Progress (pos 0) workflow one_row (following (pos 0)) (sends 8) drawn
unfolding perform durable_value record_step_result get_step_result insert_workflow_status
    new_workflow get insert values
part_way =
    went env (pos 0) (to_draw "DBOS.uuid" (λ rt. 8)) sends 8 one_row drawn (following (pos 0))
      (sends 8) drawn refl no_call (stopped (following (pos 0)) (sends 8) drawn)

execute-resumes_example :
    execute env (pos 0) workflow drawn ≡ execute env (following (pos 0)) (sends 8) drawn
execute-resumes_example =
    execute-resumes env (pos 0) workflow one_row (following (pos 0)) (sends 8) drawn drawn
      one_row-IsValid part_way no_call

-- An instant as a number: the even ones from 0 on, the odd ones before.
abbrev number_of : ℤ → ℕ
number_of (pos zero) = 0
number_of (pos (suc n)) = suc (suc (number_of (pos n)))
number_of (negsuc zero) = 1
number_of (negsuc (suc n)) = suc (suc (number_of (negsuc n)))

abbrev outward : ℤ → ℤ
outward (pos n) = pos (suc n)
outward (negsuc n) = negsuc (suc n)

abbrev instant_of : ℕ → ℤ
instant_of zero = pos 0
instant_of (suc zero) = negsuc 0
instant_of (suc (suc n)) = outward (instant_of n)

instant_of-number_of : (d : ℤ) → instant_of (number_of d) ≡ d
instant_of-number_of (pos zero) = refl
instant_of-number_of (pos (suc n)) = ap outward (instant_of-number_of (pos n))
instant_of-number_of (negsuc zero) = refl
instant_of-number_of (negsuc (suc n)) = ap outward (instant_of-number_of (negsuc n))

abbrev is_zero : ℕ → Bool
is_zero zero = true
is_zero (suc n) = false

abbrev timers : Timers plain
timers = record {
  later = λ asked dur. asked +ℤ pos dur;
  time_value = number_of;
  value_time = λ v. ok (instant_of v);
  is_null = is_zero;
}

abbrev timed_state : State
timed_state = (durable_wake_at env timers "a" (pos 0) 5 (pos 20) one_row).1

durable_wake_at-stable_example :
    durable_wake_at env timers "a" (pos 0) 9 (pos 50) timed_state ≡ (ok (pos 25), timed_state)
unfolding durable_wake_at record_step_result get_step_result insert_workflow_status new_workflow get
    insert values ◌+ℤ◌
durable_wake_at-stable_example =
    (durable_wake_at-stable timers env env "a" (pos 0) 5 9 (pos 20) (pos 50) one_row timed_state
        (λ d. ap ok (instant_of-number_of d)) one_row-IsValid).1
      (pos 25) refl no_call

-- Nobody sends; then a message comes, before the deadline at 25.
abbrev quiet : Turn plain
quiet = record { elsewhere = λ g. g; asked = pos 20; now = pos 21 }

abbrev busy : Turn plain
busy = record {
  elsewhere = λ g. (insert_notification "a" "topic" 7 none "u1" (pos 22) g).1;
  asked = pos 22;
  now = pos 23;
}

abbrev late : Turn plain
late = record { elsewhere = λ g. g; asked = pos 26; now = pos 26 }

quiet-IsElsewhere : IsElsewhere "a" (pos 0) quiet
quiet-IsElsewhere = record { by_calls = λ g. no_call; leaves = λ g unread. unread }

busy-IsElsewhere : IsElsewhere "a" (pos 0) busy
unfolding get_step_result
busy-IsElsewhere = record {
  by_calls = (send-IsEffect {p = plain} "a" "topic" "u1" 7 (pos 22)).by_call;
  leaves =
      λ g unread. rw ((send-IsEffect {p = plain} "a" "topic" "u1" 7 (pos 22)).same_steps g) unread;
}

abbrev received : State
received = (recv env timers "a" (pos 0) (pos 1) "topic" 5 (quiet ∷ busy ∷ []) one_row).1

recv-replays_example :
    recv env timers "a" (pos 0) (pos 1) "topic" 5 (late ∷ []) received
    ≡ (some (ok (some 7)), received)
unfolding recv replay_or_guard wait_loop durable_wake_at consume_notification insert_notification
    record_step_result get_step_result get_workflow_status insert_workflow_status new_workflow get
    insert values ◌+ℤ◌ contains_key
recv-replays_example =
    recv-replays env env timers "a" (pos 0) (pos 1) "topic" 5 (quiet ∷ busy ∷ []) (late ∷ [])
      (some 7) one_row received refl (λ e. ground (arith, int_eq.eqb_iff (pos 1) (pos 0)))
      (quiet-IsElsewhere, (busy-IsElsewhere, tt)) one_row-IsValid refl no_call

recv-returns_example :
    is_some (recv env timers "a" (pos 0) (pos 1) "topic" 5 (quiet ∷ late ∷ []) one_row).0 ≡ true
unfolding durable_wake_at record_step_result get_step_result insert_workflow_status new_workflow get
    insert values ◌+ℤ◌
recv-returns_example =
    recv-returns env timers "a" (pos 0) (pos 1) "topic" 5 quiet (late ∷ []) (pos 25) late one_row
      refl (inr (inl refl)) refl

abbrev sent : State
sent = (send env "a" (pos 0) "a" 7 "topic" "u1" (pos 22) one_row).1

send-replays_example : send env "a" (pos 0) "a" 8 "other" "u2" (pos 30) sent ≡ (ok tt, sent)
unfolding send replay_or_guard insert_notification record_step_result get_step_result
    get_workflow_status insert_workflow_status new_workflow get insert values contains_key
send-replays_example =
    send-replays env env "a" (pos 0) "a" "a" 7 8 "topic" "other" "u1" "u2" (pos 22) (pos 30) one_row
      sent one_row-IsValid refl no_call

-- The delay is 10 and the timeout 15. A message at 5 puts the run off; then the timeout is over.
abbrev debounced : DebouncerInput plain
debounced = record {
  target_name = "work";
  target_id = "t";
  delay_ms = pos 10;
  timeout_ms = pos 15;
  initial_input = 1;
  target_opts = from_options default_options;
}

abbrev pushed : DebounceMessage plain
pushed = record { input = 2; delay_ms = pos 10; id = "m" }

abbrev at_5 : Round plain
at_5 = record { now = pos 5; received = some pushed }

abbrev at_16 : Round plain
at_16 = record { now = pos 16; received = none }

at_5-IsTimely : IsTimely at_5
at_5-IsTimely = (
  (5, refl, omega arith),
  λ msg e. (
    10,
    ap (λ (o : Option (DebounceMessage plain)). elim o [ none ↦ pos 10 | some m ↦ m.delay_ms ])
        (sym e),
    omega arith,
  ),
)

at_16-IsTimely : IsTimely at_16
at_16-IsTimely = ((16, refl, omega arith), λ msg e. absurd (ground (arith, e)))

internal_debouncer-settles_example :
    (k : ℕ) × (k ≤ 2)
    × All HasMessage (take k (at_5 ∷ at_16 ∷ []))
    × (internal_debouncer debounced (pos 0) (at_5 ∷ at_16 ∷ [])
        ≡ some (last_input 1 (take k (at_5 ∷ at_16 ∷ [])), acks (take k (at_5 ∷ at_16 ∷ []))))
internal_debouncer-settles_example =
    internal_debouncer-settles debounced 0 15 10 (at_5 ∷ at_16 ∷ []) at_16 16 refl (omega arith)
      (omega arith) refl (omega arith) (at_5-IsTimely, (at_16-IsTimely, tt)) (inr (inl refl)) refl
      (omega arith)
