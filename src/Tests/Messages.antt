-- ===== src/Tests/Messages.antt =====
-- Steps, messages, streams and forks.
use durust.Base.{
  [], false, ◌+◌, pos, true, none, some, ◌∷◌, ◌++◌, ◌≡◌, ◌⊎◌, refl, string_eq, int_eq, pair_eq,
  countb,
}
use durust.Error.{ok}
use durust.Store.{get, contains_key, insert, values}
use durust.Provider.{output, ForkParams, new_workflow}
use durust.Memory.Lifecycle.{insert_workflow_status}
use durust.Memory.Steps.{record_step_result, get_step_result}
use durust.Memory.Mailbox.{Split, is_waiting, insert_notification, consume_notification}
use durust.Memory.Mailbox.Laws.{IsOldest}
use durust.Memory.Mailbox.Once.{consume_notification-IsOldest_once}
use durust.Memory.Streams.{write_stream, read_stream}
use durust.Memory.Streams.Laws.{read_stream-write}
use durust.Memory.Fork.{fork_workflow}
use durust.Memory.Fork.Laws.{or_else, fork_workflow-steps}
use durust.Memory.Calls.{after, on_write, on_record}
use durust.Memory.Calls.Reachable.{Reach-IsValid}
use durust.Memory.Invariant.{IsValid}
use durust.Tests.Data.{plain, State, row_a, one_row, one_row-Reach}

abbrev stepped : State
stepped = (record_step_result "a" (pos 0) "first" 3 none none (pos 20) one_row).1

abbrev sent : State
sent = (insert_notification "a" "news" 6 (some "key") "u" (pos 20) one_row).1

consumed_value : (consume_notification "a" "news" (pos 0) "DBOS.recv" sent).0 ≡ some 6
unfolding consume_notification insert_notification insert_workflow_status new_workflow contains_key
    get insert values
consumed_value = refl

consume_notification-IsOldest_once_example :
    ((consume_notification "a" "news" (pos 0) "DBOS.recv" sent ≡ (none, sent))
      × (countb (is_waiting "a" "news") sent.notifications ≡ 0))
    ⊎ ((s : Split plain) × IsOldest "a" "news" sent.notifications s
        × ((consume_notification "a" "news" (pos 0) "DBOS.recv" sent).0 ≡ some s.1.message)
        × ((consume_notification "a" "news" (pos 0) "DBOS.recv" sent).1.notifications
            ≡ s.0 ++ record s.1 { consumed = true } ∷ s.2)
        × (countb
                (is_waiting "a" "news")
                (consume_notification "a" "news" (pos 0) "DBOS.recv" sent).1.notifications
              + 1
            ≡ countb (is_waiting "a" "news") sent.notifications)
        × (get_step_result "a" (pos 0) (consume_notification "a" "news" (pos 0) "DBOS.recv" sent).1
            ≡ some (record { name = "DBOS.recv"; outcome = output s.1.message })))
unfolding insert_notification insert_workflow_status new_workflow contains_key get insert values
consume_notification-IsOldest_once_example =
    consume_notification-IsOldest_once "a" "news" (pos 0) "DBOS.recv" sent refl

stepped-IsValid : IsValid stepped
stepped-IsValid = Reach-IsValid stepped (
    after one_row stepped one_row-Reach
      (on_write stepped (on_record "a" (pos 0) "first" 3 none none (pos 20))))

abbrev fork_at_1 : ForkParams
fork_at_1 = record {
  original_id = "a";
  new_id = "f";
  start_step = pos 1;
  app_version = none;
  queue_name = "q";
  partition_key = none;
}

fork_workflow-steps_example :
    ((fork_workflow fork_at_1 (pos 30) stepped).0 ≡ ok tt)
    × (get ("f", pos 0) (fork_workflow fork_at_1 (pos 30) stepped).1.steps
        ≡ or_else (get ("a", pos 0) stepped.steps) (get ("f", pos 0) stepped.steps))
unfolding record_step_result insert_workflow_status new_workflow get insert values
fork_workflow-steps_example =
    fork_workflow-steps fork_at_1 (pos 30) row_a (pos 0) stepped stepped-IsValid refl

abbrev written : State
written = (write_stream "a" "out" (some 5) one_row).1

read_stream-write_example :
    ((write_stream "a" "out" (some 6) written).0 ≡ ok tt)
    × (read_stream "a" "out" (pos 0) (write_stream "a" "out" (some 6) written).1
        ≡ (5 ∷ 6 ∷ [], false))
unfolding read_stream write_stream get insert insert_workflow_status new_workflow values
read_stream-write_example = read_stream-write "a" "out" 6 written refl
