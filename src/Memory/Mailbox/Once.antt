-- ===== src/Memory/Mailbox/Once.antt =====
-- src/memory.rs: one call of `consume_notification`, and a keyed `insert_notification` repeated.
use durust.Base.{
  ◌+◌, ℤ, String, Bool, true, false, Option, none, some, List, [], ◌∷◌, ◌++◌, ◌≡◌, ◌⊎◌, ap, ◌==◌,
  string_eq, int_eq, pair_eq, ==_refl, arith, inl, inr, Bool-cases, Option-cases, anyb, countb,
}
use durust.Platform.{Platform}
use durust.Error.{ok}
use durust.Store.{get, contains_key, insert}
use durust.Store.Laws.{get-insert_same}
use durust.Provider.{output}
use durust.Memory.{NotificationRow, Inner}
use durust.Memory.Steps.{named_row, get_step_result, step_row_outcome}
use durust.Memory.Steps.Laws.{entered_new}
use durust.Memory.Mailbox.{
  message_uuid, insert_notification, is_waiting, Split, oldest, consume_notification,
}
use durust.Memory.Mailbox.Laws.{IsOldest, oldest_lem, count-consumed, none_waits}

module _ {p : Platform} where
  nothing_there :
      (id topic : String) (seq : ℤ) (name : String) (g : Inner p)
      → oldest id topic g.notifications ≡ none
      → consume_notification id topic seq name g ≡ (none, g)
  unfolding consume_notification
  nothing_there id topic seq name g none_found = rw (none_found, consume_notification)

  taken :
      (id topic : String) (seq : ℤ) (name : String) (s : Split p) (g : Inner p)
      → oldest id topic g.notifications ≡ some s
      → get (id, seq) g.steps ≡ none
      → consume_notification id topic seq name g ≡ (
        some s.1.message,
        record g {
          notifications = s.0 ++ record s.1 { consumed = true } ∷ s.2;
          steps = insert (id, seq) (record (named_row name) { output = some s.1.message }) g.steps;
        },
      )
  unfolding consume_notification
  taken id topic seq name s g found fresh = rw (
    found,
    consume_notification,
    entered_new id seq (record (named_row name) { output = some s.1.message }) g.steps fresh,
  )

  checkpointed :
      (id : String) (seq : ℤ) (name : String) (v : p.Value) (g : Inner p)
      → get_step_result id seq (record g {
        steps = insert (id, seq) (record (named_row name) { output = some v }) g.steps;
      })
        ≡ some (record { name = name; outcome = output v })
  unfolding get_step_result step_row_outcome
  checkpointed id seq name v g =
      rw (get-insert_same (id, seq) (record (named_row name) { output = some v }) g.steps)

  -- Consuming at a step that is not recorded yet: when no message waits for the workflow on the
  -- topic, it returns none and changes nothing; otherwise it returns the oldest waiting message,
  -- the first of several, marks that one consumed, so that one message fewer waits, and records it
  -- as the outcome of the step.
  pub consume_notification-IsOldest_once :
      (id topic : String) (seq : ℤ) (name : String) (g : Inner p)
      → get (id, seq) g.steps ≡ none
      → ((consume_notification id topic seq name g ≡ (none, g))
          × (countb (is_waiting id topic) g.notifications ≡ 0))
        ⊎ ((s : Split p) × IsOldest id topic g.notifications s
            × ((consume_notification id topic seq name g).0 ≡ some s.1.message)
            × ((consume_notification id topic seq name g).1.notifications
                ≡ s.0 ++ record s.1 { consumed = true } ∷ s.2)
            × (countb
                    (is_waiting id topic)
                    (consume_notification id topic seq name g).1.notifications
                  + 1
                ≡ countb (is_waiting id topic) g.notifications)
            × (get_step_result id seq (consume_notification id topic seq name g).1
                ≡ some (record { name = name; outcome = output s.1.message })))
  consume_notification-IsOldest_once id topic seq name g fresh =
      elim (Option-cases (oldest id topic g.notifications)) [
        | inl nothing ↦ inl (
          nothing_there id topic seq name g nothing,
          none_waits id topic g.notifications (rw nothing at (oldest_lem id topic g.notifications)),
        )
        | inr (s, found) ↦
            let first : IsOldest id topic g.notifications s =
              rw found at (oldest_lem id topic g.notifications) in
            inr (
              s,
              first,
              ap (λ (r : Option p.Value × Inner p). r.0) (taken id topic seq name s g found fresh),
              ap (λ (r : Option p.Value × Inner p). r.1.notifications)
                  (taken id topic seq name s g found fresh),
              rw (taken id topic seq name s g found fresh)
                  (count-consumed id topic g.notifications s first),
              rw (taken id topic seq name s g found fresh) (
                  checkpointed id seq name s.1.message
                    (record g { notifications = s.0 ++ record s.1 { consumed = true } ∷ s.2 })),
            )
      ]

  abbrev has_uuid : String → NotificationRow p → Bool
  has_uuid uuid n = n.message_uuid == uuid

  anyb-last :
      (f : NotificationRow p → Bool) (rows : List (NotificationRow p)) (n : NotificationRow p)
      → f n ≡ true
      → anyb f (rows ++ n ∷ []) ≡ true
  anyb-last f [] n h = ground arith
  anyb-last f (m ∷ rows) n h = ground (arith, anyb-last f rows n h)

  repeated :
      (dest topic key fresh : String) (message : p.Value) (now : p.DateTime) (g : Inner p)
      → contains_key dest g.workflows ≡ true
      → anyb (has_uuid (message_uuid (some key) dest fresh)) g.notifications ≡ true
      → insert_notification dest topic message (some key) fresh now g ≡ (ok tt, g)
  unfolding insert_notification
  repeated dest topic key fresh message now g there known = rw (there, known, insert_notification)

  first_send :
      (dest topic key fresh : String) (message : p.Value) (now : p.DateTime) (g : Inner p)
      → contains_key dest g.workflows ≡ true
      → anyb (has_uuid (message_uuid (some key) dest fresh)) g.notifications ≡ false
      → insert_notification dest topic message (some key) fresh now g ≡ (
        ok tt,
        record g {
          notifications =
              g.notifications
              ++ record {
                message_uuid = message_uuid (some key) dest fresh;
                destination_id = dest;
                topic = topic;
                message = message;
                consumed = false;
                created_at_ms = p.timestamp_millis now;
              }
                ∷ [];
        },
      )
  unfolding insert_notification
  first_send dest topic key fresh message now g there new = rw (there, new, insert_notification)

  -- A send with an idempotency key that was accepted can be repeated, with any message: it is
  -- accepted again and changes nothing.
  pub insert_notification-idempotent :
      (dest topic topic' key fresh fresh' : String) (message message' : p.Value)
      (now now' : p.DateTime) (g : Inner p)
      → contains_key dest g.workflows ≡ true
      → insert_notification dest topic' message'
          (some key)
          fresh'
          now'
          (insert_notification dest topic message (some key) fresh now g).1
        ≡ (ok tt, (insert_notification dest topic message (some key) fresh now g).1)
  insert_notification-idempotent dest topic topic' key fresh fresh' message message' now now' g
        there =
      let uuid = message_uuid (some key) dest fresh in
      elim (Bool-cases (anyb (has_uuid uuid) g.notifications)) [
        | inl known ↦
            rw (repeated dest topic key fresh message now g there known)
              (repeated dest topic' key fresh' message' now' g there known)
        | inr new ↦ rw (first_send dest topic key fresh message now g there new) (
            let n : NotificationRow p = record {
              message_uuid = uuid;
              destination_id = dest;
              topic = topic;
              message = message;
              consumed = false;
              created_at_ms = p.timestamp_millis now;
            } in
            repeated dest topic' key fresh' message' now'
              (record g { notifications = g.notifications ++ n ∷ [] }) there
              (anyb-last (has_uuid uuid) g.notifications n (==_refl uuid)))
      ]
