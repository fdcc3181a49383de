-- ===== src/Events/Laws.antt =====
-- What a bus holds for backfill, whatever it was called with.
use nudo.Prelude.{
  ℕ, ◌+◌, ◌-◌, ◌≤◌, ◌<◌, ◌≡◌, ◌≢◌, inl, inr, refl, sym, ap, ◌∙◌, List, [], ◌∷◌, ◌++◌, All-drop,
  Option, none, some, Text, text_eq, ◌==◌, eq_of_==, ==_of_ne, ==_refl, leb, min, max, length,
  length-append, length-drop, drop, drop-drop, drop-nil, drop-append, last, last-drop, or_else, All,
  Bool-cases, arith,
}
use nudo.Events.{
  DeploymentEvent, LogEvent, Channel, Bus, watch_deployment, publish_deployment, close_deployment,
  watch_logs, publish_log, forget_service, new, push_bounded, backfill, backfill_after_cursor,
  after_first, newest, resumed,
}
use nudo.Events.Log.{Call, call, calls, logged, history}

-- Two ways to cut a log by as much cut it alike.
drop_same : (m n : ℕ) (xs : List LogEvent) → m ≡ n → drop m xs ≡ drop n xs
drop_same m n xs e = ap (λ k. drop k xs) e

-- Pushing keeps the newest lines of the longer log.
push_bounded-last :
    (capacity : ℕ) (event : LogEvent) (log : List LogEvent)
    → 1 ≤ capacity
    → push_bounded capacity event (last capacity log) ≡ last capacity (log ++ (event ∷ []))
unfolding push_bounded
push_bounded-last capacity event log h =
    let held = length-drop (length log - capacity) log in
    let longer = length-append log (event ∷ []) in
    elim (Bool-cases (leb capacity (length (last capacity log)))) [
      | inl full ↦ simp full (
          ap (λ xs. xs ++ (event ∷ [])) (drop-drop 1 (length log - capacity) log)
          ∙ sym (drop-append (length log - capacity + 1) log (event ∷ []) (ground arith))
          ∙ drop_same _ _ (log ++ (event ∷ [])) (ground arith))
      | inr room ↦ simp room (
          sym (drop-append (length log - capacity) log (event ∷ []) (ground arith))
          ∙ drop_same _ _ (log ++ (event ∷ [])) (ground arith))
    ]

abbrev held : {D L : Type 0} → Text → Bus D L → List LogEvent
held id bus = or_else (bus.log_buffers id) []

newest-last : (limit : ℕ) (o : Option (List LogEvent)) → newest limit o ≡ last limit (or_else o [])
unfolding newest
newest-last limit none = sym (drop-nil (0 - limit))
newest-last limit (some buffer) = refl

-- The first event of a cursor, when no earlier one has it.
after_first-append :
    (e : LogEvent) (xs ys : List LogEvent)
    → All (λ x. x.cursor ≢ e.cursor) xs
    → after_first e.cursor (xs ++ (e ∷ ys)) ≡ some ys
unfolding after_first
after_first-append e [] ys h = simp (==_refl e.cursor) refl
after_first-append e (x ∷ xs) ys (ne, h) =
    simp (==_of_ne x.cursor e.cursor ne) (after_first-append e xs ys h)

after_first_unseen :
    (cursor : Text) (xs : List LogEvent)
    → All (λ x. x.cursor ≢ cursor) xs
    → after_first cursor xs ≡ none
unfolding after_first
after_first_unseen cursor [] h = refl
after_first_unseen cursor (x ∷ xs) (ne, h) =
    simp (==_of_ne x.cursor cursor ne) (after_first_unseen cursor xs h)

resumed-or_else :
    (cursor : Text) (o : Option (List LogEvent))
    → resumed cursor o ≡ or_else (after_first cursor (or_else o [])) (or_else o [])
unfolding resumed after_first
resumed-or_else cursor none = refl
resumed-or_else cursor (some buffer) = refl

module _ {D L : Type 0} (d : Channel D DeploymentEvent) (l : Channel L LogEvent) where
  call-capacity :
      (c : Call) (bus : Bus D L) → (call d l c bus).buffer_capacity ≡ bus.buffer_capacity
  unfolding call watch_deployment publish_deployment close_deployment watch_logs publish_log
      forget_service
  call-capacity (Call.watch_deployment id) bus = refl
  call-capacity (Call.publish_deployment id event) bus = refl
  call-capacity (Call.close_deployment id) bus = refl
  call-capacity (Call.watch_logs id) bus = refl
  call-capacity (Call.publish_log id event) bus = refl
  call-capacity (Call.forget_service id) bus = refl

  call-held :
      (id : Text) (c : Call) (bus : Bus D L) (log : List LogEvent)
      → 1 ≤ bus.buffer_capacity
      → held id bus ≡ last bus.buffer_capacity log
      → held id (call d l c bus) ≡ last bus.buffer_capacity (logged id c log)
  unfolding call watch_deployment publish_deployment close_deployment watch_logs publish_log
      forget_service logged
  call-held id (Call.watch_deployment other) bus log h e = e
  call-held id (Call.publish_deployment other event) bus log h e = e
  call-held id (Call.close_deployment other) bus log h e = e
  call-held id (Call.watch_logs other) bus log h e = e
  call-held id (Call.publish_log other event) bus log h e = elim (Bool-cases (other == id)) [
    | inl same ↦ simp same (
        ap (λ i. push_bounded bus.buffer_capacity event (held i bus)) (eq_of_== other id same)
        ∙ ap (push_bounded bus.buffer_capacity event) e
        ∙ push_bounded-last bus.buffer_capacity event log h)
    | inr other_id ↦ simp other_id e
  ]
  call-held id (Call.forget_service other) bus log h e = elim (Bool-cases (other == id)) [
    | inl same ↦ simp same (sym (drop-nil (0 - bus.buffer_capacity)))
    | inr other_id ↦ simp other_id e
  ]

  calls-held :
      (id : Text) (cs : List Call) (bus : Bus D L) (log : List LogEvent)
      → 1 ≤ bus.buffer_capacity
      → held id bus ≡ last bus.buffer_capacity log
      → held id (calls d l cs bus) ≡ last bus.buffer_capacity (history id cs log)
  unfolding calls history
  calls-held id [] bus log h e = e
  calls-held id (c ∷ cs) bus log h e =
      let same = call-capacity c bus in
      calls-held id cs (call d l c bus) (logged id c log) (ground (arith, same))
        (call-held id c bus log h e ∙ ap (λ n. last n (logged id c log)) (sym same))
      ∙ ap (λ n. last n (history id cs (logged id c log))) same

  new-held :
      (id : Text) (cs : List Call) (capacity : ℕ)
      → held id (calls d l cs (new d l capacity)) ≡ last (max capacity 1) (history id cs [])
  unfolding new
  new-held id cs capacity =
      calls-held id cs (new d l capacity) [] (omega arith) (sym (drop-nil (0 - max capacity 1)))

  -- After any run of calls on a new bus, a backfill is the newest lines that the service has logged
  -- since it was last forgotten, oldest first: as many as asked for, and at most the capacity, which
  -- is at least one.
  pub calls-backfill :
      (capacity : ℕ) (cs : List Call) (id : Text) (limit : ℕ)
      → backfill id limit (calls d l cs (new d l capacity))
        ≡ last (min limit (max capacity 1)) (history id cs [])
  unfolding backfill
  calls-backfill capacity cs id limit =
      let log = history id cs [] in
      let n = max capacity 1 in
      newest-last limit ((calls d l cs (new d l capacity)).log_buffers id)
      ∙ ap (last limit) (new-held id cs capacity)
      ∙ last-drop (length log - n) limit log
      ∙ drop_same _ _ log (ground arith)

  resumed-history :
      (capacity : ℕ) (cs : List Call) (id cursor : Text)
      → let log = last (max capacity 1) (history id cs []) in
        backfill_after_cursor id cursor (calls d l cs (new d l capacity))
        ≡ or_else (after_first cursor log) log
  unfolding backfill_after_cursor
  resumed-history capacity cs id cursor =
      resumed-or_else cursor ((calls d l cs (new d l capacity)).log_buffers id)
      ∙ ap (λ log. or_else (after_first cursor log) log) (new-held id cs capacity)

  -- A client that comes back with the cursor of a line that is still in the buffer, and that no
  -- earlier line of the service had, gets exactly the lines that were logged after it.
  pub calls-backfill_after_cursor :
      (capacity : ℕ) (cs : List Call) (id : Text) (xs : List LogEvent) (e : LogEvent)
      → (ys : List LogEvent) → history id cs [] ≡ xs ++ (e ∷ ys)
      → All (λ x. x.cursor ≢ e.cursor) xs
      → length ys < max capacity 1
      → backfill_after_cursor id e.cursor (calls d l cs (new d l capacity)) ≡ ys
  calls-backfill_after_cursor capacity cs id xs e ys logs unseen held_yet =
      let n = max capacity 1 in
      let longer = length-append xs (e ∷ ys) in
      let k = length (xs ++ (e ∷ ys)) - n in
      resumed-history capacity cs id e.cursor
      ∙ ap (λ log. or_else (after_first e.cursor (last n log)) (last n log)) logs
      ∙ ap (λ log. or_else (after_first e.cursor log) log)
          (drop-append k xs (e ∷ ys) (ground arith))
      ∙ ap (λ o. or_else o (drop k xs ++ (e ∷ ys)))
          (after_first-append e (drop k xs) ys (All-drop _ k xs unseen))

  -- A client whose cursor the buffer does not hold gets every line that is still held.
  pub calls-backfill_aged_out :
      (capacity : ℕ) (cs : List Call) (id cursor : Text)
      → All (λ x. x.cursor ≢ cursor) (last (max capacity 1) (history id cs []))
      → backfill_after_cursor id cursor (calls d l cs (new d l capacity))
        ≡ last (max capacity 1) (history id cs [])
  calls-backfill_aged_out capacity cs id cursor unseen =
      let log = last (max capacity 1) (history id cs []) in
      resumed-history capacity cs id cursor
      ∙ ap (λ o. or_else o log) (after_first_unseen cursor log unseen)
