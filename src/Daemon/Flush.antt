-- ===== src/Daemon/Flush.antt =====
-- crates/aios-daemon/src/pipeline.rs: every event is in exactly one processed window.
use mathlib.Core.List.{append-nil}
use di_pecs.Base.{
  any, ℕ, suc, ◌+◌, ◌%◌, String, Bool, true, false, Option, none, some, List, [], ◌∷◌, ◌++◌, ◌≡◌,
  refl, sym, ap, ◌∙◌, arith, length, inl, inr, u32, if◌then◌else◌, Bool-cases,
}
use di_pecs.Spec.Context.{StructuredContext}
use mathlib.Core.Bool.{false≢true}
use di_pecs.Spec.Event.{ExtensionCategory, IngestedRawEvent}
use di_pecs.Spec.Sanitized.{SanitizedEvent}
use di_pecs.Window.{WindowAggregator, close}
use di_pecs.Window.Session.{
  Call, add_context, close-events, events_of, pushed, push_event, close_at, session, session-events,
}
use di_pecs.Daemon.Loop.{
  LoopState, ProcessingEvent, Round, close_window, processed, run_processing_loop, sanitized,
  should_stop_processing, step, take_raw,
}

module _ (to_lowercase : String → String) (path_extension : String → String) where
  -- the calls of the window in a round, and in those until the loop stops
  abbrev pub calls_of_event : Round → ProcessingEvent → List Call → List Call
  calls_of_event round ProcessingEvent.raw_channel_closed calls =
      close_at round.window_id round.now_ms ∷ []
  calls_of_event round ProcessingEvent.window_expired calls =
      close_at round.window_id round.now_ms ∷ calls
  calls_of_event round (ProcessingEvent.raw ingested) calls =
      push_event (sanitized to_lowercase path_extension round ingested)
      ∷ (if round.is_past_deadline then close_at round.window_id round.now_ms ∷ calls else calls)

  abbrev pub calls_of : List Round → List Call
  calls_of [] = []
  calls_of (round ∷ rounds) = calls_of_event round round.event (calls_of rounds)

  -- the events that are received until the loop stops, sanitized
  abbrev pub received_event : Round → ProcessingEvent → List SanitizedEvent → List SanitizedEvent
  received_event round ProcessingEvent.raw_channel_closed rest = []
  received_event round ProcessingEvent.window_expired rest = rest
  received_event round (ProcessingEvent.raw ingested) rest =
      sanitized to_lowercase path_extension round ingested ∷ rest

  abbrev pub received : List Round → List SanitizedEvent
  received [] = []
  received (round ∷ rounds) = received_event round round.event (received rounds)

  pushed_received :
      (round : Round) (event : ProcessingEvent) (calls : List Call) (rest : List SanitizedEvent)
      → pushed calls ≡ rest
      → pushed (calls_of_event round event calls) ≡ received_event round event rest
  pushed_received round ProcessingEvent.raw_channel_closed calls rest e = refl
  pushed_received round ProcessingEvent.window_expired calls rest e = e
  pushed_received round (ProcessingEvent.raw ingested) calls rest e =
      elim (Bool-cases round.is_past_deadline) [
        | inl late ↦ rw late (ap (◌∷◌ (sanitized to_lowercase path_extension round ingested)) e)
        | inr early ↦ rw early (ap (◌∷◌ (sanitized to_lowercase path_extension round ingested)) e)
      ]

  pub pushed-calls_of : (rounds : List Round) → pushed (calls_of rounds) ≡ received rounds
  pushed-calls_of [] = refl
  pushed-calls_of (round ∷ rounds) =
      pushed_received round round.event (calls_of rounds) (received rounds) (pushed-calls_of rounds)

-- The windows processed one after the other, under ordinals that count up from `n`.
abbrev pub process_all :
    {D : Type 0} → (ℕ → StructuredContext → D → D) → ℕ → List StructuredContext → D → D
process_all process n [] deps = deps
process_all process n (ctx ∷ contexts) deps =
    process_all process (u32 (suc n)) contexts (process n ctx deps)

module _ (to_lowercase : String → String) (path_extension : String → String)
    (map_order : List (ExtensionCategory × ℕ) → List (ExtensionCategory × ℕ)) {D : Type 0}
    (process : ℕ → StructuredContext → D → D) where
  abbrev loop : List Round → LoopState D → LoopState D × Bool
  loop = run_processing_loop to_lowercase path_extension map_order process

  -- The outcome `out` of a loop from `s` is a session of these calls, with its contexts processed in
  -- order; it has counted these events, and if it has stopped, its window is empty.
  IsSession : List Call → List SanitizedEvent → LoopState D → LoopState D × Bool → Type 0
  IsSession calls events s out =
      ((out.0.window ≡ (session map_order s.window calls).0)
        × (out.0.deps
            ≡ process_all process s.window_ordinal (session map_order s.window calls).1 s.deps))
      × ((out.0.events_processed % 18446744073709551616
            ≡ (s.events_processed + length events) % 18446744073709551616)
          × (out.1 ≡ true → out.0.window.buffer ≡ []))

  abbrev closing : Round → LoopState D → LoopState D
  closing = close_window to_lowercase path_extension map_order process

  abbrev put_window : WindowAggregator → Option StructuredContext → LoopState D → LoopState D
  put_window = processed to_lowercase path_extension map_order process

  processed_window :
      (w : WindowAggregator) (o : Option StructuredContext) (s : LoopState D)
      → (put_window w o s).window ≡ w
  processed_window w none s = refl
  processed_window w (some ctx) s = refl

  processed_deps :
      (w : WindowAggregator) (o : Option StructuredContext) (cs : List StructuredContext)
      (s : LoopState D)
      → process_all process s.window_ordinal (add_context o cs) s.deps
        ≡ process_all process (put_window w o s).window_ordinal cs (put_window w o s).deps
  processed_deps w none cs s = refl
  processed_deps w (some ctx) cs s = refl

  -- a session that begins with a close, from the state after the close
  closed_deps :
      (round : Round) (calls : List Call) (s : LoopState D)
      → process_all process s.window_ordinal
          (session map_order s.window (close_at round.window_id round.now_ms ∷ calls)).1
          s.deps
        ≡ process_all process
            (closing round s).window_ordinal
            (session map_order (closing round s).window calls).1
            (closing round s).deps
  unfolding close_window session
  closed_deps round calls s =
      let w = (close map_order round.window_id s.window round.now_ms).0 in
      let o = (close map_order round.window_id s.window round.now_ms).1 in
      processed_deps w o (session map_order w calls).1 s
      ∙ ap
          (λ v.
            process_all process (put_window w o s).window_ordinal (session map_order v calls).1
              (put_window w o s).deps)
          (sym (processed_window w o s))

  closed_window :
      (round : Round) (calls : List Call) (s : LoopState D)
      → (session map_order s.window (close_at round.window_id round.now_ms ∷ calls)).0
        ≡ (session map_order (closing round s).window calls).0
  unfolding close_window session
  closed_window round calls s =
      let w = (close map_order round.window_id s.window round.now_ms).0 in
      let o = (close map_order round.window_id s.window round.now_ms).1 in
      ap (λ v. (session map_order v calls).0) (sym (processed_window w o s))

  closed_count :
      (round : Round) (s : LoopState D) → (closing round s).events_processed ≡ s.events_processed
  unfolding close_window
  closed_count round s =
      count_of (close map_order round.window_id s.window round.now_ms).0
        (close map_order round.window_id s.window round.now_ms).1
    where
      count_of :
          (w : WindowAggregator) (o : Option StructuredContext)
          → (put_window w o s).events_processed ≡ s.events_processed
      count_of w none = refl
      count_of w (some ctx) = refl

  closed_empty : (round : Round) (s : LoopState D) → (closing round s).window.buffer ≡ []
  unfolding close_window
  closed_empty round s =
      let w = (close map_order round.window_id s.window round.now_ms).0 in
      ap (λ v. v.buffer)
        (processed_window w (close map_order round.window_id s.window round.now_ms).1 s)
      ∙ (close-events map_order round.window_id s.window round.now_ms).1

  -- a loop that goes on after an event
  take_and_go :
      (round : Round) (ingested : IngestedRawEvent) (calls : List Call)
      (events : List SanitizedEvent) (s : LoopState D) (out : LoopState D × Bool)
      → IsSession calls events
          (take_raw to_lowercase path_extension map_order process round ingested s)
          out
      → IsSession
          (push_event (sanitized to_lowercase path_extension round ingested) ∷ calls)
          (sanitized to_lowercase path_extension round ingested ∷ events)
          s
          out
  unfolding IsSession take_raw session
  take_and_go round ingested calls events s out h = ((h.0.0, h.0.1), (omega (arith, h.1.0), h.1.1))

  -- a loop that goes on after a close
  close_and_go :
      (round : Round) (calls : List Call) (events : List SanitizedEvent) (s : LoopState D)
      (out : LoopState D × Bool)
      → IsSession calls events (closing round s) out
      → IsSession (close_at round.window_id round.now_ms ∷ calls) events s out
  unfolding IsSession
  close_and_go round calls events s out h = (
    (h.0.0 ∙ sym (closed_window round calls s), h.0.1 ∙ sym (closed_deps round calls s)),
    (h.1.0 ∙ ap (λ n. (n + length events) % 18446744073709551616) (closed_count round s), h.1.1),
  )

  -- a round with an event, whether it is past the deadline or not
  raw-IsSession :
      (round : Round) (ingested : IngestedRawEvent) (rounds : List Round) (s : LoopState D)
      → ((t : LoopState D)
          → IsSession
              (calls_of to_lowercase path_extension rounds)
              (received to_lowercase path_extension rounds)
              t
              (loop rounds t))
      → (late : Bool)
      → let calls = calls_of to_lowercase path_extension rounds in
        let taken = take_raw to_lowercase path_extension map_order process round ingested s in
        IsSession
          (push_event (sanitized to_lowercase path_extension round ingested)
            ∷ (if late then close_at round.window_id round.now_ms ∷ calls else calls))
          (sanitized to_lowercase path_extension round ingested
            ∷ received to_lowercase path_extension rounds)
          s
          (loop rounds (if late then closing round taken else taken))
  raw-IsSession round ingested rounds s ih true =
      let calls = calls_of to_lowercase path_extension rounds in
      let events = received to_lowercase path_extension rounds in
      let taken = take_raw to_lowercase path_extension map_order process round ingested s in
      take_and_go round ingested (close_at round.window_id round.now_ms ∷ calls) events s
        (loop rounds (closing round taken))
        (close_and_go round calls events taken (loop rounds (closing round taken))
          (ih (closing round taken)))
  raw-IsSession round ingested rounds s ih false =
      let taken = take_raw to_lowercase path_extension map_order process round ingested s in
      take_and_go round ingested (calls_of to_lowercase path_extension rounds)
        (received to_lowercase path_extension rounds) s (loop rounds taken) (ih taken)

  -- one round, whatever its event
  round-IsSession :
      (round : Round) (event : ProcessingEvent) (rounds : List Round) (s : LoopState D)
      → ((t : LoopState D)
          → IsSession
              (calls_of to_lowercase path_extension rounds)
              (received to_lowercase path_extension rounds)
              t
              (loop rounds t))
      → IsSession
          (calls_of_event to_lowercase path_extension round event
            (calls_of to_lowercase path_extension rounds))
          (received_event to_lowercase path_extension round event
            (received to_lowercase path_extension rounds))
          s
          (if should_stop_processing event
            then (closing round s, true)
            else loop rounds (step to_lowercase path_extension map_order process round event s))
  unfolding should_stop_processing step IsSession session
  round-IsSession round ProcessingEvent.raw_channel_closed rounds s ih = (
    (sym (closed_window round [] s), sym (closed_deps round [] s)),
    (omega (arith, closed_count round s), λ stopped. closed_empty round s),
  )
  round-IsSession round ProcessingEvent.window_expired rounds s ih =
      close_and_go round (calls_of to_lowercase path_extension rounds)
        (received to_lowercase path_extension rounds) s (loop rounds (closing round s))
        (ih (closing round s))
  round-IsSession round (ProcessingEvent.raw ingested) rounds s ih =
      raw-IsSession round ingested rounds s ih round.is_past_deadline

  loop-IsSession :
      (rounds : List Round) (s : LoopState D)
      → IsSession
          (calls_of to_lowercase path_extension rounds)
          (received to_lowercase path_extension rounds)
          s
          (loop rounds s)
  unfolding IsSession run_processing_loop session
  loop-IsSession [] s = ((refl, refl), (omega arith, λ stopped. absurd (false≢true stopped)))
  loop-IsSession (round ∷ rounds) s =
      round-IsSession round round.event rounds s (loop-IsSession rounds)

  -- The loop returns once the channel closes.
  loop_stops :
      (rounds : List Round) (s : LoopState D)
      → any (λ round. should_stop_processing round.event) rounds ≡ true
      → (loop rounds s).1 ≡ true
  unfolding run_processing_loop
  loop_stops [] s h = h
  loop_stops (round ∷ rounds) s h = elim (Bool-cases (should_stop_processing round.event)) [
    | inl stops ↦ rw stops refl
    | inr goes ↦
        let later : any (λ r. should_stop_processing r.event) rounds ≡ true =
          ground (arith, h, goes) in
        rw goes (
          loop_stops rounds (step to_lowercase path_extension map_order process round round.event s)
            later)
  ]

  -- If the channel closes in one of the rounds, the loop returns. Then there are contexts that were
  -- processed, one after the other and under ordinals that count up, whose events are those that the
  -- window held at first and then all that were received until the channel closed, sanitized and in
  -- order: a last window that has not expired is processed too. As many events are counted as were
  -- received, modulo 2 ^ 64.
  pub loop_flushes :
      (rounds : List Round) (s : LoopState D)
      → any (λ round. should_stop_processing round.event) rounds ≡ true
      → ((run_processing_loop to_lowercase path_extension map_order process rounds s).1 ≡ true)
        × ((contexts : List StructuredContext) × (((run_processing_loop to_lowercase path_extension
                  map_order process rounds s).0.deps
                ≡ process_all process s.window_ordinal contexts s.deps)
              × ((events_of contexts
                    ≡ s.window.buffer ++ received to_lowercase path_extension rounds)
                  × ((run_processing_loop to_lowercase path_extension map_order process rounds
                          s).0.events_processed
                        % 18446744073709551616
                      ≡ (s.events_processed + length (received to_lowercase path_extension rounds))
                        % 18446744073709551616))))
  unfolding IsSession
  loop_flushes rounds s closes =
      let stopped = loop_stops rounds s closes in
      let h = loop-IsSession rounds s in
      let calls = calls_of to_lowercase path_extension rounds in
      let contexts = (session map_order s.window calls).1 in
      let emptied = sym (ap (λ w. w.buffer) h.0.0) ∙ h.1.1 stopped in
      (
        stopped,
        (
          contexts,
          (
            h.0.1,
            (
              sym (append-nil (events_of contexts))
                  ∙ sym (ap (λ b. events_of contexts ++ b) emptied)
                  ∙ session-events map_order s.window calls
                  ∙ ap (λ l. s.window.buffer ++ l)
                      (pushed-calls_of to_lowercase path_extension rounds),
              h.1.0,
            ),
          ),
        ),
      )
