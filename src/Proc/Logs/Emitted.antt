-- ===== src/Proc/Logs/Emitted.antt =====
-- What the emitter of a source does with its lines (pkg/monny/proc/logs.go).
use monny.Base.{
  ℕ, ◌≤◌, ◌≡◌, refl, sym, ap, ◌∙◌, String, true, List, [], ◌∷◌, ◌++◌, map, append-nil, append_assoc,
  some, Outcome, returned, panic, then_call, last, if_true,
}
use monny.Base.Int.{ℤ}
use monny.Eventbus.{Bus, dispatch}
use monny.Proc.Queue.{Queue, add, new_queue}
use monny.Proc.Queue.Recent.{add_all, add_all-last}
use monny.Proc.LogOption.{SourceOrSink}
use monny.Proc.Logs.{Io, Emitter, log_topic, dispatch_line, write_sinks, start_log_emitter}

abbrev pub line_of : ℤ × String → String
line_of (now, line) = line

abbrev pub to_sinks : String → List SourceOrSink → List (SourceOrSink × String)
to_sinks line [] = []
to_sinks line (s ∷ sinks) = (s, line) ∷ to_sinks line sinks

-- every line for every sink, line by line
abbrev pub all_written : List SourceOrSink → List (ℤ × String) → List (SourceOrSink × String)
all_written sinks [] = []
all_written sinks ((now, line) ∷ lines) = to_sinks line sinks ++ all_written sinks lines

-- two chains of calls that begin with the same call
both_called {ℓ κ μ ν} :
    {A : Type ℓ} {B : Type κ} {C : Type μ} {D : Type ν} (o : Outcome A) (f : A → B)
    (g : B → Outcome C) (h : A → Outcome D) (k : D → Outcome C)
    → ((a : A) → g (f a) ≡ then_call (h a) k)
    → then_call (then_call o (λ a. returned (f a))) g ≡ then_call (then_call o h) k
both_called panic f g h k e = refl
both_called (returned a) f g h k e = e a

module _ {ℓ} {E : Type ℓ} where
  -- an event for each line, dispatched in order
  abbrev pub dispatched_lines : (ℤ → String → E) → List (ℤ × String) → Bus E → Bus E
  unfolding dispatch
  dispatched_lines event [] b = b
  dispatched_lines event ((now, line) ∷ lines) b =
      dispatched_lines event lines (dispatch (event now line) (log_topic ∷ []) b)

  write_sinks-written :
      (io : Io E) (src : SourceOrSink) (line : String) (sinks : List SourceOrSink) (m : Emitter E)
      → ((s : SourceOrSink) → io.writes s line ≡ true)
      → write_sinks io src line sinks m ≡ record m { written = m.written ++ to_sinks line sinks }
  unfolding write_sinks
  write_sinks-written io src line [] m h =
      ap (λ w. record m { written = w }) (sym (append-nil m.written))
  write_sinks-written io src line (s ∷ sinks) m h =
      if_true _ _ (h s)
      ∙ (write_sinks-written io src line sinks (record m { written = m.written ++ (s, line) ∷ [] })
            h
          ∙ ap (λ w. record m { written = w })
              (append_assoc m.written ((s, line) ∷ []) (to_sinks line sinks)))

  -- the emitter behind some lines, with the queue that they leave
  abbrev behind :
      (ℤ → String → E)
      → List SourceOrSink
      → List (ℤ × String)
      → Emitter E
      → Queue String
      → Emitter E
  unfolding dispatch
  behind event sinks lines m q = record {
    q = q;
    bus = dispatched_lines event lines m.bus;
    written = m.written ++ all_written sinks lines;
  }

  abbrev dispatched : (ℤ → String → E) → ℤ → String → Queue String → Emitter E → Emitter E
  unfolding dispatch
  dispatched event now line q m = record m {
    q = q;
    bus = dispatch (event now line) (log_topic ∷ []) m.bus;
  }

  start_log_emitter-add_all :
      (io : Io E) (event : ℤ → String → E) (src : SourceOrSink) (sinks : List SourceOrSink)
      → ((now : ℤ) (line : String) → io.log_event now line ≡ some (event now line))
      → ((s : SourceOrSink) (line : String) → io.writes s line ≡ true)
      → (lines : List (ℤ × String)) (m : Emitter E)
      → start_log_emitter io src sinks lines m
        ≡ then_call (add_all (map line_of lines) m.q) (λ q. returned (behind event sinks lines m q))
  unfolding start_log_emitter add_all
  start_log_emitter-add_all io event src sinks events writes [] m =
      ap (λ w. returned (record m { written = w })) (sym (append-nil m.written))
  start_log_emitter-add_all io event src sinks events writes ((now, line) ∷ lines) m =
      both_called (add line m.q)
        (λ q.
          write_sinks io src line sinks
            (record m { q = q; bus = dispatch_line io (io.log_event now line) m.bus }))
        (start_log_emitter io src sinks lines) (add_all (map line_of lines))
        (λ q. returned (behind event sinks ((now, line) ∷ lines) m q))
        (λ q.
          ap (start_log_emitter io src sinks lines) (
            ap
              (λ o.
                write_sinks io src line sinks (record m { q = q; bus = dispatch_line io o m.bus }))
              (events now line)
            ∙ write_sinks-written io src line sinks (dispatched event now line q m)
                (λ s. writes s line))
          ∙ (start_log_emitter-add_all io event src sinks events writes lines
                (record (dispatched event now line q m) {
                  written = m.written ++ to_sinks line sinks;
                })
              ∙ ap
                  (λ w. then_call (add_all (map line_of lines) q) (λ r. returned (record {
                    q = r;
                    bus = dispatched_lines event ((now, line) ∷ lines) m.bus;
                    written = w;
                  })))
                  (append_assoc m.written (to_sinks line sinks) (all_written sinks lines))))

  -- Where events can be encoded and the writers take every line, the emitter of a source with a
  -- new queue for at least two lines does not panic: its queue holds the last lines, each of its
  -- sinks has taken all lines in order, and the bus has been given an event for each line.
  pub start_log_emitter-last :
      (io : Io E) (event : ℤ → String → E) (src : SourceOrSink) (sinks : List SourceOrSink)
      → ((now : ℤ) (line : String) → io.log_event now line ≡ some (event now line))
      → ((s : SourceOrSink) (line : String) → io.writes s line ≡ true)
      → (hist : ℕ) (lines : List (ℤ × String)) (b : Bus E) → 2 ≤ hist
      → start_log_emitter io src sinks lines (record { q = new_queue hist; bus = b; written = [] })
        ≡ returned (record {
          q = record { q = last hist (map line_of lines); capacity = hist };
          bus = dispatched_lines event lines b;
          written = all_written sinks lines;
        })
  unfolding dispatch
  start_log_emitter-last io event src sinks events writes hist lines b two =
      start_log_emitter-add_all io event src sinks events writes lines
        (record { q = new_queue hist; bus = b; written = [] })
      ∙ ap
          (λ o. then_call o (λ q. returned (record {
            q = q;
            bus = dispatched_lines event lines b;
            written = all_written sinks lines;
          })))
          (add_all-last hist (map line_of lines) two)
