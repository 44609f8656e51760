-- ===== src/Main/Turns.antt =====
-- What the turns of the program leave as it was (cmd/monny/main.go, pkg/monny/command.go,
-- pkg/monny/report.go).
use monny.Base.{
  ◌≡◌, refl, sym, ap, ◌∙◌, List, [], ◌∷◌, ◌++◌, Option, none, some, Outcome, returned, panic,
  then_call, String, arith,
}
use monny.Base.Int.{ℤ}
use monny.Proto.{ReportReason}
use monny.Command.{Command}
use monny.Command.Output.{Library}
use monny.Command.Exec.{Happening, stdin_done, out_line, err_line, loop_event}
use monny.Command.Exec.Reported.{happen-errors}
use monny.Report.{Decision, Delivery, await_result}
use monny.Main.{
  Turn, happening, send_begins, send_ends, Program, pick, first_of, noted, send_begun, send_ended,
  happens, turn, run_turns,
}

module _ {ℓ κ} {A : Type ℓ} {B : Type κ} where
  -- what came before a call that returned
  pub then_call-split :
      (o : Outcome A) (f : A → Outcome B) (y : B)
      → then_call o f ≡ returned y
      → (x : A) × (o ≡ returned x) × (f x ≡ returned y)
  then_call-split panic f y h = absurd (cc)
  then_call-split (returned x) f y h = (x, refl, h)

  then_call-chain :
      (o : Outcome A) (f g : A → Outcome B) (k : B → Outcome B)
      → ((x : A) → f x ≡ then_call (g x) k)
      → then_call o f ≡ then_call (then_call o g) k
  then_call-chain panic f g k h = refl
  then_call-chain (returned x) f g k h = h x

module _ {ℓ κ} {R : Type ℓ} {F : Type κ} (l : Library R F) where
  pub run_turns-append :
      (ts more : List Turn) (p : Program R)
      → run_turns l (ts ++ more) p ≡ then_call (run_turns l ts p) (run_turns l more)
  unfolding run_turns
  run_turns-append [] more p = refl
  run_turns-append (t ∷ ts) more p =
      then_call-chain (turn l t p) (run_turns l (ts ++ more)) (run_turns l ts) (run_turns l more)
        (run_turns-append ts more)

  happens-errors :
      (e : Option (Option String)) (h : Happening) (c c' : Command R) (sends : List ReportReason)
      (e' : Option (Option String))
      → happens l e h c ≡ returned (c', sends, e')
      → c'.has_errors ≡ c.has_errors
  happens-errors none h c c' sends e' at = happen-errors l h c c' at
  happens-errors (some e) (loop_event _ _) c c' sends e' at = ground arith
  happens-errors (some e) (stdin_done x) c c' sends e' at = happen-errors l (stdin_done x) c c' at
  happens-errors (some e) (out_line x k t) c c' sends e' at =
      happen-errors l (out_line x k t) c c' at
  happens-errors (some e) (err_line x k t) c c' sends e' at =
      happen-errors l (err_line x k t) c c' at

  send_begun-errors :
      (o : Option (ReportReason × List ReportReason)) (now : ℤ) (p p' : Program R)
      → send_begun now p o ≡ returned p'
      → p'.command.has_errors ≡ p.command.has_errors
  send_begun-errors none now p p' at = ground arith
  send_begun-errors (some (r, rest)) now p p' at = ground arith

  await_result-errors :
      (d : Decision) (result : Delivery) (c c' : Command R)
      → await_result d result c ≡ returned c'
      → c'.has_errors ≡ c.has_errors
  unfolding await_result
  await_result-errors d result c c' at = ground arith

  send_ended-errors :
      (o : Option (Decision × List Decision)) (result : Delivery) (p p' : Program R)
      → send_ended result p o ≡ returned p'
      → p'.command.has_errors ≡ p.command.has_errors
  send_ended-errors none result p p' at = ground arith
  send_ended-errors (some (d, rest)) result p p' at =
      let (c, first, then) =
        then_call-split (await_result d result p.command)
          (λ c. returned (record p { command = c; waiting = rest })) p' at in
      ground (arith, await_result-errors d result p.command c first)

  turn-errors :
      (t : Turn) (p p' : Program R)
      → turn l t p ≡ returned p'
      → p'.command.has_errors ≡ p.command.has_errors
  unfolding turn
  turn-errors (happening h) p p' at =
      let ((c, sends, e), first, then) =
        then_call-split (happens l p.exec_result h p.command) (noted p) p' at in
      ground (arith, happens-errors p.exec_result h p.command c sends e first)
  turn-errors (send_begins i now) p p' at = send_begun-errors (pick i p.started) now p p' at
  turn-errors (send_ends i result) p p' at = send_ended-errors (pick i p.waiting) result p p' at

  -- No turn gives the command a reporter of errors.
  pub run_turns-errors :
      (ts : List Turn) (p p' : Program R)
      → run_turns l ts p ≡ returned p'
      → p'.command.has_errors ≡ p.command.has_errors
  unfolding run_turns
  run_turns-errors [] p p' at = ground arith
  run_turns-errors (t ∷ ts) p p' at =
      let (q, first, then) = then_call-split (turn l t p) (run_turns l ts) p' at in
      run_turns-errors ts q p' then ∙ turn-errors t p q first

  send_begun-result :
      (o : Option (ReportReason × List ReportReason)) (now : ℤ) (p p' : Program R)
      → send_begun now p o ≡ returned p'
      → p'.exec_result ≡ p.exec_result
  send_begun-result none now p p' at = ground arith
  send_begun-result (some (r, rest)) now p p' at = ground arith

  send_ended-result :
      (o : Option (Decision × List Decision)) (result : Delivery) (p p' : Program R)
      → send_ended result p o ≡ returned p'
      → p'.exec_result ≡ p.exec_result
  send_ended-result none result p p' at = ground arith
  send_ended-result (some (d, rest)) result p p' at =
      let (c, first, then) =
        then_call-split (await_result d result p.command)
          (λ c. returned (record p { command = c; waiting = rest })) p' at in
      ground arith

  -- What Exec has returned stays.
  pub turn-result :
      (t : Turn) (p p' : Program R) (e : Option String)
      → p.exec_result ≡ some e
      → turn l t p ≡ returned p'
      → p'.exec_result ≡ some e
  unfolding turn
  turn-result (happening h) p p' e over at =
      let ((c, sends, e'), first, then) =
        then_call-split (happens l p.exec_result h p.command) (noted p) p' at in
      sym (ap (λ o. result_in p.exec_result o) then) ∙ ap (λ r. first_of r e') over
    where
      result_in : Option (Option String) → Outcome (Program R) → Option (Option String)
      result_in r panic = r
      result_in r (returned q) = q.exec_result
  turn-result (send_begins i now) p p' e over at =
      send_begun-result (pick i p.started) now p p' at ∙ over
  turn-result (send_ends i result) p p' e over at =
      send_ended-result (pick i p.waiting) result p p' at ∙ over
