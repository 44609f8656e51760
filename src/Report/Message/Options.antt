-- ===== src/Report/Message/Options.antt =====
-- The options of the connection over several reports (pkg/monny/report.go, create).
use monny.Base.{
  ◌+◌, ◌≡◌, sym, ap, ◌∙◌, List, [], ◌∷◌, ◌++◌, map, append_assoc, append-nil, length, length-append,
  length-map, Bool,
}
use monny.Base.Int.{ℤ}
use monny.Proto.{ReportReason}
use monny.Command.{Command}
use monny.Report.Message.{Codec, DialOption, dial_option, Service, create}

-- a call of create: the clock, the flag, the reason and the command
abbrev pub Call {ℓ} : Type ℓ → Type ℓ
Call R = ℤ × Bool × ReportReason × Command R

module _ {ℓ} {R : Type ℓ} (codec : Codec R) where
  unfoldable pub create_all : List (Call R) → Service → Service
  create_all [] s = s
  create_all ((now, suppressed, reason, c) ∷ calls) s =
      create_all calls (create codec now suppressed reason c s).1

  abbrev pub option_of : Call R → DialOption
  option_of (now, suppressed, reason, c) = dial_option codec c.config

  -- The service keeps the options of all reports: each report, sent or not, adds one for the use of
  -- TLS, so that the connection of a report is made with as many as there were reports before it
  -- and its own.
  pub create_all-opts :
      (calls : List (Call R)) (s : Service)
      → ((create_all calls s).opts ≡ s.opts ++ map option_of calls)
        × (length (create_all calls s).opts ≡ length s.opts + length calls)
  unfolding create_all create
  create_all-opts calls s = (
    all calls s,
    ap length (all calls s)
        ∙ (length-append s.opts (map option_of calls)
            ∙ ap (λ n. length s.opts + n) (length-map calls option_of)),
  )
    where
      all :
          (calls : List (Call R)) (s : Service)
          → (create_all calls s).opts ≡ s.opts ++ map option_of calls
      all [] s = sym (append-nil s.opts)
      all ((now, suppressed, reason, c) ∷ calls) s =
          all calls (create codec now suppressed reason c s).1
          ∙ append_assoc s.opts (dial_option codec c.config ∷ []) (map option_of calls)
