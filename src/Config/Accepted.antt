-- ===== src/Config/Accepted.antt =====
-- Which errors newConfig reports, and what the configuration holds that it accepts
-- (pkg/monny/config.go).
use Prim.Native.String.{String}
use monny.Base.{
  ◌≡◌, refl, sym, ap, ap₂, ◌∙◌, Bool, List, [], ◌∷◌, ◌++◌, append-nil, append_assoc, Option, none,
  some, Result, ok, err, str_eq, arith, if◌then◌else◌,
}
use monny.Config.Record.{Rule, Config}
use monny.Config.Options.{
  ConfigOption, id, rule, json_rule, creates, ConfigError, no_id, System, Setup, apply_option,
  apply_options, default_config, shell_error, new_config,
}

-- the `id` that the last option for it sets
unfoldable pub last_id : String → List ConfigOption → String
last_id i [] = i
last_id i (id j ∷ opts) = last_id j opts
last_id i (_ ∷ opts) = last_id i opts

abbrev pub missing_id : String → List ConfigError
missing_id i = if str_eq i "" then no_id ∷ [] else []

-- the files of all `Creates` options, in order
unfoldable pub all_creates : List ConfigOption → List String
all_creates [] = []
all_creates (creates path ∷ opts) = path ∷ all_creates opts
all_creates (_ ∷ opts) = all_creates opts

abbrev after : Option ConfigError → List ConfigError → List ConfigError
after none es = es
after (some e) es = e ∷ es

module _ {ℓ} {R : Type ℓ} where
  -- the rules of all options for rules, in order, those that did not compile included
  unfoldable pub all_rules : System R → List ConfigOption → List (Rule R)
  all_rules sys [] = []
  all_rules sys (rule regex ∷ opts) =
      (record { field = ""; regex = sys.compile regex }) ∷ all_rules sys opts
  all_rules sys (json_rule field regex ∷ opts) =
      (record { field = field; regex = sys.compile regex }) ∷ all_rules sys opts
  all_rules sys (_ ∷ opts) = all_rules sys opts

  -- the error of an option by itself: on the configuration with no option applied
  abbrev refusal : System R → ConfigOption → Option ConfigError
  refusal sys opt =
      (apply_option sys opt
        (record { config = default_config sys; suppress_errors = Bool.false })).1

  -- the errors of the options, each by itself, in order
  unfoldable pub refusals : System R → List ConfigOption → List ConfigError
  refusals sys [] = []
  refusals sys (opt ∷ opts) = after (refusal sys opt) (refusals sys opts)

  -- an option fails or not whatever was set before it
  apply_option-refusal :
      (sys : System R) (opt : ConfigOption) (s : Setup R)
      → (apply_option sys opt s).1 ≡ refusal sys opt
  unfolding apply_option
  apply_option-refusal sys (id i) s = ground arith
  apply_option-refusal sys _ s = ground arith

  apply_option-id :
      (sys : System R) (opt : ConfigOption) (opts : List ConfigOption) (s : Setup R)
      → last_id (apply_option sys opt s).0.config.id opts ≡ last_id s.config.id (opt ∷ opts)
  unfolding apply_option last_id
  apply_option-id sys (id i) opts s = refl
  apply_option-id sys _ opts s = ground arith

  apply_option-creates :
      (sys : System R) (opt : ConfigOption) (opts : List ConfigOption) (s : Setup R)
      → (apply_option sys opt s).0.config.creates ++ all_creates opts
        ≡ s.config.creates ++ all_creates (opt ∷ opts)
  unfolding apply_option all_creates
  apply_option-creates sys (creates path) opts s =
      append_assoc s.config.creates (path ∷ []) (all_creates opts)
  apply_option-creates sys _ opts s = ground arith

  apply_option-rules :
      (sys : System R) (opt : ConfigOption) (opts : List ConfigOption) (s : Setup R)
      → (apply_option sys opt s).0.config.rules ++ all_rules sys opts
        ≡ s.config.rules ++ all_rules sys (opt ∷ opts)
  unfolding apply_option all_rules
  apply_option-rules sys (rule regex) opts s = ground (
    arith,
    append_assoc s.config.rules ((record { field = ""; regex = sys.compile regex }) ∷ [])
        (all_rules sys opts),
  )
  apply_option-rules sys (json_rule field regex) opts s = ground (
    arith,
    append_assoc s.config.rules ((record { field = field; regex = sys.compile regex }) ∷ [])
        (all_rules sys opts),
  )
  apply_option-rules sys _ opts s = ground arith

  -- what the loop over the options makes of a configuration
  abbrev Applied : System R → List ConfigOption → Setup R → Setup R → Type ℓ
  Applied sys opts s s' =
      (s'.config.id ≡ last_id s.config.id opts)
      × (s'.config.creates ≡ s.config.creates ++ all_creates opts)
      × (s'.config.rules ≡ s.config.rules ++ all_rules sys opts)

  apply_options-cons :
      (sys : System R) (opt : ConfigOption) (opts : List ConfigOption) (s : Setup R)
      → ((apply_options sys (opt ∷ opts) s).0
          ≡ (apply_options sys opts (apply_option sys opt s).0).0)
        × ((apply_options sys (opt ∷ opts) s).1
            ≡ after (refusal sys opt) (apply_options sys opts (apply_option sys opt s).0).1)
  unfolding apply_options
  apply_options-cons sys opt opts s = ground (arith, apply_option-refusal sys opt s)

  apply_options-none :
      (sys : System R) (s : Setup R)
      → Applied sys [] s (apply_options sys [] s).0 × ((apply_options sys [] s).1 ≡ [])
  unfolding apply_options last_id all_creates all_rules
  apply_options-none sys s =
      ((refl, sym (append-nil s.config.creates), sym (append-nil s.config.rules)), refl)

  apply_options-Applied :
      (sys : System R) (opts : List ConfigOption) (s : Setup R)
      → Applied sys opts s (apply_options sys opts s).0
        × ((apply_options sys opts s).1 ≡ refusals sys opts)
  unfolding refusals last_id all_creates all_rules
  apply_options-Applied sys [] s = apply_options-none sys s
  apply_options-Applied sys (opt ∷ opts) s =
      let first = apply_options-cons sys opt opts s in
      let (rest, errors) = apply_options-Applied sys opts (apply_option sys opt s).0 in
      (
        (
          ap (λ t. t.config.id) first.0 ∙ (rest.0 ∙ apply_option-id sys opt opts s),
          ap (λ t. t.config.creates) first.0 ∙ (rest.1 ∙ apply_option-creates sys opt opts s),
          ap (λ t. t.config.rules) first.0 ∙ (rest.2 ∙ apply_option-rules sys opt opts s),
        ),
        first.1 ∙ ap (after (refusal sys opt)) errors,
      )

  -- every error that there is to report
  abbrev pub reported : System R → List ConfigOption → List ConfigError
  reported sys opts = refusals sys opts ++ (shell_error sys ++ missing_id (last_id "" opts))

  -- a configuration, unless there are errors
  abbrev pub unless : List ConfigError → Config R → Result (List ConfigError) (Config R)
  unless [] c = ok c
  unless (e ∷ es) c = err (e ∷ es)

  abbrev at_start : System R → Bool → Setup R
  at_start sys suppressed = record { config = default_config sys; suppress_errors = suppressed }

  -- the configuration behind the loop, with the shell of the environment
  abbrev accepted : System R → Bool → List ConfigOption → Config R
  accepted sys suppressed opts =
      record ((apply_options sys opts (at_start sys suppressed)).0.config) {
        shell = sys.shell_variable;
      }

  new_config-unless :
      (sys : System R) (suppressed : Bool) (opts : List ConfigOption)
      → (new_config sys suppressed opts).0
        ≡ unless
            ((apply_options sys opts (at_start sys suppressed)).1
              ++ (shell_error sys ++ missing_id (accepted sys suppressed opts).id))
            (accepted sys suppressed opts)
  unfolding new_config
  new_config-unless sys suppressed opts = ground arith

  -- `newConfig` goes on after an error and reports all of them: those of the options, each failing
  -- or not by itself, in order, then a missing shell, then an id that is missing or that the last
  -- option for it leaves empty. Without any, the configuration holds that id, the files and the
  -- rules of all options in order, and as its shell the one of the environment, whichever shell the
  -- options name.
  pub new_config-reported :
      (sys : System R) (suppressed : Bool) (opts : List ConfigOption)
      → (c : Config R) × ((new_config sys suppressed opts).0 ≡ unless (reported sys opts) c)
        × (c.id ≡ last_id "" opts)
        × (c.creates ≡ all_creates opts)
        × (c.rules ≡ all_rules sys opts)
        × (c.shell ≡ sys.shell_variable)
  unfolding default_config
  new_config-reported sys suppressed opts =
      let ((ids, files, rules), errors) =
        apply_options-Applied sys opts (at_start sys suppressed) in
      (
        accepted sys suppressed opts,
        new_config-unless sys suppressed opts
            ∙ ap₂
                (λ es i.
                  unless (es ++ (shell_error sys ++ missing_id i)) (accepted sys suppressed opts))
                errors ids,
        ids,
        files,
        rules,
        refl,
      )
