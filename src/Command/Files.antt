-- ===== src/Command/Files.antt =====
-- What the record of a command says of a process that ended by itself, and of the files that it
-- was to create (pkg/monny/handlers.go, Finished and handleFileCreation).
use Prim.Native.String.{◌++◌ as concat}
use monny.Base.{
  ◌≡◌, String, Bool, true, false, ◌&&◌, List, [], ◌∷◌, ◌++◌, map, append-nil, append_assoc, arith,
  if◌then◌else◌,
}
use monny.Base.Int.{ℤ, ◌-ℤ◌}
use monny.Proto.{ReportReason, success, failure, file_not_created}
use monny.Command.Record.{Command, File}
use monny.Command.Handlers.{
  FileState, not_exist, found, other_error, Ending, succeeded, check_file, check_files,
  handle_file_creation, record_ending, finished,
}

-- the files of a list that do not exist
pub missing : (String → FileState) → List String → List String
missing stat [] = []
missing stat (f ∷ fs) =
    let rest = missing stat fs in
    elim (stat f) [ not_exist ↦ f ∷ rest | found info ↦ rest | other_error ↦ rest ]

-- the descriptions of those that do
pub existing : (String → FileState) → List String → List File
existing stat [] = []
existing stat (f ∷ fs) =
    let rest = existing stat fs in
    elim (stat f) [ not_exist ↦ rest | found info ↦ info ∷ rest | other_error ↦ rest ]

abbrev pub is_empty {ℓ} : {A : Type ℓ} → List A → Bool
is_empty [] = true
is_empty (x ∷ xs) = false

abbrev pub text_of : String → String
text_of f = concat "file not created: " f

abbrev pub has_succeeded : Ending → Bool
has_succeeded succeeded = true
has_succeeded _ = false

abbrev pub reason_of : Ending → ReportReason
reason_of succeeded = success
reason_of _ = failure

abbrev description : FileState → List File
description (found info) = info ∷ []
description _ = []

module _ {ℓ} {R : Type ℓ} where
  -- all that the loop over the files changes
  abbrev pub after_files : (String → FileState) → List String → Command R → Command R
  after_files stat fs c = record c {
    success = c.success && is_empty (missing stat fs);
    messages = c.messages ++ map text_of (missing stat fs);
    created = c.created ++ existing stat fs;
    report_reason = if is_empty (missing stat fs) then c.report_reason else file_not_created;
  }

  pub check_files_lem :
      (stat : String → FileState) (fs : List String) (c : Command R)
      → check_files stat fs c
        ≡ (after_files stat fs c, map (λ f. file_not_created) (missing stat fs))
  unfolding check_files check_file missing existing
  check_files_lem stat [] c = ground (arith, append-nil c.messages, append-nil c.created)
  check_files_lem stat (f ∷ fs) c = ground (
    arith,
    check_files_lem stat fs (check_file f (stat f) c).0,
    append_assoc c.messages (text_of f ∷ []) (map text_of (missing stat fs)),
    append_assoc c.created (description (stat f)) (existing stat fs),
  )

  -- When a process ends by itself, it is recorded as a success exactly if it succeeded and every
  -- file that it was to create exists, as far as the system says; every file that does not exist
  -- gets one message, one report and makes the reason of the record, every file that does is
  -- recorded. The first report is that of the process itself, whatever the files.
  pub finished_lem :
      (now : ℤ) (ending : Ending) (stat : String → FileState) (c : Command R)
      → let absent = missing stat c.config.creates in
        let (c', sends) = finished now ending stat c in
        (c'.success ≡ (has_succeeded ending && is_empty absent))
        × (c'.messages ≡ c.messages ++ map text_of absent)
        × (c'.created ≡ c.created ++ existing stat c.config.creates)
        × (c'.report_reason ≡ (if is_empty absent then reason_of ending else file_not_created))
        × (sends ≡ reason_of ending ∷ map (λ f. file_not_created) absent)
        × (c'.duration ≡ now -ℤ c.start)
  unfolding finished record_ending handle_file_creation
  finished_lem now ending stat c = ground (
    arith,
    check_files_lem stat c.config.creates
        (record_ending ending (record c { finish = now; duration = now -ℤ c.start })).0,
  )
