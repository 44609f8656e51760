-- ===== src/Parse/Files.antt =====
-- What a configuration file sets (pkg/monny/parse.go, parseFromFile, with pkg/monny/config.go).
use Prim.Native.String.{String}
use monny.Base.{◌≡◌, refl, ap, ◌∙◌, List, [], ◌∷◌, Option, some, ok, arith}
use monny.Base.Int.{ℤ}
use monny.Base.Strconv.{itoa, atoi-itoa, IsInt64}
use monny.Config.Options.{
  ConfigOption, stdout_history, stderr_history, System, Setup, apply_option, apply_options,
}
use monny.Parse.{
  YamlValue, number, ListFields, Readers, handle_option, entries_options, content_options,
  decoded_options, parse_from_file,
}

abbrev histories : ℤ → ℤ → List (String × YamlValue)
histories z w = ("stdout-history", number z) ∷ ("stderr-history", number w) ∷ []

abbrev history_options : ℤ → ℤ → List ConfigOption
history_options z w = stdout_history (itoa z) ∷ stderr_history (itoa w) ∷ []

pub parse_from_file-decoded :
    (r : Readers) (path : String) {content : String} {entries : List (String × YamlValue)}
    → r.read_file path ≡ some content
    → r.decode_map content ≡ some entries
    → parse_from_file r path ≡ entries_options (r.decode_lists content) entries
unfolding parse_from_file entries_options
parse_from_file-decoded r path {content} found decoded =
    ap (content_options r) found ∙ ap (decoded_options (r.decode_lists content)) decoded

entries_options-histories :
    (lists : Option ListFields) (z w : ℤ)
    → entries_options lists (histories z w) ≡ ok (history_options z w)
unfolding entries_options handle_option
entries_options-histories lists z w = refl

module _ {ℓ} {R : Type ℓ} where
  abbrev with_histories : ℤ → ℤ → Setup R → Setup R
  with_histories z w s = record s {
    config = record (s.config) { stdout_history = z; stderr_history = w };
  }

  apply_options-histories :
      (sys : System R) (z w : ℤ) (s : Setup R)
      → IsInt64 z
      → IsInt64 w
      → apply_options sys (history_options z w) s ≡ (with_histories z w s, [])
  unfolding apply_options apply_option
  apply_options-histories sys z w s hz hw = ground (arith, atoi-itoa z hz, atoi-itoa w hw)

  -- The round trip of a setting: where the file holds two integers of 64 bits as the lengths of
  -- both histories and no more, `parseFromFile` prints them into options without an error, and
  -- these, parsed again by `newConfig`, set the two lengths to the integers of the file, change
  -- nothing else and have no error.
  pub parse_from_file-apply_options :
      (r : Readers) (sys : System R) (s : Setup R) (path : String) (z w : ℤ) {content : String}
      → r.read_file path ≡ some content
      → r.decode_map content
        ≡ some (("stdout-history", number z) ∷ ("stderr-history", number w) ∷ [])
      → IsInt64 z
      → IsInt64 w
      → (opts : List ConfigOption) × (parse_from_file r path ≡ ok opts)
        × (apply_options sys opts s ≡ (
          record s { config = record (s.config) { stdout_history = z; stderr_history = w } },
          [],
        ))
  parse_from_file-apply_options r sys s path z w {content} found decoded hz hw = (
    history_options z w,
    parse_from_file-decoded r path found decoded
        ∙ entries_options-histories (r.decode_lists content) z w,
    apply_options-histories sys z w s hz hw,
  )
