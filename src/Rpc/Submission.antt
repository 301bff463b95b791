-- ===== src/Rpc/Submission.antt =====
-- The document that src/rpc_client.cc makes of the arguments of submit, as src/manifest.cc reads it.
use relaunchd.Prelude.{
  ◌≡◌, refl, ap, ◌∙◌, String, false, Option, none, some, List, [], ◌∷◌, map, arith, string_eq,
}
use relaunchd.Prelude.Assoc.{lookup, is_some}
use relaunchd.Prelude.Exec.{ok, err, out_of_range}
use relaunchd.Prelude.Throw.{◌>>=◌}
use relaunchd.Json.{JsonLib, DocumentLaws}
use relaunchd.Manifest.{
  Manifest, default_manifest, new_label, steps, run_steps, read, refuse, from_json, finish, rectify,
  validate,
}
use relaunchd.Rpc.Client.Requests.{Submission, submission}

module _ {J : Type 0} (lib : JsonLib J) ⦃laws : DocumentLaws lib⦄ where
  contains_lem :
      (fs : List (String × J)) (k : String)
      → lib.contains (lib.of_object fs) k ≡ is_some (lookup k fs)
  contains_lem = laws.contains-of_object

  at_lem :
      (fs : List (String × J)) (k : String)
      → lib.at (lib.of_object fs) k ≡ elim (lookup k fs) [ none ↦ err out_of_range | some v ↦ ok v ]
  at_lem = laws.messages.at-of_object

  get_string_lem : (s : String) → lib.get_string (lib.of_string s) ≡ ok s
  get_string_lem = laws.messages.get_string-of_string

  get_strings_lem :
      (ss : List String) → lib.get_strings (lib.of_array (map lib.of_string ss)) ≡ ok ss
  get_strings_lem = laws.get_strings-of_array

ruleset document_laws = (contains_lem, at_lem, get_string_lem, get_strings_lem)

abbrev or_null : Option String → String
or_null none = "/dev/null"
or_null (some path) = path

-- the manifest that a submission describes
abbrev pub described : String → Submission → Manifest
described label k = record default_manifest {
  label = record { value = label };
  program = k.program;
  program_arguments = k.program_arguments;
  stdout_path = or_null k.standard_out_path;
  stderr_path = or_null k.standard_error_path;
}

abbrev submitted : Option String → Option String → Option String → List String → Submission
submitted program out error arguments = record {
  program = program;
  label = none;
  standard_out_path = out;
  standard_error_path = error;
  program_arguments = arguments;
}

module _ {J : Type 0} (lib : JsonLib J) ⦃laws : DocumentLaws lib⦄ where
  abbrev Reads : String → Submission → Type 0
  Reads label k =
      let j = submission lib label k in
      run_steps lib j (steps lib j) default_manifest ≡ ok (described label k)

  read-submitted :
      (label : String) (program out error : Option String) (arguments : List String)
      → new_label label ≡ ok (record { value = label })
      → Reads label (submitted program out error arguments)
  unfolding run_steps steps read refuse lookup
  read-submitted label none none none arguments h = simp (document_laws, h) refl
  read-submitted label none none (some e) arguments h = simp (document_laws, h) refl
  read-submitted label none (some o) none arguments h = simp (document_laws, h) refl
  read-submitted label none (some o) (some e) arguments h = simp (document_laws, h) refl
  read-submitted label (some p) none none arguments h = simp (document_laws, h) refl
  read-submitted label (some p) none (some e) arguments h = simp (document_laws, h) refl
  read-submitted label (some p) (some o) none arguments h = simp (document_laws, h) refl
  read-submitted label (some p) (some o) (some e) arguments h = simp (document_laws, h) refl

  rectify_valid :
      (k : Submission) (label : String)
      → new_label label ≡ ok (record { value = label })
      → (j : J) → finish lib j (described label k) ≡ rectify (described label k)
  unfolding finish rectify validate new_label
  rectify_valid k label h j = ground arith

  pub from_json-submission :
      (label : String) (k : Submission)
      → new_label label ≡ ok (record { value = label })
      → from_json lib (submission lib label k) ≡ rectify (described label k)
  unfolding from_json
  from_json-submission label k h =
      let j = submission lib label k in
      ap (λ r. r >>= finish lib j)
        (read-submitted label k.program k.standard_out_path k.standard_error_path
          k.program_arguments h)
      ∙ rectify_valid k label h j

-- the manifest with the program and its arguments completed; none if a submission has neither
abbrev pub completed : String → Submission → Option Manifest
completed label k = elim k.program [
  | some p ↦ some (record (described label k) {
    program_arguments = elim k.program_arguments [ [] ↦ p ∷ [] | a ∷ rest ↦ a ∷ rest ];
  })
  | none ↦ elim k.program_arguments [
    | [] ↦ none
    | a ∷ rest ↦ some (record (described label k) { program = some a })
  ]
]

pub rectify-described :
    (label : String) (k : Submission) (m : Manifest)
    → completed label k ≡ some m
    → rectify (described label k) ≡ ok m
unfolding rectify
rectify-described label k m h = ground arith

pub completed_lem :
    (label : String) (k : Submission) (m : Manifest)
    → completed label k ≡ some m
    → (m.label.value ≡ label) × (m.disabled ≡ false)
completed_lem label k m h = ground arith
