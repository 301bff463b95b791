-- ===== src/Rpc/Options.antt =====
-- The loop over the options of load and unload in src/rpc_client.cc, against a description that looks
-- at the options and the paths apart.
use mathlib.Core.List.{append_assoc, append-nil}
use relaunchd.Prelude.{
  ◌≡◌, refl, sym, ap, ◌∙◌, String, Bool, true, false, not, ◌||◌, List, [], ◌∷◌, ◌++◌, arith, ◌==◌,
  string_eq, filter_by, Bool-cases, inl, inr, if◌then◌else◌,
}
use mathlib.Core.Path.{subst}
use relaunchd.Prelude.Exec.{Result, ok, err, runtime_error, returned, threw, outcome, ok_injective}
use relaunchd.Prelude.Throw.{◌>>=◌}
use relaunchd.Json.{JsonLib}
use relaunchd.Prelude.Throw.{>>=-eq-ok}
use relaunchd.Rpc.Client.Requests.{Files, Loading, read_options, no_options, message, loading}

-- whether an option is given, anywhere
unfoldable pub mentions : String → List String → Bool
mentions opt [] = false
mentions opt (arg ∷ args) = arg == opt || mentions opt args

abbrev pub is_path : String → Bool
is_path arg = not (arg == "-w" || arg == "-F")

-- a path that is there, in canonical form
abbrev resolve_one : Files → String → Result String
resolve_one files path = if files.exists path then files.canonical path else err runtime_error

unfoldable pub resolve : Files → List String → Result (List String)
resolve files [] = ok []
resolve files (path ∷ paths) =
    resolve_one files path >>= λ p. resolve files paths >>= λ ps. ok (p ∷ ps)

abbrev joined : Loading → List String → List String → Loading
joined k args ps = record {
  override_disabled = k.override_disabled || mentions "-w" args;
  force = k.force || mentions "-F" args;
  paths = k.paths ++ ps;
}

abbrev Agrees : Files → List String → Loading → Type 0
Agrees files args k =
    read_options files args k
    ≡ (resolve files (filter_by is_path args) >>= λ ps. ok (joined k args ps))

or_true : (b : Bool) → true ≡ (b || true)
or_true true = refl
or_true false = refl

-- what the loop returns with other flags and paths before
abbrev with_flags : Files → List String → Bool → Bool → List String → Result Loading
with_flags files args override_disabled force before =
    resolve files (filter_by is_path args) >>= λ ps.
    ok (record { override_disabled = override_disabled; force = force; paths = before ++ ps })

Agrees-w :
    (files : Files) (args : List String) (k : Loading)
    → Agrees files args (record k { override_disabled = true })
    → Agrees files ("-w" ∷ args) k
unfolding read_options filter_by mentions
Agrees-w files args k h =
    h
    ∙ ap (λ b. with_flags files args b (k.force || mentions "-F" args) k.paths)
        (or_true k.override_disabled)

Agrees-f :
    (files : Files) (args : List String) (k : Loading)
    → Agrees files args (record k { force = true })
    → Agrees files ("-F" ∷ args) k
unfolding read_options filter_by mentions
Agrees-f files args k h =
    h
    ∙ ap (λ b. with_flags files args (k.override_disabled || mentions "-w" args) b k.paths)
        (or_true k.force)

-- one path in front of the others
resolved_more :
    (arg path : String) (args : List String) (k : Loading) (r : Result (List String))
    → (arg == "-w") ≡ false
    → (arg == "-F") ≡ false
    → (r >>= λ ps. ok (joined (record k { paths = k.paths ++ (path ∷ []) }) args ps))
      ≡ ((r >>= λ ps. ok (path ∷ ps)) >>= λ ps. ok (joined k (arg ∷ args) ps))
unfolding mentions
resolved_more arg path args k (err x) w f = refl
resolved_more arg path args k (ok ps) w f =
    ground (arith, w, f, append_assoc k.paths (path ∷ []) ps)

read_options-path :
    (files : Files) (arg : String) (args : List String) (k : Loading)
    → (arg == "-w") ≡ false
    → (arg == "-F") ≡ false
    → read_options files (arg ∷ args) k ≡ (
        resolve_one files arg >>= λ path.
        read_options files args (record k { paths = k.paths ++ (path ∷ []) }))
unfolding read_options
read_options-path files arg args k w f = ground (arith, w, f)

-- one more path
Agrees-path :
    (files : Files) (arg : String) (args : List String) (k : Loading)
    → (arg == "-w") ≡ false
    → (arg == "-F") ≡ false
    → ((path : String) → Agrees files args (record k { paths = k.paths ++ (path ∷ []) }))
    → Agrees files (arg ∷ args) k
unfolding filter_by resolve
Agrees-path files arg args k w f h =
    let paths = filter_by is_path args in
    read_options-path files arg args k w f
    ∙ rw (w, f)
        (elim (outcome (resolve_one files arg)) [
          | returned path c ↦
              rw c (h path ∙ resolved_more arg path args k (resolve files paths) w f)
          | threw x c ↦ rw c refl
        ])

Agrees-nil : (files : Files) (k : Loading) → Agrees files [] k
unfolding read_options resolve filter_by mentions
Agrees-nil files k = ground (arith, append-nil k.paths)

read_options-step : (files : Files) (args : List String) (k : Loading) → Agrees files args k
read_options-step files [] k = Agrees-nil files k
read_options-step files (arg ∷ args) k = elim (Bool-cases (arg == "-w")) [
  | inl w ↦
      subst (λ a. Agrees files (a ∷ args) k) (sym ((string_eq.equals_iff arg "-w").0 w))
        (Agrees-w files args k (read_options-step files args _))
  | inr w ↦ elim (Bool-cases (arg == "-F")) [
    | inl f ↦
        subst (λ a. Agrees files (a ∷ args) k) (sym ((string_eq.equals_iff arg "-F").0 f))
          (Agrees-f files args k (read_options-step files args _))
    | inr f ↦ Agrees-path files arg args k w f (λ path. read_options-step files args _)
  ]
]

-- The loop over the arguments of load and unload sets a flag if its option is given anywhere, and
-- keeps the canonical forms of all other arguments in their order; it throws at the first of these
-- that does not exist or has no canonical form.
pub read_options_lem :
    (files : Files) (args : List String)
    → read_options files args no_options ≡ (
        resolve files (filter_by is_path args) >>= λ paths. ok (record {
          override_disabled = mentions "-w" args;
          force = mentions "-F" args;
          paths = paths;
        }))
read_options_lem files args = read_options-step files args no_options

-- the request that is made of arguments with paths
abbrev request_of : {J : Type 0} → JsonLib J → String → List String → List String → J
request_of json method args paths = message json method (
    loading json (record {
      override_disabled = mentions "-w" args;
      force = mentions "-F" args;
      paths = paths;
    }))

pub made_request :
    {J : Type 0} (json : JsonLib J) (method : String) (files : Files) (args : List String) (msg : J)
    → (read_options files args no_options >>= λ k. ok (message json method (loading json k)))
      ≡ ok msg
    → (paths : List String) × (resolve files (filter_by is_path args) ≡ ok paths)
      × (request_of json method args paths ≡ msg)
made_request json method files args msg h =
    let (k, options, made) = >>=-eq-ok (read_options files args no_options) _ h in
    let (paths, resolved, is_k) =
      >>=-eq-ok (resolve files (filter_by is_path args)) _
        (sym (read_options_lem files args) ∙ options) in
    (
      paths,
      resolved,
      ap (λ k. message json method (loading json k)) (ok_injective is_k) ∙ ok_injective made,
    )
