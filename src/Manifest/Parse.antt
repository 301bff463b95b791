-- ===== src/Manifest/Parse.antt =====
-- manifest::parse and parse_xml of src/manifest.cc: from a path to a JSON value. The JSON reader and
-- the XML reader (tinyxml2, src/vendor) are parameters.
use relaunchd.Prelude.{
  ℕ, String, Bool, true, false, not, ◌&&◌, Option, none, some, List, [], ◌∷◌, map, nat_beq,
  is_empty, string_eq, if◌then◌else◌,
}
use relaunchd.Prelude.Exec.{Result, ok, err, runtime_error, undefined_behaviour}
use relaunchd.Prelude.Int.{minus_one}
use relaunchd.Prelude.Text.{codes, to_upper}
use relaunchd.Json.{JsonLib}

-- an element below "dict", with what Name and GetText return
pub record Element : Type 0 where
  pub name : String
  pub text : Option String

pub record Dict : Type 0 where
  pub no_children : Bool
  pub elements : List Element

-- a document, with the elements "plist" and "dict" if they are there
pub record Document : Type 0 where
  pub plist : Option (Option Dict)

pub record Reader (J : Type 0) : Type 0 where
  -- XML_MANIFEST_SUPPORT
  pub xml_support : Bool
  -- LoadFile
  pub load_file : String → Option Document
  -- `json::parse` of a file
  pub parse_file : String → Result J
  -- the value that `json result;` starts with
  pub null : J

unfoldable pub same_text : List ℕ → List ℕ → Bool
same_text [] [] = true
same_text [] (d ∷ ds) = false
same_text (c ∷ cs) [] = false
same_text (c ∷ cs) (d ∷ ds) = nat_beq c d && same_text cs ds

-- `strcasecmp(a, b) == 0`
unfoldable pub same_name : String → String → Bool
unfolding same_text to_upper
same_name a b = same_text (map to_upper (codes a)) (map to_upper (codes b))

module _ {J : Type 0} (json : JsonLib J) where
  -- the value of an element
  unfoldable pub value_of : Element → Option J
  unfolding same_name
  value_of e =
      if same_name e.name "string"
      then (elim e.text [ none ↦ none | some val ↦ some (json.of_string val) ])
      else if same_name e.name "true"
      then some (json.of_bool true)
      else if same_name e.name "false"
      then some (json.of_bool false)
      else none

  -- the key of an element
  unfoldable pub key_of : Element → Option String
  unfolding same_name
  key_of e = if same_name e.name "key" then e.text else none

  abbrev add_entry : Option String → Option J → List (String × J) → Option (List (String × J))
  add_entry (some key) (some val) entries = some ((key, val) ∷ entries)
  add_entry _ _ entries = none

  -- The loop over the elements, two in each round. The entries come newest first, since an
  -- assignment replaces an earlier one with its key.
  unfoldable pub parse_entries : List Element → List (String × J) → Option (List (String × J))
  unfolding value_of key_of
  parse_entries [] entries = some entries
  parse_entries (k ∷ []) entries = none
  parse_entries (k ∷ v ∷ rest) entries = elim (add_entry (key_of k) (value_of v) entries) [
    | none ↦ none
    | some more ↦ parse_entries rest more
  ]

  -- what was assigned to `result`
  abbrev pub object_of : J → List (String × J) → J
  object_of null entries = if is_empty entries then null else json.of_object entries

  abbrev parse_dict : J → Dict → Option J
  parse_dict null dict = if dict.no_children then none else (elim (parse_entries dict.elements []) [
    | none ↦ none
    | some entries ↦ some (object_of null entries)
  ])

  -- parse_xml: a document without "plist" or "dict" is a null pointer that is used
  unfoldable pub parse_xml : Reader J → String → Result (Option J)
  unfolding parse_entries
  parse_xml reader path = elim (reader.load_file path) [
    | none ↦ ok none
    | some doc ↦ elim doc.plist [
      | none ↦ err undefined_behaviour
      | some plist ↦ elim plist [
        | none ↦ err undefined_behaviour
        | some dict ↦ ok (parse_dict reader.null dict)
      ]
    ]
  ]

-- `path.extension()`: from the last dot of the file name, unless it is the first character
unfoldable pub extension_after : List ℕ → Bool → List ℕ → List ℕ
extension_after found first [] = found
extension_after found first (c ∷ cs) =
    if nat_beq c b'/'
    then extension_after [] true cs
    else if nat_beq c b'.' && not first
    then extension_after (c ∷ cs) false cs
    else extension_after found false cs

unfoldable pub has_extension : String → String → Bool
unfolding same_text extension_after
has_extension ext path = same_text (extension_after [] true (codes path)) (codes ext)

module _ {J : Type 0} (json : JsonLib J) (reader : Reader J) where
  -- parse, where a property list that cannot be read is the number -1
  unfoldable pub parse : String → Result J
  unfolding parse_xml has_extension
  parse path =
      if reader.xml_support && has_extension ".plist" path
      then (elim (parse_xml json reader path) [
        | err x ↦ err x
        | ok none ↦ ok (json.of_int minus_one)
        | ok (some obj) ↦ ok obj
      ])
      else if has_extension ".json" path
      then reader.parse_file path
      else err runtime_error
