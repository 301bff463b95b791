-- ===== src/Json.antt =====
-- The part of nlohmann::json that the program calls. The library is not part of the repository:
-- the model takes it as a parameter `JsonLib J` over a type `J` of values, where `err` is the
-- exception that a call throws, and what the code relies on as the laws `JsonLaws`.
use relaunchd.Prelude.{
  get_elem?, none, some, ℕ, String, ◌≡◌, Bool, true, List, [], ◌∷◌, map, ◌==◌, nat_eq, string_eq,
  if◌then◌else◌,
}
use relaunchd.Prelude.Int.{ℤ}
use relaunchd.Prelude.Exec.{Result, ok, err, out_of_range}
use relaunchd.Prelude.Assoc.{lookup, is_some}

-- `json::value_t`
pub data Kind : Type 0 where
  null object array string boolean number_integer number_unsigned number_float : Kind

pub record JsonLib (J : Type 0) : Type 0 where
  -- `j.contains(key)`: false where `j` is no object
  pub contains : J → String → Bool
  -- `j.at(key)`, `j.at(index)`: throw on a missing entry and on a value of another kind
  pub at : J → String → Result J
  pub at_index : J → ℕ → Result J
  -- `j.type()`
  pub kind : J → Kind
  -- `j.get_to(x)`, by the type of `x`
  pub get_string : J → Result String
  pub get_bool : J → Result Bool
  pub get_uint32 : J → Result ℕ
  pub get_array : J → Result (List J)
  pub get_strings : J → Result (List String)
  pub get_string_map : J → Result (List (String × String))
  -- `for (const auto &element : j)`
  pub elements : J → List J
  -- `j[key] = v`
  pub set : J → String → J → Result J
  pub of_bool : Bool → J
  pub of_string : String → J
  pub of_array : List J → J
  pub of_int : ℤ → J
  pub of_object : List (String × J) → J

-- What the documentation promises of a write to an object and of a literal.
pub record JsonLaws {J : Type 0} (lib : JsonLib J) : Type 0 where
  pub at-set :
      (d d' v : J) (k j : String)
      → lib.set d k v ≡ ok d'
      → lib.at d' j ≡ (if k == j then ok v else lib.at d j)
  pub contains-set :
      (d d' v : J) (k j : String)
      → lib.set d k v ≡ ok d'
      → lib.contains d' j ≡ (if k == j then true else lib.contains d j)
  pub get_bool-of_bool : (b : Bool) → lib.get_bool (lib.of_bool b) ≡ ok b
  pub at-of_object : (k : String) (v : J) → lib.at (lib.of_object ((k, v) ∷ [])) k ≡ ok v

-- What it promises of the arrays and objects that a message is made of: a literal keeps the first
-- entry of a key.
pub record MessageLaws {J : Type 0} (lib : JsonLib J) : Type 0 where
  pub at_index-of_array :
      (vs : List J) (i : ℕ)
      → lib.at_index (lib.of_array vs) i
        ≡ elim (get_elem? vs i) [ none ↦ err out_of_range | some v ↦ ok v ]
  pub at-of_object :
      (fs : List (String × J)) (k : String)
      → lib.at (lib.of_object fs) k ≡ elim (lookup k fs) [ none ↦ err out_of_range | some v ↦ ok v ]
  pub elements-of_array : (vs : List J) → lib.elements (lib.of_array vs) ≡ vs
  pub get_string-of_string : (s : String) → lib.get_string (lib.of_string s) ≡ ok s
  pub get_bool-of_bool : (b : Bool) → lib.get_bool (lib.of_bool b) ≡ ok b

-- what it promises of a document that is an object of texts and arrays of texts
pub record DocumentLaws {J : Type 0} (lib : JsonLib J) : Type 0 where
  pub messages : MessageLaws lib
  pub contains-of_object :
      (fs : List (String × J)) (k : String)
      → lib.contains (lib.of_object fs) k ≡ is_some (lookup k fs)
  pub get_strings-of_array :
      (ss : List String) → lib.get_strings (lib.of_array (map lib.of_string ss)) ≡ ok ss
