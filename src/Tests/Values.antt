-- ===== src/Tests/Values.antt =====
-- A concrete library of JSON values for the tests: an object is a list of entries, the newest first.
use relaunchd.Prelude.{
  ℕ, zero, suc, String, ◌≡◌, refl, Bool, true, false, List, [], ◌∷◌, ◌==◌, string_eq, if◌then◌else◌,
  arith, ◌%◌, ◌^◌,
}
use relaunchd.Prelude.Int.{ℤ}
use relaunchd.Prelude.Exec.{Result, ok, err, type_error, out_of_range}
use package.text.Mathlib.TextEquality.{eq_iff}
use relaunchd.Json.{JsonLib, JsonLaws, Kind}

mutual
  pub data Value : Type 0 where
    null : Value
    text : String → Value
    flag : Bool → Value
    number : ℕ → Value
    integer : ℤ → Value
    items : Entries → Value
    object : Entries → Value

  pub data Entries : Type 0 where
    nil : Entries
    entry : String → Value → Entries → Entries

unfoldable pub has : String → Entries → Bool
has k nil = false
has k (entry j v es) = if j == k then true else has k es

unfoldable pub find : String → Entries → Result Value
find k nil = err out_of_range
find k (entry j v es) = let rest = find k es in if j == k then ok v else rest

unfoldable pub nth : Entries → ℕ → Result Value
nth nil i = err out_of_range
nth (entry j v es) zero = ok v
nth (entry j v es) (suc i) = nth es i

unfoldable pub values : Entries → List Value
values nil = []
values (entry j v es) = v ∷ values es

abbrev as_string : Value → Result String
as_string (text s) = ok s
as_string _ = err type_error

unfoldable pub strings : Entries → Result (List String)
strings nil = ok []
strings (entry j v es) = elim (as_string v) [
  | err x ↦ err x
  | ok s ↦ elim (strings es) [ ok rest ↦ ok (s ∷ rest) | err x ↦ err x ]
]

unfoldable pub pairs : Entries → Result (List (String × String))
pairs nil = ok []
pairs (entry j v es) = elim (as_string v) [
  | err x ↦ err x
  | ok s ↦ elim (pairs es) [ ok rest ↦ ok ((j, s) ∷ rest) | err x ↦ err x ]
]

abbrev pub kind_of : Value → Kind
kind_of null = Kind.null
kind_of (text s) = Kind.string
kind_of (flag b) = Kind.boolean
kind_of (number n) = Kind.number_unsigned
kind_of (integer n) = Kind.number_integer
kind_of (items es) = Kind.array
kind_of (object es) = Kind.object

unfoldable pub of_values : List Value → Entries
of_values [] = nil
of_values (v ∷ vs) = entry "" v (of_values vs)

unfoldable pub of_fields : List (String × Value) → Entries
of_fields [] = nil
of_fields ((k, v) ∷ fs) = entry k v (of_fields fs)

abbrev contains : Value → String → Bool
contains (object es) k = has k es
contains _ k = false

abbrev at : Value → String → Result Value
at (object es) k = find k es
at _ k = err type_error

abbrev at_index : Value → ℕ → Result Value
at_index (items es) i = nth es i
at_index _ i = err type_error

abbrev get_bool : Value → Result Bool
get_bool (flag b) = ok b
get_bool _ = err type_error

abbrev get_uint32 : Value → Result ℕ
get_uint32 (number n) = ok (n % 2 ^ 32)
get_uint32 _ = err type_error

abbrev get_array : Value → Result (List Value)
get_array (items es) = ok (values es)
get_array _ = err type_error

abbrev elements : Value → List Value
elements (items es) = values es
elements (object es) = values es
elements null = []
elements v = v ∷ []

abbrev get_strings : Value → Result (List String)
get_strings (items es) = strings es
get_strings _ = err type_error

abbrev get_string_map : Value → Result (List (String × String))
get_string_map (object es) = pairs es
get_string_map _ = err type_error

abbrev set : Value → String → Value → Result Value
set (object es) k v = ok (object (entry k v es))
set _ k v = err type_error

abbrev pub json : JsonLib Value
json = record {
  contains = contains;
  at = at;
  at_index = at_index;
  kind = kind_of;
  get_string = as_string;
  get_bool = get_bool;
  get_uint32 = get_uint32;
  get_array = get_array;
  get_strings = get_strings;
  get_string_map = get_string_map;
  elements = elements;
  set = set;
  of_bool = flag;
  of_string = text;
  of_array = λ vs. items (of_values vs);
  of_int = integer;
  of_object = λ fs. object (of_fields fs);
}

at_set :
    (d d' v : Value) (k j : String)
    → set d k v ≡ ok d'
    → at d' j ≡ (if k == j then ok v else at d j)
unfolding find
at_set (object es) d' v k j h = ground arith
at_set null d' v k j h = cc
at_set (text s) d' v k j h = cc
at_set (flag b) d' v k j h = cc
at_set (number n) d' v k j h = cc
at_set (items es) d' v k j h = cc
at_set (integer n) d' v k j h = cc

contains_set :
    (d d' v : Value) (k j : String)
    → set d k v ≡ ok d'
    → contains d' j ≡ (if k == j then true else contains d j)
unfolding has
contains_set (object es) d' v k j h = ground arith
contains_set null d' v k j h = cc
contains_set (text s) d' v k j h = cc
contains_set (flag b) d' v k j h = cc
contains_set (number n) d' v k j h = cc
contains_set (items es) d' v k j h = cc
contains_set (integer n) d' v k j h = cc

pub json_laws : JsonLaws json
unfolding of_fields find
json_laws = record {
  at-set = at_set;
  contains-set = contains_set;
  get_bool-of_bool = λ b. refl;
  at-of_object = λ k v. ground (arith, eq_iff k k);
}
