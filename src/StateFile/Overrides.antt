-- ===== src/StateFile/Overrides.antt =====
-- The "Overrides" of the state file: Manager::overrideJobEnabled of src/manager.cc and the test that
-- Job::isDisabled of src/job.cc and Manager::loadManifest make.
use relaunchd.Prelude.{
  String, ◌≡◌, Bool-cases, inl, inr, refl, Bool, true, Option, none, some, [], ◌∷◌, ◌==◌, string_eq,
  if◌then◌else◌, arith,
}
use relaunchd.Prelude.Exec.{Exec, Result, ok, err}
use relaunchd.Prelude.Throw.{◌>>=◌, >>=-eq-ok}
use relaunchd.Json.{JsonLib, JsonLaws}
use relaunchd.StateFile.{StateFile, FileSystem, set_value}

module _ {J : Type 0} (lib : JsonLib J) where
  open lib use {contains, at, set, get_bool, of_bool, of_object}

  -- the entry of a label among the overrides; `none` where it has none
  unfoldable pub entry_of : String → J → Result (Option Bool)
  entry_of label overrides =
      if contains overrides label
      then (do entry ← at overrides label; v ← at entry "Enabled"; b ← get_bool v; ok (some b))
      else ok none

  -- `state.at("Overrides").contains(label)`, `state["Overrides"][label].at("Enabled")`
  unfoldable pub override_of : String → J → Result (Option Bool)
  unfolding entry_of
  override_of label doc = do overrides ← at doc "Overrides"; entry_of label overrides

  unfoldable pub edit : String → Bool → J → Result J
  edit label enabled overrides =
      if contains overrides label
      then (do
        entry ← at overrides label
        entry' ← set entry "Enabled" (of_bool enabled)
        set overrides label entry')
      else set overrides label (of_object (("Enabled", of_bool enabled) ∷ []))

  -- the document that `overrideJobEnabled` writes
  unfoldable pub with_override : String → Bool → J → Result J
  unfolding edit
  with_override label enabled doc = do
    overrides ← at doc "Overrides"
    overrides' ← edit label enabled overrides
    set doc "Overrides" overrides'

  -- Manager::overrideJobEnabled
  unfoldable pub override_job_enabled :
      Option (FileSystem J) → Bool → String → Bool → Exec (StateFile J) (Unit {0})
  unfolding with_override set_value
  override_job_enabled failure renamed label enabled s =
      elim (with_override label enabled s.current_value) [
        | ok doc ↦ set_value failure renamed doc s
        | err x ↦ (err x, s)
      ]

  module _ (laws : JsonLaws lib) where
    entry_of-set :
        (label other : String) (enabled : Bool) (o o' entry : J)
        → set o label entry ≡ ok o'
        → at entry "Enabled" ≡ ok (of_bool enabled)
        → entry_of other o' ≡ (if label == other then ok (some enabled) else entry_of other o)
    unfolding entry_of
    entry_of-set label other enabled o o' entry h e = ground (
      arith,
      laws.at-set o o' entry label other h,
      laws.contains-set o o' entry label other h,
      laws.get_bool-of_bool enabled,
    )

    entry_of-edit :
        (label other : String) (enabled : Bool) (o o' : J)
        → edit label enabled o ≡ ok o'
        → entry_of other o' ≡ (if label == other then ok (some enabled) else entry_of other o)
    unfolding edit
    entry_of-edit label other enabled o o' h = elim (Bool-cases (contains o label)) [
      | inl c ↦ present c (rw c at h)
      | inr c ↦
          entry_of-set label other enabled o o' _ (rw c at h)
            (laws.at-of_object "Enabled" (of_bool enabled))
    ]
      where
        present :
            contains o label ≡ true
            → (at o label >>= λ entry.
                set entry "Enabled" (of_bool enabled) >>= λ entry'. set o label entry')
              ≡ ok o'
            → entry_of other o' ≡ (if label == other then ok (some enabled) else entry_of other o)
        present c p =
            let (entry, _, q) = >>=-eq-ok (at o label) _ p in
            let (entry', r, t) = >>=-eq-ok (set entry "Enabled" (of_bool enabled)) _ q in
            entry_of-set label other enabled o o' entry' t
              (rw (laws.at-set entry entry' (of_bool enabled) "Enabled" "Enabled" r) refl)

    -- After `overrideJobEnabled` has edited the document, the override of its label is the value that
    -- was written, and that of every other label is what it was. What a look-up throws on a document
    -- that is not of this shape stays as it was, too.
    pub override_of-with_override :
        (label other : String) (enabled : Bool) (doc doc' : J)
        → with_override label enabled doc ≡ ok doc'
        → override_of other doc'
          ≡ (if label == other then ok (some enabled) else override_of other doc)
    unfolding override_of with_override
    override_of-with_override label other enabled doc doc' h =
        let (o, p, q) = >>=-eq-ok (at doc "Overrides") _ h in
        let (o', r, t) = >>=-eq-ok (edit label enabled o) _ q in
        rw (p, laws.at-set doc doc' o' "Overrides" "Overrides" t)
          (unfold entry_of in entry_of-edit label other enabled o o' r)
