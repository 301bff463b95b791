-- ===== src/Manifest/WellFormed.antt =====
-- What holds of every manifest that `from_json` accepts, and what it refuses.
use relaunchd.Prelude.{
  not, ◌||◌, String, ◌≡◌, ◌≢◌, refl, Bool, true, false, Option, none, some, List, [], ◌∷◌, All,
  arith, string_eq, if◌then◌else◌, sym,
}
use mathlib.Core.Path.{subst}
use text.Mathlib.TextEquality.{eq_iff}
use relaunchd.Prelude.Assoc.{is_some}
use relaunchd.Prelude.Exec.{Result, ok, err, ok_injective}
use relaunchd.Prelude.Text.{codes}
use relaunchd.Prelude.Throw.{◌>>=◌, >>=-eq-ok}
use relaunchd.Json.{JsonLib}
use relaunchd.Manifest.{
  Label, Manifest, has_slash, new_label, rectify, validate, read, refuse, steps, run_steps, finish,
  from_json, default_manifest, label_value, put_always,
}

-- a manifest that can be run
pub record IsWellFormed (m : Manifest) : Type 0 where
  pub named : m.label.value ≢ ""
  pub has_program : is_some m.program ≡ true
  pub has_arguments : m.program_arguments ≢ []
  pub group_needs_user : (not (is_some m.group_name) || is_some m.user_name) ≡ true

rectify-program : (m m' : Manifest) → rectify m ≡ ok m' → is_some m'.program ≡ true
unfolding rectify
rectify-program m m' h = ground arith

rectify-arguments : (m m' : Manifest) → rectify m ≡ ok m' → m'.program_arguments ≢ []
unfolding rectify
rectify-arguments m m' h = ground arith

rectify-label : (m m' : Manifest) → rectify m ≡ ok m' → m'.label ≡ m.label
unfolding rectify
rectify-label m m' h = ground arith

validate-label : (m : Manifest) → validate m ≡ ok true → m.label.value ≢ ""
unfolding validate
validate-label m h = ground (arith, eq_iff m.label.value "")

validate-group :
    (m : Manifest)
    → validate m ≡ ok true
    → (not (is_some m.group_name) || is_some m.user_name) ≡ true
unfolding validate
validate-group m h = ground arith

finish_inv :
    {J : Type 0} (lib : JsonLib J) (j : J) (m m' : Manifest)
    → finish lib j m ≡ ok m'
    → (rectify m ≡ ok m') × (validate m' ≡ ok true)
unfolding finish
finish_inv lib j m m' h = ground arith

-- The label of a manifest under construction: still empty, or accepted by `Label`.
abbrev HasNoSlash : Manifest → Type 0
HasNoSlash m = has_slash (codes m.label.value) ≡ false

new_label-HasNoSlash :
    (s : String) (l : Label) → new_label s ≡ ok l → has_slash (codes l.value) ≡ false
unfolding new_label
new_label-HasNoSlash s l h = ground arith

-- `P` holds of the result, if there is one.
abbrev Holds : (Manifest → Type 0) → Result Manifest → Type 0
Holds P (ok m) = P m
Holds P (err x) = Unit

Holds-bind :
    {A : Type 0} (P : Manifest → Type 0) (r : Result A) (f : A → Result Manifest)
    → ((a : A) → r ≡ ok a → Holds P (f a))
    → Holds P (r >>= f)
Holds-bind P (ok a) f h = h a refl
Holds-bind P (err x) f h = tt

Holds-if :
    (P : Manifest → Type 0) (b : Bool) (r s : Result Manifest)
    → Holds P r
    → Holds P s
    → Holds P (if b then r else s)
Holds-if P true r s hr hs = hr
Holds-if P false r s hr hs = hs

Holds-ok : (P : Manifest → Type 0) (r : Result Manifest) (m : Manifest) → Holds P r → r ≡ ok m → P m
Holds-ok P (ok m') m h e = subst P (ok_injective e) h
Holds-ok P (err x) m h e = cc

record Keeps (P : Manifest → Type 0) (f : Manifest → Result Manifest) : Type 0 where
  at : (m : Manifest) → P m → Holds P (f m)

module _ {J : Type 0} (lib : JsonLib J) (j : J) where
  read-Keeps :
      {P : Manifest → Type 0} {A : Type 0} (key : String) (get : J → Result A)
      (put : A → Manifest → Manifest)
      → ((v : J) (x : A) (m : Manifest) → get v ≡ ok x → P m → P (put x m))
      → Keeps P (read lib j key get put)
  unfolding read
  read-Keeps {P} key get put keep = record {
    at = λ m p.
        Holds-if P (lib.contains j key) _ _
          (Holds-bind P (lib.at j key) _ (λ v _. Holds-bind P (get v) _ (λ x e. keep v x m e p))) p;
  }

  refuse-Keeps : {P : Manifest → Type 0} (key : String) → Keeps P (refuse lib j key)
  unfolding refuse
  refuse-Keeps {P} key = record { at = λ m p. Holds-if P (lib.contains j key) _ _ tt p }

  run_steps-Keeps :
      {P : Manifest → Type 0} (fs : List (Manifest → Result Manifest))
      → All (Keeps P) fs
      → Keeps P (run_steps lib j fs)
  unfolding run_steps
  run_steps-Keeps [] k = record { at = λ m p. p }
  run_steps-Keeps {P} (f ∷ fs) k = record {
    at = λ m p.
        Holds-bind P (f m) _
          λ m' e. (run_steps-Keeps fs k.1).at m' (Holds-ok P (f m) m' (k.0.at m p) e);
  }

  label_value-HasNoSlash :
      (v : J) (l : Label) → label_value lib j v ≡ ok l → has_slash (codes l.value) ≡ false
  label_value-HasNoSlash v l h =
      let (s, _, e) = >>=-eq-ok (lib.get_string v) new_label h in new_label-HasNoSlash s l e

  put_always-HasNoSlash :
      (o : Option Bool) (m : Manifest) → HasNoSlash m → HasNoSlash (put_always lib j o m)
  put_always-HasNoSlash none m p = p
  put_always-HasNoSlash (some b) m p = p

  kept :
      {A : Type 0} (key : String) (get : J → Result A) (put : A → Manifest → Manifest)
      → ((x : A) (m : Manifest) → HasNoSlash m → HasNoSlash (put x m))
      → Keeps HasNoSlash (read lib j key get put)
  kept key get put keep = read-Keeps key get put (λ v x m _ p. keep x m p)

  steps-HasNoSlash : All (Keeps HasNoSlash) (steps lib j)
  unfolding steps
  steps-HasNoSlash = (
    read-Keeps _ _ _ (λ v x m e _. label_value-HasNoSlash v x e),
    search (kept, refuse-Keeps, put_always-HasNoSlash),
  )

  pub from_json-inv :
      (m : Manifest)
      → from_json lib j ≡ ok m
      → (m' : Manifest) × (run_steps lib j (steps lib j) default_manifest ≡ ok m')
        × (finish lib j m' ≡ ok m)
  unfolding from_json
  from_json-inv m h = >>=-eq-ok (run_steps lib j (steps lib j) default_manifest) (finish lib j) h

  -- A manifest that `from_json` returns has a label, a program, at least one program argument, and a
  -- user if it has a group.
  pub from_json-IsWellFormed : (m : Manifest) → from_json lib j ≡ ok m → IsWellFormed m
  from_json-IsWellFormed m h =
      let (m', _, e) = from_json-inv m h in
      let (r, v) = finish_inv lib j m' m e in
      record {
        named = validate-label m v;
        has_program = rectify-program m' m r;
        has_arguments = rectify-arguments m' m r;
        group_needs_user = validate-group m v;
      }

  -- The label of a manifest that `from_json` returns has no slash in it.
  pub from_json-HasNoSlash : (m : Manifest) → from_json lib j ≡ ok m → HasNoSlash m
  unfolding has_slash
  from_json-HasNoSlash m h =
      let (m', s, e) = from_json-inv m h in
      let (r, v) = finish_inv lib j m' m e in
      subst (λ (l : Label). has_slash (codes l.value) ≡ false) (sym (rectify-label m' m r))
        (Holds-ok HasNoSlash (run_steps lib j (steps lib j) default_manifest) m'
          ((run_steps-Keeps (steps lib j) steps-HasNoSlash).at default_manifest refl) s)
