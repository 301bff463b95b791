-- ===== src/Manifest/Refused.antt =====
-- What `from_json` refuses: the keys that are not supported, and a Umask given as a JSON number.
use relaunchd.Prelude.{
  ℕ, zero, suc, String, ◌≡◌, ◌≢◌, refl, true, false, some, List, [], ◌∷◌, All, arith, get_elem?,
}
use relaunchd.Prelude.Exec.{Result, ok}
use relaunchd.Prelude.Throw.{>>=-eq-ok}
use relaunchd.Json.{JsonLib, Kind}
use relaunchd.Manifest.{
  Manifest, read, refuse, steps, run_steps, from_json, default_manifest, unsupported_keys,
  umask_value,
}
use relaunchd.Manifest.WellFormed.{from_json-inv}

module _ {J : Type 0} (lib : JsonLib J) (j : J) where
  -- every step of a successful run returned
  run_steps-step :
      (fs : List (Manifest → Result Manifest)) (n : ℕ) (f : Manifest → Result Manifest)
      (m m' : Manifest)
      → get_elem? fs n ≡ some f
      → run_steps lib j fs m ≡ ok m'
      → (a : Manifest) × (b : Manifest) × (f a ≡ ok b)
  unfolding run_steps
  run_steps-step [] n f m m' e h = cc
  run_steps-step (g ∷ fs) zero f m m' e h =
      let (b, p, _) = >>=-eq-ok (g m) (run_steps lib j fs) h in (m, b, cc)
  run_steps-step (g ∷ fs) (suc n) f m m' e h =
      let (b, _, q) = >>=-eq-ok (g m) (run_steps lib j fs) h in run_steps-step fs n f b m' e q

  refuse_inv :
      (key : String) (a b : Manifest) → refuse lib j key a ≡ ok b → lib.contains j key ≡ false
  unfolding refuse
  refuse_inv key a b h = ground arith

  -- the key of a step that refuses it
  absent_at :
      (n : ℕ) (key : String) (m : Manifest)
      → get_elem? (steps lib j) n ≡ some (refuse lib j key)
      → from_json lib j ≡ ok m
      → lib.contains j key ≡ false
  absent_at n key m e h =
      let (m', s, _) = from_json-inv lib j m h in
      let (a, b, p) = run_steps-step (steps lib j) n (refuse lib j key) default_manifest m' e s in
      refuse_inv key a b p

  -- If `from_json` returns a manifest, the document has none of the six keys that are not supported.
  pub from_json_supported :
      (m : Manifest) → from_json lib j ≡ ok m → All (λ k. lib.contains j k ≡ false) unsupported_keys
  unfolding steps
  from_json_supported m h = (
    absent_at 5 "EnableGlobbing" m refl h,
    (
      absent_at 17 "WatchPaths" m refl h,
      (
        absent_at 18 "QueueDirectories" m refl h,
        (
          absent_at 19 "StartOnMount" m refl h,
          (absent_at 24 "StartCalendarInterval" m refl h, (absent_at 26 "Sockets" m refl h, tt)),
        ),
      ),
    ),
  )

  umask_inv :
      (v : J) (a b : Manifest) (put : ℕ → Manifest → Manifest)
      → read lib j "Umask" (umask_value lib j) put a ≡ ok b
      → lib.contains j "Umask" ≡ true
      → lib.at j "Umask" ≡ ok v
      → lib.kind v ≢ Kind.number_unsigned
  unfolding read umask_value
  umask_inv v a b put h c e k = ground arith

  -- A document whose Umask is an unsigned number, which is what the parser makes of a number without
  -- a sign, is never accepted.
  pub from_json-Umask :
      (m : Manifest) (v : J)
      → lib.contains j "Umask" ≡ true
      → lib.at j "Umask" ≡ ok v
      → lib.kind v ≡ Kind.number_unsigned
      → from_json lib j ≢ ok m
  unfolding steps
  from_json-Umask m v c e k h =
      let (m', s, _) = from_json-inv lib j m h in
      let (a, b, p) = run_steps-step (steps lib j) 10 _ default_manifest m' refl s in
      umask_inv v a b (λ x m. record m { umask = some x }) p c e k
