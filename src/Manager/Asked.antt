-- ===== src/Manager/Asked.antt =====
-- Manager::unloadAllJobs of src/manager.cc.
use relaunchd.Prelude.{
  sym, ◌∙◌, String, Bool, true, false, ◌&&◌, ◌≡◌, refl, Option, none, some, List, [], ◌∷◌, All, ◌⊎◌,
  inl, inr, arith, Bool-cases, Option-cases, if◌then◌else◌, ◌==◌, string_eq,
}
use mathlib.Core.Path.{subst}
use relaunchd.Prelude.Assoc.{lookup, contains, is_some, lookup-assign}
use relaunchd.Prelude.Exec.{Exec, Result, ok, err, continue}
use relaunchd.Job.{Job}
use relaunchd.Job.Machine.{unload_job}
use relaunchd.Job.Machine.Final.{Refuses, unload_job-request}
use relaunchd.Manager.{Manager, Daemon, on_found, view, with_job}
use relaunchd.Manager.Unload.{wants_unload, unload_one, unload_each, unload_all_jobs}

-- the job refuses any further request to unload it
abbrev IsAskedIn : Option Job → Type 0
IsAskedIn none = Unit
IsAskedIn (some j) = Refuses j

-- the job `label`, if there is one, is unloaded or was asked to unload
pub record IsAsked {I J : Type 0} (s : Manager I J) (label : String) : Type 0 where
  pub asked : IsAskedIn (lookup label s.jobs)

wants_unload-Refuses : (j : Job) → wants_unload j ≡ false → Refuses j
wants_unload-Refuses j h = elim (Bool-cases j.unload_requested) [
  | inl e ↦ inr e
  | inr e ↦ inl (ground arith)
]

module _ {I J : Type 0} (d : Daemon I J) where
  -- whatever the request to unload a job answers
  asked_after :
      (label other : String) (job : Job) (s : Manager I J)
      → lookup label s.jobs ≡ some job
      → let s' = (on_found label job (unload_job d.platform true) s).1 in
        (lookup other s'.jobs ≡ (
          if label == other
          then some (unload_job d.platform true (view job s)).1.job
          else lookup other s.jobs))
  asked_after label other job s h =
      ground
        (arith, h, lookup-assign label other (unload_job d.platform true (view job s)).1.job s.jobs)

  unload_one-jobs :
      (label : String) (job : Job) (s : Manager I J)
      → lookup label s.jobs ≡ some job
      → wants_unload job ≡ true
      → (unload_one d label s).1 ≡ (on_found label job (unload_job d.platform true) s).1
  unfolding unload_one with_job
  unload_one-jobs label job s h w = ground arith

  -- a request to unload `label`, and what it leaves of `other`
  IsAsked-one :
      (label other : String) (job : Job) (s : Manager I J)
      → lookup label s.jobs ≡ some job
      → wants_unload job ≡ true
      → ((label == other) ≡ true) ⊎ IsAsked s other
      → IsAsked (unload_one d label s).1 other
  IsAsked-one label other job s h w asked = record {
    asked =
        rw (unload_one-jobs label job s h w, asked_after label other job s h)
          (elim (Bool-cases (label == other)) [
            | inl same ↦ rw same (unload_job-request d.platform true (view job s))
            | inr other_label ↦
                rw other_label
                  (elim asked [ inl e ↦ absurd (cc (e, other_label)) | inr a ↦ a.asked ])
          ]);
  }

  unload_one-skip :
      (label : String) (s : Manager I J)
      → lookup label s.jobs ≡ none
      → unload_one d label s ≡ (ok true, s)
  unfolding unload_one
  unload_one-skip label s h = ground arith

  unload_one-unwanted :
      (label : String) (job : Job) (s : Manager I J)
      → lookup label s.jobs ≡ some job
      → wants_unload job ≡ false
      → unload_one d label s ≡ (ok true, s)
  unfolding unload_one
  unload_one-unwanted label job s h w = ground arith

  unload_one-IsAsked :
      (label other : String) (s : Manager I J)
      → ((label == other) ≡ true) ⊎ IsAsked s other
      → IsAsked (unload_one d label s).1 other
  unload_one-IsAsked label other s asked = elim (Option-cases (lookup label s.jobs)) [
    | inl missing ↦ rw (unload_one-skip label s missing) (elim asked [
      | inl e ↦ record { asked = rw (sym ((string_eq.equals_iff label other).0 e), missing) tt }
      | inr a ↦ a
    ])
    | inr (job, h) ↦ elim (Bool-cases (wants_unload job)) [
      | inl w ↦ IsAsked-one label other job s h w asked
      | inr w ↦ rw (unload_one-unwanted label job s h w) (elim asked [
        | inl e ↦ record {
          asked = rw (sym ((string_eq.equals_iff label other).0 e), h) (wants_unload-Refuses job w);
        }
        | inr a ↦ a
      ])
    ]
  ]

  continue-IsAsked :
      {A B : Type 0} (r : Result A) (f : A → Exec (Manager I J) B) (other : String)
      (t : Manager I J)
      → IsAsked t other
      → ((a : A) → r ≡ ok a → IsAsked (f a t).1 other)
      → IsAsked (continue r f t).1 other
  continue-IsAsked (ok a) f other t h k = k a refl
  continue-IsAsked (err x) f other t h k = h

  unload_each-IsAsked :
      (entries : List (String × Job)) (success : Bool) (other : String) (s : Manager I J)
      → IsAsked s other
      → IsAsked (unload_each d entries success s).1 other
  unfolding unload_each
  unload_each-IsAsked [] success other s a = a
  unload_each-IsAsked ((label, j) ∷ rest) success other s a =
      let t = (unload_one d label s).1 in
      let asked = unload_one-IsAsked label other s (inr a) in
      continue-IsAsked (unload_one d label s).0 _ other t asked
        (λ done _. unload_each-IsAsked rest (success && done) other t asked)

  abbrev AllAsked : List (String × Job) → Manager I J → Type 0
  AllAsked entries s = All (λ entry. IsAsked s entry.0) entries

  returned :
      {A B : Type 0} (r : Result A) (f : A → Exec (Manager I J) B) (t : Manager I J) (b : B)
      → (continue r f t).0 ≡ ok b
      → (a : A) × ((f a t).0 ≡ ok b) × ((f a t).1 ≡ (continue r f t).1)
  returned (ok a) f t b h = (a, h, refl)
  returned (err x) f t b h = cc

  unload_each-AllAsked :
      (entries : List (String × Job)) (success b : Bool) (s : Manager I J)
      → (unload_each d entries success s).0 ≡ ok b
      → AllAsked entries (unload_each d entries success s).1
  unfolding unload_each
  unload_each-AllAsked [] success b s h = tt
  unload_each-AllAsked ((label, j) ∷ rest) success b s h =
      let t = (unload_one d label s).1 in
      let (done, i, e) =
        returned (unload_one d label s).0 (λ done. unload_each d rest (success && done)) t b h in
      let asked =
        unload_one-IsAsked label label s (inl ((string_eq.equals_iff label label).1 refl)) in
      subst (AllAsked ((label, j) ∷ rest)) e (
        unload_each-IsAsked rest (success && done) label t asked,
        unload_each-AllAsked rest (success && done) b t i,
      )

  All-contained :
      (entries : List (String × Job)) (label : String) (t : Manager I J)
      → contains label entries ≡ true
      → AllAsked entries t
      → IsAskedIn (lookup label t.jobs)
  unfolding lookup
  All-contained [] label t k a = cc
  All-contained ((other, j) ∷ rest) label t k (first, later) = elim (Bool-cases (other == label)) [
    | inl same ↦ rw (sym ((string_eq.equals_iff other label).0 same)) first.asked
    | inr differs ↦ All-contained rest label t (ground (arith, k, differs)) later
  ]

  unload_one-contains :
      (label other : String) (s : Manager I J)
      → contains other (unload_one d label s).1.jobs ≡ contains other s.jobs
  unload_one-contains label other s = elim (Option-cases (lookup label s.jobs)) [
    | inl missing ↦ rw (unload_one-skip label s missing) refl
    | inr (job, h) ↦ elim (Bool-cases (wants_unload job)) [
      | inl w ↦ ground (
        arith,
        h,
        string_eq.equals_iff label other,
        unload_one-jobs label job s h w,
        asked_after label other job s h,
      )
      | inr w ↦ rw (unload_one-unwanted label job s h w) refl
    ]
  ]

  continue-contains :
      {A B : Type 0} (r : Result A) (f : A → Exec (Manager I J) B) (label : String)
      (t : Manager I J)
      → ((a : A) → contains label (f a t).1.jobs ≡ contains label t.jobs)
      → contains label (continue r f t).1.jobs ≡ contains label t.jobs
  continue-contains (ok a) f label t k = k a
  continue-contains (err x) f label t k = refl

  unload_each-contains :
      (entries : List (String × Job)) (success : Bool) (label : String) (s : Manager I J)
      → contains label (unload_each d entries success s).1.jobs ≡ contains label s.jobs
  unfolding unload_each
  unload_each-contains [] success label s = refl
  unload_each-contains ((other, j) ∷ rest) success label s =
      let t = (unload_one d other s).1 in
      continue-contains (unload_one d other s).0 _ label t
        (λ done. unload_each-contains rest (success && done) label t)
      ∙ unload_one-contains other label s

  unload_all_jobs-contains :
      (s : Manager I J) (label : String)
      → contains label (unload_all_jobs d s).1.jobs ≡ contains label s.jobs
  unfolding unload_all_jobs
  unload_all_jobs-contains s label = ground (arith, unload_each-contains s.jobs true label s)

  asked_entries :
      (s : Manager I J) (b : Bool)
      → (unload_all_jobs d s).0 ≡ ok b
      → AllAsked s.jobs (unload_all_jobs d s).1
  unfolding unload_all_jobs
  asked_entries s b h = unload_each-AllAsked s.jobs true b s (ground arith)

  found_asked :
      (o : Option Job) → is_some o ≡ true → IsAskedIn o → (j : Job) × (o ≡ some j) × Refuses j
  found_asked none h a = cc
  found_asked (some j) h a = (j, refl, a)

  -- After `unloadAllJobs` each label that named a job of the manager still names one, which is unloaded
  -- or was asked to unload, whatever its own `unloadJob` answered or threw, short of an abort of the
  -- program.
  pub unload_all_jobs-IsAsked :
      (s : Manager I J) (b : Bool) (label : String)
      → (unload_all_jobs d s).0 ≡ ok b
      → contains label s.jobs ≡ true
      → (job : Job) × (lookup label (unload_all_jobs d s).1.jobs ≡ some job) × Refuses job
  unload_all_jobs-IsAsked s b label h k =
      let t = (unload_all_jobs d s).1 in
      found_asked (lookup label t.jobs) (unload_all_jobs-contains s label ∙ k)
        (All-contained s.jobs label t k (asked_entries s b h))
