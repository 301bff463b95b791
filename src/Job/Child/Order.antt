-- ===== src/Job/Child/Order.antt =====
-- The order of the calls of a child, and what a child that fails reports.
use relaunchd.Prelude.{
  ℕ, String, ◌≡◌, refl, Bool, false, Option, none, some, ◌∷◌, arith, if◌then◌else◌,
}
use relaunchd.Prelude.Exec.{ok}
use relaunchd.ExecStatus.{
  ExecStatus, ExecErrorCode, ErrorContext, is_success, PipeRead, read_status,
}
use relaunchd.Os.{Os, Call, Trace}
use relaunchd.Manifest.{Manifest}
use relaunchd.Job.Process.{ExecutionContext}
use relaunchd.Job.Child.{
  Child, attempt, attempt_with, replace_fd, become_user, execute_program, start_child_process,
  mask_of,
}

-- the calls, newest first
abbrev pub optional : {A : Type 0} → Option A → (A → Call) → Trace → Trace
optional none c t = t
optional (some a) c t = c a ∷ t

abbrev pub redirection : ℕ → String → Trace → Trace
redirection fd path t = Call.close_file ∷ Call.dup2 fd ∷ Call.open_file path ∷ t

-- groups first, then the group, then the user
abbrev pub identity : Bool → String → ℕ → ℕ → Trace → Trace
identity init_groups user gid uid t =
    Call.setuid uid ∷ Call.setgid gid ∷ (if init_groups then Call.initgroups user gid ∷ t else t)

abbrev pub identity_of : Manifest → ExecutionContext → Trace → Trace
identity_of m ctx t = go m.user_name ctx.gid ctx.uid
  where
    go : Option String → Option ℕ → Option ℕ → Trace
    go (some user) (some gid) (some uid) = identity m.init_groups user gid uid t
    go _ _ _ = t

module _ (os : Os) where
  attempt_ok :
      (c : Call) (code : ExecErrorCode) (context : ErrorContext) (rest : Child) (t u : Trace)
      → attempt os c code context rest t ≡ (ok none, u)
      → rest (c ∷ t) ≡ (ok none, u)
  unfolding attempt
  attempt_ok c code context rest t u h = ground arith

  attempt_with_ok :
      {A : Type 0} (o : Option A) (c : A → Call) (code : ExecErrorCode) (rest : Child) (t u : Trace)
      → attempt_with os o c code rest t ≡ (ok none, u)
      → rest (optional o c t) ≡ (ok none, u)
  unfolding attempt_with
  attempt_with_ok none c code rest t u h = h
  attempt_with_ok (some a) c code rest t u h =
      attempt_ok (c a) code ErrorContext.child_process rest t u h

  replace_fd_ok :
      (fd : ℕ) (path : String) (context : ErrorContext) (rest : Child) (t u : Trace)
      → replace_fd os fd path context rest t ≡ (ok none, u)
      → rest (redirection fd path t) ≡ (ok none, u)
  unfolding replace_fd
  replace_fd_ok fd path context rest t u h = ground arith

  become_user_ok :
      (m : Manifest) (ctx : ExecutionContext) (rest : Child) (t u : Trace)
      → become_user os m ctx rest t ≡ (ok none, u)
      → rest (identity_of m ctx t) ≡ (ok none, u)
  unfolding become_user
  become_user_ok m ctx rest t u h = ground arith

  execute_program_ok :
      (m : Manifest) (t u : Trace)
      → execute_program os m t ≡ (ok none, u)
      → u ≡ Call.execve ∷ Call.allocate ∷ Call.allocate ∷ t
  unfolding execute_program
  execute_program_ok m t u h = ground arith

  -- the calls of a child up to `execve`, after the calls `t`
  abbrev prepared : Manifest → ExecutionContext → Trace → Trace
  prepared m ctx t = identity_of m ctx (
      optional m.root_directory Call.chroot (
        optional m.working_directory Call.chdir
          (optional m.nice Call.setpriority (Call.setsid ∷ Call.umask (mask_of os m.umask) ∷ t))))

  -- If `execve` is reached and replaces the program, the child has made exactly these calls
  -- before: umask, setsid, then for the options that are set the priority, the working directory, the
  -- root directory, the supplementary groups, the group and last the user; then the redirections of the
  -- input, the output and the errors, and two allocations.
  pub start_child_process-order :
      (m : Manifest) (ctx : ExecutionContext) (t u : Trace)
      → start_child_process os m ctx t ≡ (ok none, u)
      → u
        ≡ Call.execve
          ∷ Call.allocate
          ∷ Call.allocate
          ∷ redirection 2 m.stderr_path
              (redirection 1 m.stdout_path (redirection 0 m.stdin_path (prepared m ctx t)))
  unfolding start_child_process
  start_child_process-order m ctx t u h =
      let h1 = attempt_ok _ _ _ _ _ u h in
      let h2 = attempt_with_ok m.nice Call.setpriority _ _ _ u h1 in
      let h3 = attempt_with_ok m.working_directory Call.chdir _ _ _ u h2 in
      let h4 = attempt_with_ok m.root_directory Call.chroot _ _ _ u h3 in
      let h5 = become_user_ok m ctx _ _ u h4 in
      let h6 = replace_fd_ok 0 m.stdin_path _ _ _ u h5 in
      let h7 = replace_fd_ok 1 m.stdout_path _ _ _ u h6 in
      let h8 = replace_fd_ok 2 m.stderr_path _ _ _ u h7 in execute_program_ok m _ u h8

  -- a status that a child reports is never ExecSuccess
  record Reports (m : Child) : Type 0 where
    honest :
        (t : Trace) (status : ExecStatus)
        → (m t).0 ≡ ok (some status)
        → is_success status.error_code ≡ false

  attempt-Reports :
      (c : Call) (code : ExecErrorCode) (context : ErrorContext) (rest : Child)
      → is_success code ≡ false
      → Reports rest
      → Reports (attempt os c code context rest)
  unfolding attempt
  attempt-Reports c code context rest e r = record {
    honest = λ t status h. ground (arith, r.honest (c ∷ t) status);
  }

  attempt_with-Reports :
      {A : Type 0} (o : Option A) (c : A → Call) (code : ExecErrorCode) (rest : Child)
      → is_success code ≡ false
      → Reports rest
      → Reports (attempt_with os o c code rest)
  unfolding attempt_with
  attempt_with-Reports none c code rest e r = r
  attempt_with-Reports (some a) c code rest e r =
      attempt-Reports (c a) code ErrorContext.child_process rest e r

  replace_fd-Reports :
      (fd : ℕ) (path : String) (context : ErrorContext) (rest : Child)
      → Reports rest
      → Reports (replace_fd os fd path context rest)
  unfolding replace_fd
  replace_fd-Reports fd path context rest r = record {
    honest = λ t status h. ground (arith, r.honest (redirection fd path t) status);
  }

  become_user-Reports :
      (m : Manifest) (ctx : ExecutionContext) (rest : Child)
      → Reports rest
      → Reports (become_user os m ctx rest)
  unfolding become_user
  become_user-Reports m ctx rest r = record {
    honest = λ t status h. ground (arith, r.honest (identity_of m ctx t) status);
  }

  execute_program-Reports : (m : Manifest) → Reports (execute_program os m)
  unfolding execute_program
  execute_program-Reports m = record { honest = λ t status h. ground arith }

  -- A status that the child reports is never ExecSuccess, so that the parent never takes a child
  -- that failed for one that runs its program.
  pub start_child_process-failure :
      (m : Manifest) (ctx : ExecutionContext) (t : Trace) (status : ExecStatus)
      → (start_child_process os m ctx t).0 ≡ ok (some status)
      → is_success (read_status (PipeRead.message status)).error_code ≡ false
  unfolding start_child_process read_status
  start_child_process-failure m ctx t status h =
      let reports = attempt-Reports _ _ _ _ refl (
        attempt_with-Reports _ _ _ _ refl (
          attempt_with-Reports _ _ _ _ refl (
            attempt_with-Reports _ _ _ _ refl (
              become_user-Reports m ctx _ (
                replace_fd-Reports _ _ _ _ (
                  replace_fd-Reports _ _ _ _
                    (replace_fd-Reports _ _ _ _ (execute_program-Reports m)))))))) in
      reports.honest (Call.umask (mask_of os m.umask) ∷ t) status h
