-- ===== src/ExecStatus/Pipe.antt =====
-- class ExecMonitor of src/exec_monitor.h: the two ends of the pipe between a parent and its child.
-- The calls are recorded, newest first; what they answer is a parameter.
use relaunchd.Prelude.{
  Bool, true, false, not, ◌&&◌, ◌||◌, Option, none, some, List, [], ◌∷◌, ◌==◌, if◌then◌else◌,
}
use relaunchd.Prelude.Exec.{
  Exec, ok, err, modify, ◌>>◌, logic_error, system_error, assertion_failed,
}
use relaunchd.Prelude.Int.{ℤ, pos, minus_one, int_eq, is_negative}
use relaunchd.ExecStatus.{ExecStatus}

pub data PipeCall : Type 0 where
  pipe : PipeCall
  fcntl_cloexec close : ℤ → PipeCall
  write : ℤ → ExecStatus → PipeCall

pub record PipeOs : Type 0 where
  -- the descriptors of a new pipe
  pub pipe_answer : List PipeCall → Option (ℤ × ℤ)
  pub fcntl_fails : List PipeCall → ℤ → Bool

-- `pfd[0]` and `pfd[1]`
pub record ExecMonitor : Type 0 where
  pub reader : ℤ
  pub writer : ℤ
  pub calls : List PipeCall

abbrev pub new_monitor : ExecMonitor
new_monitor = record { reader = minus_one; writer = minus_one; calls = [] }

abbrev note : PipeCall → Exec ExecMonitor Unit
note c = modify (λ s. record s { calls = c ∷ s.calls })

abbrev close_both : ExecMonitor → ExecMonitor
close_both s = record {
  reader = minus_one;
  writer = minus_one;
  calls = PipeCall.close s.writer ∷ PipeCall.close s.reader ∷ s.calls;
}

module _ (os : PipeOs) where
  -- the two calls of `fcntl`
  unfoldable pub set_cloexec : ℤ → ℤ → Exec ExecMonitor Unit
  set_cloexec fd next s =
      let t = record s { calls = PipeCall.fcntl_cloexec fd ∷ s.calls } in
      let u = record t { calls = PipeCall.fcntl_cloexec next ∷ t.calls } in
      if os.fcntl_fails s.calls fd
      then (err system_error, close_both t)
      else if os.fcntl_fails t.calls next
      then (err system_error, close_both u)
      else (ok tt, u)

  -- createPipe
  unfoldable pub create_pipe : Exec ExecMonitor Unit
  unfolding set_cloexec
  create_pipe s =
      if not (is_negative s.reader) || not (is_negative s.writer)
      then (err logic_error, s)
      else (elim (os.pipe_answer s.calls) [
        | none ↦ (err system_error, record s { calls = PipeCall.pipe ∷ s.calls })
        | some (fd, next) ↦
            set_cloexec fd next
              (record { reader = fd; writer = next; calls = PipeCall.pipe ∷ s.calls })
      ])

-- closePipe
unfoldable pub close_reader : Exec ExecMonitor Unit
close_reader s =
    if is_negative s.reader
    then (ok tt, s)
    else (ok tt, record s { reader = minus_one; calls = PipeCall.close s.reader ∷ s.calls })

unfoldable pub close_writer : Exec ExecMonitor Unit
close_writer s =
    if is_negative s.writer
    then (ok tt, s)
    else (ok tt, record s { writer = minus_one; calls = PipeCall.close s.writer ∷ s.calls })

unfoldable pub close_pipe : Exec ExecMonitor Unit
unfolding close_reader close_writer
close_pipe = close_reader >> close_writer

-- becomeChild
unfoldable pub become_child : Exec ExecMonitor Unit
unfolding close_reader
become_child s = if is_negative s.reader then (err assertion_failed, s) else close_reader s

-- becomeParent
unfoldable pub become_parent : Exec ExecMonitor Unit
unfolding close_writer
become_parent s = if is_negative s.writer then (err assertion_failed, s) else close_writer s

-- getReaderFd
unfoldable pub get_reader_fd : Exec ExecMonitor ℤ
get_reader_fd s = if is_negative s.reader then (err logic_error, s) else (ok s.reader, s)

-- writeStatus: a failure is only logged
unfoldable pub write_status : ExecStatus → Exec ExecMonitor Unit
write_status status s = note (PipeCall.write s.writer status) s

abbrev positive : ℤ → Bool
positive fd = not (is_negative fd) && not (fd == pos 0)

abbrev close_if : Bool → ℤ → List PipeCall → List PipeCall
close_if true fd calls = PipeCall.close fd ∷ calls
close_if false fd calls = calls

-- ~ExecMonitor: unlike closePipe it leaves the descriptor 0 open
unfoldable pub destroy : ExecMonitor → List PipeCall
destroy s = close_if (positive s.writer) s.writer (close_if (positive s.reader) s.reader s.calls)
