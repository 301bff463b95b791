-- ===== src/ExecStatus.antt =====
-- src/exec_monitor.h: the message of a child process to its parent, and the pipe that carries it.
pub mod Pipe
use relaunchd.Prelude.{ℕ, String, Bool, true, false, nat_eq}

pub data ExecErrorCode : Type 0 where
  exec_success create_session_failed set_working_directory_failed set_root_directory_failed :
      ExecErrorCode
  set_priority_failed init_groups_failed set_group_id_failed set_login_failed : ExecErrorCode
  set_user_id_failed open_failed read_failed close_failed dup2_failed : ExecErrorCode
  memory_allocation_failed exec_failed fork_handler_failed : ExecErrorCode

pub data ErrorContext : Type 0 where
  child_process redirect_stdin redirect_stdout redirect_stderr parent_process : ErrorContext

pub record ExecStatus : Type 0 where
  pub error_code : ExecErrorCode
  pub saved_errno : ℕ
  pub error_context : ErrorContext

-- ExecStatus::getErrorCode
unfoldable pub get_error_code : ExecErrorCode → String
get_error_code ExecErrorCode.exec_success = "ExecSuccess"
get_error_code ExecErrorCode.create_session_failed = "CreateSessionFailed"
get_error_code ExecErrorCode.set_working_directory_failed = "SetWorkingDirectoryFailed"
get_error_code ExecErrorCode.set_root_directory_failed = "SetRootDirectoryFailed"
get_error_code ExecErrorCode.set_priority_failed = "SetPriorityFailed"
get_error_code ExecErrorCode.init_groups_failed = "InitGroupsFailed"
get_error_code ExecErrorCode.set_group_id_failed = "SetGroupIdFailed"
get_error_code ExecErrorCode.set_login_failed = "SetLoginFailed"
get_error_code ExecErrorCode.set_user_id_failed = "SetUserIdFailed"
get_error_code ExecErrorCode.open_failed = "OpenFailed"
get_error_code ExecErrorCode.read_failed = "ReadFailed"
get_error_code ExecErrorCode.close_failed = "CloseFailed"
get_error_code ExecErrorCode.dup2_failed = "Dup2Failed"
get_error_code ExecErrorCode.memory_allocation_failed = "MemoryAllocationFailed"
get_error_code ExecErrorCode.exec_failed = "ExecFailed"
get_error_code ExecErrorCode.fork_handler_failed = "ForkHandlerFailed"

abbrev pub is_success : ExecErrorCode → Bool
is_success ExecErrorCode.exec_success = true
is_success _ = false

-- What `read` on the pipe answers: it failed, the other end is closed, some bytes that are too few,
-- or a whole message.
pub data PipeRead : Type 0 where
  failed : ℕ → PipeRead
  end_of_file short_read : PipeRead
  message : ExecStatus → PipeRead

-- ExecMonitor::readStatus
unfoldable pub read_status : PipeRead → ExecStatus
read_status (failed errno) = record {
  error_code = ExecErrorCode.read_failed;
  saved_errno = errno;
  error_context = ErrorContext.parent_process;
}
read_status end_of_file = record {
  error_code = ExecErrorCode.exec_success;
  saved_errno = 0;
  error_context = ErrorContext.parent_process;
}
read_status short_read = record {
  error_code = ExecErrorCode.read_failed;
  saved_errno = 0;
  error_context = ErrorContext.parent_process;
}
read_status (message status) = status
