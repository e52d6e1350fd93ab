-- ===== src/Kernel/Constants.antt =====
-- sorgente/disastrOS_constants.h: limits, signals, error codes, system call numbers, open modes.
pub mod Error
pub mod Call
use disastr_os_semaphores.Base.{ℕ, ◌*◌}

abbrev pub max_num_processes : ℕ
max_num_processes = 1024

abbrev pub max_num_resources : ℕ
max_num_resources = 1024

abbrev pub max_num_semaphores : ℕ
max_num_semaphores = 1024

abbrev pub max_num_descriptors : ℕ
max_num_descriptors = 32 * max_num_processes

abbrev pub sigchld : ℕ
sigchld = 1

abbrev pub sighup : ℕ
sighup = 2

abbrev pub max_syscalls : ℕ
max_syscalls = 32

-- Bits of the mode of `disastrOS_openResource`.
abbrev pub mode_create : ℕ
mode_create = 1

abbrev pub mode_excl : ℕ
mode_excl = 4
