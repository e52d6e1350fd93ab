-- ===== src/Kernel/Trap/Tests.antt =====
-- The theorem on `disastrOS_syscall` at a call that has no handler.
use disastr_os_semaphores.Kernel.{System}
use disastr_os_semaphores.Kernel.Constants.Error
use disastr_os_semaphores.Kernel.Tests.{loaded}

abbrev caller : System
caller = record loaded { running = 1 }
