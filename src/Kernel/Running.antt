-- ===== src/Kernel/Running.antt =====
-- What each handler of a system call does with `running`: it reads the arguments, and writes the
-- value that the system call returns.
use disastr_os_semaphores.Base.{ℕ, Bool, true, false, ◌==◌, ◌/◌, ◌%◌}
use disastr_os_semaphores.Base.Int.{ℤ, pos, negsuc}
use disastr_os_semaphores.PoolAllocator.{PoolAllocatorResult, success, narrow}
use disastr_os_semaphores.Kernel.{ProcessStatus, zombie, waiting}
use disastr_os_semaphores.Kernel.Cmd.{Cmd, pure, get, put, ◌>>=◌, load, modify, pcbs}

-- The pointer `running` itself.
abbrev pub running_pcb : Cmd ℕ
running_pcb = do s ← get; pure s.running

abbrev pub set_running : ℕ → Cmd (Unit {0})
set_running p = put (λ s. record s { running = p })

-- `running->syscall_args[i]`
unfoldable pub argument : ℕ → Cmd ℤ
argument i = do me ← running_pcb; pcb ← load pcbs me; pure (pcb.syscall_args i)

-- `running->syscall_retvalue=v;`
unfoldable pub return_value : ℤ → Cmd (Unit {0})
return_value v = do me ← running_pcb; modify pcbs me (λ pcb. record pcb { syscall_retvalue = v })

-- `int x = running->syscall_args[i];`, which narrows the argument.
unfoldable pub int_argument : ℕ → Cmd ℤ
unfolding argument
int_argument i = do v ← argument i; pure (narrow v)

-- `p->status=status;`
unfoldable pub set_status : ℕ → ProcessStatus → Cmd (Unit {0})
set_status p status = modify pcbs p (λ pcb. record pcb { status = status })

abbrev pub is_zombie : ProcessStatus → Bool
is_zombie zombie = true
is_zombie _ = false

abbrev pub is_waiting : ProcessStatus → Bool
is_waiting waiting = true
is_waiting _ = false

-- `! ret`, for the result of a release
abbrev pub is_success : PoolAllocatorResult → Bool
is_success success = true
is_success _ = false

-- `v & bit`, where `bit` is a power of two and `v` is in two's complement.
abbrev pub has_bit : ℤ → ℕ → Bool
has_bit (pos n) bit = (n / bit) % 2 == 1
has_bit (negsuc n) bit = (n / bit) % 2 == 0
