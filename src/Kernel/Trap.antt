-- ===== src/Kernel/Trap.antt =====
-- The ways into the kernel, of sorgente/disastrOS.c: `disastrOS_syscall` with the trap that it
-- leads to, the wrappers of the system calls, and the timer interrupt. A switch of contexts is a
-- change of `running`; the log is left out.
pub mod Dispatch
pub mod Tests
use disastr_os_semaphores.Base.{
  ℕ, zero, suc, ◌+◌, Bool, not, ◌||◌, ◌==◌, ltb, if◌then◌else◌, Option, none, some, fault, and_then,
  ok,
}
use disastr_os_semaphores.Kernel.Printing.Objects.{print_status}
use disastr_os_semaphores.Kernel.Start.{start_process}
use disastr_os_semaphores.Base.Int.{ℤ, pos, negsuc, ltb_ℤ, ◌+ℤ◌, pos_part}
use disastr_os_semaphores.LinkedList.{null}
use disastr_os_semaphores.Kernel.Constants.{max_syscalls}
use disastr_os_semaphores.Kernel.Constants.Error
use disastr_os_semaphores.Kernel.Constants.Call
use disastr_os_semaphores.Kernel.Cmd.{
  Cmd, pure, done, get, put, ◌>>=◌, ◌>>◌, assert, load, modify, pcbs,
}
use disastr_os_semaphores.Kernel.Running.{running_pcb, return_value}
use disastr_os_semaphores.Kernel.ProcessCalls.{
  internal_schedule, internal_preempt, internal_spawn, internal_fork, internal_sleep,
  internal_shutdown,
}
use disastr_os_semaphores.Kernel.WaitExit.{internal_wait, internal_exit}
use disastr_os_semaphores.Kernel.ResourceCalls.{
  internal_open_resource, internal_close_resource, internal_destroy_resource,
}
use disastr_os_semaphores.Kernel.SemaphoreCalls.{
  internal_sem_open, internal_sem_close, internal_sem_wait, internal_sem_post,
}

-- `syscall_vector`, as `disastrOS_start` fills it.
unfoldable pub syscall_vector : ℕ → Option (Cmd (Unit {0}))
syscall_vector n =
    if n == Call.preempt
    then some internal_preempt
    else if n == Call.fork
    then some internal_fork
    else if n == Call.spawn
    then some internal_spawn
    else if n == Call.wait
    then some internal_wait
    else if n == Call.exit
    then some internal_exit
    else if n == Call.sleep
    then some internal_sleep
    else if n == Call.open_resource
    then some internal_open_resource
    else if n == Call.close_resource
    then some internal_close_resource
    else if n == Call.destroy_resource
    then some internal_destroy_resource
    else if n == Call.shutdown
    then some internal_shutdown
    else if n == Call.sem_open
    then some internal_sem_open
    else if n == Call.sem_close
    then some internal_sem_close
    else if n == Call.sem_post
    then some internal_sem_post
    else if n == Call.sem_wait
    then some internal_sem_wait
    else none

-- `syscall_numarg`; the entries that are not set are 0.
unfoldable pub syscall_numarg : ℕ → ℕ
syscall_numarg n =
    if n == Call.spawn
    then 2
    else if n == Call.wait
    then 2
    else if n == Call.exit
    then 1
    else if n == Call.sleep
    then 1
    else if n == Call.open_resource
    then 3
    else if n == Call.close_resource
    then 1
    else if n == Call.destroy_resource
    then 1
    else if n == Call.sem_open
    then 2
    else if n == Call.sem_close
    then 1
    else if n == Call.sem_post
    then 1
    else if n == Call.sem_wait
    then 1
    else 0

-- `syscall_num<0||syscall_num>DSOS_MAX_SYSCALLS`
abbrev pub is_out_of_range : ℤ → Bool
is_out_of_range n = ltb_ℤ n (pos 0) || ltb_ℤ (pos max_syscalls) n

-- The end of `disastrOS_trap`: with no process it prints the status, and returns to `main_context`.
unfoldable pub return_to_process : Cmd (Unit {0})
return_to_process = do
  me ← running_pcb
  if not (me == null)
      then done
      else do (λ s. and_then (print_status s) (λ _. ok (tt, s))); start_process

-- `disastrOS_trap` up to its end. The vector has DSOS_MAX_SYSCALLS entries, and a read behind them is
-- a fault.
unfoldable pub dispatch : Cmd (Unit {0})
unfolding syscall_vector
dispatch = do
  me ← running_pcb
  pcb ← load pcbs me
  if is_out_of_range pcb.syscall_num
      then return_value Error.out_of_range
      else if not (ltb (pos_part pcb.syscall_num) max_syscalls)
      then (λ _. fault)
      else elim (syscall_vector (pos_part pcb.syscall_num)) [
        | none ↦ return_value Error.not_implemented
        | some handler ↦ handler
      ]

-- `disastrOS_trap`
unfoldable pub trap : Cmd (Unit {0})
trap = do dispatch; return_to_process

-- `disastrOS_syscall`, up to the switch back: `some v` if it returns `v` with no trap. A process
-- that trapped reads its `syscall_retvalue` once it runs again.
unfoldable pub syscall : ℤ → (ℕ → ℤ) → Cmd (Option ℤ)
unfolding syscall_numarg
syscall num args = do
  me ← running_pcb
  assert (not (me == null))
  if is_out_of_range num
      then pure (some Error.out_of_range)
      else if not (ltb (pos_part num) max_syscalls)
      then (λ _. fault)
      else (do
        modify pcbs me (λ p. record p {
          syscall_args =
              λ i. if ltb i (syscall_numarg (pos_part num)) then args i else p.syscall_args i;
          syscall_num = num;
        })
        trap
        pure none)

-- `disastrOS_getpid`
unfoldable pub getpid : Cmd ℤ
getpid = do
  me ← running_pcb
  if me == null then pure (negsuc 0) else do pcb ← load pcbs me; pure pcb.pid

-- `timerHandler` and `timerInterrupt`: the handler saves the context through `running`. Up to the return to the process that runs then.
unfoldable pub timer_interrupt : Cmd (Unit {0})
timer_interrupt = do
  me ← running_pcb
  load pcbs me
  put (λ s. record s { time = s.time +ℤ pos 1 })
  internal_schedule

abbrev pub args1 : ℤ → ℕ → ℤ
args1 a i = a

abbrev pub args2 : ℤ → ℤ → ℕ → ℤ
args2 a b i = if i == 0 then a else b

abbrev pub args3 : ℤ → ℤ → ℤ → ℕ → ℤ
args3 a b c i = if i == 0 then a else if i == 1 then b else c

-- The wrappers of disastrOS.c.
unfoldable pub fork : Cmd (Option ℤ)
fork = syscall (pos Call.fork) (args1 (pos 0))

unfoldable pub wait : (pid retval : ℤ) → Cmd (Option ℤ)
wait pid retval = syscall (pos Call.wait) (args2 pid retval)

unfoldable pub exit : ℤ → Cmd (Option ℤ)
exit exitval = syscall (pos Call.exit) (args1 exitval)

unfoldable pub preempt : Cmd (Option ℤ)
preempt = syscall (pos Call.preempt) (args1 (pos 0))

unfoldable pub spawn : (f args : ℤ) → Cmd (Option ℤ)
spawn f args = syscall (pos Call.spawn) (args2 f args)

unfoldable pub shutdown : Cmd (Option ℤ)
shutdown = syscall (pos Call.shutdown) (args1 (pos 0))

unfoldable pub sleep : ℤ → Cmd (Option ℤ)
sleep sleep_time = syscall (pos Call.sleep) (args1 sleep_time)

unfoldable pub open_resource : (resource_id type mode : ℤ) → Cmd (Option ℤ)
open_resource resource_id type mode = syscall (pos Call.open_resource) (args3 resource_id type mode)

unfoldable pub close_resource : ℤ → Cmd (Option ℤ)
close_resource fd = syscall (pos Call.close_resource) (args1 fd)

unfoldable pub destroy_resource : ℤ → Cmd (Option ℤ)
destroy_resource resource_id = syscall (pos Call.destroy_resource) (args1 resource_id)

unfoldable pub sem_open : (id count : ℤ) → Cmd (Option ℤ)
sem_open id count = syscall (pos Call.sem_open) (args2 id count)

unfoldable pub sem_close : ℤ → Cmd (Option ℤ)
sem_close fd = syscall (pos Call.sem_close) (args1 fd)

unfoldable pub sem_post : ℤ → Cmd (Option ℤ)
sem_post fd = syscall (pos Call.sem_post) (args1 fd)

unfoldable pub sem_wait : ℤ → Cmd (Option ℤ)
sem_wait fd = syscall (pos Call.sem_wait) (args1 fd)
