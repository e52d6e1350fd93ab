-- ===== src/Kernel/ProcessCalls.antt =====
-- The system calls that start, stop and switch processes: sorgente/disastrOS_schedule.c,
-- disastrOS_preempt.c, disastrOS_spawn.c, disastrOS_fork.c, disastrOS_sleep.c and
-- disastrOS_shutdown.c. Processor contexts and messages, with the status that
-- a process prints that goes to sleep, are left out.
pub mod Switch
pub mod Schedule
pub mod Elapsed
pub mod RoundRobin
pub mod Awake
pub mod Wakes
pub mod Sleep
pub mod Spawn
pub mod Tests
use disastr_os_semaphores.Base.{ℕ, zero, suc, not, ◌==◌, if◌then◌else◌, out_of_fuel}
use disastr_os_semaphores.Base.Int.{ℤ, pos, ◌+ℤ◌}
use disastr_os_semaphores.LinkedList.{null}
use disastr_os_semaphores.Kernel.{waiting, ready, running}
use disastr_os_semaphores.Kernel.Constants.Error
use disastr_os_semaphores.Kernel.Cmd.{
  Cmd, pure, done, get, put, ◌>>=◌, ◌>>◌, assert, load, modify, pcbs, timer_items, first, last,
  list_insert, list_detach, rounds,
}
use disastr_os_semaphores.Kernel.Lists.{ready_list, waiting_list, timer_list, children_of}
use disastr_os_semaphores.Kernel.Running.{
  running_pcb, set_running, argument, int_argument, return_value, set_status,
}
use disastr_os_semaphores.Kernel.Timers.{
  timer_list_add, timer_list_current, timer_list_remove_current,
}
use disastr_os_semaphores.Kernel.Pcbs.{pcb_alloc, pcb_ptr_alloc}

-- The loop of `internal_schedule`: each process whose time has come goes to the ready list, behind
-- the one that was woken before it, in front of all others.
unfoldable pub wake_elapsed : ℕ → ℕ → Cmd (Unit {0})
wake_elapsed zero previous_pcb = λ _. out_of_fuel
wake_elapsed (suc fuel) previous_pcb = do
  s ← get
  elapsed_timer ← timer_list_current s.time
  if elapsed_timer == null then done else do
    timer ← load timer_items elapsed_timer
    list_detach waiting_list timer.pcb
    set_status timer.pcb ready
    modify pcbs timer.pcb (λ p. record p { timer = null })
    list_insert ready_list previous_pcb timer.pcb
    timer_list_remove_current
    wake_elapsed fuel timer.pcb

-- The part of `internal_schedule` behind the loop: the running process gives way to the first
-- ready one.
unfoldable pub switch : Cmd (Unit {0})
switch = do
  head ← first ready_list
  if head == null then done else do
    next_process ← list_detach ready_list head
    me ← running_pcb
    set_status me ready
    tail ← last ready_list
    list_insert ready_list tail me
    set_status next_process running
    set_running next_process

-- `internal_schedule`
unfoldable pub internal_schedule : Cmd (Unit {0})
internal_schedule = do s ← get; wake_elapsed (rounds s.timer_list) null; switch

-- `internal_preempt`
unfoldable pub internal_preempt : Cmd (Unit {0})
internal_preempt = internal_schedule

-- `internal_spawn` up to the set-up of the context, and `internal_fork`: the two have the same text.
unfoldable pub new_process : Cmd (Unit {0})
new_process = do
  new_pcb ← pcb_alloc
  if new_pcb == null then return_value Error.spawn else do
    set_status new_pcb ready
    me ← running_pcb
    modify pcbs new_pcb (λ p. record p { parent = me })
    new_pcb_ptr ← pcb_ptr_alloc new_pcb
    assert (not (new_pcb_ptr == null))
    tail ← last (children_of me)
    list_insert (children_of me) tail new_pcb_ptr
    tail ← last ready_list
    list_insert ready_list tail new_pcb
    pcb ← load pcbs new_pcb
    return_value pcb.pid

-- `internal_spawn`: the entry point and its argument, which go into the context, are left out.
unfoldable pub internal_spawn : Cmd (Unit {0})
internal_spawn = new_process

-- `internal_fork`
unfoldable pub internal_fork : Cmd (Unit {0})
internal_fork = new_process

-- `internal_sleep`
unfoldable pub internal_sleep : Cmd (Unit {0})
internal_sleep = do
  me ← running_pcb
  pcb ← load pcbs me
  if not (pcb.timer == null) then return_value Error.sleep else do
    cycles_to_sleep ← int_argument 0
    s ← get
    new_timer ← timer_list_add (s.time +ℤ cycles_to_sleep) me
    if new_timer == null then return_value Error.sleep else do
      set_status me waiting
      tail ← last waiting_list
      list_insert waiting_list tail me
      head ← first ready_list
      if head == null
          then set_running null
          else do next_running ← list_detach ready_list head; set_running next_running

-- `internal_shutdown`, up to the jump to the context of `main`.
unfoldable pub internal_shutdown : Cmd (Unit {0})
internal_shutdown = put (λ s. record s { shutdown_now = pos 1 })
