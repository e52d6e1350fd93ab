-- ===== src/Kernel/WaitExit.antt =====
-- The system calls by which a parent learns of the end of a child: sorgente/disastrOS_wait.c and
-- sorgente/disastrOS_exit.c.
use Prim.Native.Nat.{bit_and, bit_or}
pub mod Wait
pub mod Reap
pub mod Pause
pub mod Alike
pub mod Orphans
pub mod Bury
pub mod Exit
pub mod Tests
use disastr_os_semaphores.Base.{
  ℕ, zero, suc, Bool, not, ◌==◌, ◌&&◌, ◌||◌, if◌then◌else◌, out_of_fuel,
}
use disastr_os_semaphores.Base.Int.{ℤ, pos, ltb_ℤ, ◌==ℤ◌}
use disastr_os_semaphores.LinkedList.{null}
use disastr_os_semaphores.Kernel.{Pcb, waiting, running, zombie}
use disastr_os_semaphores.Kernel.Constants.{sigchld, sighup}
use disastr_os_semaphores.Kernel.Constants.Error
use disastr_os_semaphores.Kernel.Constants.Call
use disastr_os_semaphores.Kernel.Cmd.{
  Cmd, pure, done, get, put, ◌>>=◌, ◌>>◌, assert, load, modify, pcbs, pcb_ptrs, timer_items,
  descriptors, first, last, next, list_insert, list_detach, rounds,
}
use disastr_os_semaphores.Kernel.Lists.{
  ready_list, waiting_list, zombie_list, timer_list, children_of, descriptors_of, users_of,
}
use disastr_os_semaphores.Kernel.Running.{
  running_pcb, set_running, argument, int_argument, return_value, set_status, is_zombie, is_waiting,
}
use disastr_os_semaphores.Kernel.Timers.{timer_item_free}
use disastr_os_semaphores.Kernel.Resources.{descriptor_free, descriptor_ptr_free}
use disastr_os_semaphores.Kernel.Pcbs.{pcb_free, pcb_ptr_free, pcb_ptr_by_pid}

-- The scan of `internal_wait`, with `awaited_pcb_ptr` and `awaited_pcb` as it leaves them.
unfoldable pub wait_scan : ℤ → ℕ → (aux ptr pcb : ℕ) → Cmd (ℕ × ℕ)
wait_scan pid_to_wait zero aux ptr pcb = λ _. out_of_fuel
wait_scan pid_to_wait (suc fuel) aux ptr pcb = if aux == null then pure (ptr, pcb) else do
  child ← load pcb_ptrs aux
  awaited ← load pcbs child.pcb
  if (pid_to_wait ==ℤ pos 0 && is_zombie awaited.status)
        || (not (pid_to_wait ==ℤ pos 0) && awaited.pid ==ℤ pid_to_wait)
      then pure (aux, child.pcb)
      else do following ← next pcb_ptrs aux; wait_scan pid_to_wait fuel following aux child.pcb

-- `*result = v`, if `result` is not NULL
unfoldable pub report : (result v : ℤ) → Cmd (Unit {0})
report result v =
    if result ==ℤ pos 0
    then done
    else put (λ s. record s { user_memory = λ p. if p ==ℤ result then v else s.user_memory p })

-- The part of `internal_wait` that frees a zombie.
unfoldable pub reap : (ptr pcb : ℕ) → ℤ → Cmd (Unit {0})
reap ptr pcb result = do
  me ← running_pcb
  list_detach (children_of me) ptr
  pcb_ptr_free ptr
  list_detach zombie_list pcb
  awaited ← load pcbs pcb
  return_value awaited.pid
  report result awaited.return_value
  pcb_free pcb
  done

-- The part of `internal_wait` that blocks the process. It does not make the next one `running`.
unfoldable pub sleep_for_child : Cmd (Unit {0})
sleep_for_child = do
  me ← running_pcb
  set_status me waiting
  tail ← last waiting_list
  list_insert waiting_list tail me
  head ← first ready_list
  next_running ← list_detach ready_list head
  set_running next_running

-- `internal_wait`
unfoldable pub internal_wait : Cmd (Unit {0})
internal_wait = do
  pid_to_wait ← int_argument 0
  result ← argument 1
  me ← running_pcb
  aux ← first (children_of me)
  if aux == null then return_value Error.wait else do
    pcb ← load pcbs me
    (ptr, awaited_pcb) ← wait_scan pid_to_wait (rounds pcb.children) aux null null
    if ltb_ℤ (pos 0) pid_to_wait && awaited_pcb == null then return_value Error.wait else do
      if awaited_pcb == null then sleep_for_child else do
        awaited ← load pcbs awaited_pcb
        if is_zombie awaited.status then reap ptr awaited_pcb result else sleep_for_child

-- The first loop of `internal_exit`: the children become children of `init`, and get SIGHUP.
unfoldable pub reparent : ℕ → Cmd (Unit {0})
reparent zero = λ _. out_of_fuel
reparent (suc fuel) = do
  me ← running_pcb
  head ← first (children_of me)
  if head == null then done else do
    item ← list_detach (children_of me) head
    assert (not (item == null))
    s ← get
    tail ← last (children_of s.init_pcb)
    list_insert (children_of s.init_pcb) tail item
    child ← load pcb_ptrs item
    modify pcbs child.pcb
        (λ p. record p { signals = bit_or p.signals (bit_and sighup p.signals_mask) })
    reparent fuel

-- The loop of `internal_exit` over the timers of the process.
unfoldable pub release_timers : ℕ → ℕ → Cmd (Unit {0})
release_timers zero aux = λ _. out_of_fuel
release_timers (suc fuel) aux = if aux == null then done else do
  timer ← load timer_items aux
  following ← next timer_items aux
  me ← running_pcb
  (if timer.pcb == me
      then (do
        detach_result ← list_detach timer_list aux
        assert (not (detach_result == null))
        timer_item_free aux
        done)
      else done)
  release_timers fuel following

-- The loop of `internal_exit` over the descriptors of the process.
unfoldable pub release_descriptors : ℕ → Cmd (Unit {0})
release_descriptors zero = λ _. out_of_fuel
release_descriptors (suc fuel) = do
  me ← running_pcb
  des ← first (descriptors_of me)
  if des == null then done else do
    list_detach (descriptors_of me) des
    d ← load descriptors des
    list_detach (users_of d.resource) d.ptr
    descriptor_ptr_free d.ptr
    descriptor_free des
    release_descriptors fuel

-- Whether the parent waits for the process with the given pid.
abbrev pub awaits : Pcb → ℤ → Bool
awaits parent pid =
    is_waiting parent.status
    && parent.syscall_num ==ℤ pos Call.wait
    && (parent.syscall_args 0 ==ℤ pos 0 || parent.syscall_args 0 ==ℤ pid)

-- The branch of `internal_exit` for a parent that waits: it is woken, and the process is freed.
unfoldable pub exit_to_parent : ℕ → Cmd (Unit {0})
unfolding release_timers release_descriptors
exit_to_parent parent = do
  me ← running_pcb
  list_detach waiting_list parent
  set_status parent running
  self ← load pcbs me
  self_in_parent ← pcb_ptr_by_pid (children_of parent) self.pid
  list_detach (children_of parent) self_in_parent
  modify pcbs parent (λ p. record p { syscall_retvalue = self.pid })
  p ← load pcbs parent
  report (p.syscall_args 1) self.return_value
  aux ← first timer_list
  s ← get
  release_timers (rounds s.timer_list) aux
  release_descriptors (rounds self.descriptors)
  suppressed_item ← list_detach zombie_list me
  pcb_free suppressed_item
  set_running parent

-- The other branch: the process stays a zombie, and the first ready process runs.
unfoldable pub exit_to_next : Cmd (Unit {0})
exit_to_next = do
  head ← first ready_list
  next_running ← list_detach ready_list head
  set_status next_running running
  set_running next_running

-- `internal_exit`
unfoldable pub internal_exit : Cmd (Unit {0})
internal_exit = do
  me ← running_pcb
  exit_value ← int_argument 0
  modify pcbs me (λ p. record p { return_value = exit_value })
  s ← get
  assert (not (s.init_pcb == null))
  self ← load pcbs me
  reparent (rounds self.children)
  set_status me zombie
  tail ← last zombie_list
  list_insert zombie_list tail me
  modify pcbs self.parent
      (λ p. record p { signals = bit_or p.signals (bit_and sigchld p.signals_mask) })
  parent ← load pcbs self.parent
  if awaits parent self.pid then exit_to_parent self.parent else exit_to_next
