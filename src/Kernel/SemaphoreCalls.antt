-- ===== src/Kernel/SemaphoreCalls.antt =====
-- The four system calls on semaphores: sorgente/disastrOS_semopen.c, disastrOS_semclose.c,
-- disastrOS_semwait.c and disastrOS_sempost.c. The messages that they print are left out, as is the
-- status that an open prints at its end and a close behind the release of the semaphore; where a
-- message that reports an error reads through NULL, the model has the fault.
pub mod Found
pub mod Wait
pub mod Suspend
pub mod Block
pub mod Wake
pub mod Post
pub mod Missing
pub mod Allocate
pub mod Open
pub mod Existing
pub mod Create
pub mod Close
pub mod Exhausted
pub mod Balance
pub mod States
pub mod Tests
use disastr_os_semaphores.Base.{ℕ, ◌==◌, ◌&&◌, if◌then◌else◌, fault}
use disastr_os_semaphores.Base.Int.{ℤ, pos, ltb_ℤ, leb_ℤ, ◌+ℤ◌, ◌-ℤ◌, ◌==ℤ◌}
use disastr_os_semaphores.LinkedList.{null}
use disastr_os_semaphores.Kernel.{waiting, ready}
use disastr_os_semaphores.Kernel.Constants.Error
use disastr_os_semaphores.Kernel.Cmd.{
  Cmd, pure, done, ◌>>=◌, ◌>>◌, load, modify, pcbs, semaphores, sem_descriptors,
  sem_descriptor_ptrs, first, last, size, list_insert, list_detach,
}
use disastr_os_semaphores.Kernel.Lists.{
  ready_list, waiting_list, semaphores_list, sem_descriptors_of, openers_of, waiters_of,
}
use disastr_os_semaphores.Kernel.Running.{
  running_pcb, set_running, argument, int_argument, return_value, set_status, is_success,
}
use disastr_os_semaphores.Kernel.Semaphores.{
  semaphore_alloc, semaphore_free, semaphore_by_id, sem_descriptor_alloc, sem_descriptor_free,
  sem_descriptor_by_fd, sem_descriptor_ptr_alloc, sem_descriptor_ptr_free,
}

-- The semaphore that `internal_semOpen` opens, created if it is not in the list: NULL if that fails.
unfoldable pub find_or_create : (semnum counter : ℤ) → Cmd ℕ
find_or_create semnum counter = do
  found ← semaphore_by_id semaphores_list semnum
  if found == null
      then (do
        aux ← semaphore_alloc semnum counter
        if aux == null
            then pure null
            else do tail ← last semaphores_list; list_insert semaphores_list tail aux; pure aux)
      else pure found

-- `internal_semOpen` from the allocation of the descriptor on.
unfoldable pub open_descriptor : ℕ → Cmd (Unit {0})
open_descriptor aux = do
  me ← running_pcb
  pcb ← load pcbs me
  sfd ← sem_descriptor_alloc pcb.last_sem_fd aux me
  if sfd == null then return_value Error.sem_des_alloc else do
    sfdptr ← sem_descriptor_ptr_alloc sfd
    if sfdptr == null then return_value Error.sem_des_ptr_alloc else do
      tail ← last (sem_descriptors_of me)
      ret ← list_insert (sem_descriptors_of me) tail sfd
      if ret == null then return_value Error.list_insert else do
        modify sem_descriptors sfd (λ d. record d { ptr = sfdptr })
        tail ← last (openers_of aux)
        aux_ptr ← list_insert (openers_of aux) tail sfdptr
        if aux_ptr == null then return_value Error.list_insert else do
          modify pcbs me (λ p. record p { last_sem_fd = p.last_sem_fd +ℤ pos 1 })
          des ← load sem_descriptors sfd
          return_value des.fd

-- `internal_semOpen`
unfoldable pub internal_sem_open : Cmd (Unit {0})
internal_sem_open = do
  semnum ← int_argument 0
  counter ← int_argument 1
  if ltb_ℤ semnum (pos 0) then return_value Error.wrong_id else do
    aux ← find_or_create semnum counter
    if aux == null then return_value Error.sem_alloc else open_descriptor aux

-- The last two statements of `internal_semClose`.
unfoldable pub finish_close : Cmd (Unit {0})
finish_close = do
  me ← running_pcb
  modify pcbs me (λ p. record p { last_sem_fd = p.last_sem_fd -ℤ pos 1 })
  return_value (pos 0)

-- `internal_semClose` from the test whether the semaphore is still in use on.
unfoldable pub close_semaphore : ℕ → Cmd (Unit {0})
close_semaphore sem = do
  openers ← size (openers_of sem)
  waiters ← size (waiters_of sem)
  if (openers ==ℤ pos 0) && (waiters ==ℤ pos 0)
      then (do
        aux ← list_detach semaphores_list sem
        if aux == null then (λ _. fault) else do
          ret ← semaphore_free sem
          if is_success ret then finish_close else return_value Error.sem_free)
      else finish_close

-- `internal_semClose`
unfoldable pub internal_sem_close : Cmd (Unit {0})
internal_sem_close = do
  sd ← int_argument 0
  me ← running_pcb
  sfd ← sem_descriptor_by_fd (sem_descriptors_of me) sd
  if sfd == null then return_value Error.sem_des_list else do
    sfd ← list_detach (sem_descriptors_of me) sfd
    des ← load sem_descriptors sfd
    sdptr ← list_detach (openers_of des.semaphore) des.ptr
    if sdptr == null then (λ _. fault) else do
      ret ← sem_descriptor_ptr_free sdptr
      if is_success ret
          then (do
            ret ← sem_descriptor_free sfd
            if is_success ret
                then close_semaphore des.semaphore
                else return_value Error.sem_des_free)
          else return_value Error.sem_des_ptr_free

-- `internal_semWait` from `running->status = Waiting` on: the PCB goes to the waiting list, and the
-- first ready process runs. It is the new `running` whose system call returns 0.
unfoldable pub suspend : Cmd (Unit {0})
suspend = do
  me ← running_pcb
  set_status me waiting
  tail ← last waiting_list
  pcb_aux ← list_insert waiting_list tail me
  if pcb_aux == null then return_value Error.list_insert else do
    head ← first ready_list
    pcb_aux ← list_detach ready_list head
    if pcb_aux == null
        then return_value Error.list_detach
        else do set_running pcb_aux; return_value (pos 0)

-- The part of `internal_semWait` that blocks the process: the pointer to its descriptor goes to the
-- waiting list of the semaphore.
unfoldable pub block : (sem ptr : ℕ) → Cmd (Unit {0})
block sem ptr = do
  aux ← list_detach (openers_of sem) ptr
  (if aux == null then return_value Error.list_detach else done)
  tail ← last (waiters_of sem)
  aux ← list_insert (waiters_of sem) tail ptr
  if aux == null then return_value Error.list_insert else suspend

-- `internal_semWait`
unfoldable pub internal_sem_wait : Cmd (Unit {0})
internal_sem_wait = do
  sd ← int_argument 0
  me ← running_pcb
  sfd ← sem_descriptor_by_fd (sem_descriptors_of me) sd
  if sfd == null then return_value Error.sem_des_list else do
    des ← load sem_descriptors sfd
    modify semaphores des.semaphore (λ sem. record sem { count = sem.count -ℤ pos 1 })
    sem ← load semaphores des.semaphore
    if ltb_ℤ sem.count (pos 0) then block des.semaphore des.ptr else return_value (pos 0)

-- The part of `internal_semPost` that wakes the process that has waited longest.
unfoldable pub wake : ℕ → Cmd (Unit {0})
wake sem = do
  head ← first (waiters_of sem)
  ptr_aux ← list_detach (waiters_of sem) head
  if ptr_aux == null then return_value Error.list_detach else do
    tail ← last (openers_of sem)
    ret ← list_insert (openers_of sem) tail ptr_aux
    (if ret == null then return_value Error.list_insert else done)
    ptr ← load sem_descriptor_ptrs ptr_aux
    des ← load sem_descriptors ptr.descriptor
    set_status des.pcb ready
    pcb_aux ← list_detach waiting_list des.pcb
    (if pcb_aux == null then return_value Error.list_detach else done)
    tail ← last ready_list
    pcb_aux ← list_insert ready_list tail des.pcb
    (if pcb_aux == null then return_value Error.list_insert else done)
    return_value (pos 0)

-- `internal_semPost`
unfoldable pub internal_sem_post : Cmd (Unit {0})
internal_sem_post = do
  sd ← int_argument 0
  me ← running_pcb
  sfd ← sem_descriptor_by_fd (sem_descriptors_of me) sd
  if sfd == null then return_value Error.sem_des_list else do
    des ← load sem_descriptors sfd
    modify semaphores des.semaphore (λ sem. record sem { count = sem.count +ℤ pos 1 })
    sem ← load semaphores des.semaphore
    if leb_ℤ sem.count (pos 0) then wake des.semaphore else return_value (pos 0)
