-- ===== src/Kernel/ResourceCalls.antt =====
-- The system calls on resources: sorgente/disastrOS_open_resource.c, disastrOS_close_resource.c and
-- disastrOS_destroy_resource.c.
pub mod Destroy
mod Tests
use disastr_os_semaphores.Base.{ℕ, not, ◌==◌, ◌&&◌, if◌then◌else◌}
use disastr_os_semaphores.Base.Int.{ℤ, pos, ◌+ℤ◌, ◌==ℤ◌}
use disastr_os_semaphores.LinkedList.{null}
use disastr_os_semaphores.Kernel.Constants.{mode_create, mode_excl}
use disastr_os_semaphores.Kernel.Constants.Error
use disastr_os_semaphores.Kernel.Cmd.{
  Cmd, ◌>>=◌, ◌>>◌, assert, load, modify, pcbs, resources, descriptors, last, size, list_insert,
  list_detach,
}
use disastr_os_semaphores.Kernel.Lists.{resources_list, descriptors_of, users_of}
use disastr_os_semaphores.Kernel.Running.{running_pcb, int_argument, return_value, has_bit}
use disastr_os_semaphores.Kernel.Resources.{
  resource_alloc, resource_free, resource_by_id, descriptor_alloc, descriptor_free,
  descriptor_by_fd, descriptor_ptr_alloc, descriptor_ptr_free,
}

-- `internal_openResource` from the allocation of the descriptor on. The pointer to the
-- descriptor is used without a test for NULL.
unfoldable pub open_resource_descriptor : ℕ → Cmd (Unit {0})
open_resource_descriptor res = do
  me ← running_pcb
  pcb ← load pcbs me
  des ← descriptor_alloc pcb.last_fd res me
  if des == null then return_value Error.resource_no_fd else do
    modify pcbs me (λ p. record p { last_fd = p.last_fd +ℤ pos 1 })
    desptr ← descriptor_ptr_alloc des
    tail ← last (descriptors_of me)
    list_insert (descriptors_of me) tail des
    modify descriptors des (λ d. record d { ptr = desptr })
    tail ← last (users_of res)
    list_insert (users_of res) tail desptr
    d ← load descriptors des
    return_value d.fd

-- `internal_openResource` from the test of the resource on.
unfoldable pub check_and_open : (res : ℕ) → (type open_mode : ℤ) → Cmd (Unit {0})
check_and_open res type open_mode = if res == null then return_value Error.resource_open else do
  r ← load resources res
  if not (r.type ==ℤ type) then return_value Error.resource_open else do
    users ← size (users_of res)
    if has_bit open_mode mode_excl && not (users ==ℤ pos 0)
        then return_value Error.resource_no_excl
        else open_resource_descriptor res

-- `internal_openResource`
unfoldable pub internal_open_resource : Cmd (Unit {0})
internal_open_resource = do
  id ← int_argument 0
  type ← int_argument 1
  open_mode ← int_argument 2
  res ← resource_by_id resources_list id
  if has_bit open_mode mode_create
      then (if not (res == null) then return_value Error.resource_create else do
        res ← resource_alloc id type
        tail ← last resources_list
        list_insert resources_list tail res
        check_and_open res type open_mode)
      else check_and_open res type open_mode

-- `internal_closeResource`
unfoldable pub internal_close_resource : Cmd (Unit {0})
internal_close_resource = do
  fd ← int_argument 0
  me ← running_pcb
  des ← descriptor_by_fd (descriptors_of me) fd
  if des == null then return_value Error.resource_close else do
    des ← list_detach (descriptors_of me) des
    assert (not (des == null))
    d ← load descriptors des
    desptr ← list_detach (users_of d.resource) d.ptr
    assert (not (desptr == null))
    descriptor_free des
    descriptor_ptr_free desptr
    return_value (pos 0)

-- `internal_destroyResource`
unfoldable pub internal_destroy_resource : Cmd (Unit {0})
internal_destroy_resource = do
  id ← int_argument 0
  res ← resource_by_id resources_list id
  if res == null then return_value Error.resource_close else do
    users ← size (users_of res)
    if not (users ==ℤ pos 0) then return_value Error.resource_in_use else do
      res ← list_detach resources_list res
      assert (not (res == null))
      resource_free res
      return_value (pos 0)
