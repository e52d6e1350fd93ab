-- ===== src/Kernel/SemaphoreCalls/Missing.antt =====
-- `internal_semClose`, `internal_semWait` and `internal_semPost` with a descriptor that the process
-- does not have.
use disastr_os_semaphores.Base.{ℕ, ◌≡◌, refl, List, ok}
use disastr_os_semaphores.LinkedList.{null}
use disastr_os_semaphores.Kernel.{System}
use disastr_os_semaphores.Kernel.Constants.Error
use disastr_os_semaphores.Kernel.Rules.{int_argument-ok, return_value-ok, returning}
use disastr_os_semaphores.Kernel.SemaphoreCalls.{
  internal_sem_close, internal_sem_wait, internal_sem_post,
}
use disastr_os_semaphores.Kernel.SemaphoreCalls.Found.{HasDescriptors, descriptor_for, by_fd-ok}

-- Where a process runs, its list of descriptors is well formed, and none of them has the argument,
-- as an `int`, as its `fd`, each of `internal_semClose`, `internal_semWait` and `internal_semPost` ends without
-- a fault: the system call returns DSOS_ESEM_DES_LIST, and the state is otherwise as before.
pub missing_descriptor :
    (s : System) (ds : List ℕ)
    → HasDescriptors s ds
    → descriptor_for s ds ≡ null
    → (internal_sem_close s ≡ ok (tt, returning Error.sem_des_list s))
      × (internal_sem_wait s ≡ ok (tt, returning Error.sem_des_list s))
      × (internal_sem_post s ≡ ok (tt, returning Error.sem_des_list s))
unfolding internal_sem_close internal_sem_wait internal_sem_post
missing_descriptor s ds has e =
    let returned = return_value-ok s has.some_running Error.sem_des_list in
    let argued = int_argument-ok s has.some_running 0 in
    let found = by_fd-ok s ds has in
    (
      rw (argued, found, e, returned) refl,
      rw (argued, found, e, returned) refl,
      rw (argued, found, e, returned) refl,
    )
