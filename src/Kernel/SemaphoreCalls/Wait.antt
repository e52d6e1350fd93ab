-- ===== src/Kernel/SemaphoreCalls/Wait.antt =====
-- `internal_semWait` of disastrOS_semwait.c, with a descriptor that the process has.
use disastr_os_semaphores.Base.{
  ℕ, ◌≡◌, ◌≢◌, List, ==_ne, ==_self, Bool-cases, inl, inr, if◌then◌else◌, ok,
}
use disastr_os_semaphores.Base.Int.{pos, ltb_ℤ, ◌-ℤ◌}
use disastr_os_semaphores.LinkedList.{null}
use disastr_os_semaphores.Kernel.{System}
use disastr_os_semaphores.Kernel.Cmd.{semaphores, sem_descriptors, modified}
use disastr_os_semaphores.Kernel.Rules.{
  load-ok, modify-ok, int_argument-ok, return_value-ok, returning,
}
use disastr_os_semaphores.Kernel.SemaphoreCalls.{internal_sem_wait, block}
use disastr_os_semaphores.Kernel.SemaphoreCalls.Found.{HasDescriptors, descriptor_for, by_fd-ok}

-- The state after `sem->count--`.
abbrev pub decremented : ℕ → System → System
decremented sem = modified semaphores sem (λ r. record r { count = r.count -ℤ pos 1 })

module _ (s : System) (ds : List ℕ) (has : HasDescriptors s ds) where
  abbrev sfd : ℕ
  sfd = descriptor_for s ds

  abbrev sem : ℕ
  sem = (s.sem_descriptors.at sfd).semaphore

  abbrev ptr : ℕ
  ptr = (s.sem_descriptors.at sfd).ptr

  -- With a descriptor, the count of its semaphore falls by one; the process blocks if it is negative
  -- then, and else the call returns 0.
  pub sem_wait-found :
      sfd ≢ null
      → sem ≢ null
      → internal_sem_wait s ≡ (
          if ltb_ℤ ((s.semaphores.at sem).count -ℤ pos 1) (pos 0)
          then block sem ptr (decremented sem s)
          else ok (tt, returning (pos 0) (decremented sem s)))
  unfolding internal_sem_wait
  sem_wait-found some_sfd some_sem =
      let s' = decremented sem s in
      rw
        (
          int_argument-ok s has.some_running 0,
          by_fd-ok s ds has,
          ==_ne _ null some_sfd,
          load-ok sem_descriptors _ s some_sfd,
          modify-ok semaphores _ s some_sem,
          load-ok semaphores _ s' some_sem,
          ==_self,
        )
        (elim (Bool-cases (ltb_ℤ ((s.semaphores.at sem).count -ℤ pos 1) (pos 0))) [
          | inl e ↦ rw e
          | inr e ↦ rw (e, return_value-ok s' has.some_running (pos 0))
        ])
