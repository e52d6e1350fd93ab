-- ===== src/Kernel/SemaphoreCalls/Post.antt =====
-- `internal_semPost` of disastrOS_sempost.c, with a descriptor that the process has.
use disastr_os_semaphores.Base.{
  ℕ, ◌≡◌, ◌≢◌, refl, true, List, [], ◌∷◌, ◌++◌, ==_ne, ==_self, Bool-cases, inl, inr, if◌then◌else◌,
  ok, fault,
}
use disastr_os_semaphores.Base.Int.{pos, leb_ℤ, ◌+ℤ◌}
use disastr_os_semaphores.LinkedList.{null}
use disastr_os_semaphores.Kernel.{System}
use disastr_os_semaphores.Kernel.Cmd.{semaphores, sem_descriptors, modified}
use disastr_os_semaphores.Kernel.Rules.{
  load-ok, modify-ok, int_argument-ok, return_value-ok, returning,
}
use disastr_os_semaphores.Kernel.Families.{Holds}
use disastr_os_semaphores.Kernel.Queues.{queues, queue_table, queues-frame}
use disastr_os_semaphores.Kernel.SemLists.{SemList, openers, waiters, sem_table}
use disastr_os_semaphores.Kernel.SemaphoreCalls.{internal_sem_post, wake}
use disastr_os_semaphores.Kernel.SemaphoreCalls.Found.{HasDescriptors, descriptor_for, by_fd-ok}
use disastr_os_semaphores.Kernel.SemaphoreCalls.Block.{moved, sems-frame}
use disastr_os_semaphores.Kernel.SemaphoreCalls.Wake.{Woken, process_of, wake-nil, wake_lem}

-- The state after `sem->count++`.
abbrev pub incremented : ℕ → System → System
incremented sem = modified semaphores sem (λ r. record r { count = r.count +ℤ pos 1 })

module _ (s : System) (ds : List ℕ) (has : HasDescriptors s ds) where
  abbrev sfd : ℕ
  sfd = descriptor_for s ds

  abbrev sem : ℕ
  sem = (s.sem_descriptors.at sfd).semaphore

  -- With a descriptor, the count of its semaphore rises by one; a process is woken unless it is
  -- positive then, and the call returns 0.
  pub sem_post-found :
      sfd ≢ null
      → sem ≢ null
      → internal_sem_post s ≡ (
          if leb_ℤ ((s.semaphores.at sem).count +ℤ pos 1) (pos 0)
          then wake sem (incremented sem s)
          else ok (tt, returning (pos 0) (incremented sem s)))
  unfolding internal_sem_post
  sem_post-found some_sfd some_sem =
      let s' = incremented sem s in
      rw
        (
          int_argument-ok s has.some_running 0,
          by_fd-ok s ds has,
          ==_ne _ null some_sfd,
          load-ok sem_descriptors _ s some_sfd,
          modify-ok semaphores _ s some_sem,
          load-ok semaphores _ s' some_sem,
          ==_self,
        )
        (elim (Bool-cases (leb_ℤ ((s.semaphores.at sem).count +ℤ pos 1) (pos 0))) [
          | inl e ↦ rw e refl
          | inr e ↦ rw (e, return_value-ok s' has.some_running (pos 0)) refl
        ])

  module _ (lists : SemList → List ℕ) (some_sfd : sfd ≢ null) (some_sem : sem ≢ null)
      (holds : Holds sem_table lists s)
      (contended : leb_ℤ ((s.semaphores.at sem).count +ℤ pos 1) (pos 0) ≡ true) where
    -- Let the lists of the semaphores be well formed and the running process have a descriptor for
    -- its argument, whose semaphore is not NULL. Where the count is negative and no process waits
    -- for the semaphore, as it is after a semaphore was opened with a negative count,
    -- `internal_semPost` dereferences NULL.
    pub sem_post-fault : lists (waiters sem) ≡ [] → internal_sem_post s ≡ fault
    sem_post-fault e =
        rw (sem_post-found some_sfd some_sem, contended)
          (wake-nil (incremented sem s) sem null lists [] some_sem (sems-frame s sem _ holds) e)

    -- Let the lists of the semaphores and the queues be well formed and the running process have a
    -- descriptor for its argument, whose semaphore is not NULL. Where the count is negative, the
    -- pointer `ptr` is the first of the waiters, and the process of its descriptor is in the
    -- waiting list, wherever in it, `internal_semPost` ends without a fault. The count rises by
    -- one; the pointer goes to the end of the openers; the process goes from the waiting list to
    -- the end of the ready list, and is Ready; the running process keeps running, and its system
    -- call returns 0.
    pub sem_post-wakes :
        (ptr : ℕ) (xs : List ℕ) (rs vs ws zs : List ℕ)
        → lists (waiters sem) ≡ ptr ∷ xs
        → (s.sem_descriptor_ptrs.at ptr).descriptor ≢ null
        → Holds queue_table (queues rs (vs ++ process_of s ptr ∷ ws) zs) s
        → (t : System) × (internal_sem_post s ≡ ok (tt, t))
          × ((t.semaphores.at sem).count ≡ (s.semaphores.at sem).count +ℤ pos 1)
          × Holds sem_table (moved lists (waiters sem) xs (openers sem) ptr) t
          × Woken s t (process_of s ptr) rs (vs ++ ws) zs
    sem_post-wakes ptr xs rs vs ws zs is some_des queued =
        let s' = incremented sem s in
        let step =
          wake_lem s' sem ptr lists xs some_sem (sems-frame s sem _ holds) is rs vs ws zs some_des
            has.some_running (queues-frame s s' refl refl refl refl queued) in
        (
          _,
          rw (sem_post-found some_sfd some_sem, contended) step.0,
          rw ==_self refl,
          step.1,
          record {
            runs = step.2.runs;
            queued = step.2.queued;
            waked = step.2.waked;
            returned = step.2.returned;
          },
        )
