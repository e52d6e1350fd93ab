-- ===== src/Kernel/SemaphoreCalls/Block.antt =====
-- `internal_semWait` of disastrOS_semwait.c where it blocks: the pointer to the descriptor goes from the
-- openers of the semaphore to its waiters, and the process to sleep.
use mathlib.Core.Path.{subst}
use disastr_os_semaphores.Base.{
  ℕ, ◌≡◌, ◌≢◌, refl, ap, true, List, [], ◌∷◌, ◌++◌, arith, ==_ne, ==_self, ok,
}
use disastr_os_semaphores.Base.Int.{ℤ, pos, ltb_ℤ, ◌-ℤ◌}
use disastr_os_semaphores.LinkedList.{null}
use disastr_os_semaphores.LinkedList.Family.{update, update-IsUpdate}
use disastr_os_semaphores.Kernel.{System}
use disastr_os_semaphores.Kernel
use disastr_os_semaphores.Kernel.Cmd.{modified, pcbs, list_insert, list_detach}
use disastr_os_semaphores.Kernel.Lists.{openers_of, waiters_of}
use disastr_os_semaphores.Kernel.Families.{
  Holds, Loose, append-Holds, detach-Holds, inserted, detached, Holds-frame,
}
use disastr_os_semaphores.Kernel.Queues.{queues, queue_table, queues-frame}
use disastr_os_semaphores.Kernel.SemLists.{
  SemList, SemList-discrete, openers, waiters, sem_head, sem_table,
}
use disastr_os_semaphores.Kernel.SemaphoreCalls.{internal_sem_wait, block, suspend}
use disastr_os_semaphores.Kernel.SemaphoreCalls.Suspend.{Suspended, suspend_lem, resumed}
use disastr_os_semaphores.Kernel.SemaphoreCalls.Found.{HasDescriptors, descriptor_for}
use disastr_os_semaphores.Kernel.SemaphoreCalls.Wait.{decremented, sem_wait-found}

-- A change of a semaphore that keeps its lists.
pub sems-frame :
    (s : System) {lists : SemList → List ℕ} (sem : ℕ) (c : ℤ)
    → Holds sem_table lists s
    → Holds sem_table lists (modified Kernel.Cmd.semaphores sem (λ r. record r { count = c }) s)
sems-frame s sem c = Holds-frame sem_table s _ refl go
  where
    go :
        (k : SemList)
        → sem_head (modified Kernel.Cmd.semaphores sem (λ r. record r { count = c }) s) k
          ≡ sem_head s k
    go (openers a) = ground arith
    go (waiters a) = ground arith

-- The pointer goes from the list `k` to the end of the list `j`.
abbrev pub moved :
    (SemList → List ℕ) → (k : SemList) → List ℕ → (j : SemList) → ℕ → SemList → List ℕ
moved lists k xs j ptr =
    update SemList-discrete (update SemList-discrete lists k xs) j (lists j ++ ptr ∷ [])

-- A change of the state outside the semaphores and the pointers to their descriptors.
pub sems-alike :
    (s s' : System) {lists : SemList → List ℕ}
    → s'.semaphores ≡ s.semaphores
    → s'.sem_descriptor_ptrs ≡ s.sem_descriptor_ptrs
    → Holds sem_table lists s
    → Holds sem_table lists s'
sems-alike s s' es ep = Holds-frame sem_table s s' (ap (λ p. p.links) ep) go
  where
    go : (k : SemList) → sem_head s' k ≡ sem_head s k
    go (openers a) = ap (λ x. (x.at a).descriptors) es
    go (waiters a) = ap (λ x. (x.at a).waiting_descriptors) es

-- The state after the removal of the pointer, and after its insertion.
abbrev pub unopened : System → (sem ptr : ℕ) → (xs ys : List ℕ) → System
unopened s sem ptr xs ys = detached (openers_of sem) xs ys ptr s

abbrev pub enlisted : System → (sem ptr : ℕ) → (xs ys zs : List ℕ) → System
enlisted s sem ptr xs ys zs = inserted (waiters_of sem) zs [] ptr (unopened s sem ptr xs ys)

module _ (s : System) (sem ptr : ℕ) (lists : SemList → List ℕ) (xs ys : List ℕ)
    (some_sem : sem ≢ null) (some_ptr : ptr ≢ null) (holds : Holds sem_table lists s)
    (is : lists (openers sem) ≡ xs ++ ptr ∷ ys) where
  taken : SemList → List ℕ
  taken = update SemList-discrete lists (openers sem) (xs ++ ys)

  abbrev closed : System
  closed = unopened s sem ptr xs ys

  abbrev blocked : System
  blocked = enlisted s sem ptr xs ys (lists (waiters sem))

  take_step :
      (list_detach (openers_of sem) ptr s ≡ ok (ptr, closed))
      × Holds sem_table taken closed
      × Loose sem_table taken ptr closed
  unfolding taken
  take_step =
      detach-Holds sem_table s (openers sem) xs ys ptr some_sem holds is
        (update-IsUpdate SemList-discrete lists _ _)

  taken-waiters : taken (waiters sem) ≡ lists (waiters sem)
  unfolding taken
  taken-waiters =
      (update-IsUpdate SemList-discrete lists (openers sem) (xs ++ ys)).there (waiters sem)
        (λ e. cc e)

  give_step :
      (list_insert (waiters_of sem) (sem_head closed (waiters sem)).last ptr closed
        ≡ ok (ptr, blocked))
      × Holds sem_table (moved lists (openers sem) (xs ++ ys) (waiters sem) ptr) blocked
  unfolding taken
  give_step =
      subst
        (λ l.
          (list_insert (waiters_of sem) (sem_head closed (waiters sem)).last ptr closed
            ≡ ok (ptr, inserted (waiters_of sem) l [] ptr closed))
          × Holds sem_table (update SemList-discrete taken (waiters sem) (l ++ ptr ∷ []))
              (inserted (waiters_of sem) l [] ptr closed))
        taken-waiters
        (append-Holds sem_table closed (waiters sem) some_sem take_step.1 ptr take_step.2
          (update-IsUpdate SemList-discrete taken _ _))

  pub block-suspend : block sem ptr s ≡ suspend blocked
  unfolding block
  block-suspend =
      rw
        (
          take_step.0,
          ==_ne ptr null some_ptr,
          ==_ne sem null some_sem,
          give_step.0,
          ==_ne ptr null some_ptr,
        )
        refl

  pub blocked-Holds :
      Holds sem_table (moved lists (openers sem) (xs ++ ys) (waiters sem) ptr) blocked
  blocked-Holds = give_step.1

module _ (s : System) (ds : List ℕ) (lists : SemList → List ℕ) (xs ys : List ℕ) (r : ℕ)
    (rs ws zs : List ℕ) (has : HasDescriptors s ds) where
  abbrev sfd : ℕ
  sfd = descriptor_for s ds

  abbrev sem : ℕ
  sem = (s.sem_descriptors.at sfd).semaphore

  abbrev ptr : ℕ
  ptr = (s.sem_descriptors.at sfd).ptr

  abbrev slept : System
  slept = resumed (enlisted (decremented sem s) sem ptr xs ys (lists (waiters sem))) r rs ws

  -- Let the lists of the semaphores and the queues be well formed, the running process be in no
  -- queue and have a descriptor for its argument, whose semaphore and pointer are not NULL. Where
  -- the count of the semaphore is not positive, the pointer is one of its openers, and `r` is the
  -- first ready process, `internal_semWait` ends without a fault. The count falls by one; the
  -- pointer goes to the end of the waiters; the process is Waiting and goes to the end of the
  -- waiting list; `r` leaves the ready list and runs. The 0 that the system call returns is written
  -- to `r`, whose status does not change, and the caller keeps its old return value.
  pub sem_wait-blocks :
      sfd ≢ null
      → sem ≢ null
      → ptr ≢ null
      → Holds sem_table lists s
      → lists (openers sem) ≡ xs ++ ptr ∷ ys
      → Holds queue_table (queues (r ∷ rs) ws zs) s
      → Loose queue_table (queues (r ∷ rs) ws zs) s.running s
      → ltb_ℤ ((s.semaphores.at sem).count -ℤ pos 1) (pos 0) ≡ true
      → (t : System) × (internal_sem_wait s ≡ ok (tt, t))
        × ((t.semaphores.at sem).count ≡ (s.semaphores.at sem).count -ℤ pos 1)
        × Holds sem_table (moved lists (openers sem) (xs ++ ys) (waiters sem) ptr) t
        × Suspended s t r rs ws zs
  sem_wait-blocks some_sfd some_sem some_ptr holds is queued loose negative =
      let s' = decremented sem s in
      let b = enlisted s' sem ptr xs ys (lists (waiters sem)) in
      let sems = sems-frame s sem _ holds in
      let sleep = suspend_lem b r rs ws zs (queues-frame s b refl refl refl refl queued) (record {
        some_item = loose.some_item;
        outside = loose.outside;
        unlinked = loose.unlinked;
      }) in
      let after = blocked-Holds s' sem ptr lists xs ys some_sem some_ptr sems is in
      (
        slept,
        rw
            (
              sem_wait-found s ds has some_sfd some_sem,
              negative,
              block-suspend s' sem ptr lists xs ys some_sem some_ptr sems is,
            )
            sleep.0,
        rw ==_self refl,
        sems-alike b slept refl refl after,
        record {
          runs = sleep.1.runs;
          queued = sleep.1.queued;
          dequeued = sleep.1.dequeued;
          waits = sleep.1.waits;
          kept = sleep.1.kept;
          returned = sleep.1.returned;
          unchanged = sleep.1.unchanged;
        },
      )
