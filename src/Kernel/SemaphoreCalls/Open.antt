-- ===== src/Kernel/SemaphoreCalls/Open.antt =====
-- `internal_semOpen` of disastrOS_semopen.c from the allocation of the descriptor on.
use disastr_os_semaphores.Base.{
  ℕ, ◌≡◌, ◌≢◌, refl, sym, ap, ◌∙◌, true, false, List, [], ◌∷◌, ◌++◌, append-nil, ◌==◌, ==_ne,
  ==_self, has, ok,
}
use disastr_os_semaphores.Base.Int.{ℤ, pos, ◌+ℤ◌}
use disastr_os_semaphores.LinkedList.{null}
use disastr_os_semaphores.LinkedList.Chain.{IsList, IsList-frame}
use disastr_os_semaphores.LinkedList.Insert.{insert-append}
use disastr_os_semaphores.LinkedList.Family.{update, update-IsUpdate, inserted_head}
use disastr_os_semaphores.PoolAllocator.FreeList.{IsPool}
use disastr_os_semaphores.PoolAllocator.Blocks.{address, taken-IsPool}
use disastr_os_semaphores.Kernel.{System, Semaphore}
use disastr_os_semaphores.Kernel.Cmd.{modified, pcbs, sem_descriptors, list_insert}
use disastr_os_semaphores.Kernel.Lists.{sem_descriptors_of, openers_of}
use disastr_os_semaphores.Kernel.Families.{Holds, append-Holds, inserted, list_insert-inserted}
use disastr_os_semaphores.Kernel.Families.Bystanders.{Holds-unlinked}
use disastr_os_semaphores.Kernel.SemLists.{SemList, SemList-discrete, openers, waiters, sem_table}
use disastr_os_semaphores.Kernel.Rules.{
  write_at-same, load-ok, modify-ok, return_value-ok, returning,
}
use disastr_os_semaphores.Kernel.Running.{return_value}
use disastr_os_semaphores.Kernel.SemaphoreCalls.{open_descriptor}
use disastr_os_semaphores.Kernel.SemaphoreCalls.Block.{sems-alike}
use disastr_os_semaphores.Kernel.SemaphoreCalls.Allocate.{
  with_descriptor, with_pointer, sem_descriptor_alloc-ok, sem_descriptor_ptr_alloc-ok,
}

-- The running process has the descriptors `ds`, the lists of the semaphores are `lists`, and the
-- next blocks, at the indices `i` and `j`, are in none of them.
pub record CanOpen (s : System) (ds : List ℕ) (lists : SemList → List ℕ) (i j : ℕ) (fi fj : List ℕ)
    : Type 0 where
  pub some_running : s.running ≢ null
  pub mine : IsList s.sem_descriptors.links (s.pcbs.at s.running).sem_descriptors ds
  pub holds : Holds sem_table lists s
  pub descriptors : IsPool s.sem_descriptors.pool (i ∷ fi)
  pub some_descriptor : address s.sem_descriptors.pool i ≢ null
  pub fresh_descriptor : has (address s.sem_descriptors.pool i) ds ≡ false
  pub pointers : IsPool s.sem_descriptor_ptrs.pool (j ∷ fj)
  pub some_pointer : address s.sem_descriptor_ptrs.pool j ≢ null
  pub fresh_pointer : (k : SemList) → has (address s.sem_descriptor_ptrs.pool j) (lists k) ≡ false

-- From `s` to `t` the running process has opened the semaphore, with the descriptor at `d` and the
-- pointer at `x`.
pub record Opened (s t : System) (sem d x : ℕ) (ds : List ℕ) (lists : SemList → List ℕ)
    (fi fj : List ℕ) : Type 0 where
  pub running : t.running ≡ s.running
  pub returned : (t.pcbs.at s.running).syscall_retvalue ≡ (s.pcbs.at s.running).last_sem_fd
  pub next_fd : (t.pcbs.at s.running).last_sem_fd ≡ (s.pcbs.at s.running).last_sem_fd +ℤ pos 1
  pub mine : IsList t.sem_descriptors.links (t.pcbs.at s.running).sem_descriptors (ds ++ d ∷ [])
  pub holds :
      Holds sem_table
        (update SemList-discrete lists (openers sem) (lists (openers sem) ++ x ∷ []))
        t
  pub descriptor :
      t.sem_descriptors.at d
      ≡ record { pcb = s.running; semaphore = sem; fd = (s.pcbs.at s.running).last_sem_fd; ptr = x }
  pub pointer : t.sem_descriptor_ptrs.at x ≡ record { descriptor = d }
  pub descriptors : IsPool t.sem_descriptors.pool fi
  pub pointers : IsPool t.sem_descriptor_ptrs.pool fj

module _ (s : System) (sem : ℕ) (ds : List ℕ) (lists : SemList → List ℕ) (i j : ℕ) (fi fj : List ℕ)
    (some_sem : sem ≢ null) (can : CanOpen s ds lists i j fi fj) where
  abbrev d : ℕ
  d = address s.sem_descriptors.pool i

  abbrev x : ℕ
  x = address s.sem_descriptor_ptrs.pool j

  abbrev fd : ℤ
  fd = (s.pcbs.at s.running).last_sem_fd

  abbrev described : System
  described = with_descriptor i fd sem s.running s

  abbrev pointed : System
  pointed = with_pointer j d described

  abbrev owned : System
  owned = inserted (sem_descriptors_of s.running) ds [] d pointed

  abbrev linked : System
  linked = modified sem_descriptors d (λ des. record des { ptr = x }) owned

  abbrev listed : System
  listed = inserted (openers_of sem) (lists (openers sem)) [] x linked

  abbrev counted : System
  counted = modified pcbs s.running (λ p. record p { last_sem_fd = p.last_sem_fd +ℤ pos 1 }) listed

  abbrev pub opened : System
  opened = returning fd counted

  apart : (a : ℕ) → has a ds ≡ true → (a == d) ≡ false
  apart a m = ==_ne a d (λ e. cc (sym m ∙ ap (λ b. has b ds) e ∙ can.fresh_descriptor))

  own_step :
      (list_insert
          (sem_descriptors_of s.running)
          (s.pcbs.at s.running).sem_descriptors.last
          d
          pointed
        ≡ ok (d, owned))
      × IsList owned.sem_descriptors.links
          (inserted_head (s.pcbs.at s.running).sem_descriptors ds [] d)
          (ds ++ d ∷ [])
  own_step =
      let is : IsList pointed.sem_descriptors.links (s.pcbs.at s.running).sem_descriptors
          (ds ++ []) =
        rw (append-nil ds) (
          IsList-frame s.sem_descriptors.links pointed.sem_descriptors.links can.mine
            λ a m. rw (apart a m) refl) in
      let step =
        insert-append pointed.sem_descriptors.links (s.pcbs.at s.running).sem_descriptors ds [] d is
          can.some_descriptor (rw (append-nil ds) can.fresh_descriptor) (rw ==_self refl) in
      (
        ap (λ p. list_insert (sem_descriptors_of s.running) p d pointed) can.mine.last
            ∙ list_insert-inserted (sem_descriptors_of s.running) pointed ds [] d can.some_running
                step.0,
        step.1,
      )

  -- The lists with the new pointer.
  abbrev pub openers_with : SemList → List ℕ
  openers_with = update SemList-discrete lists (openers sem) (lists (openers sem) ++ x ∷ [])

  linked-Holds : Holds sem_table lists linked
  linked-Holds =
      Holds-unlinked sem_table s linked x (λ a ne. rw ne refl) go can.fresh_pointer can.holds
    where
      go : (k : SemList) → (sem_table.ref k).head linked ≡ (sem_table.ref k).head s
      go (openers a) = refl
      go (waiters a) = refl

  list_step :
      (list_insert (openers_of sem) (linked.semaphores.at sem).descriptors.last x linked
        ≡ ok (x, listed))
      × Holds sem_table openers_with listed
  list_step =
      append-Holds sem_table linked (openers sem) some_sem linked-Holds x
        (record {
          some_item = can.some_pointer;
          outside = can.fresh_pointer;
          unlinked = rw ==_self refl;
        })
        (update-IsUpdate SemList-discrete lists (openers sem) (lists (openers sem) ++ x ∷ []))

  fd_at : (counted.sem_descriptors.at d).fd ≡ fd
  fd_at = rw ==_self refl

  pub open_descriptor-opened : open_descriptor sem s ≡ ok (tt, opened)
  unfolding open_descriptor
  open_descriptor-opened =
      rw
        (
          load-ok pcbs s.running s can.some_running,
          sem_descriptor_alloc-ok s i fi fd sem s.running can.descriptors can.some_descriptor,
          ==_ne d null can.some_descriptor,
          sem_descriptor_ptr_alloc-ok described j fj d can.pointers can.some_pointer,
          ==_ne x null can.some_pointer,
          ==_ne s.running null can.some_running,
          own_step.0,
          ==_ne d null can.some_descriptor,
          modify-ok sem_descriptors d owned can.some_descriptor,
          ==_ne sem null some_sem,
          list_step.0,
          ==_ne x null can.some_pointer,
          modify-ok pcbs s.running listed can.some_running,
          load-ok sem_descriptors d counted can.some_descriptor,
        )
        (ap (λ v. return_value v counted) fd_at ∙ return_value-ok counted can.some_running fd)

  pub opened-Opened : Opened s opened sem d x ds lists fi fj
  opened-Opened = record {
    running = refl;
    returned = rw ==_self refl;
    next_fd = rw ==_self refl;
    mine = rw ==_self own_step.1;
    holds = sems-alike listed opened refl refl list_step.1;
    descriptor = rw ==_self refl;
    pointer = rw ==_self refl;
    descriptors = taken-IsPool s.sem_descriptors.pool i fi can.descriptors;
    pointers = taken-IsPool s.sem_descriptor_ptrs.pool j fj can.pointers;
  }

  pub opened-counts : (a : ℕ) → (opened.semaphores.at a).count ≡ (s.semaphores.at a).count
  opened-counts = write_at-same (λ (r : Semaphore). r.count) s.semaphores.at sem _ refl
