-- ===== src/Kernel/SemaphoreCalls/Existing.antt =====
-- `internal_semOpen` of disastrOS_semopen.c, with a semaphore that there is.
use disastr_os_semaphores.PoolAllocator.{narrow}
use disastr_os_semaphores.Base.{refl, ℕ, ◌≡◌, ◌≢◌, false, List, arith, ==_ne, ok}
use disastr_os_semaphores.Base.Int.{ℤ, pos, ltb_ℤ, ◌==ℤ◌}
use disastr_os_semaphores.LinkedList.{null}
use disastr_os_semaphores.LinkedList.Find.{first_of}
use disastr_os_semaphores.LinkedList.Chain.{IsList}
use disastr_os_semaphores.PoolAllocator.Blocks.{address}
use disastr_os_semaphores.Kernel.{System}
use disastr_os_semaphores.Kernel.Lists.{semaphores_list}
use disastr_os_semaphores.Kernel.SemLists.{SemList}
use disastr_os_semaphores.Kernel.Rules.{find_by-first_of, int_argument-ok}
use disastr_os_semaphores.Kernel.Semaphores.{semaphore_by_id}
use disastr_os_semaphores.Kernel.SemaphoreCalls.{find_or_create, internal_sem_open}
use disastr_os_semaphores.Kernel.SemaphoreCalls.Open.{
  CanOpen, Opened, opened, opened-Opened, opened-counts, open_descriptor-opened,
}

-- The first semaphore of the list with the id that the call asks for, or NULL.
abbrev pub semaphore_for : System → List ℕ → ℕ
semaphore_for s ss =
    first_of (λ a. (s.semaphores.at a).id ==ℤ narrow ((s.pcbs.at s.running).syscall_args 0)) ss

module _ (s : System) (ss : List ℕ) (some_running : s.running ≢ null)
    (list : IsList s.semaphores.links s.semaphores_list ss) where
  abbrev id : ℤ
  id = narrow ((s.pcbs.at s.running).syscall_args 0)

  pub by_id-ok : semaphore_by_id semaphores_list id s ≡ ok (semaphore_for s ss, s)
  unfolding semaphore_by_id
  by_id-ok = find_by-first_of semaphores_list _ s ss (λ e. absurd (omega arith)) list

  -- Where a process runs with well-formed lists, the id as an `int` is not negative, the list of semaphores has
  -- one with that id, and both pools have a free block, with an address that is not NULL and in no
  -- list, `internal_semOpen` ends without a fault, whatever the counter. It returns the next
  -- fd of the process, which goes up by one; the process has a new last descriptor, for the first
  -- semaphore with that id, with that fd and with a pointer that is the last of the openers of the
  -- semaphore; the other lists, the list of semaphores and all counts are as they were.
  pub sem_open-existing :
      (ds : List ℕ) (lists : SemList → List ℕ) (i j : ℕ) (fi fj : List ℕ)
      → ltb_ℤ id (pos 0) ≡ false
      → semaphore_for s ss ≢ null
      → CanOpen s ds lists i j fi fj
      → (t : System) × (internal_sem_open s ≡ ok (tt, t))
        × Opened s t
            (semaphore_for s ss)
            (address s.sem_descriptors.pool i)
            (address s.sem_descriptor_ptrs.pool j)
            ds
            lists
            fi
            fj
        × ((a : ℕ) → (t.semaphores.at a).count ≡ (s.semaphores.at a).count)
        × (t.semaphores_list ≡ s.semaphores_list)
  unfolding internal_sem_open find_or_create
  sem_open-existing ds lists i j fi fj valid some_sem can =
      let sem = semaphore_for s ss in
      (
        opened s sem ds lists i j fi fj some_sem can,
        rw
            (
              int_argument-ok s some_running 0,
              int_argument-ok s some_running 1,
              valid,
              by_id-ok,
              ==_ne sem null some_sem,
              ==_ne sem null some_sem,
            )
            (open_descriptor-opened s sem ds lists i j fi fj some_sem can),
        opened-Opened s sem ds lists i j fi fj some_sem can,
        opened-counts s sem ds lists i j fi fj some_sem can,
        refl,
      )
