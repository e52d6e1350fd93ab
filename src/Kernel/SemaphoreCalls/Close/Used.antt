-- ===== src/Kernel/SemaphoreCalls/Close/Used.antt =====
-- `internal_semClose` of disastrOS_semclose.c where the semaphore stays.
use mathlib.Core.Path.{ap₂}
use disastr_os_semaphores.Base.{
  ℕ, ◌≡◌, ◌≢◌, refl, ◌∙◌, false, ◌+◌, ◌&&◌, List, ◌∷◌, ◌++◌, arith, ==_ne, ==_self, length, ok,
}
use disastr_os_semaphores.Base.Int.{pos, ◌==ℤ◌}
use disastr_os_semaphores.LinkedList.{null}
use disastr_os_semaphores.PoolAllocator.Blocks.{released-IsPool}
use disastr_os_semaphores.Kernel.{System, Semaphore}
use disastr_os_semaphores.Kernel.SemLists.{SemList, waiters}
use disastr_os_semaphores.Kernel.Rules.{write_at-same}
use disastr_os_semaphores.Kernel.SemaphoreCalls.{close_semaphore, internal_sem_close}
use disastr_os_semaphores.Kernel.SemaphoreCalls.Block.{sems-alike}
use disastr_os_semaphores.Kernel.SemaphoreCalls.Close.{
  CanClose, Closed, finished, finish_close-ok, sem, released, own_step, close-released,
  openers_size, waiters_size, released-Holds,
}

module _ (s : System) (i j : ℕ) (ys zs us vs fi fj : List ℕ) (lists : SemList → List ℕ)
    (can : CanClose s i j ys zs us vs fi fj lists) where
  abbrev u : System
  u = released s i j ys zs us vs fi fj lists can

  abbrev its_sem : ℕ
  its_sem = sem s i j ys zs us vs fi fj lists can

  used :
      length (us ++ vs) + length (lists (waiters its_sem)) ≢ 0
      → ((u.semaphores.at its_sem).descriptors.size ==ℤ pos 0
          && (u.semaphores.at its_sem).waiting_descriptors.size ==ℤ pos 0)
        ≡ false
  used some =
      ap₂ (λ a b. a ==ℤ pos 0 && b ==ℤ pos 0) (openers_size s i j ys zs us vs fi fj lists can)
        (waiters_size s i j ys zs us vs fi fj lists can)
      ∙ ground arith

  -- Where a process runs, its list of descriptors and the lists of the semaphores are well formed,
  -- the first descriptor with the fd that was passed is in block `i`, its pointer in block `j` is one
  -- of the openers of its semaphore, both blocks are handed out, and the semaphore has another opener
  -- or a waiter, `internal_semClose` ends without a fault and returns 0: the descriptor and the
  -- pointer are out of their lists, the other items stay, both blocks are free, the next fd
  -- of the process goes down by one, whichever fd was closed, and no count changes.
  pub sem_close-used :
      length (us ++ vs) + length (lists (waiters its_sem)) ≢ 0
      → (t : System) × (internal_sem_close s ≡ ok (tt, t))
        × Closed s t its_sem (ys ++ zs) lists (us ++ vs) (i ∷ fi) (j ∷ fj)
  unfolding close_semaphore
  sem_close-used some = (
    finished u,
    close-released s i j ys zs us vs fi fj lists can
        ∙ rw (==_ne its_sem null can.some_sem, used some) (finish_close-ok u can.mine.some_running),
    record {
      running = refl;
      returned = rw ==_self refl;
      next_fd = rw ==_self refl;
      mine = rw ==_self (own_step s i j ys zs us vs fi fj lists can).1;
      holds =
          sems-alike u (finished u) refl refl (released-Holds s i j ys zs us vs fi fj lists can);
      descriptors =
          released-IsPool s.sem_descriptors.pool i fi can.descriptors can.i_below can.i_out;
      pointers = released-IsPool s.sem_descriptor_ptrs.pool j fj can.pointers can.j_below can.j_out;
      counts = write_at-same (λ (r : Semaphore). r.count) s.semaphores.at its_sem _ refl;
    },
  )
