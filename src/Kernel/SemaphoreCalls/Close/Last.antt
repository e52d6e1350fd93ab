-- ===== src/Kernel/SemaphoreCalls/Close/Last.antt =====
-- `internal_semClose` of disastrOS_semclose.c where the semaphore goes with its last opener.
use mathlib.Core.Path.{ap₂}
use disastr_os_semaphores.Base.{
  ℕ, ◌<◌, ◌≡◌, refl, ap, ◌∙◌, true, false, ◌&&◌, List, [], ◌∷◌, ◌++◌, arith, ==_ne, ==_self, has,
  length, ok,
}
use disastr_os_semaphores.Base.Int.{pos, ◌==ℤ◌}
use disastr_os_semaphores.LinkedList.{null}
use disastr_os_semaphores.LinkedList.Chain.{IsList}
use disastr_os_semaphores.LinkedList.Detach.{detach-remove}
use disastr_os_semaphores.PoolAllocator.FreeList.{IsPool}
use disastr_os_semaphores.PoolAllocator.Blocks.{address, released-IsPool}
use disastr_os_semaphores.Kernel.{System, Semaphore}
use disastr_os_semaphores.Kernel.Cmd.{semaphores, list_detach}
use disastr_os_semaphores.Kernel.Lists.{semaphores_list}
use disastr_os_semaphores.Kernel.Families.{Holds-frame, detached, list_detach-detached}
use disastr_os_semaphores.Kernel.SemLists.{SemList, openers, waiters, sem_table}
use disastr_os_semaphores.Kernel.Rules.{write_at-same, load-ok, free_block-ok, freed}
use disastr_os_semaphores.Kernel.Semaphores.{semaphore_free}
use disastr_os_semaphores.Kernel.SemaphoreCalls.{close_semaphore, internal_sem_close}
use disastr_os_semaphores.PoolAllocator.{success}
use disastr_os_semaphores.Kernel.Cmd.{free_block}
use disastr_os_semaphores.Kernel.SemaphoreCalls.Close.{
  CanClose, Closed, finished, finish_close-ok, sem, released, own_step, close-released,
  openers_size, waiters_size, openers_first, openers_last, released-Holds,
}

module _ (s : System) (i j k : ℕ) (ys zs us vs fi fj fk : List ℕ) (lists : SemList → List ℕ)
    (can : CanClose s i j ys zs [] [] fi fj lists) where
  abbrev u : System
  u = released s i j ys zs [] [] fi fj lists can

  abbrev its_sem : ℕ
  its_sem = sem s i j ys zs [] [] fi fj lists can

  -- The state after the semaphore was taken out of the list of semaphores, and after its block was
  -- freed.
  abbrev unhooked : System
  unhooked = detached semaphores_list us vs its_sem u

  abbrev gone : System
  gone = freed semaphores k unhooked

  unused :
      lists (waiters its_sem) ≡ []
      → ((u.semaphores.at its_sem).descriptors.size ==ℤ pos 0
          && (u.semaphores.at its_sem).waiting_descriptors.size ==ℤ pos 0)
        ≡ true
  unused none =
      ap₂ (λ a b. a ==ℤ pos 0 && b ==ℤ pos 0) (openers_size s i j ys zs [] [] fi fj lists can)
        (waiters_size s i j ys zs [] [] fi fj lists can ∙ ap (λ l. pos (length l)) none)

  unhook_step :
      IsList s.semaphores.links s.semaphores_list (us ++ its_sem ∷ vs)
      → (list_detach semaphores_list its_sem u ≡ ok (its_sem, unhooked))
        × IsList unhooked.semaphores.links unhooked.semaphores_list (us ++ vs)
  unhook_step list =
      let step = detach-remove s.semaphores.links s.semaphores_list us vs its_sem list in
      (
        list_detach-detached semaphores_list u us vs its_sem (λ e. absurd (omega arith)) step.0,
        step.1,
      )

  free_step :
      its_sem ≡ address s.semaphores.pool k
      → IsPool s.semaphores.pool fk
      → k < s.semaphores.pool.size_max
      → has k fk ≡ false
      → semaphore_free its_sem unhooked ≡ ok (success, gone)
  unfolding semaphore_free
  free_step e pool below out =
      rw
        (
          load-ok semaphores its_sem unhooked can.some_sem,
          openers_first s i j ys zs [] [] fi fj lists can,
          openers_last s i j ys zs [] [] fi fj lists can,
        )
        (ap (λ p. free_block semaphores p unhooked) e
          ∙ free_block-ok semaphores unhooked k fk pool below out)

  -- Where a process runs, its list of descriptors, the lists of the semaphores and the list of
  -- semaphores are well formed, the first descriptor with the fd that was passed is in block `i`, its
  -- pointer in block `j` is the only opener of its semaphore, no process waits on that, and it is in
  -- block `k` and in the list of semaphores, and the three blocks are handed out, `internal_semClose`
  -- ends without a fault and returns 0: beside the descriptor and the pointer the semaphore is out of
  -- its list, where the other semaphores stay in order, and its block is free.
  pub sem_close-last :
      lists (waiters its_sem) ≡ []
      → IsList s.semaphores.links s.semaphores_list (us ++ its_sem ∷ vs)
      → its_sem ≡ address s.semaphores.pool k
      → IsPool s.semaphores.pool fk
      → k < s.semaphores.pool.size_max
      → has k fk ≡ false
      → (t : System) × (internal_sem_close s ≡ ok (tt, t))
        × Closed s t its_sem (ys ++ zs) lists [] (i ∷ fi) (j ∷ fj)
        × IsList t.semaphores.links t.semaphores_list (us ++ vs)
        × IsPool t.semaphores.pool (k ∷ fk)
  unfolding close_semaphore
  sem_close-last none list e pool below out = (
    finished gone,
    close-released s i j ys zs [] [] fi fj lists can
        ∙ rw
            (
              ==_ne its_sem null can.some_sem,
              unused none,
              (unhook_step list).0,
              ==_ne its_sem null can.some_sem,
              free_step e pool below out,
            )
            (finish_close-ok gone can.mine.some_running),
    record {
      running = refl;
      returned = rw ==_self refl;
      next_fd = rw ==_self refl;
      mine = rw ==_self (own_step s i j ys zs [] [] fi fj lists can).1;
      holds =
          Holds-frame sem_table u (finished gone) refl go
            (released-Holds s i j ys zs [] [] fi fj lists can);
      descriptors =
          released-IsPool s.sem_descriptors.pool i fi can.descriptors can.i_below can.i_out;
      pointers = released-IsPool s.sem_descriptor_ptrs.pool j fj can.pointers can.j_below can.j_out;
      counts = write_at-same (λ (r : Semaphore). r.count) s.semaphores.at its_sem _ refl;
    },
    (unhook_step list).1,
    released-IsPool s.semaphores.pool k fk pool below out,
  )
    where
      go : (q : SemList) → (sem_table.ref q).head (finished gone) ≡ (sem_table.ref q).head u
      go (openers a) = refl
      go (waiters a) = refl
