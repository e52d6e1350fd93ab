-- ===== src/Kernel/SemaphoreCalls/Tests/Close.antt =====
-- The theorems on `internal_semClose` at small states with pools of three blocks.
use disastr_os_semaphores.PoolAllocator.{narrow}
use disastr_os_semaphores.Base.{ℕ, ◌≡◌, ◌≢◌, refl, ap, ◌∙◌, length, List, [], ◌∷◌, arith, ok}
use disastr_os_semaphores.Base.Int.{pos}
use disastr_os_semaphores.LinkedList.{null}
use disastr_os_semaphores.LinkedList.Chain.{IsList}
use disastr_os_semaphores.LinkedList.Family.{update, update-IsUpdate}
use disastr_os_semaphores.PoolAllocator.FreeList.{IsPool}
use disastr_os_semaphores.PoolAllocator.Tests.{three-IsPool}
use disastr_os_semaphores.Kernel.{System}
use disastr_os_semaphores.Kernel.Tests.{zero_pcb}
use disastr_os_semaphores.Kernel.Families.{Holds, Loose, insert-Holds, inserted}
use disastr_os_semaphores.Kernel.Families.Bystanders.{insert-Loose}
use disastr_os_semaphores.Kernel.SemLists.{
  SemList, SemList-discrete, openers, waiters, sem_table, sem_list,
}
use disastr_os_semaphores.Kernel.SemaphoreCalls.{internal_sem_close}
use disastr_os_semaphores.Kernel.SemaphoreCalls.Block.{sems-alike}
use disastr_os_semaphores.Kernel.SemaphoreCalls.Close.{CanClose, Closed}
use disastr_os_semaphores.Kernel.SemaphoreCalls.Close.Used.{sem_close-used}
use disastr_os_semaphores.Kernel.SemaphoreCalls.Close.Last.{sem_close-last}
use disastr_os_semaphores.Kernel.SemaphoreCalls.States.{none, one}
use disastr_os_semaphores.Kernel.SemaphoreCalls.Tests.Open.{
  only, equipped, only-IsList, equipped-sems,
}

-- The process at 1 has one descriptor, in the second block, for the semaphore at `sem`, with the
-- pointer in the second block.
abbrev owning : (sem : ℕ) → System
owning sem =
    let s = equipped (pos 0) in
    record s {
      semaphores_list = only sem;
      pcbs = record s.pcbs { at = λ _. record zero_pcb { sem_descriptors = only 1016 } };
      sem_descriptors = record s.sem_descriptors {
        at = λ _. record { pcb = 1; semaphore = sem; fd = pos 0; ptr = 1016 };
      };
    }

owning-sems : (sem : ℕ) → Holds sem_table none (owning sem)
owning-sems sem = sems-alike (equipped (pos 0)) (owning sem) refl refl (equipped-sems (pos 0))

-- The pointer is the only opener.
abbrev opened_once : ℕ → System
opened_once sem = inserted (sem_list (openers sem)) [] [] 1016 (owning sem)

loose : (sem a : ℕ) → a ≢ 0 → Loose sem_table none a (owning sem)
loose sem a some = record { some_item = some; outside = λ k. refl; unlinked = refl }

opened_once-sems : (sem : ℕ) → sem ≢ 0 → Holds sem_table (one (openers sem) 1016) (opened_once sem)
opened_once-sems sem some =
    (insert-Holds sem_table (owning sem) (openers sem) [] [] 1016 some (owning-sems sem) refl
      (loose sem 1016 (λ e. absurd (omega arith)))
      (update-IsUpdate SemList-discrete none (openers sem) _)).1

-- And a process waits, with the pointer at 8.
abbrev contended : System
contended = inserted (sem_list (waiters 100)) [] [] 8 (opened_once 100)

abbrev both : SemList → List ℕ
both = update SemList-discrete (one (openers 100) 1016) (waiters 100) (8 ∷ [])

contended-sems : Holds sem_table both contended
contended-sems =
    let some : 100 ≢ null = λ e. absurd (omega arith) in
    (insert-Holds sem_table (opened_once 100) (waiters 100) [] [] 8 some (opened_once-sems 100 some)
      ((update-IsUpdate SemList-discrete none (openers 100) (1016 ∷ [])).there (waiters 100)
        (λ e. cc e))
      (insert-Loose sem_table (owning 100) (openers 100) [] [] 1016 8 (owning-sems 100)
        (loose 100 8 (λ e. absurd (omega arith))) refl (loose 100 1016 (λ e. absurd (omega arith)))
        (λ (e : 8 ≡ 1016). absurd (omega arith))
        (update-IsUpdate SemList-discrete none (openers 100) (1016 ∷ [])))
      (update-IsUpdate SemList-discrete (one (openers 100) 1016) (waiters 100) (8 ∷ []))).1

both_openers : both (openers 100) ≡ 1016 ∷ []
both_openers =
    (update-IsUpdate SemList-discrete (one (openers 100) 1016) (waiters 100) (8 ∷ [])).there
      (openers 100) (λ e. cc e)
    ∙ (update-IsUpdate SemList-discrete none (openers 100) (1016 ∷ [])).here

both_waiters : both (waiters 100) ≡ 8 ∷ []
both_waiters =
    (update-IsUpdate SemList-discrete (one (openers 100) 1016) (waiters 100) (8 ∷ [])).here

contended-CanClose : CanClose contended 1 1 [] [] [] [] (0 ∷ 2 ∷ []) (0 ∷ 2 ∷ []) both
unfolding narrow
contended-CanClose = record {
  mine = record {
    some_running = λ e. absurd (omega arith);
    list = only-IsList 1016 (λ e. absurd (omega arith));
  };
  found = refl;
  some_sem = λ e. absurd (omega arith);
  pointer = refl;
  holds = contended-sems;
  opens = both_openers;
  descriptors = three-IsPool;
  i_below = omega arith;
  i_out = refl;
  pointers = three-IsPool;
  j_below = omega arith;
  j_out = refl;
}

sem_close-used_example :
    (t : System) × (internal_sem_close contended ≡ ok (tt, t))
    × Closed contended t 100 [] both [] (1 ∷ 0 ∷ 2 ∷ []) (1 ∷ 0 ∷ 2 ∷ [])
sem_close-used_example =
    sem_close-used contended 1 1 [] [] [] [] (0 ∷ 2 ∷ []) (0 ∷ 2 ∷ []) both contended-CanClose
      (λ e. let e' = ap length both_waiters in absurd (omega arith))

once-CanClose :
    CanClose (opened_once 1016) 1 1 [] [] [] [] (0 ∷ 2 ∷ []) (0 ∷ 2 ∷ []) (one (openers 1016) 1016)
unfolding narrow
once-CanClose = record {
  mine = record {
    some_running = λ e. absurd (omega arith);
    list = only-IsList 1016 (λ e. absurd (omega arith));
  };
  found = refl;
  some_sem = λ e. absurd (omega arith);
  pointer = refl;
  holds = opened_once-sems 1016 (λ e. absurd (omega arith));
  opens = (update-IsUpdate SemList-discrete none (openers 1016) (1016 ∷ [])).here;
  descriptors = three-IsPool;
  i_below = omega arith;
  i_out = refl;
  pointers = three-IsPool;
  j_below = omega arith;
  j_out = refl;
}

sem_close-last_example :
    (t : System) × (internal_sem_close (opened_once 1016) ≡ ok (tt, t))
    × Closed
        (opened_once 1016)
        t
        1016
        []
        (one (openers 1016) 1016)
        []
        (1 ∷ 0 ∷ 2 ∷ [])
        (1 ∷ 0 ∷ 2 ∷ [])
    × IsList t.semaphores.links t.semaphores_list []
    × IsPool t.semaphores.pool (1 ∷ 0 ∷ 2 ∷ [])
sem_close-last_example =
    sem_close-last (opened_once 1016) 1 1 1 [] [] [] [] (0 ∷ 2 ∷ []) (0 ∷ 2 ∷ []) (0 ∷ 2 ∷ [])
      (one (openers 1016) 1016) once-CanClose
      ((update-IsUpdate SemList-discrete none (openers 1016) (1016 ∷ [])).there (waiters 1016)
        (λ e. cc e))
      (only-IsList 1016 (λ e. absurd (omega arith))) refl three-IsPool (omega arith) refl
