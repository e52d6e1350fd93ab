-- ===== src/Kernel/SemaphoreCalls/Tests.antt =====
-- The theorems on the semaphore calls at small states.
mod Open
mod Close
use disastr_os_semaphores.PoolAllocator.{narrow}
use disastr_os_semaphores.Base.{sym, ap, length, ℕ, ◌≡◌, refl, List, [], ◌∷◌, arith, ok, fault}
use disastr_os_semaphores.Base.Int.{pos, negsuc, ◌+ℤ◌, ◌-ℤ◌}
use disastr_os_semaphores.LinkedList.Family.{update-IsUpdate}
use disastr_os_semaphores.Kernel.{System}
use disastr_os_semaphores.Kernel.Constants.Error
use disastr_os_semaphores.Kernel.Rules.{returning}
use disastr_os_semaphores.Kernel.Families.{Holds}
use disastr_os_semaphores.Kernel.Queues.{ready, waiting, waiting-IsUpdate}
use disastr_os_semaphores.Kernel.SemLists.{SemList, SemList-discrete, openers, waiters, sem_table}
use disastr_os_semaphores.Kernel.SemaphoreCalls.{
  internal_sem_close, internal_sem_wait, internal_sem_post, suspend,
}
use disastr_os_semaphores.Kernel.SemaphoreCalls.Missing.{missing_descriptor}
use disastr_os_semaphores.Kernel.SemaphoreCalls.Suspend.{Suspended, suspend_lem, resumed}
use disastr_os_semaphores.Kernel.SemaphoreCalls.Block.{moved, sem_wait-blocks}
use disastr_os_semaphores.Kernel.SemaphoreCalls.Wake.{Woken}
use disastr_os_semaphores.Kernel.SemaphoreCalls.Balance.{
  IsBalanced, sem_wait-IsBalanced, sem_post-IsBalanced,
}
use disastr_os_semaphores.Kernel.SemaphoreCalls.Post.{sem_post-fault, sem_post-wakes}
use disastr_os_semaphores.Kernel.SemaphoreCalls.States.{
  quiet, quiet-HasDescriptors, none, quiet-sems, one, busy-queues, busy-sems, contender,
  contender-HasDescriptors, contender-Loose, contender-queues, holder, holder-HasDescriptors,
  holder-asleep,
}

missing_descriptor_example :
    (internal_sem_close (quiet (pos 4) (pos 0))
      ≡ ok (tt, returning Error.sem_des_list (quiet (pos 4) (pos 0))))
    × (internal_sem_wait (quiet (pos 4) (pos 0))
        ≡ ok (tt, returning Error.sem_des_list (quiet (pos 4) (pos 0))))
    × (internal_sem_post (quiet (pos 4) (pos 0))
        ≡ ok (tt, returning Error.sem_des_list (quiet (pos 4) (pos 0))))
unfolding narrow
missing_descriptor_example =
    missing_descriptor (quiet (pos 4) (pos 0)) (5 ∷ []) (quiet-HasDescriptors _ _) refl

sem_post-fault_example : internal_sem_post (quiet (pos 0) (negsuc 3)) ≡ fault
unfolding ◌+ℤ◌ narrow
sem_post-fault_example =
    sem_post-fault (quiet (pos 0) (negsuc 3)) (5 ∷ []) (quiet-HasDescriptors _ _) none
      (λ e. absurd (omega arith)) (λ e. absurd (omega arith)) (quiet-sems _ _) refl refl

sem_wait-blocks_example :
    (t : System) × (internal_sem_wait contender ≡ ok (tt, t))
    × ((t.semaphores.at 100).count ≡ negsuc 0)
    × Holds sem_table (moved (one (openers 100) 7) (openers 100) [] (waiters 100) 7) t
    × Suspended contender t 2 [] [] []
unfolding ◌-ℤ◌ narrow
sem_wait-blocks_example =
    sem_wait-blocks contender (5 ∷ []) (one (openers 100) 7) [] [] 2 [] [] []
      (record {
        some_running = (quiet-HasDescriptors (pos 0) (pos 0)).some_running;
        list = (quiet-HasDescriptors (pos 0) (pos 0)).list;
      })
      (λ e. absurd (omega arith)) (λ e. absurd (omega arith)) (λ e. absurd (omega arith))
      (busy-sems ready (openers 100) 7 (pos 0) (λ e. absurd (omega arith))
        (λ e. absurd (omega arith)))
      (update-IsUpdate SemList-discrete none (openers 100) _).here contender-queues contender-Loose
      refl

sem_wait-IsBalanced_example :
    (t : System) × (lists' : SemList → List ℕ) × (internal_sem_wait contender ≡ ok (tt, t))
    × ((t.semaphores.at 100).count ≡ negsuc 0)
    × IsBalanced t lists' 100
unfolding ◌-ℤ◌ narrow
sem_wait-IsBalanced_example =
    sem_wait-IsBalanced contender (5 ∷ []) (one (openers 100) 7) contender-HasDescriptors
      (λ e. absurd (omega arith)) [] [] 2 [] [] [] (λ e. absurd (omega arith))
      (λ e. absurd (omega arith))
      (record {
        holds =
            busy-sems ready (openers 100) 7 (pos 0) (λ e. absurd (omega arith))
              (λ e. absurd (omega arith));
        balanced = ap length (
            sym (
              (update-IsUpdate SemList-discrete none (openers 100) _).there (waiters 100)
                (λ e. cc e)));
      })
      (update-IsUpdate SemList-discrete none (openers 100) _).here contender-queues contender-Loose

sem_post-wakes_example :
    (t : System) × (internal_sem_post holder ≡ ok (tt, t))
    × ((t.semaphores.at 100).count ≡ pos 0)
    × Holds sem_table (moved (one (waiters 100) 8) (waiters 100) [] (openers 100) 8) t
    × Woken holder t 2 [] [] []
unfolding ◌+ℤ◌ narrow
sem_post-wakes_example =
    sem_post-wakes holder (5 ∷ [])
      (record {
        some_running = (quiet-HasDescriptors (pos 0) (pos 0)).some_running;
        list = (quiet-HasDescriptors (pos 0) (pos 0)).list;
      })
      (one (waiters 100) 8) (λ e. absurd (omega arith)) (λ e. absurd (omega arith))
      (busy-sems waiting (waiters 100) 8 (negsuc 0) (λ e. absurd (omega arith))
        (λ e. absurd (omega arith)))
      refl 8 [] [] [] [] [] (update-IsUpdate SemList-discrete none (waiters 100) _).here
      (λ e. absurd (omega arith))
      (busy-queues waiting [] (2 ∷ []) (waiters 100) 8 (negsuc 0)
        (waiting-IsUpdate [] [] [] (2 ∷ [])))

sem_post-IsBalanced_example :
    (t : System) × (lists' : SemList → List ℕ) × (internal_sem_post holder ≡ ok (tt, t))
    × ((t.semaphores.at 100).count ≡ pos 0)
    × IsBalanced t lists' 100
unfolding ◌+ℤ◌ narrow
sem_post-IsBalanced_example =
    sem_post-IsBalanced holder (5 ∷ []) (one (waiters 100) 8) holder-HasDescriptors
      (λ e. absurd (omega arith)) [] (2 ∷ []) [] (λ e. absurd (omega arith))
      (record {
        holds =
            busy-sems waiting (waiters 100) 8 (negsuc 0) (λ e. absurd (omega arith))
              (λ e. absurd (omega arith));
        balanced =
            ap length (sym (update-IsUpdate SemList-discrete none (waiters 100) (8 ∷ [])).here);
      })
      (busy-queues waiting [] (2 ∷ []) (waiters 100) 8 (negsuc 0)
        (waiting-IsUpdate [] [] [] (2 ∷ [])))
      holder-asleep
