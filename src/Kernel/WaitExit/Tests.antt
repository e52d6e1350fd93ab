-- ===== src/Kernel/WaitExit/Tests.antt =====
-- The theorem on `internal_wait` at a process with one child, and a pid that is no child's.
use disastr_os_semaphores.PoolAllocator.{narrow}
use disastr_os_semaphores.Base.{
  ◌≡◌, ◌≢◌, refl, [], ◌∷◌, arith, ok, has, false, Disjoint, ◌==◌, if◌then◌else◌,
}
use disastr_os_semaphores.Base.Int.{pos}
use disastr_os_semaphores.LinkedList.{link}
use disastr_os_semaphores.LinkedList.Chain.{IsList}
use disastr_os_semaphores.PoolAllocator.Tests.{three, three-IsPool}
use disastr_os_semaphores.Kernel.{System}
use disastr_os_semaphores.Kernel
use disastr_os_semaphores.Kernel.Families.{Holds}
use disastr_os_semaphores.Kernel.Queues.{Queue, queue, queues, queue_table}
use disastr_os_semaphores.Kernel.WaitExit.Reap.{Reaped, wait-reaps}
use disastr_os_semaphores.Kernel.Tests.{loaded, zero_pcb, no_pool}
use disastr_os_semaphores.Kernel.WaitExit.{internal_wait, sleep_for_child}
use disastr_os_semaphores.Kernel.WaitExit.Wait.{internal_wait_lem}

-- The process at 1 has a child, the process at 2, and waits for the pid 9.
abbrev parent : System
parent = record loaded {
  running = 1;
  pcbs = record {
    links = λ _. link 0 0;
    at = λ _. record zero_pcb {
      syscall_args = λ _. pos 9;
      children = record { first = 50; last = 50; size = pos 1 };
    };
    pool = no_pool;
  };
  pcb_ptrs = record { links = λ _. link 0 0; at = λ _. record { pcb = 2 }; pool = no_pool };
}

internal_wait_lem_example : internal_wait parent ≡ sleep_for_child parent
internal_wait_lem_example =
    internal_wait_lem parent (50 ∷ []) (λ e. absurd (omega arith))
      (record {
        first = refl;
        last = refl;
        size = refl;
        chain = ((λ e. absurd (omega arith)), refl, tt);
        distinct = (refl, tt);
      })
      ((λ e. absurd (omega arith)), tt)

-- The process at 1 waits for any child; its child, in the block at index 1, has ended with 7.
abbrev mourner : System
mourner = record loaded {
  running = 1;
  pcbs = record {
    links = λ _. link 0 0;
    at = λ a.
        if a == 1
        then record zero_pcb { children = record { first = 1016; last = 1016; size = pos 1 } }
        else record zero_pcb { pid = pos 3; return_value = pos 7; status = Kernel.zombie };
    pool = three;
  };
  pcb_ptrs = record { links = λ _. link 0 0; at = λ _. record { pcb = 1016 }; pool = three };
  zombie_list = record { first = 1016; last = 1016; size = pos 1 };
}

mourner-queues : Holds queue_table (queues [] [] (1016 ∷ [])) mourner
mourner-queues = record { each = each; apart = apart }
  where
    each :
        (k : Queue)
        → IsList mourner.pcbs.links ((queue k).head mourner) (queues [] [] (1016 ∷ []) k)
    each Queue.ready = record { first = refl; last = refl; size = refl; chain = tt; distinct = tt }
    each Queue.waiting = record {
      first = refl;
      last = refl;
      size = refl;
      chain = tt;
      distinct = tt;
    }
    each Queue.zombie = record {
      first = refl;
      last = refl;
      size = refl;
      chain = ((λ e. absurd (omega arith)), refl, tt);
      distinct = (refl, tt);
    }

    apart :
        (j k : Queue) → j ≢ k → Disjoint (queues [] [] (1016 ∷ []) j) (queues [] [] (1016 ∷ []) k)
    apart Queue.ready k ne = tt
    apart Queue.waiting k ne = tt
    apart Queue.zombie Queue.ready ne = (refl, tt)
    apart Queue.zombie Queue.waiting ne = (refl, tt)
    apart Queue.zombie Queue.zombie ne = absurd (ne refl)

mourner-outside : (k : Queue) → has 1 (queues [] [] (1016 ∷ []) k) ≡ false
mourner-outside Queue.ready = refl
mourner-outside Queue.waiting = refl
mourner-outside Queue.zombie = refl

wait-reaps_example :
    (t : System) × (internal_wait mourner ≡ ok (tt, t))
    × Reaped mourner t 1016 (pos 0) [] [] [] [] (1 ∷ 0 ∷ 2 ∷ []) (1 ∷ 0 ∷ 2 ∷ [])
unfolding narrow
wait-reaps_example =
    wait-reaps mourner 1 1 [] [] [] [] [] [] (0 ∷ 2 ∷ []) (0 ∷ 2 ∷ [])
      (record {
        first = refl;
        last = refl;
        size = refl;
        chain = ((λ e. absurd (omega arith)), refl, tt);
        distinct = (refl, tt);
      })
      mourner-queues
      (record { some_item = λ e. absurd (omega arith); outside = mourner-outside; unlinked = refl })
      three-IsPool (omega arith) refl three-IsPool (omega arith) refl
      ((λ e. absurd (omega arith)), tt) refl refl refl
