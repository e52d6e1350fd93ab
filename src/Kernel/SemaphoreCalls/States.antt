-- ===== src/Kernel/SemaphoreCalls/States.antt =====
-- Small states of the kernel, for the theorems on system calls to stand at.
use disastr_os_semaphores.Base.{
  true, ℕ, ◌≡◌, ◌≢◌, refl, false, List, [], ◌∷◌, ◌++◌, arith, ◌==◌, if◌then◌else◌, has, Disjoint,
}
use disastr_os_semaphores.Base.Int.{ℤ, pos, negsuc}
use disastr_os_semaphores.LinkedList.{link, null, init, insert_links}
use disastr_os_semaphores.LinkedList.Chain.{IsList}
use disastr_os_semaphores.LinkedList.Family.{IsUpdate, update, update-IsUpdate}
use disastr_os_semaphores.Kernel.{System, Pcb}
use disastr_os_semaphores.Kernel.Tests.{loaded, zero_pcb, no_pool}
use disastr_os_semaphores.Kernel.Families.{Holds, Loose, insert-Holds, inserted}
use disastr_os_semaphores.Kernel.Queues.{
  Queue, ready, waiting, zombie, queues, queue_table, ready-IsUpdate, queue, queue-owned,
  queues-frame,
}
use disastr_os_semaphores.Kernel.SemLists.{
  SemList, SemList-discrete, openers, waiters, sem_table, sem_list,
}
use disastr_os_semaphores.Kernel.SemaphoreCalls.Found.{HasDescriptors}
use disastr_os_semaphores.Kernel.SemaphoreCalls.Block.{sems-alike}
use disastr_os_semaphores.Kernel.SemaphoreCalls.Wake.{process_of}

-- A process whose one descriptor of a semaphore is at 5.
abbrev pub opener : Pcb
opener = record zero_pcb { sem_descriptors = record { first = 5; last = 5; size = pos 1 } }

-- The process at 1 runs, and has called with `fd`; the semaphore at 100 has the given count, and
-- each list is empty.
abbrev pub quiet : (fd count : ℤ) → System
quiet fd count = record loaded {
  running = 1;
  pcbs = record {
    links = λ _. link 0 0;
    at = λ _. record opener { syscall_args = λ _. fd };
    pool = no_pool;
  };
  sem_descriptors = record {
    links = λ _. link 0 0;
    at = λ a. record { pcb = (if a == 5 then 1 else 2); semaphore = 100; fd = pos 0; ptr = 7 };
    pool = no_pool;
  };
  sem_descriptor_ptrs = record {
    links = λ _. link 0 0;
    at = λ a. record { descriptor = (if a == 7 then 5 else 6) };
    pool = no_pool;
  };
  semaphores = record {
    links = λ _. link 0 0;
    at = λ _. record { id = pos 3; count = count; descriptors = init; waiting_descriptors = init };
    pool = no_pool;
  };
}

pub quiet-HasDescriptors : (fd count : ℤ) → HasDescriptors (quiet fd count) (5 ∷ [])
quiet-HasDescriptors fd count = record {
  some_running = λ e. absurd (omega arith);
  list = record {
    first = refl;
    last = refl;
    size = refl;
    chain = ((λ e. absurd (omega arith)), refl, tt);
    distinct = (refl, tt);
  };
}

abbrev pub none : SemList → List ℕ
none k = []

pub quiet-sems : (fd count : ℤ) → Holds sem_table none (quiet fd count)
quiet-sems fd count = record { each = each; apart = λ j k ne. tt }
  where
    each : (k : SemList) → IsList (λ _. link 0 0) ((sem_list k).head (quiet fd count)) []
    each (openers a) = record { first = refl; last = refl; size = refl; chain = tt; distinct = tt }
    each (waiters a) = record { first = refl; last = refl; size = refl; chain = tt; distinct = tt }

pub quiet-queues : (fd count : ℤ) → Holds queue_table (queues [] [] []) (quiet fd count)
quiet-queues fd count = record { each = each; apart = apart }
  where
    each :
        (k : Queue) → IsList (λ _. link 0 0) ((queue k).head (quiet fd count)) (queues [] [] [] k)
    each ready = record { first = refl; last = refl; size = refl; chain = tt; distinct = tt }
    each waiting = record { first = refl; last = refl; size = refl; chain = tt; distinct = tt }
    each zombie = record { first = refl; last = refl; size = refl; chain = tt; distinct = tt }

    apart : (j k : Queue) → j ≢ k → Disjoint (queues [] [] [] j) (queues [] [] [] k)
    apart ready k ne = tt
    apart waiting k ne = tt
    apart zombie k ne = tt

-- The process at 2 is in one queue, and the pointer `ptr` in one list of the semaphore.
abbrev pub busy : Queue → SemList → (ptr : ℕ) → (count : ℤ) → System
busy q k ptr count =
    inserted (sem_list k) [] [] ptr (inserted (queue q) [] [] 2 (quiet (pos 0) count))

abbrev pub one : SemList → ℕ → SemList → List ℕ
one k ptr = update SemList-discrete none k (ptr ∷ [])

pub apart_from_running :
    (rs ws : List ℕ)
    → has 1 rs ≡ false
    → has 1 ws ≡ false
    → (k : Queue) → has 1 (queues rs ws [] k) ≡ false
apart_from_running rs ws r w ready = r
apart_from_running rs ws r w waiting = w
apart_from_running rs ws r w zombie = refl

pub queued_step :
    (q : Queue) (rs ws : List ℕ) (count : ℤ)
    → IsUpdate (queues [] [] []) (queues rs ws []) q (2 ∷ [])
    → Holds queue_table (queues rs ws []) (inserted (queue q) [] [] 2 (quiet (pos 0) count))
queued_step q rs ws count u =
    (insert-Holds queue_table (quiet (pos 0) count) q [] [] 2 (queue-owned q) (quiet-queues _ _)
      (idle q)
      (record { some_item = λ e. absurd (omega arith); outside = outside; unlinked = refl }) u).1
  where
    idle : (q : Queue) → queues [] [] [] q ≡ [] ++ []
    idle ready = refl
    idle waiting = refl
    idle zombie = refl

    outside : (k : Queue) → has 2 (queues [] [] [] k) ≡ false
    outside ready = refl
    outside waiting = refl
    outside zombie = refl

pub busy-queues :
    (q : Queue) (rs ws : List ℕ) (k : SemList) (ptr : ℕ) (count : ℤ)
    → IsUpdate (queues [] [] []) (queues rs ws []) q (2 ∷ [])
    → Holds queue_table (queues rs ws []) (busy q k ptr count)
busy-queues q rs ws (openers a) ptr count u =
    queues-frame _ (busy q (openers a) ptr count) refl refl refl refl (queued_step q rs ws count u)
busy-queues q rs ws (waiters a) ptr count u =
    queues-frame _ (busy q (waiters a) ptr count) refl refl refl refl (queued_step q rs ws count u)

pub busy-sems :
    (q : Queue) (k : SemList) (ptr : ℕ) (count : ℤ)
    → (sem_list k).owner ≢ null
    → ptr ≢ null
    → Holds sem_table (one k ptr) (busy q k ptr count)
busy-sems q k ptr count owned some_ptr =
    let s = inserted (queue q) [] [] 2 (quiet (pos 0) count) in
    (insert-Holds sem_table s k [] [] ptr owned (calm q) refl
      (record { some_item = some_ptr; outside = λ k. refl; unlinked = unlinked q })
      (update-IsUpdate SemList-discrete none k _)).1
  where
    calm : (q : Queue) → Holds sem_table none (inserted (queue q) [] [] 2 (quiet (pos 0) count))
    calm ready = sems-alike (quiet (pos 0) count) _ refl refl (quiet-sems _ _)
    calm waiting = sems-alike (quiet (pos 0) count) _ refl refl (quiet-sems _ _)
    calm zombie = sems-alike (quiet (pos 0) count) _ refl refl (quiet-sems _ _)

    unlinked :
        (q : Queue)
        → (inserted (queue q) [] [] 2 (quiet (pos 0) count)).sem_descriptor_ptrs.links ptr
          ≡ link null null
    unlinked ready = refl
    unlinked waiting = refl
    unlinked zombie = refl

-- The process at 2 is ready, and the pointer at 7 is with the openers.
abbrev pub contender : System
contender = busy ready (openers 100) 7 (pos 0)

pub contender-HasDescriptors : HasDescriptors contender (5 ∷ [])
contender-HasDescriptors = record {
  some_running = (quiet-HasDescriptors (pos 0) (pos 0)).some_running;
  list = (quiet-HasDescriptors (pos 0) (pos 0)).list;
}

pub contender-Loose : Loose queue_table (queues (2 ∷ []) [] []) 1 contender
unfolding insert_links
contender-Loose = record {
  some_item = λ e. absurd (omega arith);
  outside = apart_from_running (2 ∷ []) [] refl refl;
  unlinked = refl;
}

pub contender-queues : Holds queue_table (queues (2 ∷ []) [] []) contender
contender-queues =
    busy-queues ready (2 ∷ []) [] (openers 100) 7 (pos 0) (ready-IsUpdate [] [] [] (2 ∷ []))

-- The process at 2 waits, and the pointer at 8, to its descriptor, is with the waiters.
abbrev pub holder : System
holder = busy waiting (waiters 100) 8 (negsuc 0)

pub holder-HasDescriptors : HasDescriptors holder (5 ∷ [])
holder-HasDescriptors = record {
  some_running = (quiet-HasDescriptors (pos 0) (negsuc 0)).some_running;
  list = (quiet-HasDescriptors (pos 0) (negsuc 0)).list;
}

pub holder-asleep :
    (a : ℕ)
    → has a (one (waiters 100) 8 (waiters 100)) ≡ true
    → ((holder.sem_descriptor_ptrs.at a).descriptor ≢ null)
      × (has (process_of holder a) (2 ∷ []) ≡ true)
holder-asleep a m =
    let m' : has a (8 ∷ []) ≡ true =
      rw (update-IsUpdate SemList-discrete none (waiters 100) (8 ∷ [])).here at m in
    let e : a ≡ 8 = ground arith in rw e ((λ e. absurd (omega arith)), refl)
