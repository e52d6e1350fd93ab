-- ===== src/Kernel/SemaphoreCalls/Tests/Open.antt =====
-- The theorems on `internal_semOpen` at small states with pools of three blocks, and with a pool
-- that has no free block.
use disastr_os_semaphores.PoolAllocator.{narrow}
use disastr_os_semaphores.Base.{◌⊎◌, ℕ, ◌≡◌, ◌≢◌, refl, List, [], ◌∷◌, arith, ok}
use disastr_os_semaphores.Base.Int.{ℤ, pos}
use disastr_os_semaphores.LinkedList.{ListHead, link, null}
use disastr_os_semaphores.LinkedList.Chain.{IsList}
use disastr_os_semaphores.PoolAllocator.FreeList.{IsPool}
use disastr_os_semaphores.PoolAllocator.{PoolAllocator, detached_idx, null_idx}
use disastr_os_semaphores.LinkedList
use disastr_os_semaphores.Kernel.Constants.Error
use disastr_os_semaphores.Kernel.Rules.{returning}
use disastr_os_semaphores.Kernel.SemaphoreCalls.Exhausted.{sem_open-exhausted}
use disastr_os_semaphores.PoolAllocator.Tests.{three, three-IsPool}
use disastr_os_semaphores.Kernel.{System}
use disastr_os_semaphores.Kernel.Families.{Holds, Holds-frame}
use disastr_os_semaphores.Kernel.SemLists.{SemList, openers, waiters, sem_table, sem_list}
use disastr_os_semaphores.Kernel.SemaphoreCalls.{internal_sem_open}
use disastr_os_semaphores.Kernel.SemaphoreCalls.Open.{CanOpen, Opened}
use disastr_os_semaphores.Kernel.SemaphoreCalls.Existing.{semaphore_for, sem_open-existing}
use disastr_os_semaphores.Kernel.SemaphoreCalls.Create.{Made, sem_open-creates}
use disastr_os_semaphores.Kernel.SemaphoreCalls.States.{quiet, quiet-sems, none}

-- The list of one item.
abbrev pub only : ℕ → ListHead
only a = record { first = a; last = a; size = pos 1 }

abbrev free_blocks : List ℕ
free_blocks = 0 ∷ 2 ∷ []

-- The process at 1 runs, has the descriptor at 5, and has called with the id of a semaphore; the
-- semaphore at 100, which has the id 3, is the only one.
abbrev pub equipped : ℤ → System
equipped id =
    let s = quiet id (pos 4) in
    record s {
      semaphores_list = only 100;
      semaphores = record s.semaphores { pool = three };
      sem_descriptors = record s.sem_descriptors { pool = three };
      sem_descriptor_ptrs = record s.sem_descriptor_ptrs { pool = three };
    }

pub only-IsList : (a : ℕ) → a ≢ 0 → IsList (λ _. link 0 0) (only a) (a ∷ [])
only-IsList a some = record {
  first = refl;
  last = refl;
  size = refl;
  chain = (some, refl, tt);
  distinct = (refl, tt);
}

pub equipped-sems : (id : ℤ) → Holds sem_table none (equipped id)
equipped-sems id =
    Holds-frame sem_table (quiet id (pos 4)) (equipped id) refl go (quiet-sems id (pos 4))
  where
    go : (k : SemList) → (sem_list k).head (equipped id) ≡ (sem_list k).head (quiet id (pos 4))
    go (openers a) = refl
    go (waiters a) = refl

equipped-CanOpen : (id : ℤ) → CanOpen (equipped id) (5 ∷ []) none 0 0 (2 ∷ []) (2 ∷ [])
equipped-CanOpen id = record {
  some_running = λ e. absurd (omega arith);
  mine = only-IsList 5 (λ e. absurd (omega arith));
  holds = equipped-sems id;
  descriptors = three-IsPool;
  some_descriptor = λ e. absurd (omega arith);
  fresh_descriptor = refl;
  pointers = three-IsPool;
  some_pointer = λ e. absurd (omega arith);
  fresh_pointer = λ k. refl;
}

sem_open-existing_example :
    (t : System) × (internal_sem_open (equipped (pos 3)) ≡ ok (tt, t))
    × Opened (equipped (pos 3)) t 100 1000 1000 (5 ∷ []) none (2 ∷ []) (2 ∷ [])
    × ((a : ℕ) → (t.semaphores.at a).count ≡ ((equipped (pos 3)).semaphores.at a).count)
    × (t.semaphores_list ≡ (equipped (pos 3)).semaphores_list)
unfolding narrow
sem_open-existing_example =
    sem_open-existing (equipped (pos 3)) (100 ∷ []) (λ e. absurd (omega arith))
      (only-IsList 100 (λ e. absurd (omega arith))) (5 ∷ []) none 0 0 (2 ∷ []) (2 ∷ []) refl
      (λ e. absurd (omega arith)) (equipped-CanOpen (pos 3))

sem_open-creates_example :
    (t : System) × (internal_sem_open (equipped (pos 9)) ≡ ok (tt, t))
    × Made (equipped (pos 9)) t 1000 (pos 9) (pos 9) (100 ∷ []) (2 ∷ [])
    × Opened (equipped (pos 9)) t 1000 1000 1000 (5 ∷ []) none (2 ∷ []) (2 ∷ [])
unfolding narrow
sem_open-creates_example =
    sem_open-creates (equipped (pos 9)) (100 ∷ []) (λ e. absurd (omega arith))
      (only-IsList 100 (λ e. absurd (omega arith))) 0 (2 ∷ []) three-IsPool
      (λ e. absurd (omega arith)) refl (5 ∷ []) none 0 0 (2 ∷ []) (2 ∷ [])
      (equipped-CanOpen (pos 9)) refl refl refl

-- A pool whose one block is handed out.
abbrev drained_pool : PoolAllocator
drained_pool = record {
  buffer = 1000;
  free_list = λ _. detached_idx;
  buffer_size = 16;
  size = pos 0;
  size_max = 1;
  item_size = 16;
  first_idx = null_idx;
}

drained_pool-IsPool : IsPool drained_pool []
drained_pool-IsPool = record {
  chain = refl;
  distinct = tt;
  below = tt;
  size = refl;
  detached = λ i b out. refl;
  item_size_pos = omega arith;
  small = omega arith;
}

-- The call asks for a semaphore that is not there, and no descriptor is free.
abbrev drained : System
drained =
    let s = equipped (pos 9) in
    record s { sem_descriptors = record s.sem_descriptors { pool = drained_pool } }

sem_open-exhausted_example :
    ((semaphore_for drained (100 ∷ []) ≢ null)
      × (internal_sem_open drained ≡ ok (tt, returning Error.sem_des_alloc drained)))
    ⊎ ((semaphore_for drained (100 ∷ []) ≡ null)
        × (made : System) × (internal_sem_open drained
            ≡ ok (tt, returning Error.sem_des_alloc made))
        × Made drained made 1000 (pos 9) (pos 9) (100 ∷ []) (2 ∷ [])
        × (made.pcbs ≡ drained.pcbs)
        × ((made.semaphores.at 1000).descriptors ≡ LinkedList.init))
unfolding narrow
sem_open-exhausted_example =
    sem_open-exhausted drained (100 ∷ []) (λ e. absurd (omega arith))
      (only-IsList 100 (λ e. absurd (omega arith))) 0 (2 ∷ []) three-IsPool
      (λ e. absurd (omega arith)) refl refl drained_pool-IsPool
