-- ===== src/Kernel/Timers/Tests.antt =====
-- The theorems on `TimerList_add` at a list of one timer.
use disastr_os_semaphores.Base.{◌≡◌, refl, [], ◌∷◌, arith, ok}
use disastr_os_semaphores.Base.Int.{pos}
use disastr_os_semaphores.LinkedList.{link}
use disastr_os_semaphores.LinkedList.Chain.{IsList}
use disastr_os_semaphores.PoolAllocator.{PoolAllocator, null_idx, detached_idx}
use disastr_os_semaphores.PoolAllocator.FreeList.{IsPool}
use disastr_os_semaphores.PoolAllocator.Tests.{three, three-IsPool}
use disastr_os_semaphores.Kernel.{System}
use disastr_os_semaphores.Kernel.Tests.{loaded}
use disastr_os_semaphores.Kernel.Timers.{timer_list_add}
use disastr_os_semaphores.Kernel.Timers.Sorted.{IsSorted}
use disastr_os_semaphores.Kernel.Timers.Add.{waking, timer_list_add_lem, timer_list_add-full}

-- The timer at 50 wakes at 7.
abbrev one_timer : System
one_timer = record loaded {
  timer_items = record {
    links = λ _. link 0 0;
    at = λ _. record { awakening_time = pos 7; pcb = 1 };
    pool = three;
  };
  timer_list = record { first = 50; last = 50; size = pos 1 };
}

one_timer-IsList : IsList one_timer.timer_items.links one_timer.timer_list (50 ∷ [])
one_timer-IsList = record {
  first = refl;
  last = refl;
  size = refl;
  chain = ((λ e. absurd (omega arith)), refl, tt);
  distinct = (refl, tt);
}

timer_list_add_lem_example :
    (u : System) × (timer_list_add (pos 9) 2 one_timer ≡ ok (1000, u))
    × IsList u.timer_items.links u.timer_list (50 ∷ 1000 ∷ [])
    × IsSorted (waking u) (50 ∷ 1000 ∷ [])
    × (u.timer_items.at 1000 ≡ record { awakening_time = pos 9; pcb = 2 })
    × IsPool u.timer_items.pool (2 ∷ [])
timer_list_add_lem_example =
    timer_list_add_lem one_timer (50 ∷ []) (pos 9) 2 0 (2 ∷ []) one_timer-IsList (tt, tt)
      three-IsPool (λ e. absurd (omega arith)) refl

-- All blocks are handed out.
abbrev full : PoolAllocator
full = record three { free_list = λ _. detached_idx; size = pos 0; first_idx = null_idx }

full-IsPool : IsPool full []
full-IsPool = record {
  chain = refl;
  distinct = tt;
  below = tt;
  size = refl;
  detached = λ i b out. refl;
  item_size_pos = omega arith;
  small = omega arith;
}

abbrev one_timer_full : System
one_timer_full = record one_timer { timer_items = record (one_timer.timer_items) { pool = full } }

timer_list_add-full_example : timer_list_add (pos 9) 2 one_timer_full ≡ ok (0, one_timer_full)
timer_list_add-full_example =
    timer_list_add-full one_timer_full (50 ∷ []) (pos 9) 2
      (record {
        first = refl;
        last = refl;
        size = refl;
        chain = one_timer-IsList.chain;
        distinct = (refl, tt);
      })
      full-IsPool
