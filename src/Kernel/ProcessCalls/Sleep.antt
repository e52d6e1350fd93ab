-- ===== src/Kernel/ProcessCalls/Sleep.antt =====
-- `internal_sleep` of disastrOS_sleep.c.
use disastr_os_semaphores.PoolAllocator.{narrow}
use disastr_os_semaphores.Base.{
  ℕ, ◌≡◌, ◌≢◌, refl, sym, ap, ◌∙◌, false, List, [], ◌∷◌, ◌++◌, ◌==◌, ==_ne, ==_self, has, head_or,
  ok,
}
use disastr_os_semaphores.Base.Int.{ℤ, ◌+ℤ◌}
use disastr_os_semaphores.LinkedList.{null}
use disastr_os_semaphores.LinkedList.Chain.{IsList}
use disastr_os_semaphores.PoolAllocator.FreeList.{IsPool}
use disastr_os_semaphores.PoolAllocator.Blocks.{address, taken-IsPool}
use disastr_os_semaphores.Kernel.{System}
use disastr_os_semaphores.Kernel
use disastr_os_semaphores.Kernel.Cmd.{pcbs, list_insert}
use disastr_os_semaphores.Kernel.Lists.{waiting_list}
use disastr_os_semaphores.Kernel.Families.{Holds, Loose, append-Holds, pop-Holds}
use disastr_os_semaphores.Kernel.Queues.{
  ready, waiting, queues, queue_table, queue-owned, queues-frame, ready-IsUpdate, waiting-IsUpdate,
}
use disastr_os_semaphores.Kernel.Rules.{load-ok, int_argument-ok, set_status-ok}
use disastr_os_semaphores.Kernel.Timers.Sorted.{early, late, IsSorted}
use disastr_os_semaphores.Kernel.Timers.Add.{
  waking, added, insert_step, added-IsSorted, timer_list_add-added,
}
use disastr_os_semaphores.Kernel.SemaphoreCalls.Suspend.{sleeper, waiter, chosen}
use disastr_os_semaphores.Kernel.ProcessCalls.{internal_sleep}

abbrev pub tail_of : List ℕ → List ℕ
tail_of [] = []
tail_of (x ∷ xs) = xs

-- From `s` to `t` the running process has gone to the end of the waiting list with a timer for the
-- time `wakes` at the address `x`, and the first ready process, if there is one, runs.
pub record Slept (s t : System) (wakes : ℤ) (x : ℕ) (ts rs ws zs free : List ℕ) : Type 0 where
  pub runs : t.running ≡ head_or rs null
  pub queued : Holds queue_table (queues (tail_of rs) (ws ++ s.running ∷ []) zs) t
  pub status : (t.pcbs.at s.running).status ≡ Kernel.waiting
  pub timers :
      IsList t.timer_items.links t.timer_list
        (early (waking s) wakes ts ++ x ∷ late (waking s) wakes ts)
  pub sorted : IsSorted (waking t) (early (waking s) wakes ts ++ x ∷ late (waking s) wakes ts)
  pub timer : t.timer_items.at x ≡ record { awakening_time = wakes; pcb = s.running }
  pub pool : IsPool t.timer_items.pool free

module _ (s : System) (ts : List ℕ) (i : ℕ) (free ws zs : List ℕ)
    (is : IsList s.timer_items.links s.timer_list ts) (sorted : IsSorted (waking s) ts)
    (pool : IsPool s.timer_items.pool (i ∷ free)) (some_item : address s.timer_items.pool i ≢ null)
    (fresh : has (address s.timer_items.pool i) ts ≡ false)
    (no_timer : (s.pcbs.at s.running).timer ≡ null) where
  abbrev wakes : ℤ
  wakes = s.time +ℤ narrow ((s.pcbs.at s.running).syscall_args 0)

  abbrev timed : System
  timed = added s ts wakes s.running i free is sorted pool some_item fresh

  module _ (rs : List ℕ) (holds : Holds queue_table (queues rs ws zs) s)
      (loose : Loose queue_table (queues rs ws zs) s.running s) where
    asleep-Holds : Holds queue_table (queues rs ws zs) (sleeper timed)
    asleep-Holds = queues-frame s (sleeper timed) refl refl refl refl holds

    asleep-Loose : Loose queue_table (queues rs ws zs) s.running (sleeper timed)
    asleep-Loose = record {
      some_item = loose.some_item;
      outside = loose.outside;
      unlinked = loose.unlinked;
    }

    wait_step :
        (list_insert waiting_list (sleeper timed).waiting_list.last s.running (sleeper timed)
          ≡ ok (s.running, waiter timed ws))
        × Holds queue_table (queues rs (ws ++ s.running ∷ []) zs) (waiter timed ws)
    wait_step =
        append-Holds queue_table (sleeper timed) waiting (queue-owned waiting) asleep-Holds
          s.running asleep-Loose (waiting-IsUpdate rs ws zs (ws ++ s.running ∷ []))

  sleep-last :
      (holds : Holds queue_table (queues [] ws zs) s)
      → (loose : Loose queue_table (queues [] ws zs) s.running s)
      → internal_sleep s ≡ ok (tt, record (waiter timed ws) { running = null })
  unfolding internal_sleep
  sleep-last holds loose =
      let wait = wait_step [] holds loose in
      rw
        (
          load-ok pcbs s.running s loose.some_item,
          ap (λ p. p == null) no_timer,
          int_argument-ok s loose.some_item 0,
          timer_list_add-added s ts wakes s.running i free is sorted pool some_item fresh,
          ==_ne (address s.timer_items.pool i) null some_item,
          set_status-ok s.running Kernel.waiting timed loose.some_item,
          wait.0,
          ap (λ p. p == null) (holds.each ready).first,
        )
        refl

  sleep-next :
      (r : ℕ) (rs : List ℕ) (holds : Holds queue_table (queues (r ∷ rs) ws zs) s)
      → (loose : Loose queue_table (queues (r ∷ rs) ws zs) s.running s)
      → internal_sleep s ≡ ok (tt, record (chosen timed r rs ws) { running = r })
  unfolding internal_sleep
  sleep-next r rs holds loose =
      let wait = wait_step (r ∷ rs) holds loose in
      let some_head : s.ready_list.first ≢ null =
        λ e. (holds.each ready).chain.0 (sym (holds.each ready).first ∙ e) in
      let pop =
        pop-Holds queue_table (waiter timed ws) ready (queue-owned ready) wait.1 r rs refl
          (ready-IsUpdate (r ∷ rs) (ws ++ s.running ∷ []) zs rs) in
      rw
        (
          load-ok pcbs s.running s loose.some_item,
          ap (λ p. p == null) no_timer,
          int_argument-ok s loose.some_item 0,
          timer_list_add-added s ts wakes s.running i free is sorted pool some_item fresh,
          ==_ne (address s.timer_items.pool i) null some_item,
          set_status-ok s.running Kernel.waiting timed loose.some_item,
          wait.0,
          ==_ne _ null some_head,
          pop.0,
        )
        refl

  -- What is the same whichever process runs then.
  slept :
      (rs : List ℕ) (u : System)
      → u.running ≡ head_or rs null
      → Holds queue_table (queues (tail_of rs) (ws ++ s.running ∷ []) zs) u
      → (u.pcbs.at s.running).status ≡ Kernel.waiting
      → u.timer_items ≡ timed.timer_items
      → u.timer_list ≡ timed.timer_list
      → Slept s u wakes (address s.timer_items.pool i) ts rs ws zs free
  slept rs u runs queued status items list = record {
    runs = runs;
    queued = queued;
    status = status;
    timers =
        rw (items, list) (insert_step s ts wakes s.running i free is sorted pool some_item fresh).1;
    sorted = rw items (added-IsSorted s ts wakes s.running i free is sorted pool some_item fresh);
    timer = rw (items, ==_self) refl;
    pool = rw items (taken-IsPool s.timer_items.pool i free pool);
  }

  -- Where the timers are a well-formed list, sorted by the time of waking, the block at index `i` is
  -- the next free one, with an address that is not NULL and not in the list, the queues are well
  -- formed, and the running process is in none of them and has no timer, `internal_sleep` ends
  -- without a fault. The caller is Waiting, the last of the waiting list, and has a timer in that
  -- block, at its place in the sorted list, for the time now and the cycles asked for, as an `int`; the first
  -- ready process runs, and `running` is NULL if there is none.
  pub sleep_lem :
      (rs : List ℕ)
      → Holds queue_table (queues rs ws zs) s
      → Loose queue_table (queues rs ws zs) s.running s
      → (u : System) × (internal_sleep s ≡ ok (tt, u))
        × Slept s u wakes (address s.timer_items.pool i) ts rs ws zs free
  sleep_lem [] holds loose =
      let u = record (waiter timed ws) { running = null } in
      (
        u,
        sleep-last holds loose,
        slept [] u refl
            (queues-frame (waiter timed ws) u refl refl refl refl (wait_step [] holds loose).1)
            (rw ==_self refl) refl refl,
      )
  sleep_lem (r ∷ rs) holds loose =
      let u = record (chosen timed r rs ws) { running = r } in
      let pop =
        pop-Holds queue_table (waiter timed ws) ready (queue-owned ready)
          (wait_step (r ∷ rs) holds loose).1 r rs refl
          (ready-IsUpdate (r ∷ rs) (ws ++ s.running ∷ []) zs rs) in
      (
        u,
        sleep-next r rs holds loose,
        slept (r ∷ rs) u refl (queues-frame (chosen timed r rs ws) u refl refl refl refl pop.1)
            (rw ==_self refl) refl refl,
      )
