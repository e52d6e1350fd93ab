-- ===== src/Kernel/ProcessCalls/Elapsed.antt =====
-- The loop of `internal_schedule` of disastrOS_schedule.c: it wakes the processes whose timers are due.
use disastr_os_semaphores.Base.{
  ℕ, suc, ◌≡◌, ◌≢◌, refl, sym, ap, ◌∙◌, true, false, List, [], ◌∷◌, ◌++◌, map, arith, ◌==◌, ==_ne,
  ==_self, All, has, IsDistinct, last_or, has-append, ok,
}
use disastr_os_semaphores.Base.Int.{pos, leb_ℤ}
use disastr_os_semaphores.LinkedList.{null}
use disastr_os_semaphores.LinkedList.Chain.{IsList}
use disastr_os_semaphores.LinkedList.Detach.{detach-remove}
use disastr_os_semaphores.PoolAllocator.FreeList.{IsPool, AllBelow}
use disastr_os_semaphores.PoolAllocator.Blocks.{address, released-IsPool}
use disastr_os_semaphores.Kernel.{System}
use disastr_os_semaphores.Kernel
use disastr_os_semaphores.Kernel.Cmd.{modified, pcbs, timer_items, list_insert, list_detach}
use disastr_os_semaphores.Kernel.Lists.{ready_list, waiting_list, timer_list}
use disastr_os_semaphores.Kernel.Families.{
  Holds, Loose, insert-Holds, detach-Holds, inserted, detached, list_detach-detached,
}
use disastr_os_semaphores.Kernel.Families.Bystanders.{insert-Loose, detach-Loose}
use disastr_os_semaphores.Kernel.Queues.{
  ready, waiting, queues, queue_table, queue-owned, queues-frame, ready-IsUpdate, waiting-IsUpdate,
}
use disastr_os_semaphores.Kernel.Rules.{load-ok, modify-ok, set_status-ok, free_block-ok, freed}
use disastr_os_semaphores.Kernel.Timers.{
  timer_list_current, timer_list_remove_current, timer_item_free,
}
use disastr_os_semaphores.Kernel.Timers.Add.{waking}
use disastr_os_semaphores.Kernel.ProcessCalls.{wake_elapsed}
use disastr_os_semaphores.Kernel.ProcessCalls.Schedule.{NoneDue, NoneDue-frame}

-- The process of a timer.
abbrev pub sleeper_of : System → ℕ → ℕ
sleeper_of s x = (s.timer_items.at x).pcb

-- A process that a timer has woken.
abbrev pub IsAwake : System → ℕ → Type 0
IsAwake s p = ((s.pcbs.at p).status ≡ Kernel.ready) × ((s.pcbs.at p).timer ≡ null)

-- The timers in the blocks at the indices `is` are due, and none of the others, `later`.
pub record IsDue (s : System) (is later free : List ℕ) : Type 0 where
  pub timers :
      IsList s.timer_items.links s.timer_list (map (address s.timer_items.pool) is ++ later)
  pub none_due : NoneDue s later
  pub due : All (λ i. leb_ℤ (waking s (address s.timer_items.pool i)) s.time ≡ true) is
  pub pool : IsPool s.timer_items.pool free
  pub below : AllBelow s.timer_items.pool.size_max is
  pub out : All (λ i. has i free ≡ false) is
  pub distinct : IsDistinct is

-- The processes of the timers in the blocks at these indices.
abbrev pub sleepers : System → List ℕ → List ℕ
sleepers s is = map (λ i. sleeper_of s (address s.timer_items.pool i)) is

-- The free list after the blocks at the indices `is` were released in order.
abbrev pub pushed : (is free : List ℕ) → List ℕ
pushed [] free = free
pushed (i ∷ is) free = pushed is (i ∷ free)

All-out :
    (i : ℕ) (is free : List ℕ)
    → has i is ≡ false
    → All (λ j. has j free ≡ false) is
    → All (λ j. has j (i ∷ free) ≡ false) is
All-out i [] free d a = tt
All-out i (j ∷ is) free d a = (ground arith, All-out i is free (ground arith) a.1)

-- One round of the loop, for the timer in the block at index `i`, whose process waits between `ys`
-- and `vs`; `woken` is what was woken before it.
module _ (s : System) (i : ℕ) (is woken rs ys vs zs later free : List ℕ)
    (due : IsDue s (i ∷ is) later free)
    (holds : Holds queue_table
      (queues (woken ++ rs) (ys ++ sleeper_of s (address s.timer_items.pool i) ∷ vs) zs)
      s) where
  abbrev xs : List ℕ
  xs = map (address s.timer_items.pool) is ++ later

  abbrev pub p : ℕ
  p = sleeper_of s (address s.timer_items.pool i)

  abbrev x : ℕ
  x = address s.timer_items.pool i

  abbrev unqueued : System
  unqueued = detached waiting_list ys vs p s

  abbrev marked : System
  marked =
      modified pcbs p (λ pcb. record pcb { timer = null })
        (modified pcbs p (λ pcb. record pcb { status = Kernel.ready }) unqueued)

  abbrev queued : System
  queued = inserted ready_list woken rs p marked

  abbrev untimed : System
  untimed = detached timer_list [] xs x queued

  abbrev pub stepped : System
  stepped = freed timer_items i untimed

  some_x : x ≢ null
  some_x = due.timers.chain.0

  some_first : s.timer_list.first ≢ null
  some_first e = due.timers.chain.0 (sym due.timers.first ∙ e)

  current_step : timer_list_current s.time s ≡ ok (x, s)
  unfolding timer_list_current
  current_step =
      rw
        (
          ==_ne _ null some_first,
          load-ok timer_items _ s some_first,
          ap (λ a. leb_ℤ (waking s a) s.time) due.timers.first ∙ due.due.0,
        )
        (ap (λ a. ok (a, s)) due.timers.first)

  wait_step :
      (list_detach waiting_list p s ≡ ok (p, unqueued))
      × Holds queue_table (queues (woken ++ rs) (ys ++ vs) zs) unqueued
      × Loose queue_table (queues (woken ++ rs) (ys ++ vs) zs) p unqueued
  wait_step =
      detach-Holds queue_table s waiting ys vs p (queue-owned waiting) holds refl
        (waiting-IsUpdate (woken ++ rs) (ys ++ p ∷ vs) zs (ys ++ vs))

  marked-Holds : Holds queue_table (queues (woken ++ rs) (ys ++ vs) zs) marked
  marked-Holds = queues-frame unqueued marked refl refl refl refl wait_step.1

  marked-Loose :
      (a : ℕ)
      → Loose queue_table (queues (woken ++ rs) (ys ++ vs) zs) a unqueued
      → Loose queue_table (queues (woken ++ rs) (ys ++ vs) zs) a marked
  marked-Loose a loose = record {
    some_item = loose.some_item;
    outside = loose.outside;
    unlinked = loose.unlinked;
  }

  ready_step :
      (list_insert ready_list (last_or null woken) p marked ≡ ok (p, queued))
      × Holds queue_table (queues (woken ++ p ∷ rs) (ys ++ vs) zs) queued
  ready_step =
      insert-Holds queue_table marked ready woken rs p (queue-owned ready) marked-Holds refl
        (marked-Loose p wait_step.2) (ready-IsUpdate (woken ++ rs) (ys ++ vs) zs (woken ++ p ∷ rs))

  timer_step :
      (list_detach timer_list s.timer_list.first queued ≡ ok (x, untimed))
      × IsList stepped.timer_items.links stepped.timer_list xs
  timer_step =
      let step = detach-remove s.timer_items.links s.timer_list [] xs x due.timers in
      (
        ap (λ a. list_detach timer_list a queued) due.timers.first
            ∙ list_detach-detached timer_list queued [] xs x (λ e. absurd (omega arith)) step.0,
        step.1,
      )

  remove_step : timer_list_remove_current queued ≡ ok (pos 0, stepped)
  unfolding timer_list_remove_current timer_item_free
  remove_step =
      rw
        (
          timer_step.0,
          ==_ne x null some_x,
          free_block-ok timer_items untimed i free due.pool due.below.0 due.out.0,
        )
        refl

  -- The rounds of the loop from here on are those from the state behind this one.
  pub round-stepped :
      (fuel : ℕ) → wake_elapsed (suc fuel) (last_or null woken) s ≡ wake_elapsed fuel p stepped
  unfolding wake_elapsed
  round-stepped fuel =
      rw
        (
          current_step,
          ==_ne x null some_x,
          load-ok timer_items x s some_x,
          wait_step.0,
          set_status-ok p Kernel.ready unqueued wait_step.2.some_item,
          modify-ok pcbs p _ wait_step.2.some_item,
          ready_step.0,
          remove_step,
        )
        refl

  pub stepped-Holds : Holds queue_table (queues (woken ++ p ∷ rs) (ys ++ vs) zs) stepped
  stepped-Holds = queues-frame queued stepped refl refl refl refl ready_step.1

  pub stepped-IsDue : IsDue stepped is later (i ∷ free)
  stepped-IsDue = record {
    timers = timer_step.1;
    none_due = NoneDue-frame s stepped later refl refl due.none_due;
    due = due.due.1;
    pool = released-IsPool s.timer_items.pool i free due.pool due.below.0 due.out.0;
    below = due.below.1;
    out = All-out i is free due.distinct.0 due.out.1;
    distinct = due.distinct.1;
  }

  pub stepped-IsAwake : IsAwake stepped p
  stepped-IsAwake = (rw ==_self refl, rw ==_self refl)

  pub stepped-others : (a : ℕ) → (a == p) ≡ false → stepped.pcbs.at a ≡ s.pcbs.at a
  stepped-others a ne = rw ne refl

  pub stepped-Loose :
      (a : ℕ)
      → Loose queue_table (queues (woken ++ rs) (ys ++ p ∷ vs) zs) a s
      → Loose queue_table (queues (woken ++ p ∷ rs) (ys ++ vs) zs) a stepped
  stepped-Loose a loose =
      let ne : a ≢ p = λ e.
        (let e1 = loose.outside waiting in
          let e2 = has-append a ys (p ∷ vs) in absurd (ground (arith, e))) in
      let at_wait =
        detach-Loose queue_table s waiting ys vs p a holds loose refl
          (waiting-IsUpdate (woken ++ rs) (ys ++ p ∷ vs) zs (ys ++ vs)) in
      let at_ready =
        insert-Loose queue_table marked ready woken rs p a marked-Holds (marked-Loose a at_wait)
          refl (marked-Loose p wait_step.2) ne
          (ready-IsUpdate (woken ++ rs) (ys ++ vs) zs (woken ++ p ∷ rs)) in
      record {
        some_item = at_ready.some_item;
        outside = at_ready.outside;
        unlinked = at_ready.unlinked;
      }
