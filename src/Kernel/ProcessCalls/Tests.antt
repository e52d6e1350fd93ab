-- ===== src/Kernel/ProcessCalls/Tests.antt =====
-- The theorems on the switch of processes at a small state.
use disastr_os_semaphores.PoolAllocator.{narrow}
use disastr_os_semaphores.Base.{
  ℕ, ◌≡◌, refl, false, [], ◌∷◌, has, arith, ok, ◌≢◌, if◌then◌else◌, Disjoint, ◌==◌,
}
use disastr_os_semaphores.Base.Int.{pos, ◌+ℤ◌}
use disastr_os_semaphores.PoolAllocator.FreeList.{IsPool}
use disastr_os_semaphores.PoolAllocator.Tests.{three, three-IsPool}
use disastr_os_semaphores.Kernel.{System}
use disastr_os_semaphores.LinkedList.{link, insert_links}
use disastr_os_semaphores.Kernel.Families.{Holds, Loose, inserted}
use disastr_os_semaphores.Kernel.Lists.{waiting_list}
use disastr_os_semaphores.Kernel.Queues.{
  Queue, queue, waiting, queues, queue_table, queues-frame, waiting-IsUpdate,
}
use disastr_os_semaphores.LinkedList.Chain.{IsList}
use disastr_os_semaphores.Kernel.Tests.{loaded, zero_pcb, no_pool}
use disastr_os_semaphores.Kernel.ProcessCalls.RoundRobin.{preempts, Runs, preempts_lem}
use disastr_os_semaphores.Kernel.ProcessCalls.Sleep.{Slept, sleep_lem}
use disastr_os_semaphores.Kernel.ProcessCalls.Elapsed.{IsDue}
use disastr_os_semaphores.Kernel.ProcessCalls.Wakes.{Scheduled, schedule-wakes}
use disastr_os_semaphores.Kernel.ProcessCalls.Spawn.{Spawned, spawn_lem}
use disastr_os_semaphores.Kernel.SemaphoreCalls.States.{
  queued_step, apart_from_running, quiet, quiet-queues, contender, contender-queues,
  contender-Loose,
}
use disastr_os_semaphores.Kernel.ProcessCalls.{
  internal_schedule, internal_preempt, internal_spawn, internal_fork, internal_sleep,
}
use disastr_os_semaphores.Kernel.ProcessCalls.Switch.{Switched, switched}
use disastr_os_semaphores.Kernel.ProcessCalls.Schedule.{preempt_lem, preempt-alone}

preempt_lem_example :
    (internal_preempt contender ≡ ok (tt, switched contender 2 []))
    × Switched contender (switched contender 2 []) 2 [] [] []
preempt_lem_example =
    preempt_lem contender [] 2 [] [] []
      (record { first = refl; last = refl; size = refl; chain = tt; distinct = tt }) tt
      contender-queues contender-Loose

-- A process runs, and both pools have two free blocks of three.
abbrev starter : System
starter =
    let s = quiet (pos 0) (pos 0) in
    record s {
      pcbs = record (s.pcbs) { pool = three };
      pcb_ptrs = record (s.pcb_ptrs) { pool = three };
    }

starter-fresh : (k : Queue) → has 1000 (queues [] [] [] k) ≡ false
starter-fresh Queue.ready = refl
starter-fresh Queue.waiting = refl
starter-fresh Queue.zombie = refl

spawn_lem_example :
    (u : System) × (internal_spawn starter ≡ ok (tt, u))
    × (internal_fork starter ≡ ok (tt, u))
    × Spawned starter u 1000 1000 [] [] [] []
    × IsPool u.pcbs.pool (2 ∷ [])
    × IsPool u.pcb_ptrs.pool (2 ∷ [])
spawn_lem_example =
    spawn_lem starter 0 0 (2 ∷ []) (2 ∷ []) [] [] [] [] (λ e. absurd (omega arith)) three-IsPool
      three-IsPool (λ e. absurd (omega arith)) (λ e. absurd (omega arith))
      (λ e. absurd (omega arith))
      (record { first = refl; last = refl; size = refl; chain = tt; distinct = tt }) refl
      (queues-frame (quiet (pos 0) (pos 0)) starter refl refl refl refl
        (quiet-queues (pos 0) (pos 0)))
      starter-fresh

preempt-alone_example :
    (internal_schedule starter ≡ ok (tt, starter)) × (internal_preempt starter ≡ ok (tt, starter))
preempt-alone_example =
    preempt-alone starter [] [] []
      (record { first = refl; last = refl; size = refl; chain = tt; distinct = tt }) tt
      (queues-frame (quiet (pos 0) (pos 0)) starter refl refl refl refl
        (quiet-queues (pos 0) (pos 0)))

-- The process at 2 sleeps, and its timer, in the block at index 1, is due.
abbrev sleepy : ℕ → System
sleepy running = record (inserted waiting_list [] [] 2 (quiet (pos 0) (pos 0))) {
  running = running;
  timer_items = record {
    links = λ _. link 0 0;
    at = λ _. record { awakening_time = pos 0; pcb = 2 };
    pool = three;
  };
  timer_list = record { first = 1016; last = 1016; size = pos 1 };
}

sleepy-IsDue : (running : ℕ) → IsDue (sleepy running) (1 ∷ []) [] (0 ∷ 2 ∷ [])
sleepy-IsDue running = record {
  timers = record {
    first = refl;
    last = refl;
    size = refl;
    chain = ((λ e. absurd (omega arith)), refl, tt);
    distinct = (refl, tt);
  };
  none_due = tt;
  due = (refl, tt);
  pool = three-IsPool;
  below = (omega arith, tt);
  out = (refl, tt);
  distinct = (refl, tt);
}

sleepy-queues : (running : ℕ) → Holds queue_table (queues [] (2 ∷ []) []) (sleepy running)
sleepy-queues running =
    queues-frame _ (sleepy running) refl refl refl refl
      (queued_step waiting [] (2 ∷ []) (pos 0) (waiting-IsUpdate [] [] [] (2 ∷ [])))

sleepy-Loose : Loose queue_table (queues [] (2 ∷ []) []) 1 (sleepy 1)
unfolding insert_links
sleepy-Loose = record {
  some_item = λ e. absurd (omega arith);
  outside = apart_from_running [] (2 ∷ []) refl refl;
  unlinked = refl;
}

schedule-wakes_example :
    (u : System) × (internal_schedule (sleepy 1) ≡ ok (tt, u))
    × Scheduled (sleepy 1) u 2 (2 ∷ []) [] (2 ∷ []) [] [] (1 ∷ 0 ∷ 2 ∷ [])
schedule-wakes_example =
    schedule-wakes (sleepy 1) (1 ∷ []) [] (2 ∷ []) [] [] (0 ∷ 2 ∷ []) (sleepy-IsDue 1)
      (sleepy-queues 1) (refl, tt) (refl, tt) 2 [] refl sleepy-Loose

-- A process that calls `disastrOS_sleep` with 3, while no other is ready.
abbrev tired : System
tired = record (quiet (pos 3) (pos 0)) {
  timer_items = record {
    links = λ _. link 0 0;
    at = λ _. record { awakening_time = pos 0; pcb = 0 };
    pool = three;
  };
}

sleep_lem_example :
    (u : System) × (internal_sleep tired ≡ ok (tt, u))
    × Slept tired u (tired.time +ℤ pos 3) 1000 [] [] [] [] (2 ∷ [])
unfolding narrow
sleep_lem_example =
    sleep_lem tired [] 0 (2 ∷ []) [] []
      (record { first = refl; last = refl; size = refl; chain = tt; distinct = tt }) tt three-IsPool
      (λ e. absurd (omega arith)) refl refl []
      (queues-frame (quiet (pos 3) (pos 0)) tired refl refl refl refl
        (quiet-queues (pos 3) (pos 0)))
      (record {
        some_item = λ e. absurd (omega arith);
        outside = apart_from_running [] [] refl refl;
        unlinked = refl;
      })

-- The process at 4 runs, and those at 6 and 8 are ready.
abbrev pub trio : System
trio = record loaded {
  running = 4;
  pcbs = record {
    links = λ a. if a == 6 then link 0 8 else if a == 8 then link 6 0 else link 0 0;
    at = λ _. zero_pcb;
    pool = no_pool;
  };
  ready_list = record { first = 6; last = 8; size = pos 2 };
}

pub trio-queues : Holds queue_table (queues (6 ∷ 8 ∷ []) [] []) trio
trio-queues = record { each = each; apart = apart }
  where
    each : (k : Queue) → IsList trio.pcbs.links ((queue k).head trio) (queues (6 ∷ 8 ∷ []) [] [] k)
    each Queue.ready = record {
      first = refl;
      last = refl;
      size = refl;
      chain = ((λ e. absurd (omega arith)), refl, ((λ e. absurd (omega arith)), refl, tt));
      distinct = (refl, (refl, tt));
    }
    each Queue.waiting = record {
      first = refl;
      last = refl;
      size = refl;
      chain = tt;
      distinct = tt;
    }
    each Queue.zombie = record { first = refl; last = refl; size = refl; chain = tt; distinct = tt }

    apart :
        (j k : Queue) → j ≢ k → Disjoint (queues (6 ∷ 8 ∷ []) [] [] j) (queues (6 ∷ 8 ∷ []) [] [] k)
    apart Queue.ready Queue.ready ne = absurd (ne refl)
    apart Queue.ready Queue.waiting ne = (refl, (refl, tt))
    apart Queue.ready Queue.zombie ne = (refl, (refl, tt))
    apart Queue.waiting k ne = tt
    apart Queue.zombie k ne = tt

pub trio-outside : (k : Queue) → has 4 (queues (6 ∷ 8 ∷ []) [] [] k) ≡ false
trio-outside Queue.ready = refl
trio-outside Queue.waiting = refl
trio-outside Queue.zombie = refl

preempts_lem_example :
    (t : System) × (preempts 2 trio ≡ ok (tt, t)) × Runs t 8 (4 ∷ 6 ∷ []) [] [] []
preempts_lem_example = preempts_lem trio 4 (6 ∷ []) 8 [] [] [] [] (record {
  running = refl;
  timers = record { first = refl; last = refl; size = refl; chain = tt; distinct = tt };
  none_due = tt;
  queued = trio-queues;
  outside = record {
    some_item = λ e. absurd (omega arith);
    outside = trio-outside;
    unlinked = refl;
  };
})
