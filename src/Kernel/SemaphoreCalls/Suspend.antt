-- ===== src/Kernel/SemaphoreCalls/Suspend.antt =====
-- How `internal_semWait` of disastrOS_semwait.c puts the running process to sleep.
use disastr_os_semaphores.Base.{
  ℕ, ◌≡◌, ◌≢◌, refl, sym, List, [], ◌∷◌, ◌++◌, arith, ==_ne, ==_self, ok,
}
use disastr_os_semaphores.Base.Int.{pos}
use disastr_os_semaphores.LinkedList.{null}
use disastr_os_semaphores.Kernel.{System}
use disastr_os_semaphores.Kernel
use disastr_os_semaphores.Kernel.Cmd.{modified, pcbs, list_insert, list_detach}
use disastr_os_semaphores.Kernel.Lists.{ready_list, waiting_list}
use disastr_os_semaphores.Kernel.Families.{
  Holds, Loose, append-Holds, pop-Holds, inserted, detached,
}
use disastr_os_semaphores.Kernel.Queues.{
  ready, waiting, queues, queue_table, queue-owned, queues-frame, ready-IsUpdate, waiting-IsUpdate,
}
use disastr_os_semaphores.Kernel.Rules.{set_status-ok, return_value-ok, returning}
use disastr_os_semaphores.Kernel.SemaphoreCalls.{suspend}

-- From `s` to `t` the running process has gone to the end of the waiting list, and the first ready
-- process `r` runs.
pub record Suspended (s t : System) (r : ℕ) (rs ws zs : List ℕ) : Type 0 where
  pub runs : t.running ≡ r
  pub queued : Holds queue_table (queues rs (ws ++ s.running ∷ []) zs) t
  pub dequeued : Loose queue_table (queues rs (ws ++ s.running ∷ []) zs) r t
  pub waits : (t.pcbs.at s.running).status ≡ Kernel.waiting
  pub kept : (t.pcbs.at s.running).syscall_retvalue ≡ (s.pcbs.at s.running).syscall_retvalue
  pub returned : (t.pcbs.at r).syscall_retvalue ≡ pos 0
  pub unchanged : (t.pcbs.at r).status ≡ (s.pcbs.at r).status

-- The state after each part: the process is Waiting, in the waiting list, the first ready process is
-- out of the ready list, and runs.
abbrev pub sleeper : System → System
sleeper s = modified pcbs s.running (λ pcb. record pcb { status = Kernel.waiting }) s

abbrev pub waiter : System → List ℕ → System
waiter s ws = inserted waiting_list ws [] s.running (sleeper s)

abbrev pub chosen : System → ℕ → (rs ws : List ℕ) → System
chosen s r rs ws = detached ready_list [] rs r (waiter s ws)

abbrev pub resumed : System → ℕ → (rs ws : List ℕ) → System
resumed s r rs ws = returning (pos 0) (record (chosen s r rs ws) { running = r })

module _ (s : System) (r : ℕ) (rs ws zs : List ℕ)
    (holds : Holds queue_table (queues (r ∷ rs) ws zs) s)
    (loose : Loose queue_table (queues (r ∷ rs) ws zs) s.running s) where
  abbrev asleep : System
  asleep = sleeper s

  abbrev queued : System
  queued = waiter s ws

  abbrev dequeued : System
  dequeued = chosen s r rs ws

  abbrev suspended : System
  suspended = resumed s r rs ws

  asleep-Holds : Holds queue_table (queues (r ∷ rs) ws zs) asleep
  asleep-Holds = queues-frame s asleep refl refl refl refl holds

  pub wait_step :
      (list_insert waiting_list asleep.waiting_list.last s.running asleep ≡ ok (s.running, queued))
      × Holds queue_table (queues (r ∷ rs) (ws ++ s.running ∷ []) zs) queued
  wait_step =
      append-Holds queue_table asleep waiting (queue-owned waiting) asleep-Holds s.running loose
        (waiting-IsUpdate (r ∷ rs) ws zs (ws ++ s.running ∷ []))

  pub ready_step :
      (list_detach ready_list queued.ready_list.first queued ≡ ok (r, dequeued))
      × Holds queue_table (queues rs (ws ++ s.running ∷ []) zs) dequeued
      × Loose queue_table (queues rs (ws ++ s.running ∷ []) zs) r dequeued
  ready_step =
      pop-Holds queue_table queued ready (queue-owned ready) wait_step.1 r rs refl
        (ready-IsUpdate (r ∷ rs) (ws ++ s.running ∷ []) zs rs)

  pub suspend-ok : suspend s ≡ ok (tt, suspended)
  unfolding suspend
  suspend-ok =
      rw
        (
          set_status-ok s.running Kernel.waiting s loose.some_item,
          wait_step.0,
          ==_ne _ null loose.some_item,
          ready_step.0,
          ==_ne r null ready_step.2.some_item,
        )
        (return_value-ok _ ready_step.2.some_item (pos 0))

  suspended-Holds : Holds queue_table (queues rs (ws ++ s.running ∷ []) zs) suspended
  suspended-Holds = queues-frame dequeued suspended refl refl refl refl ready_step.1

  suspended-Loose : Loose queue_table (queues rs (ws ++ s.running ∷ []) zs) r suspended
  suspended-Loose = record {
    some_item = ready_step.2.some_item;
    unlinked = ready_step.2.unlinked;
    outside = ready_step.2.outside;
  }

  pub distinct : s.running ≢ r
  distinct e = let out = loose.outside ready in absurd (ground (arith, e))

  -- `internal_semWait` from `running->status = Waiting` on, where the queues are well formed, the
  -- running process is in none, and `r` is the first ready process: it ends without a fault; `r`
  -- runs and is in no queue; the caller is Waiting and the last of the waiting list. The 0 that the
  -- system call returns is written to `r`, whose status does not change, and the caller keeps its
  -- old return value.
  pub suspend_lem : (suspend s ≡ ok (tt, suspended)) × Suspended s suspended r rs ws zs
  suspend_lem =
      let ne = ==_ne s.running r distinct in
      let ne' = ==_ne r s.running (λ e. distinct (sym e)) in
      (
        suspend-ok,
        record {
          runs = refl;
          queued = suspended-Holds;
          dequeued = suspended-Loose;
          waits = rw (ne, ==_self) refl;
          kept = rw (ne, ==_self) refl;
          returned = rw ==_self refl;
          unchanged = rw (ne', ==_self) refl;
        },
      )
