-- ===== src/Kernel/WaitExit/Pause.antt =====
-- How `internal_wait` of disastrOS_wait.c puts the caller to sleep while the child lives.
use disastr_os_semaphores.PoolAllocator.{narrow}
use disastr_os_semaphores.Base.{
  ℕ, ◌≡◌, refl, sym, ◌∙◌, false, List, [], ◌∷◌, ◌++◌, ==_ne, ==_self, ok,
}
use disastr_os_semaphores.Base.Int.{ℤ}
use disastr_os_semaphores.LinkedList.{null}
use disastr_os_semaphores.LinkedList.Chain.{IsList}
use disastr_os_semaphores.Kernel.{System}
use disastr_os_semaphores.Kernel
use disastr_os_semaphores.Kernel.Running.{is_zombie}
use disastr_os_semaphores.Kernel.Families.{Holds, Loose}
use disastr_os_semaphores.Kernel.Queues.{queues, queue_table, queues-frame}
use disastr_os_semaphores.Kernel.Rules.{set_status-ok}
use disastr_os_semaphores.Kernel.SemaphoreCalls.Suspend.{chosen, wait_step, ready_step, distinct}
use disastr_os_semaphores.Kernel.WaitExit.{sleep_for_child, internal_wait}
use disastr_os_semaphores.Kernel.WaitExit.Wait.{child, awaited, waited, AllLead, internal_wait_lem}

waited-alive :
    (s : System) (pid result : ℤ) (x : ℕ) (cs : List ℕ)
    → is_zombie (s.pcbs.at (child s (awaited s pid (x ∷ cs) null))).status ≡ false
    → waited s pid result (x ∷ cs) ≡ sleep_for_child s
waited-alive s pid result x cs alive = rw alive refl

-- From `s` to `t` the running process has gone to the end of the waiting list, and the first ready
-- process `r` runs, with its status as it was.
pub record Paused (s t : System) (r : ℕ) (rs ws zs : List ℕ) : Type 0 where
  pub runs : t.running ≡ r
  pub queued : Holds queue_table (queues rs (ws ++ s.running ∷ []) zs) t
  pub dequeued : Loose queue_table (queues rs (ws ++ s.running ∷ []) zs) r t
  pub waits : (t.pcbs.at s.running).status ≡ Kernel.waiting
  pub unchanged : (t.pcbs.at r).status ≡ (s.pcbs.at r).status

module _ (s : System) (r : ℕ) (rs ws zs : List ℕ)
    (holds : Holds queue_table (queues (r ∷ rs) ws zs) s)
    (loose : Loose queue_table (queues (r ∷ rs) ws zs) s.running s) where
  abbrev paused : System
  paused = record (chosen s r rs ws) { running = r }

  sleep_for_child-ok : sleep_for_child s ≡ ok (tt, paused)
  unfolding sleep_for_child
  sleep_for_child-ok =
      rw
        (
          set_status-ok s.running Kernel.waiting s loose.some_item,
          (wait_step s r rs ws zs holds loose).0,
          (ready_step s r rs ws zs holds loose).0,
        )
        refl

  paused-Paused : Paused s paused r rs ws zs
  paused-Paused =
      let step = ready_step s r rs ws zs holds loose in
      let ne = ==_ne r s.running (λ e. distinct s r rs ws zs holds loose (sym e)) in
      record {
        runs = refl;
        queued = queues-frame (chosen s r rs ws) paused refl refl refl refl step.1;
        dequeued = record {
          some_item = step.2.some_item;
          outside = step.2.outside;
          unlinked = step.2.unlinked;
        };
        waits = rw ==_self refl;
        unchanged = rw ne refl;
      }

  -- Where a process runs that has children, its list of children and the queues are well formed, the
  -- process is in no queue, each pointer in the list of children leads to a process, the child that
  -- the scan for the pid, as an `int`, takes is no zombie, and `r` is the first ready process, `internal_wait` ends without a
  -- fault: the caller is Waiting and the last of the waiting list, and `r` runs, in no queue and
  -- with the status that it had.
  pub wait-sleeps :
      (x : ℕ) (cs : List ℕ)
      → IsList s.pcb_ptrs.links (s.pcbs.at s.running).children (x ∷ cs)
      → AllLead s (x ∷ cs)
      → is_zombie
          (s.pcbs.at (
            child s
              (awaited s (narrow ((s.pcbs.at s.running).syscall_args 0)) (x ∷ cs) null))).status
        ≡ false
      → (t : System) × (internal_wait s ≡ ok (tt, t)) × Paused s t r rs ws zs
  wait-sleeps x cs is leads alive =
      let args = (s.pcbs.at s.running).syscall_args in
      (
        paused,
        internal_wait_lem s (x ∷ cs) loose.some_item is leads
            ∙ waited-alive s (narrow (args 0)) (args 1) x cs alive
            ∙ sleep_for_child-ok,
        paused-Paused,
      )
