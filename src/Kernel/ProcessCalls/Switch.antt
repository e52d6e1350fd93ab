-- ===== src/Kernel/ProcessCalls/Switch.antt =====
-- The switch of processes at the end of `internal_schedule` of disastrOS_schedule.c.
use disastr_os_semaphores.Base.{
  ℕ, ◌≡◌, ◌≢◌, refl, sym, ◌∙◌, false, List, [], ◌∷◌, ◌++◌, arith, ==_ne, ==_self, ok, has,
}
use disastr_os_semaphores.LinkedList.{null}
use disastr_os_semaphores.LinkedList.Detach.{detach-remove}
use disastr_os_semaphores.Kernel.{System, ProcessStatus}
use disastr_os_semaphores.Kernel
use disastr_os_semaphores.Kernel.Cmd.{modified, pcbs, list_insert, list_detach}
use disastr_os_semaphores.Kernel.Lists.{ready_list}
use disastr_os_semaphores.Kernel.Families.{
  Holds, Loose, append-Holds, append-Loose, pop-Holds, inserted, detached,
}
use disastr_os_semaphores.Kernel.Queues.{
  Queue, ready, waiting, zombie, queues, queue_table, queue-owned, queues-frame, ready-IsUpdate,
}
use disastr_os_semaphores.Kernel.Rules.{set_status-ok}
use disastr_os_semaphores.Kernel.ProcessCalls.{switch}

-- From `s` to `t` the running process has become Ready and last in the ready list, and the first
-- ready process `r` is Running.
pub record Switched (s t : System) (r : ℕ) (rs ws zs : List ℕ) : Type 0 where
  pub runs : t.running ≡ r
  pub queued : Holds queue_table (queues (rs ++ s.running ∷ []) ws zs) t
  pub dequeued : Loose queue_table (queues (rs ++ s.running ∷ []) ws zs) r t
  pub running : (t.pcbs.at r).status ≡ Kernel.running
  pub waits : (t.pcbs.at s.running).status ≡ Kernel.ready

-- The state after each part.
abbrev pub popped : System → ℕ → List ℕ → System
popped s r rs = detached ready_list [] rs r s

abbrev pub demoted : System → ℕ → List ℕ → System
demoted s r rs =
    modified pcbs s.running (λ pcb. record pcb { status = Kernel.ready }) (popped s r rs)

abbrev pub rotated : System → ℕ → List ℕ → System
rotated s r rs = inserted ready_list rs [] s.running (demoted s r rs)

abbrev pub switched : System → ℕ → List ℕ → System
switched s r rs =
    record (modified pcbs r (λ pcb. record pcb { status = Kernel.running }) (rotated s r rs)) {
      running = r;
    }

-- With no ready process nothing changes.
pub switch-nil :
    (s : System) (ws zs : List ℕ) → Holds queue_table (queues [] ws zs) s → switch s ≡ ok (tt, s)
unfolding switch
switch-nil s ws zs holds = rw (holds.each ready).first refl

-- What is in none of the queues is in none after a removal.
outside-tail :
    (a r : ℕ) (rs ws zs : List ℕ)
    → ((k : Queue) → has a (queues (r ∷ rs) ws zs k) ≡ false)
    → (k : Queue) → has a (queues rs ws zs k) ≡ false
outside-tail a r rs ws zs out ready = let e = out ready in ground arith
outside-tail a r rs ws zs out waiting = out waiting
outside-tail a r rs ws zs out zombie = out zombie

module _ (s : System) (r : ℕ) (rs ws zs : List ℕ)
    (holds : Holds queue_table (queues (r ∷ rs) ws zs) s)
    (loose : Loose queue_table (queues (r ∷ rs) ws zs) s.running s) where
  distinct : s.running ≢ r
  distinct e = let out = loose.outside ready in absurd (ground (arith, e))

  pop_step :
      (list_detach ready_list s.ready_list.first s ≡ ok (r, popped s r rs))
      × Holds queue_table (queues rs ws zs) (popped s r rs)
      × Loose queue_table (queues rs ws zs) r (popped s r rs)
  pop_step =
      pop-Holds queue_table s ready (queue-owned ready) holds r rs refl
        (ready-IsUpdate (r ∷ rs) ws zs rs)

  demoted-Holds : Holds queue_table (queues rs ws zs) (demoted s r rs)
  demoted-Holds = queues-frame (popped s r rs) (demoted s r rs) refl refl refl refl pop_step.1

  demoted-Loose : Loose queue_table (queues rs ws zs) s.running (demoted s r rs)
  demoted-Loose = record {
    some_item = loose.some_item;
    outside = outside-tail s.running r rs ws zs loose.outside;
    unlinked =
        (detach-remove s.pcbs.links s.ready_list [] rs r (holds.each ready)).3 s.running
          loose.some_item (loose.outside ready)
        ∙ loose.unlinked;
  }

  push_step :
      (list_insert ready_list (demoted s r rs).ready_list.last s.running (demoted s r rs)
        ≡ ok (s.running, rotated s r rs))
      × Holds queue_table (queues (rs ++ s.running ∷ []) ws zs) (rotated s r rs)
  push_step =
      append-Holds queue_table (demoted s r rs) ready (queue-owned ready) demoted-Holds s.running
        demoted-Loose (ready-IsUpdate rs ws zs (rs ++ s.running ∷ []))

  chosen-Loose : Loose queue_table (queues rs ws zs) r (demoted s r rs)
  chosen-Loose = record {
    some_item = pop_step.2.some_item;
    outside = pop_step.2.outside;
    unlinked = pop_step.2.unlinked;
  }

  kept-Loose : Loose queue_table (queues (rs ++ s.running ∷ []) ws zs) r (rotated s r rs)
  kept-Loose =
      append-Loose queue_table (demoted s r rs) ready (queue-owned ready) demoted-Holds s.running r
        demoted-Loose chosen-Loose (λ e. distinct (sym e))
        (ready-IsUpdate rs ws zs (rs ++ s.running ∷ []))

  some_head : s.ready_list.first ≢ null
  some_head e = pop_step.2.some_item (sym (holds.each ready).first ∙ e)

  switch-ok : switch s ≡ ok (tt, switched s r rs)
  unfolding switch
  switch-ok =
      rw
        (
          ==_ne _ null some_head,
          pop_step.0,
          set_status-ok s.running Kernel.ready (popped s r rs) loose.some_item,
          push_step.0,
          set_status-ok r Kernel.running (rotated s r rs) pop_step.2.some_item,
        )
        refl

  -- Where `r` is the first ready process, the switch ends without a fault; `r` is Running and in no
  -- queue, and the process that ran is Ready and the last of the ready list.
  pub switch_lem : (switch s ≡ ok (tt, switched s r rs)) × Switched s (switched s r rs) r rs ws zs
  switch_lem =
      let ne = ==_ne s.running r distinct in
      (
        switch-ok,
        record {
          runs = refl;
          queued = queues-frame (rotated s r rs) (switched s r rs) refl refl refl refl push_step.1;
          dequeued = record {
            some_item = kept-Loose.some_item;
            outside = kept-Loose.outside;
            unlinked = kept-Loose.unlinked;
          };
          running = rw ==_self refl;
          waits = rw (ne, ==_self) refl;
        },
      )
