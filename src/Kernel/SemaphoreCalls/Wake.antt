-- ===== src/Kernel/SemaphoreCalls/Wake.antt =====
-- The part of `internal_semPost` of disastrOS_sempost.c that wakes the process that has waited longest.
use native.Mathlib.Decide.{ℕ_discrete}
use mathlib.Core.Path.{subst}
use disastr_os_semaphores.Base.{
  ℕ, ◌≡◌, ◌≢◌, refl, sym, ap, ◌∙◌, List, [], ◌∷◌, ◌++◌, ==_ne, ==_self, ok, fault, head_or,
}
use disastr_os_semaphores.Base.Int.{pos}
use disastr_os_semaphores.LinkedList.{null, detach}
use disastr_os_semaphores.LinkedList.Family.{update, update-IsUpdate}
use disastr_os_semaphores.Kernel.{System}
use disastr_os_semaphores.Kernel
use disastr_os_semaphores.Kernel.Cmd.{
  modified, pcbs, sem_descriptors, sem_descriptor_ptrs, list_insert, list_detach,
}
use disastr_os_semaphores.Kernel.Lists.{openers_of, waiters_of, ready_list, waiting_list}
use disastr_os_semaphores.Kernel.Families.{
  Holds, Loose, append-Holds, detach-Holds, pop-Holds, inserted, detached,
}
use disastr_os_semaphores.Kernel.Queues.{
  ready, waiting, queues, queue_table, queue-owned, ready-IsUpdate, waiting-IsUpdate, queues-frame,
}
use disastr_os_semaphores.Kernel.SemLists.{
  SemList, SemList-discrete, openers, waiters, sem_head, sem_table,
}
use disastr_os_semaphores.Kernel.Rules.{returning, load-ok, set_status-ok, return_value-ok}
use disastr_os_semaphores.Kernel.SemaphoreCalls.{wake}
use disastr_os_semaphores.Kernel.SemaphoreCalls.Block.{moved, sems-alike}

-- The state after each part.
abbrev pub unlisted : System → (sem ptr : ℕ) → List ℕ → System
unlisted s sem ptr xs = detached (waiters_of sem) [] xs ptr s

abbrev pub reopened : System → (sem ptr : ℕ) → (xs zs : List ℕ) → System
reopened s sem ptr xs zs = inserted (openers_of sem) zs [] ptr (unlisted s sem ptr xs)

abbrev pub roused : System → (sem ptr : ℕ) → (xs zs : List ℕ) → ℕ → System
roused s sem ptr xs zs p =
    modified pcbs p (λ pcb. record pcb { status = Kernel.ready }) (reopened s sem ptr xs zs)

-- From `s` to `t` the process `p` is Ready and last in the ready list, the running process keeps
-- running, and its system call returns 0.
pub record Woken (s t : System) (p : ℕ) (rs ws zs : List ℕ) : Type 0 where
  pub runs : t.running ≡ s.running
  pub queued : Holds queue_table (queues (rs ++ p ∷ []) ws zs) t
  pub waked : (t.pcbs.at p).status ≡ Kernel.ready
  pub returned : (t.pcbs.at s.running).syscall_retvalue ≡ pos 0

-- The process whose descriptor the pointer leads to.
abbrev pub process_of : System → ℕ → ℕ
process_of s ptr = (s.sem_descriptors.at (s.sem_descriptor_ptrs.at ptr).descriptor).pcb

module _ (s : System) (sem ptr : ℕ) (lists : SemList → List ℕ) (xs : List ℕ) (some_sem : sem ≢ null)
    (holds : Holds sem_table lists s) where
  -- The waiting list of the semaphore is empty.
  pub wake-nil : lists (waiters sem) ≡ [] → wake sem s ≡ fault
  unfolding wake list_detach detach
  wake-nil e =
      let first : (sem_head s (waiters sem)).first ≡ null =
        (holds.each (waiters sem)).first ∙ ap (λ l. head_or l null) e in
      rw (==_ne sem null some_sem, first) refl

  module _ (is : lists (waiters sem) ≡ ptr ∷ xs) where
    taken : SemList → List ℕ
    taken = update SemList-discrete lists (waiters sem) xs

    abbrev closed : System
    closed = unlisted s sem ptr xs

    abbrev opened : System
    opened = reopened s sem ptr xs (lists (openers sem))

    take_step :
        (list_detach (waiters_of sem) (sem_head s (waiters sem)).first s ≡ ok (ptr, closed))
        × Holds sem_table taken closed
        × Loose sem_table taken ptr closed
    unfolding taken
    take_step =
        pop-Holds sem_table s (waiters sem) some_sem holds ptr xs is
          (update-IsUpdate SemList-discrete lists _ _)

    taken-openers : taken (openers sem) ≡ lists (openers sem)
    unfolding taken
    taken-openers =
        (update-IsUpdate SemList-discrete lists (waiters sem) xs).there (openers sem) (λ e. cc e)

    give_step :
        (list_insert (openers_of sem) (sem_head closed (openers sem)).last ptr closed
          ≡ ok (ptr, opened))
        × Holds sem_table (moved lists (waiters sem) xs (openers sem) ptr) opened
    unfolding taken
    give_step =
        subst
          (λ l.
            (list_insert (openers_of sem) (sem_head closed (openers sem)).last ptr closed
              ≡ ok (ptr, inserted (openers_of sem) l [] ptr closed))
            × Holds sem_table (update SemList-discrete taken (openers sem) (l ++ ptr ∷ []))
                (inserted (openers_of sem) l [] ptr closed))
          taken-openers
          (append-Holds sem_table closed (openers sem) some_sem take_step.1 ptr take_step.2
            (update-IsUpdate SemList-discrete taken _ _))

    abbrev p : ℕ
    p = process_of s ptr

    module _ (rs vs ws zs : List ℕ) (some_des : (s.sem_descriptor_ptrs.at ptr).descriptor ≢ null)
        (some_running : s.running ≢ null)
        (queued : Holds queue_table (queues rs (vs ++ p ∷ ws) zs) s) where
      abbrev risen : System
      risen = roused s sem ptr xs (lists (openers sem)) p

      abbrev unslept : System
      unslept = detached waiting_list vs ws p risen

      abbrev readied : System
      readied = inserted ready_list rs [] p unslept

      leave_step :
          (list_detach waiting_list p risen ≡ ok (p, unslept))
          × Holds queue_table (queues rs (vs ++ ws) zs) unslept
          × Loose queue_table (queues rs (vs ++ ws) zs) p unslept
      leave_step =
          detach-Holds queue_table risen waiting vs ws p (queue-owned waiting)
            (queues-frame s risen refl refl refl refl queued) refl
            (waiting-IsUpdate rs (vs ++ p ∷ ws) zs (vs ++ ws))

      enter_step :
          (list_insert ready_list unslept.ready_list.last p unslept ≡ ok (p, readied))
          × Holds queue_table (queues (rs ++ p ∷ []) (vs ++ ws) zs) readied
      enter_step =
          append-Holds queue_table unslept ready (queue-owned ready) leave_step.1 p leave_step.2
            (ready-IsUpdate rs (vs ++ ws) zs (rs ++ p ∷ []))

      pub wake-ok : wake sem s ≡ ok (tt, returning (pos 0) readied)
      unfolding wake
      wake-ok =
          rw
            (
              ==_ne sem null some_sem,
              take_step.0,
              ==_ne ptr null take_step.2.some_item,
              ==_ne sem null some_sem,
              give_step.0,
              ==_ne ptr null take_step.2.some_item,
              load-ok sem_descriptor_ptrs ptr opened take_step.2.some_item,
              load-ok sem_descriptors _ opened some_des,
              set_status-ok p Kernel.ready opened leave_step.2.some_item,
              leave_step.0,
              ==_ne p null leave_step.2.some_item,
              enter_step.0,
              ==_ne p null leave_step.2.some_item,
            )
            (return_value-ok readied some_running (pos 0))

      abbrev final : System
      final = returning (pos 0) readied

      final-status : (final.pcbs.at p).status ≡ Kernel.ready
      final-status = elim (ℕ_discrete p s.running) [
        | yes e ↦ rw (sym e, ==_self) refl
        | no ne ↦ rw (==_ne p s.running ne, ==_self) refl
      ]

      -- The first waiter becomes an opener again, and its process is ready.
      pub wake_lem :
          (wake sem s ≡ ok (tt, returning (pos 0) readied))
          × Holds sem_table (moved lists (waiters sem) xs (openers sem) ptr) final
          × Woken s final p rs (vs ++ ws) zs
      wake_lem = (
        wake-ok,
        sems-alike opened final refl refl give_step.1,
        record {
          runs = refl;
          queued = queues-frame readied final refl refl refl refl enter_step.1;
          waked = final-status;
          returned = rw ==_self refl;
        },
      )
