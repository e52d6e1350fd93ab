-- ===== src/Kernel/WaitExit/Bury.antt =====
-- The end of `internal_exit` of disastrOS_exit.c, where the process stays as a zombie.
use Prim.Native.Nat.{bit_and, bit_or}
use disastr_os_semaphores.PoolAllocator.{narrow}
use disastr_os_semaphores.Base.{ℕ, ◌≡◌, refl, List, [], ◌∷◌, ◌++◌, ok}
use disastr_os_semaphores.Kernel.{System, Pcb}
use disastr_os_semaphores.Kernel
use disastr_os_semaphores.Kernel.Constants.{sigchld}
use disastr_os_semaphores.Kernel.Cmd.{pcbs, modified, list_insert, list_detach}
use disastr_os_semaphores.Kernel.Lists.{zombie_list, ready_list}
use disastr_os_semaphores.Kernel.Families.{
  Holds, Loose, append-Holds, pop-Holds, inserted, detached,
}
use disastr_os_semaphores.Kernel.Queues.{
  ready, zombie, queues, queue_table, queue-owned, queues-frame, ready-IsUpdate, zombie-IsUpdate,
}
use disastr_os_semaphores.Kernel.Rules.{set_status-ok}
use disastr_os_semaphores.Kernel.WaitExit.{exit_to_next}

-- The state after each part: the value that the process leaves is stored; from a state `s` in which
-- the children are gone, the process is a zombie, and its parent has SIGCHLD; the next one runs.
abbrev pub valued : System → System
valued s =
    modified pcbs s.running
      (λ p. record p { return_value = narrow ((s.pcbs.at s.running).syscall_args 0) }) s

abbrev pub entombed : (me : ℕ) → List ℕ → System → System
entombed me zs s =
    inserted zombie_list zs [] me (modified pcbs me (λ p. record p { status = Kernel.zombie }) s)

abbrev pub signalled : (parent : ℕ) → System → System
signalled parent s =
    modified pcbs parent
      (λ p. record p { signals = bit_or p.signals (bit_and sigchld p.signals_mask) }) s

abbrev pub succeeded : (r : ℕ) → List ℕ → System → System
succeeded r rs s =
    record (modified pcbs r (λ p. record p { status = Kernel.running })
      (detached ready_list [] rs r s)) { running = r }

-- The part behind the loop over the children, at a state `s` in which `me` runs.
module _ (s : System) (me parent r : ℕ) (rs ws zs : List ℕ)
    (holds : Holds queue_table (queues (r ∷ rs) ws zs) s)
    (loose : Loose queue_table (queues (r ∷ rs) ws zs) me s) where
  abbrev dead : System
  dead = modified pcbs me (λ p. record p { status = Kernel.zombie }) s

  abbrev pub left : System
  left = signalled parent (entombed me zs s)

  pub bury_step :
      (list_insert zombie_list dead.zombie_list.last me dead ≡ ok (me, entombed me zs s))
      × Holds queue_table (queues (r ∷ rs) ws (zs ++ me ∷ [])) (entombed me zs s)
  bury_step =
      append-Holds queue_table dead zombie (queue-owned zombie)
        (queues-frame s dead refl refl refl refl holds) me
        (record { some_item = loose.some_item; outside = loose.outside; unlinked = loose.unlinked })
        (zombie-IsUpdate (r ∷ rs) ws zs (zs ++ me ∷ []))

  pub next_step :
      (list_detach ready_list left.ready_list.first left ≡ ok (r, detached ready_list [] rs r left))
      × Holds queue_table (queues rs ws (zs ++ me ∷ [])) (detached ready_list [] rs r left)
      × Loose queue_table (queues rs ws (zs ++ me ∷ [])) r (detached ready_list [] rs r left)
  next_step =
      pop-Holds queue_table left ready (queue-owned ready)
        (queues-frame (entombed me zs s) left refl refl refl refl bury_step.1) r rs refl
        (ready-IsUpdate (r ∷ rs) ws (zs ++ me ∷ []) rs)

  pub exit_to_next-ok : exit_to_next left ≡ ok (tt, succeeded r rs left)
  unfolding exit_to_next
  exit_to_next-ok =
      rw
        (
          next_step.0,
          set_status-ok r Kernel.running (detached ready_list [] rs r left) next_step.2.some_item,
        )
        refl
