-- ===== src/Kernel/WaitExit/Exit/Tests.antt =====
-- The theorems on the sleep of a parent and on the exit of a process, at a state with a child.
use native.Mathlib.Decide.{ℕ_discrete}
use disastr_os_semaphores.Base.{ℕ, ◌≡◌, refl, List, [], ◌∷◌, arith, ok}
use disastr_os_semaphores.LinkedList.{link}
use disastr_os_semaphores.LinkedList.Family.{update, update-IsUpdate}
use disastr_os_semaphores.Kernel.{System}
use disastr_os_semaphores.Kernel.Tests.{zero_pcb, no_pool}
use disastr_os_semaphores.Kernel.Lists.{children_of}
use disastr_os_semaphores.Kernel.Families.{Holds, Loose, insert-Holds, inserted}
use disastr_os_semaphores.Kernel.Queues.{queues, queue_table, queues-frame}
use disastr_os_semaphores.Kernel.Children.{child_table}
use disastr_os_semaphores.Kernel.ProcessCalls.Tests.{trio, trio-queues, trio-outside}
use disastr_os_semaphores.Kernel.WaitExit.{internal_wait, internal_exit}
use disastr_os_semaphores.Kernel.WaitExit.Pause.{Paused, wait-sleeps}
use disastr_os_semaphores.Kernel.WaitExit.Exit.{Exited, exit_lem}

-- The process at 4 runs, those at 6 and 8 are ready; 8 is `init` and the parent of each.
abbrev base : System
base = record trio {
  init_pcb = 8;
  pcbs = record (trio.pcbs) { at = λ _. record zero_pcb { parent = 8 } };
  pcb_ptrs = record { links = λ _. link 0 0; at = λ _. record { pcb = 6 }; pool = no_pool };
}

base-children : Holds child_table (λ _. []) base
base-children = record {
  each = λ k. record { first = refl; last = refl; size = refl; chain = tt; distinct = tt };
  apart = λ j k ne. tt;
}

-- And 6 is a child of 4.
abbrev kin : System
kin = inserted (children_of 4) [] [] 50 base

abbrev kids : ℕ → List ℕ
kids = update ℕ_discrete (λ _. []) 4 (50 ∷ [])

kin-children : Holds child_table kids kin
kin-children =
    (insert-Holds child_table base 4 [] [] 50 (λ e. absurd (omega arith)) base-children refl
      (record { some_item = λ e. absurd (omega arith); outside = λ k. refl; unlinked = refl })
      (update-IsUpdate ℕ_discrete (λ _. []) 4 (50 ∷ []))).1

kin-queues : Holds queue_table (queues (6 ∷ 8 ∷ []) [] []) kin
kin-queues = queues-frame trio kin refl refl refl refl trio-queues

kin-Loose : Loose queue_table (queues (6 ∷ 8 ∷ []) [] []) 4 kin
kin-Loose = record {
  some_item = λ e. absurd (omega arith);
  outside = trio-outside;
  unlinked = refl;
}

wait-sleeps_example :
    (t : System) × (internal_wait kin ≡ ok (tt, t)) × Paused kin t 6 (8 ∷ []) [] []
unfolding ℕ_discrete
wait-sleeps_example =
    wait-sleeps kin 6 (8 ∷ []) [] [] kin-queues kin-Loose 50 [] (kin-children.each 4)
      ((λ e. absurd (omega arith)), tt) refl

exit_lem_example :
    (t : System) × (lists' : ℕ → List ℕ) × (internal_exit kin ≡ ok (tt, t))
    × Exited kin t kids lists' 6 (8 ∷ []) [] []
unfolding ℕ_discrete
exit_lem_example =
    exit_lem kin 6 (8 ∷ []) [] [] kids (λ e. absurd (omega arith)) (λ e. absurd (omega arith))
      (λ e. absurd (omega arith)) (λ e. absurd (omega arith)) kin-queues kin-Loose kin-children
      ((λ e. absurd (omega arith)), tt) refl
