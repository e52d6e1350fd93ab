-- ===== src/Kernel/ProcessCalls/Schedule.antt =====
-- `internal_schedule` and `internal_preempt`, of disastrOS_schedule.c and disastrOS_preempt.c, while
-- no sleeping process is due.
use disastr_os_semaphores.Base.{ℕ, ◌≡◌, ◌≢◌, refl, sym, ap, ◌∙◌, false, List, [], ◌∷◌, ==_ne, ok}
use disastr_os_semaphores.Base.Int.{leb_ℤ}
use disastr_os_semaphores.LinkedList.{null}
use disastr_os_semaphores.LinkedList.Chain.{IsList}
use disastr_os_semaphores.Kernel.{System}
use disastr_os_semaphores.Kernel.Cmd.{timer_items}
use disastr_os_semaphores.Kernel.Rules.{load-ok}
use disastr_os_semaphores.Kernel.Families.{Holds, Loose}
use disastr_os_semaphores.Kernel.Queues.{queues, queue_table}
use disastr_os_semaphores.Kernel.Timers.{timer_list_current}
use disastr_os_semaphores.Kernel.ProcessCalls.{
  wake_elapsed, switch, internal_schedule, internal_preempt,
}
use disastr_os_semaphores.Kernel.ProcessCalls.Switch.{switch-nil, Switched, switched, switch_lem}

-- The first timer, if there is one, is not due.
abbrev pub NoneDue : System → List ℕ → Type 0
NoneDue s [] = Unit
NoneDue s (x ∷ xs) = leb_ℤ (s.timer_items.at x).awakening_time s.time ≡ false

-- A change of the state that spares the times.
pub NoneDue-frame :
    (s t : System) (later : List ℕ)
    → t.timer_items.at ≡ s.timer_items.at
    → t.time ≡ s.time
    → NoneDue s later
    → NoneDue t later
NoneDue-frame s t [] ei et d = tt
NoneDue-frame s t (x ∷ xs) ei et d = rw (ei, et) d

pub current-none :
    (s : System) (ts : List ℕ)
    → IsList s.timer_items.links s.timer_list ts
    → NoneDue s ts
    → timer_list_current s.time s ≡ ok (null, s)
unfolding timer_list_current
current-none s [] is due = rw is.first refl
current-none s (x ∷ xs) is due =
    let some_first : s.timer_list.first ≢ null = λ e. is.chain.0 (sym is.first ∙ e) in
    rw
      (
        ==_ne _ null some_first,
        load-ok timer_items _ s some_first,
        ap (λ a. leb_ℤ (s.timer_items.at a).awakening_time s.time) is.first,
        due,
      )
      refl

pub schedule-switch :
    (s : System) (ts : List ℕ)
    → IsList s.timer_items.links s.timer_list ts
    → NoneDue s ts
    → internal_schedule s ≡ switch s
unfolding internal_schedule wake_elapsed
schedule-switch s ts is due = rw (current-none s ts is due) refl

-- Where the list of timers and the queues are well formed, the first timer, if there is one, is not
-- due, and no process is ready, `internal_schedule` and `internal_preempt` change nothing.
pub preempt-alone :
    (s : System) (ts ws zs : List ℕ)
    → IsList s.timer_items.links s.timer_list ts
    → NoneDue s ts
    → Holds queue_table (queues [] ws zs) s
    → (internal_schedule s ≡ ok (tt, s)) × (internal_preempt s ≡ ok (tt, s))
unfolding internal_preempt
preempt-alone s ts ws zs is due holds =
    let alone = schedule-switch s ts is due ∙ switch-nil s ws zs holds in (alone, alone)

-- Where the list of timers and the queues are well formed, the first timer, if there is one, is not
-- due, the running process is in no queue, and `r` is the first ready process, `internal_preempt`
-- gives the processor to `r`: `r` is Running and in no queue, and the process that ran is Ready and
-- the last of the ready list.
pub preempt_lem :
    (s : System) (ts : List ℕ) (r : ℕ) (rs ws zs : List ℕ)
    → IsList s.timer_items.links s.timer_list ts
    → NoneDue s ts
    → Holds queue_table (queues (r ∷ rs) ws zs) s
    → Loose queue_table (queues (r ∷ rs) ws zs) s.running s
    → (internal_preempt s ≡ ok (tt, switched s r rs)) × Switched s (switched s r rs) r rs ws zs
unfolding internal_preempt
preempt_lem s ts r rs ws zs is due holds loose =
    let step = switch_lem s r rs ws zs holds loose in
    (rw (schedule-switch s ts is due) step.0, step.1)
