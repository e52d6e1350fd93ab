-- ===== src/Kernel/ProcessCalls/RoundRobin.antt =====
-- A sequence of calls of `internal_preempt` of disastrOS_preempt.c.
use mathlib.Core.Path.{subst}
use disastr_os_semaphores.Base.{
  ℕ, zero, suc, ◌≡◌, refl, List, [], ◌∷◌, ◌++◌, append_assoc, length, ok,
}
use disastr_os_semaphores.LinkedList.Chain.{IsList}
use disastr_os_semaphores.Kernel.{System}
use disastr_os_semaphores.Kernel.Cmd.{Cmd, done, ◌>>◌}
use disastr_os_semaphores.Kernel.Families.{Holds, Loose}
use disastr_os_semaphores.Kernel.Queues.{queues, queue_table}
use disastr_os_semaphores.Kernel.ProcessCalls.{internal_preempt}
use disastr_os_semaphores.Kernel.ProcessCalls.Schedule.{NoneDue, NoneDue-frame, preempt_lem}
use disastr_os_semaphores.Kernel.ProcessCalls.Switch.{switched}

-- `n` calls in a row
unfoldable pub preempts : ℕ → Cmd (Unit {0})
preempts zero = done
preempts (suc n) = do internal_preempt; preempts n

-- In the state `s` no timer is due, `p` runs and is in no queue, and `rs` are ready.
pub record Runs (s : System) (p : ℕ) (rs ws zs ts : List ℕ) : Type 0 where
  pub running : s.running ≡ p
  pub timers : IsList s.timer_items.links s.timer_list ts
  pub none_due : NoneDue s ts
  pub queued : Holds queue_table (queues rs ws zs) s
  pub outside : Loose queue_table (queues rs ws zs) s.running s

preempt-Runs :
    (s : System) (p r : ℕ) (rs ws zs ts : List ℕ)
    → Runs s p (r ∷ rs) ws zs ts
    → (internal_preempt s ≡ ok (tt, switched s r rs))
      × Runs (switched s r rs) r (rs ++ p ∷ []) ws zs ts
preempt-Runs s p r rs ws zs ts is =
    let step = preempt_lem s ts r rs ws zs is.timers is.none_due is.queued is.outside in
    (
      step.0,
      record {
        running = refl;
        timers = is.timers;
        none_due = NoneDue-frame s (switched s r rs) ts refl refl is.none_due;
        queued =
            subst (λ a. Holds queue_table (queues (rs ++ a ∷ []) ws zs) (switched s r rs))
              is.running step.1.queued;
        outside =
            subst (λ a. Loose queue_table (queues (rs ++ a ∷ []) ws zs) r (switched s r rs))
              is.running step.1.dequeued;
      },
    )

-- Where no timer is due, the queues are well formed and the running process `p` is in none of them,
-- `internal_preempt` in a row, once for each ready process in front of `r` and once more, makes `r`
-- run. The ready list is then what was behind `r`, `p`, and what was in front of `r`, in that order.
pub preempts_lem :
    (s : System) (p : ℕ) (xs : List ℕ) (r : ℕ) (ys ws zs ts : List ℕ)
    → Runs s p (xs ++ r ∷ ys) ws zs ts
    → (t : System) × (preempts (suc (length xs)) s ≡ ok (tt, t)) × Runs t r (ys ++ p ∷ xs) ws zs ts
unfolding preempts
preempts_lem s p [] r ys ws zs ts is =
    let step = preempt-Runs s p r ys ws zs ts is in (switched s r ys, rw step.0 refl, step.1)
preempts_lem s p (x ∷ xs) r ys ws zs ts is =
    let step = preempt-Runs s p x (xs ++ r ∷ ys) ws zs ts is in
    let next = switched s x (xs ++ r ∷ ys) in
    let is' = subst (λ l. Runs next x l ws zs ts) (append_assoc xs (r ∷ ys) (p ∷ [])) step.1 in
    let rest = preempts_lem next x xs r (ys ++ p ∷ []) ws zs ts is' in
    (
      rest.0,
      rw step.0 rest.1,
      subst (λ l. Runs rest.0 r l ws zs ts) (append_assoc ys (p ∷ []) (x ∷ xs)) rest.2,
    )
