-- ===== src/Kernel/ProcessCalls/Wakes.antt =====
-- `internal_schedule` of disastrOS_schedule.c where timers are due, from its start to its end.
use mathlib.Core.Path.{subst}
use disastr_os_semaphores.Base.{
  ℕ, ◌≡◌, refl, sym, ◌∙◌, true, false, List, [], ◌∷◌, ◌++◌, All, has, IsDistinct, ok, without_all,
}
use disastr_os_semaphores.LinkedList.{null}
use disastr_os_semaphores.LinkedList.Chain.{IsList}
use disastr_os_semaphores.PoolAllocator.FreeList.{IsPool}
use disastr_os_semaphores.Kernel.{System}
use disastr_os_semaphores.Kernel.Rules.{write_at-same}
use disastr_os_semaphores.Kernel.Families.{Holds, Loose}
use disastr_os_semaphores.Kernel.Queues.{queues, queue_table}
use disastr_os_semaphores.Kernel.ProcessCalls.{internal_schedule}
use disastr_os_semaphores.Kernel.ProcessCalls.Schedule.{NoneDue, NoneDue-frame}
use disastr_os_semaphores.Kernel.ProcessCalls.Switch.{switched, switch_lem, rotated}
use disastr_os_semaphores.Kernel.ProcessCalls.Elapsed.{IsDue, sleepers, pushed, IsAwake}
use disastr_os_semaphores.Base.{◌≢◌, Bool-cases, inl, inr, ◌==◌, ==_ne, ==_iff}
use disastr_os_semaphores.Kernel
use disastr_os_semaphores.Kernel.ProcessCalls.Awake.{Awoken, wake_all}

-- From `s` to `u` the processes `ps` have gone from the waiting list to the front of the ready list,
-- and then the first ready process `r` got the processor, before `rs`. The timers `later` are left.
pub record Scheduled (s u : System) (r : ℕ) (ps rs ws zs later free : List ℕ) : Type 0 where
  pub runs : u.running ≡ r
  pub chosen : (u.pcbs.at r).status ≡ Kernel.running
  pub displaced : (u.pcbs.at s.running).status ≡ Kernel.ready
  pub queued : Holds queue_table (queues (rs ++ s.running ∷ []) (without_all ps ws) zs) u
  pub dequeued : Loose queue_table (queues (rs ++ s.running ∷ []) (without_all ps ws) zs) r u
  pub timers : IsList u.timer_items.links u.timer_list later
  pub none_due : NoneDue u later
  pub items : u.timer_items.at ≡ s.timer_items.at
  pub time : u.time ≡ s.time
  pub pool : IsPool u.timer_items.pool free
  pub awake : (a : ℕ) → has a ps ≡ true → a ≢ r → (u.pcbs.at a).status ≡ Kernel.ready
  pub untimed : (a : ℕ) → has a ps ≡ true → (u.pcbs.at a).timer ≡ null
  pub others : (a : ℕ) → has a ps ≡ false → a ≢ r → a ≢ s.running → u.pcbs.at a ≡ s.pcbs.at a

All-has : (P : ℕ → Type 0) (a : ℕ) (xs : List ℕ) → All P xs → has a xs ≡ true → P a
All-has P a [] all m = absurd (cc)
All-has P a (x ∷ xs) all m = elim (Bool-cases (a == x)) [
  | inl e ↦ subst P (sym ((==_iff a x).0 e)) all.0
  | inr e ↦ All-has P a xs all.1 (rw e at m)
]

module _ (s : System) (is rs ws zs later free : List ℕ) (due : IsDue s is later free)
    (holds : Holds queue_table (queues rs ws zs) s) (distinct : IsDistinct (sleepers s is))
    (waits : All (λ p. has p ws ≡ true) (sleepers s is)) where
  abbrev ps : List ℕ
  ps = sleepers s is

  abbrev left : List ℕ
  left = without_all ps ws

  module _ (r : ℕ) (rs' : List ℕ) (t : System)
      (w : Awoken s t [] ps rs ws zs later (pushed is free)) where
    abbrev u : System
    u = switched t r rs'

    u-awake : (a : ℕ) → has a ps ≡ true → a ≢ r → (u.pcbs.at a).status ≡ Kernel.ready
    u-awake a m ne =
        let ready = (All-has (IsAwake t) a ps w.awake m).0 in
        elim (Bool-cases (a == t.running)) [
          | inl e ↦ rw (==_ne a r ne, e) refl
          | inr e ↦ rw (==_ne a r ne, e) ready
        ]

    u-untimed : (a : ℕ) → has a ps ≡ true → (u.pcbs.at a).timer ≡ null
    u-untimed a m =
        let untimed = (All-has (IsAwake t) a ps w.awake m).1 in
        write_at-same (λ (p : Kernel.Pcb). p.timer) (rotated t r rs').pcbs.at r _ refl a
        ∙ write_at-same (λ (p : Kernel.Pcb). p.timer) t.pcbs.at t.running _ refl a
        ∙ untimed

    u-others : (a : ℕ) → has a ps ≡ false → a ≢ r → a ≢ s.running → u.pcbs.at a ≡ s.pcbs.at a
    u-others a m ne nr =
        rw (==_ne a r ne, ==_ne a t.running (λ e. nr (e ∙ w.running))) (w.others a m)

  -- Where the lists are well formed, the first timers of the list, in blocks of the pool, are due and
  -- no others, their processes are different and in the waiting list, the running process is in no
  -- queue, and `r` is the first of these processes, or of the ready ones if there are none,
  -- `internal_schedule` ends without a fault. In the state in which it ends `r` is Running and in no
  -- queue; the other processes of the timers are Ready, and have gone from the waiting list to the
  -- front of the ready list, in the order of the timers; the process that ran is Ready and the last of
  -- the ready list. None of the processes of the timers has a timer. The blocks of these timers are
  -- free, the list has the other timers, which are not due, and every other process is as it was.
  pub schedule-wakes :
      (r : ℕ) (rs' : List ℕ)
      → ps ++ rs ≡ r ∷ rs'
      → Loose queue_table (queues rs ws zs) s.running s
      → (u : System) × (internal_schedule s ≡ ok (tt, u))
        × Scheduled s u r ps rs' ws zs later (pushed is free)
  unfolding internal_schedule
  schedule-wakes r rs' first loose =
      let (t, e, w) = wake_all s is rs ws zs later free due holds distinct waits in
      let queued : Holds queue_table (queues (r ∷ rs') left zs) t =
        subst (λ l. Holds queue_table (queues l left zs) t) first w.queued in
      let outside : Loose queue_table (queues (r ∷ rs') left zs) t.running t =
        subst (λ l. Loose queue_table (queues l left zs) t.running t) first
          (subst (λ a. Loose queue_table (queues (ps ++ rs) left zs) a t) (sym w.running)
            (w.loose s.running loose)) in
      let step = switch_lem t r rs' left zs queued outside in
      (
        switched t r rs',
        rw e step.0,
        record {
          runs = refl;
          chosen = step.1.running;
          displaced =
              subst (λ a. ((switched t r rs').pcbs.at a).status ≡ Kernel.ready) w.running
                step.1.waits;
          queued =
              subst (λ a. Holds queue_table (queues (rs' ++ a ∷ []) left zs) (switched t r rs'))
                w.running step.1.queued;
          dequeued =
              subst (λ a. Loose queue_table (queues (rs' ++ a ∷ []) left zs) r (switched t r rs'))
                w.running step.1.dequeued;
          timers = w.timers;
          none_due = NoneDue-frame t (switched t r rs') later refl refl w.none_due;
          items = w.items;
          time = w.time;
          pool = w.pool;
          awake = u-awake r rs' t w;
          untimed = u-untimed r rs' t w;
          others = u-others r rs' t w;
        },
      )
