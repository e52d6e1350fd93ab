-- ===== src/Kernel/ProcessCalls/Awake.antt =====
-- What `internal_schedule` of disastrOS_schedule.c does while timers are due.
use mathlib.Core.Path.{subst, ap₂}
use disastr_os_semaphores.Base.{
  ℕ, zero, suc, ◌<◌, ◌≡◌, refl, sym, ap, ◌∙◌, true, false, List, [], ◌∷◌, ◌++◌, map, arith, All,
  has, length, length-append, length-map, IsDistinct, last_or, last_or-append, append_assoc, ok,
  without, without_all, split_of_without, All-without,
}
use disastr_os_semaphores.LinkedList.{null}
use disastr_os_semaphores.LinkedList.Chain.{IsList}
use disastr_os_semaphores.PoolAllocator.FreeList.{IsPool}
use disastr_os_semaphores.PoolAllocator.Blocks.{address}
use disastr_os_semaphores.Kernel.{System}
use disastr_os_semaphores.Kernel.Cmd.{rounds}
use disastr_os_semaphores.Kernel.Families.{Holds, Loose}
use disastr_os_semaphores.Kernel.Queues.{waiting, queues, queue_table}
use disastr_os_semaphores.Kernel.ProcessCalls.{wake_elapsed}
use disastr_os_semaphores.Kernel.ProcessCalls.Schedule.{NoneDue, current-none}
use disastr_os_semaphores.Kernel.ProcessCalls.Elapsed.{
  IsDue, sleepers, pushed, sleeper_of, IsAwake, stepped, round-stepped, stepped-Holds,
  stepped-IsDue, stepped-IsAwake, stepped-others, stepped-Loose,
}

-- From `s` to `t` the processes `ps` have gone from the waiting list to the ready list, behind
-- `woken`, and the timers `later` are left.
pub record Awoken (s t : System) (woken ps rs ws zs later free : List ℕ) : Type 0 where
  pub queued : Holds queue_table (queues (woken ++ (ps ++ rs)) (without_all ps ws) zs) t
  pub timers : IsList t.timer_items.links t.timer_list later
  pub none_due : NoneDue t later
  pub pool : IsPool t.timer_items.pool free
  pub awake : All (IsAwake t) ps
  pub others : (a : ℕ) → has a ps ≡ false → t.pcbs.at a ≡ s.pcbs.at a
  pub running : t.running ≡ s.running
  pub items : t.timer_items.at ≡ s.timer_items.at
  pub time : t.time ≡ s.time
  pub loose :
      (a : ℕ)
      → Loose queue_table (queues (woken ++ rs) ws zs) a s
      → Loose queue_table (queues (woken ++ (ps ++ rs)) (without_all ps ws) zs) a t

-- One round of the loop, and what the other rounds do from there.
module _ (s : System) (i : ℕ) (is woken rs ys vs zs later free : List ℕ)
    (due : IsDue s (i ∷ is) later free)
    (holds : Holds queue_table
      (queues (woken ++ rs) (ys ++ sleeper_of s (address s.timer_items.pool i) ∷ vs) zs)
      s) where
  abbrev p : ℕ
  p = sleeper_of s (address s.timer_items.pool i)

  abbrev pub after : System
  after = stepped s i is woken rs ys vs zs later free due holds

  behind : (ls : List ℕ) → woken ++ p ∷ [] ++ ls ≡ woken ++ (p ∷ ls)
  behind = append_assoc woken (p ∷ [])

  pub after-Holds : Holds queue_table (queues (woken ++ p ∷ [] ++ rs) (ys ++ vs) zs) after
  after-Holds =
      subst (λ l. Holds queue_table (queues l (ys ++ vs) zs) after) (sym (behind rs))
        (stepped-Holds s i is woken rs ys vs zs later free due holds)

  pub round-after :
      (fuel : ℕ)
      → wake_elapsed (suc fuel) (last_or null woken) s
        ≡ wake_elapsed fuel (last_or null (woken ++ p ∷ [])) after
  round-after fuel =
      round-stepped s i is woken rs ys vs zs later free due holds fuel
      ∙ ap (λ a. wake_elapsed fuel a after) (sym (last_or-append null woken (p ∷ [])))

  pub Awoken-cons :
      (u : System) (ps : List ℕ) (left : List ℕ)
      → has p ps ≡ false
      → without p (ys ++ p ∷ vs) ≡ ys ++ vs
      → Awoken after u (woken ++ p ∷ []) ps rs (ys ++ vs) zs later left
      → Awoken s u woken (p ∷ ps) rs (ys ++ p ∷ vs) zs later left
  Awoken-cons u ps left out e w =
      let same : queues (woken ++ p ∷ [] ++ (ps ++ rs)) (without_all ps (ys ++ vs)) zs
          ≡ queues (woken ++ (p ∷ ps ++ rs)) (without_all ps (without p (ys ++ p ∷ vs))) zs =
        ap₂ (λ a b. queues a (without_all ps b) zs) (behind (ps ++ rs)) (sym e) in
      record {
        queued = subst (λ l. Holds queue_table l u) same w.queued;
        timers = w.timers;
        none_due = w.none_due;
        pool = w.pool;
        awake = (
          rw (w.others p out) (stepped-IsAwake s i is woken rs ys vs zs later free due holds),
          w.awake,
        );
        others = λ a m.
            w.others a (ground arith)
            ∙ stepped-others s i is woken rs ys vs zs later free due holds a (ground arith);
        running = w.running;
        items = w.items;
        time = w.time;
        loose = λ a l.
            let l' =
              subst (λ ls. Loose queue_table (queues ls (ys ++ vs) zs) a after) (sym (behind rs))
                (stepped-Loose s i is woken rs ys vs zs later free due holds a l) in
            subst (λ ls. Loose queue_table ls a u) same (w.loose a l');
      }

pub wake_elapsed_lem :
    (s : System) (is woken rs ws zs later free : List ℕ) (fuel : ℕ)
    → IsDue s is later free
    → Holds queue_table (queues (woken ++ rs) ws zs) s
    → IsDistinct (sleepers s is)
    → All (λ p. has p ws ≡ true) (sleepers s is)
    → length is < fuel
    → (t : System) × (wake_elapsed fuel (last_or null woken) s ≡ ok (tt, t))
      × Awoken s t woken (sleepers s is) rs ws zs later (pushed is free)
unfolding wake_elapsed
wake_elapsed_lem s is woken rs ws zs later free zero due holds distinct waits enough =
    absurd (omega arith)
wake_elapsed_lem s [] woken rs ws zs later free (suc fuel) due holds distinct waits enough = (
  s,
  rw (current-none s later due.timers due.none_due) refl,
  record {
    queued = holds;
    timers = due.timers;
    none_due = due.none_due;
    pool = due.pool;
    awake = tt;
    others = λ a m. refl;
    running = refl;
    items = refl;
    time = refl;
    loose = λ a l. l;
  },
)
wake_elapsed_lem s (i ∷ is) woken rs ws zs later free (suc fuel) due holds distinct waits enough =
    let p = sleeper_of s (address s.timer_items.pool i) in
    let (ys, vs, e, e') = split_of_without p ws (holds.each waiting).distinct waits.0 in
    let holds' : Holds queue_table (queues (woken ++ rs) (ys ++ p ∷ vs) zs) s =
      subst (λ l. Holds queue_table (queues (woken ++ rs) l zs) s) e holds in
    let ps = sleepers s is in
    let still =
      subst (λ l. All (λ q. has q l ≡ true) ps) e' (All-without p ps ws distinct.0 waits.1) in
    let rest =
      wake_elapsed_lem (after s i is woken rs ys vs zs later free due holds') is (woken ++ p ∷ [])
        rs (ys ++ vs) zs later (i ∷ free) fuel
        (stepped-IsDue s i is woken rs ys vs zs later free due holds')
        (after-Holds s i is woken rs ys vs zs later free due holds') distinct.1 still
        (omega arith) in
    (
      rest.0,
      round-after s i is woken rs ys vs zs later free due holds' fuel ∙ rest.1,
      subst (λ l. Awoken s rest.0 woken (p ∷ ps) rs l zs later (pushed is (i ∷ free))) (sym e)
          (Awoken-cons s i is woken rs ys vs zs later free due holds' rest.0 ps
            (pushed is (i ∷ free)) distinct.0 (ap (without p) (sym e) ∙ e') rest.2),
    )

module _ (s : System) (is rs ws zs later free : List ℕ) (due : IsDue s is later free)
    (holds : Holds queue_table (queues rs ws zs) s) (distinct : IsDistinct (sleepers s is))
    (waits : All (λ p. has p ws ≡ true) (sleepers s is)) where
  pub wake_all :
      (t : System) × (wake_elapsed (rounds s.timer_list) null s ≡ ok (tt, t))
      × Awoken s t [] (sleepers s is) rs ws zs later (pushed is free)
  wake_all =
      let size = due.timers.size in
      let lengths = length-append (map (address s.timer_items.pool) is) later in
      let lengths' = length-map (address s.timer_items.pool) is in
      wake_elapsed_lem s is [] rs ws zs later free _ due holds distinct waits (ground arith)
