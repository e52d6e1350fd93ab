-- ===== src/Kernel/SemaphoreCalls/Balance.antt =====
-- The count of a semaphore against its waiters, over disastrOS_semwait.c and disastrOS_sempost.c.
use mathlib.Core.Path.{subst}
use disastr_os_semaphores.Base.{
  ℕ, suc, ◌≡◌, ◌≢◌, refl, sym, ap, ==_self, split_of_has, ◌∙◌, true, false, List, [], ◌∷◌, ◌++◌,
  arith, length, length-append, Bool-cases, inl, inr, ok, has,
}
use disastr_os_semaphores.Base.Int.{ℤ, pos, neg_part, ltb_ℤ, leb_ℤ, ◌+ℤ◌, ◌-ℤ◌}
use disastr_os_semaphores.LinkedList.{null}
use disastr_os_semaphores.LinkedList.Family.{update, update-IsUpdate}
use disastr_os_semaphores.Kernel.{System}
use disastr_os_semaphores.Kernel.Rules.{returning}
use disastr_os_semaphores.Kernel.Families.{Holds, Loose}
use disastr_os_semaphores.Kernel.Queues.{queues, queue_table}
use disastr_os_semaphores.Kernel.SemLists.{SemList, SemList-discrete, openers, waiters, sem_table}
use disastr_os_semaphores.Kernel.SemaphoreCalls.{internal_sem_wait, internal_sem_post}
use disastr_os_semaphores.Kernel.SemaphoreCalls.Found.{HasDescriptors, descriptor_for}
use disastr_os_semaphores.Kernel.SemaphoreCalls.Wait.{decremented, sem_wait-found}
use disastr_os_semaphores.Kernel.SemaphoreCalls.Block.{
  moved, sems-frame, sems-alike, sem_wait-blocks,
}
use disastr_os_semaphores.Kernel.SemaphoreCalls.Wake.{process_of}
use disastr_os_semaphores.Kernel.SemaphoreCalls.Post.{incremented, sem_post-found, sem_post-wakes}

-- The lists of the semaphores are `lists`, and as many processes wait for the semaphore as its
-- count is below zero.
pub record IsBalanced (s : System) (lists : SemList → List ℕ) (sem : ℕ) : Type 0 where
  pub holds : Holds sem_table lists s
  pub balanced : neg_part (s.semaphores.at sem).count ≡ length (lists (waiters sem))

negative_dec :
    (z : ℤ) → ltb_ℤ (z -ℤ pos 1) (pos 0) ≡ true → neg_part (z -ℤ pos 1) ≡ suc (neg_part z)
unfolding ◌-ℤ◌
negative_dec z h = ground arith

positive_dec : (z : ℤ) → ltb_ℤ (z -ℤ pos 1) (pos 0) ≡ false → neg_part (z -ℤ pos 1) ≡ neg_part z
unfolding ◌-ℤ◌
positive_dec z h = ground arith

negative_inc :
    (z : ℤ) → leb_ℤ (z +ℤ pos 1) (pos 0) ≡ true → neg_part z ≡ suc (neg_part (z +ℤ pos 1))
unfolding ◌+ℤ◌
negative_inc z h = ground arith

positive_inc : (z : ℤ) → leb_ℤ (z +ℤ pos 1) (pos 0) ≡ false → neg_part (z +ℤ pos 1) ≡ neg_part z
unfolding ◌+ℤ◌
positive_inc z h = ground arith

moved-to :
    (lists : SemList → List ℕ) (k : SemList) (xs : List ℕ) (j : SemList) (ptr : ℕ)
    → moved lists k xs j ptr j ≡ lists j ++ ptr ∷ []
moved-to lists k xs j ptr =
    (update-IsUpdate SemList-discrete (update SemList-discrete lists k xs) j
      (lists j ++ ptr ∷ [])).here

moved-from :
    (lists : SemList → List ℕ) (k : SemList) (xs : List ℕ) (j : SemList) (ptr : ℕ)
    → k ≢ j
    → moved lists k xs j ptr k ≡ xs
moved-from lists k xs j ptr ne =
    (update-IsUpdate SemList-discrete (update SemList-discrete lists k xs) j
        (lists j ++ ptr ∷ [])).there
      k ne
    ∙ (update-IsUpdate SemList-discrete lists k xs).here

module _ (s : System) (ds : List ℕ) (lists : SemList → List ℕ) (has_ds : HasDescriptors s ds)
    (some_sfd : descriptor_for s ds ≢ null) where
  abbrev sem : ℕ
  sem = (s.sem_descriptors.at (descriptor_for s ds)).semaphore

  abbrev ptr : ℕ
  ptr = (s.sem_descriptors.at (descriptor_for s ds)).ptr

  abbrev count : ℤ
  count = (s.semaphores.at sem).count

  -- Let the lists of the semaphores and the queues be well formed, the running process be in no
  -- queue and have a descriptor for its argument, whose semaphore and pointer are not NULL. Where
  -- as many processes wait for the semaphore as its count is below zero, the pointer is one of its
  -- openers, and some process is ready, `internal_semWait` ends without a fault on both branches,
  -- takes one off the count, keeps the lists of the semaphores well formed, and again as many
  -- processes wait as the count is below zero.
  pub sem_wait-IsBalanced :
      (xs ys : List ℕ) (r : ℕ) (rs ws zs : List ℕ)
      → sem ≢ null
      → ptr ≢ null
      → IsBalanced s lists sem
      → lists (openers sem) ≡ xs ++ ptr ∷ ys
      → Holds queue_table (queues (r ∷ rs) ws zs) s
      → Loose queue_table (queues (r ∷ rs) ws zs) s.running s
      → (t : System) × (lists' : SemList → List ℕ) × (internal_sem_wait s ≡ ok (tt, t))
        × ((t.semaphores.at sem).count ≡ count -ℤ pos 1)
        × IsBalanced t lists' sem
  sem_wait-IsBalanced xs ys r rs ws zs some_sem some_ptr b is queued loose =
      elim (Bool-cases (ltb_ℤ (count -ℤ pos 1) (pos 0))) [
        | inl e ↦
            let (t, run, c, after, _) =
              sem_wait-blocks s ds lists xs ys r rs ws zs has_ds some_sfd some_sem some_ptr b.holds
                is queued loose e in
            (
              t,
              moved lists (openers sem) (xs ++ ys) (waiters sem) ptr,
              run,
              c,
              record {
                holds = after;
                balanced =
                    ap neg_part c
                    ∙ negative_dec count e
                    ∙ ap suc b.balanced
                    ∙ sym (
                        ap length (moved-to lists (openers sem) (xs ++ ys) (waiters sem) ptr)
                        ∙ length-append (lists (waiters sem)) (ptr ∷ [])
                        ∙ omega arith);
              },
            )
        | inr e ↦
            let s' = decremented sem s in
            (
              returning (pos 0) s',
              lists,
              rw (sem_wait-found s ds has_ds some_sfd some_sem, e) refl,
              rw ==_self refl,
              record {
                holds = sems-alike s' (returning (pos 0) s') refl refl (sems-frame s sem _ b.holds);
                balanced = rw ==_self (positive_dec count e ∙ b.balanced);
              },
            )
      ]

  module _ (rs ws zs : List ℕ) (some_sem : sem ≢ null) (b : IsBalanced s lists sem)
      (queued : Holds queue_table (queues rs ws zs) s)
      (asleep : (a : ℕ)
        → has a (lists (waiters sem)) ≡ true
        → ((s.sem_descriptor_ptrs.at a).descriptor ≢ null) × (has (process_of s a) ws ≡ true)) where
    by_waiters :
        (rest : List ℕ)
        → lists (waiters sem) ≡ rest
        → leb_ℤ (count +ℤ pos 1) (pos 0) ≡ true
        → (t : System) × (lists' : SemList → List ℕ) × (internal_sem_post s ≡ ok (tt, t))
          × ((t.semaphores.at sem).count ≡ count +ℤ pos 1)
          × IsBalanced t lists' sem
    by_waiters [] is e =
        let none_waits = b.balanced ∙ ap length is in
        let below = negative_inc count e in absurd (omega arith)
    by_waiters (a ∷ rest) is e =
        let found = asleep a (rw (is, ==_self) refl) in
        let (vs, us, split) = split_of_has (process_of s a) ws found.1 in
        let (t, run, c, after, _) =
          sem_post-wakes s ds has_ds lists some_sfd some_sem b.holds e a rest rs vs us zs is found.0
            (subst (λ l. Holds queue_table (queues rs l zs) s) split queued) in
        let fewer = sym (negative_inc count e) ∙ b.balanced ∙ ap length is in
        (
          t,
          moved lists (waiters sem) rest (openers sem) a,
          run,
          c,
          record {
            holds = after;
            balanced =
                ap neg_part c
                ∙ omega arith
                ∙ sym (ap length (moved-from lists (waiters sem) rest (openers sem) a (λ e. cc e)));
          },
        )

    -- Let the lists of the semaphores and the queues be well formed and the running process have a
    -- descriptor for its argument, whose semaphore is not NULL. Where as many processes wait for
    -- the semaphore as its count is below zero, and each waiter has a descriptor whose process is
    -- in the waiting list, `internal_semPost` ends without a fault on both branches, adds one to
    -- the count, keeps the lists of the semaphores well formed, and again as many processes wait as
    -- the count is below zero.
    pub sem_post-IsBalanced :
        (t : System) × (lists' : SemList → List ℕ) × (internal_sem_post s ≡ ok (tt, t))
        × ((t.semaphores.at sem).count ≡ count +ℤ pos 1)
        × IsBalanced t lists' sem
    sem_post-IsBalanced = elim (Bool-cases (leb_ℤ (count +ℤ pos 1) (pos 0))) [
      | inl e ↦ by_waiters (lists (waiters sem)) refl e
      | inr e ↦
          let s' = incremented sem s in
          (
            returning (pos 0) s',
            lists,
            rw (sem_post-found s ds has_ds some_sfd some_sem, e) refl,
            rw ==_self refl,
            record {
              holds = sems-alike s' (returning (pos 0) s') refl refl (sems-frame s sem _ b.holds);
              balanced = rw ==_self (positive_inc count e ∙ b.balanced);
            },
          )
    ]
