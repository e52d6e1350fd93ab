-- ===== src/Kernel/SemaphoreCalls/Close.antt =====
-- `internal_semClose` of disastrOS_semclose.c with a descriptor that the process has, to the test
-- whether the semaphore is still in use.
pub mod Used
pub mod Last
use mathlib.Core.Path.{ap₂}
use disastr_os_semaphores.Base.{
  ℕ, ◌<◌, ◌≡◌, ◌≢◌, refl, sym, ap, ◌∙◌, true, false, ◌+◌, ◌&&◌, List, [], ◌∷◌, ◌++◌, arith, ◌==◌,
  ==_ne, ==_self, has, length, ok, head_or, last_or,
}
use disastr_os_semaphores.Base.Int.{ℤ, pos, ◌-ℤ◌, ◌==ℤ◌}
use disastr_os_semaphores.LinkedList.{null}
use disastr_os_semaphores.LinkedList.Chain.{IsList}
use disastr_os_semaphores.LinkedList.Detach.{detach-remove, some_item}
use disastr_os_semaphores.LinkedList.Family.{update, update-IsUpdate, detached_head}
use disastr_os_semaphores.PoolAllocator.FreeList.{IsPool}
use disastr_os_semaphores.PoolAllocator.Blocks.{address, released-IsPool}
use disastr_os_semaphores.Kernel.{System, Semaphore}
use disastr_os_semaphores.Kernel.Cmd.{
  modified, pcbs, semaphores, sem_descriptors, sem_descriptor_ptrs, list_detach,
}
use disastr_os_semaphores.Kernel.Lists.{sem_descriptors_of, openers_of, semaphores_list}
use disastr_os_semaphores.Kernel.Families.{
  Holds, Holds-frame, detach-Holds, detached, list_detach-detached,
}
use disastr_os_semaphores.Kernel.SemLists.{SemList, SemList-discrete, openers, waiters, sem_table}
use disastr_os_semaphores.Kernel.Rules.{
  write_at-same, load-ok, modify-ok, argument-ok, int_argument-ok, free_block-ok, freed,
  return_value-ok, returning,
}
use disastr_os_semaphores.Kernel.Semaphores.{
  sem_descriptor_free, sem_descriptor_ptr_free, semaphore_free,
}
use disastr_os_semaphores.Kernel.SemaphoreCalls.{finish_close, close_semaphore, internal_sem_close}
use disastr_os_semaphores.Kernel.SemaphoreCalls.Block.{sems-alike}
use disastr_os_semaphores.Kernel.SemaphoreCalls.Found.{HasDescriptors, descriptor_for, by_fd-ok}

-- From `s` to `t` the running process has closed a descriptor of the semaphore `sem`.
pub record Closed (s t : System) (sem : ℕ) (ds : List ℕ) (lists : SemList → List ℕ)
    (xs fi fj : List ℕ) : Type 0 where
  pub running : t.running ≡ s.running
  pub returned : (t.pcbs.at s.running).syscall_retvalue ≡ pos 0
  pub next_fd : (t.pcbs.at s.running).last_sem_fd ≡ (s.pcbs.at s.running).last_sem_fd -ℤ pos 1
  pub mine : IsList t.sem_descriptors.links (t.pcbs.at s.running).sem_descriptors ds
  pub holds : Holds sem_table (update SemList-discrete lists (openers sem) xs) t
  pub descriptors : IsPool t.sem_descriptors.pool fi
  pub pointers : IsPool t.sem_descriptor_ptrs.pool fj
  pub counts : (a : ℕ) → (t.semaphores.at a).count ≡ (s.semaphores.at a).count

-- The state after the last two statements.
abbrev pub finished : System → System
finished u =
    returning (pos 0)
      (modified pcbs u.running (λ p. record p { last_sem_fd = p.last_sem_fd -ℤ pos 1 }) u)

pub finish_close-ok : (u : System) → u.running ≢ null → finish_close u ≡ ok (tt, finished u)
unfolding finish_close
finish_close-ok u some = rw (modify-ok pcbs u.running u some) (
    return_value-ok
      (modified pcbs u.running (λ p. record p { last_sem_fd = p.last_sem_fd -ℤ pos 1 }) u) some
      (pos 0))

-- The descriptor that the argument stands for is in block `i`, between `ys` and `zs` in the list of
-- the process; its pointer is in block `j`, between `us` and `vs` among the openers.
pub record CanClose (s : System) (i j : ℕ) (ys zs us vs fi fj : List ℕ) (lists : SemList → List ℕ)
    : Type 0 where
  pub mine : HasDescriptors s (ys ++ address s.sem_descriptors.pool i ∷ zs)
  pub found :
      descriptor_for s (ys ++ address s.sem_descriptors.pool i ∷ zs)
      ≡ address s.sem_descriptors.pool i
  pub some_sem : (s.sem_descriptors.at (address s.sem_descriptors.pool i)).semaphore ≢ null
  pub pointer :
      (s.sem_descriptors.at (address s.sem_descriptors.pool i)).ptr
      ≡ address s.sem_descriptor_ptrs.pool j
  pub holds : Holds sem_table lists s
  pub opens :
      lists (openers (s.sem_descriptors.at (address s.sem_descriptors.pool i)).semaphore)
      ≡ us ++ address s.sem_descriptor_ptrs.pool j ∷ vs
  pub descriptors : IsPool s.sem_descriptors.pool fi
  pub i_below : i < s.sem_descriptors.pool.size_max
  pub i_out : has i fi ≡ false
  pub pointers : IsPool s.sem_descriptor_ptrs.pool fj
  pub j_below : j < s.sem_descriptor_ptrs.pool.size_max
  pub j_out : has j fj ≡ false

module _ (s : System) (i j : ℕ) (ys zs us vs fi fj : List ℕ) (lists : SemList → List ℕ)
    (can : CanClose s i j ys zs us vs fi fj lists) where
  abbrev pub d : ℕ
  d = address s.sem_descriptors.pool i

  abbrev pub x : ℕ
  x = address s.sem_descriptor_ptrs.pool j

  abbrev pub sem : ℕ
  sem = (s.sem_descriptors.at d).semaphore

  abbrev pub openers_left : SemList → List ℕ
  openers_left = update SemList-discrete lists (openers sem) (us ++ vs)

  abbrev pub disowned : System
  disowned = detached (sem_descriptors_of s.running) ys zs d s

  abbrev pub unlisted : System
  unlisted = detached (openers_of sem) us vs x disowned

  abbrev pub released : System
  released = freed sem_descriptors i (freed sem_descriptor_ptrs j unlisted)

  pub own_step :
      (list_detach (sem_descriptors_of s.running) d s ≡ ok (d, disowned))
      × IsList disowned.sem_descriptors.links
          (detached_head (s.pcbs.at s.running).sem_descriptors ys zs d)
          (ys ++ zs)
  own_step =
      let step =
        detach-remove s.sem_descriptors.links (s.pcbs.at s.running).sem_descriptors ys zs d
          can.mine.list in
      (
        list_detach-detached (sem_descriptors_of s.running) s ys zs d can.mine.some_running step.0,
        step.1,
      )

  pub list_step :
      (list_detach (openers_of sem) x disowned ≡ ok (x, unlisted))
      × Holds sem_table openers_left unlisted
      × (x ≢ null)
  list_step =
      let step =
        detach-Holds sem_table disowned (openers sem) us vs x can.some_sem
          (sems-alike s disowned refl refl can.holds) can.opens
          (update-IsUpdate SemList-discrete lists (openers sem) (us ++ vs)) in
      (step.0, step.1, step.2.some_item)

  some_d : d ≢ null
  some_d =
      some_item s.sem_descriptors.links (s.pcbs.at s.running).sem_descriptors ys zs d can.mine.list

  -- The call goes on with the test whether the semaphore is still in use.
  pub close-released : internal_sem_close s ≡ close_semaphore sem released
  unfolding internal_sem_close sem_descriptor_free sem_descriptor_ptr_free
  close-released =
      rw
        (
          int_argument-ok s can.mine.some_running 0,
          by_fd-ok s (ys ++ d ∷ zs) can.mine,
          can.found,
          ==_ne d null some_d,
          own_step.0,
          load-ok sem_descriptors d disowned some_d,
          can.pointer,
          list_step.0,
          ==_ne x null list_step.2,
          free_block-ok sem_descriptor_ptrs unlisted j fj can.pointers can.j_below can.j_out,
          free_block-ok sem_descriptors (freed sem_descriptor_ptrs j unlisted) i fi can.descriptors
              can.i_below can.i_out,
        )
        refl

  here : openers_left (openers sem) ≡ us ++ vs
  here = (update-IsUpdate SemList-discrete lists (openers sem) (us ++ vs)).here

  pub openers_first : (released.semaphores.at sem).descriptors.first ≡ head_or (us ++ vs) null
  openers_first = (list_step.1.each (openers sem)).first ∙ ap (λ l. head_or l null) here

  pub openers_last : (released.semaphores.at sem).descriptors.last ≡ last_or null (us ++ vs)
  openers_last = (list_step.1.each (openers sem)).last ∙ ap (last_or null) here

  there : openers_left (waiters sem) ≡ lists (waiters sem)
  there =
      (update-IsUpdate SemList-discrete lists (openers sem) (us ++ vs)).there (waiters sem)
        (λ e. cc)

  pub openers_size : (released.semaphores.at sem).descriptors.size ≡ pos (length (us ++ vs))
  openers_size = (list_step.1.each (openers sem)).size ∙ ap (λ l. pos (length l)) here

  pub waiters_size :
      (released.semaphores.at sem).waiting_descriptors.size ≡ pos (length (lists (waiters sem)))
  waiters_size = (list_step.1.each (waiters sem)).size ∙ ap (λ l. pos (length l)) there

  pub released-Holds : Holds sem_table openers_left released
  released-Holds = Holds-frame sem_table unlisted released refl go list_step.1
    where
      go : (k : SemList) → (sem_table.ref k).head released ≡ (sem_table.ref k).head unlisted
      go (openers a) = refl
      go (waiters a) = refl
