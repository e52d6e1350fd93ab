-- ===== src/Kernel/WaitExit/Reap.antt =====
-- How `internal_wait` of disastrOS_wait.c frees a child that has ended.
use disastr_os_semaphores.PoolAllocator.{narrow}
use disastr_os_semaphores.Base.{
  ℕ, ◌<◌, ◌≡◌, ◌≢◌, refl, sym, ap, ◌∙◌, false, List, [], ◌∷◌, ◌++◌, arith, ◌==◌, ==_ne, ==_self,
  if◌then◌else◌, has, has-append, Bool-cases, inl, inr, ok,
}
use disastr_os_semaphores.Base.Int.{ℤ, pos, ◌==ℤ◌}
use disastr_os_semaphores.LinkedList.{null}
use disastr_os_semaphores.LinkedList.Chain.{IsList}
use disastr_os_semaphores.LinkedList.Detach.{detach-remove, some_item}
use disastr_os_semaphores.PoolAllocator.FreeList.{IsPool}
use disastr_os_semaphores.PoolAllocator.Blocks.{address, released-IsPool}
use disastr_os_semaphores.Kernel.{System}
use disastr_os_semaphores.Kernel
use disastr_os_semaphores.Kernel.Running.{is_zombie}
use disastr_os_semaphores.Kernel.Cmd.{pcbs, pcb_ptrs, list_detach}
use disastr_os_semaphores.Kernel.Lists.{children_of, zombie_list}
use disastr_os_semaphores.Kernel.Families.{
  Holds, Loose, detach-Holds, detached, list_detach-detached,
}
use disastr_os_semaphores.Kernel.Queues.{
  zombie, queues, queue_table, queue-owned, queues-frame, zombie-IsUpdate,
}
use disastr_os_semaphores.Kernel.Rules.{load-ok, return_value-ok, returning, free_block-ok, freed}
use disastr_os_semaphores.Kernel.Pcbs.{pcb_free, pcb_ptr_free}
use disastr_os_semaphores.Kernel.WaitExit.{report, reap, internal_wait}
use disastr_os_semaphores.Kernel.WaitExit.Wait.{child, awaited, waited, AllLead, internal_wait_lem}

-- The memory of the processes after a report, which NULL turns off.
abbrev pub reported : (result v : ℤ) → System → System
reported result v s = record s {
  user_memory =
      if result ==ℤ pos 0 then s.user_memory else λ p. if p ==ℤ result then v else s.user_memory p;
}

report-ok : (result v : ℤ) (s : System) → report result v s ≡ ok (tt, reported result v s)
unfolding report
report-ok result v s = elim (Bool-cases (result ==ℤ pos 0)) [
  | inl e ↦ rw e refl
  | inr e ↦ rw e refl
]

waited-zombie :
    (s : System) (pid result : ℤ) (cs : List ℕ) (ptr c : ℕ)
    → awaited s pid cs null ≡ ptr
    → ptr ≢ null
    → child s ptr ≡ c
    → (s.pcbs.at c).status ≡ Kernel.zombie
    → waited s pid result cs ≡ reap ptr c result s
waited-zombie s pid result [] ptr c stop some_ptr whose dead = absurd (some_ptr (sym stop))
waited-zombie s pid result (x ∷ cs) ptr c stop some_ptr whose dead =
    rw (stop, whose, ap is_zombie dead) refl

-- From `s` to `t` the child at `c` was freed: it is no child of the running process and no zombie
-- any more, and both blocks are free.
pub record Reaped (s t : System) (c : ℕ) (result : ℤ) (cs rs ws zs free_ptrs free_pcbs : List ℕ)
    : Type 0 where
  pub children : IsList t.pcb_ptrs.links (t.pcbs.at s.running).children cs
  pub queued : Holds queue_table (queues rs ws zs) t
  pub returned : (t.pcbs.at s.running).syscall_retvalue ≡ (s.pcbs.at c).pid
  pub reported : t.user_memory ≡ (
      if result ==ℤ pos 0 then s.user_memory else λ p.
      if p ==ℤ result then (s.pcbs.at c).return_value else s.user_memory p)
  pub ptrs : IsPool t.pcb_ptrs.pool free_ptrs
  pub pcbs : IsPool t.pcbs.pool free_pcbs
  pub running : t.running ≡ s.running

module _ (s : System) (j k : ℕ) (ys zs rs ws us vs free_ptrs free_pcbs : List ℕ)
    (is : IsList s.pcb_ptrs.links
      (s.pcbs.at s.running).children
      (ys ++ address s.pcb_ptrs.pool j ∷ zs))
    (holds : Holds queue_table (queues rs ws (us ++ address s.pcbs.pool k ∷ vs)) s)
    (loose : Loose queue_table (queues rs ws (us ++ address s.pcbs.pool k ∷ vs)) s.running s)
    (ptrs : IsPool s.pcb_ptrs.pool free_ptrs) (ptr_below : j < s.pcb_ptrs.pool.size_max)
    (ptr_out : has j free_ptrs ≡ false) (blocks : IsPool s.pcbs.pool free_pcbs)
    (pcb_below : k < s.pcbs.pool.size_max) (pcb_out : has k free_pcbs ≡ false) where
  abbrev ptr : ℕ
  ptr = address s.pcb_ptrs.pool j

  abbrev c : ℕ
  c = address s.pcbs.pool k

  abbrev result : ℤ
  result = (s.pcbs.at s.running).syscall_args 1

  abbrev orphan : System
  orphan = freed pcb_ptrs j (detached (children_of s.running) ys zs ptr s)

  abbrev buried : System
  buried = detached zombie_list us vs c orphan

  abbrev told : System
  told = reported result (s.pcbs.at c).return_value (returning (s.pcbs.at c).pid buried)

  abbrev reaped : System
  reaped = freed pcbs k told

  other : (c == s.running) ≡ false
  other = ==_ne c s.running (λ e.
      let e1 = loose.outside zombie in
      let e2 = has-append s.running us (c ∷ vs) in absurd (ground (arith, e)))

  child_step :
      (list_detach (children_of s.running) ptr s
        ≡ ok (ptr, detached (children_of s.running) ys zs ptr s))
      × IsList reaped.pcb_ptrs.links (reaped.pcbs.at s.running).children (ys ++ zs)
  child_step =
      let main = detach-remove s.pcb_ptrs.links (s.pcbs.at s.running).children ys zs ptr is in
      (
        list_detach-detached (children_of s.running) s ys zs ptr loose.some_item main.0,
        rw ==_self main.1,
      )

  zombie_step :
      (list_detach zombie_list c orphan ≡ ok (c, buried))
      × Holds queue_table (queues rs ws (us ++ vs)) buried
      × Loose queue_table (queues rs ws (us ++ vs)) c buried
  zombie_step =
      detach-Holds queue_table orphan zombie us vs c (queue-owned zombie)
        (queues-frame s orphan refl refl refl refl holds) refl
        (zombie-IsUpdate rs ws (us ++ c ∷ vs) (us ++ vs))

  reap-ok : reap ptr c result s ≡ ok (tt, reaped)
  unfolding reap pcb_free pcb_ptr_free
  reap-ok =
      rw
        (
          child_step.0,
          free_block-ok pcb_ptrs (detached (children_of s.running) ys zs ptr s) j free_ptrs ptrs
              ptr_below ptr_out,
          zombie_step.0,
          load-ok pcbs c buried zombie_step.2.some_item,
          other,
          return_value-ok buried loose.some_item (s.pcbs.at c).pid,
          report-ok result (s.pcbs.at c).return_value (returning (s.pcbs.at c).pid buried),
          free_block-ok pcbs told k free_pcbs blocks pcb_below pcb_out,
        )
        refl

  reaped-Reaped :
      Reaped s reaped c result (ys ++ zs) rs ws (us ++ vs) (j ∷ free_ptrs) (k ∷ free_pcbs)
  reaped-Reaped = record {
    children = child_step.1;
    queued = queues-frame buried reaped refl refl refl refl zombie_step.1;
    returned = rw ==_self refl;
    reported = refl;
    ptrs = released-IsPool s.pcb_ptrs.pool j free_ptrs ptrs ptr_below ptr_out;
    pcbs = released-IsPool s.pcbs.pool k free_pcbs blocks pcb_below pcb_out;
    running = refl;
  }

  -- Where a process runs, its list of children and the queues are well formed, the process is in no
  -- queue, each pointer in the list of children leads to a process, the scan for the pid, as
  -- an `int`, stops at the pointer in
  -- block `j`, which leads to the process in block `k`, a zombie in the list of zombies, and both
  -- blocks are handed out, `internal_wait` ends without a fault and frees that child: the pointer is
  -- out of the list of children, and the child out of the list of zombies, the other items stay; both
  -- blocks are free; the call returns the pid of the child, and writes its return value to the
  -- address that was passed, unless that is 0; the caller goes on.
  pub wait-reaps :
      AllLead s (ys ++ ptr ∷ zs)
      → awaited s (narrow ((s.pcbs.at s.running).syscall_args 0)) (ys ++ ptr ∷ zs) null ≡ ptr
      → child s ptr ≡ c
      → (s.pcbs.at c).status ≡ Kernel.zombie
      → (t : System) × (internal_wait s ≡ ok (tt, t))
        × Reaped s t c result (ys ++ zs) rs ws (us ++ vs) (j ∷ free_ptrs) (k ∷ free_pcbs)
  wait-reaps leads stop whose dead =
      let pid = narrow ((s.pcbs.at s.running).syscall_args 0) in
      let some_ptr = some_item s.pcb_ptrs.links (s.pcbs.at s.running).children ys zs ptr is in
      (
        reaped,
        internal_wait_lem s (ys ++ ptr ∷ zs) loose.some_item is leads
            ∙ waited-zombie s pid result (ys ++ ptr ∷ zs) ptr c stop some_ptr whose dead
            ∙ reap-ok,
        reaped-Reaped,
      )
