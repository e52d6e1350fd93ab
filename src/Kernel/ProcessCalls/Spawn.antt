-- ===== src/Kernel/ProcessCalls/Spawn.antt =====
-- `internal_spawn` and `internal_fork` of disastrOS_spawn.c and disastrOS_fork.c while both pools have
-- a free block.
use mathlib.Core.Path.{subst}
use disastr_os_semaphores.Base.{
  ℕ, ◌≡◌, ◌≢◌, refl, sym, ap, ◌∙◌, true, false, List, [], ◌∷◌, ◌++◌, append-nil, ◌==◌, has, ok,
  ==_ne, ==_self,
}
use disastr_os_semaphores.Base.Int.{pos, ◌+ℤ◌}
use disastr_os_semaphores.LinkedList.{null}
use disastr_os_semaphores.LinkedList.Chain.{IsList, IsList-frame}
use disastr_os_semaphores.LinkedList.Insert.{insert-append}
use disastr_os_semaphores.PoolAllocator.FreeList.{IsPool}
use disastr_os_semaphores.PoolAllocator.Blocks.{address, taken-IsPool}
use disastr_os_semaphores.Kernel.{System}
use disastr_os_semaphores.Kernel
use disastr_os_semaphores.Kernel.Cmd.{pcbs, modified, list_insert}
use disastr_os_semaphores.Kernel.Lists.{ready_list, children_of}
use disastr_os_semaphores.Kernel.Families.{
  Holds, Loose, append-Holds, inserted, list_insert-inserted,
}
use disastr_os_semaphores.Kernel.Queues.{
  Queue, queue, queues, queue_table, queue-owned, queues-frame, ready-IsUpdate,
}
use disastr_os_semaphores.Kernel.Rules.{
  load-ok, modify-ok, set_status-ok, return_value-ok, returning, returning-at,
}
use disastr_os_semaphores.Kernel.Pcbs.Alloc.{with_pcb, with_ptr, pcb_alloc-ok, pcb_ptr_alloc-ok}
use disastr_os_semaphores.Kernel.ProcessCalls.{new_process, internal_spawn, internal_fork}

-- The state after each part: the PCB is made, has its status and parent, a pointer to it is made and
-- is among the children, and the PCB is in the ready list.
abbrev pub made : System → ℕ → System
made s i =
    let new = address s.pcbs.pool i in
    modified pcbs new (λ p. record p { parent = s.running })
      (modified pcbs new (λ p. record p { status = Kernel.ready }) (with_pcb i s))

abbrev pub pointed : System → (i j : ℕ) → System
pointed s i j = with_ptr j (address s.pcbs.pool i) (made s i)

abbrev pub adopted : System → (i j : ℕ) → List ℕ → System
adopted s i j cs =
    inserted (children_of s.running) cs [] (address s.pcb_ptrs.pool j) (pointed s i j)

abbrev pub started : System → (i j : ℕ) → (cs rs : List ℕ) → System
started s i j cs rs = inserted ready_list rs [] (address s.pcbs.pool i) (adopted s i j cs)

-- From `s` to `u` the running process has a new child, the process `new` with the pointer `ptr`.
pub record Spawned (s u : System) (new ptr : ℕ) (cs rs ws zs : List ℕ) : Type 0 where
  pub runs : u.running ≡ s.running
  pub queued : Holds queue_table (queues (rs ++ new ∷ []) ws zs) u
  pub children : IsList u.pcb_ptrs.links (u.pcbs.at s.running).children (cs ++ ptr ∷ [])
  pub points : (u.pcb_ptrs.at ptr).pcb ≡ new
  pub status : (u.pcbs.at new).status ≡ Kernel.ready
  pub parent : (u.pcbs.at new).parent ≡ s.running
  pub pid : (u.pcbs.at new).pid ≡ s.last_pid
  pub last_pid : u.last_pid ≡ s.last_pid +ℤ pos 1
  pub returned : (u.pcbs.at s.running).syscall_retvalue ≡ s.last_pid

module _ (s : System) (i j : ℕ) (free free' cs rs ws zs : List ℕ) (some_running : s.running ≢ null)
    (pool : IsPool s.pcbs.pool (i ∷ free)) (ptr_pool : IsPool s.pcb_ptrs.pool (j ∷ free'))
    (some_new : address s.pcbs.pool i ≢ null) (some_ptr : address s.pcb_ptrs.pool j ≢ null)
    (not_running : s.running ≢ address s.pcbs.pool i)
    (children : IsList s.pcb_ptrs.links (s.pcbs.at s.running).children cs)
    (fresh_ptr : has (address s.pcb_ptrs.pool j) cs ≡ false)
    (queued : Holds queue_table (queues rs ws zs) s)
    (fresh : (k : Queue) → has (address s.pcbs.pool i) (queues rs ws zs k) ≡ false) where
  abbrev new : ℕ
  new = address s.pcbs.pool i

  abbrev ptr : ℕ
  ptr = address s.pcb_ptrs.pool j

  kept : ((pointed s i j).pcbs.at s.running).children ≡ (s.pcbs.at s.running).children
  kept = rw (==_ne s.running new not_running) refl

  pointed-IsList :
      IsList (pointed s i j).pcb_ptrs.links ((pointed s i j).pcbs.at s.running).children (cs ++ [])
  pointed-IsList =
      rw (kept, append-nil cs)
        (IsList-frame s.pcb_ptrs.links (pointed s i j).pcb_ptrs.links children
          λ a m. rw (==_ne a ptr (λ e. cc (sym m ∙ ap (λ b. has b cs) e ∙ fresh_ptr))) refl)

  adopt_step :
      (list_insert
          (children_of s.running)
          ((pointed s i j).pcbs.at s.running).children.last
          ptr
          (pointed s i j)
        ≡ ok (ptr, adopted s i j cs))
      × IsList
          (adopted s i j cs).pcb_ptrs.links
          ((adopted s i j cs).pcbs.at s.running).children
          (cs ++ ptr ∷ [])
  adopt_step =
      let out : has ptr (cs ++ []) ≡ false = rw (append-nil cs) fresh_ptr in
      let step =
        insert-append (pointed s i j).pcb_ptrs.links ((pointed s i j).pcbs.at s.running).children cs
          [] ptr pointed-IsList some_ptr out (rw ==_self refl) in
      (
        ap (λ p. list_insert (children_of s.running) p ptr (pointed s i j))
              (ap (λ h. h.last) kept ∙ children.last)
            ∙ list_insert-inserted (children_of s.running) (pointed s i j) cs [] ptr some_running
                step.0,
        rw ==_self step.1,
      )

  same :
      (k : Queue) (a : ℕ)
      → has a (queues rs ws zs k) ≡ true
      → (adopted s i j cs).pcbs.links a ≡ s.pcbs.links a
  same k a m =
      rw (==_ne a new (λ e. cc (sym m ∙ ap (λ b. has b (queues rs ws zs k)) e ∙ fresh k))) refl

  adopted-Holds : Holds queue_table (queues rs ws zs) (adopted s i j cs)
  adopted-Holds = record { each = each; apart = queued.apart }
    where
      each :
          (k : Queue)
          → IsList
              (adopted s i j cs).pcbs.links
              ((queue k).head (adopted s i j cs))
              (queues rs ws zs k)
      each Queue.ready = IsList-frame s.pcbs.links _ (queued.each Queue.ready) (same Queue.ready)
      each Queue.waiting =
          IsList-frame s.pcbs.links _ (queued.each Queue.waiting) (same Queue.waiting)
      each Queue.zombie = IsList-frame s.pcbs.links _ (queued.each Queue.zombie) (same Queue.zombie)

  adopted-Loose : Loose queue_table (queues rs ws zs) new (adopted s i j cs)
  adopted-Loose = record { some_item = some_new; outside = fresh; unlinked = rw ==_self refl }

  start_step :
      (list_insert ready_list (adopted s i j cs).ready_list.last new (adopted s i j cs)
        ≡ ok (new, started s i j cs rs))
      × Holds queue_table (queues (rs ++ new ∷ []) ws zs) (started s i j cs rs)
  start_step =
      append-Holds queue_table (adopted s i j cs) Queue.ready (queue-owned Queue.ready)
        adopted-Holds new adopted-Loose (ready-IsUpdate rs ws zs (rs ++ new ∷ []))

  other : (new == s.running) ≡ false
  other = ==_ne new s.running (λ e. not_running (sym e))

  pid : ((started s i j cs rs).pcbs.at new).pid ≡ s.last_pid
  pid = rw (other, ==_self) refl

  new_process-ok : new_process s ≡ ok (tt, returning s.last_pid (started s i j cs rs))
  unfolding new_process
  new_process-ok =
      rw
        (
          pcb_alloc-ok s i free pool some_new,
          ==_ne new null some_new,
          set_status-ok new Kernel.ready (with_pcb i s) some_new,
          modify-ok pcbs new
              (modified pcbs new (λ p. record p { status = Kernel.ready }) (with_pcb i s)) some_new,
          pcb_ptr_alloc-ok (made s i) j new free' ptr_pool some_ptr,
          ==_ne ptr null some_ptr,
          ==_ne s.running null some_running,
          adopt_step.0,
          start_step.0,
          load-ok pcbs new (started s i j cs rs) some_new,
          pid,
        )
        (return_value-ok (started s i j cs rs) some_running s.last_pid)

  abbrev final : System
  final = returning s.last_pid (started s i j cs rs)

  final-Spawned : Spawned s final new ptr cs rs ws zs
  final-Spawned = record {
    runs = refl;
    queued = queues-frame (started s i j cs rs) final refl refl refl refl start_step.1;
    children =
        subst (λ h. IsList final.pcb_ptrs.links h (cs ++ ptr ∷ []))
          (sym
            (returning-at (λ p. p.children) s.last_pid (started s i j cs rs) s.running (λ p. refl)))
          adopt_step.1;
    points = rw ==_self refl;
    status = rw (other, ==_self) refl;
    parent = rw (other, ==_self) refl;
    pid = returning-at (λ p. p.pid) s.last_pid (started s i j cs rs) new (λ p. refl) ∙ pid;
    last_pid = refl;
    returned = rw ==_self refl;
  }

  -- Let a process run, its list of children and the queues be well formed, and both pools have a
  -- free block, whose address is not NULL. Where the address of the new PCB is not that of the
  -- running process and in no queue, and that of the new pointer is not among the children,
  -- `internal_spawn` and `internal_fork` end without a fault and in the same state: the new process
  -- is Ready and the last of the ready list, its parent is the running process, whose last child it
  -- is, its pid is the next one and is what the system call returns, and each pool has the other
  -- blocks left.
  pub spawn_lem :
      (u : System) × (internal_spawn s ≡ ok (tt, u))
      × (internal_fork s ≡ ok (tt, u))
      × Spawned s u new ptr cs rs ws zs
      × IsPool u.pcbs.pool free
      × IsPool u.pcb_ptrs.pool free'
  unfolding internal_spawn internal_fork
  spawn_lem = (
    final,
    new_process-ok,
    new_process-ok,
    final-Spawned,
    taken-IsPool s.pcbs.pool i free pool,
    taken-IsPool s.pcb_ptrs.pool j free' ptr_pool,
  )
