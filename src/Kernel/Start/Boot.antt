-- ===== src/Kernel/Start/Boot.antt =====
-- The state in which `disastrOS_start` of disastrOS.c leaves the kernel.
use disastr_os_semaphores.Base.{
  ℕ, suc, not, ◌≡◌, ◌≢◌, refl, sym, ap, ◌∙◌, false, List, [], arith, ==_self, length, has, Disjoint,
  ok,
}
use disastr_os_semaphores.Base.Int.{pos, ◌==ℤ◌, ◌+ℤ◌}
use disastr_os_semaphores.LinkedList
use disastr_os_semaphores.LinkedList.{ListHead, Links, null}
use disastr_os_semaphores.LinkedList.Chain.{IsList}
use disastr_os_semaphores.PoolAllocator.FreeList.{IsPool}
use disastr_os_semaphores.PoolAllocator.Blocks.{address, taken-IsPool}
use disastr_os_semaphores.Kernel.{System}
use disastr_os_semaphores.Kernel
use disastr_os_semaphores.Kernel.Constants.{
  max_num_processes, max_num_resources, max_num_semaphores,
}
use disastr_os_semaphores.Kernel.Families.{Holds, Loose}
use disastr_os_semaphores.Kernel.Queues.{Queue, ready, waiting, zombie, queue, queues, queue_table}
use disastr_os_semaphores.Kernel.Rules.{set_status-ok}
use disastr_os_semaphores.Kernel.Pcbs.Alloc.{with_pcb, pcb_alloc-ok}
use disastr_os_semaphores.Kernel.Cmd.{◌>>◌, modified, pcbs}
use disastr_os_semaphores.Kernel.Start.{Layout, init_lists, start_process, start}
use disastr_os_semaphores.Kernel.Start.Pools.{IsReady}
use disastr_os_semaphores.Kernel.Start.Fresh.{IsLayout, IsFresh, pools_lem}

-- From `s` to `t` the kernel was set up: `init` runs, alone, and every other block is free.
pub record Started (l : Layout) (s t : System) : Type 0 where
  pub running : t.running ≡ l.pcb.address
  pub init_pcb : t.init_pcb ≡ l.pcb.address
  pub status : (t.pcbs.at t.running).status ≡ Kernel.running
  pub pid : (t.pcbs.at t.running).pid ≡ s.last_pid
  pub last_pid : t.last_pid ≡ s.last_pid +ℤ pos 1
  pub queued : Holds queue_table (queues [] [] []) t
  pub outside : Loose queue_table (queues [] [] []) t.running t
  pub timers : IsList t.timer_items.links t.timer_list []
  pub resources : IsList t.resources.links t.resources_list []
  pub semaphores : IsList t.semaphores.links t.semaphores_list []
  pub free : (free : List ℕ) × IsPool t.pcbs.pool free × (suc (length free) ≡ max_num_processes)
  pub pcb_ptrs : IsReady t.pcb_ptrs.pool l.pcb_ptr max_num_processes
  pub timer_items : IsReady t.timer_items.pool l.timer_item max_num_processes
  pub resource_pool : IsReady t.resources.pool l.resource max_num_resources
  pub descriptors : IsReady t.descriptors.pool l.descriptor max_num_processes
  pub descriptor_ptrs : IsReady t.descriptor_ptrs.pool l.descriptor_ptr max_num_processes
  pub semaphore_pool : IsReady t.semaphores.pool l.semaphore max_num_semaphores
  pub sem_descriptors : IsReady t.sem_descriptors.pool l.sem_descriptor max_num_processes
  pub sem_descriptor_ptrs :
      IsReady t.sem_descriptor_ptrs.pool l.sem_descriptor_ptr max_num_processes

-- The state with empty lists and no process.
abbrev cleared : System → System
cleared u = record u {
  init_pcb = 0;
  running = 0;
  ready_list = LinkedList.init;
  waiting_list = LinkedList.init;
  zombie_list = LinkedList.init;
  resources_list = LinkedList.init;
  semaphores_list = LinkedList.init;
  timer_list = LinkedList.init;
}

-- The state in which the first process runs.
abbrev booted : System → System
booted u =
    let t = with_pcb 0 (cleared u) in
    let p = address u.pcbs.pool 0 in
    record (modified pcbs p (λ pcb. record pcb { status = Kernel.running }) t) {
      running = p;
      init_pcb = p;
    }

empty-IsList : (l : Links) → IsList l LinkedList.init []
empty-IsList l = record { first = refl; last = refl; size = refl; chain = tt; distinct = tt }

none-Holds :
    (t : System)
    → t.ready_list ≡ LinkedList.init
    → t.waiting_list ≡ LinkedList.init
    → t.zombie_list ≡ LinkedList.init
    → Holds queue_table (queues [] [] []) t
none-Holds t er ew ez = record { each = each; apart = apart }
  where
    each : (k : Queue) → IsList t.pcbs.links ((queue k).head t) (queues [] [] [] k)
    each ready = rw er (empty-IsList t.pcbs.links)
    each waiting = rw ew (empty-IsList t.pcbs.links)
    each zombie = rw ez (empty-IsList t.pcbs.links)

    apart : (j k : Queue) → j ≢ k → Disjoint (queues [] [] [] j) (queues [] [] [] k)
    apart ready k ne = tt
    apart waiting k ne = tt
    apart zombie k ne = tt

nowhere : (a : ℕ) (k : Queue) → has a (queues [] [] [] k) ≡ false
nowhere a ready = refl
nowhere a waiting = refl
nowhere a zombie = refl

module _ (l : Layout) (s : System) (fit : IsLayout l) (running_on : s.shutdown_now ≡ pos 0) where
  boot :
      (u : System)
      → IsFresh l u
      → (u.last_pid ≡ s.last_pid)
      → (u.shutdown_now ≡ s.shutdown_now)
      → ((do init_lists; start_process) (record u { init_pcb = 0; running = 0 })
          ≡ ok (tt, booted u))
        × Started l s (booted u)
  unfolding init_lists start_process
  boot u fresh same same_shutdown =
      let p = address u.pcbs.pool 0 in
      let at : p ≡ l.pcb.address = omega (arith, fresh.pcbs.buffer) in
      let some_p : p ≢ null = λ e. fit.some_pcb (sym at ∙ e) in
      (
        rw
            (
              ap (λ v. not (v ==ℤ pos 0)) (same_shutdown ∙ running_on),
              pcb_alloc-ok (cleared u) 0 fresh.pcbs.free fresh.pcbs.pool some_p,
              set_status-ok p Kernel.running (record (with_pcb 0 (cleared u)) { running = p })
                  some_p,
            )
            refl,
        record {
          running = at;
          init_pcb = at;
          status = rw ==_self refl;
          pid = rw ==_self same;
          last_pid = ap (λ n. n +ℤ pos 1) same;
          queued = none-Holds (booted u) refl refl refl;
          outside = record { some_item = some_p; outside = nowhere p; unlinked = rw ==_self refl };
          timers = empty-IsList _;
          resources = empty-IsList _;
          semaphores = empty-IsList _;
          free = (
            fresh.pcbs.free,
            taken-IsPool u.pcbs.pool 0 fresh.pcbs.free fresh.pcbs.pool,
            fresh.pcbs.count,
          );
          pcb_ptrs = fresh.pcb_ptrs;
          timer_items = fresh.timer_items;
          resource_pool = fresh.resources;
          descriptors = fresh.descriptors;
          descriptor_ptrs = fresh.descriptor_ptrs;
          semaphore_pool = fresh.semaphores;
          sem_descriptors = fresh.sem_descriptors;
          sem_descriptor_ptrs = fresh.sem_descriptor_ptrs;
        },
      )

  -- Where the static buffers have the sizes that the code declares, no size in bytes is too large
  -- for an `int`, no structure has size 0, and the buffer of the PCBs is not at NULL,
  -- `disastrOS_start` ends without a fault from any state in which no shutdown is asked for. The first block of PCBs is then the
  -- process that runs, and `init`, Running, in no queue, with the pid that was next; the queues and
  -- the lists of timers, resources and semaphores are empty; and each pool is well formed, with all
  -- blocks free but that one.
  pub start_lem : (t : System) × (start l s ≡ ok (tt, t)) × Started l s t
  unfolding start
  start_lem =
      let (u, fresh, same_start, same_pid, same_shutdown) = pools_lem l fit s in
      let step = boot u fresh same_pid same_shutdown in (booted u, same_start _ ∙ step.0, step.1)
