-- ===== src/Kernel/Start/Fresh.antt =====
-- The pools that `disastrOS_start` of disastrOS.c makes.
use disastr_os_semaphores.Base.{◌≡◌, ◌≢◌, refl, arith, ok}
use disastr_os_semaphores.LinkedList.{null}
use disastr_os_semaphores.PoolAllocator.{PoolAllocator}
use disastr_os_semaphores.Kernel.{System}
use disastr_os_semaphores.Kernel.Constants.{
  max_num_processes, max_num_resources, max_num_semaphores, max_num_descriptors,
}
use disastr_os_semaphores.Kernel.Cmd.{
  pcbs, pcb_ptrs, timer_items, resources, descriptors, descriptor_ptrs, semaphores, sem_descriptors,
  sem_descriptor_ptrs, Cmd, ◌>>◌,
}
use disastr_os_semaphores.Kernel.Start.{
  Layout, pcb_init, timer_init, resource_init, descriptor_init, semaphore_init, sem_descriptor_init,
}
use disastr_os_semaphores.Kernel.Start.Pools.{IsFit, IsReady, init_pool-IsReady}

-- Each buffer is as large as the code declares it, in bytes that an `int` can count.
pub record IsLayout (l : Layout) : Type 0 where
  pub pcb : IsFit l.pcb max_num_processes
  pub pcb_ptr : IsFit l.pcb_ptr max_num_processes
  pub timer_item : IsFit l.timer_item max_num_processes
  pub resource : IsFit l.resource max_num_resources
  pub descriptor : IsFit l.descriptor max_num_descriptors
  pub descriptor_ptr : IsFit l.descriptor_ptr max_num_descriptors
  pub semaphore : IsFit l.semaphore max_num_semaphores
  pub sem_descriptor : IsFit l.sem_descriptor max_num_descriptors
  pub sem_descriptor_ptr : IsFit l.sem_descriptor_ptr max_num_descriptors
  pub some_pcb : l.pcb.address ≢ null

-- The pools of a state, each with all blocks free.
pub record IsFresh (l : Layout) (s : System) : Type 0 where
  pub pcbs : IsReady s.pcbs.pool l.pcb max_num_processes
  pub pcb_ptrs : IsReady s.pcb_ptrs.pool l.pcb_ptr max_num_processes
  pub timer_items : IsReady s.timer_items.pool l.timer_item max_num_processes
  pub resources : IsReady s.resources.pool l.resource max_num_resources
  pub descriptors : IsReady s.descriptors.pool l.descriptor max_num_processes
  pub descriptor_ptrs : IsReady s.descriptor_ptrs.pool l.descriptor_ptr max_num_processes
  pub semaphores : IsReady s.semaphores.pool l.semaphore max_num_semaphores
  pub sem_descriptors : IsReady s.sem_descriptors.pool l.sem_descriptor max_num_processes
  pub sem_descriptor_ptrs :
      IsReady s.sem_descriptor_ptrs.pool l.sem_descriptor_ptr max_num_processes

module _ (l : Layout) (fit : IsLayout l) where
  pcb_init_lem :
      (s : System)
      → (p q : PoolAllocator) × (pcb_init l s
          ≡ ok (
            tt,
            record s {
              pcbs = record (s.pcbs) { pool = p };
              pcb_ptrs = record (s.pcb_ptrs) { pool = q };
            },
          ))
        × IsReady p l.pcb max_num_processes
        × IsReady q l.pcb_ptr max_num_processes
  unfolding pcb_init
  pcb_init_lem s =
      let (p, e, ready_p) =
        init_pool-IsReady pcbs l.pcb max_num_processes s fit.pcb max_num_processes (omega arith)
          (omega arith) in
      let s' = record s { pcbs = record (s.pcbs) { pool = p } } in
      let (q, f, ready_q) =
        init_pool-IsReady pcb_ptrs l.pcb_ptr max_num_processes s' fit.pcb_ptr max_num_processes
          (omega arith) (omega arith) in
      (p, q, rw (e, f) refl, ready_p, ready_q)

  timer_init_lem :
      (s : System)
      → (p : PoolAllocator) × (timer_init l s
          ≡ ok (tt, record s { timer_items = record (s.timer_items) { pool = p } }))
        × IsReady p l.timer_item max_num_processes
  unfolding timer_init
  timer_init_lem s =
      init_pool-IsReady timer_items l.timer_item max_num_processes s fit.timer_item
        max_num_processes (omega arith) (omega arith)

  resource_init_lem :
      (s : System)
      → (p : PoolAllocator) × (resource_init l s
          ≡ ok (tt, record s { resources = record (s.resources) { pool = p } }))
        × IsReady p l.resource max_num_resources
  unfolding resource_init
  resource_init_lem s =
      init_pool-IsReady resources l.resource max_num_resources s fit.resource max_num_resources
        (omega arith) (omega arith)

  descriptor_init_lem :
      (s : System)
      → (p q : PoolAllocator) × (descriptor_init l s
          ≡ ok (
            tt,
            record s {
              descriptors = record (s.descriptors) { pool = p };
              descriptor_ptrs = record (s.descriptor_ptrs) { pool = q };
            },
          ))
        × IsReady p l.descriptor max_num_processes
        × IsReady q l.descriptor_ptr max_num_processes
  unfolding descriptor_init
  descriptor_init_lem s =
      let (p, e, ready_p) =
        init_pool-IsReady descriptors l.descriptor max_num_descriptors s fit.descriptor
          max_num_processes (omega arith) (omega arith) in
      let s' = record s { descriptors = record (s.descriptors) { pool = p } } in
      let (q, f, ready_q) =
        init_pool-IsReady descriptor_ptrs l.descriptor_ptr max_num_descriptors s' fit.descriptor_ptr
          max_num_processes (omega arith) (omega arith) in
      (p, q, rw (e, f) refl, ready_p, ready_q)

  semaphore_init_lem :
      (s : System)
      → (p : PoolAllocator) × (semaphore_init l s
          ≡ ok (tt, record s { semaphores = record (s.semaphores) { pool = p } }))
        × IsReady p l.semaphore max_num_semaphores
  unfolding semaphore_init
  semaphore_init_lem s =
      init_pool-IsReady semaphores l.semaphore max_num_semaphores s fit.semaphore max_num_semaphores
        (omega arith) (omega arith)

  sem_descriptor_init_lem :
      (s : System)
      → (p q : PoolAllocator) × (sem_descriptor_init l s
          ≡ ok (
            tt,
            record s {
              sem_descriptors = record (s.sem_descriptors) { pool = p };
              sem_descriptor_ptrs = record (s.sem_descriptor_ptrs) { pool = q };
            },
          ))
        × IsReady p l.sem_descriptor max_num_processes
        × IsReady q l.sem_descriptor_ptr max_num_processes
  unfolding sem_descriptor_init
  sem_descriptor_init_lem s =
      let (p, e, ready_p) =
        init_pool-IsReady sem_descriptors l.sem_descriptor max_num_descriptors s fit.sem_descriptor
          max_num_processes (omega arith) (omega arith) in
      let s' = record s { sem_descriptors = record (s.sem_descriptors) { pool = p } } in
      let (q, f, ready_q) =
        init_pool-IsReady sem_descriptor_ptrs l.sem_descriptor_ptr max_num_descriptors s'
          fit.sem_descriptor_ptr max_num_processes (omega arith) (omega arith) in
      (p, q, rw (e, f) refl, ready_p, ready_q)

  -- The state after the `_init` functions has new pools, and is otherwise the one before.
  pub pools_lem :
      (s : System)
      → (u : System) × IsFresh l u
        × ((k : Cmd (Unit {0}))
            → (do
              pcb_init l
              timer_init l
              resource_init l
              descriptor_init l
              semaphore_init l
              sem_descriptor_init l
              k)
                s
              ≡ k u)
        × (u.last_pid ≡ s.last_pid)
        × (u.shutdown_now ≡ s.shutdown_now)
  pools_lem s =
      let (p1, p2, e1, r1, r2) = pcb_init_lem s in
      let s1 = record s {
        pcbs = record (s.pcbs) { pool = p1 };
        pcb_ptrs = record (s.pcb_ptrs) { pool = p2 };
      } in
      let (p3, e2, r3) = timer_init_lem s1 in
      let s2 = record s1 { timer_items = record (s.timer_items) { pool = p3 } } in
      let (p4, e3, r4) = resource_init_lem s2 in
      let s3 = record s2 { resources = record (s.resources) { pool = p4 } } in
      let (p5, p6, e4, r5, r6) = descriptor_init_lem s3 in
      let s4 = record s3 {
        descriptors = record (s.descriptors) { pool = p5 };
        descriptor_ptrs = record (s.descriptor_ptrs) { pool = p6 };
      } in
      let (p7, e5, r7) = semaphore_init_lem s4 in
      let s5 = record s4 { semaphores = record (s.semaphores) { pool = p7 } } in
      let (p8, p9, e6, r8, r9) = sem_descriptor_init_lem s5 in
      let u = record s5 {
        sem_descriptors = record (s.sem_descriptors) { pool = p8 };
        sem_descriptor_ptrs = record (s.sem_descriptor_ptrs) { pool = p9 };
      } in
      (
        u,
        record {
          pcbs = r1;
          pcb_ptrs = r2;
          timer_items = r3;
          resources = r4;
          descriptors = r5;
          descriptor_ptrs = r6;
          semaphores = r7;
          sem_descriptors = r8;
          sem_descriptor_ptrs = r9;
        },
        (λ k. rw (e1, e2, e3, e4, e5, e6) refl),
        refl,
        refl,
      )
