-- ===== src/Kernel/Tests.antt =====
-- Runs of the kernel, and the theorems at states that they reach.
use disastr_os_semaphores.Base.{ℕ, ◌≡◌, refl, ok, and_then, List, [], ◌∷◌}
use disastr_os_semaphores.Base.Int.{ℤ, pos, ◌+ℤ◌, ◌-ℤ◌}
use disastr_os_semaphores.LinkedList
use disastr_os_semaphores.LinkedList.{link, scan}
use disastr_os_semaphores.PoolAllocator.{PoolAllocator, get_block, release_block, populate}
use disastr_os_semaphores.PoolAllocator
use disastr_os_semaphores.Kernel.{System, Store, Pcb, invalid}
use disastr_os_semaphores.Kernel.Cmd.{Cmd, pure, get, ◌>>=◌, ◌>>◌}
use disastr_os_semaphores.Kernel.Start.{Layout, Buffer, start}
use disastr_os_semaphores.Kernel.Trap.{sem_open, sem_wait, sem_post, spawn, preempt}

abbrev pub no_pool : PoolAllocator
no_pool = record {
  buffer = 0;
  free_list = λ _. pos 0;
  buffer_size = 0;
  size = pos 0;
  size_max = 0;
  item_size = 0;
  first_idx = pos 0;
}

abbrev pub empty_store : {T : Type 0} → T → Store T
empty_store v = record { links = λ _. link 0 0; at = λ _. v; pool = no_pool }

abbrev pub zero_pcb : Pcb
zero_pcb = record {
  pid = pos 0;
  return_value = pos 0;
  status = invalid;
  signals = 0;
  signals_mask = 0;
  parent = 0;
  children = LinkedList.init;
  timer = 0;
  last_fd = pos 0;
  descriptors = LinkedList.init;
  last_sem_fd = pos 0;
  sem_descriptors = LinkedList.init;
  syscall_num = pos 0;
  syscall_args = λ _. pos 0;
  syscall_retvalue = pos 0;
}

-- Memory as the loader leaves it.
abbrev pub loaded : System
loaded = record {
  pcbs = empty_store zero_pcb;
  pcb_ptrs = empty_store (record { pcb = 0 });
  timer_items = empty_store (record { awakening_time = pos 0; pcb = 0 });
  resources = empty_store (record { id = pos 0; type = pos 0; descriptors = LinkedList.init });
  descriptors = empty_store (record { pcb = 0; resource = 0; fd = pos 0; ptr = 0 });
  descriptor_ptrs = empty_store (record { descriptor = 0 });
  semaphores = empty_store (record {
    id = pos 0;
    count = pos 0;
    descriptors = LinkedList.init;
    waiting_descriptors = LinkedList.init;
  });
  sem_descriptors = empty_store (record { pcb = 0; semaphore = 0; fd = pos 0; ptr = 0 });
  sem_descriptor_ptrs = empty_store (record { descriptor = 0 });
  init_pcb = 0;
  running = 0;
  last_pid = pos 0;
  ready_list = LinkedList.init;
  waiting_list = LinkedList.init;
  zombie_list = LinkedList.init;
  timer_list = LinkedList.init;
  resources_list = LinkedList.init;
  semaphores_list = LinkedList.init;
  time = pos 0;
  shutdown_now = pos 0;
  user_memory = λ _. pos 0;
}

abbrev pub buffer : ℕ → Buffer
buffer n = record { sizeof = 64; address = n }

abbrev pub layout : Layout
layout = record {
  pcb = buffer 1000;
  pcb_ptr = buffer 1000;
  timer_item = buffer 1000;
  resource = buffer 1000;
  descriptor = buffer 1000;
  descriptor_ptr = buffer 1000;
  semaphore = buffer 1000;
  sem_descriptor = buffer 1000;
  sem_descriptor_ptr = buffer 1000;
}

-- Two processes: the first creates a semaphore with no token and waits on it; the second opens
-- it and posts; the first runs again.
abbrev hand_shake : Cmd (List ℤ)
hand_shake = do
  start layout
  spawn (pos 0) (pos 0)
  sem_open (pos 7) (pos 0)
  sem_wait (pos 0)
  s1 ← get
  sem_open (pos 7) (pos 5)
  sem_post (pos 0)
  preempt
  s2 ← get
  pure (
      (s1.pcbs.at s1.running).pid
      ∷ (s2.pcbs.at s2.running).pid
      ∷ (s2.semaphores.at 1000).count
      ∷ [])

hand_shake_lem : and_then (hand_shake loaded) (λ r. ok r.0) ≡ ok (pos 1 ∷ pos 0 ∷ pos 0 ∷ [])
unfolding disastr_os_semaphores.Kernel.Start.init_pool disastr_os_semaphores.Kernel.Start.pcb_init
    disastr_os_semaphores.Kernel.Start.timer_init disastr_os_semaphores.Kernel.Start.resource_init
    disastr_os_semaphores.Kernel.Start.descriptor_init
    disastr_os_semaphores.Kernel.Start.semaphore_init
    disastr_os_semaphores.Kernel.Start.sem_descriptor_init
    disastr_os_semaphores.Kernel.Start.init_lists disastr_os_semaphores.Kernel.Start.start
    disastr_os_semaphores.Kernel.Start.start_process disastr_os_semaphores.Kernel.Trap.dispatch
    disastr_os_semaphores.Kernel.Trap.return_to_process disastr_os_semaphores.Kernel.Pcbs.pcb_alloc
    disastr_os_semaphores.Kernel.Pcbs.pcb_ptr_alloc disastr_os_semaphores.Kernel.Cmd.load
    disastr_os_semaphores.Kernel.Cmd.modify disastr_os_semaphores.Kernel.Cmd.unlink
    disastr_os_semaphores.Kernel.Cmd.alloc_block disastr_os_semaphores.Kernel.Cmd.pool_init
    disastr_os_semaphores.Kernel.Cmd.list_insert disastr_os_semaphores.Kernel.Cmd.list_detach
    disastr_os_semaphores.Kernel.Cmd.find_by disastr_os_semaphores.Kernel.Running.argument
    disastr_os_semaphores.Kernel.Running.int_argument disastr_os_semaphores.PoolAllocator.narrow
    disastr_os_semaphores.Kernel.Running.return_value
    disastr_os_semaphores.Kernel.Running.set_status
    disastr_os_semaphores.Kernel.Semaphores.semaphore_alloc
    disastr_os_semaphores.Kernel.Semaphores.semaphore_by_id
    disastr_os_semaphores.Kernel.Semaphores.sem_descriptor_alloc
    disastr_os_semaphores.Kernel.Semaphores.sem_descriptor_by_fd
    disastr_os_semaphores.Kernel.Semaphores.sem_descriptor_ptr_alloc
    disastr_os_semaphores.Kernel.SemaphoreCalls.find_or_create
    disastr_os_semaphores.Kernel.SemaphoreCalls.open_descriptor
    disastr_os_semaphores.Kernel.SemaphoreCalls.internal_sem_open
    disastr_os_semaphores.Kernel.SemaphoreCalls.suspend
    disastr_os_semaphores.Kernel.SemaphoreCalls.block
    disastr_os_semaphores.Kernel.SemaphoreCalls.internal_sem_wait
    disastr_os_semaphores.Kernel.SemaphoreCalls.wake
    disastr_os_semaphores.Kernel.SemaphoreCalls.internal_sem_post
    disastr_os_semaphores.Kernel.Trap.syscall_vector
    disastr_os_semaphores.Kernel.Trap.syscall_numarg disastr_os_semaphores.Kernel.Trap.trap
    disastr_os_semaphores.Kernel.Trap.syscall disastr_os_semaphores.Kernel.Trap.preempt
    disastr_os_semaphores.Kernel.Trap.spawn disastr_os_semaphores.Kernel.Trap.sem_open
    disastr_os_semaphores.Kernel.Trap.sem_post disastr_os_semaphores.Kernel.Trap.sem_wait
    disastr_os_semaphores.Kernel.ProcessCalls.wake_elapsed
    disastr_os_semaphores.Kernel.ProcessCalls.switch
    disastr_os_semaphores.Kernel.ProcessCalls.internal_schedule
    disastr_os_semaphores.Kernel.ProcessCalls.internal_preempt
    disastr_os_semaphores.Kernel.ProcessCalls.new_process
    disastr_os_semaphores.Kernel.ProcessCalls.internal_spawn
    disastr_os_semaphores.Kernel.Timers.timer_list_current disastr_os_semaphores.LinkedList.scan
    disastr_os_semaphores.LinkedList.insert_links disastr_os_semaphores.LinkedList.insert_head
    disastr_os_semaphores.LinkedList.insert disastr_os_semaphores.LinkedList.detach_links
    disastr_os_semaphores.LinkedList.detach_head disastr_os_semaphores.LinkedList.detach
    disastr_os_semaphores.PoolAllocator.populate disastr_os_semaphores.PoolAllocator.init
    disastr_os_semaphores.PoolAllocator.take_block disastr_os_semaphores.PoolAllocator.get_block
    ◌+ℤ◌ ◌-ℤ◌
hand_shake_lem = refl
