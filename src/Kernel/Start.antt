-- ===== src/Kernel/Start.antt =====
-- The set-up of the kernel: `disastrOS_start` of sorgente/disastrOS.c, and the `_init` functions of
-- disastrOS_pcb.c, disastrOS_timer.c, disastrOS_resource.c, disastrOS_descriptor.c,
-- disastrOS_semaphore.c and disastrOS_semdescriptor.c. Contexts, signals and the log are left out.
pub mod Pools
pub mod Fresh
pub mod Boot
mod Tests
use disastr_os_semaphores.Base.{ℕ, ◌+◌, ◌*◌, not, if◌then◌else◌}
use disastr_os_semaphores.Base.Int.{pos, ◌==ℤ◌}
use disastr_os_semaphores.PoolAllocator.{sizeof_int, to_int}
use disastr_os_semaphores.Kernel.{running}
use disastr_os_semaphores.Kernel.Constants.{
  max_num_processes, max_num_resources, max_num_semaphores, max_num_descriptors,
}
use disastr_os_semaphores.Kernel.Cmd.{
  Cmd, done, get, put, ◌>>=◌, ◌>>◌, assert, pool_init, Table, list_init, pcbs, pcb_ptrs,
  timer_items, resources, descriptors, descriptor_ptrs, semaphores, sem_descriptors,
  sem_descriptor_ptrs,
}
use disastr_os_semaphores.Kernel.Lists.{
  ready_list, waiting_list, zombie_list, timer_list, resources_list, semaphores_list,
}
use disastr_os_semaphores.Kernel.Running.{set_running, set_status, is_success}
use disastr_os_semaphores.Kernel.Pcbs.{pcb_alloc}

-- What the compiler and the linker choose for a type of structure: its size, and the address of
-- the static buffer for its pool.
pub record Buffer : Type 0 where
  pub sizeof : ℕ
  pub address : ℕ

pub record Layout : Type 0 where
  pub pcb : Buffer
  pub pcb_ptr : Buffer
  pub timer_item : Buffer
  pub resource : Buffer
  pub descriptor : Buffer
  pub descriptor_ptr : Buffer
  pub semaphore : Buffer
  pub sem_descriptor : Buffer
  pub sem_descriptor_ptr : Buffer

-- One call of `PoolAllocator_init` with its `assert`: `capacity` is the number of blocks that the
-- static buffer is made for, and `num_items` the number that the call asks for.
unfoldable pub init_pool :
    {T : Type 0} → Table T → Buffer → (num_items capacity : ℕ) → Cmd (Unit {0})
init_pool t b num_items capacity = do
  result ← pool_init t b.sizeof num_items b.address (to_int (capacity * (b.sizeof + sizeof_int)))
  assert (is_success result)

-- `PCB_init`
unfoldable pub pcb_init : Layout → Cmd (Unit {0})
pcb_init l = do
  init_pool pcbs l.pcb max_num_processes max_num_processes
  init_pool pcb_ptrs l.pcb_ptr max_num_processes max_num_processes

-- `Timer_init`
unfoldable pub timer_init : Layout → Cmd (Unit {0})
timer_init l = init_pool timer_items l.timer_item max_num_processes max_num_processes

-- `Resource_init`
unfoldable pub resource_init : Layout → Cmd (Unit {0})
resource_init l = init_pool resources l.resource max_num_resources max_num_resources

-- `Descriptor_init`, which asks for MAX_NUM_PROCESSES blocks out of MAX_NUM_DESCRIPTORS.
unfoldable pub descriptor_init : Layout → Cmd (Unit {0})
descriptor_init l = do
  init_pool descriptors l.descriptor max_num_processes max_num_descriptors
  init_pool descriptor_ptrs l.descriptor_ptr max_num_processes max_num_descriptors

-- `Semaphore_init`
unfoldable pub semaphore_init : Layout → Cmd (Unit {0})
semaphore_init l = init_pool semaphores l.semaphore max_num_semaphores max_num_semaphores

-- `SemDescriptor_init`, which asks for MAX_NUM_PROCESSES blocks out of MAX_NUM_SEMDESCRIPTORS.
unfoldable pub sem_descriptor_init : Layout → Cmd (Unit {0})
sem_descriptor_init l = do
  init_pool sem_descriptors l.sem_descriptor max_num_processes max_num_descriptors
  init_pool sem_descriptor_ptrs l.sem_descriptor_ptr max_num_processes max_num_descriptors

-- The lists of `disastrOS_start`.
unfoldable pub init_lists : Cmd (Unit {0})
init_lists = do
  list_init ready_list
  list_init waiting_list
  list_init zombie_list
  list_init resources_list
  list_init semaphores_list
  list_init timer_list

-- `disastrOS_start` from the point on to which a return to `main_context` leads. With `shutdown_now`
-- the program ends there: `running` stays NULL, and no process runs.
unfoldable pub start_process : Cmd (Unit {0})
start_process = do
  s ← get
  if not (s.shutdown_now ==ℤ pos 0) then done else do
    first_pcb ← pcb_alloc
    set_running first_pcb
    set_status first_pcb running
    put (λ s. record s { init_pcb = first_pcb })

-- `disastrOS_start`. The vector of the system calls is a function, in `Trap`.
unfoldable pub start : Layout → Cmd (Unit {0})
start l = do
  pcb_init l
  timer_init l
  resource_init l
  descriptor_init l
  semaphore_init l
  sem_descriptor_init l
  put (λ s. record s { init_pcb = 0 })
  set_running 0
  init_lists
  start_process
