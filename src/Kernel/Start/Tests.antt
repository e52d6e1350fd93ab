-- ===== src/Kernel/Start/Tests.antt =====
-- The theorems on the set-up of the kernel at a layout with structures of 64 bytes.
use disastr_os_semaphores.Base.{refl, ◌≡◌, arith, ok}
use disastr_os_semaphores.PoolAllocator.{PoolAllocator}
use disastr_os_semaphores.Kernel.{System}
use disastr_os_semaphores.Kernel.Constants.{max_num_processes, max_num_descriptors}
use disastr_os_semaphores.Kernel.Cmd.{sem_descriptors}
use disastr_os_semaphores.Kernel.Tests.{loaded, layout, buffer}
use disastr_os_semaphores.Kernel.Start.{start, init_pool}
use disastr_os_semaphores.Kernel.Start.Pools.{IsFit, IsReady, init_pool-IsReady}
use disastr_os_semaphores.Kernel.Start.Fresh.{IsLayout}
use disastr_os_semaphores.Kernel.Start.Boot.{Started, start_lem}

buffer-IsFit : IsFit (buffer 1000) max_num_processes
buffer-IsFit = record { sizeof_pos = omega arith; small = omega arith }

descriptors-IsFit : IsFit (buffer 1000) max_num_descriptors
descriptors-IsFit = record { sizeof_pos = omega arith; small = omega arith }

layout-IsLayout : IsLayout layout
layout-IsLayout = record {
  pcb = buffer-IsFit;
  pcb_ptr = buffer-IsFit;
  timer_item = buffer-IsFit;
  resource = buffer-IsFit;
  descriptor = descriptors-IsFit;
  descriptor_ptr = descriptors-IsFit;
  semaphore = buffer-IsFit;
  sem_descriptor = descriptors-IsFit;
  sem_descriptor_ptr = descriptors-IsFit;
  some_pcb = λ e. absurd (omega arith);
}

start_lem_example : (t : System) × (start layout loaded ≡ ok (tt, t)) × Started layout loaded t
start_lem_example = start_lem layout loaded layout-IsLayout refl

init_pool-IsReady_example :
    (p : PoolAllocator) × (init_pool sem_descriptors
        (buffer 1000)
        max_num_processes
        max_num_descriptors
        loaded
      ≡ ok (tt, record loaded { sem_descriptors = record (loaded.sem_descriptors) { pool = p } }))
    × IsReady p (buffer 1000) max_num_processes
init_pool-IsReady_example =
    init_pool-IsReady sem_descriptors (buffer 1000) max_num_descriptors loaded descriptors-IsFit
      max_num_processes (omega arith) (omega arith)
