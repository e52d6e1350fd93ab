-- ===== src/Kernel/ResourceCalls/Tests.antt =====
-- The theorem on `internal_destroyResource` at a small state.
use disastr_os_semaphores.PoolAllocator.{narrow}
use disastr_os_semaphores.Base.{ℕ, ◌≡◌, ◌≢◌, ◌⊎◌, refl, [], ◌∷◌, arith, ok, List}
use disastr_os_semaphores.Base.Int.{pos}
use disastr_os_semaphores.LinkedList
use disastr_os_semaphores.LinkedList.{link, null}
use disastr_os_semaphores.LinkedList.Chain.{IsList}
use disastr_os_semaphores.PoolAllocator.Tests.{three, three-IsPool}
use disastr_os_semaphores.Kernel.{System}
use disastr_os_semaphores.Kernel.Constants.Error
use disastr_os_semaphores.Kernel.Rules.{returning}
use disastr_os_semaphores.Kernel.Tests.{loaded, zero_pcb}
use disastr_os_semaphores.Kernel.ResourceCalls.{internal_destroy_resource}
use disastr_os_semaphores.Kernel.ResourceCalls.Destroy.{Destroyed, destroy_lem}

-- The process at 1 runs, and has called with the id 4; the resource with that id is in the second
-- block, and nobody has it open.
abbrev shelved : System
shelved = record loaded {
  running = 1;
  pcbs = record loaded.pcbs { at = λ _. record zero_pcb { syscall_args = λ _. pos 4 } };
  resources_list = record { first = 1016; last = 1016; size = pos 1 };
  resources = record {
    links = λ _. link 0 0;
    at = λ _. record { id = pos 4; type = pos 7; descriptors = LinkedList.init };
    pool = three;
  };
}

abbrev nobody : List ℕ
nobody = []

shelved-IsList : IsList shelved.resources.links shelved.resources_list (1016 ∷ [])
shelved-IsList = record {
  first = refl;
  last = refl;
  size = refl;
  chain = ((λ e. absurd (omega arith)), refl, tt);
  distinct = (refl, tt);
}

destroy_lem_example :
    ((1016 ≡ null)
      × (internal_destroy_resource shelved ≡ ok (tt, returning Error.resource_close shelved)))
    ⊎ (((nobody ≢ [])
          × (internal_destroy_resource shelved ≡ ok (tt, returning Error.resource_in_use shelved)))
        ⊎ ((nobody ≡ [])
            × (t : System) × (index : ℕ) × (internal_destroy_resource shelved ≡ ok (tt, t))
            × Destroyed shelved t (1016 ∷ []) 1016 index (0 ∷ 2 ∷ [])))
unfolding narrow
destroy_lem_example =
    destroy_lem shelved (1016 ∷ []) (λ e. absurd (omega arith)) shelved-IsList nobody (0 ∷ 2 ∷ [])
      (λ _. record {
        index = 1;
        at_block = refl;
        below = omega arith;
        out = refl;
        users = record { first = refl; last = refl; size = refl; chain = tt; distinct = tt };
      })
      three-IsPool
