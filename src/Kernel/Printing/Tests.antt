-- ===== src/Kernel/Printing/Tests.antt =====
-- The printing of the status at a state with a timer and two ready processes.
use disastr_os_semaphores.Base.{◌≡◌, refl, [], ◌∷◌, arith, ok, ◌==◌, if◌then◌else◌}
use disastr_os_semaphores.Base.Int.{pos}
use disastr_os_semaphores.LinkedList
use disastr_os_semaphores.LinkedList.{Links, ListHead, link}
use disastr_os_semaphores.LinkedList.Chain.{IsList}
use disastr_os_semaphores.Kernel.{System}
use disastr_os_semaphores.Kernel.Tests.{loaded, zero_pcb, no_pool}
use disastr_os_semaphores.Kernel.Printing.Objects.{print_status}
use disastr_os_semaphores.Kernel.Printing.View.{View, IsView, shown_status}
use disastr_os_semaphores.Kernel.Printing.Status.{print_status_lem}

abbrev two_links : Links
two_links a = if a == 6 then link 0 8 else if a == 8 then link 6 0 else link 0 0

abbrev two_ready : System
two_ready = record loaded {
  running = 4;
  pcbs = record { links = two_links; at = λ a. record zero_pcb { pid = pos a }; pool = no_pool };
  ready_list = record { first = 6; last = 8; size = pos 2 };
  timer_list = record { first = 9; last = 9; size = pos 1 };
  timer_items = record (loaded.timer_items) {
    at = λ _. record { awakening_time = pos 50; pcb = 3 };
  };
}

abbrev two_view : View
two_view = record {
  timers = 9 ∷ [];
  resources = [];
  semaphores = [];
  ready = 6 ∷ 8 ∷ [];
  waiting = [];
  zombie = [];
  children = λ _. [];
  users = λ _. [];
  openers = λ _. [];
  waiters = λ _. [];
}

empty_IsList : (l : Links) → IsList l LinkedList.init []
empty_IsList l = record { first = refl; last = refl; size = refl; chain = tt; distinct = tt }

two_ready-IsView : IsView two_view two_ready
two_ready-IsView = record {
  timers = (
    record {
      first = refl;
      last = refl;
      size = refl;
      chain = ((λ e. absurd (omega arith)), refl, tt);
      distinct = (refl, tt);
    },
    ((λ e. absurd (omega arith)), tt),
  );
  resources = empty_IsList _;
  semaphores = empty_IsList _;
  ready = record {
    first = refl;
    last = refl;
    size = refl;
    chain = ((λ e. absurd (omega arith)), refl, ((λ e. absurd (omega arith)), refl, tt));
    distinct = (refl, (refl, tt));
  };
  waiting = empty_IsList _;
  zombie = empty_IsList _;
  children = λ p. (empty_IsList _, tt);
  users = λ r. (empty_IsList _, tt);
  openers = λ r. (empty_IsList _, tt);
  waiters = λ r. (empty_IsList _, tt);
}

print_status_lem_example : print_status two_ready ≡ ok (shown_status two_view two_ready)
print_status_lem_example = print_status_lem two_ready two_view two_ready-IsView
