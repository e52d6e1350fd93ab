-- ===== src/Kernel/Lists.antt =====
-- The list heads of the kernel: the globals of disastrOS.c, and those inside a structure.
use disastr_os_semaphores.Base.{ℕ}
use disastr_os_semaphores.Kernel.Cmd.{ListRef, write_at}

abbrev pub ready_list : ListRef
ready_list = record {
  owner = 1;
  links = λ s. s.pcbs.links;
  head = λ s. s.ready_list;
  with_list = λ l h s. record s { pcbs = record (s.pcbs) { links = l }; ready_list = h };
}

abbrev pub waiting_list : ListRef
waiting_list = record {
  owner = 1;
  links = λ s. s.pcbs.links;
  head = λ s. s.waiting_list;
  with_list = λ l h s. record s { pcbs = record (s.pcbs) { links = l }; waiting_list = h };
}

abbrev pub zombie_list : ListRef
zombie_list = record {
  owner = 1;
  links = λ s. s.pcbs.links;
  head = λ s. s.zombie_list;
  with_list = λ l h s. record s { pcbs = record (s.pcbs) { links = l }; zombie_list = h };
}

abbrev pub timer_list : ListRef
timer_list = record {
  owner = 1;
  links = λ s. s.timer_items.links;
  head = λ s. s.timer_list;
  with_list =
      λ l h s. record s { timer_items = record (s.timer_items) { links = l }; timer_list = h };
}

abbrev pub resources_list : ListRef
resources_list = record {
  owner = 1;
  links = λ s. s.resources.links;
  head = λ s. s.resources_list;
  with_list =
      λ l h s. record s { resources = record (s.resources) { links = l }; resources_list = h };
}

abbrev pub semaphores_list : ListRef
semaphores_list = record {
  owner = 1;
  links = λ s. s.semaphores.links;
  head = λ s. s.semaphores_list;
  with_list =
      λ l h s. record s { semaphores = record (s.semaphores) { links = l }; semaphores_list = h };
}

-- a `PCB`'s `children`
abbrev pub children_of : ℕ → ListRef
children_of p = record {
  owner = p;
  links = λ s. s.pcb_ptrs.links;
  head = λ s. (s.pcbs.at p).children;
  with_list = λ l h s. record s {
    pcb_ptrs = record (s.pcb_ptrs) { links = l };
    pcbs = record (s.pcbs) { at = write_at s.pcbs.at p (record (s.pcbs.at p) { children = h }) };
  };
}

-- a `PCB`'s `descriptors`
abbrev pub descriptors_of : ℕ → ListRef
descriptors_of p = record {
  owner = p;
  links = λ s. s.descriptors.links;
  head = λ s. (s.pcbs.at p).descriptors;
  with_list = λ l h s. record s {
    descriptors = record (s.descriptors) { links = l };
    pcbs = record (s.pcbs) { at = write_at s.pcbs.at p (record (s.pcbs.at p) { descriptors = h }) };
  };
}

-- a `PCB`'s `sem_descriptors`
abbrev pub sem_descriptors_of : ℕ → ListRef
sem_descriptors_of p = record {
  owner = p;
  links = λ s. s.sem_descriptors.links;
  head = λ s. (s.pcbs.at p).sem_descriptors;
  with_list = λ l h s. record s {
    sem_descriptors = record (s.sem_descriptors) { links = l };
    pcbs = record (s.pcbs) {
      at = write_at s.pcbs.at p (record (s.pcbs.at p) { sem_descriptors = h });
    };
  };
}

-- a `Resource`'s `descriptors`
abbrev pub users_of : ℕ → ListRef
users_of p = record {
  owner = p;
  links = λ s. s.descriptor_ptrs.links;
  head = λ s. (s.resources.at p).descriptors;
  with_list = λ l h s. record s {
    descriptor_ptrs = record (s.descriptor_ptrs) { links = l };
    resources = record (s.resources) {
      at = write_at s.resources.at p (record (s.resources.at p) { descriptors = h });
    };
  };
}

-- a `Semaphore`'s `descriptors`
abbrev pub openers_of : ℕ → ListRef
openers_of p = record {
  owner = p;
  links = λ s. s.sem_descriptor_ptrs.links;
  head = λ s. (s.semaphores.at p).descriptors;
  with_list = λ l h s. record s {
    sem_descriptor_ptrs = record (s.sem_descriptor_ptrs) { links = l };
    semaphores = record (s.semaphores) {
      at = write_at s.semaphores.at p (record (s.semaphores.at p) { descriptors = h });
    };
  };
}

-- a `Semaphore`'s `waiting_descriptors`
abbrev pub waiters_of : ℕ → ListRef
waiters_of p = record {
  owner = p;
  links = λ s. s.sem_descriptor_ptrs.links;
  head = λ s. (s.semaphores.at p).waiting_descriptors;
  with_list = λ l h s. record s {
    sem_descriptor_ptrs = record (s.sem_descriptor_ptrs) { links = l };
    semaphores = record (s.semaphores) {
      at = write_at s.semaphores.at p (record (s.semaphores.at p) { waiting_descriptors = h });
    };
  };
}
