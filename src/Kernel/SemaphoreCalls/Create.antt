-- ===== src/Kernel/SemaphoreCalls/Create.antt =====
-- `internal_semOpen` of disastrOS_semopen.c, with a new semaphore.
use native.Mathlib.Decide.{ℕ_discrete}
use mathlib.Core.Path.{subst}
use disastr_os_semaphores.PoolAllocator.{narrow}
use disastr_os_semaphores.Base.{
  ℕ, ◌≡◌, ◌≢◌, refl, sym, ap, ◌∙◌, false, true, List, [], ◌∷◌, ◌++◌, append-nil, arith, ◌==◌, ==_ne,
  ==_self, has, ok,
}
use disastr_os_semaphores.Base.Int.{ℤ, pos, ltb_ℤ}
use disastr_os_semaphores.LinkedList
use disastr_os_semaphores.LinkedList.{null}
use disastr_os_semaphores.LinkedList.Chain.{IsList, IsList-frame}
use disastr_os_semaphores.LinkedList.Insert.{insert-append}
use disastr_os_semaphores.PoolAllocator.FreeList.{IsPool}
use disastr_os_semaphores.PoolAllocator.Blocks.{address, taken-IsPool}
use disastr_os_semaphores.Kernel.{System, Semaphore}
use disastr_os_semaphores.Kernel.Cmd.{modified, semaphores, list_insert}
use disastr_os_semaphores.Kernel.Lists.{semaphores_list}
use disastr_os_semaphores.Kernel.Families.{Holds, inserted, list_insert-inserted}
use disastr_os_semaphores.Kernel.SemLists.{SemList, openers, waiters, sem_table}
use disastr_os_semaphores.Kernel.Rules.{
  int_argument-ok, alloc_block-ok, unlink-ok, modify-ok, allocated, unlinked, write_at-same,
}
use disastr_os_semaphores.Kernel.Semaphores.{semaphore_alloc}
use disastr_os_semaphores.Kernel.SemaphoreCalls.{find_or_create, internal_sem_open}
use disastr_os_semaphores.Kernel.SemaphoreCalls.Open.{
  CanOpen, Opened, opened, opened-Opened, open_descriptor-opened,
}
use disastr_os_semaphores.Kernel.SemaphoreCalls.Existing.{semaphore_for, by_id-ok}

-- From `s` to `t` the semaphore at `new` was made, and put behind `ss`.
pub record Made (s t : System) (new : ℕ) (id counter : ℤ) (ss fk : List ℕ) : Type 0 where
  pub list : IsList t.semaphores.links t.semaphores_list (ss ++ new ∷ [])
  pub named : (t.semaphores.at new).id ≡ id
  pub count : (t.semaphores.at new).count ≡ counter
  pub others : (a : ℕ) → a ≢ new → t.semaphores.at a ≡ s.semaphores.at a
  pub pool : IsPool t.semaphores.pool fk

module _ (s : System) (ss : List ℕ) (some_running : s.running ≢ null)
    (list : IsList s.semaphores.links s.semaphores_list ss) where
  abbrev pub id : ℤ
  id = narrow ((s.pcbs.at s.running).syscall_args 0)

  abbrev pub counter : ℤ
  counter = narrow ((s.pcbs.at s.running).syscall_args 1)

  module _ (k : ℕ) (fk : List ℕ) (pool : IsPool s.semaphores.pool (k ∷ fk))
      (some_new : address s.semaphores.pool k ≢ null)
      (fresh : has (address s.semaphores.pool k) ss ≡ false) where
    abbrev pub new : ℕ
    new = address s.semaphores.pool k

    abbrev pub made : System
    made =
        modified semaphores new
          (λ sem. record sem { id = id; count = counter; descriptors = LinkedList.init })
          (unlinked semaphores new (allocated semaphores k s))

    abbrev pub created : System
    created = inserted semaphores_list ss [] new made

    alloc_step : semaphore_alloc id counter s ≡ ok (new, made)
    unfolding semaphore_alloc
    alloc_step =
        rw
          (
            alloc_block-ok semaphores s k fk pool,
            ==_ne new null some_new,
            unlink-ok semaphores new (allocated semaphores k s) some_new,
            modify-ok semaphores new (unlinked semaphores new (allocated semaphores k s)) some_new,
          )
          refl

    apart : (a : ℕ) → has a ss ≡ true → (a == new) ≡ false
    apart a m = ==_ne a new (λ e. cc (sym m ∙ ap (λ b. has b ss) e ∙ fresh))

    insert_step :
        (list_insert semaphores_list s.semaphores_list.last new made ≡ ok (new, created))
        × IsList created.semaphores.links created.semaphores_list (ss ++ new ∷ [])
    insert_step =
        let is : IsList made.semaphores.links s.semaphores_list (ss ++ []) =
          rw (append-nil ss) (
            IsList-frame s.semaphores.links made.semaphores.links list
              λ a m. rw (apart a m) refl) in
        let step =
          insert-append made.semaphores.links s.semaphores_list ss [] new is some_new
            (rw (append-nil ss) fresh) (rw ==_self refl) in
        (
          ap (λ p. list_insert semaphores_list p new made) list.last
              ∙ list_insert-inserted semaphores_list made ss [] new (λ e. absurd (omega arith))
                  step.0,
          step.1,
        )

    pub find_or_create-created :
        semaphore_for s ss ≡ null → find_or_create id counter s ≡ ok (new, created)
    unfolding find_or_create
    find_or_create-created none =
        rw
          (
            by_id-ok s ss some_running list,
            none,
            alloc_step,
            ==_ne new null some_new,
            insert_step.0,
          )
          refl

    pub created-Made : Made s created new id counter ss fk
    created-Made = record {
      list = insert_step.1;
      named = rw ==_self refl;
      count = rw ==_self refl;
      others = λ a ne. rw (==_ne a new ne) refl;
      pool = taken-IsPool s.semaphores.pool k fk pool;
    }

    created-Holds :
        (lists : SemList → List ℕ)
        → lists (openers new) ≡ []
        → Holds sem_table lists s
        → Holds sem_table lists created
    created-Holds lists none holds = record { each = go; apart = holds.apart }
      where
        go :
            (q : SemList)
            → IsList created.sem_descriptor_ptrs.links ((sem_table.ref q).head created) (lists q)
        go (openers a) = elim (ℕ_discrete a new) [
          | yes e ↦
              subst
                (λ a.
                  IsList created.sem_descriptor_ptrs.links (created.semaphores.at a).descriptors
                    (lists (openers a)))
                (sym e)
                (rw (==_self, none)
                  (record { first = refl; last = refl; size = refl; chain = tt; distinct = tt }))
          | no ne ↦ rw (==_ne a new ne) (holds.each (openers a))
        ]
        go (waiters a) =
            rw
              (write_at-same (λ (r : Semaphore). r.waiting_descriptors) s.semaphores.at new
                (record (s.semaphores.at new) {
                  id = id;
                  count = counter;
                  descriptors = LinkedList.init;
                })
                refl a)
              (holds.each (waiters a))

    module _ (ds : List ℕ) (lists : SemList → List ℕ) (i j : ℕ) (fi fj : List ℕ)
        (can : CanOpen s ds lists i j fi fj) (empty : lists (openers new) ≡ []) where
      created-CanOpen : CanOpen created ds lists i j fi fj
      created-CanOpen = record {
        some_running = can.some_running;
        mine = can.mine;
        holds = created-Holds lists empty can.holds;
        descriptors = can.descriptors;
        some_descriptor = can.some_descriptor;
        fresh_descriptor = can.fresh_descriptor;
        pointers = can.pointers;
        some_pointer = can.some_pointer;
        fresh_pointer = can.fresh_pointer;
      }

      abbrev last : System
      last = opened created new ds lists i j fi fj some_new created-CanOpen

      last-Made : Made s last new id counter ss fk
      last-Made = record {
        list = insert_step.1;
        named = rw ==_self refl;
        count = rw ==_self refl;
        others = λ a ne. rw (==_ne a new ne) refl;
        pool = taken-IsPool s.semaphores.pool k fk pool;
      }

      last-Opened :
          Opened s last new
            (address s.sem_descriptors.pool i)
            (address s.sem_descriptor_ptrs.pool j)
            ds
            lists
            fi
            fj
      last-Opened =
          let o = opened-Opened created new ds lists i j fi fj some_new created-CanOpen in
          record {
            running = o.running;
            returned = o.returned;
            next_fd = o.next_fd;
            mine = o.mine;
            holds = o.holds;
            descriptor = o.descriptor;
            pointer = o.pointer;
            descriptors = o.descriptors;
            pointers = o.pointers;
          }

      -- Where a process runs with well-formed lists, the id as an `int` is not negative, no semaphore of
      -- the list has it, and the three pools have a free block, with an address that is not NULL and in
      -- no list, and no descriptor counts as one of that block yet, `internal_semOpen` ends without a
      -- fault. In the state in which it ends, the block is a semaphore with the id and the counter that
      -- were passed, as `int`s, the last of the list of semaphores, and the other semaphores are as they
      -- were; the call returns the next fd of the process, which goes up by one, and the process has a
      -- new last descriptor with a pointer that is the only opener of the new semaphore.
      pub sem_open-creates :
          ltb_ℤ id (pos 0) ≡ false
          → semaphore_for s ss ≡ null
          → (t : System) × (internal_sem_open s ≡ ok (tt, t))
            × Made s t new id counter ss fk
            × Opened s t new
                (address s.sem_descriptors.pool i)
                (address s.sem_descriptor_ptrs.pool j)
                ds
                lists
                fi
                fj
      unfolding internal_sem_open
      sem_open-creates valid none = (
        last,
        rw
            (
              int_argument-ok s some_running 0,
              int_argument-ok s some_running 1,
              valid,
              find_or_create-created none,
              ==_ne new null some_new,
            )
            (open_descriptor-opened created new ds lists i j fi fj some_new created-CanOpen),
        last-Made,
        last-Opened,
      )
