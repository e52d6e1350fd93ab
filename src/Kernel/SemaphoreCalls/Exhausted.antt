-- ===== src/Kernel/SemaphoreCalls/Exhausted.antt =====
-- `internal_semOpen` of disastrOS_semopen.c where no descriptor can be allocated.
use native.Mathlib.Decide.{ℕ_discrete}
use disastr_os_semaphores.PoolAllocator.{narrow}
use disastr_os_semaphores.Base.{
  ℕ, ◌≡◌, ◌≢◌, ◌⊎◌, inl, inr, refl, false, List, [], ◌∷◌, ==_ne, ==_self, has, ok,
}
use disastr_os_semaphores.Base.Int.{ℤ, pos, ltb_ℤ}
use disastr_os_semaphores.LinkedList
use disastr_os_semaphores.LinkedList.{null}
use disastr_os_semaphores.LinkedList.Chain.{IsList}
use disastr_os_semaphores.PoolAllocator.FreeList.{IsPool}
use disastr_os_semaphores.PoolAllocator.Blocks.{address}
use disastr_os_semaphores.Kernel.{System}
use disastr_os_semaphores.Kernel.Constants.Error
use disastr_os_semaphores.Kernel.Cmd.{pcbs}
use disastr_os_semaphores.Kernel.Rules.{int_argument-ok, load-ok, return_value-ok, returning}
use disastr_os_semaphores.Kernel.SemaphoreCalls.{internal_sem_open, find_or_create, open_descriptor}
use disastr_os_semaphores.Kernel.SemaphoreCalls.Allocate.{sem_descriptor_alloc-none}
use disastr_os_semaphores.Kernel.SemaphoreCalls.Existing.{semaphore_for, by_id-ok}
use disastr_os_semaphores.Kernel.SemaphoreCalls.Create.{
  Made, created, find_or_create-created, created-Made,
}

open_descriptor-none :
    (s : System) (sem : ℕ)
    → s.running ≢ null
    → IsPool s.sem_descriptors.pool []
    → open_descriptor sem s ≡ ok (tt, returning Error.sem_des_alloc s)
unfolding open_descriptor
open_descriptor-none s sem some pool =
    rw (load-ok pcbs s.running s some, sem_descriptor_alloc-none s _ sem s.running pool)
      (return_value-ok s some Error.sem_des_alloc)

module _ (s : System) (ss : List ℕ) (some_running : s.running ≢ null)
    (list : IsList s.semaphores.links s.semaphores_list ss) (k : ℕ) (fk : List ℕ)
    (pool : IsPool s.semaphores.pool (k ∷ fk)) (some_new : address s.semaphores.pool k ≢ null)
    (fresh : has (address s.semaphores.pool k) ss ≡ false) where
  abbrev id : ℤ
  id = narrow ((s.pcbs.at s.running).syscall_args 0)

  abbrev counter : ℤ
  counter = narrow ((s.pcbs.at s.running).syscall_args 1)

  abbrev c : System
  c = created s ss some_running list k fk pool some_new fresh

  found : semaphore_for s ss ≢ null → find_or_create id counter s ≡ ok (semaphore_for s ss, s)
  unfolding find_or_create
  found some = rw (by_id-ok s ss some_running list, ==_ne (semaphore_for s ss) null some) refl

  -- Where a process runs, the list of semaphores is well formed, the id as an `int` is not negative, the next
  -- block for a semaphore is not NULL and not in the list, and no block for a descriptor is free,
  -- `internal_semOpen` ends without a fault and returns that the allocation of the descriptor failed.
  -- A semaphore that was there leaves everything else unchanged; else the call has made the semaphore,
  -- which stays in the list of semaphores with nobody that has it open.
  pub sem_open-exhausted :
      ltb_ℤ id (pos 0) ≡ false
      → IsPool s.sem_descriptors.pool []
      → ((semaphore_for s ss ≢ null)
          × (internal_sem_open s ≡ ok (tt, returning Error.sem_des_alloc s)))
        ⊎ ((semaphore_for s ss ≡ null)
            × (made : System) × (internal_sem_open s ≡ ok (tt, returning Error.sem_des_alloc made))
            × Made s made (address s.semaphores.pool k) id counter ss fk
            × (made.pcbs ≡ s.pcbs)
            × ((made.semaphores.at (address s.semaphores.pool k)).descriptors ≡ LinkedList.init))
  unfolding internal_sem_open
  sem_open-exhausted valid empty = elim (ℕ_discrete (semaphore_for s ss) null) [
    | yes e ↦ inr (
      e,
      c,
      rw
          (
            int_argument-ok s some_running 0,
            int_argument-ok s some_running 1,
            valid,
            find_or_create-created s ss some_running list k fk pool some_new fresh e,
            ==_ne (address s.semaphores.pool k) null some_new,
          )
          (open_descriptor-none c _ some_running empty),
      created-Made s ss some_running list k fk pool some_new fresh,
      refl,
      rw ==_self refl,
    )
    | no some ↦ inl (
      some,
      rw
          (
            int_argument-ok s some_running 0,
            int_argument-ok s some_running 1,
            valid,
            found some,
            ==_ne (semaphore_for s ss) null some,
          )
          (open_descriptor-none s _ some_running empty),
    )
  ]
