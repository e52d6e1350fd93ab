-- ===== src/Kernel/Rules.antt =====
-- What the commands of `Cmd` and `Running` do where they make no fault.
use native.Mathlib.Decide.{ℕ_discrete}
use disastr_os_semaphores.PoolAllocator.{narrow}
use disastr_os_semaphores.Base.{
  ==_self, ◌∷◌, refl, ℕ, ◌<◌, ◌≡◌, ◌≢◌, Bool, List, arith, ==_ne, length, ok, has, false,
}
use disastr_os_semaphores.Base.Int.{ℤ}
use disastr_os_semaphores.LinkedList.{null}
use disastr_os_semaphores.LinkedList.Chain.{IsList}
use disastr_os_semaphores.LinkedList.Find.{first_of, scan-IsList}
use disastr_os_semaphores.LinkedList.{write, link}
use disastr_os_semaphores.PoolAllocator.{success}
use disastr_os_semaphores.PoolAllocator.FreeList.{IsPool}
use disastr_os_semaphores.PoolAllocator.Blocks.{address, taken, released}
use disastr_os_semaphores.PoolAllocator.Release.{release_block-get_block, release_block-out}
use disastr_os_semaphores.Kernel.{Pcb, System, ProcessStatus}
use disastr_os_semaphores.Kernel.Cmd.{
  alloc_block, free_block, unlink, Table, load, modify, modified, write_at, ListRef, find_by,
  rounds, pcbs,
}
use disastr_os_semaphores.Kernel.Running.{argument, int_argument, return_value, set_status}

module _ {T : Type 0} (t : Table T) (p : ℕ) (s : System) (some_p : p ≢ null) where
  pub load-ok : load t p s ≡ ok ((t.store s).at p, s)
  unfolding load
  load-ok = rw (==_ne p null some_p)

  pub modify-ok : (f : T → T) → modify t p f s ≡ ok (tt, modified t p f s)
  unfolding modify
  modify-ok f = rw (==_ne p null some_p)

-- The state in which the system call of the running process returns `v`.
abbrev pub returning : ℤ → System → System
returning v s = modified pcbs s.running (λ pcb. record pcb { syscall_retvalue = v }) s

module _ (s : System) (some_running : s.running ≢ null) where
  pub argument-ok : (i : ℕ) → argument i s ≡ ok ((s.pcbs.at s.running).syscall_args i, s)
  unfolding argument
  argument-ok i = rw (load-ok pcbs s.running s some_running)

  pub int_argument-ok :
      (i : ℕ) → int_argument i s ≡ ok (narrow ((s.pcbs.at s.running).syscall_args i), s)
  unfolding int_argument
  int_argument-ok i = rw (argument-ok i)

  pub return_value-ok : (v : ℤ) → return_value v s ≡ ok (tt, returning v s)
  unfolding return_value
  return_value-ok v = modify-ok pcbs s.running s some_running _

-- A search in a list ends, and finds the first item that passes the test.
pub find_by-first_of :
    (l : ListRef) (test : System → ℕ → Bool) (s : System) (xs : List ℕ)
    → l.owner ≢ null
    → IsList (l.links s) (l.head s) xs
    → find_by l test s ≡ ok (first_of (test s) xs, s)
unfolding find_by
find_by-first_of l test s xs owned is =
    let enough : length xs < rounds (l.head s) = ground (arith, is.size) in
    rw (==_ne l.owner null owned, scan-IsList (test s) (l.links s) (l.head s) xs _ is enough)

pub set_status-ok :
    (p : ℕ) (status : ProcessStatus) (s : System)
    → p ≢ null
    → set_status p status s ≡ ok (tt, modified pcbs p (λ pcb. record pcb { status = status }) s)
unfolding set_status
set_status-ok p status s some_p = modify-ok pcbs p s some_p _

-- The state after the block at index `i` of the pool was handed out, and after its links were cleared.
abbrev pub allocated : {T : Type 0} → Table T → ℕ → System → System
allocated t i s = t.with_store (record (t.store s) { pool = taken (t.store s).pool i }) s

abbrev pub unlinked : {T : Type 0} → Table T → ℕ → System → System
unlinked t p s =
    t.with_store (record (t.store s) { links = write (t.store s).links p (link null null) }) s

-- The state after the block at index `i` was taken back.
abbrev pub freed : {T : Type 0} → Table T → ℕ → System → System
freed t i s = t.with_store (record (t.store s) { pool = released (t.store s).pool i }) s

module _ {T : Type 0} (t : Table T) where
  pub alloc_block-ok :
      (s : System) (i : ℕ) (free : List ℕ)
      → IsPool (t.store s).pool (i ∷ free)
      → alloc_block t s ≡ ok (address (t.store s).pool i, allocated t i s)
  unfolding alloc_block
  alloc_block-ok s i free pool = rw (release_block-get_block (t.store s).pool i free pool).0 refl

  pub free_block-ok :
      (s : System) (i : ℕ) (free : List ℕ)
      → IsPool (t.store s).pool free
      → i < (t.store s).pool.size_max
      → has i free ≡ false
      → free_block t (address (t.store s).pool i) s ≡ ok (success, freed t i s)
  unfolding free_block
  free_block-ok s i free pool below out =
      rw (release_block-out (t.store s).pool i free pool below out) refl

  pub unlink-ok : (p : ℕ) (s : System) → p ≢ null → unlink t p s ≡ ok (tt, unlinked t p s)
  unfolding unlink
  unlink-ok p s some_p = rw (==_ne p null some_p) refl

-- A write that keeps what `f` reads.
pub write_at-same :
    {T B : Type 0} (f : T → B) (g : ℕ → T) (b : ℕ) (v : T)
    → f v ≡ f (g b)
    → (a : ℕ) → f (write_at g b v a) ≡ f (g a)
write_at-same f g b v same a = elim (ℕ_discrete a b) [
  | yes e ↦ rw (e, ==_self) same
  | no ne ↦ rw (==_ne a b ne) refl
]

-- The return value is a field of its own.
pub returning-at :
    {B : Type 0} (f : Pcb → B) (v : ℤ) (s : System) (a : ℕ)
    → ((p : Pcb) → f (record p { syscall_retvalue = v }) ≡ f p)
    → f ((returning v s).pcbs.at a) ≡ f (s.pcbs.at a)
returning-at f v s a same = elim (ℕ_discrete a s.running) [
  | yes e ↦ rw (e, ==_self) (same (s.pcbs.at s.running))
  | no ne ↦ rw (==_ne a s.running ne) refl
]
