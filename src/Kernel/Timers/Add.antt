-- ===== src/Kernel/Timers/Add.antt =====
-- `TimerList_add` of disastrOS_timer.c.
use mathlib.Core.Path.{subst}
use disastr_os_semaphores.Base.{
  ℕ, ◌<◌, ◌≡◌, ◌≢◌, refl, sym, ap, ◌∙◌, true, false, List, [], ◌∷◌, ◌++◌, arith, ◌==◌, has, length,
  ok, ==_ne, ==_self, last_or,
}
use disastr_os_semaphores.Base.Int.{ℤ}
use disastr_os_semaphores.LinkedList.{null}
use disastr_os_semaphores.LinkedList.Chain.{IsList, IsList-frame}
use disastr_os_semaphores.LinkedList.Insert.{insert-append}
use disastr_os_semaphores.PoolAllocator.FreeList.{IsPool}
use disastr_os_semaphores.PoolAllocator.Blocks.{address, get_block-nil, taken-IsPool}
use disastr_os_semaphores.Kernel.{System}
use disastr_os_semaphores.Kernel.Cmd.{alloc_block, timer_items, modified, rounds, list_insert}
use disastr_os_semaphores.Kernel.Lists.{timer_list}
use disastr_os_semaphores.Kernel.Families.{inserted, list_insert-inserted}
use disastr_os_semaphores.Kernel.Rules.{modify-ok, alloc_block-ok, unlink-ok, allocated, unlinked}
use disastr_os_semaphores.Kernel.Timers.{add_scan, timer_item_alloc, timer_list_add}
use disastr_os_semaphores.Kernel.Timers.Sorted.{
  early, late, early-late, SameTimes, IsSorted, IsSorted-insert, IsSorted-frame, early-frame,
  late-frame, add_scan_lem,
}

abbrev pub waking : System → ℕ → ℤ
waking s a = (s.timer_items.at a).awakening_time

-- The scan of a list of timers finds the place.
scan_step :
    (s : System) (xs : List ℕ) (t : ℤ)
    → IsList s.timer_items.links s.timer_list xs
    → add_scan s.timer_items.links s.timer_items.at t (rounds s.timer_list) s.timer_list.first null
      ≡ ok (last_or null (early (waking s) t xs))
scan_step s xs t is =
    let enough : length xs < rounds s.timer_list = ground (arith, is.size) in
    ap (λ p. add_scan s.timer_items.links s.timer_items.at t (rounds s.timer_list) p null) is.first
    ∙ add_scan_lem s.timer_items.links s.timer_items.at t (rounds s.timer_list) xs null null
        is.chain enough

-- Where the timers are a well-formed list and no block is free, `TimerList_add` returns NULL, and
-- nothing changes.
pub timer_list_add-full :
    (s : System) (xs : List ℕ) (t : ℤ) (pcb : ℕ)
    → IsList s.timer_items.links s.timer_list xs
    → IsPool s.timer_items.pool []
    → timer_list_add t pcb s ≡ ok (null, s)
unfolding timer_list_add timer_item_alloc alloc_block
timer_list_add-full s xs t pcb is pool =
    rw (scan_step s xs t is, get_block-nil s.timer_items.pool pool) refl

module _ (s : System) (xs : List ℕ) (t : ℤ) (pcb : ℕ) (i : ℕ) (free : List ℕ)
    (is : IsList s.timer_items.links s.timer_list xs) (sorted : IsSorted (waking s) xs)
    (pool : IsPool s.timer_items.pool (i ∷ free)) (some_item : address s.timer_items.pool i ≢ null)
    (fresh : has (address s.timer_items.pool i) xs ≡ false) where
  abbrev pub item : ℕ
  item = address s.timer_items.pool i

  abbrev new : System
  new =
      modified timer_items item (λ _. record { awakening_time = t; pcb = pcb })
        (unlinked timer_items item (allocated timer_items i s))

  abbrev pub added : System
  added = inserted timer_list (early (waking s) t xs) (late (waking s) t xs) item new

  alloc_step : timer_item_alloc t pcb s ≡ ok (item, new)
  unfolding timer_item_alloc
  alloc_step =
      rw
        (
          alloc_block-ok timer_items s i free pool,
          ==_ne item null some_item,
          unlink-ok timer_items item (allocated timer_items i s) some_item,
          modify-ok timer_items item (unlinked timer_items item (allocated timer_items i s))
              some_item,
        )
        refl

  apart : (a : ℕ) → has a xs ≡ true → (a == item) ≡ false
  apart a m = ==_ne a item (λ e. cc (sym m ∙ ap (λ b. has b xs) e ∙ fresh))

  new-IsList :
      IsList new.timer_items.links new.timer_list (early (waking s) t xs ++ late (waking s) t xs)
  new-IsList =
      rw (early-late (waking s) t xs)
        (IsList-frame s.timer_items.links new.timer_items.links is λ a m. rw (apart a m) refl)

  same : SameTimes (waking s) (waking new) xs
  same a m = rw (waking, apart a m) refl

  pub added-IsSorted : IsSorted (waking new) (early (waking s) t xs ++ item ∷ late (waking s) t xs)
  added-IsSorted =
      let at_item : waking new item ≡ t = rw (waking, ==_self) refl in
      rw
        (
          sym (early-frame (waking s) (waking new) t xs same),
          sym (late-frame (waking s) (waking new) t xs same),
        )
        (subst
          (λ v. IsSorted (waking new) (early (waking new) v xs ++ item ∷ late (waking new) v xs))
          at_item
          (IsSorted-insert (waking new) xs item
            (IsSorted-frame (waking s) (waking new) xs same sorted)))

  pub insert_step :
      (list_insert timer_list (last_or null (early (waking s) t xs)) item new ≡ ok (item, added))
      × IsList added.timer_items.links added.timer_list
          (early (waking s) t xs ++ item ∷ late (waking s) t xs)
  insert_step =
      let out : has item (early (waking s) t xs ++ late (waking s) t xs) ≡ false =
        rw (early-late (waking s) t xs) fresh in
      let step =
        insert-append new.timer_items.links new.timer_list (early (waking s) t xs)
          (late (waking s) t xs) item new-IsList some_item out (rw ==_self refl) in
      (
        list_insert-inserted timer_list new (early (waking s) t xs) (late (waking s) t xs) item
            (λ e. absurd (omega arith)) step.0,
        step.1,
      )

  pub timer_list_add-added : timer_list_add t pcb s ≡ ok (item, added)
  unfolding timer_list_add
  timer_list_add-added =
      rw (scan_step s xs t is, alloc_step, ==_ne item null some_item, insert_step.0) refl

  -- Where the timers are a well-formed list, sorted by the time of waking, and the block at index
  -- `i` is the next free one, with an address that is not NULL and not in the list, `TimerList_add`
  -- ends without a fault, and returns that block as a timer with the given time and process. The
  -- timer stands behind all that wake no later and in front of the first that wakes later, the list
  -- is sorted, and the pool has the other blocks left.
  pub timer_list_add_lem :
      (u : System) × (timer_list_add t pcb s ≡ ok (item, u))
      × IsList u.timer_items.links u.timer_list
          (early (waking s) t xs ++ item ∷ late (waking s) t xs)
      × IsSorted (waking u) (early (waking s) t xs ++ item ∷ late (waking s) t xs)
      × (u.timer_items.at item ≡ record { awakening_time = t; pcb = pcb })
      × IsPool u.timer_items.pool free
  timer_list_add_lem = (
    added,
    timer_list_add-added,
    insert_step.1,
    added-IsSorted,
    rw ==_self refl,
    taken-IsPool s.timer_items.pool i free pool,
  )
