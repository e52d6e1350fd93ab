-- ===== src/Kernel/Timers.antt =====
-- sorgente/disastrOS_timer.h and sorgente/disastrOS_timer.c: the list of sleeping processes, by the
-- time at which they wake.
pub mod Sorted
pub mod Add
pub mod Tests
use disastr_os_semaphores.Base.{
  ℕ, zero, suc, ◌==◌, if◌then◌else◌, Outcome, ok, out_of_fuel, and_then,
}
use disastr_os_semaphores.Base.Int.{ℤ, pos, negsuc, ltb_ℤ, leb_ℤ}
use disastr_os_semaphores.LinkedList.{Links, null}
use disastr_os_semaphores.PoolAllocator.{PoolAllocatorResult}
use disastr_os_semaphores.Kernel.{TimerItem}
use disastr_os_semaphores.Kernel.Cmd.{
  Cmd, pure, get, ◌>>=◌, ◌>>◌, load, modify, unlink, alloc_block, free_block, timer_items, first,
  list_insert, list_detach, rounds,
}
use disastr_os_semaphores.Kernel.Lists.{timer_list}

-- `TimerItem_alloc`
unfoldable pub timer_item_alloc : ℤ → ℕ → Cmd ℕ
timer_item_alloc awakening_time pcb = do
  item ← alloc_block timer_items
  if item == null then pure null else do
    unlink timer_items item
    modify timer_items item (λ _. record { awakening_time = awakening_time; pcb = pcb })
    pure item

-- `TimerItem_free`
unfoldable pub timer_item_free : ℕ → Cmd PoolAllocatorResult
timer_item_free item = free_block timer_items item

-- The loop of `TimerList_add`: the last item that wakes no later than the new one, or NULL.
unfoldable pub add_scan : Links → (ℕ → TimerItem) → ℤ → ℕ → (aux previous_item : ℕ) → Outcome ℕ
add_scan l items awakening_time zero aux previous_item = out_of_fuel
add_scan l items awakening_time (suc fuel) aux previous_item =
    let rest = add_scan l items awakening_time fuel (l aux).next aux in
    if aux == null
    then ok previous_item
    else if ltb_ℤ awakening_time (items aux).awakening_time
    then ok previous_item
    else rest

-- `TimerList_add`
unfoldable pub timer_list_add : ℤ → ℕ → Cmd ℕ
unfolding add_scan
timer_list_add awakening_time pcb = do
  s ← get
  previous_item ← (λ s'.
      and_then
        (add_scan s.timer_items.links s.timer_items.at awakening_time (rounds s.timer_list)
          s.timer_list.first null)
        (λ r. ok (r, s')))
  new_item ← timer_item_alloc awakening_time pcb
  if new_item == null
      then pure null
      else do list_insert timer_list previous_item new_item; pure new_item

-- `TimerList_current`
unfoldable pub timer_list_current : ℤ → Cmd ℕ
timer_list_current current_time = do
  item ← first timer_list
  if item == null then pure null else do
    timer ← load timer_items item
    pure (if leb_ℤ timer.awakening_time current_time then item else null)

-- `TimerList_removeCurrent`
unfoldable pub timer_list_remove_current : Cmd ℤ
timer_list_remove_current = do
  head ← first timer_list
  item ← list_detach timer_list head
  if item == null then pure (negsuc 0) else do timer_item_free item; pure (pos 0)
