-- ===== src/PoolAllocator.antt =====
-- sorgente/pool_allocator.h and sorgente/pool_allocator.c: an allocator of equal blocks.
--
-- The part of the memory block that holds the free list is a store of `int`s by index; an access
-- outside its `size_max` entries is a fault. Sizes are numbers, as every caller passes `sizeof`
-- and a constant; indices are integers, since the free list holds the marks -1 and -2.
pub mod FreeList
pub mod Narrow
pub mod Blocks
pub mod Release
pub mod Tests
use disastr_os_semaphores.Base.{
  ℕ, zero, suc, ◌+◌, ◌-◌, ◌*◌, ◌/◌, ◌%◌, ◌^◌, Bool, true, false, not, ◌||◌, ◌&&◌, ◌==◌, ltb, leb,
  if◌then◌else◌, Outcome, ok, fault,
}
use disastr_os_semaphores.Base.Int.{ℤ, pos, negsuc, ◌+ℤ◌, ◌-ℤ◌, ◌==ℤ◌, ltb_ℤ, sub_ℕ}

pub data PoolAllocatorResult : Type 0 where
  success not_enough_memory unaligned_free out_of_range double_free : PoolAllocatorResult

abbrev pub null_idx : ℤ
null_idx = negsuc 0

abbrev pub detached_idx : ℤ
detached_idx = negsuc 1

-- The field `bucket_size` is left out: nothing reads or writes it.
pub record PoolAllocator : Type 0 where
  pub buffer : ℕ
  pub free_list : ℕ → ℤ
  pub buffer_size : ℕ
  pub size : ℤ
  pub size_max : ℕ
  pub item_size : ℕ
  pub first_idx : ℤ

abbrev pub sizeof_int : ℕ
sizeof_int = 4

-- The conversion of a `size_t` to `int`.
abbrev pub to_int : ℕ → ℤ
to_int n = let m = n % 2 ^ 32 in if ltb m (2 ^ 31) then pos m else sub_ℕ m (2 ^ 32)

-- The conversion of a wider signed integer to `int`.
unfoldable pub narrow : ℤ → ℤ
narrow (pos n) = to_int n
narrow (negsuc n) = to_int (2 ^ 32 - 1 - n % 2 ^ 32)

abbrev pub write : (ℕ → ℤ) → ℕ → ℤ → ℕ → ℤ
write f i v j = if j == i then v else f j

-- `for (int i=0; i<a->size-1; ++i) a->free_list[i]=i+1;`, by the rounds left
unfoldable pub populate : ℕ → ℕ → (ℕ → ℤ) → ℕ → ℤ
populate zero i f = f
populate (suc rounds) i f = populate rounds (suc i) (write f i (pos (suc i)))

-- `PoolAllocator_init`. A write outside the memory is a fault: with no item, in front of the free
-- list, and behind the memory where the requested size is too large for an `int` and passes the test.
unfoldable pub init :
    (item_size num_items memory_block : ℕ)
    → ℤ
    → PoolAllocator
    → Outcome (PoolAllocatorResult × PoolAllocator)
init item_size num_items memory_block memory_size a =
    if ltb_ℤ memory_size (to_int ((num_items * (item_size + sizeof_int)) % 2 ^ 64))
    then ok (not_enough_memory, a)
    else if (num_items == 0) || ltb_ℤ memory_size (pos (num_items * (item_size + sizeof_int)))
    then fault
    else ok (
      success,
      record {
        buffer = memory_block;
        free_list = write (populate (num_items - 1) 0 a.free_list) (num_items - 1) null_idx;
        buffer_size = item_size * num_items;
        size = pos num_items;
        size_max = num_items;
        item_size = item_size;
        first_idx = pos 0;
      },
    )

-- The block with the given index, taken off the free list.
unfoldable pub take_block : ℕ → PoolAllocator → Outcome (ℕ × PoolAllocator)
take_block i a =
    if ltb i a.size_max
    then ok (
      a.buffer + i * a.item_size,
      record a {
        first_idx = a.free_list i;
        size = a.size -ℤ pos 1;
        free_list = write a.free_list i detached_idx;
      },
    )
    else fault

-- `PoolAllocator_getBlock`: the address of the block, 0 if there is none.
unfoldable pub get_block : PoolAllocator → Outcome (ℕ × PoolAllocator)
unfolding take_block
get_block a = elim a.first_idx [
  | pos i ↦ take_block i a
  | negsuc k ↦ if a.first_idx ==ℤ null_idx then ok (0, a) else fault
]

-- The last checks of `PoolAllocator_releaseBlock`, at an index inside the buffer.
unfoldable pub release_idx : ℕ → PoolAllocator → Outcome (PoolAllocatorResult × PoolAllocator)
release_idx idx a =
    if not (a.free_list idx ==ℤ detached_idx)
    then ok (double_free, a)
    else ok (
      success,
      record a {
        free_list = write a.free_list idx a.first_idx;
        first_idx = pos idx;
        size = a.size +ℤ pos 1;
      },
    )

abbrev magnitude : ℤ → ℕ
magnitude (pos n) = n
magnitude (negsuc n) = suc n

abbrev is_negative : ℤ → Bool
is_negative (pos n) = false
is_negative (negsuc n) = true

-- `PoolAllocator_releaseBlock`, by the size and the sign of the offset: the quotient of a negative
-- offset that is aligned is negative.
unfoldable pub release_block : PoolAllocator → ℕ → Outcome (PoolAllocatorResult × PoolAllocator)
unfolding release_idx
release_block a block =
    let offset = narrow (sub_ℕ block a.buffer) in
    let size = magnitude offset in
    let idx = size / a.item_size in
    if a.item_size == 0
    then fault
    else if not (size % a.item_size == 0)
    then ok (unaligned_free, a)
    else if (is_negative offset && not (idx == 0)) || leb a.size_max idx
    then ok (out_of_range, a)
    else release_idx idx a
