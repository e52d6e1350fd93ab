-- ===== src/PoolAllocator/Tests.antt =====
-- The theorems on pool_allocator.c at pools of three blocks.
use disastr_os_semaphores.Base.{ℕ, ◌≡◌, ◌⊎◌, refl, List, [], ◌∷◌, arith, ok, ◌==◌, if◌then◌else◌}
use disastr_os_semaphores.Base.Int.{pos}
use disastr_os_semaphores.PoolAllocator.{
  PoolAllocator, success, unaligned_free, get_block, release_block, null_idx, detached_idx,
}
use disastr_os_semaphores.PoolAllocator.FreeList.{IsPool}
use disastr_os_semaphores.PoolAllocator.Blocks.{address, taken, released, get_block_lem}
use disastr_os_semaphores.PoolAllocator.Release.{
  release_block-has, release_block-below, release_block-get_block,
}

-- Three blocks of 16 bytes at 1000; the second is handed out.
abbrev pub three : PoolAllocator
three = record {
  buffer = 1000;
  free_list = λ i. if i == 0 then pos 2 else if i == 1 then detached_idx else null_idx;
  buffer_size = 48;
  size = pos 2;
  size_max = 3;
  item_size = 16;
  first_idx = pos 0;
}

abbrev free_blocks : List ℕ
free_blocks = 0 ∷ 2 ∷ []

pub three-IsPool : IsPool three free_blocks
three-IsPool = record {
  chain = (refl, (refl, refl));
  distinct = (refl, (refl, tt));
  below = (omega arith, (omega arith, tt));
  size = refl;
  detached = λ i b out. ground arith;
  item_size_pos = omega arith;
  small = omega arith;
}

get_block_lem_example :
    ((free_blocks ≡ []) × (get_block three ≡ ok (0, three)))
    ⊎ ((x : ℕ) × (ys : List ℕ) × (free_blocks ≡ x ∷ ys)
        × (get_block three ≡ ok (address three x, taken three x))
        × IsPool (taken three x) ys)
get_block_lem_example = get_block_lem three free_blocks three-IsPool

release_block-has_example : release_block three 1016 ≡ ok (success, released three 1)
release_block-has_example =
    release_block-has three free_blocks 1 0 three-IsPool (omega arith) (omega arith)

release_block-below_example : release_block three 990 ≡ ok (unaligned_free, three)
release_block-below_example =
    release_block-below three 990 (omega arith) (omega arith) (omega arith)

release_block-get_block_example :
    (get_block three ≡ ok (1000, taken three 0))
    × (release_block (taken three 0) 1000 ≡ ok (success, three))
release_block-get_block_example = release_block-get_block three 0 (2 ∷ []) three-IsPool
