-- ===== src/PoolAllocator/Blocks.antt =====
-- The pool of pool_allocator.c implements a stack of free indices.
use native.Mathlib.Nat.{mod-eq_of_lt, mul-le-mul_left, le-add_right}
use disastr_os_semaphores.PoolAllocator.Narrow.{to_int-small}
use disastr_os_semaphores.Base.{
  ℕ, suc, ◌+◌, ◌-◌, ◌*◌, ◌%◌, ◌^◌, ◌<◌, ◌≡◌, refl, sym, ap, ◌∙◌, ◌⊎◌, inl, inr, ==_ne, Bool-cases,
  false, List, [], ◌∷◌, arith, ◌==◌, ==_self, length, has, ok,
}
use disastr_os_semaphores.Base.Int.{ℤ, pos, ◌+ℤ◌, ◌-ℤ◌, ltb_ℤ, pos_dec, pos_inc}
use disastr_os_semaphores.PoolAllocator.{
  PoolAllocator, success, null_idx, detached_idx, write, populate, init, get_block, sizeof_int,
}
use disastr_os_semaphores.PoolAllocator.FreeList.{
  IsPool, FreeChain-write, range, has-range_of_bounds, IsDistinct-range, AllBelow-range,
  length-range, populate-FreeChain,
}

abbrev pub address : PoolAllocator → ℕ → ℕ
address a i = a.buffer + i * a.item_size

-- A new pool of `suc n` blocks.
abbrev pub initial : (item_size n memory_block : ℕ) → PoolAllocator → PoolAllocator
initial item_size n memory_block a = record {
  buffer = memory_block;
  free_list = write (populate n 0 a.free_list) n null_idx;
  buffer_size = item_size * suc n;
  size = pos (suc n);
  size_max = suc n;
  item_size = item_size;
  first_idx = pos 0;
}

pub initial-IsPool :
    (item_size n memory_block : ℕ) (a : PoolAllocator)
    → 0 < item_size
    → suc n * (item_size + sizeof_int) < 2 ^ 31
    → IsPool (initial item_size n memory_block a) (range 0 (suc n))
initial-IsPool item_size n memory_block a h small = record {
  chain = populate-FreeChain n 0 a.free_list n (omega arith);
  distinct = IsDistinct-range 0 (suc n);
  below = AllBelow-range 0 (suc n) (suc n) (omega arith);
  size = ap pos (ap suc (sym (length-range 1 n)));
  detached = λ i b out. cc (sym out ∙ has-range_of_bounds i 0 (suc n) (omega arith) (omega arith));
  item_size_pos = h;
  small = let le = mul-le-mul_left (suc n) (le-add_right item_size sizeof_int) in omega (arith, le);
}

pub init-initial :
    (item_size n memory_block : ℕ) (memory_size : ℤ) (a : PoolAllocator)
    → suc n * (item_size + sizeof_int) < 2 ^ 31
    → ltb_ℤ memory_size (pos (suc n * (item_size + sizeof_int))) ≡ false
    → init item_size (suc n) memory_block memory_size a
      ≡ ok (success, initial item_size n memory_block a)
unfolding init
init-initial item_size n memory_block memory_size a small fits =
    let e : suc n - 1 ≡ n = omega arith in
    let m : (suc n * (item_size + sizeof_int)) % 2 ^ 64 ≡ suc n * (item_size + sizeof_int) =
      mod-eq_of_lt (omega arith) in
    let t = to_int-small (suc n * (item_size + sizeof_int)) small in
    rw (m, t, fits, ==_ne (suc n) 0 (omega arith), e) refl

-- The pool without the block at index `i`, its first free one, and with it put back.
abbrev pub taken : PoolAllocator → ℕ → PoolAllocator
taken a i = record a {
  first_idx = a.free_list i;
  size = a.size -ℤ pos 1;
  free_list = write a.free_list i detached_idx;
}

abbrev pub released : PoolAllocator → ℕ → PoolAllocator
released a i = record a {
  free_list = write a.free_list i a.first_idx;
  first_idx = pos i;
  size = a.size +ℤ pos 1;
}

pub get_block-nil : (a : PoolAllocator) → IsPool a [] → get_block a ≡ ok (0, a)
unfolding get_block
get_block-nil a p = ground arith

pub taken-IsPool :
    (a : PoolAllocator) (x : ℕ) (xs : List ℕ) → IsPool a (x ∷ xs) → IsPool (taken a x) xs
taken-IsPool a x xs p = record {
  chain = FreeChain-write a.free_list (a.free_list x) xs x detached_idx p.chain.1 p.distinct.0;
  distinct = p.distinct.1;
  below = p.below.1;
  size = ap (λ z. z -ℤ pos 1) p.size ∙ pos_dec (length xs);
  detached = λ i b out. elim (Bool-cases (i == x)) [
    | inl e ↦ rw e
    | inr e ↦ rw e (p.detached i b (rw e out))
  ];
  item_size_pos = p.item_size_pos;
  small = p.small;
}

-- On a pool whose free list is well formed, `PoolAllocator_getBlock` hands out the first free
-- block, and the others stay free in their order; where no block is free it returns NULL, with the
-- pool as it was.
pub get_block_lem :
    (a : PoolAllocator) (xs : List ℕ)
    → IsPool a xs
    → ((xs ≡ []) × (get_block a ≡ ok (0, a)))
      ⊎ ((x : ℕ) × (ys : List ℕ) × (xs ≡ x ∷ ys)
          × (get_block a ≡ ok (address a x, taken a x))
          × IsPool (taken a x) ys)
unfolding get_block
get_block_lem a [] p = inl (refl, get_block-nil a p)
get_block_lem a (x ∷ xs) p = inr (x, xs, refl, ground arith, taken-IsPool a x xs p)

pub released-IsPool :
    (a : PoolAllocator) (i : ℕ) (xs : List ℕ)
    → IsPool a xs
    → i < a.size_max
    → has i xs ≡ false
    → IsPool (released a i) (i ∷ xs)
released-IsPool a i xs p b out = record {
  chain = (refl, rw ==_self (FreeChain-write a.free_list a.first_idx xs i a.first_idx p.chain out));
  distinct = (out, p.distinct);
  below = (b, p.below);
  size = ap (λ z. z +ℤ pos 1) p.size ∙ pos_inc (length xs);
  detached = λ j b m. elim (Bool-cases (j == i)) [
    | inl e ↦ let m' = rw e at m in cc
    | inr e ↦ let m' = rw e at m in rw e (p.detached j b m')
  ];
  item_size_pos = p.item_size_pos;
  small = p.small;
}
