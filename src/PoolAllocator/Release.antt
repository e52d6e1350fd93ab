-- ===== src/PoolAllocator/Release.antt =====
-- `PoolAllocator_releaseBlock` of pool_allocator.c on every address that it may be given.
use native.Mathlib.Nat.{
  mul-add-div_right, div-eq_of_lt, mod-eq_of_lt, add-mul-mod_self_right, add_comm, add-zero,
  div-add-mod', mul-le-mul_right,
}
use mathlib.Core.Path.{ap₂, fun_ext}
use disastr_os_semaphores.Base.{
  ℕ, suc, ◌+◌, ◌-◌, ◌*◌, ◌/◌, ◌%◌, ◌<◌, ◌≤◌, ◌^◌, ◌≡◌, ◌≢◌, sym, ap, ==_iff, ◌∙◌, true, false, not,
  List, [], ◌∷◌, arith, ◌==◌, ==_ne, leb, Bool-cases, inl, inr, if◌then◌else◌, has, ok, length,
}
use disastr_os_semaphores.Base.Int.{ℤ, pos, ◌+ℤ◌, ◌-ℤ◌, pos_dec, pos_inc, ◌==ℤ◌}
use disastr_os_semaphores.PoolAllocator.{
  PoolAllocator, success, unaligned_free, out_of_range, double_free, detached_idx, write,
  release_idx, release_block, get_block,
}
use disastr_os_semaphores.PoolAllocator.Narrow.{narrow-pos, narrow-negsuc}
use disastr_os_semaphores.PoolAllocator.FreeList.{FreeChain, IsPool}
use disastr_os_semaphores.PoolAllocator.Blocks.{address, taken, taken-IsPool, released}

-- An entry of the free list is not the mark of a detached block.
free-ne-detached :
    (f : ℕ → ℤ) (first : ℤ) (xs : List ℕ) (i : ℕ)
    → FreeChain f first xs
    → has i xs ≡ true
    → (f i ==ℤ detached_idx) ≡ false
free-ne-detached f first [] i c m = cc
free-ne-detached f first (x ∷ []) i c m = let e : i ≡ x = ground arith in rw (e, c.1)
free-ne-detached f first (x ∷ y ∷ xs) i c m = elim (Bool-cases (i == x)) [
  | inl e ↦ let e' : i ≡ x = ground arith in rw (e', c.1.0)
  | inr e ↦ free-ne-detached f (f x) (y ∷ xs) i c.1 (rw e at m)
]

-- The address `r` bytes into block `i`, which need not be a block of the buffer, where the offset is
-- an `int`.
release-at :
    (a : PoolAllocator) (i r : ℕ)
    → r < a.item_size
    → i * a.item_size + r < 2 ^ 31
    → release_block a (address a i + r) ≡ (
        if not (r == 0)
        then ok (unaligned_free, a)
        else if leb a.size_max i
        then ok (out_of_range, a)
        else release_idx i a)
unfolding release_block
release-at a i r h small =
    let above : leb a.buffer (address a i + r) ≡ true = ground arith in
    let offset : address a i + r - a.buffer ≡ i * a.item_size + r = omega arith in
    let kept = narrow-pos (i * a.item_size + r) small in
    let quotient : (i * a.item_size + r) / a.item_size ≡ i =
      mul-add-div_right {m = a.item_size} (omega arith) i r ∙ omega (arith, div-eq_of_lt h) in
    let rest : (i * a.item_size + r) % a.item_size ≡ r =
      ap (λ n. n % a.item_size) (add_comm (i * a.item_size) r)
      ∙ add-mul-mod_self_right r i a.item_size
      ∙ mod-eq_of_lt h in
    rw (above, offset, kept, quotient, rest, ==_ne a.item_size 0 (omega arith))

-- `PoolAllocator_releaseBlock`, on a pool whose free list is well formed, of any address at or
-- above the buffer whose offset is an `int`, `r` bytes into the block at index `i`: it refuses an address inside a block,
-- then one behind the buffer, then a block that is free already, each with the pool as it was; any
-- other block is put at the head of the free list.
pub release_block-has :
    (a : PoolAllocator) (xs : List ℕ) (i r : ℕ)
    → IsPool a xs
    → r < a.item_size
    → i * a.item_size + r < 2 ^ 31
    → release_block a (address a i + r) ≡ (
        if not (r == 0)
        then ok (unaligned_free, a)
        else if leb a.size_max i
        then ok (out_of_range, a)
        else if has i xs
        then ok (double_free, a)
        else ok (success, released a i))
unfolding release_idx
release_block-has a xs i r p h small = release-at a i r h small ∙ (elim (Bool-cases (has i xs)) [
  | inl e ↦ rw (e, free-ne-detached a.free_list a.first_idx xs i p.chain e)
  | inr e ↦ elim (Bool-cases (leb a.size_max i)) [
    | inl l ↦ rw l
    | inr l ↦ rw (e, l, p.detached i (ground arith) e)
  ]
])

-- The offset of a block of the pool is an `int`.
offset-small :
    (a : PoolAllocator) (xs : List ℕ) (i : ℕ)
    → IsPool a xs
    → i < a.size_max
    → i * a.item_size + 0 < 2 ^ 31
offset-small a xs i p below =
    let le : i * a.item_size ≤ a.size_max * a.item_size =
      mul-le-mul_right a.item_size (omega arith) in
    let small = p.small in omega (arith, le, small)

-- A block that is handed out is taken back.
pub release_block-out :
    (a : PoolAllocator) (i : ℕ) (free : List ℕ)
    → IsPool a free
    → i < a.size_max
    → has i free ≡ false
    → release_block a (address a i) ≡ ok (success, released a i)
release_block-out a i free pool below out =
    let refused : leb a.size_max i ≡ false = ground arith in
    ap (release_block a) (sym (add-zero (address a i)))
    ∙ release_block-has a free i 0 pool pool.item_size_pos (offset-small a free i pool below)
    ∙ rw (out, refused)

-- Where the size of the blocks is not 0, `PoolAllocator_releaseBlock` refuses every address below
-- the buffer by an offset that is an `int`, as unaligned or as out of range, and the pool stays as it
-- was.
pub release_block-below :
    (a : PoolAllocator) (block : ℕ)
    → 0 < a.item_size
    → block < a.buffer
    → a.buffer - block ≤ 2 ^ 31
    → release_block a block
      ≡ ok ((if (a.buffer - block) % a.item_size == 0 then out_of_range else unaligned_free), a)
unfolding release_block
release_block-below a block s h small =
    let above : leb a.buffer block ≡ false = ground arith in
    let kept = narrow-negsuc (a.buffer - block - 1) (omega arith) in
    let size : suc (a.buffer - block - 1) ≡ a.buffer - block = omega arith in
    elim (Bool-cases ((a.buffer - block) % a.item_size == 0)) [
      | inl e ↦ rw (
        above,
        kept,
        size,
        ==_ne a.item_size 0 (omega arith),
        e,
        ==_ne ((a.buffer - block) / a.item_size) 0 (aligned e),
      )
      | inr e ↦ rw (above, kept, size, ==_ne a.item_size 0 (omega arith), e)
    ]
  where
    aligned : ((a.buffer - block) % a.item_size == 0) ≡ true → (a.buffer - block) / a.item_size ≢ 0
    aligned e q =
        let whole = div-add-mod' (a.buffer - block) a.item_size in
        let rest : (a.buffer - block) % a.item_size ≡ 0 = (==_iff _ 0).0 e in
        let none_left : 0 * a.item_size + 0 ≡ a.buffer - block =
          ap₂ (λ u v. u * a.item_size + v) (sym q) (sym rest) ∙ whole in
        omega arith

rewritten : (f : ℕ → ℤ) (x : ℕ) (v : ℤ) → write (write f x v) x (f x) ≡ f
rewritten f x v =
    fun_ext λ j. elim (Bool-cases (j == x)) [
      | inl e ↦ rw e (ap f (sym ((==_iff j x).0 e)))
      | inr e ↦ rw e
    ]

resized : (z : ℤ) (n : ℕ) → z ≡ pos (suc n) → z -ℤ pos 1 +ℤ pos 1 ≡ z
resized z n e =
    ap (λ t. t -ℤ pos 1 +ℤ pos 1) e ∙ ap (λ t. t +ℤ pos 1) (pos_dec n) ∙ pos_inc n ∙ sym e

released-taken :
    (a : PoolAllocator) (x : ℕ) (xs : List ℕ) → IsPool a (x ∷ xs) → released (taken a x) x ≡ a
released-taken a x xs p = λ i. record {
  buffer = a.buffer;
  free_list = rewritten a.free_list x detached_idx i;
  buffer_size = a.buffer_size;
  size = resized a.size (length xs) p.size i;
  size_max = a.size_max;
  item_size = a.item_size;
  first_idx = sym p.chain.0 i;
}

-- On a pool whose free list is well formed and not empty, `PoolAllocator_getBlock` hands out the
-- first free block, and `PoolAllocator_releaseBlock` takes it back and leaves the pool as it was
-- before both.
pub release_block-get_block :
    (a : PoolAllocator) (x : ℕ) (xs : List ℕ)
    → IsPool a (x ∷ xs)
    → (get_block a ≡ ok (address a x, taken a x))
      × (release_block (taken a x) (address a x) ≡ ok (success, a))
unfolding get_block
release_block-get_block a x xs p = (ground arith, back)
  where
    refused : leb a.size_max x ≡ false
    refused = ground arith

    back : release_block (taken a x) (address a x) ≡ ok (success, a)
    back =
        ap (release_block (taken a x)) (sym (add-zero (address a x)))
        ∙ release_block-has (taken a x) xs x 0 (taken-IsPool a x xs p) p.item_size_pos
            (offset-small a (x ∷ xs) x p p.below.0)
        ∙ rw (p.distinct.0, refused) (ap (λ b. ok (success, b)) (released-taken a x xs p))
