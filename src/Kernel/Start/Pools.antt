-- ===== src/Kernel/Start/Pools.antt =====
-- The pools that the `_init` functions make.
use native.Mathlib.Nat.{mul-le-mul_right}
use disastr_os_semaphores.Base.{
  ℕ, zero, suc, ◌+◌, ◌*◌, ◌^◌, ◌≤◌, ◌<◌, ◌≡◌, refl, ap, false, List, ◌∷◌, arith, length, ok,
}
use disastr_os_semaphores.Base.Int.{pos, ltb_ℤ}
use disastr_os_semaphores.PoolAllocator.{PoolAllocator, sizeof_int, to_int}
use disastr_os_semaphores.PoolAllocator.Narrow.{to_int-small}
use disastr_os_semaphores.PoolAllocator.FreeList.{IsPool, range, length-range}
use disastr_os_semaphores.PoolAllocator.Blocks.{initial, initial-IsPool, init-initial}
use disastr_os_semaphores.Kernel.{System}
use disastr_os_semaphores.Kernel.Cmd.{Table, pool_init}
use disastr_os_semaphores.Kernel.Start.{Buffer, init_pool}

-- A buffer for `capacity` blocks, whose size in bytes is an `int`.
pub record IsFit (b : Buffer) (capacity : ℕ) : Type 0 where
  pub sizeof_pos : 0 < b.sizeof
  pub small : capacity * (b.sizeof + sizeof_int) < 2 ^ 31

-- A pool over the buffer, all of whose `num` blocks are free.
pub record IsReady (p : PoolAllocator) (b : Buffer) (num : ℕ) : Type 0 where
  pub free : List ℕ
  pub pool : IsPool p (0 ∷ free)
  pub count : length (0 ∷ free) ≡ num
  pub buffer : p.buffer ≡ b.address
  pub item_size : p.item_size ≡ b.sizeof
  pub size_max : p.size_max ≡ num

-- The memory is as large as the pool asks for.
fits :
    (n capacity w : ℕ)
    → suc n ≤ capacity
    → capacity * w < 2 ^ 31
    → ltb_ℤ (to_int (capacity * w)) (pos (suc n * w)) ≡ false
fits n capacity w enough small =
    let le : suc n * w ≤ capacity * w = mul-le-mul_right w enough in
    rw (to_int-small (capacity * w) small) (ground (arith, le))

module _ {T : Type 0} (t : Table T) (b : Buffer) (capacity : ℕ) (s : System)
    (fit : IsFit b capacity) where
  init_pool-suc :
      (n : ℕ)
      → suc n ≤ capacity
      → (p : PoolAllocator) × (init_pool t b (suc n) capacity s
          ≡ ok (tt, t.with_store (record (t.store s) { pool = p }) s))
        × IsReady p b (suc n)
  unfolding init_pool pool_init
  init_pool-suc n enough =
      let le = mul-le-mul_right (b.sizeof + sizeof_int) enough in
      let small : suc n * (b.sizeof + sizeof_int) < 2 ^ 31 = omega (arith, le, fit.small) in
      let p = initial b.sizeof n b.address (t.store s).pool in
      let e =
        init-initial b.sizeof n b.address (to_int (capacity * (b.sizeof + sizeof_int)))
          (t.store s).pool small (fits n capacity (b.sizeof + sizeof_int) enough fit.small) in
      (
        p,
        rw e refl,
        record {
          free = range 1 n;
          pool = initial-IsPool b.sizeof n b.address (t.store s).pool fit.sizeof_pos small;
          count = ap suc (length-range 1 n);
          buffer = refl;
          item_size = refl;
          size_max = refl;
        },
      )

  -- Where a static buffer is declared for `capacity` blocks, which are not of size 0, and its size in
  -- bytes is below 2 ^ 31, an `_init` function that makes a pool of `num` blocks over it, at least
  -- one and at most `capacity`, passes its `assert`: the pool is over the buffer, well formed, and has
  -- `num` blocks, all of them free.
  pub init_pool-IsReady :
      (num : ℕ)
      → 0 < num
      → num ≤ capacity
      → (p : PoolAllocator) × (init_pool t b num capacity s
          ≡ ok (tt, t.with_store (record (t.store s) { pool = p }) s))
        × IsReady p b num
  init_pool-IsReady zero some enough = absurd (omega arith)
  init_pool-IsReady (suc n) some enough = init_pool-suc n enough
