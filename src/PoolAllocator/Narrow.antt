-- ===== src/PoolAllocator/Narrow.antt =====
-- The conversions to `int` of pool_allocator.c keep a value that an `int` holds.
use native.Mathlib.Nat.{mod-eq_of_lt}
use disastr_os_semaphores.Base.{ℕ, ◌-◌, ◌%◌, ◌^◌, ◌<◌, ◌≡◌, refl, arith, lt→ltb}
use disastr_os_semaphores.Base.Int.{pos, negsuc}
use disastr_os_semaphores.PoolAllocator.{to_int, narrow}

pub to_int-small : (n : ℕ) → n < 2 ^ 31 → to_int n ≡ pos n
to_int-small n small =
    let e : n % 2 ^ 32 ≡ n = mod-eq_of_lt (omega arith) in
    let t = lt→ltb n (2 ^ 31) small in rw (e, t) refl

pub narrow-pos : (n : ℕ) → n < 2 ^ 31 → narrow (pos n) ≡ pos n
unfolding narrow
narrow-pos n small = to_int-small n small

pub narrow-negsuc : (n : ℕ) → n < 2 ^ 31 → narrow (negsuc n) ≡ negsuc n
unfolding narrow
narrow-negsuc n small =
    let e : n % 2 ^ 32 ≡ n = mod-eq_of_lt (omega arith) in
    let m : (2 ^ 32 - 1 - n) % 2 ^ 32 ≡ 2 ^ 32 - 1 - n = mod-eq_of_lt (omega arith) in
    rw (e, m) (ground arith)
