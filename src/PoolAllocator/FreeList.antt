-- ===== src/PoolAllocator/FreeList.antt =====
-- The free list of a pool of pool_allocator.c: the indices that it runs through, in order.
use disastr_os_semaphores.Base.{
  ℕ, zero, suc, ◌+◌, ◌*◌, ◌^◌, ◌<◌, ◌≡◌, refl, ap, true, false, List, [], ◌∷◌, arith, ◌==◌, ==_self,
  length, has, IsDistinct,
}
use disastr_os_semaphores.Base.Int.{ℤ, pos}
use disastr_os_semaphores.PoolAllocator.{PoolAllocator, null_idx, detached_idx, write, populate}

-- From `first` the entries lead through the indices `xs` to the mark of the end.
abbrev pub FreeChain : (ℕ → ℤ) → ℤ → List ℕ → Type 0
FreeChain f first [] = first ≡ null_idx
FreeChain f first (x ∷ xs) = (first ≡ pos x) × FreeChain f (f x) xs

abbrev pub AllBelow : ℕ → List ℕ → Type 0
AllBelow n [] = Unit
AllBelow n (x ∷ xs) = (x < n) × AllBelow n xs

-- The free blocks of the pool are those at the indices `xs`, and the first is the next to be
-- handed out; every other block is marked as detached. The size of all blocks in bytes is an `int`.
pub record IsPool (a : PoolAllocator) (xs : List ℕ) : Type 0 where
  pub chain : FreeChain a.free_list a.first_idx xs
  pub distinct : IsDistinct xs
  pub below : AllBelow a.size_max xs
  pub size : a.size ≡ pos (length xs)
  pub detached : (i : ℕ) → i < a.size_max → has i xs ≡ false → a.free_list i ≡ detached_idx
  pub item_size_pos : 0 < a.item_size
  pub small : a.size_max * a.item_size < 2 ^ 31

pub FreeChain-write :
    (f : ℕ → ℤ) (first : ℤ) (xs : List ℕ) (i : ℕ) (v : ℤ)
    → FreeChain f first xs
    → has i xs ≡ false
    → FreeChain (write f i v) first xs
FreeChain-write f first [] i v c out = c
FreeChain-write f first (x ∷ xs) i v c out =
    let e : (x == i) ≡ false = ground arith in
    (c.0, rw e (FreeChain-write f (f x) xs i v c.1 (ground arith)))

pub below_of_has : (n i : ℕ) (xs : List ℕ) → AllBelow n xs → has i xs ≡ true → i < n
below_of_has n i [] b m = absurd (cc)
below_of_has n i (x ∷ xs) b m = ground (arith, below_of_has n i xs b.1)

-- `start`, `start + 1`, …: `n` indices.
abbrev pub range : ℕ → ℕ → List ℕ
range start zero = []
range start (suc n) = start ∷ range (suc start) n

pub has-range : (i start n : ℕ) → has i (range start n) ≡ true → start < suc i
has-range i start zero m = absurd (cc)
has-range i start (suc n) m = ground (arith, has-range i (suc start) n)

pub not-has-range : (i start n : ℕ) → i < start → has i (range start n) ≡ false
not-has-range i start zero h = refl
not-has-range i start (suc n) h = ground (arith, not-has-range i (suc start) n)

pub has-range_of_bounds :
    (i start n : ℕ) → start < suc i → i < start + n → has i (range start n) ≡ true
has-range_of_bounds i start zero h k = absurd (omega arith)
has-range_of_bounds i start (suc n) h k = ground (arith, has-range_of_bounds i (suc start) n)

pub IsDistinct-range : (start n : ℕ) → IsDistinct (range start n)
IsDistinct-range start zero = tt
IsDistinct-range start (suc n) =
    (not-has-range start (suc start) n (omega arith), IsDistinct-range (suc start) n)

pub AllBelow-range : (start n m : ℕ) → start + n < suc m → AllBelow m (range start n)
AllBelow-range start zero m h = tt
AllBelow-range start (suc n) m h = (omega arith, AllBelow-range (suc start) n m (omega arith))

pub length-range : (start n : ℕ) → length (range start n) ≡ n
length-range start zero = refl
length-range start (suc n) = ap suc (length-range (suc start) n)

-- The loop leaves the entries below its first index alone.
populate-below : (rounds i j : ℕ) (f : ℕ → ℤ) → j < i → populate rounds i f j ≡ f j
unfolding populate
populate-below zero i j f h = refl
populate-below (suc rounds) i j f h =
    ground (arith, populate-below rounds (suc i) j (write f i (pos (suc i))))

-- Where entry `i` to `i + rounds - 1` point to their successors, the last one ends the chain.
pub populate-FreeChain :
    (rounds i : ℕ) (f : ℕ → ℤ) (last : ℕ)
    → last ≡ i + rounds
    → FreeChain (write (populate rounds i f) last null_idx) (pos i) (range i (suc rounds))
unfolding populate
populate-FreeChain zero i f last e = (refl, ground arith)
populate-FreeChain (suc rounds) i f last e =
    let f' = write f i (pos (suc i)) in
    let rest = populate-FreeChain rounds (suc i) f' last (omega arith) in
    let ne : (i == last) ≡ false = ground arith in
    (refl, (rw (ne, populate-below rounds (suc i) i f' (omega arith), ==_self), rest.1))
