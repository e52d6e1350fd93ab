-- ===== src/Base/Lists.antt =====
-- Lists measured by native numbers, and lists of addresses: membership as a Boolean, no
-- repetition, the first and the last address.
use disastr_os_semaphores.Base.Tests.{Bool-cases, ==_iff, ◌==◌}
use Prim.Native.Nat.{ℕ, zero, suc, ◌+◌}
use mathlib.Core.Logic.{inl, inr}
use mathlib.Core.Path.{◌≡◌, refl, sym, ap}
use mathlib.Core.Bool.{Bool, true, false, ◌||◌}
use mathlib.Core.List.{List, [], ◌∷◌, ◌++◌, map}
use mathlib.Core.Option.{Option, none, some}
use native.Mathlib.Omega.{arith}

module _ {ℓ} {A : Type ℓ} where
  abbrev pub length : List A → ℕ
  length [] = 0
  length (x ∷ xs) = suc (length xs)

  abbrev pub get_elem? : List A → ℕ → Option A
  get_elem? [] i = none
  get_elem? (x ∷ xs) zero = some x
  get_elem? (x ∷ xs) (suc i) = get_elem? xs i

  -- A write out of bounds changes nothing.
  abbrev pub set : List A → ℕ → A → List A
  set [] i v = []
  set (x ∷ xs) zero v = v ∷ xs
  set (x ∷ xs) (suc i) v = x ∷ set xs i v

  pub length-append : (xs ys : List A) → length (xs ++ ys) ≡ length xs + length ys
  length-append [] ys = omega arith
  length-append (x ∷ xs) ys = omega (arith, length-append xs ys)

pub length-map : {A B : Type 0} (f : A → B) (xs : List A) → length (map f xs) ≡ length xs
length-map f [] = refl
length-map f (x ∷ xs) = ap suc (length-map f xs)

abbrev pub All {ℓ κ} : {A : Type ℓ} → (A → Type κ) → List A → Type κ
All P [] = Unit
All P (x ∷ xs) = P x × All P xs

-- Whether an address is in the list.
abbrev pub has : ℕ → List ℕ → Bool
has a [] = false
has a (x ∷ xs) = (a == x) || has a xs

-- No address is there twice.
abbrev pub IsDistinct : List ℕ → Type 0
IsDistinct [] = Unit
IsDistinct (x ∷ xs) = (has x xs ≡ false) × IsDistinct xs

-- No address is in both lists.
abbrev pub Disjoint : List ℕ → List ℕ → Type 0
Disjoint [] ys = Unit
Disjoint (x ∷ xs) ys = (has x ys ≡ false) × Disjoint xs ys

-- The first address, or `d` if there is none.
abbrev pub head_or : List ℕ → ℕ → ℕ
head_or [] d = d
head_or (x ∷ xs) d = x

-- The last address, or `d` if there is none.
abbrev pub last_or : ℕ → List ℕ → ℕ
last_or d [] = d
last_or d (x ∷ xs) = last_or x xs

pub has-append : (a : ℕ) (xs ys : List ℕ) → has a (xs ++ ys) ≡ (has a xs || has a ys)
has-append a [] ys = refl
has-append a (x ∷ xs) ys = ground (arith, has-append a xs ys)

pub IsDistinct-append :
    (xs ys : List ℕ) → IsDistinct xs → IsDistinct ys → Disjoint xs ys → IsDistinct (xs ++ ys)
IsDistinct-append [] ys d e f = e
IsDistinct-append (x ∷ xs) ys d e f =
    (ground (arith, has-append x xs ys), IsDistinct-append xs ys d.1 e f.1)

-- The parts of a list with no repetition.
pub IsDistinct-parts :
    (xs ys : List ℕ) → IsDistinct (xs ++ ys) → IsDistinct xs × IsDistinct ys × Disjoint xs ys
IsDistinct-parts [] ys d = (tt, d, tt)
IsDistinct-parts (x ∷ xs) ys d =
    let rest = IsDistinct-parts xs ys d.1 in
    (
      (ground (arith, has-append x xs ys), rest.0),
      rest.1,
      (ground (arith, has-append x xs ys), rest.2),
    )

pub not-has_of_Disjoint :
    (a : ℕ) (xs ys : List ℕ) → Disjoint xs ys → has a xs ≡ true → has a ys ≡ false
not-has_of_Disjoint a [] ys d h = ground arith
not-has_of_Disjoint a (x ∷ xs) ys d h = ground (arith, not-has_of_Disjoint a xs ys d.1)

pub Disjoint-cons :
    (x : ℕ) (xs ys : List ℕ) → Disjoint xs ys → has x xs ≡ false → Disjoint xs (x ∷ ys)
Disjoint-cons x [] ys d h = tt
Disjoint-cons x (y ∷ xs) ys d h = (ground arith, Disjoint-cons x xs ys d.1 (ground arith))

pub Disjoint-tail : (x : ℕ) (xs ys : List ℕ) → Disjoint xs (x ∷ ys) → Disjoint xs ys
Disjoint-tail x [] ys d = tt
Disjoint-tail x (y ∷ xs) ys d = (ground arith, Disjoint-tail x xs ys d.1)

pub last_or-append : (d : ℕ) (xs ys : List ℕ) → last_or d (xs ++ ys) ≡ last_or (last_or d xs) ys
last_or-append d [] ys = refl
last_or-append d (x ∷ xs) ys = last_or-append x xs ys

pub head_or-append : (xs ys : List ℕ) (d : ℕ) → head_or (xs ++ ys) d ≡ head_or xs (head_or ys d)
head_or-append [] ys d = refl
head_or-append (x ∷ xs) ys d = refl

pub not-has_of_Disjoint-cons : (x : ℕ) (xs ys : List ℕ) → Disjoint xs (x ∷ ys) → has x xs ≡ false
not-has_of_Disjoint-cons x [] ys d = refl
not-has_of_Disjoint-cons x (z ∷ xs) ys d = ground (arith, not-has_of_Disjoint-cons x xs ys d.1)

-- An element of a list has a part of the list in front of it and one behind it.
pub split_of_has :
    (x : ℕ) (xs : List ℕ) → has x xs ≡ true → (ys : List ℕ) × (zs : List ℕ) × (xs ≡ ys ++ x ∷ zs)
split_of_has x [] m = absurd (cc)
split_of_has x (y ∷ xs) m = elim (Bool-cases (x == y)) [
  | inl e ↦ ([], xs, ap (λ a. a ∷ xs) (sym ((==_iff x y).0 e)))
  | inr e ↦ let (ys, zs, q) = split_of_has x xs (rw e at m) in (y ∷ ys, zs, ap (λ l. y ∷ l) q)
]
