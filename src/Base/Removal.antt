-- ===== src/Base/Removal.antt =====
-- Lists of addresses with some addresses taken out.
use disastr_os_semaphores.Base.Tests.{Bool-cases, ==_iff, ==_self, ◌==◌, if◌then◌else◌}
use disastr_os_semaphores.Base.Lists.{
  has, All, IsDistinct, IsDistinct-parts, not-has_of_Disjoint-cons, split_of_has,
}
use Prim.Native.Nat.{ℕ}
use mathlib.Core.Logic.{inl, inr}
use mathlib.Core.Path.{◌≡◌, refl, ap, ◌∙◌}
use mathlib.Core.Bool.{true, false}
use mathlib.Core.List.{List, [], ◌∷◌, ◌++◌}
use native.Mathlib.Omega.{arith}

-- The list without the first place where the address is.
abbrev pub without : ℕ → List ℕ → List ℕ
without p [] = []
without p (x ∷ xs) = if p == x then xs else x ∷ without p xs

abbrev pub without_all : List ℕ → List ℕ → List ℕ
without_all [] xs = xs
without_all (p ∷ ps) xs = without_all ps (without p xs)

without-append : (p : ℕ) (ys zs : List ℕ) → has p ys ≡ false → without p (ys ++ p ∷ zs) ≡ ys ++ zs
without-append p [] zs out = rw ==_self refl
without-append p (y ∷ ys) zs out =
    let e : (p == y) ≡ false = ground arith in
    rw e (ap (λ l. y ∷ l) (without-append p ys zs (ground arith)))

-- An address of a list without repetition, between what is in front of it and behind it.
pub split_of_without :
    (p : ℕ) (xs : List ℕ)
    → IsDistinct xs
    → has p xs ≡ true
    → (ys : List ℕ) × (zs : List ℕ) × (xs ≡ ys ++ p ∷ zs) × (without p xs ≡ ys ++ zs)
split_of_without p xs d m =
    let (ys, zs, e) = split_of_has p xs m in
    let parts = IsDistinct-parts ys (p ∷ zs) (rw e at d) in
    (
      ys,
      zs,
      e,
      ap (without p) e ∙ without-append p ys zs (not-has_of_Disjoint-cons p ys zs parts.2),
    )

has-without :
    (q p : ℕ) (xs : List ℕ) → (q == p) ≡ false → has q xs ≡ true → has q (without p xs) ≡ true
has-without q p [] ne m = m
has-without q p (x ∷ xs) ne m = elim (Bool-cases (p == x)) [
  | inl e ↦ rw e (let e' : p ≡ x = (==_iff p x).0 e in ground arith)
  | inr e ↦ rw e (ground (arith, has-without q p xs ne))
]

-- The other addresses stay in the list.
pub All-without :
    (p : ℕ) (ps xs : List ℕ)
    → has p ps ≡ false
    → All (λ q. has q xs ≡ true) ps
    → All (λ q. has q (without p xs) ≡ true) ps
All-without p [] xs out a = tt
All-without p (q ∷ ps) xs out a =
    (has-without q p xs (ground arith) a.0, All-without p ps xs (ground arith) a.1)
