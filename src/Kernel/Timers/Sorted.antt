-- ===== src/Kernel/Timers/Sorted.antt =====
-- The place that `TimerList_add` of disastrOS_timer.c finds for a new timer.
use disastr_os_semaphores.Base.{
  ℕ, zero, suc, ◌<◌, ◌≡◌, refl, ap, Bool-cases, inl, inr, true, false, List, [], ◌∷◌, ◌++◌, arith,
  if◌then◌else◌, has, length, head_or, last_or, ok, ==_ne,
}
use disastr_os_semaphores.Base.Int.{ℤ, ltb_ℤ, leb_ℤ}
use disastr_os_semaphores.LinkedList.{Links, null}
use disastr_os_semaphores.LinkedList.Chain.{Chain}
use disastr_os_semaphores.Kernel.{TimerItem}
use disastr_os_semaphores.Kernel.Timers.{add_scan}

-- The timers in front of the first that wakes later than `t`, and those from it on.
abbrev pub early : (ℕ → ℤ) → ℤ → List ℕ → List ℕ
early w t [] = []
early w t (x ∷ xs) = if ltb_ℤ t (w x) then [] else x ∷ early w t xs

abbrev pub late : (ℕ → ℤ) → ℤ → List ℕ → List ℕ
late w t [] = []
late w t (x ∷ xs) = if ltb_ℤ t (w x) then x ∷ xs else late w t xs

-- No timer of the list wakes before `t`.
abbrev pub NoneBefore : (ℕ → ℤ) → ℤ → List ℕ → Type 0
NoneBefore w t [] = Unit
NoneBefore w t (x ∷ xs) = (leb_ℤ t (w x) ≡ true) × NoneBefore w t xs

-- The timers stand by the time at which they wake.
abbrev pub IsSorted : (ℕ → ℤ) → List ℕ → Type 0
IsSorted w [] = Unit
IsSorted w (x ∷ xs) = NoneBefore w (w x) xs × IsSorted w xs

pub early-late : (w : ℕ → ℤ) (t : ℤ) (xs : List ℕ) → early w t xs ++ late w t xs ≡ xs
early-late w t [] = refl
early-late w t (x ∷ xs) = elim (Bool-cases (ltb_ℤ t (w x))) [
  | inl e ↦ rw e refl
  | inr e ↦ rw e (ap (λ l. x ∷ l) (early-late w t xs))
]

leb_of_ltb : (a b : ℤ) → ltb_ℤ a b ≡ true → leb_ℤ a b ≡ true
leb_of_ltb a b h = ground arith

leb_of_not-ltb : (a b : ℤ) → ltb_ℤ a b ≡ false → leb_ℤ b a ≡ true
leb_of_not-ltb a b h = ground arith

leb_trans : (a b c : ℤ) → leb_ℤ a b ≡ true → leb_ℤ b c ≡ true → leb_ℤ a c ≡ true
leb_trans a b c h k = ground arith

NoneBefore-leb :
    (w : ℕ → ℤ) (a b : ℤ) (xs : List ℕ) → leb_ℤ a b ≡ true → NoneBefore w b xs → NoneBefore w a xs
NoneBefore-leb w a b [] h n = tt
NoneBefore-leb w a b (x ∷ xs) h n = (leb_trans a b (w x) h n.0, NoneBefore-leb w a b xs h n.1)

NoneBefore-insert :
    (w : ℕ → ℤ) (a t : ℤ) (xs : List ℕ) (item : ℕ)
    → NoneBefore w a xs
    → leb_ℤ a (w item) ≡ true
    → NoneBefore w a (early w t xs ++ item ∷ late w t xs)
NoneBefore-insert w a t [] item n h = (h, tt)
NoneBefore-insert w a t (x ∷ xs) item n h = elim (Bool-cases (ltb_ℤ t (w x))) [
  | inl e ↦ rw e (h, n)
  | inr e ↦ rw e (n.0, NoneBefore-insert w a t xs item n.1 h)
]

-- A timer put in that place keeps the order.
pub IsSorted-insert :
    (w : ℕ → ℤ) (xs : List ℕ) (item : ℕ)
    → IsSorted w xs
    → IsSorted w (early w (w item) xs ++ item ∷ late w (w item) xs)
IsSorted-insert w [] item s = (tt, tt)
IsSorted-insert w (x ∷ xs) item s = elim (Bool-cases (ltb_ℤ (w item) (w x))) [
  | inl e ↦
      let h = leb_of_ltb (w item) (w x) e in rw e ((h, NoneBefore-leb w (w item) (w x) xs h s.0), s)
  | inr e ↦ rw e (
    NoneBefore-insert w (w x) (w item) xs item s.0 (leb_of_not-ltb (w item) (w x) e),
    IsSorted-insert w xs item s.1,
  )
]

-- A change of the times that spares the timers of the list.
abbrev pub SameTimes : (w w' : ℕ → ℤ) → List ℕ → Type 0
SameTimes w w' xs = (a : ℕ) → has a xs ≡ true → w' a ≡ w a

NoneBefore-frame :
    (w w' : ℕ → ℤ) (t : ℤ) (xs : List ℕ)
    → SameTimes w w' xs
    → NoneBefore w t xs
    → NoneBefore w' t xs
NoneBefore-frame w w' t [] same n = tt
NoneBefore-frame w w' t (x ∷ xs) same n =
    (rw (same x (ground arith)) n.0, NoneBefore-frame w w' t xs (λ a m. same a (ground arith)) n.1)

pub early-frame :
    (w w' : ℕ → ℤ) (t : ℤ) (xs : List ℕ) → SameTimes w w' xs → early w' t xs ≡ early w t xs
early-frame w w' t [] same = refl
early-frame w w' t (x ∷ xs) same =
    rw (same x (ground arith), early-frame w w' t xs (λ a m. same a (ground arith))) refl

pub late-frame :
    (w w' : ℕ → ℤ) (t : ℤ) (xs : List ℕ) → SameTimes w w' xs → late w' t xs ≡ late w t xs
late-frame w w' t [] same = refl
late-frame w w' t (x ∷ xs) same =
    rw (same x (ground arith), late-frame w w' t xs (λ a m. same a (ground arith))) refl

pub IsSorted-frame :
    (w w' : ℕ → ℤ) (xs : List ℕ) → SameTimes w w' xs → IsSorted w xs → IsSorted w' xs
IsSorted-frame w w' [] same s = tt
IsSorted-frame w w' (x ∷ xs) same s = (
  rw (same x (ground arith)) (NoneBefore-frame w w' (w x) xs (λ a m. same a (ground arith)) s.0),
  IsSorted-frame w w' xs (λ a m. same a (ground arith)) s.1,
)

-- The scan ends, and finds the last of the timers in front of the place.
pub add_scan_lem :
    (l : Links) (items : ℕ → TimerItem) (t : ℤ) (fuel : ℕ) (xs : List ℕ) (p previous : ℕ)
    → Chain l p xs null
    → length xs < fuel
    → add_scan l items t fuel (head_or xs null) previous
      ≡ ok (last_or previous (early (λ a. (items a).awakening_time) t xs))
unfolding add_scan
add_scan_lem l items t zero xs p previous c f = absurd (omega arith)
add_scan_lem l items t (suc fuel) [] p previous c f = refl
add_scan_lem l items t (suc fuel) (x ∷ xs) p previous c f =
    elim (Bool-cases (ltb_ℤ t (items x).awakening_time)) [
      | inl e ↦ rw (==_ne x null c.0, e) refl
      | inr e ↦ rw (==_ne x null c.0, e, c.1) (add_scan_lem l items t fuel xs x x c.2 (omega arith))
    ]
