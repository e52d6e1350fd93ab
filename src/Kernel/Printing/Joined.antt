-- ===== src/Kernel/Printing/Joined.antt =====
-- What the functions that print lists print: one entry for each item, in the order of the list.
use disastr_os_semaphores.Base.{
  ℕ, zero, suc, ◌≡◌, ◌≢◌, refl, List, [], ◌∷◌, ◌++◌, append-nil, arith, ==_ne, ok, length, head_or,
  All, ◌<◌,
}
use disastr_os_semaphores.LinkedList.{null}
use disastr_os_semaphores.LinkedList.Chain.{Chain, IsList}
use disastr_os_semaphores.Kernel.{System}
use disastr_os_semaphores.Kernel.Cmd.{Table, ListRef, rounds}
use disastr_os_semaphores.Kernel.Printing.{Piece, Printer, print_items, print_list}

-- The entries of a list, with `between` behind each but the last and `after` behind each.
abbrev pub joined : (ℕ → List Piece) → (between after : List Piece) → List ℕ → List Piece
joined shown between after [] = []
joined shown between after (x ∷ []) = shown x ++ after
joined shown between after (x ∷ y ∷ xs) =
    shown x ++ (between ++ (after ++ joined shown between after (y ∷ xs)))

module _ {T : Type 0} (t : Table T) (entry : ℕ → Printer) (shown : ℕ → List Piece)
    (between after : List Piece) (s : System) where
  print_items-joined :
      (p : ℕ) (xs : List ℕ) (fuel : ℕ)
      → Chain (t.store s).links p xs null
      → All (λ x. entry x s ≡ ok (shown x)) xs
      → length xs < fuel
      → print_items t entry between after fuel (head_or xs null) s
        ≡ ok (joined shown between after xs)
  unfolding print_items
  print_items-joined p xs zero c prints enough = absurd (omega arith)
  print_items-joined p [] (suc fuel) c prints enough = refl
  print_items-joined p (x ∷ []) (suc fuel) c prints enough =
      rw
        (
          ==_ne x null c.0,
          prints.0,
          ==_ne x null c.0,
          c.1,
          print_items-joined x [] fuel c.2 tt (omega arith),
          append-nil after,
        )
        refl
  print_items-joined p (x ∷ y ∷ xs) (suc fuel) c prints enough =
      rw
        (
          ==_ne x null c.0,
          prints.0,
          ==_ne x null c.0,
          c.1,
          ==_ne y null c.2.0,
          print_items-joined x (y ∷ xs) fuel c.2 prints.1 (omega arith),
        )
        refl

  -- A function that prints a list ends, and prints the entries of the items between the brackets.
  pub print_list-joined :
      (l : ListRef) (opening closing : List Piece) (xs : List ℕ)
      → l.owner ≢ null
      → l.links s ≡ (t.store s).links
      → IsList (l.links s) (l.head s) xs
      → All (λ x. entry x s ≡ ok (shown x)) xs
      → print_list t l opening entry between after closing s
        ≡ ok (opening ++ (joined shown between after xs ++ closing))
  unfolding print_list
  print_list-joined l opening closing xs owned shared is prints =
      let enough : length xs < rounds (l.head s) = ground (arith, is.size) in
      let chain : Chain (t.store s).links null xs null = rw shared at is.chain in
      rw (==_ne l.owner null owned, is.first, print_items-joined null xs _ chain prints enough) refl
