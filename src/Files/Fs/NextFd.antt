-- ===== src/Files/Fs/NextFd.antt =====
-- `next_fd` is the LEAST of its definition in fsFFIScript.sml.
use cakeml.Prelude.{
  ℕ, zero, suc, ◌+◌, ◌≤◌, ◌<◌, ◌≡◌, ◌≢◌, refl, sym, ◌∙◌, arith, true, false, Bool-cases, inl, inr,
  List, [], ◌∷◌, length, length-map, map,
}
use native.Mathlib.Decide.{ℕ_discrete}
use cakeml.Files.Fs.{IoFs, has, without, least_unused, next_fd, fd_number}

has-without : (m n : ℕ) (used : List ℕ) → m ≢ n → has m (without n used) ≡ has m used
unfolding has without
has-without m n [] ne = refl
has-without m n (k ∷ used) ne = ground (arith, has-without m n used)

length-without : (n : ℕ) (used : List ℕ) → length (without n used) ≤ length used
unfolding without
length-without n [] = omega arith
length-without n (k ∷ used) = ground (arith, length-without n used)

length-without_of_has :
    (n : ℕ) (used : List ℕ) → has n used ≡ true → length (without n used) < length used
unfolding has without
length-without_of_has n [] h = absurd (cc)
length-without_of_has n (k ∷ used) h =
    ground (arith, length-without_of_has n used, length-without n used)

-- From `n` on: the result is unused, and every number between is used.
pub record IsLeast (n : ℕ) (used : List ℕ) (r : ℕ) : Type 0 where
  pub from : n ≤ r
  pub unused : has r used ≡ false
  pub below : (m : ℕ) → n ≤ m → m < r → has m used ≡ true

least_unused-IsLeast :
    (rounds n : ℕ) (used : List ℕ)
    → length used ≤ rounds
    → IsLeast n used (least_unused rounds n used)
unfolding least_unused
least_unused-IsLeast zero n [] h = record {
  from = omega arith;
  unused = unfold has in refl;
  below = λ m p q. absurd (omega arith);
}
least_unused-IsLeast zero n (m ∷ used) h = absurd (omega arith)
least_unused-IsLeast (suc rounds) n used h = elim (Bool-cases (has n used)) [
  | inl taken ↦
      let shorter = length-without_of_has n used taken in
      let rest = least_unused-IsLeast rounds (n + 1) (without n used) (omega arith) in
      let r = least_unused rounds (n + 1) (without n used) in
      rw taken (record {
        from = omega (arith, rest.from);
        unused = sym (has-without r n used (omega (arith, rest.from))) ∙ rest.unused;
        below = λ m p q. elim (ℕ_discrete m n) [
          | yes e ↦ rw e taken
          | no ne ↦ sym (has-without m n used ne) ∙ rest.below m (omega arith) q
        ];
      })
  | inr free ↦
      rw free (record { from = omega arith; unused = free; below = λ m p q. absurd (omega arith) })
]

-- The number that is given to the next open file is used by none, and all below it are used.
pub next_fd-IsLeast : (fs : IoFs) → IsLeast 0 (map fd_number fs.infds) (next_fd fs)
unfolding next_fd
next_fd-IsLeast fs = least_unused-IsLeast _ 0 _ (rw length-map (omega arith))
