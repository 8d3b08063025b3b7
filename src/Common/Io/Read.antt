-- ===== src/Common/Io/Read.antt =====
-- `safe_read` of Part2/src/common/io.c, however the kernel cuts the input into pieces.
use so.Base.{
  ℕ, zero, suc, ◌+◌, ◌-◌, ◌≤◌, ◌<◌, ◌≡◌, Option, none, some, List, [], ◌∷◌, ◌++◌, ◌==◌, refl, sym,
  ap, ◌∙◌, arith, length, length-append, ◌⊎◌, inl, inr, Bool-cases, subst, false,
}
use mathlib.Core.List.{append_assoc}
use so.Base.Nodes.{Run, ok}
use so.Common.Kernel.{Reader, IsReader}
use so.Common.Io.{read_loop, safe_read}

pub read_outcome :
    (r : Option (List ℕ))
    → (r ≡ none) ⊎ ((r ≡ some []) ⊎ ((b : ℕ) × (bs : List ℕ) × (r ≡ some (b ∷ bs))))
read_outcome none = inl refl
read_outcome (some []) = inr (inl refl)
read_outcome (some (b ∷ bs)) = inr (inr (b, bs, refl))

positive : (n : ℕ) → (n == 0) ≡ false → 0 < n
positive n h = ground arith

module _ (k : Reader) (lawful : IsReader k) where
  -- What a run gives that asked for `n` bytes of the input `input`: an error, or the next bytes,
  -- fewer than `n` only at the end of the input.
  abbrev pub Reads : List ℕ → ℕ → Run (Option (List ℕ) × k.Fd) → Type 0
  Reads input n run =
      (fd : k.Fd) × ((run ≡ ok (none, fd))
        ⊎ ((xs : List ℕ) × (run ≡ ok (some xs, fd))
            × (input ≡ xs ++ lawful.left fd)
            × (length xs ≤ n)
            × ((length xs ≡ n) ⊎ (lawful.left fd ≡ []))))

  Reads-move :
      (input input' : List ℕ) (n n' : ℕ) (run : Run (Option (List ℕ) × k.Fd))
      → input ≡ input'
      → n ≡ n'
      → Reads input n run
      → Reads input' n' run
  Reads-move input input' n n' run e e' r =
      subst (λ l. Reads l n' run) e (subst (λ m. Reads input m run) e' r)

  read_loop-Reads :
      (fuel : ℕ) (done : List ℕ) (n : ℕ) (fd : k.Fd)
      → n < fuel
      → Reads (done ++ lawful.left fd) (length done + n) (read_loop k fuel done n fd)
  unfolding read_loop
  read_loop-Reads zero done n fd h = absurd (omega arith)
  read_loop-Reads (suc f) done n fd h = elim (Bool-cases (n == 0)) [
    | inl full ↦ (fd, inr (done, rw full refl, refl, omega arith, inl (ground arith)))
    | inr more ↦ elim (read_outcome (k.read n fd).0) [
      | inl failed ↦ ((k.read n fd).1, inl (rw (more, failed) refl))
      | inr (inl eof) ↦
          let before = lawful.at_end n fd eof (positive n more) in
          let after = sym (lawful.got n fd [] eof).0 ∙ before in
          (
            (k.read n fd).1,
            inr (
              done,
              rw (more, eof) refl,
              ap (λ l. done ++ l) (before ∙ sym after),
              omega arith,
              inr after,
            ),
          )
      | inr (inr (b, bs, e)) ↦
          let law = lawful.got n fd (b ∷ bs) e in
          let rest =
            read_loop-Reads f (done ++ b ∷ bs) (n - length (b ∷ bs)) (k.read n fd).1
              (omega arith) in
          let input : (done ++ b ∷ bs) ++ lawful.left (k.read n fd).1 ≡ done ++ lawful.left fd =
            append_assoc done (b ∷ bs) (lawful.left (k.read n fd).1)
            ∙ ap (λ l. done ++ l) (sym law.0) in
          let bound : length (done ++ b ∷ bs) + (n - length (b ∷ bs)) ≡ length done + n =
            omega (arith, length-append done (b ∷ bs), law.1) in
          rw (more, e) (Reads-move _ _ _ _ _ input bound rest)
    ]
  ]

  -- A read that is given fuel for a round for each byte and one more ends. It reports an error, or
  -- it returns the next bytes of the input in order, at most as many as were asked for, and fewer
  -- only when the input is at its end.
  pub safe_read-Reads :
      (fuel n : ℕ) (fd : k.Fd) → n < fuel → Reads (lawful.left fd) n (safe_read k fuel n fd)
  unfolding safe_read
  safe_read-Reads fuel n fd h =
      Reads-move _ _ _ _ (read_loop k fuel [] n fd) refl (omega arith)
        (read_loop-Reads fuel [] n fd h)
