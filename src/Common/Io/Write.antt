-- ===== src/Common/Io/Write.antt =====
-- `safe_write` of Part2/src/common/io.c, however many bytes the kernel takes in a round.
use so.Base.{
  ℕ, zero, suc, ◌+◌, ◌≤◌, ◌<◌, ◌≡◌, Option, none, some, List, ◌++◌, ◌==◌, refl, sym, ap, ◌∙◌, arith,
  length, take, drop, length-drop, take-add, ◌⊎◌, inl, inr, Bool-cases,
}
use mathlib.Core.List.{append_assoc, append-nil}
use so.Base.Nodes.{Run, ok}
use so.Common.Kernel.{Writer, IsWriter}
use so.Common.Io.{write_loop, safe_write}

write_outcome : (r : Option ℕ) → (r ≡ none) ⊎ ((r ≡ some 0) ⊎ ((n : ℕ) × (r ≡ some (suc n))))
write_outcome none = inl refl
write_outcome (some zero) = inr (inl refl)
write_outcome (some (suc n)) = inr (inr (n, refl))

module _ (k : Writer) (lawful : IsWriter k) where
  -- What a run gives that has `buf` to write after `before` was sent and `c` bytes were counted: an
  -- error, or the count of a first part of `buf` that was sent.
  abbrev pub Writes : List ℕ → ℕ → List ℕ → Run (Option ℕ × k.Fd) → Type 0
  Writes before c buf run =
      (fd : k.Fd) × ((run ≡ ok (none, fd))
        ⊎ ((m : ℕ) × (run ≡ ok (some (c + m), fd))
            × (m ≤ length buf)
            × (lawful.sent fd ≡ before ++ take m buf)))

  -- A round that sent `n` bytes, and the rounds that follow it.
  Writes-round :
      (before after : List ℕ) (c n : ℕ) (buf : List ℕ) (run : Run (Option ℕ × k.Fd))
      → n ≤ length buf
      → after ≡ before ++ take n buf
      → Writes after (c + n) (drop n buf) run
      → Writes before c buf run
  Writes-round before after c n buf run h e (fd, inl failed) = (fd, inl failed)
  Writes-round before after c n buf run h e (fd, inr (m, done, bound, sent)) =
      let count : (c + n) + m ≡ c + (n + m) = omega arith in
      (
        fd,
        inr (
          n + m,
          done ∙ ap (λ i. ok (some i, fd)) count,
          omega (arith, length-drop n buf),
          sent
              ∙ ap (λ l. l ++ take m (drop n buf)) e
              ∙ append_assoc before (take n buf) (take m (drop n buf))
              ∙ ap (λ l. before ++ l) (take-add n m buf),
        ),
      )

  Writes-stop :
      (c : ℕ) (buf : List ℕ) (fd : k.Fd) (run : Run (Option ℕ × k.Fd)) (before : List ℕ)
      → run ≡ ok (some c, fd)
      → lawful.sent fd ≡ before
      → Writes before c buf run
  Writes-stop c buf fd run before done e =
      let count : c ≡ c + 0 = omega arith in
      (
        fd,
        inr (0, done ∙ ap (λ i. ok (some i, fd)) count, omega arith, e ∙ sym (append-nil before)),
      )

  write_loop-Writes :
      (fuel c : ℕ) (buf : List ℕ) (fd : k.Fd)
      → length buf < fuel
      → Writes (lawful.sent fd) c buf (write_loop k fuel c buf fd)
  unfolding write_loop
  write_loop-Writes zero c buf fd h = absurd (omega arith)
  write_loop-Writes (suc f) c buf fd h = elim (Bool-cases (length buf == 0)) [
    | inl empty ↦ Writes-stop c buf fd _ _ (rw empty refl) refl
    | inr more ↦ elim (write_outcome (k.write buf fd).0) [
      | inl failed ↦ ((k.write buf fd).1, inl (rw (more, failed) refl))
      | inr (inl stuck) ↦
          Writes-stop c buf (k.write buf fd).1 _ _ (rw (more, stuck) refl)
            ((lawful.took buf fd 0 stuck).1 ∙ append-nil (lawful.sent fd))
      | inr (inr (n, e)) ↦
          let law = lawful.took buf fd (suc n) e in
          let rest =
            write_loop-Writes f (c + suc n) (drop (suc n) buf) (k.write buf fd).1
              (omega (arith, length-drop (suc n) buf, law.0, h)) in
          rw (more, e)
            (Writes-round (lawful.sent fd) (lawful.sent (k.write buf fd).1) c (suc n) buf _ law.0
              law.1 rest)
    ]
  ]

  -- A write that is given fuel for a round for each byte and one more ends. It reports an error, or
  -- it returns a count of bytes, at most all of the buffer's, and the file descriptor has taken
  -- exactly that many first bytes of the buffer after what it had before.
  pub safe_write-Writes :
      (fuel : ℕ) (buf : List ℕ) (fd : k.Fd)
      → length buf < fuel
      → Writes (lawful.sent fd) 0 buf (safe_write k fuel buf fd)
  unfolding safe_write
  safe_write-Writes fuel buf fd h = write_loop-Writes fuel 0 buf fd h
