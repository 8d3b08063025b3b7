-- ===== src/Part1/Io.antt =====
-- `safe_write` of Part1/src/utils.c, which repeats a write until all bytes are through. Fuel bounds
-- the rounds; unlike Part 2's it goes on when a write takes nothing.
use so.Base.{
  ℕ, zero, suc, ◌<◌, ◌≡◌, false, none, some, List, [], ◌∷◌, ◌++◌, refl, sym, ap, ◌∙◌, arith, ◌==◌,
  if◌then◌else◌, length, length-drop, take, drop,
}
use mathlib.Core.List.{append_assoc, append-nil}
use so.Base.Nodes.{Run, ok, out_of_fuel}
use so.Common.Kernel.{Writer}
use so.Common.Io.Whole.{IsSink, take-drop}

module _ (k : Writer) where
  -- 0 when all bytes are written, 1 for an error.
  unfoldable pub safe_write : ℕ → List ℕ → k.Fd → Run (ℕ × k.Fd)
  safe_write zero buffer fd = out_of_fuel
  safe_write (suc f) buffer fd =
      if length buffer == 0 then ok (0, fd) else elim (k.write buffer fd).0 [
        | none ↦ ok (1, (k.write buffer fd).1)
        | some n ↦ safe_write f (drop n buffer) (k.write buffer fd).1
      ]

  -- On a file that takes something in each round, with fuel for each byte, `safe_write` ends, returns
  -- 0, and the file has taken all bytes, in order.
  pub safe_write_whole :
      (s : IsSink k) (fuel : ℕ) (buffer : List ℕ) (fd : k.Fd)
      → length buffer < fuel
      → (fd' : k.Fd) × (safe_write fuel buffer fd ≡ ok (0, fd'))
        × (s.lawful.sent fd' ≡ s.lawful.sent fd ++ buffer)
  unfolding safe_write
  safe_write_whole s zero buffer fd h = absurd (omega arith)
  safe_write_whole s (suc f) [] fd h = (fd, refl, sym (append-nil (s.lawful.sent fd)))
  safe_write_whole s (suc f) (b ∷ bs) fd h =
      let (n, e) = s.works b bs fd in
      let law = s.lawful.took (b ∷ bs) fd (suc n) e in
      let (fd', run, sent) =
        safe_write_whole s f (drop (suc n) (b ∷ bs)) (k.write (b ∷ bs) fd).1
          (omega (arith, length-drop (suc n) (b ∷ bs), law.0, h)) in
      let nonzero : (length (b ∷ bs) == 0) ≡ false = ground arith in
      (
        fd',
        rw (safe_write, nonzero, e) run,
        sent
            ∙ ap (λ l. l ++ drop (suc n) (b ∷ bs)) law.1
            ∙ append_assoc (s.lawful.sent fd) (take (suc n) (b ∷ bs)) (drop (suc n) (b ∷ bs))
            ∙ ap (λ l. s.lawful.sent fd ++ l) (take-drop (suc n) (b ∷ bs)),
      )
