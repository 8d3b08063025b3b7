-- ===== src/Common/Io/Print.antt =====
-- `print_str` of Part2/src/common/io.c on a string's bytes, with fuel for the rounds, and what it
-- writes when the other end works. Unlike `safe_write` it also repeats a write of no bytes.
use so.Base.{
  ℕ, zero, suc, ◌<◌, ◌≡◌, none, some, List, [], ◌∷◌, ◌++◌, refl, sym, ap, ◌∙◌, arith, length,
  length-drop, take, drop,
}
use mathlib.Core.List.{append-nil, append_assoc}
use so.Base.Nodes.{Run, ok, out_of_fuel}
use so.Common.Kernel.{Writer}
use so.Common.Io.Whole.{IsSink, take-drop}

module _ (w : Writer) where
  unfoldable pub print_str : ℕ → List ℕ → w.Fd → Run (ℕ × w.Fd)
  print_str zero str fd = out_of_fuel
  print_str (suc f) [] fd = ok (0, fd)
  print_str (suc f) (b ∷ bs) fd = elim (w.write (b ∷ bs) fd).0 [
    | none ↦ ok (1, (w.write (b ∷ bs) fd).1)
    | some written ↦ print_str f (drop written (b ∷ bs)) (w.write (b ∷ bs) fd).1
  ]

  -- Where writes do not fail and take something, with a round of fuel for each byte and one more,
  -- `print_str` ends, returns 0, and has written the whole string.
  pub print_str_whole :
      (s : IsSink w) (fuel : ℕ) (str : List ℕ) (fd : w.Fd)
      → length str < fuel
      → (fd' : w.Fd) × (print_str fuel str fd ≡ ok (0, fd'))
        × (s.lawful.sent fd' ≡ s.lawful.sent fd ++ str)
  unfolding print_str
  print_str_whole s zero str fd h = absurd (omega arith)
  print_str_whole s (suc f) [] fd h = (fd, refl, sym (append-nil (s.lawful.sent fd)))
  print_str_whole s (suc f) (b ∷ bs) fd h =
      let (n, e) = s.works b bs fd in
      let law = s.lawful.took (b ∷ bs) fd (suc n) e in
      let (fd', run, sent) =
        print_str_whole s f (drop (suc n) (b ∷ bs)) (w.write (b ∷ bs) fd).1
          (omega (arith, length-drop (suc n) (b ∷ bs), law.0, h)) in
      (
        fd',
        rw (print_str, e) run,
        sent
            ∙ ap (λ l. l ++ drop (suc n) (b ∷ bs)) law.1
            ∙ append_assoc (s.lawful.sent fd) (take (suc n) (b ∷ bs)) (drop (suc n) (b ∷ bs))
            ∙ ap (λ l. s.lawful.sent fd ++ l) (take-drop (suc n) (b ∷ bs)),
      )
