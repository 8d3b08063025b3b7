-- ===== src/Common/Io/Whole.antt =====
-- `safe_read` and `safe_write` of Part2/src/common/io.c on pipes whose other end works.
use so.Base.{
  ℕ, zero, suc, ◌+◌, ◌-◌, false, ◌==◌, Bool-cases, if-true, if-false, length-drop, ◌<◌, ◌≤◌, ◌≡◌,
  ◌≢◌, Option, none, some, List, [], ◌∷◌, ◌++◌, refl, sym, ap, ◌∙◌, arith, length, length-append,
  take, drop, inl, inr,
}
use so.Base.Nodes.{Run, ok}
use so.Common.Kernel.{Reader, IsReader, Writer, IsWriter}
use so.Common.Io.{read_loop, safe_read, write_loop, safe_write}
use so.Common.Io.Read.{read_outcome, safe_read-Reads}
use mathlib.Core.List.{append_assoc, append-nil}

-- A pipe that never reports an error.
pub record IsSource (k : Reader) : Type 0 where
  pub lawful : IsReader k
  pub works : (n : ℕ) (fd : k.Fd) → (k.read n fd).0 ≢ none

pub record IsSink (w : Writer) : Type 0 where
  pub lawful : IsWriter w
  pub works : (b : ℕ) (bs : List ℕ) (fd : w.Fd) → (n : ℕ) × ((w.write (b ∷ bs) fd).0 ≡ some (suc n))

pub take-drop : (n : ℕ) (xs : List ℕ) → take n xs ++ drop n xs ≡ xs
take-drop zero xs = refl
take-drop (suc n) [] = refl
take-drop (suc n) (x ∷ xs) = ap (λ l. x ∷ l) (take-drop n xs)

length_zero : (xs : List ℕ) → length xs ≡ 0 → xs ≡ []
length_zero [] e = refl
length_zero (x ∷ xs) e = absurd (omega arith)

append_inj :
    (xs ys us vs : List ℕ) → xs ++ us ≡ ys ++ vs → length xs ≡ length ys → (xs ≡ ys) × (us ≡ vs)
append_inj [] [] us vs e h = (refl, e)
append_inj [] (y ∷ ys) us vs e h = absurd (omega arith)
append_inj (x ∷ xs) [] us vs e h = absurd (omega arith)
append_inj (x ∷ xs) (y ∷ ys) us vs e h =
    let heads : x ≡ y = cc in
    let tails : xs ++ us ≡ ys ++ vs = cc in
    let (same, rest) = append_inj xs ys us vs tails (omega arith) in (λ i. heads i ∷ same i, rest)

module _ (k : Reader) (s : IsSource k) where
  never_fails :
      (fuel : ℕ) (done : List ℕ) (n : ℕ) (fd fd' : k.Fd)
      → read_loop k fuel done n fd ≢ ok (none, fd')
  unfolding read_loop
  never_fails zero done n fd fd' e = cc
  never_fails (suc f) done n fd fd' e = elim (Bool-cases (n == 0)) [
    | inl full ↦
        let stop : Run (Option (List ℕ) × k.Fd) = ok (none, fd') in
        let ends : ok (some done, fd) ≡ stop = sym (if-true _ _ full) ∙ e in cc
    | inr more ↦
        let body = sym (if-false _ _ more) ∙ e in
        elim (read_outcome (k.read n fd).0) [
          | inl failed ↦ absurd (s.works n fd failed)
          | inr (inl eof) ↦
              let stop : Run (Option (List ℕ) × k.Fd) = ok (none, fd') in
              let ends : ok (some done, (k.read n fd).1) ≡ stop = rw eof at body in cc
          | inr (inr (b, bs, got)) ↦
              let rest : read_loop k f (done ++ b ∷ bs) (n - length (b ∷ bs)) (k.read n fd).1
                  ≡ ok (none, fd') =
                rw got at body in
              never_fails f (done ++ b ∷ bs) (n - length (b ∷ bs)) (k.read n fd).1 fd' rest
        ]
  ]

  -- On a pipe that does not fail and that holds the bytes `xs` next, `safe_read` of as many bytes
  -- ends and returns exactly them; what follows them is left in the pipe.
  pub safe_read_whole :
      (n : ℕ) (xs rest : List ℕ) (fd : k.Fd)
      → s.lawful.left fd ≡ xs ++ rest
      → length xs ≡ n
      → (fd' : k.Fd) × (safe_read k (suc n) n fd ≡ ok (some xs, fd')) × (s.lawful.left fd' ≡ rest)
  unfolding safe_read
  safe_read_whole n xs rest fd e len =
      let (fd', result) = safe_read-Reads k s.lawful (suc n) n fd (omega arith) in
      elim result [
        | inl failed ↦ absurd (never_fails (suc n) [] n fd fd' failed)
        | inr (ys, run, input, bound, full) ↦
            let both : xs ++ rest ≡ ys ++ s.lawful.left fd' = sym e ∙ input in
            let size : length xs ≡ length ys = elim full [
              | inl all ↦ len ∙ sym all
              | inr empty ↦
                  let total = ap length (both ∙ ap (λ l. ys ++ l) empty ∙ append-nil ys) in
                  omega (arith, total, length-append xs rest, len, bound)
            ] in
            let (same, left) = append_inj xs ys rest (s.lawful.left fd') both size in
            (fd', run ∙ ap (λ l. ok (some l, fd')) (sym same), sym left)
      ]

  -- Where fewer bytes are left than asked for, they are what `safe_read` returns.
  pub safe_read_short :
      (n : ℕ) (fd : k.Fd)
      → length (s.lawful.left fd) ≤ n
      → (fd' : k.Fd) × (safe_read k (suc n) n fd ≡ ok (some (s.lawful.left fd), fd'))
        × (s.lawful.left fd' ≡ [])
  unfolding safe_read
  safe_read_short n fd few =
      let (fd', result) = safe_read-Reads k s.lawful (suc n) n fd (omega arith) in
      elim result [
        | inl failed ↦ absurd (never_fails (suc n) [] n fd fd' failed)
        | inr (ys, run, input, bound, full) ↦
            let nothing : s.lawful.left fd' ≡ [] = elim full [
              | inl all ↦
                  let total = ap length input in
                  length_zero (s.lawful.left fd')
                    (omega (arith, total, length-append ys (s.lawful.left fd'), all, few))
              | inr empty ↦ empty
            ] in
            let whole : ys ≡ s.lawful.left fd =
              sym (input ∙ ap (λ l. ys ++ l) nothing ∙ append-nil ys) in
            (fd', run ∙ ap (λ l. ok (some l, fd')) whole, nothing)
      ]

module _ (w : Writer) (s : IsSink w) where
  write_loop_whole :
      (fuel c : ℕ) (buf : List ℕ) (fd : w.Fd)
      → length buf < fuel
      → (fd' : w.Fd) × (write_loop w fuel c buf fd ≡ ok (some (c + length buf), fd'))
        × (s.lawful.sent fd' ≡ s.lawful.sent fd ++ buf)
  unfolding write_loop
  write_loop_whole zero c buf fd h = absurd (omega arith)
  write_loop_whole (suc f) c [] fd h =
      (fd, ap (λ n. ok (some n, fd)) (omega arith), sym (append-nil (s.lawful.sent fd)))
  write_loop_whole (suc f) c (b ∷ bs) fd h =
      let (n, e) = s.works b bs fd in
      let law = s.lawful.took (b ∷ bs) fd (suc n) e in
      let (fd', run, sent) =
        write_loop_whole f (c + suc n) (drop (suc n) (b ∷ bs)) (w.write (b ∷ bs) fd).1
          (omega (arith, length-drop (suc n) (b ∷ bs), law.0, h)) in
      let count : c + suc n + length (drop (suc n) (b ∷ bs)) ≡ c + length (b ∷ bs) =
        omega (arith, length-drop (suc n) (b ∷ bs), law.0) in
      let nonzero : (length (b ∷ bs) == 0) ≡ false = ground arith in
      (
        fd',
        rw (write_loop, nonzero, e) (run ∙ ap (λ m. ok (some m, fd')) count),
        sent
            ∙ ap (λ l. l ++ drop (suc n) (b ∷ bs)) law.1
            ∙ append_assoc (s.lawful.sent fd) (take (suc n) (b ∷ bs)) (drop (suc n) (b ∷ bs))
            ∙ ap (λ l. s.lawful.sent fd ++ l) (take-drop (suc n) (b ∷ bs)),
      )

  -- On a pipe that does not fail and takes something in each round, `safe_write` ends, returns the
  -- number of the bytes, and the pipe has taken all of them, in order.
  pub safe_write_whole :
      (buf : List ℕ) (fd : w.Fd)
      → (fd' : w.Fd) × (safe_write w (suc (length buf)) buf fd ≡ ok (some (length buf), fd'))
        × (s.lawful.sent fd' ≡ s.lawful.sent fd ++ buf)
  unfolding safe_write
  safe_write_whole buf fd =
      let (fd', run, sent) = write_loop_whole (suc (length buf)) 0 buf fd (omega arith) in
      (fd', run ∙ ap (λ m. ok (some m, fd')) (omega arith), sent)
