-- ===== src/Client/Parser/Next.antt =====
-- `cleanup` and `get_next` of Part2/src/client/parser.c on a regular file: fuel and progress.
use so.Base.{
  ℕ, zero, suc, ◌≤◌, ◌<◌, ◌≡◌, Bool, true, false, some, List, [], ◌∷◌, refl, sym, ◌∙◌, ap, length,
  take, drop, length-drop, arith, ◌⊎◌, inl, inr, Bool-cases, ◌==◌, if◌then◌else◌, if-true, if-false,
  subst,
}
use so.Base.Nodes.{Run, ok, ◌>>=◌}
use so.Common.Kernel.{Reader, IsFile}
use so.Client.Parser.{
  Command, cmd_create, cmd_reserve, cmd_show, cmd_list_events, cmd_wait, cmd_help, cmd_empty,
  cmd_invalid, eoc, create_tail, reserve_tail, show_tail, list_tail, wait_tail, help_tail, is_word,
  cleanup, skip, word_case, line_end, line_case, switch, get_next,
}

-- What follows the first end of line.
abbrev pub next_line : List ℕ → List ℕ
next_line [] = []
next_line (ch ∷ cs) = if ch == 10 then cs else next_line cs

pub length-next_line : (cs : List ℕ) → length (next_line cs) ≤ length cs
length-next_line [] = omega arith
length-next_line (ch ∷ cs) = elim (Bool-cases (ch == 10)) [
  | inl nl ↦ rw nl (omega arith)
  | inr other ↦ rw other (omega (arith, length-next_line cs))
]

file_cases : (l : List ℕ) → (l ≡ []) ⊎ ((ch : ℕ) × (cs : List ℕ) × (l ≡ ch ∷ cs))
file_cases [] = inl refl
file_cases (ch ∷ cs) = inr (ch, cs, refl)

module _ (k : Reader) (file : IsFile k) where
  first :
      (fd : k.Fd) (ch : ℕ) (cs : List ℕ)
      → file.left fd ≡ ch ∷ cs
      → ((k.read 1 fd).0 ≡ some (ch ∷ [])) × (file.left (k.read 1 fd).1 ≡ cs)
  first fd ch cs e = (file.got 1 fd ∙ ap (λ l. some (take 1 l)) e, file.rest 1 fd ∙ ap (drop 1) e)

  at_end :
      (fd : k.Fd)
      → file.left fd ≡ []
      → ((k.read 1 fd).0 ≡ some []) × (file.left (k.read 1 fd).1 ≡ [])
  at_end fd e = (file.got 1 fd ∙ ap (λ l. some (take 1 l)) e, file.rest 1 fd ∙ ap (drop 1) e)

  -- On a regular file, with fuel for its bytes and one more round, `cleanup` ends, and what is
  -- left of the file is what follows the first end of line.
  pub cleanup-next_line :
      (fuel : ℕ) (cs : List ℕ) (fd : k.Fd)
      → file.left fd ≡ cs
      → length cs < fuel
      → (fd' : k.Fd) × (cleanup k fuel fd ≡ ok fd') × (file.left fd' ≡ next_line cs)
  unfolding cleanup
  cleanup-next_line zero cs fd e h = absurd (omega arith)
  cleanup-next_line (suc f) [] fd e h =
      let (none_left, after) = at_end fd e in (_, rw (cleanup, none_left) refl, after)
  cleanup-next_line (suc f) (ch ∷ cs) fd e h =
      let (char, after) = first fd ch cs e in
      elim (Bool-cases (ch == 10)) [
        | inl nl ↦ (_, rw (cleanup, char, nl) refl, after ∙ sym (if-true _ _ nl))
        | inr other ↦
            let (fd', done, rest) = cleanup-next_line f cs (k.read 1 fd).1 after (omega arith) in
            (fd', rw (cleanup, char, other) done, rest ∙ sym (if-false _ _ other))
      ]

  -- A run that ends and leaves at most `n` bytes.
  abbrev Ends : ℕ → Run (Command × k.Fd) → Type 0
  Ends n run = (c : Command) × (fd' : k.Fd) × (run ≡ ok (c, fd')) × (length (file.left fd') ≤ n)

  Ends-if :
      (n : ℕ) (b : Bool) (x y : Run (Command × k.Fd))
      → Ends n x
      → Ends n y
      → Ends n (if b then x else y)
  Ends-if n true x y p q = p
  Ends-if n false x y p q = q

  module _ (fuel : ℕ) where
    skip-Ends :
        (c : Command) (n : ℕ) (fd : k.Fd)
        → length (file.left fd) ≤ n
        → length (file.left fd) < fuel
        → Ends n (skip k fuel c fd)
    skip-Ends c n fd h enough =
        let (fd', done, rest) = cleanup-next_line fuel (file.left fd) fd refl enough in
        let bound : length (file.left fd') ≤ n =
          subst (λ l. length l ≤ n) (sym rest) (omega (arith, length-next_line (file.left fd))) in
        (c, fd', ap (λ r. r >>= λ f. ok (c, f)) done, bound)

    less :
        (m n : ℕ) (fd : k.Fd) → length (file.left fd) ≤ n → length (file.left (k.read m fd).1) ≤ n
    less m n fd h =
        subst (λ l. length l ≤ n) (sym (file.rest m fd))
          (omega (arith, length-drop m (file.left fd)))

    word_case-Ends :
        (word : List ℕ) (c : Command) (n : ℕ) (fd : k.Fd)
        → length (file.left fd) ≤ n
        → n < fuel
        → Ends n (word_case k fuel word c fd)
    word_case-Ends word c n fd h enough =
        let short = less (length word) n fd h in
        Ends-if n (is_word word (k.read (length word) fd).0) _ _
          (c, (k.read (length word) fd).1, refl, short)
          (skip-Ends cmd_invalid n (k.read (length word) fd).1 short (omega arith))

    line_end-Ends :
        (c : Command) (n : ℕ) (fd : k.Fd)
        → length (file.left fd) ≤ n
        → n < fuel
        → Ends n (line_end k fuel c fd)
    line_end-Ends c n fd h enough =
        let short = less 1 n fd h in
        elim (file_cases (file.left fd)) [
          | inl none_left ↦ (c, (k.read 1 fd).1, rw (line_end, (at_end fd none_left).0) refl, short)
          | inr (ch, cs, e) ↦
              rw (line_end, (first fd ch cs e).0)
                (Ends-if n (ch == 10) _ _ (c, (k.read 1 fd).1, refl, short)
                  (skip-Ends cmd_invalid n (k.read 1 fd).1 short (omega arith)))
        ]

    line_case-Ends :
        (word : List ℕ) (c : Command) (n : ℕ) (fd : k.Fd)
        → length (file.left fd) ≤ n
        → n < fuel
        → Ends n (line_case k fuel word c fd)
    line_case-Ends word c n fd h enough =
        let short = less (length word) n fd h in
        Ends-if n (is_word word (k.read (length word) fd).0) _ _
          (line_end-Ends c n (k.read (length word) fd).1 short enough)
          (skip-Ends cmd_invalid n (k.read (length word) fd).1 short (omega arith))

    switch-Ends :
        (ch n : ℕ) (fd : k.Fd) → length (file.left fd) ≤ n → n < fuel → Ends n (switch k fuel ch fd)
    switch-Ends ch n fd h enough =
        let skipped = λ (c : Command). skip-Ends c n fd h (omega arith) in
        Ends-if n (ch == 67) _ _ (word_case-Ends create_tail cmd_create n fd h enough) (
          Ends-if n (ch == 82) _ _ (word_case-Ends reserve_tail cmd_reserve n fd h enough) (
            Ends-if n (ch == 83) _ _ (word_case-Ends show_tail cmd_show n fd h enough) (
              Ends-if n (ch == 76) _ _ (line_case-Ends list_tail cmd_list_events n fd h enough) (
                Ends-if n (ch == 87) _ _ (word_case-Ends wait_tail cmd_wait n fd h enough) (
                  Ends-if n (ch == 72) _ _ (line_case-Ends help_tail cmd_help n fd h enough) (
                    Ends-if n (ch == 35) _ _ (skipped cmd_empty) (
                      Ends-if n (ch == 10) _ _ (cmd_empty, fd, refl, h) (skipped cmd_invalid))))))))

    -- On a regular file, with fuel for its bytes and one more round, `get_next` ends without a
    -- fault. Either the file was at its end and it returns EOC, or less is left of it than before.
    pub get_next-progress :
        (fd : k.Fd)
        → length (file.left fd) < fuel
        → (c : Command) × (fd' : k.Fd) × (get_next k fuel fd ≡ ok (c, fd'))
          × (((file.left fd ≡ []) × (c ≡ eoc)) ⊎ (length (file.left fd') < length (file.left fd)))
    unfolding get_next
    get_next-progress fd enough = elim (file_cases (file.left fd)) [
      | inl none_left ↦
          (eoc, (k.read 1 fd).1, rw (get_next, (at_end fd none_left).0) refl, inl (none_left, refl))
      | inr (ch, cs, e) ↦
          let (char, after) = first fd ch cs e in
          let total = ap length e in
          let (c, fd', done, short) =
            switch-Ends ch (length cs) (k.read 1 fd).1
              (subst (λ l. length l ≤ length cs) (sym after) (omega arith)) (omega arith) in
          (c, fd', rw (get_next, char) done, inr (omega (arith)))
    ]
