-- ===== src/Client/Parser/Word.antt =====
-- The command words on a regular file.
use so.Base.{ℕ, ◌≡◌, some, List, [], ◌∷◌, ◌++◌, refl, sym, ◌∙◌, ap, length, take, drop}
use so.Base.Nodes.{ok}
use so.Common.Kernel.{Reader, IsFile}
use so.Client.Parser.{
  Command, cmd_create, cmd_reserve, cmd_show, cmd_list_events, cmd_wait, cmd_help, cmd_empty,
  create_tail, reserve_tail, show_tail, list_tail, wait_tail, help_tail, line_end, get_next,
}

pub data Keyword : Type 0 where
  create : Keyword
  reserve : Keyword
  show : Keyword
  list : Keyword
  wait : Keyword
  help : Keyword
  blank : Keyword

-- How a line with the command starts.
abbrev pub text : Keyword → List ℕ
text create = 67 ∷ create_tail
text reserve = 82 ∷ reserve_tail
text show = 83 ∷ show_tail
text list = 76 ∷ list_tail ++ 10 ∷ []
text wait = 87 ∷ wait_tail
text help = 72 ∷ help_tail ++ 10 ∷ []
text blank = 10 ∷ []

abbrev pub code : Keyword → Command
code create = cmd_create
code reserve = cmd_reserve
code show = cmd_show
code list = cmd_list_events
code wait = cmd_wait
code help = cmd_help
code blank = cmd_empty

take-append : (xs ys : List ℕ) → take (length xs) (xs ++ ys) ≡ xs
take-append [] ys = refl
take-append (x ∷ xs) ys = ap (λ l. x ∷ l) (take-append xs ys)

drop-append : (xs ys : List ℕ) → drop (length xs) (xs ++ ys) ≡ ys
drop-append [] ys = refl
drop-append (x ∷ xs) ys = drop-append xs ys

module _ (k : Reader) (file : IsFile k) where
  pub read_part :
      (n : ℕ) (fd : k.Fd) (xs ys : List ℕ)
      → length xs ≡ n
      → file.left fd ≡ xs ++ ys
      → ((k.read n fd).0 ≡ some xs) × (file.left (k.read n fd).1 ≡ ys)
  read_part n fd xs ys len e =
      let all = ap (λ m. take m (xs ++ ys)) (sym len) ∙ take-append xs ys in
      let none_left = ap (λ m. drop m (xs ++ ys)) (sym len) ∙ drop-append xs ys in
      (
        file.got n fd ∙ ap (λ l. some (take n l)) e ∙ ap some all,
        file.rest n fd ∙ ap (drop n) e ∙ none_left,
      )

  -- On a regular file whose rest starts with a command's word (with its space, or its end of line),
  -- `get_next` returns the command and leaves exactly what follows the word.
  pub get_next-text :
      (fuel : ℕ) (w : Keyword) (rest : List ℕ) (fd : k.Fd)
      → file.left fd ≡ text w ++ rest
      → (fd' : k.Fd) × (get_next k fuel fd ≡ ok (code w, fd')) × (file.left fd' ≡ rest)
  unfolding get_next
  get_next-text fuel create rest fd e =
      let (ch, after) = read_part 1 fd (67 ∷ []) (create_tail ++ rest) refl e in
      let (word, end) = read_part 6 _ create_tail rest refl after in
      (_, rw (get_next, ch, word) refl, end)
  get_next-text fuel reserve rest fd e =
      let (ch, after) = read_part 1 fd (82 ∷ []) (reserve_tail ++ rest) refl e in
      let (word, end) = read_part 7 _ reserve_tail rest refl after in
      (_, rw (get_next, ch, word) refl, end)
  get_next-text fuel show rest fd e =
      let (ch, after) = read_part 1 fd (83 ∷ []) (show_tail ++ rest) refl e in
      let (word, end) = read_part 4 _ show_tail rest refl after in
      (_, rw (get_next, ch, word) refl, end)
  get_next-text fuel list rest fd e =
      let (ch, after) = read_part 1 fd (76 ∷ []) (list_tail ++ 10 ∷ rest) refl e in
      let (word, line) = read_part 3 _ list_tail (10 ∷ rest) refl after in
      let (end, done) = read_part 1 _ (10 ∷ []) rest refl line in
      (_, rw (get_next, ch, word, line_end, end) refl, done)
  get_next-text fuel wait rest fd e =
      let (ch, after) = read_part 1 fd (87 ∷ []) (wait_tail ++ rest) refl e in
      let (word, end) = read_part 4 _ wait_tail rest refl after in
      (_, rw (get_next, ch, word) refl, end)
  get_next-text fuel help rest fd e =
      let (ch, after) = read_part 1 fd (72 ∷ []) (help_tail ++ 10 ∷ rest) refl e in
      let (word, line) = read_part 3 _ help_tail (10 ∷ rest) refl after in
      let (end, done) = read_part 1 _ (10 ∷ []) rest refl line in
      (_, rw (get_next, ch, word, line_end, end) refl, done)
  get_next-text fuel blank rest fd e =
      let (ch, after) = read_part 1 fd (10 ∷ []) rest refl e in (_, rw (get_next, ch) refl, after)
