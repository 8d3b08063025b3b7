-- ===== src/Client/Main/Script.antt =====
-- The lines of a .jobs file, and what the client of Part2/src/client makes of each, with the server's
-- answer to it.
use so.Base.{ℕ, ◌+◌, ◌*◌, ◌<◌, ◌≡◌, some, List, [], ◌∷◌, ◌++◌, length, drop, size_mod, uint_mod}
use so.Common.Bytes.{encode, encode_all, AllBelow}
use so.Common.Protocol.{message}
use so.Common.Protocol
use so.Client.Parser.Word.{Keyword, text}
use so.Client.Parser.Word
use so.Client.Arguments.Uint.{value}
use so.Client.Arguments.Create.{Line, print}
use so.Client.Reservation.Seats.{Seat, IsNumber, AllNumbers, rows, cols}
use so.Client.Reservation.Text.{arguments}
use so.Client.Api.Grid.{grid_text}
use so.Client.Api.Listed.{list_text}
use so.Client.Main.{Memory}

-- A line, its numbers in digits, with the content of the answer.
pub data Entry : Type 0 where
  create : (l : Line) (code : ℕ) → Entry
  reserve : (id : List ℕ) (p : Seat) (ps : List Seat) (code : ℕ) → Entry
  show : (id : List ℕ) (num_rows num_cols : ℕ) (seats : List ℕ) (code : ℕ) → Entry
  list : (ids : List ℕ) (code : ℕ) → Entry
  wait : (delay : List ℕ) → Entry
  help : Entry
  blank : Entry

abbrev pub keyword : Entry → Keyword
keyword (create l code) = Word.create
keyword (reserve id p ps code) = Word.reserve
keyword (show id num_rows num_cols seats code) = Word.show
keyword (list ids code) = Word.list
keyword (wait delay) = Word.wait
keyword help = Word.help
keyword blank = Word.blank

-- What follows the word, up to `rest`.
abbrev pub tail : Entry → List ℕ → List ℕ
tail (create l code) rest = print l rest
tail (reserve id p ps code) rest = arguments id p ps (10 ∷ rest)
tail (show id num_rows num_cols seats code) rest = id ++ 10 ∷ rest
tail (list ids code) rest = rest
tail (wait delay) rest = delay ++ 10 ∷ rest
tail help rest = rest
tail blank rest = rest

-- The message to the server; the arrays of a reservation keep what is behind the seats.
abbrev pub sends : Memory → Entry → List ℕ
sends mem (create l code) =
    message (Protocol.create (value l.event_id) (value l.num_rows) (value l.num_cols))
sends mem (reserve id p ps code) = message (
    Protocol.reserve (value id) (length (p ∷ ps)) (rows (p ∷ ps) ++ drop (length (p ∷ ps)) mem.xs)
      (cols (p ∷ ps) ++ drop (length (p ∷ ps)) mem.ys))
sends mem (show id num_rows num_cols seats code) = message (Protocol.show (value id))
sends mem (list ids code) = message Protocol.list
sends mem (wait delay) = []
sends mem help = []
sends mem blank = []

-- The server's answer, and what follows it.
abbrev pub answered : Entry → List ℕ → List ℕ
answered (create l code) rest = encode 4 code ++ rest
answered (reserve id p ps code) rest = encode 4 code ++ rest
answered (show id num_rows num_cols seats code) rest =
    encode_all 8 (num_rows ∷ num_cols ∷ []) ++ (encode_all 4 seats ++ (encode 4 code ++ rest))
answered (list ids code) rest =
    encode 8 (length ids) ++ (encode_all 4 ids ++ (encode 4 code ++ rest))
answered (wait delay) rest = rest
answered help rest = rest
answered blank rest = rest

-- What is printed to the .out file.
abbrev pub prints : (ℕ → List ℕ) → Entry → List ℕ
prints sprintf (create l code) = []
prints sprintf (reserve id p ps code) = []
prints sprintf (show id num_rows num_cols seats code) = grid_text sprintf num_rows num_cols seats
prints sprintf (list ids code) = list_text sprintf ids
prints sprintf (wait delay) = []
prints sprintf help = []
prints sprintf blank = []

-- Numbers that fit, fewer than 256 seats, and an answer of the announced size, whose rows and columns
-- are not the largest size_t.
abbrev pub IsValid : Entry → Type 0
IsValid (create l code) =
    IsNumber l.event_id × IsNumber l.num_rows × IsNumber l.num_cols × (code < uint_mod)
IsValid (reserve id p ps code) =
    IsNumber id × AllNumbers (p ∷ ps) × (length (p ∷ ps) < 256) × (code < uint_mod)
IsValid (show id num_rows num_cols seats code) =
    IsNumber id
    × (num_rows + 1 < size_mod)
    × (num_cols + 1 < size_mod)
    × (4 * (num_rows * num_cols) < size_mod)
    × (length seats ≡ num_rows * num_cols)
    × AllBelow uint_mod seats
    × (code < uint_mod)
IsValid (list ids code) = (4 * length ids < size_mod) × AllBelow uint_mod ids × (code < uint_mod)
IsValid (wait delay) = IsNumber delay
IsValid help = Unit {0}
IsValid blank = Unit {0}

-- Arrays of the sizes that the source declares, and memory.
pub record IsMemory (mem : Memory) : Type 0 where
  pub room : (i : ℕ) → length (mem.bufs i) ≡ 16
  pub xs_len : length mem.xs ≡ 256
  pub ys_len : length mem.ys ≡ 256
  pub memory : (n : ℕ) → (block : List ℕ) × (mem.malloc n ≡ some block) × (length block ≡ n)
