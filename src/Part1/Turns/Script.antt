-- ===== src/Part1/Turns/Script.antt =====
-- The lines of a .jobs file of Part 1 before a BARRIER, and the calls that they stand for.
use so.Base.{ℕ, ◌<◌, Option, List, [], ◌∷◌, ◌++◌, length}
use so.Client.Parser.Word.{Keyword, text}
use so.Client.Parser.Word
use so.Client.Arguments.Uint.{value}
use so.Client.Arguments.Create.{Line, print}
use so.Client.Reservation.Seats.{Seat, IsNumber, AllNumbers, rows, cols}
use so.Client.Reservation.Text.{arguments}
use so.Client.Reservation.Wait.{after_delay, IsThread}
use so.Part1.Parser.{barrier_tail}
use so.Part1.Turns.{Work}
use so.Part1.Turns

-- A line, its numbers in digits.
pub data Entry : Type 0 where
  create : (l : Line) → Entry
  reserve : (id : List ℕ) (p : Seat) (ps : List Seat) → Entry
  show : (id : List ℕ) → Entry
  list : Entry
  wait : (delay : List ℕ) (thread : Option (List ℕ)) → Entry
  help : Entry
  blank : Entry

abbrev pub keyword : Entry → Keyword
keyword (create l) = Word.create
keyword (reserve id p ps) = Word.reserve
keyword (show id) = Word.show
keyword list = Word.list
keyword (wait delay thread) = Word.wait
keyword help = Word.help
keyword blank = Word.blank

-- What follows the word, up to `rest`.
abbrev pub tail : Entry → List ℕ → List ℕ
tail (create l) rest = print l rest
tail (reserve id p ps) rest = arguments id p ps (10 ∷ rest)
tail (show id) rest = id ++ 10 ∷ rest
tail list rest = rest
tail (wait delay thread) rest = delay ++ after_delay thread rest
tail help rest = rest
tail blank rest = rest

-- The call, as it is logged.
abbrev pub work : Entry → Work
work (create l) = Turns.create (value l.event_id) (value l.num_rows) (value l.num_cols)
work (reserve id p ps) = Turns.reserve (value id) (length (p ∷ ps)) (rows (p ∷ ps)) (cols (p ∷ ps))
work (show id) = Turns.show (value id)
work list = Turns.list
work (wait delay thread) = Turns.nothing
work help = Turns.nothing
work blank = Turns.nothing

-- Numbers that fit, and fewer than 256 seats.
abbrev pub IsValid : Entry → Type 0
IsValid (create l) = IsNumber l.event_id × IsNumber l.num_rows × IsNumber l.num_cols
IsValid (reserve id p ps) = IsNumber id × AllNumbers (p ∷ ps) × (length (p ∷ ps) < 256)
IsValid (show id) = IsNumber id
IsValid list = Unit {0}
IsValid (wait delay thread) = IsNumber delay × IsThread thread
IsValid help = Unit {0}
IsValid blank = Unit {0}

-- The file from some line on, up to `rest`.
abbrev pub script : List Entry → List ℕ → List ℕ
script [] rest = rest
script (e ∷ es) rest = text (keyword e) ++ tail e (script es rest)

abbrev pub AllValid : List Entry → Type 0
AllValid [] = Unit {0}
AllValid (e ∷ es) = IsValid e × AllValid es

abbrev pub all_work : List Entry → List Work
all_work [] = []
all_work (e ∷ es) = work e ∷ all_work es

-- The line BARRIER.
abbrev pub barrier_line : List ℕ
barrier_line = 66 ∷ barrier_tail ++ 10 ∷ []
