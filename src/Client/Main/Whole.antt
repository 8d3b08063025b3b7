-- ===== src/Client/Main/Whole.antt =====
-- The loop of Part2/src/client/main.c on a whole .jobs file, on pipes and files that work.
use so.Base.{ℕ, ◌+◌, ◌≡◌, Bool, List, [], ◌∷◌, ◌++◌}
use so.Base.Nodes.{Run, ok}
use so.Common.Kernel.{Reader, Writer, IsFile}
use so.Common.Io.Whole.{IsSource, IsSink}
use so.Client.Parser.Word.{text}
use so.Client.Arguments.Uint.{IsStrtoul}
use so.Client.Main.{Memory, Jobs}
use so.Client.Main.Script.{Entry, keyword, tail, sends, answered, prints, IsValid}

-- The text of the lines, the answers, the messages and what is printed, one after the other.
abbrev pub script : List Entry → List ℕ
script [] = []
script (e ∷ es) = text (keyword e) ++ tail e (script es)

abbrev pub replies : List Entry → List ℕ → List ℕ
replies [] rest = rest
replies (e ∷ es) rest = answered e (replies es rest)

abbrev pub all_sent : (ℕ → Memory) → ℕ → List Entry → List ℕ
all_sent mem i [] = []
all_sent mem i (e ∷ es) = sends (mem i) e ++ all_sent mem (i + 1) es

abbrev pub all_printed : (ℕ → List ℕ) → List Entry → List ℕ
all_printed sprintf [] = []
all_printed sprintf (e ∷ es) = prints sprintf e ++ all_printed sprintf es

abbrev pub AllValid : List Entry → Type 0
AllValid [] = Unit {0}
AllValid (e ∷ es) = IsValid e × AllValid es

module _ (f : Reader) (k : Reader) (w : Writer) (o : Writer) (jobs : IsFile f) (source : IsSource k)
    (sink : IsSink w) (file : IsSink o) (strtoul : List ℕ → Run ℕ) (law : IsStrtoul strtoul)
    (sprintf : ℕ → List ℕ) (unlink_req unlink_resp : Bool) where
  -- A run that ends with 0, with what it sent and printed, and `rest` of the answers left.
  abbrev pub Finishes : Run (ℕ × Jobs f k w o) → Jobs f k w o → (bytes text rest : List ℕ) → Type 0
  Finishes run j bytes text rest =
      (j' : Jobs f k w o) × (run ≡ ok (0, j'))
      × (sink.lawful.sent j'.client.req ≡ sink.lawful.sent j.client.req ++ bytes)
      × (file.lawful.sent j'.client.out ≡ file.lawful.sent j.client.out ++ text)
      × (source.lawful.left j'.client.resp ≡ rest)
