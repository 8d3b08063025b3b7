-- ===== src/Part1/Tests/Parser.antt =====
-- Part 1's parsers, and waits for two threads.
use so.Base.{ℕ, true, ◌≡◌, ◌≢◌, none, List, [], ◌∷◌, refl, replicate}
use so.Base.Nodes.{ok}
use so.Client.Arguments
use so.Client.Tests.{file, read_number}
use so.Client.Reservation
use so.Part1.Arguments.{parse_create, parse_show, parse_reserve, parse_wait}
use so.Part1.Arguments.Compare.{parsers-agree}
use so.Part1.Waits.{Waits, inject_wait}
use so.Part1.Waits.Inject.{inject_wait_lem}

file-works : (n : ℕ) (fd : List ℕ) → (file.read n fd).0 ≢ none
file-works n fd e = cc

abbrev stack : ℕ → List ℕ
stack i = replicate 16 7

-- The bytes "7 ", which is no whole line for any of the parsers but `parse_wait`.
abbrev text : List ℕ
text = 55 ∷ 32 ∷ []

parsers-agree_example :
    (Arguments.parse_create file (read_number 0) 3 (stack 0) (stack 1) (stack 2) text
      ≡ parse_create file (read_number 0) 3 (stack 0) (stack 1) (stack 2) text)
    × (Arguments.parse_show file (read_number 0) 3 (stack 0) text
        ≡ parse_show file (read_number 0) 3 (stack 0) text)
    × (Reservation.parse_reserve file (read_number 0) 3 stack 1 [] [] text
        ≡ parse_reserve file (read_number 0) 3 stack 1 [] [] text)
    × (Reservation.parse_wait file (read_number 0) 3 stack true text
        ≡ parse_wait file (read_number 0) 3 stack true text)
parsers-agree_example = parsers-agree file (read_number 0) 3 file-works stack 1 [] [] true text

abbrev waits : Waits
waits = record { thread_waits = 0 ∷ 1 ∷ []; thread_delays = 0 ∷ 5 ∷ [] }

-- The second thread, which already waits, waits longer.
inject_wait_lem_example :
    inject_wait 0 9 2 3 waits
    ≡ ok (0, record { thread_waits = 1 ∷ 1 ∷ []; thread_delays = 3 ∷ 8 ∷ [] })
inject_wait_lem_example = inject_wait_lem 0 9 2 3 waits refl refl
