-- ===== src/Exchange.antt =====
-- The client of Part2/src/client/api.c at the other end of the pipes of Part2/src/server/sessions.c:
-- what its SHOW and LIST make of the server's replies.
pub mod Setup
mod Tests
use so.Base.{
  ℕ, suc, ◌+◌, ◌*◌, ◌%◌, ◌<◌, ◌≡◌, true, Option, none, some, List, [], ◌∷◌, ◌++◌, refl, sym, ap,
  ◌∙◌, arith, length, take, size_mod, uint_mod, subst, Option-cases, inl, inr,
}
use mathlib.Core.List.{append_assoc, append-nil}
use so.Common.Bytes.{encode, encode_all, AllBelow, encode_all-nil, length-encode_all, take-append}
use so.Common.Kernel.{Reader, Writer}
use so.Common.Io.Whole.{IsSource, IsSink}
use so.Common.Protocol.{show, list, message}
use so.Server.Store.{Event}
use so.Server.EventList.Shape.{find}
use so.Server.Database.{IsSound}
use so.Server.Database.Sound.{find-IsSound}
use so.Server.Output.Show.{seats_of, shown, shown-missing, shown-found}
use so.Server.Output.Events.{ids, listed}
use so.Server.Session.{Answers}
use so.Server.Session.Request.{answer, with_code}
use so.Client.Api.{Client, ems_show, ems_list_events}
use so.Client.Api.Grid.{grid_text}
use so.Client.Api.Shown.{Prints, ems_show-grid}
use so.Client.Api.Listed.{list_text, ems_list_events-lines}

-- An event with numbers of their C types, rows and columns that are not the largest size_t, and seats
-- of less than 2^64 bytes.
abbrev pub Showable : Option Event → Type 0
Showable none = Unit {0}
Showable (some e) =
    (e.rows + 1 < size_mod)
    × (e.cols + 1 < size_mod)
    × (4 * (e.rows * e.cols) < size_mod)
    × AllBelow uint_mod e.seats

-- The code and the text of SHOW for what is found.
abbrev pub printed : (ℕ → List ℕ) → Option Event → ℕ × List ℕ
printed sprintf none = (1, [])
printed sprintf (some e) = (0, grid_text sprintf e.rows e.cols e.seats)

seats_of-whole :
    (e : Event)
    → 4 * (e.rows * e.cols) < size_mod
    → length e.seats ≡ e.rows * e.cols
    → seats_of e ≡ encode_all 8 (e.rows ∷ e.cols ∷ []) ++ encode_all 4 e.seats
seats_of-whole e fits full =
    let bytes = encode_all 4 e.seats in
    let size : length bytes ≡ (e.rows * e.cols * 4) % size_mod =
      length-encode_all 4 e.seats ∙ omega (arith, full, fits) in
    let all : take ((e.rows * e.cols * 4) % size_mod) bytes ≡ bytes =
      ap (λ n. take n bytes) (sym size)
      ∙ ap (take (length bytes)) (sym (append-nil bytes))
      ∙ take-append bytes [] in
    ap (λ l. encode_all 8 (e.rows ∷ e.cols ∷ []) ++ l) all

length-ids : (vs : List Event) → length vs ≡ length (ids vs)
length-ids [] = refl
length-ids (v ∷ vs) = ap suc (length-ids vs)

module _ (k : Reader) (w : Writer) (o : Writer) (source : IsSource k) (sink : IsSink w)
    (file : IsSink o) (sprintf : ℕ → List ℕ) (malloc : ℕ → Option (List ℕ))
    (memory : (n : ℕ) → (block : List ℕ) × (malloc n ≡ some block) × (length block ≡ n))
    (os : Answers) (locked : os.rdlock ≡ true) (vs : List Event) (rest : List ℕ)
    (c : Client k w o) where
  -- On pipes and a file that work, with memory: when the response pipe goes on with what the server
  -- with its lock answers to SHOW on a sound database, the client's `ems_show` ends and has sent the
  -- message; for the first event with the id, whose numbers fit and whose rows and columns
  -- are not the largest size_t, it has printed its seats row by row
  -- and returns 0, and it prints nothing and returns 1 if there is none.
  pub ems_show-served :
      (id : ℕ) (num_matrix : List ℕ)
      → IsSound vs
      → Showable (find id vs)
      → source.lawful.left c.resp ≡ (answer os (show id) vs).0 ++ rest
      → Prints k w o source sink file
          (ems_show k w o sprintf malloc num_matrix id c)
          c
          (message (show id))
          (printed sprintf (find id vs)).1
          (printed sprintf (find id vs)).0
          rest
  ems_show-served id num_matrix sound fits e = elim (Option-cases (find id vs)) [
    | inl gone ↦
        let reply =
          ap (λ b. with_code (shown b id vs) ++ rest) locked
          ∙ ap (λ r. with_code r ++ rest) (shown-missing id vs gone) in
        let size = encode_all 8 (0 ∷ 0 ∷ []) in
        let bytes =
          append_assoc size (encode 4 1) rest
          ∙ ap (λ l. size ++ (l ++ (encode 4 1 ++ rest))) (sym (encode_all-nil 4)) in
        let (block, alloc, sized) = memory 0 in
        subst
          (λ f.
            Prints k w o source sink file (ems_show k w o sprintf malloc num_matrix id c) c
              (message (show id)) (printed sprintf f).1 (printed sprintf f).0 rest)
          (sym gone)
          (ems_show-grid k w o source sink file sprintf malloc block 0 0 [] 1 rest refl
            (omega arith) tt alloc sized (omega arith) (omega arith) (omega arith) id num_matrix c
            (e ∙ reply ∙ bytes))
    | inr (v, found) ↦
        let (rows_fit, cols_fit, seats_fit, small) = subst Showable found fits in
        let full = (find-IsSound id vs v sound found).0.full in
        let reply =
          ap (λ b. with_code (shown b id vs) ++ rest) locked
          ∙ ap (λ r. with_code r ++ rest) (shown-found id vs v found)
          ∙ ap (λ l. (l ++ encode 4 0) ++ rest) (seats_of-whole v seats_fit full) in
        let size = encode_all 8 (v.rows ∷ v.cols ∷ []) in
        let seats = encode_all 4 v.seats in
        let bytes =
          append_assoc (size ++ seats) (encode 4 0) rest
          ∙ append_assoc size seats (encode 4 0 ++ rest) in
        let (block, alloc, sized) = memory (4 * (v.rows * v.cols)) in
        subst
          (λ f.
            Prints k w o source sink file (ems_show k w o sprintf malloc num_matrix id c) c
              (message (show id)) (printed sprintf f).1 (printed sprintf f).0 rest)
          (sym found)
          (ems_show-grid k w o source sink file sprintf malloc block v.rows v.cols v.seats 0 rest
            full seats_fit small alloc sized (omega arith) rows_fit cols_fit id num_matrix c
            (e ∙ reply ∙ bytes))
  ]

  -- The same for LIST and `ems_list_events`: with ids below 2^32, of less than 2^64 bytes, it has
  -- printed a line for each event in the order of creation, or that there is none, and returns 0.
  pub ems_list_events-served :
      AllBelow uint_mod (ids vs)
      → 4 * length (ids vs) < size_mod
      → source.lawful.left c.resp ≡ (answer os list vs).0 ++ rest
      → Prints k w o source sink file
          (ems_list_events k w o sprintf malloc c)
          c
          (message list)
          (list_text sprintf (ids vs))
          0
          rest
  ems_list_events-served small fits e =
      let count : length vs ≡ length (ids vs) = length-ids vs in
      let num = encode 8 (length vs) in
      let all = encode_all 4 (ids vs) in
      let reply = ap (λ b. with_code (listed b vs) ++ rest) locked in
      let bytes =
        append_assoc (num ++ all) (encode 4 0) rest
        ∙ append_assoc num all (encode 4 0 ++ rest)
        ∙ ap (λ n. encode 8 n ++ (all ++ (encode 4 0 ++ rest))) count in
      let (block, alloc, sized) = memory (4 * length (ids vs)) in
      ems_list_events-lines k w o source sink file sprintf malloc block (ids vs) 0 rest fits small
        alloc sized (omega arith) c (e ∙ reply ∙ bytes)
