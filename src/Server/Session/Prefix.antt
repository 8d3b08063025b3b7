-- ===== src/Server/Session/Prefix.antt =====
-- `handle_requests` while a client sends requests: the rounds up to what follows them.
use so.Base.{
  ℕ, zero, suc, ◌+◌, ◌<◌, ◌≡◌, Bool, false, List, [], ◌∷◌, ◌++◌, refl, sym, ap, ◌∙◌, arith, length,
  take, ◌==◌,
}
use mathlib.Core.List.{append-nil, append_assoc}
use so.Base.Nodes.{Run, ok}
use so.Base.Outcome.{next}
use so.Common.Bytes.{encode, decode}
use so.Common.Kernel.{Reader, Writer}
use so.Common.Io.Whole.{IsSource, IsSink}
use so.Common.Protocol.{Request, create, reserve, show, list, op_code, message, Fits}
use so.Server.Store.{Event}
use so.Server.Database.{IsSound}
use so.Server.Operations.{Ems}
use so.Server.Operations.State.{Repr}
use so.Server.Operations.NewEvent.{IsFresh}
use so.Server.Session.{Session, Answers, round, requests, op_none, op_quit}
use so.Server.Session.Request.{answer, length-answer}
use so.Server.Session.Round.{round_lem}

abbrev pub messages : List Request → List ℕ
messages [] = []
messages (q ∷ qs) = message q ++ messages qs

abbrev pub AllFit : List Request → Type 0
AllFit [] = Unit {0}
AllFit (q ∷ qs) = Fits q × AllFit qs

-- The abstract server over a list of requests, with what the C library answered in each round.
abbrev pub conversation : List Answers → List Request → List Event → List ℕ × List Event
conversation given [] vs = ([], vs)
conversation [] (q ∷ qs) vs = ([], vs)
conversation (a ∷ given) (q ∷ qs) vs = (
  (answer a q vs).0 ++ (conversation given qs (answer a q vs).1).0,
  (conversation given qs (answer a q vs).1).1,
)

pub none_is_no_quit : (decode (take 1 (encode 1 op_none)) == op_quit) ≡ false
unfolding encode decode
none_is_no_quit = refl

module _ (k : Reader) (w : Writer) (is_epipe : w.Fd → Bool) where
  -- The answers are those of the rounds from `i` on, each in the state that the round finds when the
  -- rounds before it are done, from the session `s` on.
  abbrev pub Given : (fuel : ℕ) → (ℕ → Ems → Answers) → ℕ → Session k w → List Answers → Type 0
  Given fuel os i s [] = Unit {0}
  Given fuel os i s (a ∷ given) =
      (a ≡ os i s.ems)
      × ((s' : Session k w) × (round k w is_epipe fuel (os i) s ≡ ok (next s'))
          × Given fuel os (i + 1) s' given)

module _ (k : Reader) (w : Writer) (is_epipe : w.Fd → Bool) (source : IsSource k)
    (sink : IsSink w) where
  not_quit : (q : Request) → (op_code q == op_quit) ≡ false
  not_quit (create id rows cols) = refl
  not_quit (reserve id n xs ys) = refl
  not_quit (show id) = refl
  not_quit list = refl

  -- A run that has served the requests `qs` and is where the run of the loop in the last state is,
  -- with `rest` to read.
  abbrev pub Continues :
      ℕ
      → (ℕ → Ems → Answers)
      → ℕ
      → ℕ
      → Run (ℕ × Session k w)
      → Session k w
      → List Request
      → List ℕ
      → List Event
      → Type 0
  Continues fuel os i rounds run s qs rest vs =
      (given : List Answers) × (s' : Session k w) × (run
        ≡ requests k w is_epipe fuel rounds os (i + length qs) s')
      × (length given ≡ length qs)
      × Given k w is_epipe fuel os i s given
      × (source.lawful.left s'.req ≡ rest)
      × (sink.lawful.sent s'.resp ≡ sink.lawful.sent s.resp ++ (conversation given qs vs).0)
      × Repr s'.ems (conversation given qs vs).1
      × IsSound (conversation given qs vs).1
      × ((decode (take 1 s'.locals.op) == op_quit) ≡ false)

  pub requests_lem :
      (fuel rounds total : ℕ) (os : ℕ → Ems → Answers) (i : ℕ) (s : Session k w) (vs : List Event)
      (qs : List Request) (rest : List ℕ)
      → ((j : ℕ) (m : Ems) → IsFresh (os j m).create m.store)
      → Repr s.ems vs
      → IsSound vs
      → length vs + length qs < fuel
      → rounds + length qs ≡ total
      → source.lawful.left s.req ≡ messages qs ++ rest
      → AllFit qs
      → (decode (take 1 s.locals.op) == op_quit) ≡ false
      → Continues fuel os i rounds (requests k w is_epipe fuel total os i s) s qs rest vs
  unfolding requests
  requests_lem fuel rounds total os i s vs [] rest fresh r sound h enough e fit going =
      let same : total ≡ rounds = omega arith in
      let here : i ≡ i + 0 = omega arith in
      (
        [],
        s,
        λ j. requests k w is_epipe fuel (same j) os (here j) s,
        refl,
        tt,
        e,
        sym (append-nil (sink.lawful.sent s.resp)),
        r,
        sound,
        going,
      )
  requests_lem fuel rounds zero os i s vs (q ∷ qs) rest fresh r sound h enough e fit going =
      absurd (omega arith)
  requests_lem fuel rounds (suc f) os i s vs (q ∷ qs) rest fresh r sound h enough e fit going =
      let a = os i s.ems in
      let (s₁, run, left, sent, r₁, sound₁, op) =
        round_lem k w is_epipe source sink fuel (os i) s vs q (messages qs ++ rest) r sound
          (omega arith) (e ∙ append_assoc (message q) (messages qs) rest) fit.0 (fresh i s.ems) in
      let (given, s', ran, len, were_given, left', sent', r', sound', going') =
        requests_lem fuel rounds f os (i + 1) s₁ (answer a q vs).1 qs rest fresh r₁ sound₁
          (omega (arith, length-answer a q vs)) (omega arith) left fit.1
          (ap (λ c. c == op_quit) op ∙ not_quit q) in
      let last : i + 1 + length qs ≡ i + length (q ∷ qs) = omega arith in
      (
        a ∷ given,
        s',
        rw (requests, going, run) (ran ∙ ap (λ n. requests k w is_epipe fuel rounds os n s') last),
        ap suc len,
        (refl, (s₁, run, were_given)),
        left',
        sent'
            ∙ ap (λ b. b ++ (conversation given qs (answer a q vs).1).0) sent
            ∙ append_assoc (sink.lawful.sent s.resp) (answer a q vs).0
                (conversation given qs (answer a q vs).1).0,
        r',
        sound',
        going',
      )
