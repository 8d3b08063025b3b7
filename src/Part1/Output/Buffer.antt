-- ===== src/Part1/Output/Buffer.antt =====
-- The buffer of `ems_show` and `ems_list_events` of Part 1: nothing is written past its end, and the
-- text in the file and in the buffer together is what was put.
use so.Base.{
  ℕ, ◌+◌, ◌-◌, ◌≤◌, ◌<◌, ◌≡◌, Bool, true, false, List, [], ◌∷◌, ◌++◌, refl, sym, ap, ◌∙◌, arith,
  leb, ltb, length, length-append, Bool-cases, inl, inr,
}
use mathlib.Core.List.{append_assoc, append-nil}
use so.Base.Nodes.{Run, ok}
use so.Base.Outcome.{Outcome, returned, next}
use so.Common.Kernel.{Writer}
use so.Common.Io.Whole.{IsSink}
use so.Part1.Io.{safe_write_whole}
use so.Part1.Operations.{Ems, set_file_lock}
use so.Part1.Output.{
  Printer, buffer_flush_thold, put_text, put_char, lock_file, write_out, flush, finish,
}

module _ (k : Writer) (s : IsSink k) (bufsiz : ℕ) (sprintf : ℕ → List ℕ) (fuel : ℕ)
    (enough : bufsiz < fuel) (large : buffer_flush_thold < bufsiz) where
  -- At least `room` bytes of the buffer are free, and the file is locked after the first write.
  abbrev pub Holds : Ems → ℕ → Printer k → Type 0
  Holds base room c = (length c.buffer + room ≤ bufsiz) × (c.ems ≡ set_file_lock c.flushes base)

  -- What has been put so far.
  abbrev pub content : Printer k → List ℕ
  content c = s.lawful.sent c.out ++ c.buffer

  -- A part that puts the text and goes on with at least `room` free bytes.
  abbrev pub Puts : Ems → Run (Outcome (Printer k)) → Printer k → List ℕ → ℕ → Type 0
  Puts base run c text room =
      (c' : Printer k) × (run ≡ ok (next c'))
      × (content c' ≡ content c ++ text)
      × Holds base room c'

  module _ (base : Ems) where
    pub put_text_lem :
        (text : List ℕ) (c : Printer k) (room left : ℕ)
        → Holds base room c
        → length text + left ≤ room
        → 0 < left
        → Puts base (put_text k bufsiz sprintf fuel text c) c text left
    unfolding put_text
    put_text_lem text c room left holds fits some_left =
        let inside : ltb (length c.buffer + length text) bufsiz ≡ true = ground (arith, holds.0) in
        (
          record c { buffer = c.buffer ++ text },
          rw inside refl,
          sym (append_assoc (s.lawful.sent c.out) c.buffer text),
          (omega (arith, length-append c.buffer text, holds.0), holds.1),
        )

    pub put_char_lem :
        (ch : ℕ) (c : Printer k) (room left : ℕ)
        → Holds base room c
        → 1 + left ≤ room
        → Puts base (put_char k bufsiz sprintf fuel ch c) c (ch ∷ []) left
    unfolding put_char
    put_char_lem ch c room left holds fits =
        let inside : ltb (length c.buffer) bufsiz ≡ true = ground (arith, holds.0) in
        (
          record c { buffer = c.buffer ++ ch ∷ [] },
          rw inside refl,
          sym (append_assoc (s.lawful.sent c.out) c.buffer (ch ∷ [])),
          (omega (arith, length-append c.buffer (ch ∷ []), holds.0), holds.1),
        )

    abbrev locked : List ℕ → k.Fd → Printer k
    locked buffer out = record {
      buffer = buffer;
      flushes = true;
      ems = set_file_lock true base;
      out = out;
    }

    lock_file_lem :
        (b : Bool) (buffer : List ℕ) (m : Ems) (out : k.Fd)
        → m ≡ set_file_lock b base
        → lock_file k bufsiz sprintf fuel
            (record { buffer = buffer; flushes = b; ems = m; out = out })
          ≡ locked buffer out
    lock_file_lem true buffer m out e =
        λ i. record { buffer = buffer; flushes = true; ems = e i; out = out }
    lock_file_lem false buffer m out e =
        λ i. record { buffer = buffer; flushes = true; ems = set_file_lock true (e i); out = out }

    write_out_lem :
        (release : Ems → Ems) (c : Printer k)
        → length c.buffer ≤ bufsiz
        → (out : k.Fd) × (write_out k bufsiz sprintf fuel release c
            ≡ ok (next (record c { buffer = []; out = out })))
          × (s.lawful.sent out ≡ content c)
    unfolding write_out
    write_out_lem release c h =
        let (out, run, sent) = safe_write_whole k s fuel c.buffer c.out (omega (arith, enough)) in
        (out, rw run refl, sent)

    pub flush_lem :
        (release : Ems → Ems) (c : Printer k)
        → Holds base 0 c
        → Puts base (flush k bufsiz sprintf fuel release c) c [] (buffer_flush_thold + 1)
    unfolding flush
    flush_lem release c holds =
        elim (Bool-cases (leb (bufsiz - length c.buffer) buffer_flush_thold)) [
          | inl full ↦
              let c₁ = locked c.buffer c.out in
              let (out, run, sent) = write_out_lem release c₁ (omega (arith, holds.0)) in
              (
                record c₁ { buffer = []; out = out },
                rw full (
                    ap (write_out k bufsiz sprintf fuel release)
                      (lock_file_lem c.flushes c.buffer c.ems c.out holds.1)
                    ∙ run),
                ap (λ l. l ++ []) sent,
                (omega (arith, large), refl),
              )
          | inr free ↦
              (c, rw free refl, sym (append-nil (content c)), (ground (arith, holds.0), holds.1))
        ]

    -- The last write: the file has the whole text, and is unlocked.
    pub finish_lem :
        (release : Ems → Ems) (c : Printer k)
        → Holds base 0 c
        → (c' : Printer k) × (finish k bufsiz sprintf fuel release c ≡ ok (returned 0 c'))
          × (s.lawful.sent c'.out ≡ content c)
          × (c'.ems ≡ release (set_file_lock false base))
    unfolding finish
    finish_lem release c holds =
        finish_by c.flushes c.buffer c.ems c.out (omega (arith, holds.0)) holds.1
      where
        finish_by :
            (b : Bool) (buffer : List ℕ) (m : Ems) (out : k.Fd)
            → length buffer ≤ bufsiz
            → m ≡ set_file_lock b base
            → (c' : Printer k) × (finish k bufsiz sprintf fuel release
                  (record { buffer = buffer; flushes = b; ems = m; out = out })
                ≡ ok (returned 0 c'))
              × (s.lawful.sent c'.out ≡ s.lawful.sent out ++ buffer)
              × (c'.ems ≡ release (set_file_lock false base))
        finish_by true buffer m out h e =
            let c₁ : Printer k = record { buffer = buffer; flushes = true; ems = m; out = out } in
            let (out', run, sent) = write_out_lem release c₁ h in
            (
              record c₁ { buffer = []; out = out'; ems = release (set_file_lock false m) },
              rw run refl,
              sent,
              ap (λ q. release (set_file_lock false q)) e,
            )
        finish_by false buffer m out h e =
            let c₁ : Printer k = record {
              buffer = buffer;
              flushes = false;
              ems = set_file_lock true m;
              out = out;
            } in
            let (out', run, sent) = write_out_lem release c₁ h in
            (
              record c₁ { buffer = []; out = out'; ems = release (set_file_lock false m) },
              rw run refl,
              sent,
              ap (λ q. release (set_file_lock false q)) e,
            )
