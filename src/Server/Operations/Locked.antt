-- ===== src/Server/Operations/Locked.antt =====
-- `reserve_event`, the part of `ems_reserve` that holds the event's mutex.
use so.Base.{ℕ, ◌≤◌, ◌≡◌, Bool, true, false, some, List, refl, sym, ap, if◌then◌else◌, length, ◌∙◌}
use so.Base.Nodes.{Ptr, ok, load_lem, write, write_self, write-write}
use so.Server.Store.{Event, Store, put_event, set_mutex}
use so.Server.Seats.Index.{IsRoom}
use so.Server.Seats.Request.{Coords, request}
use so.Server.Seats.Outcome.{reservation, reserved, grants, reserve_seats_lem}
use so.Server.Operations.{reserve_event}

pub set_mutex_lem :
    (b : Bool) (q : Ptr) (s : Store) (e : Event)
    → s.events q ≡ some e
    → set_mutex b q s ≡ ok (put_event s q (some (record e { mutex = b })))
unfolding set_mutex
set_mutex_lem b q s e at = rw (load_lem s.events q e at) refl

abbrev pub with_mutex : Bool → Event → Event
with_mutex b v = record v { mutex = b }

abbrev pub unlocked_result : ℕ × Event → ℕ × Event
unlocked_result (code, v) = (code, with_mutex false v)

-- A reservation neither reads nor changes the mutex.
reservation-mutex :
    (e : Event) (ps : Coords)
    → e.mutex ≡ false
    → unlocked_result (reservation (with_mutex true e) ps) ≡ reservation e ps
reservation-mutex e ps free = go (grants e ps)
  where
    go :
        (b : Bool)
        → unlocked_result
            (if b then (0, reserved (with_mutex true e) ps) else (1, with_mutex true e))
          ≡ (if b then (0, reserved e ps) else (1, e))
    go true = λ i. (0, with_mutex (sym free i) (reserved e ps))
    go false = λ i. (1, with_mutex (sym free i) e)

module _ (s : Store) (q : Ptr) (e : Event) (n : ℕ) (xs ys : List ℕ) where
  abbrev s₁ : Store
  s₁ = put_event s q (some (with_mutex true e))

  -- The store when the mutex is released, after the event became `v`.
  release :
      (v : Event)
      → set_mutex false q (put_event s₁ q (some v)) ≡ ok (put_event s q (some (with_mutex false v)))
  release v =
      set_mutex_lem false q (put_event s₁ q (some v)) v (write_self s₁.events q _)
      ∙ ap (λ h. ok (record s { events = h }))
          (write-write (write s.events q _) q _ _ ∙ write-write s.events q _ _)

  reserve_event_locked :
      s.events q ≡ some e
      → IsRoom e
      → n ≤ length xs
      → n ≤ length ys
      → reserve_event true q n xs ys s
        ≡ ok (
          (reservation (with_mutex true e) (request n xs ys)).0,
          put_event s q
              (some (with_mutex false (reservation (with_mutex true e) (request n xs ys)).1)),
        )
  unfolding reserve_event
  reserve_event_locked at room h k =
      let room' : IsRoom (with_mutex true e) = record { small = room.small; full = room.full } in
      rw
        (
          set_mutex_lem true q s e at,
          load_lem s₁.events q _ (write_self s.events q _),
          reserve_seats_lem (with_mutex true e) n xs ys room' h k,
          release (reservation (with_mutex true e) (request n xs ys)).1,
        )
        refl

  -- The mutex is free before and after, and the reservation does not depend on it.
  pub reserve_event_lem :
      s.events q ≡ some e
      → e.mutex ≡ false
      → IsRoom e
      → n ≤ length xs
      → n ≤ length ys
      → reserve_event true q n xs ys s
        ≡ ok (
          (reservation e (request n xs ys)).0,
          put_event s q (some (reservation e (request n xs ys)).1),
        )
  reserve_event_lem at free room h k =
      reserve_event_locked at room h k
      ∙ ap (λ r. ok (r.0, put_event s q (some r.1))) (reservation-mutex e (request n xs ys) free)
