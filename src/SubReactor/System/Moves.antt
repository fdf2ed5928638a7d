-- ===== src/SubReactor/System/Moves.antt =====
-- sub_reactor.cpp: what an event of a client's descriptor keeps, by the handlers that it calls.
use reactor_web_server.Common.{
  either_way, ℕ, ◌<◌, refl, ◌&&◌, Option, none, some, [], inl, inr, Bool-cases, arith,
}
use reactor_web_server.Common.Text.{Bytes}
use reactor_web_server.Http.Resource.{Files}
use reactor_web_server.SubReactor.{SubReactor, max_fd}
use reactor_web_server.SubReactor.Handlers.{deal_read, deal_write, handle_wakeup, handle_timeout}
use reactor_web_server.SubReactor.Events.{
  Flags, Kernel, owns, on_readable, on_writable, on_broken, handle_event,
}
use reactor_web_server.SubReactor.Slots.{KeepsSlots, SlotsAfter, close_connection-KeepsSlots}
use reactor_web_server.SubReactor.Slots.Handling.{
  deal_read-SlotsAfter, deal_write-SlotsAfter, handle_all-KeepsSlots, handle_timeout-KeepsSlots,
}
use reactor_web_server.SubReactor.Watch.{Watched}
use reactor_web_server.SubReactor.Watch.Effects.{Looks-Watched, close-Looks}
use reactor_web_server.SubReactor.Watch.Handling.{LooksAfter, deal_read-Looks, deal_write-Looks}
use reactor_web_server.SubReactor.Watch.Turns.{handle_wakeup-Watched}
use reactor_web_server.SubReactor.Watch.Expiry.{handle_timeout-Watched}

module _ (own : ℕ → Type 0) where
  -- Both invariants at once.
  pub record IsSound (s : SubReactor) : Type 0 where
    pub slots : KeepsSlots own s
    pub watch : Watched [] s

  abbrev pub SoundAfter : Option SubReactor → Type 0
  SoundAfter none = Unit
  SoundAfter (some t) = IsSound t

  module _ (fs : Files) (root : Bytes) (fd : ℕ) where
    abbrev FitsAfter : SubReactor → Option SubReactor → Type 0
    FitsAfter s o = SlotsAfter own o × LooksAfter fs root fd [] s o

    SoundAfter-Fits :
        (s : SubReactor) (o : Option SubReactor)
        → fd < max_fd
        → IsSound s
        → FitsAfter s o
        → SoundAfter o
    SoundAfter-Fits s none lt h f = tt
    SoundAfter-Fits s (some t) lt h (k, l) = record {
      slots = k;
      watch = Looks-Watched fd [] [] s t lt l h.watch;
    }

  module _ (fs : Files) (root : Bytes) (fd now : ℕ) (k : Kernel) (ev : Flags)
      (lt : fd < max_fd) where
    on_readable-SoundAfter :
        (s : SubReactor) → IsSound s → SoundAfter (on_readable fs root fd now k ev s)
    unfolding on_readable
    on_readable-SoundAfter s h =
        either_way SoundAfter ev.readable (deal_read fs root s fd now k.reads) (some s)
          (SoundAfter-Fits fs root fd s (deal_read fs root s fd now k.reads) lt h (
            deal_read-SlotsAfter own fs root fd s now k.reads h.slots,
            deal_read-Looks fs root fd [] s (omega (arith, lt, h.watch.table)) now k.reads,
          ))
          h

    on_writable-SoundAfter :
        (s : SubReactor) → IsSound s → SoundAfter (on_writable fs root fd now k ev s)
    unfolding on_writable
    on_writable-SoundAfter s h =
        let o = deal_write fs root s fd now k.file k.errno k.writes in
        either_way SoundAfter (owns s fd && ev.writable) o (some s)
          (SoundAfter-Fits fs root fd s o lt h (
            deal_write-SlotsAfter own fs root fd s now k.file k.errno k.writes h.slots,
            deal_write-Looks fs root fd [] s now k.file k.errno k.writes
                (omega (arith, lt, h.watch.table)),
          ))
          h

    on_broken-IsSound : (s : SubReactor) → IsSound s → IsSound (on_broken fs root fd now k ev s)
    unfolding on_broken
    on_broken-IsSound s h = elim (Bool-cases (owns s fd && ev.broken)) [
      | inl e ↦ rw e (record {
        slots = close_connection-KeepsSlots own s fd h.slots;
        watch = Looks-Watched fd [] [] s _ lt (close-Looks s fd [] s.users (λ g ne. refl)) h.watch;
      })
      | inr e ↦ rw e h
    ]

    written :
        (o : Option SubReactor)
        → SoundAfter o
        → SoundAfter (elim o [ none ↦ none | some u ↦ some (on_broken fs root fd now k ev u) ])
    written none h = tt
    written (some u) h = on_broken-IsSound u h

    read :
        (o : Option SubReactor)
        → SoundAfter o
        → SoundAfter (elim o [
          | none ↦ none
          | some t ↦ elim (on_writable fs root fd now k ev t) [
            | none ↦ none
            | some u ↦ some (on_broken fs root fd now k ev u)
          ]
        ])
    read none h = tt
    read (some t) h = written (on_writable fs root fd now k ev t) (on_writable-SoundAfter t h)

    pub handle_event-SoundAfter :
        (s : SubReactor) → IsSound s → SoundAfter (handle_event fs root fd now k ev s)
    unfolding handle_event
    handle_event-SoundAfter s h =
        read (on_readable fs root fd now k ev s) (on_readable-SoundAfter s h)

  pub handle_wakeup-IsSound : (s : SubReactor) (now : ℕ) → IsSound s → IsSound (handle_wakeup s now)
  unfolding handle_wakeup
  handle_wakeup-IsSound s now h = record {
    slots = handle_all-KeepsSlots own (record s { msgs = [] }) s.msgs now h.slots;
    watch = handle_wakeup-Watched s now h.watch;
  }

  pub handle_timeout-IsSound :
      (s : SubReactor) (now later : ℕ) → IsSound s → IsSound (handle_timeout s now later)
  handle_timeout-IsSound s now later h = record {
    slots = handle_timeout-KeepsSlots own s now later h.slots;
    watch = handle_timeout-Watched s now later h.watch;
  }
