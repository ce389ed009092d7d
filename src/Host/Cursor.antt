-- ===== src/Host/Cursor.antt =====
-- src/resident/host.rs: the window of recent events, and what a client that comes back is sent of it.
use mathlib.Core.List.{append_assoc}
use turtletap.Prelude.{
  ℕ, suc, ◌+◌, ◌≤◌, ◌<◌, ◌≡◌, refl, sym, ap, subst, true, false, ◌∙◌, Bool-cases, Option, none,
  some, Every, Every-append, List, [], ◌∷◌, ◌++◌, arith, ltb, leb, length, inl, inr,
}
use turtletap.Protocol.{EventSequence, saturating_add, u64_max}
use turtletap.Host.Emit.{trim_events}
use turtletap.Host.Replay.{events_after, replay_from}

reaches :
    (cursor oldest : EventSequence)
    → leb oldest (saturating_add cursor 1) ≡ true
    → oldest ≤ suc cursor
unfolding saturating_add
reaches cursor oldest h = ground arith

beyond :
    (cursor oldest : EventSequence)
    → oldest ≤ u64_max
    → leb oldest (saturating_add cursor 1) ≡ false
    → cursor + 1 < oldest
unfolding saturating_add
beyond cursor oldest word h = ground arith

module _ {E : Type 0} where
  -- The sequences of a log rise, from one on.
  abbrev pub Rises : EventSequence → List (EventSequence × E) → Type 0
  Rises from [] = Unit {0}
  Rises from (e ∷ es) = (from ≤ e.0) × Rises (suc e.0) es

  -- The window holds the newest events of the log, at most as many as the host keeps.
  pub record IsWindow (limit : ℕ) (log window : List (EventSequence × E)) : Type 0 where
    pub older : List (EventSequence × E)
    pub suffix : log ≡ older ++ window
    pub bounded : length window ≤ limit

  pub trim_events-split :
      (limit : ℕ) (es : List (EventSequence × E))
      → (older : List (EventSequence × E)) × (es ≡ older ++ trim_events limit es)
        × (length (trim_events limit es) ≤ limit)
  unfolding trim_events
  trim_events-split limit [] = ([], refl, omega arith)
  trim_events-split limit (e ∷ es) =
      let (older, same, few) = trim_events-split limit es in
      elim (Bool-cases (ltb limit (suc (length es)))) [
        | inl much ↦ rw much (e ∷ older, ap (◌∷◌ e) same, few)
        | inr fits ↦ rw fits ([], refl, ground arith)
      ]

  -- Where the host keeps the newest events of a log, at most as many as its limit, it does so again
  -- with an event at the end of the log and of the window, trimmed.
  pub trim_events-IsWindow :
      (limit : ℕ) (log window : List (EventSequence × E)) (e : EventSequence × E)
      → IsWindow limit log window
      → IsWindow limit (log ++ e ∷ []) (trim_events limit (window ++ e ∷ []))
  trim_events-IsWindow limit log window e w =
      let (older, same, few) = trim_events-split limit (window ++ e ∷ []) in
      record {
        older = w.older ++ older;
        suffix =
            ap (λ xs. xs ++ e ∷ []) w.suffix
            ∙ append_assoc w.older window (e ∷ [])
            ∙ ap (λ xs. w.older ++ xs) same
            ∙ sym (append_assoc w.older older (trim_events limit (window ++ e ∷ [])));
        bounded = few;
      }

  -- Of a log, the events behind a cursor: all that come before them are at the cursor at most.
  pub record IsBehind (cursor : EventSequence) (log events : List (EventSequence × E))
      : Type 0 where
    pub seen : List (EventSequence × E)
    pub all : log ≡ seen ++ events
    pub old : Every (λ (e : EventSequence × E). e.0 ≤ cursor) seen
    pub new : Every (λ (e : EventSequence × E). cursor < e.0) events

  -- The window is empty, or begins behind the event that follows the cursor.
  abbrev pub OutOfReach : EventSequence → List (EventSequence × E) → Type 0
  OutOfReach cursor [] = Unit {0}
  OutOfReach cursor (oldest ∷ window) = cursor + 1 < oldest.0

  -- The events that are sent again, or none where a snapshot is sent.
  abbrev pub Resumed :
      EventSequence
      → List (EventSequence × E)
      → List (EventSequence × E)
      → Option (List (EventSequence × E))
      → Type 0
  Resumed cursor log window none = OutOfReach cursor window
  Resumed cursor log window (some events) = IsBehind cursor log events

  Rises-behind :
      (cursor from : EventSequence) (es : List (EventSequence × E))
      → Rises from es
      → cursor < from
      → Every (λ (e : EventSequence × E). cursor < e.0) es
  Rises-behind cursor from [] rises h = tt
  Rises-behind cursor from (e ∷ es) (low, rises) h =
      (omega arith, Rises-behind cursor (suc e.0) es rises (omega arith))

  events_after-all :
      (cursor : EventSequence) (es : List (EventSequence × E))
      → Every (λ (e : EventSequence × E). cursor < e.0) es
      → events_after cursor es ≡ es
  unfolding events_after
  events_after-all cursor [] new = refl
  events_after-all cursor (e ∷ es) (new, more) = ground (arith, events_after-all cursor es more)

  -- Of a rising list, the filter takes the events behind the cursor.
  events_after-IsBehind :
      (cursor from : EventSequence) (es : List (EventSequence × E))
      → Rises from es
      → IsBehind cursor es (events_after cursor es)
  unfolding events_after
  events_after-IsBehind cursor from [] rises = record { seen = []; all = refl; old = tt; new = tt }
  events_after-IsBehind cursor from (e ∷ es) (low, rises) =
      let later = events_after-IsBehind cursor (suc e.0) es rises in
      elim (Bool-cases (ltb cursor e.0)) [
        | inl behind ↦
            let new = Rises-behind cursor (suc e.0) es rises (ground arith) in
            rw (behind, events_after-all cursor es new)
              (record { seen = []; all = refl; old = tt; new = (ground arith, new) })
        | inr seen ↦ rw seen (record {
          seen = e ∷ later.seen;
          all = ap (◌∷◌ e) later.all;
          old = (ground arith, later.old);
          new = later.new;
        })
      ]

  Rises-tail :
      (from : EventSequence) (older window : List (EventSequence × E))
      → Rises from (older ++ window)
      → (next : EventSequence) × Rises next window
  Rises-tail from [] window rises = (from, rises)
  Rises-tail from (e ∷ older) window rises = Rises-tail (suc e.0) older window rises.1

  -- What stands in a rising log before an event has smaller sequences.
  older-seen :
      (cursor from : EventSequence) (older window : List (EventSequence × E))
      (e : EventSequence × E)
      → Rises from (older ++ e ∷ window)
      → e.0 ≤ suc cursor
      → Every (λ (e : EventSequence × E). e.0 ≤ cursor) older
  older-seen cursor from [] window e rises near = tt
  older-seen cursor from (x ∷ xs) window e rises near =
      let below = rises_below (suc x.0) xs window e rises.1 in
      (omega (arith, below), older-seen cursor (suc x.0) xs window e rises.1 near)
    where
      rises_below :
          (from : EventSequence) (xs window : List (EventSequence × E)) (e : EventSequence × E)
          → Rises from (xs ++ e ∷ window)
          → from ≤ e.0
      rises_below from [] window e rises = rises.0
      rises_below from (x ∷ xs) window e rises =
          let more = rises_below (suc x.0) xs window e rises.1 in omega (arith, rises.0)

  IsBehind-older :
      (cursor : EventSequence) (older window events : List (EventSequence × E))
      → Every (λ (e : EventSequence × E). e.0 ≤ cursor) older
      → IsBehind cursor window events
      → IsBehind cursor (older ++ window) events
  IsBehind-older cursor older window events old b = record {
    seen = older ++ b.seen;
    all = ap (λ xs. older ++ xs) b.all ∙ sym (append_assoc older b.seen events);
    old = Every-append (λ (e : EventSequence × E). e.0 ≤ cursor) older b.seen old b.old;
    new = b.new;
  }

  -- Where the sequences of a session's log rise, the host keeps a window of its newest events, and the
  -- cursor and the sequences of the window are u64s: to a client that comes back with the cursor, the
  -- host sends the part of the log behind the cursor, whose events come later than the cursor where
  -- all before them do not; or it sends none, and the window is empty or its first event is not the
  -- next one behind the cursor nor an earlier one.
  pub replay_from_complete :
      (limit : ℕ) (log window : List (EventSequence × E)) (cursor : EventSequence)
      → Rises 0 log
      → cursor ≤ u64_max
      → Every (λ (e : EventSequence × E). e.0 ≤ u64_max) window
      → IsWindow limit log window
      → Resumed cursor log window (replay_from (some cursor) window)
  unfolding replay_from
  replay_from_complete limit log [] cursor rises word words w = tt
  replay_from_complete limit log (oldest ∷ window) cursor rises word words w =
      let risen = subst (Rises 0) w.suffix rises in
      elim (Bool-cases (leb oldest.0 (saturating_add cursor 1))) [
        | inl near ↦
            let old =
              older-seen cursor 0 w.older window oldest risen (reaches cursor oldest.0 near) in
            let (next, rising) = Rises-tail 0 w.older (oldest ∷ window) risen in
            let sent = events_after-IsBehind cursor next (oldest ∷ window) rising in
            rw near (
              subst (λ l. IsBehind cursor l (events_after cursor (oldest ∷ window))) (sym w.suffix)
                (IsBehind-older cursor w.older (oldest ∷ window) _ old sent))
        | inr far ↦ rw far (beyond cursor oldest.0 words.0 far)
      ]
