-- ===== src/Input/Surface/Consumed.antt =====
-- platform/linux/input.c, consume_surface_report: how many events it consumes.
use gtscreen.Prelude.{
  ℕ, suc, ◌+◌, ◌-◌, ◌^◌, ◌≤◌, ◌<◌, ◌≡◌, refl, ap, inl, inr, ◌∙◌, true, false, Option, none, some,
  List, [], ◌∷◌, arith, ◌==◌, if◌then◌else◌, Bool-cases, length, drop,
}
use gtscreen.Input.Driver.{Pvt}
use gtscreen.Input.Surface.{Scan, Step, next, ended, overrun, Contact, InputEvent}
use gtscreen.Input.Surface.Events.{
  on_surface_event, scan_events, scan_start, reported, consume_surface_report,
}
use gtscreen.Input.Surface.Bounds.{Contacts, Slot}
use gtscreen.Input.Surface.Report.{consume_surface_report-InField}
use gtscreen.Input.Surface.Progress.{is_surface, is_ended, is_next, surface_goes, other_stops}

-- The number of multitouch events at the front.
abbrev pub run_length : List InputEvent → ℕ
run_length [] = 0
run_length (e ∷ es) = if is_surface e.code then suc (run_length es) else 0

-- All of the events, if they all are multitouch events; otherwise the last multitouch event at the
-- front is left, for the caller's loop to step over.
abbrev pub consumed : List InputEvent → ℕ
consumed es = if run_length es == length es then length es else run_length es - 1

-- The index after the loop.
abbrev end_index : List InputEvent → ℕ → ℕ
end_index es i = if run_length es == length es then i + length es else i + run_length es - 1

run_length-le : (es : List InputEvent) → run_length es ≤ length es
run_length-le [] = omega arith
run_length-le (e ∷ es) = ground (arith, run_length-le es)

module _ {F : Type 0} where
  scan_events-index :
      (es : List InputEvent) (i : ℕ) (s : Scan F) (j : ℕ) (t : Scan F)
      → scan_events es i s ≡ some (j, t)
      → j ≡ end_index es i
  unfolding scan_events
  scan_events-index [] i s j t h = ground arith
  scan_events-index (e ∷ es) i s j t h =
      go (on_surface_event e s) (surface_goes e s) (other_stops e s)
        (λ u k v. scan_events-index es (suc i) u k v) h
    where
      go :
          (r : Step F)
          → (is_surface e.code ≡ true → is_ended r ≡ false)
          → (is_surface e.code ≡ false → is_next r ≡ false)
          → ((u : Scan F) (k : ℕ) (v : Scan F)
              → scan_events es (suc i) u ≡ some (k, v)
              → k ≡ end_index es (suc i))
          → elim r [
            | next u ↦ scan_events es (suc i) u
            | ended u ↦ some (i - 1, u)
            | overrun ↦ none
          ]
            ≡ some (j, t)
          → j ≡ end_index (e ∷ es) i
      go (next u) f g ih h = elim (Bool-cases (is_surface e.code)) [
        | inl surface ↦ rw surface (ground (arith, ih u j t h, run_length-le es))
        | inr other ↦ absurd (ground (arith, g other))
      ]
      go (ended u) f g ih h = elim (Bool-cases (is_surface e.code)) [
        | inl surface ↦ absurd (ground (arith, f surface))
        | inr other ↦ rw other (ground arith)
      ]
      go overrun f g ih h = absurd (ground arith)

  reported-index :
      (start : ℕ) (o : Option (ℕ × Scan F)) (es : List InputEvent) (n : ℕ) (pvt : Pvt F)
      (sent : List Contact)
      → ((j : ℕ) (t : Scan F) → o ≡ some (j, t) → j ≡ end_index es start)
      → 0 < run_length es
      → start + length es < 2 ^ 32
      → reported start o ≡ some (n, pvt, sent)
      → n ≡ consumed es
  unfolding reported
  reported-index start none es n pvt sent f some_run fits h = absurd (ground arith)
  reported-index start (some (j, t)) es n pvt sent f some_run fits h =
      ground (arith, f j t refl, run_length-le es)

-- Started at a multitouch event, consume_surface_report consumes what its caller may pass over: with
-- the step of the caller's loop, the next event that is looked at is the first from `start` on that
-- is no multitouch event, or there is none.
pub consume_surface_report-consumed :
    {F : Type 0} (events : List InputEvent) (start : ℕ) (pvt : Pvt F)
    → Contacts pvt
    → Slot pvt.active_contact
    → 0 < run_length (drop start events)
    → start + length (drop start events) < 2 ^ 32
    → (pvt' : Pvt F) × (sent : List Contact) × (consume_surface_report events start pvt
        ≡ some (consumed (drop start events), pvt', sent))
unfolding consume_surface_report
consume_surface_report-consumed events start pvt h slot some_run fits =
    let r = consume_surface_report-InField events start pvt h slot in
    let n : r.0 ≡ consumed (drop start events) =
      reported-index start (scan_events (drop start events) start (scan_start pvt))
        (drop start events) r.0 r.1 r.2
        (λ j t e. scan_events-index (drop start events) start (scan_start pvt) j t e) some_run fits
        r.3 in
    (r.1, r.2, r.3 ∙ ap (λ (k : ℕ). some (k, r.1, r.2)) n)
