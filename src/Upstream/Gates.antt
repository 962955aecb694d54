-- ===== src/Upstream/Gates.antt =====
-- `handle_text`: what the clock lets through.
use hypeha.Base.{
  ℕ, ◌+◌, ◌≤◌, ◌≡◌, refl, ◌⊎◌, inl, inr, true, false, Option, none, some, arith, Text, Bool-cases,
}
use hypeha.SubKey.{SubKey}
use hypeha.Stats.{count_from_future, count_too_old}
use hypeha.Entry.{Seq}
use hypeha.Hub.{AppState, with_source}
use hypeha.Hub.Update.{on_update}
use hypeha.Upstream.{
  Frame, Clock, route, handle_text, block_time_ms, future_time, old_time, is_from_future,
  is_too_old, as_millis,
}

-- The time of a frame lies within bounds: at most five seconds ahead of the clock, and no older
-- than the limit, if there is one.
abbrev pub NotAhead : Option ℕ → ℕ → Type 0
NotAhead none now = Unit {0}
NotAhead (some t) now = t ≤ now + 5_000

abbrev pub NotOld : Option ℕ → Option ℕ → ℕ → Type 0
NotOld none t now = Unit {0}
NotOld (some limit) none now = Unit {0}
NotOld (some limit) (some t) now = now ≤ t + as_millis limit

future_time_cases :
    (t : Option ℕ) (now : ℕ)
    → ((future_time t now ≡ false) × NotAhead t now)
      ⊎ ((future_time t now ≡ true) × ¬ NotAhead t now)
future_time_cases none now = inl (refl, tt)
future_time_cases (some t) now = elim (Bool-cases (is_from_future t now)) [
  | inl ahead ↦ inr (ahead, ground arith)
  | inr fine ↦ inl (fine, ground arith)
]

old_time_cases :
    (limit t : Option ℕ) (now : ℕ)
    → ((old_time limit t now ≡ false) × NotOld limit t now)
      ⊎ ((old_time limit t now ≡ true) × ¬ NotOld limit t now)
old_time_cases none t now = inl (refl, tt)
old_time_cases (some limit) none now = inl (refl, tt)
old_time_cases (some limit) (some t) now = elim (Bool-cases (is_too_old limit t now)) [
  | inl old ↦ inr (old, ground arith)
  | inr fine ↦ inl (fine, ground arith)
]

module _ {Q : Type 0} (try_send : Q → Text → Option Q) (parse : Text → Option Frame) where
  -- A text that is a frame that routes reaches the arbitration if its time lies within the bounds;
  -- else it counts once at its source, as ahead of the clock or as too old, and changes nothing
  -- else.
  pub handle_text_gates :
      (src : ℕ) (clock : Clock) (text : Text) (st : AppState Q) (frame : Frame) (key : SubKey)
      (seq : Seq)
      → parse text ≡ some frame
      → route frame ≡ some (key, seq)
      → let after = handle_text try_send parse src clock text st in
        let time = block_time_ms text in
        (NotAhead time clock.first_ms
          × NotOld st.max_age time clock.second_ms
          × (after ≡ on_update try_send src key seq clock.instant text st))
        ⊎ ((¬ NotAhead time clock.first_ms) × (after ≡ with_source src count_from_future st))
        ⊎ (NotAhead time clock.first_ms
            × (¬ NotOld st.max_age time clock.second_ms)
            × (after ≡ with_source src count_too_old st))
  unfolding handle_text
  handle_text_gates src clock text st frame key seq e r =
      elim (future_time_cases (block_time_ms text) clock.first_ms) [
        | inr (late, ahead) ↦
            inr (inl (ahead, rw (e, handle_text) (rw (r, handle_text) (rw late refl))))
        | inl (on_time, not_ahead) ↦
            elim (old_time_cases st.max_age (block_time_ms text) clock.second_ms) [
              | inl (young, not_old) ↦ inl (
                not_ahead,
                not_old,
                rw (e, handle_text) (rw (r, handle_text) (rw (on_time, young) refl)),
              )
              | inr (old, past) ↦ inr (
                  inr (
                    not_ahead,
                    past,
                    rw (e, handle_text) (rw (r, handle_text) (rw (on_time, old) refl)),
                  ))
            ]
      ]
