-- ===== src/Logger/Balance.antt =====
-- Every function of the logger gives the bus back, and uses the card only while it has it.
use sky_sweep.Prelude.{
  ℕ, suc, ◌≡◌, refl, sym, ap, ◌⊎◌, ◌∷◌, ◌∙◌, false≢true, inl, inr, Bool, true, false, not, ◌||◌,
  Bool-cases, Option, none, some, Bytes, if◌then◌else◌, ltb, leb, take,
}
use sky_sweep.Prelude.Int.{ℤ}
use sky_sweep.Spi.Bus.{Bus}
use sky_sweep.Spi.Line.{line}
use sky_sweep.Spi.Lock.{acquire-cases}
use sky_sweep.Logger.Card.{
  Library, LogLevel, level_number, Format, DetectionLogEntry, Session, System, with_lock,
}
use sky_sweep.Logger.Rotation.{
  begin, begin_locked, begin_mounted, create_log_directory, end, rotate_logs_if_needed,
}
use sky_sweep.Logger.Entries.{
  note_written, write_line, log_detection, log_rf_data, log_drone_remote_id, log_system_event,
}
use sky_sweep.Logger.Export.{export_locked, export_to_json, export_to_csv, get_total_log_size}

-- One call of a function that uses the card, with what `millis` returns in it.
pub data Call (F : Type 0) : Type 0 where
  begins : ℕ → Call F
  ends sizes : Call F
  detects : ℕ → DetectionLogEntry F → Call F
  senses : ℕ → ℕ → Bytes → ℤ → F → Bytes → Call F
  identifies : ℕ → ℕ → Bytes → F → F → F → ℤ → Call F
  notes : ℕ → ℕ → LogLevel → Bytes → Call F
  exports_json exports_csv : Bytes → ℕ → ℕ → Call F

module _ {C F : Type 0} (sd : Library C) (f : Format F) where
  abbrev pub run : Bool → Call F → System C → System C
  run obtained (begins now) s = (begin sd f obtained now s).1
  run obtained ends s = end sd obtained s
  run obtained sizes s = (get_total_log_size sd obtained s).1
  run obtained (detects now entry) s = (log_detection sd f obtained now entry s).1
  run obtained (senses noted now m rssi freq protocol) s =
      (log_rf_data sd f obtained noted now m rssi freq protocol s).1
  run obtained (identifies now noted uas_id lat lon alt rssi) s =
      (log_drone_remote_id sd f obtained now noted uas_id lat lon alt rssi s).1
  run obtained (notes now noted level message) s =
      (log_system_event sd f obtained now noted level message s).1
  run obtained (exports_json path from until) s = (export_to_json sd obtained path from until s).1
  run obtained (exports_csv path from until) s = (export_to_csv sd obtained path from until s).1

-- What a locked body leaves alone.
abbrev Keeps : {C : Type 0} → System C → System C → Type 0
Keeps s t = (t.bus ≡ s.bus) × (t.sessions ≡ s.sessions)

-- A session on the bus as it was, but taken once more.
record Opens {C : Type 0} (sd : Library C) (b : Bus) (x : Session) : Type 0 where
  before : C
  behind : C
  taken : x.bus.taken ≡ suc b.taken
  same_traffic : x.bus.traffic ≡ b.traffic
  sends : x.after ≡ sd.traffic before behind x.bus.traffic

-- The bus is as before; without it so is everything; and there is no session, and the card as it
-- was, or one session.
record Gives {C : Type 0} (sd : Library C) (obtained : Bool) (s t : System C) : Type 0 where
  bus : t.bus ≡ s.bus
  refused : obtained ≡ false → t ≡ s
  sessions :
      ((t.sessions ≡ s.sessions) × (t.card ≡ s.card))
      ⊎ ((x : Session) × (t.sessions ≡ x ∷ s.sessions) × Opens sd s.bus x)

module _ {C : Type 0} (sd : Library C) where
  unchanged : (obtained : Bool) (s : System C) → Gives sd obtained s s
  unchanged obtained s = record { bus = refl; refused = λ h. refl; sessions = inl (refl, refl) }

  locked-Gives :
      {A : Type 0} (obtained : Bool) (refused : A) (body : System C → A × System C) (s : System C)
      → ((t : System C) → Keeps t (body t).1)
      → Gives sd obtained s (with_lock sd obtained refused body s).1
  unfolding with_lock
  locked-Gives obtained refused body s keeps = elim (acquire-cases obtained s.bus) [
    | inl late ↦ rw late (unchanged obtained s)
    | inr t ↦
        let locked = record s { bus = t.bus } in
        let used = (body locked).1 in
        let (same, quiet) = keeps locked in
        rw t.answers (record {
          bus = rw same t.given;
          refused = λ h. absurd (false≢true (sym h ∙ t.was_free));
          sessions = inr (
            record { bus = used.bus; after = sd.traffic s.card used.card used.bus.traffic },
            ap
                (◌∷◌
                  (record { bus = used.bus; after = sd.traffic s.card used.card used.bus.traffic }))
                quiet,
            record {
              before = s.card;
              behind = used.card;
              taken = ap (λ (b : Bus). b.taken) same ∙ t.once;
              same_traffic = ap (λ (b : Bus). b.traffic) same ∙ t.same_traffic;
              sends = refl;
            },
          );
        })
  ]

  guarded-Gives :
      {A : Type 0} (guard obtained : Bool) (refused : A) (body : System C → A × System C)
      (s : System C)
      → ((t : System C) → Keeps t (body t).1)
      → Gives sd obtained s (if guard then (refused, s) else with_lock sd obtained refused body s).1
  guarded-Gives true obtained refused body s keeps = unchanged obtained s
  guarded-Gives false obtained refused body s keeps = locked-Gives obtained refused body s keeps

module _ {C F : Type 0} (sd : Library C) (f : Format F) where
  rotate-Keeps : (now : ℕ) (s : System C) → Keeps s (rotate_logs_if_needed sd f now s)
  unfolding rotate_logs_if_needed
  rotate-Keeps now s =
      elim (Bool-cases (leb s.logger.log_rotation_size s.logger.current_file_size)) [
        | inl full ↦ rw full (refl, refl)
        | inr room ↦ rw room (refl, refl)
      ]

  noted-Keeps : (o : Option (ℕ × C)) (s : System C) → Keeps s (note_written o s).1
  unfolding note_written
  noted-Keeps none s = (refl, refl)
  noted-Keeps (some (n, c)) s = (refl, refl)

  mounted-Keeps : (now : ℕ) (s : System C) → Keeps s (begin_mounted sd f now s).1
  unfolding begin_mounted
  mounted-Keeps now s = elim (Bool-cases (create_log_directory sd s.card).0) [
    | inl created ↦ rw created (refl, refl)
    | inr missing ↦ rw missing (refl, refl)
  ]

  begin_locked-Keeps : (now : ℕ) (s : System C) → Keeps s (begin_locked sd f now s).1
  unfolding begin_locked
  begin_locked-Keeps now s = elim (Bool-cases (sd.mount s.card).0) [
    | inl mounted ↦ rw mounted (mounted-Keeps now (record s { card = (sd.mount s.card).1 }))
    | inr absent ↦ rw absent (refl, refl)
  ]

  write_line-Keeps :
      (now : ℕ) (log_line : Bytes) (s : System C) → Keeps s (write_line sd f now log_line s).1
  unfolding write_line
  write_line-Keeps now log_line s =
      let t = rotate_logs_if_needed sd f now s in
      let (same, quiet) = rotate-Keeps now s in
      let (same', quiet') =
        noted-Keeps (sd.append t.logger.current_log_file (take 255 log_line) t.card) t in
      (same' ∙ same, quiet' ∙ quiet)

  run-Gives :
      (obtained : Bool) (c : Call F) (s : System C) → Gives sd obtained s (run sd f obtained c s)
  unfolding begin end get_total_log_size export_locked log_detection log_rf_data log_drone_remote_id
      log_system_event export_to_json export_to_csv
  run-Gives obtained (begins now) s =
      locked-Gives sd obtained false (begin_locked sd f now) s (begin_locked-Keeps now)
  run-Gives obtained ends s = locked-Gives sd obtained tt _ s (λ t. (refl, refl))
  run-Gives obtained sizes s =
      guarded-Gives sd (not s.logger.sd_card_available) obtained 0 _ s (λ t. (refl, refl))
  run-Gives obtained (detects now entry) s =
      guarded-Gives sd (not s.logger.sd_card_available) obtained false _ s (write_line-Keeps now _)
  run-Gives obtained (senses noted now m rssi freq protocol) s =
      guarded-Gives sd (not s.logger.sd_card_available) obtained false _ s (write_line-Keeps now _)
  run-Gives obtained (identifies now noted uas_id lat lon alt rssi) s =
      guarded-Gives sd (not s.logger.sd_card_available) obtained false _ s (write_line-Keeps now _)
  run-Gives obtained (notes now noted level message) s =
      guarded-Gives sd
        (not s.logger.sd_card_available
          || ltb (level_number level) (level_number s.logger.minimum_log_level))
        obtained false _ s (write_line-Keeps now _)
  run-Gives obtained (exports_json path from until) s =
      guarded-Gives sd (not s.logger.sd_card_available) obtained false _ s (λ t. (refl, refl))
  run-Gives obtained (exports_csv path from until) s =
      guarded-Gives sd (not s.logger.sd_card_available) obtained false _ s (λ t. (refl, refl))

  pub run-bus : (obtained : Bool) (c : Call F) (s : System C) → (run sd f obtained c s).bus ≡ s.bus
  run-bus obtained c s = (run-Gives obtained c s).bus

-- The mutex is taken once more than the bus had it before, and what the card is sent leaves no chip
-- selected and breaks no rule of the bus.
pub record Held (b : Bus) (x : Session) : Type 0 where
  pub taken : x.bus.taken ≡ suc b.taken
  pub after_idle : line x.after ≡ some none

-- The bus and its mutex are given back; without the bus nothing changes; the card is as it was, or
-- it was used in one session under the mutex.
pub record Returns {C : Type 0} (obtained : Bool) (s t : System C) : Type 0 where
  pub bus : t.bus ≡ s.bus
  pub refused : obtained ≡ false → t ≡ s
  pub sessions :
      ((t.sessions ≡ s.sessions) × (t.card ≡ s.card))
      ⊎ ((x : Session) × (t.sessions ≡ x ∷ s.sessions) × Held s.bus x)
