-- ===== src/Firmware/Stealth.antt =====
-- The display and the stealth mode.
use sky_sweep.Prelude.{
  ℕ, suc, ◌≡◌, refl, ap, ◌∙◌, inl, inr, Bool, true, false, false≢true, Bool-cases, List, [], ◌∷◌,
  ◌++◌, if◌then◌else◌, map, Bytes, ◌+◌, ◌*◌,
}
use sky_sweep.Prelude.Int.{ℤ, pos, leb_ℤ}
use sky_sweep.Activity.Classifier.{Activity}
use sky_sweep.Gnss.Receiver.{GpsModule, is_fix_valid}
use sky_sweep.Monitor.Sweep.{Receiver}
use sky_sweep.Firmware.Screen.{
  Drawing, Texts, power_save, clear_buffer, send_buffer, set_font, draw_str, draw_line, draw_frame,
  draw_box, draw_row, draw_rows, draw_state, draw_page, follow_stealth,
}
use sky_sweep.Firmware.World.{
  Libraries, World, Effect, frame, dashboard, pins, screen, starts_scan, receiver_names,
}
use sky_sweep.Firmware.Duties.{refresh_display}

-- Whether the panel saves power after some calls, and whether a call is about that.
abbrev panel : List Drawing → Bool → Bool
panel [] saves = saves
panel (power_save b ∷ ds) saves = panel ds b
panel (clear_buffer ∷ ds) saves = panel ds saves
panel (send_buffer ∷ ds) saves = panel ds saves
panel (set_font f ∷ ds) saves = panel ds saves
panel (draw_str x y t ∷ ds) saves = panel ds saves
panel (draw_line x y u v ∷ ds) saves = panel ds saves
panel (draw_frame x y u v ∷ ds) saves = panel ds saves
panel (draw_box x y u v ∷ ds) saves = panel ds saves

-- The calls on the display among the effects.
abbrev pub drawn : {F : Type 0} → List (Effect F) → List Drawing
drawn [] = []
drawn (screen d ∷ es) = d ∷ drawn es
drawn (frame a b ∷ es) = drawn es
drawn (dashboard m ∷ es) = drawn es
drawn (pins a ∷ es) = drawn es
drawn (starts_scan ∷ es) = drawn es

abbrev pub saves_after : {F : Type 0} → List (Effect F) → Bool → Bool
saves_after es saves = panel (drawn es) saves

drawn-screen : (F : Type 0) (ds : List Drawing) → drawn {F = F} (map screen ds) ≡ ds
drawn-screen F [] = refl
drawn-screen F (d ∷ ds) = ap (◌∷◌ d) (drawn-screen F ds)

panel-append :
    (ds es : List Drawing) (saves : Bool) → panel (ds ++ es) saves ≡ panel es (panel ds saves)
panel-append [] es saves = refl
panel-append (power_save b ∷ ds) es saves = panel-append ds es b
panel-append (clear_buffer ∷ ds) es saves = panel-append ds es saves
panel-append (send_buffer ∷ ds) es saves = panel-append ds es saves
panel-append (set_font f ∷ ds) es saves = panel-append ds es saves
panel-append (draw_str x y t ∷ ds) es saves = panel-append ds es saves
panel-append (draw_line x y u v ∷ ds) es saves = panel-append ds es saves
panel-append (draw_frame x y u v ∷ ds) es saves = panel-append ds es saves
panel-append (draw_box x y u v ∷ ds) es saves = panel-append ds es saves

-- What draws does not switch the panel.
draw_row-panel :
    (t : Texts) (top : ℕ) (name : Bytes) (rssi : ℤ) (saves : Bool)
    → panel (draw_row t top name rssi) saves ≡ saves
unfolding draw_row
draw_row-panel t top name rssi saves =
    elim (Bool-cases (leb_ℤ (t.map_range rssi (pos 0) (pos 100) (pos 0) (pos 55)) (pos 0))) [
      | inl bare ↦ rw bare refl
      | inr wide ↦ rw wide refl
    ]

draw_rows-panel :
    (t : Texts) (receiver : ℕ) (names : List Bytes) (states : List Receiver) (saves : Bool)
    → panel (draw_rows t receiver names states) saves ≡ saves
unfolding draw_rows
draw_rows-panel t receiver [] states saves = refl
draw_rows-panel t receiver (name ∷ names) [] saves = refl
draw_rows-panel t receiver (name ∷ names) (s ∷ states) saves =
    panel-append (draw_row t (17 + receiver * 11) name s.rssi) _ saves
    ∙ draw_rows-panel t (suc receiver) names states _
    ∙ draw_row-panel t (17 + receiver * 11) name s.rssi saves

draw_state-panel :
    {F : Type 0} (t : Texts) (now : ℕ) (activity : Activity) (gnss : GpsModule F) (saves : Bool)
    → panel (draw_state t now activity gnss) saves ≡ saves
unfolding draw_state
draw_state-panel t now activity gnss saves = elim (Bool-cases activity.is_active) [
  | inl busy ↦ simp busy refl
  | inr quiet ↦ elim (Bool-cases (is_fix_valid now gnss)) [
    | inl fixed ↦ simp (quiet, fixed) refl
    | inr lost ↦ simp (quiet, lost) refl
  ]
]

draw_page-panel :
    {F : Type 0} (t : Texts) (now : ℕ) (names : List Bytes) (states : List Receiver)
    (activity : Activity) (gnss : GpsModule F) (saves : Bool)
    → panel (draw_page t now names states activity gnss) saves ≡ saves
unfolding draw_page
draw_page-panel t now names states activity gnss saves =
    panel-append (draw_rows t 0 names states) _ saves
    ∙ panel-append (draw_state t now activity gnss) _ _
    ∙ draw_state-panel t now activity gnss _
    ∙ draw_rows-panel t 0 names states saves

follow_stealth-panel :
    (stealth previous : Bool) → panel (follow_stealth stealth previous) previous ≡ stealth
unfolding follow_stealth
follow_stealth-panel true true = refl
follow_stealth-panel false false = refl
follow_stealth-panel true false = refl
follow_stealth-panel false true = refl

-- In stealth mode, the only call is the one that switches the panel off.
abbrev pub IsDark : List Drawing → Type 0
IsDark [] = Unit
IsDark (power_save b ∷ ds) = (b ≡ true) × IsDark ds
IsDark (d ∷ ds) = ⊥

follow_stealth-IsDark : (previous : Bool) → IsDark (follow_stealth true previous ++ [])
unfolding follow_stealth
follow_stealth-IsDark true = tt
follow_stealth-IsDark false = (refl, tt)

module _ {K C F : Type 0} (lib : Libraries K C F) where
  -- If the panel saves power as the display task remembers, then after a round it saves power
  -- exactly if the stealth mode is on, the task remembers that, and in stealth mode the round makes
  -- no call on the display but the one that switches the power save on.
  pub refresh_display-Stealth :
      (now : ℕ) (saves : Bool) (w : World C F)
      → saves ≡ w.previous_stealth
      → (saves_after (refresh_display lib now w).0 saves ≡ w.device.app.config.cfg.stealth_mode)
        × ((refresh_display lib now w).1.previous_stealth ≡ w.device.app.config.cfg.stealth_mode)
        × (w.device.app.config.cfg.stealth_mode ≡ true
            → IsDark (drawn (refresh_display lib now w).0))
  unfolding refresh_display
  refresh_display-Stealth now saves w e =
      let stealth = w.device.app.config.cfg.stealth_mode in
      let page = draw_page lib.texts now receiver_names w.receivers w.activity w.gnss in
      (
        shown stealth saves w.previous_stealth page e
            (draw_page-panel lib.texts now receiver_names w.receivers w.activity w.gnss _),
        refl,
        dark stealth w.previous_stealth page,
      )
    where
      shown :
          (stealth saves previous : Bool) (page : List Drawing)
          → saves ≡ previous
          → panel page stealth ≡ stealth
          → saves_after {F = F}
              (map screen (follow_stealth stealth previous ++ (if stealth then [] else page)))
              saves
            ≡ stealth
      shown true saves previous page e kept =
          ap (λ ds. panel ds saves) (drawn-screen F (follow_stealth true previous ++ []))
          ∙ panel-append (follow_stealth true previous) [] saves
          ∙ ap (panel (follow_stealth true previous)) e
          ∙ follow_stealth-panel true previous
      shown false saves previous page e kept =
          ap (λ ds. panel ds saves) (drawn-screen F (follow_stealth false previous ++ page))
          ∙ panel-append (follow_stealth false previous) page saves
          ∙ ap (λ s. panel page (panel (follow_stealth false previous) s)) e
          ∙ ap (panel page) (follow_stealth-panel false previous)
          ∙ kept

      dark :
          (stealth previous : Bool) (page : List Drawing)
          → stealth ≡ true
          → IsDark (
              drawn {F = F}
                (map screen (follow_stealth stealth previous ++ (if stealth then [] else page))))
      dark true previous page e =
          rw (drawn-screen F (follow_stealth true previous ++ [])) (follow_stealth-IsDark previous)
      dark false previous page e = absurd (false≢true e)
