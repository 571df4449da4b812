-- ===== src/Firmware/Screen.antt =====
-- What the display shows: `taskDisplayUpdate` gives the calls of the graphics library.
use sky_sweep.Prelude.{
  ℕ, suc, ◌+◌, ◌*◌, Bool, true, false, List, [], ◌∷◌, ◌++◌, if◌then◌else◌, take, Bytes,
}
use sky_sweep.Prelude.Int.{ℤ, pos, leb_ℤ}
use sky_sweep.Activity.Classifier.{level_text, Activity}
use sky_sweep.Gnss.Receiver.{GpsModule, is_fix_valid}
use sky_sweep.Monitor.Sweep.{Receiver}

-- The fonts `u8g2_font_6x10_tr` and `u8g2_font_5x7_tr`.
pub data Font : Type 0 where
  font_6x10 font_5x7 : Font

-- The calls of U8g2.
pub data Drawing : Type 0 where
  power_save : Bool → Drawing
  clear_buffer send_buffer : Drawing
  set_font : Font → Drawing
  draw_str : ℕ → ℕ → Bytes → Drawing
  draw_line draw_frame : ℕ → ℕ → ℕ → ℕ → Drawing
  draw_box : ℕ → ℕ → ℤ → ℕ → Drawing

-- The texts that the `snprintf` calls would give without a limit, and `map`.
pub record Texts : Type 0 where
  pub row : Bytes → ℤ → Bytes
  pub activity : Bytes → Bytes
  pub satellites : ℕ → Bytes
  pub map_range : ℤ → ℤ → ℤ → ℤ → ℤ → ℤ

-- "SkySweep32 Rev C" and "Scanning..."
abbrev title : Bytes
title = 83 ∷ 107 ∷ 121 ∷ 83 ∷ 119 ∷ 101 ∷ 101 ∷ 112 ∷ 51 ∷ 50 ∷ 32 ∷ 82 ∷ 101 ∷ 118 ∷ 32 ∷ 67 ∷ []

abbrev scanning : Bytes
scanning = 83 ∷ 99 ∷ 97 ∷ 110 ∷ 110 ∷ 105 ∷ 110 ∷ 103 ∷ 46 ∷ 46 ∷ 46 ∷ []

-- The row of one receiver below a line of pixels; its text has room for 27 characters.
unfoldable pub draw_row : Texts → ℕ → Bytes → ℤ → List Drawing
draw_row t top name rssi =
    let width = t.map_range rssi (pos 0) (pos 100) (pos 0) (pos 55) in
    draw_str 0 (top + 7) (take 27 (t.row name rssi))
    ∷ draw_frame 70 top 57 8
    ∷ (if leb_ℤ width (pos 0) then [] else draw_box 71 (top + 1) width 6 ∷ [])

-- The loop over the receivers, whose rows are 11 pixels apart.
unfoldable pub draw_rows : Texts → ℕ → List Bytes → List Receiver → List Drawing
draw_rows t receiver [] states = []
draw_rows t receiver (name ∷ names) [] = []
draw_rows t receiver (name ∷ names) (s ∷ states) =
    draw_row t (17 + receiver * 11) name s.rssi ++ draw_rows t (suc receiver) names states

-- The last line.
unfoldable pub draw_state : {F : Type 0} → Texts → ℕ → Activity → GpsModule F → List Drawing
draw_state t now activity gnss =
    if activity.is_active
    then draw_str 0 63 (take 31 (t.activity (level_text activity.level))) ∷ []
    else if is_fix_valid now gnss
    then draw_str 0 63 (take 31 (t.satellites gnss.current_data.location.satellites)) ∷ []
    else draw_str 0 63 scanning ∷ []

unfoldable pub draw_page :
    {F : Type 0} → Texts → ℕ → List Bytes → List Receiver → Activity → GpsModule F → List Drawing
draw_page t now names states activity gnss =
    clear_buffer
    ∷ set_font font_6x10
    ∷ draw_str 0 10 title
    ∷ draw_line 0 12 128 12
    ∷ set_font font_5x7
    ∷ (draw_rows t 0 names states ++ (draw_state t now activity gnss ++ send_buffer ∷ []))

-- `stealth != previousStealth`
abbrev differs : Bool → Bool → Bool
differs true true = false
differs false false = false
differs true false = true
differs false true = true

-- The power save follows the stealth mode.
unfoldable pub follow_stealth : Bool → Bool → List Drawing
follow_stealth stealth previous_stealth =
    if differs stealth previous_stealth then power_save stealth ∷ [] else []
