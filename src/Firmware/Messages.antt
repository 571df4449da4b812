-- ===== src/Firmware/Messages.antt =====
-- The messages to other nodes that a receiver's part of a scanning round sends.
use sky_sweep.Prelude.{
  ℕ, ◌<◌, ◌≡◌, refl, ap, ◌∙◌, Bool, true, false, not, Option, none, some, List, [], ◌∷◌, ◌++◌,
  if◌then◌else◌, leb, length, set, store-some, length-set, append_nil, Bytes,
}
use sky_sweep.Prelude.Int.{ℤ, pos, leb_ℤ}
use sky_sweep.Spi.Bus.{Bus}
use sky_sweep.Activity.Classifier.{
  ActivityLevel, level_number, classify_activity_level, assess_activity, Thresholds,
}
use sky_sweep.Mesh.Node.{Mesh}
use sky_sweep.Mesh.Send.{send_activity_alert}
use sky_sweep.Logger.Balance.{senses, run-bus}
use sky_sweep.Web.Server.{Message, broadcast_rf_data}
use sky_sweep.Monitor.Receivers.{Drivers, with_bus, read_receiver_rssi}
use sky_sweep.Monitor.Sweep.{rf_data, log_entry, activity_alert, Reading, band_of, scan_receiver}
use sky_sweep.Firmware.World.{
  Libraries, World, Effect, frame, dashboard, pins, screen, starts_scan, effect_of, thresholds_in,
  name_of, with_drivers, with_mesh, with_alerts, on_logger,
}
use sky_sweep.Firmware.Scanning.{
  Carrying, Heard, sense, judge, carry_out, carry_out_all, scan_one, int8_byte, energy,
  receiver_frequency_mhz,
}

-- The messages to other nodes among the effects.
abbrev pub frames : {F : Type 0} → List (Effect F) → List (Bytes × Bytes)
frames [] = []
frames (frame address bytes ∷ es) = (address, bytes) ∷ frames es
frames (dashboard m ∷ es) = frames es
frames (pins a ∷ es) = frames es
frames (screen d ∷ es) = frames es
frames (starts_scan ∷ es) = frames es

pub frames-append :
    (F : Type 0) (xs ys : List (Effect F)) → frames (xs ++ ys) ≡ frames xs ++ frames ys
frames-append F [] ys = refl
frames-append F (frame a b ∷ xs) ys = ap (◌∷◌ (a, b)) (frames-append F xs ys)
frames-append F (dashboard m ∷ xs) ys = frames-append F xs ys
frames-append F (pins a ∷ xs) ys = frames-append F xs ys
frames-append F (screen d ∷ xs) ys = frames-append F xs ys
frames-append F (starts_scan ∷ xs) ys = frames-append F xs ys

pub frames-dashboard : (F : Type 0) (o : Option (Message F)) → frames (effect_of dashboard o) ≡ []
frames-dashboard F none = refl
frames-dashboard F (some m) = refl

abbrev frames_of : Option (Bytes × Bytes) → List (Bytes × Bytes)
frames_of none = []
frames_of (some m) = m ∷ []

frames-frame :
    (F : Type 0) (o : Option (Bytes × Bytes))
    → frames {F = F} (effect_of (λ (address, bytes). frame address bytes) o) ≡ frames_of o
frames-frame F none = refl
frames-frame F (some (a, b)) = refl

-- What the nodes are told of a receiver, from its reading.
abbrev pub told :
    {K C F : Type 0}
    → Libraries K C F
    → Thresholds
    → Heard F
    → ℕ
    → Drivers
    → Mesh
    → List (Bytes × Bytes) × Drivers × Mesh
told lib t h receiver d m =
    let (rssi, e) = read_receiver_rssi lib.sensing h.found receiver d in
    let level = level_number (classify_activity_level rssi t) in
    if leb 3 level
    then (let sent =
          send_activity_alert h.carrying.espnow_sent h.carrying.stamped (int8_byte rssi)
            (band_of receiver) level 0 0 m in
        (frames_of sent.transmitted, e, sent.mesh))
    else ([], e, m)

-- A world after a call, with the messages it sent.
pub record Tells {C F : Type 0} (w : World C F) (made : List (Bytes × Bytes) × Drivers × Mesh)
    (es : List (Effect F)) (u : World C F) : Type 0 where
  pub sent : frames es ≡ made.0
  pub drivers : u.device.drivers ≡ made.1
  pub mesh : u.device.mesh ≡ made.2
  pub app : u.device.app ≡ w.device.app
  pub states : length u.receivers ≡ length w.receivers

module _ {K C F : Type 0} (lib : Libraries K C F) where
  on_logger-Tells :
      (h : Carrying) (receiver : ℕ) (rssi : ℤ) (w : World C F)
      → Tells w
          ([], w.device.drivers, w.device.mesh)
          (carry_out lib h (log_entry receiver rssi) w).0
          (carry_out lib h (log_entry receiver rssi) w).1
  unfolding carry_out on_logger
  on_logger-Tells h receiver rssi w =
      let d = w.device.drivers in
      let same =
        (run-bus lib.services.sd lib.format h.obtained
          (senses h.noted h.logged (name_of receiver) rssi (receiver_frequency_mhz lib receiver d)
            energy)
          (record {
            logger = w.device.logger;
            card = w.device.card;
            bus = d.cc1101.bus;
            sessions = w.device.sessions;
          })) in
      record {
        sent = refl;
        drivers = ap (λ (b : Bus). with_bus b d) same;
        mesh = refl;
        app = refl;
        states = refl;
      }

  -- What is left of the reports of a receiver.
  rest-Tells :
      (h : Carrying) (receiver : ℕ) (rssi : ℤ) (active : Bool) (w : World C F)
      → Tells w
          ([], w.device.drivers, w.device.mesh)
          (carry_out_all lib h
            (rf_data receiver rssi active ∷ (if active then log_entry receiver rssi ∷ [] else []))
            w).0
          (carry_out_all lib h
            (rf_data receiver rssi active ∷ (if active then log_entry receiver rssi ∷ [] else []))
            w).1
  unfolding carry_out_all carry_out
  rest-Tells h receiver rssi false w = record {
    sent =
        frames-append F
          (effect_of dashboard
            (broadcast_rf_data h.clients (name_of receiver) rssi false w.device.app.server))
          []
        ∙ ap (λ fs. fs ++ []) (frames-dashboard F _);
    drivers = refl;
    mesh = refl;
    app = refl;
    states = refl;
  }
  rest-Tells h receiver rssi true w =
      let l = on_logger-Tells h receiver rssi w in
      record {
        sent =
            frames-append F
              (effect_of dashboard
                (broadcast_rf_data h.clients (name_of receiver) rssi true w.device.app.server))
              []
            ∙ ap (λ fs. fs ++ []) (frames-dashboard F _);
        drivers = l.drivers;
        mesh = l.mesh;
        app = l.app;
        states = l.states;
      }

  reports-Tells :
      (h : Carrying) (loud : Bool) (receiver : ℕ) (rssi : ℤ) (level : ActivityLevel) (active : Bool)
      (w : World C F)
      → (let sent =
            send_activity_alert h.espnow_sent h.stamped
              (int8_byte rssi)
              (band_of receiver)
              (level_number level)
              0
              0
              w.device.mesh in
          let made =
            (if loud then activity_alert rssi (band_of receiver) level ∷ [] else [])
            ++ (rf_data receiver rssi active
                ∷ (if active then log_entry receiver rssi ∷ [] else [])) in
          Tells w
            (if loud
              then (frames_of sent.transmitted, w.device.drivers, sent.mesh)
              else ([], w.device.drivers, w.device.mesh))
            (carry_out_all lib h made w).0
            (carry_out_all lib h made w).1)
  unfolding carry_out_all carry_out
  reports-Tells h false receiver rssi level active w = rest-Tells h receiver rssi active w
  reports-Tells h true receiver rssi level active w =
      let sent =
        send_activity_alert h.espnow_sent h.stamped (int8_byte rssi) (band_of receiver)
          (level_number level) 0 0 w.device.mesh in
      let r = rest-Tells h receiver rssi active (with_mesh sent.mesh w) in
      let rest =
        rf_data receiver rssi active ∷ (if active then log_entry receiver rssi ∷ [] else []) in
      let more = (carry_out_all lib h rest (with_mesh sent.mesh w)).0 in
      record {
        sent =
            frames-append F (effect_of (λ (address, bytes). frame address bytes) sent.transmitted)
              more
            ∙ ap (λ fs. fs ++ frames more) (frames-frame F sent.transmitted)
            ∙ ap (λ fs. frames_of sent.transmitted ++ fs) r.sent
            ∙ append_nil (frames_of sent.transmitted);
        drivers = r.drivers;
        mesh = r.mesh;
        app = r.app;
        states = r.states;
      }

-- A receiver's part of a round returns and sends what its reading tells.
pub record Sends {K C F : Type 0} (lib : Libraries K C F) (h : Heard F) (receiver : ℕ)
    (w : World C F) (r : Option (List (Effect F) × World C F)) : Type 0 where
  pub effects : List (Effect F)
  pub next : World C F
  pub returns : r ≡ some (effects, next)
  pub tells :
      Tells w
        (told lib (thresholds_in w.device.app.config.cfg) h receiver w.device.drivers w.device.mesh)
        effects
        next

module _ {K C F : Type 0} (lib : Libraries K C F) where
  pub scan_one-Sends :
      (h : Heard F) (receiver : ℕ) (w : World C F)
      → receiver < length w.receivers
      → Sends lib h receiver w (scan_one lib h receiver w)
  unfolding scan_one sense judge scan_receiver assess_activity
  scan_one-Sends h receiver w within =
      let t = thresholds_in w.device.app.config.cfg in
      let (rssi, d) = read_receiver_rssi lib.sensing h.found receiver w.device.drivers in
      let u = with_drivers d w in
      let r : Reading = record {
        rssi = rssi;
        assessed = h.assessed;
        started = h.started;
        noted = h.noted;
      } in
      let judged =
        scan_receiver t receiver r (record { activity = w.activity; alerts = w.device.alerts }) in
      let states = set w.receivers receiver judged.0 in
      let v = record (with_alerts judged.2.alerts u) {
        receivers = states;
        activity = judged.2.activity;
      } in
      let level = classify_activity_level rssi t in
      let told =
        reports-Tells lib h.carrying (leb 3 (level_number level)) receiver rssi level
          (not (leb_ℤ rssi (pos 40))) v in
      rw (store-some w.receivers receiver judged.0 within) (record {
        effects = _;
        next = _;
        returns = refl;
        tells = record {
          sent = told.sent;
          drivers = told.drivers;
          mesh = told.mesh;
          app = told.app;
          states = told.states ∙ length-set w.receivers receiver judged.0;
        };
      })
