-- ===== src/Firmware/Private.antt =====
-- What the scanning task tells the other nodes depends on its readings alone.
use sky_sweep.Prelude.{
  ℕ, suc, ◌+◌, ◌≤◌, ◌≡◌, refl, sym, ap, ◌∙◌, Option, some, List, [], ◌∷◌, ◌++◌, arith, length,
  append_nil,
}
use sky_sweep.Web.Server.{App}
use sky_sweep.Monitor.Sweep.{receiver_count}
use sky_sweep.Firmware.World.{Libraries, World, Effect, thresholds_in}
use sky_sweep.Firmware.Scanning.{
  Heard, Round, scan_from, tell_activity, sweep_bands, manage_power, scan_round,
}
use sky_sweep.Firmware.Messages.{frames, frames-append, frames-dashboard, told, scan_one-Sends}

-- The receivers, the mesh and the thresholds of two worlds agree, and so do the lengths of their
-- arrays; the rest may differ.
pub record Agrees {C F : Type 0} (w v : World C F) : Type 0 where
  pub drivers : w.device.drivers ≡ v.device.drivers
  pub mesh : w.device.mesh ≡ v.device.mesh
  pub thresholds : thresholds_in w.device.app.config.cfg ≡ thresholds_in v.device.app.config.cfg
  pub three : length w.receivers ≡ receiver_count
  pub three' : length v.receivers ≡ receiver_count

-- Two rounds return, with the same messages, and leave worlds that agree again.
pub record SameFrames {C F : Type 0} (p q : Option (List (Effect F) × World C F)) : Type 0 where
  pub first : List (Effect F)
  pub second : List (Effect F)
  pub next : World C F
  pub other : World C F
  pub returns : p ≡ some (first, next)
  pub returns' : q ≡ some (second, other)
  pub same : frames first ≡ frames second
  pub agrees : Agrees next other

module _ {K C F : Type 0} (lib : Libraries K C F) where
  same_told :
      (h : Heard F) (receiver : ℕ) (w v : World C F)
      → Agrees w v
      → told lib (thresholds_in w.device.app.config.cfg) h receiver w.device.drivers w.device.mesh
        ≡ told lib (thresholds_in v.device.app.config.cfg) h receiver v.device.drivers v.device.mesh
  same_told h receiver w v a =
      ap (λ t. told lib t h receiver w.device.drivers w.device.mesh) a.thresholds
      ∙ ap (λ d. told lib (thresholds_in v.device.app.config.cfg) h receiver d w.device.mesh)
          a.drivers
      ∙ ap (told lib (thresholds_in v.device.app.config.cfg) h receiver v.device.drivers) a.mesh

  scan_from-SameFrames :
      (hs : List (Heard F)) (receiver : ℕ) (w v : World C F)
      → receiver + length hs ≤ receiver_count
      → Agrees w v
      → SameFrames (scan_from lib receiver hs w) (scan_from lib receiver hs v)
  unfolding scan_from
  scan_from-SameFrames [] receiver w v fits a = record {
    first = [];
    second = [];
    next = w;
    other = v;
    returns = refl;
    returns' = refl;
    same = refl;
    agrees = a;
  }
  scan_from-SameFrames (h ∷ hs) receiver w v fits a =
      let p = scan_one-Sends lib h receiver w (omega (arith, a.three)) in
      let q = scan_one-Sends lib h receiver v (omega (arith, a.three')) in
      let e = same_told h receiver w v a in
      let rest = scan_from-SameFrames hs (suc receiver) p.next q.next (omega arith) (record {
        drivers = p.tells.drivers ∙ ap (λ x. x.1) e ∙ sym q.tells.drivers;
        mesh = p.tells.mesh ∙ ap (λ x. x.2) e ∙ sym q.tells.mesh;
        thresholds =
            ap (λ (b : App). thresholds_in b.config.cfg) p.tells.app
            ∙ a.thresholds
            ∙ sym (ap (λ (b : App). thresholds_in b.config.cfg) q.tells.app);
        three = p.tells.states ∙ a.three;
        three' = q.tells.states ∙ a.three';
      }) in
      rw (p.returns, q.returns, rest.returns, rest.returns')
        (record {
          first = _;
          second = _;
          next = rest.next;
          other = rest.other;
          returns = refl;
          returns' = refl;
          same =
              frames-append F p.effects rest.first
              ∙ ap (λ fs. fs ++ frames rest.first)
                  (p.tells.sent ∙ ap (λ x. x.0) e ∙ sym q.tells.sent)
              ∙ ap (λ fs. frames q.effects ++ fs) rest.same
              ∙ sym (frames-append F q.effects rest.second);
          agrees = rest.agrees;
        })

  -- Two firmwares with the same receivers, mesh and thresholds and with three receiver entries
  -- each: a scanning round that finds the same returns in both and gives the same messages to the
  -- mesh, whatever their positions, drones, log, current activity, alerts and credentials are.
  pub scan_round-frames :
      (r : Round F) (w v : World C F)
      → Agrees w v
      → (p : List (Effect F) × World C F) × (q : List (Effect F) × World C F) × (scan_round lib r w
          ≡ some p)
        × (scan_round lib r v ≡ some q)
        × (frames p.0 ≡ frames q.0)
  unfolding scan_round tell_activity
  scan_round-frames r w v a =
      let heard = r.sub_ghz ∷ r.two_point_four ∷ r.five_point_eight ∷ [] in
      let s = scan_from-SameFrames heard 0 w v (omega arith) a in
      let quiet : (es : List (Effect F)) (u : World C F)
          → frames (es ++ tell_activity r.clients u) ≡ frames es =
        λ es u.
          frames-append F es (tell_activity r.clients u)
          ∙ ap (λ fs. frames es ++ fs) (frames-dashboard F _)
          ∙ append_nil (frames es) in
      let over : World C F → World C F =
        λ u. manage_power r.tested r.noted r.gauge (sweep_bands r.obtained u) in
      (
        (s.first ++ tell_activity r.clients s.next, over s.next),
        (s.second ++ tell_activity r.clients s.other, over s.other),
        rw s.returns refl,
        rw s.returns' refl,
        quiet s.first s.next ∙ s.same ∙ sym (quiet s.second s.other),
      )
