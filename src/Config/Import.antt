-- ===== src/Config/Import.antt =====
-- What the operations on the configuration promise.
use sky_sweep.Prelude.{
  ℕ, ◌≡◌, refl, ap, sym, ◌∙◌, inl, inr, true, false, Bool, Option, none, some, arith, ltb, Bytes,
  Bool-cases, false≢true,
}
use sky_sweep.Config.Storage.{
  RuntimeConfig, Document, Conversions, Manager, Storage, validate_network_config, save,
  saved_document,
}
use sky_sweep.Config.Manager.{
  adopt_checked, bounded_wifi, set_wifi, set_thresholds, set_scan_interval, given_wifi,
  given_members, adopt_given, from_json, reset, remove_file,
}

-- The access point can be brought up with this configuration.
abbrev pub IsReachable : RuntimeConfig → Type 0
IsReachable c = validate_network_config c ≡ true

pub save_keeps : (storage : Storage) (m : Manager) → (save storage m).1.cfg ≡ m.cfg
unfolding save
save_keeps storage m = ground arith

adopt_checked-IsReachable :
    (storage : Storage) (m : Manager) (c : Option RuntimeConfig)
    → IsReachable m.cfg
    → IsReachable (adopt_checked storage m c).1.cfg
adopt_checked-IsReachable storage m none h = h
adopt_checked-IsReachable storage m (some c) h = elim (Bool-cases (validate_network_config c)) [
  | inl fine ↦
      rw fine (ap validate_network_config (save_keeps storage (record m { cfg = c })) ∙ fine)
  | inr bad ↦ rw bad h
]

-- The members outside the network part do not matter to the check.
members_same :
    (j : Conversions) (doc : Document) (c : RuntimeConfig)
    → validate_network_config (given_members j doc c) ≡ validate_network_config c
unfolding validate_network_config given_members
members_same j doc c = refl

adopt_given-IsReachable :
    (j : Conversions) (storage : Storage) (m : Manager) (doc : Document) (c : Option RuntimeConfig)
    → IsReachable m.cfg
    → IsReachable (adopt_given j storage m doc c).1.cfg
adopt_given-IsReachable j storage m doc none h = h
adopt_given-IsReachable j storage m doc (some c) h = elim (Bool-cases (validate_network_config c)) [
  | inl fine ↦ rw fine (
      ap validate_network_config (save_keeps storage (record m { cfg = given_members j doc c }))
      ∙ members_same j doc c
      ∙ fine)
  | inr bad ↦ rw bad h
]

pub from_json_keeps :
    (j : Conversions) (storage : Storage) (doc : Option Document) (m : Manager)
    → IsReachable m.cfg
    → IsReachable (from_json j storage doc m).1.cfg
unfolding from_json
from_json_keeps j storage none m h = h
from_json_keeps j storage (some doc) m h =
    adopt_given-IsReachable j storage m doc (given_wifi j m.cfg doc.wifi) h

remove_file-cfg :
    (removed : Bool) (file : Option Document) (m : Manager)
    → (remove_file removed file m).1.cfg ≡ m.cfg
unfolding remove_file
remove_file-cfg removed none m = refl
remove_file-cfg true (some doc) m = refl
remove_file-cfg false (some doc) m = refl

pub reset-cfg : (removed : Bool) (m : Manager) → (reset removed m).1.cfg ≡ m.cfg
unfolding reset
reset-cfg removed m = elim (Bool-cases m.spiffs_ready) [
  | inl ready ↦ rw ready (remove_file-cfg removed _ _)
  | inr missing ↦ rw missing refl
]

-- From a configuration with a network name of 1 to 31 characters, a password of 8 to 63 and a
-- channel of 1 to 13, fromJSON, setWifi, setThresholds and setScanInterval leave such a
-- configuration, whatever they are given and however the file system answers.
pub setters-IsReachable :
    (j : Conversions) (storage : Storage) (m : Manager)
    → IsReachable m.cfg
    → ((doc : Option Document) → IsReachable (from_json j storage doc m).1.cfg)
      × ((ssid password : Option Bytes) (channel : ℕ)
          → IsReachable (set_wifi storage ssid password channel m).1.cfg)
      × ((low med high crit : ℕ) → IsReachable (set_thresholds storage low med high crit m).1.cfg)
      × ((rf_ms : ℕ) → IsReachable (set_scan_interval storage rf_ms m).1.cfg)
unfolding set_wifi set_thresholds set_scan_interval validate_network_config
setters-IsReachable j storage m h = (
  λ doc. from_json_keeps j storage doc m h,
  λ ssid password channel.
      adopt_checked-IsReachable storage m (bounded_wifi ssid password channel m.cfg) h,
  λ low med high crit. ap validate_network_config (save_keeps storage _) ∙ h,
  λ rf_ms. ap validate_network_config (save_keeps storage _) ∙ h,
)

-- Writing to the file works.
pub record Works (storage : Storage) (m : Manager) : Type 0 where
  pub ready : m.spiffs_ready ≡ true
  pub opens : storage.opens ≡ true
  pub writes : ltb 0 storage.written ≡ true

save-Works :
    (storage : Storage) (m : Manager)
    → Works storage m
    → save storage m ≡ (true, record m { file = some (saved_document m.cfg) })
unfolding save
save-Works storage m w = rw (w.ready, w.opens, w.writes) refl

adopt_given_rejects :
    (j : Conversions) (storage : Storage) (m : Manager) (doc : Document) (c : Option RuntimeConfig)
    → Works storage m
    → (adopt_given j storage m doc c).0 ≡ false
    → (adopt_given j storage m doc c).1 ≡ m
adopt_given_rejects j storage m doc none w h = refl
adopt_given_rejects j storage m doc (some c) w h = elim (Bool-cases (validate_network_config c)) [
  | inl fine ↦
      let n : Manager = record m { cfg = given_members j doc c } in
      let saved =
        save-Works storage n (record { ready = w.ready; opens = w.opens; writes = w.writes }) in
      absurd (false≢true (sym (rw fine at h) ∙ ap (λ r. r.0) saved))
  | inr bad ↦ rw bad refl
]

-- While the file can be written, a fromJSON that returns false leaves the manager unchanged.
pub from_json_rejects :
    (j : Conversions) (storage : Storage) (doc : Option Document) (m : Manager)
    → Works storage m
    → (from_json j storage doc m).0 ≡ false
    → (from_json j storage doc m).1 ≡ m
unfolding from_json
from_json_rejects j storage none m w h = refl
from_json_rejects j storage (some doc) m w h =
    adopt_given_rejects j storage m doc (given_wifi j m.cfg doc.wifi) w h
