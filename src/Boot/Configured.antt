-- ===== src/Boot/Configured.antt =====
-- The configuration that `setup` starts with.
use sky_sweep.Prelude.{
  ℕ, ◌≤◌, ◌<◌, ◌≡◌, refl, ap, ◌∙◌, inl, inr, Bool, true, false, false≢true, Bool-cases, Option,
  none, some, arith, leb-true, ltb-true, length, Bytes, zero, suc,
}
use sky_sweep.Config.Storage.{
  RuntimeConfig, Document, Conversions, Manager, Storage, default_config, ap_password_length,
  generated_from, generate_network_credentials, validate_network_config, is_text,
  retired_public_ssid, save,
}
use sky_sweep.Config.Manager.{
  adopt, adopt_read, load, load_members, loaded_wifi, first_boot, unless_loaded,
  begin as begin_config,
}
use sky_sweep.Config.Import.{IsReachable, save_keeps}

-- The formatted network name that the generator of credentials is given.
pub record IsNaming (ssid : Bytes) : Type 0 where
  pub named : 1 ≤ length ssid
  pub short : length ssid < 32

length-generated_from : (random : ℕ → ℕ) (n index : ℕ) → length (generated_from random n index) ≡ n
unfolding generated_from
length-generated_from random zero index = refl
length-generated_from random (suc n) index = ap suc (length-generated_from random n (suc index))

generated-IsReachable :
    (ssid : Bytes) (random : ℕ → ℕ) (m : Manager)
    → IsNaming ssid
    → 1 ≤ m.cfg.wifi_channel
    → m.cfg.wifi_channel ≤ 13
    → IsReachable (generate_network_credentials ssid random m).cfg
unfolding generate_network_credentials validate_network_config
generated-IsReachable ssid random m n low high =
    rw
      (
        leb-true _ _ n.named,
        ltb-true _ _ n.short,
        length-generated_from random ap_password_length 0,
        leb-true _ _ low,
        leb-true _ _ high,
      )
      refl

-- What the check says of the channel and the password.
reachable-channel :
    (c : RuntimeConfig) → IsReachable c → (1 ≤ c.wifi_channel) × (c.wifi_channel ≤ 13)
unfolding validate_network_config
reachable-channel c h = (ground (arith, h), ground (arith, h))

pub reachable-password :
    (c : RuntimeConfig)
    → IsReachable c
    → (8 ≤ length c.wifi_password) × (length c.wifi_password < 64)
unfolding validate_network_config
reachable-password c h = (ground (arith, h), ground (arith, h))

-- A configuration that is ready can be brought up.
abbrev pub Promises : Bool × Manager → Type 0
Promises (ready, m) = ready ≡ true → IsReachable m.cfg

module _ (ssid : Bytes) (random : ℕ → ℕ) (storage : Storage) (n : IsNaming ssid) where
  saved-Promises :
      (m : Manager)
      → 1 ≤ m.cfg.wifi_channel
      → m.cfg.wifi_channel ≤ 13
      → Promises (save storage (generate_network_credentials ssid random m))
  saved-Promises m low high ready =
      ap validate_network_config (save_keeps storage (generate_network_credentials ssid random m))
      ∙ generated-IsReachable ssid random m n low high

  adopt-Promises : (c : RuntimeConfig) (m : Manager) → Promises (adopt ssid random storage c m)
  unfolding adopt
  adopt-Promises c m = elim (Bool-cases (validate_network_config c)) [
    | inr bad ↦ rw bad (λ h. absurd (false≢true h))
    | inl fine ↦ elim (Bool-cases (is_text c.wifi_ssid retired_public_ssid)) [
      | inr current ↦ rw (fine, current) (λ h. fine)
      | inl retired ↦
          let (low, high) = reachable-channel c fine in
          rw (fine, retired) (saved-Promises (record m { cfg = c }) low high)
    ]
  ]

  adopt_read-Promises :
      (j : Conversions) (m : Manager) (doc : Document) (c : Option RuntimeConfig)
      → Promises (adopt_read j ssid random storage m doc c)
  adopt_read-Promises j m doc none = λ h. absurd (false≢true h)
  adopt_read-Promises j m doc (some c) = adopt-Promises (load_members j doc c) m

  load-Promises :
      (j : Conversions) (doc : Option Document) (m : Manager)
      → Promises (load j ssid random storage doc m)
  unfolding load
  load-Promises j none m = λ h. absurd (false≢true h)
  load-Promises j (some doc) m = elim (Bool-cases m.spiffs_ready) [
    | inr missing ↦ simp missing (λ h. absurd (false≢true h))
    | inl ready ↦ simp ready (adopt_read-Promises j m doc (loaded_wifi j m.cfg doc.wifi))
  ]

  unless_loaded-Promises :
      (r : Bool × Manager) → Promises r → Promises (unless_loaded ssid random storage r)
  unfolding first_boot
  unless_loaded-Promises (true, m) p = p
  unless_loaded-Promises (false, m) p =
      saved-Promises (record m { cfg = default_config }) (omega arith) (omega arith)

  pub begin_config-Promises :
      (j : Conversions) (mounts : Bool) (doc : Option Document) (m : Manager)
      → Promises (begin_config j mounts ssid random storage doc m)
  unfolding begin_config
  begin_config-Promises j false doc m = λ h. absurd (false≢true h)
  begin_config-Promises j true doc m =
      unless_loaded-Promises (load j ssid random storage doc (record m { spiffs_ready = true }))
        (load-Promises j doc _)
