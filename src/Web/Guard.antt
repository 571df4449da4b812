-- ===== src/Web/Guard.antt =====
-- What the routes change and show, with and without the credentials.
use sky_sweep.Prelude.{
  ◌≡◌, refl, ap, sym, ◌∙◌, inl, inr, Bool, true, false, false≢true, Bool-cases, Option, none, some,
  List, [], ◌∷◌, ltb, Bytes,
}
use sky_sweep.Config.Storage.{Storage, is_text, validate_network_config}
use sky_sweep.Config.Import.{IsReachable, from_json_keeps, reset-cfg}
use sky_sweep.Power.Manager.{PowerMode, power_full, power_balanced}
use sky_sweep.Power.Mode.{Follows, set_mode-Follows}
use sky_sweep.Web.Server.{App}
use sky_sweep.Web.Body.{body_max}
use sky_sweep.Web.Routes.{
  Services, Route, root, status, config, logs, download, save_config, reset_config, power,
  elsewhere, Request, management_username, Answers, Reply, unauthorized, is_authenticated,
  require_management_auth, import_body, save_body, reset_all, switch_mode, choose_mode, handle,
  handle_root, handle_api, handle_config, handle_not_found,
}

-- The routes for the management.
abbrev pub is_managed : Route → Bool
is_managed root = false
is_managed status = false
is_managed config = false
is_managed elsewhere = false
is_managed logs = true
is_managed download = true
is_managed save_config = true
is_managed reset_config = true
is_managed power = true

module _ {K C : Type 0} (lib : Services K C) where
  refused-auth :
      (rest : App → Reply × App) (r : Request K) (a : App)
      → is_authenticated lib r a ≡ false
      → require_management_auth lib rest r a ≡ (unauthorized, a)
  unfolding require_management_auth
  refused-auth rest r a h = rw h refl

  handle-refused :
      (ans : Answers C) (route : Route) (r : Request K) (a : App)
      → is_managed route ≡ true
      → is_authenticated lib r a ≡ false
      → handle lib ans route r a ≡ (unauthorized, a)
  unfolding handle handle_root handle_api handle_config handle_not_found
  handle-refused ans root r a managed h = absurd (false≢true managed)
  handle-refused ans status r a managed h = absurd (false≢true managed)
  handle-refused ans config r a managed h = absurd (false≢true managed)
  handle-refused ans elsewhere r a managed h = absurd (false≢true managed)
  handle-refused ans logs r a managed h = refused-auth _ r a h
  handle-refused ans download r a managed h = refused-auth _ r a h
  handle-refused ans save_config r a managed h = refused-auth _ r a h
  handle-refused ans reset_config r a managed h = refused-auth _ r a h
  handle-refused ans power r a managed h = refused-auth _ r a h

  -- A request that is not to a management route changes nothing.
  handle-public :
      (ans : Answers C) (route : Route) (r : Request K) (a : App)
      → is_managed route ≡ false
      → (handle lib ans route r a).1 ≡ a
  unfolding handle handle_root handle_api handle_config handle_not_found
  handle-public ans root r a free = refl
  handle-public ans status r a free = refl
  handle-public ans config r a free = refl
  handle-public ans elsewhere r a free = refl
  handle-public ans logs r a free = absurd (false≢true (sym free))
  handle-public ans download r a free = absurd (false≢true (sym free))
  handle-public ans save_config r a free = absurd (false≢true (sym free))
  handle-public ans reset_config r a free = absurd (false≢true (sym free))
  handle-public ans power r a free = absurd (false≢true (sym free))

  -- The requests that come in, one after the other, with what they find.
  abbrev pub serve : List (Answers C × Route × Request K) → App → App
  serve [] a = a
  serve ((ans, route, r) ∷ rest) a = serve rest (handle lib ans route r a).1

  -- No request of the list carries the credentials.
  abbrev pub NoneKnows : Bytes → List (Answers C × Route × Request K) → Type 0
  NoneKnows password [] = Unit
  NoneKnows password ((ans, route, r) ∷ rest) =
      (lib.authenticate r.credentials management_username password ≡ false)
      × NoneKnows password rest

  -- A sequence of requests, none of which the HTTP library accepts for the user "admin" with the
  -- password that the server holds, leaves the server, the configuration and the power manager as
  -- they were.
  pub serve-unauthorized :
      (rs : List (Answers C × Route × Request K)) (a : App)
      → NoneKnows a.server.management_password rs
      → serve rs a ≡ a
  unfolding is_authenticated
  serve-unauthorized [] a h = refl
  serve-unauthorized ((ans, route, r) ∷ rs) a (wrong, h) =
      let same : (handle lib ans route r a).1 ≡ a = elim (Bool-cases (is_managed route)) [
        | inl managed ↦ ap (λ x. x.1) (handle-refused ans route r a managed wrong)
        | inr free ↦ handle-public ans route r a free
      ] in
      ap (serve rs) same ∙ serve-unauthorized rs a h

-- The stored network can be brought up, and the CPU and the Wi-Fi follow the power mode.
pub record Stands (a : App) : Type 0 where
  pub network : IsReachable a.config.cfg
  pub follows : Follows a.power

module _ {K C : Type 0} (lib : Services K C) where
  import_body-Stands :
      (storage : Storage) (body : Option Bytes) (a : App)
      → Stands a
      → Stands (import_body lib storage body a).1
  unfolding import_body
  import_body-Stands storage none a s = s
  import_body-Stands storage (some text) a s = record {
    network = from_json_keeps lib.conversions storage (lib.parse text) a.config s.network;
    follows = s.follows;
  }

  guarded-Stands :
      (rest : App → Reply × App) (r : Request K) (a : App)
      → Stands a
      → Stands (rest a).1
      → Stands (require_management_auth lib rest r a).1
  unfolding require_management_auth
  guarded-Stands rest r a s t = elim (Bool-cases (is_authenticated lib r a)) [
    | inl known ↦ rw known t
    | inr wrong ↦ rw wrong s
  ]

  save_body-Stands :
      (storage : Storage) (r : Request K) (a : App)
      → Stands a
      → Stands (save_body lib storage r a).1
  unfolding save_body
  save_body-Stands storage r a s = elim (Bool-cases (ltb body_max r.content_length)) [
    | inl long ↦ rw long s
    | inr short ↦ rw short (import_body-Stands storage r.body a s)
  ]

switch_mode-Stands : (m : PowerMode) (a : App) → Stands a → Stands (switch_mode m a).1
unfolding switch_mode
switch_mode-Stands m a s = record { network = s.network; follows = (set_mode-Follows m a.power).0 }

choose_mode-Stands : (text : Option Bytes) (a : App) → Stands a → Stands (choose_mode text a).1
unfolding choose_mode
choose_mode-Stands none a s = s
choose_mode-Stands (some text) a s = elim (Bool-cases (is_text text (48 ∷ []))) [
  | inl full ↦ rw full (switch_mode-Stands power_full a s)
  | inr other ↦ elim (Bool-cases (is_text text (49 ∷ []))) [
    | inl balanced ↦ rw (other, balanced) (switch_mode-Stands power_balanced a s)
    | inr bad ↦ rw (other, bad) s
  ]
]

reset_all-Stands : (removed : Bool) (a : App) → Stands a → Stands (reset_all removed a).1
unfolding reset_all
reset_all-Stands removed a s = record {
  network = ap validate_network_config (reset-cfg removed a.config) ∙ s.network;
  follows = s.follows;
}

module _ {K C : Type 0} (lib : Services K C) where
  pub handle-Stands :
      (ans : Answers C) (route : Route) (r : Request K) (a : App)
      → Stands a
      → Stands (handle lib ans route r a).1
  unfolding handle handle_root handle_api handle_config handle_not_found
  handle-Stands ans root r a s = s
  handle-Stands ans status r a s = s
  handle-Stands ans config r a s = s
  handle-Stands ans elsewhere r a s = s
  handle-Stands ans logs r a s = guarded-Stands lib _ r a s s
  handle-Stands ans download r a s = guarded-Stands lib _ r a s s
  handle-Stands ans save_config r a s =
      guarded-Stands lib _ r a s (save_body-Stands lib ans.storage r a s)
  handle-Stands ans reset_config r a s =
      guarded-Stands lib _ r a s (reset_all-Stands ans.removed a s)
  handle-Stands ans power r a s = guarded-Stands lib _ r a s (choose_mode-Stands r.param a s)

  -- From a configuration whose network can be brought up and a CPU and Wi-Fi that follow the power
  -- mode, any sequence of requests leaves them so.
  pub serve-Stands :
      (rs : List (Answers C × Route × Request K)) (a : App) → Stands a → Stands (serve lib rs a)
  serve-Stands [] a s = s
  serve-Stands ((ans, route, r) ∷ rs) a s = serve-Stands rs _ (handle-Stands ans route r a s)
