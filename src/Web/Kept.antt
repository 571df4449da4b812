-- ===== src/Web/Kept.antt =====
-- What no request and no round of `update` changes: the server's own state but the broadcast time.
use sky_sweep.Prelude.{
  ◌≡◌, refl, inl, inr, not, ◌||◌, Bool-cases, Option, none, some, [], ◌∷◌, ltb, leb, sub32, Bytes,
}
use sky_sweep.Config.Storage.{Storage, is_text}
use sky_sweep.Power.Mode.{read_battery-Follows}
use sky_sweep.Web.Server.{App, Observed, update}
use sky_sweep.Web.Body.{body_max}
use sky_sweep.Web.Routes.{
  Services, Route, root, status, config, logs, download, save_config, reset_config, power,
  elsewhere, Request, Answers, Reply, is_authenticated, require_management_auth, import_body,
  save_body, reset_all, switch_mode, choose_mode, handle, handle_root, handle_api, handle_config,
  handle_not_found,
}
use sky_sweep.Web.Guard.{Stands}

module _ {K C : Type 0} (lib : Services K C) where
  guarded-server :
      (rest : App → Reply × App) (r : Request K) (a : App)
      → (rest a).1.server ≡ a.server
      → (require_management_auth lib rest r a).1.server ≡ a.server
  unfolding require_management_auth
  guarded-server rest r a e = elim (Bool-cases (is_authenticated lib r a)) [
    | inl known ↦ rw known e
    | inr wrong ↦ rw wrong refl
  ]

  import_body-server :
      (storage : Storage) (body : Option Bytes) (a : App)
      → (import_body lib storage body a).1.server ≡ a.server
  unfolding import_body
  import_body-server storage none a = refl
  import_body-server storage (some text) a = refl

  save_body-server :
      (storage : Storage) (r : Request K) (a : App)
      → (save_body lib storage r a).1.server ≡ a.server
  unfolding save_body
  save_body-server storage r a = elim (Bool-cases (ltb body_max r.content_length)) [
    | inl long ↦ rw long refl
    | inr short ↦ rw short (import_body-server storage r.body a)
  ]

choose_mode-server : (text : Option Bytes) (a : App) → (choose_mode text a).1.server ≡ a.server
unfolding choose_mode switch_mode
choose_mode-server none a = refl
choose_mode-server (some text) a = elim (Bool-cases (is_text text (48 ∷ []))) [
  | inl full ↦ rw full refl
  | inr other ↦ elim (Bool-cases (is_text text (49 ∷ []))) [
    | inl balanced ↦ rw (other, balanced) refl
    | inr bad ↦ rw (other, bad) refl
  ]
]

module _ {K C : Type 0} (lib : Services K C) where
  pub handle-server :
      (ans : Answers C) (route : Route) (r : Request K) (a : App)
      → (handle lib ans route r a).1.server ≡ a.server
  unfolding handle handle_root handle_api handle_config handle_not_found reset_all
  handle-server ans root r a = refl
  handle-server ans status r a = refl
  handle-server ans config r a = refl
  handle-server ans elsewhere r a = refl
  handle-server ans logs r a = guarded-server lib _ r a refl
  handle-server ans download r a = guarded-server lib _ r a refl
  handle-server ans save_config r a =
      guarded-server lib _ r a (save_body-server lib ans.storage r a)
  handle-server ans reset_config r a = guarded-server lib _ r a refl
  handle-server ans power r a = guarded-server lib _ r a (choose_mode-server r.param a)

-- A round of `update` on the dashboards.
pub record Refreshes (a b : App) : Type 0 where
  pub running : b.server.is_running ≡ a.server.is_running
  pub password : b.server.management_password ≡ a.server.management_password
  pub stands : Stands a → Stands b

stays : (a : App) → Refreshes a a
stays a = record { running = refl; password = refl; stands = λ s. s }

pub update-Refreshes : {F : Type 0} (o : Observed F) (a : App) → Refreshes a (update o a).1
unfolding update
update-Refreshes o a = elim (Bool-cases (not a.server.is_running || not a.server.web_socket)) [
  | inl off ↦ simp off (stays a)
  | inr on ↦ elim (Bool-cases (leb 500 (sub32 o.tested a.server.last_broadcast_time))) [
    | inr early ↦ simp (on, early) (stays a)
    | inl due ↦
        simp (on, due)
          (record {
            running = refl;
            password = refl;
            stands = λ s. record {
              network = s.network;
              follows = read_battery-Follows o.percent a.power s.follows;
            };
          })
  ]
]
