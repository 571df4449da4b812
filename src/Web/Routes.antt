-- ===== src/Web/Routes.antt =====
-- The handlers of the web server. The HTTP library's check of credentials and ArduinoJson's parser
-- are functions that stand for them; the card of the log routes is that of Logger/Card.
use sky_sweep.Prelude.{
  ℕ, ◌/◌, Bool, false, ◌&&◌, ◌||◌, Option, none, some, List, [], ◌∷◌, ◌++◌, if◌then◌else◌, ◌==◌,
  ltb, Bytes,
}
use sky_sweep.Config.Storage.{Document, Conversions, Storage, is_text}
use sky_sweep.Config.Manager.{from_json, reset, to_json}
use sky_sweep.Power.Manager.{PowerMode, power_full, power_balanced, set_mode}
use sky_sweep.Logger.Card.{File, Library}
use sky_sweep.Logger.Rotation.{log_dir}
use sky_sweep.Web.Server.{App}
use sky_sweep.Web.Body.{body_max}

-- A type of credentials, and the libraries.
pub record Services (K C : Type 0) : Type 0 where
  pub authenticate : K → Bytes → Bytes → Bool
  pub parse : Bytes → Option Document
  pub conversions : Conversions
  pub sd : Library C

-- The routes that `begin` registers, and every other request.
pub data Route : Type 0 where
  root status config logs download save_config reset_config power elsewhere : Route

-- What the handlers read of a request: the credentials, the parameter of the route, the content
-- length and the body that was collected.
pub record Request (K : Type 0) : Type 0 where
  pub credentials : K
  pub param : Option Bytes
  pub content_length : ℕ
  pub body : Option Bytes

-- The card, and how the file system answers a request.
pub record Answers (C : Type 0) : Type 0 where
  pub card : C
  pub storage : Storage
  pub removed : Bool
  pub now : ℕ
  pub heap : ℕ
  pub cpu_mhz : ℕ

-- What is sent; an error is its status code.
pub data Reply : Type 0 where
  unauthorized page saved resetting not_found : Reply
  failed : ℕ → Reply
  report : (uptime heap cpu_mhz : ℕ) → Reply
  document : Document → Reply
  listing : List (Bytes × ℕ) → Reply
  log_file : Bytes → Reply
  mode : PowerMode → Reply

-- `WEB_MANAGEMENT_USERNAME`
abbrev pub management_username : Bytes
management_username = 97 ∷ 100 ∷ 109 ∷ 105 ∷ 110 ∷ []

unfoldable pub is_authenticated : {K C : Type 0} → Services K C → Request K → App → Bool
is_authenticated lib r a =
    lib.authenticate r.credentials management_username a.server.management_password

-- `requireManagementAuth` before the rest of a handler.
unfoldable pub require_management_auth :
    {K C : Type 0} → Services K C → (App → Reply × App) → Request K → App → Reply × App
require_management_auth lib rest r a =
    if is_authenticated lib r a then rest a else (unauthorized, a)

unfoldable pub list_files : List File → List (Bytes × ℕ)
list_files [] = []
list_files (e ∷ es) =
    let more = list_files es in if e.is_directory then more else (e.name, e.size) ∷ more

unfoldable pub listed : Option (List File) → Reply
listed none = failed 500
listed (some es) = listing (list_files es)

unfoldable pub handle_logs : {C : Type 0} → Library C → C → Reply
handle_logs sd card = if sd.exists log_dir card then listed (sd.list_logs card) else listing []

-- `indexOf` of a character, and of two dots, not being negative.
abbrev pub has_char : ℕ → Bytes → Bool
has_char c [] = false
has_char c (x ∷ xs) = (x == c) || has_char c xs

abbrev pub starts_dot : Bytes → Bool
starts_dot [] = false
starts_dot (x ∷ xs) = x == 46

abbrev pub has_dots : Bytes → Bool
has_dots [] = false
has_dots (x ∷ xs) = (x == 46) && starts_dot xs || has_dots xs

unfoldable pub is_refused : Bytes → Bool
is_refused name =
    has_dots name || has_char 47 name || has_char 92 name || has_char 13 name || has_char 10 name

unfoldable pub download_file : {C : Type 0} → Library C → C → Option Bytes → Reply
download_file sd card none = failed 400
download_file sd card (some name) =
    let path = log_dir ++ 47 ∷ name in
    if is_refused name
    then failed 400
    else if sd.exists path card
    then log_file path
    else failed 404

-- The import of a collected body.
unfoldable pub import_body :
    {K C : Type 0} → Services K C → Storage → Option Bytes → App → Bool × App
import_body lib storage none a = (false, a)
import_body lib storage (some text) a =
    let (done, m) = from_json lib.conversions storage (lib.parse text) a.config in
    (done, record a { config = m })

unfoldable pub save_body : {K C : Type 0} → Services K C → Storage → Request K → App → Reply × App
save_body lib storage r a =
    if ltb body_max r.content_length
    then (failed 413, a)
    else (let (done, b) = import_body lib storage r.body a in
        (if done then saved else failed 400, b))

unfoldable pub reset_all : Bool → App → Reply × App
reset_all removed a =
    let (done, m) = reset removed a.config in
    (if done then resetting else failed 500, record a { config = m })

unfoldable pub switch_mode : PowerMode → App → Reply × App
switch_mode m a = let p = set_mode m a.power in (mode p.current_mode, record a { power = p })

-- `"0"` and `"1"`
unfoldable pub choose_mode : Option Bytes → App → Reply × App
choose_mode none a = (failed 400, a)
choose_mode (some text) a =
    if is_text text (48 ∷ [])
    then switch_mode power_full a
    else if is_text text (49 ∷ [])
    then switch_mode power_balanced a
    else (failed 400, a)

unfoldable pub handle_root : App → Reply × App
handle_root a = (page, a)

unfoldable pub handle_api : {C : Type 0} → Answers C → App → Reply × App
handle_api ans a = (report (ans.now / 1000) ans.heap ans.cpu_mhz, a)

unfoldable pub handle_config : App → Reply × App
handle_config a = (document (to_json a.config.cfg), a)

unfoldable pub handle_not_found : App → Reply × App
handle_not_found a = (not_found, a)

-- What the routes do that `begin` registers.
unfoldable pub handle :
    {K C : Type 0} → Services K C → Answers C → Route → Request K → App → Reply × App
handle lib ans root r a = handle_root a
handle lib ans status r a = handle_api ans a
handle lib ans config r a = handle_config a
handle lib ans logs r a = require_management_auth lib (λ b. (handle_logs lib.sd ans.card, b)) r a
handle lib ans download r a =
    require_management_auth lib (λ b. (download_file lib.sd ans.card r.param, b)) r a
handle lib ans save_config r a =
    require_management_auth lib (λ b. save_body lib ans.storage r b) r a
handle lib ans reset_config r a = require_management_auth lib (λ b. reset_all ans.removed b) r a
handle lib ans power r a = require_management_auth lib (λ b. choose_mode r.param b) r a
handle lib ans elsewhere r a = handle_not_found a
