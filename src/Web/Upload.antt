-- ===== src/Web/Upload.antt =====
-- A configuration that is posted, from its chunks to the reply; and the files that are handed out.
use sky_sweep.Prelude.{
  ℕ, ◌≡◌, ◌≢◌, refl, sym, ◌∙◌, inl, inr, Bool, true, false, ◌||◌, Bool-cases, Option, none, some,
  List, [], ◌∷◌, ◌++◌, if◌then◌else◌, ltb, length, Bytes, All, ◌==◌, false≢true, arith,
}
use sky_sweep.Config.Storage.{Storage}
use sky_sweep.Config.Manager.{from_json}
use sky_sweep.Logger.Card.{Library}
use sky_sweep.Logger.Rotation.{log_dir}
use sky_sweep.Web.Server.{App}
use sky_sweep.Web.Body.{body_max, deliver, joined, deliver-Body}
use sky_sweep.Web.Routes.{
  Services, save_config, download, Request, Answers, Reply, saved, failed, unauthorized, log_file,
  is_authenticated, require_management_auth, import_body, save_body, handle, is_refused, has_dots,
  has_char, download_file,
}

-- The reply to an import, and its effect.
abbrev pub imported : {K C : Type 0} → Services K C → Storage → Bytes → App → Reply × App
imported lib storage text a =
    let (done, m) = from_json lib.conversions storage (lib.parse text) a.config in
    (if done then saved else failed 400, record a { config = m })

-- The request that the library builds from chunks.
abbrev pub posted : {K : Type 0} → K → List Bytes → Request K
posted k chunks = record {
  credentials = k;
  param = none;
  content_length = length (joined chunks);
  body = deliver (length (joined chunks)) chunks 0 none;
}

-- The text that arrives in one or more chunks at POST /api/config is answered as a whole: without
-- the credentials by the challenge, above 2048 bytes by 413, both without an effect, and otherwise
-- by fromJSON of exactly that text.
pub handle-posted :
    {K C : Type 0} (lib : Services K C) (ans : Answers C) (k : K) (chunk : Bytes)
    (chunks : List Bytes) (a : App)
    → handle lib ans save_config (posted k (chunk ∷ chunks)) a ≡ (
        if is_authenticated lib (posted k (chunk ∷ chunks)) a
        then (if ltb body_max (length (joined (chunk ∷ chunks)))
            then (failed 413, a)
            else imported lib ans.storage (joined (chunk ∷ chunks)) a)
        else (unauthorized, a))
unfolding handle require_management_auth save_body import_body
handle-posted lib ans k chunk chunks a =
    elim (Bool-cases (ltb body_max (length (joined (chunk ∷ chunks))))) [
      | inl long ↦ rw long refl
      | inr short ↦ rw (deliver-Body chunk chunks, short) refl
    ]

-- A name without a separator or a line break, in which no two dots follow each other.
pub record IsPlain (name : Bytes) : Type 0 where
  pub characters : All (λ c. (c ≢ 47) × (c ≢ 92) × (c ≢ 13) × (c ≢ 10)) name
  pub no_dots : has_dots name ≡ false

has_char-none : (c : ℕ) (name : Bytes) → has_char c name ≡ false → All (λ x. x ≢ c) name
has_char-none c [] h = tt
has_char-none c (x ∷ xs) h = elim (Bool-cases (x == c)) [
  | inl same ↦ absurd (false≢true (sym h ∙ rw same refl))
  | inr other ↦ (λ e. ground (arith, e, other), has_char-none c xs (rw other at h))
]

both_characters :
    (a b c d : ℕ) (name : Bytes)
    → All (λ x. x ≢ a) name
    → All (λ x. x ≢ b) name
    → All (λ x. x ≢ c) name
    → All (λ x. x ≢ d) name
    → All (λ x. (x ≢ a) × (x ≢ b) × (x ≢ c) × (x ≢ d)) name
both_characters a b c d [] p q r s = tt
both_characters a b c d (x ∷ xs) (p, ps) (q, qs) (r, rs) (s, ss) =
    ((p, q, r, s), both_characters a b c d xs ps qs rs ss)

-- A disjunction that is false.
or-false : (a b : Bool) → (a || b) ≡ false → (a ≡ false) × (b ≡ false)
or-false true b h = absurd (false≢true (sym h))
or-false false b h = (refl, h)

is_refused-IsPlain : (name : Bytes) → is_refused name ≡ false → IsPlain name
unfolding is_refused
is_refused-IsPlain name h =
    let a = has_dots name in
    let b = a || has_char 47 name in
    let c = b || has_char 92 name in
    let d = c || has_char 13 name in
    let (before_feed, feed) = or-false d (has_char 10 name) h in
    let (before_return, return) = or-false c (has_char 13 name) before_feed in
    let (before_backslash, backslash) = or-false b (has_char 92 name) before_return in
    let (dots, slash) = or-false a (has_char 47 name) before_backslash in
    record {
      characters =
          both_characters 47 92 13 10 name (has_char-none 47 name slash)
            (has_char-none 92 name backslash) (has_char-none 13 name return)
            (has_char-none 10 name feed);
      no_dots = dots;
    }

-- What `download_file` hands out.
pub record HandsOut {C : Type 0} (sd : Library C) (card : C) (param : Option Bytes) (path : Bytes)
    : Type 0 where
  pub name : Bytes
  pub asked : param ≡ some name
  pub place : path ≡ log_dir ++ 47 ∷ name
  pub plain : IsPlain name
  pub present : sd.exists path card ≡ true

download_file-HandsOut :
    {C : Type 0} (sd : Library C) (card : C) (param : Option Bytes) (path : Bytes)
    → download_file sd card param ≡ log_file path
    → HandsOut sd card param path
unfolding download_file
download_file-HandsOut sd card none path h = absurd (cc h)
download_file-HandsOut sd card (some name) path h = elim (Bool-cases (is_refused name)) [
  | inl refused ↦ absurd (cc (rw refused at h))
  | inr fine ↦ elim (Bool-cases (sd.exists (log_dir ++ 47 ∷ name) card)) [
    | inr missing ↦ absurd (cc (rw (fine, missing) at h))
    | inl present ↦
        let place : log_dir ++ 47 ∷ name ≡ path = cc (rw (fine, present) at h) in
        record {
          name = name;
          asked = refl;
          place = sym place;
          plain = is_refused-IsPlain name fine;
          present = rw (← place) present;
        }
  ]
]

-- If a download request is answered by a file, the credentials were accepted, the name that was
-- asked for has no separator, no line break and no two dots in a row, and the file is the existing
-- one of that name in the log directory.
pub handle-HandsOut :
    {K C : Type 0} (lib : Services K C) (ans : Answers C) (r : Request K) (a : App) (path : Bytes)
    → (handle lib ans download r a).0 ≡ log_file path
    → (is_authenticated lib r a ≡ true) × HandsOut lib.sd ans.card r.param path
unfolding handle require_management_auth
handle-HandsOut lib ans r a path h = elim (Bool-cases (is_authenticated lib r a)) [
  | inl known ↦ (known, download_file-HandsOut lib.sd ans.card r.param path (rw known at h))
  | inr wrong ↦ absurd (cc (rw wrong at h))
]
