-- ===== src/Logger/Rotation.antt =====
-- The set-up of `DataLogger` and the rotation of its files.
use sky_sweep.Prelude.{
  ℕ, suc, Bool, true, false, not, ◌&&◌, Option, none, some, List, [], ◌∷◌, ◌++◌, if◌then◌else◌, ltb,
  leb, take, u8, Bytes,
}
use sky_sweep.Logger.Card.{File, Library, Format, System, with_lock}

-- `LOG_DIR`
abbrev pub log_dir : Bytes
log_dir = 47 ∷ 108 ∷ 111 ∷ 103 ∷ 115 ∷ []

unfoldable pub create_log_directory : {C : Type 0} → Library C → C → Bool × C
create_log_directory sd c = if sd.exists log_dir c then (true, c) else sd.make_log_dir c

-- `generateLogFileName`, for what `millis` returns: at most 63 characters.
unfoldable pub generate_log_file_name : {F : Type 0} → Format F → ℕ → Bytes
generate_log_file_name f now = take 63 (f.log_file_name now)

-- The body of `begin` behind the mount.
unfoldable pub begin_mounted :
    {C F : Type 0} → Library C → Format F → ℕ → System C → Bool × System C
begin_mounted sd f now s =
    let (created, c) = create_log_directory sd s.card in
    if created
    then (
      true,
      record s {
        logger = record s.logger {
          current_log_file = generate_log_file_name f now;
          sd_card_available = true;
        };
        card = c;
      },
    )
    else (false, record s { card = sd.unmount c })

unfoldable pub begin_locked : {C F : Type 0} → Library C → Format F → ℕ → System C → Bool × System C
begin_locked sd f now s =
    let (mounted, c) = sd.mount s.card in
    if mounted
    then begin_mounted sd f now (record s { card = c })
    else (false, record s { logger = record s.logger { sd_card_available = false }; card = c })

unfoldable pub begin : {C F : Type 0} → Library C → Format F → Bool → ℕ → System C → Bool × System C
begin sd f obtained now s = with_lock sd obtained false (begin_locked sd f now) s

unfoldable pub end : {C : Type 0} → Library C → Bool → System C → System C
end sd obtained s =
    (with_lock sd obtained tt
      (λ t. (
        tt,
        record t {
          logger = record t.logger { sd_card_available = false };
          card = sd.unmount t.card;
        },
      ))
      s).1

-- The loop of `getLogFileCount` over the entries that are left.
unfoldable pub count_files : List File → ℕ → ℕ
count_files [] n = n
count_files (e ∷ es) n = count_files es (if e.is_directory then n else u8 (suc n))

-- A directory that cannot be opened counts as empty.
unfoldable pub count_listed : Option (List File) → ℕ
count_listed none = 0
count_listed (some es) = count_files es 0

unfoldable pub get_log_file_count : {C : Type 0} → Library C → C → ℕ
get_log_file_count sd c = count_listed (sd.list_logs c)

-- The loop of `deleteOldestLog` over the entries that are left.
unfoldable pub find_oldest : List File → ℕ → Option Bytes → Option Bytes
find_oldest [] oldest_time oldest_file = oldest_file
find_oldest (e ∷ es) oldest_time oldest_file =
    if not e.is_directory && ltb e.last_write oldest_time
    then find_oldest es e.last_write (some (log_dir ++ 47 ∷ e.name))
    else find_oldest es oldest_time oldest_file

unfoldable pub remove_found : {C : Type 0} → Library C → Option Bytes → C → C
remove_found sd none c = c
remove_found sd (some path) c = sd.remove path c

-- The loop starts from `UINT32_MAX`.
unfoldable pub oldest_listed : Option (List File) → Option Bytes
oldest_listed none = none
oldest_listed (some es) = find_oldest es 4294967295 none

unfoldable pub delete_oldest_log : {C : Type 0} → Library C → C → C
delete_oldest_log sd c = remove_found sd (oldest_listed (sd.list_logs c)) c

-- `MAX_LOG_FILES` is 50.
unfoldable pub rotate_logs_if_needed :
    {C F : Type 0} → Library C → Format F → ℕ → System C → System C
rotate_logs_if_needed sd f now s =
    if leb s.logger.log_rotation_size s.logger.current_file_size
    then record s {
      logger = record s.logger {
        current_log_file = generate_log_file_name f now;
        current_file_size = 0;
      };
      card = if ltb 50 (get_log_file_count sd s.card) then delete_oldest_log sd s.card else s.card;
    }
    else s
