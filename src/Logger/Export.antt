-- ===== src/Logger/Export.antt =====
-- The exports of `DataLogger` and the size of its files. The logs are read as they are once the
-- output file is open and its head is printed; the output is taken to lie outside their directory.
use sky_sweep.Prelude.{
  ℕ, ◌+◌, Bool, true, false, not, Option, none, some, List, [], ◌∷◌, ◌++◌, if◌then◌else◌, u32,
  Bytes,
}
use sky_sweep.Logger.Card.{File, Library, System, with_lock}

-- `{"detections":[` and `]}` as `println` writes them.
abbrev pub json_head : Bytes
json_head =
    123 ∷ 34 ∷ 100 ∷ 101 ∷ 116 ∷ 101 ∷ 99 ∷ 116 ∷ 105 ∷ 111 ∷ 110 ∷ 115 ∷ 34 ∷ 58 ∷ 91 ∷ 13 ∷ 10
    ∷ []

abbrev pub json_foot : Bytes
json_foot = 93 ∷ 125 ∷ 13 ∷ 10 ∷ []

-- The names of the columns, as `println` writes them.
abbrev pub csv_head : Bytes
csv_head =
    84 ∷ 105 ∷ 109 ∷ 101 ∷ 115 ∷ 116 ∷ 97 ∷ 109 ∷ 112 ∷ 44 ∷ 84 ∷ 121 ∷ 112 ∷ 101 ∷ 44 ∷ 77 ∷ 111
    ∷ 100 ∷ 117 ∷ 108 ∷ 101 ∷ 44 ∷ 82 ∷ 83 ∷ 83 ∷ 73 ∷ 44 ∷ 70 ∷ 114 ∷ 101 ∷ 113 ∷ 117 ∷ 101 ∷ 110
    ∷ 99 ∷ 121 ∷ 44 ∷ 80 ∷ 114 ∷ 111 ∷ 116 ∷ 111 ∷ 99 ∷ 111 ∷ 108 ∷ 44 ∷ 76 ∷ 97 ∷ 116 ∷ 105 ∷ 116
    ∷ 117 ∷ 100 ∷ 101 ∷ 44 ∷ 76 ∷ 111 ∷ 110 ∷ 103 ∷ 105 ∷ 116 ∷ 117 ∷ 100 ∷ 101 ∷ 44 ∷ 65 ∷ 108
    ∷ 116 ∷ 105 ∷ 116 ∷ 117 ∷ 100 ∷ 101 ∷ 13 ∷ 10 ∷ []

-- `,` before every entry but the first, and `{"raw":"`, the line, `"}`.
abbrev pub raw_entry : Bool → Bytes → Bytes
raw_entry first_entry log_line =
    (if first_entry then [] else 44 ∷ [])
    ++ (123 ∷ 34 ∷ 114 ∷ 97 ∷ 119 ∷ 34 ∷ 58 ∷ 34 ∷ [])
    ++ log_line
    ++ (34 ∷ 125 ∷ [])

unfoldable pub json_lines : Bool → List Bytes → Bytes × Bool
json_lines first_entry [] = ([], first_entry)
json_lines first_entry (l ∷ ls) =
    let (more, last) = json_lines false ls in (raw_entry first_entry l ++ more, last)

unfoldable pub json_files : Bool → List File → Bytes
json_files first_entry [] = []
json_files first_entry (e ∷ es) =
    let (text, next) = json_lines first_entry (if e.is_directory then [] else e.lines) in
    text ++ json_files next es

unfoldable pub csv_lines : List Bytes → Bytes
csv_lines [] = []
csv_lines (l ∷ ls) = l ++ 13 ∷ 10 ∷ csv_lines ls

unfoldable pub csv_files : List File → Bytes
csv_files [] = []
csv_files (e ∷ es) = csv_lines (if e.is_directory then [] else e.lines) ++ csv_files es

-- The rest of an export, for the entries of the log directory, if it can be opened.
unfoldable pub print_logs :
    {C : Type 0} → Library C → Bytes → (List File → Bytes) → C → Option (List File) → Bool × C
print_logs sd path text c none = (false, c)
print_logs sd path text c (some es) = (true, sd.print path (text es) c)

unfoldable pub export_opened :
    {C : Type 0} → Library C → Bytes → Bytes → (List File → Bytes) → Option C → C → Bool × C
export_opened sd path head text none c = (false, c)
export_opened sd path head text (some opened) c =
    let d = sd.print path head opened in print_logs sd path text d (sd.list_logs d)

unfoldable pub export_locked :
    {C : Type 0} → Library C → Bytes → Bytes → (List File → Bytes) → System C → Bool × System C
export_locked sd path head text s =
    let (done, c) = export_opened sd path head text (sd.open_write path s.card) s.card in
    (done, record s { card = c })

-- `exportToJSON`; both times are ignored.
unfoldable pub export_to_json :
    {C : Type 0} → Library C → Bool → Bytes → ℕ → ℕ → System C → Bool × System C
export_to_json sd obtained path start_time end_time s =
    if not s.logger.sd_card_available
    then (false, s)
    else with_lock sd obtained false
        (export_locked sd path json_head (λ es. json_files true es ++ json_foot)) s

-- `exportToCSV`; both times are ignored.
unfoldable pub export_to_csv :
    {C : Type 0} → Library C → Bool → Bytes → ℕ → ℕ → System C → Bool × System C
export_to_csv sd obtained path start_time end_time s =
    if not s.logger.sd_card_available
    then (false, s)
    else with_lock sd obtained false (export_locked sd path csv_head csv_files) s

unfoldable pub total_size : List File → ℕ → ℕ
total_size [] n = n
total_size (e ∷ es) n = total_size es (if e.is_directory then n else u32 (n + e.size))

unfoldable pub get_total_log_size : {C : Type 0} → Library C → Bool → System C → ℕ × System C
get_total_log_size sd obtained s =
    if not s.logger.sd_card_available
    then (0, s)
    else with_lock sd obtained 0
        (λ t. (elim (sd.list_logs t.card) [ none ↦ 0 | some es ↦ total_size es 0 ], t)) s
