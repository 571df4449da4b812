-- ===== src/Logger/Oldest.antt =====
-- Which file the rotation deletes.
use sky_sweep.Prelude.{
  ℕ, suc, ◌≤◌, ◌<◌, ◌≡◌, refl, ◌⊎◌, inl, inr, Bool, true, false, not, ◌&&◌, Bool-cases, Option,
  none, some, List, [], ◌∷◌, ◌++◌, arith, Bytes, if◌then◌else◌, ltb, leb-true, ltb-true, All,
  get_elem?,
}
use sky_sweep.Logger.Card.{File, Library, Format, System}
use sky_sweep.Logger.Rotation.{
  log_dir, count_files, count_listed, oldest_listed, get_log_file_count, find_oldest, remove_found,
  delete_oldest_log, rotate_logs_if_needed,
}

-- No file, directories aside, was written before a time.
abbrev pub NoneBefore : ℕ → List File → Type 0
NoneBefore time es = All (λ e. e.is_directory ≡ false → time ≤ e.last_write) es

-- A file in the list, and no directory, that none was written before.
pub record Oldest (es : List File) : Type 0 where
  pub file : File
  pub index : ℕ
  pub in_list : get_elem? es index ≡ some file
  pub is_file : file.is_directory ≡ false
  pub first : NoneBefore file.last_write es

abbrev pub path : File → Bytes
path e = log_dir ++ 47 ∷ e.name

NoneBefore-le : (a b : ℕ) (es : List File) → a ≤ b → NoneBefore b es → NoneBefore a es
NoneBefore-le a b [] h n = tt
NoneBefore-le a b (e ∷ es) h (n, ns) = (λ d. omega (arith, n d), NoneBefore-le a b es h ns)

-- What the loop answers, from the oldest time and file so far.
abbrev pub Answer : List File → ℕ → Option Bytes → Option Bytes → Type 0
Answer es time old new =
    ((new ≡ old) × NoneBefore time es)
    ⊎ ((o : Oldest es) × (new ≡ some (path o.file)) × (o.file.last_write < time))

module _ (e : File) (es : List File) (time : ℕ) (old : Option Bytes) where
  -- The file is older than all before it.
  taken-Answer :
      e.is_directory ≡ false
      → e.last_write < time
      → Answer es e.last_write (some (path e)) (find_oldest es e.last_write (some (path e)))
      → Answer (e ∷ es) time old (find_oldest es e.last_write (some (path e)))
  taken-Answer plain older (inl (same, none_before)) = inr (
    record {
      file = e;
      index = 0;
      in_list = refl;
      is_file = plain;
      first = (λ d. omega arith, none_before);
    },
    same,
    older,
  )
  taken-Answer plain older (inr (o, found, before)) = inr (
    record {
      file = o.file;
      index = suc o.index;
      in_list = o.in_list;
      is_file = o.is_file;
      first = (λ d. omega arith, o.first);
    },
    found,
    omega arith,
  )

  passed-Answer :
      (e.is_directory ≡ false → time ≤ e.last_write)
      → Answer es time old (find_oldest es time old)
      → Answer (e ∷ es) time old (find_oldest es time old)
  passed-Answer late (inl (same, none_before)) = inl (same, (late, none_before))
  passed-Answer late (inr (o, found, before)) = inr (
    record {
      file = o.file;
      index = suc o.index;
      in_list = o.in_list;
      is_file = o.is_file;
      first = (λ d. omega (arith, late d), o.first);
    },
    found,
    before,
  )

  choose-Answer :
      (test : Bool) (taken passed : Option Bytes)
      → (test ≡ true → Answer (e ∷ es) time old taken)
      → (test ≡ false → Answer (e ∷ es) time old passed)
      → Answer (e ∷ es) time old (if test then taken else passed)
  choose-Answer true taken passed t p = t refl
  choose-Answer false taken passed t p = p refl

find_oldest-Answer :
    (es : List File) (time : ℕ) (old : Option Bytes) → Answer es time old (find_oldest es time old)
unfolding find_oldest
find_oldest-Answer [] time old = inl (refl, tt)
find_oldest-Answer (e ∷ es) time old =
    choose-Answer e es time old (not e.is_directory && ltb e.last_write time) _ _
      (λ h.
        taken-Answer e es time old (ground arith) (ground arith)
          (find_oldest-Answer es e.last_write (some (path e))))
      (λ h. passed-Answer e es time old (λ d. ground arith) (find_oldest-Answer es time old))

-- Without files that have a time, all entries are directories, and nothing is counted.
count_files-directories :
    (es : List File) (n : ℕ)
    → NoneBefore 4294967295 es
    → All (λ e. e.last_write < 4294967295) es
    → count_files es n ≡ n
unfolding count_files
count_files-directories [] n none_before times = refl
count_files-directories (e ∷ es) n (late, none_before) (time, times) =
    elim (Bool-cases e.is_directory) [
      | inl folder ↦ rw folder (count_files-directories es n none_before times)
      | inr plain ↦ absurd (omega (arith, late plain))
    ]

module _ {C : Type 0} (sd : Library C) (c : C) (es : List File)
    (listed : sd.list_logs c ≡ some es) where
  get_log_file_count-listed : get_log_file_count sd c ≡ count_files es 0
  unfolding get_log_file_count count_listed
  get_log_file_count-listed = rw listed refl

  delete_oldest_log-found :
      (p : Bytes) → find_oldest es 4294967295 none ≡ some p → delete_oldest_log sd c ≡ sd.remove p c
  unfolding delete_oldest_log oldest_listed remove_found
  delete_oldest_log-found p found = rw (listed, found) refl

-- When a rotation is due, the directory can be listed, every entry was written before the last
-- representable time, and getLogFileCount counts more than 50 files, the rotation removes a file
-- that no other file of the directory was written before.
pub rotate-Oldest :
    {C F : Type 0} (sd : Library C) (f : Format F) (now : ℕ) (s : System C) (es : List File)
    → s.logger.log_rotation_size ≤ s.logger.current_file_size
    → sd.list_logs s.card ≡ some es
    → All (λ e. e.last_write < 4294967295) es
    → 50 < count_files es 0
    → (o : Oldest es) × ((rotate_logs_if_needed sd f now s).card ≡ sd.remove (path o.file) s.card)
unfolding rotate_logs_if_needed
rotate-Oldest sd f now s es full listed times many = elim (find_oldest-Answer es 4294967295 none) [
  | inl (nothing, none_before) ↦
      absurd (omega (arith, count_files-directories es 0 none_before times))
  | inr (o, found, before) ↦ (
    o,
    rw (leb-true _ _ full, get_log_file_count-listed sd s.card es listed, ltb-true _ _ many)
        (delete_oldest_log-found sd s.card es listed (path o.file) found),
  )
]
