-- ===== src/Web/Body.antt =====
-- How the body of a configuration request is collected, chunk by chunk, in `_tempObject`.
use mathlib.Core.List.{append-nil, append_assoc}
use sky_sweep.Prelude.{
  ap, sym, ◌∙◌, leb-true, ltb→le, ℕ, ◌+◌, ◌≤◌, ◌≡◌, refl, inl, inr, true, false, ◌&&◌, Bool-cases,
  Option, none, some, List, [], ◌∷◌, ◌++◌, if◌then◌else◌, ◌==◌, ltb, leb, length, length-append,
  arith, Bytes,
}

-- `WEB_CONFIG_BODY_MAX_BYTES`
abbrev pub body_max : ℕ
body_max = 2048

unfoldable pub append_chunk : Bytes → ℕ → Option Bytes → Option Bytes
append_chunk chunk index none = none
append_chunk chunk index (some body) =
    if leb (index + length chunk) body_max then some (body ++ chunk) else some body

-- The body handler of `POST /api/config`, for a chunk, its place and the length of the whole.
unfoldable pub collect_chunk : ℕ → Bytes → ℕ → Option Bytes → Option Bytes
collect_chunk total chunk index temp =
    if (index == 0) && ltb body_max total
    then temp
    else append_chunk chunk index (if index == 0 then some [] else temp)

-- The chunks that the library hands over, one behind the other.
abbrev pub deliver : ℕ → List Bytes → ℕ → Option Bytes → Option Bytes
deliver total [] index temp = temp
deliver total (chunk ∷ chunks) index temp =
    deliver total chunks (index + length chunk) (collect_chunk total chunk index temp)

abbrev pub joined : List Bytes → Bytes
joined [] = []
joined (chunk ∷ chunks) = chunk ++ joined chunks

module _ (total : ℕ) where
  -- A body that is too long is never stored.
  deliver-refused :
      (chunks : List Bytes) (index : ℕ)
      → ltb body_max total ≡ true
      → deliver total chunks index none ≡ none
  unfolding collect_chunk append_chunk
  deliver-refused [] index h = refl
  deliver-refused (chunk ∷ chunks) index h = elim (Bool-cases (index == 0)) [
    | inl start ↦ rw (start, h) (deliver-refused chunks (index + length chunk) h)
    | inr later ↦ rw later (deliver-refused chunks (index + length chunk) h)
  ]

  collect_kept :
      (front chunk : Bytes) (index : ℕ)
      → ltb body_max total ≡ false
      → length front ≡ index
      → index + length chunk ≤ body_max
      → collect_chunk total chunk index (some front) ≡ some (front ++ chunk)
  unfolding collect_chunk append_chunk
  collect_kept [] chunk index h e fits =
      let start : (index == 0) ≡ true = ground arith in rw (start, h, leb-true _ _ fits) refl
  collect_kept (x ∷ front) chunk index h e fits =
      let later : (index == 0) ≡ false = ground arith in rw (later, leb-true _ _ fits) refl

  collect_first :
      (chunk : Bytes)
      → ltb body_max total ≡ false
      → length chunk ≤ body_max
      → collect_chunk total chunk 0 none ≡ some chunk
  unfolding collect_chunk append_chunk
  collect_first chunk h fits =
      let room : leb (0 + length chunk) body_max ≡ true = ground arith in rw (h, room) refl

  -- The text so far is what the chunks gave.
  deliver-kept :
      (chunks : List Bytes) (front : Bytes) (index : ℕ)
      → ltb body_max total ≡ false
      → length front ≡ index
      → index + length (joined chunks) ≤ body_max
      → deliver total chunks index (some front) ≡ some (front ++ joined chunks)
  deliver-kept [] front index h e fits = ap some (sym (append-nil front))
  deliver-kept (chunk ∷ chunks) front index h e fits =
      let sizes = length-append chunk (joined chunks) in
      rw (collect_kept front chunk index h e (omega (arith, sizes, fits))) (
        deliver-kept chunks (front ++ chunk) (index + length chunk) h
          (omega (arith, length-append front chunk, e)) (omega (arith, sizes, fits))
        ∙ ap some (append_assoc front chunk (joined chunks)))

-- The body that the handler of the route finds.
pub deliver-Body :
    (chunk : Bytes) (chunks : List Bytes)
    → deliver (length (joined (chunk ∷ chunks))) (chunk ∷ chunks) 0 none ≡ (
        if ltb body_max (length (joined (chunk ∷ chunks)))
        then none
        else some (joined (chunk ∷ chunks)))
deliver-Body chunk chunks =
    let total = length (joined (chunk ∷ chunks)) in
    elim (Bool-cases (ltb body_max total)) [
      | inl long ↦ rw long (deliver-refused total (chunk ∷ chunks) 0 long)
      | inr short ↦
          let sizes = length-append chunk (joined chunks) in
          let fits = ltb→le body_max total short in
          rw (short, collect_first total chunk short (omega (arith, sizes, fits)))
            (deliver-kept total chunks chunk (0 + length chunk) short (omega arith)
              (omega (arith, sizes, fits)))
    ]
