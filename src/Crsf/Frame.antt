-- ===== src/Crsf/Frame.antt =====
-- What the CRSF receiver is meant to do, with no buffer and no index: it collects the bytes of a
-- frame in a list.
use sky_sweep.Prelude.{
  ℕ, ◌+◌, ◌-◌, ◌≤◌, ◌<◌, ◌≡◌, ◌⊎◌, Bool, false, ◌||◌, Option, none, some, [], ◌∷◌, ◌++◌,
  if◌then◌else◌, ◌==◌, ltb, leb, Bytes, length, get_or, take, drop,
}
use sky_sweep.Crsf.Crc.{crc_over}
use sky_sweep.Crsf.Parser.{sync_byte, payload_size_max}

-- A frame on the wire: address, length, type, payload, CRC over type and payload.
abbrev pub wire : ℕ → Bytes → Bytes
wire type payload =
    sync_byte ∷ (length payload + 2) ∷ type ∷ (payload ++ crc_over 0 (type ∷ payload) ∷ [])

abbrev pub type_of : Bytes → ℕ
type_of f = get_or f 2 0

abbrev pub payload_of : Bytes → Bytes
payload_of f = take (get_or f 1 0 - 2) (drop 3 f)

-- The last byte of the frame is the CRC of its type and payload.
abbrev pub is_intact : Bytes → Bool
is_intact f = crc_over 0 (type_of f ∷ payload_of f) == get_or f (1 + get_or f 1 0) 0

-- The bytes kept after one more byte, and the frame that it completes, if it does.
abbrev pub receive_more : Bytes → Bytes × Option Bytes
receive_more f =
    if ltb (length f) 3
    then (f, none)
    else if ltb (get_or f 1 0) 2 || ltb payload_size_max (get_or f 1 0 - 2)
    then ([], none)
    else if leb (get_or f 1 0 + 2) (length f)
    then ([], some f)
    else (f, none)

unfoldable pub receive : Bytes → ℕ → Bytes × Option Bytes
receive [] b = if b == sync_byte then (b ∷ [], none) else ([], none)
receive (c ∷ cs) b = receive_more (c ∷ (cs ++ b ∷ []))

abbrev pub accepted : Option Bytes → Bool
accepted none = false
accepted (some f) = is_intact f

-- The stream up to and with the first intact frame: what is kept, and that frame.
abbrev pub scan_after : Bytes × Option Bytes → (Bytes → Bytes × Option Bytes) → Bytes × Option Bytes
scan_after (kept, none) rest = rest kept
scan_after (kept, some f) rest = if is_intact f then (kept, some f) else rest kept

unfoldable pub scan : Bytes → Bytes → Bytes × Option Bytes
scan kept [] = (kept, none)
scan kept (b ∷ bs) = scan_after (receive kept b) (λ k. scan k bs)

-- What the receiver may hold between two bytes.
pub record IsPartial (c : Bytes) : Type 0 where
  pub synced : (c ≡ []) ⊎ (get_or c 0 0 ≡ sync_byte)
  pub bounded :
      (length c < 3)
      ⊎ ((2 ≤ get_or c 1 0) × (get_or c 1 0 ≤ payload_size_max + 2) × (length c < get_or c 1 0 + 2))
