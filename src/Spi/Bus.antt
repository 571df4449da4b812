-- ===== src/Spi/Bus.antt =====
-- `SPIManager` and the bus it guards. Everything that happens on the wires is recorded, the latest
-- first; the devices are a function from that record to the byte that a transfer returns. How the
-- semaphore answers a request is an argument.
use sky_sweep.Prelude.{
  ℕ, suc, ◌-◌, Bool, true, false, ◌&&◌, List, [], ◌∷◌, if◌then◌else◌, u8, Bytes,
}

-- The devices behind the chip-select pins PIN_CC1101_CS, PIN_SX1281_CS and PIN_SD_CS.
pub data Chip : Type 0 where
  cc1101 sx1281 sd_card : Chip

-- A chip-select pin is set low or high, or a byte is sent.
pub data Event : Type 0 where
  low high : Chip → Event
  sent : ℕ → Event

-- `created` is whether the mutex exists; `taken` counts how often it is taken and not yet given.
pub record Bus : Type 0 where
  pub device : List Event → ℕ
  pub traffic : List Event
  pub created : Bool
  pub taken : ℕ
  pub initialized : Bool

unfoldable pub put : Event → Bus → Bus
put e b = record b { traffic = e ∷ b.traffic }

-- `spi->transfer(data)`
unfoldable pub send : ℕ → Bus → ℕ × Bus
send data_byte b =
    let now = sent data_byte ∷ b.traffic in (u8 (b.device now), record b { traffic = now })

-- `spi->transfer(data, length)`: the bytes are replaced by those received.
unfoldable pub send_all : Bytes → Bus → Bytes × Bus
send_all [] b = ([], b)
send_all (x ∷ xs) b =
    let (reply, c) = send x b in let (replies, d) = send_all xs c in (reply ∷ replies, d)

unfoldable pub begin : Bool → Bus → Bool × Bus
begin mutex_created b =
    if mutex_created
    then (
      true,
      record (put (high sd_card) (put (high sx1281) (put (high cc1101) b))) {
        created = true;
        taken = 0;
        initialized = true;
      },
    )
    else (false, record b { created = false })

-- `acquire`, for whether the semaphore is obtained in time.
unfoldable pub acquire : Bool → Bus → Bool × Bus
acquire obtained b =
    if b.created && obtained then (true, record b { taken = suc b.taken }) else (false, b)

unfoldable pub release : Bus → Bus
release b = if b.created then record b { taken = b.taken - 1 } else b

unfoldable pub deselect_all : Bus → Bus
deselect_all b = put (high sd_card) (put (high sx1281) (put (high cc1101) b))

unfoldable pub select_device : Chip → Bus → Bus
select_device chip b = put (low chip) (deselect_all b)

unfoldable pub transfer : Chip → ℕ → Bus → ℕ × Bus
transfer chip data_byte b =
    let (result, c) = send data_byte (select_device chip b) in (result, deselect_all c)

unfoldable pub transfer_bulk : Chip → Bytes → Bus → Bytes × Bus
transfer_bulk chip bytes b =
    let (replies, c) = send_all bytes (select_device chip b) in (replies, deselect_all c)
