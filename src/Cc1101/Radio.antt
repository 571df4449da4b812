-- ===== src/Cc1101/Radio.antt =====
-- `CC1101Driver`: the accesses of the chip, the settings and the received data. The bus and what the
-- chip answers are those of Spi/Bus. Delays are left out, and so is the wait of `writeRegister` for
-- the chip, which ends after 10 ms and changes nothing.
use sky_sweep.Prelude.{
  ℕ, zero, suc, ◌+◌, ◌-◌, ◌*◌, ◌/◌, Bool, false, not, ◌&&◌, ◌||◌, Option, some, if◌then◌else◌, ◌==◌,
  ltb, leb, bit_and, bit_or, u8, u32, Bytes, ◌>>=◌, store,
}
use sky_sweep.Prelude.Int.{ℤ, sub_ℕ, pos_part, neg_part, signed8}
use sky_sweep.Cc1101.Registers.{
  channr, freq2, freq1, freq0, mdmcfg4, mdmcfg3, mdmcfg2, rxfifo, version, lqi_register,
  rssi_register, pktstatus, rxbytes, sres, srx, sidle, sfrx, sftx,
}
use sky_sweep.Spi.Bus.{cc1101, low, high, Bus, put, send}

pub record Radio : Type 0 where
  pub bus : Bus
  pub current_frequency : ℕ
  pub initialized : Bool

abbrev pub new_radio : Bus → Radio
new_radio b = record { bus = b; current_frequency = 915000000; initialized = false }

unfoldable pub write_register : ℕ → ℕ → Bus → Bus
write_register address value b =
    put (high cc1101) (send value (send address (put (low cc1101) b)).1).1

unfoldable pub read_register : ℕ → Bus → ℕ × Bus
read_register address b =
    let (value, c) = send 0 (send (bit_or address 0x80) (put (low cc1101) b)).1 in
    (value, put (high cc1101) c)

unfoldable pub send_strobe : ℕ → Bus → Bus
send_strobe strobe b = put (high cc1101) (send strobe (put (low cc1101) b)).1

unfoldable pub read_status_register : ℕ → Bus → ℕ × Bus
read_status_register address b =
    let (value, c) = send 0 (send (bit_or address 0xC0) (put (low cc1101) b)).1 in
    (value, put (high cc1101) c)

unfoldable pub reset : Bus → Bus
reset b = send_strobe sres (put (high cc1101) (put (low cc1101) b))

-- `freq` of `setFrequency`
unfoldable pub frequency_word : ℕ → ℕ
frequency_word hz = u32 (hz * 65536 / 26000000)

unfoldable pub write_frequency : ℕ → Bus → Bus
write_frequency freq b =
    write_register freq0 (u8 freq)
      (write_register freq1 (u8 (freq / 256)) (write_register freq2 (u8 (freq / 65536)) b))

unfoldable pub set_frequency : ℕ → Radio → Radio
set_frequency hz r =
    if ltb hz 855000000 || ltb 925000000 hz
    then r
    else record r { bus = write_frequency (frequency_word hz) r.bus; current_frequency = hz }

unfoldable pub set_modulation : ℕ → Bus → Bus
set_modulation modulation b =
    let (value, c) = read_register mdmcfg2 b in
    write_register mdmcfg2 (bit_or (bit_and value 0x8F) modulation) c

-- `drate_e` and `drate_m`
unfoldable pub data_rate : ℕ → ℕ × ℕ
data_rate baud =
    if leb 250000 baud then (13, 59) else if leb 115200 baud then (12, 131) else (11, 248)

unfoldable pub set_data_rate : ℕ → Bus → Bus
set_data_rate baud b =
    write_register mdmcfg3 (data_rate baud).1
      (write_register mdmcfg4 (bit_or 0xF0 (data_rate baud).0) b)

unfoldable pub set_channel : ℕ → Bus → Bus
set_channel channel b = write_register channr channel b

unfoldable pub set_rx_mode : Bus → Bus
set_rx_mode b = send_strobe srx b

unfoldable pub set_idle_mode : Bus → Bus
set_idle_mode b = send_strobe sidle b

-- The conversion in `readRSSI`; the division of a negative number drops the fraction.
unfoldable pub rssi_dbm : ℕ → ℤ
rssi_dbm rssi_raw =
    if leb 128 rssi_raw then sub_ℕ 0 ((256 - rssi_raw) / 2 + 74) else sub_ℕ (rssi_raw / 2) 74

-- A cast of an int16_t to int8_t.
unfoldable pub cast_int8 : ℤ → ℤ
cast_int8 a = signed8 (u8 (65536 + pos_part a - neg_part a))

unfoldable pub read_rssi : Bus → ℤ × Bus
read_rssi b =
    let (rssi_raw, c) = read_status_register rssi_register b in (cast_int8 (rssi_dbm rssi_raw), c)

unfoldable pub get_lqi : Bus → ℕ × Bus
get_lqi b = let (lqi, c) = read_status_register lqi_register b in (bit_and lqi 0x7F, c)

unfoldable pub is_carrier_detected : Bus → Bool × Bus
is_carrier_detected b =
    let (pktstatus, c) = read_status_register pktstatus b in (not (bit_and pktstatus 0x10 == 0), c)

unfoldable pub flush_rx_fifo : Bus → Bus
flush_rx_fifo b = send_strobe sfrx b

unfoldable pub flush_tx_fifo : Bus → Bus
flush_tx_fifo b = send_strobe sftx b

-- The loop of `receiveData` from `i` on, with the rounds that `i < maxLength` leaves.
unfoldable pub receive_bytes : ℕ → ℕ → ℕ → Bytes → Bus → Option (Bytes × Bus)
receive_bytes zero i count buffer b = some (buffer, b)
receive_bytes (suc n) i count buffer b =
    if ltb i count
    then (store buffer i (send 0 b).0 >>= λ next.
        receive_bytes n (u8 (suc i)) count next (send 0 b).1)
    else some (buffer, b)

-- The read of the FIFO in `receiveData`: the number of bytes copied, the buffer and the bus.
unfoldable pub receive_frame : Bytes → ℕ → Bus → Option (ℕ × Bytes × Bus)
receive_frame buffer max_length b =
    let (count, c) = send 0 (send (bit_or rxfifo 0xC0) (put (low cc1101) b)).1 in
    receive_bytes max_length 0 count buffer c >>= λ (next, d).
    some (if ltb count max_length then count else max_length, next, put (high cc1101) d)

unfoldable pub receive_data : Bytes → ℕ → Bus → Option (ℕ × Bytes × Bus)
receive_data buffer max_length b =
    let (rx_bytes, c) = read_status_register rxbytes b in
    let num_bytes = bit_and rx_bytes 0x7F in
    if not (bit_and rx_bytes 0x80 == 0)
    then some (0, buffer, flush_rx_fifo c)
    else if num_bytes == 0 || ltb max_length num_bytes
    then some (0, buffer, c)
    else receive_frame buffer max_length c

unfoldable pub get_chip_version : Bus → ℕ × Bus
get_chip_version b = read_status_register version b

unfoldable pub is_connected : Bus → Bool × Bus
is_connected b =
    let (version, c) = get_chip_version b in (not (version == 0) && not (version == 0xFF), c)
