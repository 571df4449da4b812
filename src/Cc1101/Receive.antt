-- ===== src/Cc1101/Receive.antt =====
-- `receiveData` stays within the caller's buffer.
use sky_sweep.Prelude.{
  ℕ, zero, suc, ◌+◌, ◌≤◌, ◌<◌, min, ◌≡◌, refl, inl, inr, not, ◌||◌, Bool-cases, Option, some, arith,
  Bytes, ltb, ltb→lt, ◌==◌, if◌then◌else◌, bit_and, store-some, set, length, length-set, drop,
  drop-set, ◌∙◌, u8,
}
use sky_sweep.Spi.Bus.{cc1101, high, low, Bus, put, send}
use sky_sweep.Spi.Line.{IsIdle, Selects, put-low, put-high, send-Selects}
use sky_sweep.Cc1101.Radio.{
  receive_bytes, receive_frame, receive_data, read_status_register, flush_rx_fifo,
}
use sky_sweep.Cc1101.Safety.{read_status_register-IsIdle, send_strobe-IsIdle}

-- The loop returns, with the chip still selected; at most the first `count` entries changed.
record Copies (limit : ℕ) (buffer : Bytes) (result : Option (Bytes × Bus)) : Type 0 where
  pub next : Bytes
  pub bus : Bus
  pub returns : result ≡ some (next, bus)
  pub selected : Selects cc1101 bus
  pub same_length : length next ≡ length buffer
  pub rest : drop limit next ≡ drop limit buffer

receive_bytes-Copies :
    (n i count top : ℕ) (buffer : Bytes) (b : Bus)
    → i + n ≡ top
    → top ≤ length buffer
    → top < 256
    → i ≤ count
    → Selects cc1101 b
    → Copies (min count top) buffer (receive_bytes n i count buffer b)
unfolding receive_bytes
receive_bytes-Copies zero i count top buffer b e fits small below h = record {
  next = buffer;
  bus = b;
  returns = refl;
  selected = h;
  same_length = refl;
  rest = refl;
}
receive_bytes-Copies (suc n) i count top buffer b e fits small below h =
    elim (Bool-cases (ltb i count)) [
      | inr past ↦ rw past (record {
        next = buffer;
        bus = b;
        returns = refl;
        selected = h;
        same_length = refl;
        rest = refl;
      })
      | inl more ↦
          let v = (send 0 b).0 in
          let step : u8 (suc i) ≡ suc i = omega arith in
          let under = ltb→lt i count more in
          let later =
            receive_bytes-Copies n (suc i) count top (set buffer i v) (send 0 b).1 (omega arith)
              (omega (arith, length-set buffer i v, fits)) small (omega arith)
              (send-Selects cc1101 0 b h) in
          rw (more, store-some buffer i v (omega arith), step)
            (record {
              next = later.next;
              bus = later.bus;
              returns = later.returns;
              selected = later.selected;
              same_length = later.same_length ∙ length-set buffer i v;
              rest = later.rest ∙ drop-set (min count top) buffer i v (omega arith);
            })
    ]

-- `receiveData` returns, with the bus idle, a count within the limit; the entries of the buffer
-- behind that count are as they were.
pub record Receives (buffer : Bytes) (max_length : ℕ) (result : Option (ℕ × Bytes × Bus))
    : Type 0 where
  pub count : ℕ
  pub next : Bytes
  pub bus : Bus
  pub returns : result ≡ some (count, next, bus)
  pub idle : IsIdle bus
  pub within : count ≤ max_length
  pub same_length : length next ≡ length buffer
  pub rest : drop count next ≡ drop count buffer

receive_frame-Receives :
    (buffer : Bytes) (max_length : ℕ) (b : Bus)
    → max_length ≤ length buffer
    → max_length < 256
    → IsIdle b
    → Receives buffer max_length (receive_frame buffer max_length b)
unfolding receive_frame
receive_frame-Receives buffer max_length b fits small h =
    let ready = send-Selects cc1101 0 _ (send-Selects cc1101 0xFF _ (put-low cc1101 b h)) in
    let reply = send 0 (send 0xFF (put (low cc1101) b)).1 in
    let c =
      receive_bytes-Copies max_length 0 reply.0 max_length buffer reply.1 (omega arith) fits small
        (omega arith) ready in
    let short : min reply.0 max_length ≡ (if ltb reply.0 max_length then reply.0 else max_length) =
      ground arith in
    rw (c.returns, ← short)
      (record {
        count = min reply.0 max_length;
        next = c.next;
        bus = put (high cc1101) c.bus;
        returns = refl;
        idle = put-high cc1101 c.bus c.selected;
        within = omega arith;
        same_length = c.same_length;
        rest = c.rest;
      })

-- On a bus that is idle, receiveData with a limit below 256 and a buffer at least that long returns
-- a count within the limit, leaves the length of the buffer and every entry behind that count as
-- they were, and leaves the bus idle.
pub receive_data-Receives :
    (buffer : Bytes) (max_length : ℕ) (b : Bus)
    → max_length ≤ length buffer
    → max_length < 256
    → IsIdle b
    → Receives buffer max_length (receive_data buffer max_length b)
unfolding receive_data flush_rx_fifo
receive_data-Receives buffer max_length b fits small h =
    let c = (read_status_register 0x3B b).1 in
    let n = (read_status_register 0x3B b).0 in
    let ready = read_status_register-IsIdle 0x3B b h in
    let nothing : (d : Bus) → IsIdle d → Receives buffer max_length (some (0, buffer, d)) =
      λ d idle. record {
        count = 0;
        next = buffer;
        bus = d;
        returns = refl;
        idle = idle;
        within = omega arith;
        same_length = refl;
        rest = refl;
      } in
    elim (Bool-cases (not (bit_and n 0x80 == 0))) [
      | inl over ↦ rw over (nothing _ (send_strobe-IsIdle 0x3A c ready))
      | inr good ↦ elim (Bool-cases (bit_and n 0x7F == 0 || ltb max_length (bit_and n 0x7F))) [
        | inl none_fits ↦ rw (good, none_fits) (nothing c ready)
        | inr fitting ↦
            rw (good, fitting) (receive_frame-Receives buffer max_length c fits small ready)
      ]
    ]
