-- ===== src/Parser.antt =====
-- `ParserIter` and `Parser` (ublox/src/parser.rs). The buffer and the packets of the crate,
-- `match_packet` and `MAX_PAYLOAD_LEN` (built by `define_recv_packets!`), are parameters.
-- `none` is a panic of the code.
pub mod Scan
pub mod Refine
pub mod Extract
pub mod Skip
pub mod Step
pub mod Next
pub mod Stream
pub mod Total
use ublox.Prelude.{
  ℕ, zero, suc, ◌+◌, ◌*◌, Option, none, some, List, length, Bool, ltb, ◌==◌, ◌&&◌, if◌then◌else◌,
  sub, ◌>>=◌, find_index,
}
use ublox.Error.{ParserError, out_of_memory, invalid_checksum, Result, ok, err}
use ublox.Buffer.{UnderlyingBuffer, is_empty}
use ublox.Buffer.Vector.{slice_index}
use ublox.Checksum
use ublox.Dual
use ublox.Dual.{DualBuffer}
use ublox.Packets.{Packets}

abbrev pub sync_char_1 : ℕ
sync_char_1 = 0xb5

abbrev pub sync_char_2 : ℕ
sync_char_2 = 0x62

-- `u16::from_le_bytes`
abbrev pub u16_of_le : ℕ → ℕ → ℕ
u16_of_le lo hi = lo + 256 * hi

pub record Parser (T : Type 0) : Type 0 where
  pub buf : T

-- `ParserIter` holds a `DualBuffer` and nothing else.
pub record ParserIter (T : Type 0) : Type 0 where
  pub buf : DualBuffer T

-- What one round of the loop in `next` does: it returns, or goes on (`continue`).
pub data Round (T : Type 0) (R : Type 0) : Type 0 where
  returns : R → DualBuffer T → Round T R
  continues : DualBuffer T → Round T R

module _ {T P : Type 0} (ops : UnderlyingBuffer T) (packets : Packets P) where
  abbrev pub Item : Type 0
  Item = Option (Result P ParserError)

  pub find_sync : DualBuffer T → Option (Option ℕ)
  find_sync d = do n ← Dual.len ops d; find_index (Dual.index ops d) sync_char_1 0 n

  -- `extract_packet` from its second part on: the packet is there as a whole.
  pub check_packet : DualBuffer T → ℕ → Option (Item × DualBuffer T)
  check_packet d pack_len = do
    (a, b) ← Dual.peek_raw ops d 2 (4 + pack_len + 2)
    let checksummer = Checksum.update (Checksum.update Checksum.new a) b
    let (ck_a, ck_b) = Checksum.result checksummer
    expect_ck_a ← Dual.index ops d (6 + pack_len)
    expect_ck_b ← Dual.index ops d (6 + pack_len + 1)
    if ck_a == expect_ck_a && ck_b == expect_ck_b
        then (do
          class_id ← Dual.index ops d 2
          msg_id ← Dual.index ops d 3
          drained ← Dual.drain ops d 6
          (taken, rest) ← Dual.take ops drained (pack_len + 2)
          elim taken [
            | err e ↦ some (some (err e), rest)
            | ok msg_data ↦ (do
              end ← sub (length msg_data) 2
              payload ← slice_index msg_data 0 end
              some (some (packets.match_packet class_id msg_id payload), rest))
          ])
        else (do
          drained ← Dual.drain ops d 2
          some (
            some (err (invalid_checksum (u16_of_le expect_ck_a expect_ck_b) (u16_of_le ck_a ck_b))),
            drained,
          ))

  pub extract_packet : DualBuffer T → ℕ → Option (Item × DualBuffer T)
  extract_packet d pack_len = do
    possible ← Dual.can_drain_and_take ops d 6 (pack_len + 2)
    if possible then check_packet d pack_len else (do
      lost ← Dual.potential_lost_bytes ops d
      if ltb 0 lost
          then (do
            drained ← Dual.drain ops d 2
            some (some (err (out_of_memory (pack_len + 2))), drained))
          else some (none, d))

  -- The loop's body behind `self.buf.drain(pos)`: `d` begins with the first sync char.
  pub read_header : DualBuffer T → Option (Round T Item)
  read_header d = do
    n ← Dual.len ops d
    if ltb n 2 then some (returns none d) else (do
      second ← Dual.index ops d 1
      if second == sync_char_2
          then (if ltb n 6 then some (returns none d) else (do
            lo ← Dual.index ops d 4
            hi ← Dual.index ops d 5
            let pack_len = u16_of_le lo hi
            if ltb packets.max_payload_len pack_len
                then (do drained ← Dual.drain ops d 2; some (continues drained))
                else (do (item, rest) ← extract_packet d pack_len; some (returns item rest))))
          else (do drained ← Dual.drain ops d 1; some (continues drained)))

  -- One round of `while self.buf.len() > 0`.
  pub next_round : DualBuffer T → Option (Round T Item)
  next_round d = do
    n ← Dual.len ops d
    if n == 0 then some (returns none d) else (do
      found ← find_sync d
      elim found [
        | none ↦ (do cleared ← Dual.clear ops d; some (returns none cleared))
        | some pos ↦ (do drained ← Dual.drain ops d pos; read_header drained)
      ])

  -- The loop; with no rounds left the answer is `none`.
  pub next_loop : ℕ → DualBuffer T → Option (Item × DualBuffer T)
  next_loop zero d = none
  next_loop (suc fuel) d = do
    round ← next_round d
    elim round [ returns item rest ↦ some (item, rest) | continues rest ↦ next_loop fuel rest ]

  -- Each round that goes on takes a byte away, so there are no more rounds than bytes, and one.
  pub next : ParserIter T → Option (Item × ParserIter T)
  next it = do
    n ← Dual.len ops it.buf
    (item, rest) ← next_loop (suc n) it.buf
    some (item, record { buf = rest })

  unfoldable pub new : T → Parser T
  new underlying = record { buf = underlying }

  pub is_buffer_empty : Parser T → Bool
  is_buffer_empty p = is_empty ops p.buf

  pub buffer_len : Parser T → ℕ
  buffer_len p = ops.len p.buf

  pub consume : Parser T → List ℕ → Option (ParserIter T)
  consume p new_data = do
    let d = Dual.new p.buf new_data
    n ← Dual.len ops d
    found ← find_index (Dual.index ops d) sync_char_1 0 n
    elim found [
      | none ↦ some (record { buf = d })
      | some i ↦ (do drained ← Dual.drain ops d i; some (record { buf = drained }))
    ]
