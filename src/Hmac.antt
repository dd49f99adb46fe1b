-- ===== src/Hmac.antt =====
-- crypto/csp_hmac.c: the keyed checksum of a packet, four bytes of an HMAC with SHA-1. The functions
-- return `none` for CSP_ERR_INVAL, which a key that is empty or a NULL pointer gives; `old` is what
-- lies in the memory of a hash state before it is set up.
pub mod Keyed
pub mod Checked
mod Tests
use libcsp_dphi.Base.{
  ℕ, ◌+◌, ◌-◌, bit_xor, Bool, ltb, leb, if◌then◌else◌, Option, none, some, List, [], ◌∷◌, ◌++◌, map,
  length, take, replicate, read_at, write_at, u16,
}
use libcsp_dphi.Packet.{Packet, data_start, buffer_size}
use libcsp_dphi.Crc32.{same_bytes}
use libcsp_dphi.Sha1
use libcsp_dphi.Sha1.{Sha1, block_size, digest_size, process, done}

-- CSP_HMAC_LENGTH
abbrev pub hmac_length : ℕ
hmac_length = 4

-- HMAC_KEY_LENGTH
abbrev pub key_length : ℕ
key_length = 16

-- hmac_state
pub record State : Type 0 where
  pub md : Sha1
  pub key : List ℕ

-- The key as it is used: a long one is hashed, and the rest is zeros.
unfoldable pub fit_key : List ℕ → List ℕ → List ℕ
fit_key old key =
    if ltb block_size (length key)
    then Sha1.memory old key ++ replicate (block_size - digest_size) 0
    else key ++ replicate (block_size - length key) 0

-- csp_hmac_init
unfoldable pub init : List ℕ → Option (List ℕ) → Option State
init old none = none
init old (some key) =
    if ltb (length key) 1
    then none
    else let k = fit_key old key in
      some (record { md = process (Sha1.init old) (map (λ b. bit_xor b 0x36) k); key = k })

-- csp_hmac_process
unfoldable pub update : State → Option (List ℕ) → Option State
update hmac none = none
update hmac (some input) = some (record hmac { md = process hmac.md input })

-- csp_hmac_done; the hash is set up again in the same memory, whose bytes are written before they
-- are read. The output is not NULL.
unfoldable pub finish : State → List ℕ
finish hmac =
    let isha = done hmac.md in
    let outer = process (Sha1.init hmac.md.buf) (map (λ b. bit_xor b 0x5C) hmac.key) in
    take digest_size (done (process outer isha))

abbrev finish_updated : Option State → Option (List ℕ)
finish_updated none = none
finish_updated (some hmac) = some (finish hmac)

abbrev update_begun : Option State → Option (List ℕ) → Option State
update_begun none input = none
update_begun (some hmac) input = update hmac input

-- csp_hmac_memory
unfoldable pub memory : List ℕ → Option (List ℕ) → Option (List ℕ) → Option (List ℕ)
memory old none input = none
memory old (some key) none = none
memory old (some key) (some input) =
    finish_updated (update_begun (init old (some key)) (some input))

-- csp_hmac_set_key: the key that is kept.
unfoldable pub set_key : List ℕ → List ℕ → List ℕ
set_key old key = take key_length (Sha1.memory old key)

abbrev pub got : List ℕ → Option (List ℕ) → List ℕ
got old none = old
got old (some mac) = mac

-- The HMAC of bytes of a packet. The key that is kept is not empty, so that one is computed; the
-- memory stays as it was otherwise.
abbrev pub mac_of : List ℕ → List ℕ → List ℕ → List ℕ
mac_of old key input = got old (memory old (some key) (some input))

-- csp_hmac_append; `none` is CSP_ERR_NOMEM.
unfoldable pub append : List ℕ → List ℕ → Packet → Bool → Option Packet
append old key packet include_header =
    let framed =
      take hmac_length
        (mac_of old key (read_at packet.mem packet.frame_begin packet.frame_length)) in
    let plain = take hmac_length (mac_of old key (read_at packet.mem data_start packet.len)) in
    if ltb buffer_size (packet.len + hmac_length)
    then none
    else if include_header
    then some (record packet {
      mem = write_at packet.mem (packet.frame_begin + packet.frame_length) framed;
      frame_length = u16 (packet.frame_length + hmac_length);
      len = u16 (packet.len + hmac_length);
    })
    else some (record packet {
      mem = write_at packet.mem (data_start + packet.len) plain;
      len = u16 (packet.len + hmac_length);
    })

-- csp_hmac_verify; `none` is CSP_ERR_HMAC.
unfoldable pub verify : List ℕ → List ℕ → Packet → Bool → Option Packet
verify old key packet include_header =
    let framed = take hmac_length (
      mac_of old key (read_at packet.mem packet.frame_begin (packet.frame_length - hmac_length))) in
    let plain =
      take hmac_length
        (mac_of old key (read_at packet.mem data_start (packet.len - hmac_length))) in
    let at_frame =
      read_at packet.mem (packet.frame_begin + packet.frame_length - hmac_length) hmac_length in
    let at_data = read_at packet.mem (data_start + packet.len - hmac_length) hmac_length in
    if ltb packet.len hmac_length
    then none
    else if include_header
    then if same_bytes at_frame framed
      then some (record packet { frame_length = packet.frame_length - hmac_length })
      else none
    else if same_bytes at_data plain
    then some (record packet { len = packet.len - hmac_length })
    else none
