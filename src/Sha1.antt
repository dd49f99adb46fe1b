-- ===== src/Sha1.antt =====
-- crypto/csp_sha1.c: SHA-1 over data that comes in pieces. Arithmetic is on 32-bit words.
pub mod Blocks
pub mod Padding
mod Tests
use libcsp_dphi.Base.{
  ℕ, zero, suc, ◌+◌, ◌-◌, ◌*◌, ◌/◌, ◌^◌, min, bit_and, bit_or, bit_xor, ◌&&◌, ◌==◌, ltb, leb,
  if◌then◌else◌, List, [], ◌∷◌, ◌++◌, length, get_or, set, take, drop, read_at, write_at, replicate,
  of_be, be32, be64, u32, u64,
}

-- CSP_SHA1_BLOCKSIZE
abbrev pub block_size : ℕ
block_size = 64

-- CSP_SHA1_DIGESTSIZE
abbrev pub digest_size : ℕ
digest_size = 20

-- The five words of the state, and the variables of csp_sha1_compress.
pub record Words : Type 0 where
  pub a : ℕ
  pub b : ℕ
  pub c : ℕ
  pub d : ℕ
  pub e : ℕ

-- csp_sha1_state_t
pub record Sha1 : Type 0 where
  pub bits : ℕ
  pub state : Words
  pub curlen : ℕ
  pub buf : List ℕ

-- ROL
unfoldable pub rol : ℕ → ℕ → ℕ
rol x y = bit_or (u32 (x * 2 ^ y)) (x / 2 ^ (32 - y))

-- The macros F0, F1 (which is F3) and F2.
abbrev pub choose : ℕ → ℕ → ℕ → ℕ
choose x y z = bit_xor z (bit_and x (bit_xor y z))

abbrev pub parity : ℕ → ℕ → ℕ → ℕ
parity x y z = bit_xor (bit_xor x y) z

abbrev pub majority : ℕ → ℕ → ℕ → ℕ
majority x y z = bit_or (bit_and x y) (bit_and z (bit_or x y))

-- FF_0 to FF_3. Each call names the variables one place further on; here they move instead, and
-- after five calls each is back at its name.
unfoldable pub ff : (ℕ → ℕ → ℕ → ℕ) → ℕ → ℕ → Words → Words
ff f k w v = record {
  a = u32 (rol v.a 5 + f v.b v.c v.d + v.e + w + k);
  b = v.a;
  c = rol v.b 30;
  d = v.c;
  e = v.d;
}

unfoldable pub rounds : ℕ → ℕ → (ℕ → ℕ → ℕ → ℕ) → ℕ → List ℕ → Words → Words
rounds zero i f k w v = v
rounds (suc n) i f k w v = rounds n (i + 1) f k w (ff f k (get_or w i 0) v)

-- LOAD32H for the first sixteen words
unfoldable pub load : ℕ → ℕ → List ℕ → List ℕ
load zero i buf = []
load (suc n) i buf = of_be (read_at buf (4 * i) 4) ∷ load n (i + 1) buf

-- The words from `W[i]` on, of which the ones before are there.
unfoldable pub expand : ℕ → ℕ → List ℕ → List ℕ
expand zero i w = w
expand (suc n) i w =
    let word =
      rol
        (bit_xor (bit_xor (bit_xor (get_or w (i - 3) 0) (get_or w (i - 8) 0)) (get_or w (i - 14) 0))
          (get_or w (i - 16) 0))
        1 in
    expand n (i + 1) (w ++ word ∷ [])

abbrev pub sum : Words → Words → Words
sum v w = record {
  a = u32 (v.a + w.a);
  b = u32 (v.b + w.b);
  c = u32 (v.c + w.c);
  d = u32 (v.d + w.d);
  e = u32 (v.e + w.e);
}

-- csp_sha1_compress, on the state's words.
unfoldable pub compress : Words → List ℕ → Words
compress state buf =
    let w = expand 64 16 (load 16 0 buf) in
    let one = rounds 20 0 choose 0x5A827999 w state in
    let two = rounds 20 20 parity 0x6ED9EBA1 w one in
    let three = rounds 20 40 majority 0x8F1BBCDC w two in
    let four = rounds 20 60 parity 0xCA62C1D6 w three in sum state four

abbrev pub init_words : Words
init_words = record {
  a = 0x67452301;
  b = 0xEFCDAB89;
  c = 0x98BADCFE;
  d = 0x10325476;
  e = 0xC3D2E1F0;
}

-- csp_sha1_init, on memory of which only `buf` is kept.
abbrev pub init : List ℕ → Sha1
init buf = record { bits = 0; state = init_words; curlen = 0; buf = buf }

-- A round of the loop of csp_sha1_process: the state, and the data that is left.
unfoldable pub take_block : Sha1 → List ℕ → Sha1 × List ℕ
take_block sha1 input = (
  record sha1 {
    state = compress sha1.state (take block_size input);
    bits = u64 (sha1.bits + block_size * 8);
  },
  drop block_size input,
)

unfoldable pub fill_buf : Sha1 → List ℕ → Sha1
fill_buf sha1 input =
    let stored = record sha1 {
      buf = write_at sha1.buf sha1.curlen input;
      curlen = u32 (sha1.curlen + length input);
    } in
    if stored.curlen == block_size
    then record stored {
      state = compress stored.state stored.buf;
      bits = u64 (stored.bits + block_size * 8);
      curlen = 0;
    }
    else stored

unfoldable pub process_round : Sha1 → List ℕ → Sha1 × List ℕ
process_round sha1 input =
    let n = min (length input) (block_size - sha1.curlen) in
    if sha1.curlen == 0 && leb block_size (length input)
    then take_block sha1 input
    else (fill_buf sha1 (take n input), drop n input)

-- The loop, on fuel: a round takes a byte at least.
unfoldable pub process_from : ℕ → Sha1 → List ℕ → Sha1
process_from zero sha1 input = sha1
process_from (suc fuel) sha1 [] = sha1
process_from (suc fuel) sha1 (byte ∷ input) =
    let (sha1', rest) = process_round sha1 (byte ∷ input) in process_from fuel sha1' rest

-- csp_sha1_process
unfoldable pub process : Sha1 → List ℕ → Sha1
process sha1 input = process_from (length input) sha1 input

-- `while (curlen < end) buf[curlen++] = 0`
unfoldable pub zero_fill : ℕ → Sha1 → Sha1
zero_fill zero sha1 = sha1
zero_fill (suc n) sha1 =
    zero_fill n (record sha1 { buf = set sha1.buf sha1.curlen 0; curlen = sha1.curlen + 1 })

unfoldable pub flush : Sha1 → Sha1
flush sha1 =
    let full = zero_fill (64 - sha1.curlen) sha1 in
    if ltb 56 sha1.curlen
    then record full { state = compress full.state full.buf; curlen = 0 }
    else sha1

abbrev pub output : Words → List ℕ
output w = be32 w.a ++ (be32 w.b ++ (be32 w.c ++ (be32 w.d ++ be32 w.e)))

-- The parts of csp_sha1_done: the bit behind the data, and the last block.
unfoldable pub mark : Sha1 → Sha1
mark sha1 = record sha1 {
  bits = u64 (sha1.bits + sha1.curlen * 8);
  buf = set sha1.buf sha1.curlen 0x80;
  curlen = sha1.curlen + 1;
}

unfoldable pub finish : Sha1 → List ℕ
finish sha1 =
    let padded = zero_fill (56 - sha1.curlen) sha1 in
    output (compress padded.state (write_at padded.buf 56 (be64 padded.bits)))

-- csp_sha1_done
unfoldable pub done : Sha1 → List ℕ
done sha1 = finish (flush (mark sha1))

-- csp_sha1_memory; `buf` is what the stack holds.
unfoldable pub memory : List ℕ → List ℕ → List ℕ
memory buf msg = done (process (init buf) msg)
