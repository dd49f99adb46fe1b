-- ===== src/Sha1/Padding.antt =====
-- csp_sha1_done and csp_sha1_memory: the end of the message, as FIPS 180-4 pads it.
use libcsp_dphi.Base.{
  ℕ, zero, suc, ◌+◌, ◌-◌, ◌*◌, ◌%◌, ◌≤◌, ◌<◌, ◌≡◌, ◌∙◌, refl, sym, ap, ap₂, arith, true, false,
  Bool-cases, inl, inr, ltb, ltb→lt, lt→ltb, List, [], ◌∷◌, ◌++◌, append_assoc, length,
  length-append, length-replicate, length-take, take, set, replicate, write_at, write_at-nil,
  write_at-set, write_at_append, length-write_at, length-set, be64, u64,
}
use libcsp_dphi.Sha1.{
  Sha1, init, init_words, compress, output, process, zero_fill, flush, mark, finish, done, memory,
}
use libcsp_dphi.Sha1.Blocks.{
  absorb, absorb-append, absorb_short, absorb_full, view, IsValid, total, take-write_at,
  write_at_end, process_lem, length-absorb,
}

-- The bytes that FIPS 180-4 puts behind a message of `n` bytes: a bit, zeros up to eight bytes
-- before the end of a block, and the number of bits.
abbrev pub padding : ℕ → ℕ → List ℕ
padding n bits = 0x80 ∷ (replicate ((119 - n % 64) % 64) 0 ++ be64 bits)

-- The hash of a message by that standard.
unfoldable pub standard : List ℕ → List ℕ
standard msg =
    output (absorb (init_words, []) (msg ++ padding (length msg) (u64 (length msg * 8)))).0

abbrev zeros : ℕ → List ℕ
zeros n = replicate n 0

zeros-add : (a b : ℕ) → zeros (a + b) ≡ zeros a ++ zeros b
zeros-add zero b = ap zeros {x = 0 + b} {y = b} (omega arith)
zeros-add (suc a) b =
    ap zeros {x = suc a + b} {y = suc (a + b)} (omega arith) ∙ ap (λ l. 0 ∷ l) (zeros-add a b)

write_at-mark :
    (buf : List ℕ) (i x : ℕ) (bs : List ℕ)
    → write_at (set buf i x) (i + 1) bs ≡ write_at buf i (x ∷ bs)
write_at-mark buf i x bs =
    ap (λ k. write_at (set buf i x) k bs) {x = i + 1} {y = suc i} (omega arith)
    ∙ write_at-set buf i x bs

zero_fill_lem :
    (n : ℕ) (s : Sha1)
    → zero_fill n s ≡ record s { buf = write_at s.buf s.curlen (zeros n); curlen = s.curlen + n }
unfolding zero_fill
zero_fill_lem zero s =
    ap₂ (λ b k. record s { buf = b; curlen = k }) (sym (write_at-nil s.buf s.curlen)) (omega arith)
zero_fill_lem (suc n) s =
    zero_fill_lem n (record s { buf = set s.buf s.curlen 0; curlen = s.curlen + 1 })
    ∙ ap₂ (λ b k. record s { buf = b; curlen = k }) (write_at-mark s.buf s.curlen 0 (zeros n))
        (omega arith)

-- The last block: what waits, zeros, and the number of bits.
finish_lem :
    (s : Sha1)
    → s.curlen ≤ 56
    → length s.buf ≡ 64
    → finish s ≡ output (absorb (view s) (zeros (56 - s.curlen) ++ be64 s.bits)).0
unfolding finish
finish_lem s h n = rw (zero_fill_lem (56 - s.curlen) s) (
    ap (λ l. output (compress s.state l)) written
    ∙ ap (λ a. output a.0)
        (sym (
          absorb_full s.state (take s.curlen s.buf) rest (omega (arith, kept))
            (omega (arith, kept, size)))))
  where
    rest : List ℕ
    rest = zeros (56 - s.curlen) ++ be64 s.bits

    kept : length (take s.curlen s.buf) ≡ s.curlen
    kept = omega (arith, length-take s.curlen s.buf)

    filler : length (zeros (56 - s.curlen)) ≡ 56 - s.curlen
    filler = length-replicate (56 - s.curlen) 0

    size : length rest ≡ 64 - s.curlen
    size = omega (arith, filler, length-append (zeros (56 - s.curlen)) (be64 s.bits))

    written :
        write_at (write_at s.buf s.curlen (zeros (56 - s.curlen))) 56 (be64 s.bits)
        ≡ take s.curlen s.buf ++ rest
    written =
        ap (λ k. write_at (write_at s.buf s.curlen (zeros (56 - s.curlen))) k (be64 s.bits))
          {x = 56} {y = s.curlen + length (zeros (56 - s.curlen))} (omega (arith, filler))
        ∙ sym (write_at_append s.buf s.curlen (zeros (56 - s.curlen)) (be64 s.bits))
        ∙ write_at_end s.buf s.curlen rest (omega (arith, size))

flush_short : (s : Sha1) → s.curlen ≤ 56 → flush s ≡ s
unfolding flush
flush_short s h = rw few refl
  where
    few : ltb 56 s.curlen ≡ false
    few = ground arith

flush_long :
    (s : Sha1)
    → 56 < s.curlen
    → flush s ≡ record s {
      buf = write_at s.buf s.curlen (zeros (64 - s.curlen));
      state = compress s.state (write_at s.buf s.curlen (zeros (64 - s.curlen)));
      curlen = 0;
    }
unfolding flush
flush_long s h = rw (lt→ltb 56 s.curlen h, zero_fill_lem (64 - s.curlen) s) refl

module _ (s : Sha1) (v : IsValid s) where
  waiting : List ℕ
  waiting = take s.curlen s.buf

  count : ℕ
  count = u64 (s.bits + s.curlen * 8)

  width : length waiting ≡ s.curlen
  unfolding waiting
  width = omega (arith, length-take s.curlen s.buf)

  -- Where the length fits behind the marking bit, one block is left.
  done_short :
      s.curlen ≤ 55
      → done s ≡ output (absorb (view s) (0x80 ∷ (zeros (55 - s.curlen) ++ be64 count))).0
  unfolding done mark waiting count absorb
  done_short h =
      ap finish (flush_short (mark s) (omega arith))
      ∙ finish_lem (mark s) (omega arith) (length-set s.buf s.curlen 0x80 ∙ v.1)
      ∙ ap₂ (λ l k. output (absorb (s.state, l) (zeros k ++ be64 count)).0)
          {u = 56 - (s.curlen + 1)} {v = 55 - s.curlen} marked (omega arith)
      ∙ ap (λ a. output (absorb a (zeros (55 - s.curlen) ++ be64 count)).0)
          (sym (absorb_short s.state waiting (0x80 ∷ []) (omega (arith, width))))
    where
      marked : take (s.curlen + 1) (set s.buf s.curlen 0x80) ≡ waiting ++ 0x80 ∷ []
      marked =
          ap (take (s.curlen + 1)) (
            sym (write_at-nil (set s.buf s.curlen 0x80) (s.curlen + 1))
            ∙ write_at-mark s.buf s.curlen 0x80 [])
          ∙ take-write_at s.buf s.curlen (0x80 ∷ []) (omega arith)

  -- Where it does not, the block begun is filled up and another one follows.
  done_long :
      55 < s.curlen
      → done s
        ≡ output
            (absorb (absorb (view s) (0x80 ∷ zeros (63 - s.curlen))) (zeros 56 ++ be64 count)).0
  unfolding done mark waiting count
  done_long h =
      ap finish (flush_long (mark s) (omega arith))
      ∙ finish_lem _ (omega arith) (
          length-write_at (set s.buf s.curlen 0x80) (s.curlen + 1) (zeros (64 - (s.curlen + 1)))
          ∙ length-set s.buf s.curlen 0x80
          ∙ v.1)
      ∙ ap (λ l. output (absorb (compress s.state l, []) (zeros 56 ++ be64 count)).0) filled
      ∙ ap (λ a. output (absorb a (zeros 56 ++ be64 count)).0)
          (sym
            (absorb_full s.state waiting tail (omega (arith, width)) (omega (arith, width, size))))
    where
      tail : List ℕ
      tail = 0x80 ∷ zeros (63 - s.curlen)

      size : length tail ≡ 64 - s.curlen
      size = omega (arith, length-replicate {A = ℕ} (63 - s.curlen) 0)

      filled :
          write_at (set s.buf s.curlen 0x80) (s.curlen + 1) (zeros (64 - (s.curlen + 1)))
          ≡ waiting ++ tail
      filled =
          ap (λ k. write_at (set s.buf s.curlen 0x80) (s.curlen + 1) (zeros k))
            {x = 64 - (s.curlen + 1)} {y = 63 - s.curlen} (omega arith)
          ∙ write_at-mark s.buf s.curlen 0x80 (zeros (63 - s.curlen))
          ∙ write_at_end s.buf s.curlen tail (omega (arith, size))

  -- Ending a message hashes the padding behind it.
  done_lem : done s ≡ output (absorb (view s) (padding s.curlen count)).0
  done_lem = elim (Bool-cases (ltb 55 s.curlen)) [
    | inl long ↦ done_long (ltb→lt 55 s.curlen long) ∙ ap (λ l. output l.0) (joined long)
    | inr short ↦
        done_short (ground arith)
        ∙ ap (λ k. output (absorb (view s) (0x80 ∷ (zeros k ++ be64 count))).0) {x = 55 - s.curlen}
            {y = (119 - s.curlen % 64) % 64} (ground arith)
  ]
    where
      joined :
          ltb 55 s.curlen ≡ true
          → absorb (absorb (view s) (0x80 ∷ zeros (63 - s.curlen))) (zeros 56 ++ be64 count)
            ≡ absorb (view s) (padding s.curlen count)
      joined long =
          sym (absorb-append (view s) (0x80 ∷ zeros (63 - s.curlen)) (zeros 56 ++ be64 count))
          ∙ ap (λ l. absorb (view s) (0x80 ∷ l))
              (sym (append_assoc (zeros (63 - s.curlen)) (zeros 56) (be64 count))
                ∙ ap (λ l. l ++ be64 count) (sym (zeros-add (63 - s.curlen) 56))
                ∙ ap (λ k. zeros k ++ be64 count) {x = 63 - s.curlen + 56}
                    {y = (119 - s.curlen % 64) % 64} (ground arith))

-- A state that has hashed the message.
abbrev pub Hashed : List ℕ → Sha1 → Type 0
Hashed msg s =
    (view s ≡ absorb (init_words, []) msg) × IsValid s × (u64 (total s) ≡ u64 (length msg * 8))

pub init-Hashed : (buf : List ℕ) → length buf ≡ 64 → Hashed [] (init buf)
unfolding absorb
init-Hashed buf n = (refl, (omega arith, n), omega arith)

pub process-Hashed :
    (msg : List ℕ) (s : Sha1) (input : List ℕ)
    → Hashed msg s
    → Hashed (msg ++ input) (process s input)
process-Hashed msg s input (same, v, bits) =
    let (step, v', bits') = process_lem s input v in
    (
      step ∙ ap (λ a. absorb a input) same ∙ sym (absorb-append (init_words, []) msg input),
      v',
      omega (arith, bits, bits', length-append msg input),
    )

-- However many calls of csp_sha1_process a message comes in, csp_sha1_done gives the hash that the
-- standard has for the whole of it.
pub done-Hashed : (msg : List ℕ) (s : Sha1) → Hashed msg s → done s ≡ standard msg
unfolding standard absorb count
done-Hashed msg s (same, v, bits) =
    let waits : s.curlen ≡ length msg % 64 = omega (
      arith,
      length-take s.curlen s.buf,
      ap (λ a. length a.1) same,
      length-absorb init_words [] msg (omega arith),
    ) in
    done_lem s v
    ∙ ap₂ (λ k n. output (absorb (view s) (0x80 ∷ (zeros k ++ be64 n))).0)
        {x = (119 - s.curlen % 64) % 64} {y = (119 - length msg % 64) % 64} {u = u64 (total s)}
        {v = u64 (length msg * 8)} (omega arith) bits
    ∙ ap (λ a. output (absorb a (padding (length msg) (u64 (length msg * 8)))).0) same
    ∙ ap (λ a. output a.0)
        (sym (absorb-append (init_words, []) msg (padding (length msg) (u64 (length msg * 8)))))

-- csp_sha1_memory computes SHA-1 of every message as the standard has it: the message with its
-- padding and its length in bits, hashed in blocks of 64 bytes; what lies on the stack is without
-- effect. Lengths count modulo 2 to the power of 64, and the compression is the code's own.
pub memory-eq-standard : (buf msg : List ℕ) → length buf ≡ 64 → memory buf msg ≡ standard msg
unfolding memory
memory-eq-standard buf msg n =
    done-Hashed msg (process (init buf) msg) (process-Hashed [] (init buf) msg (init-Hashed buf n))

pub length-standard : (msg : List ℕ) → length (standard msg) ≡ 20
unfolding standard
length-standard msg = refl
