-- ===== src/Sha1/Blocks.antt =====
-- csp_sha1_process: the data is hashed in blocks of 64 bytes, however it is cut into pieces.
use libcsp_dphi.Base.{
  and_true, ℕ, zero, suc, ◌+◌, ◌-◌, ◌*◌, ◌%◌, ◌≤◌, ◌<◌, min, ◌≡◌, ◌∙◌, refl, sym, ap, ap₂, arith,
  Bool-cases, inl, inr, ◌&&◌, ◌==◌, ==_from, ==_iff, leb→le, ==_ne, leb, if◌then◌else◌, List, [],
  ◌∷◌, ◌++◌, append_assoc, append-nil, length, length-append, length-take, length-drop, take,
  take_all, take-append-drop, read_at, read_at_add, read_at-write_at, read_at-write_at_before,
  write_at, length-write_at, u32, u64,
}
use libcsp_dphi.Sha1.{
  Words, Sha1, block_size, compress, take_block, fill_buf, process_round, process_from, process,
}

-- What the standard keeps between bytes: the hash so far, and the bytes of a block begun.
abbrev pub Absorbed : Type 0
Absorbed = Words × List ℕ

unfoldable pub push : Absorbed → ℕ → Absorbed
push (words, pending) byte =
    if length pending + 1 == 64
    then (compress words (pending ++ byte ∷ []), [])
    else (words, pending ++ byte ∷ [])

-- The hash of a message by bytes.
unfoldable pub absorb : Absorbed → List ℕ → Absorbed
absorb s [] = s
absorb s (byte ∷ input) = absorb (push s byte) input

-- The part of the state of csp_sha1.c that counts: bytes of `buf` behind `curlen` are old ones.
abbrev pub view : Sha1 → Absorbed
view s = (s.state, take s.curlen s.buf)

abbrev pub IsValid : Sha1 → Type 0
IsValid s = (s.curlen < 64) × (length s.buf ≡ 64)

pub absorb-append : (s : Absorbed) (xs ys : List ℕ) → absorb s (xs ++ ys) ≡ absorb (absorb s xs) ys
unfolding absorb
absorb-append s [] ys = refl
absorb-append s (x ∷ xs) ys = absorb-append (push s x) xs ys

push_short : (w : Words) (p : List ℕ) (x : ℕ) → length p + 1 < 64 → push (w, p) x ≡ (w, p ++ x ∷ [])
unfolding push
push_short w p x h = rw (==_ne (length p + 1) 64 (λ e. omega arith))

push_last :
    (w : Words) (p : List ℕ) (x : ℕ)
    → length p + 1 ≡ 64
    → push (w, p) x ≡ (compress w (p ++ x ∷ []), [])
unfolding push
push_last w p x h = rw (==_from (length p + 1) 64 h)

pub absorb_short :
    (w : Words) (p xs : List ℕ) → length p + length xs < 64 → absorb (w, p) xs ≡ (w, p ++ xs)
unfolding absorb
absorb_short w p [] h = ap (λ l. (w, l)) (sym (append-nil p))
absorb_short w p (x ∷ xs) h =
    ap (λ s. absorb s xs) (push_short w p x (omega arith))
    ∙ absorb_short w (p ++ x ∷ []) xs (omega (arith, length-append p (x ∷ [])))
    ∙ ap (λ l. (w, l)) (append_assoc p (x ∷ []) xs)

pub absorb_block :
    (w : Words) (p : List ℕ) (x : ℕ) (xs : List ℕ)
    → length p + length (x ∷ xs) ≡ 64
    → absorb (w, p) (x ∷ xs) ≡ (compress w (p ++ x ∷ xs), [])
unfolding absorb
absorb_block w p x [] h = push_last w p x (omega arith)
absorb_block w p x (y ∷ xs) h =
    ap (λ s. absorb s (y ∷ xs)) (push_short w p x (omega arith))
    ∙ absorb_block w (p ++ x ∷ []) y xs (omega (arith, length-append p (x ∷ [])))
    ∙ ap (λ l. (compress w l, [])) (append_assoc p (x ∷ []) (y ∷ xs))

pub absorb_full :
    (w : Words) (p xs : List ℕ)
    → length p < 64
    → length p + length xs ≡ 64
    → absorb (w, p) xs ≡ (compress w (p ++ xs), [])
absorb_full w p [] h e = absurd (omega arith)
absorb_full w p (x ∷ xs) h e = absorb_block w p x xs e

-- Bytes that are copied behind the ones of a block begun.
pub take-write_at :
    (buf : List ℕ) (k : ℕ) (bs : List ℕ)
    → k + length bs ≤ length buf
    → take (k + length bs) (write_at buf k bs) ≡ take k buf ++ bs
take-write_at buf k bs h =
    read_at_add (write_at buf k bs) 0 k (length bs)
    ∙ ap₂ ◌++◌ (read_at-write_at_before buf k bs 0 k (omega arith)) (
        ap (λ i. read_at (write_at buf k bs) i (length bs)) {x = 0 + k} {y = k} (omega arith)
        ∙ read_at-write_at buf k (length bs) bs refl h)

pub write_at_end :
    (buf : List ℕ) (k : ℕ) (bs : List ℕ)
    → k + length bs ≡ length buf
    → write_at buf k bs ≡ take k buf ++ bs
write_at_end buf k bs h =
    sym (take_all (k + length bs) (write_at buf k bs) (omega (arith, length-write_at buf k bs)))
    ∙ take-write_at buf k bs (omega arith)

-- The bits hashed so far, with the ones that wait in `buf`.
abbrev pub total : Sha1 → ℕ
total s = s.bits + s.curlen * 8

-- A step from `s` to `t` that takes the bytes `used`.
abbrev Takes : Sha1 → List ℕ → Sha1 → Type 0
Takes s used t =
    (absorb (view s) used ≡ view t) × IsValid t × (u64 (total t) ≡ u64 (total s + length used * 8))

take_block_lem :
    (s : Sha1) (used : List ℕ)
    → IsValid s
    → s.curlen ≡ 0
    → length used ≡ 64
    → Takes s used (record s { state = compress s.state used; bits = u64 (s.bits + 512) })
take_block_lem s used v e n = (
  ap (λ k. absorb (s.state, take k s.buf) used) e
      ∙ absorb_full s.state [] used (omega arith) (omega arith)
      ∙ ap (λ k. (compress s.state used, take k s.buf)) (sym e),
  v,
  omega arith,
)

fill_buf_lem :
    (s : Sha1) (used : List ℕ)
    → IsValid s
    → s.curlen + length used ≤ 64
    → Takes s used (fill_buf s used)
unfolding fill_buf
fill_buf_lem s used v h = elim (Bool-cases (s.curlen + length used == 64)) [
  | inl full ↦
      let n : s.curlen + length used ≡ 64 = ground arith in
      rw (stays, full)
        (
          absorb_full s.state kept used (omega (arith, width)) (omega (arith, width))
              ∙ ap (λ l. (compress s.state l, []))
                  (sym (write_at_end s.buf s.curlen used (omega arith))),
          (omega arith, length-write_at s.buf s.curlen used ∙ v.1),
          omega arith,
        )
  | inr more ↦
      let n : s.curlen + length used < 64 = ground arith in
      rw (stays, more)
        (
          absorb_short s.state kept used (omega (arith, width))
              ∙ ap (λ l. (s.state, l)) (sym written),
          (n, length-write_at s.buf s.curlen used ∙ v.1),
          omega arith,
        )
]
  where
    stays : u32 (s.curlen + length used) ≡ s.curlen + length used
    stays = omega arith

    kept : List ℕ
    kept = take s.curlen s.buf

    width : length kept ≡ s.curlen
    width = omega (arith, length-take s.curlen s.buf)

    written : take (s.curlen + length used) (write_at s.buf s.curlen used) ≡ kept ++ used
    written = take-write_at s.buf s.curlen used (omega arith)

module _ (s : Sha1) (input : List ℕ) where
  abbrev Rounds : Sha1 × List ℕ → Type 0
  Rounds r =
      (used : List ℕ) × (used ++ r.1 ≡ input) × Takes s used r.0 × (length r.1 < length input)

process_round_lem :
    (s : Sha1) (input : List ℕ)
    → IsValid s
    → 0 < length input
    → Rounds s input (process_round s input)
unfolding process_round take_block
process_round_lem s input v h = elim (Bool-cases (s.curlen == 0 && leb block_size (length input))) [
  | inl block ↦
      let (start, enough) = and_true (s.curlen == 0) (leb block_size (length input)) block in
      let long : 64 ≤ length input = leb→le 64 (length input) enough in
      rw block (
        take 64 input,
        take-append-drop 64 input,
        take_block_lem s (take 64 input) v ((==_iff s.curlen 0).0 start)
            (omega (arith, length-take 64 input)),
        omega (arith, length-drop 64 input),
      )
  | inr part ↦
      let n = min (length input) (64 - s.curlen) in
      rw part (
        take n input,
        take-append-drop n input,
        fill_buf_lem s (take n input) v (omega (arith, length-take n input)),
        omega (arith, length-drop n input),
      )
]

-- However the bytes lie in its buffer, csp_sha1_process hashes them one after the other; it needs
-- no more rounds than it is given bytes, keeps `curlen` below 64, and counts the bits.
process_from_lem :
    (fuel : ℕ) (s : Sha1) (input : List ℕ)
    → IsValid s
    → length input ≤ fuel
    → Takes s input (process_from fuel s input)
unfolding process_from absorb
process_from_lem zero s [] v h = (refl, v, omega arith)
process_from_lem zero s (x ∷ input) v h = absurd (omega arith)
process_from_lem (suc fuel) s [] v h = (refl, v, omega arith)
process_from_lem (suc fuel) s (x ∷ input) v h =
    let (used, split, step, less) = process_round_lem s (x ∷ input) v (omega arith) in
    let (t, rest) = process_round s (x ∷ input) in
    let (same, v', count) = process_from_lem fuel t rest step.1 (omega arith) in
    (
      ap (absorb (view s)) (sym split)
          ∙ absorb-append (view s) used rest
          ∙ ap (λ a. absorb a rest) step.0
          ∙ same,
      v',
      omega (arith, step.2, count, ap length split, length-append used rest),
    )

-- What csp_sha1_process does with any input, from a state with room in its buffer: the bytes are
-- hashed in their order, in blocks of 64; afterwards the buffer has room again, and the bits
-- counted have grown by eight for each byte.
pub process_lem :
    (s : Sha1) (input : List ℕ)
    → IsValid s
    → (view (process s input) ≡ absorb (view s) input)
      × IsValid (process s input)
      × (u64 (total (process s input)) ≡ u64 (total s + length input * 8))
unfolding process
process_lem s input v =
    let (same, v', count) = process_from_lem (length input) s input v (omega arith) in
    (sym same, v', count)

-- The number of bytes that wait is the length modulo the size of a block.
pub length-absorb :
    (w : Words) (p xs : List ℕ)
    → length p < 64
    → length (absorb (w, p) xs).1 ≡ (length p + length xs) % 64
unfolding absorb
length-absorb w p [] h = omega arith
length-absorb w p (x ∷ xs) h = elim (Bool-cases (length p + 1 == 64)) [
  | inl full ↦
      let e : length p + 1 ≡ 64 = (==_iff (length p + 1) 64).0 full in
      ap (λ s. length (absorb s xs).1) (push_last w p x e)
      ∙ length-absorb (compress w (p ++ x ∷ [])) [] xs (omega arith)
      ∙ omega arith
  | inr more ↦
      let e : length p + 1 < 64 = ground arith in
      ap (λ s. length (absorb s xs).1) (push_short w p x e)
      ∙ length-absorb w (p ++ x ∷ []) xs (omega (arith, length-append p (x ∷ [])))
      ∙ omega (arith, length-append p (x ∷ []))
]
