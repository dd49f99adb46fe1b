-- ===== src/Base/Bytes.antt =====
-- memcpy to and from an array: blocks written at and read from an offset.
use Prim.Native.Nat.{ℕ, zero, suc, ◌+◌, ◌≤◌}
use mathlib.Core.Path.{◌≡◌, refl, sym, ap, ◌∙◌}
use mathlib.Core.List.{List, [], ◌∷◌, ◌++◌}
use native.Mathlib.Omega.{arith}
use libcsp_dphi.Base.Lists.{
  length, take, drop, set, length-take, length-drop, All, All-take, All-drop,
}

module _ {ℓ} {A : Type ℓ} where
  -- The part of a block that falls outside the array is dropped.
  abbrev pub write_at : List A → ℕ → List A → List A
  write_at [] i bs = []
  write_at (x ∷ m) (suc i) bs = x ∷ write_at m i bs
  write_at (x ∷ m) zero [] = x ∷ m
  write_at (x ∷ m) zero (b ∷ bs) = b ∷ write_at m zero bs

  -- Fewer than `n` items come back where the array ends early.
  abbrev pub read_at : List A → ℕ → ℕ → List A
  read_at m i n = take n (drop i m)

  pub write_at-nil : (m : List A) (i : ℕ) → write_at m i [] ≡ m
  write_at-nil [] i = refl
  write_at-nil (x ∷ m) zero = refl
  write_at-nil (x ∷ m) (suc i) = ap (λ l. x ∷ l) (write_at-nil m i)

  -- Bytes that are written one at a time.
  pub write_at-set :
      (m : List A) (i : ℕ) (b : A) (bs : List A)
      → write_at (set m i b) (suc i) bs ≡ write_at m i (b ∷ bs)
  write_at-set [] i b bs = refl
  write_at-set (x ∷ m) zero b bs = refl
  write_at-set (x ∷ m) (suc i) b bs = ap (λ l. x ∷ l) (write_at-set m i b bs)

  pub length-write_at : (m : List A) (i : ℕ) (bs : List A) → length (write_at m i bs) ≡ length m
  length-write_at [] i bs = refl
  length-write_at (x ∷ m) (suc i) bs = ap suc (length-write_at m i bs)
  length-write_at (x ∷ m) zero [] = refl
  length-write_at (x ∷ m) zero (b ∷ bs) = ap suc (length-write_at m zero bs)

  pub length-read_at : (m : List A) (i n : ℕ) → i + n ≤ length m → length (read_at m i n) ≡ n
  length-read_at m i n h = omega (arith, length-take n (drop i m), length-drop i m)

  pub read_at-write_at_self :
      (m : List A) (i : ℕ) (bs : List A)
      → i + length bs ≤ length m
      → read_at (write_at m i bs) i (length bs) ≡ bs
  read_at-write_at_self [] zero [] h = refl
  read_at-write_at_self [] zero (b ∷ bs) h = absurd (omega arith)
  read_at-write_at_self [] (suc i) bs h = absurd (omega arith)
  read_at-write_at_self (x ∷ m) (suc i) bs h = read_at-write_at_self m i bs (omega arith)
  read_at-write_at_self (x ∷ m) zero [] h = refl
  read_at-write_at_self (x ∷ m) zero (b ∷ bs) h =
      ap (λ l. b ∷ l) (read_at-write_at_self m zero bs (omega arith))

  pub read_at-write_at :
      (m : List A) (i n : ℕ) (bs : List A)
      → length bs ≡ n
      → i + n ≤ length m
      → read_at (write_at m i bs) i n ≡ bs
  read_at-write_at m i n bs e h =
      ap (read_at (write_at m i bs) i) (sym e) ∙ read_at-write_at_self m i bs (omega arith)

  pub read_at-write_at_before :
      (m : List A) (i : ℕ) (bs : List A) (j n : ℕ)
      → j + n ≤ i
      → read_at (write_at m i bs) j n ≡ read_at m j n
  read_at-write_at_before [] i bs j n h = refl
  read_at-write_at_before (x ∷ m) (suc i) bs (suc j) n h =
      read_at-write_at_before m i bs j n (omega arith)
  read_at-write_at_before (x ∷ m) (suc i) bs zero zero h = refl
  read_at-write_at_before (x ∷ m) (suc i) bs zero (suc n) h =
      ap (λ l. x ∷ l) (read_at-write_at_before m i bs zero n (omega arith))
  read_at-write_at_before (x ∷ m) zero bs zero zero h = refl
  read_at-write_at_before (x ∷ m) zero bs zero (suc n) h = absurd (omega arith)
  read_at-write_at_before (x ∷ m) zero bs (suc j) n h = absurd (omega arith)

  pub drop-write_at_after :
      (m : List A) (i : ℕ) (bs : List A) (j : ℕ)
      → i + length bs ≤ j
      → drop j (write_at m i bs) ≡ drop j m
  drop-write_at_after [] i bs j h = refl
  drop-write_at_after (x ∷ m) (suc i) bs (suc j) h = drop-write_at_after m i bs j (omega arith)
  drop-write_at_after (x ∷ m) (suc i) bs zero h = absurd (omega arith)
  drop-write_at_after (x ∷ m) zero [] j h = refl
  drop-write_at_after (x ∷ m) zero (b ∷ bs) (suc j) h =
      drop-write_at_after m zero bs j (omega arith)
  drop-write_at_after (x ∷ m) zero (b ∷ bs) zero h = absurd (omega arith)

  pub read_at-write_at_after :
      (m : List A) (i : ℕ) (bs : List A) (j n : ℕ)
      → i + length bs ≤ j
      → read_at (write_at m i bs) j n ≡ read_at m j n
  read_at-write_at_after m i bs j n h = ap (take n) (drop-write_at_after m i bs j h)

  take_cast : {a b : ℕ} (m : List A) → a ≡ b → take a m ≡ take b m
  take_cast m e = ap (λ k. take k m) e

  drop_cast : {a b : ℕ} (m : List A) → a ≡ b → drop a m ≡ drop b m
  drop_cast m e = ap (λ k. drop k m) e

  write_at_cast : {i j : ℕ} (m bs : List A) → i ≡ j → write_at m i bs ≡ write_at m j bs
  write_at_cast m bs e = ap (λ k. write_at m k bs) e

  take_nil : (n : ℕ) → take {A = A} n [] ≡ []
  take_nil zero = refl
  take_nil (suc n) = refl

  drop_nil : (n : ℕ) → drop {A = A} n [] ≡ []
  drop_nil zero = refl
  drop_nil (suc n) = refl

  take_add : (a b : ℕ) (m : List A) → take (a + b) m ≡ take a m ++ take b (drop a m)
  take_add zero b m = take_cast {a = 0 + b} m (omega arith)
  take_add (suc a) zero [] = take_cast {a = suc a + 0} {b = suc a} [] (omega arith)
  take_add (suc a) (suc b) [] = take_nil (suc a + suc b)
  take_add (suc a) b (x ∷ m) =
      take_cast {a = suc a + b} {b = suc (a + b)} (x ∷ m) (omega arith)
      ∙ ap (λ l. x ∷ l) (take_add a b m)

  drop_add : (a b : ℕ) (m : List A) → drop a (drop b m) ≡ drop (b + a) m
  drop_add a zero m = drop_cast {a = a} {b = 0 + a} m (omega arith)
  drop_add zero (suc b) [] = drop_cast {a = suc b} {b = suc b + 0} [] (omega arith)
  drop_add (suc a) (suc b) [] = sym (drop_nil (suc b + suc a))
  drop_add a (suc b) (x ∷ m) =
      drop_add a b m ∙ drop_cast {a = suc (b + a)} {b = suc b + a} (x ∷ m) (omega arith)

  -- Two adjacent blocks are one.
  pub read_at_add :
      (m : List A) (i a b : ℕ) → read_at m i (a + b) ≡ read_at m i a ++ read_at m (i + a) b
  read_at_add m i a b =
      take_add a b (drop i m) ∙ ap (λ l. read_at m i a ++ take b l) (drop_add a i m)

  pub write_at_append :
      (m : List A) (i : ℕ) (cs bs : List A)
      → write_at m i (cs ++ bs) ≡ write_at (write_at m i cs) (i + length cs) bs
  write_at_append [] i cs bs = refl
  write_at_append (x ∷ m) (suc i) cs bs =
      ap (λ l. x ∷ l) (write_at_append m i cs bs)
      ∙ write_at_cast {i = suc (i + length cs)} {j = suc i + length cs} (x ∷ write_at m i cs) bs
          (omega arith)
  write_at_append (x ∷ m) zero [] bs = write_at_cast {i = 0} {j = 0 + 0} (x ∷ m) bs (omega arith)
  write_at_append (x ∷ m) zero (a ∷ cs) bs =
      ap (λ l. a ∷ l) (write_at_append m zero cs bs)
      ∙ write_at_cast {i = suc (0 + length cs)} {j = 0 + suc (length cs)} (a ∷ write_at m zero cs)
          bs (omega arith)

  -- Writing back what was read changes nothing.
  pub write_at-read_at : (m : List A) (i n : ℕ) → write_at m i (read_at m i n) ≡ m
  write_at-read_at [] i n = refl
  write_at-read_at (x ∷ m) (suc i) n = ap (λ l. x ∷ l) (write_at-read_at m i n)
  write_at-read_at (x ∷ m) zero zero = refl
  write_at-read_at (x ∷ m) zero (suc n) = ap (λ l. x ∷ l) (write_at-read_at m zero n)

  pub All-read_at {κ} : (P : A → Type κ) (m : List A) (i n : ℕ) → All P m → All P (read_at m i n)
  All-read_at P m i n h = All-take P n (drop i m) (All-drop P i m h)
