-- ===== src/Rtable/Prefix.antt =====
-- When a route matches: the bits of the network agree.
use native.Mathlib.Nat.{mod-eq_of_lt, div-lt_iff_lt-mul}
use libcsp_dphi.Base.{
  suc, zero, ℕ, ◌+◌, ◌-◌, ◌*◌, ◌/◌, ◌%◌, ◌^◌, ◌≤◌, ◌<◌, ◌≡◌, ◌↔◌, ◌∙◌, ap, sym, arith, bit_and,
  true, u16, ==_iff, ◌==◌,
}
use libcsp_dphi.Base.Bits.Fields.{bit_and_high, bit_and_low}
use libcsp_dphi.Base.Powers.{two-pow-split, two-pow-pos}
use libcsp_dphi.Id.{get_host_bits}
use libcsp_dphi.Rtable.{Route, net_match}

host_bits-le : (version : ℕ) → get_host_bits version ≤ 14
unfolding get_host_bits
host_bits-le version = ground arith

pred-mul : (a b : ℕ) → 1 ≤ a → 1 ≤ b → a * b ≡ 2 ^ 16 → 0xFFFF - u16 (b - 1) ≡ (a - 1) * b
pred-mul zero b h k e = absurd (omega arith)
pred-mul (suc a) b h k e =
    ap (λ t. 0xFFFF - t) {x = u16 (b - 1)} {y = b - 1} (mod-eq_of_lt (grind arith))
    ∙ omega (arith, ap (λ (t : ℕ). t * b) (sub-suc a))
  where
    sub-suc : (n : ℕ) → suc n - 1 ≡ n
    sub-suc n = omega arith

cancel : (a b c : ℕ) → 1 ≤ c → a * c ≡ b * c → a ≡ b
cancel a b c h e = grind arith

-- The complement of `h` ones in a word of 16 bits is a mask of ones above them.
high_mask : (h : ℕ) → h ≤ 16 → 0xFFFF - u16 (2 ^ h - 1) ≡ (2 ^ (16 - h) - 1) * 2 ^ h
high_mask h le =
    pred-mul (2 ^ (16 - h)) (2 ^ h) (two-pow-pos (16 - h)) (two-pow-pos h)
      (sym (two-pow-split h 16 le))

and_high_mask :
    (h a : ℕ) → h ≤ 14 → a < 2 ^ 16 → bit_and a (0xFFFF - u16 (2 ^ h - 1)) ≡ a / 2 ^ h * 2 ^ h
and_high_mask h a le fits = rw (high_mask h (omega arith)) (
    ap (λ t. bit_and t ((2 ^ (16 - h) - 1) * 2 ^ h)) parts
    ∙ bit_and_high h (a / 2 ^ h) (a % 2 ^ h) (2 ^ (16 - h) - 1) low
    ∙ ap (λ t. t * 2 ^ h) (bit_and_low (16 - h) (a / 2 ^ h) ∙ mod-eq_of_lt top))
  where
    parts : a ≡ a / 2 ^ h * 2 ^ h + a % 2 ^ h
    parts = omega (arith, two-pow-pos h)

    low : a % 2 ^ h < 2 ^ h
    low = omega (arith, two-pow-pos h)

    top : a / 2 ^ h < 2 ^ (16 - h)
    top =
        (div-lt_iff_lt-mul (two-pow-pos h)).1
          (omega (arith, two-pow-split h 16 (omega arith), fits))

-- The number of bits of an address that name the host in the network of a route.
abbrev pub host_part : ℕ → Route → ℕ
host_part version route = get_host_bits version - route.netmask

-- A route matches an address exactly if the two agree above the host bits.
pub net_match_iff :
    (version addr : ℕ) (route : Route)
    → addr < 2 ^ 16
    → route.address < 2 ^ 16
    → (net_match version addr route ≡ true)
      ↔ (route.address / 2 ^ host_part version route ≡ addr / 2 ^ host_part version route)
unfolding net_match
net_match_iff version addr route ha hr =
    rw (and_high_mask h route.address h-le hr, and_high_mask h addr h-le ha)
      (there, λ e. (==_iff _ _).1 (ap (λ t. t * 2 ^ h) e))
  where
    h : ℕ
    h = host_part version route

    h-le : h ≤ 14
    h-le = omega (arith, host_bits-le version)

    there :
        (route.address / 2 ^ h * 2 ^ h == addr / 2 ^ h * 2 ^ h) ≡ true
        → route.address / 2 ^ h ≡ addr / 2 ^ h
    there e =
        cancel (route.address / 2 ^ h) (addr / 2 ^ h) (2 ^ h) (two-pow-pos h) ((==_iff _ _).0 e)
