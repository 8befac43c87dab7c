-- ===== src/Bcd/Nibbles.antt =====
-- The two halves of a byte, as arithmetic: tables over all bytes.
use mini_pgw.Prelude.{
  ℕ, zero, suc, ◌+◌, ◌*◌, ◌/◌, ◌%◌, ◌<◌, ◌≡◌, refl, Bool, true, ◌&&◌, arith, ◌==◌, ==_iff, bit_and,
  bit_or,
}
use mini_pgw.Bcd.{pack, low_nibble, high_nibble}

-- Does a law of bytes hold below a bound?
holds_for : (ℕ → Bool) → ℕ → Bool
holds_for law zero = true
holds_for law (suc bound) = holds_for law bound && law bound

holds_for_at :
    (law : ℕ → Bool) (bound b : ℕ) → b < bound → holds_for law bound ≡ true → law b ≡ true
unfolding holds_for
holds_for_at law (suc bound) b less every = ground (arith, holds_for_at law bound b)
holds_for_at law zero b less every = elim less [ ]

abbrev mask_law : ℕ → Bool
mask_law b = bit_and b 0x0F == b % 16

abbrev join_law : ℕ → Bool
join_law b = bit_or (b / 16 * 16) (b % 16) == b

mask_every : holds_for mask_law 256 ≡ true
unfolding holds_for
mask_every = refl

join_every : holds_for join_law 256 ≡ true
unfolding holds_for
join_every = refl

pub bit_and-mask : (b : ℕ) → b < 256 → bit_and b 0x0F ≡ b % 16
bit_and-mask b less = (==_iff _ (b % 16)).0 (holds_for_at mask_law 256 b less mask_every)

bit_or-join : (b : ℕ) → b < 256 → bit_or (b / 16 * 16) (b % 16) ≡ b
bit_or-join b less = (==_iff _ b).0 (holds_for_at join_law 256 b less join_every)

pub low_nibble_lem : (b : ℕ) → b < 256 → low_nibble b ≡ b % 16
low_nibble_lem b h = bit_and-mask b h

pub high_nibble_lem : (b : ℕ) → b < 256 → high_nibble b ≡ b / 16
high_nibble_lem b h = omega (arith, bit_and-mask (b / 16) (omega arith))

pub pack_lem : (high low : ℕ) → high < 16 → low < 16 → pack high low ≡ high * 16 + low
unfolding pack
pack_lem high low h l =
    let b : ℕ = high * 16 + low in
    let p : b / 16 ≡ high = omega arith in
    let q : b % 16 ≡ low = omega arith in
    let joined : bit_or (high * 16) low ≡ b = (rw (p, q) at (bit_or-join b (omega arith))) in
    omega arith
