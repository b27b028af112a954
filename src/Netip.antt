-- ===== src/Netip.antt =====
-- Go's `netip.Addr`, as far as the program uses it. An IPv4 address is its 32-bit number in
-- network order, an IPv6 address its 128-bit number; `invalid` is the zero value.
pub mod Dotted
use dnsvard.Base.{ℕ, Bool, true, false, ◌≡◌, ◌↔◌, arith, ◌==◌}

pub data Addr : Type 0 where
  invalid : Addr
  v4 : ℕ → Addr
  v6 : ℕ → Addr

-- Go's `==` on addresses (zones of IPv6 addresses do not occur).
unfoldable pub addr_eq : Addr → Addr → Bool
addr_eq invalid invalid = true
addr_eq (v4 a) (v4 b) = a == b
addr_eq (v6 a) (v6 b) = a == b
addr_eq _ _ = false

pub addr_eq_iff : (a b : Addr) → (addr_eq a b ≡ true) ↔ (a ≡ b)
unfolding addr_eq
addr_eq_iff invalid invalid = ground arith
addr_eq_iff (v4 a) (v4 b) = ground arith
addr_eq_iff (v6 a) (v6 b) = ground arith
addr_eq_iff _ _ = ground arith
