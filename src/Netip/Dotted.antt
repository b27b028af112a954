-- ===== src/Netip/Dotted.antt =====
-- Go's `Addr.String` and `ParseAddr` for IPv4. Other texts do not parse: the program writes IPv4
-- addresses only, so IPv6 texts are left out.
use dnsvard.Base.{
  ℕ, zero, suc, ◌+◌, ◌-◌, ◌*◌, ◌/◌, ◌%◌, ◌^◌, ◌<◌, Bool, true, false, ◌&&◌, Option, none, some,
  List, [], ◌∷◌, ◌≡◌, refl, ap, ◌∙◌, arith, ltb, leb, ◌==◌, if◌then◌else◌, Bytes, codes, split,
  join, split-join, Lacks, All,
}

abbrev digit : ℕ → ℕ
digit d = b'0' + d

-- The decimal digits of a byte.
unfoldable pub octet_text : ℕ → Bytes
octet_text n =
    if ltb n 10
    then digit n ∷ []
    else if ltb n 100
    then digit (n / 10) ∷ digit (n % 10) ∷ []
    else digit (n / 100) ∷ digit (n / 10 % 10) ∷ digit (n % 10) ∷ []

unfoldable pub is_digit : ℕ → Bool
is_digit c = leb b'0' c && leb c b'9'

unfoldable pub at_most_255 : ℕ → Option ℕ
at_most_255 n = if ltb 255 n then none else some n

-- One to three digits, no leading zero, at most 255.
unfoldable pub parse_octet : Bytes → Option ℕ
unfolding is_digit at_most_255
parse_octet (a ∷ []) = if is_digit a then some (a - b'0') else none
parse_octet (a ∷ b ∷ []) =
    if is_digit a && is_digit b
    then if a == b'0' then none else some ((a - b'0') * 10 + (b - b'0'))
    else none
parse_octet (a ∷ b ∷ c ∷ []) =
    if is_digit a && (is_digit b && is_digit c)
    then if a == b'0' then none else at_most_255 ((a - b'0') * 100 + (b - b'0') * 10 + (c - b'0'))
    else none
parse_octet _ = none

-- `Addr.String`
unfoldable pub addr_text : ℕ → Bytes
unfolding octet_text join
addr_text a =
    join
      (octet_text (a / 2 ^ 24)
        ∷ octet_text (a / 2 ^ 16 % 256)
        ∷ octet_text (a / 2 ^ 8 % 256)
        ∷ octet_text (a % 256)
        ∷ [])
      (codes ".")

unfoldable pub from_octets : Option ℕ → Option ℕ → Option ℕ → Option ℕ → Option ℕ
from_octets (some a) (some b) (some c) (some d) = some (a * 2 ^ 24 + b * 2 ^ 16 + c * 2 ^ 8 + d)
from_octets _ _ _ _ = none

unfoldable pub parse_parts : List Bytes → Option ℕ
unfolding from_octets parse_octet
parse_parts (p ∷ q ∷ r ∷ s ∷ []) =
    from_octets (parse_octet p) (parse_octet q) (parse_octet r) (parse_octet s)
parse_parts _ = none

-- `ParseAddr`
unfoldable pub parse_addr : Bytes → Option ℕ
unfolding parse_parts split
parse_addr s = parse_parts (split s b'.')

octet_ok : ℕ → Bool
unfolding parse_octet octet_text
octet_ok n = elim (parse_octet (octet_text n)) [ none ↦ false | some m ↦ m == n ]

all_below : (ℕ → Bool) → ℕ → Bool
all_below p zero = true
all_below p (suc n) = p n && all_below p n

all_below_sound : (p : ℕ → Bool) (n m : ℕ) → all_below p n ≡ true → m < n → p m ≡ true
unfolding all_below
all_below_sound p zero m h lt = absurd (omega arith)
all_below_sound p (suc n) m h lt = ground (arith, all_below_sound p n m)

octet_table : all_below octet_ok 256 ≡ true
unfolding all_below octet_ok
octet_table = refl

octet_ok→eq : (n : ℕ) → octet_ok n ≡ true → parse_octet (octet_text n) ≡ some n
unfolding octet_ok parse_octet
octet_ok→eq n h = from_test (parse_octet (octet_text n)) h
  where
    from_test : (o : Option ℕ) → elim o [ none ↦ false | some m ↦ m == n ] ≡ true → o ≡ some n
    from_test none h = cc
    from_test (some m) h = ground arith

octet_round : (n : ℕ) → n < 256 → parse_octet (octet_text n) ≡ some n
octet_round n h = octet_ok→eq n (all_below_sound octet_ok 256 n octet_table h)

octet_text-Lacks : (n : ℕ) → n < 256 → Lacks b'.' (octet_text n)
unfolding octet_text
octet_text-Lacks n h = ground arith

parse_parts_round :
    (a b c d : ℕ)
    → a < 256
    → b < 256
    → c < 256
    → d < 256
    → parse_parts (octet_text a ∷ octet_text b ∷ octet_text c ∷ octet_text d ∷ [])
      ≡ some (a * 2 ^ 24 + b * 2 ^ 16 + c * 2 ^ 8 + d)
parse_parts_round a b c d ha hb hc hd =
    unfold parse_parts in
    rw (octet_round a ha, octet_round b hb, octet_round c hc, octet_round d hd)

-- Every IPv4 address is read back from its text.
pub parse_addr-addr_text : (a : ℕ) → a < 2 ^ 32 → parse_addr (addr_text a) ≡ some a
parse_addr-addr_text a h =
    let p = a / 2 ^ 24 in
    let q = a / 2 ^ 16 % 256 in
    let r = a / 2 ^ 8 % 256 in
    let s = a % 256 in
    let parts = octet_text p ∷ octet_text q ∷ octet_text r ∷ octet_text s ∷ [] in
    let hp : p < 256 = omega arith in
    let hq : q < 256 = omega arith in
    let hr : r < 256 = omega arith in
    let hs : s < 256 = omega arith in
    let lacks : All (Lacks b'.') parts = (
      octet_text-Lacks p hp,
      (octet_text-Lacks q hq, (octet_text-Lacks r hr, (octet_text-Lacks s hs, tt))),
    ) in
    let whole : p * 2 ^ 24 + q * 2 ^ 16 + r * 2 ^ 8 + s ≡ a = omega arith in
    unfold parse_addr addr_text in
    ap parse_parts (split-join b'.' parts (λ e. cc) lacks)
    ∙ parse_parts_round p q r s hp hq hr hs
    ∙ ap some whole
