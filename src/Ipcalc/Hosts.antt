-- ===== src/Ipcalc/Hosts.antt =====
-- `CIDRtoHosts` on an IPv4 network: the loop ends unless the prefix is empty, and returns the
-- addresses of the network that end neither in 0 nor in 255, in ascending order.
use native.Mathlib.Nat.{
  div-mul-le_self, mul-div_cancel, pow-suc, one-le-pow, zero-div, div-eq_of_lt-le, add-div_right,
  add-zero,
}
use native.Mathlib.Decide.{dec_lt}
use network_controller.Common.{
  ℕ, zero, suc, ◌+◌, ◌-◌, ◌*◌, ◌/◌, ◌%◌, ◌^◌, ◌≤◌, ◌<◌, ◌≡◌, ◌≢◌, ◌↔◌, refl, ap, sym, ◌∙◌, true,
  false, ◌||◌, inl, inr, List, [], ◌∷◌, ◌++◌, append-nil, append_assoc, arith, ◌==◌, if◌then◌else◌,
  Bool-cases,
}
use network_controller.Go.Text.{beq}
use network_controller.Go.Text.Laws.{beq_iff}
use network_controller.Go.Result.{ok, hangs}
use network_controller.Go.Net.{Ip, IpNet, cidr_mask, and_bytes, net_contains, to4}
use network_controller.Go.Net.Mask.{AllBytes, value, mask-block, quotient-lt, block-pos}
use network_controller.Go.Net.Mask.Blocks.{
  value-and_bytes, and_bytes-AllBytes, value-injective, length-and_bytes, length-cidr_mask,
  block-four, blocks-four,
}
use network_controller.Ipcalc.{cidr_loop}
use network_controller.Ipcalc.Incip.{quad, mapped, incip-quad}

-- How many addresses an IPv4 network with `p` bits of prefix has, and the first of them in the one
-- that the number `m` lies in.
abbrev pub size : ℕ → ℕ
size p = 2 ^ (32 - p)

abbrev pub first : ℕ → ℕ → ℕ
first p m = m / size p * size p

abbrev pub network : ℕ → ℕ → IpNet
network p m = record { ip = quad (first p m); mask = cidr_mask p 4 }

quad-AllBytes : (n : ℕ) → AllBytes (quad n)
quad-AllBytes n = omega arith

value-quad : (n : ℕ) → n < 2 ^ 32 → value (quad n) ≡ n
value-quad n h = omega arith

size-pos : (p : ℕ) → p ≤ 32 → 0 < size p
size-pos p h = rw (← block-four p h) (block-pos p 4 (omega arith))

first-le : (p m : ℕ) → first p m ≤ m
first-le p m = div-mul-le_self m (size p)

first-div : (p m : ℕ) → p ≤ 32 → first p m / size p ≡ m / size p
first-div p m h = mul-div_cancel (m / size p) (size-pos p h)

-- What `ParseCIDR` makes of such a network is its first address.
pub network-ip :
    (p m : ℕ) → p ≤ 32 → m < 2 ^ 32 → and_bytes (quad m) (cidr_mask p 4) ≡ quad (first p m)
network-ip p m hp hm =
    value-injective _ _ (length-and_bytes p (quad m))
      (and_bytes-AllBytes p (quad m) (quad-AllBytes m)) (quad-AllBytes (first p m))
      (value-and_bytes p (quad m) (quad-AllBytes m) (omega arith)
        ∙ rw (value-quad m hm, block-four p hp)
            (sym (value-quad (first p m) (omega (arith, first-le p m)))))

contains-beq :
    (p m n : ℕ)
    → net_contains (network p m) (quad n)
      ≡ beq (and_bytes (quad (first p m)) (cidr_mask p 4)) (and_bytes (quad n) (cidr_mask p 4))
unfolding net_contains to4
contains-beq p m n = rw (length-cidr_mask p 4)

-- The network contains the numbers of one block.
contains-quad :
    (p m n : ℕ)
    → p ≤ 32
    → m < 2 ^ 32
    → n < 2 ^ 32
    → (net_contains (network p m) (quad n) ≡ true) ↔ (m / size p ≡ n / size p)
contains-quad p m n hp hm hn =
    rw (contains-beq p m n) (λ h. agree.0 ((beq_iff _ _).0 h), λ h. (beq_iff _ _).1 (agree.1 h))
  where
    agree :
        (and_bytes (quad (first p m)) (cidr_mask p 4) ≡ and_bytes (quad n) (cidr_mask p 4))
        ↔ (m / size p ≡ n / size p)
    agree =
        rw
          (
            value-quad (first p m) (omega (arith, first-le p m)),
            value-quad n hn,
            block-four p hp,
            first-div p m hp,
          )
          at
          (mask-block p (quad (first p m)) (quad n) refl (quad-AllBytes _) (quad-AllBytes n)
            (omega arith))

two_table : (p : ℕ) → 0 < p → 2 ≤ 2 ^ p
two_table zero h = absurd (omega arith)
two_table (suc p) h = rw pow-suc (omega (arith, one-le-pow p 2 (omega arith)))

module _ (p m : ℕ) (hp : p ≤ 32) (hm : m < 2 ^ 32) where
  block_index-lt : m / size p < 2 ^ p
  block_index-lt = quotient-lt m (2 ^ p) (size p) (rw (blocks-four p hp) hm)

  -- The network ends within the IPv4 addresses.
  pub network_end : first p m + size p ≤ 2 ^ 32
  network_end = grind (arith, block_index-lt, blocks-four p hp)

  index_inside : (n : ℕ) → first p m ≤ n → n < first p m + size p → n / size p ≡ m / size p
  index_inside n lo hi = div-eq_of_lt-le (size p) lo (omega arith)

  -- The addresses from the first one on, as many as the network has, are in it,
  contains_inside :
      (n : ℕ) → first p m ≤ n → n < first p m + size p → net_contains (network p m) (quad n) ≡ true
  contains_inside n lo hi =
      (contains-quad p m n hp hm (omega (arith, network_end))).1 (sym (index_inside n lo hi))

  index_behind : (first p m + size p) / size p ≡ m / size p + 1
  index_behind = add-div_right (first p m) (size-pos p hp) ∙ ap (λ t. t + 1) (first-div p m hp)

  outside :
      (n : ℕ) → n < 2 ^ 32 → n / size p ≢ m / size p → net_contains (network p m) (quad n) ≡ false
  outside n hn ne = elim (Bool-cases (net_contains (network p m) (quad n))) [
    | inl e ↦ absurd (ne (sym ((contains-quad p m n hp hm hn).0 e)))
    | inr e ↦ e
  ]

  first_block : m / size p ≡ 0 → first p m + size p ≡ 2 ^ 32 → 0 < p → ⊥
  first_block z wrapped pos = grind (arith, blocks-four p hp, two_table p pos, size-pos p hp)

  -- and the one behind them is not, if the prefix is not empty. (Behind the last address of all
  -- comes 0.0.0.0.)
  contains_behind : 0 < p → net_contains (network p m) (quad (first p m + size p)) ≡ false
  contains_behind pos = elim (dec_lt (first p m + size p) (2 ^ 32)) [
    | yes lt ↦ outside (first p m + size p) lt (omega (arith, index_behind))
    | no ge ↦
        let wrapped : first p m + size p ≡ 2 ^ 32 = omega (arith, network_end) in
        rw wrapped
          (outside 0 (omega arith) (λ e. first_block (sym e ∙ zero-div (size p)) wrapped pos))
  ]

-- The addresses of `count` numbers from `n` on that end neither in 0 nor in 255.
unfoldable pub hosts_from : ℕ → ℕ → List Ip
hosts_from zero n = []
hosts_from (suc count) n =
    let rest = hosts_from count (n + 1) in
    if n % 256 == 0 || n % 256 == 255 then rest else mapped n ∷ rest

one_more : (n count : ℕ) → n + suc count ≡ n + 1 + count
one_more n count = omega arith

module _ (ipnet : IpNet) where
  cidr_loop-hosts :
      (count fuel n : ℕ) (ips : List Ip)
      → count < fuel
      → ((i : ℕ) → n ≤ i → i < n + count → net_contains ipnet (quad i) ≡ true)
      → net_contains ipnet (quad (n + count)) ≡ false
      → cidr_loop fuel ipnet (quad n) ips ≡ ok (ips ++ hosts_from count n)
  unfolding cidr_loop hosts_from
  cidr_loop-hosts count zero n ips h inside behind = absurd (omega arith)
  cidr_loop-hosts zero (suc fuel) n ips h inside behind =
      let stop : net_contains ipnet (quad n) ≡ false = rw add-zero at behind in
      rw (stop, append-nil)
  cidr_loop-hosts (suc count) (suc fuel) n ips h inside behind =
      let ih = λ (ips' : List Ip).
        cidr_loop-hosts count fuel (n + 1) ips' (omega arith)
          (λ i lo hi. inside i (omega arith) (omega arith)) (rw (one_more n count) at behind) in
      rw (inside n (omega arith) (omega arith), incip-quad n)
        (elim (Bool-cases (n % 256 == 0 || n % 256 == 255)) [
          | inl e ↦ rw e (ih ips)
          | inr e ↦ rw e (
              ih (ips ++ mapped n ∷ [])
              ∙ ap ok (append_assoc ips (mapped n ∷ []) (hosts_from count (n + 1))))
        ])

-- `CIDRtoHosts` from the first address of an IPv4 network with a prefix of 1 to 32 bits.
pub cidr_loop-network :
    (p m fuel : ℕ)
    → 0 < p
    → p ≤ 32
    → m < 2 ^ 32
    → size p < fuel
    → cidr_loop fuel (network p m) (quad (first p m)) [] ≡ ok (hosts_from (size p) (first p m))
cidr_loop-network p m fuel pos hp hm enough =
    cidr_loop-hosts (network p m) (size p) fuel (first p m) [] enough (contains_inside p m hp hm)
      (contains_behind p m hp hm pos)

quad-mod : (n : ℕ) → quad (n % 2 ^ 32) ≡ quad n
quad-mod n = ground arith

contains_all : (m n : ℕ) → m < 2 ^ 32 → net_contains (network 0 m) (quad n) ≡ true
contains_all m n hm =
    rw (← quad-mod n)
      ((contains-quad 0 m (n % 2 ^ 32) (omega arith) hm (omega arith)).1 (omega arith))

-- With an empty prefix every address is in the network, and the loop never ends.
pub cidr_loop-hangs :
    (m fuel n : ℕ) (ips : List Ip) → m < 2 ^ 32 → cidr_loop fuel (network 0 m) (quad n) ips ≡ hangs
unfolding cidr_loop
cidr_loop-hangs m zero n ips hm = refl
cidr_loop-hangs m (suc fuel) n ips hm =
    let inside : net_contains (network 0 m) (quad n) ≡ true = contains_all m n hm in
    rw (inside, incip-quad n) (cidr_loop-hangs m fuel (n + 1) _ hm)
