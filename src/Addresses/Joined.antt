-- ===== src/Addresses/Joined.antt =====
-- What ip_zusammen makes of the parts of an address.
use linux_unix_development.Common.{
  ℕ, ◌+◌, ◌*◌, ◌%◌, ◌≤◌, ◌<◌, ◌≡◌, refl, ap, ◌∙◌, inl, inr, true, false, ltb, ltb→lt, Bool-cases,
  if◌then◌else◌, arith,
}
use Prim.Native.Nat.{bit_or}
use linux_unix_development.Addresses.{
  ntohl, inet_netof, inet_lnaof, inet_makeaddr, net_num, lokal_num, zusammen_ip,
}
use linux_unix_development.Addresses.Bytes.{quad, AreBytes, ntohl-quad, or-8, or-16}

-- Two changes of the order are none.
ntohl-twice : (n a b c d : ℕ) → AreBytes a b c d → n ≡ quad a b c d → ntohl (ntohl n) ≡ quad a b c d
ntohl-twice n a b c d h e =
    ap (λ m. ntohl (ntohl m)) e
    ∙ ap ntohl (ntohl-quad a b c d h)
    ∙ ntohl-quad d c b a
        (record { a_byte = h.d_byte; b_byte = h.c_byte; c_byte = h.b_byte; d_byte = h.a_byte })

-- A number whose bytes are known, in the other order.
ntohl-as : (n a b c d : ℕ) → AreBytes a b c d → n ≡ quad a b c d → ntohl n ≡ quad d c b a
ntohl-as n a b c d h e = ap ntohl e ∙ ntohl-quad a b c d h

module _ (a b c d : ℕ) (h : AreBytes a b c d) where
  order : ntohl (quad a b c d) ≡ quad d c b a
  order = ntohl-quad a b c d h

  -- The address that ip_zusammen makes of a network and a rest.
  joined :
      (net host : ℕ)
      → ntohl (net_num (quad a b c d)) ≡ net
      → ntohl (lokal_num (quad a b c d)) ≡ host
      → zusammen_ip (quad a b c d) ≡ inet_makeaddr net host
  unfolding zusammen_ip
  joined net host e f = rw (e, f) refl

  make_a : 0 < a → a < 128 → inet_makeaddr (quad 0 a 0 0) (quad d c b 0) ≡ quad a 0 c d
  unfolding inet_makeaddr
  make_a p l =
      let t1 : ltb (quad 0 a 0 0) 128 ≡ false = ground (arith, p) in
      let t2 : ltb (quad 0 a 0 0) 65536 ≡ true = ground (arith, l) in
      let e : quad 0 a 0 0 * 65536 ≡ a * 256 * 65536 = omega arith in
      let f : quad d c b 0 % 65536 ≡ d + c * 256 = omega (arith, h.b_byte, h.c_byte, h.d_byte) in
      rw (t1, t2, e, f, or-16 (a * 256) (d + c * 256) (omega (arith, h.c_byte, h.d_byte)))
        (ntohl-as _ d c 0 a
          (record { a_byte = h.d_byte; b_byte = h.c_byte; c_byte = omega arith; d_byte = h.a_byte })
          (omega arith))

  make_b : 128 ≤ a → inet_makeaddr (quad 0 b a 0) (quad d c 0 0) ≡ quad a b 0 d
  unfolding inet_makeaddr
  make_b l =
      let t1 : ltb (quad 0 b a 0) 128 ≡ false = ground (arith, l) in
      let t2 : ltb (quad 0 b a 0) 65536 ≡ false = ground (arith, l) in
      let t3 : ltb (quad 0 b a 0) 16777216 ≡ true = ground (arith, h.a_byte, h.b_byte) in
      let f : quad d c 0 0 % 256 ≡ d = omega (arith, h.c_byte, h.d_byte) in
      rw (t1, t2, t3, f, or-8 (quad 0 b a 0) d h.d_byte)
        (ntohl-as _ d 0 b a
          (record { a_byte = h.d_byte; b_byte = omega arith; c_byte = h.b_byte; d_byte = h.a_byte })
          (omega arith))

  make_c : 192 ≤ a → inet_makeaddr (quad 0 c b a) (quad d 0 0 0) ≡ quad a b c d
  unfolding inet_makeaddr
  make_c l =
      let t1 : ltb (quad 0 c b a) 128 ≡ false = ground (arith, l) in
      let t2 : ltb (quad 0 c b a) 65536 ≡ false = ground (arith, l) in
      let t3 : ltb (quad 0 c b a) 16777216 ≡ false = ground (arith, l) in
      let e : quad 0 c b a ≡ (c + b * 256 + a * 65536) * 256 = omega arith in
      let f : quad d 0 0 0 ≡ d = omega arith in
      rw (t1, t2, t3)
        (ntohl-as _ d c b a
          (record { a_byte = h.d_byte; b_byte = h.c_byte; c_byte = h.b_byte; d_byte = h.a_byte })
          (ap (λ n. bit_or n (quad d 0 0 0)) e
            ∙ ap (bit_or ((c + b * 256 + a * 65536) * 256)) f
            ∙ or-8 (c + b * 256 + a * 65536) d h.d_byte
            ∙ omega arith))

  class_a : 0 < a → a < 128 → zusammen_ip (quad a b c d) ≡ quad a 0 c d
  unfolding inet_netof inet_lnaof net_num lokal_num
  class_a p l =
      let first : ltb (quad d c b a) 2147483648 ≡ true =
        ground (arith, h.b_byte, h.c_byte, h.d_byte) in
      let net : ntohl (net_num (quad a b c d)) ≡ quad 0 a 0 0 =
        ntohl-twice _ 0 a 0 0
          (record {
            a_byte = omega arith;
            b_byte = h.a_byte;
            c_byte = omega arith;
            d_byte = omega arith;
          })
          (rw (order, first) (omega (arith, h.a_byte, h.b_byte, h.c_byte, h.d_byte))) in
      let host : ntohl (lokal_num (quad a b c d)) ≡ quad d c b 0 =
        ntohl-twice _ d c b 0
          (record { a_byte = h.d_byte; b_byte = h.c_byte; c_byte = h.b_byte; d_byte = omega arith })
          (rw (order, first) (omega (arith, h.a_byte, h.b_byte, h.c_byte, h.d_byte))) in
      joined (quad 0 a 0 0) (quad d c b 0) net host ∙ make_a p l

  class_b : 128 ≤ a → a < 192 → zusammen_ip (quad a b c d) ≡ quad a b 0 d
  unfolding inet_netof inet_lnaof net_num lokal_num
  class_b l u =
      let first : ltb (quad d c b a) 2147483648 ≡ false = ground (arith, l) in
      let second : ltb (quad d c b a) 3221225472 ≡ true =
        ground (arith, u, h.b_byte, h.c_byte, h.d_byte) in
      let net : ntohl (net_num (quad a b c d)) ≡ quad 0 b a 0 =
        ntohl-twice _ 0 b a 0
          (record {
            a_byte = omega arith;
            b_byte = h.b_byte;
            c_byte = h.a_byte;
            d_byte = omega arith;
          })
          (rw (order, first, second) (omega (arith, h.a_byte, h.b_byte, h.c_byte, h.d_byte))) in
      let host : ntohl (lokal_num (quad a b c d)) ≡ quad d c 0 0 =
        ntohl-twice _ d c 0 0
          (record {
            a_byte = h.d_byte;
            b_byte = h.c_byte;
            c_byte = omega arith;
            d_byte = omega arith;
          })
          (rw (order, first, second) (omega (arith, h.a_byte, h.b_byte, h.c_byte, h.d_byte))) in
      joined (quad 0 b a 0) (quad d c 0 0) net host ∙ make_b l

  class_c : 192 ≤ a → zusammen_ip (quad a b c d) ≡ quad a b c d
  unfolding inet_netof inet_lnaof net_num lokal_num
  class_c l =
      let first : ltb (quad d c b a) 2147483648 ≡ false = ground (arith, l) in
      let second : ltb (quad d c b a) 3221225472 ≡ false = ground (arith, l) in
      let net : ntohl (net_num (quad a b c d)) ≡ quad 0 c b a =
        ntohl-twice _ 0 c b a
          (record { a_byte = omega arith; b_byte = h.c_byte; c_byte = h.b_byte; d_byte = h.a_byte })
          (rw (order, first, second) (omega (arith, h.a_byte, h.b_byte, h.c_byte, h.d_byte))) in
      let host : ntohl (lokal_num (quad a b c d)) ≡ quad d 0 0 0 =
        ntohl-twice _ d 0 0 0
          (record {
            a_byte = h.d_byte;
            b_byte = omega arith;
            c_byte = omega arith;
            d_byte = omega arith;
          })
          (rw (order, first, second) (omega (arith, h.a_byte, h.b_byte, h.c_byte, h.d_byte))) in
      joined (quad 0 c b a) (quad d 0 0 0) net host ∙ make_c l

-- The address a.b.c.d that ip_zusammen prints for an address in memory whose network part is not 0: it is
-- the address itself for a class C, where a is 192 or more; for a class B the third byte is lost, and for a
-- class A the second.
pub zusammen_ip-classes :
    (a b c d : ℕ)
    → AreBytes a b c d
    → 0 < a
    → zusammen_ip (quad a b c d)
      ≡ (if ltb a 128 then quad a 0 c d else if ltb a 192 then quad a b 0 d else quad a b c d)
zusammen_ip-classes a b c d h p = elim (Bool-cases (ltb a 128)) [
  | inl e ↦ rw e (class_a a b c d h p (ltb→lt a 128 e))
  | inr e ↦ elim (Bool-cases (ltb a 192)) [
    | inl f ↦ rw (e, f) (class_b a b c d h (ground arith) (ltb→lt a 192 f))
    | inr f ↦ rw (e, f) (class_c a b c d h (ground arith))
  ]
]
