-- ===== src/Capture/Safe/Headers.antt =====
-- The IP and Ethernet headers, and the parser as a whole.
use ocellus_network_monitor.Prelude.{
  ℕ, ◌+◌, ◌*◌, ◌/◌, ◌%◌, ◌^◌, ◌≤◌, ◌<◌, ◌≡◌, refl, inl, inr, ◌&&◌, Option, none, some, List, length,
  ◌==◌, leb, ltb, ltb→le, le→leb, Bool-cases, not, ==_iff, tests, ||-false, &&-true, Ensures-guard,
  Ensures-bind, arith, Outcome, done, Ensures, Ensures-index, Ensures-slice, Ensures-done, All,
  All-get_elem?, All-drop, All-take, get_elem?, take, drop, length-drop, ◌||◌, [], ◌∷◌, bit_and,
  be_u16,
}
use ocellus_network_monitor.Prelude.Bits.{bit_and-le}
use ocellus_network_monitor.Packet.{
  IpAddr, v4, v6, ipv4_new, LinkType, ethernet, raw_ip, loopback, unknown, TransportMeta,
}
use ocellus_network_monitor.Capture.Parse.{
  Layer2, frag_bytes, parse_ipv4, parse_ipv6, get_from, try_array, try_some, accept_etype,
  parse_ethernet, layer2, parse_ip, parse_transport,
}
use ocellus_network_monitor.Capture.Safe.Fields.{
  IsByte, Within, HasPorts, FieldsFit, match_proto_v4-Fit, match_proto_v6-Fit,
}

abbrev pub IsMac : Option (List ℕ) → Type 0
IsMac none = Unit
IsMac (some mac) = (length mac ≡ 6) × All IsByte mac

-- `Ipv4Addr` is a `u32`, `Ipv6Addr` sixteen bytes.
abbrev pub IsAddr : IpAddr → Type 0
IsAddr (v4 n) = n < 2 ^ 32
IsAddr (v6 bs) = (length bs ≡ 16) × All IsByte bs

-- The result of the parser on a frame of `size` bytes.
pub record FitsPacket (size : ℕ) (tm : TransportMeta) : Type 0 where
  pub src_addr : IsAddr tm.src_ip
  pub dst_addr : IsAddr tm.dst_ip
  pub src_range : Within (2 ^ 16) tm.src_port
  pub dst_range : Within (2 ^ 16) tm.dst_port
  pub protocol_range : tm.protocol < 256
  pub flags_range : Within 256 tm.tcp_flags
  pub with_ports : HasPorts tm.tcp_flags tm.src_port tm.dst_port
  pub ttl_range : tm.ttl < 256
  pub ip_flags_range : tm.ip_flags < 8
  pub frag_range : tm.ip_frag_offset ≤ 65528
  pub frag_units : tm.ip_frag_offset % 8 ≡ 0
  pub type_range : Within 256 tm.icmp_type
  pub code_range : Within 256 tm.icmp_code
  pub mac : IsMac tm.eth_src_mac
  pub vlan_range : Within 4096 tm.vlan_id
  pub past_header : 20 ≤ tm.payload_offset
  pub near_end : tm.payload_offset ≤ size + 60

abbrev pub Fits : ℕ → Option TransportMeta → Type 0
Fits size none = Unit
Fits size (some tm) = FitsPacket size tm

ipv4_new-lt : (a b c d : ℕ) → a < 256 → b < 256 → c < 256 → d < 256 → IsAddr (ipv4_new a b c d)
ipv4_new-lt a b c d ha hb hc hd = omega arith

frag_bytes_lem : (n : ℕ) → (frag_bytes n ≤ 65528) × (frag_bytes n % 8 ≡ 0)
frag_bytes_lem n = omega (arith, bit_and-le n 0x1FFF)

module _ (size : ℕ) (ip : List ℕ) (bytes : All IsByte ip) (l2 : Layer2) (mac : IsMac l2.eth_src_mac)
    (vlan : Within 4096 l2.vlan_id) (inside : l2.ip_offset + length ip ≤ size) where
  byte : (i : ℕ) {b : ℕ} → get_elem? ip i ≡ some b → b < 256
  byte i e = All-get_elem? IsByte ip i bytes e

  Ensures-get_from :
      (n : ℕ) (f : List ℕ → Outcome (Option TransportMeta))
      → n ≤ length ip
      → Ensures (Fits size) (f (drop n ip))
      → Ensures (Fits size) (try_some (get_from ip n) f)
  Ensures-get_from n f h e = rw (le→leb n (length ip) h) e

  parse_ipv4-Fits : Ensures (Fits size) (parse_ipv4 ip l2.ip_offset l2.eth_src_mac l2.vlan_id)
  unfolding parse_ipv4
  parse_ipv4-Fits =
      Ensures-guard (Fits size) (ltb (length ip) 20) _ _ (λ _. tt)
        λ long. Ensures-index (Fits size) ip 0 _ (omega tests) λ b0 e0.
          Ensures-guard (Fits size)
            (ltb (bit_and b0 0x0F * 4) 20 || ltb (length ip) (bit_and b0 0x0F * 4)) _ _ (λ _. tt)
            λ sized.
              let (big, fits) =
                ||-false (ltb (bit_and b0 0x0F * 4) 20) (ltb (length ip) (bit_and b0 0x0F * 4))
                  sized in
              Ensures-index (Fits size) ip 8 _ (omega tests) λ ttl ettl.
                Ensures-index (Fits size) ip 9 _ (omega tests) λ proto eproto.
                  Ensures-index (Fits size) ip 6 _ (omega tests) λ f0 ef0.
                    Ensures-index (Fits size) ip 7 _ (omega tests) λ f1 ef1.
                      Ensures-index (Fits size) ip 12 _ (omega tests) λ s0 es0.
                        Ensures-index (Fits size) ip 13 _ (omega tests) λ s1 es1.
                          Ensures-index (Fits size) ip 14 _ (omega tests) λ s2 es2.
                            Ensures-index (Fits size) ip 15 _ (omega tests) λ s3 es3.
                              Ensures-index (Fits size) ip 16 _ (omega tests) λ d0 ed0.
                                Ensures-index (Fits size) ip 17 _ (omega tests) λ d1 ed1.
                                  Ensures-index (Fits size) ip 18 _ (omega tests) λ d2 ed2.
                                    Ensures-index (Fits size) ip 19 _ (omega tests) λ d3 ed3.
                                      Ensures-get_from (bit_and b0 0x0F * 4) _ (ltb→le _ _ fits) (
                                        Ensures-bind (Fits size)
                                          (FieldsFit (l2.ip_offset + bit_and b0 0x0F * 4)) _ _
                                          (match_proto_v4-Fit (drop (bit_and b0 0x0F * 4) ip)
                                            (All-drop IsByte _ ip bytes) _ proto)
                                          λ app fit. record {
                                            src_addr =
                                                ipv4_new-lt s0 s1 s2 s3 (byte 12 es0) (byte 13 es1)
                                                  (byte 14 es2) (byte 15 es3);
                                            dst_addr =
                                                ipv4_new-lt d0 d1 d2 d3 (byte 16 ed0) (byte 17 ed1)
                                                  (byte 18 ed2) (byte 19 ed3);
                                            src_range = fit.src_range;
                                            dst_range = fit.dst_range;
                                            protocol_range = byte 9 eproto;
                                            flags_range = fit.flags_range;
                                            with_ports = fit.with_ports;
                                            ttl_range = byte 8 ettl;
                                            ip_flags_range =
                                                omega (arith, bit_and-le (be_u16 f0 f1 / 2 ^ 13) 7);
                                            frag_range = (frag_bytes_lem (be_u16 f0 f1)).0;
                                            frag_units = (frag_bytes_lem (be_u16 f0 f1)).1;
                                            type_range = fit.type_range;
                                            code_range = fit.code_range;
                                            mac = mac;
                                            vlan_range = vlan;
                                            past_header =
                                                omega (arith, ltb→le _ _ big, fit.starts_after);
                                            near_end =
                                                omega (arith, ltb→le _ _ fits, fit.ends_near);
                                          })

  Ensures-try_array :
      (n : ℕ) (xs : List ℕ) (f : List ℕ → Outcome (Option TransportMeta))
      → (length xs ≡ n → Ensures (Fits size) (f xs))
      → Ensures (Fits size) (try_some (try_array n xs) f)
  Ensures-try_array n xs f e = elim (Bool-cases (length xs == n)) [
    | inl exact ↦ rw exact (e ((==_iff (length xs) n).0 exact))
    | inr other ↦ rw other tt
  ]

  parse_ipv6-Fits : Ensures (Fits size) (parse_ipv6 ip l2.ip_offset l2.eth_src_mac l2.vlan_id)
  unfolding parse_ipv6
  parse_ipv6-Fits =
      Ensures-guard (Fits size) (ltb (length ip) 40) _ _ (λ _. tt)
        λ long. Ensures-index (Fits size) ip 6 _ (omega tests) λ proto eproto.
          Ensures-index (Fits size) ip 7 _ (omega tests) λ ttl ettl.
            Ensures-slice (Fits size) ip 8 24 _ (omega arith) (omega tests) (
              Ensures-try_array 16 (take 16 (drop 8 ip)) _ λ sixteen.
                (Ensures-slice (Fits size) ip 24 40 _ (omega arith) (omega tests) (
                  Ensures-try_array 16 (take 16 (drop 24 ip)) _ λ sixteen'.
                    (Ensures-get_from 40 _ (omega tests) (
                      Ensures-bind (Fits size) (FieldsFit (l2.ip_offset + 40)) _ _
                        (match_proto_v6-Fit (drop 40 ip) (All-drop IsByte 40 ip bytes) _ proto)
                        λ app fit. record {
                          src_addr = (sixteen, All-take IsByte 16 _ (All-drop IsByte 8 ip bytes));
                          dst_addr = (sixteen', All-take IsByte 16 _ (All-drop IsByte 24 ip bytes));
                          src_range = fit.src_range;
                          dst_range = fit.dst_range;
                          protocol_range = byte 6 eproto;
                          flags_range = fit.flags_range;
                          with_ports = fit.with_ports;
                          ttl_range = byte 7 ettl;
                          ip_flags_range = omega arith;
                          frag_range = omega arith;
                          frag_units = refl;
                          type_range = fit.type_range;
                          code_range = fit.code_range;
                          mac = mac;
                          vlan_range = vlan;
                          past_header = omega (arith, fit.starts_after);
                          near_end = omega (tests, fit.ends_near);
                        })))))

-- What layer 2 hands on lies inside the frame.
record FitsLayer2 (size : ℕ) (l2 : Layer2) : Type 0 where
  mac : IsMac l2.eth_src_mac
  vlan : Within 4096 l2.vlan_id

abbrev FitsLink : ℕ → Option Layer2 → Type 0
FitsLink size none = Unit
FitsLink size (some l2) = FitsLayer2 size l2

accept_etype-Fits :
    (size etype : ℕ) (l2 : Layer2) → FitsLayer2 size l2 → FitsLink size (accept_etype etype l2)
accept_etype-Fits size etype l2 f =
    elim (Bool-cases (not (etype == 0x0800) && not (etype == 0x86DD))) [
      | inl e ↦ rw e tt
      | inr e ↦ rw e f
    ]

try_array-IsMac : (xs : List ℕ) → All IsByte xs → IsMac (try_array 6 xs)
try_array-IsMac xs bytes = elim (Bool-cases (length xs == 6)) [
  | inl e ↦ rw e ((==_iff (length xs) 6).0 e, bytes)
  | inr e ↦ rw e tt
]

parse_ethernet-Fits :
    (frame : List ℕ) → All IsByte frame → Ensures (FitsLink (length frame)) (parse_ethernet frame)
unfolding parse_ethernet
parse_ethernet-Fits frame bytes =
    let P = FitsLink (length frame) in
    Ensures-guard P (ltb (length frame) 14) _ _ (λ _. tt)
      λ long. Ensures-slice P frame 6 12 _ (omega arith) (omega tests) (
        Ensures-index P frame 12 _ (omega tests) λ e0 h0.
          Ensures-index P frame 13 _ (omega tests) λ e1 h1.
            Ensures-guard P (be_u16 e0 e1 == 0x8100 && ltb 18 (length frame)) _ _
              (λ tagged.
                let more = (&&-true (be_u16 e0 e1 == 0x8100) (ltb 18 (length frame)) tagged).1 in
                Ensures-index P frame 14 _ (omega tests) λ t0 k0.
                  Ensures-index P frame 15 _ (omega tests) λ t1 k1.
                    Ensures-index P frame 16 _ (omega tests) λ i0 k2.
                      Ensures-index P frame 17 _ (omega tests) λ i1 k3.
                        accept_etype-Fits (length frame) (be_u16 i0 i1) _ (record {
                          mac =
                              try_array-IsMac (take 6 (drop 6 frame))
                                (All-take IsByte 6 _ (All-drop IsByte 6 frame bytes));
                          vlan = omega (arith, bit_and-le (be_u16 t0 t1) 0x0FFF);
                        }))
              λ plain. accept_etype-Fits (length frame) (be_u16 e0 e1) _ (record {
                mac =
                    try_array-IsMac (take 6 (drop 6 frame))
                      (All-take IsByte 6 _ (All-drop IsByte 6 frame bytes));
                vlan = tt;
              }))

layer2-Fits :
    (frame : List ℕ) (lt : LinkType)
    → All IsByte frame
    → Ensures (FitsLink (length frame)) (layer2 frame lt)
unfolding layer2
layer2-Fits frame ethernet bytes = parse_ethernet-Fits frame bytes
layer2-Fits frame loopback bytes = record { mac = tt; vlan = tt }
layer2-Fits frame raw_ip bytes = record { mac = tt; vlan = tt }
layer2-Fits frame (unknown n) bytes = tt

parse_ip-Fits :
    (size : ℕ) (ip : List ℕ) (l2 : Layer2)
    → All IsByte ip
    → FitsLayer2 size l2
    → l2.ip_offset + length ip ≤ size
    → Ensures (Fits size) (parse_ip ip l2)
unfolding parse_ip
parse_ip-Fits size [] l2 bytes f inside = tt
parse_ip-Fits size (b ∷ rest) l2 bytes f inside =
    Ensures-guard (Fits size) (bit_and (b / 2 ^ 4) 0xF == 4) _ _
      (λ _. parse_ipv4-Fits size (b ∷ rest) bytes l2 f.mac f.vlan inside)
      λ _.
        Ensures-guard (Fits size) (bit_and (b / 2 ^ 4) 0xF == 6) _ _
          (λ _. parse_ipv6-Fits size (b ∷ rest) bytes l2 f.mac f.vlan inside) λ _. tt

transport-Fits :
    (frame : List ℕ) (l2 : Option Layer2)
    → All IsByte frame
    → FitsLink (length frame) l2
    → Ensures
        (Fits (length frame))
        (try_some l2 (λ l2. try_some (get_from frame l2.ip_offset) (λ ip. parse_ip ip l2)))
transport-Fits frame none bytes f = tt
transport-Fits frame (some l2) bytes f = elim (Bool-cases (leb l2.ip_offset (length frame))) [
  | inl e ↦ rw e (
      parse_ip-Fits (length frame) (drop l2.ip_offset frame) l2
        (All-drop IsByte l2.ip_offset frame bytes) f
        (omega (tests, length-drop l2.ip_offset frame)))
  | inr e ↦ rw e tt
]

-- On every frame of bytes and for every link type, `parse_transport` returns: no index, slice or
-- conversion is out of range. When it returns metadata, every field is in the range of its type, the
-- bytes of the addresses included,
-- TCP flags come with both ports, the fragment offset is a multiple of 8 that did not overflow
-- `u16`, and the payload offset is past an IP header and at most 60 bytes past the frame's end.
pub parse_transport-Fits :
    (frame : List ℕ) (lt : LinkType)
    → All IsByte frame
    → (r : Option TransportMeta) × (parse_transport frame lt ≡ done r) × Fits (length frame) r
unfolding parse_transport
parse_transport-Fits frame lt bytes =
    Ensures-done (Fits (length frame)) (parse_transport frame lt) (
      Ensures-bind (Fits (length frame)) (FitsLink (length frame)) (layer2 frame lt) _
        (layer2-Fits frame lt bytes) λ l2 f. transport-Fits frame l2 bytes f)
