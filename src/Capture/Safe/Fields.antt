-- ===== src/Capture/Safe/Fields.antt =====
-- The transport headers: what each arm of the inner `match` returns.
use ocellus_network_monitor.Prelude.{
  ℕ, ◌+◌, ◌^◌, ◌≤◌, ◌<◌, ◌≡◌, inl, inr, ◌&&◌, Option, none, some, List, length, ◌==◌, leb, leb→le,
  Bool-cases, true, false, arith, Outcome, Bool, if◌then◌else◌, Ensures, Ensures-index, All,
  All-get_elem?, get_elem?,
}
use ocellus_network_monitor.Capture.Parse.{
  AppFields, tcp_fields, udp_fields, icmp_fields, no_fields, match_proto_v4, match_proto_v6,
}

abbrev pub IsByte : ℕ → Type 0
IsByte b = b < 256

-- A number that is there is below the bound.
abbrev pub Within : ℕ → Option ℕ → Type 0
Within n none = Unit
Within n (some x) = x < n

abbrev pub HasPorts : Option ℕ → Option ℕ → Option ℕ → Type 0
HasPorts none src dst = Unit
HasPorts (some flags) (some src) (some dst) = Unit
HasPorts (some flags) _ _ = ⊥

pub record FieldsFit (payload_offset : ℕ) (f : AppFields) : Type 0 where
  pub src_range : Within (2 ^ 16) f.src_port
  pub dst_range : Within (2 ^ 16) f.dst_port
  pub flags_range : Within 256 f.tcp_flags
  pub type_range : Within 256 f.icmp_type
  pub code_range : Within 256 f.icmp_code
  pub with_ports : HasPorts f.tcp_flags f.src_port f.dst_port
  pub starts_after : payload_offset ≤ f.app_payload_offset
  pub ends_near : f.app_payload_offset ≤ payload_offset + 60

module _ (tl : List ℕ) (bytes : All IsByte tl) (payload_offset : ℕ) where
  byte : (i : ℕ) {b : ℕ} → get_elem? tl i ≡ some b → b < 256
  byte i e = All-get_elem? IsByte tl i bytes e

  tcp_fields-Fit :
      20 ≤ length tl → Ensures (FieldsFit payload_offset) (tcp_fields tl payload_offset)
  unfolding tcp_fields
  tcp_fields-Fit h = Ensures-index (FieldsFit payload_offset) tl 12 _ (omega arith) λ b12 e12.
      Ensures-index (FieldsFit payload_offset) tl 0 _ (omega arith) λ b0 e0.
        Ensures-index (FieldsFit payload_offset) tl 1 _ (omega arith) λ b1 e1.
          Ensures-index (FieldsFit payload_offset) tl 2 _ (omega arith) λ b2 e2.
            Ensures-index (FieldsFit payload_offset) tl 3 _ (omega arith) λ b3 e3.
              Ensures-index (FieldsFit payload_offset) tl 13 _ (omega arith) λ b13 e13.
                omega (arith, byte 12 e12, byte 0 e0, byte 1 e1, byte 2 e2, byte 3 e3, byte 13 e13)

  udp_fields-Fit : 8 ≤ length tl → Ensures (FieldsFit payload_offset) (udp_fields tl payload_offset)
  unfolding udp_fields
  udp_fields-Fit h = Ensures-index (FieldsFit payload_offset) tl 0 _ (omega arith) λ b0 e0.
      Ensures-index (FieldsFit payload_offset) tl 1 _ (omega arith) λ b1 e1.
        Ensures-index (FieldsFit payload_offset) tl 2 _ (omega arith) λ b2 e2.
          Ensures-index (FieldsFit payload_offset) tl 3 _ (omega arith)
            λ b3 e3. omega (arith, byte 0 e0, byte 1 e1, byte 2 e2, byte 3 e3)

  icmp_fields-Fit :
      4 ≤ length tl → Ensures (FieldsFit payload_offset) (icmp_fields tl payload_offset)
  unfolding icmp_fields
  icmp_fields-Fit h = Ensures-index (FieldsFit payload_offset) tl 0 _ (omega arith) λ b0 e0.
      Ensures-index (FieldsFit payload_offset) tl 1 _ (omega arith)
        λ b1 e1. omega (arith, byte 0 e0, byte 1 e1)

  no_fields-Fit : FieldsFit payload_offset (no_fields payload_offset)
  unfolding no_fields
  no_fields-Fit = omega arith

  -- A guard `proto == n && leb size (length tl)` gives the size that the arm needs.
  guard_size : (p : Bool) (size : ℕ) → (p && leb size (length tl)) ≡ true → size ≤ length tl
  guard_size true size e = leb→le size (length tl) e
  guard_size false size e = cc

  -- An arm under its guard, and what holds where the guard fails.
  arm :
      (p : Bool) (size : ℕ) (m rest : Outcome AppFields)
      → (size ≤ length tl → Ensures (FieldsFit payload_offset) m)
      → Ensures (FieldsFit payload_offset) rest
      → Ensures (FieldsFit payload_offset) (if p && leb size (length tl) then m else rest)
  arm p size m rest h k = elim (Bool-cases (p && leb size (length tl))) [
    | inl e ↦ rw e (h (guard_size p size e))
    | inr e ↦ rw e k
  ]

  pub match_proto_v4-Fit :
      (proto : ℕ) → Ensures (FieldsFit payload_offset) (match_proto_v4 proto tl payload_offset)
  unfolding match_proto_v4
  match_proto_v4-Fit proto = arm (proto == 6) 20 _ _ tcp_fields-Fit (
      arm (proto == 17) 8 _ _ udp_fields-Fit (arm (proto == 1) 4 _ _ icmp_fields-Fit no_fields-Fit))

  pub match_proto_v6-Fit :
      (proto : ℕ) → Ensures (FieldsFit payload_offset) (match_proto_v6 proto tl payload_offset)
  unfolding match_proto_v6
  match_proto_v6-Fit proto = arm (proto == 6) 20 _ _ tcp_fields-Fit (
      arm (proto == 17) 8 _ _ udp_fields-Fit
        (arm (proto == 58) 4 _ _ icmp_fields-Fit no_fields-Fit))
