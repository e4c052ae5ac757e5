-- ===== src/Capture/Loop.antt =====
-- src/capture.rs and src/error.rs: opening the device, and the loop of `run_capture` up to its end. The
-- `pcap` crate is a parameter.
pub mod Devices
pub mod Pushes
mod Tests
use ocellus_network_monitor.Prelude.{
  ℕ, ◌+◌, ◌%◌, ◌^◌, Bool, true, false, Option, none, some, String, List, [], ◌∷◌, ltb,
  if◌then◌else◌, Outcome, done, ◌>>=◌,
}
use text.Mathlib.Text.{◌==◌ as str_eq}
use ocellus_network_monitor.Packet.{LinkType, RawPacket, TransportMeta}
use ocellus_network_monitor.Config.{Config}
use ocellus_network_monitor.Ring
use ocellus_network_monitor.Ring.{RingInner}
use ocellus_network_monitor.Capture.Parse.{
  pcap_linktype_to_enum, parse_transport, system_time_from_timeval,
}

pub data Result (E : Type 0) (A : Type 0) : Type 0 where
  ok : A → Result E A
  err : E → Result E A

-- `?`
abbrev pub and_then : {E A B : Type 0} → Result E A → (A → Result E B) → Result E B
and_then (ok a) f = f a
and_then (err e) f = err e

abbrev pub map_err : {E F A : Type 0} → (E → F) → Result E A → Result F A
map_err f (ok a) = ok a
map_err f (err e) = err (f e)

abbrev pub ok_or : {E A : Type 0} → Option A → E → Result E A
ok_or none e = err e
ok_or (some a) e = ok a

-- The crate `pcap`. `activate` is `open` with the timeout, the mode, the sizes that the program sets.
pub record Pcap : Type 1 where
  pub Error : Type 0
  pub Device : Type 0
  pub Inactive : Type 0
  pub Active : Type 0
  pub name : Device → String
  pub list : Result Error (List Device)
  pub lookup : Result Error (Option Device)
  pub from_device : Device → Result Error Inactive
  pub activate : Inactive → Result Error Active
  pub get_datalink : Active → ℕ
  pub filter : Active → String → Result Error Active

pub data CaptureError (E : Type 0) : Type 0 where
  device_list : E → CaptureError E
  interface_not_found : String → CaptureError E
  no_default_device : CaptureError E
  device_open : E → CaptureError E
  activate_failed : E → CaptureError E
  filter_compile : E → CaptureError E
  capture_failed : E → CaptureError E

-- The header of a packet, with the two parts of its time stamp as `as u64` and `as u32` read them.
pub record Header : Type 0 where
  pub len : ℕ
  pub caplen : ℕ
  pub tv_sec : ℕ
  pub tv_usec : ℕ

-- What `next_packet` returns.
pub data Next (E : Type 0) : Type 0 where
  packet : Header → List ℕ → Next E
  timeout_expired : Next E
  no_more_packets : Next E
  fails : E → Next E

-- A round of the loop: the flag that it reads, and what `next_packet` would return.
pub record Round (E : Type 0) : Type 0 where
  pub shutdown : Bool
  pub next : Next E

-- Whether the loop goes on, or what `run_capture` returns.
pub data Flow (E : Type 0) : Type 0 where
  continues : Flow E
  returns : Result (CaptureError E) Unit → Flow E

-- The shared ring and the counter of packets.
pub record CaptureState : Type 0 where
  pub buffer : RingInner RawPacket
  pub packet_counter : ℕ

unfoldable pub raw_of :
    String → LinkType → ℕ → ℕ → Header → List ℕ → Option TransportMeta → RawPacket
raw_of interface link_type timestamp id header bytes transport = record {
  timestamp = timestamp;
  bytes = bytes;
  orig_len = header.len;
  cap_len = header.caplen;
  interface = interface;
  link_type = link_type;
  transport = transport;
  is_truncated = ltb header.caplen header.len;
  packet_id = id;
  ids_score = 0;
  ids_flag = 0;
}

unfoldable pub push_packet :
    String → LinkType → Header → List ℕ → CaptureState → Outcome CaptureState
push_packet interface link_type header bytes s = do
  transport ← parse_transport bytes link_type
  timestamp ← system_time_from_timeval header.tv_sec header.tv_usec
  done (record {
    buffer =
        (Ring.push s.buffer
          (raw_of interface link_type timestamp s.packet_counter header bytes transport)).0;
    packet_counter = (s.packet_counter + 1) % 2 ^ 64;
  })

module _ {E : Type 0} where
  unfoldable pub on_next :
      String → LinkType → Next E → CaptureState → Outcome (Flow E × CaptureState)
  on_next interface link_type (packet header bytes) s = do
    s' ← push_packet interface link_type header bytes s
    done (continues, s')
  on_next interface link_type timeout_expired s = done (continues, s)
  on_next interface link_type no_more_packets s = done (returns (ok tt), s)
  on_next interface link_type (fails e) s = done (returns (err (capture_failed e)), s)

  unfoldable pub round :
      String → LinkType → Round E → CaptureState → Outcome (Flow E × CaptureState)
  round interface link_type r s =
      if r.shutdown then done (returns (ok tt), s) else on_next interface link_type r.next s

  -- The loop over the rounds it has gone through so far.
  unfoldable pub capture_loop :
      String → LinkType → List (Round E) → CaptureState → Outcome (Flow E × CaptureState)
  capture_loop interface link_type [] s = done (continues, s)
  capture_loop interface link_type (r ∷ rs) s = do
    (f, s') ← round interface link_type r s
    elim f [
      | continues ↦ capture_loop interface link_type rs s'
      | returns result ↦ done (returns result, s')
    ]

module _ (pcap : Pcap) where
  open pcap use {
    Error, Device, Active, name, list, lookup, from_device, activate, get_datalink, filter,
  }

  -- `find`
  unfoldable pub find_device : String → List Device → Option Device
  find_device interface [] = none
  find_device interface (d ∷ ds) =
      let rest = find_device interface ds in if str_eq (name d) interface then some d else rest

  unfoldable pub resolve_device : Option String → Result (CaptureError Error) Device
  resolve_device (some interface) =
      and_then (map_err device_list list)
        λ devices. ok_or (find_device interface devices) (interface_not_found interface)
  resolve_device none =
      and_then (map_err device_list lookup) λ device. ok_or device no_default_device

  abbrev pub apply_filter : Option String → Active → Result (CaptureError Error) Active
  apply_filter none cap = ok cap
  apply_filter (some text) cap = map_err filter_compile (filter cap text)

  -- The steps before the loop: the interface's name and the link type.
  unfoldable pub open_device : Config → Result (CaptureError Error) (String × LinkType)
  open_device config = and_then (resolve_device config.interface) λ device.
      and_then (map_err device_open (from_device device)) λ inactive.
        and_then (map_err activate_failed (activate inactive)) λ cap.
          and_then (apply_filter config.bpf_filter cap)
            λ filtered. ok (name device, pcap_linktype_to_enum (get_datalink cap))

  abbrev pub on_opened :
      List (Round Error)
      → CaptureState
      → Result (CaptureError Error) (String × LinkType)
      → Outcome (Flow Error × CaptureState)
  on_opened rounds s (ok (interface, link_type)) = capture_loop interface link_type rounds s
  on_opened rounds s (err e) = done (returns (err e), s)

  unfoldable pub run_capture :
      Config → List (Round Error) → CaptureState → Outcome (Flow Error × CaptureState)
  run_capture config rounds s = on_opened rounds s (open_device config)
