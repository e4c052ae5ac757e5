-- ===== src/Ids/SynFlood/Handshake.antt =====
-- The half-open table as a function of its keys, and a handshake that completes.
use ocellus_network_monitor.Prelude.{
  ℕ, ◌≡◌, refl, ap, ◌∙◌, true, false, ◌||◌, Option, none, some, List, ite, if◌then◌else◌, arith,
}
use ocellus_network_monitor.Prelude.Map.{
  lookup, remove, lookup-insert, lookup-remove, Distinct, insert-Distinct, remove-Distinct,
}
use ocellus_network_monitor.Packet.{IpAddr}
use ocellus_network_monitor.Ids.SynFlood.{
  FlowKey, FlowKey-discrete, SynFloodDetector, Readings, flag_is_syn, flag_is_rst, flag_is_ack,
  flag_is_syn_ack, track, inspect,
}

-- What a packet of a flow does to the entry of any key.
abbrev pub after_packet : ℕ → FlowKey → FlowKey → ℕ → FlowKey → Option ℕ → Option ℕ
after_packet opened k r flags j old =
    if flag_is_syn flags
    then ite (FlowKey-discrete k j) (some opened) old
    else if flag_is_syn_ack flags || flag_is_rst flags || flag_is_ack flags
    then ite (FlowKey-discrete k j) none (ite (FlowKey-discrete r j) none old)
    else old

lookup-track :
    (opened : ℕ) (m : List (FlowKey × ℕ)) (k r j : FlowKey) (flags : ℕ)
    → lookup FlowKey-discrete j (track opened m k r flags)
      ≡ after_packet opened k r flags j (lookup FlowKey-discrete j m)
unfolding track
lookup-track opened m k r j flags = ground (
  arith,
  lookup-insert FlowKey-discrete k j opened m,
  lookup-remove FlowKey-discrete k j (remove FlowKey-discrete r m),
  lookup-remove FlowKey-discrete r j m,
)

-- No flow has two entries, so the length of the table is the number of half-open flows.
pub track-Distinct :
    (opened : ℕ) (m : List (FlowKey × ℕ)) (k r : FlowKey) (flags : ℕ)
    → Distinct FlowKey-discrete m
    → Distinct FlowKey-discrete (track opened m k r flags)
unfolding track
track-Distinct opened m k r flags d = ground (
  arith,
  insert-Distinct FlowKey-discrete k opened m d,
  remove-Distinct FlowKey-discrete k (remove FlowKey-discrete r m)
      (remove-Distinct FlowKey-discrete r m d),
)

after_open :
    (opened flags : ℕ) (k r j : FlowKey) (old : Option ℕ)
    → flag_is_syn flags ≡ true
    → after_packet opened k r flags j old ≡ ite (FlowKey-discrete k j) (some opened) old
after_open opened flags k r j old s = rw s refl

after_close :
    (opened flags : ℕ) (k r j : FlowKey) (old : Option ℕ)
    → flag_is_syn flags ≡ false
    → (flag_is_syn_ack flags || flag_is_rst flags || flag_is_ack flags) ≡ true
    → after_packet opened k r flags j old
      ≡ ite (FlowKey-discrete k j) none (ite (FlowKey-discrete r j) none old)
after_close opened flags k r j old n a = ground arith

-- A SYN from a client, and then any packet of the peer with ACK set or with RST and no SYN,
-- whatever the readings and the rest of the table: neither direction of the flow is half-open any
-- more, and the entry of every other flow is what it was before the SYN.
pub handshake_closes :
    (t u : Readings) (d : SynFloodDetector) (src dst : IpAddr) (sport dport first answer : ℕ)
    (j : FlowKey)
    → flag_is_syn first ≡ true
    → flag_is_syn answer ≡ false
    → (flag_is_syn_ack answer || flag_is_rst answer || flag_is_ack answer) ≡ true
    → let d' = (inspect t d src dst sport dport first).1 in
      let d'' = (inspect u d' dst src dport sport answer).1 in
      lookup FlowKey-discrete j d''.half_open
      ≡ ite (FlowKey-discrete (dst, src, dport, sport) j) none (
          ite
            (FlowKey-discrete (src, dst, sport, dport) j)
            none
            (lookup FlowKey-discrete j d.half_open))
unfolding inspect
handshake_closes t u d src dst sport dport first answer j s n a =
    let k : FlowKey = (src, dst, sport, dport) in
    let r : FlowKey = (dst, src, dport, sport) in
    let m = track t.opened d.half_open k r first in
    lookup-track u.opened m r k j answer
    ∙ after_close u.opened answer r k j (lookup FlowKey-discrete j m) n a
    ∙ ap (λ o. ite (FlowKey-discrete r j) none (ite (FlowKey-discrete k j) none o))
        (lookup-track t.opened d.half_open k r j first
          ∙ after_open t.opened first k r j (lookup FlowKey-discrete j d.half_open) s)
    ∙ close k r (lookup FlowKey-discrete j d.half_open)
  where
    close :
        (k r : FlowKey) (old : Option ℕ)
        → ite
            (FlowKey-discrete r j)
            none
            (ite (FlowKey-discrete k j) none (ite (FlowKey-discrete k j) (some t.opened) old))
          ≡ ite (FlowKey-discrete r j) none (ite (FlowKey-discrete k j) none old)
    close k r old = ground arith
