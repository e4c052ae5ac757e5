-- ===== src/Ids/SynFlood/Rst.antt =====
-- RST packets against the half-open table.
use mathlib.Core.List.{Mem, mem-cons_self, mem-append_right}
use ocellus_network_monitor.Prelude.{
  ℕ, ◌≡◌, refl, Bool, true, false, not, ◌&&◌, none, List, ◌++◌, arith,
}
use ocellus_network_monitor.Prelude.Map.{lookup, remove, lookup-remove}
use ocellus_network_monitor.Packet.{IpAddr}
use ocellus_network_monitor.Ids.Score.{Signal}
use ocellus_network_monitor.Ids.SynFlood.{
  FlowKey, FlowKey-discrete, SynFloodDetector, Readings, flag_is_syn, flag_is_rst, track,
  rst_signal, inspect, contains_key, when,
}

track-rst :
    (opened : ℕ) (m : List (FlowKey × ℕ)) (k r : FlowKey) (flags : ℕ)
    → flag_is_syn flags ≡ false
    → flag_is_rst flags ≡ true
    → (lookup FlowKey-discrete k (track opened m k r flags) ≡ none)
      × (lookup FlowKey-discrete r (track opened m k r flags) ≡ none)
unfolding track
track-rst opened m k r flags s h = ground (
  arith,
  lookup-remove FlowKey-discrete k k (remove FlowKey-discrete r m),
  lookup-remove FlowKey-discrete k r (remove FlowKey-discrete r m),
  lookup-remove FlowKey-discrete r r m,
)

mem-when : (b : Bool) (s : Signal) (ts : List Signal) → b ≡ true → Mem s (when b s ++ ts)
mem-when b s ts e = rw e mem-cons_self

-- A packet with RST that does not open a connection (no SYN, or SYN with ACK) always raises
-- `rst_injection`, also where the connection that it resets was tracked as half-open: both entries
-- are removed before the code looks for them.
pub rst_always_reported :
    (t : Readings) (d : SynFloodDetector) (src dst : IpAddr) (sport dport flags : ℕ)
    → flag_is_syn flags ≡ false
    → flag_is_rst flags ≡ true
    → Mem rst_signal (inspect t d src dst sport dport flags).0
unfolding inspect
rst_always_reported t d src dst sport dport flags s h =
    let k : FlowKey = (src, dst, sport, dport) in
    let r : FlowKey = (dst, src, dport, sport) in
    let (gone, gone') = track-rst t.opened d.half_open k r flags s h in
    mem-append_right _ (mem-append_right _ (mem-when _ rst_signal _ (absent k r gone gone')))
  where
    absent :
        (k r : FlowKey)
        → lookup FlowKey-discrete k (track t.opened d.half_open k r flags) ≡ none
        → lookup FlowKey-discrete r (track t.opened d.half_open k r flags) ≡ none
        → (flag_is_rst flags
            && (not (contains_key k (track t.opened d.half_open k r flags))
                && not (contains_key r (track t.opened d.half_open k r flags))))
          ≡ true
    absent k r e e' = rw (h, e, e') refl
