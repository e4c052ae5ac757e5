-- ===== src/Ids/Engine/Extend.antt =====
-- A report only grows: each check keeps a flag that is set, and adds its signals at the end.
use ocellus_network_monitor.Prelude.{
  ℕ, ◌≡◌, ◌≢◌, refl, sym, ◌∙◌, ap, Bool, true, false, ◌||◌, Option, none, some, List, [], ◌∷◌, ◌++◌,
  append-nil, append_assoc, ◌==◌, arith,
}
use ocellus_network_monitor.Packet.{TransportMeta, RawPacket}
use ocellus_network_monitor.Ids.Score.{Signal}
use ocellus_network_monitor.Ids.Engine.{
  Report, raise, raise_option, raise_all, note_if, check_headers, check_vlan,
}

unfoldable pub Extends : Report → Report → Type 0
Extends r r' =
    (r.flag ≢ 0 → r'.flag ≡ r.flag) × (tail : List Signal) × (r'.signals ≡ r.signals ++ tail)

pub Extends-refl : (r : Report) → Extends r r
unfolding Extends
Extends-refl r = ((λ h. refl), [], sym (append-nil r.signals))

pub Extends-trans : (r s t : Report) → Extends r s → Extends s t → Extends r t
unfolding Extends
Extends-trans r s t (f, xs, p) (g, ys, q) = (
  (λ h. g (λ z. h (sym (f h) ∙ z)) ∙ f h),
  xs ++ ys,
  q ∙ ap (λ l. l ++ ys) p ∙ append_assoc r.signals xs ys,
)

pub raise-Extends : (flag : ℕ) (s : Signal) (r : Report) → Extends r (raise flag s r)
unfolding Extends raise
raise-Extends flag s r = ((λ h. ground arith), s ∷ [], refl)

pub raise_option-Extends :
    (flag : ℕ) (o : Option Signal) (r : Report) → Extends r (raise_option flag o r)
unfolding raise_option
raise_option-Extends flag none r = Extends-refl r
raise_option-Extends flag (some s) r = raise-Extends flag s r

pub raise_all-Extends : (flag : ℕ) (ss : List Signal) (r : Report) → Extends r (raise_all flag ss r)
unfolding raise_all
raise_all-Extends flag [] r = Extends-refl r
raise_all-Extends flag (s ∷ ss) r =
    Extends-trans r (raise flag s r) _ (raise-Extends flag s r)
      (raise_all-Extends flag ss (raise flag s r))

pub note_if-Extends : (b : Bool) (s : Signal) (r : Report) → Extends r (note_if b s r)
unfolding Extends note_if
note_if-Extends true s r = ((λ h. refl), s ∷ [], refl)
note_if-Extends false s r = Extends-refl r

pub check_headers-Extends :
    (pkt : RawPacket) (tm : TransportMeta) (r : Report) → Extends r (check_headers pkt tm r)
unfolding check_headers
check_headers-Extends pkt tm r =
    Extends-trans r _ _ (note_if-Extends _ _ r)
      (Extends-trans _ _ _ (note_if-Extends _ _ _) (note_if-Extends _ _ _))

pub check_vlan-Extends : (o : Option ℕ) (r : Report) → Extends r (check_vlan o r)
unfolding check_vlan
check_vlan-Extends none r = Extends-refl r
check_vlan-Extends (some vid) r = note_if-Extends (vid == 0 || vid == 4095) _ r
