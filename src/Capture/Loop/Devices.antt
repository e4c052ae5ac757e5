-- ===== src/Capture/Loop/Devices.antt =====
-- The choice of the device, and the errors of `run_capture`.
use ocellus_network_monitor.Prelude.{
  ◌≡◌, refl, sym, ◌∙◌, ap, subst, Bool, true, false, Bool-cases, inl, inr, ◌⊎◌, if◌then◌else◌,
  Option, none, some, String, List, [], ◌∷◌, ◌++◌, All, Allows-value, Outcome, done,
}
use text.Mathlib.Text.{◌==◌ as str_eq}
use ocellus_network_monitor.Packet.{LinkType}
use ocellus_network_monitor.Config.{Config}
use ocellus_network_monitor.Capture.Loop.{
  Result, ok, err, Pcap, CaptureError, device_list, interface_not_found, no_default_device,
  device_open, activate_failed, filter_compile, capture_failed, Round, Next, packet,
  timeout_expired, no_more_packets, fails, Flow, continues, returns, CaptureState, and_then,
  map_err, ok_or, apply_filter, find_device, resolve_device, open_device, capture_loop, on_opened,
  run_capture,
}
use ocellus_network_monitor.Capture.Loop.Pushes.{outcome, ending, capture_loop-ends}

-- The errors before the loop.
abbrev pub IsSetup : {E : Type 0} → CaptureError E → Type 0
IsSetup (capture_failed e) = ⊥
IsSetup (device_list e) = Unit
IsSetup (interface_not_found n) = Unit
IsSetup no_default_device = Unit
IsSetup (device_open e) = Unit
IsSetup (activate_failed e) = Unit
IsSetup (filter_compile e) = Unit

module _ (pcap : Pcap) where
  open pcap use {Error, Device, Active, Inactive, name, list, lookup, from_device, activate, filter}

  abbrev pub IsFirst : String → List Device → Device → Type 0
  IsFirst interface devices d =
      (before : List Device) × (after : List Device) × (devices ≡ before ++ (d ∷ after))
      × All (λ d'. str_eq (name d') interface ≡ false) before
      × (str_eq (name d) interface ≡ true)

  abbrev Finds : String → List Device → Option Device → Type 0
  Finds interface devices none = All (λ d. str_eq (name d) interface ≡ false) devices
  Finds interface devices (some d) = IsFirst interface devices d

  Finds-skip :
      (interface : String) (d : Device) (ds : List Device) (o : Option Device)
      → str_eq (name d) interface ≡ false
      → Finds interface ds o
      → Finds interface (d ∷ ds) o
  Finds-skip interface d ds none other h = (other, h)
  Finds-skip interface d ds (some d') other (before, after, e, all, here) =
      (d ∷ before, after, ap (◌∷◌ d) e, (other, all), here)

  find_device-Finds :
      (interface : String) (ds : List Device) → Finds interface ds (find_device pcap interface ds)
  unfolding find_device
  find_device-Finds interface [] = tt
  find_device-Finds interface (d ∷ ds) = elim (Bool-cases (str_eq (name d) interface)) [
    | inl here ↦
        subst (λ b. Finds interface (d ∷ ds) (if b then some d else find_device pcap interface ds))
          (sym here) ([], ds, refl, tt, here)
    | inr other ↦
        subst (λ b. Finds interface (d ∷ ds) (if b then some d else find_device pcap interface ds))
          (sym other)
          (Finds-skip interface d ds (find_device pcap interface ds) other
            (find_device-Finds interface ds))
  ]

  -- Where the devices can be listed and the configuration names an interface: `resolve_device` answers the
  -- first device with that name; if no device has it, the answer is the error that names the interface.
  pub resolve_device-IsFirst :
      (interface : String) (devices : List Device)
      → list ≡ ok devices
      → ((d : Device) × (resolve_device pcap (some interface) ≡ ok d) × IsFirst interface devices d)
        ⊎ ((resolve_device pcap (some interface) ≡ err (interface_not_found interface))
            × All (λ d. str_eq (name d) interface ≡ false) devices)
  unfolding resolve_device
  resolve_device-IsFirst interface devices listed =
      by_found (find_device pcap interface devices) refl
    where
      answer :
          (o : Option Device)
          → find_device pcap interface devices ≡ o
          → resolve_device pcap (some interface) ≡ ok_or o (interface_not_found interface)
      answer o e =
          ap
            (λ l.
              and_then (map_err device_list l)
                λ ds. ok_or (find_device pcap interface ds) (interface_not_found interface))
            listed
          ∙ ap (λ o. ok_or o (interface_not_found interface)) e

      by_found :
          (o : Option Device)
          → find_device pcap interface devices ≡ o
          → ((d : Device) × (resolve_device pcap (some interface) ≡ ok d)
              × IsFirst interface devices d)
            ⊎ ((resolve_device pcap (some interface) ≡ err (interface_not_found interface))
                × All (λ d. str_eq (name d) interface ≡ false) devices)
      by_found none e =
          inr
            (answer none e, subst (Finds interface devices) e (find_device-Finds interface devices))
      by_found (some d) e = inl (
        d,
        answer (some d) e,
        subst (Finds interface devices) e (find_device-Finds interface devices),
      )

  -- A result whose errors are errors before the loop.
  abbrev Setup : {A : Type 0} → Result (CaptureError Error) A → Type 0
  Setup (ok a) = Unit
  Setup (err e) = IsSetup e

  Setup-and_then :
      {A B : Type 0} (m : Result (CaptureError Error) A) (f : A → Result (CaptureError Error) B)
      → Setup m
      → ((a : A) → Setup (f a))
      → Setup (and_then m f)
  Setup-and_then (ok a) f h k = k a
  Setup-and_then (err e) f h k = h

  Setup-map_err :
      {A : Type 0} (f : Error → CaptureError Error) (m : Result Error A)
      → ((e : Error) → IsSetup (f e))
      → Setup (map_err f m)
  Setup-map_err f (ok a) h = tt
  Setup-map_err f (err e) h = h e

  Setup-ok_or : {A : Type 0} (o : Option A) (e : CaptureError Error) → IsSetup e → Setup (ok_or o e)
  Setup-ok_or none e h = h
  Setup-ok_or (some a) e h = tt

  resolve_device-Setup : (interface : Option String) → Setup (resolve_device pcap interface)
  unfolding resolve_device
  resolve_device-Setup none =
      Setup-and_then (map_err device_list lookup) _ (Setup-map_err device_list lookup λ e. tt)
        λ o. Setup-ok_or o no_default_device tt
  resolve_device-Setup (some interface) =
      Setup-and_then (map_err device_list list) _ (Setup-map_err device_list list λ e. tt)
        λ ds. Setup-ok_or (find_device pcap interface ds) (interface_not_found interface) tt

  apply_filter-Setup : (o : Option String) (cap : Active) → Setup (apply_filter pcap o cap)
  apply_filter-Setup none cap = tt
  apply_filter-Setup (some text) cap = Setup-map_err filter_compile (filter cap text) λ e. tt

  open_device-Setup : (config : Config) → Setup (open_device pcap config)
  unfolding open_device
  open_device-Setup config =
      Setup-and_then (resolve_device pcap config.interface) _
        (resolve_device-Setup config.interface)
        λ d.
          Setup-and_then (map_err device_open (from_device d)) _
            (Setup-map_err device_open (from_device d) λ e. tt)
            λ i.
              Setup-and_then (map_err activate_failed (activate i)) _
                (Setup-map_err activate_failed (activate i) λ e. tt)
                λ cap.
                  Setup-and_then (apply_filter pcap config.bpf_filter cap) _
                    (apply_filter-Setup config.bpf_filter cap) λ c. tt

  -- An error that ends the loop is an error of the capture.
  abbrev Known : Flow Error → Type 0
  Known continues = Unit
  Known (returns (ok u)) = Unit
  Known (returns (err e)) = (cause : Error) × (e ≡ capture_failed cause)

  ending-Known : (rounds : List (Round Error)) → Known (ending rounds)
  unfolding ending
  ending-Known [] = tt
  ending-Known (r ∷ rs) = by_round r.shutdown r.next (ending-Known rs)
    where
      by_round :
          (shutdown : Bool) (next : Next Error)
          → Known (ending rs)
          → Known (outcome shutdown next (ending rs))
      by_round true next h = tt
      by_round false (packet header bytes) h = h
      by_round false timeout_expired h = h
      by_round false no_more_packets h = tt
      by_round false (fails cause) h = (cause, refl)

  abbrev Answer : Type 0
  Answer = Outcome (Flow Error × CaptureState)

  -- What `run_capture` returns: an error of the set-up leaves the ring and the packet counter as they were,
  -- and any other error is an error of the capture that ended the loop.
  pub run_capture_error :
      (config : Config) (rounds : List (Round Error)) (s s' : CaptureState) (e : CaptureError Error)
      → run_capture pcap config rounds s ≡ done (returns (err e), s')
      → (IsSetup e × (s' ≡ s))
        ⊎ ((cause : Error) × (e ≡ capture_failed cause) × (ending rounds ≡ returns (err e)))
  unfolding run_capture
  run_capture_error config rounds s s' e ran =
      by_opened (open_device pcap config) refl (open_device-Setup config)
    where
      by_opened :
          (o : Result (CaptureError Error) (String × LinkType))
          → open_device pcap config ≡ o
          → Setup o
          → (IsSetup e × (s' ≡ s))
            ⊎ ((cause : Error) × (e ≡ capture_failed cause) × (ending rounds ≡ returns (err e)))
      by_opened (err e') opened h =
          let same : Path Answer (done (returns (err e'), s)) (done (returns (err e), s')) =
            ap (on_opened pcap rounds s) (sym opened) ∙ ran in
          let which : e' ≡ e = cc in inl (subst IsSetup which h, cc)
      by_opened (ok (interface, link_type)) opened h =
          let run : capture_loop interface link_type rounds s ≡ done (returns (err e), s') =
            ap (on_opened pcap rounds s) (sym opened) ∙ ran in
          let ends : ending rounds ≡ returns (err e) =
            sym (Allows-value _ _ _ run (capture_loop-ends interface link_type rounds s)) in
          let (cause, is) = subst Known ends (ending-Known rounds) in inr (cause, is, ends)
