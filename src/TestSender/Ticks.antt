-- ===== src/TestSender/Ticks.antt =====
-- The loop of the test sender: how many packets it sends, and when it ends.
use ocellus_network_monitor.Prelude.{
  ℕ, zero, suc, ◌+◌, ◌*◌, ◌%◌, ◌^◌, ◌≤◌, ◌<◌, ◌≡◌, refl, Bool, true, false, some, List, [], ◌∷◌,
  ◌++◌, length, length-append, All, All-append, leb, arith, tests, done, Ensures, Ensures-weaken,
  Ensures-bind, Ensures-done,
}
use ocellus_network_monitor.Packet.{RawPacket}
use ocellus_network_monitor.TestSender.{
  TestSenderConfig, Draws, SenderPlace, sending, sleeping, stopped, SenderWake, ready, closed,
  cancelled, Sender, first, generate, go_on, next_tick, wake_at, run_wakes, run_test_sender,
}
use ocellus_network_monitor.TestSender.Generate.{Genuine, InRange, Batch, generate-Batch}

-- Waits that all end as they should.
abbrev pub readies : ℕ → List SenderWake
readies zero = []
readies (suc n) = ready ∷ readies n

module _ (cfg : TestSenderConfig) (m : ℕ) (draws : ℕ → ℕ → Draws) (clock : ℕ → ℕ → ℕ)
    (last : cfg.max_ticks ≡ some m) (fits : m < 2 ^ 64)
    (range : (t i : ℕ) → InRange (draws t i)) where
  abbrev p : ℕ
  p = cfg.packets_per_tick

  -- A sender with the ticks that are left, and a bound on the waits before it stops; where nothing
  -- disturbs it, it stops with all its packets sent.
  At : Bool → ℕ → Sender → SenderPlace → Type 0
  At calm e s sleeping =
      (k : ℕ) × (s.tick + k ≡ m) × (length s.sent + k * p ≡ m * p) × (suc (k * suc p) ≤ e)
  At calm e s (sending raw rest) =
      (k : ℕ) × (s.tick + suc k ≡ m)
      × (length s.sent + suc (length rest) + k * p ≡ m * p)
      × (suc (length rest) + suc (k * suc p) ≤ e)
      × All Genuine (raw ∷ rest)
  At calm e s stopped = (length s.sent ≤ m * p) × (calm ≡ true → length s.sent ≡ m * p)

  Good : Bool → ℕ → Sender → Type 0
  Good calm e s = All Genuine s.sent × At calm e s s.place

  go_on-Good :
      (calm : Bool) (e k : ℕ) (s : Sender) (raws : List RawPacket)
      → All Genuine s.sent
      → All Genuine raws
      → s.tick + suc k ≡ m
      → length s.sent + length raws + k * p ≡ m * p
      → length raws + suc (k * suc p) ≤ e
      → Good calm e (go_on s raws)
  unfolding Good At
  go_on-Good calm e k s [] all alls t c b =
      let same : (s.tick + 1) % 2 ^ 64 ≡ s.tick + 1 = omega arith in
      (all, (k, rw same (omega arith), omega arith, omega arith))
  go_on-Good calm e k s (raw ∷ raws) all alls t c b = (all, (k, t, c, b, alls))

  next_tick-Good :
      (calm : Bool) (e k : ℕ) (s : Sender)
      → All Genuine s.sent
      → s.tick + k ≡ m
      → length s.sent + k * p ≡ m * p
      → k * suc p ≤ e
      → Ensures (Good calm e) (next_tick cfg draws clock s)
  unfolding next_tick Good At
  next_tick-Good calm e zero s all t c b =
      let over : leb m s.tick ≡ true = omega tests in
      simp (last, over) (all, (omega arith, λ _. omega arith))
  next_tick-Good calm e (suc k) s all t c b =
      let more : leb m s.tick ≡ false = ground arith in
      simp (last, more)
        (Ensures-bind (Good calm e) (Batch p) (generate p _ _) _
          (generate-Batch p (draws s.tick) (clock s.tick) (range s.tick))
          λ raws (size, alls). go_on-Good calm e k s raws all alls t (omega arith) (omega arith))

  -- A wait that ends as it should, and any wait.
  ready-Good :
      (calm : Bool) (e : ℕ) (s : Sender) (o : SenderPlace)
      → All Genuine s.sent
      → At calm (suc e) s o
      → Ensures (Good calm e) (wake_at cfg draws clock o (record s { place = o }) ready)
  unfolding Good At
  ready-Good calm e s sleeping all (k, t, c, b) =
      next_tick-Good calm e k (record s { place = sleeping }) all t c (omega arith)
  ready-Good calm e s (sending raw rest) all (k, t, c, b, alls) =
      go_on-Good calm e k (record s { sent = s.sent ++ (raw ∷ []) }) rest
        (All-append Genuine s.sent (raw ∷ []) all (alls.0, tt)) alls.1 t
        (omega (arith, length-append s.sent (raw ∷ []))) (omega arith)
  ready-Good calm e s stopped all h = (all, h)

  At-weaken :
      (calm : Bool) (e : ℕ) (s : Sender) (o : SenderPlace) → At calm e s o → At calm (suc e) s o
  unfolding At
  At-weaken calm e s sleeping (k, t, c, b) = (k, t, c, omega arith)
  At-weaken calm e s (sending raw rest) (k, t, c, b, alls) = (k, t, c, omega arith, alls)
  At-weaken calm e s stopped h = h

  any-Good :
      (e : ℕ) (s : Sender) (o : SenderPlace) (w : SenderWake)
      → All Genuine s.sent
      → At false (suc e) s o
      → Ensures (Good false (suc e)) (wake_at cfg draws clock o (record s { place = o }) w)
  unfolding Good At
  any-Good e s o ready all h =
      Ensures-weaken (Good false e) (Good false (suc e)) _
        (λ s' (all', h'). (all', At-weaken false e s' s'.place h')) (ready-Good false e s o all h)
  any-Good e s sleeping closed all h = (all, h)
  any-Good e s sleeping cancelled all (k, t, c, b) = (all, (omega arith, λ f. absurd (cc f)))
  any-Good e s (sending raw rest) closed all (k, t, c, b, alls) =
      (all, (omega arith, λ f. absurd (cc f)))
  any-Good e s (sending raw rest) cancelled all (k, t, c, b, alls) =
      (all, (omega arith, λ f. absurd (cc f)))
  any-Good e s stopped closed all h = (all, h)
  any-Good e s stopped cancelled all h = (all, h)

  -- Stopped with all packets sent.
  abbrev Ended : Sender → Type 0
  Ended s = (s.place ≡ stopped) × (length s.sent ≡ m * p) × All Genuine s.sent

  Good-Ended :
      (s : Sender) (o : SenderPlace) → s.place ≡ o → All Genuine s.sent → At true 0 s o → Ended s
  unfolding At
  Good-Ended s sleeping e all (k, t, c, b) = absurd (omega arith)
  Good-Ended s (sending raw rest) e all (k, t, c, b, alls) = absurd (omega arith)
  Good-Ended s stopped e all (_, h) = (e, h refl, all)

  readies-Ended :
      (n : ℕ) (s : Sender) → Good true n s → Ensures Ended (run_wakes cfg draws clock s (readies n))
  unfolding run_wakes Good
  readies-Ended zero s (all, h) = Good-Ended s s.place refl all h
  readies-Ended (suc n) s (all, h) =
      Ensures-bind Ended (Good true n) (wake_at cfg draws clock s.place s ready) _
        (ready-Good true n s s.place all h) λ s' h'. readies-Ended n s' h'

  run_wakes-Good :
      (ws : List SenderWake) (e : ℕ) (s : Sender)
      → Good false (suc e) s
      → Ensures (Good false (suc e)) (run_wakes cfg draws clock s ws)
  unfolding run_wakes Good
  run_wakes-Good [] e s h = h
  run_wakes-Good (w ∷ ws) e s (all, h) =
      Ensures-bind (Good false (suc e)) (Good false (suc e)) (wake_at cfg draws clock s.place s w) _
        (any-Good e s s.place w all h) λ s' h'. run_wakes-Good ws e s' h'

  Good-bound : (e : ℕ) (s : Sender) (o : SenderPlace) → At false e s o → length s.sent ≤ m * p
  unfolding At
  Good-bound e s sleeping (k, t, c, b) = omega arith
  Good-bound e s (sending raw rest) (k, t, c, b, alls) = omega arith
  Good-bound e s stopped (h, _) = h

  -- Where the number of ticks is limited (in `u64`) and the random numbers are in the ranges that the
  -- sender asks for, then after enough waits that nothing disturbs the sender has stopped. It has sent the
  -- packets of every tick, and the metadata of each is what the capture would read in its bytes.
  pub run_test_sender-ends :
      (n : ℕ)
      → m * suc cfg.packets_per_tick ≤ n
      → (s : Sender) × (run_test_sender cfg draws clock (readies n) ≡ done s)
        × (s.place ≡ stopped)
        × (length s.sent ≡ m * cfg.packets_per_tick)
        × All Genuine s.sent
  unfolding run_test_sender
  run_test_sender-ends n h =
      let (s, returned, (over, count, all)) = Ensures-done Ended _ (
        Ensures-bind Ended (Good true n) (next_tick cfg draws clock first) _
          (next_tick-Good true n m first tt (omega arith) (omega arith) h)
          λ s g. readies-Ended n s g) in
      (s, returned, over, count, all)

  -- The same, where any wait may end with the cancellation or with a closed channel: nothing panics, and
  -- the sender sends at most the packets of all the ticks.
  pub run_test_sender-bound :
      (ws : List SenderWake)
      → (s : Sender) × (run_test_sender cfg draws clock ws ≡ done s)
        × (length s.sent ≤ m * cfg.packets_per_tick)
        × All Genuine s.sent
  unfolding run_test_sender Good
  run_test_sender-bound ws =
      let e = m * suc p in
      let (s, returned, (all, h)) = Ensures-done (Good false (suc e)) _ (
        Ensures-bind (Good false (suc e)) (Good false (suc e)) (next_tick cfg draws clock first) _
          (next_tick-Good false (suc e) m first tt (omega arith) (omega arith) (omega arith))
          λ s g. run_wakes-Good ws e s g) in
      (s, returned, Good-bound (suc e) s s.place h, all)
