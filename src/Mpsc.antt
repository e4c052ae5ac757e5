-- ===== src/Mpsc.antt =====
-- The bounded channel between the analyzer and the packet stream, `tokio::sync::mpsc`: what the two
-- ends rely on. A channel's content is what was sent and not yet received.
pub mod Queue
use ocellus_network_monitor.Prelude.{Bool, true, false, ℕ, ◌≡◌, Option, some, List, [], ◌∷◌, ◌++◌}

-- `channel` is for a positive capacity: tokio's panics on 0. `try_send` answers `none` where the channel is
-- full or its receiver is gone; `try_recv` answers `none` where a receiver would wait. `drop_receiver` is the end of the receiving task, which frees the content; the
-- channel is closed from then on.
pub record Mpsc (A : Type 0) : Type 1 where
  pub Channel : Type 0
  pub channel : ℕ → Channel
  pub try_send : Channel → A → Option Channel
  pub try_recv : Channel → Option (A × Channel)
  pub drop_receiver : Channel → Channel
  pub is_closed : Channel → Bool
  pub contents : Channel → List A
  pub contents-channel : (n : ℕ) → contents (channel n) ≡ []
  pub contents-try_send :
      (c c' : Channel) (a : A) → try_send c a ≡ some c' → contents c' ≡ contents c ++ (a ∷ [])
  pub contents-try_recv :
      (c c' : Channel) (a : A) → try_recv c ≡ some (a, c') → contents c ≡ a ∷ contents c'
  pub contents-drop_receiver : (c : Channel) → contents (drop_receiver c) ≡ []
  pub is_closed-channel : (n : ℕ) → is_closed (channel n) ≡ false
  pub is_closed-try_send :
      (c c' : Channel) (a : A)
      → try_send c a ≡ some c'
      → (is_closed c ≡ false) × (is_closed c' ≡ false)
  pub is_closed-try_recv :
      (c c' : Channel) (a : A) → try_recv c ≡ some (a, c') → is_closed c' ≡ is_closed c
  pub is_closed-drop_receiver : (c : Channel) → is_closed (drop_receiver c) ≡ true
