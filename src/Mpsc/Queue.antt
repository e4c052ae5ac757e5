-- ===== src/Mpsc/Queue.antt =====
-- A channel that is a list with a capacity and a receiver, for the tests.
use ocellus_network_monitor.Prelude.{
  not, ℕ, ◌≡◌, refl, false, true, Bool, Option, none, some, List, [], ◌∷◌, ◌++◌, length, arith, ltb,
  if◌then◌else◌, ◌&&◌,
}
use ocellus_network_monitor.Packet.{RawPacket}
use ocellus_network_monitor.Mpsc.{Mpsc}

pub record Queue (A : Type 0) : Type 0 where
  pub capacity : ℕ
  pub attached : Bool
  pub items : List A

module _ {A : Type 0} where
  unfoldable pub push_back : Queue A → A → Option (Queue A)
  push_back q a =
      if q.attached && ltb (length q.items) q.capacity
      then some (record q { items = q.items ++ (a ∷ []) })
      else none

  unfoldable pub pop_front : Queue A → List A → Option (A × Queue A)
  pop_front q [] = none
  pop_front q (a ∷ rest) = some (a, record q { items = rest })

  pub push_back-items :
      (q q' : Queue A) (a : A) → push_back q a ≡ some q' → q'.items ≡ q.items ++ (a ∷ [])
  unfolding push_back
  push_back-items q q' a h = ground arith

  pub pop_front-items :
      (q q' : Queue A) (l : List A) (a : A) → pop_front q l ≡ some (a, q') → l ≡ a ∷ q'.items
  unfolding pop_front
  pop_front-items q q' [] a h = absurd (ground arith)
  pop_front-items q q' (b ∷ l) a h = ground arith

  pub push_back-attached :
      (q q' : Queue A) (a : A)
      → push_back q a ≡ some q'
      → (not q.attached ≡ false) × (not q'.attached ≡ false)
  unfolding push_back
  push_back-attached q q' a h = ground arith

  pub pop_front-attached :
      (q q' : Queue A) (l : List A) (a : A)
      → pop_front q l ≡ some (a, q')
      → not q'.attached ≡ not q.attached
  unfolding pop_front
  pop_front-attached q q' [] a h = cc
  pop_front-attached q q' (b ∷ l) a h = ground arith

abbrev pub queue_channel : {A : Type 0} → Mpsc A
queue_channel {A} = record {
  Channel = Queue A;
  channel = λ n. record { capacity = n; attached = true; items = [] };
  try_send = λ q a. push_back q a;
  try_recv = λ q. pop_front q q.items;
  drop_receiver = λ q. record q { attached = false; items = [] };
  is_closed = λ q. not q.attached;
  contents = λ q. q.items;
  contents-channel = λ n. refl;
  contents-try_send = λ q q' a h. push_back-items q q' a h;
  contents-try_recv = λ q q' a h. pop_front-items q q' q.items a h;
  contents-drop_receiver = λ q. refl;
  is_closed-channel = λ n. refl;
  is_closed-try_send = λ q q' a h. push_back-attached q q' a h;
  is_closed-try_recv = λ q q' a h. pop_front-attached q q' q.items a h;
  is_closed-drop_receiver = λ q. refl;
}

abbrev pub list_channel : Mpsc RawPacket
list_channel = queue_channel
