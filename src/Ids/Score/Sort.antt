-- ===== src/Ids/Score/Sort.antt =====
-- The stable sort of the signals.
use mathlib.Core.List.{Perm}
use mathlib.Core.List.Perm
use ocellus_network_monitor.Prelude.{
  ℕ, ◌≤◌, ◌≡◌, refl, List, [], ◌∷◌, ltb, Bool-cases, inl, inr, All, arith, tests, ◌==◌, retain,
}
use ocellus_network_monitor.Ids.Score.{Signal, insert_signal, sort_signals}

-- Scores fall along the list.
abbrev pub IsDescending : List Signal → Type 0
IsDescending [] = Unit
IsDescending (s ∷ ss) = All (λ t. t.score ≤ s.score) ss × IsDescending ss

All-insert_signal :
    (n : ℕ) (s : Signal) (ts : List Signal)
    → s.score ≤ n
    → All (λ t. t.score ≤ n) ts
    → All (λ t. t.score ≤ n) (insert_signal s ts)
unfolding insert_signal
All-insert_signal n s [] h hs = (h, tt)
All-insert_signal n s (t ∷ ts) h hs = ground (arith, All-insert_signal n s ts h hs.1)

All_le_trans :
    (n m : ℕ) (ts : List Signal) → n ≤ m → All (λ t. t.score ≤ n) ts → All (λ t. t.score ≤ m) ts
All_le_trans n m [] h hs = tt
All_le_trans n m (t ∷ ts) h hs = (omega (arith, hs.0), All_le_trans n m ts h hs.1)

insert_signal-IsDescending :
    (s : Signal) (ts : List Signal) → IsDescending ts → IsDescending (insert_signal s ts)
unfolding insert_signal
insert_signal-IsDescending s [] h = (tt, tt)
insert_signal-IsDescending s (t ∷ ts) h = elim (Bool-cases (ltb s.score t.score)) [
  | inl below ↦
      rw below
        (All-insert_signal t.score s ts (omega tests) h.0, insert_signal-IsDescending s ts h.1)
  | inr above ↦ rw above ((omega tests, All_le_trans t.score s.score ts (omega tests) h.0), h)
]

pub sort_signals-IsDescending : (ss : List Signal) → IsDescending (sort_signals ss)
unfolding sort_signals
sort_signals-IsDescending [] = tt
sort_signals-IsDescending (s ∷ ss) =
    insert_signal-IsDescending s (sort_signals ss) (sort_signals-IsDescending ss)

insert_signal-perm : (s : Signal) (ts : List Signal) → Perm (insert_signal s ts) (s ∷ ts)
unfolding insert_signal
insert_signal-perm s [] = Perm.refl (s ∷ [])
insert_signal-perm s (t ∷ ts) = elim (Bool-cases (ltb s.score t.score)) [
  | inl below ↦ rw below (Perm.trans (Perm.cons t (insert_signal-perm s ts)) (Perm.swap s t ts))
  | inr above ↦ rw above (Perm.refl (s ∷ t ∷ ts))
]

pub sort_signals-perm : (ss : List Signal) → Perm (sort_signals ss) ss
unfolding sort_signals
sort_signals-perm [] = Perm.refl []
sort_signals-perm (s ∷ ss) =
    Perm.trans (insert_signal-perm s (sort_signals ss)) (Perm.cons s (sort_signals-perm ss))

-- The signals of one score.
abbrev pub with_score : ℕ → List Signal → List Signal
with_score n = retain (λ s. s.score == n)

insert_signal-with_score :
    (n : ℕ) (s : Signal) (ts : List Signal)
    → with_score n (insert_signal s ts) ≡ with_score n (s ∷ ts)
unfolding insert_signal
insert_signal-with_score n s [] = refl
insert_signal-with_score n s (t ∷ ts) = ground (arith, insert_signal-with_score n s ts)

-- The sort is stable: the signals of each score keep their order.
pub sort_signals-with_score :
    (n : ℕ) (ss : List Signal) → with_score n (sort_signals ss) ≡ with_score n ss
unfolding sort_signals
sort_signals-with_score n [] = refl
sort_signals-with_score n (s ∷ ss) =
    ground (arith, insert_signal-with_score n s (sort_signals ss), sort_signals-with_score n ss)
