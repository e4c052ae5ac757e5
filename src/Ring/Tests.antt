-- ===== src/Ring/Tests.antt =====
-- Concrete runs of the ring.
use mathlib.Core.List.{Sublist}
use ocellus_network_monitor.Prelude.{
  ℕ, ◌+◌, ◌%◌, ◌^◌, ◌≤◌, ◌≡◌, refl, false, List, [], ◌∷◌, ◌++◌, length, arith,
}
use ocellus_network_monitor.Ring.{RingInner, push}
use ocellus_network_monitor.Ring.Newest.{IsValid, push_all, push_all-newest}
use ocellus_network_monitor.Ring.Schedule.{
  Op, push_op, pop_blocking_op, try_pop_op, drain_op, close_op, start, run, run_conserves,
}

abbrev two_of_three : RingInner ℕ
two_of_three = record { buf = 1 ∷ 2 ∷ []; cap = 3; dropped = 4; closed = false }

two_of_three-IsValid : IsValid two_of_three
two_of_three-IsValid = record {
  positive = omega arith;
  bounded = omega arith;
  counter = omega arith;
}

push_evicts :
    push (push two_of_three 3).0 4
    ≡ (record { buf = 2 ∷ 3 ∷ 4 ∷ []; cap = 3; dropped = 5; closed = false }, 5)
unfolding push
push_evicts = refl

push_all-newest_example :
    ((push_all two_of_three (3 ∷ 4 ∷ 5 ∷ [])).buf ≡ 3 ∷ 4 ∷ 5 ∷ [])
    × ((push_all two_of_three (3 ∷ 4 ∷ 5 ∷ [])).dropped ≡ 6)
    × IsValid (push_all two_of_three (3 ∷ 4 ∷ 5 ∷ []))
push_all-newest_example = push_all-newest (3 ∷ 4 ∷ 5 ∷ []) two_of_three two_of_three-IsValid

abbrev calls : List (Op ℕ)
calls =
    push_op 1 ∷ push_op 2 ∷ push_op 3 ∷ pop_blocking_op ∷ drain_op 5 ∷ close_op ∷ try_pop_op ∷ []

run_conserves_example :
    let h = run (start 2) calls in
    (length h.ring.buf ≤ 2)
    × Sublist (h.delivered ++ h.ring.buf) h.pushed
    × (length h.pushed ≡ length h.delivered + length h.ring.buf + length h.lost)
    × (h.ring.dropped ≡ length h.lost % 2 ^ 64)
run_conserves_example = run_conserves 2 calls (omega arith)
