-- ===== src/Ring/Newest.antt =====
-- What a run of `push` keeps: the newest entries, at most `cap`, with the loss counted.
use ocellus_network_monitor.Prelude.{
  ℕ, zero, suc, ◌+◌, ◌-◌, ◌^◌, ◌%◌, ◌≤◌, ◌<◌, ◌≡◌, refl, List, [], ◌∷◌, ◌++◌, append-nil,
  append_assoc, length, drop, length-append, arith, sym, ap, ◌∙◌, ap₂, length-drop, ℕ_discrete,
}
use ocellus_network_monitor.Ring.{RingInner, pop_front, make_room, push}

pub record IsValid {ℓ} {A : Type ℓ} (r : RingInner A) : Type ℓ where
  pub positive : 0 < r.cap
  pub bounded : length r.buf ≤ r.cap
  pub counter : r.dropped < 2 ^ 64

module _ {ℓ} {A : Type ℓ} where
  unfoldable pub push_all : RingInner A → List A → RingInner A
  push_all r [] = r
  push_all r (x ∷ xs) = push_all (push r x).0 xs

  drop-append_le : (n : ℕ) (xs ys : List A) → n ≤ length xs → drop n (xs ++ ys) ≡ drop n xs ++ ys
  drop-append_le zero xs ys h = refl
  drop-append_le (suc n) [] ys h = absurd (omega arith)
  drop-append_le (suc n) (x ∷ xs) ys h = drop-append_le n xs ys (omega arith)

  drop-nil : (n : ℕ) → drop {A = A} n [] ≡ []
  drop-nil zero = refl
  drop-nil (suc n) = refl

  drop-drop : (m n : ℕ) (xs : List A) → drop m (drop n xs) ≡ drop (n + m) xs
  drop-drop m zero xs = ap (λ k. drop k xs) (omega arith)
  drop-drop m (suc n) [] = drop-nil m ∙ sym (drop-nil (suc n + m))
  drop-drop m (suc n) (x ∷ xs) =
      drop-drop m n xs
      ∙ ap (λ k. drop k (x ∷ xs)) (let e : suc (n + m) ≡ suc n + m = omega arith in e)

  pop_front-drop : (xs : List A) → (pop_front xs).1 ≡ drop 1 xs
  pop_front-drop [] = refl
  pop_front-drop (x ∷ xs) = refl

  -- What `make_room` leaves, on both branches.
  make_room_lem :
      (r : RingInner A)
      → IsValid r
      → ((make_room r).buf ≡ drop (length r.buf + 1 - r.cap) r.buf)
        × ((make_room r).dropped ≡ (r.dropped + (length r.buf + 1 - r.cap)) % 2 ^ 64)
        × ((make_room r).cap ≡ r.cap)
  unfolding make_room
  make_room_lem r v = elim (ℕ_discrete (length r.buf) r.cap) [
    | yes full ↦
        let e : length r.buf + 1 - r.cap ≡ 1 = omega arith in
        rw e (ground (arith, pop_front-drop r.buf))
    | no room ↦ let e : length r.buf + 1 - r.cap ≡ 0 = omega arith in rw e (ground arith)
  ]

  -- One `push` keeps the newest `cap` of the entries and the item, and counts what it lost.
  push_newest :
      (r : RingInner A) (x : A)
      → IsValid r
      → ((push r x).0.buf ≡ drop (length r.buf + 1 - r.cap) (r.buf ++ (x ∷ [])))
        × ((push r x).0.dropped ≡ (r.dropped + (length r.buf + 1 - r.cap)) % 2 ^ 64)
        × ((push r x).0.cap ≡ r.cap)
  unfolding push
  push_newest r x v =
      let (kept, counted, same) = make_room_lem r v in
      (
        ap (λ b. b ++ (x ∷ [])) kept
            ∙ sym (drop-append_le (length r.buf + 1 - r.cap) r.buf (x ∷ []) (omega arith)),
        counted,
        same,
      )

  pub push-IsValid : (r : RingInner A) (x : A) → IsValid r → IsValid (push r x).0
  push-IsValid r x v =
      let (kept, counted, same) = push_newest r x v in
      let size = length-drop (length r.buf + 1 - r.cap) (r.buf ++ (x ∷ [])) in
      record {
        positive = omega arith;
        bounded = omega (arith, ap length kept, size, length-append r.buf (x ∷ []));
        counter = omega arith;
      }

  -- Pushing a list onto a valid buffer leaves the newest `cap` entries of what it held followed by
  -- the list, in order, and adds the number of lost entries to the counter (a `u64`, which wraps).
  pub push_all-newest :
      (xs : List A) (r : RingInner A)
      → IsValid r
      → ((push_all r xs).buf ≡ drop (length r.buf + length xs - r.cap) (r.buf ++ xs))
        × ((push_all r xs).dropped ≡ (r.dropped + (length r.buf + length xs - r.cap)) % 2 ^ 64)
        × IsValid (push_all r xs)
  unfolding push_all
  push_all-newest [] r v =
      let e : length r.buf + 0 - r.cap ≡ 0 = omega arith in
      (rw e (sym (append-nil r.buf)), omega arith, v)
  push_all-newest (x ∷ xs) r v =
      let k = length r.buf + 1 - r.cap in
      let (kept, counted, same) = push_newest r x v in
      let (rest, lost, valid) = push_all-newest xs (push r x).0 (push-IsValid r x v) in
      let size = length-drop k (r.buf ++ (x ∷ [])) in
      let j = length (push r x).0.buf + length xs - (push r x).0.cap in
      let sum : k + j ≡ length r.buf + suc (length xs) - r.cap =
        omega (arith, ap length kept, size, length-append r.buf (x ∷ [])) in
      (
        rest
            ∙ ap (λ b. drop j (b ++ xs)) kept
            ∙ ap (drop j) (
                sym (
                  drop-append_le k (r.buf ++ (x ∷ [])) xs
                    (omega (arith, length-append r.buf (x ∷ [])))))
            ∙ drop-drop j k ((r.buf ++ (x ∷ [])) ++ xs)
            ∙ ap₂ drop sum (append_assoc r.buf (x ∷ []) xs),
        omega arith,
        valid,
      )
