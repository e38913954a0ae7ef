-- ===== src/Handles/Total.antt =====
-- INT_MAX tries are enough: with up to 2^30 - 3 entries in the list, the search finds a handle from
-- every counter, across the wrap-around of the counter.
use rticonnextdds_ros2_adapt.Common.{
  ℕ, zero, suc, ◌+◌, ◌≤◌, ◌<◌, ℤ, pos, negsuc, leb, inc32, int_max, IsInt32, Bool, Bool-cases,
  is_some, true, false, if◌then◌else◌, inl, inr, length, List, [], ◌∷◌, ◌≡◌, ◌≢◌, arith, dec_lt,
}
use rticonnextdds_ros2_adapt.Types.{invalid_handle}
use rticonnextdds_ros2_adapt.InlineList.{find_key}
use rticonnextdds_ros2_adapt.Handles.Fresh.{loop_taken, loop_free}
use rticonnextdds_ros2_adapt.Handles.{counter, next_handle_loop, next_handle}

-- Whether a handle is at least `c`.
at_least : ℕ → ℤ → Bool
at_least c (pos n) = leb c n
at_least c (negsuc n) = false

module _ {A : Type 0} (key : A → ℤ) where
  -- The number of entries with a handle of at least `c`.
  count_ge : ℕ → List A → ℕ
  count_ge c [] = 0
  count_ge c (x ∷ xs) = (if at_least c (key x) then 1 else 0) + count_ge c xs

  abbrev pub taken : List A → ℤ → Bool
  taken xs c = is_some (find_key key c xs)

  count_ge-le : (c : ℕ) (xs : List A) → count_ge c xs ≤ length xs
  unfolding count_ge
  count_ge-le c [] = omega arith
  count_ge-le c (x ∷ xs) = ground (arith, count_ge-le c xs)

  count_ge-suc : (c : ℕ) (xs : List A) → count_ge (suc c) xs ≤ count_ge c xs
  unfolding count_ge at_least
  count_ge-suc c [] = omega arith
  count_ge-suc c (x ∷ xs) = ground (arith, count_ge-suc c xs)

  -- A handle that is in use is counted.
  count_ge-taken :
      (c : ℕ) (xs : List A) → taken xs (pos c) ≡ true → suc (count_ge (suc c) xs) ≤ count_ge c xs
  unfolding count_ge find_key at_least
  count_ge-taken c [] h = cc
  count_ge-taken c (x ∷ xs) h = ground (arith, count_ge-taken c xs, count_ge-suc c xs)

  -- Without a wrap-around on the way.
  loop_up :
      (xs : List A) (tries c : ℕ)
      → count_ge c xs < tries
      → c + count_ge c xs ≤ int_max
      → (next_handle_loop (taken xs) tries (pos c)).0 ≢ invalid_handle
  unfolding inc32
  loop_up xs zero c h k = absurd (omega arith)
  loop_up xs (suc tries) c h k = elim (Bool-cases (taken xs (pos c))) [
    | inl t ↦
        let fewer = count_ge-taken c xs t in
        let up : counter (pos c) ≡ pos (suc c) = ground (arith, fewer) in
        rw (loop_taken (taken xs) tries (pos c) t, up)
          (loop_up xs tries (suc c) (omega (arith, fewer)) (omega (arith, fewer)))
    | inr f ↦ rw (loop_free (taken xs) tries (pos c) f) (λ e. cc)
  ]

  -- From a negative counter the loop tries 0, and goes on from 0.
  loop_wrapped :
      (xs : List A) (tries n : ℕ)
      → length xs + 1 < tries
      → length xs ≤ int_max
      → (next_handle_loop (taken xs) tries (negsuc n)).0 ≢ invalid_handle
  loop_wrapped xs zero n h k = absurd (omega arith)
  loop_wrapped xs (suc tries) n h k = elim (Bool-cases (taken xs (pos 0))) [
    | inl t ↦
        rw (loop_taken (taken xs) tries (negsuc n) t)
          (loop_up xs tries 0 (omega (arith, count_ge-le 0 xs)) (omega (arith, count_ge-le 0 xs)))
    | inr f ↦ rw (loop_free (taken xs) tries (negsuc n) f) (λ e. cc)
  ]

  -- From any other counter, across the wrap-around.
  loop_on :
      (xs : List A) (tries c : ℕ)
      → c ≤ int_max
      → count_ge c xs + length xs + 2 < tries
      → length xs ≤ int_max
      → (next_handle_loop (taken xs) tries (pos c)).0 ≢ invalid_handle
  unfolding inc32
  loop_on xs zero c b h k = absurd (omega arith)
  loop_on xs (suc tries) c b h k = elim (Bool-cases (taken xs (pos c))) [
    | inl t ↦ rw (loop_taken (taken xs) tries (pos c) t) (elim (dec_lt c int_max) [
      | yes low ↦
          let fewer = count_ge-taken c xs t in
          let up : counter (pos c) ≡ pos (suc c) = ground arith in
          rw up (loop_on xs tries (suc c) low (omega (arith, fewer)) k)
      | no high ↦
          let fewer = count_ge-taken c xs t in
          let wrap : counter (pos c) ≡ negsuc int_max = ground arith in
          rw wrap (loop_wrapped xs tries int_max (omega (arith, fewer)) k)
    ])
    | inr f ↦ rw (loop_free (taken xs) tries (pos c) f) (λ e. cc)
  ]

  -- From every 32-bit counter the search finds a handle while the list has at most 2^30 - 3 entries.
  pub next_handle_total :
      (xs : List A) (next : ℤ)
      → IsInt32 next
      → length xs ≤ 1073741821
      → (next_handle (taken xs) next).0 ≢ invalid_handle
  unfolding next_handle
  next_handle_total xs (pos c) b h =
      loop_on xs int_max c b (omega (arith, count_ge-le c xs)) (omega arith)
  next_handle_total xs (negsuc n) b h = loop_wrapped xs int_max n (omega arith) (omega arith)
