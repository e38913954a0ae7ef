-- ===== src/Handles/Fresh.antt =====
-- What the search for a handle answers: a handle that is not in use, or INVALID.
use rticonnextdds_ros2_adapt.Common.{
  ℕ, zero, suc, ◌≤◌, ℤ, pos, negsuc, int_max, IsInt32, inc32-IsInt32, Bool, Bool-cases, true, false,
  inl, inr, ◌⊎◌, ◌≡◌, ◌≢◌, refl, arith,
}
use rticonnextdds_ros2_adapt.Types.{invalid_handle}
use rticonnextdds_ros2_adapt.Handles.{candidate, counter, next_handle_loop, next_handle}

-- The handles that are given out: 0 to INT_MAX.
abbrev pub IsHandle : ℤ → Type 0
IsHandle (pos n) = n ≤ int_max
IsHandle (negsuc n) = ⊥

candidate-IsHandle : (next : ℤ) → IsInt32 next → IsHandle (candidate next)
candidate-IsHandle (pos n) h = h
candidate-IsHandle (negsuc n) h = omega arith

counter-IsInt32 : (next : ℤ) → IsInt32 next → IsInt32 (counter next)
counter-IsInt32 (pos n) h = inc32-IsInt32 (pos n) h
counter-IsInt32 (negsuc n) h = omega arith

pub IsHandle-ne-invalid : (h : ℤ) → IsHandle h → h ≢ invalid_handle
IsHandle-ne-invalid (pos n) h e = cc
IsHandle-ne-invalid (negsuc n) h e = absurd h

-- One round, on a candidate that is in use and on one that is not.
pub loop_taken :
    (used : ℤ → Bool) (tries : ℕ) (next : ℤ)
    → used (candidate next) ≡ true
    → next_handle_loop used (suc tries) next ≡ next_handle_loop used tries (counter next)
unfolding next_handle_loop
loop_taken used tries next h = rw (h, next_handle_loop)

pub loop_free :
    (used : ℤ → Bool) (tries : ℕ) (next : ℤ)
    → used (candidate next) ≡ false
    → next_handle_loop used (suc tries) next ≡ (candidate next, counter next)
unfolding next_handle_loop
loop_free used tries next h = rw (h, next_handle_loop)

loop_fresh :
    (used : ℤ → Bool) (tries : ℕ) (next : ℤ)
    → IsInt32 next
    → ((next_handle_loop used tries next).0 ≡ invalid_handle)
      ⊎ ((used (next_handle_loop used tries next).0 ≡ false)
          × IsHandle (next_handle_loop used tries next).0)
unfolding next_handle_loop
loop_fresh used zero next h = inl refl
loop_fresh used (suc tries) next h = elim (Bool-cases (used (candidate next))) [
  | inl taken ↦
      rw (loop_taken used tries next taken)
        (loop_fresh used tries (counter next) (counter-IsInt32 next h))
  | inr free ↦ rw (loop_free used tries next free) (inr (free, candidate-IsHandle next h))
]

loop-IsInt32 :
    (used : ℤ → Bool) (tries : ℕ) (next : ℤ)
    → IsInt32 next
    → IsInt32 (next_handle_loop used tries next).1
unfolding next_handle_loop
loop-IsInt32 used zero next h = h
loop-IsInt32 used (suc tries) next h = elim (Bool-cases (used (candidate next))) [
  | inl taken ↦
      rw (loop_taken used tries next taken)
        (loop-IsInt32 used tries (counter next) (counter-IsInt32 next h))
  | inr free ↦ rw (loop_free used tries next free) (counter-IsInt32 next h)
]

-- From any 32-bit counter the search answers INVALID, or a handle from 0 to INT_MAX that is not in use.
pub next_handle_fresh :
    (used : ℤ → Bool) (next : ℤ)
    → IsInt32 next
    → ((next_handle used next).0 ≡ invalid_handle)
      ⊎ ((used (next_handle used next).0 ≡ false) × IsHandle (next_handle used next).0)
unfolding next_handle
next_handle_fresh used next h = loop_fresh used int_max next h

-- The counter stays a 32-bit integer.
pub next_handle-IsInt32 :
    (used : ℤ → Bool) (next : ℤ) → IsInt32 next → IsInt32 (next_handle used next).1
unfolding next_handle
next_handle-IsInt32 used next h = loop-IsInt32 used int_max next h
