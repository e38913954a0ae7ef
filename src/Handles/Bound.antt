-- ===== src/Handles/Bound.antt =====
-- A list with distinct valid handles is no longer than there are handles.
use rticonnextdds_ros2_adapt.Common.{
  ℕ, zero, suc, ◌≤◌, ◌<◌, ℤ, pos, negsuc, eq_ℤ, eq_ℤ_iff, int_max, length, All, Bool-cases, none,
  List, [], ◌∷◌, inl, inr, ◌≡◌, ◌≢◌, refl, arith,
}
use rticonnextdds_ros2_adapt.InlineList.{
  find_key, remove, Unique, Fresh, Fresh-of_find, find_key-remove, Unique-remove, All-remove,
}
use rticonnextdds_ros2_adapt.Handles.Fresh.{IsHandle}

abbrev InRange : ℕ → ℤ → Type 0
InRange n (pos m) = m < n
InRange n (negsuc m) = ⊥

out_of_range : (h : ℤ) → ¬ InRange 0 h
out_of_range (pos m) r = omega arith
out_of_range (negsuc m) r = r

in_range : (h : ℤ) → IsHandle h → InRange (suc int_max) h
in_range (pos m) v = omega arith
in_range (negsuc m) v = v

lower : (n : ℕ) (h : ℤ) → InRange (suc n) h → h ≢ pos n → InRange n h
lower n (pos m) r other = elim (Bool-cases (eq_ℤ (pos m) (pos n))) [
  | inl e ↦ absurd (other (ground (arith, eq_ℤ_iff (pos m) (pos n))))
  | inr e ↦ ground (arith, eq_ℤ_iff (pos m) (pos n))
]
lower n (negsuc m) r other = r

module _ {A : Type 0} (key : A → ℤ) where
  all_lower :
      (n : ℕ) (xs : List A)
      → All (λ x. InRange (suc n) (key x)) xs
      → Fresh key (pos n) xs
      → All (λ x. InRange n (key x)) xs
  all_lower n [] r f = tt
  all_lower n (x ∷ xs) r f = (lower n (key x) r.0 f.0, all_lower n xs r.1 f.1)

  length-remove_le : (k : ℤ) (xs : List A) → length xs ≤ suc (length (remove key k xs))
  unfolding remove
  length-remove_le k [] = omega arith
  length-remove_le k (x ∷ xs) = ground (arith, length-remove_le k xs)

  length-bound :
      (n : ℕ) (xs : List A) → Unique key xs → All (λ x. InRange n (key x)) xs → length xs ≤ n
  length-bound zero [] u r = omega arith
  length-bound zero (x ∷ xs) u r = absurd (out_of_range (key x) r.0)
  length-bound (suc n) xs u r =
      let gone : find_key key (pos n) (remove key (pos n) xs) ≡ none =
        rw (find_key-remove key (pos n) (pos n) xs u, (eq_ℤ_iff (pos n) (pos n)).1 refl) in
      let ys = remove key (pos n) xs in
      let less = length-bound n ys (Unique-remove key (pos n) xs u) (
        all_lower n ys (All-remove key (λ x. InRange (suc n) (key x)) (pos n) xs r)
          (Fresh-of_find key (pos n) ys gone)) in
      omega (arith, length-remove_le (pos n) xs)

  handles-InRange :
      (xs : List A) → All (λ x. IsHandle (key x)) xs → All (λ x. InRange (suc int_max) (key x)) xs
  handles-InRange [] h = tt
  handles-InRange (x ∷ xs) h = (in_range (key x) h.0, handles-InRange xs h.1)

  -- So, unless every handle is in use, its length is a `DDS_Long`.
  pub handles_bound :
      (xs : List A)
      → Unique key xs
      → All (λ x. IsHandle (key x)) xs
      → length xs ≢ suc int_max
      → length xs ≤ int_max
  handles_bound xs u h f = omega (arith, length-bound (suc int_max) xs u (handles-InRange xs h))
