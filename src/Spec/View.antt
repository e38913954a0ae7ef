-- ===== src/Spec/View.antt =====
-- The map that a list of entries with distinct handles stands for, after an insertion, a removal and
-- a write.
use rticonnextdds_ros2_adapt.Common.{
  ℤ, eq_ℤ, Bool-cases, none, some, List, [], ◌∷◌, ◌++◌, inl, inr, ◌≡◌,
}
use rticonnextdds_ros2_adapt.InlineList.{
  find_key, replace, remove, Fresh, Unique, find_key-append, find_key-remove, find_key-replace,
}
use rticonnextdds_ros2_adapt.Spec.{update, view}
use mathlib.Core.Path.{fun_ext}

module _ {A B : Type 0} (key : A → ℤ) (f : A → B) where
  pub view-append :
      (xs : List A) (y : A)
      → Fresh key (key y) xs
      → view key f (xs ++ y ∷ []) ≡ update (view key f xs) (key y) (some (f y))
  view-append xs y fresh = fun_ext λ j. elim (Bool-cases (eq_ℤ (key y) j)) [
    | inl e ↦ rw (find_key-append key j xs y fresh, e)
    | inr e ↦ rw (find_key-append key j xs y fresh, e)
  ]

  pub view-remove :
      (k : ℤ) (xs : List A)
      → Unique key xs
      → view key f (remove key k xs) ≡ update (view key f xs) k none
  view-remove k xs u = fun_ext λ j. elim (Bool-cases (eq_ℤ k j)) [
    | inl e ↦ rw (find_key-remove key j k xs u, e)
    | inr e ↦ rw (find_key-remove key j k xs u, e)
  ]

  pub view-replace :
      (y : A) (xs : List A) {x : A}
      → find_key key (key y) xs ≡ some x
      → view key f (replace key y xs) ≡ update (view key f xs) (key y) (some (f y))
  view-replace y xs there = fun_ext λ j. elim (Bool-cases (eq_ℤ (key y) j)) [
    | inl e ↦ rw (find_key-replace key j y xs there, e)
    | inr e ↦ rw (find_key-replace key j y xs there, e)
  ]
