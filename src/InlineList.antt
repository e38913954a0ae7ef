-- ===== src/InlineList.antt =====
-- The inline lists of nodes and of endpoints (REDAInlineList), front first. An entry is known by
-- its handle: what the source does through a pointer to an entry is done here to the first entry
-- with the same handle, which is that entry as long as handles are distinct (`Unique`).
use rticonnextdds_ros2_adapt.Common.{
  suc, ℤ, eq_ℤ, eq_ℤ_iff, Bool, true, is_some, if◌then◌else◌, length, All, Option, none, some, List,
  [], ◌∷◌, ◌++◌, ◌≡◌, ◌≢◌, refl, subst, arith, Bool-cases, inl, inr,
}

-- A loop from the front that returns the first entry that passes a test, or NULL.
unfoldable pub find : {A : Type 0} → (A → Bool) → List A → Option A
find test [] = none
find test (x ∷ xs) = if test x then some x else find test xs

pub find_sound :
    {A : Type 0} (test : A → Bool) (xs : List A) {x : A} → find test xs ≡ some x → test x ≡ true
unfolding find
find_sound test [] h = cc
find_sound test (y ∷ xs) {x} h = ground (arith, find_sound test xs {x = x})

pub find-append_none :
    {A : Type 0} (test : A → Bool) (xs : List A) (y : A)
    → find test xs ≡ none
    → find test (xs ++ y ∷ []) ≡ (if test y then some y else none)
unfolding find
find-append_none test [] y h = refl
find-append_none test (x ∷ xs) y h = ground (arith, find-append_none test xs y)

pub find-append_some :
    {A : Type 0} (test : A → Bool) (xs : List A) (y x : A)
    → find test xs ≡ some x
    → find test (xs ++ y ∷ []) ≡ some x
unfolding find
find-append_some test [] y x h = cc
find-append_some test (z ∷ xs) y x h = ground (arith, find-append_some test xs y x)

pub All-found :
    {A : Type 0} (P : A → Type 0) (test : A → Bool) (xs : List A) {x : A}
    → All P xs
    → find test xs ≡ some x
    → P x
unfolding find
All-found P test [] h e = absurd (cc)
All-found P test (y ∷ xs) {x} h e = elim (Bool-cases (test y)) [
  | inl t ↦ subst P (ground arith) h.0
  | inr t ↦ All-found P test xs h.1 (ground arith)
]

module _ {A : Type 0} (key : A → ℤ) where
  -- The entry with a handle.
  unfoldable pub find_key : ℤ → List A → Option A
  find_key k [] = none
  find_key k (x ∷ xs) = if eq_ℤ (key x) k then some x else find_key k xs

  -- A write through a pointer to the entry with the handle of `y`.
  unfoldable pub replace : A → List A → List A
  replace y [] = []
  replace y (x ∷ xs) = if eq_ℤ (key x) (key y) then y ∷ xs else x ∷ replace y xs

  -- REDAInlineList_removeNodeEA on the entry with a handle.
  unfoldable pub remove : ℤ → List A → List A
  remove k [] = []
  remove k (x ∷ xs) = if eq_ℤ (key x) k then xs else x ∷ remove k xs

  -- No entry has the handle.
  abbrev pub Fresh : ℤ → List A → Type 0
  Fresh k xs = All (λ x. key x ≢ k) xs

  abbrev pub Unique : List A → Type 0
  Unique [] = Unit {0}
  Unique (x ∷ xs) = Fresh (key x) xs × Unique xs

  pub find_key-key : (k : ℤ) (xs : List A) {x : A} → find_key k xs ≡ some x → key x ≡ k
  unfolding find_key
  find_key-key k [] h = cc
  find_key-key k (y ∷ xs) {x} h = ground (arith, find_key-key k xs {x = x}, eq_ℤ_iff (key y) k)

  pub Fresh-of_find : (k : ℤ) (xs : List A) → find_key k xs ≡ none → Fresh k xs
  unfolding find_key
  Fresh-of_find k [] h = tt
  Fresh-of_find k (x ∷ xs) h = ground (arith, Fresh-of_find k xs, eq_ℤ_iff (key x) k)

  pub find_of_Fresh : (k : ℤ) (xs : List A) → Fresh k xs → find_key k xs ≡ none
  unfolding find_key
  find_of_Fresh k [] h = refl
  find_of_Fresh k (x ∷ xs) h = ground (arith, find_of_Fresh k xs h.1, eq_ℤ_iff (key x) k)

  pub Fresh-append : (k : ℤ) (xs : List A) (y : A) → Fresh k xs → key y ≢ k → Fresh k (xs ++ y ∷ [])
  Fresh-append k [] y h n = (n, tt)
  Fresh-append k (x ∷ xs) y h n = (h.0, Fresh-append k xs y h.1 n)

  pub Unique-append : (xs : List A) (y : A) → Unique xs → Fresh (key y) xs → Unique (xs ++ y ∷ [])
  Unique-append [] y u f = (tt, tt)
  Unique-append (x ∷ xs) y u f =
      (Fresh-append (key x) xs y u.0 (λ e. f.0 (cc)), Unique-append xs y u.1 f.1)

  pub Fresh-replace : (k : ℤ) (y : A) (xs : List A) → Fresh k xs → Fresh k (replace y xs)
  unfolding replace
  Fresh-replace k y [] f = tt
  Fresh-replace k y (x ∷ xs) f = ground (arith, Fresh-replace k y xs, eq_ℤ_iff (key x) (key y))

  pub Unique-replace : (y : A) (xs : List A) → Unique xs → Unique (replace y xs)
  unfolding replace
  Unique-replace y [] u = tt
  Unique-replace y (x ∷ xs) u =
      ground
        (arith, Fresh-replace (key x) y xs u.0, Unique-replace y xs u.1, eq_ℤ_iff (key x) (key y))

  pub Fresh-remove : (k j : ℤ) (xs : List A) → Fresh k xs → Fresh k (remove j xs)
  unfolding remove
  Fresh-remove k j [] f = tt
  Fresh-remove k j (x ∷ xs) f = ground (arith, Fresh-remove k j xs)

  pub Unique-remove : (k : ℤ) (xs : List A) → Unique xs → Unique (remove k xs)
  unfolding remove
  Unique-remove k [] u = tt
  Unique-remove k (x ∷ xs) u = ground (arith, Fresh-remove (key x) k xs u.0, Unique-remove k xs u.1)

  pub length-remove :
      (k : ℤ) (xs : List A) {x : A}
      → find_key k xs ≡ some x
      → suc (length (remove k xs)) ≡ length xs
  unfolding find_key remove
  length-remove k [] h = cc
  length-remove k (y ∷ xs) {x} h = ground (arith, length-remove k xs {x = x})

  pub length-replace : (y : A) (xs : List A) → length (replace y xs) ≡ length xs
  unfolding replace
  length-replace y [] = refl
  length-replace y (x ∷ xs) = ground (arith, length-replace y xs)

  -- What is found after a write, a removal or an insertion.
  pub find_key-replace :
      (k : ℤ) (y : A) (xs : List A) {x : A}
      → find_key (key y) xs ≡ some x
      → find_key k (replace y xs) ≡ (if eq_ℤ (key y) k then some y else find_key k xs)
  unfolding find_key replace
  find_key-replace k y [] h = cc
  find_key-replace k y (z ∷ xs) {x} h =
      ground (arith, find_key-replace k y xs {x = x}, eq_ℤ_iff (key z) (key y), eq_ℤ_iff (key y) k)

  pub find_key-append :
      (k : ℤ) (xs : List A) (y : A)
      → Fresh (key y) xs
      → find_key k (xs ++ y ∷ []) ≡ (if eq_ℤ (key y) k then some y else find_key k xs)
  unfolding find_key
  find_key-append k [] y f = refl
  find_key-append k (x ∷ xs) y f =
      ground (arith, find_key-append k xs y f.1, eq_ℤ_iff (key x) k, eq_ℤ_iff (key y) k)

  pub find_key-remove :
      (k j : ℤ) (xs : List A)
      → Unique xs
      → find_key k (remove j xs) ≡ (if eq_ℤ j k then none else find_key k xs)
  unfolding find_key remove
  find_key-remove k j [] u = ground arith
  find_key-remove k j (x ∷ xs) u = ground (
    arith,
    find_key-remove k j xs u.1,
    find_of_Fresh (key x) xs u.0,
    eq_ℤ_iff (key x) k,
    eq_ℤ_iff (key x) j,
    eq_ℤ_iff j k,
  )

  module _ (P : A → Type 0) where
    pub All-replace : (y : A) (xs : List A) → P y → All P xs → All P (replace y xs)
    unfolding replace
    All-replace y [] py h = tt
    All-replace y (x ∷ xs) py h = elim (Bool-cases (eq_ℤ (key x) (key y))) [
      | inl e ↦ rw e (py, h.1)
      | inr e ↦ rw e (h.0, All-replace y xs py h.1)
    ]

    pub All-remove : (k : ℤ) (xs : List A) → All P xs → All P (remove k xs)
    unfolding remove
    All-remove k [] h = tt
    All-remove k (x ∷ xs) h = elim (Bool-cases (eq_ℤ (key x) k)) [
      | inl e ↦ rw e h.1
      | inr e ↦ rw e (h.0, All-remove k xs h.1)
    ]

    pub All-find : (k : ℤ) (xs : List A) {x : A} → All P xs → find_key k xs ≡ some x → P x
    unfolding find_key
    All-find k [] h e = absurd (cc)
    All-find k (y ∷ xs) {x} h e = elim (Bool-cases (eq_ℤ (key y) k)) [
      | inl t ↦ subst P (ground arith) h.0
      | inr t ↦ All-find k xs h.1 (ground arith)
    ]

  -- What a loop finds is in the list, so its handle is found too.
  pub find-listed :
      (test : A → Bool) (xs : List A) {x : A} → find test xs ≡ some x → find_key (key x) xs ≢ none
  unfolding find find_key
  find-listed test [] h e = cc
  find-listed test (y ∷ xs) {x} h e =
      ground (arith, find-listed test xs {x = x}, eq_ℤ_iff (key y) (key x))

  pub replace-listed :
      (k : ℤ) (y : A) (xs : List A) → find_key k xs ≢ none → find_key k (replace y xs) ≢ none
  unfolding find_key replace
  replace-listed k y [] h = h
  replace-listed k y (x ∷ xs) h = ground (
    arith,
    replace-listed k y xs,
    eq_ℤ_iff (key x) (key y),
    eq_ℤ_iff (key y) k,
    eq_ℤ_iff (key x) k,
  )

  pub append-listed :
      (k : ℤ) (xs : List A) (y : A) → find_key k xs ≢ none → find_key k (xs ++ y ∷ []) ≢ none
  unfolding find_key
  append-listed k [] y h = absurd (h refl)
  append-listed k (x ∷ xs) y h = ground (arith, append-listed k xs y)

  pub remove-replace :
      (k : ℤ) (y : A) (xs : List A) → key y ≡ k → remove k (replace y xs) ≡ remove k xs
  unfolding remove replace
  remove-replace k y [] h = refl
  remove-replace k y (x ∷ xs) h = ground (
    arith,
    remove-replace k y xs,
    eq_ℤ_iff (key x) (key y),
    eq_ℤ_iff (key y) k,
    eq_ℤ_iff (key x) k,
  )

  pub remove-append-Fresh :
      (k : ℤ) (xs : List A) (y : A) → Fresh k xs → key y ≡ k → remove k (xs ++ y ∷ []) ≡ xs
  unfolding remove
  remove-append-Fresh k [] y f h = ground (arith, eq_ℤ_iff (key y) k)
  remove-append-Fresh k (x ∷ xs) y f h =
      ground (arith, remove-append-Fresh k xs y f.1, eq_ℤ_iff (key x) k)

  -- An entry that passes a test is a reason for the loop to stop.
  pub find-passing :
      (test : A → Bool) (k : ℤ) (xs : List A) {x : A}
      → find_key k xs ≡ some x
      → test x ≡ true
      → is_some (find test xs) ≡ true
  unfolding find find_key
  find-passing test k [] h t = cc
  find-passing test k (y ∷ xs) {x} h t = ground (arith, find-passing test k xs {x = x})

  -- With distinct handles, what a loop finds is what its handle names.
  pub find-Unique :
      (test : A → Bool) (xs : List A) {x : A}
      → Unique xs
      → find test xs ≡ some x
      → find_key (key x) xs ≡ some x
  unfolding find find_key
  find-Unique test [] u e = cc
  find-Unique test (y ∷ xs) {x} u e = elim (Bool-cases (test y)) [
    | inl t ↦ let same : y ≡ x = ground arith in rw (same, (eq_ℤ_iff (key x) (key x)).1 refl)
    | inr t ↦
        let there = find-Unique test xs {x = x} u.1 (ground arith) in
        ground (arith, there, find_of_Fresh (key y) xs u.0, eq_ℤ_iff (key y) (key x))
  ]
