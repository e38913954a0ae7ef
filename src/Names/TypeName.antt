-- ===== src/Names/TypeName.antt =====
-- The type names that RTIROS2_Graph_make_dds_topic_and_type_names writes: which ROS 2 type names it
-- accepts, and what it makes of them.
use native.Mathlib.Nat.{add-suc, add-zero}
use rticonnextdds_ros2_adapt.Common.{
  ℕ, zero, suc, ◌+◌, ◌-◌, ◌≤◌, ◌<◌, CString, codes, memcpy, memcpy_next, length, length-append,
  length-take, take, drop, take-append, get_or, All, ltb, if◌then◌else◌, Bool-cases, inl, inr, some,
  List, [], ◌∷◌, ◌++◌, append_assoc, ok, out_of_resources, arith, ◌≡◌, ◌≢◌, refl, ap, sym, ◌∙◌,
}
use rticonnextdds_ros2_adapt.Names.{
  NameOut, type_namespace, scan_back, type_stem_len, copy_type_name, write_type_name,
}
use rticonnextdds_ros2_adapt.Names.Topic.{room_for}

-- A text with no ':' in it.
abbrev pub NoColon : CString → Type 0
NoColon s = All (λ c. c ≢ b':') s

get_or-append : (xs ys : List ℕ) (i d : ℕ) → get_or (xs ++ ys) (length xs + i) d ≡ get_or ys i d
get_or-append [] ys i d = ap (λ k. get_or ys k d) (omega arith)
get_or-append (x ∷ xs) ys i d =
    let e : length (x ∷ xs) + i ≡ suc (length xs + i) = omega arith in
    rw e (get_or-append xs ys i d)

get_or-NoColon : (s : CString) (i : ℕ) → NoColon s → get_or s i 0 ≢ b':'
get_or-NoColon [] i h = λ e. omega arith
get_or-NoColon (c ∷ s) zero h = h.0
get_or-NoColon (c ∷ s) (suc i) h = get_or-NoColon s i h.1

-- From the end of `pre ++ ":" ++ name` the loop stops at the ':' behind `pre`.
scan_back-colon :
    (pre name : CString) (k : ℕ)
    → NoColon name
    → scan_back (pre ++ b':' ∷ name) (length pre + k) ≡ length pre
unfolding scan_back
scan_back-colon [] name zero h = refl
scan_back-colon (c ∷ pre) name zero h =
    let here : get_or (pre ++ b':' ∷ name) (length pre) 0 ≡ b':' =
      rw (← add-zero (length pre)) (get_or-append pre (b':' ∷ name) 0 0) in
    rw add-zero (ground arith)
scan_back-colon pre name (suc k) h =
    let there : get_or (pre ++ b':' ∷ name) (suc (length pre + k)) 0 ≢ b':' =
      rw (← add-suc (length pre) k, get_or-append pre (b':' ∷ name) (suc k) 0)
        (get_or-NoColon name k h) in
    rw (add-suc (length pre) k) (ground (arith, scan_back-colon pre name k h))

-- The two bytes "::" between a stem and a base name without ':' are found.
pub type_stem_len-stem :
    (stem name : CString)
    → NoColon name
    → type_stem_len (stem ++ (codes "::" ++ name)) ≡ some (length stem)
unfolding type_stem_len
type_stem_len-stem stem name h =
    let pre = stem ++ b':' ∷ [] in
    let e : stem ++ (codes "::" ++ name) ≡ pre ++ b':' ∷ name =
      sym (append_assoc stem (b':' ∷ []) (b':' ∷ name)) in
    let n : length pre ≡ suc (length stem) = omega (arith, length-append stem (b':' ∷ [])) in
    let found : scan_back (pre ++ b':' ∷ name) (length (pre ++ b':' ∷ name)) ≡ length pre =
      rw (length-append pre (b':' ∷ name)) (scan_back-colon pre name (suc (length name)) h) in
    let second : get_or (pre ++ b':' ∷ name) (length pre) 0 ≡ b':' =
      rw (← add-zero (length pre)) (get_or-append pre (b':' ∷ name) 0 0) in
    let first : get_or (pre ++ b':' ∷ name) (length stem) 0 ≡ b':' =
      rw (← e, ← add-zero (length stem)) (get_or-append stem (codes "::" ++ name) 0 0) in
    let before : suc (length stem) - 1 ≡ length stem = omega arith in
    let second' : get_or (pre ++ b':' ∷ name) (suc (length stem)) 0 ≡ b':' = rw n at second in
    rw (e, found, n, before) (ground arith)

get_or-lt : (s : List ℕ) (i : ℕ) → get_or s i 0 ≢ 0 → i < length s
get_or-lt [] i h = absurd (h refl)
get_or-lt (c ∷ s) zero h = omega arith
get_or-lt (c ∷ s) (suc i) h = omega (arith, get_or-lt s i h)

-- Where a stem is found it is followed by "::", inside the text.
pub type_stem_len_sound :
    (s : CString) (k : ℕ)
    → type_stem_len s ≡ some k
    → (get_or s k 0 ≡ b':') × (get_or s (k + 1) 0 ≡ b':') × (k + 2 ≤ length s)
unfolding type_stem_len
type_stem_len_sound s k h =
    let last = scan_back s (length s) in
    let at : last ≡ k + 1 = ground arith in
    let second : get_or s (k + 1) 0 ≡ b':' = rw (← at) (ground arith) in
    let before : last - 1 ≡ k = omega arith in
    let first : get_or s k 0 ≡ b':' = rw (← before) (ground arith) in
    (first, second, omega (arith, get_or-lt s (k + 1) (λ e. omega arith)))

-- The bytes that the code copies into the buffer of the type name, given the stem.
abbrev pub written : CString → CString → CString
written stem type_suffix = stem ++ (type_namespace ++ (codes "::" ++ type_suffix))

-- With the room that the code asks for, the copies stay inside the buffer.
pub copy_type_name_ok :
    (buf : List ℕ) (s type_suffix : CString) (k : ℕ)
    → k ≤ length s
    → k + length type_suffix + 6 ≤ length buf
    → copy_type_name buf s k type_suffix
      ≡ some (written (take k s) type_suffix ++ drop (length (written (take k s) type_suffix)) buf)
unfolding copy_type_name
copy_type_name_ok buf s type_suffix k h room =
    let stem = take k s in
    let n : k ≡ length stem = omega (arith, length-take k s) in
    let part2 = stem ++ type_namespace in
    let part3 = part2 ++ codes "::" in
    let n2 : k + 4 ≡ length part2 = omega (arith, length-append stem type_namespace) in
    let n3 : length part2 + 2 ≡ length part3 = omega (arith, length-append part2 (codes "::")) in
    let same : part3 ++ type_suffix ≡ written stem type_suffix =
      append_assoc part2 (codes "::") type_suffix
      ∙ append_assoc stem type_namespace (codes "::" ++ type_suffix) in
    rw (
      memcpy_next buf [] stem (omega arith),
      ap (λ j. memcpy (stem ++ drop (length stem) buf) j type_namespace) n,
      memcpy_next buf stem type_namespace (omega arith),
      n2,
      memcpy_next buf part2 (codes "::") (omega arith),
      n3,
      memcpy_next buf part3 type_suffix (omega arith),
      same,
    )

-- What becomes of a ROS 2 type name `stem::name`, on every branch: a NULL buffer is a query, a
-- small one is refused, and a large one receives the stem, "dds_::" and the suffix.
pub write_type_name_stem :
    (stem name type_suffix buf : CString) (len : ℕ)
    → NoColon name
    → len ≤ length buf
    → let size = length (stem ++ (codes "::" ++ name)) + 4 + length type_suffix + 2 + 1 in
      write_type_name (stem ++ (codes "::" ++ name)) type_suffix (room_for buf len) ≡ (
        if ltb len size
        then some (out_of_resources, room_for buf len)
        else some (
          ok,
          record {
            buffer =
                some (written stem type_suffix ++ drop (length (written stem type_suffix)) buf);
            len = size;
          },
        ))
unfolding write_type_name
write_type_name_stem stem name type_suffix buf len h room =
    let s = stem ++ (codes "::" ++ name) in
    let size = length s + 4 + length type_suffix + 2 + 1 in
    let k : length stem ≤ length s = omega (arith, length-append stem (codes "::" ++ name)) in
    elim (Bool-cases (ltb len size)) [
      | inl small ↦ rw small
      | inr large ↦
          let fits : size ≤ len = ground arith in
          rw (
            large,
            type_stem_len-stem stem name h,
            copy_type_name_ok buf s type_suffix (length stem) k
                (omega (arith, length-append stem (codes "::" ++ name))),
            take-append stem (codes "::" ++ name),
          )
    ]

append_head : (s xs ys : List ℕ) {a b : ℕ} → s ++ a ∷ xs ≡ s ++ b ∷ ys → a ≡ b
append_head [] xs ys h = cc
append_head (c ∷ s) xs ys h = append_head s xs ys (cc)

-- The name that ROS 2 gives to the DDS type: the namespace "dds_" goes before the base name.
abbrev pub conventional : CString → CString → CString → CString
conventional stem name type_suffix =
    stem ++ (codes "::" ++ (type_namespace ++ (codes "::" ++ (name ++ type_suffix))))

-- Where a type name `stem::name`, with no ':' in `name`, is written with OK into a buffer as large as
-- its caller says, the buffer never starts with the name that ROS 2 gives to the DDS type.
pub write_type_name_not_conventional :
    (stem name type_suffix buf : CString) (len : ℕ) {out : NameOut}
    → NoColon name
    → len ≤ length buf
    → write_type_name (stem ++ (codes "::" ++ name)) type_suffix (room_for buf len) ≡ some (ok, out)
    → (rest : List ℕ) → out.buffer ≢ some (conventional stem name type_suffix ++ rest)
write_type_name_not_conventional stem name type_suffix buf len {out} h room r rest e =
    let tail = drop (length (written stem type_suffix)) buf in
    let same : written stem type_suffix ++ tail ≡ conventional stem name type_suffix ++ rest =
      ground (arith, write_type_name_stem stem name type_suffix buf len h room) in
    let behind : stem ++ ((type_namespace ++ (codes "::" ++ type_suffix)) ++ tail)
        ≡ stem
          ++ ((codes "::" ++ (type_namespace ++ (codes "::" ++ (name ++ type_suffix)))) ++ rest) =
      sym (append_assoc stem (type_namespace ++ (codes "::" ++ type_suffix)) tail)
      ∙ same
      ∙ append_assoc stem _ rest in
    let first : ◌≡◌ {A = ℕ} b'd' b':' = append_head stem _ _ behind in omega arith
