-- ===== src/Update/Told.antt =====
-- What stands in the samples of an update.
use mathlib.Core.List.{Memᴰ}
use rticonnextdds_ros2_adapt.Common.{
  ℕ, ◌+◌, ℤ, eq_ℤ, ==_iff, Bool, Bool-cases, true, none, some, List, [], ◌∷◌, inl, inr, ◌≡◌, refl,
  sym, subst, ap, arith,
}
use rticonnextdds_ros2_adapt.Types.{Ptr, ptr_eq, Endpoint, Node, Graph}
use rticonnextdds_ros2_adapt.InlineList.{find_key}
use rticonnextdds_ros2_adapt.Lookup.{endp_key, node_key}
use rticonnextdds_ros2_adapt.Inspect.{side}
use rticonnextdds_ros2_adapt.Publish.{Gid, Entities, contains}
use rticonnextdds_ros2_adapt.Publish.Convert.{info_of, infos}
use rticonnextdds_ros2_adapt.Publish.Gather.{participants_of}
use rticonnextdds_ros2_adapt.Publish.Sample.{gid_of, add_gid, gids}
use rticonnextdds_ros2_adapt.Update.Sent.{sample_of, samples_of}

pub ptr_eq_refl : (p : Ptr) → ptr_eq p p ≡ true
ptr_eq_refl none = refl
ptr_eq_refl (some a) = ground arith

pub eq_of_ptr_eq : (p q : Ptr) → ptr_eq p q ≡ true → p ≡ q
eq_of_ptr_eq none none h = refl
eq_of_ptr_eq none (some b) h = absurd (cc h)
eq_of_ptr_eq (some a) none h = absurd (cc h)
eq_of_ptr_eq (some a) (some b) h = ap some ((==_iff a b).0 h)

add_gid_later :
    (s : Entities) (b : Bool) (p : Ptr) (gid : Gid) (rest : List Gid)
    → Memᴰ gid rest
    → Memᴰ gid (add_gid s b p rest)
add_gid_later s b none gid rest m = m
add_gid_later s b (some p) gid rest m = Memᴰ.tail m

-- The gid of an entity of an endpoint.
pub gids-listed :
    (s : Entities) (b : Bool) (k : ℤ) (es : List Endpoint) (p : ℕ) {e : Endpoint}
    → find_key endp_key k es ≡ some e
    → side b e ≡ some p
    → Memᴰ (gid_of s b p) (gids s b es)
unfolding gids find_key
gids-listed s b k [] p {e} found h = absurd (cc found)
gids-listed s b k (x ∷ es) p {e} found h = elim (Bool-cases (eq_ℤ x.handle k)) [
  | inl here ↦
      let same : x ≡ e = ground arith in
      let h' = subst (λ y. side b y ≡ some p) (sym same) h in rw h' (Memᴰ.head refl)
  | inr off ↦ add_gid_later s b (side b x) _ _ (gids-listed s b k es p {e = e} (ground arith) h)
]

-- The entry of a node in the sample of its participant.
pub infos-listed :
    (s : Entities) (p : Ptr) (h : ℤ) (ns : List Node) {n : Node}
    → ptr_eq p n.dds_participant ≡ true
    → find_key node_key h ns ≡ some n
    → Memᴰ (info_of s n) (infos s p ns)
unfolding find_key infos
infos-listed s p h [] {n} own found = absurd (cc found)
infos-listed s p h (m ∷ ns) {n} own found = elim (Bool-cases (eq_ℤ m.handle h)) [
  | inl here ↦
      let same : m ≡ n = ground arith in
      let own' = subst (λ x. ptr_eq p x.dds_participant ≡ true) (sym same) own in
      subst (λ x. Memᴰ (info_of s x) (infos s p (m ∷ ns))) same (rw own' (Memᴰ.head refl))
  | inr off ↦
      let later = infos-listed s p h ns {n = n} own (ground arith) in
      elim (Bool-cases (ptr_eq p m.dds_participant)) [
        | inl mine ↦ rw mine (Memᴰ.tail later)
        | inr other ↦ rw other later
      ]
]

-- The participant of a node is one of those gathered.
pub participant-gathered :
    (p : Ptr) (h : ℤ) (ns : List Node) {n : Node}
    → ptr_eq p n.dds_participant ≡ true
    → find_key node_key h ns ≡ some n
    → contains p (participants_of ns) ≡ true
unfolding find_key contains
participant-gathered p h [] {n} own found = absurd (cc found)
participant-gathered p h (m ∷ ns) {n} own found = elim (Bool-cases (eq_ℤ m.handle h)) [
  | inl here ↦
      let same : m ≡ n = ground arith in
      let own' = subst (λ x. ptr_eq p x.dds_participant ≡ true) (sym same) own in rw own'
  | inr off ↦
      let later = participant-gathered p h ns {n = n} own (ground arith) in
      elim (Bool-cases (ptr_eq p m.dds_participant)) [
        | inl mine ↦ rw mine
        | inr other ↦ rw other later
      ]
]

-- The sample of a participant is written.
pub samples_of-listed :
    (s : Entities) (g : Graph) (ps : List Ptr) (i : ℕ) (p : Ptr)
    → contains p ps ≡ true
    → Memᴰ (sample_of s g p) (samples_of s (λ _. g) ps i)
unfolding contains samples_of
samples_of-listed s g [] i p h = absurd (cc h)
samples_of-listed s g (q ∷ ps) i p h = elim (Bool-cases (ptr_eq p q)) [
  | inl here ↦ let same = eq_of_ptr_eq p q here in Memᴰ.head (ap (sample_of s g) same)
  | inr off ↦ Memᴰ.tail (samples_of-listed s g ps (i + 1) p (ground arith))
]
