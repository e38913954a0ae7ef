-- ===== src/Publish/Gather.antt =====
-- The participants that RTIROS2_Graph_gather_domain_participants collects from the nodes.
use rticonnextdds_ros2_adapt.Common.{
  ◌+◌, ◌<◌, ◌≤◌, pos, int_max, inc32-pos, length-append, ==_iff, ◌≡◌, refl, length, Bool-cases,
  true, false, ◌||◌, if◌then◌else◌, none, some, List, [], ◌∷◌, ◌++◌, map, inl, inr, arith, ok,
}
use rticonnextdds_ros2_adapt.Types.{Ptr, ptr_eq, Node, Graph}
use rticonnextdds_ros2_adapt.Publish.{
  Entities, put_at, contains, append_participant, gather_nodes, gather_domain_participants,
}
use rticonnextdds_ros2_adapt.Publish.Sample.{put-append}

-- The sequence can be emptied, and can grow by one element behind those it has, up to 2^31 - 1
-- elements.
pub record CanGrow (s : Entities) : Type 0 where
  pub clears : (seq : List Ptr) → s.participants_set_length seq (pos 0) ≡ some []
  pub grows :
      (seq : List Ptr)
      → length seq < int_max
      → (p : Ptr) × (s.participants_ensure_length seq (pos (length seq + 1)) ≡ some (seq ++ p ∷ []))

-- No participant stands twice in a sequence.
abbrev pub Distinct : List Ptr → Type 0
Distinct [] = Unit {0}
Distinct (p ∷ ps) = (contains p ps ≡ false) × Distinct ps

abbrev pub participants_of : List Node → List Ptr
participants_of ns = map (λ n. n.dds_participant) ns

abbrev add : List Ptr → Ptr → List Ptr
add seq p = if contains p seq then seq else seq ++ p ∷ []

append_participant_lem :
    (s : Entities) (seq : List Ptr) (p : Ptr)
    → CanGrow s
    → length seq < int_max
    → append_participant s seq p ≡ some (ok, add seq p)
unfolding append_participant put_at
append_participant_lem s seq p c b = elim (Bool-cases (contains p seq)) [
  | inl e ↦ rw e
  | inr e ↦ let (q, g) = c.grows seq b in rw (e, inc32-pos (length seq) b, g, put-append seq q p)
]

length-add_le : (seq : List Ptr) (p : Ptr) → length (add seq p) ≤ length seq + 1
length-add_le seq p = elim (Bool-cases (contains p seq)) [
  | inl e ↦ rw e (omega arith)
  | inr e ↦ rw e (omega (arith, length-append seq (p ∷ [])))
]

ptr_eq_sym : (p q : Ptr) → ptr_eq p q ≡ ptr_eq q p
ptr_eq_sym none none = refl
ptr_eq_sym none (some b) = refl
ptr_eq_sym (some a) none = refl
ptr_eq_sym (some a) (some b) = ground arith

contains-append :
    (q p : Ptr) (seq : List Ptr) → contains q (seq ++ p ∷ []) ≡ (contains q seq || ptr_eq q p)
unfolding contains
contains-append q p [] = ground arith
contains-append q p (x ∷ seq) = ground (arith, contains-append q p seq)

append-Distinct :
    (seq : List Ptr) (p : Ptr) → contains p seq ≡ false → Distinct seq → Distinct (seq ++ p ∷ [])
unfolding contains
append-Distinct [] p h d = (refl, tt)
append-Distinct (x ∷ seq) p h d = (
  ground (arith, contains-append x p seq, ptr_eq_sym x p, d.0),
  append-Distinct seq p (ground arith) d.1,
)

ptr_eq_trans_lem :
    (q p : Ptr) (seq : List Ptr) → ptr_eq q p ≡ true → contains p seq ≡ true → contains q seq ≡ true
unfolding contains
ptr_eq_trans_lem none none seq e h = h
ptr_eq_trans_lem none (some b) seq e h = cc
ptr_eq_trans_lem (some a) none seq e h = cc
ptr_eq_trans_lem (some a) (some b) seq e h = let same : a ≡ b = (==_iff a b).0 e in rw same h

contains-add :
    (q p : Ptr) (seq : List Ptr) → contains q (add seq p) ≡ (contains q seq || ptr_eq q p)
contains-add q p seq = elim (Bool-cases (contains p seq)) [
  | inl e ↦ rw e (ground (arith, ptr_eq_trans_lem q p seq))
  | inr e ↦ rw e (contains-append q p seq)
]

add-Distinct : (seq : List Ptr) (p : Ptr) → Distinct seq → Distinct (add seq p)
add-Distinct seq p d = elim (Bool-cases (contains p seq)) [
  | inl e ↦ rw e d
  | inr e ↦ rw e (append-Distinct seq p e d)
]

gather_nodes_lem :
    (s : Entities) (ns : List Node) (seq : List Ptr)
    → CanGrow s
    → length seq + length ns ≤ int_max
    → Distinct seq
    → (ps : List Ptr) × (gather_nodes s ns seq ≡ some (ok, ps))
      × Distinct ps
      × ((p : Ptr) → contains p ps ≡ (contains p seq || contains p (participants_of ns)))
unfolding gather_nodes contains
gather_nodes_lem s [] seq c b d = (seq, refl, d, λ p. ground arith)
gather_nodes_lem s (n ∷ ns) seq c b d =
    let p = n.dds_participant in
    let (ps, e, d', t) =
      gather_nodes_lem s ns (add seq p) c (omega (arith, length-add_le seq p))
        (add-Distinct seq p d) in
    (
      ps,
      rw (append_participant_lem s seq p c (omega arith)) e,
      d',
      λ q. ground (arith, t q, contains-add q p seq),
    )

-- Where the sequence can be emptied and can grow, and there are at most 2^31 - 1 nodes, the participants gathered from a graph are distinct,
-- and are those of its nodes, whatever the sequence had before.
pub gather_domain_participants_lem :
    (s : Entities) (g : Graph) (seq : List Ptr)
    → CanGrow s
    → length g.nodes ≤ int_max
    → (ps : List Ptr) × (gather_domain_participants s g seq ≡ some (ok, ps))
      × Distinct ps
      × ((p : Ptr) → contains p ps ≡ contains p (participants_of g.nodes))
unfolding gather_domain_participants contains
gather_domain_participants_lem s g seq c b =
    let (ps, e, d, t) = gather_nodes_lem s g.nodes [] c (omega arith) tt in
    (ps, rw (gather_domain_participants, c.clears seq) e, d, t)
