-- ===== src/Publish/Sample.antt =====
-- The readers and writers that the sample of a node announces.
use rticonnextdds_ros2_adapt.Common.{
  ℕ, ℤ, pos, inc32, inc32-pos, int_max, long_of_size, long_of_size-pos, suc, ◌+◌, ◌≤◌, ◌≡◌, refl,
  ap, ◌∙◌, length, length-append, All, CString, Bool, true, false, Option-cases, none, some, List,
  [], ◌∷◌, ◌++◌, append_assoc, inl, inr, arith, ok,
}
use rticonnextdds_ros2_adapt.Types.{Ptr, Endpoint, Node}
use rticonnextdds_ros2_adapt.Invariant.Counts.{count, one, len_of, CountsOk}
use rticonnextdds_ros2_adapt.Inspect.{side}
use rticonnextdds_ros2_adapt.Publish.{
  Gid, NodeInfo, Entities, ih_to_gid, put, put_at, Filling, put_endpoint, put_endpoints, fill_gids,
  node_to_sample,
}

-- The write at the end of the part that is already filled.
pub put-append {ℓ} :
    {A : Type ℓ} (done : List A) (x v : A) (todo : List A)
    → put (done ++ x ∷ todo) (length done) v ≡ some (done ++ v ∷ todo)
unfolding put
put-append [] x v todo = refl
put-append (y ∷ done) x v todo = rw (put-append done x v todo)

put_out_of_range {ℓ} : {A : Type ℓ} (xs : List A) (v : A) → put xs (length xs) v ≡ none
unfolding put
put_out_of_range [] v = refl
put_out_of_range (x ∷ xs) v = rw (put_out_of_range xs v)

-- The gids of the readers, or of the writers, of endpoints, in order.
abbrev pub gid_of : Entities → Bool → ℕ → Gid
gid_of s true w = ih_to_gid (s.writer_ih w)
gid_of s false r = ih_to_gid (s.reader_ih r)

abbrev pub add_gid : Entities → Bool → Ptr → List Gid → List Gid
add_gid s b none gids = gids
add_gid s b (some p) gids = gid_of s b p ∷ gids

unfoldable pub gids : Entities → Bool → List Endpoint → List Gid
gids s b [] = []
gids s b (e ∷ es) = add_gid s b (side b e) (gids s b es)

-- An endpoint with a reader or a writer, and not both.
abbrev pub IsSingle : Endpoint → Type 0
IsSingle e = one e.dds_reader + one e.dds_writer ≡ 1

abbrev filling : List Gid → List Gid → List Gid → List Gid → Filling
filling dr tr dw tw = record {
  readers = dr ++ tr;
  writers = dw ++ tw;
  reader_i = pos (length dr);
  writer_i = pos (length dw);
}

-- A write at the end of the filled part takes the first place behind it.
pub put-next {ℓ} :
    {A : Type ℓ} (done todo : List A) (v : A) (n : ℕ)
    → length todo ≡ suc n
    → (rest : List A) × (put (done ++ todo) (length done) v ≡ some ((done ++ v ∷ []) ++ rest))
      × (length rest ≡ n)
      × (length done + 1 ≡ length (done ++ v ∷ []))
put-next done [] v n h = absurd (omega arith)
put-next done (x ∷ todo) v n h = (
  todo,
  rw (append_assoc done (v ∷ []) todo) (put-append done x v todo),
  omega arith,
  omega (arith, length-append done (v ∷ [])),
)

-- The same through an index that is a `DDS_Long`.
pub put_at-next {ℓ} :
    {A : Type ℓ} (done todo : List A) (v : A) (n : ℕ)
    → length todo ≡ suc n
    → length done + length todo ≤ int_max
    → (rest : List A) × (put_at (done ++ todo) (pos (length done)) v
        ≡ some ((done ++ v ∷ []) ++ rest))
      × (length rest ≡ n)
      × (inc32 (pos (length done)) ≡ pos (length (done ++ v ∷ [])))
      × (length (done ++ v ∷ []) + length rest ≤ int_max)
unfolding put_at
put_at-next done todo v n h b =
    let (rest, p, l, i) = put-next done todo v n h in
    let j = inc32-pos (length done) (omega (arith, b, h)) in
    (rest, p, l, j ∙ ap pos i, omega (arith, i, l, h, b))

-- What the loop over the endpoints leaves, given what is expected of the readers.
Filled : Entities → List Endpoint → List Gid → List Gid → Filling → Type 0
Filled s es readers dw f =
    (f' : Filling) × (put_endpoints s es f ≡ some f')
    × (f'.readers ≡ readers)
    × (f'.writers ≡ dw ++ gids s true es)

put_endpoints_single :
    (s : Entities) (es : List Endpoint) (dr tr dw tw : List Gid)
    → All IsSingle es
    → length tr ≡ count false es
    → length tw ≡ count true es
    → length dr + length tr ≤ int_max
    → length dw + length tw ≤ int_max
    → Filled s es (dr ++ gids s false es) dw (filling dr tr dw tw)
unfolding put_endpoints put_endpoint count gids Filled
put_endpoints_single s [] dr [] dw [] h lr lw br bw = (filling dr [] dw [], refl, refl, refl)
put_endpoints_single s [] dr (x ∷ tr) dw tw h lr lw br bw = absurd (omega arith)
put_endpoints_single s [] dr [] dw (x ∷ tw) h lr lw br bw = absurd (omega arith)
put_endpoints_single s (e ∷ es) dr tr dw tw h lr lw br bw = elim (Option-cases e.dds_reader) [
  | inl nr ↦ elim (Option-cases e.dds_writer) [
    | inl nw ↦ absurd (omega (arith, h.0, ap one nr, ap one nw))
    | inr (w, sw) ↦
        let g = gid_of s true w in
        let (tw', p, lw', i, bw') =
          put_at-next dw tw g (count true es) (omega (arith, lw, ap one sw)) bw in
        let (f, q, a, b) =
          put_endpoints_single s es dr tr (dw ++ g ∷ []) tw' h.1 (omega (arith, lr, ap one nr)) lw'
            br bw' in
        (f, rw (nr, sw, p, i) q, rw nr a, rw (sw, ← append_assoc dw (g ∷ []) (gids s true es)) b)
  ]
  | inr (r, sr) ↦ elim (Option-cases e.dds_writer) [
    | inr (w, sw) ↦ absurd (omega (arith, h.0, ap one sr, ap one sw))
    | inl nw ↦
        let g = gid_of s false r in
        let (tr', p, lr', i, br') =
          put_at-next dr tr g (count false es) (omega (arith, lr, ap one sr)) br in
        let (f, q, a, b) =
          put_endpoints_single s es (dr ++ g ∷ []) tr' dw tw h.1 lr' (omega (arith, lw, ap one nw))
            br' bw in
        (f, rw (sr, nw, p, i) q, rw (sr, ← append_assoc dr (g ∷ []) (gids s false es)) a, rw nw b)
  ]
]

-- An endpoint with a reader and a writer, as clients and services are registered.
abbrev pub IsBoth : Endpoint → Type 0
IsBoth e = (r : ℕ) × (w : ℕ) × (e.dds_reader ≡ some r) × (e.dds_writer ≡ some w)

put_endpoints_both :
    (s : Entities) (es : List Endpoint) (readers dw tw : List Gid) (i : ℤ)
    → All IsBoth es
    → length tw ≡ count true es
    → length dw + length tw ≤ int_max
    → Filled s es readers dw
        (record { readers = readers; writers = dw ++ tw; reader_i = i; writer_i = pos (length dw) })
unfolding put_endpoints put_endpoint count gids Filled
put_endpoints_both s [] readers dw [] i h lw bw = (_, refl, refl, refl)
put_endpoints_both s [] readers dw (x ∷ tw) i h lw bw = absurd (omega arith)
put_endpoints_both s (e ∷ es) readers dw tw i ((r, w, sr, sw), h) lw bw =
    let g = gid_of s true w in
    let (tw', p, lw', j, bw') =
      put_at-next dw tw g (count true es) (omega (arith, lw, ap one sw)) bw in
    let (f, q, a, b) = put_endpoints_both s es readers (dw ++ g ∷ []) tw' (inc32 i) h lw' bw' in
    (f, rw (sr, sw, p, j) q, a, rw (sw, ← append_assoc dw (g ∷ []) (gids s true es)) b)

count-le : (b : Bool) (es : List Endpoint) → count b es ≤ length es
unfolding count
count-le b [] = omega arith
count-le b (e ∷ es) = elim (Option-cases (side b e)) [
  | inl n ↦ omega (arith, count-le b es, ap one n)
  | inr (p, y) ↦ omega (arith, count-le b es, ap one y)
]

-- Up to 2^31 - 1 endpoints the counters are the numbers of readers and writers, and so are the lengths
-- that they are passed as.
counted :
    (n : Node) (b : Bool)
    → CountsOk n
    → length n.endpoints ≤ int_max
    → (long_of_size (len_of b n) ≡ pos (count b n.endpoints)) × (count b n.endpoints ≤ int_max)
counted n b v h =
    let e : len_of b n ≡ count b n.endpoints = omega (arith, v b, count-le b n.endpoints) in
    let l : count b n.endpoints ≤ int_max = omega (arith, count-le b n.endpoints) in
    (ap long_of_size e ∙ long_of_size-pos (count b n.endpoints) l, l)

-- Memory suffices: strings are copied, and a sequence of gids takes every length from zero to
-- 2^31 - 1.
pub record HasMemory (s : Entities) : Type 0 where
  pub copies : (i : NodeInfo) (t : CString) → s.string_dup i t ≡ true
  pub resizes :
      (gids : List Gid) (n : ℕ)
      → n ≤ int_max
      → (gids' : List Gid) × (s.gid_ensure_length gids (pos n) ≡ some gids') × (length gids' ≡ n)

-- The sample of a node: OK, the names of the node, and the two sequences.
abbrev pub Announces : Entities → Node → NodeInfo → List Gid → List Gid → Type 0
Announces s n sample readers writers =
    node_to_sample s n sample
    ≡ some (
      ok,
      record {
        node_name = n.node_name;
        node_namespace = n.node_namespace;
        reader_gid_seq = readers;
        writer_gid_seq = writers;
      },
    )

-- With enough memory, on a node with right counters and at most 2^31 - 1 endpoints, each with a reader
-- or a writer and not both, the sample succeeds: it has the node's names, and its sequences are the
-- gids of the readers and those of the writers, in the order of the endpoints.
pub node_to_sample_single :
    (s : Entities) (n : Node) (sample : NodeInfo)
    → HasMemory s
    → CountsOk n
    → length n.endpoints ≤ int_max
    → All IsSingle n.endpoints
    → Announces s n sample (gids s false n.endpoints) (gids s true n.endpoints)
unfolding node_to_sample fill_gids Filled
node_to_sample_single s n sample memory v bound h =
    let sample1 : NodeInfo = record sample { node_name = n.node_name } in
    let (er, br) = counted n false v bound in
    let (ew, bw) = counted n true v bound in
    let (readers, fr, lr) = memory.resizes sample.reader_gid_seq (count false n.endpoints) br in
    let (writers, fw, lw) = memory.resizes sample.writer_gid_seq (count true n.endpoints) bw in
    let (f, q, a, b) =
      put_endpoints_single s n.endpoints [] readers [] writers h lr lw (omega (arith, lr, br))
        (omega (arith, lw, bw)) in
    rw (
      memory.copies sample n.node_name,
      memory.copies sample1 n.node_namespace,
      fill_gids,
      er,
      fr,
      ew,
      fw,
      q,
      a,
      b,
    )

-- With enough memory, on a node with right counters and at most 2^31 - 1 endpoints, each with a reader
-- and a writer, as clients and services have, the sample succeeds and announces the gids of the
-- writers, but of no reader: the sequence of readers is what its resizing has left in it.
pub node_to_sample_both :
    (s : Entities) (n : Node) (sample : NodeInfo)
    → HasMemory s
    → CountsOk n
    → length n.endpoints ≤ int_max
    → All IsBoth n.endpoints
    → (readers : List Gid) × (s.gid_ensure_length sample.reader_gid_seq (long_of_size n.readers_len)
        ≡ some readers)
      × Announces s n sample readers (gids s true n.endpoints)
unfolding node_to_sample fill_gids Filled
node_to_sample_both s n sample memory v bound h =
    let sample1 : NodeInfo = record sample { node_name = n.node_name } in
    let (er, br) = counted n false v bound in
    let (ew, bw) = counted n true v bound in
    let (readers, fr, lr) = memory.resizes sample.reader_gid_seq (count false n.endpoints) br in
    let (writers, fw, lw) = memory.resizes sample.writer_gid_seq (count true n.endpoints) bw in
    let (f, q, a, b) =
      put_endpoints_both s n.endpoints readers [] writers (pos 0) h lw (omega (arith, lw, bw)) in
    (
      readers,
      rw er fr,
      rw (
        memory.copies sample n.node_name,
        memory.copies sample1 n.node_namespace,
        fill_gids,
        er,
        fr,
        ew,
        fw,
        q,
        a,
        b,
      ),
    )
