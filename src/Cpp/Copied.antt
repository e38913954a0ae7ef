-- ===== src/Cpp/Copied.antt =====
-- The C++ sample of a participant is the C sample.
use rticonnextdds_ros2_adapt.Common.{
  ℕ, zero, suc, length, CString, true, if◌then◌else◌, is_ok, Bool-cases, inl, inr, some, List, [],
  ◌∷◌, ◌++◌, append_assoc, ok, error, ◌≡◌, refl, arith, ap, ◌∙◌, ◌>>=◌, Option-cases,
}
use rticonnextdds_ros2_adapt.Types.{Ptr, Graph}
use rticonnextdds_ros2_adapt.Publish.{Gid, NodeInfo, ParticipantInfo, Entities, convert_to_sample}
use rticonnextdds_ros2_adapt.Publish.Sample.{put-next}
use rticonnextdds_ros2_adapt.Publish.Convert.{get_elem?-append}
use rticonnextdds_ros2_adapt.Cpp.Sample.{
  CppMemory, resize, copy_gids, copy_node, copy_nodes, cpp_convert_to_sample,
}

-- Strings and vectors take whatever they are given.
pub record TakesAll (m : CppMemory) : Type 0 where
  pub strings : (n : NodeInfo) (s : CString) → m.string_takes n s ≡ true
  pub gids : (gids : List Gid) (k : ℕ) → m.gids_take gids k ≡ true
  pub nodes : (nodes : List NodeInfo) (k : ℕ) → m.nodes_take nodes k ≡ true

length-resize {ℓ} : {A : Type ℓ} (d : A) (n : ℕ) (xs : List A) → length (resize d n xs) ≡ n
unfolding resize
length-resize d zero xs = refl
length-resize d (suc n) [] = omega (arith, length-resize d n [])
length-resize d (suc n) (x ∷ xs) = omega (arith, length-resize d n xs)

-- The vector behind the part that is copied has as many elements as are left.
copy_gids_lem :
    (cs done todo : List Gid)
    → length todo ≡ length cs
    → copy_gids cs (done ++ todo) (length done) ≡ some (done ++ cs)
unfolding copy_gids
copy_gids_lem [] done [] l = refl
copy_gids_lem [] done (x ∷ todo) l = absurd (omega arith)
copy_gids_lem (c ∷ cs) done todo l =
    let (rest, p, k, i) = put-next done todo c (length cs) l in
    rw (p, i) (copy_gids_lem cs (done ++ c ∷ []) rest k ∙ ap some (append_assoc done (c ∷ []) cs))

copy_node_lem : (m : CppMemory) (c n : NodeInfo) → TakesAll m → copy_node m c n ≡ some (true, c)
unfolding copy_node
copy_node_lem m c n t =
    let readers =
      copy_gids_lem c.reader_gid_seq []
        (resize m.new_gid (length c.reader_gid_seq) n.reader_gid_seq)
        (length-resize m.new_gid (length c.reader_gid_seq) n.reader_gid_seq) in
    let writers =
      copy_gids_lem c.writer_gid_seq []
        (resize m.new_gid (length c.writer_gid_seq) n.writer_gid_seq)
        (length-resize m.new_gid (length c.writer_gid_seq) n.writer_gid_seq) in
    rw (t.strings, t.strings, t.gids, t.gids, readers, writers)

copy_nodes_lem :
    (m : CppMemory) (cs done todo : List NodeInfo)
    → TakesAll m
    → length todo ≡ length cs
    → copy_nodes m cs (done ++ todo) (length done) ≡ some (true, done ++ cs)
unfolding copy_nodes
copy_nodes_lem m [] done [] t l = refl
copy_nodes_lem m [] done (x ∷ todo) t l = absurd (omega arith)
copy_nodes_lem m (c ∷ cs) done [] t l = absurd (omega arith)
copy_nodes_lem m (c ∷ cs) done (x ∷ todo) t l =
    let (rest, p, k, i) = put-next done (x ∷ todo) c (length cs) l in
    rw (get_elem?-append done x todo, copy_node_lem m c x t, p, i)
      (copy_nodes_lem m cs (done ++ c ∷ []) rest t k
        ∙ ap (λ xs. some (true, xs)) (append_assoc done (c ∷ []) cs))

-- Where strings and vectors take what they are given, the C++ adapter has a result exactly where the C
-- adapter has one, whatever the two samples had before: where the C adapter succeeds the C++ adapter
-- does, and the C++ sample becomes the C sample; else it fails and the C++ sample is as before.
pub cpp_convert_to_sample_lem :
    (m : CppMemory) (s : Entities) (g : Graph) (p : Ptr) (c_sample sample : ParticipantInfo)
    → TakesAll m
    → cpp_convert_to_sample m s g p (some c_sample) sample ≡ (
        convert_to_sample s g p c_sample >>= λ (rc, c_sample').
        some
          (if is_ok rc then ok else error, some c_sample', if is_ok rc then c_sample' else sample))
unfolding cpp_convert_to_sample
cpp_convert_to_sample_lem m s g p c_sample sample t =
    elim (Option-cases (convert_to_sample s g p c_sample)) [
      | inl f ↦ rw f
      | inr ((rc, c), f) ↦ elim (Bool-cases (is_ok rc)) [
        | inr failed ↦ rw (f, failed)
        | inl fine ↦
            let seq = c.node_entities_info_seq in
            let old = sample.node_entities_info_seq in
            let copied =
              copy_nodes_lem m seq [] (resize m.new_node (length seq) old) t
                (length-resize m.new_node (length seq) old) in
            rw (f, fine, t.nodes, copied)
      ]
    ]
