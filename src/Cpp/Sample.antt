-- ===== src/Cpp/Sample.antt =====
-- The C++ sample adapter of src/adapter_cpp/graph.cpp: the sample that the C adapter fills is copied to
-- the C++ sample, which is written by the C++ writer. The C++ sample has the fields of the C one.
-- `none` stands for a write out of range.
use rticonnextdds_ros2_adapt.Common.{
  ℕ, zero, suc, ◌+◌, length, CString, Bool, true, false, not, if◌then◌else◌, is_ok, ◌>>=◌, Option,
  none, some, List, [], ◌∷◌, ReturnCode, ok, error,
}
use rticonnextdds_ros2_adapt.Types.{Ptr, Graph}
use rticonnextdds_ros2_adapt.Publish.{
  Gid, NodeInfo, ParticipantInfo, Entities, put, get_elem?, convert_to_sample,
}

-- Whether std::string takes a text and std::vector a length, or throws; the elements that a vector gets
-- when it grows; and whether the C++ writer takes a sample.
pub record CppMemory : Type 0 where
  pub string_takes : NodeInfo → CString → Bool
  pub gids_take : List Gid → ℕ → Bool
  pub nodes_take : List NodeInfo → ℕ → Bool
  pub new_gid : Gid
  pub new_node : NodeInfo
  pub write : ParticipantInfo → Bool

-- std::vector::resize.
unfoldable pub resize {ℓ} : {A : Type ℓ} → A → ℕ → List A → List A
resize d zero xs = []
resize d (suc n) [] = d ∷ resize d n []
resize d (suc n) (x ∷ xs) = x ∷ resize d n xs

-- The loop over the gids of one sequence, from index `j` on.
unfoldable pub copy_gids : List Gid → List Gid → ℕ → Option (List Gid)
copy_gids [] out j = some out
copy_gids (c_gid ∷ c_gids) out j = put out j c_gid >>= λ out'. copy_gids c_gids out' (j + 1)

-- One round of the loop over the nodes: whether nothing was thrown, and the C++ node.
unfoldable pub copy_node : CppMemory → NodeInfo → NodeInfo → Option (Bool × NodeInfo)
copy_node m c n =
    if not (m.string_takes n c.node_name)
    then some (false, n)
    else (let n1 = record n { node_name = c.node_name } in
        if not (m.string_takes n1 c.node_namespace)
        then some (false, n1)
        else (let n2 = record n1 { node_namespace = c.node_namespace } in
            let readers_len = length c.reader_gid_seq in
            if not (m.gids_take n2.reader_gid_seq readers_len)
            then some (false, n2)
            else (let n3 = record n2 {
              reader_gid_seq = resize m.new_gid readers_len n2.reader_gid_seq;
            } in
                let writers_len = length c.writer_gid_seq in
                if not (m.gids_take n3.writer_gid_seq writers_len)
                then some (false, n3)
                else (copy_gids c.reader_gid_seq n3.reader_gid_seq 0 >>= λ readers.
                    copy_gids c.writer_gid_seq (resize m.new_gid writers_len n3.writer_gid_seq) 0
                    >>= λ writers.
                        some (
                          true,
                          record n3 { reader_gid_seq = readers; writer_gid_seq = writers },
                        )))))

unfoldable pub copy_nodes :
    CppMemory → List NodeInfo → List NodeInfo → ℕ → Option (Bool × List NodeInfo)
copy_nodes m [] out i = some (true, out)
copy_nodes m (c ∷ cs) out i = get_elem? out i >>= λ n. copy_node m c n >>= λ (fine, n').
    put out i n' >>= λ out'.
    let rest = copy_nodes m cs out' (i + 1) in if fine then rest else some (false, out')

-- RTIROS2_CppGraphSampleAdapter_convert_to_sample: the return code, the C sample of the graph and the
-- C++ sample.
unfoldable pub cpp_convert_to_sample :
    CppMemory
    → Entities
    → Graph
    → Ptr
    → Option ParticipantInfo
    → ParticipantInfo
    → Option (ReturnCode × Option ParticipantInfo × ParticipantInfo)
cpp_convert_to_sample m s g participant none sample = some (error, none, sample)
cpp_convert_to_sample m s g participant (some c_sample) sample =
    convert_to_sample s g participant c_sample >>= λ (rc, c_sample').
    if not (is_ok rc)
    then some (error, some c_sample', sample)
    else (let sample1 = record sample { gid = c_sample'.gid } in
        let nodes_len = length c_sample'.node_entities_info_seq in
        if not (m.nodes_take sample1.node_entities_info_seq nodes_len)
        then some (error, some c_sample', sample1)
        else (copy_nodes m c_sample'.node_entities_info_seq
              (resize m.new_node nodes_len sample1.node_entities_info_seq) 0
            >>= λ (fine, seq). some (
              if fine then ok else error,
              some c_sample',
              record sample1 { node_entities_info_seq = seq },
            )))

-- RTIROS2_CppGraphSampleAdapter_publish_sample.
unfoldable pub cpp_publish_sample : CppMemory → ParticipantInfo → ReturnCode
cpp_publish_sample m sample = if m.write sample then ok else error
