-- ===== src/Tests/Publication.antt =====
-- The sample of a node and the participants of a graph at concrete values.
use native.Mathlib.Numerals.{add-one}
use rticonnextdds_ros2_adapt.Common.{
  ℕ, ◌+◌, zero, suc, ℤ, pos, negsuc, long_of_size, ◌≡◌, refl, ap, arith, take, take-append, length,
  true, false, Option, none, some, List, [], ◌∷◌, ◌++◌, ok,
}
use rticonnextdds_ros2_adapt.Types.{Ptr, client, def_endp, Node}
use rticonnextdds_ros2_adapt.Invariant.Counts.{CountsOk, count}
use rticonnextdds_ros2_adapt.Publish.{
  Gid, NodeInfo, ParticipantInfo, Entities, ih_to_gid, convert_to_sample, contains,
}
use rticonnextdds_ros2_adapt.Publish.Convert.{HasRoom, IsPlain, infos, convert_to_sample_lem}
use rticonnextdds_ros2_adapt.Update.{Published, publish_update}
use rticonnextdds_ros2_adapt.Update.Sent.{samples_of, publish_update_lem}
use rticonnextdds_ros2_adapt.Publish.Sample.{gids, HasMemory, Announces, node_to_sample_both}
use rticonnextdds_ros2_adapt.Publish.Gather.{CanGrow, Distinct}
use rticonnextdds_ros2_adapt.Tests.Graphs.{
  talking, talker, with_node, talking-CountsOk, talking-GraphOk,
}

-- What a sequence does with a length.
abbrev of_length {ℓ} : {A : Type ℓ} → (ℕ → A) → ℤ → Option A
of_length f (pos n) = some (f n)
of_length f (negsuc n) = none

-- A sequence of n gids of zeroes.
abbrev zeroes : ℕ → List Gid
zeroes zero = []
zeroes (suc n) = (0 ∷ []) ∷ zeroes n

abbrev resized : List Ptr → ℕ → List Ptr
resized seq zero = []
resized seq (suc n) = seq ++ none ∷ []

abbrev sample : NodeInfo
sample = record { node_name = []; node_namespace = []; reader_gid_seq = []; writer_gid_seq = [] }

-- A sequence of n empty entries.
abbrev blanks : ℕ → List NodeInfo
blanks zero = []
blanks (suc n) = sample ∷ blanks n

abbrev pub entities : Entities
entities = record {
  participant_ih = λ p. 1 ∷ [];
  reader_ih = λ r. r ∷ [];
  writer_ih = λ w. w ∷ [];
  string_dup = λ i s. true;
  gid_ensure_length = λ seq. of_length zeroes;
  info_ensure_length = λ seq. of_length blanks;
  info_set_length = λ seq. of_length (λ n. take n seq);
  participants_set_length = λ seq. of_length (resized seq);
  participants_ensure_length = λ seq. of_length (resized seq);
}

length-zeroes : (n : ℕ) → length (zeroes n) ≡ n
length-zeroes zero = refl
length-zeroes (suc n) = omega (arith, length-zeroes n)

entities-HasMemory : HasMemory entities
entities-HasMemory = record {
  copies = λ i s. refl;
  resizes = λ seq n b. (zeroes n, refl, length-zeroes n);
}

resized_more : (seq : List Ptr) (n : ℕ) → resized seq (n + 1) ≡ seq ++ none ∷ []
resized_more seq n = rw (add-one n)

pub entities-CanGrow : CanGrow entities
entities-CanGrow = record {
  clears = λ seq. refl;
  grows = λ seq b. (none, ap some (resized_more seq (length seq)));
}

-- A node with a client.
abbrev asking : Node
asking = record talker {
  endpoints =
      record def_endp {
        handle = pos 0;
        endp_type = client;
        dds_reader = some 2;
        dds_writer = some 2;
      }
      ∷ [];
  endpoints_len = 1;
  writers_len = 1;
  readers_len = 1;
}

asking-CountsOk : CountsOk asking
unfolding count
asking-CountsOk true = refl
asking-CountsOk false = refl

node_to_sample_both_example :
    (readers : List Gid) × (entities.gid_ensure_length sample.reader_gid_seq (long_of_size 1)
      ≡ some readers)
    × Announces entities asking sample readers (gids entities true asking.endpoints)
node_to_sample_both_example =
    node_to_sample_both entities asking sample entities-HasMemory asking-CountsOk (omega arith)
      ((2, 2, refl, refl), tt)

length-blanks : (n : ℕ) → length (blanks n) ≡ n
length-blanks zero = refl
length-blanks (suc n) = omega (arith, length-blanks n)

pub entities-HasRoom : HasRoom entities
entities-HasRoom = record {
  memory = entities-HasMemory;
  resizes = λ seq n b. (blanks n, refl, length-blanks n);
  cuts = λ xs ys b. ap some (take-append xs ys);
}

pub talking-IsPlain : IsPlain talking
talking-IsPlain = record { counts = talking-CountsOk; bound = omega arith; single = (refl, tt) }

abbrev pub blank : ParticipantInfo
blank = record { gid = []; node_entities_info_seq = [] }

convert_to_sample_lem_example :
    convert_to_sample entities (with_node talking) (some 1) blank
    ≡ some (
      ok,
      record {
        gid = ih_to_gid (1 ∷ []);
        node_entities_info_seq = infos entities (some 1) (talking ∷ []);
      },
    )
convert_to_sample_lem_example =
    convert_to_sample_lem entities (with_node talking) (some 1) blank entities-HasRoom
      talking-GraphOk (omega arith) (talking-IsPlain, tt)

publish_update_lem_example :
    (u : Published) × (ps : List Ptr) × (publish_update entities
        (λ i. with_node talking)
        (λ x. true)
        []
        blank
      ≡ some u)
    × (u.rc ≡ ok)
    × (u.sent ≡ samples_of entities (λ i. with_node talking) ps 1)
    × Distinct ps
    × ((p : Ptr) → contains p ps ≡ contains p (some 1 ∷ []))
publish_update_lem_example =
    publish_update_lem entities (λ i. with_node talking) (λ x. true) [] blank entities-CanGrow
      entities-HasRoom
      (λ j. record { valid = talking-GraphOk; bound = omega arith; plain = (talking-IsPlain, tt) })
      (λ x. refl)
