-- ===== src/Gids/Distinct.antt =====
-- Gids name entities: different instance handles have different gids.
use rticonnextdds_ros2_adapt.Common.{
  ℕ, ◌≡◌, length, take, take-append, some, List, [], ◌∷◌, ok, arith, refl, length-append,
  length-take, zero, suc, ap, ◌∙◌, sym,
}
use rticonnextdds_ros2_adapt.Publish.{Gid, Entities, ih_to_gid}
use rticonnextdds_ros2_adapt.Gids.{compute_reader_gid, compute_writer_gid}

take-all : (n : ℕ) (xs : List ℕ) → length xs ≡ n → take n xs ≡ xs
take-all zero [] h = refl
take-all zero (x ∷ xs) h = absurd (omega arith)
take-all (suc n) [] h = absurd (omega arith)
take-all (suc n) (x ∷ xs) h = ap (◌∷◌ x) (take-all n xs (omega arith))

take-ih_to_gid : (ih : List ℕ) → length ih ≡ 16 → take 16 (ih_to_gid ih) ≡ ih
unfolding ih_to_gid
take-ih_to_gid ih h =
    let all = take-all 16 ih h in rw (all, ← h, take-append ih (0 ∷ 0 ∷ 0 ∷ 0 ∷ 0 ∷ 0 ∷ 0 ∷ 0 ∷ []))

-- For a reader and a writer with instance handles of 16 octets, both functions succeed with gids of 24
-- octets, and the gids agree only where the instance handles do.
pub compute_reader_gid-writer :
    (s : Entities) (r w : ℕ) (gid gid' : Gid)
    → length (s.reader_ih r) ≡ 16
    → length (s.writer_ih w) ≡ 16
    → (a : Gid) × (b : Gid) × (compute_reader_gid s (some r) (some gid) ≡ (ok, some a))
      × (compute_writer_gid s (some w) (some gid') ≡ (ok, some b))
      × (length a ≡ 24)
      × (length b ≡ 24)
      × (a ≡ b → s.reader_ih r ≡ s.writer_ih w)
unfolding compute_reader_gid compute_writer_gid ih_to_gid
compute_reader_gid-writer s r w gid gid' h k = (
  ih_to_gid (s.reader_ih r),
  ih_to_gid (s.writer_ih w),
  refl,
  refl,
  omega (
    arith,
    length-append (take 16 (s.reader_ih r)) (0 ∷ 0 ∷ 0 ∷ 0 ∷ 0 ∷ 0 ∷ 0 ∷ 0 ∷ []),
    length-take 16 (s.reader_ih r),
  ),
  omega (
    arith,
    length-append (take 16 (s.writer_ih w)) (0 ∷ 0 ∷ 0 ∷ 0 ∷ 0 ∷ 0 ∷ 0 ∷ 0 ∷ []),
    length-take 16 (s.writer_ih w),
  ),
  λ e. sym (take-ih_to_gid (s.reader_ih r) h) ∙ ap (take 16) e ∙ take-ih_to_gid (s.writer_ih w) k,
)
