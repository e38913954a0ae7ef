-- ===== src/Inspect/Loops.antt =====
-- The loops of an inspection find the DDS endpoints that they go over.
use mathlib.Core.List.{Memᴰ}
use mathlib.Core.List.Memᴰ
use rticonnextdds_ros2_adapt.Common.{
  ℕ, ℤ, CString, Bool, Bool-cases, true, false, if◌then◌else◌, Option-cases, some, List, [], ◌∷◌,
  inl, inr, ◌≡◌, ◌≢◌, refl, subst, arith,
}
use rticonnextdds_ros2_adapt.Types.{
  EndpointType, unknown, subscription, publisher, client, service, Endpoint, Node, Graph, Dds,
}
use rticonnextdds_ros2_adapt.InlineList.{find_sound, find-Unique}
use rticonnextdds_ros2_adapt.Names.{detect_endpoint_type}
use rticonnextdds_ros2_adapt.Lookup.{
  endp_key, dds_matches, lookup_local_node_by_handle, lookup_local_endpoint_by_dds_endpoints,
}
use rticonnextdds_ros2_adapt.Lookup.Listed.{by_handle-handle}
use rticonnextdds_ros2_adapt.Inspect.{
  reader_arg, writer_arg, topic_of, side, inspect_typed, inspect_endpoint, inspect_endpoints,
  get_all, inspect_parents,
}
use rticonnextdds_ros2_adapt.Inspect.Rule.{endpoint-keeps, endpoints-keep, parents-keep}
use rticonnextdds_ros2_adapt.Inspect.Entities.{
  Has, Result, register-Has, attach-Has, plain-Result, attach-Result,
}
use rticonnextdds_ros2_adapt.Invariant.{GraphOk}
use rticonnextdds_ros2_adapt.Invariant.OfEndpoints.{found-NodeOk, register_local_endpoint-GraphOk}
use rticonnextdds_ros2_adapt.Invariant.OfInspection.{attach-GraphOk}
use rticonnextdds_ros2_adapt.Update.Told.{eq_of_ptr_eq}

-- The topic name of a DDS endpoint has a ROS 2 type.
abbrev pub IsRos : Dds → Bool → ℕ → Type 0
IsRos d writer p = detect_endpoint_type (topic_of d writer p) writer ≢ unknown

matched_side :
    (writer : Bool) (p : ℕ) (e : Endpoint)
    → dds_matches (reader_arg writer p) (writer_arg writer p) e ≡ true
    → side writer e ≡ some p
unfolding dds_matches
matched_side true p e h = eq_of_ptr_eq e.dds_writer (some p) (ground arith)
matched_side false p e h = eq_of_ptr_eq e.dds_reader (some p) (ground arith)

typed-Result :
    (d : Dds) (writer : Bool) (g : Graph) (n : Node) (h k : ℤ) (p : ℕ) (t : EndpointType)
    → GraphOk g
    → lookup_local_node_by_handle g h ≡ some n
    → t ≢ unknown
    → t ≢ (if writer then subscription else publisher)
    → Result h writer p (inspect_typed d writer g n k p t)
unfolding inspect_typed
typed-Result d true g n h k p publisher v found known other =
    plain-Result d true publisher g n h p v (by_handle-handle g h found)
typed-Result d true g n h k p subscription v found known other = absurd (other refl)
typed-Result d false g n h k p publisher v found known other = absurd (other refl)
typed-Result d false g n h k p subscription v found known other =
    plain-Result d false subscription g n h p v (by_handle-handle g h found)
typed-Result d true g n h k p client v found known other =
    attach-Result d true client g n h k p v found
typed-Result d false g n h k p client v found known other =
    attach-Result d false client g n h k p v found
typed-Result d true g n h k p service v found known other =
    attach-Result d true service g n h k p v found
typed-Result d false g n h k p service v found known other =
    attach-Result d false service g n h k p v found
typed-Result d true g n h k p unknown v found known other = absurd (known refl)
typed-Result d false g n h k p unknown v found known other = absurd (known refl)

detect_side :
    (topic : CString) (writer : Bool)
    → detect_endpoint_type topic writer ≢ (if writer then subscription else publisher)
unfolding detect_endpoint_type
detect_side topic true e = ground arith
detect_side topic false e = ground arith

endpoint-Result :
    (d : Dds) (writer : Bool) (h : ℤ) (g : Graph) (k : ℤ) (p : ℕ)
    → GraphOk g
    → IsRos d writer p
    → Result h writer p (inspect_endpoint d writer h g k p)
unfolding inspect_endpoint lookup_local_endpoint_by_dds_endpoints
endpoint-Result d writer h g k p v ros = elim (Option-cases (lookup_local_node_by_handle g h)) [
  | inl missing ↦ rw (missing, inspect_endpoint) (λ going. absurd (cc going))
  | inr (n, found) ↦
      elim (Option-cases
        (lookup_local_endpoint_by_dds_endpoints n (reader_arg writer p) (writer_arg writer p))) [
          | inl new ↦
              rw (found, inspect_endpoint, new)
                (typed-Result d writer g n h k p _ v found ros
                  (detect_side (topic_of d writer p) writer))
          | inr (e, old) ↦
              let (ok', _, _) = found-NodeOk g h v found in
              let test = dds_matches (reader_arg writer p) (writer_arg writer p) in
              rw (found, inspect_endpoint, old)
                (λ _. record {
                  valid = v;
                  has = (
                    n,
                    e.handle,
                    e,
                    found,
                    find-Unique endp_key test n.endpoints ok'.unique old,
                    matched_side writer p e (find_sound test n.endpoints old),
                  );
                })
        ]
]

module _ (d : Dds) (h : ℤ) where
  -- A round keeps the graph well-formed, and what was found before.
  round-GraphOk :
      (writer : Bool) (g : Graph) (k : ℤ) (p : ℕ)
      → GraphOk g
      → GraphOk (inspect_endpoint d writer h g k p).0
  round-GraphOk =
      endpoint-keeps GraphOk d h (λ g t r w. register_local_endpoint-GraphOk d g h t r w)
        (λ g m topic writer p e. attach-GraphOk d g h m topic writer p e)

  loop-GraphOk :
      (writer : Bool) (ps : List ℕ) (g : Graph) (k : ℤ)
      → GraphOk g
      → GraphOk (inspect_endpoints d writer h ps g k).0
  loop-GraphOk =
      endpoints-keep GraphOk d h (λ g t r w. register_local_endpoint-GraphOk d g h t r w)
        (λ g m topic writer p e. attach-GraphOk d g h m topic writer p e)

  pub parents-GraphOk :
      (writer : Bool) (qs : List ℕ) (g : Graph) (k : ℤ)
      → GraphOk g
      → GraphOk (inspect_parents d writer h qs g k).0
  parents-GraphOk =
      parents-keep GraphOk d h (λ g t r w. register_local_endpoint-GraphOk d g h t r w)
        (λ g m topic writer p e. attach-GraphOk d g h m topic writer p e)

  module _ (writer : Bool) (p : ℕ) where
    loop-Has :
        (writer' : Bool) (ps : List ℕ) (g : Graph) (k : ℤ)
        → Has h writer p g
        → Has h writer p (inspect_endpoints d writer' h ps g k).0
    loop-Has =
        endpoints-keep (Has h writer p) d h (λ g t r w. register-Has h writer p d g t r w)
          (λ g m topic writer' p' e. attach-Has h writer p d g m topic writer' p' e)

    parents-Has :
        (writer' : Bool) (qs : List ℕ) (g : Graph) (k : ℤ)
        → Has h writer p g
        → Has h writer p (inspect_parents d writer' h qs g k).0
    parents-Has =
        parents-keep (Has h writer p) d h (λ g t r w. register-Has h writer p d g t r w)
          (λ g m topic writer' p' e. attach-Has h writer p d g m topic writer' p' e)

    endpoints-Result :
        (ps : List ℕ) (g : Graph) (k : ℤ)
        → GraphOk g
        → IsRos d writer p
        → Memᴰ p ps
        → Result h writer p (inspect_endpoints d writer h ps g k)
    unfolding inspect_endpoints
    endpoints-Result [] g k v ros there = absurd (Memᴰ.not-nil there)
    endpoints-Result (x ∷ ps) g k v ros there =
        let q = inspect_endpoint d writer h g k x in
        elim (Bool-cases q.2) [
          | inl failed ↦ rw failed (λ going. absurd (cc going))
          | inr through ↦ elim (Memᴰ.cases_cons there) [
            | inl here ↦
                let now : Has h writer p q.0 =
                  subst (λ y. Result h writer p (inspect_endpoint d writer h g k y)) here
                    (endpoint-Result d writer h g k p v ros) through in
                rw through (λ _. loop-Has writer ps q.0 q.1 now)
            | inr later ↦
                rw through (endpoints-Result ps q.0 q.1 (round-GraphOk writer g k x v) ros later)
          ]
        ]

    pub parents-Result :
        (qs : List ℕ) (g : Graph) (k : ℤ) (y : ℕ) (ps : List ℕ)
        → GraphOk g
        → IsRos d writer p
        → Memᴰ y qs
        → get_all d writer y ≡ some ps
        → Memᴰ p ps
        → Result h writer p (inspect_parents d writer h qs g k)
    unfolding inspect_parents
    parents-Result [] g k y ps v ros parent all there = absurd (Memᴰ.not-nil parent)
    parents-Result (x ∷ qs) g k y ps v ros parent all there =
        elim (Option-cases (get_all d writer x)) [
          | inl refused ↦ rw (refused, inspect_parents) (λ going. absurd (cc going))
          | inr (ps', e) ↦
              let q = inspect_endpoints d writer h ps' g k in
              elim (Bool-cases q.2) [
                | inl failed ↦ rw (e, inspect_parents, failed) (λ going. absurd (cc going))
                | inr through ↦ elim (Memᴰ.cases_cons parent) [
                  | inl here ↦
                      let same : ps ≡ ps' = cc in
                      let now =
                        endpoints-Result ps' g k v ros (subst (Memᴰ p) same there) through in
                      rw (e, inspect_parents, through) (λ _. parents-Has writer qs q.0 q.1 now)
                  | inr later ↦
                      rw (e, inspect_parents, through)
                        (parents-Result qs q.0 q.1 y ps (loop-GraphOk writer ps' g k v) ros later
                          all there)
                ]
              ]
        ]
