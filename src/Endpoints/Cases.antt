-- ===== src/Endpoints/Cases.antt =====
-- Case rules for registration and unregistration: what has to be shown for a property of the result.
use rticonnextdds_ros2_adapt.Common.{
  ℤ, eq_ℤ, eq_ℤ_iff, Bool-cases, true, false, Option, Option-cases, none, some, inl, inr, ◌≡◌, ◌≢◌,
  arith, ReturnCode, ok, bad_parameter,
}
use rticonnextdds_ros2_adapt.Types.{Ptr, EndpointType, invalid_handle, Endpoint, Node, Graph, Dds}
use rticonnextdds_ros2_adapt.Lookup.{
  lookup_local_node_by_handle, lookup_local_endpoint_by_dds_endpoints,
}
use rticonnextdds_ros2_adapt.Endpoints.{
  set_node, next_endpoint_handle, add_endpoint, new_endpoint, conforms, insert_endpoint,
  register_local_endpoint, drop_endpoint, finalize_endpoint, queue_update, unregister_found,
}

pub insert_cases {ℓ} :
    (P : Graph × Option Endpoint → Type ℓ) (d : Dds) (g : Graph) (n : Node) (t : EndpointType)
    (r w : Ptr)
    → P (set_node g (next_endpoint_handle n).1, none)
    → ((next_endpoint_handle n).0 ≢ invalid_handle
        → P (
          set_node (set_node g (next_endpoint_handle n).1) (
              add_endpoint
                (next_endpoint_handle n).1
                (new_endpoint (next_endpoint_handle n).0 t r w)),
          some (new_endpoint (next_endpoint_handle n).0 t r w),
        ))
    → P (insert_endpoint d g n t r w)
unfolding insert_endpoint
insert_cases P d g n t r w refused added =
    elim (Bool-cases (eq_ℤ (next_endpoint_handle n).0 invalid_handle)) [
      | inl none_left ↦ rw none_left refused
      | inr h ↦ elim (Bool-cases (d.endpoint_buffer (set_node g (next_endpoint_handle n).1))) [
        | inl buffer ↦
            rw (h, buffer)
              (added (λ e. ground (arith, eq_ℤ_iff (next_endpoint_handle n).0 invalid_handle)))
        | inr no_buffer ↦ rw (h, no_buffer) refused
      ]
    ]

pub register_cases {ℓ} :
    (P : Graph × Option Endpoint → Type ℓ) (d : Dds) (g : Graph) (h : ℤ) (t : EndpointType)
    (r w : Ptr)
    → P (g, none)
    → ((n : Node)
        → lookup_local_node_by_handle g h ≡ some n
        → lookup_local_endpoint_by_dds_endpoints n r w ≡ none
        → conforms d.reader_topic false t r ≡ true
        → conforms d.writer_topic true t w ≡ true
        → P (insert_endpoint d g n t r w))
    → P (register_local_endpoint d g h t r w)
unfolding register_local_endpoint
register_cases P d g h t r w refused passed =
    elim (Option-cases (lookup_local_node_by_handle g h)) [
      | inl missing ↦ rw (missing, register_local_endpoint) refused
      | inr (n, e) ↦ elim (Option-cases (lookup_local_endpoint_by_dds_endpoints n r w)) [
        | inr (x, taken) ↦ rw (e, register_local_endpoint, taken) refused
        | inl free ↦ elim (Bool-cases (conforms d.reader_topic false t r)) [
          | inr bad ↦ rw (e, register_local_endpoint, free, bad) refused
          | inl cr ↦ elim (Bool-cases (conforms d.writer_topic true t w)) [
            | inr bad ↦ rw (e, register_local_endpoint, free, cr, bad) refused
            | inl cw ↦ rw (e, register_local_endpoint, free, cr, cw) (passed n e free cr cw)
          ]
        ]
      ]
    ]

pub unregister_cases {ℓ} :
    (P : Graph × ReturnCode → Type ℓ) (g : Graph) (h : ℤ) (lookup : Node → Option Endpoint)
    → (((n : Node) → lookup_local_node_by_handle g h ≡ some n → lookup n ≡ none)
        → P (g, bad_parameter))
    → ((n : Node) (e : Endpoint)
        → lookup_local_node_by_handle g h ≡ some n
        → lookup n ≡ some e
        → P (queue_update (set_node g (drop_endpoint n e)), ok))
    → P (unregister_found g h lookup)
unfolding unregister_found finalize_endpoint
unregister_cases P g h lookup refused found =
    elim (Option-cases (lookup_local_node_by_handle g h)) [
      | inl missing ↦ rw (missing, unregister_found) (refused (λ n e. absurd (cc)))
      | inr (n, e) ↦ elim (Option-cases (lookup n)) [
        | inl none_found ↦
            rw (e, unregister_found, none_found)
              (refused (λ m f. let same : n ≡ m = cc in rw (← same) none_found))
        | inr (x, f) ↦ rw (e, unregister_found, f) (found n x e f)
      ]
    ]
