-- ===== src/Api/Endpoints.antt =====
-- What the functions that read an endpoint return after it is registered, and after it is
-- unregistered again.
use rticonnextdds_ros2_adapt.Common.{
  ℕ, ℤ, eq_ℤ_iff, true, false, Option, none, some, inl, inr, ◌⊎◌, ◌≡◌, ◌≢◌, refl, subst, sym, ◌∙◌,
}
use rticonnextdds_ros2_adapt.Types.{
  Ptr, EndpointType, subscription, publisher, client, service, invalid_handle, Endpoint, Node,
  Graph, Dds,
}
use rticonnextdds_ros2_adapt.InlineList.{find_key-append}
use rticonnextdds_ros2_adapt.Lookup.{
  endp_key, lookup_local_node_by_handle, lookup_local_endpoint_by_handle,
}
use rticonnextdds_ros2_adapt.Endpoints.{new_endpoint, conforms, queue_update}
use rticonnextdds_ros2_adapt.Endpoints.Register.{
  Refused, Accepted, Appended, register_local_endpoint_outcome,
}
use rticonnextdds_ros2_adapt.Invariant.{GraphOk}
use rticonnextdds_ros2_adapt.Api.{
  Self, announce, find_endpoint, get_endpoint_reader, get_endpoint_writer, get_endpoint_type,
  register_local_subscription, register_local_publisher, register_local_client,
  register_local_service,
}

-- The new endpoint is found under its handle.
find_endpoint-Appended :
    (g : Graph) (h : ℤ) (n m : Node) (e : Endpoint)
    → lookup_local_node_by_handle g h ≡ some m
    → Appended n m e
    → find_endpoint g h e.handle ≡ some e
unfolding lookup_local_endpoint_by_handle
find_endpoint-Appended g h n m e found a = rw (
  found,
  a.endpoints,
  find_key-append endp_key e.handle n.endpoints e a.fresh,
  (eq_ℤ_iff e.handle e.handle).1 refl,
)

-- The DDS entities and the type of the endpoint with two handles.
abbrev pub IsEndpoint : Self → ℤ → ℤ → EndpointType → Ptr → Ptr → Type 0
IsEndpoint self h k t r w =
    (get_endpoint_type self h k ≡ t)
    × (get_endpoint_reader self h k ≡ r)
    × (get_endpoint_writer self h k ≡ w)

-- What a caller reads back, and the topic names that the detection has accepted.
abbrev pub ReadsBack : Dds → ℤ → EndpointType → Ptr → Ptr → Self × ℤ → Type 0
ReadsBack d h t r w q =
    IsEndpoint q.0 h q.1 t r w
    × (conforms d.reader_topic false t r ≡ true)
    × (conforms d.writer_topic true t w ≡ true)

find_endpoint-queue_update :
    (g : Graph) (h k : ℤ) → find_endpoint (queue_update g) h k ≡ find_endpoint g h k
unfolding queue_update lookup_local_node_by_handle
find_endpoint-queue_update g h k = refl

announce-ReadsBack :
    (d : Dds) (g : Graph) (h : ℤ) (t : EndpointType) (r w : Ptr) (q : Graph × Option Endpoint)
    → Refused g h q ⊎ Accepted d g h t r w q
    → (announce q).1 ≢ invalid_handle
    → ReadsBack d h t r w (announce q)
unfolding announce get_endpoint_reader get_endpoint_writer get_endpoint_type
announce-ReadsBack d g h t r w (g', none) (inl _) valid = absurd (valid refl)
announce-ReadsBack d g h t r w (g', some e) (inl (p, _, _)) valid = absurd (cc p)
announce-ReadsBack d g h t r w (g', o) (inr (k, n, m, p, _, found, a, _, cr, cw, _)) valid =
    let there = find_endpoint-Appended g' h n m (new_endpoint k t r w) found a in
    let there' = find_endpoint-queue_update g' h k ∙ there in
    subst (λ o'. ReadsBack d h t r w (announce (g', o'))) (sym p)
      (
        (
          rw (there', get_endpoint_type),
          rw (there', get_endpoint_reader),
          rw (there', get_endpoint_writer),
        ),
        cr,
        cw,
      )

-- Where registering a subscription in a well-formed graph answers a handle, the functions that read
-- the endpoint under it return the type, the reader and no writer, and the reader's topic name is
-- that of a subscription.
pub register_local_subscription-ReadsBack :
    (d : Dds) (g : Graph) (h : ℤ) (r : ℕ)
    → GraphOk g
    → (register_local_subscription d (some g) h (some r)).1 ≢ invalid_handle
    → ReadsBack d h subscription (some r) none (register_local_subscription d (some g) h (some r))
unfolding register_local_subscription
register_local_subscription-ReadsBack d g h r v =
    announce-ReadsBack d g h subscription (some r) none _
      (register_local_endpoint_outcome d g h subscription (some r) none v)

-- Where registering a publisher in a well-formed graph answers a handle, the functions that read the
-- endpoint under it return the type, the writer and no reader, and the writer's topic name is that
-- of a publisher.
pub register_local_publisher-ReadsBack :
    (d : Dds) (g : Graph) (h : ℤ) (w : ℕ)
    → GraphOk g
    → (register_local_publisher d (some g) h (some w)).1 ≢ invalid_handle
    → ReadsBack d h publisher none (some w) (register_local_publisher d (some g) h (some w))
unfolding register_local_publisher
register_local_publisher-ReadsBack d g h w v =
    announce-ReadsBack d g h publisher none (some w) _
      (register_local_endpoint_outcome d g h publisher none (some w) v)

-- Where registering a client in a well-formed graph answers a handle, the functions that read the
-- endpoint under it return the type, the reader and the writer, and the topic names of both are
-- those of a client.
pub register_local_client-ReadsBack :
    (d : Dds) (g : Graph) (h : ℤ) (r w : ℕ)
    → GraphOk g
    → (register_local_client d (some g) h (some r) (some w)).1 ≢ invalid_handle
    → ReadsBack d h client (some r) (some w) (register_local_client d (some g) h (some r) (some w))
unfolding register_local_client
register_local_client-ReadsBack d g h r w v =
    announce-ReadsBack d g h client (some r) (some w) _
      (register_local_endpoint_outcome d g h client (some r) (some w) v)

-- Where registering a service in a well-formed graph answers a handle, the functions that read the
-- endpoint under it return the type, the reader and the writer, and the topic names of both are
-- those of a service.
pub register_local_service-ReadsBack :
    (d : Dds) (g : Graph) (h : ℤ) (r w : ℕ)
    → GraphOk g
    → (register_local_service d (some g) h (some r) (some w)).1 ≢ invalid_handle
    → ReadsBack d h service
        (some r)
        (some w)
        (register_local_service d (some g) h (some r) (some w))
unfolding register_local_service
register_local_service-ReadsBack d g h r w v =
    announce-ReadsBack d g h service (some r) (some w) _
      (register_local_endpoint_outcome d g h service (some r) (some w) v)
