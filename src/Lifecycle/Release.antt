-- ===== src/Lifecycle/Release.antt =====
-- RTIROS2_Graph_finalize deletes what the object holds, once.
use rticonnextdds_ros2_adapt.Common.{
  ℤ, ◌+◌, ◌%◌, size_mod, dec_size, dec_size-mod, length, Bool, true, false, none, some, List, [],
  ◌∷◌, ◌≡◌, refl, ap, ◌∙◌, arith, ok, eq_ℤ_iff,
}
use rticonnextdds_ros2_adapt.Types.{Ptr, Endpoint, Node, Graph}
use rticonnextdds_ros2_adapt.InlineList.{remove, find_key}
use rticonnextdds_ros2_adapt.Lookup.{node_key, endp_key}
use rticonnextdds_ros2_adapt.Endpoints.{drop_endpoint}
use rticonnextdds_ros2_adapt.Nodes.{finalize_node, finalize_endpoints}
use rticonnextdds_ros2_adapt.Invariant.{NodeOk}
use rticonnextdds_ros2_adapt.Invariant.Counts.{count, CountsOk, drop_endpoint-CountsOk}
use rticonnextdds_ros2_adapt.Lifecycle.{
  Kind, nodes_pool, endpoints_pool, publisher, topic, writer, sample, semaphore, thread, Resource,
  World, delete, Object, Libraries,
}
use rticonnextdds_ros2_adapt.Lifecycle.Operations.{
  delete_own, delete_parts, finalize_nodes, finalize,
}
use rticonnextdds_ros2_adapt.Lifecycle.Balance.{times, own_ptr, owned, times-delete, delete-created}

-- No deletion of an entity of the graph is refused.
pub record Succeeds (l : Libraries) : Type 0 where
  pub deletes_writer : l.delete_datawriter ≡ true
  pub deletes_topic : l.delete_topic ≡ true
  pub deletes_publisher : l.delete_publisher ≡ true

delete_own_lem :
    (k : Kind) (own : Bool) (p : Ptr) (w : World)
    → delete_own k own p true w ≡ (true, delete k (own_ptr own p) w)
delete_own_lem k true none w = refl
delete_own_lem k false none w = refl
delete_own_lem k true (some a) w = refl
delete_own_lem k false (some a) w = refl

-- The world behind `delete_parts`.
abbrev parts_deleted : Object → World → World
parts_deleted o w = delete endpoints_pool o.endpoints_pool (
    delete nodes_pool o.nodes_pool (
      delete publisher (own_ptr o.graph_publisher_own o.graph_publisher) (
        delete topic (own_ptr o.graph_topic_own o.graph_topic) (
          delete writer (own_ptr o.graph_writer_own o.graph_writer) (
            delete sample o.pinfo (
              delete semaphore o.sem_pinfo_exit
                (delete semaphore o.sem_pinfo (delete semaphore o.mutex_self w))))))))

delete_parts_lem :
    (l : Libraries) (o : Object) (w : World)
    → Succeeds l
    → delete_parts l o w ≡ (true, parts_deleted o w)
unfolding delete_parts
delete_parts_lem l o w s = rw (
  delete_parts,
  s.deletes_writer,
  delete_own_lem writer o.graph_writer_own o.graph_writer,
  s.deletes_topic,
  delete_own_lem topic o.graph_topic_own o.graph_topic,
  s.deletes_publisher,
  delete_own_lem publisher o.graph_publisher_own o.graph_publisher,
)

parts_deleted-times :
    (r : Resource) (o : Object) (w : World)
    → times r (parts_deleted o (delete thread o.thread_pinfo w)).deleted
      ≡ times r w.deleted + owned r o
unfolding owned
parts_deleted-times r o w = omega (arith, times-delete)

-- Where no deletion is refused, the finalization of an object succeeds, deletes all that the object
-- holds, once, and creates nothing.
pub finalize_world :
    (l : Libraries) (o : Object) (w : World)
    → Succeeds l
    → ((finalize l o w).2 ≡ ok)
      × ((r : Resource) → times r (finalize l o w).1.deleted ≡ times r w.deleted + owned r o)
      × ((finalize l o w).1.created ≡ w.created)
unfolding finalize
finalize_world l o w s =
    let e = delete_parts_lem l o (delete thread o.thread_pinfo w) s in
    (rw e, λ r. rw e (parts_deleted-times r o w), rw e (simp delete-created))

head-removed : {A : Type 0} (key : A → ℤ) (x : A) (xs : List A) → remove key (key x) (x ∷ xs) ≡ xs
unfolding remove
head-removed key x xs = rw ((eq_ℤ_iff (key x) (key x)).1 refl)

head-found :
    {A : Type 0} (key : A → ℤ) (x : A) (xs : List A) → find_key key (key x) (x ∷ xs) ≡ some x
unfolding find_key
head-found key x xs = rw ((eq_ℤ_iff (key x) (key x)).1 refl)

-- The loop over the nodes leaves none, and counts them down to zero.
pub finalize_nodes_lem :
    (ns : List Node) (g : Graph)
    → g.nodes ≡ ns
    → g.nodes_len ≡ length ns % size_mod
    → ((finalize_nodes g ns).nodes ≡ []) × ((finalize_nodes g ns).nodes_len ≡ 0)
unfolding finalize_nodes finalize_node
finalize_nodes_lem [] g e c = (e, c)
finalize_nodes_lem (n ∷ ns) g e c =
    finalize_nodes_lem ns (finalize_node g n).0
      (ap (remove node_key n.handle) e ∙ head-removed node_key n ns)
      (ap dec_size c ∙ dec_size-mod (length ns))

-- The node that RTIROS2_Graph_finalize_node gives back to its pool.
pub record IsEmptied (n : Node) : Type 0 where
  pub endpoints : n.endpoints ≡ []
  pub endpoints_len : n.endpoints_len ≡ 0
  pub readers_len : n.readers_len ≡ 0
  pub writers_len : n.writers_len ≡ 0

finalize_endpoints_lem :
    (es : List Endpoint) (n : Node)
    → n.endpoints ≡ es
    → n.endpoints_len ≡ length es % size_mod
    → CountsOk n
    → IsEmptied (finalize_endpoints n es)
unfolding finalize_endpoints drop_endpoint count
finalize_endpoints_lem [] n e c v = record {
  endpoints = e;
  endpoints_len = c;
  readers_len = v false ∙ ap (λ es. count false es % size_mod) e;
  writers_len = v true ∙ ap (λ es. count true es % size_mod) e;
}
finalize_endpoints_lem (x ∷ es) n e c v =
    finalize_endpoints_lem es (drop_endpoint n x)
      (ap (remove endp_key x.handle) e ∙ head-removed endp_key x es)
      (ap dec_size c ∙ dec_size-mod (length es))
      (drop_endpoint-CountsOk n x (ap (find_key endp_key x.handle) e ∙ head-found endp_key x es) v)

-- The finalization of a well-formed node with right counters, as in its unregistration, releases every
-- endpoint of it and counts the endpoints, the readers and the writers down to zero.
pub finalize_node_lem :
    (g : Graph) (n : Node) → NodeOk n → CountsOk n → IsEmptied (finalize_node g n).1
unfolding finalize_node
finalize_node_lem g n v c = finalize_endpoints_lem n.endpoints n refl v.counted c
