-- ===== src/Lifecycle/Balance.antt =====
-- How often a resource was created and deleted, and how often an object of src/adapter_c/graph_impl.h
-- holds it for its deletion.
use rticonnextdds_ros2_adapt.Common.{
  ℕ, ◌+◌, ◌==◌, ◌&&◌, Bool, true, false, is_some, if◌then◌else◌, none, some, List, [], ◌∷◌, ◌≡◌,
  refl, arith,
}
use rticonnextdds_ros2_adapt.Types.{Ptr}
use rticonnextdds_ros2_adapt.Lifecycle.{
  Kind, eq_Kind, nodes_pool, endpoints_pool, publisher, topic, writer, sample, semaphore, thread,
  Resource, World, create, delete, Object,
}

abbrev pub eq_Resource : Resource → Resource → Bool
eq_Resource (k, a) (j, b) = eq_Kind k j && (a == b)

unfoldable pub times : Resource → List Resource → ℕ
times r [] = 0
times r (x ∷ xs) = (if eq_Resource r x then 1 else 0) + times r xs

-- 1 where the address, which may be NULL, is the resource.
unfoldable pub hit : Resource → Kind → Ptr → ℕ
hit r k none = 0
hit r k (some a) = if eq_Resource r (k, a) then 1 else 0

-- An entity that was given by the user counts as NULL.
abbrev pub own_ptr : Bool → Ptr → Ptr
own_ptr true p = p
own_ptr false p = none

-- How often RTIROS2_Graph_finalize deletes a resource of the object.
unfoldable pub owned : Resource → Object → ℕ
owned r o =
    hit r thread o.thread_pinfo
    + hit r semaphore o.mutex_self
    + hit r semaphore o.sem_pinfo
    + hit r semaphore o.sem_pinfo_exit
    + hit r sample o.pinfo
    + hit r writer (own_ptr o.graph_writer_own o.graph_writer)
    + hit r topic (own_ptr o.graph_topic_own o.graph_topic)
    + hit r publisher (own_ptr o.graph_publisher_own o.graph_publisher)
    + hit r nodes_pool o.nodes_pool
    + hit r endpoints_pool o.endpoints_pool

pub own_ptr-new : (p : Ptr) → own_ptr (is_some p) p ≡ p
own_ptr-new none = refl
own_ptr-new (some a) = refl

pub times-create :
    (r : Resource) (k : Kind) (p : Ptr) (w : World)
    → times r (create k p w).created ≡ times r w.created + hit r k p
unfolding times hit
times-create r k none w = omega arith
times-create r k (some a) w = omega arith

pub create-deleted : (k : Kind) (p : Ptr) (w : World) → (create k p w).deleted ≡ w.deleted
create-deleted k none w = refl
create-deleted k (some a) w = refl

pub times-delete :
    (r : Resource) (k : Kind) (p : Ptr) (w : World)
    → times r (delete k p w).deleted ≡ times r w.deleted + hit r k p
unfolding times hit
times-delete r k none w = omega arith
times-delete r k (some a) w = omega arith

pub delete-created : (k : Kind) (p : Ptr) (w : World) → (delete k p w).created ≡ w.created
delete-created k none w = refl
delete-created k (some a) w = refl

-- From one world to another every resource was created as often as it was deleted.
abbrev pub Balanced : World → World → Type 0
Balanced w w' =
    (r : Resource) → times r w'.created + times r w.deleted ≡ times r w'.deleted + times r w.created

-- All that was created since the first world is held by the object, and nothing was deleted.
pub record Holds (w0 : World) (o : Object) (w : World) : Type 0 where
  pub held : (r : Resource) → times r w.created ≡ times r w0.created + owned r o
  pub kept : w.deleted ≡ w0.deleted
