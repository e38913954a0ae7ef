-- ===== src/Cpp/Session.antt =====
-- The C++ methods do what the C functions do: sequences of calls of them refine sequences of calls of
-- the C functions.
use rticonnextdds_ros2_adapt.Common.{
  ℕ, zero, suc, subst, take, arith, ℤ, CString, Option, none, some, List, [], ◌∷◌, ◌≡◌, refl, ◌⊎◌,
  inl, inr, ReturnCode, map, ◌>>=◌,
}
use rticonnextdds_ros2_adapt.Types.{Ptr, Dds}
use rticonnextdds_ros2_adapt.Api as C
use rticonnextdds_ros2_adapt.Api.{Self}
use rticonnextdds_ros2_adapt.Api.Session.{Call, step, run, c_answer, c_answers}
use rticonnextdds_ros2_adapt.Invariant.{GraphOk}
use rticonnextdds_ros2_adapt.Spec.{Trace, abs}
use rticonnextdds_ros2_adapt.Spec.Refines.{requests_of, run-Trace_from}
use rticonnextdds_ros2_adapt.Cpp.{Raised, raise_unless_ok, CppGraph}
use rticonnextdds_ros2_adapt.Cpp.Methods.{
  c_str, registry, with_registry, namespace_or_null, register_local_node, inspect_local_node,
  register_local_subscription, register_local_publisher, register_local_client,
  register_local_service, unregister_local_node, unregister_local_subscription,
  unregister_local_publisher, unregister_local_client, unregister_local_service,
  unregister_by_handle,
}

-- A call of a method that may change the graph.
pub data Method : Type 0 where
  add_node : CString → CString → Ptr → Method
  inspect remove_node : ℤ → Method
  add_subscription add_publisher : ℤ → ℕ → Method
  add_client add_service : ℤ → ℕ → ℕ → Method
  remove_subscription remove_publisher : ℤ → ℕ → Method
  remove_client remove_service : ℤ → ℕ → ℕ → Method
  remove_handle : ℤ → ℤ → Method

-- The text that a C function reads in a string: the characters before its first NUL.
unfoldable pub nul_position : CString → ℕ
nul_position [] = 0
nul_position (zero ∷ s) = 0
nul_position (suc c ∷ s) = suc (nul_position s)

abbrev pub text_of : CString → CString
text_of s = take (nul_position s) s

-- The call of a C function that it stands for, given the participant of the graph: a node without a
-- namespace has none, and one without a participant has the graph's.
abbrev pub call_of : ℕ → Method → Call
call_of p (add_node name [] none) = Call.register_node (some (text_of name)) none (some p)
call_of p (add_node name [] (some q)) = Call.register_node (some (text_of name)) none (some q)
call_of p (add_node name (c ∷ ns) none) =
    Call.register_node (some (text_of name)) (some (text_of (c ∷ ns))) (some p)
call_of p (add_node name (c ∷ ns) (some q)) =
    Call.register_node (some (text_of name)) (some (text_of (c ∷ ns))) (some q)
call_of p (inspect h) = Call.inspect_node h
call_of p (remove_node h) = Call.unregister_node h
call_of p (add_subscription h r) = Call.register_subscription h (some r)
call_of p (add_publisher h w) = Call.register_publisher h (some w)
call_of p (add_client h r w) = Call.register_client h (some r) (some w)
call_of p (add_service h r w) = Call.register_service h (some r) (some w)
call_of p (remove_subscription h r) = Call.unregister_subscription h (some r)
call_of p (remove_publisher h w) = Call.unregister_publisher h (some w)
call_of p (remove_client h r w) = Call.unregister_client h (some r) (some w)
call_of p (remove_service h r w) = Call.unregister_service h (some r) (some w)
call_of p (remove_handle h k) = Call.unregister_handle h k

-- A method answers a handle, or returns, or throws.
abbrev pub Answer : Type 0
Answer = ℤ ⊎ Raised

abbrev with_handle : CppGraph × ℤ → Option (CppGraph × Answer)
with_handle (o, h) = some (o, inl h)

abbrev with_raised : CppGraph × Raised → Option (CppGraph × Answer)
with_raised (o, e) = some (o, inr e)

abbrev with_option : Option (CppGraph × Raised) → Option (CppGraph × Answer)
with_option none = none
with_option (some q) = with_raised q

-- `none` is a read through NULL.
unfoldable pub perform : Dds → CppGraph → Method → Option (CppGraph × Answer)
perform d o (add_node name ns q) = with_handle (register_local_node d o name ns q)
perform d o (inspect h) = with_option (inspect_local_node d o h)
perform d o (remove_node h) = with_option (unregister_local_node o h)
perform d o (add_subscription h r) = with_handle (register_local_subscription d o h r)
perform d o (add_publisher h w) = with_handle (register_local_publisher d o h w)
perform d o (add_client h r w) = with_handle (register_local_client d o h r w)
perform d o (add_service h r w) = with_handle (register_local_service d o h r w)
perform d o (remove_subscription h r) = with_raised (unregister_local_subscription o h r)
perform d o (remove_publisher h w) = with_raised (unregister_local_publisher o h w)
perform d o (remove_client h r w) = with_raised (unregister_local_client o h r w)
perform d o (remove_service h r w) = with_raised (unregister_local_service o h r w)
perform d o (remove_handle h k) = with_raised (unregister_by_handle o h k)

abbrev pub translate : ℤ ⊎ ReturnCode → Answer
translate (inl h) = inl h
translate (inr rc) = inr (raise_unless_ok rc)

-- One method and its C function: the graph, and what is answered.
Refines : Dds → CppGraph → Method → Type 0
Refines d o m =
    let c = call_of o.graph_participant m in
    (a : ℤ ⊎ ReturnCode) × (c_answer d (registry o) c ≡ some a)
    × (perform d o m ≡ some (with_registry o (some (step d (registry o) c)), translate a))

c_str_text : (s : CString) → c_str s ≡ text_of s
unfolding c_str nul_position
c_str_text [] = refl
c_str_text (zero ∷ s) = refl
c_str_text (suc c ∷ s) = ground (arith, c_str_text s)

namespace_of_empty : namespace_or_null [] ≡ none
namespace_of_empty = refl

namespace_of_text : (c : ℕ) (s : CString) → namespace_or_null (c ∷ s) ≡ some (text_of (c ∷ s))
namespace_of_text c s = ground (arith, c_str_text (c ∷ s))

add_node-Refines :
    (d : Dds) (o : CppGraph) (name ns : CString) (q : Ptr) → Refines d o (add_node name ns q)
unfolding Refines perform c_answer step register_local_node
add_node-Refines d o name [] none = rw (c_str_text name) (_, refl, refl)
add_node-Refines d o name [] (some q) = rw (c_str_text name) (_, refl, refl)
add_node-Refines d o name (c ∷ ns) none =
    rw (← c_str_text name, ← namespace_of_text c ns) (_, refl, refl)
add_node-Refines d o name (c ∷ ns) (some q) =
    rw (← c_str_text name, ← namespace_of_text c ns) (_, refl, refl)

perform-Refines : (d : Dds) (o : CppGraph) (m : Method) → Refines d o m
unfolding Refines perform c_answer step inspect_local_node register_local_subscription
    register_local_publisher register_local_client register_local_service unregister_local_node
    unregister_local_subscription unregister_local_publisher unregister_local_client
    unregister_local_service unregister_by_handle C.inspect_local_node C.unregister_local_node
perform-Refines d o (add_node name ns q) = add_node-Refines d o name ns q
perform-Refines d o (inspect h) = (_, refl, refl)
perform-Refines d o (remove_node h) = (_, refl, refl)
perform-Refines d o (add_subscription h r) = (_, refl, refl)
perform-Refines d o (add_publisher h w) = (_, refl, refl)
perform-Refines d o (add_client h r w) = (_, refl, refl)
perform-Refines d o (add_service h r w) = (_, refl, refl)
perform-Refines d o (remove_subscription h r) = (_, refl, refl)
perform-Refines d o (remove_publisher h w) = (_, refl, refl)
perform-Refines d o (remove_client h r w) = (_, refl, refl)
perform-Refines d o (remove_service h r w) = (_, refl, refl)
perform-Refines d o (remove_handle h k) = (_, refl, refl)

-- A sequence of methods, with what they answer.
unfoldable pub perform_all : CppGraph → List (Dds × Method) → Option (CppGraph × List Answer)
perform_all o [] = some (o, [])
perform_all o ((d, m) ∷ ms) =
    perform d o m >>= λ (o', a). perform_all o' ms >>= λ (o'', rest). some (o'', a ∷ rest)

abbrev pub calls_of : ℕ → List (Dds × Method) → List (Dds × Call)
calls_of p [] = []
calls_of p ((d, m) ∷ ms) = (d, call_of p m) ∷ calls_of p ms

perform_all_lem :
    (o : CppGraph) (ms : List (Dds × Method))
    → let cs = calls_of o.graph_participant ms in
      (rest : List (ℤ ⊎ ReturnCode)) × (c_answers (registry o) cs ≡ some rest)
      × (perform_all o ms ≡ some (with_registry o (some (run (registry o) cs)), map translate rest))
unfolding perform_all c_answers run Refines
perform_all_lem o [] = ([], refl, refl)
perform_all_lem o ((d, m) ∷ ms) =
    let (a, e, f) = perform-Refines d o m in
    let o' = with_registry o (some (step d (registry o) (call_of o.graph_participant m))) in
    let (rest, h, i) = perform_all_lem o' ms in (a ∷ rest, rw (e, h), rw (f, i))

-- A sequence of methods on an object with a well-formed C graph does to that graph what the same
-- sequence of C functions does, with the graph's participant for a nil one, no namespace for an empty
-- one, and texts up to their first NUL, and so what the specification of the C functions allows; it
-- changes nothing else of the object. Each method returns the handle that its C function answers, or
-- throws exactly if that answers another code than OK; and no C function reads through NULL.
pub perform_all-run :
    (o : CppGraph) (ms : List (Dds × Method))
    → GraphOk (registry o)
    → let cs = calls_of o.graph_participant ms in
      (rest : List (ℤ ⊎ ReturnCode)) × (c_answers (registry o) cs ≡ some rest)
      × (perform_all o ms ≡ some (with_registry o (some (run (registry o) cs)), map translate rest))
      × Trace
          (registry o).graph_participant
          (abs (registry o))
          (requests_of cs)
          rest
          (abs (run (registry o) cs))
perform_all-run o ms v =
    let cs = calls_of o.graph_participant ms in
    let (rest, e, f) = perform_all_lem o ms in
    let (answers, h, trace) =
      run-Trace_from (registry o) (registry o).graph_participant cs v refl in
    let same : answers ≡ rest = cc in
    (
      rest,
      e,
      f,
      subst
          (λ xs.
            Trace (registry o).graph_participant (abs (registry o)) (requests_of cs) xs
              (abs (run (registry o) cs)))
          same trace,
    )
