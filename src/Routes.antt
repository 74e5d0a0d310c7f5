-- ===== src/Routes.antt =====
-- python/python/glide/routes.py: where a request is sent.
use mathlib.Core.Option
use glide_for_redis.Common.{arith, ◌≡◌, refl, ◌⊎◌, inl, inr, Option, none, some, String}
use glide_for_redis.Common.Text.{ℤ}
use glide_for_redis.Exceptions.{invalid_route_type, Outcome, returned, raised}
use glide_for_redis.Protocol.{
  SimpleRoutes, SlotTypes, primary, replica, Routes, simple_routes, slot_key_route, slot_id_route,
  RedisRequest,
}

pub data SlotType : Type 0 where
  primary_slot replica_slot : SlotType

-- The classes below `Route`. `other_route` is an object of any other class.
pub data Route : Type 0 where
  all_nodes all_primaries random_node other_route : Route
  slot_key : SlotType → String → Route
  slot_id : SlotType → ℤ → Route

pub to_protobuf_slot_type : SlotType → SlotTypes
to_protobuf_slot_type primary_slot = primary
to_protobuf_slot_type replica_slot = replica

unfoldable pub set_protobuf_route : RedisRequest → Option Route → Outcome RedisRequest
unfolding to_protobuf_slot_type
set_protobuf_route request none = returned request
set_protobuf_route request (some all_nodes) =
    returned (record request { route = some (simple_routes SimpleRoutes.all_nodes) })
set_protobuf_route request (some all_primaries) =
    returned (record request { route = some (simple_routes SimpleRoutes.all_primaries) })
set_protobuf_route request (some random_node) =
    returned (record request { route = some (simple_routes SimpleRoutes.random) })
set_protobuf_route request (some (slot_key t k)) =
    returned (record request { route = some (slot_key_route (to_protobuf_slot_type t) k) })
set_protobuf_route request (some (slot_id t i)) =
    returned (record request { route = some (slot_id_route (to_protobuf_slot_type t) i) })
set_protobuf_route request (some other_route) = raised invalid_route_type

-- The route of a message read back, as the core reads it.
abbrev pub read_slot_type : SlotTypes → SlotType
read_slot_type primary = primary_slot
read_slot_type replica = replica_slot

abbrev pub read_route : Routes → Route
read_route (simple_routes SimpleRoutes.all_nodes) = all_nodes
read_route (simple_routes SimpleRoutes.all_primaries) = all_primaries
read_route (simple_routes SimpleRoutes.random) = random_node
read_route (slot_key_route t k) = slot_key (read_slot_type t) k
read_route (slot_id_route t i) = slot_id (read_slot_type t) i

read-to_protobuf : (t : SlotType) → read_slot_type (to_protobuf_slot_type t) ≡ t
unfolding to_protobuf_slot_type
read-to_protobuf primary_slot = refl
read-to_protobuf replica_slot = refl

-- On a request without a route, a route of a known class is set so that it can be read back from
-- the message, and no route leaves it unset; the rest of the request stays as it is. An object of
-- another class raises.
pub set_protobuf_route_lem :
    (request : RedisRequest) (route : Option Route)
    → request.route ≡ none
    → ((sent : RedisRequest) × (set_protobuf_route request route ≡ returned sent)
        × (Option.map read_route sent.route ≡ route)
        × (sent.callback_idx ≡ request.callback_idx)
        × (sent.command ≡ request.command))
      ⊎ ((route ≡ some other_route)
          × (set_protobuf_route request route ≡ raised invalid_route_type))
unfolding set_protobuf_route
set_protobuf_route_lem request none e = inl (request, refl, ground arith, refl, refl)
set_protobuf_route_lem request (some all_nodes) e = inl (_, refl, refl, refl, refl)
set_protobuf_route_lem request (some all_primaries) e = inl (_, refl, refl, refl, refl)
set_protobuf_route_lem request (some random_node) e = inl (_, refl, refl, refl, refl)
set_protobuf_route_lem request (some (slot_key t k)) e =
    inl (_, refl, rw (read-to_protobuf t), refl, refl)
set_protobuf_route_lem request (some (slot_id t i)) e =
    inl (_, refl, rw (read-to_protobuf t), refl, refl)
set_protobuf_route_lem request (some other_route) e = inr (refl, refl)
