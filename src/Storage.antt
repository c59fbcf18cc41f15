-- ===== src/Storage.antt =====
-- storage/db.py: the rows of the tables that the modelled components read and write. A text column
-- that holds JSON is the value that it encodes. A timestamp is a count of microseconds: the server
-- writes them all in one ISO format and zone, in which texts compare as the instants do.
use awiki_open_server.Shared.{ℕ, String, Bool, Option, List, true, false}
use awiki_open_server.Shared.Json.{Value}

-- group_delivery_outbox.status
pub data DeliveryStatus : Type 0 where
  pending retry delivered dead : DeliveryStatus

-- hosted_group_members.status
pub data MemberStatus : Type 0 where
  active left removed : MemberStatus

pub record HostedGroup : Type 0 where
  pub group_did : String
  pub host_service_did : String
  pub creator_did : String
  pub profile : Value
  pub policy : Value
  pub group_state_version : ℕ
  pub group_event_seq : ℕ
  pub created_at : ℕ
  pub updated_at : ℕ
  pub wire_profile : String
  pub protocol_state : String

pub record HostedMember : Type 0 where
  pub group_did : String
  pub agent_did : String
  pub member_handle : Option String
  pub handle_binding_generation : Option String
  pub home_service_did : Option String
  pub role : String
  pub status : MemberStatus
  pub joined_at : ℕ
  pub ended_at : Option ℕ
  pub added_by : Option String

pub record Delivery : Type 0 where
  pub delivery_id : String
  pub group_did : String
  pub group_event_seq : ℕ
  pub target_did : String
  pub target_service_did : String
  pub method : String
  pub envelope : Value
  pub status : DeliveryStatus
  pub attempt_count : ℕ
  pub next_attempt_at : ℕ
  pub last_error : Option String
  pub created_at : ℕ
  pub updated_at : ℕ

-- The tables of the group host.
pub record Db : Type 0 where
  pub hosted_groups : List HostedGroup
  pub hosted_group_members : List HostedMember
  pub group_delivery_outbox : List Delivery

abbrev pub is_active : MemberStatus → Bool
is_active active = true
is_active _ = false

-- status IN ('pending', 'retry')
abbrev pub is_open : DeliveryStatus → Bool
is_open pending = true
is_open retry = true
is_open _ = false

-- status = 'delivered'
abbrev pub is_delivered : DeliveryStatus → Bool
is_delivered delivered = true
is_delivered _ = false
