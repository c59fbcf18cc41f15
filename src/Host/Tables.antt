-- ===== src/Host/Tables.antt =====
-- storage/db.py: the tables that the handlers of the group host read and write, beside those of
-- Storage. A view is what a member has of a group.
use awiki_open_server.Shared.{
  ℕ, String, Bool, Option, List, Result, if◌then◌else◌, map, [], ◌∷◌, ◌++◌,
}
use awiki_open_server.Shared.Lists.{any}
use awiki_open_server.Shared.Python.{ℤ}
use awiki_open_server.Shared.Json.{Value, Fields}
use awiki_open_server.Storage.{Db}
use awiki_open_server.Delivery.{Settings}
use awiki_open_server.Operations.{Operation}

pub record GroupEvent : Type 0 where
  pub group_did : String
  pub group_event_seq : ℕ
  pub event_id : String
  pub event_type : String
  pub group_state_version : ℕ
  pub subject_method : String
  pub actor_did : String
  pub payload : Value
  pub payload_digest : String
  pub receipt : Fields
  pub created_at : ℕ

pub record HostedMessage : Type 0 where
  pub message_id : String
  pub group_did : String
  pub group_event_seq : ℕ
  pub sender_did : String
  pub operation_id : String
  pub body : Fields
  pub content_type : String
  pub origin_auth : Fields
  pub receipt : Fields
  pub created_at : ℕ
  pub wire_profile : String
  pub meta : Fields

pub record GroupDocument : Type 0 where
  pub group_did : String
  pub document : Value
  pub key_reference : String
  pub created_at : ℕ

pub record GroupView : Type 0 where
  pub owner_did : String
  pub group_did : String
  pub host_service_did : String
  pub profile : Value
  pub policy : Value
  pub group_state_version : ℕ
  pub group_event_seq : ℕ
  pub member_role : String
  pub membership_status : String
  pub updated_at : ℕ
  pub wire_profile : String
  pub observed_event_seq : ℕ
  pub observed_state_version : ℕ

pub record MemberView : Type 0 where
  pub owner_did : String
  pub group_did : String
  pub agent_did : String
  pub member_handle : Option String
  pub handle_binding_generation : Option String
  pub role : String
  pub status : String
  pub joined_at : Option ℕ
  pub updated_at : ℕ

pub record MessageView : Type 0 where
  pub owner_did : String
  pub group_did : String
  pub message_id : String
  pub group_event_seq : ℕ
  pub group_state_version : ℕ
  pub sender_did : String
  pub operation_id : String
  pub content_type : String
  pub body : Fields
  pub receipt : Fields
  pub accepted_at : ℕ
  pub wire_profile : String

pub record SyncEvent : Type 0 where
  pub event_id : String
  pub owner_did : String
  pub event_seq : ℕ
  pub event_type : String
  pub payload : Fields
  pub created_at : ℕ

pub record User : Type 0 where
  pub did : String
  pub handle_binding_generation : String
  pub is_revoked : Bool

pub record Profile : Type 0 where
  pub did : String
  pub handle : String

pub record DidDocument : Type 0 where
  pub did : String
  pub document : Value
  pub updated_at : ℕ
  pub is_active : Bool
  pub is_revoked : Bool

-- The table `groups`, of the groups that came before the group host, and their members.
pub record LegacyGroup : Type 0 where
  pub group_did : String
  pub display_name : String
  pub description : Option String
  pub created_at : ℕ

pub record LegacyMember : Type 0 where
  pub group_did : String
  pub member_did : String
  pub role : String

pub record HostDb : Type 0 where
  pub db : Db
  pub hosted_group_events : List GroupEvent
  pub hosted_group_messages : List HostedMessage
  pub group_operations : List Operation
  pub group_did_documents : List GroupDocument
  pub group_views : List GroupView
  pub group_member_views : List MemberView
  pub group_message_views : List MessageView
  pub sync_events : List SyncEvent
  pub users : List User
  pub profiles : List Profile
  pub did_documents : List DidDocument
  pub groups : List LegacyGroup
  pub group_members : List LegacyMember

-- identity.py
pub record VerifiedHandleBinding : Type 0 where
  pub handle : String
  pub did : String
  pub binding_generation : String

-- What a handler draws from outside in one call: its settings, the clock and the text of a time,
-- fresh identifiers, the keys of groups, the resolution of DIDs and handles, canonical JSON, and
-- int() of a number that is negative or no integer.
pub record World : Type 0 where
  pub settings : Settings
  pub did_domain : String
  pub group_max_message_bytes : ℕ
  pub now : ℕ
  pub time_text : ℕ → String
  pub event_id : String
  pub delivery_ids : ℕ → String
  pub sync_ids : ℕ → String
  pub sign_receipt : Fields → String → Result Fields
  pub belongs_to_domain : String → Bool
  pub discover_service : String → Result Value
  pub resolve_remote_handle : String → Result VerifiedHandleBinding
  pub binding_generation_is_newer : String → String → Result Bool
  pub canonical_length : Fields → ℕ
  pub truncate : String → Result ℤ

-- INSERT … ON CONFLICT DO UPDATE
module _ {ℓ} {R : Type ℓ} where
  unfoldable pub upsert : (R → Bool) → (R → R) → R → List R → List R
  upsert same change row t =
      if any same t then map (λ r. if same r then change r else r) t else t ++ row ∷ []
