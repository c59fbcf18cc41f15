-- ===== src/Grant/Granted.antt =====
-- Who is granted a direct attachment.
use mathlib.Core.List.{Memᴰ}
use awiki_open_server.Shared.{
  String, ◌≡◌, refl, sym, subst, Bool, true, ◌&&◌, ◌⊎◌, Option, some, List, [], ◌∷◌, Bool-cases,
  Option-cases, inl, inr, arith, ◌==◌, eq_iff, ok,
}
use awiki_open_server.Shared.Lists.{any}
use awiki_open_server.Shared.Table.{first_where}
use awiki_open_server.Shared.Json.{Value}
use awiki_open_server.ReadState.{DirectMessage}
use awiki_open_server.Grant.{
  Binding, attachments_of, is_object, attachment_manifest_has_object, is_message,
  ensure_direct_attachment_context,
}

-- The message that the binding names carries the object.
pub record IsCarried (binding : Binding) (messages : List DirectMessage) : Type 0 where
  pub message : DirectMessage
  pub sent : Memᴰ message messages
  pub named : message.message_id ≡ binding.message_id
  pub sender : message.sender_did ≡ binding.sender_did
  pub recipient : message.recipient_did ≡ binding.message_target_did
  pub attachment : Value
  pub attached : Memᴰ attachment (attachments_of message.body)
  pub object : is_object binding.attachment_id binding.object_uri attachment ≡ true

any_inv :
    (test : Value → Bool) (vs : List Value)
    → any test vs ≡ true
    → (v : Value) × Memᴰ v vs × (test v ≡ true)
any_inv test [] h = cc
any_inv test (v ∷ vs) h = elim (Bool-cases (test v)) [
  | inl e ↦ (v, Memᴰ.head refl, e)
  | inr e ↦ let (w, k, f) = any_inv test vs (rw e at h) in (w, Memᴰ.tail k, f)
]

first_where_inv :
    (test : DirectMessage → Bool) (ms : List DirectMessage) (m : DirectMessage)
    → first_where test ms ≡ some m
    → Memᴰ m ms × (test m ≡ true)
first_where_inv test [] m h = cc
first_where_inv test (x ∷ ms) m h = elim (Bool-cases (test x)) [
  | inl e ↦
      let same : x ≡ m = some-injective (rw e at h) in
      (Memᴰ.head (sym same), subst (λ (y : DirectMessage). test y ≡ true) same e)
  | inr e ↦ let (k, f) = first_where_inv test ms m (rw e at h) in (Memᴰ.tail k, f)
]
  where
    some-injective :
        {a b : DirectMessage} → ◌≡◌ {A = Option DirectMessage} (some a) (some b) → a ≡ b
    some-injective h = cc

carried :
    (binding : Binding) (messages : List DirectMessage) (m : DirectMessage)
    → first_where (is_message binding) messages ≡ some m
    → attachment_manifest_has_object m.body binding.attachment_id binding.object_uri ≡ true
    → IsCarried binding messages
unfolding attachment_manifest_has_object
carried binding messages m found has =
    let (sent, test) = first_where_inv (is_message binding) messages m found in
    let (a, attached, object) =
      any_inv (is_object binding.attachment_id binding.object_uri) (attachments_of m.body) has in
    record {
      message = m;
      sent = sent;
      named = ground (arith, eq_iff m.message_id binding.message_id);
      sender = ground (arith, eq_iff m.sender_did binding.sender_did);
      recipient = ground (arith, eq_iff m.recipient_did binding.message_target_did);
      attachment = a;
      attached = attached;
      object = object;
    }

-- Where the context of a direct attachment is accepted, the requester is the sender and the owner of
-- the object, or the sender sent the target a message of the given identifier that carries it.
pub ensure_direct_attachment_context_grants :
    (binding : Binding) (owner : String) (messages : List DirectMessage)
    → ensure_direct_attachment_context binding owner messages ≡ ok tt
    → ((binding.requester_did ≡ binding.sender_did) × (binding.sender_did ≡ owner))
      ⊎ IsCarried binding messages
unfolding ensure_direct_attachment_context
ensure_direct_attachment_context_grants binding owner messages h =
    elim (Bool-cases (binding.requester_did == binding.sender_did && binding.sender_did == owner)) [
      | inl e ↦ inl (
        ground (arith, eq_iff binding.requester_did binding.sender_did),
        ground (arith, eq_iff binding.sender_did owner),
      )
      | inr e ↦ elim (Option-cases (first_where (is_message binding) messages)) [
        | inl none_found ↦ cc (rw (e, none_found) at h)
        | inr (m, found) ↦ inr (carried binding messages m found (ground arith))
      ]
    ]
