-- ===== src/Host/Reading/Pages.antt =====
-- messaging/groups/service.py: hosted_group_list_messages and projected_group_list_messages.
use awiki_open_server.Shared.{
  ℕ, suc, String, Bool, false, not, ◌&&◌, none, List, [], ◌∷◌, map, if◌then◌else◌, ltb, ◌==◌,
  Result, ok, err, AwikiError, invalid_params, not_found, python_error, raise_if, ◌>>=◌, ◌>>◌,
}
use awiki_open_server.Shared.Lists.{any, length, take}
use awiki_open_server.Shared.Decimal.{show}
use awiki_open_server.Shared.Table.{select_where, order_by}
use awiki_open_server.Shared.Python.{ℤ, pos, negsuc, int_of, catching}
use awiki_open_server.Shared.Json.{
  Value, Items, Fields, str, num, bool, obj, arr, nil, cons, end, field, get, keys, contains,
}
use awiki_open_server.Protocol.{require_string, get_or}
use awiki_open_server.Host.Tables.{HostDb, World, HostedMessage, MessageView, GroupView}
use awiki_open_server.Host.Projections.{is_view}
use awiki_open_server.Host.Changes.{group_row, active_member}

abbrev invalid_since : AwikiError
invalid_since = invalid_params "group.messages_since_seq_invalid"

-- since < 0 or limit < 1 or limit > 100
abbrev page_bounds : ℤ → ℤ → Result (ℕ × ℕ)
page_bounds since (negsuc n) = err invalid_since
page_bounds (pos since) (pos limit) = do
  raise_if (ltb 100 limit) (invalid_params "limit_too_large")
  raise_if (ltb limit 1) invalid_since
  ok (since, limit)
page_bounds (negsuc n) (pos limit) =
    err (if ltb 100 limit then invalid_params "limit_too_large" else invalid_since)

unfoldable page_numbers : World → Fields → Result (ℤ × ℤ)
unfolding int_of
page_numbers world params = do
  since ←
      int_of world.truncate (get_or params "since_event_seq" (get_or params "since_seq" (num 0)))
  limit ← int_of world.truncate (get_or params "limit" (num 50))
  ok (since, limit)

unfoldable pub page_request : World → Fields → Result (ℕ × ℕ)
unfolding page_numbers catching
page_request world params = do
  bounds ← catching ("TypeError" ∷ "ValueError" ∷ []) invalid_since (page_numbers world params)
  page_bounds bounds.0 bounds.1

-- A page of rows whose place is `seq`: at most `limit` rows behind `since`, whether more follow, and
-- the place that the next page starts behind.
pub record Page {ℓ} (R : Type ℓ) : Type ℓ where
  pub rows : List R
  pub has_more : Bool
  pub next_since : ℕ

module _ {ℓ} {R : Type ℓ} (seq : R → ℕ) where
  -- messages[-1]["group_event_seq"] if messages else since
  abbrev pub last_seq : ℕ → List R → ℕ
  last_seq since [] = since
  last_seq since (r ∷ rest) = last_seq (seq r) rest

  -- WHERE group_event_seq > since ORDER BY group_event_seq LIMIT limit + 1, and rows[:limit]
  unfoldable pub page_of : ℕ → ℕ → List R → Page R
  page_of since limit rows =
      let behind =
        order_by (λ a b. ltb (seq a) (seq b)) (select_where (λ r. ltb since (seq r)) rows) in
      let fetched = take (suc limit) behind in
      record {
        rows = take limit fetched;
        has_more = ltb limit (length fetched);
        next_since = last_seq since (take limit fetched);
      }

abbrev pub has_type : String → String
has_type content_type =
    if content_type == "application/anp-attachment-manifest+json"
    then "attachment_manifest"
    else if content_type == "application/json"
    then "json"
    else "binary"

-- The kind of a message of the host and its content: a text/plain body without text is a KeyError.
abbrev hosted_content : HostedMessage → Result (String × Value)
hosted_content m =
    if m.content_type == "text/plain"
    then (raise_if (not (contains (keys m.body) "text")) (python_error "KeyError")
        >> ok ("text", get m.body "text"))
    else ok (has_type m.content_type, get_or m.body "payload" (get m.body "payload_b64u"))

unfoldable pub hosted_dto : World → HostedMessage → Result Value
hosted_dto world m = hosted_content m >>= λ content. ok (
    obj (
      field "id" (str m.message_id) (
        field "message_id" (str m.message_id) (
          field "group_did" (str m.group_did) (
            field "sender_did" (str m.sender_did) (
              field "operation_id" (str m.operation_id) (
                field "body" (obj m.body) (
                  field "type" (str content.0) (
                    field "content" content.1 (
                      field "content_type" (str m.content_type) (
                        field "server_seq" (num m.group_event_seq) (
                          field "group_event_seq" (str (show m.group_event_seq)) (
                            field "created_at" (str (world.time_text m.created_at))
                              (field "group_receipt" (obj m.receipt) end))))))))))))))

unfoldable pub view_dto : World → MessageView → Value
view_dto world m = obj (
    field "id" (str m.message_id) (
      field "message_id" (str m.message_id) (
        field "group_did" (str m.group_did) (
          field "sender_did" (str m.sender_did) (
            field "operation_id" (str m.operation_id) (
              field "content_type" (str m.content_type) (
                field "body" (obj m.body) (
                  field "content"
                    (get_or m.body "text" (get_or m.body "payload" (get m.body "payload_b64u")))
                    (field "type"
                      (str (
                        if m.content_type == "text/plain" then "text" else has_type m.content_type))
                      (field "server_seq" (num m.group_event_seq) (
                        field "group_event_seq" (str (show m.group_event_seq)) (
                          field "group_state_version" (str (show m.group_state_version)) (
                            field "group_receipt" (obj m.receipt) (
                              field "accepted_at" (str (world.time_text m.accepted_at))
                                end))))))))))))))

abbrev items : List Value → Items
items [] = nil
items (v ∷ vs) = cons v (items vs)

unfoldable pub page_dto : String → String → ℕ → List Value → Bool → Value
page_dto source group_did next_since messages has_more = obj (
    field "group_did" (str group_did) (
      field "messages" (arr (items messages)) (
        field "total" (num (length messages)) (
          field "has_more" (bool has_more) (
            field "next_since_seq" (str (show next_since)) (
              field "next_server_seq" (str (show next_since))
                (field "source" (str source) end)))))))

unfoldable each_dto : World → List HostedMessage → Result (List Value)
unfolding hosted_dto
each_dto world [] = ok []
each_dto world (m ∷ rest) = do dto ← hosted_dto world m; more ← each_dto world rest; ok (dto ∷ more)

-- `owner` is the DID of the login.
unfoldable pub hosted_group_list_messages : World → String → Fields → HostDb → Result Value
unfolding require_string page_request group_row active_member each_dto page_dto
hosted_group_list_messages world owner params host = do
  group_did ← require_string (get params "group_did") "group_did_required"
  bounds ← page_request world params
  group_row host group_did none false >>= λ group. ok tt
  active_member host group_did owner >>= λ member. ok tt
  let page =
      page_of (λ (m : HostedMessage). m.group_event_seq) bounds.0 bounds.1
        (select_where (λ (m : HostedMessage). m.group_did == group_did) host.hosted_group_messages)
  dtos ← each_dto world page.rows
  ok (page_dto "local_projection" group_did page.next_since dtos page.has_more)

abbrev pub is_active_view : String → String → GroupView → Bool
is_active_view owner group_did v = is_view owner group_did v && v.membership_status == "active"

unfoldable pub projected_group_list_messages : World → String → Fields → HostDb → Result Value
unfolding require_string page_request view_dto page_dto
projected_group_list_messages world owner params host = do
  group_did ← require_string (get params "group_did") "group_did_required"
  bounds ← page_request world params
  raise_if (not (any (is_active_view owner group_did) host.group_views))
      (not_found "group.projection_not_found")
  let page =
      page_of (λ (m : MessageView). m.group_event_seq) bounds.0 bounds.1
        (select_where (λ (m : MessageView). m.owner_did == owner && m.group_did == group_did)
          host.group_message_views)
  ok (
      page_dto "remote_projection" group_did page.next_since (map (view_dto world) page.rows)
        page.has_more)
