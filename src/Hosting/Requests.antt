-- ===== src/Hosting/Requests.antt =====
-- messaging/groups/service.py: the requests that change a group, by their methods and handlers.
use awiki_open_server.Shared.{String, Result}
use awiki_open_server.Shared.Json.{Fields}
use awiki_open_server.Protocol.{Caller}
use awiki_open_server.Host.{
  HostDb, World, hosted_group_join, hosted_group_add, hosted_group_leave, hosted_group_remove,
  hosted_group_rebind_member, hosted_group_update_profile, hosted_group_update_policy,
  hosted_group_send,
}

pub data Kind : Type 0 where
  join add leave remove rebind update_profile update_policy send : Kind

abbrev pub method_of : Kind → String
method_of join = "group.join"
method_of add = "group.add"
method_of leave = "group.leave"
method_of remove = "group.remove"
method_of rebind = "group.rebind_member"
method_of update_profile = "group.update_profile"
method_of update_policy = "group.update_policy"
method_of send = "group.send"

-- The handler of a request, on the tables of its first transaction, where it has two, and on those
-- that it changes.
abbrev pub handle : Kind → World → Caller → Fields → HostDb → HostDb → Result (HostDb × Fields)
handle join world caller params earlier host = hosted_group_join world caller params earlier host
handle add world caller params earlier host = hosted_group_add world caller params earlier host
handle leave world caller params earlier host = hosted_group_leave world caller params host
handle remove world caller params earlier host = hosted_group_remove world caller params host
handle rebind world caller params earlier host =
    hosted_group_rebind_member world caller params earlier host
handle update_profile world caller params earlier host =
    hosted_group_update_profile world caller params host
handle update_policy world caller params earlier host =
    hosted_group_update_policy world caller params host
handle send world caller params earlier host = hosted_group_send world caller params host

-- The tables that a request of this kind may be replayed from before its last transaction.
abbrev pub first_tables : Kind → HostDb → HostDb → HostDb
first_tables join earlier host = earlier
first_tables add earlier host = earlier
first_tables rebind earlier host = earlier
first_tables _ earlier host = host
