-- ===== src/Client/Login/Step.antt =====
-- The steps of the client: what its pages call and what its socket signals
-- (`src/client/backend/login_backend.cpp` under `src`).
pub mod Quiet
pub mod Calm
pub mod Keeping
use bigxin.Prelude.{ℕ, ◌≡◌, String, Bool, true, List}
use bigxin.Client.Qt.{Qt}
use bigxin.Client.MessageCache.{Disk}
use bigxin.Client.Network.{Wire, Socket, unconnected, connected}
use bigxin.Client.Login.{
  Picture, Backend, clear_error, log_in, register_account, update_display_name, update_avatar,
  update_group_avatar,
}
use bigxin.Client.Login.Friends.{
  request_friend_list, request_friend_request_list, search_friend_by_account, send_friend_request,
  accept_friend_request, reject_friend_request, delete_friend, open_single_conversation,
}
use bigxin.Client.Login.Groups.{
  create_group_conversation, leave_conversation, mute_member, unmute_member, set_admin,
  search_group_by_id, send_group_join_request, request_group_join_request_list,
  accept_group_join_request, rename_group,
}
use bigxin.Client.Login.Messages.{
  send_message, send_world_text_message, request_history, request_initial_world_history,
  request_conversation_list, request_conversation_members, open_conversation,
  mark_conversation_as_read, recall_message, react_to_message, unreact_to_message,
}
use bigxin.Client.Login.Events.{
  on_network_connected, on_network_error, on_network_disconnected, on_bytes,
}

module _ (q : Qt) (w : Wire q.Object) where
  abbrev pub with_socket : Socket → Backend q → Backend q
  with_socket s b = record b { network = record b.network { socket = s } }

  -- A call of a page that neither logs in nor registers.
  pub data Call (b : Backend q) : Backend q → Type 0 where
    clearing : Call b (clear_error q b)
    naming : (name : String) → Call b (update_display_name q w name b)
    showing : (file : Picture) → Call b (update_avatar q w file b)
    showing_group : (c : String) (file : Picture) → Call b (update_group_avatar q w c file b)
    listing_friends : Call b (request_friend_list q w b)
    listing_requests : Call b (request_friend_request_list q w b)
    searching : (account : String) → Call b (search_friend_by_account q w account b)
    befriending : (peer hello : String) → Call b (send_friend_request q w peer hello b)
    accepting : (r : String) → Call b (accept_friend_request q w r b)
    rejecting : (r : String) → Call b (reject_friend_request q w r b)
    deleting : (f : String) → Call b (delete_friend q w f b)
    pairing : (peer : String) → Call b (open_single_conversation q w peer b)
    grouping : (us : List String) (name : String) → Call b (create_group_conversation q w us name b)
    leaving : (c : String) → Call b (leave_conversation q w c b)
    muting : (c t : String) (seconds : ℕ) → Call b (mute_member q w c t seconds b)
    unmuting : (c t : String) → Call b (unmute_member q w c t b)
    ranking : (c t : String) (admin : Bool) → Call b (set_admin q w c t admin b)
    searching_group : (g : String) → Call b (search_group_by_id q w g b)
    joining : (g hello : String) → Call b (send_group_join_request q w g hello b)
    listing_joins : Call b (request_group_join_request_list q w b)
    answering : (r : String) (accept : Bool) → Call b (accept_group_join_request q w r accept b)
    renaming : (c name : String) → Call b (rename_group q w c name b)
    sending : (now : ℕ) (c content : String) → Call b (send_message q w now c content b)
    sending_world :
        (now : ℕ) (content : String) → Call b (send_world_text_message q w now content b)
    asking : (c : String) → Call b (request_history q w c b)
    asking_world : Call b (request_initial_world_history q w b)
    listing : Call b (request_conversation_list q w b)
    listing_members : (c : String) → Call b (request_conversation_members q w c b)
    opening : (disk : Disk) (c : String) → Call b (open_conversation q w disk c b)
    marking : (c : String) (seq : ℕ) → Call b (mark_conversation_as_read q w c seq b)
    recalling : (c m : String) → Call b (recall_message q w c m b)
    reacting : (c m type : String) → Call b (react_to_message q w c m type b)
    unreacting : (c m type : String) → Call b (unreact_to_message q w c m type b)

  -- A step of the client. The socket may report an error before or after it is closed.
  pub data Step (b : Backend q) : Backend q → Type 0 where
    calling : {b' : Backend q} → Call b b' → Step b b'
    logging_in : (account password : String) → Step b (log_in q w account password b)
    registering :
        (account password confirm : String)
        → Step b (register_account q w account password confirm b)
    connected_now : Step b (on_network_connected q w (with_socket connected b))
    failing : Step b (on_network_error q b)
    failing_closed : Step b (on_network_error q (with_socket unconnected b))
    disconnected_now : Step b (on_network_disconnected q (with_socket unconnected b))
    reading : (disk : Disk) (now : ℕ) (bytes : List ℕ) → Step b (on_bytes q w disk now bytes b)

  -- Any number of steps after each of which the pages still wait for the server.
  pub data Waiting (b : Backend q) : Backend q → Type 0 where
    asked : Waiting b b
    still : {b' b'' : Backend q} → Waiting b b' → Step b' b'' → b''.busy ≡ true → Waiting b b''

  -- Any number of steps.
  pub data Reach (b : Backend q) : Backend q → Type 0 where
    here : Reach b b
    next : {b' b'' : Backend q} → Reach b b' → Step b' b'' → Reach b b''
