-- ===== src/Client/Tests.antt =====
-- The theorems on the client, at a user with one conversation.
use bigxin.Prelude.{String, ◌≢◌, ℕ, ◌≡◌, refl, true, false, none, some, List, [], ◌∷◌, ◌++◌, arith}
use bigxin.Prelude.Table.{any}
use bigxin.Protocol.{trim, remove_line_ends, newline, find, make_line}
use bigxin.Client.Network.{
  Network, unconnected, connected, index_of, deliver, on_ready_read, receive,
}
use bigxin.Client.Network.Stream.{joined, receive-joined, receive_drained}
use bigxin.Client.Network.RoundTrip.{Carries, end, line, receive-make_line}
use bigxin.Client.Network.Requests.{frames_of, AreOneLine, send_commands, read_all-send_commands}
use bigxin.Session.Reading.{waits, read_all}
use bigxin.Client.Network.Reconnect.{reconnected, stale_line}
use bigxin.Client.MessageCache.{
  Disk, Cache, Message, message_object, load_messages, read_object, max_seq, append_message,
  update_message_reactions, react,
}
use bigxin.Client.MessageCache.Laws.{load-append}
use bigxin.Client.MessageCache.Reactions.{Reacted, load-update}
use bigxin.Client.Handler.{Env, Handler, message_received, server_last_seq}
use bigxin.Client.Hash.{value}
use bigxin.Client.Handler.Chat.{
  read_message, received_all, load_conversation_cache, handle_message_push, handle_history_response,
  keep_failed,
}
use bigxin.Client.Handler.Dispatch.{handle_command}
use bigxin.Client.Handler.Users.{IsLinked, handle_command-IsLinked}
use bigxin.Client.Handler.Seqs.{Grown, handle_command-Grown}
use bigxin.Client.Handler.Shown.{push-shown, history-replaces}
use bigxin.Client.Login.{nothing, Backend, log_in}
use bigxin.Client.Login.Messages.{open_conversation}
use bigxin.Client.Login.Friends.{request_friend_list}
use bigxin.Client.Login.Opening.{refused-hides_newer}
use bigxin.Client.Login.Answers.{answer_ends_wait, log_in-sends, login_line}
use bigxin.Client.Login.Events.{
  on_command, on_network_error, on_network_disconnected, on_network_connected,
}
use bigxin.Client.Login.Step.{
  with_socket, calling, listing_friends, logging_in, connected_now, here, next, asked, still,
}
use bigxin.Client.Login.Step.Calm.{Step-silent}
use bigxin.Client.Login.Step.Quiet.{SameRequest}
use bigxin.Client.Login.Step.Keeping.{busy_keeps_request}
use bigxin.Client.Samples.{Fields, field, str, num, obj, arr, item, nil, json, json-IsQt, wire}
use bigxin.Client.Samples

abbrev pieces : List (List ℕ)
pieces = (80 ∷ 58 ∷ 123 ∷ []) ∷ (125 ∷ 10 ∷ []) ∷ []

abbrev line_open : Network
line_open = record { socket = connected; buffer = []; written = [] }

receive-joined_example : receive wire pieces line_open ≡ receive wire (joined pieces ∷ []) line_open
unfolding find
receive-joined_example = receive-joined wire pieces line_open refl

receive_drained_example : find newline (receive wire pieces line_open).1.buffer ≡ none
unfolding find
receive_drained_example = receive_drained wire pieces line_open refl

carries : Carries wire (80 ∷ []) (123 ∷ 125 ∷ []) "P" Samples.end
unfolding find index_of
carries = record {
  one_line = refl;
  json = "{}";
  decodes = refl;
  parses = refl;
  no_colon = refl;
  not_empty = λ e. cc;
}

receive-make_line_example : receive wire pieces line_open ≡ (("P", Samples.end) ∷ [], line_open)
unfolding make_line
receive-make_line_example =
    receive-make_line wire pieces line_open _ refl
      (line (80 ∷ []) (123 ∷ 125 ∷ []) [] "P" Samples.end [] carries end)

abbrev two_commands : List (String × Fields)
two_commands = ("LOGIN", Samples.end) ∷ ("PING", Samples.end) ∷ []

two_commands-AreOneLine : AreOneLine wire two_commands
unfolding find any trim remove_line_ends
two_commands-AreOneLine = (
  record { one_line = refl; no_colon = refl; trimmed = refl },
  (record { one_line = refl; no_colon = refl; trimmed = refl }, tt),
)

read_all-send_commands_example :
    read_all (send_commands wire two_commands line_open).written
    ≡ (frames_of wire two_commands, waits [])
read_all-send_commands_example =
    read_all-send_commands wire two_commands line_open refl refl two_commands-AreOneLine

-- The rest `P` of a line turns the next line `P:{}` into `PP:{}`.
abbrev cut : Network
cut = record { socket = connected; buffer = 80 ∷ []; written = [] }

stale_line_example :
    (on_ready_read wire ((80 ∷ 58 ∷ 123 ∷ 125 ∷ []) ++ newline ∷ []) (reconnected cut)).0
    ≡ deliver wire (80 ∷ 80 ∷ 58 ∷ 123 ∷ 125 ∷ [])
unfolding find
stale_line_example = stale_line wire cut (80 ∷ 58 ∷ 123 ∷ 125 ∷ []) refl refl

abbrev free : Disk
free = record { readable = true; writable = true }

abbrev kept : Cache json
kept = record { user_id = "1"; files = λ d f. none }

abbrev hello : Message json
hello = record {
  sender_id = "2";
  sender_display_name = "Bob";
  content = "hi";
  msg_type = "TEXT";
  server_time_ms = 1000;
  seq = 1;
  server_msg_id = "5";
  reactions = Samples.end;
}

load-append_example :
    load_messages json free "7" (append_message json free "7" hello kept)
    ≡ (obj (message_object json hello) ∷ [], 1)
unfolding load_messages read_object max_seq
load-append_example =
    load-append json json-IsQt free free "7" hello kept [] refl refl refl refl (omega arith)
      (omega arith)

-- A file with the message, and what its reactions become.
abbrev liked : Fields
liked = field "5" (str "LIKE") Samples.end

abbrev stored : Cache json
stored = record {
  user_id = "1";
  files =
      λ d f. some (field "messages" (arr (item (obj (message_object json hello)) nil)) Samples.end);
}

load-update_example :
    Reacted json "5" liked
      (load_messages json free "7" stored).0
      (load_messages json free "7" (update_message_reactions json free "7" "5" liked stored).1).0
    × ((load_messages json free "7" (update_message_reactions json free "7" "5" liked stored).1).1
        ≡ (load_messages json free "7" stored).1)
unfolding update_message_reactions read_object react message_object
load-update_example = load-update json "5" liked json-IsQt free free "7" stored _ refl refl

abbrev ann : Handler json
ann = record {
  user_id = "1";
  display_name = "Ann";
  avatar_path = "";
  world_conversation_id = "3";
  conv_last_seq = [];
  local_last_seq = [];
  cache = kept;
}

abbrev online : Env
online = record { disk = free; now = 5000; connected = true }

abbrev push : Fields
push =
    field "conversationId" (str "7")
      (field "senderId" (str "2") (field "content" (str "hi") (field "seq" (num 1) Samples.end)))

handle_command-Grown_example : Grown json "7" ann (handle_command json online "MSG_PUSH" push ann).0
handle_command-Grown_example = handle_command-Grown json "7" online "MSG_PUSH" push ann refl

handle_command-IsLinked_example : IsLinked json (handle_command json online "MSG_PUSH" push ann).0
handle_command-IsLinked_example = handle_command-IsLinked json online "MSG_PUSH" push ann refl

push-shown_example :
    ((load_conversation_cache json free "7" (handle_message_push json online push ann).0).1).1
    ≡ received_all json "7" [] ++ message_received "7" (read_message json push) ∷ []
unfolding load_messages read_object max_seq read_message
push-shown_example =
    push-shown json json-IsQt online free "7" push ann (read_message json push) [] refl refl refl
      refl refl refl refl (omega arith) (omega arith) (omega arith)

abbrev page : Fields
page =
    field "conversationId" (str "7")
      (field "messages" (arr (item (obj (field "seq" (num 9) Samples.end)) nil)) Samples.end)

history-replaces_example :
    load_messages json free "7" (handle_history_response json online page ann).0.cache
    ≡ (obj (field "seq" (num 9) Samples.end) ∷ [], 9)
unfolding max_seq
history-replaces_example =
    history-replaces json json-IsQt online free "7" page ann _ refl refl refl refl refl
      (omega arith)

abbrev ready : Backend json
ready = record {
  busy = false;
  error_message = "";
  user_id = "1";
  display_name = "Ann";
  avatar_path = "";
  world_conversation_id = "3";
  pending_command = nothing;
  pending_account = "";
  pending_password = "";
  pending_confirm = "";
  network = record { socket = unconnected; buffer = []; written = [] };
  handler = (keep_failed json online "7" "hi" "no friend" ann).0;
  emitted = [];
}

-- the client has asked for a connection with which to log in
abbrev asking : Backend json
asking = log_in json wire "ann" "pw" ready

-- the connection is there, and the user has clicked again
abbrev clicked : Backend json
clicked =
    log_in json wire "bob" "pw"
      (on_network_connected json wire (with_socket json wire connected asking))

busy_keeps_request_example :
    (clicked.pending_command ≢ nothing) × SameRequest json wire asking clicked
unfolding log_in on_network_connected
busy_keeps_request_example =
    busy_keeps_request json wire {a = ready} (next here (logging_in "ann" "pw")) refl refl
      (still (still asked connected_now refl) (logging_in "bob" "pw") refl)

Step-silent_example : (request_friend_list json wire ready).network.written ≡ []
unfolding request_friend_list
Step-silent_example = Step-silent json wire {b = ready} (calling listing_friends) refl refl

answer_ends_wait_example :
    ((on_command json wire free 0 "LOGIN_RESP" push ready).busy ≡ false)
    × ((on_command json wire free 0 "REGISTER_RESP" push ready).busy ≡ false)
    × ((on_network_error json ready).busy ≡ false)
    × ((on_network_disconnected json ready).busy ≡ false)
answer_ends_wait_example = answer_ends_wait json wire free 0 push ready

log_in-sends_example :
    ((on_network_connected json wire
        (with_socket json wire connected (log_in json wire "ann" "pw" ready))).busy
      ≡ true)
    × ((on_network_connected json wire
          (with_socket json wire connected (log_in json wire "ann" "pw" ready))).error_message
        ≡ "")
    × ((on_network_connected json wire
          (with_socket json wire connected (log_in json wire "ann" "pw" ready))).network.written
        ≡ [] ++ login_line json wire "ann" "pw")
log_in-sends_example = log_in-sends json wire "ann" "pw" ready refl refl

refused-hides_newer_example : (open_conversation json wire free "7" ready).network ≡ ready.network
unfolding load_messages read_object max_seq
refused-hides_newer_example =
    refused-hides_newer json json-IsQt wire online free "7" "hi" "no friend" ann ready [] refl refl
      refl refl refl refl refl (omega arith) (omega arith)
      (unfold server_last_seq value in omega arith)
