-- ===== src/Database/Samples.antt =====
-- Tables on which the tests run: two users, Ann (1) and Bob (2), a group of theirs, two messages and
-- Bob's reaction to the first.
use bigxin.Prelude.{[], ◌∷◌, false, some, none}
use bigxin.Database.Schema.{
  User, Conversation, Member, Message, Reaction, JoinRequest, Db, empty, group, owner, pending,
}

abbrev pub ann : User
ann = record {
  id = 1;
  account = "ann";
  password_hash = "a";
  display_name = "Ann";
  avatar_path = none;
}

abbrev pub bob : User
bob = record {
  id = 2;
  account = "bob";
  password_hash = "b";
  display_name = "Bob";
  avatar_path = none;
}

abbrev hiking : Conversation
hiking = record {
  id = 1;
  conv_type = group;
  name = "hiking";
  owner_user_id = some 1;
  avatar_path = none;
}

abbrev ann_owns : Member
ann_owns = record {
  conversation_id = 1;
  user_id = 1;
  role = owner;
  muted_until_ms = 0;
  last_read_seq = 0;
}

abbrev pub hello : Message
hello = record {
  id = 1;
  conversation_id = 1;
  sender_id = 1;
  seq = 1;
  msg_type = "TEXT";
  content = "hello";
  server_time_ms = 10;
  is_recalled = false;
}

abbrev pub answer : Message
answer = record {
  id = 2;
  conversation_id = 1;
  sender_id = 2;
  seq = 2;
  msg_type = "TEXT";
  content = "yes?";
  server_time_ms = 20;
  is_recalled = false;
}

abbrev liked : Reaction
liked = record { id = 1; message_id = 1; user_id = 2; reaction_type = "LIKE" }

abbrev pub bob_asks : JoinRequest
bob_asks = record {
  id = 1;
  from_user_id = 2;
  group_id = 1;
  status = pending;
  hello_msg = "hi";
  handler_user_id = none;
}

abbrev pub chat : Db
chat = record empty {
  users = ann ∷ bob ∷ [];
  next_user = 3;
  conversations = hiking ∷ [];
  next_conversation = 2;
  members = ann_owns ∷ [];
  messages = hello ∷ answer ∷ [];
  next_message = 3;
  reactions = liked ∷ [];
  next_reaction = 2;
  join_requests = bob_asks ∷ [];
  next_join = 2;
}
