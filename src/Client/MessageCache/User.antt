-- ===== src/Client/MessageCache/User.antt =====
-- No call but `setUserId` changes the user of the files (`src/client/backend/message_cache.cpp` under `src`).
use bigxin.Prelude.{◌≡◌, String, List, arith}
use bigxin.Client.Qt.{Qt}
use bigxin.Client.MessageCache.{
  Disk, Cache, Message, write_messages, append_message, update_message_reactions,
}

module _ {q : Qt} where
  pub user-write :
      (disk : Disk) (conversation : String) (ms : List q.Value) (c : Cache q)
      → (write_messages q disk conversation ms c).1.user_id ≡ c.user_id
  unfolding write_messages
  user-write disk conversation ms c = ground arith

  pub user-append :
      (disk : Disk) (conversation : String) (m : Message q) (c : Cache q)
      → (append_message q disk conversation m c).user_id ≡ c.user_id
  unfolding append_message
  user-append disk conversation m c = grind (arith, user-write)

  pub user-update :
      (disk : Disk) (conversation id : String) (reactions : q.Object) (c : Cache q)
      → (update_message_reactions q disk conversation id reactions c).1.user_id ≡ c.user_id
  unfolding update_message_reactions
  user-update disk conversation id reactions c = ground arith
