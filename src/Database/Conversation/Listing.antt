-- ===== src/Database/Conversation/Listing.antt =====
-- The list of a user's conversations (`load_user_conversations` of `src/database/conversation.cpp`).
use Prim.Native.Char.{code}
use Prim.Native.Nat.{max}
use bigxin.Prelude.{
  ℕ, ◌+◌, ◌-◌, ◌*◌, ◌/◌, ◌%◌, String, Bool, true, false, not, ◌&&◌, Option, none, some, List, [],
  ◌∷◌, ◌++◌, map, length, take, ◌==◌, ltb, str_eq, if◌then◌else◌,
}
use bigxin.Prelude.Table.{first, select, order_by, join}
use bigxin.Database.Schema.{Db, ConvType, group, single, User, Conversation, Member, Message}
use bigxin.Database.Exec.{M, query, connect, ◌>>◌}
use bigxin.Database.Rows.{find_user, is_member_of, or_empty}
use bigxin.Database.Message.{in_conversation, last_seq}

-- The calendar that `localtime_r` gives in the server's time zone.
pub record Calendar : Type 0 where
  pub year : ℕ
  pub month : ℕ
  pub day : ℕ
  pub hour : ℕ
  pub minute : ℕ
  pub weekday : ℕ

-- What `format_message_time` writes, before it is written.
pub data MessageTime : Type 0 where
  no_time just_now yesterday : MessageTime
  minutes_ago : ℕ → MessageTime
  today_at : ℕ → ℕ → MessageTime
  on_weekday : ℕ → MessageTime
  this_year : ℕ → ℕ → MessageTime
  on_date : ℕ → ℕ → ℕ → MessageTime

abbrev same_day : Calendar → Calendar → Bool
same_day a b = a.year == b.year && a.month == b.month && a.day == b.day

-- Times are in milliseconds; `local` is the calendar of a time in milliseconds.
unfoldable pub format_message_time : (ℕ → Calendar) → ℕ → ℕ → MessageTime
format_message_time local now ms =
    let diff = (now - ms) / 1000 in
    let msg = local ms in
    if ms == 0
    then no_time
    else if ltb diff 60
    then just_now
    else if ltb diff 3600
    then minutes_ago (diff / 60)
    else if same_day (local now) msg
    then today_at msg.hour msg.minute
    else if same_day (local (now - 86400000)) msg
    then yesterday
    else if ltb diff (7 * 24 * 3600)
    then on_weekday msg.weekday
    else if (local now).year == msg.year
    then this_year msg.month msg.day
    else on_date msg.year msg.month msg.day

-- The bytes of a text in UTF-8, which is how `std::string` holds it.
abbrev utf8_char : ℕ → List ℕ
utf8_char c =
    if ltb c 128
    then c ∷ []
    else if ltb c 2048
    then (192 + c / 64) ∷ (128 + c % 64) ∷ []
    else if ltb c 65536
    then (224 + c / 4096) ∷ (128 + c / 64 % 64) ∷ (128 + c % 64) ∷ []
    else (240 + c / 262144) ∷ (128 + c / 4096 % 64) ∷ (128 + c / 64 % 64) ∷ (128 + c % 64) ∷ []

unfoldable pub bytes : String → List ℕ
bytes String.[] = []
bytes (String.◌∷◌ c s) = utf8_char (code c) ++ bytes s

abbrev is_group_type : ConvType → Bool
is_group_type group = true
is_group_type single = false

-- the first 30 bytes, wherever they end
abbrev cut_text : List ℕ → List ℕ
cut_text content = if ltb 30 (length content) then take 30 content ++ bytes "..." else content

abbrev body_of : String → List ℕ → List ℕ
body_of msg_type content =
    if str_eq msg_type "TEXT"
    then cut_text content
    else if str_eq msg_type "IMAGE"
    then bytes "[图片]"
    else if str_eq msg_type "FILE"
    then bytes "[文件]"
    else if str_eq msg_type "AUDIO"
    then bytes "[语音]"
    else if str_eq msg_type "VIDEO"
    then bytes "[视频]"
    else bytes "[消息]"

unfoldable pub generate_message_preview : String → List ℕ → String → ConvType → ℕ → ℕ → List ℕ
generate_message_preview msg_type content sender_name t user sender =
    let body = body_of msg_type content in
    if is_group_type t && not (sender == user)
    then bytes sender_name ++ bytes ": " ++ body
    else body

pub record ConversationInfo : Type 0 where
  pub id : ℕ
  pub conv_type : ConvType
  pub title : String
  pub last_seq : ℕ
  pub last_server_time_ms : ℕ
  pub avatar_path : String
  pub last_read_seq : ℕ
  pub unread_count : ℕ
  pub last_message_preview : List ℕ
  pub last_message_time : MessageTime

-- the peers that the `LEFT JOIN` finds: a row for each, or one without
abbrev peer : Db → Member → Option User
peer d m = find_user m.user_id d

abbrev or_none : List User → List (Option User)
or_none [] = none ∷ []
or_none (u ∷ us) = some u ∷ map some us

unfoldable pub peers : ℕ → Conversation → Db → List (Option User)
peers user c d =
    if is_group_type c.conv_type
    then none ∷ []
    else or_none (
        join (peer d)
          (select (λ (m : Member). m.conversation_id == c.id && not (m.user_id == user)) d.members))

-- `MAX(server_time_ms)`
unfoldable pub max_time : List Message → ℕ
max_time [] = 0
max_time (m ∷ ms) = max m.server_time_ms (max_time ms)

-- the last message and its sender's name, or the empty text
abbrev last_message : ℕ → Db → Option Message
last_message conv d =
    first (λ (m : Message). in_conversation conv m && m.seq == last_seq conv d) d.messages

abbrev display_name_or : String → Option User → String
display_name_or default none = default
display_name_or default (some u) = u.display_name

abbrev avatar_of : Option User → String
avatar_of none = ""
avatar_of (some u) = or_empty u.avatar_path

abbrev preview_of : ℕ → ConvType → Db → Option Message → List ℕ
preview_of user t d none = []
preview_of user t d (some m) =
    generate_message_preview m.msg_type (bytes m.content)
      (display_name_or "" (find_user m.sender_id d)) t user m.sender_id

abbrev info_of :
    (ℕ → Calendar) → ℕ → ℕ → Db → Conversation → Member → Option User → ConversationInfo
info_of local now user d c cm p =
    let seq = last_seq c.id d in
    let time = max_time (select (in_conversation c.id) d.messages) in
    record {
      id = c.id;
      conv_type = c.conv_type;
      title = if is_group_type c.conv_type then c.name else display_name_or c.name p;
      last_seq = seq;
      last_server_time_ms = time;
      avatar_path = if is_group_type c.conv_type then or_empty c.avatar_path else avatar_of p;
      last_read_seq = cm.last_read_seq;
      unread_count = seq - cm.last_read_seq;
      last_message_preview = preview_of user c.conv_type d (last_message c.id d);
      last_message_time = format_message_time local now time;
    }

-- the rows of one conversation: none where the user is no member
abbrev rows_of : (ℕ → Calendar) → ℕ → ℕ → Db → Conversation → Option Member → List ConversationInfo
rows_of local now user d c none = []
rows_of local now user d c (some cm) = map (info_of local now user d c cm) (peers user c d)

unfoldable pub conversations_of :
    (ℕ → Calendar) → ℕ → ℕ → Db → List Conversation → List ConversationInfo
conversations_of local now user d [] = []
conversations_of local now user d (c ∷ cs) =
    rows_of local now user d c (first (is_member_of c.id user) d.members)
    ++ conversations_of local now user d cs

unfoldable pub load_user_conversations : (ℕ → Calendar) → ℕ → ℕ → M (List ConversationInfo)
load_user_conversations local now user = do
  connect
  query (λ d.
      conversations_of local now user d (order_by (λ (c : Conversation). c.id) d.conversations))
