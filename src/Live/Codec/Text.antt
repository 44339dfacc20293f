-- ===== src/Live/Codec/Text.antt =====
-- The fields of src/live/mq_codec.cpp: how a line is split, and the words for topics, sides and statuses.
use regime_flow.Base.{◌==◌, Option, if◌then◌else◌, List, String, some, none, ◌∷◌, []}
use Prim.Native.String.{◌++◌ as str_append}
use Prim.Native.Char.{code}
use text.Mathlib.Text.{◌==◌ as str_eq}
use regime_flow.Live.Message.{LiveTopic}
use regime_flow.Live.Order.{LiveOrderStatus}
use regime_flow.Engine.Order.{OrderSide}

-- The rest of `split`, where `token` has been read since the last `|`. At its end the stream gives one more
-- token only if there is something in it.
unfoldable pub tokens : String → String → List String
tokens token String.[] = if str_eq token "" then [] else token ∷ []
tokens token (String.◌∷◌ c s) =
    if code c == 124 then token ∷ tokens "" s else tokens (str_append token (String.◌∷◌ c "")) s

unfoldable pub split : String → List String
unfolding tokens
split input = tokens "" input

-- Fields with `|` between them.
unfoldable pub join : List String → String
join [] = ""
join (f ∷ []) = f
join (f ∷ g ∷ fs) = str_append f (String.◌∷◌ "|" (join (g ∷ fs)))

abbrev pub topic_name : LiveTopic → String
topic_name LiveTopic.market_data = "MD"
topic_name LiveTopic.execution_report = "EXEC"
topic_name LiveTopic.position_update = "POS"
topic_name LiveTopic.account_update = "ACCT"
topic_name LiveTopic.system = "SYS"

unfoldable pub parse_topic : String → Option LiveTopic
parse_topic token =
    if str_eq token "MD"
    then some LiveTopic.market_data
    else if str_eq token "EXEC"
    then some LiveTopic.execution_report
    else if str_eq token "POS"
    then some LiveTopic.position_update
    else if str_eq token "ACCT"
    then some LiveTopic.account_update
    else if str_eq token "SYS"
    then some LiveTopic.system
    else none

abbrev pub side_name : OrderSide → String
side_name OrderSide.buy = "BUY"
side_name OrderSide.sell = "SELL"

unfoldable pub parse_side : String → OrderSide
parse_side token = if str_eq token "SELL" then OrderSide.sell else OrderSide.buy

abbrev pub status_name : LiveOrderStatus → String
status_name LiveOrderStatus.pending_new = "PENDING_NEW"
status_name LiveOrderStatus.new = "NEW"
status_name LiveOrderStatus.partially_filled = "PARTIAL"
status_name LiveOrderStatus.filled = "FILLED"
status_name LiveOrderStatus.pending_cancel = "PENDING_CANCEL"
status_name LiveOrderStatus.cancelled = "CANCELLED"
status_name LiveOrderStatus.rejected = "REJECTED"
status_name LiveOrderStatus.expired = "EXPIRED"
status_name LiveOrderStatus.inactive = "INACTIVE"
status_name LiveOrderStatus.error = "ERROR"

unfoldable pub parse_status : String → LiveOrderStatus
parse_status token =
    if str_eq token "PENDING_NEW"
    then LiveOrderStatus.pending_new
    else if str_eq token "NEW"
    then LiveOrderStatus.new
    else if str_eq token "PARTIAL"
    then LiveOrderStatus.partially_filled
    else if str_eq token "FILLED"
    then LiveOrderStatus.filled
    else if str_eq token "PENDING_CANCEL"
    then LiveOrderStatus.pending_cancel
    else if str_eq token "CANCELLED"
    then LiveOrderStatus.cancelled
    else if str_eq token "REJECTED"
    then LiveOrderStatus.rejected
    else if str_eq token "EXPIRED"
    then LiveOrderStatus.expired
    else if str_eq token "INACTIVE"
    then LiveOrderStatus.inactive
    else if str_eq token "ERROR"
    then LiveOrderStatus.error
    else LiveOrderStatus.new
