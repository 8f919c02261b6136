-- ===== src/Messages.antt =====
-- The replies of the server: src/server/msg.h, and the replies that src/server/parse.c and
-- src/server/history.c put together.
pub mod Decimal
use opentts.Prelude.{
  ℕ, zero, suc, ◌+◌, ◌/◌, ◌%◌, ltb, if◌then◌else◌, List, [], ◌∷◌, ◌++◌, Option, none, some, String,
  codes,
}
use opentts.Prelude.Int.{ℤ, pos, negsuc}
use opentts.Types.{Bytes}
use opentts.IndexMarks.{digits}

-- The replies of one line are named as in msg.h; the others carry what stands in their lines.
pub data Answer : Type 0 where
  ok_language_set ok_priority_set ok_rate_set ok_pitch_set : Answer
  ok_punct_mode_set ok_cap_let_recogn_set ok_spelling_set ok_client_name_set : Answer
  ok_voice_set ok_stopped ok_paused ok_resumed : Answer
  ok_canceled ok_output_module_set ok_pause_context_set ok_volume_set : Answer
  ok_ssml_mode_set ok_notification_set ok_cur_set_first ok_cur_set_last : Answer
  ok_cur_set_pos ok_cur_mov_for ok_cur_mov_back ok_message_queued : Answer
  ok_msg_canceled ok_receive_data ok_inside_block ok_outside_block : Answer
  ok_bye err_no_such_client err_no_message err_pos_low : Answer
  err_pos_high err_id_not_exist err_unknown_priority err_rate_too_high : Answer
  err_rate_too_low err_pitch_too_high err_pitch_too_low err_volume_too_high : Answer
  err_volume_too_low err_internal err_couldnt_set_priority err_couldnt_set_language : Answer
  err_couldnt_set_rate err_couldnt_set_pitch err_couldnt_set_punct_mode
        err_couldnt_set_cap_let_recog :
      Answer
  err_couldnt_set_spelling err_couldnt_set_voice err_couldnt_set_client_name
        err_couldnt_set_output_module :
      Answer
  err_couldnt_set_pause_context err_couldnt_set_volume err_couldnt_set_ssml_mode
        err_couldnt_set_notification :
      Answer
  err_couldnt_set_debugging err_cant_report_voices err_no_output_module err_already_inside_block :
      Answer
  err_already_outside_block err_not_allowed_inside_block err_not_implemented err_invalid_command :
      Answer
  err_invalid_encoding err_missing_parameter err_not_a_number err_parameter_not_on_off : Answer
  err_parameter_invalid : Answer
  ok_debugging ok_get : Bytes → Answer
  ok_voice_list_sent ok_modules_list_sent ok_client_list_sent ok_msgs_list_sent :
      List Bytes → Answer
  ok_help_sent : List Bytes → Answer
  ok_client_id_sent ok_last_msg ok_cur_pos_ret : ℕ → Answer
  message_queued : ℤ → Answer

-- A text that may be NULL, for which the library's `printf` writes "(null)".
abbrev pub or_null : Option Bytes → Bytes
or_null none = codes "(null)"
or_null (some w) = w

abbrev pub crlf : Bytes
crlf = 13 ∷ 10 ∷ []

-- A line that ends a reply.
unfoldable pub reply_line : String → Bytes
reply_line t = codes t ++ crlf

-- "%d".
unfoldable pub decimal : ℕ → Bytes
unfolding digits
decimal n = digits (suc n) n

unfoldable pub decimal_ℤ : ℤ → Bytes
unfolding decimal
decimal_ℤ (pos n) = decimal n
decimal_ℤ (negsuc n) = b'-' ∷ decimal (suc n)

-- A line with more lines behind it.
unfoldable pub more_line : String → Bytes → Bytes
more_line number body = codes number ++ b'-' ∷ (body ++ crlf)

unfoldable pub more_lines : String → List Bytes → Bytes → Bytes
unfolding more_line
more_lines number [] end = end
more_lines number (body ∷ bodies) end = more_line number body ++ more_lines number bodies end

-- The bytes of a reply.
unfoldable pub reply_text : Answer → Bytes
unfolding reply_line more_line more_lines decimal decimal_ℤ
reply_text ok_language_set = reply_line "201 OK LANGUAGE SET"
reply_text ok_priority_set = reply_line "202 OK PRIORITY SET"
reply_text ok_rate_set = reply_line "203 OK RATE SET"
reply_text ok_pitch_set = reply_line "204 OK PITCH SET"
reply_text ok_punct_mode_set = reply_line "205 OK PUNCTUATION SET"
reply_text ok_cap_let_recogn_set = reply_line "206 OK CAP LET RECOGNITION SET"
reply_text ok_spelling_set = reply_line "207 OK SPELLING SET"
reply_text ok_client_name_set = reply_line "208 OK CLIENT NAME SET"
reply_text ok_voice_set = reply_line "209 OK VOICE SET"
reply_text ok_stopped = reply_line "210 OK STOPPED"
reply_text ok_paused = reply_line "211 OK PAUSED"
reply_text ok_resumed = reply_line "212 OK RESUMED"
reply_text ok_canceled = reply_line "213 OK CANCELED"
reply_text ok_output_module_set = reply_line "216 OK OUTPUT MODULE SET"
reply_text ok_pause_context_set = reply_line "217 OK PAUSE CONTEXT SET"
reply_text ok_volume_set = reply_line "218 OK VOLUME SET"
reply_text ok_ssml_mode_set = reply_line "219 OK SSML MODE SET"
reply_text ok_notification_set = reply_line "220 OK NOTIFICATION SET"
reply_text ok_cur_set_first = reply_line "220 OK CURSOR SET FIRST"
reply_text ok_cur_set_last = reply_line "221 OK CURSOR SET LAST"
reply_text ok_cur_set_pos = reply_line "222 OK CURSOR SET TO POSITION"
reply_text ok_cur_mov_for = reply_line "223 OK CURSOR MOVED FORWARD"
reply_text ok_cur_mov_back = reply_line "224 OK CURSOR MOVED BACKWARD"
reply_text ok_message_queued = reply_line "225 OK MESSAGE QUEUED"
reply_text ok_msg_canceled = reply_line "227 OK MESSAGE CANCELED"
reply_text ok_receive_data = reply_line "230 OK RECEIVING DATA"
reply_text ok_inside_block = reply_line "260 OK INSIDE BLOCK"
reply_text ok_outside_block = reply_line "261 OK OUTSIDE BLOCK"
reply_text ok_bye = reply_line "231 HAPPY HACKING"
reply_text err_no_such_client = reply_line "402 ERR NO SUCH CLIENT"
reply_text err_no_message = reply_line "403 ERR NO MESSAGE"
reply_text err_pos_low = reply_line "404 ERR POSITION TOO LOW"
reply_text err_pos_high = reply_line "405 ERR POSITION TOO HIGH"
reply_text err_id_not_exist = reply_line "406 ERR ID DOESNT EXIST"
reply_text err_unknown_priority = reply_line "408 ERR UNKNOWN PRIORITY"
reply_text err_rate_too_high = reply_line "409 ERR RATE TOO HIGH"
reply_text err_rate_too_low = reply_line "410 ERR RATE TOO LOW"
reply_text err_pitch_too_high = reply_line "411 ERR PITCH TOO HIGH"
reply_text err_pitch_too_low = reply_line "412 ERR PITCH TOO LOW"
reply_text err_volume_too_high = reply_line "413 ERR PITCH TOO HIGH"
reply_text err_volume_too_low = reply_line "414 ERR PITCH TOO LOW"
reply_text err_internal = reply_line "300 ERR INTERNAL"
reply_text err_couldnt_set_priority = reply_line "301 ERR COULDNT SET PRIORITY"
reply_text err_couldnt_set_language = reply_line "302 ERR COULDNT SET LANGUAGE"
reply_text err_couldnt_set_rate = reply_line "303 ERR COULDNT SET RATE"
reply_text err_couldnt_set_pitch = reply_line "304 ERR COULDNT SET PITCH"
reply_text err_couldnt_set_punct_mode = reply_line "305 ERR COULDNT SET PUNCT MODE"
reply_text err_couldnt_set_cap_let_recog = reply_line "306 ERR COULDNT SET CAP LET RECOGNITION"
reply_text err_couldnt_set_spelling = reply_line "308 ERR COULDNT SET SPELLING"
reply_text err_couldnt_set_voice = reply_line "309 ERR COULDNT SET VOICE"
reply_text err_couldnt_set_client_name = reply_line "311 ERR COULDNT SET CLIENT_NAME"
reply_text err_couldnt_set_output_module = reply_line "312 ERR COULDNT SET OUTPUT MODULE"
reply_text err_couldnt_set_pause_context = reply_line "313 ERR COULDNT SET PAUSE CONTEXT"
reply_text err_couldnt_set_volume = reply_line "314 ERR COULDNT SET VOLUME"
reply_text err_couldnt_set_ssml_mode = reply_line "315 ERR COULDNT SET SSML MODE"
reply_text err_couldnt_set_notification = reply_line "316 ERR COULDNT SET NOTIFICATION"
reply_text err_couldnt_set_debugging = reply_line "317 ERR COULDNT SET DEBUGGING"
reply_text err_cant_report_voices = reply_line "321 ERR MODULE CANT REPORT VOICES"
reply_text err_no_output_module = reply_line "321 ERR NO OUTPUT MODULE LOADED"
reply_text err_already_inside_block = reply_line "330 ERR ALREADY INSIDE BLOCK"
reply_text err_already_outside_block = reply_line "331 ERR ALREADY OUTSIDE BLOCK"
reply_text err_not_allowed_inside_block = reply_line "332 ERR NOT ALLOWED INSIDE BLOCK"
reply_text err_not_implemented = reply_line "380 ERR NOT YET IMPLEMENTED"
reply_text err_invalid_command = reply_line "500 ERR INVALID COMMAND"
reply_text err_invalid_encoding = reply_line "501 ERR INVALID ENCODING"
reply_text err_missing_parameter = reply_line "510 ERR MISSING PARAMETER"
reply_text err_not_a_number = reply_line "511 ERR PARAMETER NOT A NUMBER"
reply_text err_parameter_not_on_off = reply_line "513 ERR PARAMETER NOT ON OR OFF"
reply_text err_parameter_invalid = reply_line "514 ERR PARAMETER INVALID"
reply_text (ok_debugging path) = more_lines "262" (path ∷ []) (reply_line "262 OK DEBUGGING SET")
reply_text (ok_get value) = more_line "251" value
reply_text (ok_voice_list_sent names) = more_lines "249" names (reply_line "249 OK VOICE LIST SENT")
reply_text (ok_modules_list_sent names) =
    more_lines "250" names (reply_line "250 OK VOICE LIST SENT")
reply_text (ok_client_list_sent clients) =
    more_lines "240" clients (reply_line "240 OK CLIENTS LIST SENT")
reply_text (ok_msgs_list_sent messages) =
    more_lines "241" messages (reply_line "241 OK MSGS LIST SENT")
reply_text (ok_help_sent lines) = more_lines "248" lines (reply_line "248 OK HELP SENT")
reply_text (ok_client_id_sent uid) =
    more_lines "245" (decimal uid ∷ []) (reply_line "245 OK CLIENT ID SENT")
reply_text (ok_last_msg id) = more_lines "242" (decimal id ∷ []) (reply_line "242 OK LAST MSG SAID")
reply_text (ok_cur_pos_ret id) =
    more_lines "243" (decimal id ∷ []) (reply_line "243 OK CURSOR POSITION RETURNED")
reply_text (message_queued id) =
    more_lines "225" (decimal_ℤ id ∷ []) (reply_line "225 OK MESSAGE QUEUED")
