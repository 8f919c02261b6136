-- ===== src/Tests/DataMode.antt =====
-- Texts that come in.
use opentts.Prelude.{
  codes, ℕ, suc, ◌≡◌, refl, Bool, true, false, [], ◌∷◌, ◌++◌, some, length, arith,
}
use opentts.Prelude.Int.{pos}
use opentts.Types.{Bytes, Server}
use opentts.Clients.{get_client_settings_by_fd}
use opentts.Api.{escape_from, escape_text, escape_dot, spd_say_sending}
use opentts.DataMode.{
  deescape_dot, parse_speak, put_sock, serve_until_reply, replied, queued, err_invalid_encoding,
  ok_msg_canceled,
}
use opentts.DataMode.Dots.{end_of_line, deescape_dot-escape_dot}
use opentts.DataMode.Refused.{serve_until_reply-refused, serve_until_reply-empty, closed}
use opentts.Tests.Samples.{demo, open_pipe, first_client, store}

-- "." on a line of its own, "..", and an empty line: every line starts with a dot, or is empty.
abbrev dots : Bytes
dots = b'.' ∷ b'\r' ∷ b'\n' ∷ b'.' ∷ b'.' ∷ b'\r' ∷ b'\n' ∷ b'\r' ∷ b'\n' ∷ b'.' ∷ []

abbrev escaped_dots : Bytes
escaped_dots =
    b'.' ∷ b'.' ∷ b'\r' ∷ b'\n' ∷ b'.' ∷ b'.' ∷ b'.' ∷ b'\r' ∷ b'\n' ∷ b'\r' ∷ b'\n' ∷ b'.' ∷ b'.'
    ∷ []

dots_escaped : escape_dot (some dots) ≡ some escaped_dots
unfolding escape_dot escape_text escape_from
dots_escaped = refl

dot_escaped : escape_dot (some (b'.' ∷ [])) ≡ some (codes "..")
unfolding escape_dot escape_text escape_from
dot_escaped = refl

deescape_dot-escape_dot_example :
    deescape_dot (some (escaped_dots ++ end_of_line)) (length escaped_dots) ≡ some dots
deescape_dot-escape_dot_example = deescape_dot-escape_dot dots escaped_dots dots_escaped

-- Every text is valid, or none is.
abbrev accepts : Bytes → ℕ → Bool
accepts b n = true

abbrev rejects : Bytes → ℕ → Bool
rejects b n = false

-- Client 1 has said SPEAK on descriptor 5, and sends "." and then STOP.
abbrev after_text : Bytes
after_text = codes "STOP"

serve_until_reply-refused_example :
    (serve_until_reply open_pipe rejects
        (store 1)
        10
        5
        (b'.' ∷ end_of_line ++ after_text)
        (parse_speak 5 demo)
      ≡ some (replied ok_msg_canceled after_text (put_sock 5 (closed (demo.sockets 5)) demo)))
    × (serve_until_reply open_pipe rejects
          (store 1)
          9
          5
          (spd_say_sending (codes "..") ++ after_text)
          (parse_speak 5 demo)
        ≡ some
            (replied err_invalid_encoding after_text (put_sock 5 (closed (demo.sockets 5)) demo)))
unfolding spd_say_sending
serve_until_reply-refused_example =
    serve_until_reply-refused open_pipe rejects (store 1) 5 (b'.' ∷ []) (codes "..") after_text 9
      demo refl (λ e. ground (arith, e)) dot_escaped refl (omega arith)

serve_until_reply-empty_example :
    (u : Server) × (serve_until_reply open_pipe accepts
        (store 1)
        2
        5
        (spd_say_sending [] ++ [])
        (parse_speak 5 demo)
      ≡ some (replied (queued (pos (suc demo.last_message_id))) [] u))
    × ((u.messages demo.allocated).buf ≡ some end_of_line)
unfolding get_client_settings_by_fd
serve_until_reply-empty_example =
    serve_until_reply-empty open_pipe accepts (store 1) 4 0 [] first_client demo refl refl
      (λ e. ground (arith, e))
