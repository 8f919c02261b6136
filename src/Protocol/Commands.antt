-- ===== src/Protocol/Commands.antt =====
-- Commands from the line that comes in to the queues.
use opentts.Prelude.{
  ℕ, suc, ◌≡◌, refl, ◌∙◌, ap, Bool, true, false, List, [], ◌∷◌, Option, none, some, ◌==◌, arith,
}
use opentts.Prelude.Int.{ℤ}
use opentts.Types.{Bytes, Event, Server}
use opentts.Clients.{get_client_uid_by_fd}
use opentts.Messages.{Answer, ok_canceled}
use opentts.Protocol.Words.{Word, line, get_param-pick}
use opentts.Protocol.{
  self_name, nth_word, param_of, get_param, for_whom, command_for_whom, parse_cancel,
}
use opentts.Speaking.Stop.Cancel.{without_uid, speaking_cancel-queues}
use opentts.Speaking.Stop.{speaking_cancel, speaking_cancel_all}

module _ (strdown : Bytes → Bytes) where
  abbrev pub lowered_param : Option Bytes → Option Bytes
  lowered_param none = none
  lowered_param (some w) = some (strdown w)

  param_of-lowered :
      (w : Bytes) (rest : Option Bytes)
      → param_of strdown true w rest ≡ lowered_param (param_of strdown false w rest)
  param_of-lowered [] rest = refl
  param_of-lowered (c ∷ w) rest = refl

  pub get_param-lowered :
      (buf : Bytes) (n : ℕ)
      → get_param strdown buf n true ≡ lowered_param (get_param strdown buf n false)
  unfolding get_param
  get_param-lowered buf n = param_of-lowered (nth_word n buf).0 (nth_word n buf).1

  -- The line of a command of two words: the second one, in lower case, decides for whom it is.
  command_for_whom-line :
      (all : Server → Server) (one : ℕ → Server → Server) (ok : Answer) (command who : Bytes)
      (fd : ℤ) (s : Server)
      → Word command
      → Word who
      → command_for_whom strdown all one ok (line command (who ∷ [])) fd s
        ≡ for_whom strdown all one ok (strdown who) fd s
  unfolding command_for_whom
  command_for_whom-line all one ok command who fd s a b =
      let read : get_param strdown (line command (who ∷ [])) 1 true ≡ some (strdown who) =
        get_param-lowered (line command (who ∷ [])) 1
        ∙ ap lowered_param (get_param-pick strdown 1 command (who ∷ []) a (b, tt)) in
      rw (read, command_for_whom) refl

  for_whom_self :
      (all : Server → Server) (one : ℕ → Server → Server) (ok : Answer) (fd : ℤ) (uid : ℕ)
      (s : Server)
      → get_client_uid_by_fd s fd ≡ suc uid
      → for_whom strdown all one ok self_name fd s ≡ (ok, one (suc uid) s)
  unfolding for_whom
  for_whom_self all one ok fd uid s known =
      let busy : (get_client_uid_by_fd s fd == 0) ≡ false = ground (arith, known) in
      rw (busy, for_whom) (rw known refl)

  -- A line of two words, the second of which is "self" in lower case, given to `parse_cancel` for a
  -- connected client: the reply is that of success, and each queue holds what it held, less the
  -- messages of that client, in the old order.
  parse_cancel_self :
      (pipe_ok : List Event → Bool) (command who : Bytes) (fd : ℤ) (uid : ℕ) (s : Server)
      → Word command
      → Word who
      → strdown who ≡ self_name
      → get_client_uid_by_fd s fd ≡ suc uid
      → ((parse_cancel strdown pipe_ok (line command (who ∷ [])) fd s).0 ≡ ok_canceled)
        × ((parse_cancel strdown pipe_ok (line command (who ∷ [])) fd s).1.queues
            ≡ without_uid s.messages (suc uid) s.queues)
  unfolding parse_cancel
  parse_cancel_self pipe_ok command who fd uid s a b self known =
      let all = speaking_cancel_all pipe_ok in
      let one = speaking_cancel pipe_ok in
      let result : parse_cancel strdown pipe_ok (line command (who ∷ [])) fd s
          ≡ (ok_canceled, one (suc uid) s) =
        command_for_whom-line all one ok_canceled command who fd s a b
        ∙ rw self (for_whom_self all one ok_canceled fd uid s known) in
      (
        ap (λ r. r.0) result,
        ap (λ r. r.1.queues) result ∙ speaking_cancel-queues pipe_ok (suc uid) s,
      )
