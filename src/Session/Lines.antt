-- ===== src/Session/Lines.antt =====
-- A line "SET who name value": what the parser reads of it, and how its reply comes back.
use opentts.Prelude.{
  ℕ, zero, suc, ◌≡◌, refl, ◌∙◌, ap, true, false, [], ◌∷◌, ◌++◌, Option, some, length, map, codes,
  ◌==◌, arith,
}
use opentts.Prelude.Int.{ℤ, pos, negsuc}
use opentts.Types.{Bytes, Server}
use opentts.Messages.{Answer, reply_text}
use opentts.Protocol.{get_param}
use opentts.Protocol.Words.{Word, Words, line}
use opentts.Protocol.Set.{Outcome, Who, answer, set_named, parse_set, who_of}
use opentts.Protocol.Parse.{Environment, sends, parse, parse_command}
use opentts.Api.{command_line}
use opentts.Api.Replies.{ret_ok}
use opentts.Api.Replies.Framed.{Plain}
use opentts.Api.Commands.{Target, target_text, set_command}
use opentts.Session.{Link, idle, spd_execute_command}
use opentts.Session.Exchange.{quiet, quiet-append, exchange}
use opentts.Session.Words.{
  small, LowersAscii, QuietWord, who_for, target_text-QuietWord, who_of-target_text, param_down,
  param_as_is, set_line,
}

-- What the client gets for what a setter of the server returns.
abbrev pub returned : ℕ × Server → Option (ℤ × Link)
returned (zero, s) = some (pos 0, idle s)
returned (suc n, s) = some (negsuc 0, idle s)

-- What the parser reads of a line "SET who name value".
pub record ReadsSet (strdown : Bytes → Bytes) (who : Who) (name value buf : Bytes) : Type 0 where
  pub long : (length buf == 0) ≡ false
  pub command : get_param strdown buf 0 true ≡ some (codes "set")
  pub target :
      (who_s : Bytes) × (get_param strdown buf 1 true ≡ some who_s) × (who_of who_s ≡ some who)
  pub subject : get_param strdown buf 2 true ≡ some (map small name)
  pub lowered : get_param strdown buf 3 true ≡ some (map small value)
  pub raw : get_param strdown buf 3 false ≡ some value

pub line-ReadsSet :
    (strdown : Bytes → Bytes) (who : Target) (name value : Bytes)
    → LowersAscii strdown
    → Word name
    → Word value
    → ReadsSet strdown
        (who_for who)
        name
        value
        (line (codes "SET") (target_text who ∷ name ∷ value ∷ []))
line-ReadsSet strdown who name value lowers n v =
    let words : Words (target_text who ∷ name ∷ value ∷ []) =
      ((target_text-QuietWord who).0, (n, (v, tt))) in
    let set_word : Word (codes "SET") = (refl, _, _, refl) in
    let target = target_text who in
    let ws = target ∷ name ∷ value ∷ [] in
    record {
      long = ground arith;
      command = param_down strdown lowers 0 (codes "SET") (codes "SET") ws set_word words refl;
      target = (
        map small target,
        param_down strdown lowers 1 (codes "SET") target ws set_word words refl,
        who_of-target_text who,
      );
      subject = param_down strdown lowers 2 (codes "SET") name ws set_word words refl;
      lowered = param_down strdown lowers 3 (codes "SET") value ws set_word words refl;
      raw = param_as_is strdown lowers 3 (codes "SET") value ws set_word words refl;
    }

pub set_line-ReadsSet :
    (strdown : Bytes → Bytes) (who : Target) (name value : Bytes)
    → LowersAscii strdown
    → Word name
    → Word value
    → ReadsSet strdown
        (who_for who)
        name
        value
        (command_line (set_command (target_text who) name value))
set_line-ReadsSet strdown who name value lowers n v =
    rw (set_line (target_text who) name value) (line-ReadsSet strdown who name value lowers n v)

-- A setter's result becomes one of two replies, which the client can tell apart.
pub record Answered (o : Outcome) (r : ℕ × Server) : Type 0 where
  pub err : Answer
  pub ok : Answer
  pub outcome : o ≡ answer err ok r
  pub plain : Plain err × Plain ok
  pub told : (ret_ok (reply_text err) ≡ some false) × (ret_ok (reply_text ok) ≡ some true)

pub answered :
    {o : Outcome} {r : ℕ × Server} (err ok : Answer)
    → o ≡ answer err ok r
    → Plain err × Plain ok
    → (ret_ok (reply_text err) ≡ some false) × (ret_ok (reply_text ok) ≡ some true)
    → Answered o r
answered err ok e p t = record { err = err; ok = ok; outcome = e; plain = p; told = t }

module _ (env : Environment) (fd : ℕ) (s : Server)
    (ready : (s.sockets fd).awaiting_data ≡ false) where
  pub parse-ReadsSet :
      (who : Who) (name value buf : Bytes)
      → ReadsSet env.strdown who name value buf
      → parse env buf (length buf) fd s
        ≡ sends (
            set_named env.strdown env.default_module env.fnmatch env.specific env.debug_destination
              (map small name)
              who
              buf
              fd
              s)
  unfolding parse parse_command parse_set
  parse-ReadsSet who name value buf r =
      let (who_s, read, known) = r.target in
      rw (r.long, parse)
        (rw ready (rw r.command (rw (read, parse_set) (rw known (rw r.subject refl)))))

pub set_command-quiet :
    (who : Target) (name value : Bytes)
    → QuietWord name
    → QuietWord value
    → quiet (set_command (target_text who) name value) ≡ true
set_command-quiet who name value n v =
    quiet-append (target_text who) (b' ' ∷ (name ++ b' ' ∷ value)) (target_text-QuietWord who).1
      (quiet-append name (b' ' ∷ value) n.1 v.1)

module _ (env : Environment) (fd : ℕ) (command : Bytes) (s : Server)
    (clean : quiet command ≡ true) where
  -- A setter's result, told by one of two replies, is what the client returns.
  pub told-returned :
      (o : Outcome) (r : ℕ × Server)
      → Answered o r
      → parse env (command_line command) (length (command_line command)) fd s ≡ sends o
      → spd_execute_command env fd command (idle s) ≡ returned r
  told-returned o (zero, s1) told parsed =
      exchange env fd command told.ok s s1 clean (parsed ∙ ap sends told.outcome) told.plain.1 true
        told.told.1
  told-returned o (suc n, s1) told parsed =
      exchange env fd command told.err s s1 clean (parsed ∙ ap sends told.outcome) told.plain.0
        false told.told.0
